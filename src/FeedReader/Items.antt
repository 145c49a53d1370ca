-- ===== src/FeedReader/Items.antt =====
-- What a subscription sends (Google-IO/2013/feed-reader/rss.go).
use mathlib.Core.List.{append-nil, append_assoc}
use golang_programming.Prelude.{
  ℕ, ◌≡◌, inl, inr, refl, sym, ap, subst, ◌∙◌, String, true, false, none, some, List, [], ◌∷◌, ◌++◌,
  arith, if◌then◌else◌, text_eq, Bool-cases, Option-cases,
}
use golang_programming.FeedReader.{
  Item, FetchResult, Sub, new_sub, is_seen, take_new, fetch_done, Event, timer, results, reads,
  closes, not_ready, goes, ended, may_fetch, round, Course, loop,
}

-- The results that the loop receives: those of the fetches that it had started, up to its end.
abbrev pub received : List Event → Sub → List FetchResult
received [] s = []
received (results result now ∷ events) s =
    if s.fetching then result ∷ received events (fetch_done result now s) else received events s
received (e ∷ events) s = elim (round e s) [
  | not_ready ↦ received events s
  | goes s' item ↦ received events s'
  | ended err ↦ []
]

-- The items of a result, none of one with an error.
abbrev pub news : FetchResult → List Item
news result = elim result.err [ none ↦ result.fetched | some e ↦ [] ]

abbrev pub items_of : List FetchResult → List Item
items_of [] = []
items_of (result ∷ more) = news result ++ items_of more

-- The items whose GUID is new, each the first with its GUID.
abbrev pub firsts : List String → List Item → List Item
firsts seen [] = []
firsts seen (item ∷ items) =
    if is_seen item.guid seen then firsts seen items else item ∷ firsts (item.guid ∷ seen) items

-- The GUIDs that are seen after these items.
abbrev pub seen_after : List String → List Item → List String
seen_after seen [] = seen
seen_after seen (item ∷ items) =
    seen_after (if is_seen item.guid seen then seen else item.guid ∷ seen) items

pub take_new-firsts :
    (fetched : List Item) (s : Sub)
    → take_new fetched s
      ≡ record s { pending = s.pending ++ firsts s.seen fetched; seen = seen_after s.seen fetched }
unfolding take_new
take_new-firsts [] s = ap (λ l. record s { pending = l }) (sym (append-nil s.pending))
take_new-firsts (item ∷ fetched) s = elim (Bool-cases (is_seen item.guid s.seen)) [
  | inl e ↦ rw e (take_new-firsts fetched s)
  | inr e ↦
      let s' : Sub = record s { pending = s.pending ++ item ∷ []; seen = item.guid ∷ s.seen } in
      let assoc = append_assoc s.pending (item ∷ []) (firsts (item.guid ∷ s.seen) fetched) in
      rw e (
        take_new-firsts fetched s'
        ∙ ap (λ l. record s { pending = l; seen = seen_after (item.guid ∷ s.seen) fetched }) assoc)
]

firsts-append :
    (seen : List String) (xs ys : List Item)
    → firsts seen (xs ++ ys) ≡ firsts seen xs ++ firsts (seen_after seen xs) ys
firsts-append seen [] ys = refl
firsts-append seen (x ∷ xs) ys = elim (Bool-cases (is_seen x.guid seen)) [
  | inl e ↦ rw e (firsts-append seen xs ys)
  | inr e ↦ rw e (ap (λ l. x ∷ l) (firsts-append (x.guid ∷ seen) xs ys))
]

-- What was sent and what is pending.
abbrev pub shown : Course → List Item
shown c = c.sent ++ c.sub.pending

-- The subscription after a result.
pub fetch_done-news :
    (result : FetchResult) (now : ℕ) (s : Sub)
    → ((fetch_done result now s).pending ≡ s.pending ++ firsts s.seen (news result))
      × ((fetch_done result now s).seen ≡ seen_after s.seen (news result))
unfolding fetch_done
fetch_done-news result now s = elim (Option-cases result.err) [
  | inr (e, p) ↦ (rw p (sym (append-nil s.pending)), rw p refl)
  | inl p ↦
      let s' : Sub = record s { fetching = false; next = result.next; err = result.err } in
      let e : fetch_done result now s ≡ take_new result.fetched s' = ground (arith, p) in
      let done = e ∙ take_new-firsts result.fetched s' in
      let n : result.fetched ≡ news result = rw p refl in
      (
        ap (λ x. x.pending) done ∙ ap (λ l. s.pending ++ firsts s.seen l) n,
        ap (λ x. x.seen) done ∙ ap (λ l. seen_after s.seen l) n,
      )
]

-- The events that are not results.
loop-sends :
    (events : List Event) (s : Sub) (l : List Item)
    → s.pending ≡ l
    → ((rest : List Item)
        → shown (loop events (record s { pending = rest }))
          ≡ rest ++ firsts s.seen (items_of (received events (record s { pending = rest }))))
    → shown (loop (reads ∷ events) s)
      ≡ s.pending ++ firsts s.seen (items_of (received (reads ∷ events) s))
unfolding loop round
loop-sends events s [] e ih = ground (arith, e, ih s.pending)
loop-sends events s (x ∷ rest) e ih = ground (arith, e, ih rest)

loop-firsts :
    (events : List Event) (s : Sub)
    → shown (loop events s) ≡ s.pending ++ firsts s.seen (items_of (received events s))
unfolding loop round
loop-firsts [] s = sym (append-nil s.pending)
loop-firsts (timer now ∷ events) s = elim (Bool-cases (may_fetch now s)) [
  | inl e ↦ ground (arith, e, loop-firsts events (record s { fetching = true }))
  | inr e ↦ ground (arith, e, loop-firsts events s)
]
loop-firsts (results result now ∷ events) s = elim (Bool-cases s.fetching) [
  | inl e ↦
      let s' : Sub = fetch_done result now s in
      let more : List Item = items_of (received events s') in
      let (p, q) = fetch_done-news result now s in
      let took : s'.pending ++ firsts s'.seen more
          ≡ s.pending ++ firsts s.seen (news result ++ more) =
        ap (λ l. l ++ firsts s'.seen more) p
        ∙ append_assoc s.pending (firsts s.seen (news result)) (firsts s'.seen more)
        ∙ ap (λ g. s.pending ++ (firsts s.seen (news result) ++ firsts g more)) q
        ∙ ap (λ l. s.pending ++ l) (sym (firsts-append s.seen (news result) more)) in
      rw e (loop-firsts events s' ∙ took)
  | inr e ↦ ground (arith, e, loop-firsts events s)
]
loop-firsts (reads ∷ events) s =
    loop-sends events s s.pending refl (λ rest. loop-firsts events (record s { pending = rest }))
loop-firsts (closes ∷ events) s = sym (append-nil s.pending)

-- No GUID stands twice, and none is among those seen.
abbrev pub AreNew : List String → List Item → Type 0
AreNew seen [] = Unit
AreNew seen (item ∷ items) = (is_seen item.guid seen ≡ false) × AreNew (item.guid ∷ seen) items

firsts-AreNew : (seen : List String) (items : List Item) → AreNew seen (firsts seen items)
firsts-AreNew seen [] = tt
firsts-AreNew seen (item ∷ items) = elim (Bool-cases (is_seen item.guid seen)) [
  | inl e ↦ rw e (firsts-AreNew seen items)
  | inr e ↦ rw e (e, firsts-AreNew (item.guid ∷ seen) items)
]

-- Whatever is ready in whatever order, what a subscription has sent and what is pending are together
-- the items of the fetches without an error that it received, in order, each GUID once, with the first
-- item that has it.
pub loop_lem :
    (events : List Event)
    → (shown (loop events new_sub) ≡ firsts [] (items_of (received events new_sub)))
      × AreNew [] (shown (loop events new_sub))
loop_lem events =
    let e = loop-firsts events new_sub in
    (e, subst (AreNew []) (sym e) (firsts-AreNew [] (items_of (received events new_sub))))
