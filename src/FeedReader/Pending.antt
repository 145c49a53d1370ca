-- ===== src/FeedReader/Pending.antt =====
-- How many items a subscription keeps, and what Close returns (Google-IO/2013/feed-reader/rss.go).
use golang_programming.Prelude.{
  ℕ, ◌+◌, ◌<◌, ◌≤◌, ◌≡◌, inl, inr, refl, ap, sym, subst, ◌∙◌, ◌⊎◌, false-ne-true, String, true,
  false, Option, none, some, List, [], ◌∷◌, arith, length, length-append, Bool-cases,
}
use golang_programming.FeedReader.{
  Item, FetchResult, Sub, new_sub, fetch_done, take_new, Event, timer, results, reads, closes,
  not_ready, goes, ended, may_fetch, Round, round, loop,
}
use golang_programming.FeedReader.Items.{received, news, firsts, take_new-firsts, fetch_done-news}

-- No fetch returns more than `m` items.
abbrev pub Fits : ℕ → List Event → Type 0
Fits m [] = Unit
Fits m (results result now ∷ events) = (length result.fetched ≤ m) × Fits m events
Fits m (e ∷ events) = Fits m events

length-firsts : (seen : List String) (items : List Item) → length (firsts seen items) ≤ length items
length-firsts seen [] = omega arith
length-firsts seen (item ∷ items) =
    ground (arith, length-firsts seen items, length-firsts (item.guid ∷ seen) items)

length-news : (result : FetchResult) → length (news result) ≤ length result.fetched
length-news result = ground arith

-- While a fetch is on the way there is room.
record IsBounded (m : ℕ) (s : Sub) : Type 0 where
  room : s.fetching ≡ true → length s.pending < 10
  within : length s.pending ≤ 9 + m

take_new-fetching :
    (items : List Item) (s : Sub)
    → ((take_new items s).fetching ≡ s.fetching) × ((take_new items s).err ≡ s.err)
take_new-fetching items s =
    let e = take_new-firsts items s in (ap (λ x. x.fetching) e, ap (λ x. x.err) e)

fetch_done-fetching :
    (result : FetchResult) (now : ℕ) (s : Sub) → (fetch_done result now s).fetching ≡ false
unfolding fetch_done
fetch_done-fetching result now s =
    let s' : Sub = record s { fetching = false; next = result.next; err = result.err } in
    ground (arith, (take_new-fetching result.fetched s').0)

fetch_done-IsBounded :
    (m : ℕ) (result : FetchResult) (now : ℕ) (s : Sub)
    → length result.fetched ≤ m
    → IsBounded m s
    → s.fetching ≡ true
    → IsBounded m (fetch_done result now s)
fetch_done-IsBounded m result now s le v f =
    let n : length (fetch_done result now s).pending
        ≤ length s.pending + length (firsts s.seen (news result)) =
      omega (
        arith,
        ap length (fetch_done-news result now s).0,
        length-append s.pending (firsts s.seen (news result)),
      ) in
    let short = v.room f in
    record {
      room = λ g. absurd (false-ne-true (sym (fetch_done-fetching result now s) ∙ g));
      within = omega (arith, n, le, short, length-firsts s.seen (news result), length-news result);
    }

loop-goes :
    (e : Event) (events : List Event) (s s' : Sub) (item : Option Item)
    → round e s ≡ goes s' item
    → ((loop (e ∷ events) s).sub ≡ (loop events s').sub)
      × ((loop (e ∷ events) s).closed ≡ (loop events s').closed)
unfolding loop
loop-goes e events s s' none p = (ground (arith, p), ground (arith, p))
loop-goes e events s s' (some item) p = (ground (arith, p), ground (arith, p))

loop_waits :
    (e : Event) (events : List Event) (s : Sub)
    → round e s ≡ not_ready
    → loop (e ∷ events) s ≡ loop events s
unfolding loop
loop_waits e events s p = ground (arith, p)

-- The rounds keep the bound.
abbrev Keeps : ℕ → Sub → Round → Type 0
Keeps m s not_ready = Unit
Keeps m s (goes s' item) = IsBounded m s'
Keeps m s (ended err) = Unit

sent_IsBounded :
    (m : ℕ) (s : Sub) (l : List Item) → s.pending ≡ l → IsBounded m s → Keeps m s (round reads s)
unfolding round
sent_IsBounded m s [] e v = rw e tt
sent_IsBounded m s (x ∷ rest) e v =
    let short = v.room in
    let n = ap length e in
    rw e (record { room = λ f. omega (arith, n, short f); within = omega (arith, n, v.within) })

round-Keeps :
    (m : ℕ) (e : Event) (s : Sub) → Fits m (e ∷ []) → IsBounded m s → Keeps m s (round e s)
unfolding round
round-Keeps m (timer now) s fits v = elim (Bool-cases (may_fetch now s)) [
  | inl e ↦ rw e (record { room = λ _. ground (arith, e); within = v.within })
  | inr e ↦ rw e tt
]
round-Keeps m (results result now) s fits v = elim (Bool-cases s.fetching) [
  | inl e ↦ rw e (fetch_done-IsBounded m result now s fits.0 v e)
  | inr e ↦ rw e tt
]
round-Keeps m reads s fits v = sent_IsBounded m s s.pending refl v
round-Keeps m closes s fits v = tt

Round-cases :
    (r : Round)
    → (r ≡ not_ready)
      ⊎ ((s' : Sub) × (item : Option Item) × (r ≡ goes s' item))
      ⊎ ((err : Option String) × (r ≡ ended err))
Round-cases not_ready = inl refl
Round-cases (goes s' item) = inr (inl (s', item, refl))
Round-cases (ended err) = inr (inr (err, refl))

Fits-split :
    (m : ℕ) (e : Event) (events : List Event)
    → Fits m (e ∷ events)
    → Fits m (e ∷ []) × Fits m events
Fits-split m (results result now) events fits = ((fits.0, tt), fits.1)
Fits-split m (timer now) events fits = (tt, fits)
Fits-split m reads events fits = (tt, fits)
Fits-split m closes events fits = (tt, fits)

loop-ended :
    (e : Event) (events : List Event) (s : Sub) (err : Option String)
    → round e s ≡ ended err
    → loop (e ∷ events) s ≡ record { sub = s; sent = []; closed = some err }
unfolding loop
loop-ended e events s err p = ground (arith, p)

loop-IsBounded :
    (m : ℕ) (events : List Event) (s : Sub)
    → Fits m events
    → IsBounded m s
    → IsBounded m (loop events s).sub
unfolding loop
loop-IsBounded m [] s fits v = v
loop-IsBounded m (e ∷ events) s fits v =
    let (first, more) = Fits-split m e events fits in
    elim (Round-cases (round e s)) [
      | inl p ↦
          subst (λ c. IsBounded m c.sub) (sym (loop_waits e events s p))
            (loop-IsBounded m events s more v)
      | inr (inl (s', item, p)) ↦
          subst (IsBounded m) (sym (loop-goes e events s s' item p).0)
            (loop-IsBounded m events s' more (subst (Keeps m s) p (round-Keeps m e s first v)))
      | inr (inr (err, p)) ↦ subst (λ c. IsBounded m c.sub) (sym (loop-ended e events s err p)) v
    ]

-- When no fetch returns more than `m` items, at most 9 + `m` are pending at any time, and fewer than
-- ten while a fetch is on the way.
pub loop_bounds :
    (m : ℕ) (events : List Event)
    → Fits m events
    → (length (loop events new_sub).sub.pending ≤ 9 + m)
      × ((loop events new_sub).sub.fetching ≡ true → length (loop events new_sub).sub.pending < 10)
loop_bounds m events fits =
    let v =
      loop-IsBounded m events new_sub fits (record { room = λ e. cc; within = omega arith }) in
    (v.within, v.room)

-- The error of the last result.
abbrev pub last_err : Option String → List FetchResult → Option String
last_err err [] = err
last_err err (result ∷ more) = last_err result.err more

fetch_done-err :
    (result : FetchResult) (now : ℕ) (s : Sub) → (fetch_done result now s).err ≡ result.err
unfolding fetch_done
fetch_done-err result now s =
    let s' : Sub = record s { fetching = false; next = result.next; err = result.err } in
    ground (arith, (take_new-fetching result.fetched s').1)

-- The rounds that send an item or find nothing.
reads-last_err :
    (events : List Event) (s : Sub) (err : Option String) (l : List Item)
    → s.pending ≡ l
    → (loop (reads ∷ events) s).closed ≡ some err
    → ((rest : List Item)
        → (loop events (record s { pending = rest })).closed ≡ some err
        → err ≡ last_err s.err (received events (record s { pending = rest })))
    → err ≡ last_err s.err (received (reads ∷ events) s)
unfolding loop round
reads-last_err events s err [] e c ih = ground (arith, e, ih s.pending)
reads-last_err events s err (x ∷ rest) e c ih = ground (arith, e, ih rest)

loop-last_err :
    (events : List Event) (s : Sub) (err : Option String)
    → (loop events s).closed ≡ some err
    → err ≡ last_err s.err (received events s)
unfolding loop round
loop-last_err [] s err c = cc
loop-last_err (timer now ∷ events) s err c = elim (Bool-cases (may_fetch now s)) [
  | inl e ↦ ground (arith, e, loop-last_err events (record s { fetching = true }) err)
  | inr e ↦ ground (arith, e, loop-last_err events s err)
]
loop-last_err (results result now ∷ events) s err c = elim (Bool-cases s.fetching) [
  | inl e ↦
      let s' : Sub = fetch_done result now s in
      let p = loop-last_err events s' err (ground (arith, e)) in
      rw e (p ∙ ap (λ x. last_err x (received events s')) (fetch_done-err result now s))
  | inr e ↦ ground (arith, e, loop-last_err events s err)
]
loop-last_err (reads ∷ events) s err c =
    reads-last_err events s err s.pending refl c
      (λ rest. loop-last_err events (record s { pending = rest }) err)
loop-last_err (closes ∷ events) s err c = ground arith

-- Close returns the error of the last fetch that the subscription received, nil before the first.
pub loop-closed :
    (events : List Event) (err : Option String)
    → (loop events new_sub).closed ≡ some err
    → err ≡ last_err none (received events new_sub)
loop-closed events err c = loop-last_err events new_sub err c
