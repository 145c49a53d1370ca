-- ===== src/FeedReader/Merging/InOrder.antt =====
-- The items of one subscription through a merge (Google-IO/2013/feed-reader/rss.go).
use mathlib.Core.List.{append-nil, append_assoc}
use golang_programming.Prelude.{
  ℕ, ◌≤◌, ◌≡◌, ◌⊎◌, inl, inr, refl, sym, ap, subst, ◌∙◌, Option, none, some, List, [], ◌∷◌, ◌++◌,
  arith, length, nat_eq, Option-cases,
}
use golang_programming.FeedReader.{Item}
use golang_programming.FeedReader.Merging.{
  done, Merge, new_merge, MergeEvent, merge_round, merge_run,
}
use golang_programming.FeedReader.Merging.Rounds.{
  in_hand, from, given, taken, outs, run_ready, run_not_ready, from-append, round-Passes, Left,
  length-in_hand, round-Stays,
}

-- The goroutine of `i` after these events, and what it took and sent meanwhile: nothing.
record IsOver (i : ℕ) (items : List Item) (last : Merge × List (ℕ × Item)) : Type 0 where
  nothing_taken : items ≡ []
  nothing_sent : from i last.1 ≡ []
  still_done : last.0.worker i ≡ done

taken_ready :
    (i : ℕ) (e : MergeEvent) (events : List MergeEvent) (m m' : Merge) (out : Option (ℕ × Item))
    → merge_round e m ≡ some (m', out)
    → taken i (e ∷ events) m ≡ given i e ++ taken i events m'
taken_ready i e events m m' out p = ground (arith, p)

taken_not_ready :
    (i : ℕ) (e : MergeEvent) (events : List MergeEvent) (m : Merge)
    → merge_round e m ≡ none
    → taken i (e ∷ events) m ≡ taken i events m
taken_not_ready i e events m p = ground (arith, p)

run-IsOver :
    (i : ℕ) (events : List MergeEvent) (m : Merge)
    → m.worker i ≡ done
    → IsOver i (taken i events m) (merge_run events m)
unfolding merge_run
run-IsOver i [] m d = record { nothing_taken = refl; nothing_sent = refl; still_done = d }
run-IsOver i (e ∷ events) m d = elim (Option-cases (merge_round e m)) [
  | inl p ↦
      let v = run-IsOver i events m d in
      record {
        nothing_taken = taken_not_ready i e events m p ∙ v.nothing_taken;
        nothing_sent = ap (λ r. from i r.1) (run_not_ready e events m p) ∙ v.nothing_sent;
        still_done = ap (λ r. r.0.worker i) (run_not_ready e events m p) ∙ v.still_done;
      }
  | inr ((m', out), p) ↦
      let (d', g, o) = round-Stays i e m (m', out) d p in
      let v = run-IsOver i events m' d' in
      record {
        nothing_taken =
            taken_ready i e events m m' out p
            ∙ ap (λ l. l ++ taken i events m') g
            ∙ v.nothing_taken;
        nothing_sent =
            ap (λ r. from i r.1) (run_ready e events m m' out p)
            ∙ from-append i (outs out) (merge_run events m').1
            ∙ ap (λ l. l ++ from i (merge_run events m').1) o
            ∙ v.nothing_sent;
        still_done = ap (λ r. r.0.worker i) (run_ready e events m m' out p) ∙ v.still_done;
      }
]

run-Left :
    (i : ℕ) (events : List MergeEvent) (m : Merge)
    → Left i (in_hand (m.worker i)) (taken i events m) (merge_run events m).0 (merge_run events m).1
unfolding merge_run
run-Left i [] m = record {
  rest = in_hand (m.worker i);
  split = append-nil (in_hand (m.worker i));
  where_left = inl refl;
}
run-Left i (e ∷ events) m = elim (Option-cases (merge_round e m)) [
  | inl p ↦
      let v = run-Left i events m in
      let q = run_not_ready e events m p in
      subst (λ r. Left i (in_hand (m.worker i)) (taken i (e ∷ events) m) r.0 r.1) (sym q)
        (record {
          rest = v.rest;
          split = ap (λ l. in_hand (m.worker i) ++ l) (taken_not_ready i e events m p) ∙ v.split;
          where_left = v.where_left;
        })
  | inr ((m', out), p) ↦
      let q = run_ready e events m m' out p in
      let t = ap (λ l. in_hand (m.worker i) ++ l) (taken_ready i e events m m' out p) in
      let sent : List (ℕ × Item) = (merge_run events m').1 in
      subst (λ r. Left i (in_hand (m.worker i)) (taken i (e ∷ events) m) r.0 r.1) (sym q)
        (elim (round-Passes i e m (m', out) p) [
          | inl f ↦
              let v = run-Left i events m' in
              record {
                rest = v.rest;
                split =
                    t
                    ∙ sym (append_assoc (in_hand (m.worker i)) (given i e) (taken i events m'))
                    ∙ ap (λ l. l ++ taken i events m') f
                    ∙ append_assoc (from i (outs out)) (in_hand (m'.worker i)) (taken i events m')
                    ∙ ap (λ l. from i (outs out) ++ l) v.split
                    ∙ sym (append_assoc (from i (outs out)) (from i sent) v.rest)
                    ∙ ap (λ l. l ++ v.rest) (sym (from-append i (outs out) sent));
                where_left = v.where_left;
              }
          | inr (d, g, o) ↦
              let v = run-IsOver i events m' d in
              record {
                rest = in_hand (m.worker i);
                split =
                    t
                    ∙ ap (λ l. in_hand (m.worker i) ++ (l ++ taken i events m')) g
                    ∙ ap (λ l. in_hand (m.worker i) ++ l) v.nothing_taken
                    ∙ append-nil (in_hand (m.worker i))
                    ∙ ap (λ l. l ++ in_hand (m.worker i))
                        (sym (ap (λ x. from i (outs x ++ sent)) o ∙ v.nothing_sent));
                where_left = inr (v.still_done, length-in_hand (m.worker i));
              }
        ])
]

-- Whatever the goroutines, the reader and Close do, the items of each subscription go out of the
-- merge in the order in which they were taken from it, and all of them but the last one at most:
-- that is the one in hand, or one that its goroutine dropped when it ended.
pub merge_run-Left :
    (i subs : ℕ) (events : List MergeEvent)
    → let (m, sent) = merge_run events (new_merge subs) in
      (rest : List Item) × (taken i events (new_merge subs) ≡ from i sent ++ rest)
      × ((rest ≡ in_hand (m.worker i)) ⊎ ((m.worker i ≡ done) × (length rest ≤ 1)))
merge_run-Left i subs events =
    let v = run-Left i events (new_merge subs) in (v.rest, v.split, v.where_left)
