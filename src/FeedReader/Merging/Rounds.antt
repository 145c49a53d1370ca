-- ===== src/FeedReader/Merging/Rounds.antt =====
-- What one round of a merge does to the items of a subscription (Google-IO/2013/feed-reader/rss.go).
use mathlib.Core.List.{append-nil}
use golang_programming.Prelude.{
  ℕ, String, ◌≤◌, ◌≡◌, ◌⊎◌, inl, inr, refl, sym, subst, true, Option, none, some, List, [], ◌∷◌,
  ◌++◌, arith, length, if◌then◌else◌, ◌==◌, nat_eq, Bool-cases,
}
use golang_programming.FeedReader.{Item}
use golang_programming.FeedReader.Merging.{
  Worker, taking, holding, done, Merge, MergeEvent, gives, reads, closes, quits, set_worker,
  note_err, merge_round, merge_run,
}

abbrev pub in_hand : Worker → List Item
in_hand (holding item) = item ∷ []
in_hand _ = []

-- The items of one subscription among those that went out.
abbrev pub from : ℕ → List (ℕ × Item) → List Item
from i [] = []
from i ((j, item) ∷ sent) = if j == i then item ∷ from i sent else from i sent

-- The item that an event gives the goroutine of subscription `i`.
abbrev pub given : ℕ → MergeEvent → List Item
given i (gives j item) = if j == i then item ∷ [] else []
given i _ = []

-- What the goroutine of subscription `i` took from it.
abbrev pub taken : ℕ → List MergeEvent → Merge → List Item
taken i [] m = []
taken i (e ∷ events) m = elim (merge_round e m) [
  | none ↦ taken i events m
  | some (m', out) ↦ given i e ++ taken i events m'
]

abbrev pub outs : Option (ℕ × Item) → List (ℕ × Item)
outs none = []
outs (some out) = out ∷ []

pub run_ready :
    (e : MergeEvent) (events : List MergeEvent) (m m' : Merge) (out : Option (ℕ × Item))
    → merge_round e m ≡ some (m', out)
    → merge_run (e ∷ events) m ≡ ((merge_run events m').0, outs out ++ (merge_run events m').1)
unfolding merge_run
run_ready e events m m' none p = ground (arith, p)
run_ready e events m m' (some out) p = ground (arith, p)

pub run_not_ready :
    (e : MergeEvent) (events : List MergeEvent) (m : Merge)
    → merge_round e m ≡ none
    → merge_run (e ∷ events) m ≡ merge_run events m
unfolding merge_run
run_not_ready e events m p = ground (arith, p)

pub from-append : (i : ℕ) (xs ys : List (ℕ × Item)) → from i (xs ++ ys) ≡ from i xs ++ from i ys
from-append i [] ys = refl
from-append i ((j, item) ∷ xs) ys = ground (arith, from-append i xs ys)

-- What a round does to subscription `i`: its goroutine passes items on, or it ends.
abbrev Passes : ℕ → MergeEvent → Merge → Merge × Option (ℕ × Item) → Type 0
Passes i e m (m', out) =
    (in_hand (m.worker i) ++ given i e ≡ from i (outs out) ++ in_hand (m'.worker i))
    ⊎ ((m'.worker i ≡ done) × (given i e ≡ []) × (out ≡ none))

Worker-cases : (w : Worker) → (w ≡ taking) ⊎ ((item : Item) × (w ≡ holding item)) ⊎ (w ≡ done)
Worker-cases taking = inl refl
Worker-cases (holding item) = inr (inl (item, refl))
Worker-cases done = inr (inr refl)

-- The round of an event that is ready.
ready_gives :
    (j : ℕ) (item : Item) (m : Merge) (r : Merge × Option (ℕ × Item))
    → merge_round (gives j item) m ≡ some r
    → (m.worker j ≡ taking) × (r ≡ (set_worker j (holding item) m, none))
unfolding merge_round
ready_gives j item m r p = elim (Worker-cases (m.worker j)) [
  | inl e ↦ (e, ground arith)
  | inr (inl (held, e)) ↦ ground arith
  | inr (inr e) ↦ ground arith
]

ready_reads :
    (j : ℕ) (m : Merge) (r : Merge × Option (ℕ × Item))
    → merge_round (reads j) m ≡ some r
    → (item : Item) × (m.worker j ≡ holding item) × (r ≡ (set_worker j taking m, some (j, item)))
unfolding merge_round
ready_reads j m r p = elim (Worker-cases (m.worker j)) [
  | inl e ↦ ground arith
  | inr (inl (item, e)) ↦ (item, e, ground arith)
  | inr (inr e) ↦ ground arith
]

ready_quits :
    (j : ℕ) (err : Option String) (m : Merge) (r : Merge × Option (ℕ × Item))
    → merge_round (quits j err) m ≡ some r
    → r ≡ (note_err err (set_worker j done m), none)
unfolding merge_round
ready_quits j err m r p = ground arith

ready_closes :
    (m : Merge) (r : Merge × Option (ℕ × Item))
    → merge_round closes m ≡ some r
    → r ≡ (record m { quit = true; waits = m.subs; closed = m.subs == 0 }, none)
unfolding merge_round
ready_closes m r p = ground arith

pub round-Passes :
    (i : ℕ) (e : MergeEvent) (m : Merge) (r : Merge × Option (ℕ × Item))
    → merge_round e m ≡ some r
    → Passes i e m r
round-Passes i (gives j item) m r p =
    let (e, q) = ready_gives j item m r p in
    subst (Passes i (gives j item) m) (sym q) (elim (Bool-cases (j == i)) [
      | inl f ↦ inl (ground arith)
      | inr f ↦ inl (ground (arith, append-nil (in_hand (m.worker i))))
    ])
round-Passes i (reads j) m r p =
    let (item, e, q) = ready_reads j m r p in
    subst (Passes i (reads j) m) (sym q) (elim (Bool-cases (j == i)) [
      | inl f ↦ inl (ground arith)
      | inr f ↦ inl (ground (arith, append-nil (in_hand (m.worker i))))
    ])
round-Passes i closes m r p =
    subst (Passes i closes m) (sym (ready_closes m r p)) (inl (append-nil (in_hand (m.worker i))))
round-Passes i (quits j err) m r p =
    subst (Passes i (quits j err) m) (sym (ready_quits j err m r p)) (elim (Bool-cases (j == i)) [
      | inl f ↦ inr (ground arith, refl, refl)
      | inr f ↦ inl (ground (arith, append-nil (in_hand (m.worker i))))
    ])

-- Of the items `before` and those taken, all went out but `rest`: the one in hand, or one that was
-- dropped by a goroutine that has ended.
pub record Left (i : ℕ) (before items : List Item) (m : Merge) (sent : List (ℕ × Item))
    : Type 0 where
  pub rest : List Item
  pub split : before ++ items ≡ from i sent ++ rest
  pub where_left : (rest ≡ in_hand (m.worker i)) ⊎ ((m.worker i ≡ done) × (length rest ≤ 1))

pub length-in_hand : (w : Worker) → length (in_hand w) ≤ 1
length-in_hand taking = omega arith
length-in_hand (holding item) = omega arith
length-in_hand done = omega arith

-- A goroutine that has ended does nothing more.
abbrev Stays : ℕ → MergeEvent → Merge × Option (ℕ × Item) → Type 0
Stays i e (m', out) = (m'.worker i ≡ done) × (given i e ≡ []) × (from i (outs out) ≡ [])

pub round-Stays :
    (i : ℕ) (e : MergeEvent) (m : Merge) (r : Merge × Option (ℕ × Item))
    → m.worker i ≡ done
    → merge_round e m ≡ some r
    → Stays i e r
round-Stays i (gives j item) m r d p =
    let (e, q) = ready_gives j item m r p in
    subst (Stays i (gives j item)) (sym q) (elim (Bool-cases (j == i)) [
      | inl f ↦ ground arith
      | inr f ↦ (ground arith, ground arith, refl)
    ])
round-Stays i (reads j) m r d p =
    let (item, e, q) = ready_reads j m r p in
    subst (Stays i (reads j)) (sym q) (elim (Bool-cases (j == i)) [
      | inl f ↦ ground arith
      | inr f ↦ (ground arith, refl, ground arith)
    ])
round-Stays i closes m r d p = subst (Stays i closes) (sym (ready_closes m r p)) (d, refl, refl)
round-Stays i (quits j err) m r d p =
    subst (Stays i (quits j err)) (sym (ready_quits j err m r p)) (ground arith, refl, refl)
