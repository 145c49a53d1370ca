-- ===== src/Cache/Queries.antt =====
-- The times of the queries that an entry keeps (15-440/P2-F11/cache/cache.go).
use golang_programming.Prelude.{
  ℕ, ◌≤◌, ◌≡◌, refl, false, List, [], ◌∷◌, arith, if◌then◌else◌, All, Bool-cases, inl, inr,
}
use golang_programming.Cache.{clean, is_old}

-- The times rise, as Get appends them.
abbrev pub Ascending : List ℕ → Type 0
Ascending [] = Unit
Ascending (x ∷ l) = All (λ y. x ≤ y) l × Ascending l

-- The queries of the last ten seconds.
abbrev pub recent : ℕ → List ℕ → List ℕ
recent now [] = []
recent now (x ∷ l) = let kept : List ℕ = recent now l in if is_old now x then kept else x ∷ kept

recent-none_old :
    (now x : ℕ) (l : List ℕ) → is_old now x ≡ false → All (λ y. x ≤ y) l → recent now l ≡ l
recent-none_old now x [] young a = refl
recent-none_old now x (y ∷ l) young a = ground (arith, a.0, recent-none_old now x l young a.1)

-- `clean`, which stops at the first query that is not old, keeps exactly the queries of the last ten
-- seconds when the times rise.
pub clean-recent : (now : ℕ) (l : List ℕ) → Ascending l → clean now l ≡ recent now l
unfolding clean
clean-recent now [] a = refl
clean-recent now (x ∷ l) a = elim (Bool-cases (is_old now x)) [
  | inl e ↦ ground (arith, clean-recent now l a.1)
  | inr e ↦ ground (arith, recent-none_old now x l e a.0)
]
