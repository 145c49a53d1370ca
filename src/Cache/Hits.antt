-- ===== src/Cache/Hits.antt =====
-- When the cache answers, and when it panics (15-440/P2-F11/cache/cache.go).
use golang_programming.Prelude.{
  ℕ, ◌+◌, ◌*◌, ◌<◌, ◌≡◌, ◌≢◌, ◌⊎◌, refl, ◌∙◌, String, Bool, true, false, Option, none, some, [],
  ◌∷◌, arith, text_eq, GoMap, Option-cases, inl, inr, List,
}
use golang_programming.Cache.{
  Entry, hit, clean, is_over, get, grant, evict, evict_entry, query_cache_seconds, new_entry,
}

List-cases {ℓ} : {A : Type ℓ} (l : List A) → (l ≡ []) ⊎ ((x : A) × (xs : List A) × (l ≡ x ∷ xs))
List-cases [] = inl refl
List-cases (x ∷ xs) = inr (x, xs, refl)

-- An answer from the cache is the value of an entry whose lease was granted and is not over, with a
-- query in the last ten seconds that was not answered from the cache.
pub get-hit :
    {V : Type 0} (key : String) (now : ℕ) (want : Bool) (c : GoMap String (Entry V)) (v : Option V)
    → (get key now want c).1 ≡ hit v
    → (e : Entry V) × (c key ≡ some e)
      × (e.granted ≡ true)
      × (is_over now e ≡ false)
      × (e.val ≡ v)
      × (time : ℕ) × (ll : List ℕ) × (clean now e.ll ≡ time ∷ ll)
unfolding get evict evict_entry
get-hit key now want c v h = elim (Option-cases (c key)) [
  | inl e ↦ ground arith
  | inr (e, f) ↦ elim (List-cases (clean now e.ll)) [
    | inl p ↦ ground arith
    | inr (time, ll, p) ↦ (e, f, ground arith, ground arith, ground arith, time, ll, p)
  ]
]

module _ {V : Type 0} (key : String) (now : ℕ) (want : Bool) (c : GoMap String (Entry V)) where
  get-enters : c key ≡ none → (get key now want c).0 key ≡ some (record new_entry { ll = now ∷ [] })
  unfolding get evict
  get-enters absent = ground arith

  get-others : (other : String) → key ≢ other → (get other now want c).0 key ≡ evict now c key
  unfolding get
  get-others other ne = ground arith

  evict-old : (e : Entry V) → c key ≡ some e → clean now e.ll ≡ [] → evict now c key ≡ none
  unfolding evict evict_entry
  evict-old e p q = ground arith

  grant-absent : (v : Option V) (seconds : ℕ) → c key ≡ none → grant key v seconds now c ≡ none
  unfolding grant
  grant-absent v seconds absent = ground arith

clean-one : (now later : ℕ) → now + 1000 * query_cache_seconds < later → clean later (now ∷ []) ≡ []
unfolding clean
clean-one now later slow = ground arith

-- A key that a get enters in the cache is gone after a get of another key more than ten seconds
-- later, and a grant of the first key then panics.
pub slow_grant_panics :
    {V : Type 0} (key other : String) (now later : ℕ) (want : Bool) (c : GoMap String (Entry V))
    (v : Option V) (seconds : ℕ)
    → key ≢ other
    → c key ≡ none
    → now + 1000 * query_cache_seconds < later
    → grant key v seconds later (get other later want (get key now want c).0).0 ≡ none
slow_grant_panics key other now later want c v seconds ne absent slow =
    let d = (get key now want c).0 in
    grant-absent key later want (get other later want d).0 v seconds (
      get-others key later want d other ne
      ∙ evict-old key later want d (record new_entry { ll = now ∷ [] })
          (get-enters key now want c absent) (clean-one now later slow))
