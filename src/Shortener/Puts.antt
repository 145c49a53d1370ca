-- ===== src/Shortener/Puts.antt =====
-- Puts of a store, and the records that a restart reads again (goto/store.go).
use golang_programming.Prelude.{
  ℕ, zero, suc, ◌+◌, ◌^◌, ◌≤◌, ◌<◌, ◌≡◌, ◌≢◌, refl, sym, ap, ◌∙◌, String, true, Option, none, some,
  List, [], ◌∷◌, ◌++◌, length, arith, nat_eq, bytes_eq, ◌>>=◌,
}
use golang_programming.Shortener.{
  Key, gen_key, Record, UrlStore, empty_store, lookup, get, set, count, stored, out_of_fuel, put,
  load, new_url_store,
}
use golang_programming.Shortener.Keys.{gen_key-value, gen_key_injective}

-- The keys are those of 0, 1, 2, …, the newest in front.
abbrev pub AreDense : List (Key × String) → Type 0
AreDense [] = Unit
AreDense ((key, url) ∷ urls) = (gen_key (length urls) ≡ some key) × AreDense urls

lookup-AreDense :
    (urls : List (Key × String)) (n : ℕ) (key : Key)
    → AreDense urls
    → length urls ≤ n
    → n < 2 ^ 63
    → gen_key n ≡ some key
    → lookup key urls ≡ none
unfolding lookup
lookup-AreDense [] n key d le lt e = refl
lookup-AreDense ((k, url) ∷ urls) n key (f, d) le lt e =
    let differ : k ≢ key = λ p.
      ne_of_lt (omega arith)
        (gen_key_injective (length urls) n (omega arith) lt (f ∙ ap some p ∙ sym e)) in
    ground (arith, differ, lookup-AreDense urls n key d (omega arith) lt e)
  where
    ne_of_lt : {a b : ℕ} → a < b → a ≢ b
    ne_of_lt lt p = omega (arith, lt, p)

-- The store after the records that it saved are read again holds the same.
abbrev pub Reloads : UrlStore → Type 0
Reloads s = (load s.save (empty_store true)).urls ≡ s.urls

-- The keys are dense, and a store that saves can be read again from what it saved.
pub record IsKept (s : UrlStore) : Type 0 where
  pub dense : AreDense s.urls
  pub saves : s.saves ≡ true
  pub reloads : Reloads s

load-append :
    (records : List Record) (r : Record) (s : UrlStore)
    → load (records ++ r ∷ []) s ≡ (set r.key r.url (load records s)).0
unfolding load
load-append [] r s = refl
load-append (q ∷ records) r s = load-append records r (set q.key q.url s).0

set-absent :
    (key : Key) (url : String) (s : UrlStore)
    → lookup key s.urls ≡ none
    → (set key url s).0.urls ≡ (key, url) ∷ s.urls
unfolding set
set-absent key url s e = ground arith

Reloads-save :
    (key : Key) (url : String) (s : UrlStore)
    → lookup key s.urls ≡ none
    → Reloads s
    → (load (s.save ++ record { key = key; url = url } ∷ []) (empty_store true)).urls
      ≡ (key, url) ∷ s.urls
Reloads-save key url s absent same =
    let read : UrlStore = load s.save (empty_store true) in
    ap (λ t. t.urls) (load-append s.save (record { key = key; url = url }) (empty_store true))
    ∙ set-absent key url read (ap (lookup key) same ∙ absent)
    ∙ ap (λ urls. (key, url) ∷ urls) same

lookup-kept :
    (urls : List (Key × String)) (key : Key) (url : String)
    → lookup key urls ≡ none
    → (k : Key) (u : String) → lookup k urls ≡ some u
    → lookup k ((key, url) ∷ urls) ≡ some u
unfolding lookup
lookup-kept urls key url absent k u h = ground arith

lookup-front :
    (urls : List (Key × String)) (key : Key) (url : String)
    → lookup key ((key, url) ∷ urls) ≡ some url
unfolding lookup
lookup-front urls key url = ground arith

-- One put in a kept store.
pub put-IsKept :
    (fuel : ℕ) (url : String) (s : UrlStore)
    → IsKept s
    → count s < 2 ^ 63
    → (s' : UrlStore) × (key : Key) × (put (suc fuel) url s ≡ stored s' key)
      × (gen_key (count s) ≡ some key)
      × (s'.urls ≡ (key, url) ∷ s.urls)
      × IsKept s'
      × ((k : Key) (u : String) → get k s ≡ some u → get k s' ≡ some u)
      × (get key s' ≡ some url)
unfolding put set
put-IsKept fuel url s kept lt =
    let (key, e, _, _) = gen_key-value (count s) lt in
    let absent = lookup-AreDense s.urls (count s) key kept.dense (omega arith) lt e in
    (
      record s {
        urls = (key, url) ∷ s.urls;
        save = s.save ++ record { key = key; url = url } ∷ [];
      },
      key,
      ground (arith, kept.saves),
      e,
      refl,
      record {
        dense = (e, kept.dense);
        saves = kept.saves;
        reloads = Reloads-save key url s absent kept.reloads;
      },
      lookup-kept s.urls key url absent,
      lookup-front s.urls key url,
    )

-- The puts of these URLs one after another, with one round of the loop for each.
unfoldable pub put_all : List String → UrlStore → Option (UrlStore × List Key)
put_all [] s = some (s, [])
put_all (url ∷ urls) s = elim (put 1 url s) [
  | stored s' key ↦ (do r ← put_all urls s'; some (r.0, key ∷ r.1))
  | _ ↦ none
]

-- What a kept store answers on the keys of these URLs.
abbrev pub Answers : UrlStore → List String → List Key → Type 0
Answers s [] [] = Unit
Answers s (url ∷ urls) (key ∷ keys) = (get key s ≡ some url) × Answers s urls keys
Answers s _ _ = ⊥

put_all-IsKept :
    (urls : List String) (s : UrlStore)
    → IsKept s
    → length urls + count s ≤ 2 ^ 63
    → (s' : UrlStore) × (keys : List Key) × (put_all urls s ≡ some (s', keys))
      × IsKept s'
      × ((k : Key) (u : String) → get k s ≡ some u → get k s' ≡ some u)
      × Answers s' urls keys
unfolding put_all
put_all-IsKept [] s kept lt = (s, [], refl, kept, (λ k u h. h), tt)
put_all-IsKept (url ∷ urls) s kept lt =
    let (s₁, key, e, g, f, kept₁, keeps, reads) = put-IsKept 0 url s kept (omega arith) in
    let (s', keys, h, kept', holds, answers) =
      put_all-IsKept urls s₁ kept₁ (omega (arith, ap length f)) in
    (
      s',
      key ∷ keys,
      ground (arith, e, h),
      kept',
      (λ k u p. holds k u (keeps k u p)),
      (holds key url reads, answers),
    )

-- Any URLs put in an empty store that saves, while their number fits in an `int`, are stored in one
-- round of the loop each, and each key then gets its URL; a store that reads the saved records after a
-- restart answers the same on every key.
pub put_all-get :
    (urls : List String)
    → length urls ≤ 2 ^ 63
    → (s : UrlStore) × (keys : List Key) × (put_all urls (empty_store true) ≡ some (s, keys))
      × Answers s urls keys
      × ((key : Key) → get key (new_url_store s.save) ≡ get key s)
unfolding load
put_all-get urls lt =
    let (s, keys, e, kept, _, answers) =
      put_all-IsKept urls (empty_store true) (record { dense = tt; saves = refl; reloads = refl })
        (omega arith) in
    (s, keys, e, answers, λ key. ap (lookup key) kept.reloads)

-- When the key of the number of stored URLs is taken, as after a restart on a file that lacks a record,
-- Put never answers.
pub put_stuck :
    (fuel : ℕ) (url other : String) (key : Key) (s : UrlStore)
    → gen_key (count s) ≡ some key
    → get key s ≡ some other
    → put fuel url s ≡ out_of_fuel
unfolding put set
put_stuck zero url other key s e taken = refl
put_stuck (suc fuel) url other key s e taken =
    ground (arith, put_stuck fuel url other key s e taken)
