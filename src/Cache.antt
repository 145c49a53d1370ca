-- ===== src/Cache.antt =====
-- The lease cache of the library store: 15-440/P2-F11/cache/cache.go. Times are milliseconds. The
-- entries of the Go map are independent in the loop of `evict`, so its order does not matter. A
-- cached value is an element of `V`, and `none` is nil. The mutexes are not modelled.
pub mod Queries
pub mod Hits
use golang_programming.Prelude.{
  ℕ, ◌-◌, ◌*◌, String, Bool, true, false, ◌&&◌, Option, none, some, List, [], ◌∷◌, ◌++◌, length,
  ltb, if◌then◌else◌, text_eq, GoMap, empty, insert,
}

abbrev pub query_cache_seconds : ℕ
query_cache_seconds = 10

abbrev pub query_cache_thresh : ℕ
query_cache_thresh = 3

pub record Entry (V : Type 0) : Type 0 where
  pub granted : Bool
  pub ll : List ℕ
  pub val : Option V
  pub lease_time : ℕ
  pub lease_dur : ℕ

-- What Get returns: the value, or the error with `args.WantLease`.
pub data Found (V : Type 0) : Type 0 where
  hit : Option V → Found V
  miss : Bool → Found V

-- dur > time.Duration(sp.QUERY_CACHE_SECONDS)*time.Second
abbrev pub is_old : ℕ → ℕ → Bool
is_old now time = ltb (1000 * query_cache_seconds) (now - time)

unfoldable pub clean : ℕ → List ℕ → List ℕ
clean now [] = []
clean now (time ∷ ll) =
    let cleaned : List ℕ = clean now ll in if is_old now time then cleaned else time ∷ ll

module _ {V : Type 0} where
  abbrev pub new_cache : GoMap String (Entry V)
  new_cache = empty

  abbrev pub new_entry : Entry V
  new_entry = record { granted = false; ll = []; val = none; lease_time = 0; lease_dur = 0 }

  -- dur > e.leaseDur
  abbrev pub is_over : ℕ → Entry V → Bool
  is_over now e = ltb e.lease_dur (now - e.lease_time)

  -- One turn of the loop of `evict`; `none` deletes the key.
  unfoldable pub evict_entry : ℕ → Entry V → Option (Entry V)
  evict_entry now e =
      let granted : Bool = if e.granted && is_over now e then false else e.granted in
      elim (clean now e.ll) [
        | [] ↦ none
        | time ∷ ll ↦ some (record e { granted = granted; ll = time ∷ ll })
      ]

  unfoldable pub evict : ℕ → GoMap String (Entry V) → GoMap String (Entry V)
  evict now c key = elim (c key) [ none ↦ none | some e ↦ evict_entry now e ]

  abbrev pub entry_or_new : Option (Entry V) → Entry V
  entry_or_new none = new_entry
  entry_or_new (some e) = e

  -- What Get does with the entry, after the eviction.
  abbrev pub look_up : ℕ → Bool → Entry V → Entry V × Found V
  look_up now want e =
      let ll : List ℕ = e.ll ++ now ∷ [] in
      if e.granted
      then (e, hit e.val)
      else (record e { ll = ll }, miss (if ltb query_cache_thresh (length ll) then true else want))

  unfoldable pub get : String → ℕ → Bool → GoMap String (Entry V) → GoMap String (Entry V) × Found V
  get key now want c =
      let evicted : GoMap String (Entry V) = evict now c in
      let (e, found) = look_up now want (entry_or_new (evicted key)) in
      (insert key e evicted, found)

  unfoldable pub revoke : String → GoMap String (Entry V) → GoMap String (Entry V) × Bool
  revoke key c = elim (c key) [
    | none ↦ (c, false)
    | some e ↦ (insert key (record e { granted = false }) c, true)
  ]

  -- Grant, with the seconds of the lease; `none` is its panic on a missing key
  unfoldable pub grant :
      String → Option V → ℕ → ℕ → GoMap String (Entry V) → Option (GoMap String (Entry V))
  grant key val seconds now c = elim (c key) [
    | none ↦ none
    | some e ↦ some (
        insert key
          (record e { granted = true; val = val; lease_time = now; lease_dur = 1000 * seconds }) c)
  ]
