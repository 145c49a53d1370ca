-- ===== src/Shortener.antt =====
-- The URL shortener: goto/key.go and goto/store.go. A key is the list of its bytes. The Go map of a
-- store is an association list without repeated keys, so that its length is that of the map. `none`
-- is an index out of range in genKey. The log of saved records is a list; files, RPC registration, the
-- statistics and the HTTP handlers of goto/main.go are not modelled.
pub mod Keys
pub mod Puts
pub mod Proxy
use Prim.Native.Char.{code}
use Prim.Native.String
use golang_programming.Prelude.{
  ℕ, zero, suc, ◌+◌, ◌-◌, ◌*◌, ◌/◌, ◌%◌, String, Bool, true, false, Option, none, some, List, [],
  ◌∷◌, ◌++◌, length, get_elem?, if◌then◌else◌, ◌==◌, nat_eq, bytes_eq, ◌>>=◌,
}

abbrev pub Key : Type 0
Key = List ℕ

-- []byte(s) for a text of ASCII characters
abbrev pub codes : String → List ℕ
codes String.[] = []
codes (String.◌∷◌ c s) = code c ∷ codes s

unfoldable pub key_char : List ℕ
key_char = codes "0123456789abcdefghijklmnopqrstuvwxyzABCDEFGHIJKLMNOPQRSTUVWXYZ"

-- The loop of genKey with `i` free bytes in front of `key`. With none left, `s[-1]` panics.
unfoldable pub gen_loop : ℕ → ℕ → Key → Option Key
gen_loop zero n key = if n == 0 then some key else none
gen_loop (suc i) n key =
    let j : ℕ = n % 62 in
    let more : Option Key = (do c ← get_elem? key_char j; gen_loop i ((n - j) / 62) (c ∷ key)) in
    if n == 0 then some key else more

unfoldable pub gen_key : ℕ → Option Key
gen_key n =
    let digits : Option Key = gen_loop 20 n [] in
    let first : Option Key = (do c ← get_elem? key_char 0; some (c ∷ [])) in
    if n == 0 then first else digits

pub record Record : Type 0 where
  pub key : Key
  pub url : String

-- `save` is what was sent on the channel to saveLoop, oldest first; `saves` is `s.save != nil`.
pub record UrlStore : Type 0 where
  pub urls : List (Key × String)
  pub saves : Bool
  pub save : List Record

abbrev pub empty_store : Bool → UrlStore
empty_store saves = record { urls = []; saves = saves; save = [] }

-- s.urls[key]
unfoldable pub lookup : Key → List (Key × String) → Option String
lookup key [] = none
lookup key ((k, url) ∷ urls) = if k == key then some url else lookup key urls

-- Get; `none` is the error
abbrev pub get : Key → UrlStore → Option String
get key s = lookup key s.urls

-- Set: the store and whether there is no error
unfoldable pub set : Key → String → UrlStore → UrlStore × Bool
set key url s = elim (lookup key s.urls) [
  | some u ↦ (s, false)
  | none ↦ (record s { urls = (key, url) ∷ s.urls }, true)
]

abbrev pub count : UrlStore → ℕ
count s = length s.urls

-- What Put returns: the store and the key, an index out of range, or no answer with this fuel.
pub data PutResult : Type 0 where
  stored : UrlStore → Key → PutResult
  panicked out_of_fuel : PutResult

abbrev pub saved : Key → String → UrlStore → UrlStore
saved key url s =
    if s.saves then record s { save = s.save ++ record { key = key; url = url } ∷ [] } else s

unfoldable pub put : ℕ → String → UrlStore → PutResult
put zero url s = out_of_fuel
put (suc fuel) url s = elim (gen_key (count s)) [
  | none ↦ panicked
  | some key ↦
      let (s', fresh) = set key url s in
      let again : PutResult = put fuel url s' in
      if fresh then stored (saved key url s') key else again
]

-- The loop of load over the records of the file.
unfoldable pub load : List Record → UrlStore → UrlStore
load [] s = s
load (r ∷ records) s = load records (set r.key r.url s).0

-- NewURLStore of a file with these records, and NewURLStore("")
abbrev pub new_url_store : List Record → UrlStore
new_url_store records = load records (empty_store true)

-- The RPCs of a ProxyStore, on a state `B` behind them; `none` is an error.
pub record Master (B : Type 0) : Type 0 where
  pub call_get : Key → B → B × Option String
  pub call_put : String → B → B × Option Key

module _ {B : Type 0} (master : Master B) where
  unfoldable pub proxy_get : Key → UrlStore → B → UrlStore × B × Option String
  proxy_get key s b = elim (lookup key s.urls) [
    | some url ↦ (s, b, some url)
    | none ↦
        let (b', reply) = master.call_get key b in
        elim reply [ none ↦ (s, b', none) | some url ↦ ((set key url s).0, b', some url) ]
  ]

  unfoldable pub proxy_put : String → UrlStore → B → UrlStore × B × Option Key
  proxy_put url s b =
      let (b', reply) = master.call_put url b in
      elim reply [ none ↦ (s, b', none) | some key ↦ ((set key url s).0, b', some key) ]
