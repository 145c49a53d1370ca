-- ===== src/Tests/Urls.antt =====
-- The URL shortener at fixed inputs.
use golang_programming.Prelude.{
  ◌≡◌, ◌≤◌, refl, String, true, some, List, [], ◌∷◌, length, arith, ℕ_discrete,
}
use golang_programming.Network.{answered}
use golang_programming.Shortener.{
  Key, key_char, gen_loop, gen_key, UrlStore, empty_store, get, load, new_url_store, proxy_put,
}
use golang_programming.Shortener.Keys.{value_from, gen_key-value}
use golang_programming.Shortener.Puts.{IsKept, put_all, Answers, put_all-get}
use golang_programming.Shortener.Proxy.{Agrees, master_at, BothHold, proxy_put-BothHold}

gen_key_runs : gen_key 125 ≡ some (b'2' ∷ b'1' ∷ [])
unfolding gen_key gen_loop key_char ℕ_discrete
gen_key_runs = refl

gen_key-value_example :
    (key : Key) × (gen_key 125 ≡ some key) × (value_from 0 key ≡ 125) × (length key ≤ 11)
gen_key-value_example = gen_key-value 125 (omega arith)

abbrev sites : List String
sites = "http://a" ∷ "http://b" ∷ []

put_all-get_example :
    (s : UrlStore) × (keys : List Key) × (put_all sites (empty_store true) ≡ some (s, keys))
    × Answers s sites keys
    × ((key : Key) → get key (new_url_store s.save) ≡ get key s)
put_all-get_example = put_all-get sites (omega arith)

empty-IsKept : IsKept (empty_store true)
unfolding load
empty-IsKept = record { dense = tt; saves = refl; reloads = refl }

empty-Agrees : Agrees (empty_store true) (empty_store true)
empty-Agrees key url h = h

proxy_put-BothHold_example :
    BothHold "http://a"
      (proxy_put (master_at answered) "http://a" (empty_store true) (empty_store true))
proxy_put-BothHold_example =
    proxy_put-BothHold answered "http://a" (empty_store true) (empty_store true) empty-Agrees
      empty-IsKept (omega arith)
