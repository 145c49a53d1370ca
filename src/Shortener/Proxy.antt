-- ===== src/Shortener/Proxy.antt =====
-- A proxy store in front of a master that may not be reached or not answer (goto/store.go).
use golang_programming.Prelude.{
  ◌^◌, ◌<◌, ◌≡◌, refl, sym, subst, ◌∙◌, String, Option, none, some, arith, bytes_eq, Option-cases,
  inl, inr, ◌⊎◌,
}
use mathlib.Core.Option.{some-injective, none-ne-some}
use golang_programming.Network.{Outcome, deliver, unreached, unanswered, answered}
use golang_programming.Shortener.{
  Key, UrlStore, lookup, get, set, count, stored, put, Master, proxy_get, proxy_put,
}
use golang_programming.Shortener.Puts.{IsKept, put-IsKept}

-- The master's Get as an RPC: an error of the store is an error of the call.
abbrev pub serve_get : Key → UrlStore → UrlStore × Option String
serve_get key m = (m, get key m)

abbrev pub serve_put : String → UrlStore → UrlStore × Option Key
serve_put url m = elim (put 1 url m) [ stored m' key ↦ (m', some key) | _ ↦ (m, none) ]

abbrev pub join : {A : Type 0} → Option (Option A) → Option A
join none = none
join (some o) = o

abbrev pub via :
    {A : Type 0} → Outcome → (UrlStore → UrlStore × Option A) → UrlStore → UrlStore × Option A
via outcome f m = let (m', reply) = deliver outcome f m in (m', join reply)

-- The master's store behind a network that treats the call in this way.
abbrev pub master_at : Outcome → Master UrlStore
master_at outcome = record {
  call_get = λ key. via outcome (serve_get key);
  call_put = λ url. via outcome (serve_put url);
}

-- What the proxy holds is what the master answers.
abbrev pub Agrees : UrlStore → UrlStore → Type 0
Agrees s m = (key : Key) (url : String) → get key s ≡ some url → get key m ≡ some url

set-Agrees :
    (key : Key) (url : String) (s m : UrlStore)
    → Agrees s m
    → get key m ≡ some url
    → Agrees (set key url s).0 m
unfolding set lookup
set-Agrees key url s m agrees held k u h = elim (Option-cases (lookup key s.urls)) [
  | inl e ↦ ground (arith, agrees k u)
  | inr (v, e) ↦ ground (arith, agrees k u)
]

set-reads :
    (key : Key) (url : String) (s m : UrlStore)
    → Agrees s m
    → get key m ≡ some url
    → get key (set key url s).0 ≡ some url
unfolding set lookup
set-reads key url s m agrees held = elim (Option-cases (lookup key s.urls)) [
  | inl e ↦ ground arith
  | inr (v, e) ↦ ground (arith, agrees key v e)
]

-- What a get leaves: the master as it was, a proxy that agrees with it, and its answer.
abbrev pub FromMaster : Key → UrlStore → UrlStore × UrlStore × Option String → Type 0
FromMaster key m (s', m', reply) =
    (m' ≡ m) × Agrees s' m × ((url : String) → reply ≡ some url → get key m ≡ some url)

-- The three ways in which a get ends.
abbrev GetCases : Key → UrlStore → UrlStore → UrlStore × UrlStore × Option String → Type 0
GetCases key s m r =
    (r ≡ (s, m, none))
    ⊎ ((url : String) × (((lookup key s.urls ≡ some url) × (r ≡ (s, m, some url)))
          ⊎ ((lookup key m.urls ≡ some url) × (r ≡ ((set key url s).0, m, some url)))))

proxy_get-asked :
    (outcome : Outcome) (key : Key) (s m : UrlStore) (u : String)
    → lookup key s.urls ≡ none
    → lookup key m.urls ≡ some u
    → GetCases key s m (proxy_get (master_at outcome) key s m)
unfolding proxy_get
proxy_get-asked unreached key s m u e f = inl (ground arith)
proxy_get-asked unanswered key s m u e f = inl (ground arith)
proxy_get-asked answered key s m u e f = inr (u, inr (f, ground arith))

proxy_get-GetCases :
    (outcome : Outcome) (key : Key) (s m : UrlStore)
    → GetCases key s m (proxy_get (master_at outcome) key s m)
unfolding proxy_get
proxy_get-GetCases outcome key s m = elim (Option-cases (lookup key s.urls)) [
  | inr (v, e) ↦ inr (v, inl (e, ground arith))
  | inl e ↦ elim (Option-cases (lookup key m.urls)) [
    | inl f ↦ inl (ground arith)
    | inr (u, f) ↦ proxy_get-asked outcome key s m u e f
  ]
]

-- A proxy that holds only what its master answers keeps doing so over a get, whatever becomes of its
-- call, and what it answers is what the master answers.
pub proxy_get-FromMaster :
    (outcome : Outcome) (key : Key) (s m : UrlStore)
    → Agrees s m
    → FromMaster key m (proxy_get (master_at outcome) key s m)
proxy_get-FromMaster outcome key s m agrees = elim (proxy_get-GetCases outcome key s m) [
  | inl e ↦ subst (FromMaster key m) (sym e) (refl, agrees, λ url p. absurd (none-ne-some url p))
  | inr (u, inl (f, e)) ↦
      subst (FromMaster key m) (sym e) (refl, agrees, λ url p. agrees key url (f ∙ p))
  | inr (u, inr (f, e)) ↦
      subst (FromMaster key m) (sym e) (refl, set-Agrees key u s m agrees f, λ url p. f ∙ p)
]

-- What a put leaves: a proxy that agrees with the master, and both hold the URL under the key that is
-- answered.
abbrev pub BothHold : String → UrlStore × UrlStore × Option Key → Type 0
BothHold url (s', m', reply) =
    Agrees s' m'
    × ((key : Key) → reply ≡ some key → (get key s' ≡ some url) × (get key m' ≡ some url))

-- A proxy that holds only what its master answers keeps doing so over a put, whatever becomes of its
-- call of a master that is kept and not full; and when the put answers a key, proxy and master both
-- hold the URL under it.
pub proxy_put-BothHold :
    (outcome : Outcome) (url : String) (s m : UrlStore)
    → Agrees s m
    → IsKept m
    → count m < 2 ^ 63
    → BothHold url (proxy_put (master_at outcome) url s m)
unfolding proxy_put
proxy_put-BothHold outcome url s m agrees kept lt =
    let (m₁, k, e, _, _, _, keeps, reads) = put-IsKept 0 url m kept lt in
    let grown : Agrees s m₁ = λ key u p. keeps key u (agrees key u p) in
    let lost : (b : UrlStore) → Agrees s b → BothHold url (s, b, none) =
      λ b a. (a, λ key p. absurd (none-ne-some key p)) in
    elim outcome as (λ o. BothHold url (proxy_put (master_at o) url s m)) [
      | unreached ↦ lost m agrees
      | unanswered ↦
          let p : proxy_put (master_at unanswered) url s m ≡ (s, m₁, none) = ground arith in
          subst (BothHold url) (sym p) (lost m₁ grown)
      | answered ↦
          let p : proxy_put (master_at answered) url s m ≡ ((set k url s).0, m₁, some k) =
            ground arith in
          subst (BothHold url) (sym p) (
            set-Agrees k url s m₁ grown reads,
            λ key q.
                subst (λ j. (get j (set k url s).0 ≡ some url) × (get j m₁ ≡ some url))
                  (some-injective k key q) (set-reads k url s m₁ grown reads, reads),
          )
    ]
