-- ===== src/ViewService/Sweep.antt =====
-- What the loop of `tick` leaves behind, for every order in which `range` may visit the clients.
use golang_programming.Prelude.{
  ℕ, String, ◌≡◌, refl, ◌⊎◌, inl, inr, true, false, Option, none, some, List, [], ◌∷◌, arith, ite,
  nat_eq, text_eq, GoMap, text_discrete, Option-cases,
}
use golang_programming.ViewService.{
  Client, Scan, ViewServer, is_stale, expire, visit, scan, scan_of,
}

-- a client after one visit
abbrev pub expired : ℕ → Option Client → Option Client
expired now none = none
expired now (some cli) = some (expire now cli)

-- A client is left alone or expires; nothing else happens to it.
abbrev pub Aged : ℕ → Option Client → Option Client → Type 0
Aged now o o' = (o' ≡ o) ⊎ (o' ≡ expired now o)

-- The client stored under `key` is alive, idle and was heard of in time.
abbrev pub Candidate : ℕ → GoMap String Client → String → Type 0
Candidate now clients key =
    (cli : Client) × (clients key ≡ some cli)
    × (cli.dead ≡ false)
    × (cli.idle ≡ true)
    × (is_stale now cli ≡ false)

-- A candidate that has pinged with the number `n`.
abbrev pub Inited : ℕ → ℕ → GoMap String Client → String → Type 0
Inited now n clients key =
    (cli : Client) × (clients key ≡ some cli)
    × (cli.dead ≡ false)
    × (cli.idle ≡ true)
    × (is_stale now cli ≡ false)
    × (cli.last_viewnum ≡ n)

module _ (now n : ℕ) where
  clients-visit :
      (j k : String) (s : Scan)
      → (visit now n j s).clients k
        ≡ ite (text_discrete k j) (expired now (s.clients k)) (s.clients k)
  unfolding visit
  clients-visit j k s = ground arith

  Candidate-visit :
      (j k : String) (s : Scan)
      → Candidate now s.clients k
      → Candidate now (visit now n j s).clients k
  Candidate-visit j k s (cli, e, alive, idle, fresh) =
      (cli, ground (arith, clients-visit j k s), alive, idle, fresh)

  module _ (j k : String) (s : Scan) where
    idle_client-visit :
        (visit now n j s).idle_client ≡ some k
        → (s.idle_client ≡ some k) ⊎ Candidate now (visit now n j s).clients k
    unfolding visit
    idle_client-visit h = elim (Option-cases (s.clients j)) [
      | inl e ↦ inl (ground arith)
      | inr (c, e) ↦ elim (Option-cases s.idle_client) [
        | inr (i, f) ↦ inl (ground arith)
        | inl f ↦ inr (expire now c, ground arith, ground arith, ground arith, ground arith)
      ]
    ]

    visit-inited_idle_client :
        (visit now n j s).inited_idle_client ≡ some k
        → (s.inited_idle_client ≡ some k) ⊎ Inited now n (visit now n j s).clients k
    unfolding visit
    visit-inited_idle_client h = elim (Option-cases (s.clients j)) [
      | inl e ↦ inl (ground arith)
      | inr (c, e) ↦ elim (Option-cases s.inited_idle_client) [
        | inr (i, f) ↦ inl (ground arith)
        | inl f ↦
            inr (expire now c, ground arith, ground arith, ground arith, ground arith, ground arith)
      ]
    ]

-- The loop visits `k`.
abbrev pub Visited : String → List String → Type 0
Visited k [] = ⊥
Visited k (j ∷ order) = (j ≡ k) ⊎ Visited k order

-- Both pointers of the scan lead to candidates, the second to one that knows the view.
pub record Picks (now n : ℕ) (s : Scan) : Type 0 where
  pub idle_pick : (k : String) → s.idle_client ≡ some k → Candidate now s.clients k
  pub inited_pick : (k : String) → s.inited_idle_client ≡ some k → Inited now n s.clients k

module _ (now n : ℕ) where
  Inited-visit :
      (j k : String) (s : Scan)
      → Inited now n s.clients k
      → Inited now n (visit now n j s).clients k
  Inited-visit j k s (cli, e, alive, idle, fresh, seen) =
      (cli, ground (arith, clients-visit now n j k s), alive, idle, fresh, seen)

  visit-Picks : (j : String) (s : Scan) → Picks now n s → Picks now n (visit now n j s)
  visit-Picks j s p = record {
    idle_pick = λ k h. elim (idle_client-visit now n j k s h) [
      | inl old ↦ Candidate-visit now n j k s (p.idle_pick k old)
      | inr c ↦ c
    ];
    inited_pick = λ k h. elim (visit-inited_idle_client now n j k s h) [
      | inl old ↦ Inited-visit j k s (p.inited_pick k old)
      | inr c ↦ c
    ];
  }

  scan-Picks : (order : List String) (s : Scan) → Picks now n s → Picks now n (scan now n order s)
  unfolding scan
  scan-Picks [] s p = p
  scan-Picks (j ∷ order) s p = scan-Picks order (visit now n j s) (visit-Picks j s p)

  expired_twice : (o : Option Client) → expired now (expired now o) ≡ expired now o
  expired_twice none = refl
  expired_twice (some c) = ground arith

  pub scan-Aged :
      (order : List String) (s : Scan) (k : String)
      → Aged now (s.clients k) ((scan now n order s).clients k)
  unfolding scan
  scan-Aged [] s k = inl refl
  scan-Aged (j ∷ order) s k = ground (
    arith,
    scan-Aged order (visit now n j s) k,
    clients-visit now n j k s,
    expired_twice (s.clients k),
  )

  -- A client that the loop visits has expired by then if it is stale.
  pub scan-Visited :
      (order : List String) (s : Scan) (k : String)
      → Visited k order
      → (scan now n order s).clients k ≡ expired now (s.clients k)
  unfolding scan
  scan-Visited [] s k v = absurd v
  scan-Visited (j ∷ order) s k (inl e) = ground (
    arith,
    scan-Aged order (visit now n j s) k,
    clients-visit now n j k s,
    expired_twice (s.clients k),
  )
  scan-Visited (j ∷ order) s k (inr v) = ground (
    arith,
    scan-Visited order (visit now n j s) k v,
    clients-visit now n j k s,
    expired_twice (s.clients k),
  )

pub scan_of-Picks :
    (now : ℕ) (order : List String) (vs : ViewServer)
    → Picks now vs.view.viewnum (scan_of now order vs)
scan_of-Picks now order vs =
    scan-Picks now vs.view.viewnum order _
      (record { idle_pick = λ k h. cc; inited_pick = λ k h. cc })
