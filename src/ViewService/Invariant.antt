-- ===== src/ViewService/Invariant.antt =====
-- What holds of the view service after any calls, and that `tick` does not fault
-- (6.824-labs/viewservice/server.go).
use golang_programming.Prelude.{
  ℕ, String, ◌≡◌, ◌≢◌, refl, ◌∙◌, ◌⊎◌, inl, inr, subst, true, false, Option, none, some, List, [],
  ◌∷◌, arith, Option-cases, Bool-cases, >>=-eq-some, nat_eq, text_eq, GoMap,
}
use golang_programming.ViewService.{
  PingArgs, Client, ViewServer, Scan, start_server, is_nil, is_stale, ping, empty_places,
  fill_places, change_view, before_scan, scan_of, scanned, tick, Event, pinged, queried, ticked,
  step, run,
}
use golang_programming.ViewService.Sweep.{scan-Aged, scan_of-Picks}
use golang_programming.ViewService.Views.{
  IsKeyed, Emptied, face, face-IsKeyed, face-scan, empty_places-Emptied,
}

abbrev pub Has : GoMap String Client → String → Type 0
Has clients host = is_nil (clients host) ≡ false

-- The servers of the view are clients; a primary that restarted is one that has just pinged.
pub record IsKnown (vs : ViewServer) : Type 0 where
  pub keyed : IsKeyed vs.clients
  pub unnamed : vs.clients "" ≡ none
  pub primary_known : (vs.view.primary ≡ "") ⊎ Has vs.clients vs.view.primary
  pub backup_known : (vs.view.backup ≡ "") ⊎ Has vs.clients vs.view.backup
  pub restarted_acked : vs.primary_restarted ≡ true → vs.acked ≡ true
  pub restarted_known : vs.primary_restarted ≡ true → Has vs.clients vs.view.primary

pub ping-IsKnown :
    (now : ℕ) (args : PingArgs) (vs : ViewServer)
    → args.me ≢ ""
    → IsKnown vs
    → IsKnown (ping now args vs).0
unfolding ping
ping-IsKnown now args vs named v = record {
  keyed = λ k cli e. elim (Option-cases (vs.clients k)) [
    | inl f ↦ ground arith
    | inr (c, f) ↦ ground (arith, v.keyed k c f)
  ];
  unnamed = ground (arith, v.unnamed);
  primary_known = ground (arith, v.primary_known);
  backup_known = ground (arith, v.backup_known);
  restarted_acked = λ h. ground (arith, v.restarted_acked);
  restarted_known = λ h. ground (arith, v.restarted_known);
}

module _ (idle inited : Option String) (q vs' : ViewServer)
    (filled : fill_places idle inited q ≡ some vs') where
  fill_places-face : (k : String) → face (vs'.clients k) ≡ face (q.clients k)
  unfolding fill_places
  fill_places-face k = ground arith

  fill_places-primary_known :
      IsKeyed q.clients
      → (q.view.primary ≡ "") ⊎ Has q.clients q.view.primary
      → (q.view.backup ≡ "") ⊎ Has q.clients q.view.backup
      → (vs'.view.primary ≡ "") ⊎ Has vs'.clients vs'.view.primary
  unfolding fill_places
  fill_places-primary_known keyed p b = elim (Option-cases inited) [
    | inl e ↦ ground arith
    | inr (k, e) ↦ elim (Option-cases (q.clients k)) [
      | inl f ↦ ground arith
      | inr (c, f) ↦ ground (arith, keyed k c f)
    ]
  ]

  fill_places-backup_known :
      IsKeyed q.clients
      → (q.view.backup ≡ "") ⊎ Has q.clients q.view.backup
      → (vs'.view.backup ≡ "") ⊎ Has vs'.clients vs'.view.backup
  unfolding fill_places
  fill_places-backup_known keyed b = elim (Option-cases idle) [
    | inl e ↦ ground arith
    | inr (k, e) ↦ elim (Option-cases (q.clients k)) [
      | inl f ↦ ground arith
      | inr (c, f) ↦ ground (arith, keyed k c f)
    ]
  ]

  fill_places-restarted : vs'.primary_restarted ≡ q.primary_restarted
  unfolding fill_places
  fill_places-restarted = ground arith

scanned-IsKnown :
    (now : ℕ) (order : List String) (vs : ViewServer) → IsKnown vs → IsKnown (scanned now order vs)
scanned-IsKnown now order vs v = record {
  keyed = face-IsKeyed vs.clients _ (face-scan now order vs) v.keyed;
  unnamed = ground (arith, face-scan now order vs "", v.unnamed);
  primary_known = ground (arith, face-scan now order vs vs.view.primary, v.primary_known);
  backup_known = ground (arith, face-scan now order vs vs.view.backup, v.backup_known);
  restarted_acked = v.restarted_acked;
  restarted_known =
      λ h. ground (arith, face-scan now order vs vs.view.primary, v.restarted_known h);
}

-- the room that is made clears the mark of a restart
empty_places-restarted :
    (vs q : ViewServer) → empty_places vs ≡ some q → q.primary_restarted ≡ false
unfolding empty_places
empty_places-restarted vs q h = ground arith

change_view-IsKnown :
    (idle inited : Option String) (vs vs' : ViewServer)
    → IsKnown vs
    → change_view idle inited vs ≡ some vs'
    → IsKnown vs'
unfolding change_view
change_view-IsKnown idle inited vs vs' v h =
    let (q, made, f) = >>=-eq-some (empty_places vs) _ h in
    let e : Emptied vs q = empty_places-Emptied vs q made in
    let p : (q.view.primary ≡ "") ⊎ Has q.clients q.view.primary =
      ground (arith, e.primary, e.faces vs.view.primary, v.primary_known) in
    let b : (q.view.backup ≡ "") ⊎ Has q.clients q.view.backup =
      ground (arith, e.backup, e.faces vs.view.backup, v.backup_known) in
    let keyed : IsKeyed q.clients = face-IsKeyed vs.clients q.clients e.faces v.keyed in
    let restarted = fill_places-restarted idle inited q vs' f ∙ empty_places-restarted vs q made in
    record {
      keyed = face-IsKeyed q.clients vs'.clients (fill_places-face idle inited q vs' f) keyed;
      unnamed = ground (arith, fill_places-face idle inited q vs' f "", e.faces "", v.unnamed);
      primary_known = fill_places-primary_known idle inited q vs' f keyed p b;
      backup_known = fill_places-backup_known idle inited q vs' f keyed b;
      restarted_acked = λ r. cc;
      restarted_known = λ r. absurd (cc);
    }

-- A call of `tick` keeps the invariant.
pub tick-IsKnown :
    (now : ℕ) (order : List String) (vs vs' : ViewServer)
    → IsKnown vs
    → tick now order vs ≡ some vs'
    → IsKnown vs'
unfolding tick
tick-IsKnown now order vs vs' v h =
    let s : Scan = scan_of now order vs in
    let v' = scanned-IsKnown now order vs v in
    elim (Bool-cases vs.acked) [
      | inl a ↦
          change_view-IsKnown s.idle_client s.inited_idle_client (scanned now order vs) vs' v'
            (ground arith)
      | inr a ↦ let e : scanned now order vs ≡ vs' = ground arith in subst IsKnown e v'
    ]

-- A primary that has restarted is still heard of in time.
abbrev pub IsPrompt : ℕ → ViewServer → Type 0
IsPrompt now vs =
    vs.primary_restarted ≡ true
    → (cli : Client) × (vs.clients vs.view.primary ≡ some cli)
      × (cli.dead ≡ false)
      × (is_stale now cli ≡ false)

empty_places-total :
    (vs : ViewServer)
    → IsKnown vs
    → (vs.primary_restarted ≡ true
        → (cli : Client) × (vs.clients vs.view.primary ≡ some cli) × (cli.dead ≡ false))
    → empty_places vs ≢ none
unfolding empty_places
empty_places-total vs v alive = elim (Bool-cases vs.primary_restarted) [
  | inl r ↦ ground (arith, alive r, v.primary_known, v.backup_known)
  | inr r ↦ ground (arith, v.primary_known, v.backup_known)
]

fill_places-total :
    (idle inited : Option String) (q : ViewServer)
    → (q.view.backup ≡ "") ⊎ Has q.clients q.view.backup
    → ((k : String) → idle ≡ some k → Has q.clients k)
    → ((k : String) → inited ≡ some k → Has q.clients k)
    → fill_places idle inited q ≢ none
unfolding fill_places
fill_places-total none none q b h i = ground arith
fill_places-total none (some k) q b h i = ground (arith, i k refl)
fill_places-total (some j) none q b h i = ground (arith, h j refl)
fill_places-total (some j) (some k) q b h i = ground (arith, h j refl, i k refl)

change_view-total :
    (idle inited : Option String) (vs : ViewServer)
    → IsKnown vs
    → (vs.primary_restarted ≡ true
        → (cli : Client) × (vs.clients vs.view.primary ≡ some cli) × (cli.dead ≡ false))
    → ((k : String) → idle ≡ some k → Has vs.clients k)
    → ((k : String) → inited ≡ some k → Has vs.clients k)
    → change_view idle inited vs ≢ none
unfolding change_view
change_view-total idle inited vs v alive h i = elim (Option-cases (empty_places vs)) [
  | inl e ↦ absurd (empty_places-total vs v alive e)
  | inr (q, made) ↦
      let e : Emptied vs q = empty_places-Emptied vs q made in
      let b : (q.view.backup ≡ "") ⊎ Has q.clients q.view.backup =
        ground (arith, e.backup, e.faces vs.view.backup, v.backup_known) in
      ground (
        arith,
        made,
        fill_places-total idle inited q b (λ k p. ground (arith, e.faces k, h k p))
            (λ k p. ground (arith, e.faces k, i k p)),
      )
]

scanned_alive :
    (now : ℕ) (order : List String) (vs : ViewServer) (k : String) (cli : Client)
    → vs.clients k ≡ some cli
    → cli.dead ≡ false
    → is_stale now cli ≡ false
    → (c : Client) × ((scanned now order vs).clients k ≡ some c) × (c.dead ≡ false)
scanned_alive now order vs k cli found alive fresh =
    (cli, ground (arith, scan-Aged now vs.view.viewnum order (before_scan vs) k), alive)

-- `tick` does not run into a nil pointer, if a primary that has restarted is heard of in time.
pub tick-total :
    (now : ℕ) (order : List String) (vs : ViewServer)
    → IsKnown vs
    → IsPrompt now vs
    → (vs' : ViewServer) × (tick now order vs ≡ some vs')
unfolding tick
tick-total now order vs v prompt = elim (Option-cases (tick now order vs)) [
  | inr t ↦ t
  | inl t ↦
      let s : Scan = scan_of now order vs in
      let picks = scan_of-Picks now order vs in
      let v' = scanned-IsKnown now order vs v in
      let alive = λ (r : vs.primary_restarted ≡ true).
        let (c, found, a, fresh) = prompt r in
        scanned_alive now order vs vs.view.primary c found a fresh in
      absurd (
        ground (
          arith,
          change_view-total s.idle_client s.inited_idle_client (scanned now order vs) v' alive
              (λ k p. rw (picks.idle_pick k p).1 refl) (λ k p. rw (picks.inited_pick k p).1 refl),
        ))
]

-- Every ping comes from a host with a name.
abbrev pub AllNamed : List Event → Type 0
AllNamed [] = Unit
AllNamed (pinged now args ∷ events) = (args.me ≢ "") × AllNamed events
AllNamed (e ∷ events) = AllNamed events

start_server-IsKnown : IsKnown start_server
start_server-IsKnown = record {
  keyed = λ k cli e. cc;
  unnamed = refl;
  primary_known = inl refl;
  backup_known = inl refl;
  restarted_acked = λ h. refl;
  restarted_known = λ h. absurd (cc);
}

run_from-IsKnown :
    (events : List Event) (vs vs' : ViewServer)
    → AllNamed events
    → IsKnown vs
    → run events vs ≡ some vs'
    → IsKnown vs'
unfolding run step
run_from-IsKnown [] vs vs' a v h = let e : vs ≡ vs' = ground arith in subst IsKnown e v
run_from-IsKnown (pinged now args ∷ events) vs vs' a v h =
    run_from-IsKnown events (ping now args vs).0 vs' a.1 (ping-IsKnown now args vs a.0 v) h
run_from-IsKnown (queried ∷ events) vs vs' a v h = run_from-IsKnown events vs vs' a v h
run_from-IsKnown (ticked now order ∷ events) vs vs' a v h =
    let (mid, t, rest) = >>=-eq-some (tick now order vs) (run events) h in
    run_from-IsKnown events mid vs' a (tick-IsKnown now order vs mid v t) rest

-- After any calls, from the start of the service, in which every host that pings has a name: each
-- client is stored under its own name, none under the empty one, and the primary and the backup of
-- the view are clients.
pub run-IsKnown :
    (events : List Event) (vs : ViewServer)
    → AllNamed events
    → run events start_server ≡ some vs
    → IsKnown vs
run-IsKnown events vs named h = run_from-IsKnown events start_server vs named start_server-IsKnown h
