-- ===== src/ViewService/Failover.antt =====
-- How `tick` answers to a primary or a backup that is gone (6.824-labs/viewservice/server.go).
use golang_programming.Prelude.{
  ℕ, String, ◌≡◌, ◌≢◌, refl, true, false, none, some, List, arith, [], ◌∷◌, ◌<◌, inl, inr, ◌⊎◌,
  Option-cases, nat_eq, text_eq,
}
use mathlib.Core.Option
use golang_programming.ViewService.{
  Client, ViewServer, is_stale, next_viewnum, empty_places, fill_places, change_view, before_scan,
  scan_of, scanned, tick, start_server, ping, scan, visit, run, step, pinged, ticked,
}
use golang_programming.ViewService.Sweep.{Visited, scan-Aged, scan-Visited, scan_of-Picks}

-- `host` is a client of `vs` with the entry `cli`.
abbrev pub IsClient : ViewServer → String → Client → Type 0
IsClient vs host cli = (host ≢ "") × (vs.clients host ≡ some cli)

-- alive, and heard of in time
abbrev pub IsAlive : ℕ → Client → Type 0
IsAlive now cli = (cli.dead ≡ false) × (is_stale now cli ≡ false)

module _ (now : ℕ) (order : List String) (vs : ViewServer) where
  stays_alive :
      (k : String) (cli : Client)
      → vs.clients k ≡ some cli
      → IsAlive now cli
      → (scanned now order vs).clients k ≡ some cli
  stays_alive k cli found alive =
      ground (arith, scan-Aged now vs.view.viewnum order (before_scan vs) k)

  dies :
      (k : String) (cli : Client)
      → vs.clients k ≡ some cli
      → is_stale now cli ≡ true
      → Visited k order
      → (scanned now order vs).clients k ≡ some (record cli { idle = true; dead = true })
  dies k cli found stale v =
      ground (arith, scan-Visited now vs.view.viewnum order (before_scan vs) k v)

  no_candidate :
      ((k : String) (cli : Client)
        → vs.clients k ≡ some cli
        → cli.idle ≡ true
        → (cli.dead ≡ true) ⊎ (is_stale now cli ≡ true))
      → (scan_of now order vs).idle_client ≡ none
  no_candidate busy = elim (Option-cases (scan_of now order vs).idle_client) [
    | inl e ↦ e
    | inr (k, e) ↦
        let (c, found, alive, idle, fresh) = (scan_of-Picks now order vs).idle_pick k e in
        let aged = scan-Aged now vs.view.viewnum order (before_scan vs) k in
        elim (Option-cases (vs.clients k)) [
          | inl f ↦ absurd (ground (arith, aged))
          | inr (c₀, f) ↦ absurd (ground (arith, aged, busy k c₀ f))
        ]
  ]

module _ (now : ℕ) (order : List String) (vs : ViewServer) (p b : Client) (acked : vs.acked ≡ true)
    (steady : vs.primary_restarted ≡ false) (is_p : IsClient vs vs.view.primary p)
    (is_b : IsClient vs vs.view.backup b) where
  -- In an acknowledged view whose primary has not restarted and has been silent for too long, a backup
  -- that is heard of and knows the view becomes the primary of the next view, which has no backup yet.
  pub tick-fails_over :
      is_stale now p ≡ true
      → Visited vs.view.primary order
      → IsAlive now b
      → b.last_viewnum ≡ vs.view.viewnum
      → (vs' : ViewServer) × (tick now order vs ≡ some vs')
        × (vs'.acked ≡ false)
        × (vs'.view
            ≡ record { viewnum = next_viewnum vs.view; primary = vs.view.backup; backup = "" })
  unfolding tick change_view empty_places fill_places
  tick-fails_over stale v alive knows = (
    record (scanned now order vs) {
      view = record { viewnum = next_viewnum vs.view; primary = vs.view.backup; backup = "" };
      acked = false;
    },
    ground (
      arith,
      dies now order vs vs.view.primary p is_p.1 stale v,
      stays_alive now order vs vs.view.backup b is_b.1 alive,
    ),
    refl,
    refl,
  )

  -- A backup that has been silent for too long, while no idle client is heard of, is dropped from
  -- an acknowledged view that keeps its number: the view changes and its number does not.
  pub tick-drops_backup :
      IsAlive now p
      → is_stale now b ≡ true
      → Visited vs.view.backup order
      → ((k : String) (cli : Client)
          → vs.clients k ≡ some cli
          → cli.idle ≡ true
          → (cli.dead ≡ true) ⊎ (is_stale now cli ≡ true))
      → (vs' : ViewServer) × (tick now order vs ≡ some vs')
        × (vs'.acked ≡ true)
        × (vs'.view ≡ record vs.view { backup = "" })
  unfolding tick change_view empty_places fill_places
  tick-drops_backup alive stale v busy = (
    record (scanned now order vs) { view = record vs.view { backup = "" } },
    ground (
      arith,
      stays_alive now order vs vs.view.primary p is_p.1 alive,
      dies now order vs vs.view.backup b is_b.1 stale v,
      no_candidate now order vs busy,
    ),
    acked,
    refl,
  )

-- A primary that is silent for more than 500 ms before it acknowledges its first view stays marked
-- idle when it comes back, and the next `tick` makes it the backup of itself.
pub self_backup :
    (host : String) (t : ℕ)
    → host ≢ ""
    → 500 < t
    → Option.map
        (λ vs. vs.view)
        (run
          (pinged 0 (record { me = host; viewnum = 0 })
            ∷ ticked 0 (host ∷ [])
            ∷ ticked t (host ∷ [])
            ∷ pinged t (record { me = host; viewnum = 1 })
            ∷ ticked t (host ∷ [])
            ∷ [])
          start_server)
      ≡ some (record { viewnum = 2; primary = host; backup = host })
unfolding run step ping tick scan visit change_view empty_places fill_places
self_backup host t named late = ground arith

-- A primary that restarts, and then is silent for more than 500 ms before the next `tick`, makes
-- that `tick` write through the nil pointer of a client that is not there.
pub restart_panics :
    (host : String) (t : ℕ)
    → host ≢ ""
    → 500 < t
    → run
        (pinged 0 (record { me = host; viewnum = 0 })
          ∷ ticked 0 (host ∷ [])
          ∷ pinged 0 (record { me = host; viewnum = 1 })
          ∷ pinged 0 (record { me = host; viewnum = 0 })
          ∷ ticked t (host ∷ [])
          ∷ [])
        start_server
      ≡ none
unfolding run step ping tick scan visit change_view empty_places fill_places
restart_panics host t named late = ground arith
