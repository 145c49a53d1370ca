-- ===== src/Tests/Locks.antt =====
-- The lock service at fixed inputs.
use golang_programming.Prelude.{ℕ, ◌+◌, ◌≡◌, refl, String, true, false, if◌then◌else◌}
use golang_programming.LockService.{
  Args, Cluster, locks, delivered, start_server, is_locked, handle, serve_primary, serve_backup,
}
use golang_programming.LockService.Replays.{spec, handle-spec_new}
use golang_programming.LockService.Replication.{InSync, InSync-start, serve_primary-InSync}

abbrev ask : ℕ → Args
ask uuid = record { uuid = uuid; lockname = "x" }

abbrev fresh : Cluster
fresh = record { primary = start_server true; backup = start_server false }

-- "x" is held, by the request with uuid 1
held : Cluster
unfolding serve_primary
held = (serve_primary locks (ask 1) delivered fresh).0

handle-spec_new_example :
    let (ls', b', ok) = handle locks (λ (n : ℕ). n + 1) (ask 1) (start_server true) 7 in
    ((n : String) → is_locked ls' n ≡ (spec locks "x" (is_locked (start_server true))).0 n)
    × (ok ≡ (spec locks "x" (is_locked (start_server true))).1)
    × (b' ≡ (if (start_server true).am_primary then 8 else 7))
handle-spec_new_example =
    handle-spec_new locks (λ (n : ℕ). n + 1) (ask 1) (start_server true) 7 refl

serve_primary-InSync_example :
    InSync (serve_primary locks (ask 1) delivered fresh).0
    × (serve_backup locks (ask 1) (serve_primary locks (ask 1) delivered fresh).0
        ≡ serve_primary locks (ask 1) delivered fresh)
serve_primary-InSync_example = serve_primary-InSync locks (ask 1) fresh InSync-start

held-InSync : InSync held
unfolding held
held-InSync = (serve_primary-InSync locks (ask 1) fresh InSync-start).0
