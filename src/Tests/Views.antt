-- ===== src/Tests/Views.antt =====
-- The view service at fixed inputs.
use golang_programming.Prelude.{
  ℕ, ◌≡◌, ◌≢◌, ne_of_test, ◌⊎◌, refl, inl, inr, String, true, false, Option, none, some, List, [],
  ◌∷◌, arith, text_eq, nat_eq, insert, empty, text_discrete, ℕ_discrete,
}
use golang_programming.ViewService.{
  Client, ViewServer, Event, pinged, queried, ticked, start_server, ping, tick, step, run, scan,
  visit, change_view, empty_places, fill_places,
}
use golang_programming.ViewService.Views.{Numbered, last_seen, tick-Numbered, tick-primary, IsKeyed}
use golang_programming.ViewService.Trace.{run_unacked}
use golang_programming.ViewService.Invariant.{IsKnown, run-IsKnown, tick-total}
use golang_programming.ViewService.Failover.{tick-fails_over}

-- the definitions that a run computes with
program : Unit {0}
unfolding run step ping tick scan visit change_view empty_places fill_places text_discrete
    ℕ_discrete
program = tt

abbrev server : String → ℕ → ℕ → Client
server host seen last = record {
  hostport = host;
  dead = false;
  idle = false;
  last_viewnum = seen;
  last_ping = last;
}

-- View 2 with the primary "a" and the backup "b", last heard of at the two times.
abbrev two : ℕ → ℕ → ViewServer
two a b = record {
  view = record { viewnum = 2; primary = "a"; backup = "b" };
  clients = insert "a" (server "a" 2 a) (insert "b" (server "b" 2 b) empty);
  acked = true;
  primary_restarted = false;
}

abbrev order : List String
order = "b" ∷ "a" ∷ []

two-IsKeyed : (a b : ℕ) → IsKeyed (two a b).clients
two-IsKeyed a b k cli e = ground arith

named_a : ◌≢◌ {A = String} "a" ""
named_a = ne_of_test "a" "" refl

named_b : ◌≢◌ {A = String} "b" ""
named_b = ne_of_test "b" "" refl

-- "a" was last heard of at 0: at 1000 it fails over to "b".
tick-fails_over_example :
    (vs : ViewServer) × (tick 1000 order (two 0 900) ≡ some vs)
    × (vs.acked ≡ false)
    × (vs.view ≡ record { viewnum = 3; primary = "b"; backup = "" })
unfolding text_discrete
tick-fails_over_example =
    tick-fails_over 1000 order (two 0 900) (server "a" 2 0) (server "b" 2 900) refl refl
      (named_a, refl) (named_b, refl) refl (inr (inl refl)) (refl, refl) refl

-- The state after a tick, where it does not panic.
abbrev ended : Option ViewServer → ViewServer
ended none = start_server
ended (some vs) = vs

fallen : ViewServer
unfolding tick
fallen = ended (tick 1000 order (two 0 900))

tick-Numbered_example : Numbered (two 0 900) fallen
unfolding fallen program
tick-Numbered_example = tick-Numbered 1000 order (two 0 900) fallen refl

tick-primary_example :
    (fallen.view.primary ≡ "")
    ⊎ (fallen.view.primary ≡ "a")
    ⊎ ((last_seen (two 0 900).clients fallen.view.primary ≡ some 2) × (fallen.view.backup ≡ ""))
unfolding fallen program
tick-primary_example = tick-primary 1000 order (two 0 900) fallen (two-IsKeyed 0 900) refl

-- The same view, not acknowledged.
abbrev pending : ViewServer
pending = record (two 0 0) { acked = false }

abbrev quiet_calls : List Event
quiet_calls =
    pinged 10 (record { me = "b"; viewnum = 2 })
    ∷ ticked 1000 order
    ∷ queried
    ∷ pinged 1010 (record { me = "a"; viewnum = 1 })
    ∷ ticked 1020 order
    ∷ []

run_unacked_example :
    (vs' : ViewServer) × (run quiet_calls pending ≡ some vs')
    × (vs'.view ≡ pending.view)
    × (vs'.acked ≡ false)
unfolding text_discrete ℕ_discrete
run_unacked_example = run_unacked quiet_calls pending refl (refl, (tt, (tt, (refl, (tt, tt)))))

abbrev first_calls : List Event
first_calls =
    pinged 0 (record { me = "a"; viewnum = 0 })
    ∷ ticked 0 ("a" ∷ [])
    ∷ pinged 50 (record { me = "b"; viewnum = 0 })
    ∷ pinged 60 (record { me = "a"; viewnum = 1 })
    ∷ ticked 100 ("b" ∷ "a" ∷ [])
    ∷ []

reached : ViewServer
unfolding run step ping tick
reached = ended (run first_calls start_server)

reached_view : reached.view ≡ record { viewnum = 2; primary = "a"; backup = "b" }
unfolding reached program
reached_view = refl

run-IsKnown_example : IsKnown reached
unfolding reached program
run-IsKnown_example = run-IsKnown first_calls reached (named_a, (named_b, (named_a, tt))) refl

two-IsKnown : IsKnown (two 0 900)
unfolding text_discrete
two-IsKnown = record {
  keyed = two-IsKeyed 0 900;
  unnamed = refl;
  primary_known = inr refl;
  backup_known = inr refl;
  restarted_acked = λ h. refl;
  restarted_known = λ h. refl;
}

tick-total_example : (vs' : ViewServer) × (tick 1000 order (two 0 900) ≡ some vs')
tick-total_example = tick-total 1000 order (two 0 900) two-IsKnown (λ h. absurd (cc))
