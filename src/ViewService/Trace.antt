-- ===== src/ViewService/Trace.antt =====
-- Pings, and the view over a history of calls (6.824-labs/viewservice/server.go).
use golang_programming.Prelude.{
  ℕ, String, ◌≡◌, ◌⊎◌, refl, ◌∙◌, false, some, List, [], ◌∷◌, arith, ◌==◌, ◌&&◌, ◌||◌, nat_eq,
  text_eq,
}
use golang_programming.ViewService.{
  PingArgs, View, ViewServer, scanned, ping, tick, Event, pinged, queried, ticked, step, run,
}

-- A ping answers with the current view and leaves it, acknowledges it exactly if the primary names
-- its number, and touches no client but the one that called.
pub ping-effect :
    (now : ℕ) (args : PingArgs) (vs : ViewServer)
    → let vs' = (ping now args vs).0 in
      ((ping now args vs).1 ≡ vs.view)
      × (vs'.view ≡ vs.view)
      × (vs'.acked ≡ (vs.acked || (args.me == vs.view.primary && args.viewnum == vs.view.viewnum)))
      × ((k : String) → (k ≡ args.me) ⊎ (vs'.clients k ≡ vs.clients k))
unfolding ping
ping-effect now args vs = (refl, refl, ground arith, λ k. ground arith)

-- Not the acknowledgement of `v` by its primary.
abbrev pub IsQuiet : View → Event → Type 0
IsQuiet v (pinged now args) = (args.me == v.primary && args.viewnum == v.viewnum) ≡ false
IsQuiet v _ = Unit

abbrev pub AllQuiet : View → List Event → Type 0
AllQuiet v [] = Unit
AllQuiet v (e ∷ events) = IsQuiet v e × AllQuiet v events

step_unacked :
    (e : Event) (vs : ViewServer)
    → vs.acked ≡ false
    → IsQuiet vs.view e
    → (vs' : ViewServer) × (step e vs ≡ some vs') × (vs'.view ≡ vs.view) × (vs'.acked ≡ false)
unfolding step ping tick
step_unacked (pinged now args) vs a q = (_, refl, refl, ground arith)
step_unacked queried vs a q = (vs, refl, refl, a)
step_unacked (ticked now order) vs a q = (scanned now order vs, rw a refl, refl, a)

-- Until the primary of a new view acknowledges it, no call changes the view, and none panics.
pub run_unacked :
    (events : List Event) (vs : ViewServer)
    → vs.acked ≡ false
    → AllQuiet vs.view events
    → (vs' : ViewServer) × (run events vs ≡ some vs') × (vs'.view ≡ vs.view) × (vs'.acked ≡ false)
unfolding run
run_unacked [] vs a q = (vs, refl, refl, a)
run_unacked (e ∷ events) vs a (q, qs) =
    let (mid, stepped, same, a') = step_unacked e vs a q in
    let (vs', ran, same', a'') = run_unacked events mid a' (rw same qs) in
    (vs', rw stepped ran, same' ∙ same, a'')
