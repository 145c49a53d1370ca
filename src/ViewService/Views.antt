-- ===== src/ViewService/Views.antt =====
-- How one call of `tick` may change the view (6.824-labs/viewservice/server.go).
use golang_programming.Prelude.{
  ℕ, String, ◌≡◌, refl, ◌⊎◌, inl, inr, ◌∙◌, Bool-cases, true, false, Option, none, some, List,
  arith, Option-cases, >>=-eq-some, nat_eq, text_eq, GoMap,
}
use mathlib.Core.Option
use golang_programming.ViewService.{
  Client, ViewServer, Scan, next_viewnum, empty_places, fill_places, change_view, before_scan,
  scan_of, scanned, tick,
}
use golang_programming.ViewService.Sweep.{scan-Aged, scan_of-Picks}

-- The view keeps its number and its acknowledgement, or it is a new one that nobody has
-- acknowledged yet, and the old one had been.
abbrev pub Numbered : ViewServer → ViewServer → Type 0
Numbered vs vs' =
    ((vs'.view.viewnum ≡ vs.view.viewnum) × (vs'.acked ≡ vs.acked))
    ⊎ ((vs.acked ≡ true) × (vs'.acked ≡ false) × (vs'.view.viewnum ≡ next_viewnum vs.view))

fill_places-Numbered :
    (idle inited : Option String) (vs vs' : ViewServer)
    → vs.acked ≡ true
    → fill_places idle inited vs ≡ some vs'
    → Numbered vs vs'
unfolding fill_places
fill_places-Numbered idle inited vs vs' a h = ground arith

-- What the service remembers of a client that `tick` never changes.
abbrev pub face : Option Client → Option (String × ℕ)
face none = none
face (some cli) = some (cli.hostport, cli.last_viewnum)

-- The number with which a host last pinged.
abbrev pub last_seen : GoMap String Client → String → Option ℕ
last_seen clients host = Option.map (λ cli. cli.last_viewnum) (clients host)

-- Every client is stored under its own name.
abbrev pub IsKeyed : GoMap String Client → Type 0
IsKeyed clients = (k : String) (cli : Client) → clients k ≡ some cli → cli.hostport ≡ k

-- What `tick` does before it fills the places: it may empty them, and make a client idle.
pub record Emptied (vs q : ViewServer) : Type 0 where
  pub number : q.view.viewnum ≡ vs.view.viewnum
  pub acked : q.acked ≡ vs.acked
  pub primary : (q.view.primary ≡ "") ⊎ (q.view.primary ≡ vs.view.primary)
  pub backup : (q.view.backup ≡ "") ⊎ (q.view.backup ≡ vs.view.backup)
  pub faces : (k : String) → face (q.clients k) ≡ face (vs.clients k)

pub empty_places-Emptied : (vs q : ViewServer) → empty_places vs ≡ some q → Emptied vs q
unfolding empty_places
empty_places-Emptied vs q h = record {
  number = ground arith;
  acked = ground arith;
  primary = ground arith;
  backup = ground arith;
  faces = λ k. ground arith;
}

pub change_view-Emptied :
    (idle inited : Option String) (vs vs' : ViewServer)
    → change_view idle inited vs ≡ some vs'
    → (q : ViewServer) × Emptied vs q × (fill_places idle inited q ≡ some vs')
unfolding change_view
change_view-Emptied idle inited vs vs' h =
    let (q, e, f) = >>=-eq-some (empty_places vs) _ h in (q, empty_places-Emptied vs q e, f)

-- A call of `tick` keeps the number of the view and whether it is acknowledged, or it moves an
-- acknowledged view to the next number, as one that is not acknowledged yet.
pub tick-Numbered :
    (now : ℕ) (order : List String) (vs vs' : ViewServer)
    → tick now order vs ≡ some vs'
    → Numbered vs vs'
unfolding tick
tick-Numbered now order vs vs' h = elim (Bool-cases vs.acked) [
  | inl a ↦
      let s : Scan = scan_of now order vs in
      let (q, e, f) =
        change_view-Emptied s.idle_client s.inited_idle_client (scanned now order vs) vs'
          (ground arith) in
      let numbered =
        fill_places-Numbered s.idle_client s.inited_idle_client q vs' (e.acked ∙ a) f in
      ground (arith, e.number, e.acked, numbered)
  | inr a ↦ ground arith
]

fill_places-primary :
    (idle inited : Option String) (q vs' : ViewServer)
    → IsKeyed q.clients
    → ((k : String) → inited ≡ some k → last_seen q.clients k ≡ some q.view.viewnum)
    → fill_places idle inited q ≡ some vs'
    → (vs'.view.primary ≡ q.view.primary)
      ⊎ ((last_seen q.clients vs'.view.primary ≡ some q.view.viewnum) × (vs'.view.backup ≡ ""))
unfolding fill_places
fill_places-primary idle none q vs' keyed pick h = ground arith
fill_places-primary idle (some k) q vs' keyed pick h = elim (Option-cases (q.clients k)) [
  | inl e ↦ ground (arith, pick k refl)
  | inr (c, e) ↦ ground (arith, pick k refl, keyed k c e)
]

-- Two maps that show the same faces agree on what is keyed and on what was seen.
pub face-IsKeyed :
    (m n : GoMap String Client) → ((k : String) → face (n k) ≡ face (m k)) → IsKeyed m → IsKeyed n
face-IsKeyed m n same keyed k cli e = elim (Option-cases (m k)) [
  | inl f ↦ ground (arith, same k)
  | inr (c, f) ↦ ground (arith, same k, keyed k c f)
]

face-last_seen :
    (m n : GoMap String Client) (k : String)
    → face (n k) ≡ face (m k)
    → last_seen n k ≡ last_seen m k
face-last_seen m n k same = ground arith

pub face-scan :
    (now : ℕ) (order : List String) (vs : ViewServer) (k : String)
    → face ((scan_of now order vs).clients k) ≡ face (vs.clients k)
face-scan now order vs k = ground (arith, scan-Aged now vs.view.viewnum order (before_scan vs) k)

-- A call of `tick` leaves the primary, or removes it, or makes a primary only of a host whose last
-- ping carried the number of the current view, as one without a backup.
pub tick-primary :
    (now : ℕ) (order : List String) (vs vs' : ViewServer)
    → IsKeyed vs.clients
    → tick now order vs ≡ some vs'
    → (vs'.view.primary ≡ "")
      ⊎ (vs'.view.primary ≡ vs.view.primary)
      ⊎ ((last_seen vs.clients vs'.view.primary ≡ some vs.view.viewnum) × (vs'.view.backup ≡ ""))
unfolding tick
tick-primary now order vs vs' keyed h = elim (Bool-cases vs.acked) [
  | inr a ↦ ground arith
  | inl a ↦
      let s : Scan = scan_of now order vs in
      let (q, e, f) =
        change_view-Emptied s.idle_client s.inited_idle_client (scanned now order vs) vs'
          (ground arith) in
      let same = λ (k : String). e.faces k ∙ face-scan now order vs k in
      ground (
        arith,
        e.number,
        e.primary,
        face-last_seen vs.clients q.clients vs'.view.primary (same vs'.view.primary),
        fill_places-primary s.idle_client s.inited_idle_client q vs'
            (face-IsKeyed vs.clients q.clients same keyed)
            (λ k p.
              let (c, found, _, _, _, seen) = (scan_of-Picks now order vs).inited_pick k p in
              ground (arith, e.number, e.faces k))
            f,
      )
]
