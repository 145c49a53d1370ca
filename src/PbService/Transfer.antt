-- ===== src/PbService/Transfer.antt =====
-- How a primary hands its store to a new backup (`tick` of 6.824-labs/pbservice/server.go).
use golang_programming.Prelude.{
  ℕ, zero, suc, ◌<◌, String, ◌≡◌, ◌≢◌, refl, ◌⊎◌, inl, inr, Bool-cases, Option-cases, Option, false,
  none, some, arith, ◌==◌, nat_eq, text_eq, GoMap, insert,
}
use golang_programming.Network.{answered}
use golang_programming.ViewService.{View}
use golang_programming.PbService.{
  PbServer, Net, ok, no_view, view_or_zero, must_forward, newer_view, put, sync, sync_loop,
  transfer, tick,
}
use golang_programming.PbService.Replication.{InSync, peer_net}

-- A `tick` whose ping fails or brings the number that the server knows changes nothing.
pub tick_same :
    {B : Type 0} (net : Net B) (fuel : ℕ) (pb : PbServer) (b : B)
    → let (b', pinged) = net.ping pb.view.viewnum b in
      (pinged ≡ none) ⊎ ((v : View) × (pinged ≡ some v) × (v.viewnum ≡ pb.view.viewnum))
      → tick net fuel pb b ≡ some (pb, b')
unfolding tick
tick_same net fuel pb b (inl e) = ground arith
tick_same net fuel pb b (inr (v, e, same)) = ground arith

module _ (v : View) (p b : PbServer) (fuel : ℕ) (new : v.viewnum ≢ p.view.viewnum)
    (leads : v.primary ≡ p.me) (named : v.backup ≢ "") (follows : v.backup ≡ b.me)
    (unseen : (b.view ≡ v) ⊎ (b.view.viewnum ≢ v.viewnum)) where
  -- When a primary learns of a view with a new backup, its call of Sync is answered, and the ping of
  -- the backup inside Sync brings the same view, the two servers end in that view and in step.
  pub tick-InSync :
      (p' : PbServer) × (b' : PbServer) × (tick (peer_net answered (some v)) fuel p b
        ≡ some (p', b'))
      × InSync p' b'
      × ((k : String) → b'.store k ≡ p.store k)
      × (b'.view ≡ v)
  unfolding tick sync
  tick-InSync =
      let seen : newer_view (some v) b ≡ v = elim unseen [
        | inl e ↦ ground (arith, e)
        | inr ne ↦ ground arith
      ] in
      (
        record p { view = v },
        record b { view = v; store = p.store },
        ground (arith, seen),
        record { leads = leads; backup_named = named; follows = follows; same_store = λ k. refl },
        λ k. refl,
        refl,
      )

-- The rounds in which the view service names a backup whose call of Sync then gets no answer are
-- bounded: `left` counts those that may still come.
pub record Settles {B : Type 0} (net : Net B) (left : B → ℕ) : Type 0 where
  pub failure_counts :
      (n : ℕ) (store : GoMap String String) (v : View) (b : B)
      → (net.ping n b).1 ≡ some v
      → (v.backup == "") ≡ false
      → (net.sync v.backup store (net.ping n b).0).1 ≡ none
      → left (net.sync v.backup store (net.ping n b).0).0 < left b

-- A ping that fails names no backup.
round_counts :
    {B : Type 0} (net : Net B) (left : B → ℕ) (store : GoMap String String)
    → Settles net left
    → (n : ℕ) (b : B) (pinged : Option View) → (net.ping n b).1 ≡ pinged
    → ((view_or_zero pinged).backup == "") ≡ false
    → (net.sync (view_or_zero pinged).backup store (net.ping n b).0).1 ≡ none
    → left (net.sync (view_or_zero pinged).backup store (net.ping n b).0).0 < left b
round_counts net left store s n b none p e f = ground arith
round_counts net left store s n b (some v) p e f = s.failure_counts n store v b p e f

-- The loop of `tick` ends, with fuel for one more round than calls can fail.
pub sync_loop_ends :
    {B : Type 0} (net : Net B) (left : B → ℕ) (store : GoMap String String)
    → Settles net left
    → (fuel : ℕ) (pb : PbServer) (b : B) → left b < fuel
    → (end : PbServer × B) × (sync_loop net fuel store pb b ≡ some end)
unfolding sync_loop
sync_loop_ends net left store s zero pb b h = absurd (omega arith)
sync_loop_ends net left store s (suc fuel) pb b h =
    let (b₁, pinged) = net.ping pb.view.viewnum b in
    let pb' : PbServer = record pb { view = view_or_zero pinged } in
    let (b₂, reply) = net.sync pb'.view.backup store b₁ in
    elim (Bool-cases (pb'.view.backup == "")) [
      | inl e ↦ ((pb', b₁), rw e refl)
      | inr e ↦ elim (Option-cases reply) [
        | inr (err, f) ↦ ((pb', b₂), rw (e, f) refl)
        | inl f ↦
            let fewer =
              round_counts net left store s pb.view.viewnum b (net.ping pb.view.viewnum b).1 refl e
                f in
            let (end, ran) =
              sync_loop_ends net left store s fuel pb' b₂ (omega (arith, fewer, h)) in
            (end, rw (e, f) ran)
      ]
    ]

transfer_ends :
    {B : Type 0} (net : Net B) (left : B → ℕ) (fuel : ℕ) (pb : PbServer) (b : B)
    → Settles net left
    → ((pb.view.backup == "") ≡ false
        → (net.sync pb.view.backup pb.store b).1 ≡ none
        → left (net.sync pb.view.backup pb.store b).0 < fuel)
    → (end : PbServer × B) × (transfer net fuel pb b ≡ some end)
unfolding transfer
transfer_ends net left fuel pb b s h = elim (Bool-cases (must_forward pb)) [
  | inr e ↦ ((pb, b), rw e refl)
  | inl e ↦ elim (Option-cases (net.sync pb.view.backup pb.store b).1) [
    | inr (err, f) ↦ ((pb, (net.sync pb.view.backup pb.store b).0), rw (e, f) refl)
    | inl f ↦
        let (end, ran) =
          sync_loop_ends net left pb.store s fuel pb (net.sync pb.view.backup pb.store b).0
            (h (ground (arith, e)) f) in
        (end, rw (e, f) ran)
  ]
]

-- A `tick` ends with fuel for one more round than there can be rounds in which the view service
-- names a backup whose call of Sync then gets no answer.
pub tick_ends :
    {B : Type 0} (net : Net B) (left : B → ℕ) (fuel : ℕ) (pb : PbServer) (b : B)
    → Settles net left
    → left b < fuel
    → (end : PbServer × B) × (tick net fuel pb b ≡ some end)
unfolding tick
tick_ends net left fuel pb b s h = elim (Option-cases (net.ping pb.view.viewnum b).1) [
  | inl e ↦ ((pb, (net.ping pb.view.viewnum b).0), rw (e, tick) refl)
  | inr (v, e) ↦ elim (Bool-cases (v.viewnum == pb.view.viewnum)) [
    | inl same ↦ ((pb, (net.ping pb.view.viewnum b).0), rw (e, same, tick) refl)
    | inr new ↦
        let (end, ran) =
          transfer_ends net left fuel (record pb { view = v }) (net.ping pb.view.viewnum b).0 s
            (λ named f.
              omega (arith, h, s.failure_counts pb.view.viewnum pb.store v b e named f)) in
        (end, rw (e, new, tick) ran)
  ]
]

module _ {B : Type 0} (net : Net B) (fuel : ℕ) (pb : PbServer) (b b₀ b₁ b₂ : B) (v : View)
    (pinged : net.ping pb.view.viewnum b ≡ (b₀, some v)) (new : v.viewnum ≢ pb.view.viewnum)
    (leads : v.primary ≡ pb.me) (named : v.backup ≢ "")
    (lost : net.sync v.backup pb.store b₀ ≡ (b₁, none))
    (silent : net.ping v.viewnum b₁ ≡ (b₂, none)) where
  -- When a primary's call of Sync for a new view fails, and the ping that follows it in the loop
  -- fails too, `tick` ends with the empty view, and the server then takes a put with OK and calls no
  -- backup.
  pub failed_ping_forgets :
      (key value : String)
      → pb.me ≢ ""
      → let forgetful : PbServer = record pb { view = no_view } in
        (tick net (suc fuel) pb b ≡ some (forgetful, b₂))
        × (put net key value forgetful b₂
            ≡ (record forgetful { store = insert key value pb.store }, b₂, ok))
  unfolding tick transfer sync_loop put
  failed_ping_forgets key value me = (ground arith, ground arith)
