-- ===== src/PbService/Clerk/Retries.antt =====
-- A client that retries a put until it is answered (6.824-labs/pbservice/client.go and server.go).
use golang_programming.Prelude.{
  ℕ, zero, suc, ◌<◌, ◌≡◌, ◌≢◌, ◌⊎◌, inl, inr, sym, subst, Bool-cases, refl, ap, ◌∙◌, String, Option,
  none, some, List, [], ◌∷◌, length, arith, nat_eq, text_eq, insert, GoMap, ◌==◌, true,
}
use golang_programming.Network.{Outcome, unreached, unanswered, answered, deliver}
use golang_programming.ViewService.{View}
use golang_programming.PbService.{PbServer, Err, ok}
use golang_programming.PbService.Replication.{InSync}
use golang_programming.PbService.Clerk.{Clerk, must_retry, update_view, find_primary, retry, put}
use golang_programming.PbService.Clerk.Calls.{
  Fate, Pair, next, rest, servers, handle_put, handle_put-PutLeaves, IsNear, IsStored, CallLeaves,
}

pub rest-shorter :
    (fates : List Fate) (fuel : ℕ)
    → length fates < suc fuel
    → fates ≢ []
    → length (rest fates) < fuel
rest-shorter [] fuel lt ne = absurd (ne refl)
rest-shorter (fate ∷ fates) fuel lt ne = omega (arith, lt)

pub rest-bound : (fates : List Fate) (fuel : ℕ) → length fates < fuel → length (rest fates) < fuel
rest-bound [] fuel lt = lt
rest-bound (fate ∷ fates) fuel lt = omega (arith, lt)

pub find_primary-named :
    (v : View) (fuel : ℕ) (ck : Clerk) (s : Pair)
    → v.primary ≢ ""
    → 0 < fuel
    → (ck' : Clerk) × (find_primary (servers v) fuel ck s ≡ some (ck', s))
      × ((ck'.view.primary ≡ v.primary) ⊎ (ck'.view.primary ≡ ck.view.primary))
unfolding find_primary update_view
find_primary-named v zero ck s ne lt = absurd (omega (arith, lt))
find_primary-named v (suc zero) ck s ne lt = elim (Bool-cases (ck.view.primary == "")) [
  | inl e ↦ (record { view = v }, ground (arith, e, ne), inl refl)
  | inr e ↦ (ck, ground (arith, e), inr refl)
]
find_primary-named v (suc (suc fuel)) ck s ne lt = elim (Bool-cases (ck.view.primary == "")) [
  | inl e ↦ (record { view = v }, ground (arith, e, ne), inl refl)
  | inr e ↦ (ck, ground (arith, e), inr refl)
]

module _ (v : View) (old : GoMap String String) (me peer key value : String) where
  abbrev call : String → Pair → Pair × Option Err
  call host = (servers v).call_put host key value

  deliver-CallLeaves :
      (o i : Outcome) (s : Pair)
      → IsNear old me peer key s
      → CallLeaves old me peer key value
          ((o ≡ answered) × (i ≡ answered))
          s.fates
          (deliver o (handle_put key value i) s)
  deliver-CallLeaves unreached i s near = (near, refl, inr (refl, λ h. let e = h.0 in cc))
  deliver-CallLeaves unanswered i s near =
      let (near', same, _) = handle_put-PutLeaves old me peer key value s near i in
      (near', same, inr (refl, λ h. let e = h.0 in cc))
  deliver-CallLeaves answered i s near =
      let (near', same, end) = handle_put-PutLeaves old me peer key value s near i in
      (
        near',
        same,
        elim end [
          | inl (p, q) ↦ inl (ap some p, q)
          | inr (p, ne) ↦ inr (ap (λ x. must_retry (some x)) p, λ h. ne h.1)
        ],
      )

  call-CallLeaves :
      (host : String) (s : Pair)
      → host ≢ peer
      → IsNear old me peer key s
      → CallLeaves old me peer key value ((host ≡ me) × (s.fates ≡ [])) (rest s.fates) (call host s)
  call-CallLeaves host s other near =
      let s₁ : Pair = record s { fates = rest s.fates } in
      let near₁ : IsNear old me peer key s₁ = record {
        named = near.named;
        peer_named = near.peer_named;
        leads = near.leads;
        backup_named = near.backup_named;
        follows = near.follows;
        same = near.same;
      } in
      elim (Bool-cases (host == s.primary.me)) [
        | inr e ↦
            let p : call host s ≡ (s₁, none) =
              let not_peer : host ≢ s.backup.me = λ q. other (q ∙ near.peer_named) in
              ground (arith, e, not_peer) in
            subst (CallLeaves old me peer key value ((host ≡ me) × (s.fates ≡ [])) (rest s.fates))
              (sym p) (near₁, refl, inr (refl, λ h. ground (arith, h.0, e, near.named)))
        | inl e ↦
            let (o, i) = next s.fates in
            let p : call host s ≡ deliver o (handle_put key value i) s₁ = ground (arith, e) in
            let (near', same, end) = deliver-CallLeaves o i s₁ near₁ in
            subst (CallLeaves old me peer key value ((host ≡ me) × (s.fates ≡ [])) (rest s.fates))
              (sym p)
              (
                near',
                same,
                elim end [
                  | inl q ↦ inl q
                  | inr (q, ne) ↦ inr (
                    q,
                    λ h. ne (ap (λ fates. (next fates).0) h.1, ap (λ fates. (next fates).1) h.1),
                  )
                ],
              )
      ]

  -- The loop of Put after a call.
  retry-IsStored :
      (fuel : ℕ) (ck : Clerk) (s : Pair) (reply : Option Err)
      → v.primary ≡ me
      → me ≢ peer
      → IsNear old me peer key s
      → ((reply ≡ some ok) × IsStored old key value s)
        ⊎ ((must_retry reply ≡ true) × (length s.fates < fuel))
      → (ck' : Clerk) × (s' : Pair) × (retry (servers v) call (λ e. e) fuel ck s reply
          ≡ some (ck', s', some ok))
        × IsNear old me peer key s'
        × IsStored old key value s'
  unfolding retry update_view
  retry-IsStored zero ck s reply leads apart near (inl (p, q)) = (ck, s, ground (arith, p), near, q)
  retry-IsStored zero ck s reply leads apart near (inr (p, lt)) = absurd (omega (arith, lt))
  retry-IsStored (suc fuel) ck s reply leads apart near (inl (p, q)) =
      (ck, s, ground (arith, p), near, q)
  retry-IsStored (suc fuel) ck s reply leads apart near (inr (p, lt)) =
      let ck₁ : Clerk = record ck { view = v } in
      let (near', left, end) = call-CallLeaves v.primary s (λ q. apart (sym leads ∙ q)) near in
      let (ck', s', q, near'', stored) =
        retry-IsStored fuel ck₁ (call v.primary s).0 (call v.primary s).1 leads apart near'
          (elim end [
            | inl x ↦ inl x
            | inr (again, ne) ↦ inr (
              again,
              subst (λ l. length l < fuel) (sym left)
                  (rest-shorter s.fates fuel lt (λ none_left. ne (leads, none_left))),
            )
          ]) in
      (ck', s', ground (arith, p, q), near'', stored)

InSync-IsNear :
    (p b : PbServer) (fates : List Fate) (key : String)
    → InSync p b
    → IsNear p.store p.me b.me key (record { primary = p; backup = b; fates = fates })
InSync-IsNear p b fates key sync = record {
  named = refl;
  peer_named = refl;
  leads = sync.leads;
  backup_named = sync.backup_named;
  follows = sync.follows;
  same = λ k ne. (refl, sync.same_store k);
}

pub put-IsStored :
    (v : View) (p b : PbServer) (fates : List Fate) (fuel : ℕ) (key value : String) (ck : Clerk)
    → InSync p b
    → v.primary ≡ p.me
    → p.me ≢ ""
    → p.me ≢ b.me
    → ck.view.primary ≢ b.me
    → length fates < fuel
    → (ck' : Clerk) × (s' : Pair) × (put
          (servers v)
          fuel
          key
          value
          ck
          (record { primary = p; backup = b; fates = fates })
        ≡ some (ck', s'))
      × IsNear p.store p.me b.me key s'
      × IsStored p.store key value s'
unfolding put
put-IsStored v p b fates fuel key value ck sync leads ne apart known lt =
    let s : Pair = record { primary = p; backup = b; fates = fates } in
    let (ck₁, found, host) =
      find_primary-named v fuel ck s (λ e. ne (sym leads ∙ e)) (omega (arith, lt)) in
    let not_peer : ck₁.view.primary ≢ b.me = elim host [
      | inl q ↦ λ r. apart (sym leads ∙ sym q ∙ r)
      | inr q ↦ λ r. known (sym q ∙ r)
    ] in
    let (near, left, end) =
      call-CallLeaves v p.store p.me b.me key value ck₁.view.primary s not_peer
        (InSync-IsNear p b fates key sync) in
    let (s₁, reply) = call v p.store p.me b.me key value ck₁.view.primary s in
    let (ck', s', q, near', stored) =
      retry-IsStored v p.store p.me b.me key value fuel ck₁ s₁ reply leads apart near (elim end [
        | inl x ↦ inl x
        | inr (again, _) ↦
            inr (again, subst (λ l. length l < fuel) (sym left) (rest-bound fates fuel lt))
      ]) in
    (ck', s', ground (arith, found, q), near', stored)

-- The servers after a put.
pub IsStored-InSync :
    (old : GoMap String String) (me peer key value : String) (s : Pair)
    → IsNear old me peer key s
    → IsStored old key value s
    → InSync s.primary s.backup
IsStored-InSync old me peer key value s near stored = record {
  leads = near.leads;
  backup_named = near.backup_named;
  follows = near.follows;
  same_store = λ k. (stored k).1 ∙ sym (stored k).0;
}

-- When the view service names the primary of two servers in step, a put of a client that knows any
-- view but one with the backup as primary returns with fuel above the number of calls whose fates, and those of the calls of the
-- backup that they cause, are given at will; calls after those are answered. The servers then are in
-- step, with the value stored under its key and nothing else changed.
pub clerk_put-InSync :
    (v : View) (p b : PbServer) (fates : List Fate) (fuel : ℕ) (key value : String) (ck : Clerk)
    → InSync p b
    → v.primary ≡ p.me
    → p.me ≢ ""
    → p.me ≢ b.me
    → ck.view.primary ≢ b.me
    → length fates < fuel
    → (ck' : Clerk) × (s' : Pair) × (put
          (servers v)
          fuel
          key
          value
          ck
          (record { primary = p; backup = b; fates = fates })
        ≡ some (ck', s'))
      × InSync s'.primary s'.backup
      × ((k : String) → s'.primary.store k ≡ insert key value p.store k)
clerk_put-InSync v p b fates fuel key value ck sync leads ne apart known lt =
    let (ck', s', e, near, stored) =
      put-IsStored v p b fates fuel key value ck sync leads ne apart known lt in
    (ck', s', e, IsStored-InSync p.store p.me b.me key value s' near stored, λ k. (stored k).0)
