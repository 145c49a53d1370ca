-- ===== src/PbService/Clerk/Reads.antt =====
-- A client that retries a get until it is answered (6.824-labs/pbservice/client.go and server.go).
use golang_programming.Prelude.{
  ℕ, zero, suc, ◌<◌, ◌≡◌, ◌≢◌, ◌⊎◌, inl, inr, sym, subst, Bool-cases, refl, ap, ◌∙◌, String, Option,
  none, some, List, [], length, arith, nat_eq, text_eq, ◌==◌, true, false, ◌>>=◌,
}
use golang_programming.Network.{Outcome, unreached, unanswered, answered, deliver}
use golang_programming.ViewService.{View}
use golang_programming.PbService as Server
use golang_programming.PbService.{PbServer, Err, ok, err_wrong_server, err_no_key, GetReply}
use golang_programming.PbService.Replication.{InSync, peer_net, found, get-by_outcome}
use golang_programming.PbService.Clerk.{
  Clerk, Servers, must_retry, err_of, answer_of, update_view, retry, get, put,
}
use golang_programming.PbService.Clerk.Calls.{Fate, Pair, next, rest, servers}
use golang_programming.PbService.Clerk.Retries.{
  rest-shorter, rest-bound, find_primary-named, put-IsStored, IsStored-InSync,
}

-- What a get of the key returns.
abbrev pub stored_text : Option String → String
stored_text none = "ErrNoKey"
stored_text (some value) = value

abbrev handle_get : String → Outcome → Pair → Pair × GetReply
handle_get key o s =
    let (p, b, reply) = Server.get (peer_net o none) key s.primary s.backup in
    (record s { primary = p; backup = b }, reply)

answer_of-found : (o : Option String) → answer_of (some (found o)) ≡ stored_text o
answer_of-found none = refl
answer_of-found (some value) = refl

found_final : (o : Option String) → must_retry (err_of (some (found o))) ≡ false
found_final none = refl
found_final (some value) = refl

module _ {B R : Type 0} (net : Servers B) (call : String → B → B × Option R)
    (err : Option R → Option Err) where
  retry-stops :
      (fuel : ℕ) (ck : Clerk) (b : B) (reply : Option R)
      → must_retry (err reply) ≡ false
      → retry net call err fuel ck b reply ≡ some (ck, b, reply)
  unfolding retry
  retry-stops zero ck b reply e = ground (arith, e)
  retry-stops (suc fuel) ck b reply e = ground (arith, e)

  retry-again :
      (fuel : ℕ) (ck : Clerk) (b : B) (reply : Option R)
      → must_retry (err reply) ≡ true
      → let (ck', b₁) = update_view net ck b in
        let (b₂, reply') = call ck'.view.primary b₁ in
        retry net call err (suc fuel) ck b reply ≡ retry net call err fuel ck' b₂ reply'
  unfolding retry
  retry-again fuel ck b reply e = ground (arith, e)

-- What a call of the client leaves; it is answered at least if `sure`.
abbrev CallLeaves :
    PbServer → PbServer → String → Type 0 → List Fate → Pair × Option GetReply → Type 0
CallLeaves p b key sure fates (s', reply) =
    (s' ≡ record { primary = p; backup = b; fates = fates })
    × ((reply ≡ some (found (p.store key))) ⊎ ((must_retry (err_of reply) ≡ true) × (sure → ⊥)))

module _ (v : View) (p b : PbServer) (sync : InSync p b) (key : String) where
  abbrev pair : List Fate → Pair
  pair fates = record { primary = p; backup = b; fates = fates }

  abbrev call : String → Pair → Pair × Option GetReply
  call host = (servers v).call_get host key

  handle_get-pair :
      (o : Outcome) (fates : List Fate)
      → handle_get key o (pair fates) ≡ (
        pair fates,
        elim o [
          | answered ↦ found (p.store key)
          | _ ↦ record { err = err_wrong_server; value = "" }
        ],
      )
  handle_get-pair o fates =
      ap (λ r. (record { primary = r.0; backup = r.1; fates = fates }, r.2))
        (get-by_outcome o none p b key sync)

  deliver-CallLeaves :
      (o i : Outcome) (fates : List Fate)
      → CallLeaves p b key
          ((o ≡ answered) × (i ≡ answered))
          fates
          (deliver o (handle_get key i) (pair fates))
  deliver-CallLeaves unreached i fates = (refl, inr (refl, λ h. let e = h.0 in cc))
  deliver-CallLeaves unanswered i fates =
      (ap (λ x. x.0) (handle_get-pair i fates), inr (refl, λ h. let e = h.0 in cc))
  deliver-CallLeaves answered answered fates =
      let e = handle_get-pair answered fates in (ap (λ x. x.0) e, inl (ap (λ x. some x.1) e))
  deliver-CallLeaves answered unanswered fates =
      let e = handle_get-pair unanswered fates in
      (ap (λ x. x.0) e, inr (ap (λ x. must_retry (err_of (some x.1))) e, λ h. let f = h.1 in cc))
  deliver-CallLeaves answered unreached fates =
      let e = handle_get-pair unreached fates in
      (ap (λ x. x.0) e, inr (ap (λ x. must_retry (err_of (some x.1))) e, λ h. let f = h.1 in cc))

  call-CallLeaves :
      (host : String) (fates : List Fate)
      → host ≢ b.me
      → CallLeaves p b key ((host ≡ p.me) × (fates ≡ [])) (rest fates) (call host (pair fates))
  call-CallLeaves host fates other = elim (Bool-cases (host == p.me)) [
    | inr e ↦
        let q : call host (pair fates) ≡ (pair (rest fates), none) = ground (arith, e, other) in
        subst (CallLeaves p b key ((host ≡ p.me) × (fates ≡ [])) (rest fates)) (sym q)
          (refl, inr (refl, λ h. ground (arith, h.0, e)))
    | inl e ↦
        let (o, i) = next fates in
        let q : call host (pair fates) ≡ deliver o (handle_get key i) (pair (rest fates)) =
          ground (arith, e) in
        let (same, end) = deliver-CallLeaves o i (rest fates) in
        subst (CallLeaves p b key ((host ≡ p.me) × (fates ≡ [])) (rest fates)) (sym q) (
          same,
          elim end [
            | inl r ↦ inl r
            | inr (r, ne) ↦ inr (r, λ h. ne (ap (λ l. (next l).0) h.1, ap (λ l. (next l).1) h.1))
          ],
        )
  ]

  retry-found :
      (fuel : ℕ) (ck : Clerk) (fates : List Fate) (reply : Option GetReply)
      → v.primary ≡ p.me
      → p.me ≢ b.me
      → (reply ≡ some (found (p.store key)))
        ⊎ ((must_retry (err_of reply) ≡ true) × (length fates < fuel))
      → (ck' : Clerk) × (fates' : List Fate) × (retry
            (servers v)
            call
            err_of
            fuel
            ck
            (pair fates)
            reply
          ≡ some (ck', pair fates', some (found (p.store key))))
  unfolding update_view
  retry-found fuel ck fates reply leads apart (inl q) = (
    ck,
    fates,
    retry-stops (servers v) call err_of fuel ck (pair fates) reply
          (ap (λ r. must_retry (err_of r)) q ∙ found_final (p.store key))
        ∙ ap (λ r. some (ck, pair fates, r)) q,
  )
  retry-found zero ck fates reply leads apart (inr (q, lt)) = absurd (omega (arith, lt))
  retry-found (suc fuel) ck fates reply leads apart (inr (q, lt)) =
      let ck₁ : Clerk = record ck { view = v } in
      let (same, end) = call-CallLeaves v.primary fates (λ q. apart (sym leads ∙ q)) in
      let reply' : Option GetReply = (call v.primary (pair fates)).1 in
      let (ck', fates', e) = retry-found fuel ck₁ (rest fates) reply' leads apart (elim end [
        | inl r ↦ inl r
        | inr (r, ne) ↦ inr (r, rest-shorter fates fuel lt (λ none_left. ne (leads, none_left)))
      ]) in
      (
        ck',
        fates',
        retry-again (servers v) call err_of fuel ck (pair fates) reply q
            ∙ ap (λ t. retry (servers v) call err_of fuel ck₁ t reply') same
            ∙ e,
      )

  clerk_get-pair :
      (fates : List Fate) (fuel : ℕ) (ck : Clerk)
      → v.primary ≡ p.me
      → p.me ≢ ""
      → p.me ≢ b.me
      → ck.view.primary ≢ b.me
      → length fates < fuel
      → (ck' : Clerk) × (fates' : List Fate) × (get (servers v) fuel key ck (pair fates)
          ≡ some (ck', pair fates', stored_text (p.store key)))
  unfolding get update_view
  clerk_get-pair fates fuel ck leads ne apart known lt =
      let (ck₁, named, host) =
        find_primary-named v fuel ck (pair fates) (λ e. ne (sym leads ∙ e)) (omega (arith, lt)) in
      let not_peer : ck₁.view.primary ≢ b.me = elim host [
        | inl q ↦ λ r. apart (sym leads ∙ sym q ∙ r)
        | inr q ↦ λ r. known (sym q ∙ r)
      ] in
      let (same, end) = call-CallLeaves ck₁.view.primary fates not_peer in
      let reply : Option GetReply = (call ck₁.view.primary (pair fates)).1 in
      let (ck', fates', e) =
        retry-found fuel ck₁ (rest fates) reply leads apart
          (elim end [ inl r ↦ inl r | inr (r, _) ↦ inr (r, rest-bound fates fuel lt) ]) in
      (
        ck',
        fates',
        ap
              (λ m. m >>= λ r.
                (retry (servers v) call err_of fuel r.0 (call r.0.view.primary r.1).0
                    (call r.0.view.primary r.1).1
                  >>= λ t. some (t.0, t.1, answer_of t.2)))
              named
            ∙ ap
                (λ t. retry (servers v) call err_of fuel ck₁ t reply >>= λ t.
                  some (t.0, t.1, answer_of t.2))
                same
            ∙ ap (λ m. m >>= λ t. some (t.0, t.1, answer_of t.2)) e
            ∙ ap (λ t. some (ck', pair fates', t)) (answer_of-found (p.store key)),
      )

-- When the view service names the primary of two servers in step, a client puts a value and then
-- another gets the key, and neither starts from a view with the backup as primary: with fuel above the number of calls whose fates, and those of the calls
-- of the backup that they cause, are given at will for each of the two, both return, and the get
-- gives the value.
pub put_then_get :
    (v : View) (p b : PbServer) (fates fates' : List Fate) (fuel : ℕ) (key value : String)
    (ck other : Clerk)
    → InSync p b
    → v.primary ≡ p.me
    → p.me ≢ ""
    → p.me ≢ b.me
    → ck.view.primary ≢ b.me
    → other.view.primary ≢ b.me
    → length fates < fuel
    → length fates' < fuel
    → (ck' : Clerk) × (s' : Pair) × (put
          (servers v)
          fuel
          key
          value
          ck
          (record { primary = p; backup = b; fates = fates })
        ≡ some (ck', s'))
      × (other' : Clerk) × (s'' : Pair) × (get
            (servers v)
            fuel
            key
            other
            (record s' { fates = fates' })
          ≡ some (other', s'', value))
put_then_get v p b fates fates' fuel key value ck other sync leads ne apart known known' lt lt' =
    let (ck', s', e, near, stored) =
      put-IsStored v p b fates fuel key value ck sync leads ne apart known lt in
    let sync' = IsStored-InSync p.store p.me b.me key value s' near stored in
    let (other', fates'', f) =
      clerk_get-pair v s'.primary s'.backup sync' key fates' fuel other (leads ∙ sym near.named)
        (λ q. ne (sym near.named ∙ q)) (λ q. apart (sym near.named ∙ q ∙ near.peer_named))
        (λ q. known' (q ∙ near.peer_named)) lt' in
    let kept : s'.primary.store key ≡ some value = (stored key).0 ∙ ground arith in
    (
      ck',
      s',
      e,
      other',
      record s' { fates = fates'' },
      f ∙ ap (λ o. some (other', record s' { fates = fates'' }, stored_text o)) kept,
    )
