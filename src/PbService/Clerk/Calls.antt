-- ===== src/PbService/Clerk/Calls.antt =====
-- A put of a client at the primary and its backup (6.824-labs/pbservice/client.go and server.go).
use golang_programming.Prelude.{
  ◌≡◌, ◌≢◌, ◌⊎◌, inl, inr, sym, subst, Bool-cases, refl, String, Option, none, some, List, [], ◌∷◌,
  arith, nat_eq, text_eq, insert, GoMap, if◌then◌else◌, ◌==◌, true,
}
use golang_programming.Network.{Outcome, unreached, unanswered, answered, deliver}
use golang_programming.ViewService.{View}
use golang_programming.PbService as Server
use golang_programming.PbService.{PbServer, Err, ok, err_wrong_server, forward, GetReply}
use golang_programming.PbService.Replication.{peer_net}
use golang_programming.PbService.Clerk.{Servers, must_retry}

-- What becomes of a client's call, and of the call of the backup that it causes.
abbrev pub Fate : Type 0
Fate = Outcome × Outcome

-- The primary, its backup, and the fates of the calls to come; after those every call is answered.
pub record Pair : Type 0 where
  pub primary : PbServer
  pub backup : PbServer
  pub fates : List Fate

abbrev pub next : List Fate → Fate
next [] = (answered, answered)
next (fate ∷ fates) = fate

abbrev pub rest : List Fate → List Fate
rest [] = []
rest (fate ∷ fates) = fates

abbrev pub handle_put : String → String → Outcome → Pair → Pair × Err
handle_put key value o s =
    let (p, b, err) = Server.put (peer_net o none) key value s.primary s.backup in
    (record s { primary = p; backup = b }, err)

abbrev pub backup_put : String → String → Outcome → Pair → Pair × Err
backup_put key value o s =
    let (b, p, err) = Server.put (peer_net o none) key value s.backup s.primary in
    (record s { primary = p; backup = b }, err)

-- Both servers answer clients.
abbrev pub servers : View → Servers Pair
servers v = record {
  get_view = λ s. (s, some v);
  call_get = λ host key s.
      let (o, i) = next s.fates in
      let s' : Pair = record s { fates = rest s.fates } in
      if host == s.primary.me
      then deliver o
          (λ (t : Pair).
            let (p, b, reply) = Server.get (peer_net i none) key t.primary t.backup in
            (record t { primary = p; backup = b }, reply))
          s'
      else if host == s.backup.me
      then deliver o
          (λ (t : Pair).
            let (b, p, reply) = Server.get (peer_net i none) key t.backup t.primary in
            (record t { primary = p; backup = b }, reply))
          s'
      else (s', none);
  call_put = λ host key value s.
      let (o, i) = next s.fates in
      let s' : Pair = record s { fates = rest s.fates } in
      if host == s.primary.me
      then deliver o (handle_put key value i) s'
      else if host == s.backup.me
      then deliver o (backup_put key value i) s'
      else (s', none);
}

-- The two servers are primary and backup of a view, and hold the values of `old` but for this key.
pub record IsNear (old : GoMap String String) (me peer key : String) (s : Pair) : Type 0 where
  pub named : s.primary.me ≡ me
  pub peer_named : s.backup.me ≡ peer
  pub leads : s.primary.view.primary ≡ s.primary.me
  pub backup_named : s.primary.view.backup ≢ ""
  pub follows : s.backup.view.backup ≡ s.backup.me
  pub same : (k : String) → k ≢ key → (s.primary.store k ≡ old k) × (s.backup.store k ≡ old k)

-- A put at this key has been answered with OK.
abbrev pub IsStored : GoMap String String → String → String → Pair → Type 0
IsStored old key value s =
    (k : String)
    → (s.primary.store k ≡ insert key value old k) × (s.backup.store k ≡ insert key value old k)

-- What a put at the primary leaves.
abbrev pub PutLeaves :
    GoMap String String
    → String
    → String
    → String
    → String
    → Outcome
    → List Fate
    → Pair × Err
    → Type 0
PutLeaves old me peer key value o fates (s', err) =
    IsNear old me peer key s'
    × (s'.fates ≡ fates)
    × (((err ≡ ok) × IsStored old key value s') ⊎ ((err ≡ err_wrong_server) × (o ≢ answered)))

abbrev stored : String → String → PbServer → PbServer
stored key value pb = record pb { store = insert key value pb.store }

module _ (old : GoMap String String) (me peer key value : String) (s : Pair)
    (near : IsNear old me peer key s) where
  backup_stored : IsNear old me peer key (record s { backup = stored key value s.backup })
  backup_stored = record {
    named = near.named;
    peer_named = near.peer_named;
    leads = near.leads;
    backup_named = near.backup_named;
    follows = near.follows;
    same = λ k ne. ((near.same k ne).0, ground (arith, (near.same k ne).1, ne));
  }

  both_stored :
      IsNear old me peer key
        (record s { primary = stored key value s.primary; backup = stored key value s.backup })
  both_stored = record {
    named = near.named;
    peer_named = near.peer_named;
    leads = near.leads;
    backup_named = near.backup_named;
    follows = near.follows;
    same = λ k ne. (ground (arith, (near.same k ne).0, ne), ground (arith, (near.same k ne).1, ne));
  }

  both-IsStored :
      IsStored old key value
        (record s { primary = stored key value s.primary; backup = stored key value s.backup })
  both-IsStored k = elim (Bool-cases (k == key)) [
    | inl e ↦ (ground arith, ground arith)
    | inr e ↦ let (p, q) = near.same k (λ h. ground arith) in (ground (arith, p), ground (arith, q))
  ]

  pub handle_put-PutLeaves :
      (o : Outcome) → PutLeaves old me peer key value o s.fates (handle_put key value o s)
  unfolding Server.put forward
  handle_put-PutLeaves unreached =
      let e : handle_put key value unreached s ≡ (s, err_wrong_server) =
        ground (arith, near.leads, near.backup_named) in
      subst (PutLeaves old me peer key value unreached s.fates) (sym e)
        (near, refl, inr (refl, λ h. cc))
  handle_put-PutLeaves unanswered =
      let e : handle_put key value unanswered s
          ≡ (record s { backup = stored key value s.backup }, err_wrong_server) =
        ground (arith, near.leads, near.backup_named, near.follows) in
      subst (PutLeaves old me peer key value unanswered s.fates) (sym e)
        (backup_stored, refl, inr (refl, λ h. cc))
  handle_put-PutLeaves answered =
      let e : handle_put key value answered s ≡ (
        record s { primary = stored key value s.primary; backup = stored key value s.backup },
        ok,
      ) =
        ground (arith, near.leads, near.backup_named, near.follows) in
      subst (PutLeaves old me peer key value answered s.fates) (sym e)
        (both_stored, refl, inl (refl, both-IsStored))

-- What a call of the client leaves; it is answered with OK at least if `sure`.
abbrev pub CallLeaves :
    GoMap String String
    → String
    → String
    → String
    → String
    → Type 0
    → List Fate
    → Pair × Option Err
    → Type 0
CallLeaves old me peer key value sure fates (s', reply) =
    IsNear old me peer key s'
    × (s'.fates ≡ fates)
    × (((reply ≡ some ok) × IsStored old key value s') ⊎ ((must_retry reply ≡ true) × (sure → ⊥)))
