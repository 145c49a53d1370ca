-- ===== src/PbService/Replication.antt =====
-- A put at the primary and its backup (6.824-labs/pbservice/server.go).
use golang_programming.Prelude.{
  String, ◌≡◌, ◌≢◌, Option, none, some, arith, nat_eq, text_eq, insert,
}
use golang_programming.Network.{Outcome, unreached, unanswered, answered, deliver}
use golang_programming.ViewService.{View}
use golang_programming.PbService.{
  PbServer, Net, Err, ok, err_wrong_server, err_no_key, GetReply, get, put, forward, sync,
}

-- The network between a primary and one other server: its calls end as `o` says, and the view
-- service answers both servers with `pinged`.
abbrev pub peer_net : Outcome → Option View → Net PbServer
peer_net o pinged = record {
  ping = λ viewnum b. (b, pinged);
  forward = λ host args. deliver o (forward args);
  sync = λ host store. deliver o (sync pinged store);
}

-- `p` and `b` are in the same view, as its primary and its backup, and hold the same values.
pub record InSync (p b : PbServer) : Type 0 where
  pub leads : p.view.primary ≡ p.me
  pub backup_named : p.view.backup ≢ ""
  pub follows : b.view.backup ≡ b.me
  pub same_store : (k : String) → b.store k ≡ p.store k

-- What a put leaves, by what became of its call of the backup: the two servers and the reply.
abbrev pub PutResult :
    Outcome → String → String → PbServer → PbServer → PbServer × PbServer × Err → Type 0
PutResult unreached key value p b (p', b', err) = (err ≡ err_wrong_server) × (p' ≡ p) × (b' ≡ b)
PutResult unanswered key value p b (p', b', err) =
    (err ≡ err_wrong_server) × (p' ≡ p) × ((k : String) → b'.store k ≡ insert key value p.store k)
PutResult answered key value p b (p', b', err) =
    (err ≡ ok) × InSync p' b' × ((k : String) → p'.store k ≡ insert key value p.store k)

module _ (pinged : Option View) (p b : PbServer) (v : InSync p b) (key value : String) where
  -- A put at a primary whose backup is in step with it: if the call of the backup is answered, the
  -- reply is OK, both servers hold the value under its key and nothing else changes; if the backup
  -- is not reached, the reply is ErrWrongServer and nothing changes; if only the answer is lost, the
  -- reply is ErrWrongServer, the primary is unchanged and the backup alone holds the value.
  pub put-PutResult :
      (o : Outcome) → PutResult o key value p b (put (peer_net o pinged) key value p b)
  unfolding put forward
  put-PutResult unreached = (
    ground (arith, v.leads, v.backup_named),
    ground (arith, v.leads, v.backup_named),
    ground (arith, v.leads, v.backup_named),
  )
  put-PutResult unanswered = (
    ground (arith, v.leads, v.backup_named),
    ground (arith, v.leads, v.backup_named),
    λ k. ground (arith, v.leads, v.backup_named, v.follows, v.same_store k),
  )
  put-PutResult answered = (
    ground (arith, v.leads, v.backup_named, v.follows),
    record {
      leads = ground (arith, v.leads);
      backup_named = λ e. ground (arith, v.backup_named);
      follows = ground (arith, v.follows);
      same_store = λ k. ground (arith, v.leads, v.backup_named, v.follows, v.same_store k);
    },
    λ k. ground (arith, v.leads, v.backup_named, v.follows),
  )

  -- When the answer of the backup was lost and the client puts again, and that call is answered,
  -- the servers are in step and hold the value, as after one put.
  pub put_again :
      let (p₁, b₁, _) = put (peer_net unanswered pinged) key value p b in
      let (p₂, b₂, err) = put (peer_net answered pinged) key value p₁ b₁ in
      (err ≡ ok) × InSync p₂ b₂ × ((k : String) → p₂.store k ≡ insert key value p.store k)
  unfolding put forward
  put_again = (
    ground (arith, v.leads, v.backup_named, v.follows),
    record {
      leads = ground (arith, v.leads);
      backup_named = λ e. ground (arith, v.backup_named);
      follows = ground (arith, v.follows);
      same_store = λ k. ground (arith, v.leads, v.backup_named, v.follows, v.same_store k);
    },
    λ k. ground (arith, v.leads, v.backup_named, v.follows),
  )

abbrev pub found : Option String → GetReply
found none = record { err = err_no_key; value = "" }
found (some value) = record { err = ok; value = value }

-- A get at a primary changes no server, and replies with what is stored, or that nothing is, if
-- the backup answers, and with ErrWrongServer if it does not.
pub get-by_outcome :
    (o : Outcome) (pinged : Option View) (p b : PbServer) (key : String)
    → InSync p b
    → get (peer_net o pinged) key p b ≡ (
      p,
      b,
      elim o [ answered ↦ found (p.store key) | _ ↦ record { err = err_wrong_server; value = "" } ],
    )
unfolding get forward
get-by_outcome unreached pinged p b key v = ground (arith, v.leads, v.backup_named)
get-by_outcome unanswered pinged p b key v = ground (arith, v.leads, v.backup_named)
get-by_outcome answered pinged p b key v = ground (arith, v.leads, v.backup_named, v.follows)
