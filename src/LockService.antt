-- ===== src/LockService.antt =====
-- The lock service: 6.824-labs/lockservice/common.go, server.go and client.go. A server is its lock
-- table and its table of replays. What `call` reaches is an argument `forward`: it stands for the
-- network and the other server. Listening, Kill and DeafConn are not modelled.
pub mod Replays
pub mod Replication
pub mod Clerk
use golang_programming.Prelude.{
  ℕ, String, Bool, true, false, not, Option, none, some, List, [], ◌∷◌, if◌then◌else◌, nat_eq,
  text_eq, GoMap, empty, insert,
}
use golang_programming.Network.{Outcome, deliver}

-- LockArgs and UnlockArgs
pub record Args : Type 0 where
  pub uuid : ℕ
  pub lockname : String

pub record LockServer : Type 0 where
  pub am_primary : Bool
  pub locks : GoMap String Bool
  pub replays : GoMap ℕ Bool

-- StartServer
abbrev pub start_server : Bool → LockServer
start_server am_primary = record { am_primary = am_primary; locks = empty; replays = empty }

-- `locked, _ := ls.locks[name]`: a missing key reads as false
abbrev pub is_locked : LockServer → String → Bool
is_locked ls name = elim (ls.locks name) [ none ↦ false | some locked ↦ locked ]

-- The first time that the server sees a uuid: the server, what is behind the call, and reply.OK.
lock_new : {B : Type 0} → (B → B) → Args → LockServer → B → LockServer × B × Bool
lock_new forward args ls b =
    let ok : Bool = not (is_locked ls args.lockname) in
    (
      record ls {
        locks = if ok then insert args.lockname true ls.locks else ls.locks;
        replays = insert args.uuid ok ls.replays;
      },
      if ls.am_primary then forward b else b,
      ok,
    )

unlock_new : {B : Type 0} → (B → B) → Args → LockServer → B → LockServer × B × Bool
unlock_new forward args ls b =
    let ok : Bool = is_locked ls args.lockname in
    (
      record ls {
        locks = if ok then insert args.lockname false ls.locks else ls.locks;
        replays = insert args.uuid ok ls.replays;
      },
      if ls.am_primary then forward b else b,
      ok,
    )

unfoldable pub lock : {B : Type 0} → (B → B) → Args → LockServer → B → LockServer × B × Bool
unfolding lock_new
lock forward args ls b = elim (ls.replays args.uuid) [
  | some ok ↦ (ls, b, ok)
  | none ↦ lock_new forward args ls b
]

unfoldable pub unlock : {B : Type 0} → (B → B) → Args → LockServer → B → LockServer × B × Bool
unfolding unlock_new
unlock forward args ls b = elim (ls.replays args.uuid) [
  | some ok ↦ (ls, b, ok)
  | none ↦ unlock_new forward args ls b
]

-- The two RPC handlers under one name.
pub data Op : Type 0 where
  locks unlocks : Op

unfoldable pub handle : {B : Type 0} → Op → (B → B) → Args → LockServer → B → LockServer × B × Bool
unfolding lock unlock
handle locks forward args ls b = lock forward args ls b
handle unlocks forward args ls b = unlock forward args ls b

-- A handler at a server that calls nobody, as the backup is: the server and its reply.
unfoldable pub serve : Op → Args → LockServer → LockServer × Bool
unfolding handle
serve op args ls = let (ls', _, ok) = handle op (λ (u : Unit {0}). u) args ls tt in (ls', ok)

-- What becomes of a message on its way.
pub data Fate : Type 0 where
  lost delivered : Fate

-- The primary's `call` of the backup; its answer is thrown away.
unfoldable pub call_backup : Op → Args → Fate → LockServer → LockServer
unfolding serve
call_backup op args lost b = b
call_backup op args delivered b = (serve op args b).0

-- The two servers.
pub record Cluster : Type 0 where
  pub primary : LockServer
  pub backup : LockServer

-- A request at the primary.
unfoldable pub serve_primary : Op → Args → Fate → Cluster → Cluster × Bool
unfolding handle call_backup
serve_primary op args fate c =
    let (p, b, ok) = handle op (call_backup op args fate) args c.primary c.backup in
    (record { primary = p; backup = b }, ok)

unfoldable pub serve_backup : Op → Args → Cluster → Cluster × Bool
unfolding serve
serve_backup op args c = let (b, ok) = serve op args c.backup in (record c { backup = b }, ok)

-- `call(ck.servers[1], …)`
call_second : Op → Args → Outcome → Cluster → Cluster × Bool
unfolding serve_backup
call_second op args second c =
    let (c', reply) = deliver second (serve_backup op args) c in
    (c', elim reply [ none ↦ false | some ok ↦ ok ])

-- Clerk.Lock and Clerk.Unlock: the primary first, with the fate of its call of the backup, and the
-- backup if no answer comes.
unfoldable pub clerk : Op → Args → Outcome → Fate → Outcome → Cluster → Cluster × Bool
unfolding serve_primary call_second
clerk op args first fate second c =
    let (c', reply) = deliver first (serve_primary op args fate) c in
    elim reply [ none ↦ call_second op args second c' | some ok ↦ (c', ok) ]
