-- ===== src/PbService.antt =====
-- The primary/backup key-value service: 6.824-labs/pbservice/common.go and server.go. What a server
-- reaches by RPC, the view service and its backup, is a record of functions on a state `B` of
-- everything else. Listening, kill and logging are not modelled.
pub mod Replication
pub mod Clients
pub mod Clerk
pub mod Transfer
use golang_programming.Prelude.{
  ℕ, zero, suc, String, Bool, true, false, not, ◌&&◌, Option, none, some, if◌then◌else◌, ◌==◌,
  nat_eq, text_eq, GoMap, empty, insert,
}
use golang_programming.ViewService.{View}

-- The values of `Err`; `unset` is the empty string of a reply that nobody filled in.
pub data Err : Type 0 where
  unset ok err_no_key err_wrong_server : Err

pub data OpKind : Type 0 where
  op_get op_put : OpKind

pub record ForwardArgs : Type 0 where
  pub op : OpKind
  pub key : String
  pub value : String

pub record PbServer : Type 0 where
  pub me : String
  pub store : GoMap String String
  pub view : View

-- View{}
abbrev pub no_view : View
no_view = record { viewnum = 0; primary = ""; backup = "" }

-- StartServer
abbrev pub start_server : String → PbServer
start_server me = record { me = me; store = empty; view = no_view }

-- The RPCs that a server makes. A call that returns false gives `none`.
pub record Net (B : Type 0) : Type 0 where
  pub ping : ℕ → B → B × Option View
  pub forward : String → ForwardArgs → B → B × Option Err
  pub sync : String → GoMap String String → B → B × Option Err

pub record GetReply : Type 0 where
  pub err : Err
  pub value : String

abbrev pub must_forward : PbServer → Bool
must_forward pb = pb.view.primary == pb.me && not (pb.view.backup == "")

-- !(!ok || freply.Err != OK)
abbrev pub is_ok : Option Err → Bool
is_ok (some ok) = true
is_ok _ = false

get_local : String → PbServer → GetReply
get_local key pb = elim (pb.store key) [
  | none ↦ record { err = err_no_key; value = "" }
  | some value ↦ record { err = ok; value = value }
]

module _ {B : Type 0} (net : Net B) where
  -- if pb.view.Primary == pb.me && pb.view.Backup != "": the call, and whether the handler goes on
  try_forward : ForwardArgs → PbServer → B → B × Bool
  try_forward args pb b =
      let (b', reply) = net.forward pb.view.backup args b in
      if must_forward pb then (b', is_ok reply) else (b, true)

  unfoldable pub get : String → PbServer → B → PbServer × B × GetReply
  unfolding get_local try_forward
  get key pb b =
      let (b', go_on) = try_forward (record { op = op_get; key = key; value = "" }) pb b in
      (pb, b', if go_on then get_local key pb else record { err = err_wrong_server; value = "" })

  unfoldable pub put : String → String → PbServer → B → PbServer × B × Err
  unfolding try_forward
  put key value pb b =
      let (b', go_on) = try_forward (record { op = op_put; key = key; value = value }) pb b in
      if go_on
      then (record pb { store = insert key value pb.store }, b', ok)
      else (pb, b', err_wrong_server)

unfoldable pub forward : ForwardArgs → PbServer → PbServer × Err
forward args pb =
    if pb.view.backup == pb.me
    then (elim args.op [
      | op_get ↦ (pb, ok)
      | op_put ↦ (record pb { store = insert args.key args.value pb.store }, ok)
    ])
    else (pb, err_wrong_server)

-- `v, _ := pb.vs.Ping(…)`: a call that fails gives the zero view
abbrev pub view_or_zero : Option View → View
view_or_zero none = no_view
view_or_zero (some v) = v

-- if v.Viewnum != pb.view.Viewnum { pb.view = v }
abbrev pub newer_view : Option View → PbServer → View
newer_view pinged pb =
    let v : View = view_or_zero pinged in if v.viewnum == pb.view.viewnum then pb.view else v

-- The Sync handler, with what its ping of the view service brought.
unfoldable pub sync : Option View → GoMap String String → PbServer → PbServer × Err
sync pinged store pb =
    let v : View = newer_view pinged pb in
    if v.backup == pb.me
    then (record pb { view = v; store = store }, ok)
    else (record pb { view = v }, err_wrong_server)

module _ {B : Type 0} (net : Net B) where
  -- `for !ok`: ask for the view, and call its backup if it has one. `none` is fuel that ran out.
  unfoldable pub sync_loop : ℕ → GoMap String String → PbServer → B → Option (PbServer × B)
  sync_loop zero store pb b = none
  sync_loop (suc fuel) store pb b =
      let (b₁, pinged) = net.ping pb.view.viewnum b in
      let pb' : PbServer = record pb { view = view_or_zero pinged } in
      let (b₂, reply) = net.sync pb'.view.backup store b₁ in
      let again : Option (PbServer × B) = sync_loop fuel store pb' b₂ in
      if pb'.view.backup == ""
      then some (pb', b₁)
      else elim reply [ none ↦ again | some err ↦ some (pb', b₂) ]

  transfer : ℕ → PbServer → B → Option (PbServer × B)
  transfer fuel pb b =
      let (b', reply) = net.sync pb.view.backup pb.store b in
      let again : Option (PbServer × B) = sync_loop fuel pb.store pb b' in
      if must_forward pb
      then (elim reply [ none ↦ again | some err ↦ some (pb, b') ])
      else some (pb, b)

  unfoldable pub tick : ℕ → PbServer → B → Option (PbServer × B)
  unfolding transfer
  tick fuel pb b =
      let (b', pinged) = net.ping pb.view.viewnum b in
      elim pinged [
        | none ↦ some (pb, b')
        | some v ↦
            if v.viewnum == pb.view.viewnum
            then some (pb, b')
            else transfer fuel (record pb { view = v }) b'
      ]
