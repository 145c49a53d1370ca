-- ===== src/Storage/Start.antt =====
-- The start of a storage server: 15-440/P2-F11/storageimpl/storageimpl.go, NewStorageserver, and the
-- Register method of 15-440/P2-F11/storagerpc/storagerpc.go. The random node id, when none is given, is an
-- argument. Sleeping between the calls is not modelled.
use golang_programming.Prelude.{
  ℕ, zero, suc, String, Bool, true, false, Option, none, some, if◌then◌else◌, ◌==◌, text_eq,
}
use golang_programming.Storage.{Node, StorageServer, new_storage_server}
use golang_programming.Storage.Handlers.{RegisterReply, answered}

-- What a starting server reaches: the master by a dial, and its Register.
pub record Master (B : Type 0) : Type 0 where
  pub dial : String → B → B × Bool
  pub call_register : Node → B → B × Option RegisterReply

-- reply.Ready; the reply of a call that fails is left as it was
abbrev pub is_ready : Option RegisterReply → Bool
is_ready (some (answered ready servers)) = ready
is_ready _ = false

module _ {B : Type 0} (net : Master B) where
  -- `rounds` calls of Register, up to the first that is answered as ready.
  unfoldable pub register_loop : ℕ → Node → B → B
  register_loop zero n b = b
  register_loop (suc rounds) n b =
      let (b', reply) = net.call_register n b in
      let again : B = register_loop rounds n b' in if is_ready reply then b' else again

  -- `none` is the nil server of a dial that fails; the server starts also when the master is not ready.
  unfoldable pub start : String → ℕ → Node → B → B × Option StorageServer
  start master num_nodes n b =
      let (b', up) = net.dial master b in
      if master == n.host_port
      then (b, some (new_storage_server true n num_nodes))
      else if up
      then (register_loop 10 n b', some (new_storage_server false n num_nodes))
      else (b', none)
