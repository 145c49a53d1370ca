-- ===== src/Libstore/Cluster.antt =====
-- The servers that start at a master, and the library store that asks it for them
-- (15-440/P2-F11/storageimpl/storageimpl.go, 15-440/P2-F11/libstore/libstoreimpl.go).
use golang_programming.Prelude.{
  ℕ, ◌<◌, ◌≡◌, ◌≢◌, String, Bool, false, Option, none, some, List, [], ◌∷◌, length, if◌then◌else◌,
  text_eq, nat_eq,
}
use golang_programming.Network as Network
use golang_programming.Network.{deliver}
use golang_programming.Storage.{Node}
use golang_programming.Storage.Handlers.{RegisterReply, answered, rpc_error, get_servers, is_node}
use golang_programming.Storage.Start.{start}
use golang_programming.Libstore as Lib
use golang_programming.Libstore.{Net}
use golang_programming.Storage.Registering.{World, world, call_master, master_net}

-- These servers start one after another, each with the fates of its calls of the master.
unfoldable pub start_all :
    (String → Bool) → String → ℕ → List (Node × List Network.Outcome) → World → World
start_all up master num_nodes [] w = w
start_all up master num_nodes ((n, fates) ∷ nodes) w =
    start_all up master num_nodes nodes
      (start (master_net up) master num_nodes n (world w.master fates)).0

-- The nodes of the servers.
abbrev pub nodes_of : List (Node × List Network.Outcome) → List Node
nodes_of [] = []
nodes_of ((n, fates) ∷ nodes) = n ∷ nodes_of nodes

-- Each of them has fewer than ten calls whose fate is given.
abbrev pub FewLost : List (Node × List Network.Outcome) → Type 0
FewLost [] = Unit
FewLost ((n, fates) ∷ nodes) = (length fates < 10) × FewLost nodes

-- The nodes of the master afterwards, the newest in front.
abbrev pub joined : List Node → List Node → List Node
joined [] nodes = nodes
joined (n ∷ new) nodes = joined new (n ∷ nodes)

-- The new nodes have other addresses than the master, and none is there twice.
abbrev pub AreNew : String → List Node → List Node → Type 0
AreNew master [] nodes = Unit
AreNew master (n ∷ new) nodes =
    (master ≢ n.host_port) × (is_node n nodes ≡ false) × AreNew master new (n ∷ nodes)

-- The list of servers of a ready reply.
abbrev pub ready_servers : RegisterReply → Option (List Node)
ready_servers rpc_error = none
ready_servers (answered ready servers) = if ready then some servers else none

-- The reply of GetServers when it is ready.
abbrev pub if_ready : World × Option RegisterReply → World × Option (List Node)
if_ready (w, none) = (w, none)
if_ready (w, some reply) = (w, ready_servers reply)

-- A library store that reaches the master.
abbrev pub client_of : (String → Bool) → Net World → Net World
client_of up base = record base {
  dial = λ host w. (w, up host);
  call_get_servers = λ w. if_ready (call_master (λ ss. (ss, get_servers ss)) w);
}
