-- ===== src/Storage/Nodes.antt =====
-- The registration of storage servers at the master (15-440/P2-F11/storageimpl/storageimpl.go).
use golang_programming.Prelude.{
  ◌≡◌, ◌<◌, true, false, List, [], ◌∷◌, arith, length, ap, subst, ◌∙◌, if◌then◌else◌, text_eq,
  nat_eq, Bool-cases, inl, inr,
}
use golang_programming.Storage.{Node, StorageServer}
use golang_programming.Storage.Handlers.{answered, register_server, get_servers, is_node, same_node}

-- No node is registered twice.
abbrev pub NodesDistinct : List Node → Type 0
NodesDistinct [] = Unit
NodesDistinct (n ∷ nodes) = (is_node n nodes ≡ false) × NodesDistinct nodes

pub same_node_refl : (n : Node) → same_node n n ≡ true
same_node_refl n = ground arith

-- A registered node is not added again.
pub register_server-known :
    (n : Node) (ss : StorageServer)
    → ss.is_master ≡ true
    → is_node n ss.nodes ≡ true
    → register_server n ss ≡ (ss, get_servers ss)
unfolding register_server get_servers
register_server-known n ss m e = ground arith

pub get_servers-register_server :
    (n : Node) (ss : StorageServer)
    → ss.is_master ≡ true
    → get_servers (register_server n ss).0 ≡ (register_server n ss).1
unfolding register_server get_servers
get_servers-register_server n ss m = ground arith

pub register_server-nodes :
    (n : Node) (ss : StorageServer)
    → ss.is_master ≡ true
    → let ss' : StorageServer = (register_server n ss).0 in
      (ss'.is_master ≡ true) × (ss'.nodes ≡ (if is_node n ss.nodes then ss.nodes else n ∷ ss.nodes))
unfolding register_server
register_server-nodes n ss m = (ground arith, ground arith)

-- After a registration at the master the node is registered and no node is twice, a second
-- registration changes nothing and gets the same answer, which GetServers gives as well.
pub register_server-again :
    (n : Node) (ss : StorageServer)
    → ss.is_master ≡ true
    → NodesDistinct ss.nodes
    → let (ss', reply) = register_server n ss in
      NodesDistinct ss'.nodes
      × (is_node n ss'.nodes ≡ true)
      × (register_server n ss' ≡ (ss', reply))
      × (get_servers ss' ≡ reply)
register_server-again n ss m d =
    let (m', e) = register_server-nodes n ss m in
    let (distinct, known) =
      elim (Bool-cases (is_node n ss.nodes))
        as (λ _.
          NodesDistinct (register_server n ss).0.nodes
          × (is_node n (register_server n ss).0.nodes ≡ true)) [
            | inl f ↦ (subst NodesDistinct (ground arith) d, ground arith)
            | inr f ↦ (
              subst NodesDistinct {x = n ∷ ss.nodes} (ground arith) (f, d),
              ground (arith, same_node_refl n),
            )
          ] in
    let answer = get_servers-register_server n ss m in
    (
      distinct,
      known,
      register_server-known n (register_server n ss).0 m' known
          ∙ ap (λ a. ((register_server n ss).0, a)) answer,
      answer,
    )

unfoldable pub register_all : List Node → StorageServer → StorageServer
register_all [] ss = ss
register_all (n ∷ nodes) ss = register_all nodes (register_server n ss).0

-- Once more servers have registered than the master waits for, no registration and no GetServers is
-- ever answered as ready.
pub overfull_never_ready :
    (n : Node) (nodes : List Node) (ss : StorageServer)
    → ss.is_master ≡ true
    → ss.num_nodes < length ss.nodes
    → let ss' : StorageServer = register_all nodes ss in
      ((register_server n ss').1 ≡ answered false []) × (get_servers ss' ≡ answered false [])
unfolding register_all register_server get_servers
overfull_never_ready n [] ss m h = (ground arith, ground arith)
overfull_never_ready n (k ∷ nodes) ss m h =
    overfull_never_ready n nodes (register_server k ss).0 (ground arith) (ground arith)
