-- ===== src/Storage/Handlers.antt =====
-- The handlers that write, and the registration of servers: 15-440/P2-F11/storageimpl/storageimpl.go.
use golang_programming.Prelude.{
  String, Bool, true, false, ◌&&◌, ◌||◌, Option, none, some, List, [], ◌∷◌, ◌++◌, length,
  if◌then◌else◌, ◌==◌, nat_eq, text_eq, insert, ◌>>=◌,
}
use golang_programming.Storage.{
  Status, ok, e_key_not_found, e_item_not_found, e_item_exists, Node, Stored, text, texts,
  StorageServer, as_texts, Net, revoke_lease,
}

abbrev pub write : String → Stored → StorageServer → StorageServer
write key stored ss = record ss { hashmap = insert key stored ss.hashmap }

abbrev pub contains : String → List String → Bool
contains v [] = false
contains v (x ∷ l) = x == v || contains v l

-- The list without the first `v`, if there is one.
abbrev pub remove_item : String → List String → Option (List String)
remove_item v [] = none
remove_item v (x ∷ l) =
    let rest : Option (List String) = remove_item v l in
    if x == v then some l else elim rest [ none ↦ none | some l' ↦ some (x ∷ l') ]

-- What json.Unmarshal makes of the bytes of a key, nil for a missing one.
abbrev pub list_of : String → StorageServer → List String
list_of key ss = elim (ss.hashmap key) [ none ↦ [] | some stored ↦ as_texts stored ]

abbrev pub append_item : String → String → StorageServer → StorageServer × Status
append_item key v ss =
    if contains v (list_of key ss)
    then (ss, e_item_exists)
    else (write key (texts (list_of key ss ++ v ∷ [])) ss, ok)

abbrev pub remove_listed : String → String → List String → StorageServer → StorageServer × Status
remove_listed key v l ss = elim (remove_item v l) [
  | none ↦ (ss, e_item_not_found)
  | some l' ↦ (write key (texts l') ss, ok)
]

module _ {B : Type 0} (net : Net B) where
  unfoldable pub put : String → String → StorageServer → B → Option (StorageServer × B × Status)
  put key value ss b = do r ← revoke_lease net key ss b; some (write key (text value) r.0, r.1, ok)

  unfoldable pub append_to_list :
      String → String → StorageServer → B → Option (StorageServer × B × Status)
  append_to_list key v ss b = do
    r ← revoke_lease net key ss b
    let (ss', status) = append_item key v r.0
    some (ss', r.1, status)

  unfoldable pub remove_from_list :
      String → String → StorageServer → B → Option (StorageServer × B × Status)
  remove_from_list key v ss b = elim (ss.hashmap key) [
    | none ↦ some (ss, b, e_key_not_found)
    | some stored ↦ do
      r ← revoke_lease net key ss b
      let (ss', status) = remove_listed key v (as_texts stored) r.0
      some (ss', r.1, status)
  ]

-- RegisterReply; `rpc_error` is the error that the handler returns.
pub data RegisterReply : Type 0 where
  rpc_error : RegisterReply
  answered : Bool → List Node → RegisterReply

abbrev pub same_node : Node → Node → Bool
same_node a b = a.host_port == b.host_port && a.node_id == b.node_id

abbrev pub is_node : Node → List Node → Bool
is_node n [] = false
is_node n (m ∷ nodes) = same_node m n || is_node n nodes

unfoldable pub get_servers : StorageServer → RegisterReply
get_servers ss =
    if ss.is_master
    then if ss.num_nodes == length ss.nodes then answered true ss.nodes else answered false []
    else rpc_error

unfoldable pub register_server : Node → StorageServer → StorageServer × RegisterReply
unfolding get_servers
register_server n ss =
    let nodes : List Node = if is_node n ss.nodes then ss.nodes else n ∷ ss.nodes in
    let ss' : StorageServer = record ss { nodes = nodes } in
    if ss.is_master
    then (ss', if ss.num_nodes == length nodes then answered true nodes else answered false [])
    else (ss, rpc_error)
