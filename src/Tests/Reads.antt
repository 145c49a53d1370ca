-- ===== src/Tests/Reads.antt =====
-- A client of a storage server at fixed inputs.
use golang_programming.Prelude.{
  ℕ, ◌+◌, ◌≡◌, ◌==◌, String, Bool, refl, true, false, none, some, [], ◌∷◌, arith, insert,
  ℕ_discrete, text_discrete, text_eq,
}
use golang_programming.Storage.{ok, Node, text, StorageServer, new_storage_server}
use golang_programming.Storage.Handlers as Handlers
use golang_programming.Libstore.{
  Libstore, Net, returned, get, new_libstore, sort_nodes, server_of, pick_id, store_hash,
  before_colon,
}
use golang_programming.Libstore.Leasing.{client_net, server_net}
use golang_programming.Libstore.Coherence.{get_put_get}

-- What the client reaches besides Get does not answer.
abbrev base : Net (StorageServer × ℕ)
base = record {
  clock = λ b. b.1;
  dial = λ host b. (b, false);
  call_get = λ host args b. (b, none);
  call_get_list = λ host args b. (b, none);
  call_put = λ host key value b. (b, none);
  call_append_to_list = λ host key value b. (b, none);
  call_remove_from_list = λ host key value b. (b, none);
  call_get_servers = λ b. (b, none);
}

abbrev node : Node
node = record { host_port = "m"; node_id = 1 }

abbrev with_name : StorageServer
with_name =
    let ss = new_storage_server true node 1 in
    record ss { hashmap = insert "name" (text "old") ss.hashmap }

-- Every get wants a lease, and the server is connected.
abbrev client : Libstore
client = record (new_libstore "h" true (node ∷ [])) { rpc_conn = λ id. true }

-- Only the client can be dialled.
abbrev dialled : String → Bool
dialled host = host == "h"

get_put_get_example :
    (ls₁ : Libstore) × (ss₁ : StorageServer) × (get
        (server_net 40 base)
        "name"
        client
        (with_name, 1000)
      ≡ (ls₁, (ss₁, 1000 + 40), returned "old"))
    × (ls₂ : Libstore) × (ss₂ : StorageServer) × (Handlers.put
          (client_net dialled)
          "name"
          "new"
          ss₁
          (ls₁, 3000)
        ≡ some (ss₂, (ls₂, 3000), ok))
    × ((get (server_net 40 base) "name" ls₂ (ss₂, 5000)).2 ≡ returned "new")
unfolding text_discrete sort_nodes server_of pick_id store_hash before_colon ℕ_discrete
get_put_get_example =
    get_put_get 40 base "name" dialled "old" "new" 1000 3000 5000 with_name client (omega arith)
      (omega arith) refl refl refl (node, refl, refl) tt refl
