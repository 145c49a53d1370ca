-- ===== src/Tests/Routes.antt =====
-- The servers of keys at fixed inputs.
use Prim.Native.String.{◌++◌ as ◌<>◌}
use golang_programming.Prelude.{◌≡◌, refl, some, List, [], ◌∷◌, get_elem?, ℕ_discrete}
use golang_programming.Storage.{Node}
use golang_programming.Libstore.{store_hash, server_of, sort_nodes}
use golang_programming.Libstore.Routing.{IsOwner, server_of-IsOwner}

abbrev servers : List Node
servers = record { host_port = "a"; node_id = 900 } ∷ record { host_port = "b"; node_id = 30 } ∷ []

server_of-IsOwner_example :
    (n : Node) × (get_elem?
        (sort_nodes servers)
        (server_of ("alice" <> ":" <> "T") (sort_nodes servers))
      ≡ some n)
    × IsOwner (store_hash "alice") n servers
unfolding ℕ_discrete
server_of-IsOwner_example = server_of-IsOwner "alice" "T" servers refl (λ e. cc)
