-- ===== src/Tests/Clusters.antt =====
-- A cluster of storage servers that starts, at fixed inputs.
use golang_programming.Prelude.{◌==◌, String, Bool, false, none, List, [], ◌∷◌, text_eq}
use golang_programming.Network.{Outcome, unreached, unanswered}
use golang_programming.Storage.{Node}
use golang_programming.Storage.Registering.{World}
use golang_programming.Libstore as Lib
use golang_programming.Libstore.{Net}

abbrev base : Net World
base = record {
  clock = λ b. 0;
  dial = λ host b. (b, false);
  call_get = λ host args b. (b, none);
  call_get_list = λ host args b. (b, none);
  call_put = λ host key value b. (b, none);
  call_append_to_list = λ host key value b. (b, none);
  call_remove_from_list = λ host key value b. (b, none);
  call_get_servers = λ b. (b, none);
}

abbrev master : Node
master = record { host_port = "m"; node_id = 7 }

-- The first call of "a" is lost, and the answer to its second; all calls of "b" are answered.
abbrev new : List (Node × List Outcome)
new =
    (record { host_port = "a"; node_id = 900 }, unreached ∷ unanswered ∷ [])
    ∷ (record { host_port = "b"; node_id = 30 }, [])
    ∷ []

abbrev dialled : String → Bool
dialled host = host == "m"
