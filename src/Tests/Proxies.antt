-- ===== src/Tests/Proxies.antt =====
-- The counting proxy at fixed inputs.
use golang_programming.Prelude.{ℕ, ◌≤◌, true, none, some, List, [], ◌∷◌, arith, insert, text_eq}
use golang_programming.Storage.{ok, text, StorageServer, new_storage_server}
use golang_programming.ProxyCounter.{Server, disable, errs, off, new_proxy_counter}
use golang_programming.ProxyCounter.Counts.{
  Call, gets, puts, switches, run, logging, IsCounted, run-IsCounted,
}
use golang_programming.ProxyCounter.Grants.{storage, run_granted}

-- A server that answers only Put and AppendToList.
abbrev server : {B : Type 0} → Server B
server = record {
  call_get = λ args b. (b, none);
  call_get_list = λ args b. (b, none);
  call_put = λ key value b. (b, some ok);
  call_append_to_list = λ key value b. (b, some ok);
  call_remove_from_list = λ key value b. (b, none);
  call_get_servers = λ b. (b, none);
}

abbrev proxied : List Call
proxied =
    puts "key" "value"
    ∷ gets (record { key = "key"; want_lease = true; lease_client = "h" })
    ∷ switches errs
    ∷ puts "key" "other"
    ∷ switches off
    ∷ switches disable
    ∷ gets (record { key = "key"; want_lease = true; lease_client = "h" })
    ∷ []

run-IsCounted_example :
    let w : ℕ = 0 in
    let (pc, b') = run (logging server) proxied (new_proxy_counter "p") (w, []) in IsCounted pc b'.1
run-IsCounted_example = run-IsCounted server proxied "p" 0

abbrev with_key : StorageServer
with_key =
    let ss = new_storage_server true (record { host_port = "m"; node_id = 1 }) 1 in
    record ss { hashmap = insert "key" (text "value") ss.hashmap }

run_granted_example :
    let (pc, _) = run (storage server) proxied (new_proxy_counter "p") (with_key, 0) in
    pc.lease_granted_count ≤ pc.lease_request_count
run_granted_example = run_granted server proxied "p" (with_key, 0) (omega arith)
