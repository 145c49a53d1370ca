-- ===== src/Tests/Leases.antt =====
-- The storage server of the tribbler at fixed inputs.
use golang_programming.Prelude.{
  ℕ, ◌≡◌, refl, String, Bool, true, false, none, some, List, [], ◌∷◌, ◌↔◌, text_discrete,
  if◌then◌else◌, ◌==◌, text_eq, insert, empty,
}
use golang_programming.Storage.{
  ok, text, texts, StorageServer, GetArgs, LeaseEntry, Net, full_lease, revoke_lease, get,
  new_storage_server, set_pending, tell_all,
}
use golang_programming.Storage.Handlers.{put, append_to_list, write}
use golang_programming.Storage.Lists.{put-reads, IsTidy}
use golang_programming.Storage.Tidy.{serve_one, serve_all, serve_all-IsTidy, appends}
use golang_programming.Storage.Leases.{gap_lease_is_stale, put-Unreached, Unreached}

abbrev eq : String → String → Bool
eq a b = a == b

-- The world is the list of the revocations, at 20 seconds.
abbrev net : Bool → Net (List String)
net up = record {
  clock = λ b. 20000;
  dial = λ address b. (b, up);
  call_revoke = λ address key b. address ∷ b;
}

abbrev ask : String → ℕ → GetArgs
ask client now = record { key = "k"; want_lease = true; lease_client = client }

abbrev master : StorageServer
master = new_storage_server true (record { host_port = "m"; node_id = 1 }) 1

abbrev entry : ℕ → LeaseEntry
entry time = record { pending = false; holders = record { address = "c"; issue_time = time } ∷ [] }

-- "k" holds "old", and the client "c" has a lease on it since `time`.
abbrev leased : ℕ → StorageServer
leased time = record master {
  hashmap = insert "k" (text "old") empty;
  lease_pool = insert "k" (entry time) empty;
}

put-reads_example :
    (ss' : StorageServer) × (b' : List String) × (put (net true) "k" "new" (leased 15000) []
      ≡ some (ss', b', ok))
    × ((get (ask "d" 0) 20000 ss').1.status
        ≡ (if eq "k" "k" then ok else (get (ask "d" 0) 20000 (leased 15000)).1.status))
    × ((get (ask "d" 0) 20000 ss').1.value
        ≡ (if eq "k" "k" then "new" else (get (ask "d" 0) 20000 (leased 15000)).1.value))
unfolding text_discrete
put-reads_example =
    put-reads (net true) "k" "new" (leased 15000) [] ((λ e. refl), λ b e. tt) (ask "d" 0) 20000

-- After the revocation of the lease of "c".
revoked : StorageServer
revoked = set_pending false "k" (entry 15000) (set_pending true "k" (entry 15000) (leased 15000))

gap_lease_is_stale_example :
    let (ss₁, reply) = get (ask "d" 0) 20000 revoked in
    (reply.lease ≡ full_lease)
    × (reply.value ≡ "old")
    × ((get (ask "d" 0) 20001 (write "k" (text "new") ss₁)).1.value ≡ "new")
unfolding text_discrete revoke_lease tell_all revoked
gap_lease_is_stale_example =
    gap_lease_is_stale (net true) (ask "d" 0) (ask "d" 0) 20000 20001 "old" "new" (leased 15000)
      revoked [] ("c" ∷ []) refl refl refl refl

put-Unreached_example :
    (put (net false) "k" "new" (leased 15000) [] ≡ none)
    ↔ Unreached (net false) "k" (entry 15000).holders []
unfolding text_discrete
put-Unreached_example = put-Unreached (net false) "k" "new" (leased 15000) (entry 15000) [] refl

serve_all-IsTidy_example : IsTidy (write "k" (texts ("x" ∷ [])) master)
unfolding text_discrete serve_all serve_one append_to_list revoke_lease
serve_all-IsTidy_example =
    serve_all-IsTidy (net true) (appends "k" "x" ∷ appends "k" "x" ∷ []) master
      (write "k" (texts ("x" ∷ [])) master) [] [] refl (λ key. tt)
