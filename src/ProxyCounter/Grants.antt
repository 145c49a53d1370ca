-- ===== src/ProxyCounter/Grants.antt =====
-- Leases through the proxy in front of a storage server (15-440/P2-F11/proxycounter/proxycounter.go,
-- 15-440/P2-F11/storageimpl/storageimpl.go).
use golang_programming.Prelude.{
  ℕ, suc, ◌+◌, ◌^◌, ◌≤◌, ◌<◌, ◌≡◌, refl, sym, ◌∙◌, String, Bool, true, false, Option, none, some,
  List, [], ◌∷◌, arith, length, Bool-cases, inl, inr, false-ne-true,
}
use golang_programming.Storage as Store
use golang_programming.Storage.{Status, GetArgs, LeaseStruct, Reply, StorageServer, add_lease_pool}
use golang_programming.ProxyCounter.{
  ProxyCounter, new_proxy_counter, Switch, lease_seconds, disable, enable, errs, status, off,
  switch, Server, byte_length, byte_lengths, count_want, sent_args, on_reply, fetch, modify,
}
use golang_programming.ProxyCounter.Counts.{
  Call, gets, gets_list, puts, appends, removes, switches, call, run, fetch_on, fetch_off,
}

-- The proxy's server is a storage server at a time; what its writes do is given.
abbrev pub storage : Server (StorageServer × ℕ) → Server (StorageServer × ℕ)
storage base = record base {
  call_get = λ args b. let (ss', reply) = Store.get args b.1 b.0 in ((ss', b.1), some reply);
  call_get_list =
      λ args b. let (ss', reply) = Store.get_list args b.1 b.0 in ((ss', b.1), some reply);
}

-- A reply grants no lease that was not asked for.
abbrev GrantsWanted : {A : Type 0} → GetArgs → Option (Reply A) → Type 0
GrantsWanted args none = Unit
GrantsWanted args (some reply) = reply.lease.granted ≡ true → args.want_lease ≡ true

get-GrantsWanted :
    (args : GetArgs) (now : ℕ) (ss : StorageServer)
    → GrantsWanted args (some (Store.get args now ss).1)
unfolding Store.get
get-GrantsWanted args now ss g = elim (Bool-cases args.want_lease) [
  | inl w ↦ w
  | inr w ↦ ground (arith, w, g)
]

get_list-GrantsWanted :
    (args : GetArgs) (now : ℕ) (ss : StorageServer)
    → GrantsWanted args (some (Store.get_list args now ss).1)
unfolding Store.get_list
get_list-GrantsWanted args now ss g = elim (Bool-cases args.want_lease) [
  | inl w ↦ w
  | inr w ↦ ground (arith, w, g)
]

-- After `n` calls: no more grants than requests, and no counter has wrapped around.
record IsWithin (n : ℕ) (pc : ProxyCounter) : Type 0 where
  le : pc.lease_granted_count ≤ pc.lease_request_count
  few : pc.lease_request_count ≤ n

IsWithin-same :
    (n m : ℕ) (pc pc' : ProxyCounter)
    → n ≤ m
    → pc'.lease_granted_count ≡ pc.lease_granted_count
    → pc'.lease_request_count ≡ pc.lease_request_count
    → IsWithin n pc
    → IsWithin m pc'
IsWithin-same n m pc pc' lt e f v = record {
  le = omega (arith, e, f, v.le);
  few = omega (arith, f, v.few, lt);
}

unwanted :
    (leaseless : Bool) (args : GetArgs)
    → args.want_lease ≡ false
    → (sent_args leaseless args).want_lease ≡ false
unwanted true args w = refl
unwanted false args w = w

module _ {A B : Type 0} (zero_value : A) (size : A → ℕ) (rpc : GetArgs → B → B × Option (Reply A))
    (asks : (args : GetArgs) (b : B) → GrantsWanted args (rpc args b).1) where
  on_reply-IsWithin :
      (want leaseless : Bool) (args : GetArgs) (n k : ℕ) (reply : Option (Reply A))
      (pc : ProxyCounter)
      → args.want_lease ≡ want
      → GrantsWanted (sent_args leaseless args) reply
      → suc n < 2 ^ 32
      → IsWithin n pc
      → IsWithin (suc n) (on_reply zero_value size rpc k reply (count_want want pc)).0
  on_reply-IsWithin false leaseless args n k none pc w g lt v = record {
    le = v.le;
    few = omega (arith, v.few);
  }
  on_reply-IsWithin true leaseless args n k none pc w g lt v = record {
    le = omega (arith, v.le, v.few);
    few = omega (arith, v.few);
  }
  on_reply-IsWithin false leaseless args n k (some reply) pc w g lt v =
      elim (Bool-cases reply.lease.granted) [
        | inl e ↦ absurd (false-ne-true (sym (unwanted leaseless args w) ∙ g e))
        | inr e ↦ rw e (record { le = v.le; few = omega (arith, v.few) })
      ]
  on_reply-IsWithin true leaseless args n k (some reply) pc w g lt v =
      elim (Bool-cases reply.lease.granted) [
        | inl e ↦ rw e (record { le = omega (arith, v.le, v.few); few = omega (arith, v.few) })
        | inr e ↦ rw e (record { le = omega (arith, v.le, v.few); few = omega (arith, v.few) })
      ]

  fetch-IsWithin :
      (args : GetArgs) (n : ℕ) (pc : ProxyCounter) (b : B)
      → suc n < 2 ^ 32
      → IsWithin n pc
      → IsWithin (suc n) (fetch zero_value size rpc args pc b).0
  fetch-IsWithin args n pc b lt v = elim (Bool-cases pc.override) [
    | inl e ↦
        rw (fetch_off zero_value size rpc args pc b e)
          (IsWithin-same n (suc n) pc pc (omega arith) refl refl v)
    | inr e ↦ rw (fetch_on zero_value size rpc args pc b e) (
        on_reply-IsWithin args.want_lease pc.disable_lease args n (byte_length args.key)
          (rpc (sent_args pc.disable_lease args) b).1 pc refl
          (asks (sent_args pc.disable_lease args) b) lt v)
  ]

modify-IsWithin :
    {B : Type 0} (rpc : String → String → B → B × Option Status) (key value : String) (n : ℕ)
    (pc : ProxyCounter) (b : B)
    → IsWithin n pc
    → IsWithin (suc n) (modify rpc key value pc b).0
unfolding modify
modify-IsWithin rpc key value n pc b v = elim (Bool-cases pc.override) [
  | inl e ↦ rw e (record { le = v.le; few = omega (arith, v.few) })
  | inr e ↦ rw e (record { le = v.le; few = omega (arith, v.few) })
]

switch-IsWithin :
    (sw : Switch) (n : ℕ) (pc : ProxyCounter) → IsWithin n pc → IsWithin (suc n) (switch sw pc)
switch-IsWithin (lease_seconds k) n pc v = record { le = v.le; few = omega (arith, v.few) }
switch-IsWithin disable n pc v = record { le = v.le; few = omega (arith, v.few) }
switch-IsWithin enable n pc v = record { le = v.le; few = omega (arith, v.few) }
switch-IsWithin errs n pc v = record { le = v.le; few = omega (arith, v.few) }
switch-IsWithin (status st) n pc v = record { le = v.le; few = omega (arith, v.few) }
switch-IsWithin off n pc v = record { le = v.le; few = omega (arith, v.few) }

module _ (base : Server (StorageServer × ℕ)) where
  call-IsWithin :
      (c : Call) (n : ℕ) (pc : ProxyCounter) (b : StorageServer × ℕ)
      → suc n < 2 ^ 32
      → IsWithin n pc
      → IsWithin (suc n) (call (storage base) c pc b).0
  unfolding call
  call-IsWithin (gets args) n pc b lt v =
      fetch-IsWithin "" byte_length (storage base).call_get
        (λ args b. get-GrantsWanted args b.1 b.0) args n pc b lt v
  call-IsWithin (gets_list args) n pc b lt v =
      fetch-IsWithin [] byte_lengths (storage base).call_get_list
        (λ args b. get_list-GrantsWanted args b.1 b.0) args n pc b lt v
  call-IsWithin (puts key value) n pc b lt v = modify-IsWithin base.call_put key value n pc b v
  call-IsWithin (appends key value) n pc b lt v =
      modify-IsWithin base.call_append_to_list key value n pc b v
  call-IsWithin (removes key value) n pc b lt v =
      modify-IsWithin base.call_remove_from_list key value n pc b v
  call-IsWithin (switches sw) n pc b lt v = switch-IsWithin sw n pc v

  run-IsWithin :
      (calls : List Call) (n : ℕ) (pc : ProxyCounter) (b : StorageServer × ℕ)
      → n + length calls < 2 ^ 32
      → IsWithin n pc
      → IsWithin (n + length calls) (run (storage base) calls pc b).0
  unfolding run
  run-IsWithin [] n pc b lt v = record { le = v.le; few = omega (arith, v.few) }
  run-IsWithin (c ∷ calls) n pc b lt v =
      let (pc', b') = call (storage base) c pc b in
      let w =
        run-IsWithin calls (suc n) pc' b' (omega (arith, lt))
          (call-IsWithin c n pc b (omega (arith, lt)) v) in
      record { le = w.le; few = omega (arith, w.few) }

  -- After fewer than 2^32 calls and switches of a new proxy in front of a storage server, whose writes
  -- may do anything, it has counted no more leases granted than leases requested, also while it
  -- takes the wish for leases out of the calls.
  pub run_granted :
      (calls : List Call) (my_host_port : String) (b : StorageServer × ℕ)
      → length calls < 2 ^ 32
      → let (pc, _) = run (storage base) calls (new_proxy_counter my_host_port) b in
        pc.lease_granted_count ≤ pc.lease_request_count
  run_granted calls my_host_port b lt =
      (run-IsWithin calls 0 (new_proxy_counter my_host_port) b (omega (arith, lt))
        (record { le = omega arith; few = omega arith })).le
