-- ===== src/ProxyCounter/Counts.antt =====
-- What the proxy counts, against a log that its server keeps (15-440/P2-F11/proxycounter/proxycounter.go).
use golang_programming.Prelude.{
  ℕ, ◌+◌, ◌%◌, ◌^◌, ◌≡◌, refl, subst, String, Bool, true, false, Option, none, some, List, [], ◌∷◌,
  arith, length, Bool-cases, inl, inr,
}
use golang_programming.Storage.{Status, GetArgs, LeaseStruct, Reply}
use golang_programming.ProxyCounter.{
  ProxyCounter, new_proxy_counter, Switch, lease_seconds, disable, enable, errs, status, off,
  switch, Server, byte_length, byte_lengths, count_call, count_lease, count_want, sent_args,
  overridden, on_reply, fetch, modify, get, get_list, put, append_to_list, remove_from_list,
}

pub data Call : Type 0 where
  gets gets_list : GetArgs → Call
  puts appends removes : String → String → Call
  switches : Switch → Call

module _ {B : Type 0} (server : Server B) where
  unfoldable pub call : Call → ProxyCounter → B → ProxyCounter × B
  call (gets args) pc b = let (pc', b', _) = get server args pc b in (pc', b')
  call (gets_list args) pc b = let (pc', b', _) = get_list server args pc b in (pc', b')
  call (puts key value) pc b = let (pc', b', _) = put server key value pc b in (pc', b')
  call (appends key value) pc b =
      let (pc', b', _) = append_to_list server key value pc b in (pc', b')
  call (removes key value) pc b =
      let (pc', b', _) = remove_from_list server key value pc b in (pc', b')
  call (switches sw) pc b = (switch sw pc, b)

  unfoldable pub run : List Call → ProxyCounter → B → ProxyCounter × B
  run [] pc b = (pc, b)
  run (c ∷ calls) pc b = let (pc', b') = call c pc b in run calls pc' b'

-- The bytes of a reply's value.
abbrev pub reply_size : {A : Type 0} → (A → ℕ) → Option (Reply A) → ℕ
reply_size size none = 0
reply_size size (some reply) = size reply.value

-- A server with a log: for each call it receives, the bytes of the key and of the values.
abbrev pub log_get :
    {A B : Type 0}
    → (A → ℕ)
    → (GetArgs → B → B × Option (Reply A))
    → GetArgs
    → B × List ℕ
    → (B × List ℕ) × Option (Reply A)
log_get size call args (b, log) =
    let (b', reply) = call args b in
    ((b', (byte_length args.key + reply_size size reply) ∷ log), reply)

abbrev pub log_put :
    {B : Type 0}
    → (String → String → B → B × Option Status)
    → String
    → String
    → B × List ℕ
    → (B × List ℕ) × Option Status
log_put call key value (b, log) =
    let (b', reply) = call key value b in ((b', (byte_length key + byte_length value) ∷ log), reply)

abbrev pub logging : {B : Type 0} → Server B → Server (B × List ℕ)
logging server = record {
  call_get = log_get byte_length server.call_get;
  call_get_list = log_get byte_lengths server.call_get_list;
  call_put = log_put server.call_put;
  call_append_to_list = log_put server.call_append_to_list;
  call_remove_from_list = log_put server.call_remove_from_list;
  call_get_servers = λ b. let (b', reply) = server.call_get_servers b.0 in ((b', b.1), reply);
}

abbrev pub sum : List ℕ → ℕ
sum [] = 0
sum (n ∷ l) = n + sum l

pub record IsCounted (pc : ProxyCounter) (log : List ℕ) : Type 0 where
  pub rpcs : pc.rpc_count ≡ length log % 2 ^ 32
  pub bytes : pc.byte_count ≡ sum log % 2 ^ 32

count_call-IsCounted :
    (n : ℕ) (pc : ProxyCounter) (log : List ℕ)
    → IsCounted pc log
    → IsCounted (count_call n pc) (n ∷ log)
count_call-IsCounted n pc log v = record {
  rpcs = omega (arith, v.rpcs);
  bytes = omega (arith, v.bytes);
}

count_lease-IsCounted :
    (lease : LeaseStruct) (pc : ProxyCounter) (log : List ℕ)
    → IsCounted pc log
    → IsCounted (count_lease lease pc).0 log
count_lease-IsCounted lease pc log v = elim (Bool-cases lease.granted) [
  | inl e ↦ rw e (record { rpcs = v.rpcs; bytes = v.bytes })
  | inr e ↦ rw e v
]

count_want-IsCounted :
    (want : Bool) (pc : ProxyCounter) (log : List ℕ)
    → IsCounted pc log
    → IsCounted (count_want want pc) log
count_want-IsCounted true pc log v = record { rpcs = v.rpcs; bytes = v.bytes }
count_want-IsCounted false pc log v = v

sent_args-key : (leaseless : Bool) (args : GetArgs) → (sent_args leaseless args).key ≡ args.key
sent_args-key true args = refl
sent_args-key false args = refl

module _ {A B : Type 0} (zero_value : A) (size : A → ℕ)
    (call : GetArgs → B → B × Option (Reply A)) where
  pub fetch_on :
      (args : GetArgs) (pc : ProxyCounter) (b : B)
      → pc.override ≡ false
      → let (b', reply) = call (sent_args pc.disable_lease args) b in
        let (pc', shown) =
          on_reply zero_value size call
            (byte_length args.key)
            reply
            (count_want args.want_lease pc) in
        fetch zero_value size call args pc b ≡ (pc', b', shown)
  unfolding fetch
  fetch_on args pc b e = ground (arith, e)

  pub fetch_off :
      (args : GetArgs) (pc : ProxyCounter) (b : B)
      → pc.override ≡ true
      → fetch zero_value size call args pc b ≡ (pc, b, overridden zero_value pc)
  unfolding fetch
  fetch_off args pc b e = ground (arith, e)

  on_reply-IsCounted :
      size zero_value ≡ 0
      → (n : ℕ) (reply : Option (Reply A)) (pc : ProxyCounter) (log : List ℕ) → IsCounted pc log
      → IsCounted (on_reply zero_value size call n reply pc).0 ((n + reply_size size reply) ∷ log)
  on_reply-IsCounted e n none pc log v =
      subst (λ m. IsCounted (count_call (n + size zero_value) pc) ((n + m) ∷ log)) e
        (count_call-IsCounted (n + size zero_value) pc log v)
  on_reply-IsCounted e n (some reply) pc log v =
      count_call-IsCounted (n + size reply.value) (count_lease reply.lease pc).0 log
        (count_lease-IsCounted reply.lease pc log v)

module _ {A B : Type 0} (zero_value : A) (size : A → ℕ)
    (call : GetArgs → B → B × Option (Reply A)) where
  fetch-IsCounted :
      size zero_value ≡ 0
      → (args : GetArgs) (pc : ProxyCounter) (b : B) (log : List ℕ) → IsCounted pc log
      → let (pc', b', _) = fetch zero_value size (log_get size call) args pc (b, log) in
        IsCounted pc' b'.1
  fetch-IsCounted z args pc b log v = elim (Bool-cases pc.override) [
    | inl e ↦ rw (fetch_off zero_value size (log_get size call) args pc (b, log) e) v
    | inr e ↦
        rw
          (
            fetch_on zero_value size (log_get size call) args pc (b, log) e,
            sent_args-key pc.disable_lease args,
          )
          (on_reply-IsCounted zero_value size (log_get size call) z (byte_length args.key)
            (call (sent_args pc.disable_lease args) b).1 (count_want args.want_lease pc) log
            (count_want-IsCounted args.want_lease pc log v))
  ]

modify-IsCounted :
    {B : Type 0} (call : String → String → B → B × Option Status) (key value : String)
    (pc : ProxyCounter) (b : B) (log : List ℕ)
    → IsCounted pc log
    → let (pc', b', _) = modify (log_put call) key value pc (b, log) in IsCounted pc' b'.1
unfolding modify
modify-IsCounted rpc key value pc b log v =
    let n : ℕ = byte_length key + byte_length value in
    let w = count_call-IsCounted n pc log v in
    elim (Bool-cases pc.override) [
      | inl e ↦ rw e (record { rpcs = v.rpcs; bytes = v.bytes })
      | inr e ↦ rw e (record { rpcs = w.rpcs; bytes = w.bytes })
    ]

switch-IsCounted :
    (sw : Switch) (pc : ProxyCounter) (log : List ℕ)
    → IsCounted pc log
    → IsCounted (switch sw pc) log
switch-IsCounted (lease_seconds n) pc log v = record { rpcs = v.rpcs; bytes = v.bytes }
switch-IsCounted disable pc log v = record { rpcs = v.rpcs; bytes = v.bytes }
switch-IsCounted enable pc log v = record { rpcs = v.rpcs; bytes = v.bytes }
switch-IsCounted errs pc log v = record { rpcs = v.rpcs; bytes = v.bytes }
switch-IsCounted (status st) pc log v = record { rpcs = v.rpcs; bytes = v.bytes }
switch-IsCounted off pc log v = record { rpcs = v.rpcs; bytes = v.bytes }

module _ {B : Type 0} (server : Server B) where
  call-IsCounted :
      (c : Call) (pc : ProxyCounter) (b : B × List ℕ)
      → IsCounted pc b.1
      → let (pc', b') = call (logging server) c pc b in IsCounted pc' b'.1
  unfolding call
  call-IsCounted (gets args) pc b v =
      fetch-IsCounted "" byte_length server.call_get refl args pc b.0 b.1 v
  call-IsCounted (gets_list args) pc b v =
      fetch-IsCounted [] byte_lengths server.call_get_list refl args pc b.0 b.1 v
  call-IsCounted (puts key value) pc b v = modify-IsCounted server.call_put key value pc b.0 b.1 v
  call-IsCounted (appends key value) pc b v =
      modify-IsCounted server.call_append_to_list key value pc b.0 b.1 v
  call-IsCounted (removes key value) pc b v =
      modify-IsCounted server.call_remove_from_list key value pc b.0 b.1 v
  call-IsCounted (switches sw) pc b v = switch-IsCounted sw pc b.1 v

  IsCounted-run :
      (calls : List Call) (pc : ProxyCounter) (b : B × List ℕ)
      → IsCounted pc b.1
      → let (pc', b') = run (logging server) calls pc b in IsCounted pc' b'.1
  unfolding run
  IsCounted-run [] pc b v = v
  IsCounted-run (c ∷ calls) pc b v =
      let (pc', b') = call (logging server) c pc b in
      IsCounted-run calls pc' b' (call-IsCounted c pc b v)

  -- Whatever calls and switches a new proxy gets, and whatever its server answers, its counters are the
  -- number of the calls that reached the server, and the bytes of their keys and values and of the
  -- values in the replies, both modulo 2^32.
  pub run-IsCounted :
      (calls : List Call) (my_host_port : String) (b : B)
      → let (pc, b') = run (logging server) calls (new_proxy_counter my_host_port) (b, []) in
        IsCounted pc b'.1
  run-IsCounted calls my_host_port b =
      IsCounted-run calls (new_proxy_counter my_host_port) (b, [])
        (record { rpcs = refl; bytes = refl })
