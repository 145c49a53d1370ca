-- ===== src/ProxyCounter.antt =====
-- The counting proxy of a storage server: 15-440/P2-F11/proxycounter/proxycounter.go. What it reaches, its
-- storage server, is a record of functions on a state `B`, and a call that returns an error gives `none`;
-- its reply is then the zero one that net/rpc made. The length of a text is that of its UTF-8
-- bytes. A counter is an uint32, and each call adds to the counters in one step.
pub mod Counts
pub mod Grants
use golang_programming.Prelude.{
  ℕ, ◌+◌, ◌%◌, ◌^◌, String, Bool, true, false, Option, none, some, List, [], ◌∷◌, length, ltb,
  if◌then◌else◌,
}
use golang_programming.Storage.{Status, ok, GetArgs, LeaseStruct, Node, Reply}
use golang_programming.Libstore.{Outcome, returned, error, panic, bytes}

pub record ProxyCounter : Type 0 where
  pub my_host_port : String
  pub rpc_count : ℕ
  pub byte_count : ℕ
  pub lease_request_count : ℕ
  pub lease_granted_count : ℕ
  pub override : Bool
  pub override_err : Bool
  pub override_status : Status
  pub disable_lease : Bool
  pub override_lease_seconds : ℕ

-- NewProxyCounter with a server that is connected
abbrev pub new_proxy_counter : String → ProxyCounter
new_proxy_counter my_host_port = record {
  my_host_port = my_host_port;
  rpc_count = 0;
  byte_count = 0;
  lease_request_count = 0;
  lease_granted_count = 0;
  override = false;
  override_err = false;
  override_status = ok;
  disable_lease = false;
  override_lease_seconds = 0;
}

abbrev pub reset : ProxyCounter → ProxyCounter
reset pc = record pc {
  rpc_count = 0;
  byte_count = 0;
  lease_request_count = 0;
  lease_granted_count = 0;
}

-- The methods that set what the proxy does.
pub data Switch : Type 0 where
  lease_seconds : ℕ → Switch
  disable enable errs : Switch
  status : Status → Switch
  off : Switch

abbrev pub switch : Switch → ProxyCounter → ProxyCounter
switch (lease_seconds n) pc = record pc { override_lease_seconds = n }
switch disable pc = record pc { disable_lease = true }
switch enable pc = record pc { disable_lease = false }
switch errs pc = record pc { override_err = true; override = true }
switch (status st) pc = record pc { override_status = st; override = true }
switch off pc = record pc { override = false; override_err = false; override_status = ok }

pub record Server (B : Type 0) : Type 0 where
  pub call_get : GetArgs → B → B × Option (Reply String)
  pub call_get_list : GetArgs → B → B × Option (Reply (List String))
  pub call_put : String → String → B → B × Option Status
  pub call_append_to_list : String → String → B → B × Option Status
  pub call_remove_from_list : String → String → B → B × Option Status
  pub call_get_servers : B → B × Option (Bool × List Node)

-- atomic.AddUint32
abbrev pub add : ℕ → ℕ → ℕ
add count n = (count + n) % 2 ^ 32

abbrev pub byte_length : String → ℕ
byte_length s = length (bytes s)

abbrev pub byte_lengths : List String → ℕ
byte_lengths [] = 0
byte_lengths (s ∷ l) = byte_length s + byte_lengths l

-- One more call, with uint32(byteCount) of its bytes.
abbrev pub count_call : ℕ → ProxyCounter → ProxyCounter
count_call n pc = record pc {
  rpc_count = add pc.rpc_count 1;
  byte_count = add pc.byte_count (n % 2 ^ 32);
}

-- The lease of a reply that is granted is counted, and its seconds are replaced.
abbrev pub count_lease : LeaseStruct → ProxyCounter → ProxyCounter × LeaseStruct
count_lease lease pc =
    if lease.granted
    then (
      record pc { lease_granted_count = add pc.lease_granted_count 1 },
      if ltb 0 pc.override_lease_seconds
          then record lease { valid_seconds = pc.override_lease_seconds }
          else lease,
    )
    else (pc, lease)

-- The reply of a proxy that overrides: its status with the rest zero, or the error.
abbrev pub overridden : {A : Type 0} → A → ProxyCounter → Option (Reply A)
overridden zero_value pc =
    if pc.override_err
    then none
    else some (record {
      status = pc.override_status;
      value = zero_value;
      lease = record { granted = false; valid_seconds = 0 };
    })

-- if args.WantLease
abbrev pub count_want : Bool → ProxyCounter → ProxyCounter
count_want false pc = pc
count_want true pc = record pc { lease_request_count = add pc.lease_request_count 1 }

-- if pc.disableLease
abbrev pub sent_args : Bool → GetArgs → GetArgs
sent_args false args = args
sent_args true args = record args { want_lease = false }

-- Get and GetList: `call` is their RPC and `size` the bytes of a value.
module _ {A B : Type 0} (zero_value : A) (size : A → ℕ)
    (call : GetArgs → B → B × Option (Reply A)) where
  -- The reply that came back.
  abbrev pub on_reply : ℕ → Option (Reply A) → ProxyCounter → ProxyCounter × Option (Reply A)
  on_reply n none pc = (count_call (n + size zero_value) pc, none)
  on_reply n (some reply) pc =
      let (pc', lease) = count_lease reply.lease pc in
      (count_call (n + size reply.value) pc', some (record reply { lease = lease }))

  unfoldable pub fetch : GetArgs → ProxyCounter → B → ProxyCounter × B × Option (Reply A)
  fetch args pc b =
      let (b', reply) = call (sent_args pc.disable_lease args) b in
      let (pc', shown) = on_reply (byte_length args.key) reply (count_want args.want_lease pc) in
      if pc.override then (pc, b, overridden zero_value pc) else (pc', b', shown)

-- Put, AppendToList and RemoveFromList.
unfoldable pub modify :
    {B : Type 0}
    → (String → String → B → B × Option Status)
    → String
    → String
    → ProxyCounter
    → B
    → ProxyCounter × B × Option Status
modify call key value pc b =
    let (b', reply) = call key value b in
    if pc.override
    then (pc, b, if pc.override_err then none else some pc.override_status)
    else (count_call (byte_length key + byte_length value) pc, b', reply)

module _ {B : Type 0} (server : Server B) where
  abbrev pub get : GetArgs → ProxyCounter → B → ProxyCounter × B × Option (Reply String)
  get = fetch "" byte_length server.call_get

  abbrev pub get_list : GetArgs → ProxyCounter → B → ProxyCounter × B × Option (Reply (List String))
  get_list = fetch [] byte_lengths server.call_get_list

  abbrev pub put : String → String → ProxyCounter → B → ProxyCounter × B × Option Status
  put = modify server.call_put

  abbrev pub append_to_list : String → String → ProxyCounter → B → ProxyCounter × B × Option Status
  append_to_list = modify server.call_append_to_list

  abbrev pub remove_from_list :
      String → String → ProxyCounter → B → ProxyCounter × B × Option Status
  remove_from_list = modify server.call_remove_from_list

  -- GetServers: a ready reply, with the proxy as the only server.
  unfoldable pub get_servers : ProxyCounter → B → B × Outcome (Bool × List Node)
  get_servers pc b =
      let (b', reply) = server.call_get_servers b in
      elim reply [
        | none ↦ (b', error)
        | some (ready, []) ↦ (b', returned (ready, []))
        | some (ready, n ∷ []) ↦
            (b', returned (ready, record n { host_port = pc.my_host_port } ∷ []))
        | some (ready, n ∷ m ∷ nodes) ↦ (b', panic)
      ]
