-- ===== src/Storage.antt =====
-- The storage server of the tribbler: 15-440/P2-F11/storageproto/storageproto.go and
-- 15-440/P2-F11/storageimpl/storageimpl.go. A stored value is what its JSON text stands for, and
-- reading it as the wrong type leaves Go's zero value, as the ignored error of json.Unmarshal does. What
-- a server reaches by RPC is a record of functions on a state `B` of everything else, with
-- the time in milliseconds. `none` is a Go panic. RPC registration and logging are not modelled.
pub mod Handlers
pub mod Lists
pub mod Tidy
pub mod Leases
pub mod Nodes
pub mod Start
pub mod Registering
use golang_programming.Prelude.{
  ℕ, ◌+◌, ◌-◌, ◌*◌, String, Bool, true, false, ◌&&◌, ◌||◌, Option, none, some, List, [], ◌∷◌, ◌++◌,
  ltb, if◌then◌else◌, ◌==◌, nat_eq, text_eq, GoMap, empty, insert, ◌>>=◌,
}

pub data Status : Type 0 where
  ok e_key_not_found e_item_not_found e_wrong_server e_put_failed e_item_exists : Status

abbrev pub lease_seconds : ℕ
lease_seconds = 10

abbrev pub lease_guard_seconds : ℕ
lease_guard_seconds = 2

pub record LeaseStruct : Type 0 where
  pub granted : Bool
  pub valid_seconds : ℕ

pub record GetArgs : Type 0 where
  pub key : String
  pub want_lease : Bool
  pub lease_client : String

pub record Node : Type 0 where
  pub host_port : String
  pub node_id : ℕ

-- GetReply and GetListReply
pub record Reply (A : Type 0) : Type 0 where
  pub status : Status
  pub value : A
  pub lease : LeaseStruct

pub record Holder : Type 0 where
  pub address : String
  pub issue_time : ℕ

pub record LeaseEntry : Type 0 where
  pub pending : Bool
  pub holders : List Holder

-- What json.Marshal has written.
pub data Stored : Type 0 where
  text : String → Stored
  texts : List String → Stored

-- The nodes are the keys of the Go map, each once.
pub record StorageServer : Type 0 where
  pub is_master : Bool
  pub num_nodes : ℕ
  pub nodes : List Node
  pub hashmap : GoMap String Stored
  pub lease_pool : GoMap String LeaseEntry

-- NewStorageserver, without the registration of a server that is not the master
abbrev pub new_storage_server : Bool → Node → ℕ → StorageServer
new_storage_server is_master node num_nodes = record {
  is_master = is_master;
  num_nodes = if is_master then num_nodes else 0;
  nodes = if is_master then node ∷ [] else [];
  hashmap = empty;
  lease_pool = empty;
}

-- json.Unmarshal into a string and into a list
abbrev pub as_text : Stored → String
as_text (text s) = s
as_text (texts l) = ""

abbrev pub as_texts : Stored → List String
as_texts (text s) = []
as_texts (texts l) = l

abbrev pub no_lease : LeaseStruct
no_lease = record { granted = false; valid_seconds = 0 }

abbrev pub full_lease : LeaseStruct
full_lease = record { granted = true; valid_seconds = lease_seconds }

-- The loop over the holders of `addLeasePool`; it sets the time of a copy of the holder.
abbrev pub has_holder : String → List Holder → Bool
has_holder client [] = false
has_holder client (h ∷ holders) = h.address == client || has_holder client holders

abbrev add_holder : String → ℕ → LeaseEntry → LeaseEntry
add_holder client now e = record e {
  holders = e.holders ++ record { address = client; issue_time = now } ∷ [];
}

unfoldable pub add_lease_pool : GetArgs → ℕ → StorageServer → StorageServer × LeaseStruct
add_lease_pool args now ss = elim (ss.lease_pool args.key) [
  | none ↦ (
    record ss {
      lease_pool =
          insert args.key
            (add_holder args.lease_client now (record { pending = false; holders = [] }))
            ss.lease_pool;
    },
    full_lease,
  )
  | some e ↦
      if e.pending
      then (ss, no_lease)
      else if has_holder args.lease_client e.holders
      then (ss, full_lease)
      else (
        record ss {
          lease_pool = insert args.key (add_holder args.lease_client now e) ss.lease_pool;
        },
        full_lease,
      )
]

-- `if args.WantLease`
lease_for : GetArgs → ℕ → StorageServer → StorageServer × LeaseStruct
lease_for args now ss = if args.want_lease then add_lease_pool args now ss else (ss, no_lease)

unfoldable pub get : GetArgs → ℕ → StorageServer → StorageServer × Reply String
unfolding lease_for
get args now ss = elim (ss.hashmap args.key) [
  | none ↦ (ss, record { status = e_wrong_server; value = ""; lease = no_lease })
  | some stored ↦
      let (ss', lease) = lease_for args now ss in
      (ss', record { status = ok; value = as_text stored; lease = lease })
]

unfoldable pub get_list : GetArgs → ℕ → StorageServer → StorageServer × Reply (List String)
unfolding lease_for
get_list args now ss = elim (ss.hashmap args.key) [
  | none ↦ (ss, record { status = e_key_not_found; value = []; lease = no_lease })
  | some stored ↦
      let (ss', lease) = lease_for args now ss in
      (ss', record { status = ok; value = as_texts stored; lease = lease })
]

-- The clock, rpc.DialHTTP, and a call of CacheRPC.RevokeLease up to its answer or its timeout.
pub record Net (B : Type 0) : Type 0 where
  pub clock : B → ℕ
  pub dial : String → B → B × Bool
  pub call_revoke : String → String → B → B

-- dur > sp.LEASE_SECONDS+sp.LEASE_GUARD_SECONDS
abbrev pub is_expired : ℕ → Holder → Bool
is_expired now h = ltb (1000 * (lease_seconds + lease_guard_seconds)) (now - h.issue_time)

abbrev pub set_pending : Bool → String → LeaseEntry → StorageServer → StorageServer
set_pending pending key e ss = record ss {
  lease_pool = insert key (record e { pending = pending }) ss.lease_pool;
}

module _ {B : Type 0} (net : Net B) where
  -- One turn of the loop of `revokeLease`. A failed dial returns, and the deferred `cli.Close()` of a
  -- nil client panics.
  abbrev pub tell : String → Holder → B → Option B
  tell key h b =
      let (b', reached) = net.dial h.address b in
      if is_expired (net.clock b) h
      then some b
      else if reached
      then some (net.call_revoke h.address key b')
      else none

  unfoldable pub tell_all : String → List Holder → B → Option B
  tell_all key [] b = some b
  tell_all key (h ∷ holders) b = do b' ← tell key h b; tell_all key holders b'

  unfoldable pub revoke_lease : String → StorageServer → B → Option (StorageServer × B)
  revoke_lease key ss b = elim (ss.lease_pool key) [
    | none ↦ some (ss, b)
    | some e ↦ do
      b' ← tell_all key e.holders b
      some (set_pending false key e (set_pending true key e ss), b')
  ]
