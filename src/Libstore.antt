-- ===== src/Libstore.antt =====
-- The library store of the tribbler: 15-440/P2-F11/libstore/libstoreimpl.go and libstore.go. What a
-- call reaches, the storage servers and the clock, is a record of functions on a state `B` of
-- everything else, and a call that returns an error gives `none`. A result in `Outcome` is a
-- value, an error, or a panic (a missing node, a failed type assertion, or that of Cache.Grant).
-- A text is taken as its UTF-8 bytes where it is hashed. Logging is not modelled.
pub mod Routing
pub mod Leasing
pub mod Granting
pub mod Coherence
pub mod Cluster
use Prim.Native.Char.{code}
use Prim.Native.Nat.{bit_xor}
use Prim.Native.String
use golang_programming.Prelude.{
  ℕ, zero, suc, ◌+◌, ◌-◌, ◌*◌, ◌/◌, ◌%◌, ◌^◌, String, Bool, true, false, ◌||◌, Option, none, some,
  List, [], ◌∷◌, ◌++◌, length, get_elem?, leb, if◌then◌else◌, ◌==◌, nat_eq, text_eq, GoMap, insert,
}
use golang_programming.Storage.{
  Status, ok, e_key_not_found, LeaseStruct, GetArgs, Node, Reply, Stored, text, texts,
}
use golang_programming.Cache
use golang_programming.Cache.{Entry, hit, miss, new_cache}

-- `rpc_conn id` says whether ls.rpcConn[id] is not nil.
pub record Libstore : Type 0 where
  pub nodes : List Node
  pub rpc_conn : ℕ → Bool
  pub host_port : String
  pub always_lease : Bool
  pub leases : GoMap String (Entry Stored)

pub data Outcome (A : Type 0) : Type 0 where
  returned : A → Outcome A
  error panic : Outcome A

pub record Net (B : Type 0) : Type 0 where
  pub clock : B → ℕ
  pub dial : String → B → B × Bool
  pub call_get : String → GetArgs → B → B × Option (Reply String)
  pub call_get_list : String → GetArgs → B → B × Option (Reply (List String))
  pub call_put : String → String → String → B → B × Option Status
  pub call_append_to_list : String → String → String → B → B × Option Status
  pub call_remove_from_list : String → String → String → B → B × Option Status
  pub call_get_servers : B → B × Option (List Node)

-- The UTF-8 bytes of a character.
abbrev pub utf8 : ℕ → List ℕ
utf8 c =
    if leb c 127
    then c ∷ []
    else if leb c 2047
    then (192 + c / 64) ∷ (128 + c % 64) ∷ []
    else if leb c 65535
    then (224 + c / 4096) ∷ (128 + c / 64 % 64) ∷ (128 + c % 64) ∷ []
    else (240 + c / 262144) ∷ (128 + c / 4096 % 64) ∷ (128 + c / 64 % 64) ∷ (128 + c % 64) ∷ []

abbrev pub bytes : String → List ℕ
bytes String.[] = []
bytes (String.◌∷◌ c s) = utf8 (code c) ++ bytes s

-- hash/fnv: FNV-1 with 32 bits
abbrev pub fnv : ℕ → List ℕ → ℕ
fnv hash [] = hash
fnv hash (b ∷ bs) = fnv (bit_xor (hash * 16777619 % 2 ^ 32) b) bs

unfoldable pub store_hash : String → ℕ
store_hash key = fnv 2166136261 (bytes key)

-- strings.Split(key, ":")[0]
unfoldable pub before_colon : String → String
before_colon String.[] = String.[]
before_colon (String.◌∷◌ c s) =
    let rest : String = before_colon s in if code c == b':' then String.[] else String.◌∷◌ c rest

-- The loop of pickServer from index `i` on.
unfoldable pub pick_id : ℕ → ℕ → List Node → ℕ
pick_id hash i [] = 0
pick_id hash i (n ∷ nodes) =
    let later : ℕ = pick_id hash (i + 1) nodes in if leb hash n.node_id then i else later

unfoldable pub server_of : String → List Node → ℕ
server_of key nodes = pick_id (store_hash (before_colon key)) 0 nodes

-- sort.Sort by NodeID
abbrev pub insert_node : Node → List Node → List Node
insert_node n [] = n ∷ []
insert_node n (m ∷ nodes) =
    let rest : List Node = insert_node n nodes in
    if leb n.node_id m.node_id then n ∷ m ∷ nodes else m ∷ rest

unfoldable pub sort_nodes : List Node → List Node
sort_nodes [] = []
sort_nodes (n ∷ nodes) = insert_node n (sort_nodes nodes)

-- The end of iNewLibstore, with the servers of a ready reply.
abbrev pub new_libstore : String → Bool → List Node → Libstore
new_libstore host_port always_lease servers = record {
  nodes = sort_nodes servers;
  rpc_conn = λ id. false;
  host_port = host_port;
  always_lease = always_lease;
  leases = new_cache;
}

module _ {B : Type 0} (net : Net B) where
  -- The loop that asks the master for the servers; `none` is a reply that is not ready.
  unfoldable pub ask_servers : ℕ → B → B × Option (List Node)
  ask_servers zero b = (b, none)
  ask_servers (suc n) b =
      let (b', reply) = net.call_get_servers b in
      let again : B × Option (List Node) = ask_servers n b' in
      elim reply [ none ↦ again | some servers ↦ (b', some servers) ]

  -- iNewLibstore
  unfoldable pub start : String → String → Bool → B → B × Outcome Libstore
  start master host_port always_lease b =
      let (b₁, up) = net.dial master b in
      let (b₂, reply) = ask_servers 5 b₁ in
      if host_port == ""
      then (b, panic)
      else if up
      then (elim reply [
        | none ↦ (b₂, error)
        | some servers ↦ (b₂, returned (new_libstore host_port always_lease servers))
      ])
      else (b₁, error)

  -- pickServer once the index is known
  abbrev pub connect : ℕ → Node → Libstore → B → Libstore × B × Outcome String
  connect id n ls b =
      let (b', up) = net.dial n.host_port b in
      if ls.rpc_conn id
      then (ls, b, returned n.host_port)
      else if up
      then (
        record ls { rpc_conn = λ i. if i == id then true else ls.rpc_conn i },
        b',
        returned n.host_port,
      )
      else (ls, b', error)

  unfoldable pub pick_server : String → Libstore → B → Libstore × B × Outcome String
  pick_server key ls b = elim (get_elem? ls.nodes (server_of key ls.nodes)) [
    | none ↦ (ls, b, panic)
    | some n ↦ connect (server_of key ls.nodes) n ls b
  ]

  -- What iGet and iGetList do with a reply; `v` is the value for the cache.
  abbrev pub granted :
      {A : Type 0} → String → Stored → A → LeaseStruct → Libstore → B → Libstore × B × Outcome A
  granted key v value lease ls b =
      if lease.granted
      then (elim (Cache.grant key (some v) lease.valid_seconds (net.clock b) ls.leases) [
        | none ↦ (ls, b, panic)
        | some leases ↦ (record ls { leases = leases }, b, returned value)
      ])
      else (ls, b, returned value)

  abbrev pub is_ok : Status → Bool
  is_ok ok = true
  is_ok _ = false

  abbrev pub on_reply :
      {A : Type 0}
      → String
      → (A → Stored)
      → Option (Reply A)
      → Libstore
      → B
      → Libstore × B × Outcome A
  on_reply key store none ls b = (ls, b, error)
  on_reply key store (some reply) ls b =
      if is_ok reply.status
      then granted key (store reply.value) reply.value reply.lease ls b
      else (ls, b, error)

  -- iGet and iGetList after a miss of the cache: pickServer, the call, and the reply.
  abbrev pub fetch :
      {A : Type 0}
      → (String → GetArgs → B → B × Option (Reply A))
      → (A → Stored)
      → GetArgs
      → Libstore
      → B
      → Libstore × B × Outcome A
  fetch call store args ls b =
      let (ls₁, b₁, picked) = pick_server args.key ls b in
      elim picked [
        | panic ↦ (ls₁, b₁, panic)
        | error ↦ (ls₁, b₁, error)
        | returned host ↦
            let (b₂, reply) = call host args b₁ in on_reply args.key store reply ls₁ b₂
      ]

  -- `val.(string)` and `val.([]string)`
  abbrev pub assert_text : Option Stored → Outcome String
  assert_text (some (text s)) = returned s
  assert_text _ = panic

  abbrev pub assert_texts : Option Stored → Outcome (List String)
  assert_texts (some (texts l)) = returned l
  assert_texts _ = panic

  abbrev pub args_of : String → Bool → Libstore → GetArgs
  args_of key want ls = record {
    key = key;
    want_lease = want || ls.always_lease;
    lease_client = ls.host_port;
  }

  unfoldable pub get : String → Libstore → B → Libstore × B × Outcome String
  get key ls b =
      let (leases, found) = Cache.get key (net.clock b) false ls.leases in
      let ls' : Libstore = record ls { leases = leases } in
      elim found [
        | hit v ↦ (ls', b, assert_text v)
        | miss want ↦ fetch net.call_get text (args_of key want ls) ls' b
      ]

  unfoldable pub get_list : String → Libstore → B → Libstore × B × Outcome (List String)
  get_list key ls b =
      let (leases, found) = Cache.get key (net.clock b) false ls.leases in
      let ls' : Libstore = record ls { leases = leases } in
      elim found [
        | hit v ↦ (ls', b, assert_texts v)
        | miss want ↦ fetch net.call_get_list texts (args_of key want ls) ls' b
      ]

  abbrev pub on_status : Option Status → Outcome (Unit {0})
  on_status none = error
  on_status (some status) = if is_ok status then returned tt else error

  -- iPut, iAppendToList and iRemoveFromList: `call` is their RPC.
  abbrev pub modify :
      (String → String → String → B → B × Option Status)
      → String
      → String
      → Libstore
      → B
      → Libstore × B × Outcome (Unit {0})
  modify call key value ls b =
      let (ls₁, b₁, picked) = pick_server key ls b in
      elim picked [
        | panic ↦ (ls₁, b₁, panic)
        | error ↦ (ls₁, b₁, error)
        | returned host ↦ let (b₂, reply) = call host key value b₁ in (ls₁, b₂, on_status reply)
      ]

  abbrev pub put : String → String → Libstore → B → Libstore × B × Outcome (Unit {0})
  put = modify net.call_put

  abbrev pub append_to_list : String → String → Libstore → B → Libstore × B × Outcome (Unit {0})
  append_to_list = modify net.call_append_to_list

  abbrev pub remove_from_list : String → String → Libstore → B → Libstore × B × Outcome (Unit {0})
  remove_from_list = modify net.call_remove_from_list

-- The RevokeLease handler, and its reply's status.
unfoldable pub revoke_lease : String → Libstore → Libstore × Status
revoke_lease key ls =
    let (leases, found) = Cache.revoke key ls.leases in
    (record ls { leases = leases }, if found then ok else e_key_not_found)
