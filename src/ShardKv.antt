-- ===== src/ShardKv.antt =====
-- The client of the sharded key-value service: 6.824-labs/shardkv/client.go and common.go, with the client of
-- the shard master in ShardMaster. The servers have no handlers yet, and are a record of functions on a
-- state `B`; a call that returns false gives `none`. `none` of a whole call is fuel that ran out.
pub mod Tries
pub mod Answers
use golang_programming.Prelude.{
  ℕ, zero, suc, ◌%◌, String, Bool, true, false, Option, none, some, List, [], ◌∷◌, empty, ◌>>=◌,
}
use golang_programming.Libstore.{bytes}
use golang_programming.ShardMaster.{n_shards, Config, Masters, try_each, query}

pub data Err : Type 0 where
  ok err_no_key err_wrong_group : Err

pub record GetReply : Type 0 where
  pub err : Err
  pub value : String

pub record Clerk : Type 0 where
  pub sm : List String
  pub config : Config

-- MakeClerk, with the zero Config
abbrev pub make_clerk : List String → Clerk
make_clerk shardmasters = record {
  sm = shardmasters;
  config = record { num = 0; shards = λ shard. 0; groups = empty };
}

-- int(key[0]), and 0 for the empty key
abbrev pub first_byte : List ℕ → ℕ
first_byte [] = 0
first_byte (c ∷ l) = c

unfoldable pub key2shard : String → ℕ
key2shard key = first_byte (bytes key) % n_shards

pub record Groups (B : Type 0) : Type 0 where
  pub masters : Masters B
  pub call_get : String → String → B → B × Option GetReply
  pub call_put : String → String → String → B → B × Option Err

-- The value of a reply that ends Get.
abbrev pub get_answer : Option GetReply → Option String
get_answer none = none
get_answer (some reply) = elim reply.err [
  | ok ↦ some reply.value
  | err_no_key ↦ some reply.value
  | err_wrong_group ↦ none
]

-- ok && reply.Err == OK
abbrev pub put_answer : Option Err → Option (Unit {0})
put_answer (some ok) = some tt
put_answer _ = none

-- A call whose reply does not end the loop counts as none.
abbrev pub accepting :
    {B R V : Type 0}
    → (Option R → Option V)
    → (String → B → B × Option R)
    → String
    → B
    → B × Option V
accepting answer rpc srv b = let (b', reply) = rpc srv b in (b', answer reply)

-- ck.config.Groups[ck.config.Shards[key2shard(key)]], no servers for a missing group
abbrev pub servers_of : String → Config → List String
servers_of key config = elim (config.groups (config.shards (key2shard key))) [
  | none ↦ []
  | some servers ↦ servers
]

module _ {B : Type 0} (net : Groups B) where
  -- The loop of Get and Put: `rpc` is their call at a server, with the replies that end it.
  unfoldable pub ask_groups :
      {V : Type 0}
      → (String → B → B × Option V)
      → ℕ
      → ℕ
      → String
      → Clerk
      → B
      → Option (Clerk × B × V)
  ask_groups rpc fuel zero key ck b = none
  ask_groups rpc fuel (suc rounds) key ck b =
      let (b', reply) = try_each rpc (servers_of key ck.config) b in
      let again = (do
        r ← query net.masters ck.sm fuel none b'
        ask_groups rpc fuel rounds key (record ck { config = r.1 }) r.0) in
      elim reply [ none ↦ again | some v ↦ some (ck, b', v) ]

  unfoldable pub get : ℕ → String → Clerk → B → Option (Clerk × B × String)
  get fuel key = ask_groups (accepting get_answer (λ srv. net.call_get srv key)) fuel fuel key

  unfoldable pub put : ℕ → String → String → Clerk → B → Option (Clerk × B × Unit {0})
  put fuel key value =
      ask_groups (accepting put_answer (λ srv. net.call_put srv key value)) fuel fuel key
