-- ===== src/ShardMaster.antt =====
-- The client of the shard master: 6.824-labs/shardmaster/client.go and common.go. The masters are a record of
-- functions on a state `B` of everything else; a call that returns false gives `none`. `none` of a
-- whole call is fuel that ran out, and the number -1 of a query, the latest, is `none`.
use golang_programming.Prelude.{ℕ, zero, suc, String, Option, none, some, List, [], ◌∷◌, GoMap}

abbrev pub n_shards : ℕ
n_shards = 10

-- The array of shards is a function; its index is below n_shards.
pub record Config : Type 0 where
  pub num : ℕ
  pub shards : ℕ → ℕ
  pub groups : GoMap ℕ (List String)

pub record Masters (B : Type 0) : Type 0 where
  pub call_query : String → Option ℕ → B → B × Option Config
  pub call_join : String → ℕ → List String → B → B × Option (Unit {0})
  pub call_leave : String → ℕ → B → B × Option (Unit {0})
  pub call_move : String → ℕ → ℕ → B → B × Option (Unit {0})

module _ {B R : Type 0} (rpc : String → B → B × Option R) where
  -- One time each of these servers, up to the first that answers.
  unfoldable pub try_each : List String → B → B × Option R
  try_each [] b = (b, none)
  try_each (srv ∷ servers) b =
      let (b', reply) = rpc srv b in
      let later : B × Option R = try_each servers b' in
      elim reply [ none ↦ later | some r ↦ (b', some r) ]

  unfoldable pub until_answered : ℕ → List String → B → Option (B × R)
  until_answered zero servers b = none
  until_answered (suc fuel) servers b =
      let (b', reply) = try_each servers b in
      let again : Option (B × R) = until_answered fuel servers b' in
      elim reply [ none ↦ again | some r ↦ some (b', r) ]

module _ {B : Type 0} (net : Masters B) (servers : List String) where
  abbrev pub query : ℕ → Option ℕ → B → Option (B × Config)
  query fuel num = until_answered (λ srv. net.call_query srv num) fuel servers

  abbrev pub join : ℕ → ℕ → List String → B → Option (B × Unit {0})
  join fuel gid members = until_answered (λ srv. net.call_join srv gid members) fuel servers

  abbrev pub leave : ℕ → ℕ → B → Option (B × Unit {0})
  leave fuel gid = until_answered (λ srv. net.call_leave srv gid) fuel servers

  abbrev pub move : ℕ → ℕ → ℕ → B → Option (B × Unit {0})
  move fuel shard gid = until_answered (λ srv. net.call_move srv shard gid) fuel servers
