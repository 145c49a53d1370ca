-- ===== src/ShardKv/Answers.antt =====
-- A client whose config is old finds the servers of its key (6.824-labs/shardkv/client.go).
use golang_programming.Prelude.{
  ℕ, zero, suc, ◌<◌, ◌≤◌, ◌≡◌, inl, inr, refl, sym, ap, subst, ◌∙◌, String, Option, none, some,
  List, ◌∷◌, ◌++◌, arith,
}
use golang_programming.ShardMaster.{Config, n_shards, try_each, query}
use golang_programming.ShardKv.{
  Clerk, Groups, get_answer, put_answer, accepting, servers_of, ask_groups, get, put, key2shard,
}
use golang_programming.ShardKv.Tries.{
  Loses, MayRefuse, Reply-cases, try_each-MayRefuse, try_each-found, until_answered-Good,
}

module _ {B V : Type 0} (net : Groups B) (left : B → ℕ) (Good : V → Type 0)
    (rpc : String → B → B × Option V) (conf : Config) (key : String) (m o : String)
    (ms ms' os os' : List String) where
  abbrev Answered : Option (Clerk × B × V) → Type 0
  Answered done = (ck : Clerk) × (b : B) × (v : V) × (done ≡ some (ck, b, v)) × Good v

  -- A round that gets no answer, and the query after it.
  ask_groups-again :
      (fuel rounds : ℕ) (ck : Clerk) (b b₁ b₂ : B) (found : Config)
      → try_each rpc (servers_of key ck.config) b ≡ (b₁, none)
      → query net.masters ck.sm fuel none b₁ ≡ some (b₂, found)
      → ask_groups net rpc fuel (suc rounds) key ck b
        ≡ ask_groups net rpc fuel rounds key (record ck { config = found }) b₂
  unfolding ask_groups
  ask_groups-again fuel rounds ck b b₁ b₂ found e f = ground (arith, e, f)

  ask_groups-answered :
      (fuel rounds : ℕ) (ck : Clerk) (b b' : B) (v : V)
      → try_each rpc (servers_of key ck.config) b ≡ (b', some v)
      → ask_groups net rpc fuel (suc rounds) key ck b ≡ some (ck, b', v)
  unfolding ask_groups
  ask_groups-answered fuel rounds ck b b' v e = ground (arith, e)

  module _
      (masters : (s : String) (c : B)
        → MayRefuse left (λ (r : Config). r ≡ conf) c (net.masters.call_query s none c))
      (master : (c : B) → Loses left (λ (r : Config). r ≡ conf) c (net.masters.call_query m none c))
      (owned : servers_of key conf ≡ os ++ o ∷ os')
      (all : (s : String) (c : B) → MayRefuse left Good c (rpc s c))
      (first : (c : B) → Loses left Good c (rpc o c)) where
    query-conf :
        (fuel : ℕ) (ck : Clerk) (b : B)
        → ck.sm ≡ ms ++ m ∷ ms'
        → left b < fuel
        → (b' : B) × (query net.masters ck.sm fuel none b ≡ some (b', conf)) × (left b' ≤ left b)
    query-conf fuel ck b sm lt =
        let (b', r, e, le, same) =
          until_answered-Good left (λ (r : Config). r ≡ conf)
            (λ srv. net.masters.call_query srv none) fuel ms m ms' b masters master lt in
        (b', ap (λ l. query net.masters l fuel none b) sm ∙ e ∙ ap (λ c. some (b', c)) same, le)

    -- With the config of the masters.
    ask_groups-known :
        (fuel rounds : ℕ) (ck : Clerk) (b : B)
        → ck.sm ≡ ms ++ m ∷ ms'
        → ck.config ≡ conf
        → left b < fuel
        → left b < rounds
        → Answered (ask_groups net rpc fuel rounds key ck b)
    ask_groups-known fuel zero ck b sm known lt few = absurd (omega (arith, few))
    ask_groups-known fuel (suc rounds) ck b sm known lt few =
        let l : List String = servers_of key ck.config in
        let same : l ≡ os ++ o ∷ os' = ap (servers_of key) known ∙ owned in
        let h : Loses left Good b (try_each rpc l b) =
          subst (λ k. Loses left Good b (try_each rpc k b)) (sym same)
            (try_each-found left Good rpc os o os' b all first) in
        elim (Reply-cases left Good rpc (try_each rpc l b)) [
          | inr (v, e) ↦ (
            ck,
            (try_each rpc l b).0,
            v,
            ask_groups-answered fuel rounds ck b (try_each rpc l b).0 v e,
            (subst (Loses left Good b) e h).1,
          )
          | inl e ↦
              let fewer = subst (Loses left Good b) e h in
              let (b₂, f, le) =
                query-conf fuel ck (try_each rpc l b).0 sm (omega (arith, lt, fewer)) in
              let (ck', b', v, g, good) =
                ask_groups-known fuel rounds (record ck { config = conf }) b₂ sm refl
                  (omega (arith, lt, fewer, le)) (omega (arith, few, fewer, le)) in
              (
                ck',
                b',
                v,
                ask_groups-again fuel rounds ck b (try_each rpc l b).0 b₂ conf e f ∙ g,
                good,
              )
        ]

    -- With any config: one round may be in vain.
    ask_groups-Answered :
        (fuel : ℕ) (ck : Clerk) (b : B)
        → ck.sm ≡ ms ++ m ∷ ms'
        → suc (left b) < fuel
        → Answered (ask_groups net rpc fuel fuel key ck b)
    ask_groups-Answered zero ck b sm lt = absurd (omega (arith, lt))
    ask_groups-Answered (suc rounds) ck b sm lt =
        let l : List String = servers_of key ck.config in
        let h = try_each-MayRefuse left Good rpc l b all in
        elim (Reply-cases left Good rpc (try_each rpc l b)) [
          | inr (v, e) ↦ (
            ck,
            (try_each rpc l b).0,
            v,
            ask_groups-answered (suc rounds) rounds ck b (try_each rpc l b).0 v e,
            (subst (MayRefuse left Good b) e h).1,
          )
          | inl e ↦
              let no_more = subst (MayRefuse left Good b) e h in
              let (b₂, f, le) =
                query-conf (suc rounds) ck (try_each rpc l b).0 sm (omega (arith, lt, no_more)) in
              let (ck', b', v, g, good) =
                ask_groups-known (suc rounds) rounds (record ck { config = conf }) b₂ sm refl
                  (omega (arith, lt, no_more, le)) (omega (arith, lt, no_more, le)) in
              (
                ck',
                b',
                v,
                ask_groups-again (suc rounds) rounds ck b (try_each rpc l b).0 b₂ conf e f ∙ g,
                good,
              )
        ]

key2shard_bound : (key : String) → key2shard key < n_shards
unfolding key2shard
key2shard_bound key = omega arith

-- When no master answers with another config than this one, and one of the client's masters always
-- answers unless its call is lost, when no server answers a get of the key with another value
-- than this one, and one server of the key's group in that config always answers with it unless its
-- call is lost, and when fewer of these calls are lost than the fuel less one, a get returns the value,
-- whatever config the client has; other masters and servers may never answer. The shard of the key
-- is one of the ten.
pub get_finds :
    {B : Type 0} (net : Groups B) (left : B → ℕ) (conf : Config) (key value m o : String)
    (ms ms' os os' : List String) (ck : Clerk) (b : B) (fuel : ℕ)
    → ((s : String) (c : B)
        → MayRefuse left (λ (r : Config). r ≡ conf) c (net.masters.call_query s none c))
    → ((c : B) → Loses left (λ (r : Config). r ≡ conf) c (net.masters.call_query m none c))
    → servers_of key conf ≡ os ++ o ∷ os'
    → ((s : String) (c : B)
        → MayRefuse left
            (λ v. v ≡ value)
            c
            (accepting get_answer (λ srv. net.call_get srv key) s c))
    → ((c : B)
        → Loses left (λ v. v ≡ value) c (accepting get_answer (λ srv. net.call_get srv key) o c))
    → ck.sm ≡ ms ++ m ∷ ms'
    → suc (left b) < fuel
    → (key2shard key < n_shards)
      × (ck' : Clerk) × (b' : B) × (get net fuel key ck b ≡ some (ck', b', value))
unfolding get
get_finds net left conf key value m o ms ms' os os' ck b fuel masters master owned all first sm lt =
    let (ck', b', v, e, same) =
      ask_groups-Answered net left (λ v. v ≡ value)
        (accepting get_answer (λ srv. net.call_get srv key)) conf key m o ms ms' os os' masters
        master owned all first fuel ck b sm lt in
    (key2shard_bound key, ck', b', e ∙ ap (λ x. some (ck', b', x)) same)

-- Likewise for a put that one server of the key's group accepts.
pub put_returns :
    {B : Type 0} (net : Groups B) (left : B → ℕ) (conf : Config) (key value m o : String)
    (ms ms' os os' : List String) (ck : Clerk) (b : B) (fuel : ℕ)
    → ((s : String) (c : B)
        → MayRefuse left (λ (r : Config). r ≡ conf) c (net.masters.call_query s none c))
    → ((c : B) → Loses left (λ (r : Config). r ≡ conf) c (net.masters.call_query m none c))
    → servers_of key conf ≡ os ++ o ∷ os'
    → ((s : String) (c : B)
        → MayRefuse left
            (λ v. Unit)
            c
            (accepting put_answer (λ srv. net.call_put srv key value) s c))
    → ((c : B)
        → Loses left (λ v. Unit) c (accepting put_answer (λ srv. net.call_put srv key value) o c))
    → ck.sm ≡ ms ++ m ∷ ms'
    → suc (left b) < fuel
    → (ck' : Clerk) × (b' : B) × (put net fuel key value ck b ≡ some (ck', b', tt))
unfolding put
put_returns net left conf key value m o ms ms' os os' ck b fuel masters master owned all first sm
      lt =
    let (ck', b', v, e, good) =
      ask_groups-Answered net left (λ v. Unit)
        (accepting put_answer (λ srv. net.call_put srv key value)) conf key m o ms ms' os os'
        masters master owned all first fuel ck b sm lt in
    (ck', b', e)
