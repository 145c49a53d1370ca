-- ===== src/Tests/Shards.antt =====
-- A client of the sharded key-value service at fixed inputs.
use golang_programming.Prelude.{
  ℕ, zero, suc, ◌<◌, ◌≡◌, refl, String, Option, none, some, [], ◌∷◌, arith, insert, empty,
  if◌then◌else◌, ◌==◌, text_eq, nat_eq, Bool-cases, inl, inr, ℕ_discrete, text_discrete,
}
use golang_programming.ShardMaster.{n_shards, Config}
use golang_programming.ShardKv.{
  ok, err_wrong_group, Groups, Clerk, make_clerk, accepting, get_answer, key2shard, get,
}
use golang_programming.ShardKv.Tries.{Loses, MayRefuse}
use golang_programming.ShardKv.Answers.{get_finds}

-- All shards are of group 7.
abbrev conf : Config
conf = record { num = 3; shards = λ shard. 7; groups = insert 7 ("b" ∷ "a" ∷ []) empty }

-- The state is the number of calls that are still lost.
abbrev lossy : {R : Type 0} → R → ℕ → ℕ × Option R
lossy r zero = (0, some r)
lossy r (suc n) = (n, none)

abbrev net : Groups ℕ
net = record {
  masters = record {
    call_query = λ srv num n. if srv == "n" then (n, none) else lossy conf n;
    call_join = λ srv gid members. lossy tt;
    call_leave = λ srv gid. lossy tt;
    call_move = λ srv shard gid. lossy tt;
  };
  call_get = λ srv key. lossy (
      if srv == "a"
      then record { err = ok; value = "v" }
      else record { err = err_wrong_group; value = "" });
  call_put = λ srv key value. lossy ok;
}

-- The master "n" never answers.
masters_answer :
    (s : String) (c : ℕ)
    → MayRefuse (λ n. n) (λ (r : Config). r ≡ conf) c (net.masters.call_query s none c)
masters_answer s zero = elim (Bool-cases (s == "n")) [
  | inl e ↦ rw e (omega arith)
  | inr e ↦ rw e (omega arith, refl)
]
masters_answer s (suc n) = elim (Bool-cases (s == "n")) [
  | inl e ↦ rw e (omega arith)
  | inr e ↦ rw e (omega arith)
]

one_answers :
    (c : ℕ) → Loses (λ n. n) (λ (r : Config). r ≡ conf) c (net.masters.call_query "m" none c)
unfolding text_discrete
one_answers zero = (omega arith, refl)
one_answers (suc n) = omega arith

servers_answer :
    (s : String) (c : ℕ)
    → MayRefuse (λ n. n) (λ v. v ≡ "v") c (accepting get_answer (λ srv. net.call_get srv "k") s c)
servers_answer s zero = elim (Bool-cases (s == "a")) [
  | inl e ↦ rw e (omega arith, refl)
  | inr e ↦ rw e (omega arith)
]
servers_answer s (suc n) = omega arith

first_answers :
    (c : ℕ)
    → Loses (λ n. n) (λ v. v ≡ "v") c (accepting get_answer (λ srv. net.call_get srv "k") "a" c)
unfolding text_discrete
first_answers zero = (omega arith, refl)
first_answers (suc n) = omega arith

-- The client starts without a config, and two calls are lost.
get_finds_example :
    (key2shard "k" < n_shards)
    × (ck : Clerk) × (b : ℕ) × (get net 4 "k" (make_clerk ("n" ∷ "m" ∷ [])) 2 ≡ some (ck, b, "v"))
unfolding key2shard ℕ_discrete
get_finds_example =
    get_finds net (λ n. n) conf "k" "v" "m" "a" ("n" ∷ []) [] ("b" ∷ []) []
      (make_clerk ("n" ∷ "m" ∷ [])) 2 4 masters_answer one_answers refl servers_answer first_answers
      refl (omega arith)
