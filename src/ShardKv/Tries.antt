-- ===== src/ShardKv/Tries.antt =====
-- Calls that may be lost, one server after another (6.824-labs/shardmaster/client.go, 6.824-labs/shardkv/client.go).
use golang_programming.Prelude.{
  ℕ, zero, suc, ◌<◌, ◌≤◌, ◌≡◌, ◌⊎◌, inl, inr, refl, sym, subst, String, Option, none, some, List,
  [], ◌∷◌, ◌++◌, arith,
}
use golang_programming.ShardMaster.{try_each, until_answered}

-- `left` bounds the calls that can still be lost: a call without an answer is one less.
abbrev pub Loses : {B R : Type 0} → (B → ℕ) → (R → Type 0) → B → B × Option R → Type 0
Loses left Good b (b', none) = left b' < left b
Loses left Good b (b', some r) = (left b' ≤ left b) × Good r

-- As before, for a call whose answer may also be refused.
abbrev pub MayRefuse : {B R : Type 0} → (B → ℕ) → (R → Type 0) → B → B × Option R → Type 0
MayRefuse left Good b (b', none) = left b' ≤ left b
MayRefuse left Good b (b', some r) = (left b' ≤ left b) × Good r

module _ {B R : Type 0} (left : B → ℕ) (Good : R → Type 0) (rpc : String → B → B × Option R) where
  pub Reply-cases :
      (out : B × Option R) → (out ≡ (out.0, none)) ⊎ ((r : R) × (out ≡ (out.0, some r)))
  Reply-cases (b, none) = inl refl
  Reply-cases (b, some r) = inr (r, refl)

  try_each-none :
      (srv : String) (servers : List String) (b b' : B)
      → rpc srv b ≡ (b', none)
      → try_each rpc (srv ∷ servers) b ≡ try_each rpc servers b'
  unfolding try_each
  try_each-none srv servers b b' e = ground (arith, e)

  try_each-some :
      (srv : String) (servers : List String) (b b' : B) (r : R)
      → rpc srv b ≡ (b', some r)
      → try_each rpc (srv ∷ servers) b ≡ (b', some r)
  unfolding try_each
  try_each-some srv servers b b' r e = ground (arith, e)

  MayRefuse-weaker :
      (b b' : B) (out : B × Option R)
      → left b' ≤ left b
      → MayRefuse left Good b' out
      → MayRefuse left Good b out
  MayRefuse-weaker b b' (c, none) le h = omega (arith, le, h)
  MayRefuse-weaker b b' (c, some r) le (h, g) = (omega (arith, le, h), g)

  Loses-weaker :
      (b b' : B) (out : B × Option R)
      → left b' < left b
      → MayRefuse left Good b' out
      → Loses left Good b out
  Loses-weaker b b' (c, none) lt h = omega (arith, lt, h)
  Loses-weaker b b' (c, some r) lt (h, g) = (omega (arith, lt, h), g)

  pub try_each-MayRefuse :
      (servers : List String) (b : B)
      → ((srv : String) (c : B) → MayRefuse left Good c (rpc srv c))
      → MayRefuse left Good b (try_each rpc servers b)
  unfolding try_each
  try_each-MayRefuse [] b all = omega arith
  try_each-MayRefuse (srv ∷ servers) b all = elim (Reply-cases (rpc srv b)) [
    | inl e ↦ subst (MayRefuse left Good b) (sym (try_each-none srv servers b (rpc srv b).0 e)) (
        MayRefuse-weaker b (rpc srv b).0 (try_each rpc servers (rpc srv b).0)
          (subst (MayRefuse left Good b) e (all srv b))
          (try_each-MayRefuse servers (rpc srv b).0 all))
    | inr (r, e) ↦
        subst (MayRefuse left Good b) (sym (try_each-some srv servers b (rpc srv b).0 r e))
          (subst (MayRefuse left Good b) e (all srv b))
  ]

  -- The first of them answers well, or its call is lost.
  pub try_each-Loses :
      (srv : String) (servers : List String) (b : B)
      → ((s : String) (c : B) → MayRefuse left Good c (rpc s c))
      → ((c : B) → Loses left Good c (rpc srv c))
      → Loses left Good b (try_each rpc (srv ∷ servers) b)
  try_each-Loses srv servers b all first = elim (Reply-cases (rpc srv b)) [
    | inl e ↦ subst (Loses left Good b) (sym (try_each-none srv servers b (rpc srv b).0 e)) (
        Loses-weaker b (rpc srv b).0 (try_each rpc servers (rpc srv b).0)
          (subst (Loses left Good b) e (first b)) (try_each-MayRefuse servers (rpc srv b).0 all))
    | inr (r, e) ↦
        subst (Loses left Good b) (sym (try_each-some srv servers b (rpc srv b).0 r e))
          (subst (Loses left Good b) e (first b))
  ]

  Loses-later :
      (b b' : B) (out : B × Option R)
      → left b' ≤ left b
      → Loses left Good b' out
      → Loses left Good b out
  Loses-later b b' (c, none) le h = omega (arith, le, h)
  Loses-later b b' (c, some r) le (h, g) = (omega (arith, le, h), g)

  -- One of them answers well, or its call is lost.
  pub try_each-found :
      (before : List String) (srv : String) (servers : List String) (b : B)
      → ((s : String) (c : B) → MayRefuse left Good c (rpc s c))
      → ((c : B) → Loses left Good c (rpc srv c))
      → Loses left Good b (try_each rpc (before ++ srv ∷ servers) b)
  try_each-found [] srv servers b all one = try_each-Loses srv servers b all one
  try_each-found (s ∷ before) srv servers b all one = elim (Reply-cases (rpc s b)) [
    | inl e ↦
        subst (Loses left Good b) (sym (try_each-none s (before ++ srv ∷ servers) b (rpc s b).0 e))
          (Loses-later b (rpc s b).0 (try_each rpc (before ++ srv ∷ servers) (rpc s b).0)
            (subst (MayRefuse left Good b) e (all s b))
            (try_each-found before srv servers (rpc s b).0 all one))
    | inr (r, e) ↦
        subst (Loses left Good b)
          (sym (try_each-some s (before ++ srv ∷ servers) b (rpc s b).0 r e))
          (subst (MayRefuse left Good b) e (all s b))
  ]

  pub until_answered-Good :
      (fuel : ℕ) (before : List String) (srv : String) (servers : List String) (b : B)
      → ((s : String) (c : B) → MayRefuse left Good c (rpc s c))
      → ((c : B) → Loses left Good c (rpc srv c))
      → left b < fuel
      → (b' : B) × (r : R) × (until_answered rpc fuel (before ++ srv ∷ servers) b ≡ some (b', r))
        × (left b' ≤ left b)
        × Good r
  unfolding until_answered
  until_answered-Good zero before srv servers b all one lt = absurd (omega (arith, lt))
  until_answered-Good (suc fuel) before srv servers b all one lt =
      let out : B × Option R = try_each rpc (before ++ srv ∷ servers) b in
      let h = try_each-found before srv servers b all one in
      elim (Reply-cases out) [
        | inr (r, e) ↦
            let (le, good) = subst (Loses left Good b) e h in
            (out.0, r, ground (arith, e), le, good)
        | inl e ↦
            let fewer = subst (Loses left Good b) e h in
            let (b', r, f, le, good) =
              until_answered-Good fuel before srv servers out.0 all one
                (omega (arith, lt, fewer)) in
            (b', r, ground (arith, e, f), omega (arith, le, fewer), good)
      ]
