-- ===== src/Prelude/Maps.antt =====
-- Equality as an instance, and Go maps. A map is the function from its keys to what is stored;
-- the order in which `range` visits the keys is an argument of the loops that use it.
use mathlib.Core.Bool.{Bool, true, false}
use mathlib.Core.Logic.{ite}
use mathlib.Core.Option.{Option, none, some}

pub record Eq {ℓ} (A : Type ℓ) : Type ℓ where
  pub discrete : Discrete A

-- Go's `a == b`
infix 50 ◌==◌
abbrev pub ◌==◌ {ℓ} : {A : Type ℓ} ⦃e : Eq A⦄ → A → A → Bool
◌==◌ ⦃e⦄ a b = ite (e.discrete a b) true false

abbrev pub GoMap {ℓ κ} : Type ℓ → Type κ → Type (ℓ ⊔ κ)
GoMap K V = K → Option V

module _ {ℓ κ} {K : Type ℓ} {V : Type κ} where
  -- make(map[K]V)
  abbrev pub empty : GoMap K V
  empty k = none

  -- m[k] = v
  abbrev pub insert : ⦃e : Eq K⦄ → K → V → GoMap K V → GoMap K V
  insert ⦃e⦄ k v m j = ite (e.discrete j k) (some v) (m j)

  -- delete(m, k)
  abbrev pub delete : ⦃e : Eq K⦄ → K → GoMap K V → GoMap K V
  delete ⦃e⦄ k m j = ite (e.discrete j k) none (m j)
