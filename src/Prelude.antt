-- ===== src/Prelude.antt =====
-- The names that all modules share: the libraries', passed on, Boolean tests on numbers and
-- texts, and the conditional. It models no file of the repository.
use Prim.Native.Nat.{compare, Ordering}
use text.Mathlib.Text.{◌==◌ as text_test}
use text.Mathlib.TextEquality.{eq_iff}
mod Lists
mod Maps
pub use Lists.*
pub use Maps.*
pub use Prim.Native.Nat.{ℕ, zero, suc, ◌+◌, ◌-◌, ◌*◌, ◌/◌, ◌%◌, ◌^◌, ◌≤◌, ◌<◌}
pub use Prim.Native.String.{String}
pub use mathlib.Core.Path.{◌≡◌, refl, sym, ap, ◌∙◌, subst, fun_ext}
pub use mathlib.Core.Logic.{◌≢◌, ◌↔◌, ◌⊎◌, inl, inr, ite, if_pos, if_neg}
pub use mathlib.Core.Bool.{Bool, true, false, not, ◌&&◌, ◌||◌}
pub use mathlib.Core.Option.{Option, none, some}
use mathlib.Core.List.{List-discrete}
pub use mathlib.Core.List.{List, [], ◌∷◌, ◌++◌, map}
pub use native.Mathlib.Omega.{arith}
unfoldable pub use native.Mathlib.Decide.{ℕ_discrete}

infix 1 if◌then◌else◌
abbrev pub if◌then◌else◌ {ℓ} : {A : Type ℓ} → Bool → A → A → A
if true then x else y = x
if false then x else y = y

abbrev pub ltb : ℕ → ℕ → Bool
ltb a b = elim (compare a b) [ Ordering.lt ↦ true | _ ↦ false ]

abbrev pub leb : ℕ → ℕ → Bool
leb a b = elim (compare a b) [ Ordering.gt ↦ false | _ ↦ true ]

pub Bool-cases : (b : Bool) → (b ≡ true) ⊎ (b ≡ false)
Bool-cases true = inl refl
Bool-cases false = inr refl

pub Option-cases {ℓ} : {A : Type ℓ} (o : Option A) → (o ≡ none) ⊎ ((a : A) × (o ≡ some a))
Option-cases none = inl refl
Option-cases (some a) = inr (a, refl)

pub false-ne-true : false ≢ true
false-ne-true h = cc

-- Equality of texts is decided by the library's test.
unfoldable pub text_discrete : Discrete String
unfolding Bool-cases
text_discrete a b = elim (Bool-cases (text_test a b)) [
  | inl e ↦ yes ((eq_iff a b).0 e)
  | inr e ↦ no (λ p. false-ne-true (sym e ∙ (eq_iff a b).1 p))
]

-- Two texts that the test tells apart are different.
pub ne_of_test : (a b : String) → text_test a b ≡ false → a ≢ b
ne_of_test a b h p = false-ne-true (sym h ∙ (eq_iff a b).1 p)

-- The types on which Go's `==` is used, and the keys of maps.
instance abbrev pub nat_eq : Eq ℕ
nat_eq = record { discrete = ℕ_discrete }

instance abbrev pub text_eq : Eq String
text_eq = record { discrete = text_discrete }

instance abbrev pub bytes_eq : Eq (List ℕ)
bytes_eq = record { discrete = List-discrete ℕ_discrete }

-- A step that may stop in a Go panic is an `Option`, with `none` for the panic.
infixl 5 ◌>>=◌
abbrev pub ◌>>=◌ {ℓ κ} : {A : Type ℓ} {B : Type κ} → Option A → (A → Option B) → Option B
none >>= f = none
some a >>= f = f a

pub >>=-eq-some {ℓ κ} :
    {A : Type ℓ} {B : Type κ} (m : Option A) (f : A → Option B) {b : B}
    → (m >>= f) ≡ some b
    → (a : A) × (m ≡ some a) × (f a ≡ some b)
>>=-eq-some none f h = cc
>>=-eq-some (some a) f h = (a, refl, h)
