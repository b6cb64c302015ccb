-- ===== src/Base/Keys.antt =====
-- Equality tests as an interface, for the key types of the sources' maps and sets.
use Prim.Native.Nat.{ℕ}
use Prim.Native.String.{String, ◌++◌ as append_text}
use text.Mathlib.Text.{◌==◌ as str_eq}
use text.Mathlib.TextEquality.{eq_iff}
use mathlib.Core.Path.{◌≡◌, refl}
use mathlib.Core.Logic.{◌↔◌, ◌⊎◌}
use mathlib.Core.Bool.{Bool, true, false, ◌||◌}
use mathlib.Core.List.{List, [], ◌∷◌}
use native.Mathlib.Omega.{arith}
use framekit.Base.Tests.{nat_beq, nat_beq_iff}

-- `a + b` on `std::string`.
abbrev pub concat : String → String → String
concat a b = append_text a b

abbrev pub is_blank : String → Bool
is_blank s = str_eq s ""

pub record Comparable {ℓ} (A : Type ℓ) : Type ℓ where
  pub is_equal : A → A → Bool
  pub is_equal_iff : (a b : A) → (is_equal a b ≡ true) ↔ (a ≡ b)

infix 50 ◌==◌
abbrev pub ◌==◌ {ℓ} : {A : Type ℓ} ⦃e : Comparable A⦄ → A → A → Bool
◌==◌ ⦃e⦄ = e.is_equal

instance abbrev pub nat_eq : Comparable ℕ
nat_eq = record { is_equal = nat_beq; is_equal_iff = nat_beq_iff }

instance abbrev pub string_eq : Comparable String
string_eq = record { is_equal = str_eq; is_equal_iff = eq_iff }

module _ {ℓ} {A : Type ℓ} ⦃e : Comparable A⦄ where
  pub beq_refl : (a : A) → (a == a) ≡ true
  beq_refl a = (e.is_equal_iff a a).1 refl

  pub beq_of_ne : (a b : A) → (a ≡ b → ⊥) → (a == b) ≡ false
  beq_of_ne a b h = ground (arith, e.is_equal_iff a b)

  -- To split on a test and have the equation, or its failure.
  pub beq_cases : (a b : A) → ((a == b) ≡ true) × (a ≡ b) ⊎ ((a == b) ≡ false) × (a ≡ b → ⊥)
  beq_cases a b = ground (arith, e.is_equal_iff a b)

  -- `std::find(...) != end()`, and membership of a set.
  unfoldable pub contains : List A → A → Bool
  contains [] a = false
  contains (x ∷ xs) a = x == a || contains xs a
