-- ===== src/Base/Decimal.antt =====
-- `std::to_string` of an unsigned number: decimal digits, the most significant first.
use framekit.Base.Tests.{nat_beq, Bool-cases, if◌then◌else◌}
use framekit.Base.Keys.{concat}
use Prim.Native.Nat.{ℕ, zero, suc, ◌+◌, ◌*◌, ◌/◌, ◌%◌, ◌^◌, ◌<◌}
use Prim.Native.String.{String}
use mathlib.Core.Path.{◌≡◌, ◌∙◌, ap}
use mathlib.Core.List.{List, [], ◌∷◌}
use mathlib.Core.Logic.{inl, inr}
use native.Mathlib.Nat.{pow-suc}
use native.Mathlib.Omega.{arith}

-- The digits of `n` in front of `acc`; ten rounds are enough for a `uint32_t` (`decimal_value`).
unfoldable pub decimal : ℕ → ℕ → List ℕ → List ℕ
decimal zero n acc = acc
decimal (suc rounds) n acc =
    let more = decimal rounds (n / 10) ((n % 10) ∷ acc) in
    if nat_beq (n / 10) 0 then (n % 10) ∷ acc else more

unfoldable pub digit_text : ℕ → String
digit_text zero = "0"
digit_text (suc zero) = "1"
digit_text (suc (suc zero)) = "2"
digit_text (suc (suc (suc zero))) = "3"
digit_text (suc (suc (suc (suc zero)))) = "4"
digit_text (suc (suc (suc (suc (suc zero))))) = "5"
digit_text (suc (suc (suc (suc (suc (suc zero)))))) = "6"
digit_text (suc (suc (suc (suc (suc (suc (suc zero))))))) = "7"
digit_text (suc (suc (suc (suc (suc (suc (suc (suc zero)))))))) = "8"
digit_text (suc (suc (suc (suc (suc (suc (suc (suc (suc n))))))))) = "9"

unfoldable pub digits_text : List ℕ → String
unfolding digit_text
digits_text [] = ""
digits_text (d ∷ ds) = concat (digit_text d) (digits_text ds)

unfoldable pub to_string : ℕ → String
unfolding decimal digits_text
to_string n = digits_text (decimal 10 n [])

-- The number that a list of digits reads as, after the number read so far.
pub value_from : ℕ → List ℕ → ℕ
value_from v [] = v
value_from v (d ∷ ds) = value_from (10 * v + d) ds

shorter : (rounds n : ℕ) → n < 10 ^ suc rounds → n / 10 < 10 ^ rounds
shorter rounds n h = omega (arith, rw (pow-suc 10 rounds) at h)

-- With a round for each digit, the digits read back as the number.
pub decimal_value :
    (rounds n : ℕ) (acc : List ℕ)
    → n < 10 ^ rounds
    → value_from 0 (decimal rounds n acc) ≡ value_from n acc
unfolding decimal value_from
decimal_value zero n acc h = ap (λ v. value_from v acc) (omega arith)
decimal_value (suc rounds) n acc h = elim (Bool-cases (nat_beq (n / 10) 0)) [
  | inl done ↦ rw done (ap (λ v. value_from v acc) (ground arith))
  | inr more ↦ rw more (
      decimal_value rounds (n / 10) ((n % 10) ∷ acc) (shorter rounds n h)
      ∙ ap (λ v. value_from v acc) (omega arith))
]
