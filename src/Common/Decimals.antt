-- ===== src/Common/Decimals.antt =====
-- The decimal digits of `%d`, read back.
use Prim.Native.Nat.{ℕ, zero, suc, ◌+◌, ◌-◌, ◌*◌, ◌/◌, ◌%◌, ◌<◌}
use Prim.Native.Char.{Char, code}
use Prim.Native.String.{String, ◌++◌ as ◌<>◌}
use mathlib.Core.Path.{◌≡◌, refl, ap, sym, ◌∙◌}
use mathlib.Core.Bool.{false}
use mathlib.Core.Logic.{inl, inr}
use mathlib.Core.List.{List, [], ◌∷◌, ◌++◌}
use native.Mathlib.Omega.{arith}
use text.Mathlib.TextEquality.{eq_iff}
use contract_review_ai_agent.Common.Tests.{◌==◌, str_eq, Bool-cases, ==_iff}
use contract_review_ai_agent.Common.Text.{runes, runes-append, digit_text, decimal_from, decimal}

-- The number that digits stand for, behind the digits of `a`
value : List Char → ℕ → ℕ
value [] a = a
value (c ∷ cs) a = value cs (a * 10 + (code c - 48))

value-append : (xs ys : List Char) (a : ℕ) → value (xs ++ ys) a ≡ value ys (value xs a)
unfolding value
value-append [] ys a = refl
value-append (x ∷ xs) ys a = value-append xs ys (a * 10 + (code x - 48))

value-digit_text : (d a : ℕ) → d < 10 → value (runes (digit_text d)) a ≡ a * 10 + d
unfolding value digit_text
value-digit_text zero a h = omega arith
value-digit_text (suc zero) a h = omega arith
value-digit_text (suc (suc zero)) a h = omega arith
value-digit_text (suc (suc (suc zero))) a h = omega arith
value-digit_text (suc (suc (suc (suc zero)))) a h = omega arith
value-digit_text (suc (suc (suc (suc (suc zero))))) a h = omega arith
value-digit_text (suc (suc (suc (suc (suc (suc zero)))))) a h = omega arith
value-digit_text (suc (suc (suc (suc (suc (suc (suc zero))))))) a h = omega arith
value-digit_text (suc (suc (suc (suc (suc (suc (suc (suc zero)))))))) a h = omega arith
value-digit_text (suc (suc (suc (suc (suc (suc (suc (suc (suc zero))))))))) a h = omega arith
value-digit_text (suc (suc (suc (suc (suc (suc (suc (suc (suc (suc d)))))))))) a h =
    absurd (omega arith)

-- One digit in front of others
value-digit :
    (d a : ℕ) (s : String)
    → d < 10
    → value (runes (digit_text d <> s)) a ≡ value (runes s) (a * 10 + d)
value-digit d a s h =
    ap (λ cs. value cs a) (runes-append (digit_text d) s)
    ∙ value-append (runes (digit_text d)) (runes s) a
    ∙ ap (value (runes s)) (value-digit_text d a h)

value-decimal_from :
    (fuel n : ℕ) (acc : String)
    → n < fuel
    → value (runes (decimal_from fuel n acc)) 0 ≡ value (runes acc) n
unfolding decimal_from
value-decimal_from zero n acc h = absurd (omega arith)
value-decimal_from (suc fuel) n acc h = elim (Bool-cases (n / 10 == 0)) [
  | inl last ↦ rw last (
      value-digit (n % 10) 0 acc (omega arith)
      ∙ ap (value (runes acc)) (ground (arith, ==_iff (n / 10) 0)))
  | inr more ↦ rw more (
      value-decimal_from fuel (n / 10) (digit_text (n % 10) <> acc)
        (ground (arith, ==_iff (n / 10) 0))
      ∙ value-digit (n % 10) (n / 10) acc (omega arith)
      ∙ ap (value (runes acc)) (omega arith))
]

-- The digits of a number stand for it.
value-decimal : (n : ℕ) → value (runes (decimal n)) 0 ≡ n
unfolding decimal value
value-decimal n = value-decimal_from (suc n) n "" (omega arith)

-- Two numbers with the same digits are one.
pub decimal_injective : (a b : ℕ) → decimal a ≡ decimal b → a ≡ b
decimal_injective a b h = sym (value-decimal a) ∙ ap (λ s. value (runes s) 0) h ∙ value-decimal b

-- The digits of a number above 0 are a text that is not empty.
pub decimal-str_eq : (n : ℕ) → str_eq (decimal (suc n)) "" ≡ false
unfolding value
decimal-str_eq n = elim (Bool-cases (str_eq (decimal (suc n)) "")) [
  | inr given ↦ given
  | inl empty ↦
      let nothing : decimal (suc n) ≡ "" = (eq_iff (decimal (suc n)) "").0 empty in
      absurd (omega (arith, sym (value-decimal (suc n)) ∙ ap (λ s. value (runes s) 0) nothing))
]
