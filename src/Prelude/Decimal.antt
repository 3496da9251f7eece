-- ===== src/Prelude/Decimal.antt =====
-- `std::to_string` on integers, and reading decimal digits back.
use Prim.Native.Nat.{ℕ, zero, suc, ◌+◌, ◌-◌, ◌*◌, ◌/◌, ◌%◌, ◌≤◌, ◌<◌}
use mathlib.Core.Path.{◌≡◌, refl, ap, ◌∙◌}
use mathlib.Core.Logic.{inl, inr}
use mathlib.Core.List.{[], ◌∷◌}
use native.Mathlib.Omega.{arith}
use azure_uamqp_php.Prelude.Tests.{ltb, if◌then◌else◌, Bool-cases, ltb→lt}
use azure_uamqp_php.Prelude.Lists.{Text, All}
use azure_uamqp_php.Prelude.Int.{ℤ, pos, negsuc}

-- Digits are put in front of `acc`, the last one first; the fuel is above the number.
digits_onto : ℕ → ℕ → Text → Text
digits_onto zero n acc = acc
digits_onto (suc f) n acc =
    let digit = b'0' + n % 10 in
    let rest = digits_onto f (n / 10) (digit ∷ acc) in if ltb n 10 then digit ∷ acc else rest

unfoldable pub decimal : ℕ → Text
unfolding digits_onto
decimal n = digits_onto (suc n) n []

unfoldable pub decimal_ℤ : ℤ → Text
unfolding decimal
decimal_ℤ (pos n) = decimal n
decimal_ℤ (negsuc n) = b'-' ∷ decimal (suc n)

-- The value of a run of digits that follows the number `acc`.
abbrev pub value_onto : ℕ → Text → ℕ
value_onto acc [] = acc
value_onto acc (c ∷ cs) = value_onto (acc * 10 + (c - b'0')) cs

abbrev pub IsDigit : ℕ → Type 0
IsDigit c = (b'0' ≤ c) × (c ≤ b'9')

digits_onto_value :
    (f n : ℕ) (acc : Text) → n < f → value_onto 0 (digits_onto f n acc) ≡ value_onto n acc
unfolding digits_onto
digits_onto_value zero n acc h = elim h [ ]
digits_onto_value (suc f) n acc h = elim (Bool-cases (ltb n 10)) [
  | inl small ↦ rw small (ap (λ k. value_onto k acc) (omega (arith, ltb→lt n 10 small)))
  | inr large ↦
      rw large
        (digits_onto_value f (n / 10) _ (ground arith) ∙ ap (λ k. value_onto k acc) (omega arith))
]

digits_onto_digits : (f n : ℕ) (acc : Text) → All IsDigit acc → All IsDigit (digits_onto f n acc)
unfolding digits_onto
digits_onto_digits zero n acc h = h
digits_onto_digits (suc f) n acc h =
    ground (arith, digits_onto_digits f (n / 10) ((b'0' + n % 10) ∷ acc))

pub value-decimal : (n : ℕ) → value_onto 0 (decimal n) ≡ n
unfolding decimal
value-decimal n = digits_onto_value (suc n) n [] (omega arith)

pub decimal_digits : (n : ℕ) → All IsDigit (decimal n)
unfolding decimal
decimal_digits n = digits_onto_digits (suc n) n [] tt

-- No leading 0, but for 0 itself.
abbrev pub IsCanonical : ℕ → Text → Type 0
IsCanonical n [] = ⊥
IsCanonical n (c ∷ t) = (c ≡ b'0') → (n ≡ 0) × (t ≡ [])

abbrev Leads : Text → Type 0
Leads [] = ⊥
Leads (c ∷ t) = b'1' ≤ c

digits_onto-Leads : (f n : ℕ) (acc : Text) → n < f → 0 < n → Leads (digits_onto f n acc)
unfolding digits_onto
digits_onto-Leads zero n acc h p = elim h [ ]
digits_onto-Leads (suc f) n acc h p = elim (Bool-cases (ltb n 10)) [
  | inl small ↦ rw small (ground (arith, ltb→lt n 10 small))
  | inr large ↦ rw large (digits_onto-Leads f (n / 10) _ (ground arith) (ground arith))
]

Leads-IsCanonical : (n : ℕ) (t : Text) → Leads t → IsCanonical n t
Leads-IsCanonical n [] l = l
Leads-IsCanonical n (c ∷ t) l = λ e. absurd (omega arith)

pub decimal-IsCanonical : (n : ℕ) → IsCanonical n (decimal n)
unfolding decimal digits_onto
decimal-IsCanonical zero = λ _. (refl, refl)
decimal-IsCanonical (suc n) =
    Leads-IsCanonical (suc n) _
      (digits_onto-Leads (suc (suc n)) (suc n) [] (omega arith) (omega arith))
