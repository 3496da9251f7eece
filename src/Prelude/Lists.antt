-- ===== src/Prelude/Lists.antt =====
-- Byte strings and lists measured by native numbers.
use Prim.Native.Nat.{ℕ, zero, suc, ◌+◌}
use Prim.Native.Char.{code}
use Prim.Native.String.{String}
use mathlib.Core.Path.{◌≡◌, refl}
use mathlib.Core.Bool.{Bool, true, false, ◌&&◌}
use mathlib.Core.List.{List, [], ◌∷◌, ◌++◌}
use mathlib.Core.Option.{Option, none, some}
use native.Mathlib.Omega.{arith}
use azure_uamqp_php.Prelude.Tests.{◌==◌}

-- `std::string`: its bytes.
abbrev pub Text : Type 0
Text = List ℕ

-- The bytes of an ASCII literal.
abbrev pub codes : String → Text
codes String.[] = []
codes (String.◌∷◌ c s) = code c ∷ codes s

module _ {ℓ} {A : Type ℓ} where
  abbrev pub length : List A → ℕ
  length [] = 0
  length (x ∷ xs) = suc (length xs)

  abbrev pub get_elem? : List A → ℕ → Option A
  get_elem? [] i = none
  get_elem? (x ∷ xs) zero = some x
  get_elem? (x ∷ xs) (suc i) = get_elem? xs i

  abbrev pub take : ℕ → List A → List A
  take zero xs = []
  take (suc n) [] = []
  take (suc n) (x ∷ xs) = x ∷ take n xs

  abbrev pub drop : ℕ → List A → List A
  drop zero xs = xs
  drop (suc n) [] = []
  drop (suc n) (x ∷ xs) = drop n xs

  abbrev pub is_empty : List A → Bool
  is_empty [] = true
  is_empty (x ∷ xs) = false

  pub length-append : (xs ys : List A) → length (xs ++ ys) ≡ length xs + length ys
  length-append [] ys = omega arith
  length-append (x ∷ xs) ys = omega (arith, length-append xs ys)

-- `==` of two strings.
abbrev pub text_eq : Text → Text → Bool
text_eq [] [] = true
text_eq [] (_ ∷ _) = false
text_eq (_ ∷ _) [] = false
text_eq (a ∷ s) (b ∷ t) = a == b && text_eq s t

pub text_eq-eq : (s t : Text) → text_eq s t ≡ true → s ≡ t
text_eq-eq [] [] h = refl
text_eq-eq [] (b ∷ t) h = ground arith
text_eq-eq (a ∷ s) [] h = ground arith
text_eq-eq (a ∷ s) (b ∷ t) h = ground (arith, text_eq-eq s t)

pub text_eq_refl : (s : Text) → text_eq s s ≡ true
text_eq_refl [] = refl
text_eq_refl (a ∷ s) = ground (arith, text_eq_refl s)

-- A predicate at every element.
abbrev pub All {ℓ κ} : {A : Type ℓ} → (A → Type κ) → List A → Type κ
All P [] = Unit
All P (x ∷ xs) = P x × All P xs

pub All-append {ℓ κ} :
    {A : Type ℓ} (P : A → Type κ) (xs ys : List A) → All P xs → All P ys → All P (xs ++ ys)
All-append P [] ys hx hy = hy
All-append P (x ∷ xs) ys hx hy = (hx.0, All-append P xs ys hx.1 hy)
