-- ===== src/Message/Types.antt =====
-- Message.cpp: the letters by which a caller asks for a type, in what reads metadata and in what
-- writes it.
use azure_uamqp_php.Prelude.{
  ℕ, ◌≡◌, refl, Bool, true, false, ◌||◌, Option, none, some, [], ◌∷◌, Text, is_empty, ◌==◌,
  if◌then◌else◌, Bool-cases, inl, inr, subst, text_eq, ok, err, arith,
}
use azure_uamqp_php.Prelude.Options.{is_none}
use azure_uamqp_php.Message.Library.{MessageApi, PhpApi}
use azure_uamqp_php.Message.Php.{apply_requested_type, converted, unsupported}
use azure_uamqp_php.Message.Setting.{typed_value}

pub data PhpType : Type 0 where
  integer string double boolean : PhpType

-- The types of the values that PHP-CPP makes.
pub record HasTypes {D : Type 0} (php : PhpApi D) : Type 0 where
  pub type_of : php.Value → Option PhpType
  pub integers : (z : _) → type_of (php.from_integer z) ≡ some PhpType.integer
  pub strings : (t : Text) → type_of (php.from_text t) ≡ some PhpType.string
  pub doubles : (x : D) → type_of (php.from_double x) ≡ some PhpType.double
  pub booleans : (b : Bool) → type_of (php.from_boolean b) ≡ some PhpType.boolean

abbrev pub letter_type : ℕ → Option PhpType
letter_type c =
    if c == b'I' || (c == b'T' || c == b'L')
    then some PhpType.integer
    else if c == b'S'
    then some PhpType.string
    else if c == b'D'
    then some PhpType.double
    else if c == b'B'
    then some PhpType.boolean
    else none

-- The type that a text asks for, if there is one: one of six letters, and nothing else.
abbrev pub requested : Text → Option PhpType
requested [] = none
requested (c ∷ []) = letter_type c
requested (c ∷ d ∷ t) = none

module _ (api : MessageApi) (php : PhpApi api.Double) (types : HasTypes php) where
  -- What the two sides make of a requested type.
  abbrev pub Answers : php.Value → php.Value → Option PhpType → Type 0
  Answers value parameter none =
      (apply_requested_type php value (some parameter) ≡ err (unsupported php))
      × (is_none (typed_value api php (php.string_value parameter) value) ≡ true)
  Answers value parameter (some type) =
      (v : php.Value) × (apply_requested_type php value (some parameter) ≡ ok v)
      × (types.type_of v ≡ some type)
      × (is_none (typed_value api php (php.string_value parameter) value) ≡ false)

  -- The same of the letters alone.
  abbrev Converts : php.Value → Text → Option PhpType → Type 0
  Converts value text none =
      (converted php text value ≡ none) × (is_none (typed_value api php text value) ≡ true)
  Converts value text (some type) =
      (v : php.Value) × (converted php text value ≡ some v)
      × (types.type_of v ≡ some type)
      × (is_none (typed_value api php text value) ≡ false)

  abbrev ConvertsLetter : php.Value → ℕ → Type 0
  ConvertsLetter value c = Converts value (c ∷ []) (letter_type c)

  equal : (c d : ℕ) → c == d ≡ true → d ≡ c
  equal c d h = ground arith

  -- A known letter is looked at as it is, and the others are different.
  at_letter :
      (value : php.Value) (c d : ℕ)
      → ConvertsLetter value d
      → (c == d ≡ false → ConvertsLetter value c)
      → ConvertsLetter value c
  at_letter value c d same other = elim (Bool-cases (c == d)) [
    | inl e ↦ subst (ConvertsLetter value) (equal c d e) same
    | inr e ↦ other e
  ]

  letter-Converts : (value : php.Value) (c : ℕ) → ConvertsLetter value c
  unfolding typed_value
  letter-Converts value c =
      at_letter value c b'I' (php.from_integer _, refl, types.integers _, refl)
        λ i.
          at_letter value c b'T' (php.from_integer _, refl, types.integers _, refl)
            λ t.
              at_letter value c b'L' (php.from_integer _, refl, types.integers _, refl)
                λ l.
                  at_letter value c b'S' (php.from_text _, refl, types.strings _, refl)
                    λ s.
                      at_letter value c b'D' (php.from_double _, refl, types.doubles _, refl)
                        λ d.
                          at_letter value c b'B' (php.from_boolean _, refl, types.booleans _, refl)
                            λ b. simp (i, t, l, s, d, b) (refl, refl)

  longer : (c d e : ℕ) (t : Text) → text_eq (c ∷ d ∷ t) (e ∷ []) ≡ false
  longer c d e t = ground arith

  text-Converts : (value : php.Value) (t : Text) → Converts value t (requested t)
  unfolding typed_value
  text-Converts value [] = (refl, refl)
  text-Converts value (c ∷ []) = letter-Converts value c
  text-Converts value (c ∷ d ∷ t) = simp (longer c d) (refl, refl)

  applied :
      (value parameter : php.Value)
      → php.is_null value ≡ false
      → is_empty (php.string_value parameter) ≡ false
      → (o : Option PhpType) → Converts value (php.string_value parameter) o
      → Answers value parameter o
  unfolding apply_requested_type
  applied value parameter n e none c = (simp (n, e, c.0) refl, c.1)
  applied value parameter n e (some type) c = (c.0, simp (n, e, c.1) refl, c.2, c.3)

  -- Where the values that PHP-CPP makes have their types: a value that is not null, asked for with a
  -- type that is not empty, comes back with exactly that type for the letters I, T and L (an
  -- integer), S (a string), D (a double) and B (a boolean), and any other text is refused; and what
  -- writes metadata knows the same texts as what reads it and no others.
  pub apply_requested_type-type :
      (value parameter : php.Value)
      → php.is_null value ≡ false
      → is_empty (php.string_value parameter) ≡ false
      → Answers value parameter (requested (php.string_value parameter))
  apply_requested_type-type value parameter n e =
      applied value parameter n e _ (text-Converts value (php.string_value parameter))
