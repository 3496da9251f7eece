-- ===== src/Debugger/Percent.antt =====
-- subscription_consumer.cpp, `hexDigit` and `decodePercent`.
use native.Mathlib.Decide.{ℕ_discrete}
use azure_uamqp_php.Prelude.{
  ℕ, ◌+◌, ◌-◌, ◌*◌, ◌≡◌, ◌≢◌, ◌<◌, ◌≤◌, ◌⊎◌, refl, ◌&&◌, Option, none, some, [], ◌∷◌, Text, leb,
  ◌==◌, if◌then◌else◌, Result, ok, err, arith, ap, ◌∙◌, sym, subst, Option-cases, inl, inr,
}

-- The `runtime_error`s of the command line, and the exit after the usage text.
pub data CommandError : Type 0 where
  invalid_percent not_positive no_resource bad_credentials no_port : CommandError
  no_value is_required unknown_option : Text → CommandError
  usage_exit : CommandError

-- `none` stands for -1.
unfoldable pub hex_digit : ℕ → Option ℕ
hex_digit c =
    if leb b'0' c && leb c b'9'
    then some (c - b'0')
    else if leb b'a' c && leb c b'f'
    then some (c - b'a' + 10)
    else if leb b'A' c && leb c b'F'
    then some (c - b'A' + 10)
    else none

-- `(high << 4) | low`: the low digit is below 16.
unfoldable pub escaped_byte : ℕ → ℕ → Option ℕ
unfolding hex_digit
escaped_byte h l = elim (hex_digit h) [
  | none ↦ none
  | some high ↦ elim (hex_digit l) [ none ↦ none | some low ↦ some (high * 16 + low) ]
]

abbrev prepend : ℕ → Result CommandError Text → Result CommandError Text
prepend c (ok t) = ok (c ∷ t)
prepend c (err e) = err e

-- A `%` wants two more characters (`i + 2 < value.size()`).
unfoldable pub decode_percent : Text → Result CommandError Text
unfolding escaped_byte
decode_percent [] = ok []
decode_percent (c ∷ []) = if c == b'%' then err invalid_percent else ok (c ∷ [])
decode_percent (c ∷ h ∷ []) =
    let rest = decode_percent (h ∷ []) in if c == b'%' then err invalid_percent else prepend c rest
decode_percent (c ∷ h ∷ l ∷ t) =
    let rest = decode_percent (h ∷ l ∷ t) in
    let after = decode_percent t in
    if c == b'%'
    then elim (escaped_byte h l) [ none ↦ err invalid_percent | some b ↦ prepend b after ]
    else prepend c rest

-- `c` is the hex digit of value `d`: one of 0-9, a-f and A-F.
abbrev pub IsHexDigit : ℕ → ℕ → Type 0
IsHexDigit c d =
    ((d < 10) × (c ≡ 48 + d))
    ⊎ (((10 ≤ d) × (d < 16) × (c ≡ 87 + d)) ⊎ ((10 ≤ d) × (d < 16) × (c ≡ 55 + d)))

hex_digit-IsHexDigit : (c d : ℕ) → IsHexDigit c d → hex_digit c ≡ some d
unfolding hex_digit
hex_digit-IsHexDigit c d (inl (l, e)) = ground arith
hex_digit-IsHexDigit c d (inr (inl (k, l, e))) = ground arith
hex_digit-IsHexDigit c d (inr (inr (k, l, e))) = ground arith

IsHexDigit-hex_digit : (c d : ℕ) → hex_digit c ≡ some d → IsHexDigit c d
unfolding hex_digit
IsHexDigit-hex_digit c d e = ground arith

-- The texts that encode a text: every byte but `%` may stand for itself, and any byte may be
-- written as `%` and two hex digits of either case.
pub data Encodes : Text → Text → Type 0 where
  nothing : Encodes [] []
  plain : (c : ℕ) {s t : Text} → c ≢ b'%' → Encodes s t → Encodes (c ∷ s) (c ∷ t)
  escaped :
      (h l high low : ℕ) {s t : Text}
      → IsHexDigit h high
      → IsHexDigit l low
      → Encodes s t
      → Encodes (b'%' ∷ h ∷ l ∷ s) ((high * 16 + low) ∷ t)

-- A plain byte is passed through, whatever follows it.
decode-plain : (c : ℕ) (s : Text) → c ≢ b'%' → decode_percent (c ∷ s) ≡ prepend c (decode_percent s)
unfolding decode_percent
decode-plain c [] h = ground arith
decode-plain c (a ∷ []) h = ground arith
decode-plain c (a ∷ b ∷ s) h = ground arith

decode-escaped :
    (h l high low : ℕ) (s : Text)
    → hex_digit h ≡ some high
    → hex_digit l ≡ some low
    → decode_percent (b'%' ∷ h ∷ l ∷ s) ≡ prepend (high * 16 + low) (decode_percent s)
unfolding decode_percent
decode-escaped h l high low s p q = rw (p, q)

-- Every encoding of a text is decoded to that text.
pub decode_percent-Encodes : {s t : Text} → Encodes s t → decode_percent s ≡ ok t
unfolding decode_percent
decode_percent-Encodes nothing = refl
decode_percent-Encodes (plain c {s = s} h e) =
    decode-plain c s h ∙ ap (prepend c) (decode_percent-Encodes e)
decode_percent-Encodes (escaped h l high low {s = s} p q e) =
    decode-escaped h l high low s (hex_digit-IsHexDigit h high p) (hex_digit-IsHexDigit l low q)
    ∙ ap (prepend (high * 16 + low)) (decode_percent-Encodes e)

prepend-ok :
    (c : ℕ) (r : Result CommandError Text) {t : Text}
    → prepend c r ≡ ok t
    → (u : Text) × (r ≡ ok u) × (c ∷ u ≡ t)
prepend-ok c (ok u) e = (u, refl, cc)
prepend-ok c (err x) e = cc

plain-Encodes :
    (c : ℕ) (s t : Text)
    → c ≢ b'%'
    → ((u : Text) → decode_percent s ≡ ok u → Encodes s u)
    → decode_percent (c ∷ s) ≡ ok t
    → Encodes (c ∷ s) t
plain-Encodes c s t h each e =
    let (u, decoded, whole) = prepend-ok c (decode_percent s) (sym (decode-plain c s h) ∙ e) in
    subst (Encodes (c ∷ s)) whole (plain c h (each u decoded))

escaped-Encodes :
    (h l : ℕ) (s t : Text)
    → ((u : Text) → decode_percent s ≡ ok u → Encodes s u)
    → decode_percent (b'%' ∷ h ∷ l ∷ s) ≡ ok t
    → Encodes (b'%' ∷ h ∷ l ∷ s) t
unfolding decode_percent
escaped-Encodes h l s t each e = elim (Option-cases (hex_digit h)) [
  | inl bad ↦ absurd (grind arith)
  | inr (high, p) ↦ elim (Option-cases (hex_digit l)) [
    | inl bad ↦ absurd (grind arith)
    | inr (low, q) ↦
        let (u, decoded, whole) =
          prepend-ok (high * 16 + low) (decode_percent s)
            (sym (decode-escaped h l high low s p q) ∙ e) in
        subst (Encodes (b'%' ∷ h ∷ l ∷ s)) whole (
          escaped h l high low (IsHexDigit-hex_digit h high p) (IsHexDigit-hex_digit l low q)
            (each u decoded))
  ]
]

-- What is decoded is an encoding of the result: nothing else than an encoding is accepted.
pub Encodes-decode_percent : (s t : Text) → decode_percent s ≡ ok t → Encodes s t
unfolding decode_percent
Encodes-decode_percent [] t e = subst (Encodes []) (cc) nothing
Encodes-decode_percent (c ∷ []) t e = elim (ℕ_discrete c b'%') [
  | yes p ↦ absurd (ground arith)
  | no p ↦ plain-Encodes c [] t p (λ u d. Encodes-decode_percent [] u d) e
]
Encodes-decode_percent (c ∷ h ∷ []) t e = elim (ℕ_discrete c b'%') [
  | yes p ↦ absurd (ground arith)
  | no p ↦ plain-Encodes c (h ∷ []) t p (λ u d. Encodes-decode_percent (h ∷ []) u d) e
]
Encodes-decode_percent (c ∷ h ∷ l ∷ s) t e = elim (ℕ_discrete c b'%') [
  | yes p ↦
      subst (λ b. Encodes (b ∷ h ∷ l ∷ s) t) (sym p)
        (escaped-Encodes h l s t (λ u d. Encodes-decode_percent s u d)
          (subst (λ b. decode_percent (b ∷ h ∷ l ∷ s) ≡ ok t) p e))
  | no p ↦ plain-Encodes c (h ∷ l ∷ s) t p (λ u d. Encodes-decode_percent (h ∷ l ∷ s) u d) e
]
