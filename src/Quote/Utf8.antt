-- ===== src/Quote/Utf8.antt =====
-- Connection.cpp, `quote`: well-formed UTF-8 (Unicode, table 3-7), and that quoted strings are.
use mathlib.Core.List.{append_assoc}
use azure_uamqp_php.Prelude.{
  ℕ, zero, suc, ◌+◌, ◌-◌, ◌≤◌, ◌<◌, ◌≡◌, ◌≢◌, refl, true, false, ◌&&◌, Option, none, some, [], ◌∷◌,
  ◌++◌, Text, ltb, leb, ◌==◌, if◌then◌else◌, arith, All, Bool-cases, inl, inr, subst, sym,
}
use azure_uamqp_php.Decoder.Uuid.{hex_digit, hex_byte}
use azure_uamqp_php.Quote.{
  sequence_length, is_continuation, second_ok, continues, is_valid, unicode_escape, quote_step,
  quote_from, quote,
}

-- For a first byte: how many bytes follow, and the range of the second.
unfoldable pub table : ℕ → Option (ℕ × ℕ × ℕ)
table c =
    if ltb c 0x80
    then some (0, 0x80, 0xbf)
    else if ltb c 0xc2
    then none
    else if leb c 0xdf
    then some (1, 0x80, 0xbf)
    else if c == 0xe0
    then some (2, 0xa0, 0xbf)
    else if c == 0xed
    then some (2, 0x80, 0x9f)
    else if leb c 0xef
    then some (2, 0x80, 0xbf)
    else if c == 0xf0
    then some (3, 0x90, 0xbf)
    else if leb c 0xf3
    then some (3, 0x80, 0xbf)
    else if c == 0xf4
    then some (3, 0x80, 0x8f)
    else none

-- `n` bytes are still due, the first of them between `lo` and `hi`; then come whole characters.
abbrev pub Utf8After : ℕ → ℕ → ℕ → Text → Type 0
Utf8After zero lo hi [] = Unit {0}
Utf8After zero lo hi (c ∷ t) = elim (table c) [ none ↦ ⊥ | some (n, l, h) ↦ Utf8After n l h t ]
Utf8After (suc n) lo hi [] = ⊥
Utf8After (suc n) lo hi (b ∷ t) = (lo ≤ b) × (b ≤ hi) × Utf8After n 0x80 0xbf t

abbrev pub IsUtf8 : Text → Type 0
IsUtf8 t = Utf8After 0 0x80 0xbf t

-- The text begins with the `n` bytes that are due.
abbrev Starts : ℕ → ℕ → ℕ → Text → Type 0
Starts zero lo hi t = Unit {0}
Starts (suc n) lo hi [] = ⊥
Starts (suc n) lo hi (b ∷ t) = (lo ≤ b) × (b ≤ hi) × Starts n 0x80 0xbf t

-- The text begins with what an entry of the table asks for, in `size` bytes altogether.
abbrev StartsAs : ℕ → Option (ℕ × ℕ × ℕ) → Text → Type 0
StartsAs size none t = ⊥
StartsAs size (some (n, lo, hi)) t = (suc n ≡ size) × Starts n lo hi t

later-Starts :
    (c offset left : ℕ) (t : Text)
    → 1 < offset
    → continues c offset left t ≡ true
    → Starts left 0x80 0xbf t
unfolding continues
later-Starts c offset zero t p h = tt
later-Starts c offset (suc left) [] p h = ground arith
later-Starts c offset (suc left) (b ∷ t) p h = ground (arith, later-Starts c (offset + 1) left t)

abbrev SecondFits : ℕ → Option (ℕ × ℕ × ℕ) → ℕ → Type 0
SecondFits size none b = ⊥
SecondFits size (some (n, lo, hi)) b = (suc n ≡ size) × (lo ≤ b) × (b ≤ hi)

second_ok-SecondFits :
    (c b : ℕ)
    → second_ok c b ≡ true
    → is_continuation b ≡ true
    → sequence_length c ≢ 0
    → SecondFits (sequence_length c) (table c) b
unfolding second_ok sequence_length table
second_ok-SecondFits c b h k q = ground arith

StartsAs-second :
    (size : ℕ) (entry : Option (ℕ × ℕ × ℕ)) (b : ℕ) (t : Text)
    → SecondFits (suc (suc size)) entry b
    → Starts size 0x80 0xbf t
    → StartsAs (suc (suc size)) entry (b ∷ t)
StartsAs-second size none b t f s = f
StartsAs-second size (some (zero, lo, hi)) b t f s = absurd (omega arith)
StartsAs-second size (some (suc n, lo, hi)) b t f s =
    (f.0, (f.1, f.2, subst (λ m. Starts m 0x80 0xbf t) (omega arith) s))

-- A sequence of a single byte does not exist.
sequence_length_ne_one : (c : ℕ) → sequence_length c ≢ 1
unfolding sequence_length
sequence_length_ne_one c e = ground arith

sized-StartsAs :
    (c size : ℕ) (t : Text)
    → sequence_length c ≡ size
    → is_valid c t ≡ true
    → StartsAs size (table c) t
unfolding is_valid continues
sized-StartsAs c zero t e h = ground arith
sized-StartsAs c (suc zero) t e h = absurd (sequence_length_ne_one c e)
sized-StartsAs c (suc (suc size)) [] e h = ground arith
sized-StartsAs c (suc (suc size)) (b ∷ t) e h =
    StartsAs-second size (table c) b t
      (rw e at (second_ok-SecondFits c b (ground arith) (ground arith) (ground arith)))
      (later-Starts c 2 size t (omega arith) (ground arith))

abbrev IsAscii : Text → Type 0
IsAscii = All λ b. b < 0x80

Utf8-ascii : (w q : Text) → IsAscii w → IsUtf8 q → IsUtf8 (w ++ q)
unfolding table
Utf8-ascii [] q h u = u
Utf8-ascii (b ∷ w) q h u = ground (arith, Utf8-ascii w q h.1 u)

unicode_escape-IsAscii : (c : ℕ) → c < 256 → IsAscii (unicode_escape c)
unfolding unicode_escape hex_byte hex_digit
unicode_escape-IsAscii c h = ground arith

step-IsAscii :
    (c : ℕ) (t : Text)
    → c < 256
    → (leb 0x80 c && is_valid c t) ≡ false
    → ((quote_step c t).1 ≡ 0) × IsAscii (quote_step c t).0
unfolding quote_step
step-IsAscii c t h v = ground (arith, unicode_escape-IsAscii c h)

step-sequence :
    (c : ℕ) (t : Text)
    → (leb 0x80 c && is_valid c t) ≡ true
    → quote_step c t ≡ (c ∷ [], sequence_length c - 1)
unfolding quote_step
step-sequence c t v = ground arith

module _ (q : Text) (t : Text) where
  -- What is left to show of the text after a lead byte.
  lead-Utf8 :
      (size : ℕ) (entry : Option (ℕ × ℕ × ℕ))
      → StartsAs size entry t
      → ((n lo hi : ℕ) → Starts n lo hi t → Utf8After n lo hi (quote_from n t ++ q))
      → elim entry as (λ _. Type 0) [
        | none ↦ ⊥
        | some (n, lo, hi) ↦ Utf8After n lo hi (quote_from (size - 1) t ++ q)
      ]
  lead-Utf8 size none s ih = s
  lead-Utf8 size (some (n, lo, hi)) s ih =
      subst (λ m. Utf8After n lo hi (quote_from m t ++ q)) (omega (arith, s.0)) (ih n lo hi s.1)

-- With no byte due the bounds do not matter.
bounds-Utf8 : (lo hi : ℕ) (t : Text) → IsUtf8 t → Utf8After 0 lo hi t
bounds-Utf8 lo hi [] u = tt
bounds-Utf8 lo hi (c ∷ t) u = u

quote_from-Utf8 :
    (n lo hi : ℕ) (t q : Text)
    → All (λ c. c < 256) t
    → Starts n lo hi t
    → IsUtf8 q
    → Utf8After n lo hi (quote_from n t ++ q)
unfolding quote_from
quote_from-Utf8 zero lo hi [] q h s u = bounds-Utf8 lo hi q u
quote_from-Utf8 (suc n) lo hi [] q h s u = elim s [ ]
quote_from-Utf8 (suc n) lo hi (b ∷ t) q h s u =
    (s.0, s.1, quote_from-Utf8 n 0x80 0xbf t q h.1 s.2 u)
quote_from-Utf8 zero lo hi (c ∷ t) q h s u = elim (Bool-cases (leb 0x80 c && is_valid c t)) [
  | inl v ↦ rw (step-sequence c t v) (
      lead-Utf8 q t (sequence_length c) (table c)
        (sized-StartsAs c (sequence_length c) t refl (ground arith))
        λ n l m r. quote_from-Utf8 n l m t q h.1 r u)
  | inr v ↦
      let (written, next) = quote_step c t in
      let (none_due, ascii) = step-IsAscii c t h.0 v in
      let rest =
        subst (λ m. IsUtf8 (quote_from m t ++ q)) (sym none_due)
          (quote_from-Utf8 0 0x80 0xbf t q h.1 tt u) in
      rw (append_assoc written (quote_from next t) q)
        (bounds-Utf8 lo hi _ (Utf8-ascii written _ ascii rest))
]

-- A quoted value is well-formed UTF-8, whatever bytes the value holds.
pub quote-IsUtf8 : (text : Text) → All (λ c. c < 256) text → IsUtf8 (quote text)
unfolding quote table
quote-IsUtf8 text h = quote_from-Utf8 0 0x80 0xbf text (b'"' ∷ []) h tt tt
