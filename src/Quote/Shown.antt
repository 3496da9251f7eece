-- ===== src/Quote/Shown.antt =====
-- Connection.cpp, `quote`: what a JSON reader shows of a value that is not well-formed UTF-8. The
-- code writes a byte that belongs to no character as the escape of the code point of its value.
use azure_uamqp_php.Prelude.{
  ℕ, zero, suc, ◌+◌, ◌-◌, ◌/◌, ◌%◌, ◌≤◌, ◌<◌, ◌≡◌, refl, ap, Bool, true, false, ◌&&◌, Option, none,
  some, [], ◌∷◌, ◌++◌, Text, length, ltb, leb, if◌then◌else◌, arith, All,
}
use azure_uamqp_php.Quote.{sequence_length, second_ok, continues, is_valid}
use azure_uamqp_php.Quote.Utf8.{table, Utf8After, IsUtf8}

-- The `n` bytes that are due are there, the first of them between `lo` and `hi`.
abbrev pub due : ℕ → ℕ → ℕ → Text → Bool
due zero lo hi t = true
due (suc n) lo hi [] = false
due (suc n) lo hi (b ∷ t) = (leb lo b && leb b hi) && due n 0x80 0xbf t

abbrev pub if_due : Option (ℕ × ℕ × ℕ) → Text → Option ℕ
if_due none t = none
if_due (some (n, lo, hi)) t = if due n lo hi t then some n else none

-- How many bytes of `t` belong to the character that starts with `c`, if there is one.
abbrev pub character : ℕ → Text → Option ℕ
character c t = if_due (table c) t

-- UTF-8 of a code point below U+10000.
unfoldable pub utf8 : ℕ → Text
utf8 u =
    if ltb u 0x80
    then u ∷ []
    else if ltb u 0x800
    then (0xc0 + u / 64) ∷ (0x80 + u % 64) ∷ []
    else (0xe0 + u / 4096) ∷ (0x80 + u / 64 % 64) ∷ (0x80 + u % 64) ∷ []

abbrev pub shown_as : ℕ → Option ℕ → Text × ℕ
shown_as c none = (utf8 c, 0)
shown_as c (some n) = (c ∷ [], n)

-- A byte that starts no character is shown as the code point of its value; characters are kept.
unfoldable pub shown_from : ℕ → Text → Text
shown_from n [] = []
shown_from (suc n) (c ∷ t) = c ∷ shown_from n t
shown_from zero (c ∷ t) = let (w, n) = shown_as c (character c t) in w ++ shown_from n t

unfoldable pub shown : Text → Text
shown = shown_from 0

later_due :
    (c offset left : ℕ) (t : Text)
    → 1 < offset
    → (leb left (length t) && continues c offset left t) ≡ due left 0x80 0xbf t
unfolding continues
later_due c offset zero t h = ground arith
later_due c offset (suc left) [] h = ground arith
later_due c offset (suc left) (b ∷ t) h = ground (arith, later_due c (offset + 1) left t)

-- The code finds a character exactly where the table of Unicode has one.
pub is_valid-character :
    (c : ℕ) (t : Text)
    → 0x80 ≤ c
    → (if is_valid c t then some (sequence_length c - 1) else none) ≡ character c t
unfolding is_valid continues second_ok sequence_length table
is_valid-character c [] h = ground arith
is_valid-character c (b ∷ t) h =
    ground (arith, later_due c 2 0 t, later_due c 2 1 t, later_due c 2 2 t)

pub character_ascii : (c : ℕ) (t : Text) → c < 0x80 → character c t ≡ some 0
unfolding table
character_ascii c t h = ground arith

due-Utf8After : (n lo hi : ℕ) (t : Text) → Utf8After n lo hi t → due n lo hi t ≡ true
due-Utf8After zero lo hi t u = refl
due-Utf8After (suc n) lo hi [] u = elim u [ ]
due-Utf8After (suc n) lo hi (b ∷ t) u = ground (arith, u, due-Utf8After n 0x80 0xbf t u.2)

shown_from-Utf8 : (n lo hi : ℕ) (t : Text) → Utf8After n lo hi t → shown_from n t ≡ t
unfolding shown_from
shown_from-Utf8 zero lo hi [] u = refl
shown_from-Utf8 (suc n) lo hi [] u = refl
shown_from-Utf8 (suc n) lo hi (b ∷ t) u = ap (λ r. b ∷ r) (shown_from-Utf8 n 0x80 0xbf t u.2)
shown_from-Utf8 zero lo hi (c ∷ t) u = go (table c) u (λ n l h v. shown_from-Utf8 n l h t v)
  where
    go :
        (entry : Option (ℕ × ℕ × ℕ))
        → (elim entry as (λ _. Type 0) [ none ↦ ⊥ | some (n, l, h) ↦ Utf8After n l h t ])
        → ((n l h : ℕ) → Utf8After n l h t → shown_from n t ≡ t)
        → (let (w, n) = shown_as c (if_due entry t) in w ++ shown_from n t) ≡ c ∷ t
    go none v each = elim v [ ]
    go (some (n, l, h)) v each = rw (due-Utf8After n l h t v) (ap (λ r. c ∷ r) (each n l h v))

-- Well-formed UTF-8 is shown as it is.
pub shown_utf8 : (t : Text) → IsUtf8 t → shown t ≡ t
unfolding shown
shown_utf8 t u = shown_from-Utf8 0 0x80 0xbf t u

shown_from_ascii : (t : Text) → All (λ c. c < 0x80) t → shown_from 0 t ≡ t
unfolding shown_from
shown_from_ascii [] h = refl
shown_from_ascii (c ∷ t) h = rw (character_ascii c t h.0) (ap (λ r. c ∷ r) (shown_from_ascii t h.1))

pub shown_ascii : (t : Text) → All (λ c. c < 0x80) t → shown t ≡ t
unfolding shown
shown_ascii t h = shown_from_ascii t h
