-- ===== src/Quote/Lossless.antt =====
-- Connection.cpp, `quote`: reading a quoted string back with a JSON string reader.
use azure_uamqp_php.Prelude.{
  ℕ, zero, suc, ◌+◌, ◌-◌, ◌*◌, ◌/◌, ◌%◌, ◌≤◌, ◌<◌, ◌≡◌, refl, Bool, true, ◌&&◌, ◌||◌, Option, none,
  some, [], ◌∷◌, ◌++◌, Text, ltb, leb, ◌==◌, if◌then◌else◌, arith, All, ap, ◌∙◌, ◌≢◌, sym,
  Bool-cases, inl, inr,
}
use mathlib.Core.List.{append_assoc}
use azure_uamqp_php.Decoder.Uuid.{hex_digit, hex_byte}
use azure_uamqp_php.Quote.Utf8.{IsUtf8}
use azure_uamqp_php.Quote.Shown.{
  utf8, character, character_ascii, shown_as, shown_from, shown, shown_utf8, is_valid-character,
}
use azure_uamqp_php.Quote.{
  sequence_length, continues, is_valid, unicode_escape, quote_step, quote_from, quote,
}

-- Where the reader stands inside a JSON string (RFC 8259, section 7).
pub data Mode : Type 0 where
  plain escape : Mode
  unicode : ℕ → ℕ → Mode

-- What a byte makes it do.
pub data Move : Type 0 where
  fail finish : Move
  go : Mode → Move
  emit : Text → Move

abbrev is_hex : ℕ → Bool
is_hex c = (leb b'0' c && leb c b'9') || ((leb b'a' c && leb c b'f') || (leb b'A' c && leb c b'F'))

abbrev hex_number : ℕ → ℕ
hex_number c = if ltb c b'A' then c - b'0' else if ltb c b'a' then c - b'A' + 10 else c - b'a' + 10

-- What an escaped code point stands for. Half of a surrogate pair is refused, and so are pairs.
abbrev code_point : ℕ → Move
code_point u = if leb 0xd800 u && leb u 0xdfff then Move.fail else Move.emit (utf8 u)

pub move : Mode → ℕ → Move
move Mode.plain c =
    if c == b'"'
    then Move.finish
    else if c == b'\\'
    then Move.go Mode.escape
    else if ltb c 0x20
    then Move.fail
    else Move.emit (c ∷ [])
move Mode.escape c =
    if c == b'"' || c == b'\\' || c == b'/'
    then Move.emit (c ∷ [])
    else if c == b'b'
    then Move.emit (8 ∷ [])
    else if c == b'f'
    then Move.emit (12 ∷ [])
    else if c == b'n'
    then Move.emit (10 ∷ [])
    else if c == b'r'
    then Move.emit (13 ∷ [])
    else if c == b't'
    then Move.emit (9 ∷ [])
    else if c == b'u'
    then Move.go (Mode.unicode 3 0)
    else Move.fail
move (Mode.unicode zero acc) c =
    if is_hex c then code_point (acc * 16 + hex_number c) else Move.fail
move (Mode.unicode (suc left) acc) c =
    if is_hex c then Move.go (Mode.unicode left (acc * 16 + hex_number c)) else Move.fail

abbrev prepend : Text → Option (Text × Text) → Option (Text × Text)
prepend w none = none
prepend w (some (t, rest)) = some (w ++ t, rest)

-- The string that is read up to the closing quotation mark, and what follows that.
pub read_string : Mode → Text → Option (Text × Text)
read_string mode [] = none
read_string mode (c ∷ t) = elim (move mode c) [
  | Move.fail ↦ none
  | Move.finish ↦ some ([], t)
  | Move.go mode' ↦ read_string mode' t
  | Move.emit u ↦ prepend u (read_string Mode.plain t)
]

-- The first `n` bytes are there and are continuation bytes.
abbrev pub Continuing : ℕ → Text → Type 0
Continuing zero t = Unit {0}
Continuing (suc n) [] = ⊥
Continuing (suc n) (b ∷ t) = (0x80 ≤ b) × Continuing n t

continues-Continuing :
    (c offset left : ℕ) (bytes : Text)
    → continues c offset left bytes ≡ true
    → Continuing left bytes
unfolding continues
continues-Continuing c offset zero bytes h = tt
continues-Continuing c offset (suc left) [] h = ground arith
continues-Continuing c offset (suc left) (b ∷ bytes) h =
    ground (arith, continues-Continuing c (offset + 1) left bytes)

is_hex-hex_digit : (n : ℕ) → n < 16 → is_hex (hex_digit n) ≡ true
unfolding hex_digit
is_hex-hex_digit n h = ground arith

hex_number-hex_digit : (n : ℕ) → n < 16 → hex_number (hex_digit n) ≡ n
unfolding hex_digit
hex_number-hex_digit n h = ground arith

read_escape :
    (c : ℕ) (t : Text)
    → c < 256
    → read_string Mode.plain (unicode_escape c ++ t) ≡ prepend (utf8 c) (read_string Mode.plain t)
unfolding read_string move unicode_escape hex_byte
read_escape c t h = ground (
  arith,
  is_hex-hex_digit (c / 16),
  is_hex-hex_digit (c % 16),
  hex_number-hex_digit (c / 16),
  hex_number-hex_digit (c % 16),
)

-- What `quote_step` hands on is a number of continuation bytes.
pub is_valid-Continuing :
    (c : ℕ) (t : Text) → is_valid c t ≡ true → Continuing (sequence_length c - 1) t
unfolding is_valid
is_valid-Continuing c t h = ground (arith, continues-Continuing c 1 (sequence_length c - 1) t)

read_plain :
    (c : ℕ) (t : Text)
    → 0x20 ≤ c
    → c ≢ b'"'
    → c ≢ b'\\'
    → read_string Mode.plain (c ∷ t) ≡ prepend (c ∷ []) (read_string Mode.plain t)
unfolding read_string move
read_plain c t h p q = ground arith

read_quote_mark :
    (t : Text)
    → read_string Mode.plain (b'\\' ∷ b'"' ∷ t) ≡ prepend (b'"' ∷ []) (read_string Mode.plain t)
unfolding read_string move
read_quote_mark t = refl

read_backslash :
    (t : Text)
    → read_string Mode.plain (b'\\' ∷ b'\\' ∷ t) ≡ prepend (b'\\' ∷ []) (read_string Mode.plain t)
unfolding read_string move
read_backslash t = refl

read_ascii :
    (c : ℕ) (t more : Text)
    → c < 0x80
    → let (written, verbatim) = quote_step c t in
      (read_string Mode.plain (written ++ more) ≡ prepend (c ∷ []) (read_string Mode.plain more))
      × (verbatim ≡ 0)
      × Continuing verbatim t
unfolding quote_step utf8
read_ascii c t more h =
    ground (arith, read_escape c more, read_plain c more, read_quote_mark more, read_backslash more)

read_other :
    (c : ℕ) (t more : Text)
    → 0x80 ≤ c
    → c < 256
    → let (written, verbatim) = quote_step c t in
      let (seen, later) =
        shown_as c (if is_valid c t then some (sequence_length c - 1) else none) in
      (read_string Mode.plain (written ++ more) ≡ prepend seen (read_string Mode.plain more))
      × (verbatim ≡ later)
      × Continuing verbatim t
unfolding quote_step
read_other c t more l h =
    ground (arith, read_escape c more, read_plain c more, is_valid-Continuing c t)

-- What is written for a byte is read as what is shown of it, and as many bytes follow as they are.
read_step :
    (c : ℕ) (t more : Text)
    → c < 256
    → let (written, verbatim) = quote_step c t in
      let (seen, later) = shown_as c (character c t) in
      (read_string Mode.plain (written ++ more) ≡ prepend seen (read_string Mode.plain more))
      × (verbatim ≡ later)
      × Continuing verbatim t
unfolding quote_step
read_step c t more h = elim (Bool-cases (ltb c 0x80)) [
  | inl ascii ↦ rw (character_ascii c t (ground arith)) (read_ascii c t more (ground arith))
  | inr other ↦
      rw (sym (is_valid-character c t (ground arith))) (read_other c t more (ground arith) h)
]

-- The loop's output, up to a closing quotation mark, is read back.
read_quoted :
    (n : ℕ) (t rest : Text)
    → All (λ c. c < 256) t
    → Continuing n t
    → read_string Mode.plain (quote_from n t ++ b'"' ∷ rest) ≡ some (shown_from n t, rest)
unfolding quote_from read_string move shown_from
read_quoted zero [] rest h k = refl
read_quoted (suc n) [] rest h k = elim k [ ]
read_quoted (suc n) (c ∷ t) rest h k =
    read_plain c (quote_from n t ++ b'"' ∷ rest) (omega arith) (omega arith) (omega arith)
    ∙ ap (prepend (c ∷ [])) (read_quoted n t rest h.1 k.1)
read_quoted zero (c ∷ t) rest h k =
    let (written, verbatim) = quote_step c t in
    let (seen, later) = shown_as c (character c t) in
    let more = quote_from verbatim t ++ b'"' ∷ rest in
    let (step, same, continuing) = read_step c t more h.0 in
    rw (append_assoc written (quote_from verbatim t) (b'"' ∷ rest)) step
    ∙ ap (prepend seen) (read_quoted verbatim t rest h.1 continuing)
    ∙ ap (λ n. some (seen ++ shown_from n t, rest)) same

-- The body of a JSON string.
abbrev pub read_quoted_text : Text → Option (Text × Text)
read_quoted_text [] = none
read_quoted_text (c ∷ t) = if c == b'"' then read_string Mode.plain t else none

-- Whatever bytes a value holds, its quoted form is read as a JSON string, which ends where the form
-- ends: its characters are kept, and a byte that belongs to none is shown as the code point of its
-- value.
pub read_quoted_text-quote :
    (text rest : Text)
    → All (λ c. c < 256) text
    → read_quoted_text (quote text ++ rest) ≡ some (shown text, rest)
unfolding quote shown
read_quoted_text-quote text rest h =
    rw (append_assoc (quote_from 0 text) (b'"' ∷ []) rest) (read_quoted 0 text rest h tt)

-- For a value of bytes that is well-formed UTF-8: reading its quoted form as a JSON string gives the
-- value, byte for byte, and leaves what follows.
pub read-quote :
    (text rest : Text)
    → All (λ c. c < 256) text
    → IsUtf8 text
    → read_quoted_text (quote text ++ rest) ≡ some (text, rest)
read-quote text rest h u =
    read_quoted_text-quote text rest h ∙ ap (λ t. some (t, rest)) (shown_utf8 text u)
