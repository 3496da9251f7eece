-- ===== src/Decoder/Uuid.antt =====
-- AmqpValueDecoder.cpp, `AMQP_TYPE_UUID`: sixteen bytes as text.
use azure_uamqp_php.Prelude.{
  ℕ, ◌+◌, ◌-◌, ◌*◌, ◌/◌, ◌%◌, ◌<◌, ◌≡◌, refl, false, List, [], ◌∷◌, ◌++◌, Text, ltb, ◌==◌, ◌||◌,
  if◌then◌else◌, arith, All,
}

-- A lower-case hex digit.
unfoldable pub hex_digit : ℕ → ℕ
hex_digit n = if ltb n 10 then b'0' + n else b'a' + (n - 10)

-- `std::hex`, `setfill('0')`, `setw(2)` of a byte.
unfoldable pub hex_byte : ℕ → Text
unfolding hex_digit
hex_byte n = hex_digit (n / 16) ∷ hex_digit (n % 16) ∷ []

unfoldable pub uuid_from : ℕ → List ℕ → Text
unfolding hex_byte
uuid_from index [] = []
uuid_from index (b ∷ bs) =
    (if index == 4 || index == 6 || index == 8 || index == 10 then b'-' ∷ [] else [])
    ++ (hex_byte b ++ uuid_from (index + 1) bs)

unfoldable pub uuid_text : List ℕ → Text
unfolding uuid_from
uuid_text bytes = uuid_from 0 bytes

-- The value of a hex digit.
abbrev pub hex_value : ℕ → ℕ
hex_value c = if ltb c b'a' then c - b'0' else c - b'a' + 10

-- Reading a UUID back: its hex digits in pairs, hyphens left out.
abbrev pub drop_hyphens : Text → Text
drop_hyphens [] = []
drop_hyphens (c ∷ t) = if c == b'-' then drop_hyphens t else c ∷ drop_hyphens t

abbrev pub hex_pairs : Text → List ℕ
hex_pairs [] = []
hex_pairs (a ∷ []) = []
hex_pairs (a ∷ b ∷ t) = (hex_value a * 16 + hex_value b) ∷ hex_pairs t

pub hex_value-hex_digit : (n : ℕ) → n < 16 → hex_value (hex_digit n) ≡ n
unfolding hex_digit
hex_value-hex_digit n h = ground arith

pub hex_digit_ne : (n : ℕ) → n < 16 → (hex_digit n == b'-') ≡ false
unfolding hex_digit
hex_digit_ne n h = ground arith

uuid_from_back :
    (index : ℕ) (bs : List ℕ)
    → All (λ b. b < 256) bs
    → hex_pairs (drop_hyphens (uuid_from index bs)) ≡ bs
unfolding uuid_from hex_byte
uuid_from_back index [] h = refl
uuid_from_back index (b ∷ bs) h = ground (
  arith,
  hex_value-hex_digit (b / 16),
  hex_value-hex_digit (b % 16),
  hex_digit_ne (b / 16),
  hex_digit_ne (b % 16),
  uuid_from_back (index + 1) bs,
)

-- Whatever the bytes are, reading back the hex digits of their UUID text gives the same bytes.
pub uuid_text_back :
    (bytes : List ℕ) → All (λ b. b < 256) bytes → hex_pairs (drop_hyphens (uuid_text bytes)) ≡ bytes
unfolding uuid_text
uuid_text_back bytes h = uuid_from_back 0 bytes h
