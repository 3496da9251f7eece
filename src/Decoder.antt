-- ===== src/Decoder.antt =====
-- AmqpValueDecoder.cpp: AMQP metadata values as PHP-independent data.
-- Handles are released by `unique_ptr` in scope order; that is not modelled.
pub mod Data
pub mod Uuid
pub mod Step
pub mod Fits
pub mod Nesting
pub mod Containers
pub mod Exact
mod Tests
use azure_uamqp_php.Prelude.{
  ℕ, zero, suc, ◌+◌, ◌-◌, ◌^◌, Bool, true, false, Option, none, some, List, [], ◌∷◌, Text, take,
  ltb, if◌then◌else◌, Result, ok, err, ◌>>=◌, or_throw,
}
use azure_uamqp_php.Prelude.Int.{ℤ, pos}
use azure_uamqp_php.Prelude.Decimal.{decimal, decimal_ℤ}
use azure_uamqp_php.AmqpValue.{AmqpType, AmqpBinary, AmqpApi}
use Data.{Decoded, Entries, Items, insert}
use Uuid.{uuid_text}

-- The messages of the `runtime_error`s that are thrown.
pub data DecodeError : Type 0 where
  could_not_decode nesting_exceeds no_bytes no_described_value bad_map_key : DecodeError
  no_list_item unsupported_type : DecodeError

abbrev pub Decoding : Type 0 → Type 0
Decoding D = Result DecodeError (Decoded D)

-- The first integer that `int64_t` does not hold.
abbrev pub int64_limit : ℕ
int64_limit = 2 ^ 63

abbrev pub check_decode {ℓ} : {A : Type ℓ} → Option A → Result DecodeError A
check_decode = or_throw could_not_decode

-- The name under which a decoded map key is stored.
unfoldable pub key_name : {D : Type 0} → Decoded D → Result DecodeError Text
unfolding decimal_ℤ
key_name (Decoded.string text) = ok text
key_name (Decoded.integer z) = ok (decimal_ℤ z)
key_name _ = err bad_map_key

unfoldable pub decode_ulong : {D : Type 0} → ℕ → Decoded D
unfolding decimal
decode_ulong n =
    if ltb (int64_limit - 1) n then Decoded.string (decimal n) else Decoded.integer (pos n)

unfoldable pub decode_text : {D : Type 0} → Option Text → Decoded D
decode_text none = Decoded.string []
decode_text (some text) = Decoded.string text

-- `assign` copies `size` bytes from the pointer.
unfoldable pub decode_binary : {D : Type 0} → AmqpBinary → Decoding D
decode_binary b =
    if ltb 0 b.size
    then elim b.bytes [ none ↦ err no_bytes | some bytes ↦ ok (Decoded.string (take b.size bytes)) ]
    else ok (Decoded.string [])

module _ (api : AmqpApi) where
  abbrev D : Type 0
  D = api.Double

  -- `static_cast<int64_t>` keeps the value of every type that it is used at.
  unfoldable pub decode_integer : {T : Type 0} → (T → ℤ) → Option T → Decoding D
  decode_integer cast got = do n ← check_decode got; ok (Decoded.integer (cast n))

  -- The recursive calls are made through `decode`, at the next depth.
  module _ (decode : Option api.Value → Decoding D) where
    unfoldable pub decode_pairs : api.Value → ℕ → ℕ → Entries D → Result DecodeError (Entries D)
    unfolding key_name insert
    decode_pairs v index zero m = ok m
    decode_pairs v index (suc left) m = do
      (key, item) ← check_decode (api.reads.get_map_key_value_pair v index)
      decoded_key ← decode key
      name ← key_name decoded_key
      decoded_item ← decode item
      decode_pairs v (index + 1) left (insert name decoded_item m)

    unfoldable pub decode_items : (ℕ → Option api.Value) → ℕ → ℕ → Result DecodeError (Items D)
    decode_items item index zero = ok Items.nil
    decode_items item index (suc left) = do
      handle ← or_throw no_list_item (item index)
      decoded ← decode (some handle)
      rest ← decode_items item (index + 1) left
      ok (Items.cons decoded rest)

    unfoldable pub decode_map : api.Value → Decoding D
    unfolding decode_pairs
    decode_map v = do
      count ← check_decode (api.reads.get_map_pair_count v)
      m ← decode_pairs v 0 count Entries.end
      ok (Decoded.map m)

    unfoldable pub decode_sequence : Option ℕ → (ℕ → Option api.Value) → Decoding D
    unfolding decode_items
    decode_sequence counted item = do
      count ← check_decode counted
      items ← decode_items item 0 count
      ok (Decoded.list items)

    unfoldable pub decode_described : api.Value → Decoding D
    decode_described v = elim (api.reads.get_inplace_described_value v) [
      | none ↦ err no_described_value
      | some inner ↦ decode (some inner)
    ]

    unfoldable pub decode_typed : api.Value → AmqpType → Decoding D
    unfolding decode_integer decode_ulong decode_text decode_binary uuid_text decode_described
        decode_map decode_sequence
    decode_typed v AmqpType.null = ok Decoded.null
    decode_typed v AmqpType.boolean = do
      b ← check_decode (api.reads.get_boolean v)
      ok (Decoded.boolean b)
    decode_typed v AmqpType.byte = decode_integer (λ z. z) (api.reads.get_byte v)
    decode_typed v AmqpType.ubyte = decode_integer pos (api.reads.get_ubyte v)
    decode_typed v AmqpType.short = decode_integer (λ z. z) (api.reads.get_short v)
    decode_typed v AmqpType.ushort = decode_integer pos (api.reads.get_ushort v)
    decode_typed v AmqpType.int = decode_integer (λ z. z) (api.reads.get_int v)
    decode_typed v AmqpType.uint = decode_integer pos (api.reads.get_uint v)
    decode_typed v AmqpType.long = decode_integer (λ z. z) (api.reads.get_long v)
    decode_typed v AmqpType.char = decode_integer pos (api.reads.get_char v)
    decode_typed v AmqpType.timestamp = decode_integer (λ z. z) (api.reads.get_timestamp v)
    decode_typed v AmqpType.ulong = do n ← check_decode (api.reads.get_ulong v); ok (decode_ulong n)
    decode_typed v AmqpType.float = do
      number ← check_decode (api.reads.get_float v)
      ok (Decoded.double (api.float_to_double number))
    decode_typed v AmqpType.double = do
      number ← check_decode (api.reads.get_double v)
      ok (Decoded.double number)
    decode_typed v AmqpType.string = do
      text ← check_decode (api.reads.get_string v)
      ok (decode_text text)
    decode_typed v AmqpType.symbol = do
      text ← check_decode (api.reads.get_symbol v)
      ok (decode_text text)
    decode_typed v AmqpType.binary = do b ← check_decode (api.reads.get_binary v); decode_binary b
    decode_typed v AmqpType.uuid = do
      bytes ← check_decode (api.reads.get_uuid v)
      ok (Decoded.string (uuid_text bytes))
    decode_typed v AmqpType.described = decode_described v
    decode_typed v AmqpType.map = decode_map v
    decode_typed v AmqpType.list =
        decode_sequence (api.reads.get_list_item_count v) (api.reads.get_list_item v)
    decode_typed v AmqpType.array =
        decode_sequence (api.reads.get_array_item_count v) (api.reads.get_array_item v)
    decode_typed v AmqpType.other = err unsupported_type

  -- With `levels` nesting levels left, this one included.
  unfoldable pub decode_levels : ℕ → Option api.Value → Decoding D
  unfolding decode_typed
  decode_levels zero value = err nesting_exceeds
  decode_levels (suc n) none = ok Decoded.null
  decode_levels (suc n) (some v) = decode_typed (decode_levels n) v (api.reads.get_type v)

  -- `depth > 32` throws: at depth 0 there are 33 levels.
  unfoldable pub decode_amqp_value : Option api.Value → ℕ → Decoding D
  unfolding decode_levels
  decode_amqp_value value depth = decode_levels (33 - depth) value
