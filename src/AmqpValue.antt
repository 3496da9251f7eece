-- ===== src/AmqpValue.antt =====
-- What AmqpValueDecoder.cpp and AmqpValueBodyDecoder.cpp use of uAMQP's amqpvalue.h: a parameter.
-- A getter returns `none` where the C function returns a code other than 0.
use azure_uamqp_php.Prelude.{ℕ, Bool, ◌<◌, ◌^◌, ◌≡◌, Option, some, Text}
use azure_uamqp_php.Prelude.Int.{ℤ, IsInt64}

-- The cases of `AMQP_TYPE` that the decoder tells apart; `other` is what it does not support.
pub data AmqpType : Type 0 where
  null boolean byte ubyte short ushort int uint long char timestamp ulong : AmqpType
  float double string symbol binary uuid described map list array other : AmqpType

-- `amqp_binary`: a pointer, which may be NULL, and a length.
pub record AmqpBinary : Type 0 where
  pub bytes : Option Text
  pub size : ℕ

-- What can be read of values. A `Value` is a handle that is not NULL, and a text is `none` where the
-- char pointer is NULL.
pub record AmqpReads (Value Float Double : Type 0) : Type 0 where
  pub get_type : Value → AmqpType
  pub get_boolean : Value → Option Bool
  pub get_byte : Value → Option ℤ
  pub get_ubyte : Value → Option ℕ
  pub get_short : Value → Option ℤ
  pub get_ushort : Value → Option ℕ
  pub get_int : Value → Option ℤ
  pub get_uint : Value → Option ℕ
  pub get_long : Value → Option ℤ
  pub get_char : Value → Option ℕ
  pub get_timestamp : Value → Option ℤ
  pub get_ulong : Value → Option ℕ
  pub get_float : Value → Option Float
  pub get_double : Value → Option Double
  pub get_string : Value → Option (Option Text)
  pub get_symbol : Value → Option (Option Text)
  pub get_binary : Value → Option AmqpBinary
  pub get_uuid : Value → Option Text
  pub get_inplace_described_value : Value → Option Value
  pub get_map_pair_count : Value → Option ℕ
  pub get_map_key_value_pair : Value → ℕ → Option (Option Value × Option Value)
  pub get_list_item_count : Value → Option ℕ
  pub get_list_item : Value → ℕ → Option Value
  pub get_array_item_count : Value → Option ℕ
  pub get_array_item : Value → ℕ → Option Value
  pub to_string : Value → Option Text

pub record AmqpApi : Type 1 where
  pub Value : Type 0
  pub Float : Type 0
  pub Double : Type 0
  pub float_to_double : Float → Double
  pub reads : AmqpReads Value Float Double

-- The widths of the C types that the getters write to.
pub record HasWidths (api : AmqpApi) : Type 0 where
  pub byte_width : (v : api.Value) (z : ℤ) → api.reads.get_byte v ≡ some z → IsInt64 z
  pub ubyte_width : (v : api.Value) (n : ℕ) → api.reads.get_ubyte v ≡ some n → n < 2 ^ 8
  pub short_width : (v : api.Value) (z : ℤ) → api.reads.get_short v ≡ some z → IsInt64 z
  pub ushort_width : (v : api.Value) (n : ℕ) → api.reads.get_ushort v ≡ some n → n < 2 ^ 16
  pub int_width : (v : api.Value) (z : ℤ) → api.reads.get_int v ≡ some z → IsInt64 z
  pub uint_width : (v : api.Value) (n : ℕ) → api.reads.get_uint v ≡ some n → n < 2 ^ 32
  pub long_width : (v : api.Value) (z : ℤ) → api.reads.get_long v ≡ some z → IsInt64 z
  pub char_width : (v : api.Value) (n : ℕ) → api.reads.get_char v ≡ some n → n < 2 ^ 32
  pub timestamp_width : (v : api.Value) (z : ℤ) → api.reads.get_timestamp v ≡ some z → IsInt64 z
  pub ulong_width : (v : api.Value) (n : ℕ) → api.reads.get_ulong v ≡ some n → n < 2 ^ 64
