-- ===== src/Message/Library.antt =====
-- What Message.cpp uses of azure-uamqp-c's messages and values, and of PHP-CPP's values: two
-- parameters.
use azure_uamqp_php.Prelude.{ℕ, Bool, Option, Text}
use azure_uamqp_php.Prelude.Int.{ℤ}
use azure_uamqp_php.AmqpValue.{AmqpBinary, AmqpReads, AmqpApi}

-- `MESSAGE_BODY_TYPE`; `other` is any further value of it.
pub data BodyType : Type 0 where
  no_body data_body value_body sequence_body other : BodyType

-- A getter returns `none` where the C function returns a code other than 0. A function that creates
-- something returns `none` for NULL, and one that changes something returns whether its code
-- is 0. The library's state is where AMQP values, messages, properties and headers are kept,
-- so that a value can change; reference counts are not part of it.
pub record MessageApi : Type 1 where
  pub Library : Type 0
  pub Value : Type 0
  pub Float : Type 0
  pub Double : Type 0
  pub Handle : Type 0
  pub Properties : Type 0
  pub Header : Type 0
  pub float_to_double : Float → Double
  pub reads : Library → AmqpReads Value Float Double
  pub are_equal : Library → Option Value → Value → Bool
  pub get_composite_item_count : Library → Value → Option ℕ
  pub get_composite_item_in_place : Library → Value → ℕ → Option Value
  pub get_inplace_descriptor : Library → Value → Option Value
  pub create_map : Library → Option Value × Library
  pub create_composite : Option Value → ℕ → Library → Option Value × Library
  pub create_symbol : Text → Library → Option Value × Library
  pub create_string : Text → Library → Option Value × Library
  pub create_int : ℤ → Library → Option Value × Library
  pub create_timestamp : ℤ → Library → Option Value × Library
  pub create_long : ℤ → Library → Option Value × Library
  pub create_double : Double → Library → Option Value × Library
  pub create_boolean : Bool → Library → Option Value × Library
  pub create_message_annotations : Value → Library → Option Value × Library
  pub create_properties : Properties → Library → Option Value × Library
  pub set_map_value : Value → Option Value → Option Value → Library → Bool × Library
  pub set_composite_item : Value → ℕ → Option Value → Library → Bool × Library
  pub message_create : Library → Option Handle × Library
  pub message_clone : Option Handle → Library → Option Handle × Library
  pub message_destroy : Option Handle → Library → Library
  pub message_get_body_type : Library → Handle → Option BodyType
  pub message_get_body_amqp_data_count : Library → Handle → Option ℕ
  pub message_get_body_amqp_data_in_place : Library → Handle → ℕ → Option AmqpBinary
  pub message_get_body_amqp_value_in_place : Library → Handle → Option (Option Value)
  pub message_get_body_amqp_sequence_count : Library → Handle → Option ℕ
  pub message_get_body_amqp_sequence_in_place : Library → Handle → ℕ → Option (Option Value)
  pub message_add_body_amqp_data : Option Handle → AmqpBinary → Library → Bool × Library
  pub message_get_message_annotations : Library → Option Handle → Option (Option Value)
  pub message_get_application_properties : Library → Option Handle → Option (Option Value)
  pub message_set_message_annotations : Option Handle → Option Value → Library → Bool × Library
  pub message_set_application_properties : Option Handle → Value → Library → Bool × Library
  pub message_get_properties : Library → Option Handle → Option (Option Properties)
  pub message_set_properties : Option Handle → Properties → Library → Bool × Library
  pub properties_create : Library → Option Properties × Library
  pub properties_get_message_id : Library → Properties → Option (Option Value)
  pub properties_set_message_id : Properties → Value → Library → Bool × Library
  pub amqpvalue_get_properties : Value → Library → Option (Option Properties) × Library
  pub message_get_header : Library → Option Handle → Option (Option Header)
  pub header_get_delivery_count : Library → Header → Option ℕ

-- What the decoders read of values while the library is in a state.
abbrev pub values_at : (api : MessageApi) → api.Library → AmqpApi
values_at api l = record {
  Value = api.Value;
  Float = api.Float;
  Double = api.Double;
  float_to_double = api.float_to_double;
  reads = api.reads l;
}

-- `Php::Value` and its conversions. Reading a key that is missing gives the null value.
pub record PhpApi (Double : Type 0) : Type 1 where
  pub Value : Type 0
  pub null : Value
  pub from_boolean : Bool → Value
  pub from_integer : ℤ → Value
  pub from_double : Double → Value
  pub from_text : Text → Value
  pub empty_array : Value
  pub set_at_text : Value → Text → Value → Value
  pub set_at_index : Value → ℕ → Value → Value
  pub at_text : Value → Text → Value
  pub at_index : Value → ℕ → Value
  pub is_null : Value → Bool
  pub numeric_value : Value → ℤ
  pub string_value : Value → Text
  pub float_value : Value → Double
  pub bool_value : Value → Bool
  pub to_int32 : Value → ℤ
  pub to_int64 : Value → ℤ
  pub to_double : Value → Double
