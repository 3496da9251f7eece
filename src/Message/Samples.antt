-- ===== src/Message/Samples.antt =====
-- A small library of values and messages, and the values of PHP as a data type, for the tests.
use azure_uamqp_php.Prelude.Options.{is_none}
use azure_uamqp_php.Prelude.{
  not, ℕ, zero, suc, ◌+◌, Bool, true, false, Option, none, some, [], ◌∷◌, Text, ◌==◌, ◌||◌,
  if◌then◌else◌, text_eq,
}
use azure_uamqp_php.Prelude.Int.{ℤ, pos}
use azure_uamqp_php.AmqpValue.{AmqpType, AmqpBinary, AmqpReads}
use azure_uamqp_php.Message.Library.{BodyType, MessageApi, PhpApi}
use azure_uamqp_php.Message.State.{State, no_binary}

-- Value 0 is a map of two pairs, 1 a described value with it inside, and 2 the map that
-- is created; the others are the strings of one byte.
abbrev pub type_of : ℕ → AmqpType
type_of zero = AmqpType.map
type_of (suc zero) = AmqpType.described
type_of (suc (suc zero)) = AmqpType.map
type_of (suc (suc (suc n))) = AmqpType.string

abbrev pub inner_of : ℕ → Option ℕ
inner_of (suc zero) = some 0
inner_of _ = none

abbrev pub pairs_of : ℕ → Option ℕ
pairs_of zero = some 2
pairs_of _ = none

abbrev pub pair_of : ℕ → ℕ → Option (Option ℕ × Option ℕ)
pair_of zero zero = some (some 65, some 66)
pair_of zero (suc zero) = some (some 67, some 68)
pair_of _ _ = none

abbrev pub same_value : Option ℕ → ℕ → Bool
same_value none r = false
same_value (some k) r = k == r

abbrev pub reads_of : AmqpReads ℕ ℕ ℕ
reads_of = record {
  get_type = type_of;
  get_boolean = λ _. none;
  get_byte = λ _. none;
  get_ubyte = λ _. none;
  get_short = λ _. none;
  get_ushort = λ _. none;
  get_int = λ _. none;
  get_uint = λ _. none;
  get_long = λ _. none;
  get_char = λ _. none;
  get_timestamp = λ _. none;
  get_ulong = λ _. none;
  get_float = λ _. none;
  get_double = λ _. none;
  get_string = λ v. some (some (v ∷ []));
  get_symbol = λ v. some (some (v ∷ []));
  get_binary = λ _. none;
  get_uuid = λ _. none;
  get_inplace_described_value = inner_of;
  get_map_pair_count = pairs_of;
  get_map_key_value_pair = pair_of;
  get_list_item_count = λ _. none;
  get_list_item = λ _ _. none;
  get_array_item_count = λ _. none;
  get_array_item = λ _ _. none;
  to_string = λ v. some (v ∷ []);
}

-- Message 1 has data sections and message 2 sequences; the metadata is value 1. The library counts
-- what is written.
abbrev pub body_type_of : ℕ → BodyType
body_type_of (suc zero) = BodyType.data_body
body_type_of (suc (suc zero)) = BodyType.sequence_body
body_type_of _ = BodyType.no_body

abbrev pub section_of : ℕ → AmqpBinary
section_of i = record { bytes = some (65 ∷ i ∷ []); size = 2 }

abbrev pub new_string : Text → Option ℕ
new_string [] = some 3
new_string (c ∷ _) = some (c + 3)

-- The containers and the properties that this library creates. It counts what is written to others.
abbrev pub is_new : ℕ → Bool
is_new v = v == 2 || v == 80

abbrev pub are_new : ℕ → Bool
are_new p = p == 8 || p == 9

abbrev written_to : Bool → ℕ → ℕ
written_to new l = if new then l else l + 1

abbrev pub small : MessageApi
small = record {
  Library = ℕ;
  Value = ℕ;
  Float = ℕ;
  Double = ℕ;
  Handle = ℕ;
  Properties = ℕ;
  Header = ℕ;
  float_to_double = λ x. x;
  reads = λ _. reads_of;
  are_equal = λ _. same_value;
  get_composite_item_count = λ _ _. some 1;
  get_composite_item_in_place = λ _ _ i. some (i + 70);
  get_inplace_descriptor = λ _ _. none;
  create_map = λ l. (some 2, l);
  create_composite = λ _ _ l. (some 80, l);
  create_symbol = λ t l. (new_string t, l);
  create_string = λ t l. (new_string t, l);
  create_int = λ _ l. (some 90, l);
  create_timestamp = λ _ l. (none, l);
  create_long = λ _ l. (some 91, l);
  create_double = λ _ l. (some 92, l);
  create_boolean = λ _ l. (some 93, l);
  create_message_annotations = λ v l. (some v, l);
  create_properties = λ _ l. (some 81, l);
  set_map_value = λ r k _ l. (not (is_none k), written_to (is_new r) l);
  set_composite_item = λ r _ _ l. (true, written_to (is_new r) l);
  message_create = λ l. (some 1, l);
  message_clone = λ m l. (m, l);
  message_destroy = λ _ l. l;
  message_get_body_type = λ _ h. some (body_type_of h);
  message_get_body_amqp_data_count = λ _ _. some 2;
  message_get_body_amqp_data_in_place = λ _ _ i. some (section_of i);
  message_get_body_amqp_value_in_place = λ _ _. none;
  message_get_body_amqp_sequence_count = λ _ _. some 2;
  message_get_body_amqp_sequence_in_place = λ _ _ i. some (some (i + 65));
  message_add_body_amqp_data = λ _ _ l. (true, l);
  message_get_message_annotations = λ _ _. some (some 1);
  message_get_application_properties = λ _ _. some (some 1);
  message_set_message_annotations = λ _ _ l. (true, l + 1);
  message_set_application_properties = λ _ _ l. (true, l + 1);
  message_get_properties = λ _ _. some (some 7);
  message_set_properties = λ _ _ l. (true, l + 1);
  properties_create = λ l. (some 8, l);
  properties_get_message_id = λ _ _. some (some 65);
  properties_set_message_id = λ p _ l. (true, written_to (are_new p) l);
  amqpvalue_get_properties = λ _ l. (some (some 9), l);
  message_get_header = λ _ _. some none;
  header_get_delivery_count = λ _ _. none;
}

abbrev pub holding : ℕ → State ℕ ℕ ℕ ℕ
holding h = record {
  object = record {
    body = [];
    body_bytes = [];
    body_decoded = false;
    message = some h;
    binary_data = no_binary;
  };
  library = 0;
  log = [];
  handles = [];
}

-- PHP's values: texts, and arrays as the list of what was set, the latest first.
pub data Php : Type 0 where
  nothing : Php
  flag : Bool → Php
  number : ℤ → Php
  real : ℕ → Php
  string : Text → Php
  nil : Php
  cons : Text → Php → Php → Php

abbrev pub at_key : Php → Text → Php
at_key (cons k v rest) j = let other = at_key rest j in if text_eq k j then v else other
at_key _ j = nothing

abbrev pub text_of : Php → Text
text_of (string t) = t
text_of _ = []

abbrev pub values : PhpApi ℕ
values = record {
  Value = Php;
  null = nothing;
  from_boolean = flag;
  from_integer = number;
  from_double = real;
  from_text = string;
  empty_array = nil;
  set_at_text = λ a k v. cons k v a;
  set_at_index = λ a i v. cons (i ∷ []) v a;
  at_text = at_key;
  at_index = λ a i. at_key a (i ∷ []);
  is_null = λ v. elim v [ nothing ↦ true | _ ↦ false ];
  numeric_value = λ v. elim v [ number z ↦ z | _ ↦ pos 0 ];
  string_value = text_of;
  float_value = λ _. 0;
  bool_value = λ v. elim v [ flag b ↦ b | _ ↦ true ];
  to_int32 = λ _. pos 0;
  to_int64 = λ _. pos 0;
  to_double = λ _. 0;
}
