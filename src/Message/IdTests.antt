-- ===== src/Message/IdTests.antt =====
-- A library of strings and of two properties with an ID, for the test of the message's ID.
use azure_uamqp_php.Prelude.{
  ℕ, zero, suc, false, true, none, some, [], ◌≡◌, refl, ap, sym, Text, codes, ok,
}
use azure_uamqp_php.AmqpValue.{AmqpType, AmqpReads}
use azure_uamqp_php.Message.Library.{MessageApi}
use azure_uamqp_php.Message.State.{State, no_binary}
use azure_uamqp_php.Message.Metadata.{get_message_id}
use azure_uamqp_php.Message.Setting.{set_message_id}
use azure_uamqp_php.Message.Samples.{values, string}
use azure_uamqp_php.Message.Identified.{IsText, HasId, KeepsIds, get_message_id-set_message_id}

-- The IDs of properties 0, which are created, and of those stored with the message.
record Ids : Type 0 where
  pub free : Text
  pub stored : Text

abbrev id_of : ℕ → Ids → Text
id_of zero l = l.free
id_of (suc n) l = l.stored

abbrev with_id : ℕ → Text → Ids → Ids
with_id zero t l = record l { free = t }
with_id (suc n) t l = record l { stored = t }

abbrev text_reads : AmqpReads Text ℕ ℕ
text_reads = record {
  get_type = λ _. AmqpType.string;
  get_boolean = λ _. none;
  get_byte = λ _. none;
  get_ubyte = λ _. none;
  get_short = λ _. none;
  get_ushort = λ _. none;
  get_int = λ _. none;
  get_uint = λ _. none;
  get_long = λ _. none;
  get_char = λ _. none;
  get_timestamp = λ _. none;
  get_ulong = λ _. none;
  get_float = λ _. none;
  get_double = λ _. none;
  get_string = λ v. some (some v);
  get_symbol = λ v. some (some v);
  get_binary = λ _. none;
  get_uuid = λ _. none;
  get_inplace_described_value = λ _. none;
  get_map_pair_count = λ _. none;
  get_map_key_value_pair = λ _ _. none;
  get_list_item_count = λ _. none;
  get_list_item = λ _ _. none;
  get_array_item_count = λ _. none;
  get_array_item = λ _ _. none;
  to_string = λ v. some v;
}

abbrev keeping : MessageApi
keeping = record {
  Library = Ids;
  Value = Text;
  Float = ℕ;
  Double = ℕ;
  Handle = ℕ;
  Properties = ℕ;
  Header = ℕ;
  float_to_double = λ x. x;
  reads = λ _. text_reads;
  are_equal = λ _ _ _. false;
  get_composite_item_count = λ _ _. some 0;
  get_composite_item_in_place = λ _ _ _. none;
  get_inplace_descriptor = λ _ _. none;
  create_map = λ l. (some [], l);
  create_composite = λ _ _ l. (some [], l);
  create_symbol = λ t l. (some t, l);
  create_string = λ t l. (some t, l);
  create_int = λ _ l. (none, l);
  create_timestamp = λ _ l. (none, l);
  create_long = λ _ l. (none, l);
  create_double = λ _ l. (none, l);
  create_boolean = λ _ l. (none, l);
  create_message_annotations = λ v l. (some v, l);
  create_properties = λ _ l. (some [], l);
  set_map_value = λ _ _ _ l. (true, l);
  set_composite_item = λ _ _ _ l. (true, l);
  message_create = λ l. (some 1, l);
  message_clone = λ m l. (m, l);
  message_destroy = λ _ l. l;
  message_get_body_type = λ _ _. none;
  message_get_body_amqp_data_count = λ _ _. none;
  message_get_body_amqp_data_in_place = λ _ _ _. none;
  message_get_body_amqp_value_in_place = λ _ _. none;
  message_get_body_amqp_sequence_count = λ _ _. none;
  message_get_body_amqp_sequence_in_place = λ _ _ _. none;
  message_add_body_amqp_data = λ _ _ l. (true, l);
  message_get_message_annotations = λ _ _. some none;
  message_get_application_properties = λ _ _. some none;
  message_set_message_annotations = λ _ _ l. (true, l);
  message_set_application_properties = λ _ _ l. (true, l);
  message_get_properties = λ _ _. some (some 1);
  message_set_properties = λ _ p l. (true, record l { stored = id_of p l });
  properties_create = λ l. (some 0, l);
  properties_get_message_id = λ l p. some (some (id_of p l));
  properties_set_message_id = λ p v l. (true, with_id p v l);
  amqpvalue_get_properties = λ _ l. (some (some 0), l);
  message_get_header = λ _ _. some none;
  header_get_delivery_count = λ _ _. none;
}

keeping-KeepsIds : KeepsIds keeping
keeping-KeepsIds = record {
  at_string = λ t v l e. (refl, ap some (sym e));
  at_id = at_id;
  at_properties = λ t m p l e h. (1, refl, h);
}
  where
    at_id :
        (t : Text) (p : ℕ) (v : Text) (l : Ids)
        → (keeping.properties_set_message_id p v l).0 ≡ true
        → IsText keeping t v l
        → HasId keeping t p (keeping.properties_set_message_id p v l).1
    at_id t zero v l e h = (v, refl, h)
    at_id t (suc n) v l e h = (v, refl, h)

abbrev identified : Text → Text → State Ids Text ℕ ℕ
identified free stored = record {
  object = record {
    body = [];
    body_bytes = [];
    body_decoded = false;
    message = some 1;
    binary_data = no_binary;
  };
  library = record { free = free; stored = stored };
  log = [];
  handles = [];
}

abbrev after : State Ids Text ℕ ℕ
after = (set_message_id keeping values (string (codes "new")) (identified [] (codes "old"))).1

get_message_id-set_message_id_example :
    (get_message_id keeping values after ≡ (ok (string (codes "new")), after))
    × (after.object ≡ (identified [] (codes "old")).object)
unfolding set_message_id
get_message_id-set_message_id_example =
    get_message_id-set_message_id keeping values keeping-KeepsIds (string (codes "new"))
      (identified [] (codes "old")) after refl
