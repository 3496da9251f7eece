-- ===== src/Message/Metadata.antt =====
-- Message.cpp: where the metadata of a message is read, and the copy of a container.
use azure_uamqp_php.Prelude.{
  ℕ, zero, suc, ◌+◌, Bool, true, false, not, Option, none, some, Text, codes, if◌then◌else◌,
}
use azure_uamqp_php.Prelude.Int.{pos}
use azure_uamqp_php.AmqpValue.{AmqpType, AmqpReads}
use azure_uamqp_php.Message.Library.{MessageApi, PhpApi}
use azure_uamqp_php.Message.State.{
  Change, M, ◌>>=◌, ◌>>◌, pure, gets, or_raise, checked, library_call, when, must, note,
}
use azure_uamqp_php.Message.Php.{decode_metadata, apply_requested_type}

abbrev pub is_described : AmqpType → Bool
is_described AmqpType.described = true
is_described _ = false

abbrev pub is_map : AmqpType → Bool
is_map AmqpType.map = true
is_map _ = false

module _ {Value Float Double : Type 0} (reads : AmqpReads Value Float Double) where
  -- The loop of `get_metadata_map`, with `left` of its 32 rounds left.
  unfoldable pub unwrap : ℕ → Option Value → Option Value
  unwrap left none = none
  unwrap zero (some v) = some v
  unwrap (suc left) (some v) =
      let inner = unwrap left (reads.get_inplace_described_value v) in
      if is_described (reads.get_type v) then inner else some v

  abbrev pub only_map : Option Value → Option Value
  only_map none = none
  only_map (some v) = if is_map (reads.get_type v) then some v else none

abbrev pub could_not_copy_entry : Text
could_not_copy_entry = codes "Could not copy AMQP metadata entry"

abbrev pub could_not_copy : Text
could_not_copy = codes "Could not copy AMQP metadata container"

module _ (api : MessageApi) where
  abbrev pub handle : M api (Option api.Handle)
  handle = gets (λ s. s.object.message)

  unfoldable pub get_metadata : Option api.Handle → Bool → M api (Option api.Value)
  get_metadata message annotation = checked (codes "Could not read AMQP message metadata") (λ l.
      if annotation
      then api.message_get_message_annotations l message
      else api.message_get_application_properties l message)

  unfoldable pub get_metadata_map : Option api.Value → M api api.Value
  unfolding unwrap
  get_metadata_map value =
      checked (codes "AMQP message metadata must contain a map")
        (λ l. only_map (api.reads l) (unwrap (api.reads l) 32 value))

  abbrev pub written :
      Text → Change api.Value api.Properties → (api.Library → Bool × api.Library) → M api (Unit {0})
  written t c f = do note c; must t (library_call f)

  -- A container that is created, or the error.
  abbrev pub created : Text → (api.Library → Option api.Value × api.Library) → M api api.Value
  created t f = do
    container ← library_call f
    result ← or_raise t container
    note (Change.made result)
    pure result

  -- `replacedKey != NULL && amqpvalue_are_equal(key, replacedKey)`
  abbrev pub is_replaced : Option api.Value → api.Library → Option api.Value → Bool
  is_replaced none l key = false
  is_replaced (some replaced) l key = api.are_equal l key replaced

  unfoldable pub copy_pairs : api.Value → Option api.Value → api.Value → ℕ → ℕ → M api (Unit {0})
  copy_pairs source replaced result index zero = pure tt
  copy_pairs source replaced result index (suc left) = do
    (key, value) ←
        checked (codes "Could not read AMQP metadata entry")
          (λ l. (api.reads l).get_map_key_value_pair source index)
    dropped ← gets (λ s. is_replaced replaced s.library key)
    when (not dropped) (
        written could_not_copy_entry (Change.put result key value)
          (api.set_map_value result key value))
    copy_pairs source replaced result (index + 1) left

  unfoldable pub copy_items : api.Value → api.Value → ℕ → ℕ → M api (Unit {0})
  copy_items source result index zero = pure tt
  copy_items source result index (suc left) = do
    value ← gets (λ s. api.get_composite_item_in_place s.library source index)
    written could_not_copy_entry (Change.item result index value)
        (api.set_composite_item result index value)
    copy_items source result (index + 1) left

  abbrev could_not_read : Text
  could_not_read = codes "Could not read AMQP metadata container"

  unfoldable pub copy_map : api.Value → Option api.Value → M api api.Value
  unfolding copy_pairs
  copy_map source replaced = do
    count ← checked could_not_read (λ l. (api.reads l).get_map_pair_count source)
    result ← created could_not_copy api.create_map
    copy_pairs source replaced result 0 count
    pure result

  unfoldable pub copy_composite : api.Value → M api api.Value
  unfolding copy_items
  copy_composite source = do
    count ← checked could_not_read (λ l. api.get_composite_item_count l source)
    descriptor ← gets (λ s. api.get_inplace_descriptor s.library source)
    result ← created could_not_copy (api.create_composite descriptor count)
    copy_items source result 0 count
    pure result

  unfoldable pub copy_metadata_container : api.Value → Option api.Value → M api api.Value
  unfolding copy_map copy_composite
  copy_metadata_container source replaced = do
    type ← gets (λ s. (api.reads s.library).get_type source)
    if is_map type then copy_map source replaced else copy_composite source

module _ (api : MessageApi) (php : PhpApi api.Double) where
  abbrev pub metadata_value : Option api.Value → M api php.Value
  metadata_value none = pure php.empty_array
  metadata_value (some v) = decode_metadata api php (some v)

  -- `getMessageAnnotations` for `true`, `getApplicationProperties` for `false`.
  unfoldable pub get_all_metadata : Bool → M api php.Value
  unfolding decode_metadata
  get_all_metadata annotation = do
    message ← handle api
    value ← get_metadata api message annotation
    metadata_value value

  -- `getMessageAnnotation` and `getApplicationProperty`: the key, and the type if it is given.
  unfoldable pub get_one_metadata : Bool → php.Value → Option php.Value → M api php.Value
  unfolding apply_requested_type
  get_one_metadata annotation key type = do
    values ← get_all_metadata annotation
    λ s. (apply_requested_type php (php.at_text values (php.string_value key)) type, s)

  abbrev pub could_not_read_properties : Text
  could_not_read_properties = codes "Could not read AMQP message properties"

  abbrev pub message_id : Option api.Properties → M api php.Value
  message_id none = pure php.null
  message_id (some properties) = do
    id ← gets (λ s. api.properties_get_message_id s.library properties)
    elim id [ none ↦ pure php.null | some v ↦ decode_metadata api php v ]

  unfoldable pub get_message_id : M api php.Value
  unfolding decode_metadata
  get_message_id = do
    message ← handle api
    properties ← checked could_not_read_properties (λ l. api.message_get_properties l message)
    message_id properties

  abbrev pub delivery_count : api.Library → Option api.Header → Option ℕ
  delivery_count l none = some 0
  delivery_count l (some header) = api.header_get_delivery_count l header

  unfoldable pub get_delivery_count : M api php.Value
  get_delivery_count = do
    message ← handle api
    header ←
        checked (codes "Could not read AMQP message header") (λ l. api.message_get_header l message)
    count ←
        checked (codes "Could not read AMQP message delivery count") (λ l. delivery_count l header)
    pure (php.from_integer (pos count))
