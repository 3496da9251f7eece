-- ===== src/Message/Setting.antt =====
-- Message.cpp: the methods that change the metadata of a message.
use azure_uamqp_php.Prelude.{
  ◌==◌, Bool, true, false, Option, none, some, [], ◌∷◌, Text, codes, text_eq, if◌then◌else◌,
}
use azure_uamqp_php.Message.Library.{MessageApi, PhpApi}
use azure_uamqp_php.Message.State.{
  Change, M, ◌>>=◌, ◌>>◌, pure, raise, or_raise, checked, library_call, when, must, note,
}
use azure_uamqp_php.Message.Body.{is_none}
use azure_uamqp_php.Message.Metadata.{
  handle, get_metadata, get_metadata_map, copy_metadata_container, written,
}

-- `c_str()`: what a C function reads of a text, up to its first zero byte.
unfoldable pub c_str : Text → Text
c_str [] = []
c_str (c ∷ s) = let rest = c_str s in if c == 0 then [] else c ∷ rest

abbrev pub could_not_create : Text
could_not_create = codes "Could not create AMQP message metadata"

abbrev pub could_not_store : Text
could_not_store = codes "Could not store AMQP message metadata"

abbrev pub unsupported : Text
unsupported = codes "Unsupported AMQP metadata type; expected I, S, T, D, L or B"

abbrev pub could_not_set : Text
could_not_set = codes "Could not set AMQP message ID"

module _ (api : MessageApi) (php : PhpApi api.Double) where
  -- How the value of the third parameter is created, by the type's letter.
  unfoldable pub typed_value :
      Text → php.Value → Option (api.Library → Option api.Value × api.Library)
  unfolding c_str
  typed_value type value =
      if text_eq type (codes "I")
      then some (api.create_int (php.to_int32 value))
      else if text_eq type (codes "S")
      then some (api.create_string (c_str (php.string_value value)))
      else if text_eq type (codes "T")
      then some (api.create_timestamp (php.to_int64 value))
      else if text_eq type (codes "D")
      then some (api.create_double (php.to_double value))
      else if text_eq type (codes "L")
      then some (api.create_long (php.to_int64 value))
      else if text_eq type (codes "B")
      then some (api.create_boolean (php.bool_value value))
      else none

  -- `metadata`, or a new map where it is NULL.
  abbrev pub or_new_map : Option api.Value → M api (Option api.Value)
  or_new_map (some v) = pure (some v)
  or_new_map none = library_call api.create_map

  -- The metadata is stored: annotations in a section around the map, application properties as the map.
  unfoldable pub store_metadata : Option api.Handle → Bool → api.Value → M api (Unit {0})
  store_metadata message true map = do
    section ← library_call (api.create_message_annotations map)
    when (is_none section) (raise (codes "Could not create AMQP message annotations section"))
    must could_not_store (library_call (api.message_set_message_annotations message section))
  store_metadata message false map =
      must could_not_store (library_call (api.message_set_application_properties message map))

  -- From the metadata on, with the name and the value created.
  unfoldable pub update_metadata :
      Option api.Handle → Bool → Option api.Value → api.Value → api.Value → M api (Unit {0})
  unfolding get_metadata_map copy_metadata_container store_metadata
  update_metadata message annotation metadata name value = do
    source ← get_metadata_map api metadata
    map ← copy_metadata_container api source (some name)
    written api (codes "Could not set AMQP message metadata")
        (Change.put map (some name) (some value)) (api.set_map_value map (some name) (some value))
    store_metadata message annotation map

  -- `setMessageAnnotation` for `true`, `setApplicationProperty` for `false`.
  unfoldable pub set_metadata : Bool → php.Value → php.Value → php.Value → M api (Unit {0})
  unfolding get_metadata c_str typed_value update_metadata
  set_metadata annotation key type parameter = do
    message ← handle api
    metadata ← get_metadata api message annotation
    container ← or_new_map metadata
    name ← library_call (
        if annotation
        then api.create_symbol (c_str (php.string_value key))
        else api.create_string (c_str (php.string_value key)))
    create ← or_raise unsupported (typed_value (php.string_value type) parameter)
    value ← library_call create
    some_name ← or_raise could_not_create name
    some_value ← or_raise could_not_create value
    update_metadata message annotation container some_name some_value

  abbrev pub made_properties_if :
      Option api.Value → Option api.Properties → M api (Option api.Properties)
  made_properties_if origin none = pure none
  made_properties_if origin (some p) = do note (Change.made_properties origin p); pure (some p)

  -- Properties that no other message shares: new ones, or a copy of those that are there.
  unfoldable pub own_properties : Option api.Properties → M api (Option api.Properties)
  unfolding copy_metadata_container
  own_properties none = do p ← library_call api.properties_create; made_properties_if none p
  own_properties (some properties) = do
    section ← library_call (api.create_properties properties)
    source ← or_raise (codes "Could not read AMQP properties section") section
    updated ← copy_metadata_container api source none
    read ← library_call (api.amqpvalue_get_properties updated)
    p ← or_raise (codes "Could not copy AMQP message properties") read
    made_properties_if (some updated) p

  unfoldable pub set_message_id : php.Value → M api (Unit {0})
  unfolding own_properties c_str
  set_message_id parameter = do
    message ← handle api
    properties ←
        checked (codes "Could not read AMQP message properties")
          (λ l. api.message_get_properties l message)
    owned ← own_properties properties
    id ← library_call (api.create_string (c_str (php.string_value parameter)))
    p ← or_raise could_not_set owned
    v ← or_raise could_not_set id
    written api could_not_set (Change.put_id p v) (api.properties_set_message_id p v)
    must could_not_set (library_call (api.message_set_properties message p))
