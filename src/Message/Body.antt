-- ===== src/Message/Body.antt =====
-- AmqpValueBodyDecoder.cpp, and Message.cpp: the body of a message and the object's life.
use azure_uamqp_php.Prelude.{
  ℕ, zero, suc, ◌+◌, Bool, true, false, not, ◌&&◌, Option, none, some, [], ◌++◌, Text, codes, take,
  length, ltb, ◌==◌, if◌then◌else◌, Result, ok, err, is_empty,
}
use azure_uamqp_php.AmqpValue.{AmqpType, AmqpBinary, AmqpApi}
use azure_uamqp_php.Runtime.Library.{Thrown}
use azure_uamqp_php.Message.Library.{BodyType, MessageApi, values_at}
use azure_uamqp_php.Message.State.{
  acquired, released, note_handle, on_error, M, no_binary, ◌>>=◌, ◌>>◌, pure, raise, gets, change,
  or_raise, checked, library_call, when,
}

-- The bytes that a pointer and a length stand for; a NULL pointer stands for none.
abbrev pub bytes_of : AmqpBinary → Text
bytes_of b = elim b.bytes [ none ↦ [] | some bytes ↦ take b.size bytes ]

-- The bytes of a text in memory; an empty one is NULL.
abbrev pub binary_of : Text → AmqpBinary
binary_of text = record { bytes = if is_empty text then none else some text; size = length text }

abbrev pub is_binary : AmqpType → Bool
is_binary AmqpType.binary = true
is_binary _ = false

abbrev pub is_none : {A : Type 0} → Option A → Bool
is_none none = true
is_none (some _) = false

-- The messages of the `runtime_error`s.
pub data BodyError : Type 0 where
  no_value bad_binary no_text : BodyError

abbrev pub body_error : BodyError → Text
body_error no_value = codes "Could not decode AMQP value message body"
body_error bad_binary = codes "Could not decode binary AMQP value message body"
body_error no_text = codes "Could not stringify AMQP value message body"

module _ (api : AmqpApi) where
  unfoldable pub decode_binary_body : Option AmqpBinary → Result BodyError Text
  decode_binary_body none = err bad_binary
  decode_binary_body (some b) =
      if is_none b.bytes && ltb 0 b.size
      then err bad_binary
      else if b.size == 0
      then ok []
      else ok (bytes_of b)

  unfoldable pub decode_amqp_value_body : Option api.Value → Result BodyError Text
  unfolding decode_binary_body
  decode_amqp_value_body none = err no_value
  decode_amqp_value_body (some v) =
      if is_binary (api.reads.get_type v)
      then decode_binary_body (api.reads.get_binary v)
      else elim (api.reads.to_string v) [ none ↦ err no_text | some t ↦ ok t ]

unfoldable pub body_type_name : BodyType → Text
body_type_name BodyType.no_body = codes "none"
body_type_name BodyType.data_body = codes "data"
body_type_name BodyType.value_body = codes "value"
body_type_name BodyType.sequence_body = codes "sequence"
body_type_name BodyType.other = codes "unknown"

module _ (api : MessageApi) where
  -- `decode_amqp_value_body_checked`: a `std::exception` becomes a PHP one.
  unfoldable pub decode_amqp_value_body_checked : api.Value → M api Text
  unfolding decode_amqp_value_body
  decode_amqp_value_body_checked v s =
      elim (decode_amqp_value_body (values_at api s.library) (some v)) [
        | ok t ↦ (ok t, s)
        | err e ↦ (err (Thrown.extension (body_error e)), s)
      ]

  abbrev pub append_body : Text → M api (Unit {0})
  append_body t = change (λ m. record m { body = m.body ++ t })

  -- `if (data.bytes != NULL && data.length > 0)`
  abbrev pub append_data : AmqpBinary → M api (Unit {0})
  append_data b = when (not (is_none b.bytes) && ltb 0 b.size) (append_body (bytes_of b))

  -- The sections from `index` on, of which `left` are left.
  unfoldable pub read_data : api.Handle → ℕ → ℕ → M api (Unit {0})
  read_data h index zero = pure tt
  read_data h index (suc left) = do
    b ←
        checked (codes "Could not decode AMQP data message body")
          (λ l. api.message_get_body_amqp_data_in_place l h index)
    append_data b
    read_data h (index + 1) left

  -- `(...) != 0 || value == NULL`
  abbrev pub present : {A : Type 0} → Option (Option A) → Option A
  present (some (some a)) = some a
  present _ = none

  unfoldable pub read_sequences : api.Handle → ℕ → ℕ → M api (Unit {0})
  unfolding decode_amqp_value_body_checked
  read_sequences h index zero = pure tt
  read_sequences h index (suc left) = do
    sequence ←
        checked (codes "Could not decode AMQP sequence message body")
          (λ l. present (api.message_get_body_amqp_sequence_in_place l h index))
    when (ltb 0 index) (append_body (codes "\n"))
    t ← decode_amqp_value_body_checked sequence
    append_body t
    read_sequences h (index + 1) left

  unfoldable pub read_typed : api.Handle → BodyType → M api (Unit {0})
  unfolding read_data read_sequences decode_amqp_value_body_checked
  read_typed h BodyType.no_body = pure tt
  read_typed h BodyType.data_body = do
    count ←
        checked (codes "Could not determine AMQP data body count")
          (λ l. api.message_get_body_amqp_data_count l h)
    read_data h 0 count
  read_typed h BodyType.value_body = do
    value ←
        checked (codes "Could not decode AMQP value message body")
          (λ l. present (api.message_get_body_amqp_value_in_place l h))
    t ← decode_amqp_value_body_checked value
    change (λ m. record m { body = t })
  read_typed h BodyType.sequence_body = do
    count ←
        checked (codes "Could not determine AMQP sequence body count")
          (λ l. api.message_get_body_amqp_sequence_count l h)
    read_sequences h 0 count
  read_typed h BodyType.other = raise (codes "Unsupported AMQP message body type")

  -- `getBody` of a body that is not decoded yet, from the message on.
  unfoldable pub read_body : api.Handle → M api Text
  unfolding read_typed
  read_body h = do
    type ←
        checked (codes "Could not determine AMQP message body type")
          (λ l. api.message_get_body_type l h)
    change (λ m. record m { body = []; binary_data = no_binary })
    read_typed h type
    change (λ m. record m { body_decoded = true })
    gets (λ s. s.object.body)

  unfoldable pub get_body : M api Text
  unfolding read_body
  get_body = do
    decoded ← gets (λ s. s.object.body_decoded)
    if decoded then gets (λ s. s.object.body) else (do
      message ← gets (λ s. s.object.message)
      h ← or_raise (codes "Message body is not available") message
      read_body h)

  unfoldable pub get_body_type : M api Text
  unfolding body_type_name
  get_body_type = do
    message ← gets (λ s. s.object.message)
    h ← or_raise (codes "Message body type is not available") message
    type ←
        checked (codes "Could not determine AMQP message body type")
          (λ l. api.message_get_body_type l h)
    pure (body_type_name type)

  -- The result of `message_add_body_amqp_data` is ignored.
  unfoldable pub set_body : Text → M api (Unit {0})
  set_body text = do
    change (λ m. record m {
      body = text;
      body_decoded = true;
      body_bytes = text;
      binary_data = binary_of text;
    })
    message ← gets (λ s. s.object.message)
    _ ← library_call (api.message_add_body_amqp_data message (binary_of text))
    pure tt

  unfoldable pub set_message_handler : Option api.Handle → M api (Unit {0})
  set_message_handler message = do
    clone ← library_call (api.message_clone message)
    h ← or_raise (codes "Could not retain received AMQP message") clone
    note_handle acquired (some h)
    old ← gets (λ s. s.object.message)
    _ ← library_call (λ l. (tt, api.message_destroy old l))
    note_handle released old
    change (λ m. record m {
      message = some h;
      body = [];
      body_decoded = false;
      binary_data = no_binary;
    })

  -- The constructor without arguments.
  unfoldable pub create : M api (Unit {0})
  create = do
    created ← library_call api.message_create
    note_handle acquired created
    change (λ m. record {
      body = [];
      body_bytes = [];
      body_decoded = false;
      message = created;
      binary_data = no_binary;
    })
    when (is_none created) (raise (codes "Could not create AMQP message"))

  -- `__construct`, on an object that the constructor made.
  unfoldable pub construct : Text → M api (Unit {0})
  unfolding set_body
  construct text = set_body text

  -- The destructor.
  unfoldable pub destroy : M api (Unit {0})
  destroy = do
    message ← gets (λ s. s.object.message)
    when (not (is_none message))
        do _ ← library_call (λ l. (tt, api.message_destroy message l)); note_handle released message

  -- The copy constructor, from the other object's message. It delegates to the one above, so that
  -- the destructor runs where it throws after that.
  unfoldable pub copy : Option api.Handle → M api (Unit {0})
  unfolding create set_message_handler destroy
  copy other = do create; on_error (set_message_handler other) destroy
