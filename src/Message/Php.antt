-- ===== src/Message/Php.antt =====
-- Message.cpp: decoded metadata as PHP values, and the type that a caller asks for.
use azure_uamqp_php.Prelude.{
  ℕ, ◌+◌, ◌||◌, Option, none, some, Text, codes, is_empty, text_eq, if◌then◌else◌, Result, ok, err,
}
use azure_uamqp_php.Decoder.Data.{Decoded, Entries, Items}
use azure_uamqp_php.Decoder.{DecodeError, decode_amqp_value}
use azure_uamqp_php.Runtime.Library.{Thrown}
use azure_uamqp_php.Message.Library.{MessageApi, PhpApi, values_at}
use azure_uamqp_php.Message.State.{M}

abbrev pub decode_error : DecodeError → Text
decode_error DecodeError.could_not_decode = codes "Could not decode AMQP metadata value"
decode_error DecodeError.nesting_exceeds = codes "AMQP metadata nesting exceeds 32 levels"
decode_error DecodeError.no_bytes = codes "AMQP binary metadata has no bytes"
decode_error DecodeError.no_described_value = codes "AMQP metadata has no described value"
decode_error DecodeError.bad_map_key = codes "AMQP metadata map key must be a string or integer"
decode_error DecodeError.no_list_item = codes "Could not read AMQP metadata list item"
decode_error DecodeError.unsupported_type = codes "Unsupported AMQP metadata type"

module _ {D : Type 0} (php : PhpApi D) where
  -- The array so far is an argument, and for a list the index of the next item.
  unfoldable mutual
    pub to_php_value : Decoded D → php.Value
    to_php_value Decoded.null = php.null
    to_php_value (Decoded.boolean b) = php.from_boolean b
    to_php_value (Decoded.integer z) = php.from_integer z
    to_php_value (Decoded.double x) = php.from_double x
    to_php_value (Decoded.string text) = php.from_text text
    to_php_value (Decoded.map m) = put_entries m php.empty_array
    to_php_value (Decoded.list ds) = put_items ds 0 php.empty_array

    pub put_entries : Entries D → php.Value → php.Value
    put_entries Entries.end array = array
    put_entries (Entries.entry k d m) array =
        put_entries m (php.set_at_text array k (to_php_value d))

    pub put_items : Items D → ℕ → php.Value → php.Value
    put_items Items.nil index array = array
    put_items (Items.cons d ds) index array =
        put_items ds (index + 1) (php.set_at_index array index (to_php_value d))

  -- The types that `apply_requested_type` knows, by their letter.
  abbrev pub converted : Text → php.Value → Option php.Value
  converted type value =
      if text_eq type (codes "I") || (text_eq type (codes "T") || text_eq type (codes "L"))
      then some (php.from_integer (php.numeric_value value))
      else if text_eq type (codes "S")
      then some (php.from_text (php.string_value value))
      else if text_eq type (codes "D")
      then some (php.from_double (php.float_value value))
      else if text_eq type (codes "B")
      then some (php.from_boolean (php.bool_value value))
      else none

  abbrev pub unsupported : Thrown
  unsupported =
      Thrown.extension (codes "Unsupported AMQP metadata type; expected I, S, T, D, L or B")

  -- The second parameter is `none` where there are less than two.
  unfoldable pub apply_requested_type : php.Value → Option php.Value → Result Thrown php.Value
  apply_requested_type value none = ok value
  apply_requested_type value (some parameter) =
      if php.is_null value || is_empty (php.string_value parameter)
      then ok value
      else elim (converted (php.string_value parameter) value) [
        | none ↦ err unsupported
        | some result ↦ ok result
      ]

module _ (api : MessageApi) (php : PhpApi api.Double) where
  unfoldable pub decode_metadata : Option api.Value → M api php.Value
  unfolding to_php_value
  decode_metadata v s = elim (decode_amqp_value (values_at api s.library) v 0) [
    | ok d ↦ (ok (to_php_value php d), s)
    | err e ↦ (err (Thrown.extension (decode_error e)), s)
  ]
