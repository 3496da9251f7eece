-- ===== src/Decoder/Tests.antt =====
-- An AMQP value library over trees, runs of the decoder on it, and the theorems at its values.
use azure_uamqp_php.Prelude.{
  ℕ, zero, suc, ◌+◌, ◌-◌, ◌%◌, ◌^◌, ◌<◌, ◌≡◌, refl, Option, none, some, [], ◌∷◌, Text, codes, ok,
  err, arith,
}
use azure_uamqp_php.AmqpValue.{AmqpType, AmqpApi, HasWidths}
use azure_uamqp_php.Decoder.Data.{Decoded, Entries, lookup, insert}
use azure_uamqp_php.Decoder.Uuid.{uuid_text, hex_byte, hex_digit}
use azure_uamqp_php.Decoder.Step.{deeper}
use azure_uamqp_php.Decoder.Fits.{Fits, decode_amqp_value-Fits}
use azure_uamqp_php.Decoder.Nesting.{Described, here, inside, decode_amqp_value-Described}
use azure_uamqp_php.Decoder.Containers.{last_named, decode_amqp_value-map}
use azure_uamqp_php.Decoder.{decode_amqp_value, bad_map_key, decode_ulong, key_name}

mutual
  data Tree : Type 0 where
    nothing : Tree
    small : ℕ → Tree
    large : ℕ → Tree
    text : Text → Tree
    tagged : Tree → Tree
    dictionary : Pairs → Tree
    sequence : Trees → Tree

  data Pairs : Type 0 where
    done : Pairs
    pair : Tree → Tree → Pairs → Pairs

  data Trees : Type 0 where
    nil : Trees
    cons : Tree → Trees → Trees

abbrev tree_type : Tree → AmqpType
tree_type nothing = AmqpType.null
tree_type (small n) = AmqpType.ubyte
tree_type (large n) = AmqpType.ulong
tree_type (text t) = AmqpType.string
tree_type (tagged t) = AmqpType.described
tree_type (dictionary ps) = AmqpType.map
tree_type (sequence ts) = AmqpType.list

-- Values are kept in the width of their type.
abbrev tree_small : Tree → Option ℕ
tree_small (small n) = some (n % 256)
tree_small _ = none

abbrev tree_large : Tree → Option ℕ
tree_large (large n) = some (n % 2 ^ 64)
tree_large _ = none

abbrev tree_text : Tree → Option (Option Text)
tree_text (text t) = some (some t)
tree_text _ = none

abbrev tree_inner : Tree → Option Tree
tree_inner (tagged t) = some t
tree_inner _ = none

abbrev pair_count : Pairs → ℕ
pair_count done = 0
pair_count (pair k v ps) = suc (pair_count ps)

abbrev pair_at : Pairs → ℕ → Option (Option Tree × Option Tree)
pair_at done i = none
pair_at (pair k v ps) zero = some (some k, some v)
pair_at (pair k v ps) (suc i) = pair_at ps i

abbrev tree_pair_count : Tree → Option ℕ
tree_pair_count (dictionary ps) = some (pair_count ps)
tree_pair_count _ = none

abbrev tree_pair : Tree → ℕ → Option (Option Tree × Option Tree)
tree_pair (dictionary ps) i = pair_at ps i
tree_pair _ i = none

abbrev item_count : Trees → ℕ
item_count nil = 0
item_count (cons t ts) = suc (item_count ts)

abbrev tree_at : Trees → ℕ → Option Tree
tree_at nil i = none
tree_at (cons t ts) zero = some t
tree_at (cons t ts) (suc i) = tree_at ts i

abbrev tree_item_count : Tree → Option ℕ
tree_item_count (sequence ts) = some (item_count ts)
tree_item_count _ = none

abbrev tree_item : Tree → ℕ → Option Tree
tree_item (sequence ts) i = tree_at ts i
tree_item _ i = none

abbrev trees : AmqpApi
trees = record {
  Value = Tree;
  Float = ℕ;
  Double = ℕ;
  float_to_double = λ x. x;
  reads = record {
    get_type = tree_type;
    get_boolean = λ _. none;
    get_byte = λ _. none;
    get_ubyte = tree_small;
    get_short = λ _. none;
    get_ushort = λ _. none;
    get_int = λ _. none;
    get_uint = λ _. none;
    get_long = λ _. none;
    get_char = λ _. none;
    get_timestamp = λ _. none;
    get_ulong = tree_large;
    get_float = λ _. none;
    get_double = λ _. none;
    get_string = tree_text;
    get_symbol = λ _. none;
    get_binary = λ _. none;
    get_uuid = λ _. none;
    get_inplace_described_value = tree_inner;
    get_map_pair_count = tree_pair_count;
    get_map_key_value_pair = tree_pair;
    get_list_item_count = tree_item_count;
    get_list_item = tree_item;
    get_array_item_count = λ _. none;
    get_array_item = λ _ _. none;
    to_string = λ _. none;
  };
}

ubyte_fits : (v : Tree) (n : ℕ) → tree_small v ≡ some n → n < 2 ^ 8
ubyte_fits v n e = ground arith

ulong_fits : (v : Tree) (n : ℕ) → tree_large v ≡ some n → n < 2 ^ 64
ulong_fits v n e = ground arith

trees-HasWidths : HasWidths trees
trees-HasWidths = record {
  byte_width = λ v z e. cc;
  ubyte_width = ubyte_fits;
  short_width = λ v z e. cc;
  ushort_width = λ v n e. cc;
  int_width = λ v z e. cc;
  uint_width = λ v n e. cc;
  long_width = λ v z e. cc;
  char_width = λ v n e. cc;
  timestamp_width = λ v z e. cc;
  ulong_width = ulong_fits;
}

-- The same name twice, once as a number: the later pair counts.
abbrev repeated : Tree
repeated =
    dictionary (pair (text (codes "7")) (large (2 ^ 63)) (pair (small 7) (text (codes "x")) done))

decode_repeated :
    decode_amqp_value trees (some repeated) 0
    ≡ ok (Decoded.map (Entries.entry (codes "7") (Decoded.string (codes "x")) Entries.end))
unfolding decode_amqp_value decode_ulong insert key_name
decode_repeated = refl

decode_bad_key :
    decode_amqp_value trees (some (dictionary (pair nothing nothing done))) 0 ≡ err bad_map_key
unfolding decode_amqp_value key_name
decode_bad_key = refl

decode_amqp_value-Fits_example :
    Fits {D = ℕ}
      (32 - 0)
      (Decoded.map (Entries.entry (codes "7") (Decoded.string (codes "x")) Entries.end))
unfolding decode_amqp_value decode_ulong insert key_name
decode_amqp_value-Fits_example =
    decode_amqp_value-Fits trees trees-HasWidths (some repeated) 0
      (Decoded.map (Entries.entry (codes "7") (Decoded.string (codes "x")) Entries.end)) refl

-- A value inside two described values.
abbrev wrapped : Tree
wrapped = tagged (tagged (small 3))

wrapped-Described : Described trees 2 wrapped (small 3)
wrapped-Described =
    inside 1 wrapped (tagged (small 3)) (small 3) refl refl
      (inside 0 (tagged (small 3)) (small 3) (small 3) refl refl (here (small 3)))

decode_amqp_value-Described_example :
    decode_amqp_value trees (some wrapped) 30 ≡ decode_amqp_value trees (some (small 3)) (30 + 2)
decode_amqp_value-Described_example =
    decode_amqp_value-Described trees 2 30 wrapped (small 3) wrapped-Described

decode_amqp_value-map_example :
    (m : Entries ℕ) × (Decoded.map
        (Entries.entry (codes "7") (Decoded.string (codes "x")) Entries.end)
      ≡ Decoded.map m)
    × (lookup (codes "7") m ≡ last_named trees (deeper trees 0) (codes "7") repeated 0 2 none)
unfolding decode_amqp_value decode_ulong insert key_name
decode_amqp_value-map_example =
    decode_amqp_value-map trees repeated 2 0
      (Decoded.map (Entries.entry (codes "7") (Decoded.string (codes "x")) Entries.end)) (codes "7")
      (omega arith) refl refl refl

-- Sixteen bytes: groups of 8, 4, 4, 4 and 12 digits.
uuid_groups :
    uuid_text
      (0 ∷ 17 ∷ 34 ∷ 51 ∷ 68 ∷ 85 ∷ 102 ∷ 119 ∷ 136 ∷ 153 ∷ 170 ∷ 187 ∷ 204 ∷ 221 ∷ 238 ∷ 255 ∷ [])
    ≡ codes "00112233-4455-6677-8899-aabbccddeeff"
unfolding uuid_text hex_byte hex_digit
uuid_groups = refl
