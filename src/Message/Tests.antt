-- ===== src/Message/Tests.antt =====
-- Runs of the message's methods on a small library, and the theorems at its values.
use azure_uamqp_php.Prelude.Options.{is_none}
use azure_uamqp_php.Prelude.{
  subst, not, Bool, ℕ, zero, suc, ◌+◌, ◌<◌, ◌≡◌, refl, true, false, Option, none, some, List, [],
  ◌∷◌, Text, codes, ok, err, ltb, if◌then◌else◌, arith,
}
use azure_uamqp_php.AmqpValue.{HasWidths}
use azure_uamqp_php.Decoder.Data.{Decoded, Entries}
use azure_uamqp_php.Decoder.Nesting.{Described, here, inside}
use azure_uamqp_php.Decoder.Step.{deeper}
use azure_uamqp_php.Decoder.Containers.{last_named}
use azure_uamqp_php.Decoder.{decode_amqp_value, key_name}
use azure_uamqp_php.Decoder.Data.{insert}
use azure_uamqp_php.Runtime.Library.{Thrown}
use azure_uamqp_php.Message.Library.{values_at}
use azure_uamqp_php.Message.State.{State, Change}
use azure_uamqp_php.Message.Body.{decode_amqp_value_body, get_body, create}
use azure_uamqp_php.Message.Php.{apply_requested_type}
use azure_uamqp_php.Message.Metadata.{
  get_metadata, get_all_metadata, get_metadata_map, get_one_metadata, copy_metadata_container,
}
use azure_uamqp_php.Message.Setting.{set_metadata, set_message_id, could_not_create}
use azure_uamqp_php.Prelude.Int.{pos}
use azure_uamqp_php.Message.Content.{
  joined, lines, HasText, decoded_to, get_body-data, get_body-sequences,
}
use azure_uamqp_php.Message.Storing.{IsStored}
use azure_uamqp_php.Message.Atomic.{Setter, apply_setter, apply_setter_throws}
use azure_uamqp_php.Message.Owning.{Lives, lifetime-Lives}
use azure_uamqp_php.Message.Kept.{
  Operation, read, write, receive, Step, known, perform, perform-Step,
}
use azure_uamqp_php.Message.Sharing.{AreOwn}
use azure_uamqp_php.Message.Setters.{setters-AreOwn}
use azure_uamqp_php.Message.Nested.{get_metadata_map-Described}
use azure_uamqp_php.Message.Reading.{HasArrays, shown, get_one_metadata-map}
use azure_uamqp_php.Message.Copies.{IsWritable, pairs_kept, copy_metadata_container-map}
use azure_uamqp_php.Message.Types.{PhpType, HasTypes, Answers, apply_requested_type-type}
use azure_uamqp_php.Message.Samples.{
  is_new, are_new, pair_of, section_of, small, holding, values, Php, nothing, flag, number, real,
  string,
}

get_body-data_example :
    get_body small (holding 1)
    ≡ (ok (joined section_of 0 2), decoded_to small (holding 1) (joined section_of 0 2))
get_body-data_example =
    get_body-data small (holding 1) 1 refl refl 2 section_of refl refl (λ i h. refl)

abbrev line_of : ℕ → Text
line_of i = (i + 65) ∷ []

lines_there : (i : ℕ) → i < 2 → HasText small (holding 2) 2 line_of i
unfolding decode_amqp_value_body
lines_there zero h = (65, refl, refl)
lines_there (suc zero) h = (66, refl, refl)
lines_there (suc (suc i)) h = ground arith

get_body-sequences_example :
    get_body small (holding 2)
    ≡ (ok (lines line_of 2), decoded_to small (holding 2) (lines line_of 2))
get_body-sequences_example =
    get_body-sequences small (holding 2) 2 refl refl 2 line_of refl refl lines_there

perform-Step_example :
    Step ℕ Operation.read
      (known small (holding 1))
      (perform small Operation.read (holding 1)).0
      (known small (perform small Operation.read (holding 1)).1)
perform-Step_example = perform-Step small Operation.read (holding 1)

wrapped-Described : Described (values_at small 0) 1 1 0
wrapped-Described = inside 0 1 0 0 refl refl (here 0)

get_metadata_map-Described_example : get_metadata_map small (some 1) (holding 1) ≡ (
  (if ltb 32 1
      then err (Thrown.extension (codes "AMQP message metadata must contain a map"))
      else ok 0),
  holding 1,
)
get_metadata_map-Described_example =
    get_metadata_map-Described small 1 1 0 (holding 1) wrapped-Described refl

pairs_there : (i : ℕ) → i < 2 → (p : Option ℕ × Option ℕ) × (pair_of 0 i ≡ some p)
pairs_there zero h = ((some 65, some 66), refl)
pairs_there (suc zero) h = ((some 67, some 68), refl)
pairs_there (suc (suc i)) h = ground arith

abbrev has_key : Option (Option ℕ × Option ℕ) → Bool
has_key none = false
has_key (some (k, v)) = not (is_none k)

-- This library takes every pair whose key is not NULL.
accepts_pairs :
    (m i : ℕ) (key value : Option ℕ)
    → i < 2
    → pair_of 0 i ≡ some (key, value)
    → (small.set_map_value 2 key value m).0 ≡ true
accepts_pairs m zero key value h e = subst (λ o. has_key o ≡ true) e refl
accepts_pairs m (suc zero) key value h e = subst (λ o. has_key o ≡ true) e refl
accepts_pairs m (suc (suc i)) key value h e = ground arith

abbrev container-IsWritable : IsWritable small 0 2 (some 65) 0 2
container-IsWritable = record {
  going = λ m. Unit {0};
  same_pair = λ m i g h. refl;
  same_key = λ m i key value g h e. refl;
  accepted = λ m i key value g h e d. (accepts_pairs m i key value h e, tt);
}

copy_metadata_container-map_example :
    (s' : State ℕ ℕ ℕ ℕ) × (copy_metadata_container small 0 (some 65) (holding 1) ≡ (ok 2, s'))
    × (s'.log ≡ pairs_kept small 0 0 (some 65) 2 0 2 (Change.made 2 ∷ []))
copy_metadata_container-map_example =
    copy_metadata_container-map small 0 2 (some 65) 2 (holding 1) 0 refl refl pairs_there refl
      container-IsWritable tt

values-HasArrays : HasArrays values
values-HasArrays = record { at_empty = λ k. refl; at_set = λ a v k j. refl }

-- The library counts what is stored and what is written to others than those that it created, and
-- cannot create a timestamp.
counting-IsStored : IsStored small (λ l. l)
counting-IsStored = record {
  is_free = λ v l. is_new v ≡ true;
  are_free = λ p l. are_new p ≡ true;
  free_map = λ v l e. subst (λ u. is_new u ≡ true) {x = 2} {y = v} (cc) refl;
  free_composite = λ d n v l e. subst (λ u. is_new u ≡ true) {x = 80} {y = v} (cc) refl;
  free_properties = λ p l e. subst (λ q. are_new q ≡ true) {x = 8} {y = p} (cc) refl;
  free_read = λ v p l h e. subst (λ q. are_new q ≡ true) {x = 9} {y = p} (cc) refl;
  free_by_string = λ t p l h. h;
  free_by_pair = λ r k v l h. h;
  free_by_item = λ r i v l h. h;
  by_map = λ l. refl;
  by_composite = λ d n l. refl;
  by_symbol = λ t l. refl;
  by_string = λ t l. refl;
  by_int = λ z l. refl;
  by_timestamp = λ z l. refl;
  by_long = λ z l. refl;
  by_double = λ x l. refl;
  by_boolean = λ b l. refl;
  by_section = λ v l. refl;
  by_properties = λ p l. refl;
  by_new_properties = λ l. refl;
  by_read_properties = λ v l. refl;
  by_pair = λ r k v l h. rw h refl;
  by_item = λ r i v l h. rw h refl;
  by_id = λ p v l h. rw h refl;
  refused_annotations = λ m v l e. cc;
  refused_application_properties = λ m v l e. cc;
  refused_properties = λ m p l e. cc;
}

abbrev a_timestamp : Setter Php
a_timestamp = Setter.metadata false (string (codes "k")) (string (codes "T")) (number (pos 5))

apply_setter_throws_example :
    ((apply_setter small values a_timestamp (holding 1)).1.library ≡ 0)
    × ((apply_setter small values a_timestamp (holding 1)).1.object ≡ (holding 1).object)
unfolding apply_setter
apply_setter_throws_example =
    apply_setter_throws small values (λ l. l) counting-IsStored a_timestamp (holding 1)
      (Thrown.extension could_not_create) refl

setters-AreOwn_example :
    AreOwn
      (set_metadata small values true
        (string (codes "k"))
        (string (codes "S"))
        (string (codes "v"))
        (holding 1)).1.log
    × AreOwn (set_message_id small values (string (codes "v")) (holding 1)).1.log
setters-AreOwn_example =
    setters-AreOwn small values true (string (codes "k")) (string (codes "S")) (string (codes "v"))
      (holding 1) refl

small-HasWidths : HasWidths (values_at small 0)
small-HasWidths = record {
  byte_width = λ v z e. cc;
  ubyte_width = λ v n e. cc;
  short_width = λ v z e. cc;
  ushort_width = λ v n e. cc;
  int_width = λ v z e. cc;
  uint_width = λ v n e. cc;
  long_width = λ v z e. cc;
  char_width = λ v n e. cc;
  timestamp_width = λ v z e. cc;
  ulong_width = λ v n e. cc;
}

abbrev decoded_metadata : Decoded ℕ
decoded_metadata = Decoded.map (
    Entries.entry (codes "A") (Decoded.string (codes "B"))
      (Entries.entry (codes "C") (Decoded.string (codes "D")) Entries.end))

get_one_metadata-map_example :
    get_one_metadata small values false (string (codes "C")) none (holding 1) ≡ (
      apply_requested_type values
          (shown values
            (last_named (values_at small 0) (deeper (values_at small 0) 1) (codes "C") 0 0 2 none)
            nothing)
          none,
      holding 1,
    )
unfolding get_metadata decode_amqp_value insert key_name
get_one_metadata-map_example =
    get_one_metadata-map small values values-HasArrays false (string (codes "C")) none (holding 1) 1
      0 2 1 decoded_metadata small-HasWidths refl wrapped-Described (omega arith) refl refl refl

-- `getApplicationProperty("C")`, and the name and the value of what is written for "k".
one_read :
    get_one_metadata small values false (string (codes "C")) none (holding 1)
    ≡ (ok (string (codes "D")), holding 1)
unfolding get_one_metadata get_all_metadata get_metadata decode_amqp_value
one_read = refl

abbrev changes : List (Change ℕ ℕ)
changes =
    Change.put 2 (some 110) (some 121)
    ∷ Change.put 2 (some 67) (some 68)
    ∷ Change.put 2 (some 65) (some 66)
    ∷ Change.made 2
    ∷ []

one_written :
    (set_metadata small values false
      (string (codes "k"))
      (string (codes "S"))
      (string (codes "v"))
      (holding 1)).1.log
    ≡ changes
unfolding set_metadata
one_written = refl

abbrev type_of : Php → Option PhpType
type_of (flag b) = some PhpType.boolean
type_of (number z) = some PhpType.integer
type_of (real x) = some PhpType.double
type_of (string t) = some PhpType.string
type_of _ = none

abbrev values-HasTypes : HasTypes values
values-HasTypes = record {
  type_of = type_of;
  integers = λ z. refl;
  strings = λ t. refl;
  doubles = λ x. refl;
  booleans = λ b. refl;
}

apply_requested_type-type_example :
    Answers small values values-HasTypes
      (string (codes "12"))
      (string (codes "D"))
      (some PhpType.double)
apply_requested_type-type_example =
    apply_requested_type-type small values values-HasTypes (string (codes "12"))
      (string (codes "D")) refl refl

lifetime-Lives_example :
    Lives small (receive (some 5) ∷ read ∷ write (codes "t") ∷ []) (create small (holding 1))
lifetime-Lives_example =
    (lifetime-Lives small (receive (some 5) ∷ read ∷ write (codes "t") ∷ []) (some 2) (holding 1)
      refl).0
