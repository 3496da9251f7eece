-- ===== src/Message/Reading.antt =====
-- Message.cpp: a single value of the metadata, as PHP reads it.
use azure_uamqp_php.Prelude.{
  ℕ, ◌≤◌, ◌≡◌, refl, ◌∙◌, ap, sym, Bool, true, false, Option, none, some, Text, text_eq, text_eq-eq,
  if◌then◌else◌, ok, arith, ◌⊎◌, subst, Bool-cases, inl, inr,
}
use azure_uamqp_php.AmqpValue.{AmqpType, HasWidths}
use azure_uamqp_php.Decoder.{decode_amqp_value}
use azure_uamqp_php.Decoder.Data.{
  Decoded, Entries, lookup, IsSorted, Above, text_lt, text_lt_irrefl, text_lt_trans,
}
use azure_uamqp_php.Decoder.Fits.{decode_amqp_value-Fits}
use azure_uamqp_php.Decoder.Nesting.{Described, decode_amqp_value-Described}
use azure_uamqp_php.Decoder.Containers.{last_named, decode_amqp_value-map}
use azure_uamqp_php.Decoder.Step.{deeper}
use azure_uamqp_php.Message.Library.{MessageApi, PhpApi, values_at}
use azure_uamqp_php.Message.State.{State}
use azure_uamqp_php.Message.Php.{to_php_value, put_entries, apply_requested_type, decode_metadata}
use azure_uamqp_php.Message.Metadata.{get_metadata, get_all_metadata, get_one_metadata}

-- PHP arrays: what is set under a key is read under it, and everything else stays.
pub record HasArrays {D : Type 0} (php : PhpApi D) : Type 0 where
  pub at_empty : (k : Text) → php.at_text php.empty_array k ≡ php.null
  pub at_set :
      (array value : php.Value) (k j : Text)
      → php.at_text (php.set_at_text array k value) j
        ≡ (if text_eq k j then value else php.at_text array j)

text_eq-above : (k j : Text) → text_lt k j ≡ true → text_eq j k ≡ false
text_eq-above k j e = ground (arith, text_eq-eq j k, text_lt_irrefl k)

module _ {D : Type 0} where
  Above-trans : (k j : Text) (m : Entries D) → text_lt k j ≡ true → Above j m → Above k m
  Above-trans k j Entries.end e a = tt
  Above-trans k j (Entries.entry i w m) e a = text_lt_trans k j i e a

  lookup-Above : (k : Text) (m : Entries D) → Above k m → IsSorted m → lookup k m ≡ none
  unfolding lookup
  lookup-Above k Entries.end a s = refl
  lookup-Above k (Entries.entry j w m) a s =
      rw (text_eq-above k j a) (lookup-Above k m (Above-trans k j m a s.0) s.1)

module _ {D : Type 0} (php : PhpApi D) where
  abbrev pub shown : Option (Decoded D) → php.Value → php.Value
  shown none otherwise = otherwise
  shown (some d) otherwise = to_php_value php d

module _ {D : Type 0} (php : PhpApi D) (arrays : HasArrays php) where
  put_entries-at :
      (k : Text) (m : Entries D) (array : php.Value)
      → IsSorted m
      → php.at_text (put_entries php m array) k ≡ shown php (lookup k m) (php.at_text array k)
  unfolding to_php_value lookup
  put_entries-at k Entries.end array s = refl
  put_entries-at k (Entries.entry j w m) array s =
      put_entries-at k m (php.set_at_text array j (to_php_value php w)) s.1
      ∙ rw (arrays.at_set array (to_php_value php w) j k) (last (Bool-cases (text_eq j k)))
    where
      last :
          (text_eq j k ≡ true) ⊎ (text_eq j k ≡ false)
          → shown php (lookup k m) (if text_eq j k then to_php_value php w else php.at_text array k)
            ≡ shown php (if text_eq j k then some w else lookup k m) (php.at_text array k)
      last (inl e) = rw e (ap (λ o. shown php o (to_php_value php w)) absent)
        where
          absent : lookup k m ≡ none
          absent = lookup-Above k m (subst (λ t. Above t m) (text_eq-eq j k e) s.0) s.1
      last (inr e) = rw e refl

module _ (api : MessageApi) (php : PhpApi api.Double) (arrays : HasArrays php) where
  -- For metadata that is a map inside at most 32 described values and is decoded, with getters whose
  -- integers have the widths of their types: `getApplicationProperty` and `getMessageAnnotation`
  -- return what the last pair under the name is decoded to, as a PHP value and brought to the
  -- requested type, and null in its place if there is no such pair.
  pub get_one_metadata-map :
      (annotation : Bool) (key : php.Value) (type : Option php.Value)
      (s : State api.Library api.Value api.Properties api.Handle) (v core : api.Value) (n k : ℕ)
      (d : Decoded api.Double)
      → HasWidths (values_at api s.library)
      → get_metadata api s.object.message annotation s ≡ (ok (some v), s)
      → Described (values_at api s.library) k v core
      → k ≤ 32
      → (api.reads s.library).get_type core ≡ AmqpType.map
      → (api.reads s.library).get_map_pair_count core ≡ some n
      → decode_amqp_value (values_at api s.library) (some v) 0 ≡ ok d
      → get_one_metadata api php annotation key type s ≡ (
        apply_requested_type php
            (shown php
              (last_named
                (values_at api s.library)
                (deeper (values_at api s.library) k)
                (php.string_value key)
                core
                0
                n
                none)
              php.null)
            type,
        s,
      )
  unfolding get_one_metadata get_all_metadata decode_metadata to_php_value decode_amqp_value
  get_one_metadata-map annotation key type s v core n k d widths found nested few t c e =
      let values = values_at api s.library in
      let name = php.string_value key in
      let inner =
        ap (decode_amqp_value values (some core)) (omega arith)
        ∙ sym (decode_amqp_value-Described values k 0 v core nested)
        ∙ e in
      let (m, is, named) = decode_amqp_value-map values core n k d name few t c inner in
      let decoded = e ∙ ap ok is in
      let fits = decode_amqp_value-Fits values widths (some v) 0 (Decoded.map m) decoded in
      let shown_at =
        put_entries-at php arrays name m php.empty_array fits.0
        ∙ rw (named, arrays.at_empty name) refl in
      rw found (rw decoded (ap (λ x. (apply_requested_type php x type, s)) shown_at))
