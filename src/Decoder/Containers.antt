-- ===== src/Decoder/Containers.antt =====
-- Maps and lists, entry by entry.
use azure_uamqp_php.Prelude.{
  ℕ, zero, suc, ◌+◌, ◌≤◌, ◌<◌, ◌≡◌, refl, Option, none, some, arith, Result, ok, err, ◌>>=◌, ◌∙◌,
  sym, if◌then◌else◌, Text, text_eq, Ensures, value, Ensures-bind, ensures-ok, ap, or_throw,
  or_throw-ok, >>=-eq-ok,
}
use azure_uamqp_php.AmqpValue.{AmqpType, AmqpApi}
use azure_uamqp_php.Decoder.Data.{
  Decoded, Entries, Items, insert, lookup, lookup-insert, item_at, count,
}
use azure_uamqp_php.Decoder.Step.{deeper, decode_amqp_value-step}
use azure_uamqp_php.Decoder.{
  DecodeError, no_list_item, Decoding, decode_pairs, decode_items, decode_map, decode_sequence,
  check_decode, decode_typed, decode_amqp_value, key_name,
}

module _ (api : AmqpApi) (decode : Option api.Value → Decoding api.Double) where
  abbrev D : Type 0
  D = api.Double

  -- The pair at an index, decoded: the specification of one round of the loop.
  pub read_pair : api.Value → ℕ → Result DecodeError (Text × Decoded D)
  read_pair v index = do
    (key, item) ← check_decode (api.reads.get_map_key_value_pair v index)
    decoded_key ← decode key
    name ← key_name decoded_key
    decoded_item ← decode item
    ok (name, decoded_item)

  -- The value of the last of `left` pairs from `index` on whose name is `k`, or else `found`.
  abbrev pub last_named : Text → api.Value → ℕ → ℕ → Option (Decoded D) → Option (Decoded D)
  last_named k v index zero found = found
  last_named k v index (suc left) found =
      last_named k v (index + 1) left (elim (read_pair v index) [
        | ok (name, item) ↦ if text_eq name k then some item else found
        | err _ ↦ found
      ])

  pairs_last :
      (k : Text) (v : api.Value) (index left : ℕ) (m : Entries D)
      → Ensures
          (λ r. lookup k r ≡ last_named k v index left (lookup k m))
          (decode_pairs api decode v index left m)
  unfolding decode_pairs read_pair
  pairs_last k v index zero m = value m refl
  pairs_last k v index (suc left) m =
      Ensures-bind (check_decode (api.reads.get_map_key_value_pair v index)) λ (key, item) e1.
        Ensures-bind (decode key) λ decoded_key e2. Ensures-bind (key_name decoded_key) λ name e3.
          Ensures-bind (decode item) λ decoded_item e4.
            let pair : read_pair v index ≡ ok (name, decoded_item) = rw (e1, e2, e3, e4) refl in
            let rest = pairs_last k v (index + 1) left (insert name decoded_item m) in
            rw (pair, ← lookup-insert name k decoded_item m) rest

  -- Item `j` of the result is the decoded item `index + j`, for each of `left` items.
  abbrev pub EachDecoded : (ℕ → Option api.Value) → ℕ → ℕ → Items D → Type 0
  EachDecoded item index left ds =
      (j : ℕ)
      → j < left
      → (v : api.Value) × (d : Decoded D) × (item (index + j) ≡ some v)
        × (decode (some v) ≡ ok d)
        × (item_at ds j ≡ some d)

  EachDecoded-cons :
      (item : ℕ → Option api.Value) (index left : ℕ) (v : api.Value) (d : Decoded D) (ds : Items D)
      → item index ≡ some v
      → decode (some v) ≡ ok d
      → EachDecoded item (index + 1) left ds
      → EachDecoded item index (suc left) (Items.cons d ds)
  EachDecoded-cons item index left v d ds e1 e2 each zero h =
      (v, d, ap item (omega arith) ∙ e1, e2, refl)
  EachDecoded-cons item index left v d ds e1 e2 each (suc j) h =
      let (w, c, f1, f2, f3) = each j (omega arith) in (w, c, ap item (omega arith) ∙ f1, f2, f3)

  items_each :
      (item : ℕ → Option api.Value) (index left : ℕ)
      → Ensures
          (λ ds. (count ds ≡ left) × EachDecoded item index left ds)
          (decode_items api decode item index left)
  unfolding decode_items
  items_each item index zero = value Items.nil (refl, λ j h. elim h [ ])
  items_each item index (suc left) = Ensures-bind (or_throw no_list_item (item index)) λ v e1.
      Ensures-bind (decode (some v)) λ d e2.
        Ensures-bind (decode_items api decode item (index + 1) left) λ rest e3.
          let (same, each) = ensures-ok (items_each item (index + 1) left) e3 in
          value (Items.cons d rest)
            (ap suc same, EachDecoded-cons item index left v d rest (or_throw-ok _ _ e1) e2 each)

module _ (api : AmqpApi) where
  -- For a map value, at most 32 levels down, that is decoded: the decoded map holds, under each name, the value of the last pair whose key has that name.
  pub decode_amqp_value-map :
      (v : api.Value) (n depth : ℕ) (d : Decoded api.Double) (k : Text)
      → depth ≤ 32
      → api.reads.get_type v ≡ AmqpType.map
      → api.reads.get_map_pair_count v ≡ some n
      → decode_amqp_value api (some v) depth ≡ ok d
      → (m : Entries api.Double) × (d ≡ Decoded.map m)
        × (lookup k m ≡ last_named api (deeper api depth) k v 0 n none)
  unfolding decode_typed decode_map lookup
  decode_amqp_value-map v n depth d k h t c e =
      let below = deeper api depth in
      let pairs = decode_pairs api below v 0 n Entries.end in
      let whole : (pairs >>= λ m. ok (Decoded.map m)) ≡ ok d =
        sym (rw (decode_amqp_value-step api v depth h, t, c)) ∙ e in
      let (m, read, wrapped) = >>=-eq-ok pairs _ whole in
      (m, cc, ensures-ok (pairs_last api below k v 0 n Entries.end) read)

  -- For a list value, at most 32 levels down, that is decoded: the decoded list has as many items as the value says, in their order, each of them
  -- decoded one level further down.
  decode_amqp_value-list :
      (v : api.Value) (n depth : ℕ) (d : Decoded api.Double)
      → depth ≤ 32
      → api.reads.get_type v ≡ AmqpType.list
      → api.reads.get_list_item_count v ≡ some n
      → decode_amqp_value api (some v) depth ≡ ok d
      → (ds : Items api.Double) × (d ≡ Decoded.list ds)
        × (count ds ≡ n)
        × EachDecoded api (deeper api depth) (api.reads.get_list_item v) 0 n ds
  unfolding decode_typed decode_sequence
  decode_amqp_value-list v n depth d h t c e =
      let below = deeper api depth in
      let items = decode_items api below (api.reads.get_list_item v) 0 n in
      let whole : (items >>= λ ds. ok (Decoded.list ds)) ≡ ok d =
        sym (rw (decode_amqp_value-step api v depth h, t, c)) ∙ e in
      let (ds, read, wrapped) = >>=-eq-ok items _ whole in
      let (same, each) = ensures-ok (items_each api below (api.reads.get_list_item v) 0 n) read in
      (ds, cc, same, each)
