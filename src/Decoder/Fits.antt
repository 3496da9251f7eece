-- ===== src/Decoder/Fits.antt =====
-- What a decoded value is guaranteed to be: shallow, with integers of `int64_t` and sorted maps.
use azure_uamqp_php.Prelude.{
  ℕ, zero, suc, ◌+◌, ◌-◌, ◌≤◌, ◌<◌, ◌≡◌, refl, Option, none, some, arith, ok, ◌>>=◌, Ensures, value,
  thrown, Ensures-bind, ensures-ok, Ensures-all, or_throw, inl, inr, Option-cases, Text,
}
use azure_uamqp_php.Prelude.Int.{ℤ, pos, IsInt64}
use azure_uamqp_php.AmqpValue.{AmqpType, AmqpApi, AmqpBinary, HasWidths}
use azure_uamqp_php.Decoder.Data.{Decoded, Entries, Items, IsSorted, insert, insert-IsSorted}
use azure_uamqp_php.Decoder.Uuid.{uuid_text}
use azure_uamqp_php.Decoder.{
  could_not_decode, no_list_item, no_described_value, unsupported_type, Decoding, decode_ulong,
  decode_text, decode_binary, decode_integer, decode_pairs, decode_items, decode_map,
  decode_sequence, decode_described, decode_typed, decode_levels, decode_amqp_value, check_decode,
  key_name,
}

-- No value lies more than `n` levels inside this one (an item or an entry of it lies one level inside), every integer is an `int64_t`, and
-- every map's keys ascend strictly.
abbrev mutual
  pub Fits : {D : Type 0} → ℕ → Decoded D → Type 0
  Fits n (Decoded.integer z) = IsInt64 z
  Fits n (Decoded.map m) = IsSorted m × FitEntries n m
  Fits n (Decoded.list ds) = FitItems n ds
  Fits n _ = Unit {0}

  pub FitEntries : {D : Type 0} → ℕ → Entries D → Type 0
  FitEntries n Entries.end = Unit {0}
  FitEntries n (Entries.entry k v m) = (0 < n) × Fits (n - 1) v × FitEntries n m

  pub FitItems : {D : Type 0} → ℕ → Items D → Type 0
  FitItems n Items.nil = Unit {0}
  FitItems n (Items.cons v vs) = (0 < n) × Fits (n - 1) v × FitItems n vs

insert-FitEntries :
    {D : Type 0} (n : ℕ) (k : Text) (v : Decoded D) (m : Entries D)
    → 0 < n
    → Fits (n - 1) v
    → FitEntries n m
    → FitEntries n (insert k v m)
unfolding insert
insert-FitEntries n k v Entries.end p h f = (p, h, tt)
insert-FitEntries n k v (Entries.entry j w m) p h f =
    ground (arith, insert-FitEntries n k v m p h f.2)

mutual
  Fits-mono : {D : Type 0} (n m : ℕ) (d : Decoded D) → n ≤ m → Fits n d → Fits m d
  Fits-mono n m Decoded.null le f = tt
  Fits-mono n m (Decoded.boolean b) le f = tt
  Fits-mono n m (Decoded.integer z) le f = f
  Fits-mono n m (Decoded.double x) le f = tt
  Fits-mono n m (Decoded.string t) le f = tt
  Fits-mono n m (Decoded.map es) le f = (f.0, FitEntries-mono n m es le f.1)
  Fits-mono n m (Decoded.list ds) le f = FitItems-mono n m ds le f

  FitEntries-mono :
      {D : Type 0} (n m : ℕ) (es : Entries D) → n ≤ m → FitEntries n es → FitEntries m es
  FitEntries-mono n m Entries.end le f = tt
  FitEntries-mono n m (Entries.entry k v es) le (p, h, f) =
      (omega arith, Fits-mono (n - 1) (m - 1) v (omega arith) h, FitEntries-mono n m es le f)

  FitItems-mono : {D : Type 0} (n m : ℕ) (ds : Items D) → n ≤ m → FitItems n ds → FitItems m ds
  FitItems-mono n m Items.nil le f = tt
  FitItems-mono n m (Items.cons v ds) le (p, h, f) =
      (omega arith, Fits-mono (n - 1) (m - 1) v (omega arith) h, FitItems-mono n m ds le f)

module _ (api : AmqpApi) where
  -- What the recursive calls ensure.
  abbrev ChildrenFit : (Option api.Value → Decoding api.Double) → ℕ → Type 0
  ChildrenFit decode n =
      (v : Option api.Value) (d : Decoded api.Double) → decode v ≡ ok d → (0 < n) × Fits (n - 1) d

  module _ (decode : Option api.Value → Decoding api.Double) (n : ℕ)
      (children : ChildrenFit decode n) where
    decode_pairs-Fits :
        (v : api.Value) (index left : ℕ) (m : Entries api.Double)
        → IsSorted m
        → FitEntries n m
        → Ensures (λ r. IsSorted r × FitEntries n r) (decode_pairs api decode v index left m)
    unfolding decode_pairs
    decode_pairs-Fits v index zero m s f = value m (s, f)
    decode_pairs-Fits v index (suc left) m s f = Ensures-bind _ λ (key, item) _.
        Ensures-bind (decode key) λ decoded_key _. Ensures-bind (key_name decoded_key) λ name _.
          Ensures-bind (decode item) λ decoded_item e.
            let (p, h) = children item decoded_item e in
            decode_pairs-Fits v (index + 1) left (insert name decoded_item m)
              (insert-IsSorted name decoded_item m s)
              (insert-FitEntries n name decoded_item m p h f)

    decode_items-Fits :
        (item : ℕ → Option api.Value) (index left : ℕ)
        → Ensures (FitItems n) (decode_items api decode item index left)
    unfolding decode_items
    decode_items-Fits item index zero = value Items.nil tt
    decode_items-Fits item index (suc left) =
        Ensures-bind (or_throw no_list_item (item index)) λ handle _.
          Ensures-bind (decode (some handle)) λ decoded e.
            Ensures-bind (decode_items api decode item (index + 1) left) λ rest more.
              let (p, h) = children (some handle) decoded e in
              value (Items.cons decoded rest)
                (p, h, ensures-ok (decode_items-Fits item (index + 1) left) more)

    decode_map-Fits : (v : api.Value) → Ensures (Fits n) (decode_map api decode v)
    unfolding decode_map
    decode_map-Fits v = Ensures-bind _ λ count _.
        Ensures-bind (decode_pairs api decode v 0 count Entries.end) λ m e.
          value (Decoded.map m) (ensures-ok (decode_pairs-Fits v 0 count Entries.end tt tt) e)

    decode_sequence-Fits :
        (counted : Option ℕ) (item : ℕ → Option api.Value)
        → Ensures (Fits n) (decode_sequence api decode counted item)
    unfolding decode_sequence
    decode_sequence-Fits counted item = Ensures-bind _ λ count _.
        Ensures-bind (decode_items api decode item 0 count)
          λ ds e. value (Decoded.list ds) (ensures-ok (decode_items-Fits item 0 count) e)

    decode_described-Fits : (v : api.Value) → Ensures (Fits n) (decode_described api decode v)
    unfolding decode_described
    decode_described-Fits v = elim (Option-cases (api.reads.get_inplace_described_value v)) [
      | inl missing ↦ rw (missing, decode_described) (thrown no_described_value)
      | inr (inner, found) ↦
          rw (found, decode_described)
            (Ensures-all (decode (some inner))
              λ d e. Fits-mono (n - 1) n d (omega arith) (children (some inner) d e).1)
    ]

    -- An integer getter whose values lie in `int64_t` after the cast.
    decode_integer-Fits :
        {T : Type 0} (cast : T → ℤ) (got : Option T)
        → ((t : T) → got ≡ some t → IsInt64 (cast t))
        → Ensures (Fits n) (decode_integer api cast got)
    unfolding decode_integer
    decode_integer-Fits cast none h = thrown could_not_decode
    decode_integer-Fits cast (some t) h = value (Decoded.integer (cast t)) (h t refl)

    decode_text-Fits : (text : Option Text) → Fits {D = api.Double} n (decode_text text)
    unfolding decode_text
    decode_text-Fits none = tt
    decode_text-Fits (some text) = tt

    decode_ulong-Fits : (k : ℕ) → Fits {D = api.Double} n (decode_ulong k)
    unfolding decode_ulong
    decode_ulong-Fits k = ground arith

    decode_binary-Fits : (b : AmqpBinary) → Ensures (Fits {D = api.Double} n) (decode_binary b)
    unfolding decode_binary
    decode_binary-Fits b = Ensures-all (decode_binary b) λ d e. ground arith

    -- A getter whose result is wrapped.
    decode_leaf-Fits :
        {A : Type 0} (got : Option A) (wrap : A → Decoded api.Double)
        → ((a : A) → Fits n (wrap a))
        → Ensures (Fits n) (check_decode got >>= λ a. ok (wrap a))
    decode_leaf-Fits none wrap h = thrown could_not_decode
    decode_leaf-Fits (some a) wrap h = value (wrap a) (h a)

    module _ (widths : HasWidths api) where
      decode_typed-Fits :
          (v : api.Value) (t : AmqpType) → Ensures (Fits n) (decode_typed api decode v t)
      unfolding decode_typed
      decode_typed-Fits v AmqpType.null = value Decoded.null tt
      decode_typed-Fits v AmqpType.boolean =
          decode_leaf-Fits (api.reads.get_boolean v) Decoded.boolean (λ b. tt)
      decode_typed-Fits v AmqpType.byte = decode_integer-Fits _ _ (widths.byte_width v)
      decode_typed-Fits v AmqpType.ubyte =
          decode_integer-Fits pos (api.reads.get_ubyte v)
            λ k e. omega (arith, widths.ubyte_width v k e)
      decode_typed-Fits v AmqpType.short = decode_integer-Fits _ _ (widths.short_width v)
      decode_typed-Fits v AmqpType.ushort =
          decode_integer-Fits pos (api.reads.get_ushort v)
            λ k e. omega (arith, widths.ushort_width v k e)
      decode_typed-Fits v AmqpType.int = decode_integer-Fits _ _ (widths.int_width v)
      decode_typed-Fits v AmqpType.uint =
          decode_integer-Fits pos (api.reads.get_uint v)
            λ k e. omega (arith, widths.uint_width v k e)
      decode_typed-Fits v AmqpType.long = decode_integer-Fits _ _ (widths.long_width v)
      decode_typed-Fits v AmqpType.char =
          decode_integer-Fits pos (api.reads.get_char v)
            λ k e. omega (arith, widths.char_width v k e)
      decode_typed-Fits v AmqpType.timestamp = decode_integer-Fits _ _ (widths.timestamp_width v)
      decode_typed-Fits v AmqpType.ulong =
          decode_leaf-Fits (api.reads.get_ulong v) decode_ulong decode_ulong-Fits
      decode_typed-Fits v AmqpType.float =
          decode_leaf-Fits (api.reads.get_float v) (λ x. Decoded.double (api.float_to_double x))
            (λ x. tt)
      decode_typed-Fits v AmqpType.double =
          decode_leaf-Fits (api.reads.get_double v) Decoded.double (λ x. tt)
      decode_typed-Fits v AmqpType.string =
          decode_leaf-Fits (api.reads.get_string v) decode_text decode_text-Fits
      decode_typed-Fits v AmqpType.symbol =
          decode_leaf-Fits (api.reads.get_symbol v) decode_text decode_text-Fits
      decode_typed-Fits v AmqpType.binary =
          Ensures-bind (check_decode (api.reads.get_binary v)) λ b _. decode_binary-Fits b
      decode_typed-Fits v AmqpType.uuid =
          decode_leaf-Fits (api.reads.get_uuid v) (λ b. Decoded.string (uuid_text b)) (λ b. tt)
      decode_typed-Fits v AmqpType.described = decode_described-Fits v
      decode_typed-Fits v AmqpType.map = decode_map-Fits v
      decode_typed-Fits v AmqpType.list =
          decode_sequence-Fits (api.reads.get_list_item_count v) (api.reads.get_list_item v)
      decode_typed-Fits v AmqpType.array =
          decode_sequence-Fits (api.reads.get_array_item_count v) (api.reads.get_array_item v)
      decode_typed-Fits v AmqpType.other = thrown unsupported_type

  module _ (widths : HasWidths api) where
    levels_fit : (n : ℕ) → ChildrenFit (decode_levels api n) n
    unfolding decode_levels
    levels_fit zero v d e = cc
    levels_fit (suc n) none d e = (
      omega arith,
      ensures-ok {P = Fits (suc n - 1)} {r = ok Decoded.null} (value Decoded.null tt) e,
    )
    levels_fit (suc n) (some v) d e = (
      omega arith,
      Fits-mono n (suc n - 1) d (omega arith) (
          ensures-ok
            (decode_typed-Fits (decode_levels api n) n (levels_fit n) widths v
              (api.reads.get_type v))
            e),
    )

    -- With getters whose integers have the widths of their types, whatever `decode_amqp_value`
    -- returns has integers of `int64_t` only, sorted maps with no key twice, and no value that lies
    -- more than 32 levels inside it, less the depth that it was called at.
    pub decode_amqp_value-Fits :
        (value : Option api.Value) (depth : ℕ) (d : Decoded api.Double)
        → decode_amqp_value api value depth ≡ ok d
        → Fits (32 - depth) d
    unfolding decode_amqp_value
    decode_amqp_value-Fits v depth d e =
        Fits-mono (33 - depth - 1) (32 - depth) d (omega arith) (levels_fit (33 - depth) v d e).1
