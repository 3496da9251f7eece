-- ===== src/Message/Content.antt =====
-- Message.cpp, `getBody`: what is returned, and what the object keeps of it.
use azure_uamqp_php.Prelude.{
  ℕ, zero, suc, ◌+◌, ◌≤◌, ◌<◌, ◌≡◌, refl, ap, ◌∙◌, true, false, some, [], ◌++◌, Text, codes, ltb,
  if◌then◌else◌, Result, ok, arith, Bool-cases, inl, inr,
}
use mathlib.Core.List.{append_assoc, append-nil}
use azure_uamqp_php.AmqpValue.{AmqpBinary}
use azure_uamqp_php.Message.Library.{BodyType, MessageApi, values_at}
use azure_uamqp_php.Runtime.Library.{Thrown}
use azure_uamqp_php.Message.State.{State, continue_with, no_binary}
use azure_uamqp_php.Message.Body.{
  bytes_of, decode_amqp_value_body, decode_amqp_value_body_checked, read_data, read_sequences,
  read_typed, read_body, get_body, append_data,
}

-- The sections from `index` on, one after the other.
abbrev pub joined : (ℕ → AmqpBinary) → ℕ → ℕ → Text
joined datum index zero = []
joined datum index (suc left) = bytes_of (datum index) ++ joined datum (index + 1) left

-- A line feed and a text, each time.
abbrev pub following : (ℕ → Text) → ℕ → ℕ → Text
following text index zero = []
following text index (suc left) = codes "\n" ++ (text index ++ following text (index + 1) left)

-- The texts with line feeds between them.
abbrev pub lines : (ℕ → Text) → ℕ → Text
lines text zero = []
lines text (suc n) = text 0 ++ following text 1 n

module _ (api : MessageApi) where
  abbrev pub S : Type 0
  S = State api.Library api.Value api.Properties api.Handle

  abbrev pub with_body : S → Text → S
  with_body s t = record s { object = record s.object { body = t } }

  append_data-after :
      (b : AmqpBinary) (s : S)
      → append_data api b s ≡ (ok tt, with_body s (s.object.body ++ bytes_of b))
  append_data-after b s = ground (arith, append-nil s.object.body)

  read_data-after :
      (h : api.Handle) (datum : ℕ → AmqpBinary) (index left : ℕ) (s : S)
      → ((i : ℕ)
          → index ≤ i
          → i < index + left
          → api.message_get_body_amqp_data_in_place s.library h i ≡ some (datum i))
      → read_data api h index left s
        ≡ (ok tt, with_body s (s.object.body ++ joined datum index left))
  unfolding read_data
  read_data-after h datum index zero s r = rw (append-nil s.object.body) refl
  read_data-after h datum index (suc left) s r = rw (r index (omega arith) (omega arith)) (
      rw (append_data-after (datum index) s) (
        read_data-after h datum (index + 1) left
          (with_body s (s.object.body ++ bytes_of (datum index)))
          (λ i l u. r i (omega arith) (omega arith))
        ∙ ap (λ t. (ok tt, with_body s t))
            (append_assoc s.object.body (bytes_of (datum index)) (joined datum (index + 1) left))))

  -- Sequence `i` of the message is there and is decoded to `text i`.
  abbrev pub HasText : S → api.Handle → (ℕ → Text) → ℕ → Type 0
  HasText s h text i =
      (v : api.Value) × (api.message_get_body_amqp_sequence_in_place s.library h i ≡ some (some v))
      × (decode_amqp_value_body (values_at api s.library) (some v) ≡ ok (text i))

  decode-checked :
      (v : api.Value) (t : Text) (s : S)
      → decode_amqp_value_body (values_at api s.library) (some v) ≡ ok t
      → decode_amqp_value_body_checked api v s ≡ (ok t, s)
  unfolding decode_amqp_value_body_checked
  decode-checked v t s e = rw e refl

  abbrev separator : ℕ → Text
  separator index = if ltb 0 index then codes "\n" else []

  read_sequences-step :
      (h : api.Handle) (text : ℕ → Text) (index left : ℕ) (s : S)
      → HasText s h text index
      → read_sequences api h index (suc left) s
        ≡ read_sequences api h
            (index + 1)
            left
            (with_body s ((s.object.body ++ separator index) ++ text index))
  unfolding read_sequences
  read_sequences-step h text index left s (v, found, decoded) = elim (Bool-cases (ltb 0 index)) [
    | inl e ↦
        rw (found, e)
          (rw (decode-checked v (text index) (with_body s (s.object.body ++ codes "\n")) decoded)
            refl)
    | inr e ↦
        rw (found, e)
          (rw (append-nil s.object.body) (rw (decode-checked v (text index) s decoded) refl))
  ]

  following-after :
      (h : api.Handle) (text : ℕ → Text) (index left : ℕ) (s : S)
      → 0 < index
      → ((i : ℕ) → index ≤ i → i < index + left → HasText s h text i)
      → read_sequences api h index left s
        ≡ (ok tt, with_body s (s.object.body ++ following text index left))
  following-after h text index zero s p r =
      unfold read_sequences in rw (append-nil s.object.body) refl
  following-after h text index (suc left) s p r =
      let after = with_body s ((s.object.body ++ separator index) ++ text index) in
      read_sequences-step h text index left s (r index (omega arith) (omega arith))
      ∙ following-after h text (index + 1) left after (omega arith)
          (λ i l u. r i (omega arith) (omega arith))
      ∙ ap (λ t. (ok tt, with_body s t))
          (ap (λ t. ((s.object.body ++ t) ++ text index) ++ following text (index + 1) left)
              line_feed
            ∙ simp append_assoc)
    where
      line_feed : separator index ≡ codes "\n"
      line_feed = ground arith

  lines-after :
      (h : api.Handle) (text : ℕ → Text) (n : ℕ) (s : S)
      → s.object.body ≡ []
      → ((i : ℕ) → i < n → HasText s h text i)
      → read_sequences api h 0 n s ≡ (ok tt, with_body s (lines text n))
  lines-after h text zero s empty r =
      unfold read_sequences in ap (λ t. (ok tt, with_body s t)) empty
  lines-after h text (suc n) s empty r =
      read_sequences-step h text 0 n s (r 0 (omega arith))
      ∙ following-after h text (0 + 1) n (with_body s ((s.object.body ++ []) ++ text 0))
          (omega arith) (λ i l u. r i (omega arith))
      ∙ ap (λ t. (ok tt, with_body s ((t ++ []) ++ text 0 ++ following text 1 n))) empty

  -- What `getBody` leaves behind when it returns `t`.
  abbrev pub decoded_to : S → Text → S
  decoded_to s t = record s {
    object = record s.object { body = t; body_decoded = true; binary_data = no_binary };
  }

  module _ (s : S) (h : api.Handle) (fresh : s.object.body_decoded ≡ false)
      (held : s.object.message ≡ some h) where
    abbrev cleared : S
    cleared = record s { object = record s.object { body = []; binary_data = no_binary } }

    abbrev settled : Result Thrown (Unit {0}) × S → Result Thrown Text × S
    settled = continue_with (λ _ s'.
        (ok s'.object.body, record s' { object = record s'.object { body_decoded = true } }))

    get_body-typed :
        (type : BodyType)
        → api.message_get_body_type s.library h ≡ some type
        → get_body api s ≡ settled (read_typed api h type cleared)
    unfolding get_body read_body
    get_body-typed type e = simp (fresh, held, e)

    -- The body of a message with data sections, all of which can be read, is their bytes, one section
    -- after the other; it is decoded once, and kept.
    pub get_body-data :
        (n : ℕ) (datum : ℕ → AmqpBinary)
        → api.message_get_body_type s.library h ≡ some BodyType.data_body
        → api.message_get_body_amqp_data_count s.library h ≡ some n
        → ((i : ℕ) → i < n → api.message_get_body_amqp_data_in_place s.library h i ≡ some (datum i))
        → get_body api s ≡ (ok (joined datum 0 n), decoded_to s (joined datum 0 n))
    unfolding read_typed
    get_body-data n datum type count sections =
        get_body-typed BodyType.data_body type
        ∙ simp (count, read_data-after h datum 0 n cleared (λ i l u. sections i (omega arith)))

    -- The body of a message with sequences is their texts in lines, without a line feed before
    -- the first and after the last.
    pub get_body-sequences :
        (n : ℕ) (text : ℕ → Text)
        → api.message_get_body_type s.library h ≡ some BodyType.sequence_body
        → api.message_get_body_amqp_sequence_count s.library h ≡ some n
        → ((i : ℕ) → i < n → HasText s h text i)
        → get_body api s ≡ (ok (lines text n), decoded_to s (lines text n))
    unfolding read_typed
    get_body-sequences n text type count sequences =
        get_body-typed BodyType.sequence_body type
        ∙ simp (count, lines-after h text n cleared refl sequences)
