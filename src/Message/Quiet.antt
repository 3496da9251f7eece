-- ===== src/Message/Quiet.antt =====
-- Message.cpp, `getBody`: what reading the body leaves alone.
use azure_uamqp_php.Prelude.{
  ℕ, zero, suc, ◌+◌, ltb, not, ◌&&◌, Option, some, Text, Result, ok, err, codes, ◌++◌,
}
use azure_uamqp_php.Runtime.Library.{Thrown}
use azure_uamqp_php.Message.Library.{BodyType, MessageApi, values_at}
use azure_uamqp_php.Message.State.{State, M, checked}
use azure_uamqp_php.Message.Body.{
  bytes_of, is_none, body_error, decode_amqp_value_body, decode_amqp_value_body_checked, read_data,
  read_sequences, read_typed, append_body,
}
use azure_uamqp_php.Message.Gives.{
  Post, Gives, gives, Gives-bind, Gives-pure, Gives-raise, Gives-when, Gives-checked, Gives-change,
}

-- A condition that another text of the body does not touch.
module _ (api : MessageApi) (P : State api.Library api.Value api.Properties api.Handle → Type 0)
    (stable : (s : State api.Library api.Value api.Properties api.Handle) (t : Text)
      → P s
      → P (record s { object = record s.object { body = t } })) where
  abbrev S : Type 0
  S = State api.Library api.Value api.Properties api.Handle

  -- What reads the body gets by without saying that it is read.
  abbrev pub Quiet : {A : Type 0} → M api A → Type 0
  Quiet m = Gives P P m (λ _. P)

  pub Quiet-checked : {A : Type 0} (t : Text) (f : api.Library → Option A) → Quiet (checked t f)
  Quiet-checked t f = Gives-checked P P (λ s q. q) t f

  Quiet-append_body : (t : Text) → Quiet (append_body api t)
  Quiet-append_body t =
      Gives-change P P (λ m. record m { body = m.body ++ t }) (λ s q. stable s _ q)

  Quiet-decode : (v : api.Value) → Quiet (decode_amqp_value_body_checked api v)
  unfolding decode_amqp_value_body_checked
  Quiet-decode v = gives (λ s q. go s (decode_amqp_value_body (values_at api s.library) (some v)) q)
    where
      go :
          (s : S) (r : Result _ Text)
          → P s
          → Post {A = Text} P
              (λ _. P)
              (elim r [ ok t ↦ (ok t, s) | err e ↦ (err (Thrown.extension (body_error e)), s) ])
      go s (ok t) q = q
      go s (err e) q = q

  Quiet-read_data : (h : api.Handle) (index left : ℕ) → Quiet (read_data api h index left)
  unfolding read_data
  Quiet-read_data h index zero = Gives-pure P P tt
  Quiet-read_data h index (suc left) =
      Gives-bind P
        (Quiet-checked (codes "Could not decode AMQP data message body")
          (λ l. api.message_get_body_amqp_data_in_place l h index))
        λ b.
          Gives-bind P
            (Gives-when P P (λ s q. q) (not (is_none b.bytes) && ltb 0 b.size)
              (Quiet-append_body (bytes_of b)))
            λ _. Quiet-read_data h (index + 1) left

  Quiet-read_sequences : (h : api.Handle) (index left : ℕ) → Quiet (read_sequences api h index left)
  unfolding read_sequences
  Quiet-read_sequences h index zero = Gives-pure P P tt
  Quiet-read_sequences h index (suc left) = Gives-bind P (Quiet-checked _ _) λ v.
      Gives-bind P (Gives-when P P (λ s q. q) (ltb 0 index) (Quiet-append_body (codes "\n"))) λ _.
        Gives-bind P (Quiet-decode v)
          λ t. Gives-bind P (Quiet-append_body t) λ _. Quiet-read_sequences h (index + 1) left

  pub Quiet-read_typed : (h : api.Handle) (type : BodyType) → Quiet (read_typed api h type)
  unfolding read_typed
  Quiet-read_typed h BodyType.no_body = Gives-pure P P tt
  Quiet-read_typed h BodyType.data_body =
      Gives-bind P (Quiet-checked _ _) λ count. Quiet-read_data h 0 count
  Quiet-read_typed h BodyType.value_body = Gives-bind P (Quiet-checked _ _) λ v.
      Gives-bind P (Quiet-decode v)
        λ t. Gives-change P P (λ m. record m { body = t }) (λ s q. stable s t q)
  Quiet-read_typed h BodyType.sequence_body =
      Gives-bind P (Quiet-checked _ _) λ count. Quiet-read_sequences h 0 count
  Quiet-read_typed h BodyType.other = Gives-raise P P (λ s q. q) _
