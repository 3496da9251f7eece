-- ===== src/Message/Getters.antt =====
-- Message.cpp: the methods that read metadata change neither the message nor the library.
use azure_uamqp_php.Prelude.{
  ℕ, ◌≡◌, refl, ap, Bool, Option, none, some, Text, codes, if◌then◌else◌, Result, ok, err,
}
use azure_uamqp_php.Prelude.Int.{pos}
use azure_uamqp_php.Decoder.{DecodeError, decode_amqp_value}
use azure_uamqp_php.Decoder.Data.{Decoded}
use azure_uamqp_php.Runtime.Library.{Thrown}
use azure_uamqp_php.Message.Library.{MessageApi, PhpApi, values_at}
use azure_uamqp_php.Message.State.{State, M, ◌>>=◌, pure, or_raise, checked}
use azure_uamqp_php.Message.Gives.{
  Post, Gives, gives, given, Gives-bind, Gives-pure, Gives-gets, Gives-checked,
}
use azure_uamqp_php.Message.Php.{decode_metadata, to_php_value, decode_error}
use azure_uamqp_php.Message.Metadata.{
  get_message_id, get_all_metadata, get_metadata, get_delivery_count, delivery_count,
  metadata_value, message_id, handle, could_not_read_properties,
}

module _ (api : MessageApi) (php : PhpApi api.Double) where
  abbrev S : Type 0
  S = State api.Library api.Value api.Properties api.Handle

  module _ (s : S) where
    abbrev Here : S → Type 0
    Here t = t ≡ s

    -- What leaves the message and the library as they are.
    abbrev Reads : {A : Type 0} → M api A → Type 0
    Reads m = Gives Here Here m (λ _. Here)

    Reads-checked : {A : Type 0} (t : Text) (f : api.Library → Option A) → Reads (checked t f)
    Reads-checked t f = Gives-checked Here Here (λ s q. q) t f

    Reads-decode : (v : Option api.Value) → Reads (decode_metadata api php v)
    unfolding decode_metadata
    Reads-decode v = gives (λ t q. go t (decode_amqp_value (values_at api t.library) v 0) q)
      where
        go :
            (t : S) (r : Result DecodeError (Decoded api.Double))
            → Here t
            → Post {A = php.Value} Here
                (λ _. Here)
                (elim r [
                  | ok d ↦ (ok (to_php_value php d), t)
                  | err e ↦ (err (Thrown.extension (decode_error e)), t)
                ])
        go t (ok d) q = q
        go t (err e) q = q

    Reads-metadata_value : (o : Option api.Value) → Reads (metadata_value api php o)
    Reads-metadata_value none = Gives-pure Here Here php.empty_array
    Reads-metadata_value (some v) = Reads-decode (some v)

    Reads-handle : Reads (handle api)
    Reads-handle = Gives-gets Here Here (λ t. t.object.message)

    Reads-get_all_metadata : (annotation : Bool) → Reads (get_all_metadata api php annotation)
    unfolding get_all_metadata get_metadata
    Reads-get_all_metadata annotation = Gives-bind Here Reads-handle λ message.
        Gives-bind Here
          (Reads-checked (codes "Could not read AMQP message metadata") (λ l.
            if annotation
            then api.message_get_message_annotations l message
            else api.message_get_application_properties l message))
          λ value. Reads-metadata_value value

    Reads-message_id : (o : Option api.Properties) → Reads (message_id api php o)
    Reads-message_id none = Gives-pure Here Here php.null
    Reads-message_id (some p) =
        Gives-bind Here (Gives-gets Here Here (λ t. api.properties_get_message_id t.library p))
          λ id.
            elim id
              as (λ id.
                Reads {A = php.Value}
                  (elim id [ none ↦ pure php.null | some v ↦ decode_metadata api php v ])) [
                    | none ↦ Gives-pure Here Here php.null
                    | some v ↦ Reads-decode v
                  ]

    Reads-get_message_id : Reads (get_message_id api php)
    unfolding get_message_id
    Reads-get_message_id = Gives-bind Here Reads-handle λ message.
        Gives-bind Here
          (Reads-checked (could_not_read_properties api php)
            (λ l. api.message_get_properties l message))
          λ o. Reads-message_id o

    Here-pair :
        {A : Type 0} (x : Result Thrown A × S) → Post {A = A} Here (λ _. Here) x → x ≡ (x.0, s)
    Here-pair (ok a, t) h = ap (λ u. (ok a, u)) h
    Here-pair (err e, t) h = ap (λ u. (err e, u)) h

    pub get_message_id-same : get_message_id api php s ≡ ((get_message_id api php s).0, s)
    get_message_id-same = Here-pair _ (given Here Reads-get_message_id s refl)

    pub get_all_metadata-same :
        (annotation : Bool)
        → get_all_metadata api php annotation s ≡ ((get_all_metadata api php annotation s).0, s)
    get_all_metadata-same annotation =
        Here-pair _ (given Here (Reads-get_all_metadata annotation) s refl)

    -- A count that could be read, as PHP's integer.
    abbrev pub counted : Result Thrown ℕ → Result Thrown php.Value
    counted (ok n) = ok (php.from_integer (pos n))
    counted (err e) = err e

    pub get_delivery_count_result :
        (r : Result Thrown ℕ) × (get_delivery_count api php s ≡ (counted r, s))
    unfolding get_delivery_count
    get_delivery_count_result = header_count (api.message_get_header s.library s.object.message)
      where
        count :
            (o : Option ℕ)
            → (r : Result Thrown ℕ) × ((or_raise {S = S}
                      (codes "Could not read AMQP message delivery count")
                      o
                    >>= λ n. pure (php.from_integer (pos n)))
                  s
                ≡ (counted r, s))
        count none = (err _, refl)
        count (some n) = (ok n, refl)

        header_count :
            (o : Option (Option api.Header))
            → (r : Result Thrown ℕ) × ((or_raise {S = S}
                      (codes "Could not read AMQP message header")
                      o
                    >>= λ header.
                        (checked
                            (codes "Could not read AMQP message delivery count")
                            (λ l. delivery_count api php l header)
                          >>= λ n. pure (php.from_integer (pos n))))
                  s
                ≡ (counted r, s))
        header_count none = (err _, refl)
        header_count (some h) = count (delivery_count api php s.library h)
