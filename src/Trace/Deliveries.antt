-- ===== src/Trace/Deliveries.antt =====
-- Consumer.cpp, `traceDelivery`: the record of a delivery, from what its message answers.
use azure_uamqp_php.Prelude.{
  ℕ, ◌≡◌, refl, ◌∙◌, ap, Bool, true, false, not, ◌⊎◌, inl, inr, Option, none, some, [], ◌∷◌, ◌++◌,
  Text, codes, if◌then◌else◌, Result, ok, err,
}
use azure_uamqp_php.Prelude.Int.{pos}
use azure_uamqp_php.Prelude.Decimal.{decimal}
use azure_uamqp_php.Runtime.Library.{Thrown}
use azure_uamqp_php.Message.Library.{MessageApi, PhpApi}
use azure_uamqp_php.Message.State.{State}
use azure_uamqp_php.Message.Metadata.{get_message_id, get_all_metadata, get_delivery_count}
use azure_uamqp_php.Message.Getters.{
  counted, get_message_id-same, get_all_metadata-same, get_delivery_count_result,
}
use azure_uamqp_php.Trace.Json.{AreBytes, read_object, all_seen}
use azure_uamqp_php.Trace.Records.{
  Event, outcome, delivery, unavailable, event_name, event_fields, OptionIsBytes, EventHasBytes,
  line, all_members, line-IsRead,
}
use azure_uamqp_php.Trace.{
  Context, write, or_zero, id_text, trace_metadata, trace_delivery, trace_delivery_outcome, recover,
}

-- What PHP-CPP's `stringValue` gives: bytes, and for a number its decimal digits.
pub record HasTexts {D : Type 0} (php : PhpApi D) : Type 0 where
  pub texts : (v : php.Value) → AreBytes (php.string_value v)
  pub counts : (n : ℕ) → php.string_value (php.from_integer (pos n)) ≡ decimal n

module _ (api : MessageApi) (php : PhpApi api.Double) where
  abbrev S : Type 0
  S = State api.Library api.Value api.Properties api.Handle

  -- What is written of a delivery: the message's id, its annotations and its count, if all of them
  -- can be read, and else only that they cannot.
  pub data Tells (c : Context) (received : Option ℕ) (outcome : Text) (s : S) : Event → Type 0 where
    told :
        (id annotations : php.Value) (n : ℕ)
        → (get_message_id api php s).0 ≡ ok id
        → (get_all_metadata api php true s).0 ≡ ok annotations
        → (get_delivery_count api php s).0 ≡ ok (php.from_integer (pos n))
        → Tells c received outcome s (
            delivery c.resource_name
              (or_zero received)
              (id_text api php id)
              n
              (php.string_value (php.at_text annotations (codes "x-opt-sequence-number")))
              (php.string_value (php.at_text annotations (codes "x-opt-locked-until")))
              outcome)
    untold :
        (e : Thrown)
        → ((get_message_id api php s).0 ≡ err e)
          ⊎ ((get_all_metadata api php true s).0 ≡ err e)
          ⊎ ((get_delivery_count api php s).0 ≡ err e)
        → Tells c received outcome s (unavailable outcome)

  module _ (php_texts : HasTexts php) (c : Context) (received : Option ℕ) (outcome : Text)
      (s : S) where
    -- The event that `traceDelivery` writes.
    abbrev Written : Type 0
    Written =
        (e : Event) × Tells c received outcome s e
        × (recover
              (λ t. (
                ok (
                    write c (event_name (unavailable outcome))
                      (event_fields (unavailable outcome))),
                t,
              ))
              (trace_metadata api php c received outcome s)
            ≡ (ok (write c (event_name e) (event_fields e)), s))

    metadata_written :
        (id annotations : Result Thrown php.Value) (count : Result Thrown ℕ)
        → get_message_id api php s ≡ (id, s)
        → get_all_metadata api php true s ≡ (annotations, s)
        → get_delivery_count api php s ≡ (counted api php s count, s)
        → Written
    unfolding trace_metadata
    metadata_written (err e) annotations count p q r =
        (unavailable outcome, untold e (inl (ap (λ x. x.0) p)), rw p refl)
    metadata_written (ok id) (err e) count p q r =
        (unavailable outcome, untold e (inr (inl (ap (λ x. x.0) q))), rw p (rw q refl))
    metadata_written (ok id) (ok annotations) (err e) p q r =
        (unavailable outcome, untold e (inr (inr (ap (λ x. x.0) r))), rw p (rw q (rw r refl)))
    metadata_written (ok id) (ok annotations) (ok n) p q r = (
      delivery _ _ _ _ _ _ _,
      told id annotations n (ap (λ x. x.0) p) (ap (λ x. x.0) q) (ap (λ x. x.0) r),
      rw p (rw q (rw r (rw (php_texts.counts n) refl))),
    )

    id_text-OptionIsBytes : (id : php.Value) → OptionIsBytes (id_text api php id)
    id_text-OptionIsBytes id =
        elim (php.is_null id)
          as (λ b. OptionIsBytes (if b then none else some (php.string_value id))) [
            | true ↦ tt
            | false ↦ php_texts.texts id
          ]

    Tells-EventHasBytes :
        {e : Event}
        → Tells c received outcome s e
        → AreBytes c.resource_name
        → AreBytes outcome
        → EventHasBytes e
    Tells-EventHasBytes (told id annotations n _ _ _) resource disposition =
        (resource, id_text-OptionIsBytes id, php_texts.texts _, php_texts.texts _, disposition)
    Tells-EventHasBytes (untold e _) resource disposition = disposition

    under_debug :
        (debug : Bool) (m : S → Result Thrown (Option Text) × S) (w : Option Text) (t : Text)
        → m s ≡ (ok w, s)
        → w ≡ (if debug then some t else none)
        → (if not debug then (λ u. (ok none, u)) else m) s
          ≡ (ok (if debug then some t else none), s)
    under_debug true m w t p q = p ∙ ap (λ x. (ok x, s)) q
    under_debug false m w t p q = refl

    trace_delivery-write :
        (e : Event)
        → EventHasBytes e
        → AreBytes c.connection_id
        → (recover
              (λ t. (
                ok (
                    write c
                      (event_name (unavailable outcome))
                      (event_fields (unavailable outcome))),
                t,
              ))
              (trace_metadata api php c received outcome s)
            ≡ (ok (write c (event_name e) (event_fields e)), s))
        → trace_delivery api php c received outcome s
          ≡ (ok (if c.debug then some (line c e ++ b'\n' ∷ []) else none), s)
    unfolding trace_delivery
    trace_delivery-write e bytes connection p =
        under_debug c.debug _ _ _ p (line-IsRead c e connection bytes).0

    -- Where PHP's texts are bytes and its numbers are printed in decimal, and the connection's
    -- name, the resource and the outcome are bytes: whatever the message holds and however the
    -- library answers, `traceDelivery` throws nothing, changes neither the message nor the library,
    -- and with debug on writes exactly one line, none without. A JSON reader reads it as what
    -- the message answered: its id, the two annotations and its delivery count if all of them can
    -- be read, and only the outcome if one of them cannot; bytes of a string that are not
    -- well-formed UTF-8 are each shown as the code point of their value.
    pub trace_delivery-IsRead :
        AreBytes c.connection_id
        → AreBytes c.resource_name
        → AreBytes outcome
        → (e : Event) × Tells c received outcome s e
          × (trace_delivery api php c received outcome s
              ≡ (ok (if c.debug then some (line c e ++ b'\n' ∷ []) else none), s))
          × (read_object (line c e) ≡ some (all_seen (all_members c e)))
    trace_delivery-IsRead connection resource disposition =
        let (r, counted_as) = get_delivery_count_result api php s in
        let (e, tells, p) =
          metadata_written _ _ r (get_message_id-same api php s)
            (get_all_metadata-same api php s true) counted_as in
        let bytes = Tells-EventHasBytes tells resource disposition in
        (e, tells, trace_delivery-write e bytes connection p, (line-IsRead c e connection bytes).2)

-- The same of `traceDeliveryOutcome`, which asks the message nothing.
pub trace_delivery_outcome-IsRead :
    (c : Context) (received : Option ℕ) (disposition : Text)
    → AreBytes c.connection_id
    → AreBytes c.resource_name
    → AreBytes disposition
    → let e = outcome c.resource_name (or_zero received) disposition in
      (trace_delivery_outcome c received disposition
        ≡ (if c.debug then some (line c e ++ b'\n' ∷ []) else none))
      × (read_object (line c e) ≡ some (all_seen (all_members c e)))
unfolding trace_delivery_outcome
trace_delivery_outcome-IsRead c received disposition connection resource bytes =
    let (written, _, read) =
      line-IsRead c (outcome c.resource_name (or_zero received) disposition) connection
        (resource, bytes) in
    (guarded c.debug _ _ written, read)
  where
    guarded :
        (debug : Bool) (w : Option Text) (t : Text)
        → w ≡ (if debug then some t else none)
        → (if not debug then none else w) ≡ (if debug then some t else none)
    guarded true w t p = p
    guarded false w t p = refl
