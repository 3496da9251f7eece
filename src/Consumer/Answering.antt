-- ===== src/Consumer/Answering.antt =====
-- Consumer.cpp, `onMessage`: what it comes to in each case.
use azure_uamqp_php.Prelude.{
  Bool-cases, inl, inr, sym, ◌≡◌, refl, subst, ◌∙◌, Bool, true, false, ◌∷◌, Text, codes,
  if◌then◌else◌, arith,
}
use azure_uamqp_php.Runtime.Library.{
  Thrown, Disposition, accepted, released, modified, Call, Delivery,
}
use azure_uamqp_php.Runtime.State.{
  System, Outcome, returned, raised, stuck, M, ◌>>=◌, ◌>>◌, continue_with, caught_with,
  change_consumer, pure, raise, gets, act, outcome_traced, delivery_traced,
}
use azure_uamqp_php.Consumer.Handlers.{use_credit, after_callback, record_exception}
use azure_uamqp_php.Consumer.Dispatching.{run_php, accept, deliver, handle_message, on_message}

-- What is traced of a delivery that is accepted.
abbrev pub accepted_text : Bool → Text
accepted_text stopping = if stopping then codes "accepted-stop" else codes "accepted-continue"

module _ {L : Type 0} where
  abbrev pub with_credit_used : System L → System L
  with_credit_used s = record s { consumer = use_credit s.consumer }

  -- A delivery that comes after the stop.
  abbrev pub released_with : System L → System L
  released_with s = record s {
    consumer = use_credit s.consumer;
    log = outcome_traced (codes "released-unhandled") ∷ s.log;
  }

  -- The end of `onMessage`, after the callback.
  unfoldable pub finish : Outcome Bool × System L → Outcome Disposition × System L
  finish (returned stop, s) = (
    returned accepted,
    record s {
      consumer = after_callback stop s.consumer;
      log =
          delivery_traced (accepted_text (after_callback stop s.consumer).close_requested) ∷ s.log;
    },
  )
  finish (raised e, s) = (
    returned modified,
    record s {
      consumer = record_exception e s.consumer;
      log = outcome_traced (codes "abandoned-error") ∷ s.log;
    },
  )
  finish (stuck, s) = (stuck, s)

  -- A delivery that does not come to the callback.
  abbrev pub not_delivered : Thrown → System L → Outcome Disposition × System L
  not_delivered e s = (returned modified, record s { consumer = record_exception e s.consumer })

  module _ (call : Call → M L Bool) (d : Delivery) (s : System L) where
    pub on_message-stopped :
        s.consumer.close_requested ≡ true
        → on_message call d s ≡ (returned released, released_with s)
    unfolding on_message handle_message use_credit
    on_message-stopped h = ground arith

    pub on_message-lost :
        s.consumer.close_requested ≡ false
        → d.retained ≡ false
        → on_message call d s
          ≡ not_delivered
              (Thrown.extension (codes "Could not retain received AMQP message"))
              (with_credit_used s)
    unfolding on_message handle_message deliver use_credit
    on_message-lost h r = rw h (rw r refl)

    pub on_message-unset :
        s.consumer.close_requested ≡ false
        → d.retained ≡ true
        → s.consumer.callback_set ≡ false
        → on_message call d s
          ≡ not_delivered
              (Thrown.extension (codes "Consumer callback is not set"))
              (with_credit_used s)
    unfolding on_message handle_message deliver use_credit
    on_message-unset h r c = rw h (rw r (rw c refl))

    pub on_message-called :
        s.consumer.close_requested ≡ false
        → d.retained ≡ true
        → s.consumer.callback_set ≡ true
        → on_message call d s ≡ finish (run_php call d.run (with_credit_used s))
    unfolding on_message handle_message deliver accept use_credit finish
    on_message-called h r c = shown ∙ go (run_php call d.run (with_credit_used s))
      where
        after : Outcome Bool × System L → Outcome Disposition × System L
        after x =
            caught_with (λ e. change_consumer (record_exception e) >> pure modified)
              (caught_with (λ e. act (outcome_traced (codes "abandoned-error")) >> raise e)
                (continue_with
                  (λ stop.
                    change_consumer (after_callback stop)
                    >> (gets (λ t. t.consumer.close_requested) >>= λ stopping.
                        act (delivery_traced (accepted_text stopping)) >> pure accepted))
                  x))

        go : (x : Outcome Bool × System L) → after x ≡ finish x
        go (returned stop, t) = refl
        go (raised e, t) = refl
        go (stuck, t) = refl

        shown : on_message call d s ≡ after (run_php call d.run (with_credit_used s))
        shown = rw h (rw r (rw c refl))

    -- What holds of a delivery that is released, of one that fails on the way to the callback and of
    -- one that is given to it, holds of every delivery.
    pub on_message-cases :
        (P : Outcome Disposition × System L → Type 0)
        → (s.consumer.close_requested ≡ true → P (returned released, released_with s))
        → (s.consumer.close_requested ≡ false
            → (e : Thrown) → P (not_delivered e (with_credit_used s)))
        → (s.consumer.close_requested ≡ false
            → P (finish (run_php call d.run (with_credit_used s))))
        → P (on_message call d s)
    on_message-cases P stopped lost given = elim (Bool-cases s.consumer.close_requested) [
      | inl h ↦ subst P (sym (on_message-stopped h)) (stopped h)
      | inr h ↦ elim (Bool-cases d.retained) [
        | inr r ↦ subst P (sym (on_message-lost h r)) (lost h _)
        | inl r ↦ elim (Bool-cases s.consumer.callback_set) [
          | inr c ↦ subst P (sym (on_message-unset h r c)) (lost h _)
          | inl c ↦ subst P (sym (on_message-called h r c)) (given h)
        ]
      ]
    ]
