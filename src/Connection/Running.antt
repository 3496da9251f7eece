-- ===== src/Connection/Running.antt =====
-- Connection.cpp: the credit of a finite batch through the calls of PHP's loop function.
use azure_uamqp_php.Prelude.{
  ℕ, ◌≡◌, sym, Bool, true, false, not, ◌&&◌, ◌||◌, Option, codes, subst, arith, Option-cases, inl,
  inr, if◌then◌else◌, ◌==◌,
}
use azure_uamqp_php.Prelude.Int.{ℤ}
use azure_uamqp_php.Runtime.Library.{
  Thrown, PhpRun, Call, Uamqp, close_call, consume_call, was_close_requested_call,
  set_callback_call,
}
use azure_uamqp_php.Runtime.State.{System, raised, M, ◌>>=◌, gets, when}
use azure_uamqp_php.Runtime.Keeps.{
  Keeps, keeps, kept, Keeps-bind, Keeps-then, Keeps-when, Keeps-if, Keeps-pure, Keeps-raise,
  Keeps-gets,
}
use azure_uamqp_php.Consumer.Dispatching.{do_work}
use azure_uamqp_php.Consumer.Closing as Consumers
use azure_uamqp_php.Consumer.Closing.{
  destroy, destroy_handles, throw_pending_exception, pump, pump_while, drain_while, drain,
  detach_receiver, shut_down, replenish,
}
use azure_uamqp_php.Connection.Reentrancy.{nested}
use azure_uamqp_php.Connection.Lifecycle.{close, connect}
use azure_uamqp_php.Connection.Methods.{
  method, start_receiver, consume, consume_by, set_callback, was_close_requested, link_credit,
}
use azure_uamqp_php.Connection.Keeping.{
  IsRun, work, work-Keeps, failure-Keeps, consumer_close-Keeps,
}
use azure_uamqp_php.Connection.Cleanup.{close-Keeps}

-- PHP code that runs while the receiver run is active.
module _ {L : Type 0} (api : Uamqp L) (bound : ℕ) (call : Call → M L Bool) where
  abbrev Running : System L → Type 0
  Running = IsRun api bound true

  running : (s : System L) → Running s → s.connection.receiver_run_active ≡ true
  running s r = ground (arith, r.active)

  -- A finite batch is not refilled.
  consumer_consume-Keeps : Keeps Running (Consumers.consume api (work api bound true))
  unfolding Consumers.consume
  consumer_consume-Keeps =
      Keeps-bind Running (Keeps-gets Running (λ s. s.consumer.close_requested)) λ stopping.
        Keeps-then Running (Keeps-when Running (not stopping) (work-Keeps api bound true)) (
          Keeps-bind Running (Keeps-gets Running (λ s. s.connection.io_error)) λ failed.
            Keeps-then Running
              (Keeps-when Running failed
                (failure-Keeps api bound true (codes "AMQP connection failed while receiving")))
              (Keeps-bind Running (Keeps-gets Running (λ s. s.consumer.close_requested)) λ stopped.
                not_dry
                  (λ dry.
                    if stopped
                    then Consumers.close api (work api bound true)
                    else when dry (replenish api (work api bound true)))
                  (Keeps-if Running stopped (consumer_close-Keeps api bound true)
                    (Keeps-pure Running tt))))
    where
      not_dry :
          (m : Bool → M L (Unit {0}))
          → Keeps Running (m false)
          → Keeps Running
              (gets (λ s. not s.consumer.finite_batch && s.consumer.credit_remaining == 0) >>= m)
      not_dry m k = keeps (λ s r.
          subst (λ b. Running (m (not b && s.consumer.credit_remaining == 0) s).1)
            (sym r.within.finite) (kept Running k s r))

  connect-Running :
      (s : System L)
      → Running s
      → connect api s ≡ (
        raised (
            Thrown.extension
              (codes "Cannot reconnect or create a link while a receiver callback loop is active")),
        s,
      )
  unfolding connect
  connect-Running s r = ground (arith, running s r)

  start_receiver-Running :
      (credit : ℕ) (loop : PhpRun) → Keeps Running (start_receiver api call credit loop)
  unfolding start_receiver
  start_receiver-Running credit loop = keeps (λ s r. rw (connect-Running s r) r)

  set_callback-Keeps :
      (requested : Option ℤ) (loop : PhpRun) → Keeps Running (set_callback api call requested loop)
  unfolding set_callback
  set_callback-Keeps requested loop = keeps (λ s r. elim (Option-cases (link_credit requested)) [
    | inl refused ↦ rw (refused, set_callback) r
    | inr (credit, given) ↦
        rw (given, set_callback) (kept Running (start_receiver-Running credit loop) s r)
  ])

  module _ (same : do_work call api ≡ do_work nested api) where
    pub method-Keeps : (c : Call) → Keeps Running (method api call c)
    unfolding method consume consume_by was_close_requested
    method-Keeps close_call =
        Keeps-then Running
          (subst (λ (m : M L (Unit {0})). Keeps Running (close api m)) (sym same)
            (close-Keeps api bound true))
          (Keeps-pure Running false)
    method-Keeps consume_call =
        Keeps-then Running
          (Keeps-bind Running (Keeps-gets Running (λ s. s.connection.doing_work)) λ busy.
            Keeps-then Running
              (Keeps-when Running busy (
                Keeps-raise Running
                  (Thrown.extension (codes "Cannot recursively consume from a message callback"))))
              (Keeps-bind Running (Keeps-gets Running (λ s. s.connection.consumer)) λ has_consumer.
                Keeps-when Running has_consumer (
                  subst (λ (m : M L (Unit {0})). Keeps Running (Consumers.consume api m)) (sym same)
                    consumer_consume-Keeps)))
          (Keeps-pure Running false)
    method-Keeps was_close_requested_call =
        Keeps-gets Running (λ s.
          s.connection.close_requested || (s.connection.consumer && s.consumer.close_requested))
    method-Keeps (set_callback_call requested loop) =
        Keeps-then Running (set_callback-Keeps requested loop) (Keeps-pure Running false)
