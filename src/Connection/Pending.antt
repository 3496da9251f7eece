-- ===== src/Connection/Pending.antt =====
-- Consumer.cpp and Connection.cpp: a pending exception while the library dispatches.
use azure_uamqp_php.Prelude.{
  ◌≡◌, refl, sym, Bool, true, Option, none, some, Text, subst, arith, ℕ, zero, suc,
}
use azure_uamqp_php.Runtime.Library.{
  Thrown, Call, close_call, consume_call, was_close_requested_call, set_callback_call, Delivery,
  ReceiverState, Uamqp, Dispatch,
}
use azure_uamqp_php.Runtime.State.{System, Outcome, returned, raised, stuck, M}
use azure_uamqp_php.Consumer.Handlers.{
  request_stop, handle_callback_exception, handle_link_detach, handle_receiver_state, detach_with,
  use_credit, after_callback, record_exception,
}
use azure_uamqp_php.Consumer.Dispatching.{on_message, handle_io_error, dispatch, do_work}
use azure_uamqp_php.Consumer.Answering.{with_credit_used, not_delivered, finish, on_message-cases}
use azure_uamqp_php.Consumer.Induction.{answered, dispatch-keeps, run_php-keeps}
use azure_uamqp_php.Consumer.Closing.{throw_pending_exception}
use azure_uamqp_php.Connection.Reentrancy.{nested, php_work}
use azure_uamqp_php.Connection.Methods.{php_call}
use azure_uamqp_php.Connection.Batch.{dispatches}

module _ {L : Type 0} (e : Thrown) where
  abbrev IsPending : System L → Type 0
  IsPending s = s.consumer.callback_exception ≡ some e

  nested-IsPending : (c : Call) (s : System L) → IsPending s → IsPending (nested c s).1
  unfolding nested request_stop
  nested-IsPending close_call s p = ground arith
  nested-IsPending consume_call s p = p
  nested-IsPending was_close_requested_call s p = p
  nested-IsPending (set_callback_call credit loop) s p = p

  finish-IsPending : (x : Outcome Bool × System L) → IsPending x.1 → IsPending (answered (finish x))
  unfolding finish after_callback record_exception handle_callback_exception request_stop
  finish-IsPending (returned stop, s) p = ground arith
  finish-IsPending (raised (Thrown.php id what), s) p = rw p refl
  finish-IsPending (raised (Thrown.extension what), s) p = rw p refl
  finish-IsPending (raised (Thrown.standard what), s) p = rw p refl
  finish-IsPending (raised Thrown.other, s) p = rw p refl
  finish-IsPending (stuck, s) p = p

  not_delivered-IsPending :
      (x : Thrown) (s : System L) → IsPending s → IsPending (answered (not_delivered x s))
  unfolding record_exception handle_callback_exception request_stop
  not_delivered-IsPending (Thrown.php id what) s p = rw p refl
  not_delivered-IsPending (Thrown.extension what) s p = rw p refl
  not_delivered-IsPending (Thrown.standard what) s p = rw p refl
  not_delivered-IsPending Thrown.other s p = rw p refl

  on_message-IsPending :
      (d : Delivery) (s : System L) → IsPending s → IsPending (answered (on_message nested d s))
  unfolding use_credit
  on_message-IsPending d s p =
      on_message-cases nested d s (λ x. IsPending (answered x)) (λ h. p)
        (λ h x. not_delivered-IsPending x (with_credit_used s) p)
        (λ h.
          finish-IsPending _
            (run_php-keeps nested IsPending nested-IsPending d.run (with_credit_used s) p))

  detach-IsPending :
      (x : Option (Option Text × Option Text)) (s : System L)
      → IsPending s
      → IsPending (record s { consumer = handle_link_detach x s.consumer })
  unfolding handle_link_detach detach_with handle_callback_exception request_stop
  detach-IsPending none s p = ground arith
  detach-IsPending (some (condition, description)) s p = ground arith

  state-IsPending :
      (x : ReceiverState) (s : System L)
      → IsPending s
      → IsPending (record s { consumer = handle_receiver_state x s.consumer })
  unfolding handle_receiver_state handle_callback_exception request_stop
  state-IsPending x s p = ground arith

  io_error-IsPending : (s : System L) → IsPending s → IsPending (handle_io_error nested s).1
  unfolding handle_io_error handle_callback_exception request_stop
  io_error-IsPending s p = ground arith

  dispatch-IsPending :
      (d : Dispatch L) (s : System L) → IsPending s → IsPending (dispatch nested d s).1
  dispatch-IsPending = dispatch-keeps nested IsPending (record {
    by_message = on_message-IsPending;
    by_detach = detach-IsPending;
    by_state = state-IsPending;
    by_io_error = io_error-IsPending;
    by_send_complete = λ r s p. p;
    by_sender_detach = λ c d s p. p;
    by_library = λ l s p. p;
  })

  do_work-IsPending :
      (api : Uamqp L) (s : System L) → IsPending s → IsPending (do_work nested api s).1
  unfolding do_work
  do_work-IsPending api s p = ground (
    arith,
    dispatch-IsPending (api.dowork s.library)
        (record s { connection = record s.connection { doing_work = true } }),
  )

  dispatches-IsPending :
      (api : Uamqp L) (k : ℕ) (s : System L)
      → IsPending s
      → IsPending (dispatches (do_work nested api) k s)
  dispatches-IsPending api zero s p = p
  dispatches-IsPending api (suc k) s p =
      dispatches-IsPending api k (do_work nested api s).1 (do_work-IsPending api s p)

  throw_pending_exception-raises :
      (api : Uamqp L) (s : System L) → IsPending s → (throw_pending_exception api s).0 ≡ raised e
  unfolding throw_pending_exception
  throw_pending_exception-raises api s p = rw p refl

-- The exception that is pending is the one that `throwPendingException` raises, however many
-- dispatches come between, and whatever the callbacks of those throw.
pub first_exception_raised :
    {L : Type 0} (api : Uamqp L) (depth k : ℕ) (e : Thrown) (s : System L)
    → s.consumer.callback_exception ≡ some e
    → (throw_pending_exception api (dispatches (do_work (php_call api (suc depth)) api) k s)).0
      ≡ raised e
first_exception_raised api depth k e s p = throw_pending_exception-raises e api _ (
    subst (λ (m : M _ (Unit {0})). (dispatches m k s).consumer.callback_exception ≡ some e)
      (sym (php_work api depth)) (dispatches-IsPending e api k s p))
