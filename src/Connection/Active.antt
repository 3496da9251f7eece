-- ===== src/Connection/Active.antt =====
-- Connection.cpp: `receiverRunActive` while the library dispatches.
use azure_uamqp_php.Prelude.{◌≡◌, Bool, true, arith}
use azure_uamqp_php.Runtime.Library.{
  Call, Uamqp, Delivery, Dispatch, close_call, consume_call, was_close_requested_call,
  set_callback_call,
}
use azure_uamqp_php.Runtime.State.{System, Outcome, returned, raised, stuck}
use azure_uamqp_php.Consumer.Dispatching.{do_work, on_message, handle_io_error, dispatch}
use azure_uamqp_php.Consumer.Answering.{with_credit_used, finish, on_message-cases}
use azure_uamqp_php.Consumer.Induction.{answered, run_php-keeps, dispatch-keeps}
use azure_uamqp_php.Connection.Reentrancy.{nested}

module _ {L : Type 0} where
  abbrev IsActive : System L → Type 0
  IsActive s = s.connection.receiver_run_active ≡ true

  nested-IsActive : (c : Call) (s : System L) → IsActive s → IsActive (nested c s).1
  unfolding nested
  nested-IsActive close_call s a = a
  nested-IsActive consume_call s a = a
  nested-IsActive was_close_requested_call s a = a
  nested-IsActive (set_callback_call credit loop) s a = a

  finish-IsActive : (x : Outcome Bool × System L) → IsActive x.1 → IsActive (answered (finish x))
  unfolding finish
  finish-IsActive (returned stop, s) a = a
  finish-IsActive (raised e, s) a = a
  finish-IsActive (stuck, s) a = a

  on_message-IsActive :
      (d : Delivery) (s : System L) → IsActive s → IsActive (answered (on_message nested d s))
  on_message-IsActive d s a =
      on_message-cases nested d s (λ x. IsActive (answered x)) (λ h. a) (λ h e. a)
        (λ h.
          finish-IsActive _
            (run_php-keeps nested IsActive nested-IsActive d.run (with_credit_used s) a))

  dispatch-IsActive :
      (d : Dispatch L) (s : System L) → IsActive s → IsActive (dispatch nested d s).1
  unfolding handle_io_error
  dispatch-IsActive = dispatch-keeps nested IsActive (record {
    by_message = on_message-IsActive;
    by_detach = λ e s a. a;
    by_state = λ x s a. a;
    by_io_error = λ s a. ground arith;
    by_send_complete = λ r s a. a;
    by_sender_detach = λ c d s a. a;
    by_library = λ l s a. a;
  })

  pub do_work-IsActive :
      (api : Uamqp L) (s : System L) → IsActive s → IsActive (do_work nested api s).1
  unfolding do_work
  do_work-IsActive api s a = ground (
    arith,
    dispatch-IsActive (api.dowork s.library)
        (record s { connection = record s.connection { doing_work = true } }),
  )
