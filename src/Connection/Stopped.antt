-- ===== src/Connection/Stopped.antt =====
-- Consumer.cpp and Connection.cpp: dispatching once a stop was asked for, or an exception is pending.
use azure_uamqp_php.Prelude.{ℕ, ◌≡◌, refl, sym, Bool, true, Option, none, some, Text, subst, arith}
use azure_uamqp_php.Runtime.Library.{Call, Delivery, ReceiverState, Uamqp, Dispatch}
use azure_uamqp_php.Runtime.State.{System, M}
use azure_uamqp_php.Consumer.Handlers.{
  request_stop, handle_callback_exception, handle_link_detach, handle_receiver_state, detach_with,
  use_credit,
}
use azure_uamqp_php.Consumer.Dispatching.{on_message, handle_io_error, dispatch, do_work}
use azure_uamqp_php.Consumer.Answering.{on_message-stopped}
use azure_uamqp_php.Consumer.Induction.{answered, dispatch-keeps}
use azure_uamqp_php.Connection.Batch.{handled}

module _ {L : Type 0} (call : Call → M L Bool) (count : ℕ) where
  record IsStopped (s : System L) : Type 0 where
    stopping : s.consumer.close_requested ≡ true
    same : handled s.log ≡ count

  on_message-IsStopped :
      (d : Delivery) (s : System L) → IsStopped s → IsStopped (answered (on_message call d s))
  unfolding use_credit
  on_message-IsStopped d s i =
      subst (λ x. IsStopped (answered x)) (sym (on_message-stopped call d s i.stopping))
        (record { stopping = i.stopping; same = i.same })

  detach-IsStopped :
      (e : Option (Option Text × Option Text)) (s : System L)
      → IsStopped s
      → IsStopped (record s { consumer = handle_link_detach e s.consumer })
  unfolding handle_link_detach detach_with handle_callback_exception request_stop
  detach-IsStopped none s i = ground arith
  detach-IsStopped (some (condition, description)) s i = ground arith

  state-IsStopped :
      (x : ReceiverState) (s : System L)
      → IsStopped s
      → IsStopped (record s { consumer = handle_receiver_state x s.consumer })
  unfolding handle_receiver_state handle_callback_exception request_stop
  state-IsStopped x s i = ground arith

  io_error-IsStopped : (s : System L) → IsStopped s → IsStopped (handle_io_error call s).1
  unfolding handle_io_error handle_callback_exception request_stop
  io_error-IsStopped s i = ground arith

  dispatch-IsStopped :
      (d : Dispatch L) (s : System L) → IsStopped s → IsStopped (dispatch call d s).1
  dispatch-IsStopped = dispatch-keeps call IsStopped (record {
    by_message = on_message-IsStopped;
    by_detach = detach-IsStopped;
    by_state = state-IsStopped;
    by_io_error = io_error-IsStopped;
    by_send_complete = λ r s i. record { stopping = i.stopping; same = i.same };
    by_sender_detach = λ c d s i. record { stopping = i.stopping; same = i.same };
    by_library = λ l s i. record { stopping = i.stopping; same = i.same };
  })

-- Once a stop was asked for, a dispatch accepts no delivery and marks none as modified, however many
-- arrive and whatever their callbacks would do, and the consumer goes on stopping.
pub do_work-stopped :
    {L : Type 0} (call : Call → M L Bool) (api : Uamqp L) (s : System L)
    → s.consumer.close_requested ≡ true
    → (handled (do_work call api s).1.log ≡ handled s.log)
      × ((do_work call api s).1.consumer.close_requested ≡ true)
unfolding do_work
do_work-stopped call api s h = ground (
  arith,
  dispatch-IsStopped call (handled s.log) (api.dowork s.library)
      (record s { connection = record s.connection { doing_work = true } })
      (record { stopping = h; same = refl }),
)
