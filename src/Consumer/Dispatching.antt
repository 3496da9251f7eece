-- ===== src/Consumer/Dispatching.antt =====
-- Consumer.cpp, `handleMessage` and `onMessage`, and Connection.cpp, `doWork`: what happens while
-- uAMQP dispatches.
use azure_uamqp_php.Prelude.{Bool, true, false, not, codes, none, ◌∷◌, if◌then◌else◌}
use azure_uamqp_php.Runtime.Library.{
  Thrown, Disposition, accepted, released, modified, PhpRun, returns, throws, calls, Call, answer,
  failure, Reply, Delivery, Dispatch, done, message, detach, receiver_state, io_error,
  send_complete, sender_detach, Uamqp,
}
use azure_uamqp_php.Runtime.State.{
  System, Outcome, returned, raised, stuck, M, ◌>>=◌, ◌>>◌, continue_with, pure, raise, gets,
  change_connection, change_consumer, settled, delivery_traced, outcome_traced, act, when,
  try_catch, change_library,
}
use azure_uamqp_php.Consumer.Handlers.{
  use_credit, after_callback, record_exception, handle_link_detach, handle_receiver_state,
  handle_callback_exception,
}
use azure_uamqp_php.Producer.Handlers.{on_message_send_complete, on_link_detach_received}

module _ {L : Type 0} where
  -- How PHP code sees the outcome of a call.
  abbrev pub reply_with : (Reply → M L Bool) → Outcome Bool × System L → Outcome Bool × System L
  reply_with next (returned b, s) = next (answer b) s
  reply_with next (raised e, s) = next (failure e) s
  reply_with next (stuck, s) = (stuck, s)

  -- PHP code, whose calls are made by `call`.
  unfoldable pub run_php : (Call → M L Bool) → PhpRun → M L Bool
  run_php call (returns b) s = (returned b, s)
  run_php call (throws e) s = (raised e, s)
  run_php call (calls c next) s = reply_with (λ r. run_php call (next r)) (call c s)

  module _ (call : Call → M L Bool) where
    -- The `try` block of `handleMessage`.
    unfoldable pub accept : Delivery → M L Disposition
    accept d = do
      stop ← run_php call d.run
      change_consumer (after_callback stop)
      stopping ← gets (λ s. s.consumer.close_requested)
      act (delivery_traced (if stopping then codes "accepted-stop" else codes "accepted-continue"))
      pure accepted

    -- The part of `handleMessage` that wraps the message and calls PHP.
    unfoldable pub deliver : Delivery → M L Disposition
    unfolding accept
    deliver d = do
      when (not d.retained)
          (raise (Thrown.extension (codes "Could not retain received AMQP message")))
      callback_set ← gets (λ s. s.consumer.callback_set)
      when (not callback_set) (raise (Thrown.extension (codes "Consumer callback is not set")))
      try_catch (accept d) λ e. do act (outcome_traced (codes "abandoned-error")); raise e

    unfoldable pub handle_message : Delivery → M L Disposition
    unfolding deliver
    handle_message d = do
      change_consumer use_credit
      stopped ← gets (λ s. s.consumer.close_requested)
      if stopped
          then (do act (outcome_traced (codes "released-unhandled")); pure released)
          else deliver d

    -- No exception passes through the C library.
    unfoldable pub on_message : Delivery → M L Disposition
    unfolding handle_message
    on_message d =
        try_catch (handle_message d) λ e. do change_consumer (record_exception e); pure modified

    -- `handleIoError`
    unfoldable pub handle_io_error : M L (Unit {0})
    handle_io_error = do
      change_connection (λ c. record c { io_error = true })
      has_consumer ← gets (λ s. s.connection.consumer)
      when has_consumer
          (change_consumer (handle_callback_exception (codes "AMQP transport I/O failed") none))

    -- The callbacks that the library makes, in their order.
    unfoldable pub dispatch : Dispatch L → M L (Unit {0})
    unfolding on_message handle_io_error on_message_send_complete on_link_detach_received
    dispatch (done l) s = change_library (λ _. l) s
    dispatch (message d next) s =
        continue_with (λ x s'. dispatch (next x) (record s' { log = settled x ∷ s'.log }))
          (on_message d s)
    dispatch (detach e next) s =
        dispatch next (record s { consumer = handle_link_detach e s.consumer })
    dispatch (receiver_state x next) s =
        dispatch next (record s { consumer = handle_receiver_state x s.consumer })
    dispatch (io_error next) s = continue_with (λ _. dispatch next) (handle_io_error s)
    dispatch (send_complete r next) s =
        dispatch next (record s { producer = on_message_send_complete r s.producer })
    dispatch (sender_detach c d next) s =
        dispatch next (record s { producer = on_link_detach_received c d s.producer })

    abbrev set_doing_work : Bool → M L (Unit {0})
    set_doing_work b = change_connection (λ c. record c { doing_work = b })

    -- `Connection::doWork`
    unfoldable pub do_work : Uamqp L → M L (Unit {0})
    unfolding dispatch
    do_work api = do
      busy ← gets (λ s. s.connection.doing_work)
      when busy (raise (Thrown.extension (codes "Cannot recursively dispatch AMQP I/O")))
      connected ← gets (λ s. s.connection.connection)
      when connected do
        set_doing_work true
        l ← gets (λ s. s.library)
        try_catch (dispatch (api.dowork l)) λ e. do set_doing_work false; raise e
        set_doing_work false
