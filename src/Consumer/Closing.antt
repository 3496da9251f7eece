-- ===== src/Consumer/Closing.antt =====
-- Consumer.cpp, `consume`, `close`, `setCallback` and the constructor.
use azure_uamqp_php.Prelude.{
  ℕ, zero, suc, ◌+◌, Bool, true, false, not, ◌&&◌, ◌||◌, none, some, Option, [], codes, ltb, ◌==◌,
  is_empty, if◌then◌else◌,
}
use azure_uamqp_php.Runtime.Library.{
  Thrown, ReceiverState, opening, open_state, Handle, PhpRun, Call, Uamqp,
}
use azure_uamqp_php.Runtime.State.{
  System, returned, raised, stuck, M, ◌>>=◌, ◌>>◌, continue_with, pure, raise, gets,
  change_connection, change_consumer, act, created, destroyed, receiver_created_traced,
  drain_traced, receiver_closed_traced, when, change_library, library_call,
}
use azure_uamqp_php.Consumer.Handlers.{new_consumer, request_stop, handle_callback_exception}
use azure_uamqp_php.Consumer.Dispatching.{run_php}

abbrev pub is_opening : ReceiverState → Bool
is_opening opening = true
is_opening _ = false

abbrev pub is_open : ReceiverState → Bool
is_open open_state = true
is_open _ = false

module _ {L : Type 0} (api : Uamqp L) where
  -- `p = X_create(...)`: the handle is or is not NULL.
  unfoldable pub create : Handle → M L Bool
  create h = do made ← library_call (api.create h); when made (act (created h)); pure made

  -- `X_destroy(p)`
  unfoldable pub destroy : Handle → M L (Unit {0})
  destroy h = do change_library (api.destroy h); act (destroyed h)

  -- `destroyHandles`
  unfoldable pub destroy_handles : M L (Unit {0})
  unfolding destroy
  destroy_handles = do
    has_receiver ← gets (λ s. s.consumer.message_receiver)
    when has_receiver do
      destroy Handle.message_receiver
      change_consumer (λ c. record c { message_receiver = false })
    has_link ← gets (λ s. s.consumer.link)
    when has_link do destroy Handle.link; change_consumer (λ c. record c { link = false })

  -- `throwPendingException`
  unfoldable pub throw_pending_exception : M L (Unit {0})
  throw_pending_exception s = elim s.consumer.callback_exception [
    | some e ↦ (
      raised e,
      record s {
        consumer = record s.consumer { callback_exception = none; exception_message = [] };
      },
    )
    | none ↦
        if not (is_empty s.consumer.exception_message)
        then (
          raised (Thrown.extension s.consumer.exception_message),
          record s { consumer = record s.consumer { exception_message = [] } },
        )
        else (returned tt, s)
  ]

  -- `m() != 0 || ...`: the next call is made only if this one succeeds.
  abbrev pub and_then : M L Bool → M L Bool → M L Bool
  and_then m k = do ok ← m; if ok then k else pure false

  -- The constructor, into the connection's `consumer`. A failing constructor throws, and leaves the
  -- pointer as it was.
  unfoldable pub construct : ℕ → M L (Unit {0})
  unfolding create destroy_handles
  construct max_link_credit = do
    change_consumer (λ _. new_consumer max_link_credit)
    source ← library_call api.messaging_create_source
    target ← library_call api.messaging_create_target
    has_link ← (if source && target then create Handle.link else pure false)
    change_consumer (λ c. record c { link = has_link })
    credit ← gets (λ s. s.consumer.credit_remaining)
    configured ←
        (and_then (pure has_link) (
          and_then (library_call api.link_set_rcv_settle_mode) (
            and_then (library_call (api.link_set_receiver_credit credit))
              (library_call api.link_subscribe_on_link_detach_received))))
    when (not configured) do
      destroy_handles
      raise (Thrown.extension (codes "Could not configure message receiver credit"))
    has_receiver ← create Handle.message_receiver
    change_consumer (λ c. record c { message_receiver = has_receiver })
    when (not has_receiver)
        do destroy_handles; raise (Thrown.extension (codes "Could not create message receiver"))
    finite ← gets (λ s. s.consumer.finite_batch)
    act (receiver_created_traced credit finite)
    change_connection (λ c. record c { consumer = true })

  -- `work` is `connection->doWork()`.
  module _ (work : M L (Unit {0})) where
    -- One round of a shutdown loop.
    unfoldable pub pump : M L (Unit {0})
    pump = do work; change_library (api.sleep 1)

    -- `while (test && now < deadline) pump();`
    unfoldable pub pump_while : ℕ → (System L → Bool) → ℕ → M L (Unit {0})
    unfolding pump
    pump_while zero test deadline s = (stuck, s)
    pump_while (suc fuel) test deadline s =
        let again = continue_with (λ _. pump_while fuel test deadline) (pump s) in
        if test s && ltb (api.now s.library) deadline then again else (returned tt, s)

    abbrev pub is_connected : System L → Bool
    is_connected s = not s.consumer.detach_received && not s.connection.io_error

    abbrev pub is_still_opening : System L → Bool
    is_still_opening s = is_opening s.consumer.receiver_state && not s.connection.io_error

    -- `link_get_drain_complete(link, &drained) != 0 || drained`: whether the loop ends, and `drained`.
    abbrev pub drain_answer : Option Bool → Bool × Bool
    drain_answer none = (true, false)
    drain_answer (some drained) = (drained, drained)

    -- The loop that waits for the drain to complete; it returns `drained`.
    unfoldable pub drain_while : ℕ → ℕ → M L Bool
    unfolding pump
    drain_while zero deadline s = (stuck, s)
    drain_while (suc fuel) deadline s =
        let again = continue_with (λ _. drain_while fuel deadline) (pump s) in
        let (ends, drained) = drain_answer (api.link_get_drain_complete s.library) in
        if is_connected s && ltb (api.now s.library) deadline
        then if ends then (returned drained, s) else again
        else (returned false, s)

    -- Rounds up to a deadline that is `span` away: the clock moves at least 1 in each.
    abbrev pub rounds : ℕ → ℕ
    rounds span = span + 1

    unfoldable pub drain : ℕ → M L (Unit {0})
    unfolding drain_while
    drain deadline = do
      started ← library_call api.link_drain
      drained ← (if started then drain_while (rounds 2000) deadline else pure false)
      act (drain_traced drained)
      detached ← gets (λ s. s.consumer.detach_received)
      when (not drained && not detached) (
          change_consumer (
            handle_callback_exception (codes "Receiver drain did not complete before shutdown")
              none))

    unfoldable pub detach_receiver : M L (Unit {0})
    unfolding pump_while
    detach_receiver = do
      closed ← library_call api.messagereceiver_close
      when (not closed)
          (change_consumer (handle_callback_exception (codes "Could not close AMQP receiver") none))
      now ← gets (λ s. api.now s.library)
      pump_while (rounds 1000) is_connected (now + 1000)
      detached ← gets (λ s. s.consumer.detach_received)
      when (not detached) (
          change_consumer
            (handle_callback_exception (codes "AMQP receiver shutdown timed out") none))

    -- The trace record of a receiver that was shut down.
    abbrev pub trace_closed : M L (Unit {0})
    trace_closed s =
        act
          (receiver_closed_traced s.consumer.stop_reason s.consumer.detach_received
            s.consumer.exception_message)
          s

    -- The body of `close` for a consumer that is not closed.
    unfoldable pub shut_down : M L (Unit {0})
    unfolding pump_while drain detach_receiver destroy_handles
    shut_down = do
      change_consumer (λ c. record c { closing = true })
      now ← gets (λ s. api.now s.library)
      let deadline = now + 2000
      pump_while (rounds 2000) is_still_opening deadline
      drains ← gets (λ s. is_open s.consumer.receiver_state && is_connected s)
      when drains (drain deadline)
      detaches ← gets (λ s. s.consumer.message_receiver && is_connected s)
      when detaches detach_receiver
      trace_closed
      destroy_handles
      change_consumer (λ c. record c { closed = true; closing = false })

    unfoldable pub close : M L (Unit {0})
    unfolding shut_down throw_pending_exception
    close = do
      change_consumer (request_stop (codes "receive-finished"))
      busy ← gets (λ s. s.connection.doing_work || s.consumer.closing)
      if busy then pure tt else (do
        closed ← gets (λ s. s.consumer.closed)
        when (not closed) shut_down
        throw_pending_exception)

    -- Refills the credit of continuous consumption, once the last delivery is settled.
    unfoldable pub replenish : M L (Unit {0})
    unfolding close
    replenish = do
      refilled ← library_call (api.link_set_receiver_credit 1)
      when (not refilled) do
        change_consumer
            (handle_callback_exception (codes "Could not replenish receiver credit") none)
        close
      change_consumer (λ c. record c { credit_remaining = 1 })

    unfoldable pub consume : M L (Unit {0})
    unfolding close replenish
    consume = do
      stopping ← gets (λ s. s.consumer.close_requested)
      when (not stopping) work
      failed ← gets (λ s. s.connection.io_error)
      when failed (
          change_consumer
            (handle_callback_exception (codes "AMQP connection failed while receiving") none))
      stopped ← gets (λ s. s.consumer.close_requested)
      dry ← gets (λ s. not s.consumer.finite_batch && s.consumer.credit_remaining == 0)
      if stopped then close else when dry replenish

    -- `Consumer::setCallback`, with the loop function's code.
    unfoldable pub set_callback : (Call → M L Bool) → PhpRun → M L (Unit {0})
    unfolding close run_php
    set_callback call loop = do
      change_consumer (λ c. record c { callback_set = true })
      opened ← library_call api.messagereceiver_open
      when (not opened) (raise (Thrown.extension (codes "Could not open the message receiver")))
      _ ← run_php call loop
      close
