-- ===== src/Connection/Keeping.antt =====
-- Consumer.cpp, `close`: the credit of a finite batch while the consumer shuts down.
use azure_uamqp_php.Prelude.{
  ℕ, zero, suc, ◌+◌, ◌≡◌, Bool, true, false, not, ◌&&◌, ◌||◌, none, Text, codes, arith, Bool-cases,
  inl, inr, ltb,
}
use azure_uamqp_php.Runtime.Library.{Uamqp, Handle}
use azure_uamqp_php.Runtime.State.{
  System, M, library_call, change_library, change_consumer, act, drain_traced,
}
use azure_uamqp_php.Runtime.Keeps.{
  Keeps, keeps, kept, Keeps-bind, Keeps-then, Keeps-when, Keeps-if, Keeps-pure, Keeps-gets,
}
use azure_uamqp_php.Consumer.Handlers.{request_stop, handle_callback_exception}
use azure_uamqp_php.Consumer.Dispatching.{do_work}
use azure_uamqp_php.Consumer.Closing as Consumers
use azure_uamqp_php.Consumer.Closing.{
  destroy, destroy_handles, throw_pending_exception, pump, pump_while, drain_while, drain,
  detach_receiver, shut_down, replenish,
}
use azure_uamqp_php.Connection.Reentrancy.{nested}
use azure_uamqp_php.Connection.Batch.{IsWithin, do_work-IsWithin}
use azure_uamqp_php.Connection.Active.{do_work-IsActive}

module _ {L : Type 0} (api : Uamqp L) (bound : ℕ) (running : Bool) where
  -- The batch keeps to its bound, and, if `running` says so, the receiver run is active.
  pub record IsRun (s : System L) : Type 0 where
    pub within : IsWithin bound s
    pub active : (running && not s.connection.receiver_run_active) ≡ false

  abbrev pub work : M L (Unit {0})
  work = do_work nested api

  pub work-Keeps : Keeps IsRun work
  work-Keeps = keeps (λ s r. record {
    within = do_work-IsWithin bound api s r.within;
    active = ground (arith, r.active, do_work-IsActive api s);
  })

  pub library_call-Keeps : (f : L → Bool × L) → Keeps IsRun (library_call f)
  library_call-Keeps f = keeps (λ s r. ground arith)

  pub change_library-Keeps : (f : L → L) → Keeps IsRun (change_library f)
  change_library-Keeps f = keeps (λ s r. ground arith)

  pub failure-Keeps :
      (reason : Text) → Keeps IsRun (change_consumer (handle_callback_exception reason none))
  unfolding handle_callback_exception request_stop
  failure-Keeps reason = keeps (λ s r. ground arith)

  pub request_stop-Keeps : (reason : Text) → Keeps IsRun (change_consumer (request_stop reason))
  unfolding request_stop
  request_stop-Keeps reason = keeps (λ s r. ground arith)

  pub destroy-Keeps : (h : Handle) → Keeps IsRun (destroy api h)
  unfolding destroy
  destroy-Keeps h = keeps (λ s r. ground arith)

  throw_pending_exception-Keeps : Keeps IsRun (throw_pending_exception api)
  unfolding throw_pending_exception
  throw_pending_exception-Keeps = keeps (λ s r. ground arith)

  pub destroy_handles-Keeps : Keeps IsRun (destroy_handles api)
  unfolding destroy_handles destroy
  destroy_handles-Keeps = keeps (λ s r. ground arith)

  pump-Keeps : Keeps IsRun (pump api work)
  unfolding pump
  pump-Keeps = Keeps-then IsRun work-Keeps (change_library-Keeps (api.sleep 1))

  pump_while-Keeps :
      (test : System L → Bool) (deadline fuel : ℕ)
      → Keeps IsRun (pump_while api work fuel test deadline)
  unfolding pump_while
  pump_while-Keeps test deadline zero = keeps (λ s r. r)
  pump_while-Keeps test deadline (suc fuel) =
      let again = Keeps-then IsRun pump-Keeps (pump_while-Keeps test deadline fuel) in
      keeps (λ s r. elim (Bool-cases (test s && ltb (api.now s.library) deadline)) [
        | inl e ↦ rw e (kept IsRun again s r)
        | inr e ↦ rw e r
      ])

  drain_while-Keeps : (deadline fuel : ℕ) → Keeps IsRun (drain_while api work fuel deadline)
  unfolding drain_while
  drain_while-Keeps deadline zero = keeps (λ s r. r)
  drain_while-Keeps deadline (suc fuel) =
      let again = Keeps-then IsRun pump-Keeps (drain_while-Keeps deadline fuel) in
      keeps (λ s r.
        elim (Bool-cases (Consumers.is_connected api work s && ltb (api.now s.library) deadline)) [
          | inl e ↦ rw e (ground (arith, r, kept IsRun again s r))
          | inr e ↦ rw e r
        ])

  drain_traced-Keeps : (drained : Bool) → Keeps IsRun (act (drain_traced drained))
  drain_traced-Keeps drained = keeps (λ s r. ground arith)

  trace_closed-Keeps : Keeps IsRun (Consumers.trace_closed api work)
  trace_closed-Keeps = keeps (λ s r. ground arith)

  drain-Keeps : (deadline : ℕ) → Keeps IsRun (drain api work deadline)
  unfolding drain
  drain-Keeps deadline = Keeps-bind IsRun (library_call-Keeps api.link_drain) λ started.
      Keeps-bind IsRun
        (Keeps-if IsRun started (drain_while-Keeps deadline 2001) (Keeps-pure IsRun false))
        λ drained. Keeps-then IsRun (drain_traced-Keeps drained) (
          Keeps-bind IsRun (Keeps-gets IsRun (λ s. s.consumer.detach_received)) λ detached.
            Keeps-when IsRun (not drained && not detached)
              (failure-Keeps (codes "Receiver drain did not complete before shutdown")))

  detach_receiver-Keeps : Keeps IsRun (detach_receiver api work)
  unfolding detach_receiver
  detach_receiver-Keeps = Keeps-bind IsRun (library_call-Keeps api.messagereceiver_close) λ shut.
      Keeps-then IsRun
        (Keeps-when IsRun (not shut) (failure-Keeps (codes "Could not close AMQP receiver")))
        (Keeps-bind IsRun (Keeps-gets IsRun (λ s. api.now s.library)) λ t.
          Keeps-then IsRun (pump_while-Keeps (Consumers.is_connected api work) (t + 1000) 1001) (
            Keeps-bind IsRun (Keeps-gets IsRun (λ s. s.consumer.detach_received)) λ detached.
              Keeps-when IsRun (not detached)
                (failure-Keeps (codes "AMQP receiver shutdown timed out"))))

  closing-Keeps : Keeps IsRun (change_consumer (λ c. record c { closing = true }))
  closing-Keeps = keeps (λ s r. ground arith)

  closed-Keeps : Keeps IsRun (change_consumer (λ c. record c { closed = true; closing = false }))
  closed-Keeps = keeps (λ s r. ground arith)

  shut_down-Keeps : Keeps IsRun (shut_down api work)
  unfolding shut_down
  shut_down-Keeps = Keeps-then IsRun closing-Keeps (
      Keeps-bind IsRun (Keeps-gets IsRun (λ s. api.now s.library)) λ t.
        Keeps-then IsRun (pump_while-Keeps (Consumers.is_still_opening api work) (t + 2000) 2001) (
          Keeps-bind IsRun
            (Keeps-gets IsRun (λ s.
              Consumers.is_open s.consumer.receiver_state && Consumers.is_connected api work s))
            λ drains. Keeps-then IsRun (Keeps-when IsRun drains (drain-Keeps (t + 2000))) (
              Keeps-bind IsRun
                (Keeps-gets IsRun
                  (λ s. s.consumer.message_receiver && Consumers.is_connected api work s))
                λ detaches. Keeps-then IsRun (Keeps-when IsRun detaches detach_receiver-Keeps) (
                  Keeps-then IsRun trace_closed-Keeps
                    (Keeps-then IsRun destroy_handles-Keeps closed-Keeps)))))

  pub consumer_close-Keeps : Keeps IsRun (Consumers.close api work)
  unfolding Consumers.close
  consumer_close-Keeps = Keeps-then IsRun (request_stop-Keeps (codes "receive-finished")) (
      Keeps-bind IsRun (Keeps-gets IsRun (λ s. s.connection.doing_work || s.consumer.closing))
        λ busy. Keeps-if IsRun busy (Keeps-pure IsRun tt) (
          Keeps-bind IsRun (Keeps-gets IsRun (λ s. s.consumer.closed)) λ shut.
            Keeps-then IsRun (Keeps-when IsRun (not shut) shut_down-Keeps)
              throw_pending_exception-Keeps))
