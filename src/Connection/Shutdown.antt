-- ===== src/Connection/Shutdown.antt =====
-- Consumer.cpp and Connection.cpp: the rounds of the shutdown loops.
use azure_uamqp_php.Prelude.{
  ℕ, zero, suc, ◌+◌, ◌≤◌, ◌<◌, ◌≡◌, refl, sym, subst, Bool, true, false, not, ◌&&◌, ◌||◌, none,
  Text, codes, arith, ltb, Bool-cases, inl, inr, ◌∷◌,
}
use azure_uamqp_php.Runtime.Library.{
  Disposition, Uamqp, Delivery, Dispatch, done, message, detach, receiver_state, io_error,
  send_complete, sender_detach, EndsFrom, IsSteady,
}
use azure_uamqp_php.Runtime.State.{
  Consumer, System, Outcome, returned, raised, stuck, M, ◌>>=◌, continue_with, gets, library_call,
  change_consumer, settled, act, drain_traced,
}
use azure_uamqp_php.Runtime.Runs.{
  Ran, Runs, runs, ran, Anywhere, Runs-gets, Runs-pure, Ran-weaken, Runs-bind, Runs-then, Runs-if,
  Runs-weaken, Runs-when,
}
use azure_uamqp_php.Consumer.Handlers.{request_stop, handle_callback_exception}
use azure_uamqp_php.Consumer.Dispatching.{dispatch, do_work, on_message, handle_io_error}
use azure_uamqp_php.Consumer.Answering.{with_credit_used, finish, on_message-cases}
use azure_uamqp_php.Consumer.Closing as Consumers
use azure_uamqp_php.Consumer.Closing.{
  destroy_handles, destroy, throw_pending_exception, pump, pump_while, drain_while, drain,
  detach_receiver, shut_down, is_open,
}
use azure_uamqp_php.Connection.Reentrancy.{nested, nested-library, php_work}
use azure_uamqp_php.Connection.Methods.{php_call}
use azure_uamqp_php.Connection.Batch.{run_php-ends, ends}
use azure_uamqp_php.Consumer.Induction.{run_php-keeps}

module _ {L : Type 0} (api : Uamqp L) where
  -- A message is answered, and the library is where it was.
  abbrev IsAnswer : L → Outcome Disposition × System L → Type 0
  IsAnswer l (returned x, s) = s.library ≡ l
  IsAnswer l (raised e, s) = ⊥
  IsAnswer l (stuck, s) = ⊥

  finish-IsAnswer :
      (l : L) (x : Outcome Bool × System L)
      → ends x.0 ≡ true
      → x.1.library ≡ l
      → IsAnswer l (finish x)
  unfolding finish
  finish-IsAnswer l (returned stop, s) e h = h
  finish-IsAnswer l (raised x, s) e h = h
  finish-IsAnswer l (stuck, s) e h = cc

  on_message-IsAnswer : (d : Delivery) (s : System L) → IsAnswer s.library (on_message nested d s)
  on_message-IsAnswer d s =
      on_message-cases nested d s (IsAnswer s.library) (λ h. refl) (λ h e. refl)
        (λ h. finish-IsAnswer s.library _ (run_php-ends d.run (with_credit_used s)) (
          run_php-keeps nested (λ t. t.library ≡ s.library) (nested-library s.library) d.run
            (with_credit_used s) refl))

  -- The clock shows at least `t`.
  abbrev From : ℕ → System L → Type 0
  From t s = t ≤ api.now s.library

  dispatch-From :
      (t : ℕ) (d : Dispatch L) (s : System L)
      → EndsFrom api t d
      → Ran (From t) (dispatch nested d s)
  unfolding dispatch handle_io_error
  dispatch-From t (done l) s h = h
  dispatch-From t (message d next) s h =
      go (on_message nested d s) (on_message-IsAnswer d s)
        (λ x s'. dispatch-From t (next x) s' (h x))
    where
      go :
          (x : Outcome Disposition × System L)
          → IsAnswer s.library x
          → ((y : Disposition) (s' : System L) → Ran (From t) (dispatch nested (next y) s'))
          → Ran (From t) (
              continue_with
                (λ y s'. dispatch nested (next y) (record s' { log = settled y ∷ s'.log }))
                x)
      go (returned y, s') a ih = ih y _
      go (raised e, s') a ih = absurd a
      go (stuck, s') a ih = a
  dispatch-From t (detach e next) s h = dispatch-From t next _ h
  dispatch-From t (receiver_state x next) s h = dispatch-From t next _ h
  dispatch-From t (send_complete r next) s h = dispatch-From t next _ h
  dispatch-From t (sender_detach c d next) s h = dispatch-From t next _ h
  dispatch-From t (io_error next) s h = elim (Bool-cases s.connection.consumer) [
    | inl e ↦ rw e (dispatch-From t next _ h)
    | inr e ↦ rw e (dispatch-From t next _ h)
  ]

  module _ (steady : IsSteady api) where
    abbrev work : M L (Unit {0})
    work = do_work nested api

    abbrev working : System L → System L
    working s = record s { connection = record s.connection { doing_work = true } }

    dispatched :
        (t : ℕ) (s : System L)
        → From t s
        → Ran (From t) (dispatch nested (api.dowork s.library) (working s))
    dispatched t s p =
        Ran-weaken (dispatch nested (api.dowork s.library) (working s)) (λ s' q. omega arith)
          (dispatch-From (api.now s.library) (api.dowork s.library) (working s)
            (steady.dowork_now s.library))

    work-Runs : (t : ℕ) → Runs (From t) (From t) work
    unfolding do_work
    work-Runs t = runs (λ s p. ground (arith, dispatched t s p))

    pump-Runs : (t : ℕ) → Runs (From t) (From (t + 1)) (pump api work)
    unfolding pump
    pump-Runs t =
        Runs-then (work-Runs t)
          (runs (λ s p. let slept = steady.sleep_now 1 s.library in omega arith))

    -- A round that is made begins before the deadline, so that one more of them is left.
    pump_while-Runs :
        (test : System L → Bool) (deadline fuel t : ℕ)
        → deadline < t + suc fuel
        → Runs (From t) (From t) (pump_while api work (suc fuel) test deadline)
    unfolding pump_while
    pump_while-Runs test deadline zero t h = runs (λ s p.
        elim (Bool-cases (test s && ltb (api.now s.library) deadline)) [
          | inl e ↦ absurd (ground arith)
          | inr e ↦ rw e p
        ])
    pump_while-Runs test deadline (suc fuel) t h = runs (λ s p.
        elim (Bool-cases (test s && ltb (api.now s.library) deadline)) [
          | inl e ↦ rw e (
              ran
                (Runs-then (pump-Runs t) (
                  Runs-weaken (λ s' q. omega arith)
                    (pump_while-Runs test deadline fuel (t + 1) (omega arith))))
                s p)
          | inr e ↦ rw e p
        ])

    drain_while-Runs :
        (deadline fuel t : ℕ)
        → deadline < t + suc fuel
        → Runs (From t) (From t) (drain_while api work (suc fuel) deadline)
    unfolding drain_while
    drain_while-Runs deadline zero t h = runs (λ s p. ground (arith, p, h))
    drain_while-Runs deadline (suc fuel) t h =
        let again = Runs-then (pump-Runs t) (
          Runs-weaken {P' = From t} (λ s' q. omega arith)
            (drain_while-Runs deadline fuel (t + 1) (omega arith))) in
        runs (λ s p. ground (arith, ran again s p))

    change_consumer-Runs :
        (P : System L → Type 0) (f : Consumer → Consumer)
        → ((s : System L) → P s → P (record s { consumer = f s.consumer }))
        → Runs P P (change_consumer f)
    change_consumer-Runs P f k = runs k

    link_drain-Runs : (t : ℕ) → Runs (From t) (From t) (library_call api.link_drain)
    link_drain-Runs t = runs (λ s p. let drained = steady.link_drain_now s.library in omega arith)

    drain-Runs : (t : ℕ) → Runs (From t) (From t) (drain api work (t + 2000))
    unfolding drain
    drain-Runs t = Runs-bind (link_drain-Runs t) λ started.
        Runs-bind
          (Runs-if started (drain_while-Runs (t + 2000) 2000 t (omega arith))
            (Runs-pure (From t) false))
          λ drained. Runs-then {m = act (drain_traced drained)} (runs (λ s p. p)) (
            Runs-bind (Runs-gets (From t) (λ s. s.consumer.detach_received)) λ detached.
              Runs-when (not drained && not detached) (
                change_consumer-Runs (From t)
                  (handle_callback_exception
                    (codes "Receiver drain did not complete before shutdown") none)
                  (λ s p. p)))

    library_call-Runs : (f : L → Bool × L) → Runs Anywhere Anywhere (library_call f)
    library_call-Runs f = runs (λ s p. tt)

    failure-Runs :
        (reason : Text)
        → Runs Anywhere Anywhere (change_consumer {L = L} (handle_callback_exception reason none))
    failure-Runs reason = runs (λ s p. tt)

    -- What follows a reading of the clock starts from it.
    now-Runs :
        {A : Type 0} {k : ℕ → M L A}
        → ((t : ℕ) → Runs (From t) Anywhere (k t))
        → Runs Anywhere Anywhere (gets (λ s. api.now s.library) >>= k)
    now-Runs h = runs (λ s p. ran (h (api.now s.library)) s (omega arith))

    detach_receiver-Runs : Runs Anywhere Anywhere (detach_receiver api work)
    unfolding detach_receiver
    detach_receiver-Runs = Runs-bind (library_call-Runs api.messagereceiver_close) λ done_closing.
        Runs-then
          (Runs-when (not done_closing) (failure-Runs (codes "Could not close AMQP receiver")))
          (now-Runs λ t.
            Runs-then
              (Runs-weaken {P' = Anywhere} (λ s' q. tt)
                (pump_while-Runs (Consumers.is_connected api work) (t + 1000) 1000 t (omega arith)))
              (Runs-bind (Runs-gets Anywhere (λ s. s.consumer.detach_received)) λ detached.
                Runs-when (not detached) (failure-Runs (codes "AMQP receiver shutdown timed out"))))

    destroy_handles-Runs : Runs Anywhere Anywhere (destroy_handles api)
    unfolding destroy_handles destroy
    destroy_handles-Runs = runs (λ s p. ground arith)

    throw_pending_exception-Runs : Runs Anywhere Anywhere (throw_pending_exception api)
    unfolding throw_pending_exception
    throw_pending_exception-Runs = runs (λ s p. ground arith)

    shut_down-Runs : Runs Anywhere Anywhere (shut_down api work)
    unfolding shut_down
    shut_down-Runs =
        Runs-then {m = change_consumer (λ c. record c { closing = true })} (runs (λ s p. tt)) (
          now-Runs λ t.
            Runs-then
              (pump_while-Runs (Consumers.is_still_opening api work) (t + 2000) 2000 t
                (omega arith))
              (Runs-bind
                (Runs-gets (From t)
                  (λ s. is_open s.consumer.receiver_state && Consumers.is_connected api work s))
                λ drains. Runs-then (Runs-when drains (drain-Runs t)) (
                  Runs-bind
                    (Runs-weaken {P' = Anywhere} (λ s' q. tt)
                      (Runs-gets (From t)
                        (λ s. s.consumer.message_receiver && Consumers.is_connected api work s)))
                    λ detaches. Runs-then (Runs-when detaches detach_receiver-Runs) (
                      Runs-then {m = Consumers.trace_closed api work} (runs (λ s p. tt)) (
                        Runs-then
                          {k = change_consumer (λ c. record c { closed = true; closing = false })}
                          destroy_handles-Runs (runs (λ s p. tt)))))))

    close-Runs : Runs Anywhere Anywhere (Consumers.close api work)
    unfolding Consumers.close
    close-Runs =
        Runs-then {m = change_consumer (request_stop (codes "receive-finished"))} (runs (λ s p. tt))
          (Runs-bind (Runs-gets Anywhere (λ s. s.connection.doing_work || s.consumer.closing))
            λ busy. Runs-if busy (Runs-pure Anywhere tt) (
              Runs-bind (Runs-gets Anywhere (λ s. s.consumer.closed)) λ shut.
                Runs-then (Runs-when (not shut) shut_down-Runs) throw_pending_exception-Runs))

    Ran-ends : {A : Type 0} (x : Outcome A × System L) → Ran Anywhere x → ends x.0 ≡ true
    Ran-ends (returned a, s) r = refl
    Ran-ends (raised e, s) r = refl
    Ran-ends (stuck, s) r = absurd r

-- With a steady clock, `Consumer::close` ends in every state: its three loops never run out of their
-- rounds, whatever uAMQP delivers meanwhile and whatever the callbacks call.
pub close-ends :
    {L : Type 0} (api : Uamqp L) (depth : ℕ) (s : System L)
    → IsSteady api
    → ends (Consumers.close api (do_work (php_call api (suc depth)) api) s).0 ≡ true
close-ends {L} api depth s steady =
    subst (λ (m : M L (Unit {0})). ends (Consumers.close api m s).0 ≡ true)
      (sym (php_work api depth)) (Ran-ends api steady _ (ran (close-Runs api steady) s tt))
