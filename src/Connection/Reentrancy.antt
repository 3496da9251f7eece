-- ===== src/Connection/Reentrancy.antt =====
-- Connection.cpp: the methods that PHP calls from inside a message callback.
use mathlib.Core.Path.{fun_ext}
use azure_uamqp_php.Prelude.{
  ℕ, suc, ◌∷◌, ◌≡◌, refl, ap, ◌∙◌, Bool, true, false, ◌&&◌, ◌||◌, none, some, codes, if◌then◌else◌,
  arith, Bool-cases, inl, inr,
}
use azure_uamqp_php.Runtime.Library.{
  Thrown, PhpRun, returns, throws, calls, Call, close_call, consume_call, was_close_requested_call,
  set_callback_call, Uamqp, Reply, answer, failure, Dispatch, done, message, detach, receiver_state,
  io_error, send_complete, sender_detach, Delivery, Disposition,
}
use azure_uamqp_php.Runtime.State.{
  System, settled, Outcome, returned, raised, stuck, M, continue_with,
}
use azure_uamqp_php.Consumer.Handlers.{request_stop, use_credit}
use azure_uamqp_php.Consumer.Dispatching.{
  run_php, reply_with, deliver, accept, handle_message, on_message, dispatch, do_work,
  handle_io_error,
}
use azure_uamqp_php.Consumer.Induction.{answered, run_php-keeps}
use azure_uamqp_php.Connection.Lifecycle.{connect, close}
use azure_uamqp_php.Connection.Methods.{
  link_credit, method, php_call, set_callback, start_receiver, consume, was_close_requested,
}

-- `close()` from a callback: it asks for the stop, and everything else is left for later.
abbrev pub ask_to_close : {L : Type 0} → System L → System L
ask_to_close s = record s {
  connection = record s.connection { close_requested = true };
  consumer =
      if s.connection.consumer
      then request_stop (codes "connection-close") s.consumer
      else s.consumer;
}

-- What a call from a callback comes to, whatever the library and however deep it is nested.
unfoldable pub nested : {L : Type 0} → Call → M L Bool
nested close_call s = (returned false, ask_to_close s)
nested consume_call s =
    (raised (Thrown.extension (codes "Cannot recursively consume from a message callback")), s)
nested was_close_requested_call s = (
  returned (s.connection.close_requested || (s.connection.consumer && s.consumer.close_requested)),
  s,
)
nested (set_callback_call credit loop) s = (
  raised (
      Thrown.extension (elim (link_credit credit) [
        | none ↦
            codes
              "maxLinkCredit must be between 1 and 4294967295; omit it for continuous consumption"
        | some _ ↦
            codes "Cannot reconnect or create a link while a receiver callback loop is active"
      ])),
  s,
)

module _ {L : Type 0} (api : Uamqp L) (call : Call → M L Bool) where
  close-nested :
      (s : System L)
      → s.connection.doing_work ≡ true
      → close api (do_work call api) s ≡ (returned tt, ask_to_close s)
  unfolding close
  close-nested s h = ground arith

  connect-nested :
      (s : System L)
      → s.connection.doing_work ≡ true
      → connect api s ≡ (
        raised (
            Thrown.extension
              (codes "Cannot reconnect or create a link while a receiver callback loop is active")),
        s,
      )
  unfolding connect
  connect-nested s h = ground arith

  -- While the library dispatches, every method comes to its `nested` form: `close` only asks for the
  -- stop, `consume` and `setCallback` throw, and nothing is dispatched, created or destroyed.
  method-nested :
      (c : Call) (s : System L) → s.connection.doing_work ≡ true → method api call c s ≡ nested c s
  unfolding method nested consume was_close_requested set_callback start_receiver
  method-nested close_call s h = ground (arith, close-nested s h)
  method-nested consume_call s h = ground arith
  method-nested was_close_requested_call s h = refl
  method-nested (set_callback_call credit loop) s h = ground (arith, connect-nested s h)

-- A call leaves `doWork` marked as running.
nested-doing_work :
    {L : Type 0} (c : Call) (s : System L)
    → (nested c s).1.connection.doing_work ≡ s.connection.doing_work
unfolding nested
nested-doing_work close_call s = refl
nested-doing_work consume_call s = refl
nested-doing_work was_close_requested_call s = refl
nested-doing_work (set_callback_call credit loop) s = refl

-- A call leaves the library where it is.
pub nested-library :
    {L : Type 0} (l : L) (c : Call) (s : System L) → s.library ≡ l → (nested c s).1.library ≡ l
unfolding nested
nested-library l close_call s h = h
nested-library l consume_call s h = h
nested-library l was_close_requested_call s h = h
nested-library l (set_callback_call credit loop) s h = h

module _ {L : Type 0} (call : Call → M L Bool) where
  -- Calls that come to their nested form while the library dispatches.
  abbrev IsNested : Type 0
  IsNested = (c : Call) (s : System L) → s.connection.doing_work ≡ true → call c s ≡ nested c s

  module _ (same : IsNested) where
    run_php-nested :
        (run : PhpRun) (s : System L)
        → s.connection.doing_work ≡ true
        → run_php call run s ≡ run_php nested run s
    unfolding run_php
    run_php-nested (returns b) s h = refl
    run_php-nested (throws e) s h = refl
    run_php-nested (calls c next) s h =
        ap (reply_with (λ r. run_php call (next r))) (same c s h)
        ∙ go (nested c s) (nested-doing_work c s ∙ h) (λ r s' w. run_php-nested (next r) s' w)
      where
        go :
            (x : Outcome Bool × System L)
            → x.1.connection.doing_work ≡ true
            → ((r : Reply) (s' : System L)
                → s'.connection.doing_work ≡ true
                → run_php call (next r) s' ≡ run_php nested (next r) s')
            → reply_with (λ r. run_php call (next r)) x
              ≡ reply_with (λ r. run_php nested (next r)) x
        go (returned b, s') w ih = ih (answer b) s' w
        go (raised e, s') w ih = ih (failure e) s' w
        go (stuck, s') w ih = refl

    on_message-nested :
        (d : Delivery) (s : System L)
        → s.connection.doing_work ≡ true
        → on_message call d s ≡ on_message nested d s
    unfolding on_message handle_message deliver accept
    on_message-nested d s h =
        ground (arith, run_php-nested d.run (record s { consumer = use_credit s.consumer }) h)

abbrev IsWorking : {L : Type 0} → System L → Type 0
IsWorking s = s.connection.doing_work ≡ true

module _ {L : Type 0} where
  run_php-IsWorking :
      (run : PhpRun) (s : System L) → IsWorking s → IsWorking (run_php nested run s).1
  run_php-IsWorking = run_php-keeps nested IsWorking (λ c s h. nested-doing_work c s ∙ h)

  on_message-IsWorking :
      (d : Delivery) (s : System L) → IsWorking s → IsWorking (answered (on_message nested d s))
  unfolding on_message handle_message deliver accept
  on_message-IsWorking d s h =
      ground (arith, run_php-IsWorking d.run (record s { consumer = use_credit s.consumer }) h)

  module _ (call : Call → M L Bool) (same : IsNested call) where
    dispatch-nested :
        (d : Dispatch L) (s : System L) → IsWorking s → dispatch call d s ≡ dispatch nested d s
    unfolding dispatch handle_io_error
    dispatch-nested (done l) s h = refl
    dispatch-nested (message d next) s h =
        ap (continue_with (λ x s'. dispatch call (next x) (record s' { log = settled x ∷ s'.log })))
          (on_message-nested call same d s h)
        ∙ go (on_message nested d s) (on_message-IsWorking d s h)
            (λ x s' w. dispatch-nested (next x) s' w)
      where
        go :
            (x : Outcome Disposition × System L)
            → IsWorking (answered x)
            → ((y : Disposition) (s' : System L)
                → IsWorking s'
                → dispatch call (next y) s' ≡ dispatch nested (next y) s')
            → continue_with
                (λ y s'. dispatch call (next y) (record s' { log = settled y ∷ s'.log }))
                x
              ≡ continue_with
                  (λ y s'. dispatch nested (next y) (record s' { log = settled y ∷ s'.log }))
                  x
        go (returned y, s') w ih = ih y _ w
        go (raised e, s') w ih = refl
        go (stuck, s') w ih = refl
    dispatch-nested (detach e next) s h = dispatch-nested next _ h
    dispatch-nested (receiver_state x next) s h = dispatch-nested next _ h
    dispatch-nested (send_complete r next) s h = dispatch-nested next _ h
    dispatch-nested (sender_detach c d next) s h = dispatch-nested next _ h
    dispatch-nested (io_error next) s h = elim (Bool-cases s.connection.consumer) [
      | inl e ↦ rw e (dispatch-nested next _ h)
      | inr e ↦ rw e (dispatch-nested next _ h)
    ]

    pub do_work-nested : (api : Uamqp L) (s : System L) → do_work call api s ≡ do_work nested api s
    unfolding do_work
    do_work-nested api s = ground (
      arith,
      dispatch-nested (api.dowork s.library)
          (record s { connection = record s.connection { doing_work = true } }) refl,
    )

-- The methods that dispatch do so through `doWork` alone.
pub php_work :
    {L : Type 0} (api : Uamqp L) (depth : ℕ)
    → do_work (php_call api (suc depth)) api ≡ do_work nested api
unfolding php_call
php_work api depth =
    fun_ext (do_work-nested (php_call api (suc depth)) (method-nested api (php_call api depth)) api)
