-- ===== src/Consumer/Handlers.antt =====
-- Consumer.cpp: the handlers that change the consumer alone.
use azure_uamqp_php.Prelude.{
  ℕ, ◌-◌, Bool, true, false, not, ◌&&◌, ◌||◌, Option, none, some, [], ◌++◌, Text, codes, ltb, ◌==◌,
  is_empty, if◌then◌else◌,
}
use azure_uamqp_php.Runtime.Library.{Thrown, ReceiverState, error_state, idle}
use azure_uamqp_php.Runtime.State.{Consumer}

-- The constructor's fields; a credit of 0 means continuous consumption.
unfoldable pub new_consumer : ℕ → Consumer
new_consumer max_link_credit = record {
  callback_set = false;
  exception_message = [];
  callback_exception = none;
  close_requested = false;
  closed = false;
  closing = false;
  detach_received = false;
  receiver_state = idle;
  credit_remaining = if max_link_credit == 0 then 1 else max_link_credit;
  finite_batch = not (max_link_credit == 0);
  stop_reason = [];
  link = false;
  message_receiver = false;
}

unfoldable pub request_stop : Text → Consumer → Consumer
request_stop reason c = record c {
  stop_reason = if not c.close_requested then reason else c.stop_reason;
  close_requested = true;
}

abbrev pub is_none : {A : Type 0} → Option A → Bool
is_none none = true
is_none (some _) = false

-- `if (error && !callbackException)`
abbrev pub keep_first : Option Thrown → Option Thrown → Option Thrown
keep_first (some e) _ = some e
keep_first none error = error

unfoldable pub handle_callback_exception : Text → Option Thrown → Consumer → Consumer
unfolding request_stop
handle_callback_exception message error c = request_stop (codes "error") (record c {
  callback_exception = keep_first c.callback_exception error;
  exception_message = if is_empty c.exception_message then message else c.exception_message;
})

abbrev or_text : Text → Option Text → Text
or_text default none = default
or_text default (some t) = t

-- `Receiver detached: ` with the condition and the description, as far as there are any.
unfoldable pub detach_message : Option Text → Option Text → Text
detach_message condition description =
    codes "Receiver detached: "
    ++ (or_text (codes "no condition") condition ++ (codes " " ++ or_text [] description))

unfoldable pub detach_with : Option Text → Option Text → Consumer → Consumer
unfolding handle_callback_exception
detach_with condition description c =
    if not c.closing || not (is_none condition) || not (is_none description)
    then handle_callback_exception (detach_message condition description) none c
    else c

unfoldable pub handle_link_detach : Option (Option Text × Option Text) → Consumer → Consumer
unfolding detach_with request_stop
handle_link_detach none c =
    request_stop (codes "peer-detach") (detach_with none none (record c { detach_received = true }))
handle_link_detach (some (condition, description)) c =
    request_stop (codes "peer-detach")
      (detach_with condition description (record c { detach_received = true }))

abbrev pub is_error_state : ReceiverState → Bool
is_error_state error_state = true
is_error_state _ = false

unfoldable pub handle_receiver_state : ReceiverState → Consumer → Consumer
unfolding handle_callback_exception
handle_receiver_state state c =
    let c' = record c { receiver_state = state } in
    if is_error_state state && not c.closed
    then handle_callback_exception (codes "AMQP receiver entered an error state") none c'
    else c'

-- What `onMessage` records of an exception: PHP's wrapper is kept for throwing it again.
unfoldable pub record_exception : Thrown → Consumer → Consumer
unfolding handle_callback_exception
record_exception (Thrown.php id what) c =
    handle_callback_exception what (some (Thrown.php id what)) c
record_exception (Thrown.extension what) c =
    handle_callback_exception what (some (Thrown.extension what)) c
record_exception (Thrown.standard what) c = handle_callback_exception what none c
record_exception Thrown.other c =
    handle_callback_exception (codes "Unknown message callback exception") none c

-- `if (creditRemaining > 0) --creditRemaining`
unfoldable pub use_credit : Consumer → Consumer
use_credit c = record c {
  credit_remaining =
      if ltb 0 c.credit_remaining then c.credit_remaining - 1 else c.credit_remaining;
}

-- After a callback that returned; `stop` says whether it returned `false`.
unfoldable pub after_callback : Bool → Consumer → Consumer
unfolding request_stop
after_callback stop c =
    if stop
    then request_stop (codes "callback-stop") c
    else if c.finite_batch && c.credit_remaining == 0
    then request_stop (codes "batch-complete") c
    else c
