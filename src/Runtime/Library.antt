-- ===== src/Runtime/Library.antt =====
-- What sending and receiving use of uAMQP, of the clock and of PHP: a parameter of the model.
use azure_uamqp_php.Prelude.{ℕ, ◌+◌, ◌≤◌, Bool, Option, Text}
use azure_uamqp_php.Prelude.Int.{ℤ}

-- `MESSAGE_RECEIVER_STATE`
pub data ReceiverState : Type 0 where
  idle opening open_state closing_state error_state : ReceiverState

-- An exception: a PHP one, known by its object, one that this extension made, a C++ one, or
-- anything else. The first two are `Php::Throwable`.
pub data Thrown : Type 0 where
  php : ℕ → Text → Thrown
  extension : Text → Thrown
  standard : Text → Thrown
  other : Thrown

-- The delivery states that are answered.
pub data Disposition : Type 0 where
  accepted released modified : Disposition

-- How a call that PHP code makes ends.
pub data Reply : Type 0 where
  answer : Bool → Reply
  failure : Thrown → Reply

-- The methods of `Connection` that PHP code calls while it receives, and the PHP code itself: it
-- ends by returning, where `returns true` stands for the value `false`, or by throwing; before
-- that it makes calls, and goes on by their outcomes. `set_callback` has the link credit, if
-- it is given, and the loop function.
mutual
  pub data PhpRun : Type 0 where
    returns : Bool → PhpRun
    throws : Thrown → PhpRun
    calls : Call → (Reply → PhpRun) → PhpRun

  pub data Call : Type 0 where
    close_call consume_call was_close_requested_call : Call
    set_callback_call : Option ℤ → PhpRun → Call

-- A message that is delivered: whether it can be wrapped and retained, and what the PHP callback
-- does with it.
pub record Delivery : Type 0 where
  pub retained : Bool
  pub run : PhpRun

-- `MESSAGE_SEND_RESULT`
pub data SendResult : Type 0 where
  send_ok send_error send_timeout send_cancelled : SendResult

-- One call of `connection_dowork`: the callbacks that the library makes, one after the other, by
-- what the receiver answers, and the library's state at the end. The sender's link is detached with a
-- condition and a description; the code reads both without a test for NULL.
pub data Dispatch (L : Type 0) : Type 0 where
  done : L → Dispatch L
  message : Delivery → (Disposition → Dispatch L) → Dispatch L
  detach : Option (Option Text × Option Text) → Dispatch L → Dispatch L
  receiver_state : ReceiverState → Dispatch L → Dispatch L
  io_error : Dispatch L → Dispatch L
  send_complete : SendResult → Dispatch L → Dispatch L
  sender_detach : Text → Text → Dispatch L → Dispatch L

-- Where the library's own log goes: to standard output, or to the file that `UAMQP_DEBUG_FILE` names.
pub data LogSink : Type 0 where
  console debug_file_sink : LogSink

-- What is created and destroyed.
pub data Handle : Type 0 where
  tls_io socket_io sasl_mechanism sasl_io connection session link message_receiver : Handle
  sender_link message_sender : Handle

-- `true` stands for the result code 0, or for a handle that is not NULL; `now` and `sleep` are in
-- milliseconds. `debug_file` is the environment's `UAMQP_DEBUG_FILE`, and `logger_init` is called with
-- that sink configured. A failing `link_get_drain_complete` is `none`.
pub record Uamqp (L : Type 0) : Type 0 where
  pub dowork : L → Dispatch L
  pub debug_file : L → Option Text
  pub logger_init : LogSink → L → Bool × L
  pub platform_init : L → Bool × L
  pub platform_deinit : L → L
  pub create : Handle → L → Bool × L
  pub destroy : Handle → L → L
  pub messaging_create_source : L → Bool × L
  pub messaging_create_target : L → Bool × L
  pub link_set_rcv_settle_mode : L → Bool × L
  pub link_subscribe_on_link_detach_received : L → Bool × L
  pub link_set_receiver_credit : ℕ → L → Bool × L
  pub link_drain : L → Bool × L
  pub link_get_drain_complete : L → Option Bool
  pub link_set_snd_settle_mode : L → Bool × L
  pub link_set_max_message_size : L → Bool × L
  pub messagesender_open : L → Bool × L
  pub messagesender_send_async : L → Bool × L
  pub messagereceiver_open : L → Bool × L
  pub messagereceiver_close : L → Bool × L
  pub now : L → ℕ
  pub sleep : ℕ → L → L

module _ {L : Type 0} (api : Uamqp L) where
  -- Wherever the dispatch ends, the clock shows at least `t`.
  abbrev pub EndsFrom : ℕ → Dispatch L → Type 0
  EndsFrom t (done l) = t ≤ api.now l
  EndsFrom t (message d next) = (x : Disposition) → EndsFrom t (next x)
  EndsFrom t (detach e next) = EndsFrom t next
  EndsFrom t (receiver_state x next) = EndsFrom t next
  EndsFrom t (io_error next) = EndsFrom t next
  EndsFrom t (send_complete r next) = EndsFrom t next
  EndsFrom t (sender_detach c d next) = EndsFrom t next

  -- The clock is steady, and `sleep_for` blocks at least as long as it is told to.
  pub record IsSteady : Type 0 where
    pub dowork_now : (l : L) → EndsFrom (api.now l) (api.dowork l)
    pub sleep_now : (n : ℕ) (l : L) → api.now l + n ≤ api.now (api.sleep n l)
    pub link_drain_now : (l : L) → api.now l ≤ api.now (api.link_drain l).1
