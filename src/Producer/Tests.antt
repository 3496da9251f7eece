-- ===== src/Producer/Tests.antt =====
-- Runs of `publish` against a small library, and the theorem at work on one.
use azure_uamqp_php.Prelude.{
  ℕ, zero, suc, ◌<◌, ◌≡◌, refl, true, false, some, none, [], codes, arith,
}
use azure_uamqp_php.Runtime.Library.{
  Thrown, Dispatch, done, send_complete, sender_detach, SendResult, send_ok, send_timeout, idle,
  Uamqp,
}
use azure_uamqp_php.Runtime.State.{Connection, System, returned, raised}
use azure_uamqp_php.Consumer.Dispatching.{do_work}
use azure_uamqp_php.Connection.Methods.{php_call}
use azure_uamqp_php.Producer.Publishing.{send, publish, unsent}
use azure_uamqp_php.Producer.Waiting.{Phase, Nears, IsIdle}
use azure_uamqp_php.Producer.Ending.{Completes}
use azure_uamqp_php.Producer.Cleanup.{IsPublished, send-IsPublished}

-- The library's state is the number of dispatches until the message is answered.
abbrev answers : SendResult → ℕ → Dispatch ℕ
answers r zero = done 0
answers r (suc zero) = send_complete r (done 0)
answers r (suc (suc n)) = done (suc n)

abbrev refuses : ℕ → Dispatch ℕ
refuses n = sender_detach (codes "amqp:not-found") (codes "no queue") (done n)

abbrev sending : (ℕ → Dispatch ℕ) → Uamqp ℕ
sending dowork = record {
  dowork = dowork;
  debug_file = λ t. none;
  logger_init = λ sink t. (true, t);
  platform_init = λ t. (true, t);
  platform_deinit = λ t. t;
  create = λ h t. (true, t);
  destroy = λ h t. t;
  messaging_create_source = λ t. (true, t);
  messaging_create_target = λ t. (true, t);
  link_set_rcv_settle_mode = λ t. (true, t);
  link_subscribe_on_link_detach_received = λ t. (true, t);
  link_set_receiver_credit = λ n t. (true, t);
  link_drain = λ t. (true, t);
  link_get_drain_complete = λ t. some true;
  link_set_snd_settle_mode = λ t. (true, t);
  link_set_max_message_size = λ t. (true, t);
  messagesender_open = λ t. (true, t);
  messagesender_send_async = λ t. (true, 3);
  messagereceiver_open = λ t. (true, t);
  messagereceiver_close = λ t. (true, t);
  now = λ t. t;
  sleep = λ n t. t;
}

abbrev plain_connection : Connection
plain_connection = record {
  use_tls = true;
  use_auth = false;
  is_connected = true;
  close_requested = false;
  platform_initialized = true;
  doing_work = false;
  receiver_run_active = false;
  closing = false;
  io_error = false;
  consumer = false;
  session = true;
  connection = true;
  sasl_io = false;
  socket_io = false;
  tls_io = true;
  sasl_mechanism = false;
}

abbrev publishing : System ℕ
publishing = record {
  connection = plain_connection;
  consumer = record {
    callback_set = false;
    exception_message = [];
    callback_exception = none;
    close_requested = false;
    closed = false;
    closing = false;
    detach_received = false;
    receiver_state = idle;
    credit_remaining = 0;
    finite_batch = false;
    stop_reason = [];
    link = false;
    message_receiver = false;
  };
  producer = unsent;
  logger_configured = false;
  library = 0;
  log = [];
}

plain_connection-IsIdle : IsIdle plain_connection
plain_connection-IsIdle = record {
  connected = refl;
  alone = refl;
  inactive = refl;
  not_closing = refl;
}

answers_near : (l : ℕ) → 0 < l → Nears (λ n. n) Phase.waiting l (answers send_ok l)
answers_near zero h = absurd (omega arith)
answers_near (suc zero) h = (tt, tt)
answers_near (suc (suc n)) h = (omega arith, omega arith)

abbrev answering : Completes (sending (answers send_ok))
answering = record { left = λ n. n; nears = answers_near }

send-IsPublished_example :
    IsPublished
      (sending (answers send_ok))
      (do_work (php_call (sending (answers send_ok)) 1) (sending (answers send_ok)))
      4
      publishing
send-IsPublished_example =
    send-IsPublished (sending (answers send_ok)) answering 0 4 publishing refl
      plain_connection-IsIdle refl (omega arith) (omega arith)

-- A send that times out is not told from one that succeeds.
send_timed_out :
    (send
      (sending (answers send_timeout))
      (do_work (php_call (sending (answers send_timeout)) 1) (sending (answers send_timeout)))
      4
      publishing).0
    ≡ returned tt
unfolding send do_work
send_timed_out = refl

-- A detach is thrown, after the connection is closed.
send_refused :
    (publish
      (sending refuses)
      (do_work (php_call (sending refuses) 1) (sending refuses))
      2
      publishing).0
    ≡ raised (Thrown.extension (codes "(amqp:not-found) no queue"))
unfolding publish do_work
send_refused = refl
