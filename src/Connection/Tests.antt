-- ===== src/Connection/Tests.antt =====
-- Runs of the receive path against a small library, and the theorems at work on them.
use azure_uamqp_php.Prelude.{
  ℕ, suc, ◌+◌, ◌≤◌, ◌≡◌, refl, true, false, none, some, [], ◌∷◌, codes, arith,
}
use azure_uamqp_php.Runtime.Library.{
  Thrown, Disposition, PhpRun, returns, throws, calls, close_call, consume_call, Delivery, done,
  message, open_state, Uamqp, IsSteady, console, debug_file_sink,
}
use azure_uamqp_php.Runtime.State.{
  Connection, System, Outcome, returned, raised, settled, delivery_traced, outcome_traced, printed,
}
use azure_uamqp_php.Consumer.Handlers.{use_credit, after_callback, record_exception}
use azure_uamqp_php.Consumer.Dispatching.{do_work, on_message, run_php}
use azure_uamqp_php.Consumer.Closing.{throw_pending_exception}
use azure_uamqp_php.Consumer.Closing as Consumers
use azure_uamqp_php.Consumer.Contained.{is_raised, on_message-contained}
use azure_uamqp_php.Connection.Lifecycle.{close, connect}
use azure_uamqp_php.Connection.Logger.{ensure_logger_configured}
use azure_uamqp_php.Connection.Configured.{
  IsSettled, has_logger, outcome_if, ensure_logger_configured-IsSettled,
}
use azure_uamqp_php.Connection.Reopening.{IsClosedBy, connect-IsClosedBy}
use azure_uamqp_php.Connection.Objects.{initial, construct, destroy_connection}
use azure_uamqp_php.Connection.Methods.{php_call, run_receiver}
use azure_uamqp_php.Connection.Reentrancy.{nested}
use azure_uamqp_php.Connection.Batch.{ends, handled, dispatches, batch_bounded}
use azure_uamqp_php.Connection.Stopped.{do_work-stopped}
use azure_uamqp_php.Connection.Traced.{IsBalanced, dispatches-IsBalanced}
use azure_uamqp_php.Connection.Pending.{first_exception_raised}
use azure_uamqp_php.Connection.Run.{run_bounded}
use azure_uamqp_php.Connection.Shutdown.{close-ends}
use azure_uamqp_php.Connection.Release.{is_released, released_log, close-released}

abbrev pub plain : Delivery
plain = record { retained = true; run = returns false }

-- A callback that closes the connection, and throws.
abbrev pub failing : Delivery
failing = record {
  retained = true;
  run = calls close_call (λ _. throws (Thrown.php 7 (codes "late")));
}

-- In each dispatch three messages arrive; the clock is the library's state.
abbrev pub three_messages : Uamqp ℕ
three_messages = record {
  dowork = λ t. message plain (λ _. message failing (λ _. message plain (λ _. done (suc t))));
  debug_file = λ t. none;
  logger_init = λ sink t. (true, t);
  platform_init = λ t. (true, t);
  platform_deinit = λ t. t;
  create = λ h t. (true, t);
  destroy = λ h t. t;
  messaging_create_source = λ t. (true, t);
  messaging_create_target = λ t. (true, t);
  link_set_rcv_settle_mode = λ t. (true, t);
  link_subscribe_on_link_detach_received = λ t. (true, t);
  link_set_receiver_credit = λ n t. (true, t);
  link_drain = λ t. (true, t);
  link_get_drain_complete = λ t. some true;
  link_set_snd_settle_mode = λ t. (true, t);
  link_set_max_message_size = λ t. (true, t);
  messagesender_open = λ t. (true, t);
  messagesender_send_async = λ t. (true, t);
  messagereceiver_open = λ t. (true, t);
  messagereceiver_close = λ t. (true, t);
  now = λ t. t;
  sleep = λ n t. t + n;
}

abbrev connected : Connection
connected = record {
  use_tls = true;
  use_auth = true;
  is_connected = true;
  close_requested = false;
  platform_initialized = true;
  doing_work = false;
  receiver_run_active = false;
  closing = false;
  io_error = false;
  consumer = true;
  session = true;
  connection = true;
  sasl_io = true;
  socket_io = false;
  tls_io = true;
  sasl_mechanism = true;
}

abbrev receiving : ℕ → System ℕ
receiving credit = record {
  connection = connected;
  consumer = record {
    callback_set = true;
    exception_message = [];
    callback_exception = none;
    close_requested = false;
    closed = false;
    closing = false;
    detach_received = false;
    receiver_state = open_state;
    credit_remaining = credit;
    finite_batch = true;
    stop_reason = [];
    link = true;
    message_receiver = true;
  };
  producer = record { sent_messages = 0; stop_running = false; exception_message = [] };
  logger_configured = false;
  library = 0;
  log = [];
}

abbrev work : System ℕ → Outcome (Unit {0}) × System ℕ
work = do_work (php_call three_messages 1) three_messages

-- One of the three is accepted, one fails, and the third is released.
one_dispatch :
    (work (receiving 3)).1.log
    ≡ settled Disposition.released
      ∷ outcome_traced (codes "released-unhandled")
      ∷ settled Disposition.modified
      ∷ outcome_traced (codes "abandoned-error")
      ∷ settled Disposition.accepted
      ∷ delivery_traced (codes "accepted-continue")
      ∷ []
unfolding do_work use_credit run_php after_callback php_call record_exception
one_dispatch = refl

batch_bounded_example : handled (dispatches work 2 (receiving 1)).log ≤ 0 + 1
batch_bounded_example = batch_bounded three_messages 0 2 (receiving 1) refl (omega arith)

abbrev stopping : System ℕ
stopping = record (receiving 2) {
  consumer = record (receiving 2).consumer {
    close_requested = true;
    callback_exception = some (Thrown.php 1 (codes "first"));
  };
}

do_work-stopped_example :
    (handled (do_work nested three_messages stopping).1.log ≡ 0)
    × ((do_work nested three_messages stopping).1.consumer.close_requested ≡ true)
do_work-stopped_example = do_work-stopped nested three_messages stopping refl

abbrev failed : System ℕ
failed = record (receiving 2) {
  consumer = record (receiving 2).consumer {
    callback_exception = some (Thrown.php 1 (codes "first"));
  };
}

first_exception_raised_example :
    (throw_pending_exception three_messages (dispatches work 2 failed)).0
    ≡ raised (Thrown.php 1 (codes "first"))
first_exception_raised_example =
    first_exception_raised three_messages 0 2 (Thrown.php 1 (codes "first")) failed refl

on_message-contained_example : is_raised (on_message nested failing (receiving 1)).0 ≡ false
on_message-contained_example = on_message-contained nested failing (receiving 1)

abbrev no_consumer : System ℕ
no_consumer = record (receiving 1) { connection = record connected { consumer = false } }

close-released_example :
    ((close three_messages work no_consumer).0 ≡ returned tt)
    × ((is_released (close three_messages work no_consumer).1.connection ≡ true)
        × ((close three_messages work no_consumer).1.log
            ≡ released_log (no_consumer.connection) []))
close-released_example = close-released three_messages work no_consumer refl refl

abbrev steady : IsSteady three_messages
steady = record {
  dowork_now = λ l x y z. omega arith;
  sleep_now = λ n l. omega arith;
  link_drain_now = λ l. omega arith;
}

close-ends_example : ends (Consumers.close three_messages work (receiving 2)).0 ≡ true
close-ends_example = close-ends three_messages 0 (receiving 2) steady

-- A loop function that consumes twice.
abbrev consuming : PhpRun
consuming = calls consume_call (λ _. calls consume_call (λ _. returns false))

run_bounded_example :
    handled (run_receiver three_messages (php_call three_messages 2) consuming (receiving 1)).1.log
    ≤ 0 + 1
run_bounded_example = run_bounded three_messages 0 consuming (receiving 1) refl (omega arith)

-- A file that cannot be opened, and a console that can.
abbrev no_file : Uamqp ℕ
no_file = record three_messages {
  debug_file = λ t. some (codes "/x");
  logger_init = λ sink t. elim sink [ console ↦ (true, t) | debug_file_sink ↦ (false, t) ];
}

logger_on_console :
    (ensure_logger_configured no_file (receiving 1)).1.log
    ≡ printed (codes "Could not open UAMQP_DEBUG_FILE '/x'; using standard output\n") ∷ []
unfolding ensure_logger_configured
logger_on_console = refl

ensure_logger_configured-IsSettled_example :
    ((ensure_logger_configured no_file (receiving 1)).0
      ≡ outcome_if no_file (has_logger no_file (receiving 1)))
    × IsSettled no_file (ensure_logger_configured no_file (receiving 1))
ensure_logger_configured-IsSettled_example =
    ensure_logger_configured-IsSettled no_file (receiving 1)

-- A connection that is connected and destroyed again.
connected_and_destroyed :
    is_released
      (destroy_connection three_messages work
        (connect three_messages (record (receiving 1) {
          connection = construct true (codes "name") (codes "key") initial;
        })).1).1.connection
    ≡ true
unfolding destroy_connection construct connect close
connected_and_destroyed = refl

abbrev unconnected : System ℕ
unconnected = record (receiving 1) {
  connection = construct true (codes "name") (codes "key") initial;
  logger_configured = true;
}

connect-IsClosedBy_example : IsClosedBy three_messages work [] (connect three_messages unconnected)
unfolding construct
connect-IsClosedBy_example =
    connect-IsClosedBy three_messages work unconnected refl refl refl refl refl

dispatches-IsBalanced_example : IsBalanced (dispatches work 2 (receiving 3)).log
dispatches-IsBalanced_example =
    dispatches-IsBalanced three_messages 0 2 (receiving 3)
      (record { of_accepted = refl; of_released = refl; of_modified = omega arith })
