-- ===== src/Connection/Lifecycle.antt =====
-- Connection.cpp, `connect` and `close`.
use azure_uamqp_php.Prelude.{
  Bool, true, false, not, ◌||◌, none, some, Option, codes, is_empty, if◌then◌else◌,
}
use azure_uamqp_php.Runtime.Library.{Thrown, Handle, Uamqp}
use azure_uamqp_php.Runtime.State.{
  Connection, M, ◌>>=◌, ◌>>◌, pure, raise, gets, change_connection, change_consumer, when,
  try_catch, change_library, library_call,
}
use azure_uamqp_php.Consumer.Handlers.{request_stop}
use azure_uamqp_php.Consumer.Closing as Consumers
use azure_uamqp_php.Consumer.Closing.{create, destroy, destroy_handles}
use azure_uamqp_php.Connection.Logger.{ensure_logger_configured}

-- What `close` keeps of an exception of the consumer, and throws at the end: a `Php::Throwable` as
-- it is, and otherwise a text, which is thrown only if it is not empty.
abbrev pub close_error : Thrown → Option Thrown
close_error (Thrown.php id what) = some (Thrown.php id what)
close_error (Thrown.extension what) = some (Thrown.extension what)
close_error (Thrown.standard what) = if is_empty what then none else some (Thrown.extension what)
close_error Thrown.other = some (Thrown.extension (codes "Unknown consumer shutdown error"))

module _ {L : Type 0} (api : Uamqp L) where
  -- The transport, TLS or a plain socket. NULL is not checked.
  unfoldable pub open_transport : M L (Unit {0})
  unfolding create
  open_transport = do
    use_tls ← gets (λ s. s.connection.use_tls)
    made ← create api (if use_tls then Handle.tls_io else Handle.socket_io)
    change_connection
        (λ c. if use_tls then record c { tls_io = made } else record c { socket_io = made })

  unfoldable pub open_sasl : M L (Unit {0})
  unfolding create
  open_sasl = do
    mechanism ← create api Handle.sasl_mechanism
    change_connection (λ c. record c { sasl_mechanism = mechanism })
    io ← create api Handle.sasl_io
    change_connection (λ c. record c { sasl_io = io })

  unfoldable pub connect : M L (Unit {0})
  unfolding ensure_logger_configured open_transport open_sasl create
  connect = do
    busy ← gets (λ s. s.connection.doing_work || s.connection.receiver_run_active)
    when busy (
        raise (
          Thrown.extension
            (codes "Cannot reconnect or create a link while a receiver callback loop is active")))
    connected ← gets (λ s. s.connection.is_connected)
    when (not connected) do
      change_connection (λ c. record c { close_requested = false; io_error = false })
      ensure_logger_configured api
      platform ← library_call api.platform_init
      when platform (change_connection (λ c. record c { platform_initialized = true }))
      open_transport
      use_auth ← gets (λ s. s.connection.use_auth)
      when use_auth open_sasl
      made ← create api Handle.connection
      change_connection (λ c. record c { connection = made })
      when (not made) (raise (Thrown.extension (codes "Could not create connection")))
      session ← create api Handle.session
      when (not session) (raise (Thrown.extension (codes "Could not create session")))
      change_connection (λ c. record c { session = true; is_connected = true })

  -- `if (p != NULL) { X_destroy(p); p = NULL; }`
  unfoldable pub release : (Connection → Bool) → Handle → (Connection → Connection) → M L (Unit {0})
  unfolding destroy
  release held h clear = do
    there ← gets (λ s. held s.connection)
    when there do destroy api h; change_connection clear

  -- From the session down to the platform.
  unfoldable pub release_handles : M L (Unit {0})
  unfolding release
  release_handles = do
    release (λ c. c.session) Handle.session (λ c. record c { session = false })
    release (λ c. c.connection) Handle.connection (λ c. record c { connection = false })
    release (λ c. c.sasl_io) Handle.sasl_io (λ c. record c { sasl_io = false })
    release (λ c. c.tls_io) Handle.tls_io (λ c. record c { tls_io = false })
    release (λ c. c.socket_io) Handle.socket_io (λ c. record c { socket_io = false })
    release (λ c. c.sasl_mechanism) Handle.sasl_mechanism (λ c. record c { sasl_mechanism = false })
    platform ← gets (λ s. s.connection.platform_initialized)
    when platform do
      change_library api.platform_deinit
      change_connection (λ c. record c { platform_initialized = false })

  module _ (work : M L (Unit {0})) where
    -- `consumer->close()` with its handlers, and `delete consumer`; what was thrown is returned.
    unfoldable pub close_consumer : M L (Option Thrown)
    unfolding Consumers.close destroy_handles
    close_consumer = do
      error ← try_catch (Consumers.close api work >>= λ _. pure none) (λ e. pure (close_error e))
      destroy_handles api
      change_connection (λ c. record c { consumer = false })
      pure error

    abbrev pub rethrow : Option Thrown → M L (Unit {0})
    rethrow none = pure tt
    rethrow (some e) = raise e

    unfoldable pub close : M L (Unit {0})
    unfolding close_consumer release_handles
    close = do
      change_connection (λ c. record c { close_requested = true })
      has_consumer ← gets (λ s. s.connection.consumer)
      when has_consumer (change_consumer (request_stop (codes "connection-close")))
      busy ←
          gets (λ s.
            s.connection.doing_work || s.connection.receiver_run_active || s.connection.closing)
      if busy then pure tt else (do
        change_connection (λ c. record c { closing = true })
        error ← (if has_consumer then close_consumer else pure none)
        release_handles
        change_connection (λ c. record c {
          is_connected = false;
          closing = false;
          session = false;
          consumer = false;
        })
        rethrow error)
