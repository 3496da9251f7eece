-- ===== src/Connection/Cleanup.antt =====
-- Connection.cpp, `close`: the credit of a finite batch while the connection closes.
use azure_uamqp_php.Prelude.{
  ℕ, ◌≡◌, refl, Bool, true, false, ◌||◌, Option, none, some, codes, arith,
}
use azure_uamqp_php.Runtime.Library.{Thrown, Uamqp, Handle}
use azure_uamqp_php.Runtime.State.{Connection, System, change_connection}
use azure_uamqp_php.Runtime.Keeps.{
  Keeps, keeps, Keeps-bind, Keeps-then, Keeps-catch, Keeps-when, Keeps-if, Keeps-pure, Keeps-raise,
  Keeps-gets,
}
use azure_uamqp_php.Connection.Lifecycle.{
  close, release, release_handles, close_consumer, close_error, rethrow,
}
use azure_uamqp_php.Connection.Keeping.{
  IsRun, work, request_stop-Keeps, destroy-Keeps, destroy_handles-Keeps, change_library-Keeps,
  consumer_close-Keeps,
}

module _ {L : Type 0} (api : Uamqp L) (bound : ℕ) (running : Bool) where
  abbrev Kept : System L → Type 0
  Kept = IsRun api bound running

  connection-Keeps :
      (f : Connection → Connection)
      → ((c : Connection) → (f c).receiver_run_active ≡ c.receiver_run_active)
      → Keeps Kept (change_connection f)
  connection-Keeps f same = keeps (λ s r. ground (arith, r, same s.connection))

  release-Keeps :
      (held : Connection → Bool) (h : Handle) (clear : Connection → Connection)
      → ((c : Connection) → (clear c).receiver_run_active ≡ c.receiver_run_active)
      → Keeps Kept (release api held h clear)
  unfolding release
  release-Keeps held h clear same =
      Keeps-bind Kept (Keeps-gets Kept (λ s. held s.connection)) λ there.
        Keeps-when Kept there
          (Keeps-then Kept (destroy-Keeps api bound running h) (connection-Keeps clear same))

  release_handles-Keeps : Keeps Kept (release_handles api)
  unfolding release_handles
  release_handles-Keeps =
      Keeps-then Kept
        (release-Keeps (λ c. c.session) Handle.session (λ c. record c { session = false })
          (λ c. refl))
        (Keeps-then Kept
          (release-Keeps (λ c. c.connection) Handle.connection
            (λ c. record c { connection = false }) (λ c. refl))
          (Keeps-then Kept
            (release-Keeps (λ c. c.sasl_io) Handle.sasl_io (λ c. record c { sasl_io = false })
              (λ c. refl))
            (Keeps-then Kept
              (release-Keeps (λ c. c.tls_io) Handle.tls_io (λ c. record c { tls_io = false })
                (λ c. refl))
              (Keeps-then Kept
                (release-Keeps (λ c. c.socket_io) Handle.socket_io
                  (λ c. record c { socket_io = false }) (λ c. refl))
                (Keeps-then Kept
                  (release-Keeps (λ c. c.sasl_mechanism) Handle.sasl_mechanism
                    (λ c. record c { sasl_mechanism = false }) (λ c. refl))
                  (Keeps-bind Kept (Keeps-gets Kept (λ s. s.connection.platform_initialized))
                    λ platform. Keeps-when Kept platform (
                      Keeps-then Kept (change_library-Keeps api bound running api.platform_deinit) (
                        connection-Keeps (λ c. record c { platform_initialized = false })
                          (λ c. refl)))))))))

  close_consumer-Keeps : Keeps Kept (close_consumer api (work api bound running))
  unfolding close_consumer
  close_consumer-Keeps =
      Keeps-bind Kept
        (Keeps-catch Kept
          (Keeps-bind Kept (consumer_close-Keeps api bound running) (λ x. Keeps-pure Kept none))
          (λ e. Keeps-pure Kept (close_error e)))
        λ error. Keeps-then Kept (destroy_handles-Keeps api bound running) (
          Keeps-then Kept (connection-Keeps (λ c. record c { consumer = false }) (λ c. refl))
            (Keeps-pure Kept error))

  rethrow-Keeps : (error : Option Thrown) → Keeps Kept (rethrow api (work api bound running) error)
  rethrow-Keeps none = Keeps-pure Kept tt
  rethrow-Keeps (some e) = Keeps-raise Kept e

  pub close-Keeps : Keeps Kept (close api (work api bound running))
  unfolding close
  close-Keeps =
      Keeps-then Kept (connection-Keeps (λ c. record c { close_requested = true }) (λ c. refl)) (
        Keeps-bind Kept (Keeps-gets Kept (λ s. s.connection.consumer)) λ has_consumer.
          Keeps-then Kept
            (Keeps-when Kept has_consumer
              (request_stop-Keeps api bound running (codes "connection-close")))
            (Keeps-bind Kept
              (Keeps-gets Kept (λ s.
                s.connection.doing_work || s.connection.receiver_run_active
                || s.connection.closing))
              λ busy. Keeps-if Kept busy (Keeps-pure Kept tt) (
                Keeps-then Kept (connection-Keeps (λ c. record c { closing = true }) (λ c. refl)) (
                  Keeps-bind Kept
                    (Keeps-if Kept has_consumer close_consumer-Keeps (Keeps-pure Kept none))
                    λ error. Keeps-then Kept release_handles-Keeps (
                      Keeps-then Kept
                        (connection-Keeps
                          (λ c. record c {
                            is_connected = false;
                            closing = false;
                            session = false;
                            consumer = false;
                          })
                          (λ c. refl))
                        (rethrow-Keeps error))))))
