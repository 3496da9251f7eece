-- ===== src/Connection/Release.antt =====
-- Connection.cpp, `close`: what is left when it is done.
use azure_uamqp_php.Prelude.{
  ◌≡◌, refl, sym, ap, ◌∙◌, Bool, true, false, ◌||◌, not, List, ◌∷◌, if◌then◌else◌, Bool-cases, inl,
  inr,
}
use azure_uamqp_php.Runtime.Library.{Handle, Uamqp}
use azure_uamqp_php.Runtime.State.{
  Connection, System, Action, destroyed, returned, M, continue_with,
}
use azure_uamqp_php.Consumer.Closing.{destroy}
use azure_uamqp_php.Connection.Lifecycle.{close, release, release_handles}

-- No handle is left.
abbrev pub is_released : Connection → Bool
is_released c = not (
    c.session || c.connection || c.sasl_io || c.tls_io || c.socket_io || c.sasl_mechanism
    || c.platform_initialized)

-- One entry of the log for a handle that was there.
abbrev pub destroyed_if : Bool → Handle → List Action → List Action
destroyed_if true h log = destroyed h ∷ log
destroyed_if false h log = log

-- The log of releasing what `c` holds: the session first, then the connection, and the layers below
-- it, each of them once.
abbrev pub released_log : Connection → List Action → List Action
released_log c log = destroyed_if c.sasl_mechanism Handle.sasl_mechanism (
    destroyed_if c.socket_io Handle.socket_io (
      destroyed_if c.tls_io Handle.tls_io (
        destroyed_if c.sasl_io Handle.sasl_io (
          destroyed_if c.connection Handle.connection
            (destroyed_if c.session Handle.session log)))))

abbrev destroy_if : {L : Type 0} → Uamqp L → Bool → Handle → L → L
destroy_if api true h l = api.destroy h l
destroy_if api false h l = l

module _ {L : Type 0} (api : Uamqp L) where
  abbrev after_release :
      (Connection → Bool) → Handle → (Connection → Connection) → System L → System L
  after_release held h clear s = record s {
    connection = clear s.connection;
    library = destroy_if api (held s.connection) h s.library;
    log = destroyed_if (held s.connection) h s.log;
  }

  release-after :
      (held : Connection → Bool) (h : Handle) (clear : Connection → Connection)
      → ((c : Connection) → held c ≡ false → clear c ≡ c)
      → (s : System L) → release api held h clear s ≡ (returned tt, after_release held h clear s)
  unfolding release destroy
  release-after held h clear same s = elim (Bool-cases (held s.connection)) [
    | inl e ↦ rw e refl
    | inr e ↦ rw e (rw (same s.connection e) refl)
  ]

  module _ (s : System L) where
    abbrev no_session : System L
    no_session = after_release (λ c. c.session) Handle.session (λ c. record c { session = false }) s

    abbrev no_connection : System L
    no_connection =
        after_release (λ c. c.connection) Handle.connection (λ c. record c { connection = false })
          no_session

    abbrev no_sasl_io : System L
    no_sasl_io =
        after_release (λ c. c.sasl_io) Handle.sasl_io (λ c. record c { sasl_io = false })
          no_connection

    abbrev no_tls_io : System L
    no_tls_io =
        after_release (λ c. c.tls_io) Handle.tls_io (λ c. record c { tls_io = false }) no_sasl_io

    abbrev no_socket_io : System L
    no_socket_io =
        after_release (λ c. c.socket_io) Handle.socket_io (λ c. record c { socket_io = false })
          no_tls_io

    abbrev no_mechanism : System L
    no_mechanism =
        after_release (λ c. c.sasl_mechanism) Handle.sasl_mechanism
          (λ c. record c { sasl_mechanism = false }) no_socket_io

    abbrev no_platform : System L
    no_platform = record no_mechanism {
      connection = record no_mechanism.connection { platform_initialized = false };
      library =
          if s.connection.platform_initialized
          then api.platform_deinit no_mechanism.library
          else no_mechanism.library;
    }

    release_handles-after : release_handles api s ≡ (returned tt, no_platform)
    unfolding release_handles
    release_handles-after =
        rw
          (release-after (λ c. c.session) Handle.session (λ c. record c { session = false })
            (λ c e. ap (λ b. record c { session = b }) (sym e)) s)
          (rw
            (release-after (λ c. c.connection) Handle.connection
              (λ c. record c { connection = false })
              (λ c e. ap (λ b. record c { connection = b }) (sym e)) no_session)
            (rw
              (release-after (λ c. c.sasl_io) Handle.sasl_io (λ c. record c { sasl_io = false })
                (λ c e. ap (λ b. record c { sasl_io = b }) (sym e)) no_connection)
              (rw
                (release-after (λ c. c.tls_io) Handle.tls_io (λ c. record c { tls_io = false })
                  (λ c e. ap (λ b. record c { tls_io = b }) (sym e)) no_sasl_io)
                (rw
                  (release-after (λ c. c.socket_io) Handle.socket_io
                    (λ c. record c { socket_io = false })
                    (λ c e. ap (λ b. record c { socket_io = b }) (sym e)) no_tls_io)
                  (rw
                    (release-after (λ c. c.sasl_mechanism) Handle.sasl_mechanism
                      (λ c. record c { sasl_mechanism = false })
                      (λ c e. ap (λ b. record c { sasl_mechanism = b }) (sym e)) no_socket_io)
                    (elim (Bool-cases s.connection.platform_initialized) [
                      | inl e ↦ rw e refl
                      | inr e ↦ rw e refl
                    ]))))))

  module _ (work : M L (Unit {0})) where
    abbrev Idle : System L → Type 0
    Idle s =
        (s.connection.doing_work || s.connection.receiver_run_active || s.connection.closing)
        ≡ false

    abbrev closing_state : System L → System L
    closing_state s = record s {
      connection = record s.connection { close_requested = true; closing = true };
    }

    abbrev closed_state : System L → System L
    closed_state s = record s {
      connection = record s.connection {
        is_connected = false;
        closing = false;
        session = false;
        consumer = false;
      };
    }

    close-start :
        (s : System L)
        → s.connection.consumer ≡ false
        → Idle s
        → close api work s
          ≡ continue_with
              (λ _ t. (returned tt, closed_state t))
              (release_handles api (closing_state s))
    unfolding close
    close-start s c b = rw c (rw b (rw c refl))

    close-after :
        (s : System L)
        → s.connection.consumer ≡ false
        → Idle s
        → close api work s ≡ (returned tt, closed_state (no_platform (closing_state s)))
    close-after s c b =
        close-start s c b
        ∙ ap (continue_with (λ _ t. (returned tt, closed_state t)))
            (release_handles-after (closing_state s))

-- `close` when nothing is running and there is no consumer: every handle that was there is destroyed
-- once, the session first and the layers below after it, none is left, and nothing is raised.
pub close-released :
    {L : Type 0} (api : Uamqp L) (work : M L (Unit {0})) (s : System L)
    → s.connection.consumer ≡ false
    → (s.connection.doing_work || s.connection.receiver_run_active || s.connection.closing) ≡ false
    → ((close api work s).0 ≡ returned tt)
      × ((is_released (close api work s).1.connection ≡ true)
          × ((close api work s).1.log ≡ released_log s.connection s.log))
close-released api work s c b = rw (close-after api work s c b) (refl, (refl, refl))

-- It leaves the producer alone.
pub close-producer :
    {L : Type 0} (api : Uamqp L) (work : M L (Unit {0})) (s : System L)
    → s.connection.consumer ≡ false
    → (s.connection.doing_work || s.connection.receiver_run_active || s.connection.closing) ≡ false
    → (close api work s).1.producer ≡ s.producer
close-producer api work s c b = rw (close-after api work s c b) refl
