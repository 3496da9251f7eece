-- ===== src/Connection/Reopening.antt =====
-- Connection.cpp: `connect`, and `close` after it.
use azure_uamqp_php.Prelude.{
  ◌≡◌, refl, sym, ap, ◌∙◌, subst, true, false, ◌||◌, List, if◌then◌else◌, Bool-cases, inl, inr,
  arith,
}
use azure_uamqp_php.Runtime.Library.{Uamqp}
use azure_uamqp_php.Runtime.State.{System, Action, Outcome, returned, raised, stuck, M}
use azure_uamqp_php.Connection.Logger.{ensure_logger_configured}
use azure_uamqp_php.Connection.Lifecycle.{connect, close}
use azure_uamqp_php.Connection.Batch.{ends}
use azure_uamqp_php.Connection.Release.{is_released, released_log, close-released}
use azure_uamqp_php.Connection.Opening.{Ends, led, Upto, All, open_all, open_all-Leads, created_log}

module _ {L : Type 0} (api : Uamqp L) where
  -- The state in which the transport is opened.
  abbrev ready : System L → System L
  ready s =
      let (platform, l) = api.platform_init s.library in
      record s {
        connection = record s.connection {
          close_requested = false;
          io_error = false;
          platform_initialized = if platform then true else s.connection.platform_initialized;
        };
        library = l;
      }

  connect-opens :
      (s : System L)
      → (s.connection.doing_work || s.connection.receiver_run_active) ≡ false
      → s.connection.is_connected ≡ false
      → s.logger_configured ≡ true
      → connect api s ≡ open_all api s.log (ready s)
  unfolding connect ensure_logger_configured
  connect-opens s free apart logger = elim (Bool-cases (api.platform_init s.library).0) [
    | inl e ↦ simp (free, apart, logger, e)
    | inr e ↦ simp (free, apart, logger, e)
  ]

  ready-Upto :
      (s : System L)
      → is_released s.connection ≡ true
      → s.connection.consumer ≡ false
      → (s.connection.doing_work || s.connection.receiver_run_active || s.connection.closing)
        ≡ false
      → Upto api s.log false false false false false (ready s)
  ready-Upto s released alone idle = record {
    logged = ground (arith, released);
    alone = alone;
    idle = idle;
    no_tls = ground (arith, released);
    no_socket = ground (arith, released);
    no_mechanism = ground (arith, released);
    no_io = ground (arith, released);
    no_connection = ground (arith, released);
    no_session = ground (arith, released);
  }

  -- `connect` has ended, and a `close` after it releases what it created.
  abbrev pub IsClosedBy : M L (Unit {0}) → List Action → Outcome (Unit {0}) × System L → Type 0
  IsClosedBy work base x =
      (ends x.0 ≡ true)
      × ((close api work x.1).0 ≡ returned tt)
      × (is_released (close api work x.1).1.connection ≡ true)
      × ((close api work x.1).1.log ≡ released_log x.1.connection (created_log x.1.connection base))

  closed_by :
      (work : M L (Unit {0})) (base : List Action) (t : System L)
      → All api base t
      → ((close api work t).0 ≡ returned tt)
        × (is_released (close api work t).1.connection ≡ true)
        × ((close api work t).1.log ≡ released_log t.connection (created_log t.connection base))
  closed_by work base t (logged, alone, idle) =
      let (shut, (released, log)) = close-released api work t alone idle in
      (shut, released, log ∙ ap (released_log t.connection) logged)

  opened :
      (work : M L (Unit {0})) (base : List Action) (x : Outcome (Unit {0}) × System L)
      → Ends (All api base) (All api base) x
      → IsClosedBy work base x
  opened work base (returned y, t) a =
      let (shut, released, log) = closed_by work base t a in (refl, shut, released, log)
  opened work base (raised e, t) a =
      let (shut, released, log) = closed_by work base t a in (refl, shut, released, log)
  opened work base (stuck, t) a = absurd a

-- For a connection that holds nothing and has no consumer, on which nothing is going on, in a process
-- that has its logger: `connect` ends, and whether it returns or throws, a `close` after it returns and
-- leaves nothing; the log then shows every handle that was created, from the transport up to the
-- session, and each of them destroyed once, from the session down.
pub connect-IsClosedBy :
    {L : Type 0} (api : Uamqp L) (work : M L (Unit {0})) (s : System L)
    → is_released s.connection ≡ true
    → s.connection.is_connected ≡ false
    → s.connection.consumer ≡ false
    → (s.connection.doing_work || s.connection.receiver_run_active || s.connection.closing) ≡ false
    → s.logger_configured ≡ true
    → IsClosedBy api work s.log (connect api s)
connect-IsClosedBy api work s released apart alone idle logger =
    subst (IsClosedBy api work s.log)
      (sym (connect-opens api s (ground (arith, idle)) apart logger))
      (opened api work s.log _
        (led (open_all-Leads api s.log) (ready api s) (ready-Upto api s released alone idle)))
