-- ===== src/Connection/Configured.antt =====
-- Connection.cpp, `ensureLoggerConfigured`: what it leaves behind.
use azure_uamqp_php.Prelude.{
  ◌≡◌, refl, sym, ap, ◌||◌, if◌then◌else◌, ◌∙◌, Bool, true, false, Option, none, some, Text, codes,
  Bool-cases, inl, inr,
}
use azure_uamqp_php.Runtime.Library.{Thrown, console, debug_file_sink, Uamqp}
use azure_uamqp_php.Runtime.State.{System, Outcome, returned, raised, stuck, continue_with}
use azure_uamqp_php.Connection.Logger.{
  file_name, console_init, logger_start, ensure_logger_configured,
}

module _ {L : Type 0} (api : Uamqp L) where
  abbrev no_logger : Thrown
  no_logger = Thrown.extension (codes "Could not initialize logger")

  -- How it ends: with a logger, so that calling it again does nothing, or with the exception and
  -- without one, so that it is tried again.
  abbrev pub IsSettled : Outcome (Unit {0}) × System L → Type 0
  IsSettled (returned y, s) =
      (s.logger_configured ≡ true) × (ensure_logger_configured api s ≡ (returned tt, s))
  IsSettled (raised e, s) = (e ≡ no_logger) × (s.logger_configured ≡ false)
  IsSettled (stuck, s) = ⊥

  configured-IsSettled :
      (s : System L)
      → s.logger_configured ≡ true
      → ensure_logger_configured api s ≡ (returned tt, s)
  unfolding ensure_logger_configured
  configured-IsSettled s e = simp e

  -- Before the flag is set.
  abbrev IsStarted : Outcome (Unit {0}) × System L → Type 0
  IsStarted (returned y, s) = Unit {0}
  IsStarted (raised e, s) = (e ≡ no_logger) × (s.logger_configured ≡ false)
  IsStarted (stuck, s) = ⊥

  abbrev flagged : Outcome (Unit {0}) × System L → Outcome (Unit {0}) × System L
  flagged = continue_with (λ _ s. (returned tt, record s { logger_configured = true }))

  flagged-IsSettled : (x : Outcome (Unit {0}) × System L) → IsStarted x → IsSettled (flagged x)
  flagged-IsSettled (returned y, s) i = (refl, configured-IsSettled _ refl)
  flagged-IsSettled (raised e, s) i = i
  flagged-IsSettled (stuck, s) i = i

  console_init-IsStarted :
      (s : System L) → s.logger_configured ≡ false → IsStarted (console_init api s)
  unfolding console_init
  console_init-IsStarted s free = elim (Bool-cases (api.logger_init console s.library).0) [
    | inl e ↦ rw e tt
    | inr e ↦ rw e (refl, free)
  ]

  logger_start-IsStarted :
      (file : Option Text) (s : System L)
      → s.logger_configured ≡ false
      → IsStarted (logger_start api file s)
  unfolding logger_start
  logger_start-IsStarted none s free = console_init-IsStarted s free
  logger_start-IsStarted (some path) s free =
      elim (Bool-cases (api.logger_init debug_file_sink s.library).0) [
        | inl e ↦ rw e tt
        | inr e ↦ rw e (console_init-IsStarted _ free)
      ]

  started :
      (s : System L)
      → s.logger_configured ≡ false
      → ensure_logger_configured api s
        ≡ flagged (logger_start api (file_name (api.debug_file s.library)) s)
  unfolding ensure_logger_configured
  started s e = simp e

  -- Whether a logger can be started: on the file if one is named, and otherwise, or if that fails, on
  -- the console.
  abbrev pub can_start : Option Text → L → Bool
  can_start none l = (api.logger_init console l).0
  can_start (some path) l =
      let (opened, l') = api.logger_init debug_file_sink l in
      opened || (api.logger_init console l').0

  abbrev pub has_logger : System L → Bool
  has_logger s = s.logger_configured || can_start (file_name (api.debug_file s.library)) s.library

  abbrev pub outcome_if : Bool → Outcome (Unit {0})
  outcome_if b = if b then returned tt else raised no_logger

  console_init-outcome :
      (s : System L) → (console_init api s).0 ≡ outcome_if (can_start none s.library)
  unfolding console_init
  console_init-outcome s = elim (Bool-cases (api.logger_init console s.library).0) [
    | inl e ↦ rw e refl
    | inr e ↦ rw e refl
  ]

  logger_start-outcome :
      (file : Option Text) (s : System L)
      → (logger_start api file s).0 ≡ outcome_if (can_start file s.library)
  unfolding logger_start
  logger_start-outcome none s = console_init-outcome s
  logger_start-outcome (some path) s =
      elim (Bool-cases (api.logger_init debug_file_sink s.library).0) [
        | inl e ↦ rw e refl
        | inr e ↦ rw e (console_init-outcome _)
      ]

  flagged-outcome : (x : Outcome (Unit {0}) × System L) → (flagged x).0 ≡ x.0
  flagged-outcome (returned y, s) = refl
  flagged-outcome (raised e, s) = refl
  flagged-outcome (stuck, s) = refl

  -- `ensureLoggerConfigured` returns if there is a logger or one can be started, on the file or
  -- else on the console, and throws otherwise; once it has returned, further calls do nothing, and
  -- after it has thrown the next call tries again.
  pub ensure_logger_configured-IsSettled :
      (s : System L)
      → ((ensure_logger_configured api s).0 ≡ outcome_if (has_logger s))
        × IsSettled (ensure_logger_configured api s)
  ensure_logger_configured-IsSettled s = elim (Bool-cases s.logger_configured) [
    | inl e ↦ rw (configured-IsSettled s e) (
      ap (λ b. outcome_if (b || can_start (file_name (api.debug_file s.library)) s.library))
          (sym e),
      (e, configured-IsSettled s e),
    )
    | inr e ↦ rw (started s e) (
      flagged-outcome _
          ∙ logger_start-outcome (file_name (api.debug_file s.library)) s
          ∙ ap (λ b. outcome_if (b || can_start (file_name (api.debug_file s.library)) s.library))
              (sym e),
      flagged-IsSettled _ (logger_start-IsStarted (file_name (api.debug_file s.library)) s e),
    )
  ]
