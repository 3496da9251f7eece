-- ===== src/Connection/Logger.antt =====
-- Connection.cpp, `ensureLoggerConfigured`: the logger of the process, and its fallback.
use azure_uamqp_php.Prelude.{
  true, not, Option, none, some, Text, codes, ◌++◌, is_empty, if◌then◌else◌,
}
use azure_uamqp_php.Runtime.Library.{Thrown, console, debug_file_sink, Uamqp}
use azure_uamqp_php.Runtime.State.{
  M, returned, ◌>>=◌, ◌>>◌, raise, gets, act, printed, when, library_call,
}

-- The file's name, if it is set and not empty.
abbrev pub file_name : Option Text → Option Text
file_name none = none
file_name (some path) = if is_empty path then none else some path

abbrev pub could_not_open : Text → Text
could_not_open path =
    codes "Could not open UAMQP_DEBUG_FILE '" ++ (path ++ codes "'; using standard output\n")

module _ {L : Type 0} (api : Uamqp L) where
  -- `if (logger_init() != 0) throw`, with the console configured.
  unfoldable pub console_init : M L (Unit {0})
  console_init = do
    done ← library_call (api.logger_init console)
    when (not done) (raise (Thrown.extension (codes "Could not initialize logger")))

  -- The logger's first start; where the file cannot be opened it is started on the console.
  unfoldable pub logger_start : Option Text → M L (Unit {0})
  unfolding console_init
  logger_start none = console_init
  logger_start (some path) = do
    done ← library_call (api.logger_init debug_file_sink)
    when (not done) do act (printed (could_not_open path)); console_init

  unfoldable pub ensure_logger_configured : M L (Unit {0})
  unfolding logger_start
  ensure_logger_configured = do
    configured ← gets (λ s. s.logger_configured)
    when (not configured) do
      path ← gets (λ s. api.debug_file s.library)
      logger_start (file_name path)
      λ s. (returned tt, record s { logger_configured = true })
