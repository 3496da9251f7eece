-- ===== src/Logging.antt =====
-- Connection.cpp: the file that the log is written to, by azure-uamqp-c through the sink's functions
-- and by `Connection::trace`.
pub mod Order
mod Tests
use azure_uamqp_php.Prelude.{
  ℕ, suc, ◌+◌, Bool, true, false, not, ◌||◌, Option, none, some, List, [], ◌∷◌, ◌++◌, Text, codes,
  is_empty, if◌then◌else◌,
}
use azure_uamqp_php.Prelude.Options.{is_none}
use azure_uamqp_php.Prelude.Int.{ℤ}
use azure_uamqp_php.Prelude.Decimal.{decimal, decimal_ℤ}
use azure_uamqp_php.Quote.{trace}

-- What is done to files. A file that `fopen` opens is a new one.
pub data FileAction : Type 0 where
  opened : ℕ → Text → FileAction
  wrote : ℕ → Text → FileAction
  closed : ℕ → FileAction
  wrote_error_stream : Text → FileAction

-- `debugLogFile`, the number of files that were opened, and what was done, the latest first.
pub record Logging : Type 0 where
  pub debug_log_file : Option ℕ
  pub files : ℕ
  pub log : List FileAction

abbrev pub act : FileAction → Logging → Logging
act a s = record s { log = a ∷ s.log }

abbrev pub open_file : Text → Bool → Logging → Bool × Logging
open_file path false s = (false, record s { debug_log_file = none })
open_file path true s = (
  true,
  record { debug_log_file = some s.files; files = suc s.files; log = opened s.files path ∷ s.log },
)

abbrev init_path : Option Text → Bool → Logging → Bool × Logging
init_path none opens s = (false, s)
init_path (some path) opens s = if is_empty path then (false, s) else open_file path opens s

-- `debugFileSinkInit`, where the environment has the path and `fopen` succeeds if `opens`. The value
-- is whether the code is 0.
unfoldable pub sink_init : Option Text → Bool → Logging → Bool × Logging
sink_init path opens s = init_path path opens s

-- What `debugFileSinkLog` is given, besides what `vfprintf` makes of the format and the arguments:
-- that is `none` where the format is NULL.
pub record Entry : Type 0 where
  pub is_verbose : Bool
  pub file : Option Text
  pub func : Option Text
  pub line : ℤ
  pub message : Option Text

abbrev or_empty : Option Text → Text
or_empty none = []
or_empty (some t) = t

-- The line that is printed, for the time and the process.
unfoldable pub entry_line : ℕ → ℕ → Entry → Text → Text
entry_line timestamp pid e message =
    codes "ts="
    ++ (decimal timestamp
        ++ (codes " pid="
            ++ (decimal pid
                ++ (codes " "
                    ++ ((if e.is_verbose then codes "[DEBUG] " else [])
                        ++ (or_empty e.file
                            ++ (codes ":"
                                ++ (decimal_ℤ e.line
                                    ++ (codes " "
                                        ++ (or_empty e.func
                                            ++ (codes ": " ++ (message ++ codes "\n"))))))))))))

abbrev pub log_message : ℕ → ℕ → Entry → Option ℕ → Option Text → Logging → Logging
log_message timestamp pid e none message s = s
log_message timestamp pid e (some file) none s = s
log_message timestamp pid e (some file) (some message) s =
    act (wrote file (entry_line timestamp pid e message)) s

-- `debugFileSinkLog`
unfoldable pub sink_log : ℕ → ℕ → Entry → Logging → Logging
unfolding entry_line
sink_log timestamp pid e s = log_message timestamp pid e s.debug_log_file e.message s

abbrev pub close_file : Option ℕ → Logging → Logging
close_file none s = s
close_file (some file) s = record s { debug_log_file = none; log = closed file ∷ s.log }

-- `debugFileSinkDeinit`
unfoldable pub sink_deinit : Logging → Logging
sink_deinit s = close_file s.debug_log_file s

-- `destination` in `Connection::trace`
abbrev print_to : Option ℕ → Text → FileAction
print_to none line = wrote_error_stream line
print_to (some file) line = wrote file line

abbrev pub print_to_file : Option ℕ → Option Text → Logging → Logging
print_to_file file none s = s
print_to_file file (some line) s = act (print_to file line) s

-- `Connection::trace`, with where its line goes.
unfoldable pub trace_to : Bool → ℕ → ℕ → Text → Text → Text → Logging → Logging
unfolding trace
trace_to debug timestamp pid connection_id event fields s =
    print_to_file s.debug_log_file (trace debug timestamp pid connection_id event fields) s
