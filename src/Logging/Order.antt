-- ===== src/Logging/Order.antt =====
-- Connection.cpp: the log file is written to while it is open.
use azure_uamqp_php.Prelude.{
  ℕ, ◌≤◌, ◌≡◌, refl, Bool, true, false, Option, none, some, List, [], ◌∷◌, Text, ◌==◌,
  if◌then◌else◌, arith,
}
use azure_uamqp_php.Quote.{trace}
use azure_uamqp_php.Logging.{
  FileAction, opened, wrote, closed, wrote_error_stream, Logging, Entry, sink_init, sink_log,
  sink_deinit, trace_to, act, open_file, log_message, close_file, print_to_file,
}

-- Whether a file is open after what was done.
abbrev pub is_open : ℕ → List FileAction → Bool
is_open f [] = false
is_open f (opened g path ∷ log) = let before = is_open f log in if f == g then true else before
is_open f (wrote g t ∷ log) = is_open f log
is_open f (closed g ∷ log) = let before = is_open f log in if f == g then false else before
is_open f (wrote_error_stream t ∷ log) = is_open f log

-- Whether a file was opened, be it closed again or not.
abbrev pub was_opened : ℕ → List FileAction → Bool
was_opened f [] = false
was_opened f (opened g path ∷ log) =
    let before = was_opened f log in if f == g then true else before
was_opened f (_ ∷ log) = was_opened f log

-- Files are opened once; only files that are open are written to and closed.
abbrev pub InOrder : List FileAction → Type 0
InOrder [] = Unit {0}
InOrder (opened f path ∷ log) = (was_opened f log ≡ false) × InOrder log
InOrder (wrote f t ∷ log) = (is_open f log ≡ true) × InOrder log
InOrder (closed f ∷ log) = (is_open f log ≡ true) × InOrder log
InOrder (wrote_error_stream t ∷ log) = InOrder log

-- What the process does to its log.
pub data Operation : Type 0 where
  init : Option Text → Bool → Operation
  log : ℕ → ℕ → Entry → Operation
  deinit : Operation
  traced : Bool → ℕ → ℕ → Text → Text → Text → Operation

abbrev pub perform : Operation → Logging → Logging
perform (init path opens) s = (sink_init path opens s).1
perform (log timestamp pid e) s = sink_log timestamp pid e s
perform deinit s = sink_deinit s
perform (traced debug timestamp pid id event fields) s =
    trace_to debug timestamp pid id event fields s

abbrev pub perform_all : List Operation → Logging → Logging
perform_all [] s = s
perform_all (o ∷ os) s = perform_all os (perform o s)

abbrev pub at_start : Logging
at_start = record { debug_log_file = none; files = 0; log = [] }

pub record IsKept (s : Logging) : Type 0 where
  pub in_order : InOrder s.log
  pub file_open : (f : ℕ) → s.debug_log_file ≡ some f → is_open f s.log ≡ true
  pub later_unopened : (f : ℕ) → s.files ≤ f → was_opened f s.log ≡ false

module _ (s : Logging) (k : IsKept s) where
  open_file-IsKept : (path : Text) (opens : Bool) → IsKept (open_file path opens s).1
  open_file-IsKept path true = record {
    in_order = (k.later_unopened s.files (omega arith), k.in_order);
    file_open = λ f e. ground arith;
    later_unopened = λ f h. ground (arith, k.later_unopened f);
  }
  open_file-IsKept path false = record {
    in_order = k.in_order;
    file_open = λ f e. cc;
    later_unopened = k.later_unopened;
  }

  init_path-IsKept : (path : Option Text) (opens : Bool) → IsKept (sink_init path opens s).1
  unfolding sink_init
  init_path-IsKept none opens = k
  init_path-IsKept (some []) opens = k
  init_path-IsKept (some (c ∷ path)) opens = open_file-IsKept (c ∷ path) opens

-- A write, to a file that is open or to the error stream, keeps everything.
act-IsKept :
    (s : Logging) (file : ℕ) (t : Text)
    → IsKept s
    → is_open file s.log ≡ true
    → IsKept (act (wrote file t) s)
act-IsKept s file t k o = record {
  in_order = (o, k.in_order);
  file_open = k.file_open;
  later_unopened = k.later_unopened;
}

act_error-IsKept : (s : Logging) (t : Text) → IsKept s → IsKept (act (wrote_error_stream t) s)
act_error-IsKept s t k = record {
  in_order = k.in_order;
  file_open = k.file_open;
  later_unopened = k.later_unopened;
}

print_line-IsKept :
    (s : Logging) (file : Option ℕ) (line : Option Text)
    → IsKept s
    → ((f : ℕ) → file ≡ some f → is_open f s.log ≡ true)
    → IsKept (print_to_file file line s)
print_line-IsKept s file none k o = k
print_line-IsKept s none (some line) k o = act_error-IsKept s line k
print_line-IsKept s (some f) (some line) k o = act-IsKept s f line k (o f refl)

log_message-IsKept :
    (s : Logging) (timestamp pid : ℕ) (e : Entry) (file : Option ℕ) (message : Option Text)
    → IsKept s
    → ((f : ℕ) → file ≡ some f → is_open f s.log ≡ true)
    → IsKept (log_message timestamp pid e file message s)
log_message-IsKept s timestamp pid e none message k o = k
log_message-IsKept s timestamp pid e (some f) none k o = k
log_message-IsKept s timestamp pid e (some f) (some message) k o = act-IsKept s f _ k (o f refl)

close_file-IsKept :
    (s : Logging) (file : Option ℕ)
    → IsKept s
    → ((f : ℕ) → file ≡ some f → is_open f s.log ≡ true)
    → IsKept (close_file file s)
close_file-IsKept s none k o = k
close_file-IsKept s (some g) k o = record {
  in_order = (o g refl, k.in_order);
  file_open = λ f e. cc;
  later_unopened = λ f h. ground (arith, k.later_unopened f);
}

perform-IsKept : (o : Operation) (s : Logging) → IsKept s → IsKept (perform o s)
unfolding sink_log sink_deinit trace_to
perform-IsKept (init path opens) s k = init_path-IsKept s k path opens
perform-IsKept (log timestamp pid e) s k =
    log_message-IsKept s timestamp pid e s.debug_log_file e.message k k.file_open
perform-IsKept deinit s k = close_file-IsKept s s.debug_log_file k k.file_open
perform-IsKept (traced debug timestamp pid id event fields) s k =
    print_line-IsKept s s.debug_log_file (trace debug timestamp pid id event fields) k k.file_open

at_start-IsKept : IsKept at_start
at_start-IsKept = record { in_order = tt; file_open = λ f e. cc; later_unopened = λ f h. refl }

perform_all-IsKept : (os : List Operation) (s : Logging) → IsKept s → IsKept (perform_all os s)
perform_all-IsKept [] s k = k
perform_all-IsKept (o ∷ os) s k = perform_all-IsKept os (perform o s) (perform-IsKept o s k)

-- However the sink is started, written to and stopped, and whatever is traced meanwhile, in any
-- order and any number of times, from the start of the process on: every file is opened once, and
-- written to and closed only while it is open; and the file that the process would write to next,
-- if there is one, is open.
pub perform_all-InOrder :
    (os : List Operation)
    → let s = perform_all os at_start in
      InOrder s.log × ((f : ℕ) → s.debug_log_file ≡ some f → is_open f s.log ≡ true)
perform_all-InOrder os =
    let k = perform_all-IsKept os at_start at_start-IsKept in (k.in_order, k.file_open)
