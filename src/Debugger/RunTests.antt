-- ===== src/Debugger/RunTests.antt =====
-- Runs of the debugger against a small library, and the theorem at work on one.
use azure_uamqp_php.Prelude.{ℕ, ◌+◌, ◌≡◌, refl, true, some, none, [], ◌∷◌, codes}
use azure_uamqp_php.Message.Library.{BodyType}
use azure_uamqp_php.Debugger.Receiving.{Received, message, DebugApi, run}

abbrev hello : Received
hello = record {
  body_type = some BodyType.data_body;
  data_sections = some (some (codes "hel") ∷ none ∷ some (codes "lo") ∷ []);
  value_text = none;
  sequence_texts = none;
}

-- The clock is the library's state; each dispatch has two messages.
abbrev two_at_once : DebugApi ℕ
two_at_once = record {
  logger_init = λ t. (true, t);
  platform_init = λ t. (true, t);
  create = λ r t. (true, t);
  messagereceiver_open = λ t. (true, t);
  dowork = λ t. (message hello ∷ message hello ∷ [], t);
  now = λ t. t;
  sleep = λ n t. t + n;
}

-- Both messages of a dispatch are taken, though one was asked for.
abbrev received_by : ℕ → ℕ
received_by count = elim (run two_at_once 12 count 1 0) [
  | none ↦ 0
  | some (code, (w, log)) ↦ w.received
]

more_than_asked : received_by 1 ≡ 2
unfolding run
more_than_asked = refl
