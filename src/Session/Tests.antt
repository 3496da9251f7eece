-- ===== src/Session/Tests.antt =====
-- A session at concrete values.
use azure_uamqp_php.Prelude.{ℕ, ◌≡◌, some, [], ◌∷◌, ok}
use azure_uamqp_php.Message.State.{◌>>◌}
use azure_uamqp_php.Session.{
  State, session_create, session_set_incoming_window, session_set_outgoing_window, session_destroy,
  construct,
}
use azure_uamqp_php.Session.Lifetime.{closed, close_times, construct-close_times}

abbrev fresh : State ℕ ℕ
fresh = record { object = closed; calls = [] }

-- Closed three times, it is destroyed once.
construct-close_times_example : (do construct (some 7) 1; close_times 3) fresh ≡ (
  ok tt,
  record {
    object = closed;
    calls =
        session_destroy 7
        ∷ session_set_outgoing_window 7 65536
        ∷ session_set_incoming_window 7 2147483647
        ∷ session_create 7
        ∷ [];
  },
)
construct-close_times_example = (construct-close_times 2 7 1 fresh).3
