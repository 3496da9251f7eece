-- ===== src/Session/Lifetime.antt =====
-- Session.cpp: a session is destroyed once, however often it is closed.
use azure_uamqp_php.Prelude.{
  ℕ, zero, suc, ◌≡◌, refl, true, false, none, some, List, ◌∷◌, codes, ok, err,
}
use azure_uamqp_php.Runtime.Library.{Thrown}
use azure_uamqp_php.Message.State.{◌>>◌, pure}
use azure_uamqp_php.Session.{
  SessionCall, session_create, session_set_incoming_window, session_set_outgoing_window,
  session_destroy, Session, State, M, construct, close,
}

module _ {Handle Connection : Type 0} where
  -- `close`, `n` times.
  abbrev pub close_times : ℕ → M Handle Connection (Unit {0})
  close_times zero = pure tt
  close_times (suc n) = do close; close_times n

  abbrev pub closed : Session Handle Connection
  closed = record { session = none; connection = none; close_requested = true }

  close_times-closed :
      (n : ℕ) (calls : List (SessionCall Handle))
      → let s : State Handle Connection = record { object = closed; calls = calls } in
        close_times n s ≡ (ok tt, s)
  unfolding close
  close_times-closed zero calls = refl
  close_times-closed (suc n) calls = close_times-closed n calls

  -- A session that cannot be created is the error, and no call is made about it. One that is
  -- created gets its two windows; as long as it is not closed its handle and its connection are
  -- there, and after any number of closes from one on it has been destroyed exactly once and
  -- neither is there. Nothing throws but the failed creation.
  pub construct-close_times :
      (n : ℕ) (h : Handle) (connection : Connection) (s : State Handle Connection)
      → let opened =
          session_set_outgoing_window h 65536
          ∷ session_set_incoming_window h 2147483647
          ∷ session_create h
          ∷ s.calls in
        ((construct none connection s).0
          ≡ err (Thrown.extension (codes "Could not create session")))
        × ((construct none connection s).1.calls ≡ s.calls)
        × (construct (some h) connection s ≡ (
          ok tt,
          record {
            object = record {
              session = some h;
              connection = some connection;
              close_requested = false;
            };
            calls = opened;
          },
        ))
        × ((do construct (some h) connection; close_times (suc n)) s
            ≡ (ok tt, record { object = closed; calls = session_destroy h ∷ opened }))
  unfolding construct close
  construct-close_times n h connection s = (refl, refl, refl, close_times-closed n _)
