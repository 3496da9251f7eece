-- ===== src/Session.antt =====
-- Session.cpp and Session.h: the owner of the session's handle.
pub mod Lifetime
mod Tests
use azure_uamqp_php.Prelude.{
  ℕ, Bool, true, false, Option, none, some, List, ◌∷◌, codes, if◌then◌else◌, ok,
}
use azure_uamqp_php.Message.State.{Run, ◌>>=◌, ◌>>◌, pure, raise, gets, when}

-- What is done to sessions of the library, in what it calls them.
pub data SessionCall (Handle : Type 0) : Type 0 where
  session_create : Handle → SessionCall Handle
  session_set_incoming_window session_set_outgoing_window : Handle → ℕ → SessionCall Handle
  session_destroy : Handle → SessionCall Handle

-- `class Session`: its handle, its connection if it has one, and whether it was closed.
pub record Session (Handle Connection : Type 0) : Type 0 where
  pub session : Option Handle
  pub connection : Option Connection
  pub close_requested : Bool

-- The object, and the calls made so far, the latest first.
pub record State (Handle Connection : Type 0) : Type 0 where
  pub object : Session Handle Connection
  pub calls : List (SessionCall Handle)

abbrev pub M : Type 0 → Type 0 → Type 0 → Type 0
M Handle Connection A = Run (State Handle Connection) A

module _ {Handle Connection : Type 0} where
  abbrev call : SessionCall Handle → M Handle Connection (Unit {0})
  call c s = (ok tt, record s { calls = c ∷ s.calls })

  abbrev change :
      (Session Handle Connection → Session Handle Connection) → M Handle Connection (Unit {0})
  change f s = (ok tt, record s { object = f s.object })

  abbrev session_made : Option Handle → M Handle Connection (Unit {0})
  session_made none = raise (codes "Could not create session")
  session_made (some session) = do
    call (session_create session)
    change (λ o. record o { session = some session })
    call (session_set_incoming_window session 2147483647)
    call (session_set_outgoing_window session 65536)

  -- The constructor, where `session_create` answers `made`.
  unfoldable pub construct : Option Handle → Connection → M Handle Connection (Unit {0})
  construct made connection = do
    change (λ _. record { session = none; connection = some connection; close_requested = false })
    session_made made

  abbrev release_session : Option Handle → M Handle Connection (Unit {0})
  release_session none = pure tt
  release_session (some session) = do
    call (session_destroy session)
    change (λ o. record o { session = none })

  unfoldable pub get_session_handler : M Handle Connection (Option Handle)
  get_session_handler = gets (λ s. s.object.session)

  unfoldable pub get_connection : M Handle Connection (Option Connection)
  get_connection = gets (λ s. s.object.connection)

  unfoldable pub close : M Handle Connection (Unit {0})
  close = do
    requested ← gets (λ s. s.object.close_requested)
    if requested then pure tt else (do
      change (λ o. record o { close_requested = true })
      session ← gets (λ s. s.object.session)
      release_session session
      change (λ o. record o { connection = none }))
