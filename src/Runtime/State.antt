-- ===== src/Runtime/State.antt =====
-- Connection.h and Consumer.h: the fields, and the monad in which the methods run.
use azure_uamqp_php.Prelude.{ℕ, Bool, true, false, Option, List, ◌∷◌, Text}
use azure_uamqp_php.Runtime.Library.{Thrown, Disposition, Handle, ReceiverState}

-- `class Connection`. A pointer or handle is `true` where it is not NULL. Of the credentials only
-- whether there are any is kept.
pub record Connection : Type 0 where
  pub use_tls : Bool
  pub use_auth : Bool
  pub is_connected : Bool
  pub close_requested : Bool
  pub platform_initialized : Bool
  pub doing_work : Bool
  pub receiver_run_active : Bool
  pub closing : Bool
  pub io_error : Bool
  pub consumer : Bool
  pub session : Bool
  pub connection : Bool
  pub sasl_io : Bool
  pub socket_io : Bool
  pub tls_io : Bool
  pub sasl_mechanism : Bool

-- `class Consumer`
pub record Consumer : Type 0 where
  pub callback_set : Bool
  pub exception_message : Text
  pub callback_exception : Option Thrown
  pub close_requested : Bool
  pub closed : Bool
  pub closing : Bool
  pub detach_received : Bool
  pub receiver_state : ReceiverState
  pub credit_remaining : ℕ
  pub finite_batch : Bool
  pub stop_reason : Text
  pub link : Bool
  pub message_receiver : Bool

-- What Producer.cpp keeps in globals while it publishes.
pub record Producer : Type 0 where
  pub sent_messages : ℕ
  pub stop_running : Bool
  pub exception_message : Text

-- What can be seen from outside: handles that come and go, answers to deliveries, and what is traced
-- of these, which is written if the connection has debug on.
pub data Action : Type 0 where
  created destroyed : Handle → Action
  settled : Disposition → Action
  delivery_traced outcome_traced : Text → Action
  receiver_created_traced : ℕ → Bool → Action
  drain_traced : Bool → Action
  receiver_closed_traced : Text → Bool → Text → Action
  printed : Text → Action

-- The connection, the consumer that it points to, if it does, the producer, whether the process has
-- its logger, the library, and what has been done
-- so far, the latest first.
pub record System (L : Type 0) : Type 0 where
  pub connection : Connection
  pub consumer : Consumer
  pub producer : Producer
  pub logger_configured : Bool
  pub library : L
  pub log : List Action

-- A loop that runs out of fuel, or a call that is nested deeper than the model goes, is `stuck`.
pub data Outcome (A : Type 0) : Type 0 where
  returned : A → Outcome A
  raised : Thrown → Outcome A
  stuck : Outcome A

abbrev pub M : Type 0 → Type 0 → Type 0
M L A = System L → Outcome A × System L

abbrev pub continue_with :
    {L A B : Type 0} → (A → M L B) → Outcome A × System L → Outcome B × System L
continue_with f (returned a, s) = f a s
continue_with f (raised e, s) = (raised e, s)
continue_with f (stuck, s) = (stuck, s)

infixl 5 ◌>>=◌ ◌>>◌
abbrev pub ◌>>=◌ : {L A B : Type 0} → M L A → (A → M L B) → M L B
◌>>=◌ m f s = continue_with f (m s)

abbrev pub ◌>>◌ : {L B : Type 0} → M L (Unit {0}) → M L B → M L B
m >> k = m >>= λ _. k

module _ {L : Type 0} where
  abbrev pub pure : {A : Type 0} → A → M L A
  pure a s = (returned a, s)

  abbrev pub raise : {A : Type 0} → Thrown → M L A
  raise e s = (raised e, s)

  abbrev pub gets : {A : Type 0} → (System L → A) → M L A
  gets f s = (returned (f s), s)

  abbrev pub change_connection : (Connection → Connection) → M L (Unit {0})
  change_connection f s = (returned tt, record s { connection = f s.connection })

  abbrev pub change_consumer : (Consumer → Consumer) → M L (Unit {0})
  change_consumer f s = (returned tt, record s { consumer = f s.consumer })

  abbrev pub change_producer : (Producer → Producer) → M L (Unit {0})
  change_producer f s = (returned tt, record s { producer = f s.producer })

  abbrev pub act : Action → M L (Unit {0})
  act a s = (returned tt, record s { log = a ∷ s.log })

  abbrev pub change_library : (L → L) → M L (Unit {0})
  change_library f s = (returned tt, record s { library = f s.library })

  -- A library call and its result code.
  abbrev pub library_call : (L → Bool × L) → M L Bool
  library_call f s = let (ok, l) = f s.library in (returned ok, record s { library = l })

  abbrev pub when : Bool → M L (Unit {0}) → M L (Unit {0})
  when true m = m
  when false m = pure tt

  -- `catch (...)`: whatever is raised goes to the handler.
  abbrev pub caught_with :
      {A : Type 0} → (Thrown → M L A) → Outcome A × System L → Outcome A × System L
  caught_with f (returned a, s) = (returned a, s)
  caught_with f (raised e, s) = f e s
  caught_with f (stuck, s) = (stuck, s)

  abbrev pub try_catch : {A : Type 0} → M L A → (Thrown → M L A) → M L A
  try_catch m f s = caught_with f (m s)
