-- ===== src/Message/State.antt =====
-- Message.h: the fields, and the monad in which the methods run.
use azure_uamqp_php.Prelude.{
  ℕ, Bool, true, false, not, Option, none, some, List, ◌∷◌, Text, Result, ok, err,
}
use azure_uamqp_php.AmqpValue.{AmqpBinary}
use azure_uamqp_php.Runtime.Library.{Thrown}
use azure_uamqp_php.Message.Library.{MessageApi}

-- `class Message`
pub record Message (Handle : Type 0) : Type 0 where
  pub body : Text
  pub body_bytes : List ℕ
  pub body_decoded : Bool
  pub message : Option Handle
  pub binary_data : AmqpBinary

-- What is created and what is changed: containers, with the key and the value that are written, and
-- properties, with the container that they were read of, if they were.
pub data Change (Value Properties : Type 0) : Type 0 where
  made : Value → Change Value Properties
  put : Value → Option Value → Option Value → Change Value Properties
  item : Value → ℕ → Option Value → Change Value Properties
  made_properties : Option Value → Properties → Change Value Properties
  put_id : Properties → Value → Change Value Properties

-- A message of the library that the object holds from now on, and one that it gives up.
pub data HandleChange (Handle : Type 0) : Type 0 where
  acquired released : Handle → HandleChange Handle

-- The object, the library, what was done so far, and what was done to handles, the latest first.
pub record State (Library Value Properties Handle : Type 0) : Type 0 where
  pub object : Message Handle
  pub library : Library
  pub log : List (Change Value Properties)
  pub handles : List (HandleChange Handle)

abbrev pub no_binary : AmqpBinary
no_binary = record { bytes = none; size = 0 }

abbrev pub Run : Type 0 → Type 0 → Type 0
Run S A = S → Result Thrown A × S

-- What the methods run in.
abbrev pub M : MessageApi → Type 0 → Type 0
M api A = Run (State api.Library api.Value api.Properties api.Handle) A

module _ {S : Type 0} where
  abbrev pub continue_with :
      {A B : Type 0} → (A → Run S B) → Result Thrown A × S → Result Thrown B × S
  continue_with f (ok a, s) = f a s
  continue_with f (err e, s) = (err e, s)

  infixl 5 ◌>>=◌ ◌>>◌
  abbrev pub ◌>>=◌ : {A B : Type 0} → Run S A → (A → Run S B) → Run S B
  ◌>>=◌ m f s = continue_with f (m s)

  abbrev pub ◌>>◌ : {B : Type 0} → Run S (Unit {0}) → Run S B → Run S B
  m >> k = m >>= λ _. k

  abbrev pub pure : {A : Type 0} → A → Run S A
  pure a s = (ok a, s)

  abbrev pub raise : {A : Type 0} → Text → Run S A
  raise t s = (err (Thrown.extension t), s)

  abbrev pub gets : {A : Type 0} → (S → A) → Run S A
  gets f s = (ok (f s), s)

  abbrev pub or_raise : {A : Type 0} → Text → Option A → Run S A
  or_raise t none = raise t
  or_raise t (some a) = pure a

  -- What is raised is raised again behind the cleanup.
  abbrev pub cleaned :
      {A : Type 0} → (S → Result Thrown (Unit {0}) × S) → Result Thrown A × S → Result Thrown A × S
  cleaned cleanup (ok a, s) = (ok a, s)
  cleaned cleanup (err e, s) = (err e, (cleanup s).1)

  abbrev pub on_error : {A : Type 0} → Run S A → Run S (Unit {0}) → Run S A
  on_error m cleanup s = cleaned cleanup (m s)

  abbrev pub when : Bool → Run S (Unit {0}) → Run S (Unit {0})
  when true m = m
  when false m = pure tt

  -- `if (status != 0) throw`
  abbrev pub must : Text → Run S Bool → Run S (Unit {0})
  must t m = m >>= λ done. when (not done) (raise t)

-- A handle is acquired or released, if it is not NULL.
abbrev pub noted :
    {H : Type 0} → (H → HandleChange H) → Option H → List (HandleChange H) → List (HandleChange H)
noted c none handles = handles
noted c (some h) handles = c h ∷ handles

module _ {L V P H : Type 0} where
  abbrev pub change : (Message H → Message H) → Run (State L V P H) (Unit {0})
  change f s = (ok tt, record s { object = f s.object })

  abbrev pub note : Change V P → Run (State L V P H) (Unit {0})
  note c s = (ok tt, record s { log = c ∷ s.log })

  abbrev pub note_handle : (H → HandleChange H) → Option H → Run (State L V P H) (Unit {0})
  note_handle c h s = (ok tt, record s { handles = noted c h s.handles })

  -- A getter that throws the text where its code is not 0.
  abbrev pub checked : {A : Type 0} → Text → (L → Option A) → Run (State L V P H) A
  checked t f s = or_raise t (f s.library) s

  abbrev pub library_call : {A : Type 0} → (L → A × L) → Run (State L V P H) A
  library_call f s = let (a, l) = f s.library in (ok a, record s { library = l })
