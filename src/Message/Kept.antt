-- ===== src/Message/Kept.antt =====
-- Message.cpp: the body as its users see it, a text that is known or not.
use azure_uamqp_php.Prelude.{
  ◌≡◌, refl, ap, true, false, Option, none, some, [], Text, Result, ok, err, if◌then◌else◌, codes,
  Bool-cases, inl, inr,
}
use azure_uamqp_php.Runtime.Library.{Thrown}
use azure_uamqp_php.Message.Library.{MessageApi}
use azure_uamqp_php.Message.State.{State, continue_with, no_binary, change, ◌>>◌, or_raise, gets}
use azure_uamqp_php.Message.Body.{read_body, get_body, set_body, set_message_handler}
use azure_uamqp_php.Message.Quiet.{Quiet-checked, Quiet-read_typed}
use azure_uamqp_php.Message.Gives.{Post, Gives, gives, given, Gives-bind, Gives-change}

-- What is done with the body of a message object.
pub data Operation (Handle : Type 0) : Type 0 where
  read : Operation Handle
  write : Text → Operation Handle
  receive : Option Handle → Operation Handle

-- The abstract object: the text, once it is known. A step has the operation, what it returns,
-- and the object before and after it.
pub data Step (Handle : Type 0)
    : Operation Handle → Option Text → Result Thrown Text → Option Text → Type 0 where
  reads : (t : Text) → Step Handle read (some t) (ok t) (some t)
  decodes : (t : Text) → Step Handle read none (ok t) (some t)
  fails : (e : Thrown) → Step Handle read none (err e) none
  writes : (known : Option Text) (t : Text) → Step Handle (write t) known (ok []) (some t)
  receives : (known : Option Text) (h : Option Handle) → Step Handle (receive h) known (ok []) none
  refuses :
      (known : Option Text) (h : Option Handle) (e : Thrown)
      → Step Handle (receive h) known (err e) known

module _ (api : MessageApi) where
  abbrev S : Type 0
  S = State api.Library api.Value api.Properties api.Handle

  abbrev nothing : Result Thrown (Unit {0}) × S → Result Thrown Text × S
  nothing = continue_with (λ _ s. (ok [], s))

  abbrev pub perform : Operation api.Handle → S → Result Thrown Text × S
  perform read s = get_body api s
  perform (write t) s = nothing (set_body api t s)
  perform (receive h) s = nothing (set_message_handler api h s)

  abbrev pub known : S → Option Text
  known s = if s.object.body_decoded then some s.object.body else none

  abbrev Fresh : S → Type 0
  Fresh s = s.object.body_decoded ≡ false

  Fresh-stable :
      (s : S) (t : Text) → Fresh s → Fresh (record s { object = record s.object { body = t } })
  Fresh-stable s t q = q

  -- A body that is read is known after it.
  abbrev Known : Text → S → Type 0
  Known t s = known s ≡ some t

  read_body-Known : (h : api.Handle) → Gives Fresh Fresh (read_body api h) Known
  unfolding read_body
  read_body-Known h =
      Gives-bind Fresh
        (Quiet-checked api Fresh Fresh-stable (codes "Could not determine AMQP message body type")
          (λ l. api.message_get_body_type l h))
        λ type.
          Gives-bind Fresh
            (Gives-change Fresh Fresh (λ m. record m { body = []; binary_data = no_binary })
              (λ s q. q))
            λ _. Gives-bind Fresh (Quiet-read_typed api Fresh Fresh-stable h type) λ _. read_known
    where
      read_known :
          Gives Fresh Fresh
            (change (λ m. record m { body_decoded = true }) >> gets (λ s. s.object.body))
            Known
      read_known = gives (λ s q. refl)

  -- A step of the abstract object, from the way a method ends.
  abbrev After : Operation api.Handle → S → Result Thrown Text × S → Type 0
  After op s x = Step api.Handle op (known s) x.0 (known x.1)

  read_body-After :
      (s : S) (x : Result Thrown Text × S) → Fresh s → Post Fresh Known x → After read s x
  read_body-After s (ok t, s') fresh q = rw fresh (rw q (decodes t))
  read_body-After s (err e, s') fresh q = rw fresh (rw q (fails e))

  known-some : (s : S) → s.object.body_decoded ≡ true → known s ≡ some s.object.body
  known-some s e = ap (λ d. if d then some s.object.body else none) e

  get_body-known : (s : S) → s.object.body_decoded ≡ true → get_body api s ≡ (ok s.object.body, s)
  unfolding get_body
  get_body-known s e = simp e

  get_body-unknown :
      (s : S)
      → Fresh s
      → get_body api s
        ≡ continue_with
            (read_body api)
            (or_raise (codes "Message body is not available") s.object.message s)
  unfolding get_body
  get_body-unknown s e = simp e

  unread-After :
      (s : S) (held : Option api.Handle)
      → Fresh s
      → After read s
          (continue_with (read_body api) (or_raise (codes "Message body is not available") held s))
  unread-After s none fresh = rw fresh (fails _)
  unread-After s (some h) fresh =
      read_body-After s (read_body api h s) fresh (given Fresh (read_body-Known h) s fresh)

  get_body-After : (s : S) → After read s (get_body api s)
  get_body-After s = elim (Bool-cases s.object.body_decoded) [
    | inl e ↦ rw (get_body-known s e) (rw (known-some s e) (reads s.object.body))
    | inr e ↦ rw (get_body-unknown s e) (unread-After s s.object.message e)
  ]

  set_message_handler-After :
      (h : Option api.Handle) (s : S) (clone : Option api.Handle × api.Library)
      → api.message_clone h s.library ≡ clone
      → After (receive h) s (nothing (set_message_handler api h s))
  unfolding set_message_handler
  set_message_handler-After h s (none, l) e = rw e (refuses (known s) h _)
  set_message_handler-After h s (some clone, l) e = rw e (receives (known s) h)

  -- Whatever the message holds: `getBody` returns the known text, or makes the text that it returns
  -- known, and it throws only while the text is not known; `setBody` makes its text
  -- known; and a received message makes it unknown, or throws and leaves it as it was.
  pub perform-Step :
      (op : Operation api.Handle) (s : S)
      → Step api.Handle op (known s) (perform op s).0 (known (perform op s).1)
  unfolding set_body
  perform-Step read s = get_body-After s
  perform-Step (write t) s = writes (known s) t
  perform-Step (receive h) s = set_message_handler-After h s (api.message_clone h s.library) refl
