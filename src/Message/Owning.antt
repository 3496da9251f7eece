-- ===== src/Message/Owning.antt =====
-- Message.cpp, the constructors, the destructor and `setMessageHandler`: which messages of the library
-- the object holds.
use azure_uamqp_php.Prelude.{
  ◌≡◌, refl, sym, subst, true, Option, none, some, List, [], ◌∷◌, Text, Result, ok, err, Bool-cases,
  inl, inr, codes, arith,
}
use azure_uamqp_php.Runtime.Library.{Thrown}
use azure_uamqp_php.Message.Library.{MessageApi}
use azure_uamqp_php.Message.State.{
  State, HandleChange, acquired, released, noted, continue_with, cleaned, or_raise, ◌>>◌, gets,
  change, no_binary,
}
use azure_uamqp_php.Message.Body.{
  create, destroy, copy, get_body, read_body, set_body, set_message_handler,
}
use azure_uamqp_php.Message.Gives.{Post, Gives, gives, given, Gives-bind, Gives-change}
use azure_uamqp_php.Message.Quiet.{Quiet-checked, Quiet-read_typed}
use azure_uamqp_php.Message.Kept.{Operation, read, write, receive, perform}

-- What is held after what was done to handles, the latest first: at most one message. It is given up
-- once, and another one is held before it is given up.
pub data Holds {H : Type 0} : List (HandleChange H) → Option H → Type 0 where
  nothing : Holds [] none
  taken : {h : H} {log : List (HandleChange H)} → Holds log none → Holds (acquired h ∷ log) (some h)
  dropped :
      {h : H} {log : List (HandleChange H)} → Holds log (some h) → Holds (released h ∷ log) none
  exchanged :
      {h old : H} {log : List (HandleChange H)}
      → Holds log (some old)
      → Holds (released old ∷ acquired h ∷ log) (some h)

module _ (api : MessageApi) where
  abbrev S : Type 0
  S = State api.Library api.Value api.Properties api.Handle

  -- The object holds its message and nothing else.
  abbrev pub IsHolder : S → Type 0
  IsHolder s = Holds s.handles s.object.message

  IsHolder-stable :
      (s : S) (t : Text)
      → IsHolder s
      → IsHolder (record s { object = record s.object { body = t } })
  IsHolder-stable s t h = h

  read_body-IsHolder : (h : api.Handle) → Gives IsHolder IsHolder (read_body api h) (λ _. IsHolder)
  unfolding read_body
  read_body-IsHolder h =
      Gives-bind IsHolder
        (Quiet-checked api IsHolder IsHolder-stable
          (codes "Could not determine AMQP message body type") (λ l. api.message_get_body_type l h))
        λ type.
          Gives-bind IsHolder
            (Gives-change IsHolder IsHolder (λ m. record m { body = []; binary_data = no_binary })
              (λ s q. q))
            λ _.
              Gives-bind IsHolder (Quiet-read_typed api IsHolder IsHolder-stable h type)
                λ _. decoded
    where
      decoded :
          Gives IsHolder IsHolder
            (change (λ m. record m { body_decoded = true }) >> gets (λ s. s.object.body))
            (λ _. IsHolder)
      decoded = gives (λ s q. q)

  Post-IsHolder : (x : Result Thrown Text × S) → Post IsHolder (λ _. IsHolder) x → IsHolder x.1
  Post-IsHolder (ok t, s) p = p
  Post-IsHolder (err e, s) p = p

  unread-IsHolder :
      (s : S) (held : Option api.Handle)
      → IsHolder s
      → IsHolder
          (continue_with
            (read_body api)
            (or_raise (codes "Message body is not available") held s)).1
  unread-IsHolder s none p = p
  unread-IsHolder s (some h) p =
      Post-IsHolder (read_body api h s) (given IsHolder (read_body-IsHolder h) s p)

  get_body-IsHolder : (s : S) → IsHolder s → IsHolder (get_body api s).1
  unfolding get_body
  get_body-IsHolder s p = elim (Bool-cases s.object.body_decoded) [
    | inl e ↦ simp e p
    | inr e ↦ simp e (unread-IsHolder s s.object.message p)
  ]

  -- Another message is held, and then the earlier one given up.
  exchange :
      (h : api.Handle) (held : Option api.Handle) (log : List (HandleChange api.Handle))
      → Holds log held
      → Holds (noted released held (acquired h ∷ log)) (some h)
  exchange h none log p = taken p
  exchange h (some old) log p = exchanged p

  set_message_handler-IsHolder :
      (h : Option api.Handle) (s : S) → IsHolder s → IsHolder (set_message_handler api h s).1
  unfolding set_message_handler
  set_message_handler-IsHolder h s p = go (api.message_clone h s.library) refl
    where
      go :
          (clone : Option api.Handle × api.Library)
          → api.message_clone h s.library ≡ clone
          → IsHolder (set_message_handler api h s).1
      go (none, l) e = rw e p
      go (some clone, l) e = rw e (exchange clone s.object.message s.handles p)

  give_up :
      (held : Option api.Handle) (log : List (HandleChange api.Handle))
      → Holds log held
      → Holds (noted released held log) none
  give_up none log p = p
  give_up (some h) log p = dropped p

  destroy-handles : (s : S) → (destroy api s).1.handles ≡ noted released s.object.message s.handles
  unfolding destroy
  destroy-handles s = ground arith

  perform-IsHolder :
      (op : Operation api.Handle) (s : S) → IsHolder s → IsHolder (perform api op s).1
  unfolding set_body
  perform-IsHolder read s p = get_body-IsHolder s p
  perform-IsHolder (write t) s p = p
  perform-IsHolder (receive h) s p =
      ended (set_message_handler api h s) (set_message_handler-IsHolder h s p)
    where
      ended :
          (x : Result Thrown (Unit {0}) × S)
          → IsHolder x.1
          → IsHolder (continue_with {B = Text} (λ _ s'. (ok [], s')) x).1
      ended (ok u, s') q = q
      ended (err e, s') q = q

  abbrev pub perform_all : List (Operation api.Handle) → S → S
  perform_all [] s = s
  perform_all (op ∷ ops) s = perform_all ops (perform api op s).1

  perform_all-IsHolder :
      (ops : List (Operation api.Handle)) (s : S) → IsHolder s → IsHolder (perform_all ops s)
  perform_all-IsHolder [] s p = p
  perform_all-IsHolder (op ∷ ops) s p =
      perform_all-IsHolder ops (perform api op s).1 (perform-IsHolder op s p)

  destroy-Holds : (s : S) → IsHolder s → Holds (destroy api s).1.handles none
  destroy-Holds s p =
      subst (λ log. Holds log none) (sym (destroy-handles s)) (give_up s.object.message s.handles p)

  -- What follows a constructor: an object that is used and destroyed, or none.
  abbrev pub Lives : List (Operation api.Handle) → Result Thrown (Unit {0}) × S → Type 0
  Lives ops (ok made, s) =
      IsHolder (perform_all ops s) × Holds (destroy api (perform_all ops s)).1.handles none
  Lives ops (err e, s) = Holds s.handles none

  IsHolder-Lives : (ops : List (Operation api.Handle)) (s : S) → IsHolder s → Lives ops (ok tt, s)
  IsHolder-Lives ops s p =
      let used = perform_all-IsHolder ops s p in (used, destroy-Holds (perform_all ops s) used)

  create-Lives :
      (ops : List (Operation api.Handle)) (s : S) → Holds s.handles none → Lives ops (create api s)
  unfolding create
  create-Lives ops s p = go (api.message_create s.library) refl
    where
      go :
          (made : Option api.Handle × api.Library)
          → api.message_create s.library ≡ made
          → Lives ops (create api s)
      go (none, l) e = rw e p
      go (some h, l) e = rw e (IsHolder-Lives ops _ (taken p))

  copied :
      (ops : List (Operation api.Handle)) (x : Result Thrown (Unit {0}) × S)
      → IsHolder x.1
      → Lives ops (cleaned (destroy api) x)
  copied ops (ok u, s) p = IsHolder-Lives ops s p
  copied ops (err e, s) p = destroy-Holds s p

  copy-Lives :
      (ops : List (Operation api.Handle)) (other : Option api.Handle) (s : S)
      → Holds s.handles none
      → Lives ops (copy api other s)
  unfolding copy
  copy-Lives ops other s p = go (create api s) (create-Lives [] s p)
    where
      go :
          (x : Result Thrown (Unit {0}) × S)
          → Lives [] x
          → Lives ops
              (continue_with (λ _ t. cleaned (destroy api) (set_message_handler api other t)) x)
      go (ok u, t) (q, r) = copied ops _ (set_message_handler-IsHolder other t q)
      go (err e, t) q = q

  -- However the library answers, whatever is read from the body, set as the body and received before
  -- the object is destroyed, and where no message is held before it is made: from the constructor
  -- or the copy constructor on it holds exactly its own message; each message that
  -- it acquired it has released once, another one having been acquired before if it goes on; and
  -- after the destructor, or where the constructor throws, it holds nothing: no message is leaked
  -- and none is released twice.
  pub lifetime-Lives :
      (ops : List (Operation api.Handle)) (other : Option api.Handle) (s : S)
      → s.handles ≡ []
      → Lives ops (create api s) × Lives ops (copy api other s)
  lifetime-Lives ops other s e =
      let unheld = subst (λ log. Holds log none) (sym e) nothing in
      (create-Lives ops s unheld, copy-Lives ops other s unheld)
