-- ===== src/Message/Identified.antt =====
-- Message.cpp, `setMessageId` and `getMessageId`: the ID that was set is the one that is read.
use azure_uamqp_php.Prelude.{
  ◌≡◌, refl, Bool, true, false, Option, none, some, Text, ok, codes, subst, sym,
}
use azure_uamqp_php.AmqpValue.{AmqpType}
use azure_uamqp_php.Decoder.{decode_amqp_value, decode_levels, decode_typed}
use azure_uamqp_php.Message.Library.{MessageApi, PhpApi}
use azure_uamqp_php.Message.State.{State, Change, ◌>>=◌, ◌>>◌, or_raise, must, note, library_call}
use azure_uamqp_php.Message.Php.{decode_metadata, to_php_value}
use azure_uamqp_php.Message.Metadata.{get_message_id, written}
use azure_uamqp_php.Message.Setting.{set_message_id, c_str, could_not_set}
use azure_uamqp_php.Message.Gives.{gives, given, Post, Gives, Gives-bind}
use azure_uamqp_php.Message.Storing.{IsStored, Keeps-checked}
use azure_uamqp_php.Message.Atomic.{Keeps-own_properties}

module _ (api : MessageApi) where
  -- A string, properties with a string as their ID, and a message with such properties.
  abbrev pub IsText : Text → api.Value → api.Library → Type 0
  IsText t v l =
      ((api.reads l).get_type v ≡ AmqpType.string) × ((api.reads l).get_string v ≡ some (some t))

  abbrev pub HasId : Text → api.Properties → api.Library → Type 0
  HasId t p l = (v : api.Value) × (api.properties_get_message_id l p ≡ some (some v)) × IsText t v l

  abbrev pub IsIdentified : Text → Option api.Handle → api.Library → Type 0
  IsIdentified t m l =
      (p : api.Properties) × (api.message_get_properties l m ≡ some (some p)) × HasId t p l

-- What the library says of its copies: a string that is created reads as its text, properties whose
-- ID was set have a copy of it, and a message whose properties were set has a copy of them.
pub record KeepsIds (api : MessageApi) : Type 0 where
  pub at_string :
      (t : Text) (v : api.Value) (l : api.Library)
      → (api.create_string t l).0 ≡ some v
      → IsText api t v (api.create_string t l).1
  pub at_id :
      (t : Text) (p : api.Properties) (v : api.Value) (l : api.Library)
      → (api.properties_set_message_id p v l).0 ≡ true
      → IsText api t v l
      → HasId api t p (api.properties_set_message_id p v l).1
  pub at_properties :
      (t : Text) (m : Option api.Handle) (p : api.Properties) (l : api.Library)
      → (api.message_set_properties m p l).0 ≡ true
      → HasId api t p l
      → IsIdentified api t m (api.message_set_properties m p l).1

module _ (api : MessageApi) (php : PhpApi api.Double) (laws : KeepsIds api)
    (before : State api.Library api.Value api.Properties api.Handle) where
  abbrev S : Type 0
  S = State api.Library api.Value api.Properties api.Handle

  -- Nothing of the library is observed: what is kept is the object.
  nothing-IsStored : IsStored api (λ l. tt)
  nothing-IsStored = record {
    is_free = λ v l. Unit {0};
    are_free = λ p l. Unit {0};
    free_map = λ v l e. tt;
    free_composite = λ d n v l e. tt;
    free_properties = λ p l e. tt;
    free_read = λ v p l h e. tt;
    free_by_string = λ t p l h. tt;
    free_by_pair = λ r k v l h. tt;
    free_by_item = λ r i v l h. tt;
    by_map = λ l. refl;
    by_composite = λ d n l. refl;
    by_symbol = λ t l. refl;
    by_string = λ t l. refl;
    by_int = λ z l. refl;
    by_timestamp = λ z l. refl;
    by_long = λ z l. refl;
    by_double = λ x l. refl;
    by_boolean = λ b l. refl;
    by_section = λ v l. refl;
    by_properties = λ p l. refl;
    by_new_properties = λ l. refl;
    by_read_properties = λ v l. refl;
    by_pair = λ r k v l h. refl;
    by_item = λ r i v l h. refl;
    by_id = λ p v l h. refl;
    refused_annotations = λ m v l e. refl;
    refused_application_properties = λ m v l e. refl;
    refused_properties = λ m p l e. refl;
  }

  abbrev Kept : S → Type 0
  Kept s = (tt ≡ tt) × (s.object ≡ before.object)

  -- A step of the library that has to succeed takes one condition to another.
  must-Gives :
      (t : Text) (f : api.Library → Bool × api.Library) (P Q : api.Library → Type 0)
      → ((l : api.Library) → (f l).0 ≡ true → P l → Q (f l).1)
      → Gives Kept
          (λ s. Kept s × P s.library)
          (must t (library_call f))
          (λ _ s. Kept s × Q s.library)
  must-Gives t f P Q step = gives (λ s p. go s p (f s.library).0 refl)
    where
      go :
          (s : S)
          → Kept s × P s.library
          → (done : Bool) → (f s.library).0 ≡ done
          → Post Kept (λ _ s. Kept s × Q s.library) (must t (library_call f) s)
      go s (kept, p) true e = rw e ((refl, kept.1), step s.library e p)
      go s (kept, p) false e = rw e (refl, kept.1)

  module _ (text : Text) (message : Option api.Handle) where
    abbrev Read : Option api.Value → S → Type 0
    Read id s = Kept s × ((v : api.Value) → id ≡ some v → IsText api text v s.library)

    Read-create_string : Gives Kept Kept (library_call (api.create_string text)) Read
    Read-create_string = gives (λ s p. ((refl, p.1), λ v e. laws.at_string text v s.library e))

    IsIdentified-stored :
        (owned : Option api.Properties) (id : Option api.Value)
        → Gives Kept
            (Read id)
            (or_raise could_not_set owned >>= λ p. or_raise could_not_set id >>= λ v.
              written api could_not_set (Change.put_id p v) (api.properties_set_message_id p v)
              >> must could_not_set (library_call (api.message_set_properties message p)))
            (λ _ s. Kept s × IsIdentified api text message s.library)
    IsIdentified-stored none id = gives (λ s p. p.0)
    IsIdentified-stored (some p) none = gives (λ s p. p.0)
    IsIdentified-stored (some p) (some v) =
        Gives-bind Kept {Q = λ _ s. Kept s × HasId api text p s.library}
          (Gives-bind Kept {m = note (Change.put_id p v)}
            {Q = λ _ s. Kept s × IsText api text v s.library} (gives (λ s q. (q.0, q.1 v refl)))
            (λ _.
              must-Gives could_not_set (api.properties_set_message_id p v) (IsText api text v)
                (HasId api text p) (laws.at_id text p v)))
          λ _.
            must-Gives could_not_set (api.message_set_properties message p) (HasId api text p)
              (IsIdentified api text message) (laws.at_properties text message p)

  IsIdentified-set_message_id :
      (parameter : php.Value)
      → Post Kept
          (λ _ s.
            Kept s
            × IsIdentified api (c_str (php.string_value parameter)) before.object.message s.library)
          (set_message_id api php parameter before)
  unfolding set_message_id
  IsIdentified-set_message_id parameter =
      let text = c_str (php.string_value parameter) in
      let message = before.object.message in
      given Kept
        (Gives-bind Kept
          (Keeps-checked api (λ l. tt) nothing-IsStored before
            (codes "Could not read AMQP message properties")
            (λ l. api.message_get_properties l message))
          λ properties.
            Gives-bind Kept
              (Keeps-own_properties api php (λ l. tt) nothing-IsStored before properties)
              λ owned.
                Gives-bind Kept (Read-create_string text message)
                  λ id. IsIdentified-stored text message owned id)
        before (refl, refl)

module _ (api : MessageApi) (php : PhpApi api.Double) where
  get_message_id-IsIdentified :
      (t : Text) (s : State api.Library api.Value api.Properties api.Handle)
      → IsIdentified api t s.object.message s.library
      → get_message_id api php s ≡ (ok (php.from_text t), s)
  unfolding get_message_id decode_metadata to_php_value decode_amqp_value decode_levels decode_typed
  get_message_id-IsIdentified t s (p, found, (v, id, (type, text))) =
      rw (found, id, type, text) refl

  -- With a library that copies what it is given: where `setMessageId` returns, whatever properties
  -- the message had, `getMessageId` returns the text that was passed, up to its first zero byte, and
  -- the object is as it was.
  pub get_message_id-set_message_id :
      KeepsIds api
      → (parameter : php.Value) (s t : State api.Library api.Value api.Properties api.Handle)
      → set_message_id api php parameter s ≡ (ok tt, t)
      → (get_message_id api php t ≡ (ok (php.from_text (c_str (php.string_value parameter))), t))
        × (t.object ≡ s.object)
  get_message_id-set_message_id laws parameter s t done =
      let text = c_str (php.string_value parameter) in
      let (kept, found) =
        subst
          (Post (λ u. (tt ≡ tt) × (u.object ≡ s.object))
            (λ _ u.
              ((tt ≡ tt) × (u.object ≡ s.object))
              × IsIdentified api text s.object.message u.library))
          done (IsIdentified-set_message_id api php laws s parameter) in
      (
        get_message_id-IsIdentified text t
            (subst (λ o. IsIdentified api text o.message t.library) (sym kept.1) found),
        kept.1,
      )
