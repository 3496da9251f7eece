-- ===== src/Message/Storing.antt =====
-- Message.cpp: what the metadata setters leave as it is, step by step.
use azure_uamqp_php.Prelude.{
  ℕ, ◌≡◌, refl, ◌∙◌, Bool, true, false, not, Option, none, some, Text, ok,
}
use azure_uamqp_php.Prelude.Int.{ℤ}
use azure_uamqp_php.Message.Library.{MessageApi}
use azure_uamqp_php.Message.State.{
  State, Change, M, ◌>>◌, pure, or_raise, must, note, library_call, checked,
}
use azure_uamqp_php.Message.Metadata.{written, created}
use azure_uamqp_php.Message.Gives.{
  gives, Gives-raise, Post, Gives, Gives-bind, Gives-gets, Gives-or_raise, Gives-when,
  Gives-checked, Gives-must,
}

-- Something that can be observed of the library, such as what is stored with a message, that creating
-- values and refusing to store leave as it is. Writing leaves it as it is only where what is written
-- to is free, that is, held by the call alone: containers are free when they are created, and stay so
-- while they are filled; properties are, when they are created, or read of a container that is free.
pub record IsStored (api : MessageApi) {A : Type 0} (stored : api.Library → A) : Type 1 where
  pub is_free : api.Value → api.Library → Type 0
  pub are_free : api.Properties → api.Library → Type 0
  pub free_map :
      (v : api.Value) (l : api.Library)
      → (api.create_map l).0 ≡ some v
      → is_free v (api.create_map l).1
  pub free_composite :
      (d : Option api.Value) (n : ℕ) (v : api.Value) (l : api.Library)
      → (api.create_composite d n l).0 ≡ some v
      → is_free v (api.create_composite d n l).1
  pub free_properties :
      (p : api.Properties) (l : api.Library)
      → (api.properties_create l).0 ≡ some p
      → are_free p (api.properties_create l).1
  pub free_read :
      (v : api.Value) (p : api.Properties) (l : api.Library)
      → is_free v l
      → (api.amqpvalue_get_properties v l).0 ≡ some (some p)
      → are_free p (api.amqpvalue_get_properties v l).1
  pub free_by_string :
      (t : Text) (p : api.Properties) (l : api.Library)
      → are_free p l
      → are_free p (api.create_string t l).1
  pub free_by_pair :
      (r : api.Value) (k v : Option api.Value) (l : api.Library)
      → is_free r l
      → is_free r (api.set_map_value r k v l).1
  pub free_by_item :
      (r : api.Value) (i : ℕ) (v : Option api.Value) (l : api.Library)
      → is_free r l
      → is_free r (api.set_composite_item r i v l).1
  pub by_map : (l : api.Library) → stored (api.create_map l).1 ≡ stored l
  pub by_composite :
      (d : Option api.Value) (n : ℕ) (l : api.Library)
      → stored (api.create_composite d n l).1 ≡ stored l
  pub by_symbol : (t : Text) (l : api.Library) → stored (api.create_symbol t l).1 ≡ stored l
  pub by_string : (t : Text) (l : api.Library) → stored (api.create_string t l).1 ≡ stored l
  pub by_int : (z : ℤ) (l : api.Library) → stored (api.create_int z l).1 ≡ stored l
  pub by_timestamp : (z : ℤ) (l : api.Library) → stored (api.create_timestamp z l).1 ≡ stored l
  pub by_long : (z : ℤ) (l : api.Library) → stored (api.create_long z l).1 ≡ stored l
  pub by_double : (x : api.Double) (l : api.Library) → stored (api.create_double x l).1 ≡ stored l
  pub by_boolean : (b : Bool) (l : api.Library) → stored (api.create_boolean b l).1 ≡ stored l
  pub by_section :
      (v : api.Value) (l : api.Library) → stored (api.create_message_annotations v l).1 ≡ stored l
  pub by_properties :
      (p : api.Properties) (l : api.Library) → stored (api.create_properties p l).1 ≡ stored l
  pub by_new_properties : (l : api.Library) → stored (api.properties_create l).1 ≡ stored l
  pub by_read_properties :
      (v : api.Value) (l : api.Library) → stored (api.amqpvalue_get_properties v l).1 ≡ stored l
  pub by_pair :
      (r : api.Value) (k v : Option api.Value) (l : api.Library)
      → is_free r l
      → stored (api.set_map_value r k v l).1 ≡ stored l
  pub by_item :
      (r : api.Value) (i : ℕ) (v : Option api.Value) (l : api.Library)
      → is_free r l
      → stored (api.set_composite_item r i v l).1 ≡ stored l
  pub by_id :
      (p : api.Properties) (v : api.Value) (l : api.Library)
      → are_free p l
      → stored (api.properties_set_message_id p v l).1 ≡ stored l
  pub refused_annotations :
      (m : Option api.Handle) (v : Option api.Value) (l : api.Library)
      → (api.message_set_message_annotations m v l).0 ≡ false
      → stored (api.message_set_message_annotations m v l).1 ≡ stored l
  pub refused_application_properties :
      (m : Option api.Handle) (v : api.Value) (l : api.Library)
      → (api.message_set_application_properties m v l).0 ≡ false
      → stored (api.message_set_application_properties m v l).1 ≡ stored l
  pub refused_properties :
      (m : Option api.Handle) (p : api.Properties) (l : api.Library)
      → (api.message_set_properties m p l).0 ≡ false
      → stored (api.message_set_properties m p l).1 ≡ stored l

module _ (api : MessageApi) {A : Type 0} (stored : api.Library → A) (k : IsStored api stored)
    (before : State api.Library api.Value api.Properties api.Handle) where
  abbrev S : Type 0
  S = State api.Library api.Value api.Properties api.Handle

  abbrev Kept : S → Type 0
  Kept s = (stored s.library ≡ stored before.library) × (s.object ≡ before.object)

  abbrev Keeps : {B : Type 0} → M api B → Type 0
  Keeps m = Gives Kept Kept m (λ _. Kept)

  -- A method that keeps it where it throws.
  abbrev Rejects : {B : Type 0} → M api B → Type 0
  Rejects m = Gives Kept Kept m (λ _ _. Unit {0})

  pub Keeps-call :
      {B : Type 0} (f : api.Library → B × api.Library)
      → ((l : api.Library) → stored (f l).1 ≡ stored l)
      → Keeps (library_call f)
  Keeps-call f same = gives (λ s p. (same s.library ∙ p.0, p.1))

  pub Keeps-checked : {B : Type 0} (t : Text) (f : api.Library → Option B) → Keeps (checked t f)
  Keeps-checked t f = Gives-checked Kept Kept (λ s p. p) t f

  pub Keeps-or_raise : {B : Type 0} (t : Text) (o : Option B) → Keeps (or_raise t o)
  Keeps-or_raise t o = Gives-or_raise Kept Kept (λ s p. p) t o

  pub Keeps-gets : {B : Type 0} (f : S → B) → Keeps {B = B} (λ s. (ok (f s), s))
  Keeps-gets f = Gives-gets Kept Kept f

  pub Rejects-store :
      (t : Text) (f : api.Library → Bool × api.Library)
      → ((l : api.Library) → (f l).0 ≡ false → stored (f l).1 ≡ stored l)
      → Rejects (must t (library_call f))
  Rejects-store t f refused = gives (λ s p. go s p (f s.library).0 refl)
    where
      go :
          (s : S)
          → Kept s
          → (done : Bool) → (f s.library).0 ≡ done
          → Post Kept (λ _ _. Unit {0}) (must t (library_call f) s)
      go s p true e = rw e tt
      go s p false e = rw e (refused s.library e ∙ p.0, p.1)

  -- Also, `P` of the library.
  abbrev pub With : (api.Library → Type 0) → S → Type 0
  With P s = Kept s × P s.library

  -- A call that makes something of which `P` holds, if it makes anything.
  pub Makes-call :
      {B : Type 0} (f : api.Library → Option B × api.Library) (P : B → api.Library → Type 0)
      → ((l : api.Library) → stored (f l).1 ≡ stored l)
      → ((v : B) (l : api.Library) → (f l).0 ≡ some v → P v (f l).1)
      → Gives Kept Kept (library_call f) (λ o. With (λ l. (v : B) → o ≡ some v → P v l))
  Makes-call f P same made = gives (λ s p. ((same s.library ∙ p.0, p.1), λ v e. made v s.library e))

  pub Makes-or_raise :
      {B : Type 0} (t : Text) (o : Option B) (P : B → api.Library → Type 0)
      → Gives Kept (With (λ l. (v : B) → o ≡ some v → P v l)) (or_raise t o) (λ v. With (P v))
  Makes-or_raise t none P = gives (λ s p. p.0)
  Makes-or_raise t (some v) P = gives (λ s p. (p.0, p.1 v refl))

  -- Writing to what is free.
  abbrev KeepsIf : {B : Type 0} → (api.Library → Type 0) → (api.Library → B × api.Library) → Type 0
  KeepsIf P f = (l : api.Library) → P l → stored (f l).1 ≡ stored l

  Fills-call :
      {B : Type 0} (f : api.Library → B × api.Library) (P : api.Library → Type 0)
      → KeepsIf P f
      → ((l : api.Library) → P l → P (f l).1)
      → Gives Kept (With P) (library_call f) (λ _. With P)
  Fills-call f P same still = gives (λ s (p, q). ((same s.library q ∙ p.0, p.1), still s.library q))

  Keeps-free :
      {B : Type 0} (f : api.Library → B × api.Library) (P : api.Library → Type 0)
      → KeepsIf P f
      → Gives Kept (With P) (library_call f) (λ _. Kept)
  Keeps-free f P same = gives (λ s (p, q). (same s.library q ∙ p.0, p.1))

  pub Keeps-written :
      (t : Text) (c : Change api.Value api.Properties) (f : api.Library → Bool × api.Library)
      (P : api.Library → Type 0)
      → KeepsIf P f
      → Gives Kept (With P) (written api t c f) (λ _. Kept)
  Keeps-written t c f P same =
      Gives-bind Kept {m = note c} {Q = λ _. With P} (gives (λ s p. p)) λ _.
        Gives-bind Kept (Keeps-free f P same)
          λ done. Gives-when Kept Kept (λ s p. p) (not done) (Gives-raise Kept Kept (λ s p. p) t)

  pub Fills-written :
      (t : Text) (c : Change api.Value api.Properties) (f : api.Library → Bool × api.Library)
      (P : api.Library → Type 0)
      → KeepsIf P f
      → ((l : api.Library) → P l → P (f l).1)
      → Gives Kept (With P) (written api t c f) (λ _. With P)
  Fills-written t c f P same still =
      Gives-bind Kept {m = note c} {Q = λ _. With P} (gives (λ s p. p))
        λ _. Gives-must Kept (With P) (λ s p. p.0) t (Fills-call f P same still)

  pub Makes-created :
      (t : Text) (f : api.Library → Option api.Value × api.Library)
      → ((l : api.Library) → stored (f l).1 ≡ stored l)
      → ((v : api.Value) (l : api.Library) → (f l).0 ≡ some v → k.is_free v (f l).1)
      → Gives Kept Kept (created api t f) (λ v. With (k.is_free v))
  Makes-created t f same made =
      Gives-bind Kept (Makes-call f k.is_free same made)
        λ container. Gives-bind Kept (Makes-or_raise t container k.is_free) λ result. noted result
    where
      noted :
          (v : api.Value)
          → Gives Kept
              (With (k.is_free v))
              (note (Change.made v) >> pure v)
              (λ v. With (k.is_free v))
      noted v = gives (λ s p. p)
