-- ===== src/Message/Creating.antt =====
-- Message.cpp: how the setters create a value of the requested type.
use azure_uamqp_php.Prelude.{
  ◌≡◌, ◌∙◌, Bool, true, false, text_eq, Option, none, some, Text, codes, if◌then◌else◌,
}
use azure_uamqp_php.Message.Library.{MessageApi, PhpApi}
use azure_uamqp_php.Message.State.{State, M, or_raise, library_call}
use azure_uamqp_php.Message.Setting.{typed_value, c_str, unsupported}
use azure_uamqp_php.Message.Gives.{gives, Gives}
use azure_uamqp_php.Message.Storing.{IsStored}

module _ (api : MessageApi) (php : PhpApi api.Double) {A : Type 0} (stored : api.Library → A)
    (k : IsStored api stored) (before : State api.Library api.Value api.Properties api.Handle) where
  abbrev S : Type 0
  S = State api.Library api.Value api.Properties api.Handle

  abbrev Kept : S → Type 0
  Kept s = (stored s.library ≡ stored before.library) × (s.object ≡ before.object)

  abbrev Keeps : {B : Type 0} → M api B → Type 0
  Keeps m = Gives Kept Kept m (λ _. Kept)

  -- A method that keeps it where it throws.
  abbrev Rejects : {B : Type 0} → M api B → Type 0
  Rejects m = Gives Kept Kept m (λ _ _. Unit {0})

  -- How a value is created keeps it, whatever the type is.
  abbrev pub Law : Option (api.Library → Option api.Value × api.Library) → Type 0
  Law none = Unit {0}
  Law (some f) = (l : api.Library) → stored (f l).1 ≡ stored l

  pub data Creates (o : Option (api.Library → Option api.Value × api.Library)) : Type 0 where
    creates : Law o → Creates o

  if-Creates :
      (b : Bool) {x y : Option (api.Library → Option api.Value × api.Library)}
      → Creates x
      → Creates y
      → Creates (if b then x else y)
  if-Creates true p q = p
  if-Creates false p q = q

  can :
      (f : api.Library → Option api.Value × api.Library)
      → ((l : api.Library) → stored (f l).1 ≡ stored l)
      → Creates (some f)
  can f law = creates law

  pub typed_value-Creates :
      (type : Text) (parameter : php.Value) → Creates (typed_value api php type parameter)
  unfolding typed_value
  typed_value-Creates type parameter =
      if-Creates (text_eq type (codes "I"))
        (can (api.create_int (php.to_int32 parameter)) (k.by_int (php.to_int32 parameter)))
        (if-Creates (text_eq type (codes "S"))
          (can (api.create_string (c_str (php.string_value parameter)))
            (k.by_string (c_str (php.string_value parameter))))
          (if-Creates (text_eq type (codes "T"))
            (can (api.create_timestamp (php.to_int64 parameter))
              (k.by_timestamp (php.to_int64 parameter)))
            (if-Creates (text_eq type (codes "D"))
              (can (api.create_double (php.to_double parameter))
                (k.by_double (php.to_double parameter)))
              (if-Creates (text_eq type (codes "L"))
                (can (api.create_long (php.to_int64 parameter))
                  (k.by_long (php.to_int64 parameter)))
                (if-Creates (text_eq type (codes "B"))
                  (can (api.create_boolean (php.bool_value parameter))
                    (k.by_boolean (php.bool_value parameter)))
                  (creates tt))))))

  -- What creates the value, where the type is one that is supported.
  pub Keeps-or_unsupported :
      (o : Option (api.Library → Option api.Value × api.Library))
      → Creates o
      → Gives Kept Kept (or_raise unsupported o) (λ create s. Kept s × Law (some create))
  Keeps-or_unsupported none c = gives (λ s p. p)
  Keeps-or_unsupported (some f) (creates law) = gives (λ s p. (p, law))

  pub Keeps-creating :
      (f : api.Library → Option api.Value × api.Library)
      → Gives Kept (λ s. Kept s × Law (some f)) (library_call f) (λ _. Kept)
  Keeps-creating f = gives (λ s (p, law). (law s.library ∙ p.0, p.1))
