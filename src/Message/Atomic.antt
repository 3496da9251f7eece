-- ===== src/Message/Atomic.antt =====
-- Message.cpp: a setter that throws has stored nothing.
use azure_uamqp_php.Prelude.{
  Text, ◌≡◌, refl, ap, ◌∙◌, Bool, true, false, Option, none, some, Result, ok, err, codes,
  if◌then◌else◌,
}
use azure_uamqp_php.Runtime.Library.{Thrown}
use azure_uamqp_php.Message.Library.{MessageApi, PhpApi}
use azure_uamqp_php.Message.State.{State, Change, M, ◌>>=◌, ◌>>◌, or_raise, library_call, must}
use azure_uamqp_php.Message.Metadata.{written, get_metadata, get_metadata_map, only_map, unwrap}
use azure_uamqp_php.Message.Setting.{
  update_metadata, set_metadata, own_properties, set_message_id, store_metadata, or_new_map,
  made_properties_if, typed_value, c_str, could_not_create, could_not_store, could_not_set,
}
use azure_uamqp_php.Message.Body.{is_none}
use azure_uamqp_php.Message.Gives.{
  gives, given, Post, Gives, Gives-bind, Gives-pure, Gives-raise, Gives-when, Gives-weaken,
}
use azure_uamqp_php.Message.Storing.{
  IsStored, Keeps-call, Keeps-checked, Keeps-or_raise, Keeps-gets, Rejects-store, Keeps-written,
  With, Makes-call,
}
use azure_uamqp_php.Message.Copying.{Copies-copy}
use azure_uamqp_php.Message.Creating.{typed_value-Creates, Keeps-or_unsupported, Keeps-creating}

module _ (api : MessageApi) (php : PhpApi api.Double) {A : Type 0} (stored : api.Library → A)
    (k : IsStored api stored) (before : State api.Library api.Value api.Properties api.Handle) where
  abbrev S : Type 0
  S = State api.Library api.Value api.Properties api.Handle

  abbrev Kept : S → Type 0
  Kept s = (stored s.library ≡ stored before.library) × (s.object ≡ before.object)

  abbrev Keeps : {B : Type 0} → M api B → Type 0
  Keeps m = Gives Kept Kept m (λ _. Kept)

  -- A method that keeps it where it throws.
  abbrev Rejects : {B : Type 0} → M api B → Type 0
  Rejects m = Gives Kept Kept m (λ _ _. Unit {0})

  Rejects-store_metadata :
      (message : Option api.Handle) (annotation : Bool) (map : api.Value)
      → Rejects (store_metadata api php message annotation map)
  unfolding store_metadata
  Rejects-store_metadata message true map =
      Gives-bind Kept
        (Keeps-call api stored k before (api.create_message_annotations map) (k.by_section map))
        λ section.
          Gives-bind Kept
            (Gives-when Kept Kept (λ s p. p) (is_none section)
              (Gives-raise Kept Kept (λ s p. p)
                (codes "Could not create AMQP message annotations section")))
            λ _.
              Rejects-store api stored k before could_not_store
                (api.message_set_message_annotations message section)
                (k.refused_annotations message section)
  Rejects-store_metadata message false map =
      Rejects-store api stored k before could_not_store
        (api.message_set_application_properties message map)
        (k.refused_application_properties message map)

  Rejects-update :
      (message : Option api.Handle) (annotation : Bool) (metadata : Option api.Value)
      (name value : api.Value)
      → Rejects (update_metadata api php message annotation metadata name value)
  unfolding update_metadata get_metadata_map
  Rejects-update message annotation metadata name value =
      Gives-bind Kept
        (Keeps-checked api stored k before (codes "AMQP message metadata must contain a map")
          (λ l. only_map (api.reads l) (unwrap (api.reads l) 32 metadata)))
        λ source. Gives-bind Kept (Copies-copy api stored k before source (some name)) λ map.
          Gives-bind Kept
            (Keeps-written api stored k before (codes "Could not set AMQP message metadata")
              (Change.put map (some name) (some value))
              (api.set_map_value map (some name) (some value)) (k.is_free map)
              (k.by_pair map (some name) (some value)))
            λ _. Rejects-store_metadata message annotation map

  Rejects-set_metadata :
      (annotation : Bool) (key type parameter : php.Value)
      → Rejects (set_metadata api php annotation key type parameter)
  unfolding set_metadata get_metadata
  Rejects-set_metadata annotation key type parameter =
      Gives-bind Kept (Keeps-gets api stored k before (λ s. s.object.message)) λ message.
        Gives-bind Kept
          (Keeps-checked api stored k before (codes "Could not read AMQP message metadata") (λ l.
            if annotation
            then api.message_get_message_annotations l message
            else api.message_get_application_properties l message))
          λ metadata. Gives-bind Kept (container metadata) λ source.
            Gives-bind Kept (named annotation) λ name.
              Gives-bind Kept
                (Keeps-or_unsupported api php stored k before
                  (typed_value api php (php.string_value type) parameter)
                  (typed_value-Creates api php stored k before (php.string_value type) parameter))
                λ create. Gives-bind Kept (Keeps-creating api php stored k before create) λ value.
                  Gives-bind Kept (Keeps-or_raise api stored k before could_not_create name)
                    λ some_name.
                      Gives-bind Kept (Keeps-or_raise api stored k before could_not_create value)
                        λ some_value. Rejects-update message annotation source some_name some_value
    where
      container : (metadata : Option api.Value) → Keeps (or_new_map api php metadata)
      container none = Keeps-call api stored k before api.create_map k.by_map
      container (some v) = Gives-pure Kept Kept (some v)

      named :
          (b : Bool)
          → Keeps (
              library_call (
                if b
                then api.create_symbol (c_str (php.string_value key))
                else api.create_string (c_str (php.string_value key))))
      named true =
          Keeps-call api stored k before (api.create_symbol (c_str (php.string_value key)))
            (k.by_symbol (c_str (php.string_value key)))
      named false =
          Keeps-call api stored k before (api.create_string (c_str (php.string_value key)))
            (k.by_string (c_str (php.string_value key)))

  -- Properties that are there are free.
  abbrev FreeIf : Option api.Properties → S → Type 0
  FreeIf o = With api stored k before (λ l. (p : api.Properties) → o ≡ some p → k.are_free p l)

  Makes-noted :
      (origin : Option api.Value) (o : Option api.Properties)
      → Gives Kept (FreeIf o) (made_properties_if api php origin o) FreeIf
  Makes-noted origin none = gives (λ s p. p)
  Makes-noted origin (some q) = gives (λ s p. p)

  -- What is read of a copy.
  abbrev FreeRead : Option (Option api.Properties) → S → Type 0
  FreeRead read =
      With api stored k before (λ l. (p : api.Properties) → read ≡ some (some p) → k.are_free p l)

  Makes-read :
      (v : api.Value)
      → Gives Kept
          (With api stored k before (k.is_free v))
          (library_call (api.amqpvalue_get_properties v))
          FreeRead
  Makes-read v = gives (λ s (p, free).
      ((k.by_read_properties v s.library ∙ p.0, p.1), λ q e. k.free_read v q s.library free e))

  Makes-raised :
      (read : Option (Option api.Properties))
      → Gives Kept
          (FreeRead read)
          (or_raise (codes "Could not copy AMQP message properties") read)
          FreeIf
  Makes-raised none = gives (λ s p. p.0)
  Makes-raised (some o) = gives (λ s p. (p.0, λ q e. p.1 q (ap some e)))

  Makes-own_properties :
      (properties : Option api.Properties)
      → Gives Kept Kept (own_properties api php properties) FreeIf
  unfolding own_properties
  Makes-own_properties none =
      Gives-bind Kept
        (Makes-call api stored k before api.properties_create k.are_free k.by_new_properties
          k.free_properties)
        (Makes-noted none)
  Makes-own_properties (some properties) =
      Gives-bind Kept
        (Keeps-call api stored k before (api.create_properties properties)
          (k.by_properties properties))
        λ section.
          Gives-bind Kept
            (Keeps-or_raise api stored k before (codes "Could not read AMQP properties section")
              section)
            λ source. Gives-bind Kept (Copies-copy api stored k before source none) λ updated.
              Gives-bind Kept (Makes-read updated)
                λ read. Gives-bind Kept (Makes-raised read) (Makes-noted (some updated))

  pub Keeps-own_properties :
      (properties : Option api.Properties) → Keeps (own_properties api php properties)
  Keeps-own_properties properties =
      Gives-weaken Kept (Makes-own_properties properties) (λ o s p. p.0)

  Rejects-identified :
      (message : Option api.Handle) (owned : Option api.Properties) (id : Option api.Value)
      → Gives Kept
          (FreeIf owned)
          (or_raise could_not_set owned >>= λ p. or_raise could_not_set id >>= λ v.
            written api could_not_set (Change.put_id p v) (api.properties_set_message_id p v)
            >> must could_not_set (library_call (api.message_set_properties message p)))
          (λ _ _. Unit {0})
  Rejects-identified message none id = gives (λ s p. p.0)
  Rejects-identified message (some p) none = gives (λ s p. p.0)
  Rejects-identified message (some p) (some v) =
      Gives-bind Kept {Q = λ _. Kept} (written_free p v) λ _.
        Rejects-store api stored k before could_not_set (api.message_set_properties message p)
          (k.refused_properties message p)
    where
      written_free :
          (p : api.Properties) (v : api.Value)
          → Gives Kept
              (FreeIf (some p))
              (written api could_not_set (Change.put_id p v) (api.properties_set_message_id p v))
              (λ _. Kept)
      written_free p v = gives (λ s (q, free).
          given Kept
            (Keeps-written api stored k before could_not_set (Change.put_id p v)
              (api.properties_set_message_id p v) (k.are_free p) (k.by_id p v))
            s (q, free p refl))

  Rejects-set_message_id : (parameter : php.Value) → Rejects (set_message_id api php parameter)
  unfolding set_message_id
  Rejects-set_message_id parameter =
      let text = c_str (php.string_value parameter) in
      Gives-bind Kept (Keeps-gets api stored k before (λ s. s.object.message)) λ message.
        Gives-bind Kept
          (Keeps-checked api stored k before (codes "Could not read AMQP message properties")
            (λ l. api.message_get_properties l message))
          λ properties. Gives-bind Kept (Makes-own_properties properties) λ owned.
            Gives-bind Kept (Makes-string text owned) λ id. Rejects-identified message owned id
    where
      Makes-string :
          (text : Text) (owned : Option api.Properties)
          → Gives Kept (FreeIf owned) (library_call (api.create_string text)) (λ _. FreeIf owned)
      Makes-string text owned = gives (λ s (p, free). (
        (k.by_string text s.library ∙ p.0, p.1),
        λ q e. k.free_by_string text q s.library (free q e),
      ))

  rejected :
      {m : M api (Unit {0})}
      → Rejects m
      → (s : S) → Kept s
      → (e : Thrown) → (m s).0 ≡ err e
      → Kept (m s).1
  rejected {m} r s p e thrown = ended (m s) (given Kept r s p) thrown
    where
      ended :
          (x : Result Thrown (Unit {0}) × S)
          → Post Kept (λ _ _. Unit {0}) x
          → x.0 ≡ err e
          → Kept x.1
      ended (ok _, s') p q = cc
      ended (err _, s') p q = p

-- A call of one of the methods that change the metadata, with its arguments.
pub data Setter (php : Type 0) : Type 0 where
  metadata : (annotation : Bool) (key type parameter : php) → Setter php
  message_id : (parameter : php) → Setter php

module _ (api : MessageApi) (php : PhpApi api.Double) where
  unfoldable pub apply_setter : Setter php.Value → M api (Unit {0})
  unfolding set_metadata set_message_id
  apply_setter (Setter.metadata annotation key type parameter) =
      set_metadata api php annotation key type parameter
  apply_setter (Setter.message_id parameter) = set_message_id api php parameter

  -- Let an observation of the library be one that creating values, writing to what only the call
  -- holds, and a refused store leave as it is. A setter that throws leaves it and the object as they
  -- were, wherever it throws.
  pub apply_setter_throws :
      {A : Type 0} (stored : api.Library → A)
      → IsStored api stored
      → (setter : Setter php.Value) (s : State api.Library api.Value api.Properties api.Handle)
        (e : Thrown)
      → (apply_setter setter s).0 ≡ err e
      → (stored (apply_setter setter s).1.library ≡ stored s.library)
        × ((apply_setter setter s).1.object ≡ s.object)
  unfolding apply_setter
  apply_setter_throws stored k setter s e =
      rejected api php stored k s (rejects setter) s (refl, refl) e
    where
      rejects : (setter : Setter php.Value) → Rejects api php stored k s (apply_setter setter)
      rejects (Setter.metadata annotation key type parameter) =
          Rejects-set_metadata api php stored k s annotation key type parameter
      rejects (Setter.message_id parameter) = Rejects-set_message_id api php stored k s parameter
