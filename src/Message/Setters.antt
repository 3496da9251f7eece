-- ===== src/Message/Setters.antt =====
-- Message.cpp: which containers and properties the setters write to.
use azure_uamqp_php.Prelude.{
  ◌≡◌, Bool, true, false, Option, none, some, [], Result, ok, err, codes, if◌then◌else◌, subst, sym,
}
use azure_uamqp_php.Runtime.Library.{Thrown}
use azure_uamqp_php.Message.Library.{MessageApi, PhpApi}
use azure_uamqp_php.Message.State.{Change, M, ◌>>=◌, ◌>>◌, or_raise, must, library_call}
use azure_uamqp_php.Message.Metadata.{get_metadata, written}
use azure_uamqp_php.Message.Setting.{
  update_metadata, set_metadata, own_properties, set_message_id, store_metadata, or_new_map,
  made_properties_if, typed_value, c_str, could_not_create, could_not_store, could_not_set,
  unsupported,
}
use azure_uamqp_php.Message.Body.{is_none}
use azure_uamqp_php.Message.Sharing.{
  S, OwnWith, Own, AreOwn, latest, Steps, Stays, weaker, Stays-written, Steps-copy,
  Stays-get_metadata_map, Stays-library, Stays-or_raise, Stays-must, Steps-weaken,
}
use azure_uamqp_php.Message.Gives.{
  gives, given, Post, Gives-bind, Gives-pure, Gives-gets, Gives-raise, Gives-or_raise, Gives-when,
  Gives-checked, Gives-library,
}

module _ (api : MessageApi) (php : PhpApi api.Double) where
  Stays-store :
      (message : Option api.Handle) (annotation : Bool) (map : api.Value)
      → Stays api (Own api) (store_metadata api php message annotation map)
  unfolding store_metadata
  Stays-store message true map =
      Gives-bind (Own api) (Stays-library api (api.create_message_annotations map)) λ section.
        Gives-bind (Own api)
          (Gives-when (Own api) (Own api) (λ s p. p) (is_none section)
            (Gives-raise (Own api) (Own api) (λ s p. p)
              (codes "Could not create AMQP message annotations section")))
          λ _. Stays-must api could_not_store (api.message_set_message_annotations message section)
  Stays-store message false map =
      Stays-must api could_not_store (api.message_set_application_properties message map)

  Stays-update :
      (message : Option api.Handle) (annotation : Bool) (metadata : Option api.Value)
      (name value : api.Value)
      → Stays api (Own api) (update_metadata api php message annotation metadata name value)
  unfolding update_metadata
  Stays-update message annotation metadata name value =
      Gives-bind (Own api) (Stays-get_metadata_map api metadata) λ source.
        Gives-bind (Own api) (Steps-copy api source (some name)) λ map.
          Steps-weaken api
            (Stays-written api (Change.made map) (Change.put map (some name) (some value))
              (codes "Could not set AMQP message metadata")
              (api.set_map_value map (some name) (some value)) (λ log m. m))
            (Stays-store message annotation map)

  Stays-set_metadata :
      (annotation : Bool) (key type parameter : php.Value)
      → Stays api (Own api) (set_metadata api php annotation key type parameter)
  unfolding set_metadata get_metadata
  Stays-set_metadata annotation key type parameter =
      Gives-bind (Own api) (Gives-gets (Own api) (Own api) (λ s. s.object.message)) λ message.
        Gives-bind (Own api)
          (Gives-checked (Own api) (Own api) (λ s p. p)
            (codes "Could not read AMQP message metadata")
            (λ l.
              if annotation
              then api.message_get_message_annotations l message
              else api.message_get_application_properties l message))
          λ metadata. Gives-bind (Own api) (container metadata) λ source.
            Gives-bind (Own api)
              (Stays-library api (
                if annotation
                then api.create_symbol (c_str (php.string_value key))
                else api.create_string (c_str (php.string_value key))))
              λ name.
                Gives-bind (Own api)
                  (Stays-or_raise api unsupported
                    (typed_value api php (php.string_value type) parameter))
                  λ create. Gives-bind (Own api) (Stays-library api create) λ value.
                    Gives-bind (Own api) (Stays-or_raise api could_not_create name) λ some_name.
                      Gives-bind (Own api) (Stays-or_raise api could_not_create value)
                        λ some_value. Stays-update message annotation source some_name some_value
    where
      container : (metadata : Option api.Value) → Stays api (Own api) (or_new_map api php metadata)
      container none = Stays-library api api.create_map
      container (some v) = Gives-pure (Own api) (Own api) (some v)

  -- Properties that are there were created in this run, or read of a container that was.
  abbrev pub Made : api.Properties → S api → Type 0
  Made p s = (origin : Option api.Value) × OwnWith api (Change.made_properties origin p) s

  abbrev Mine : Option api.Properties → S api → Type 0
  Mine none s = Own api s
  Mine (some p) s = Made p s

  Steps-created :
      (o : Option api.Properties) → Steps api (Own api) (made_properties_if api php none o) Mine
  Steps-created none = gives (λ s p. p)
  Steps-created (some q) = gives (λ s p. (none, ((tt, p), latest)))

  Steps-read :
      (v : api.Value) (o : Option api.Properties)
      → Steps api (OwnWith api (Change.made v)) (made_properties_if api php (some v) o) Mine
  Steps-read v none = gives (λ s p. p.0)
  Steps-read v (some q) = gives (λ s p. (some v, ((p.1, p.0), latest)))

  Steps-own_properties :
      (properties : Option api.Properties)
      → Steps api (Own api) (own_properties api php properties) Mine
  unfolding own_properties
  Steps-own_properties none =
      Gives-bind (Own api) (Stays-library api api.properties_create) Steps-created
  Steps-own_properties (some properties) =
      Gives-bind (Own api) (Stays-library api (api.create_properties properties)) λ section.
        Gives-bind (Own api)
          (Stays-or_raise api (codes "Could not read AMQP properties section") section)
          λ source. Gives-bind (Own api) (Steps-copy api source none) λ updated.
            let Copied = OwnWith api (Change.made updated) in
            Gives-bind (Own api)
              (Gives-library (Own api) Copied (api.amqpvalue_get_properties updated) (λ s l p. p))
              λ read.
                Gives-bind (Own api)
                  (Gives-or_raise (Own api) Copied (weaker api (Change.made updated))
                    (codes "Could not copy AMQP message properties") read)
                  (Steps-read updated)

  Stays-set_message_id :
      (parameter : php.Value) → Stays api (Own api) (set_message_id api php parameter)
  unfolding set_message_id
  Stays-set_message_id parameter =
      Gives-bind (Own api) (Gives-gets (Own api) (Own api) (λ s. s.object.message)) λ message.
        Gives-bind (Own api)
          (Gives-checked (Own api) (Own api) (λ s p. p)
            (codes "Could not read AMQP message properties")
            (λ l. api.message_get_properties l message))
          λ properties.
            Gives-bind (Own api) (Steps-own_properties properties) λ owned. rest message owned
    where
      rest :
          (message : Option api.Handle) (owned : Option api.Properties)
          → Steps api
              (Mine owned)
              (library_call (api.create_string (c_str (php.string_value parameter))) >>= λ id.
                or_raise could_not_set owned >>= λ p. or_raise could_not_set id >>= λ v.
                written api could_not_set (Change.put_id p v) (api.properties_set_message_id p v)
                >> must could_not_set (library_call (api.message_set_properties message p)))
              (λ _. Own api)
      rest message none = gives (λ s p. p)
      rest message (some p) = gives (λ s (origin, q). given (Own api) (owned origin) s q)
        where
          owned :
              (origin : Option api.Value)
              → Steps api
                  (OwnWith api (Change.made_properties origin p))
                  (library_call (api.create_string (c_str (php.string_value parameter))) >>= λ id.
                    or_raise could_not_set id >>= λ v.
                    written api could_not_set
                      (Change.put_id p v)
                      (api.properties_set_message_id p v)
                    >> must could_not_set (library_call (api.message_set_properties message p)))
                  (λ _. Own api)
          owned origin =
              let mine = Change.made_properties origin p in
              Gives-bind (Own api)
                (Gives-library (Own api) (OwnWith api mine)
                  (api.create_string (c_str (php.string_value parameter))) (λ s l q. q))
                λ id.
                  Gives-bind (Own api)
                    (Gives-or_raise (Own api) (OwnWith api mine) (weaker api mine) could_not_set id)
                    λ v.
                      Steps-weaken api
                        (Stays-written api mine (Change.put_id p v) could_not_set
                          (api.properties_set_message_id p v) (λ log m. (origin, m)))
                        (Stays-must api could_not_set (api.message_set_properties message p))

  -- The setters only write to containers and to properties that they created themselves in the same
  -- call, however the library answers; and properties that they read and then write to are read of a
  -- container that they created, not of one that another message or a delivery holds.
  pub setters-AreOwn :
      (annotation : Bool) (key type parameter : php.Value) (s : S api)
      → s.log ≡ []
      → AreOwn (set_metadata api php annotation key type parameter s).1.log
        × AreOwn (set_message_id api php parameter s).1.log
  setters-AreOwn annotation key type parameter s empty = (
    held (Stays-set_metadata annotation key type parameter),
    held (Stays-set_message_id parameter),
  )
    where
      held : {m : M api (Unit {0})} → Stays api (Own api) m → Own api (m s).1
      held {m} k = ended (m s) (given (Own api) k s (subst AreOwn (sym empty) tt))
        where
          ended :
              (x : Result Thrown (Unit {0}) × S api) → Post (Own api) (λ _. Own api) x → Own api x.1
          ended (ok _, s') p = p
          ended (err e, s') p = p
