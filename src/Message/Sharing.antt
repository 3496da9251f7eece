-- ===== src/Message/Sharing.antt =====
-- Message.cpp: what is created before it is written to, in the copy of a container.
use azure_uamqp_php.Prelude.{
  ℕ, zero, suc, ◌+◌, Bool, true, false, not, Option, some, List, [], ◌∷◌, Text, codes,
  if◌then◌else◌,
}
use azure_uamqp_php.Message.Library.{MessageApi}
use azure_uamqp_php.Message.State.{State, Change, M, ◌>>◌, or_raise, pure, note, must, library_call}
use azure_uamqp_php.Message.Metadata.{
  copy_pairs, copy_items, copy_map, copy_composite, copy_metadata_container, get_metadata_map,
  written, created, is_map, could_not_copy, could_not_copy_entry, is_replaced, only_map, unwrap,
}
use azure_uamqp_php.Message.Gives.{
  Gives, gives, given, Gives-bind, Gives-pure, Gives-gets, Gives-or_raise, Gives-when, Gives-must,
  Gives-checked, Gives-library,
}

module _ {V P : Type 0} where
  pub data Logged (c : Change V P) : List (Change V P) → Type 0 where
    latest : {log : List (Change V P)} → Logged c (c ∷ log)
    before : {d : Change V P} {log : List (Change V P)} → Logged c log → Logged c (d ∷ log)

  -- What is changed was created earlier, and so was the container that properties were read of: they
  -- share what it holds.
  abbrev pub IsOwn : Change V P → List (Change V P) → Type 0
  IsOwn (Change.put v _ _) earlier = Logged (Change.made v) earlier
  IsOwn (Change.item v _ _) earlier = Logged (Change.made v) earlier
  IsOwn (Change.put_id p _) earlier =
      (origin : Option V) × Logged (Change.made_properties origin p) earlier
  IsOwn (Change.made_properties (some v) _) earlier = Logged (Change.made v) earlier
  IsOwn _ earlier = Unit {0}

  abbrev pub AreOwn : List (Change V P) → Type 0
  AreOwn [] = Unit {0}
  AreOwn (c ∷ log) = IsOwn c log × AreOwn log

module _ (api : MessageApi) where
  abbrev pub S : Type 0
  S = State api.Library api.Value api.Properties api.Handle

  abbrev pub Entry : Type 0
  Entry = Change api.Value api.Properties

  abbrev pub Own : S → Type 0
  Own s = AreOwn s.log

  -- Also, `c` is in the log.
  abbrev pub OwnWith : Entry → S → Type 0
  OwnWith c s = AreOwn s.log × Logged c s.log

  abbrev Holder : api.Value → S → Type 0
  Holder v = OwnWith (Change.made v)

  abbrev pub Steps : {A : Type 0} (P : S → Type 0) (m : M api A) (Q : A → S → Type 0) → Type 0
  Steps P m Q = Gives Own P m Q

  abbrev pub Stays : {A : Type 0} → (S → Type 0) → M api A → Type 0
  Stays P m = Steps P m (λ _. P)

  pub weaker : (c : Entry) (s : S) → OwnWith c s → Own s
  weaker c s p = p.0

  pub Stays-written :
      (origin c : Entry) (t : Text) (f : api.Library → Bool × api.Library)
      → ((log : List Entry) → Logged origin log → IsOwn c log)
      → Stays (OwnWith origin) (written api t c f)
  Stays-written origin c t f own = Gives-bind Own noted λ _.
      Gives-must Own (OwnWith origin) (weaker origin) t
        (Gives-library Own (OwnWith origin) f (λ s l p. p))
    where
      noted : Stays (OwnWith origin) (note c)
      noted = gives (λ s p. ((own s.log p.1, p.0), before p.1))

  Steps-created :
      (t : Text) (f : api.Library → Option api.Value × api.Library)
      → Steps Own (created api t f) Holder
  Steps-created t f = Gives-bind Own (Gives-library Own Own f (λ s l p. p)) λ container.
      Gives-bind Own (Gives-or_raise Own Own (λ s p. p) t container) λ result. noted result
    where
      noted : (v : api.Value) → Steps Own (note (Change.made v) >> pure v) Holder
      noted v = gives (λ s p. ((tt, p), latest))

  Stays-copy_pairs :
      (source : api.Value) (replaced : Option api.Value) (result : api.Value) (index left : ℕ)
      → Stays (Holder result) (copy_pairs api source replaced result index left)
  unfolding copy_pairs
  Stays-copy_pairs source replaced result index zero = Gives-pure Own (Holder result) tt
  Stays-copy_pairs source replaced result index (suc left) =
      let keeps = weaker (Change.made result) in
      Gives-bind Own
        (Gives-checked Own (Holder result) keeps (codes "Could not read AMQP metadata entry")
          (λ l. (api.reads l).get_map_key_value_pair source index))
        λ (key, value).
          Gives-bind Own
            (Gives-gets Own (Holder result) (λ s. is_replaced api replaced s.library key))
            λ dropped.
              Gives-bind Own
                (Gives-when Own (Holder result) keeps (not dropped) (
                  Stays-written (Change.made result) (Change.put result key value)
                    could_not_copy_entry (api.set_map_value result key value) (λ log m. m)))
                λ _. Stays-copy_pairs source replaced result (index + 1) left

  Stays-copy_items :
      (source result : api.Value) (index left : ℕ)
      → Stays (Holder result) (copy_items api source result index left)
  unfolding copy_items
  Stays-copy_items source result index zero = Gives-pure Own (Holder result) tt
  Stays-copy_items source result index (suc left) =
      Gives-bind Own
        (Gives-gets Own (Holder result)
          (λ s. api.get_composite_item_in_place s.library source index))
        λ value.
          Gives-bind Own
            (Stays-written (Change.made result) (Change.item result index value)
              could_not_copy_entry (api.set_composite_item result index value) (λ log m. m))
            λ _. Stays-copy_items source result (index + 1) left

  -- A loop that fills a new container, and the container.
  Steps-filled :
      (v : api.Value) {m : M api (Unit {0})}
      → Stays (Holder v) m
      → Steps (Holder v) (m >> pure v) Holder
  Steps-filled v k = Gives-bind Own k (λ _. gives (λ s p. p))

  Steps-copy_map :
      (source : api.Value) (replaced : Option api.Value)
      → Steps Own (copy_map api source replaced) Holder
  unfolding copy_map
  Steps-copy_map source replaced =
      Gives-bind Own
        (Gives-checked Own Own (λ s p. p) (codes "Could not read AMQP metadata container")
          (λ l. (api.reads l).get_map_pair_count source))
        λ count.
          Gives-bind Own (Steps-created could_not_copy api.create_map)
            λ result. Steps-filled result (Stays-copy_pairs source replaced result 0 count)

  Steps-copy_composite : (source : api.Value) → Steps Own (copy_composite api source) Holder
  unfolding copy_composite
  Steps-copy_composite source =
      Gives-bind Own
        (Gives-checked Own Own (λ s p. p) (codes "Could not read AMQP metadata container")
          (λ l. api.get_composite_item_count l source))
        λ count.
          Gives-bind Own (Gives-gets Own Own (λ s. api.get_inplace_descriptor s.library source))
            λ descriptor.
              Gives-bind Own (Steps-created could_not_copy (api.create_composite descriptor count))
                λ result. Steps-filled result (Stays-copy_items source result 0 count)

  pub Steps-copy :
      (source : api.Value) (replaced : Option api.Value)
      → Steps Own (copy_metadata_container api source replaced) Holder
  unfolding copy_metadata_container
  Steps-copy source replaced =
      Gives-bind Own (Gives-gets Own Own (λ s. (api.reads s.library).get_type source))
        λ type. either (is_map type)
    where
      either :
          (b : Bool)
          → Steps Own (if b then copy_map api source replaced else copy_composite api source) Holder
      either true = Steps-copy_map source replaced
      either false = Steps-copy_composite source

  pub Stays-get_metadata_map : (v : Option api.Value) → Stays Own (get_metadata_map api v)
  unfolding get_metadata_map
  Stays-get_metadata_map v =
      Gives-checked Own Own (λ s p. p) (codes "AMQP message metadata must contain a map")
        (λ l. only_map (api.reads l) (unwrap (api.reads l) 32 v))

  pub Stays-library : {A : Type 0} (f : api.Library → A × api.Library) → Stays Own (library_call f)
  Stays-library f = Gives-library Own Own f (λ s l p. p)

  pub Stays-or_raise : {A : Type 0} (t : Text) (o : Option A) → Stays Own (or_raise t o)
  Stays-or_raise t o = Gives-or_raise Own Own (λ s p. p) t o

  pub Stays-must :
      (t : Text) (f : api.Library → Bool × api.Library) → Stays Own (must t (library_call f))
  Stays-must t f = Gives-must Own Own (λ s p. p) t (Stays-library f)

  -- A method that keeps more than the rest needs.
  pub Steps-weaken :
      {c : Entry} {B : Type 0} {m : M api (Unit {0})} {k : M api B}
      → Stays (OwnWith c) m
      → Stays Own k
      → Steps (OwnWith c) (m >> k) (λ _. Own)
  Steps-weaken {c} k l = Gives-bind Own k (λ _. gives (λ s p. given Own l s (weaker c s p)))
