-- ===== src/Message/Copying.antt =====
-- Message.cpp, `copy_metadata_container`: a copy is held by the call alone.
use azure_uamqp_php.Prelude.{
  ℕ, zero, suc, ◌+◌, ◌≡◌, Bool, true, false, not, Option, codes, if◌then◌else◌,
}
use azure_uamqp_php.Message.Library.{MessageApi}
use azure_uamqp_php.Message.State.{State, Change, M, ◌>>◌, pure}
use azure_uamqp_php.Message.Metadata.{
  copy_pairs, copy_items, copy_map, copy_composite, copy_metadata_container, is_map, could_not_copy,
  could_not_copy_entry, is_replaced,
}
use azure_uamqp_php.Message.Gives.{
  gives, Gives, Gives-bind, Gives-pure, Gives-gets, Gives-when, Gives-checked,
}
use azure_uamqp_php.Message.Storing.{
  IsStored, With, Keeps-checked, Keeps-gets, Fills-written, Makes-created,
}

module _ (api : MessageApi) {A : Type 0} (stored : api.Library → A) (k : IsStored api stored)
    (before : State api.Library api.Value api.Properties api.Handle) where
  abbrev S : Type 0
  S = State api.Library api.Value api.Properties api.Handle

  abbrev Kept : S → Type 0
  Kept s = (stored s.library ≡ stored before.library) × (s.object ≡ before.object)

  abbrev Free : api.Value → S → Type 0
  Free v = With api stored k before (k.is_free v)

  -- A loop that fills a container which is free.
  abbrev Fills : api.Value → M api (Unit {0}) → Type 0
  Fills v m = Gives Kept (Free v) m (λ _. Free v)

  Fills-copy_pairs :
      (source : api.Value) (replaced : Option api.Value) (result : api.Value) (index left : ℕ)
      → Fills result (copy_pairs api source replaced result index left)
  unfolding copy_pairs
  Fills-copy_pairs source replaced result index zero = Gives-pure Kept (Free result) tt
  Fills-copy_pairs source replaced result index (suc left) =
      Gives-bind Kept
        (Gives-checked Kept (Free result) (λ s p. p.0) (codes "Could not read AMQP metadata entry")
          (λ l. (api.reads l).get_map_key_value_pair source index))
        λ (key, value).
          Gives-bind Kept
            (Gives-gets Kept (Free result) (λ s. is_replaced api replaced s.library key))
            λ dropped.
              Gives-bind Kept
                (Gives-when Kept (Free result) (λ s p. p.0) (not dropped)
                  (Fills-written api stored k before could_not_copy_entry
                    (Change.put result key value) (api.set_map_value result key value)
                    (k.is_free result) (k.by_pair result key value)
                    (k.free_by_pair result key value)))
                λ _. Fills-copy_pairs source replaced result (index + 1) left

  Fills-copy_items :
      (source result : api.Value) (index left : ℕ)
      → Fills result (copy_items api source result index left)
  unfolding copy_items
  Fills-copy_items source result index zero = Gives-pure Kept (Free result) tt
  Fills-copy_items source result index (suc left) =
      Gives-bind Kept
        (Gives-gets Kept (Free result)
          (λ s. api.get_composite_item_in_place s.library source index))
        λ value.
          Gives-bind Kept
            (Fills-written api stored k before could_not_copy_entry (Change.item result index value)
              (api.set_composite_item result index value) (k.is_free result)
              (k.by_item result index value) (k.free_by_item result index value))
            λ _. Fills-copy_items source result (index + 1) left

  -- A copy is free.
  abbrev Copies : M api api.Value → Type 0
  Copies m = Gives Kept Kept m (λ v. Free v)

  Copies-filled :
      (v : api.Value) {m : M api (Unit {0})}
      → Fills v m
      → Gives Kept (Free v) (m >> pure v) (λ v. Free v)
  Copies-filled v f = Gives-bind Kept f (λ _. gives (λ s p. p))

  Copies-copy_map :
      (source : api.Value) (replaced : Option api.Value) → Copies (copy_map api source replaced)
  unfolding copy_map
  Copies-copy_map source replaced =
      Gives-bind Kept
        (Keeps-checked api stored k before (codes "Could not read AMQP metadata container")
          (λ l. (api.reads l).get_map_pair_count source))
        λ count.
          Gives-bind Kept
            (Makes-created api stored k before could_not_copy api.create_map k.by_map k.free_map)
            λ result. Copies-filled result (Fills-copy_pairs source replaced result 0 count)

  Copies-copy_composite : (source : api.Value) → Copies (copy_composite api source)
  unfolding copy_composite
  Copies-copy_composite source =
      Gives-bind Kept
        (Keeps-checked api stored k before (codes "Could not read AMQP metadata container")
          (λ l. api.get_composite_item_count l source))
        λ count.
          Gives-bind Kept
            (Keeps-gets api stored k before (λ s. api.get_inplace_descriptor s.library source))
            λ descriptor.
              Gives-bind Kept
                (Makes-created api stored k before could_not_copy
                  (api.create_composite descriptor count) (k.by_composite descriptor count)
                  (k.free_composite descriptor count))
                λ result. Copies-filled result (Fills-copy_items source result 0 count)

  pub Copies-copy :
      (source : api.Value) (replaced : Option api.Value)
      → Copies (copy_metadata_container api source replaced)
  unfolding copy_metadata_container
  Copies-copy source replaced =
      Gives-bind Kept (Keeps-gets api stored k before (λ s. (api.reads s.library).get_type source))
        λ type. either (is_map type)
    where
      either :
          (b : Bool)
          → Copies (if b then copy_map api source replaced else copy_composite api source)
      either true = Copies-copy_map source replaced
      either false = Copies-copy_composite source
