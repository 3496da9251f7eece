-- ===== src/Message/Nested.antt =====
-- Message.cpp, `get_metadata_map`: the map inside described values.
use azure_uamqp_php.Prelude.{
  ℕ, zero, suc, ltb, ◌≡◌, ◌∙◌, refl, none, some, arith, codes, err, ok, if◌then◌else◌,
}
use azure_uamqp_php.AmqpValue.{AmqpType, AmqpApi}
use azure_uamqp_php.Decoder.Nesting.{Described, here, inside}
use azure_uamqp_php.Runtime.Library.{Thrown}
use azure_uamqp_php.Message.Library.{MessageApi, values_at}
use azure_uamqp_php.Message.State.{State}
use azure_uamqp_php.Message.Metadata.{unwrap, only_map, get_metadata_map}

module _ (api : AmqpApi) where
  unwrap-Described :
      (k left : ℕ) (v core : api.Value)
      → Described api k v core
      → api.reads.get_type core ≡ AmqpType.map
      → only_map api.reads (unwrap api.reads left (some v))
        ≡ (if ltb left k then none else some core)
  unfolding unwrap
  unwrap-Described zero zero v core (here u) m = rw m refl
  unwrap-Described zero (suc left) v core (here u) m = rw m (rw m (shallow left))
    where
      shallow : (n : ℕ) → some u ≡ (if ltb (suc n) 0 then none else some u)
      shallow n = ground arith
  unwrap-Described (suc k) zero v core (inside j u w c t i d) m = rw t (deep k)
    where
      deep : (n : ℕ) → none ≡ (if ltb 0 (suc n) then none else some core)
      deep n = ground arith
  unwrap-Described (suc k) (suc left) v core (inside j u w c t i d) m =
      rw (t, i) (unwrap-Described j left w c d m ∙ same)
    where
      same :
          (if ltb left k then none else some core)
          ≡ (if ltb (suc left) (suc k) then none else some core)
      same = ground arith

module _ (api : MessageApi) where
  -- For a map inside `k` described values: `get_metadata_map` finds that map if `k` is at most 32, and
  -- throws otherwise; nothing is changed.
  pub get_metadata_map-Described :
      (k : ℕ) (v map : api.Value) (s : State api.Library api.Value api.Properties api.Handle)
      → Described (values_at api s.library) k v map
      → (api.reads s.library).get_type map ≡ AmqpType.map
      → get_metadata_map api (some v) s ≡ (
        (if ltb 32 k
            then err (Thrown.extension (codes "AMQP message metadata must contain a map"))
            else ok map),
        s,
      )
  unfolding get_metadata_map
  get_metadata_map-Described k v map s d m =
      rw (unwrap-Described (values_at api s.library) k 32 v map d m) (ground arith)
