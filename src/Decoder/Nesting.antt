-- ===== src/Decoder/Nesting.antt =====
-- Described values: transparent down to the depth limit, refused below it.
use azure_uamqp_php.Prelude.{ℕ, zero, suc, ◌+◌, ◌-◌, ◌<◌, ◌≡◌, some, arith, err, ap, ◌∙◌}
use azure_uamqp_php.AmqpValue.{AmqpType, AmqpApi}
use azure_uamqp_php.Decoder.{
  nesting_exceeds, decode_typed, decode_described, decode_levels, decode_amqp_value,
}

module _ (api : AmqpApi) where
  -- `core` lies inside `k` described values, the outermost of which is `v`.
  pub data Described : ℕ → api.Value → api.Value → Type 0 where
    here : (v : api.Value) → Described zero v v
    inside :
        (k : ℕ) (v w core : api.Value)
        → api.reads.get_type v ≡ AmqpType.described
        → api.reads.get_inplace_described_value v ≡ some w
        → Described k w core
        → Described (suc k) v core

  -- Each described value takes one level.
  decode_levels-Described :
      (k n : ℕ) (v core : api.Value)
      → Described k v core
      → decode_levels api n (some v) ≡ decode_levels api (n - k) (some core)
  unfolding decode_levels
  decode_levels-Described zero n v core (here u) =
      ap (λ m. decode_levels api m (some u)) (omega arith)
  decode_levels-Described (suc k) zero v core (inside j u w c t i d) =
      ap (λ m. decode_levels api m (some c)) {x = 0} {y = 0 - suc j} (omega arith)
  decode_levels-Described (suc k) (suc n) v core (inside j u w c t i d) =
      rw (t, i, decode_typed, decode_described)
        (decode_levels-Described j n w c d ∙ ap (λ m. decode_levels api m (some c)) (omega arith))

  -- A value inside `k` described values is decoded as it would be `k` levels further down.
  pub decode_amqp_value-Described :
      (k depth : ℕ) (v core : api.Value)
      → Described k v core
      → decode_amqp_value api (some v) depth ≡ decode_amqp_value api (some core) (depth + k)
  unfolding decode_amqp_value
  decode_amqp_value-Described k depth v core d =
      decode_levels-Described k (33 - depth) v core d
      ∙ ap (λ m. decode_levels api m (some core)) (omega arith)

  -- A value inside so many described values that it is more than 32 levels down is refused, whatever
  -- it holds.
  pub decode_amqp_value-too_deep :
      (k depth : ℕ) (v core : api.Value)
      → Described k v core
      → 32 < depth + k
      → decode_amqp_value api (some v) depth ≡ err nesting_exceeds
  unfolding decode_amqp_value decode_levels
  decode_amqp_value-too_deep k depth v core d h =
      decode_levels-Described k (33 - depth) v core d
      ∙ ap (λ m. decode_levels api m (some core)) {x = 33 - depth - k} {y = 0} (omega arith)
