-- ===== src/Decoder/Step.antt =====
-- One level of the decoder: the recursion equation of `decode_amqp_value`.
use azure_uamqp_php.Prelude.{suc, ◌+◌, ◌-◌, ◌≤◌, ◌≡◌, ℕ, Option, some, arith, ap}
use azure_uamqp_php.AmqpValue.{AmqpApi}
use azure_uamqp_php.Decoder.{Decoding, decode_typed, decode_levels, decode_amqp_value}

module _ (api : AmqpApi) where
  -- The decoder, called for a value inside one at `depth`.
  abbrev pub deeper : ℕ → Option api.Value → Decoding api.Double
  deeper depth v = decode_amqp_value api v (depth + 1)

  pub decode_amqp_value-step :
      (v : api.Value) (depth : ℕ)
      → depth ≤ 32
      → decode_amqp_value api (some v) depth
        ≡ decode_typed api (deeper depth) v (api.reads.get_type v)
  unfolding decode_amqp_value decode_levels
  decode_amqp_value-step v depth h =
      let levels : 33 - depth ≡ suc (32 - depth) = omega arith in
      rw levels (
        ap (λ m. decode_typed api (decode_levels api m) v (api.reads.get_type v)) {x = 32 - depth}
          {y = 33 - (depth + 1)} (omega arith))
