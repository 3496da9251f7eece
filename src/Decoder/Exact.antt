-- ===== src/Decoder/Exact.antt =====
-- Unsigned integers and UUIDs keep their value.
use azure_uamqp_php.Prelude.{ℕ, ◌-◌, ◌≤◌, ◌<◌, ◌^◌, ◌≡◌, some, arith, ok, refl, suc, All}
use azure_uamqp_php.Prelude.Int.{pos}
use azure_uamqp_php.Prelude.Decimal.{value-decimal, decimal_digits, IsDigit, value_onto}
use azure_uamqp_php.AmqpValue.{AmqpType, AmqpApi}
use azure_uamqp_php.Decoder.Data.{Decoded}
use azure_uamqp_php.Decoder.{decode_ulong, decode_typed, decode_levels, decode_amqp_value}

module _ (api : AmqpApi) where
  abbrev pub KeepsUlong : ℕ → Decoded api.Double → Type 0
  KeepsUlong n (Decoded.integer (pos m)) = (n < 2 ^ 63) × (m ≡ n)
  KeepsUlong n (Decoded.string t) = (2 ^ 63 ≤ n) × All IsDigit t × (value_onto 0 t ≡ n)
  KeepsUlong n _ = ⊥

  KeepsUlong-decode_ulong : (n : ℕ) → KeepsUlong n (decode_ulong n)
  unfolding decode_ulong
  KeepsUlong-decode_ulong n = ground (arith, value-decimal n, decimal_digits n)

  -- A value of type ULONG, at most 32 levels down, whose getter succeeds is decoded to that integer if `int64_t` holds it, and otherwise to
  -- decimal digits that stand for it.
  pub decode_amqp_value-ulong :
      (v : api.Value) (n depth : ℕ)
      → depth ≤ 32
      → api.reads.get_type v ≡ AmqpType.ulong
      → api.reads.get_ulong v ≡ some n
      → (d : Decoded api.Double) × (decode_amqp_value api (some v) depth ≡ ok d) × KeepsUlong n d
  unfolding decode_amqp_value decode_levels decode_typed
  decode_amqp_value-ulong v n depth h t g =
      let levels : 33 - depth ≡ suc (32 - depth) = omega arith in
      (decode_ulong n, rw (levels, t, g) refl, KeepsUlong-decode_ulong n)
