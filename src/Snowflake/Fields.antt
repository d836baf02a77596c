-- ===== src/Snowflake/Fields.antt =====
-- apps/carrier-connector/internal/id/snowflake.go: the layout of an ID, and `Parse` after it.
use telecom_platform.Base.{
  ℕ, ◌+◌, ◌-◌, ◌*◌, ◌/◌, ◌^◌, ◌≤◌, ◌<◌, ◌≡◌, ap, arith, bit_or-add, bit_and-mod,
}
use telecom_platform.Snowflake.{Parts, compose, parse, epoch, time}

module _ (now node seq : ℕ) (after_epoch : epoch ≤ now) (fits : now < epoch + 2 ^ 46)
    (small_node : node < 32) (small_seq : seq < 4096) where
  -- While the time since the epoch fits 46 bits, the node 5 and the sequence 12, the three fields
  -- of an ID do not overlap: it is their sum at their places.
  pub compose_sum : compose now node seq ≡ (now - epoch) * 131072 + node * 4096 + seq
  unfolding compose
  compose_sum = ground (
    arith,
    bit_or-add 17 (now - epoch) (node * 4096) (omega arith),
    bit_or-add 12 ((now - epoch) * 32 + node) seq (omega arith),
  )

  -- `Parse` gives back the time, the node and the sequence that an ID was made of.
  pub parse-compose :
      parse (compose now node seq) ≡ record { timestamp = now; node_id = node; sequence = seq }
  unfolding parse
  parse-compose = ground (
    arith,
    compose_sum,
    bit_and-mod 5 (compose now node seq / 4096),
    bit_and-mod 12 (compose now node seq),
  )

  -- `Time` of an ID is the instant, to the millisecond, at which it was made.
  pub time-compose :
      (time (compose now node seq)).0 * 1000000000 + (time (compose now node seq)).1 ≡ now * 1000000
  unfolding time
  time-compose = ground (arith, ap (λ (p : Parts). p.timestamp) parse-compose)
