-- ===== src/Snowflake.antt =====
-- apps/carrier-connector/internal/id/snowflake.go. An int64 is its bit pattern, below 2 ^ 64. The
-- clock is the list of the readings that `time.Now().UnixNano()` will give, in order; a run that
-- needs more readings than the list holds gives `none`: the generator is still waiting.
pub mod Fields
pub mod Order
mod Examples
use Prim.Native.Nat.{bit_and, bit_or}
use telecom_platform.Base.{
  ℕ, ◌+◌, ◌-◌, ◌*◌, ◌/◌, ◌%◌, ◌^◌, Option, none, some, List, [], ◌∷◌, ltb, leb, ◌==◌, if◌then◌else◌,
  u64, ◌||◌,
}

abbrev pub epoch : ℕ
epoch = 1577836800000

abbrev pub node_id_bits : ℕ
node_id_bits = 5

abbrev pub sequence_bits : ℕ
sequence_bits = 12

-- `-1 ^ (-1 << bits)`.
abbrev pub max_node_id : ℕ
max_node_id = 2 ^ node_id_bits - 1

abbrev pub max_sequence : ℕ
max_sequence = 2 ^ sequence_bits - 1

abbrev pub node_shift : ℕ
node_shift = sequence_bits

abbrev pub time_shift : ℕ
time_shift = sequence_bits + node_id_bits

pub record Snowflake : Type 0 where
  pub timestamp : ℕ
  pub node_id : ℕ
  pub sequence : ℕ

-- `none` is the error on a node ID out of range; a negative one is a pattern of 2 ^ 63 or more.
unfoldable pub new_snowflake : ℕ → Option Snowflake
new_snowflake node =
    if leb (2 ^ 63) node || ltb max_node_id node
    then none
    else some (record { timestamp = 0; node_id = node; sequence = 0 })

-- `<<` on int64.
abbrev pub shl : ℕ → ℕ → ℕ
shl x k = u64 (x * 2 ^ k)

-- `>>` on int64: a negative number keeps its sign.
abbrev pub sar : ℕ → ℕ → ℕ
sar x k = if ltb x (2 ^ 63) then x / 2 ^ k else 2 ^ 64 - 1 - (2 ^ 64 - 1 - x) / 2 ^ k

-- The value that `Generate` returns.
unfoldable pub compose : ℕ → ℕ → ℕ → ℕ
compose now node seq =
    bit_or (bit_or (shl (u64 (now + 2 ^ 64 - epoch)) time_shift) (shl node node_shift)) seq

-- `time.Now().UnixNano() / 1e6`.
abbrev pub millis : ℕ → ℕ
millis ns = ns / 1000000

-- `for now <= s.timestamp { now = … }`: the reading that ends the wait, and those after it.
unfoldable pub wait_after : ℕ → ℕ → List ℕ → Option (ℕ × List ℕ)
wait_after timestamp now [] = if leb now timestamp then none else some (now, [])
wait_after timestamp now (r ∷ clock) =
    let rest = wait_after timestamp (millis r) clock in
    if leb now timestamp then rest else some (now, r ∷ clock)

-- The end of `Generate`: the state with the new time and sequence, and its value.
unfoldable pub emit : Snowflake → ℕ → ℕ → ℕ × Snowflake
emit s now seq = (compose now s.node_id seq, record s { timestamp = now; sequence = seq })

emit_at : Snowflake → ℕ → Option (ℕ × List ℕ) → Option (ℕ × Snowflake × List ℕ)
emit_at s seq none = none
emit_at s seq (some (now, clock)) = let (id, s') = emit s now seq in some (id, s', clock)

unfoldable pub generate : Snowflake → List ℕ → Option (ℕ × Snowflake × List ℕ)
unfolding emit_at emit
generate s [] = none
generate s (r ∷ clock) =
    let now = millis r in
    let seq = bit_and (s.sequence + 1) max_sequence in
    if s.timestamp == now
    then (if seq == 0
        then emit_at s seq (wait_after s.timestamp now clock)
        else emit_at s seq (some (now, clock)))
    else emit_at s 0 (some (now, clock))

pub record Parts : Type 0 where
  pub timestamp : ℕ
  pub node_id : ℕ
  pub sequence : ℕ

unfoldable pub parse : ℕ → Parts
parse id = record {
  timestamp = u64 (sar id time_shift + epoch);
  node_id = bit_and (sar id node_shift) max_node_id;
  sequence = bit_and id max_sequence;
}

-- `/` and `%` on int64, which round towards zero.
abbrev pub quo : ℕ → ℕ → ℕ
quo x m = if ltb x (2 ^ 63) then x / m else u64 (2 ^ 64 - (2 ^ 64 - x) / m)

abbrev pub rem : ℕ → ℕ → ℕ
rem x m = if ltb x (2 ^ 63) then x % m else u64 (2 ^ 64 - (2 ^ 64 - x) % m)

-- The seconds and nanoseconds that `Time` hands to `time.Unix`.
unfoldable pub time : ℕ → ℕ × ℕ
unfolding parse
time id =
    let timestamp = (parse id).timestamp in (quo timestamp 1000, u64 (rem timestamp 1000 * 1000000))

unfoldable pub node_id : ℕ → ℕ
unfolding parse
node_id id = (parse id).node_id

unfoldable pub sequence : ℕ → ℕ
unfolding parse
sequence id = (parse id).sequence
