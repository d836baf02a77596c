-- ===== src/Snowflake/Examples.antt =====
-- Witnesses and tests for apps/carrier-connector/internal/id/snowflake.go.
use telecom_platform.Base.{ℕ, ◌+◌, ◌*◌, ◌≡◌, refl, none, some, List, [], ◌∷◌, arith}
use telecom_platform.Snowflake.{
  Snowflake, epoch, compose, parse, time, wait_after, generate, new_snowflake,
}
use telecom_platform.Snowflake.Fields.{compose_sum, parse-compose, time-compose}
use telecom_platform.Snowflake.Order.{
  take_ids, IsIncreasing, take_ids-IsIncreasing, generate_returns, clock_back_repeats,
}

-- A day after the epoch.
abbrev day : ℕ
day = epoch + 86400000

abbrev nanos : ℕ → ℕ
nanos ms = ms * 1000000

abbrev busy : Snowflake
busy = record { timestamp = day; node_id = 1; sequence = 4094 }

new_snowflake_range : new_snowflake 32 ≡ none
unfolding new_snowflake
new_snowflake_range = refl

compose_sum_example : compose day 3 7 ≡ 86400000 * 131072 + 3 * 4096 + 7
compose_sum_example = compose_sum day 3 7 (omega arith) (omega arith) (omega arith) (omega arith)

parse-compose_example :
    parse (compose day 3 7) ≡ record { timestamp = day; node_id = 3; sequence = 7 }
parse-compose_example =
    parse-compose day 3 7 (omega arith) (omega arith) (omega arith) (omega arith)

time-compose_example :
    (time (compose day 3 7)).0 * 1000000000 + (time (compose day 3 7)).1 ≡ day * 1000000
time-compose_example = time-compose day 3 7 (omega arith) (omega arith) (omega arith) (omega arith)

-- The second ID uses up the sequence: the third waits for the next millisecond.
abbrev clock : List ℕ
clock = nanos day ∷ nanos day ∷ nanos day ∷ nanos (day + 1) ∷ []

busy_ids : List ℕ
unfolding compose
busy_ids = compose day 1 4095 ∷ compose (day + 1) 1 0 ∷ []

busy_takes : take_ids 2 busy clock ≡ some busy_ids
unfolding take_ids generate compose wait_after busy_ids
busy_takes = refl

take_ids-IsIncreasing_example : IsIncreasing (compose day 1 4094) busy_ids
take_ids-IsIncreasing_example =
    take_ids-IsIncreasing 2 busy clock busy_ids (omega arith) (omega arith) (omega arith)
      (omega arith) busy_takes

generate_returns_example :
    (id : ℕ) × (s' : Snowflake) × (rest : List ℕ) × (generate
        (record busy { sequence = 4095 })
        (nanos day ∷ nanos day ∷ nanos (day + 1) ∷ [])
      ≡ some (id, s', rest))
generate_returns_example =
    generate_returns (record busy { sequence = 4095 }) (nanos day) (nanos (day + 1))
      (nanos day ∷ []) [] (omega arith)

clock_back_repeats_example :
    take_ids 3 busy (nanos (day + 5) ∷ nanos day ∷ nanos (day + 5) ∷ [])
    ≡ some (compose (day + 5) 1 0 ∷ compose day 1 0 ∷ compose (day + 5) 1 0 ∷ [])
clock_back_repeats_example =
    clock_back_repeats busy (nanos (day + 5)) (nanos day) (λ e. omega arith) (omega arith)
