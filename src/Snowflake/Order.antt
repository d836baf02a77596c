-- ===== src/Snowflake/Order.antt =====
-- apps/carrier-connector/internal/id/snowflake.go: IDs generated one after another.
use Prim.Native.Nat.{bit_and}
use mathlib.Core.Option
use telecom_platform.Base.{
  ℕ, zero, suc, ◌+◌, ◌^◌, ◌≤◌, ◌<◌, ◌≡◌, refl, ◌⊎◌, inl, inr, ◌≢◌, ◌==◌, leb, Option, none, some,
  List, [], ◌∷◌, ◌++◌, arith, Bool-cases, Option-cases, bit_and-mod,
}
use telecom_platform.Snowflake.{
  Snowflake, millis, wait_after, emit, generate, compose, epoch, max_sequence,
}
use telecom_platform.Snowflake.Fields.{compose_sum}

-- The readings of a clock that never goes back, from `low` on, and that stays in the 69 years from
-- the epoch that the time field holds.
abbrev pub Ticks : ℕ → List ℕ → Type 0
Ticks low [] = Unit {0}
Ticks low (r ∷ clock) =
    (low ≤ millis r) × (epoch ≤ millis r) × (millis r < epoch + 2 ^ 46) × Ticks (millis r) clock

pub record IsValid (s : Snowflake) : Type 0 where
  pub node : s.node_id < 32
  pub sequence : s.sequence < 4096

-- A wait ends by a reading after `timestamp`, and the readings that are left come later still.
wait_after-Ticks :
    (timestamp now : ℕ) (clock : List ℕ) (n : ℕ) (rest : List ℕ)
    → wait_after timestamp now clock ≡ some (n, rest)
    → epoch ≤ now
    → now < epoch + 2 ^ 46
    → Ticks now clock
    → (timestamp < n) × (epoch ≤ n) × (n < epoch + 2 ^ 46) × Ticks n rest
unfolding wait_after
wait_after-Ticks timestamp now [] n rest h e w t = ground arith
wait_after-Ticks timestamp now (r ∷ clock) n rest h e w t =
    ground (arith, wait_after-Ticks timestamp (millis r) clock n rest)

-- What one ID is, and how the state moves on: the time is later, or the same with a later sequence.
pub record Next (s : Snowflake) (id : ℕ) (s' : Snowflake) (rest : List ℕ) : Type 0 where
  pub value : id ≡ compose s'.timestamp s'.node_id s'.sequence
  pub node : s'.node_id ≡ s.node_id
  pub sequence : s'.sequence < 4096
  pub advance :
      (s.timestamp < s'.timestamp) ⊎ ((s.timestamp ≡ s'.timestamp) × (s.sequence < s'.sequence))
  pub after_epoch : epoch ≤ s'.timestamp
  pub fits : s'.timestamp < epoch + 2 ^ 46
  pub ticks : Ticks s'.timestamp rest

generate-Next :
    (s : Snowflake) (clock : List ℕ) (id : ℕ) (s' : Snowflake) (rest : List ℕ)
    → IsValid s
    → Ticks s.timestamp clock
    → generate s clock ≡ some (id, s', rest)
    → Next s id s' rest
unfolding generate
generate-Next s [] id s' rest v t h = ground arith
generate-Next s (r ∷ clock) id s' rest v t h =
    elim (Option-cases (wait_after s.timestamp (millis r) clock)) [
      | inl e ↦ ground (arith, bit_and-mod 12 (s.sequence + 1))
      | inr ((n, left), e) ↦ ground (
        arith,
        bit_and-mod 12 (s.sequence + 1),
        wait_after-Ticks s.timestamp (millis r) clock n left,
      )
    ]

-- `n` IDs in a row.
unfoldable pub take_ids : ℕ → Snowflake → List ℕ → Option (List ℕ)
take_ids zero s clock = some []
take_ids (suc n) s clock = elim (generate s clock) [
  | none ↦ none
  | some (id, s', rest) ↦ Option.map (λ ids. id ∷ ids) (take_ids n s' rest)
]

-- Each element is above the one before it, and the first is above `low`.
abbrev pub IsIncreasing : ℕ → List ℕ → Type 0
IsIncreasing low [] = Unit {0}
IsIncreasing low (id ∷ ids) = (low < id) × IsIncreasing id ids

-- A later state makes a greater ID.
Next-lt :
    (s s' : Snowflake) (id : ℕ) (rest : List ℕ)
    → IsValid s
    → epoch ≤ s.timestamp
    → s.timestamp < epoch + 2 ^ 46
    → Next s id s' rest
    → compose s.timestamp s.node_id s.sequence < id
Next-lt s s' id rest v e w nx = omega (
  arith,
  compose_sum s.timestamp s.node_id s.sequence e w v.node v.sequence,
  compose_sum s'.timestamp s'.node_id s'.sequence nx.after_epoch nx.fits (omega (arith, nx.node))
      nx.sequence,
)

-- One more ID before a list of them.
Option-map_cons :
    (id : ℕ) (found : Option (List ℕ)) (ids : List ℕ)
    → Option.map (λ more. id ∷ more) found ≡ some ids
    → (more : List ℕ) × (found ≡ some more) × (ids ≡ id ∷ more)
Option-map_cons id none ids h = ground arith
Option-map_cons id (some more) ids h = (more, refl, ground arith)

Next-IsValid :
    (s s' : Snowflake) (id : ℕ) (rest : List ℕ) → IsValid s → Next s id s' rest → IsValid s'
Next-IsValid s s' id rest v nx = record {
  node = omega (arith, v.node, nx.node);
  sequence = nx.sequence;
}

take_ids-above :
    (n : ℕ) (s : Snowflake) (clock ids : List ℕ)
    → IsValid s
    → Ticks s.timestamp clock
    → take_ids n s clock ≡ some ids
    → (low : ℕ) → ((id : ℕ) (s' : Snowflake) (rest : List ℕ) → Next s id s' rest → low < id)
    → IsIncreasing low ids
unfolding take_ids
take_ids-above zero s clock [] v t h low first = tt
take_ids-above zero s clock (id ∷ ids) v t h low first = ground arith
take_ids-above (suc n) s clock ids v t h low first = elim (Option-cases (generate s clock)) [
  | inl e ↦ let e' = rw (e, take_ids) at h in cc
  | inr ((id, s', rest), e) ↦
      let nx = generate-Next s clock id s' rest v t e in
      let (more, found, whole) =
        Option-map_cons id (take_ids n s' rest) ids (rw (e, take_ids) at h) in
      let v' = Next-IsValid s s' id rest v nx in
      rw whole (
        first id s' rest nx,
        take_ids-above n s' rest more v' nx.ticks found id (λ id' s'' rest' nx'.
            rw nx.value (Next-lt s' s'' id' rest' v' nx.after_epoch nx.fits nx')),
      )
]

-- IDs that one generator makes while its clock does not go back are strictly increasing, so no ID
-- is made twice, also where many are made in one millisecond.
pub take_ids-IsIncreasing :
    (n : ℕ) (s : Snowflake) (clock ids : List ℕ)
    → IsValid s
    → epoch ≤ s.timestamp
    → s.timestamp < epoch + 2 ^ 46
    → Ticks s.timestamp clock
    → take_ids n s clock ≡ some ids
    → IsIncreasing (compose s.timestamp s.node_id s.sequence) ids
take_ids-IsIncreasing n s clock ids v e w t h =
    take_ids-above n s clock ids v t h _ (λ id s' rest nx. Next-lt s s' id rest v e w nx)

wait_after_returns :
    (timestamp now r : ℕ) (before after : List ℕ)
    → timestamp < millis r
    → (n : ℕ) × (rest : List ℕ) × (wait_after timestamp now (before ++ r ∷ after) ≡ some (n, rest))
unfolding wait_after
wait_after_returns timestamp now r [] [] h = elim (Bool-cases (leb now timestamp)) [
  | inl e ↦ (millis r, [], ground arith)
  | inr e ↦ (now, r ∷ [], ground arith)
]
wait_after_returns timestamp now r [] (a ∷ after) h = elim (Bool-cases (leb now timestamp)) [
  | inl e ↦ (millis r, a ∷ after, ground arith)
  | inr e ↦ (now, r ∷ a ∷ after, ground arith)
]
wait_after_returns timestamp now r (b ∷ before) after h = elim (Bool-cases (leb now timestamp)) [
  | inl e ↦
      let (n, rest, q) = wait_after_returns timestamp (millis b) r before after h in
      (n, rest, rw (e, wait_after) q)
  | inr e ↦ (now, b ∷ before ++ r ∷ after, rw e)
]

-- `Generate` returns an ID once its clock shows a later millisecond, however many readings that
-- takes: the wait on a sequence that has run over ends.
pub generate_returns :
    (s : Snowflake) (first r : ℕ) (before after : List ℕ)
    → s.timestamp < millis r
    → (id : ℕ) × (s' : Snowflake) × (rest : List ℕ) × (generate s (first ∷ before ++ r ∷ after)
        ≡ some (id, s', rest))
unfolding generate
generate_returns s first r before after h =
    let (n, rest, q) = wait_after_returns s.timestamp (millis first) r before after h in
    let seq = bit_and (s.sequence + 1) max_sequence in
    elim (Bool-cases (s.timestamp == millis first)) [
      | inr e ↦ (
        (emit s (millis first) 0).0,
        (emit s (millis first) 0).1,
        before ++ r ∷ after,
        ground arith,
      )
      | inl e ↦ elim (Bool-cases (seq == 0)) [
        | inl z ↦ ((emit s n seq).0, (emit s n seq).1, rest, ground arith)
        | inr z ↦ (
          (emit s (millis first) seq).0,
          (emit s (millis first) seq).1,
          before ++ r ∷ after,
          ground arith,
        )
      ]
    ]

-- Nothing keeps IDs apart when the clock goes back: if it reads a millisecond, then an earlier one,
-- then the first again, the third ID is the first one, whatever the generator's state was before
-- (its time being another than the first reading).
pub clock_back_repeats :
    (s : Snowflake) (t u : ℕ)
    → s.timestamp ≢ millis t
    → millis u < millis t
    → let id = compose (millis t) s.node_id 0 in
      take_ids 3 s (t ∷ u ∷ t ∷ []) ≡ some (id ∷ compose (millis u) s.node_id 0 ∷ id ∷ [])
unfolding take_ids generate
clock_back_repeats s t u ne lt = ground arith
