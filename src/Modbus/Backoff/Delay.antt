-- ===== src/Modbus/Backoff/Delay.antt =====
-- The delays of src/lib/modbus/modbus-backoff.ts behind a history of outcomes.
use bbcom.Base.{
  ℕ, ◌+◌, ◌-◌, ◌≤◌, ◌≡◌, refl, ap, sym, subst, ◌∙◌, Option, none, some, List, [], ◌∷◌, arith, ltb,
  max, if◌then◌else◌,
}
use bbcom.Base.Number.{Unknown}
use bbcom.Modbus.Backoff.{
  ModbusBackoff, ModbusBackoffOptions, new_backoff, positive_integer, Outcome, failed, succeeded,
  record_failure, record_success, record_outcome, record_outcomes, reset, Scale, between,
  is_backing_off, delay_for,
}

-- The number of failures at the end of a history, if there are `n` before it.
abbrev pub failures_from : ℕ → List Outcome → ℕ
failures_from n [] = n
failures_from n (failed ∷ outcomes) = failures_from (n + 1) outcomes
failures_from n (succeeded ∷ outcomes) = failures_from 0 outcomes

record_outcomes-lem :
    (outcomes : List Outcome) (b : ModbusBackoff)
    → record_outcomes outcomes b
      ≡ record b { consecutive_failures = failures_from b.consecutive_failures outcomes }
unfolding record_outcomes record_outcome record_failure record_success reset
record_outcomes-lem [] b = refl
record_outcomes-lem (failed ∷ outcomes) b = record_outcomes-lem outcomes (record_failure b)
record_outcomes-lem (succeeded ∷ outcomes) b = record_outcomes-lem outcomes (record_success b)

between-bounds :
    (low high : ℕ) (delay : Option ℕ)
    → low ≤ high
    → (low ≤ between low high delay) × (between low high delay ≤ high)
unfolding between
between-bounds low high none h = omega arith
between-bounds low high (some delay) h = omega arith

module _ (scale : Scale) where
  delay_for-bounds :
      (b : ModbusBackoff) (base_delay_ms : Unknown)
      → (positive_integer base_delay_ms 1 ≤ delay_for scale b base_delay_ms)
        × (delay_for scale b base_delay_ms ≤ max (positive_integer base_delay_ms 1) b.max_delay_ms)
  unfolding delay_for is_backing_off
  delay_for-bounds b base_delay_ms =
      let base = positive_integer base_delay_ms 1 in
      ground (
        arith,
        between-bounds base (max base b.max_delay_ms)
            (scale base b.multiplier (b.consecutive_failures - b.failure_threshold + 1))
            (omega arith),
      )

  -- After any outcomes on a new policy, the delay is at least the base delay and at most the larger
  -- of the base delay and the configured one. It is the base delay if fewer failures than the threshold have come
  -- since the last success, and else the product with the multiplier to the power of one and the
  -- failures beyond the threshold, kept within these bounds.
  pub record_outcomes-delay :
      (options : ModbusBackoffOptions) (outcomes : List Outcome) (base_delay_ms : Unknown)
      → (positive_integer base_delay_ms 1
          ≤ delay_for scale (record_outcomes outcomes (new_backoff options)) base_delay_ms)
        × (delay_for scale (record_outcomes outcomes (new_backoff options)) base_delay_ms
            ≤ max (positive_integer base_delay_ms 1) (positive_integer options.max_delay_ms 30_000))
        × (delay_for scale (record_outcomes outcomes (new_backoff options)) base_delay_ms ≡ (
            if ltb (failures_from 0 outcomes) (positive_integer options.failure_threshold 2)
            then positive_integer base_delay_ms 1
            else between
                (positive_integer base_delay_ms 1)
                (max
                  (positive_integer base_delay_ms 1)
                  (positive_integer options.max_delay_ms 30_000))
                (scale
                  (positive_integer base_delay_ms 1)
                  (new_backoff options).multiplier
                  (failures_from 0 outcomes - positive_integer options.failure_threshold 2 + 1))))
  unfolding delay_for is_backing_off new_backoff
  record_outcomes-delay options outcomes base_delay_ms =
      let b = record (new_backoff options) { consecutive_failures = failures_from 0 outcomes } in
      let same = record_outcomes-lem outcomes (new_backoff options) in
      let (low, high) = delay_for-bounds b base_delay_ms in
      (
        subst (λ c. positive_integer base_delay_ms 1 ≤ delay_for scale c base_delay_ms) (sym same)
            low,
        subst
            (λ c.
              delay_for scale c base_delay_ms
              ≤ max (positive_integer base_delay_ms 1)
                  (positive_integer options.max_delay_ms 30_000))
            (sym same) high,
        ap (λ c. delay_for scale c base_delay_ms) same ∙ ground arith,
      )
