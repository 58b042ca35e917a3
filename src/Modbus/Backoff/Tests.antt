-- ===== src/Modbus/Backoff/Tests.antt =====
-- src/lib/modbus/modbus-backoff.ts at a concrete history.
use bbcom.Base.{◌+◌, ◌-◌, ◌*◌, ◌^◌, ◌≤◌, ◌≡◌, refl, some, List, [], ◌∷◌, ltb, max, if◌then◌else◌}
use bbcom.Base.Number.{Unknown, number, other, of_ℕ}
use bbcom.Modbus.Backoff.{
  ModbusBackoffOptions, new_backoff, positive_integer, Outcome, failed, succeeded, record_outcomes,
  Scale, between, delay_for,
}
use bbcom.Modbus.Backoff.Delay.{failures_from, record_outcomes-delay}

abbrev doubled : Scale
doubled base multiplier exponent = some (base * 2 ^ exponent)

abbrev options : ModbusBackoffOptions
options = record {
  failure_threshold = other;
  multiplier = other;
  max_delay_ms = number (of_ℕ 5000);
}

abbrev misses : List Outcome
misses = failed ∷ succeeded ∷ failed ∷ failed ∷ failed ∷ []

abbrev second : Unknown
second = number (of_ℕ 1000)

delay_test : delay_for doubled (record_outcomes misses (new_backoff options)) second ≡ 4000
unfolding delay_for new_backoff record_outcomes
delay_test = refl

record_outcomes-delay_example :
    (positive_integer second 1
      ≤ delay_for doubled (record_outcomes misses (new_backoff options)) second)
    × (delay_for doubled (record_outcomes misses (new_backoff options)) second
        ≤ max (positive_integer second 1) (positive_integer options.max_delay_ms 30_000))
    × (delay_for doubled (record_outcomes misses (new_backoff options)) second ≡ (
        if ltb (failures_from 0 misses) (positive_integer options.failure_threshold 2)
        then positive_integer second 1
        else between
            (positive_integer second 1)
            (max (positive_integer second 1) (positive_integer options.max_delay_ms 30_000))
            (doubled
              (positive_integer second 1)
              (new_backoff options).multiplier
              (failures_from 0 misses - positive_integer options.failure_threshold 2 + 1))))
record_outcomes-delay_example = record_outcomes-delay doubled options misses second
