-- ===== src/Modbus/Backoff.antt =====
-- src/lib/modbus/modbus-backoff.ts: the delay between the rounds of a periodic loop.
-- The floating-point product is a parameter: it has a natural number, or none for Infinity.
mod Delay
mod Tests
use bbcom.Base.{
  ℕ, ◌+◌, ◌-◌, Bool, not, Option, none, some, List, [], ◌∷◌, leb, if◌then◌else◌, min, max,
}
use bbcom.Base.Number.{Number, Unknown, number, finite, is_finite, at_most, to_ℕ, of_ℕ}

pub record ModbusBackoffOptions : Type 0 where
  pub failure_threshold : Unknown
  pub multiplier : Unknown
  pub max_delay_ms : Unknown

pub record ModbusBackoff : Type 0 where
  pub consecutive_failures : ℕ
  pub failure_threshold : ℕ
  pub multiplier : Number
  pub max_delay_ms : ℕ

unfoldable pub positive_integer : Unknown → ℕ → ℕ
positive_integer (number (finite n f)) fallback =
    if at_most (finite n f) 0 then fallback else max 1 (to_ℕ n)
positive_integer _ fallback = fallback

unfoldable pub positive_number : Unknown → Number → Number
positive_number (number v) fallback =
    if not (is_finite v) then fallback else (if at_most v 0 then fallback else v)
positive_number _ fallback = fallback

unfoldable pub new_backoff : ModbusBackoffOptions → ModbusBackoff
unfolding positive_integer positive_number
new_backoff options = record {
  consecutive_failures = 0;
  failure_threshold = positive_integer options.failure_threshold 2;
  multiplier = positive_number options.multiplier (of_ℕ 2);
  max_delay_ms = positive_integer options.max_delay_ms 30_000;
}

unfoldable pub record_failure : ModbusBackoff → ModbusBackoff
record_failure b = record b { consecutive_failures = b.consecutive_failures + 1 }

unfoldable pub reset : ModbusBackoff → ModbusBackoff
reset b = record b { consecutive_failures = 0 }

unfoldable pub record_success : ModbusBackoff → ModbusBackoff
unfolding reset
record_success b = reset b

unfoldable pub is_backing_off : ModbusBackoff → Bool
is_backing_off b = leb b.failure_threshold b.consecutive_failures

-- `Math.round(base * multiplier ** exponent)` of positive numbers.
abbrev pub Scale : Type 0
Scale = ℕ → Number → ℕ → Option ℕ

-- `Math.min(high, Math.max(low, delay))`
unfoldable pub between : ℕ → ℕ → Option ℕ → ℕ
between low high none = high
between low high (some delay) = min high (max low delay)

unfoldable pub delay_for : Scale → ModbusBackoff → Unknown → ℕ
unfolding positive_integer is_backing_off between
delay_for scale b base_delay_ms =
    let base = positive_integer base_delay_ms 1 in
    let exponent = b.consecutive_failures - b.failure_threshold + 1 in
    if not (is_backing_off b)
    then base
    else between base (max base b.max_delay_ms) (scale base b.multiplier exponent)

pub data Outcome : Type 0 where
  failed : Outcome
  succeeded : Outcome

unfoldable pub record_outcome : Outcome → ModbusBackoff → ModbusBackoff
unfolding record_failure record_success
record_outcome failed b = record_failure b
record_outcome succeeded b = record_success b

unfoldable pub record_outcomes : List Outcome → ModbusBackoff → ModbusBackoff
unfolding record_outcome
record_outcomes [] b = b
record_outcomes (o ∷ outcomes) b = record_outcomes outcomes (record_outcome o b)
