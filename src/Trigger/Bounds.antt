-- ===== src/Trigger/Bounds.antt =====
-- The memory that src/lib/trigger-engine.ts holds on to.
use bbcom.Base.{ℕ, ◌+◌, ◌≤◌, ◌≡◌, refl, List, [], ◌∷◌, ◌++◌, arith, length, ◌==◌}
use bbcom.Base.Sort.{if-both}
use bbcom.Trigger.Hex.{Bytes}
use bbcom.Trigger.Tail.{length-keep_last}
use bbcom.Trigger.{
  Trigger, TextDecoder, Engine, limits_from, new_engine, set_triggers, reset, feed, feed_checked,
}

-- A call of a method of the engine.
pub data Call : Type 0 where
  feeds : ℕ → Bytes → Call
  sets : List Trigger → Call
  resets : Call

module _ (decoder : TextDecoder) where
  open decoder use {decode}

  abbrev pub after_call : Call → Engine decoder → Engine decoder
  after_call (feeds now bytes) e = (feed decoder now bytes e).1
  after_call (sets triggers) e = set_triggers decoder triggers e
  after_call resets e = reset decoder e

  abbrev pub after_calls : List Call → Engine decoder → Engine decoder
  after_calls [] e = e
  after_calls (call ∷ calls) e = after_calls calls (after_call call e)

  -- The tails are at most one longer than the longest pattern of the triggers that are set.
  abbrev pub IsBounded : Engine decoder → Type 0
  IsBounded e =
      (length e.byte_tail ≤ e.max_byte_pattern_len + 1)
      × (length e.text_tail ≤ e.max_text_pattern_len + 1)
      × (e.max_byte_pattern_len ≡ (limits_from 1 1 e.triggers).0)
      × (e.max_text_pattern_len ≡ (limits_from 1 1 e.triggers).1)

  after_call-IsBounded :
      (call : Call) (e : Engine decoder) → IsBounded e → IsBounded (after_call call e)
  unfolding feed feed_checked set_triggers reset
  after_call-IsBounded (feeds now bytes) e (b, t, mb, mt) =
      if-both (λ r. IsBounded (r.1)) (length e.triggers == 0) ([], e)
        (feed_checked decoder now bytes e) (λ none_left. (b, t, mb, mt))
        (λ some_left. (
          length-keep_last (e.max_byte_pattern_len + 1) (e.byte_tail ++ bytes),
          length-keep_last (e.max_text_pattern_len + 1)
              (e.text_tail ++ (decode e.text_decoder bytes).0),
          mb,
          mt,
        ))
  after_call-IsBounded (sets triggers) e h = (omega arith, omega arith, refl, refl)
  after_call-IsBounded resets e (b, t, mb, mt) = (omega arith, omega arith, mb, mt)

  after_calls-IsBounded :
      (calls : List Call) (e : Engine decoder) → IsBounded e → IsBounded (after_calls calls e)
  after_calls-IsBounded [] e h = h
  after_calls-IsBounded (call ∷ calls) e h =
      after_calls-IsBounded calls (after_call call e) (after_call-IsBounded call e h)

  -- After any calls on a new engine, the tail of bytes and the tail of text each hold at most one item more
  -- than the limit for their patterns, and the limits are those computed from the triggers that are set.
  pub new_engine-IsBounded :
      (triggers : List Trigger) (calls : List Call)
      → IsBounded (after_calls calls (new_engine decoder triggers))
  unfolding new_engine
  new_engine-IsBounded triggers calls =
      after_calls-IsBounded calls (new_engine decoder triggers)
        (omega arith, omega arith, refl, refl)
