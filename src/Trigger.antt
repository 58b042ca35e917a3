-- ===== src/Trigger.antt =====
-- src/lib/trigger-engine.ts: the answers that are sent when a pattern is received.
-- The clock's reading is an argument of `feed`; the UTF-8 decoder of the platform is a parameter.
pub mod Hex
pub mod Search
pub mod Matches
pub mod Checks
pub mod Tail
pub mod Detect
mod Bounds
mod Tests
use bbcom.Base.{
  ℕ, zero, suc, ◌+◌, ◌-◌, Bool, true, false, not, ◌&&◌, ◌||◌, Option, none, some, List, [], ◌∷◌,
  ◌++◌, ltb, ◌==◌, if◌then◌else◌, length, drop,
}
use bbcom.Base.Text.{Text, Dict, lookup, insert}
use bbcom.Trigger.Hex.{Bytes, parse_hex_pattern}
use bbcom.Trigger.Search.{contains_subarray, includes}

pub data TriggerMatchMode : Type 0 where
  hex text : TriggerMatchMode

pub record Trigger : Type 0 where
  pub id : Text
  pub enabled : Bool
  pub pattern : Text
  pub match_mode : TriggerMatchMode
  pub response : Text
  pub response_is_hex : Bool
  pub cooldown_ms : ℕ

pub record TriggerFire : Type 0 where
  pub trigger_id : Text
  pub response : Text
  pub response_is_hex : Bool

-- A `TextDecoder` that is used with `{ stream: true }`.
pub record TextDecoder : Type 1 where
  pub State : Type 0
  pub initial : State
  pub decode : State → Bytes → Text × State

pub record TriggerEngine (State : Type 0) : Type 0 where
  pub triggers : List Trigger
  pub byte_tail : Bytes
  pub text_tail : Text
  pub text_decoder : State
  pub max_byte_pattern_len : ℕ
  pub max_text_pattern_len : ℕ
  pub last_fired_at : Dict ℕ

abbrev pub longer : ℕ → ℕ → ℕ
longer n longest = if ltb longest n then n else longest

-- `maxByte` and `maxText` behind a trigger that is enabled.
unfoldable pub max_byte_with : ℕ → TriggerMatchMode → Text → ℕ
max_byte_with max_byte hex pattern = longer (length (parse_hex_pattern pattern)) max_byte
max_byte_with max_byte text pattern = max_byte

unfoldable pub max_text_with : ℕ → TriggerMatchMode → Text → ℕ
max_text_with max_text hex pattern = max_text
max_text_with max_text text pattern = longer (length pattern) max_text

-- The loop of `recomputeLimits`.
unfoldable pub limits_from : ℕ → ℕ → List Trigger → ℕ × ℕ
unfolding max_byte_with max_text_with
limits_from max_byte max_text [] = (max_byte, max_text)
limits_from max_byte max_text (t ∷ ts) =
    limits_from (if t.enabled then max_byte_with max_byte t.match_mode t.pattern else max_byte)
      (if t.enabled then max_text_with max_text t.match_mode t.pattern else max_text) ts

unfoldable pub match_text : Text → Trigger → Bool
match_text tail t = if length t.pattern == 0 then false else includes tail t.pattern

unfoldable pub match_hex : Bytes → Trigger → Bool
match_hex tail t =
    let needle = parse_hex_pattern t.pattern in
    if length needle == 0 then false else contains_subarray tail needle

unfoldable pub matches : Bytes → Text → Trigger → Bool
unfolding match_text match_hex
matches byte_tail text_tail t = elim t.match_mode [
  | hex ↦ match_hex byte_tail t
  | text ↦ match_text text_tail t
]

-- `now - last < t.cooldownMs`, where the clock may have been set back.
unfoldable pub in_cooldown : ℕ → Option ℕ → Trigger → Bool
in_cooldown now none t = false
in_cooldown now (some last) t = ltb now (last + t.cooldown_ms)

unfoldable pub fires : ℕ → Bytes → Text → Dict ℕ → Trigger → Bool
unfolding matches in_cooldown
fires now byte_tail text_tail last_fired_at t =
    t.enabled
    && not (in_cooldown now (lookup t.id last_fired_at) t)
    && matches byte_tail text_tail t

-- The loop of `feed` over the triggers.
unfoldable pub check_all : ℕ → Bytes → Text → Dict ℕ → List Trigger → List TriggerFire × Dict ℕ
unfolding fires
check_all now byte_tail text_tail fired [] = ([], fired)
check_all now byte_tail text_tail fired (t ∷ ts) =
    let hit = fires now byte_tail text_tail fired t in
    let (rest, fired') =
      check_all now byte_tail text_tail (if hit then insert t.id now fired else fired) ts in
    (
      if hit
          then record {
            trigger_id = t.id;
            response = t.response;
            response_is_hex = t.response_is_hex;
          }
            ∷ rest
          else rest,
      fired',
    )

-- The last `size` items.
unfoldable pub keep_last {ℓ} : {A : Type ℓ} → ℕ → List A → List A
keep_last size tail = if ltb size (length tail) then drop (length tail - size) tail else tail

module _ (decoder : TextDecoder) where
  open decoder use {State, initial, decode}

  abbrev pub Engine : Type 0
  Engine = TriggerEngine State

  unfoldable pub reset : Engine → Engine
  reset e = record e { byte_tail = []; text_tail = []; text_decoder = initial; last_fired_at = [] }

  unfoldable pub new_engine : List Trigger → Engine
  unfolding limits_from
  new_engine triggers =
      let (max_byte, max_text) = limits_from 1 1 triggers in
      record {
        triggers = triggers;
        byte_tail = [];
        text_tail = [];
        text_decoder = initial;
        max_byte_pattern_len = max_byte;
        max_text_pattern_len = max_text;
        last_fired_at = [];
      }

  unfoldable pub set_triggers : List Trigger → Engine → Engine
  unfolding reset limits_from
  set_triggers triggers e =
      let (max_byte, max_text) = limits_from 1 1 triggers in
      reset (record e {
        triggers = triggers;
        max_byte_pattern_len = max_byte;
        max_text_pattern_len = max_text;
      })

  -- `feed` with at least one trigger.
  unfoldable pub feed_checked : ℕ → Bytes → Engine → List TriggerFire × Engine
  unfolding check_all keep_last
  feed_checked now bytes e =
      let byte_tail = e.byte_tail ++ bytes in
      let (decoded, text_decoder) = decode e.text_decoder bytes in
      let text_tail = e.text_tail ++ decoded in
      let (fired, last_fired_at) = check_all now byte_tail text_tail e.last_fired_at e.triggers in
      (
        fired,
        record e {
          byte_tail = keep_last (e.max_byte_pattern_len + 1) byte_tail;
          text_tail = keep_last (e.max_text_pattern_len + 1) text_tail;
          text_decoder = text_decoder;
          last_fired_at = last_fired_at;
        },
      )

  unfoldable pub feed : ℕ → Bytes → Engine → List TriggerFire × Engine
  unfolding feed_checked
  feed now bytes e = if length e.triggers == 0 then ([], e) else feed_checked now bytes e
