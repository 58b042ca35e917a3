-- ===== src/Trigger/Tests.antt =====
-- Tests of src/lib/trigger-engine.ts, and the theorems at concrete inputs.
use bbcom.Base.{ℕ, ◌+◌, ◌≤◌, ◌≡◌, ◌↔◌, ◌⊎◌, refl, none, true, false, List, [], ◌∷◌, ◌++◌, length}
use bbcom.Base.Text.{Text, lookup, insert, text_eq}
use bbcom.Base.Sort.{keep}
use bbcom.Trigger.Hex.{parse_hex_pattern}
use bbcom.Trigger.Hex.Spells.{Spells, parse_hex_pattern-Spells}
use bbcom.Trigger.Search.{Occurs, contains_subarray, contains_subarray_lem}
use bbcom.Trigger.Checks.{Passes, seen_bytes, seen_text, feed-fires}
use bbcom.Trigger.Tail.{OccursLate, Chunks, bytes_of}
use bbcom.Trigger.Detect.{fed, hex-detected, text-detected}
use bbcom.Trigger.Bounds.{feeds, sets, resets, after_calls, IsBounded, new_engine-IsBounded}
use bbcom.Trigger.{
  Trigger, hex, text, TextDecoder, Engine, limits_from, match_hex, match_text, new_engine, feed,
}

-- A decoder of 8-bit characters.
abbrev decoder : TextDecoder
decoder = record { State = Unit {0}; initial = tt; decode = λ st bytes. (bytes, tt) }

-- "aa 55"
abbrev header_pattern : Text
header_pattern = 97 ∷ 97 ∷ 32 ∷ 53 ∷ 53 ∷ []

abbrev header : Trigger
header = record {
  id = 1 ∷ [];
  enabled = true;
  pattern = header_pattern;
  match_mode = hex;
  response = 79 ∷ 75 ∷ [];
  response_is_hex = false;
  cooldown_ms = 100;
}

-- "ok"
abbrev prompt : Trigger
prompt = record {
  id = 2 ∷ [];
  enabled = true;
  pattern = 111 ∷ 107 ∷ [];
  match_mode = text;
  response = 33 ∷ [];
  response_is_hex = false;
  cooldown_ms = 0;
}

abbrev both : List Trigger
both = header ∷ prompt ∷ []

-- The header comes in two chunks.
abbrev cut_header : Chunks
cut_header = (1000, 1 ∷ 2 ∷ 0xaa ∷ []) ∷ []

-- "aA 5 5"
parse_hex_pattern-Spells_example :
    (parse_hex_pattern (97 ∷ 65 ∷ 32 ∷ 53 ∷ 32 ∷ 53 ∷ []) ≡ 0xaa ∷ 0x55 ∷ []) ↔ (
      Spells none (97 ∷ 65 ∷ 32 ∷ 53 ∷ 32 ∷ 53 ∷ []) (0xaa ∷ 0x55 ∷ [])
      ⊎ ((◌≡◌ {A = List ℕ} (0xaa ∷ 0x55 ∷ []) [])
          × (¬ ((other : List ℕ) × Spells none (97 ∷ 65 ∷ 32 ∷ 53 ∷ 32 ∷ 53 ∷ []) other))))
parse_hex_pattern-Spells_example =
    parse_hex_pattern-Spells (97 ∷ 65 ∷ 32 ∷ 53 ∷ 32 ∷ 53 ∷ []) (0xaa ∷ 0x55 ∷ [])

contains_subarray_lem_example :
    (contains_subarray (1 ∷ 2 ∷ 3 ∷ []) (2 ∷ 3 ∷ []) ≡ true)
    ↔ ((1 ≤ length {A = ℕ} (2 ∷ 3 ∷ [])) × Occurs (1 ∷ 2 ∷ 3 ∷ []) (2 ∷ 3 ∷ []))
contains_subarray_lem_example = contains_subarray_lem (1 ∷ 2 ∷ 3 ∷ []) (2 ∷ 3 ∷ [])

feed-fires_example :
    Passes 1010
      (seen_bytes decoder (0x55 ∷ []) (fed decoder both cut_header))
      (seen_text decoder (0x55 ∷ []) (fed decoder both cut_header))
      (λ id. lookup id (fed decoder both cut_header).last_fired_at)
      (fed decoder both cut_header).triggers
      (feed decoder 1010 (0x55 ∷ []) (fed decoder both cut_header)).0
      (λ id.
        lookup id (feed decoder 1010 (0x55 ∷ []) (fed decoder both cut_header)).1.last_fired_at)
feed-fires_example = feed-fires decoder 1010 (0x55 ∷ []) (fed decoder both cut_header)

hex-detected_example :
    (length (parse_hex_pattern header_pattern) ≤ (limits_from 1 1 both).0)
    × ((match_hex (seen_bytes decoder (0x55 ∷ []) (fed decoder both cut_header)) header ≡ true) ↔ (
        (1 ≤ length (parse_hex_pattern header_pattern))
        × OccursLate
            ((limits_from 1 1 both).0 + 1 + length {A = ℕ} (0x55 ∷ []))
            (bytes_of cut_header ++ 0x55 ∷ [])
            (parse_hex_pattern header_pattern)))
hex-detected_example = hex-detected decoder both cut_header (0x55 ∷ []) 0 header refl refl refl

new_engine-IsBounded_example : IsBounded decoder (
    after_calls decoder
      (feeds 5 (1 ∷ 2 ∷ 3 ∷ 4 ∷ 5 ∷ []) ∷ sets (header ∷ []) ∷ resets ∷ [])
      (new_engine decoder both))
new_engine-IsBounded_example =
    new_engine-IsBounded decoder both
      (feeds 5 (1 ∷ 2 ∷ 3 ∷ 4 ∷ 5 ∷ []) ∷ sets (header ∷ []) ∷ resets ∷ [])

-- "o" has come, and "k" comes.
abbrev cut_prompt : Chunks
cut_prompt = (1000, 120 ∷ 111 ∷ []) ∷ []

text-detected_example :
    (length prompt.pattern ≤ (limits_from 1 1 both).1)
    × ((match_text (seen_text decoder (107 ∷ []) (fed decoder both cut_prompt)) prompt ≡ true) ↔ (
        (1 ≤ length prompt.pattern)
        × OccursLate
            ((limits_from 1 1 both).1 + 1 + length {A = ℕ} (107 ∷ []))
            ((120 ∷ 111 ∷ []) ++ 107 ∷ [])
            prompt.pattern))
text-detected_example = text-detected decoder both cut_prompt (107 ∷ []) 1 prompt refl refl refl

-- The header is sent once, and one more byte comes after the cooldown.
abbrev header_once : Engine decoder
header_once = fed decoder (header ∷ []) ((1000, 0xaa ∷ 0x55 ∷ []) ∷ [])

fires_again : length (feed decoder 1200 (0 ∷ []) header_once).0 ≡ 1
unfolding feed new_engine lookup parse_hex_pattern keep contains_subarray insert text_eq
fires_again = refl
