-- ===== src/Trigger/Hex.antt =====
-- `parseHexPattern` of src/lib/trigger-engine.ts. A text is a list of UTF-16 code units.
pub mod Spells
use bbcom.Base.{
  ℕ, ◌+◌, ◌-◌, ◌*◌, ◌%◌, ◌≤◌, ◌<◌, ◌≡◌, ◌⊎◌, ◌↔◌, inl, inr, refl, sym, ap₂, ◌∙◌, subst, Bool, true,
  false, not, ◌&&◌, ◌||◌, Option, none, some, List, [], ◌∷◌, arith, leb, ◌==◌, if◌then◌else◌,
  length, Bool-cases, ◌≢◌,
}
use bbcom.Base.Text.{Text}
use bbcom.Base.Sort.{keep, Each, keep-Each}

abbrev pub Bytes : Type 0
Bytes = List ℕ

-- `[\t\n\r ]`
unfoldable pub is_blank : ℕ → Bool
is_blank c = c == 9 || c == 10 || c == 13 || c == 32

abbrev within : ℕ → ℕ → ℕ → Bool
within low high c = leb low c && leb c high

-- `[\da-fA-F]`
unfoldable pub is_hex_digit : ℕ → Bool
is_hex_digit c = within 48 57 c || within 97 102 c || within 65 70 c

-- The value of a hexadecimal digit.
unfoldable pub digit_value : ℕ → ℕ
digit_value c = if leb c 57 then c - 48 else (if leb c 70 then c - 55 else c - 87)

unfoldable pub all_hex : Text → Bool
unfolding is_hex_digit
all_hex [] = true
all_hex (c ∷ text) = is_hex_digit c && all_hex text

-- The loop over the pairs of digits, with `parseInt(pair, 16)`.
unfoldable pub parse_pairs : Text → Bytes
unfolding digit_value
parse_pairs (high ∷ low ∷ text) = (digit_value high * 16 + digit_value low) ∷ parse_pairs text
parse_pairs _ = []

unfoldable pub parse_hex_pattern : Text → Bytes
unfolding is_blank all_hex parse_pairs
parse_hex_pattern input =
    let compact = keep (λ c. not (is_blank c)) input in
    if length compact == 0 || not (length compact % 2 == 0) || not (all_hex compact)
    then []
    else parse_pairs compact
