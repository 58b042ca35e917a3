-- ===== src/Trigger/Matches.antt =====
-- When a trigger of src/lib/trigger-engine.ts is due, said of its fields, what is seen and the last fires.
use bbcom.Base.{
  ℕ, ◌+◌, ◌≤◌, ◌≡◌, ◌↔◌, ◌⊎◌, inl, inr, refl, subst, Bool, true, false, Option, none, some, arith,
  ◌==◌, if◌then◌else◌, length,
}
use bbcom.Base.Text.{Text, Dict, lookup}
use bbcom.Trigger.Hex.{Bytes, parse_hex_pattern}
use bbcom.Trigger.Search.{Occurs, contains_subarray, contains_subarray_lem, includes_lem}
use bbcom.Trigger.{
  Trigger, TriggerMatchMode, hex, text, match_hex, match_text, matches, in_cooldown, fires,
}

-- A guard against empty patterns that is not needed.
guarded : (n : ℕ) (b : Bool) → (b ≡ true → 1 ≤ n) → b ≡ (if n == 0 then false else b)
guarded n true h = ground (arith, h refl)
guarded n false h = ground arith

pub match_hex-Occurs :
    (tail : Bytes) (t : Trigger)
    → (match_hex tail t ≡ true)
      ↔ ((1 ≤ length (parse_hex_pattern t.pattern)) × Occurs tail (parse_hex_pattern t.pattern))
unfolding match_hex
match_hex-Occurs tail t =
    let needle = parse_hex_pattern t.pattern in
    let lem = contains_subarray_lem tail needle in
    subst (λ b. (b ≡ true) ↔ ((1 ≤ length needle) × Occurs tail needle))
      (guarded (length needle) (contains_subarray tail needle) λ e. (lem.0 e).0) lem

pub match_text-Occurs :
    (tail : Text) (t : Trigger)
    → (match_text tail t ≡ true) ↔ ((1 ≤ length t.pattern) × Occurs tail t.pattern)
unfolding match_text
match_text-Occurs tail t =
    let lem = includes_lem tail t.pattern in
    ((λ e. (ground arith, lem.0 (ground arith))), λ (n, o). let found = lem.1 o in ground arith)

-- A pattern that is not empty stands in what is seen.
abbrev pub Matched : Bytes → Text → TriggerMatchMode → Text → Type 0
Matched bytes said hex pattern =
    (1 ≤ length (parse_hex_pattern pattern)) × Occurs bytes (parse_hex_pattern pattern)
Matched bytes said text pattern = (1 ≤ length pattern) × Occurs said pattern

-- There was no fire, or its cooldown is over.
abbrev pub Ready : ℕ → Option ℕ → ℕ → Type 0
Ready now last cooldown =
    (last ≡ none) ⊎ ((fired_at : ℕ) × (last ≡ some fired_at) × (fired_at + cooldown ≤ now))

-- `last` is the time of the last fire.
abbrev pub Due : ℕ → Bytes → Text → Option ℕ → Trigger → Type 0
Due now bytes said last t =
    (t.enabled ≡ true) × Ready now last t.cooldown_ms × Matched bytes said t.match_mode t.pattern

matches-Matched :
    (bytes : Bytes) (said : Text) (mode : TriggerMatchMode) (t : Trigger)
    → t.match_mode ≡ mode
    → (matches bytes said t ≡ true) ↔ Matched bytes said mode t.pattern
unfolding matches
matches-Matched bytes said hex t e = rw e (match_hex-Occurs bytes t)
matches-Matched bytes said text t e = rw e (match_text-Occurs said t)

cooldown-Ready :
    (now : ℕ) (last : Option ℕ) (t : Trigger)
    → (in_cooldown now last t ≡ false) ↔ Ready now last t.cooldown_ms
unfolding in_cooldown
cooldown-Ready now none t = ((λ e. inl refl), λ r. refl)
cooldown-Ready now (some at) t = (
  (λ e. inr (at, refl, ground arith)),
  λ r. elim r [ inl absent ↦ cc | inr (x, same, h) ↦ let y : at ≡ x = cc in ground arith ],
)

pub fires-Due :
    (now : ℕ) (bytes : Bytes) (said : Text) (fired : Dict ℕ) (t : Trigger)
    → (fires now bytes said fired t ≡ true) ↔ Due now bytes said (lookup t.id fired) t
unfolding fires
fires-Due now bytes said fired t =
    let last = lookup t.id fired in
    let m = matches-Matched bytes said t.match_mode t refl in
    let c = cooldown-Ready now last t in
    (
      (λ e. (ground arith, c.0 (ground arith), m.0 (ground arith))),
      λ (on, ready, found). let cold = c.1 ready in let seen = m.1 found in ground arith,
    )
