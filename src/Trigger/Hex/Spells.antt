-- ===== src/Trigger/Hex/Spells.antt =====
-- What `parseHexPattern` of src/lib/trigger-engine.ts makes of a text, in terms of what the text spells.
use bbcom.Base.{
  ℕ, ◌+◌, ◌-◌, ◌*◌, ◌%◌, ◌≤◌, ◌<◌, ◌≡◌, ◌⊎◌, ◌↔◌, inl, inr, refl, sym, ap₂, ◌∙◌, subst, true, false,
  not, ◌&&◌, ◌||◌, Option, none, some, [], ◌∷◌, arith, ◌==◌, if◌then◌else◌, length, Bool-cases, ◌≢◌,
}
use bbcom.Base.Text.{Text}
use bbcom.Base.Sort.{keep, Each, keep-Each}
use bbcom.Trigger.Hex.{
  Bytes, is_blank, is_hex_digit, digit_value, all_hex, parse_pairs, parse_hex_pattern,
}

-- White space in a pattern.
abbrev pub IsBlank : ℕ → Type 0
IsBlank c = (c ≡ 9) ⊎ (c ≡ 10) ⊎ (c ≡ 13) ⊎ (c ≡ 32)

-- A character is the hexadecimal digit of a value: '0' to '9', 'a' to 'f' or 'A' to 'F'.
abbrev pub IsDigit : ℕ → ℕ → Type 0
IsDigit c d =
    ((d < 10) × (c ≡ 48 + d))
    ⊎ ((10 ≤ d) × (d < 16) × (c ≡ 97 + (d - 10)))
    ⊎ ((10 ≤ d) × (d < 16) × (c ≡ 65 + (d - 10)))

-- A text spells bytes, each by its high digit and its low one, with white space anywhere; the high digit of the
-- first byte may have been read.
unfoldable pub Spells : Option ℕ → Text → Bytes → Type 0
Spells none [] bytes = bytes ≡ []
Spells (some high) [] bytes = ⊥
Spells none (c ∷ text) bytes =
    (IsBlank c × Spells none text bytes)
    ⊎ ((high : ℕ) × IsDigit c high × Spells (some high) text bytes)
Spells (some high) (c ∷ text) bytes =
    (IsBlank c × Spells (some high) text bytes)
    ⊎ ((low : ℕ) × IsDigit c low
        × (rest : Bytes) × (bytes ≡ (high * 16 + low) ∷ rest)
        × Spells none text rest)

blank_lem : (c : ℕ) → (is_blank c ≡ true) ↔ IsBlank c
unfolding is_blank
blank_lem c = (λ e. ground arith, λ h. ground arith)

digit_agrees :
    (c d : ℕ) → IsDigit c d → (is_hex_digit c ≡ true) × (is_blank c ≡ false) × (digit_value c ≡ d)
unfolding is_hex_digit is_blank digit_value
digit_agrees c d h = (ground arith, ground arith, ground arith)

not-IsBlank : (c : ℕ) → is_blank c ≡ false → ¬ IsBlank c
unfolding is_blank
not-IsBlank c e b = ground arith

digit-blank : (c d : ℕ) → IsDigit c d → is_blank c ≢ true
unfolding is_blank
digit-blank c d i e = ground arith

IsDigit-found : (c : ℕ) → is_hex_digit c ≡ true → IsDigit c (digit_value c)
unfolding is_hex_digit digit_value
IsDigit-found c e = ground arith

abbrev compacted : Text → Text
compacted = keep (λ c. not (is_blank c))

-- White space can be left out and put in.
compact-Spells :
    (p : Option ℕ) (text : Text) (bytes : Bytes)
    → Spells p text bytes ↔ Spells p (compacted text) bytes
unfolding Spells keep
compact-Spells none [] bytes = (λ h. h, λ h. h)
compact-Spells (some high) [] bytes = (λ h. h, λ h. h)
compact-Spells none (c ∷ text) bytes = elim (Bool-cases (is_blank c)) [
  | inl e ↦ rw e (
    (λ h. elim h [
      | inl (b, s) ↦ (compact-Spells none text bytes).0 s
      | inr (d, i, s) ↦ absurd (digit-blank c d i e)
    ]),
    λ s. inl ((blank_lem c).0 e, (compact-Spells none text bytes).1 s),
  )
  | inr e ↦ rw e (
    (λ h. elim h [
      | inl (b, s) ↦ absurd (not-IsBlank c e b)
      | inr (d, i, s) ↦ inr (d, i, (compact-Spells (some d) text bytes).0 s)
    ]),
    λ h. elim h [
      | inl (b, s) ↦ absurd (not-IsBlank c e b)
      | inr (d, i, s) ↦ inr (d, i, (compact-Spells (some d) text bytes).1 s)
    ],
  )
]
compact-Spells (some high) (c ∷ text) bytes = elim (Bool-cases (is_blank c)) [
  | inl e ↦ rw e (
    (λ h. elim h [
      | inl (b, s) ↦ (compact-Spells (some high) text bytes).0 s
      | inr (d, i, _, _, _) ↦ absurd (digit-blank c d i e)
    ]),
    λ s. inl ((blank_lem c).0 e, (compact-Spells (some high) text bytes).1 s),
  )
  | inr e ↦ rw e (
    (λ h. elim h [
      | inl (b, s) ↦ absurd (not-IsBlank c e b)
      | inr (d, i, rest, same, s) ↦ inr (d, i, rest, same, (compact-Spells none text rest).0 s)
    ]),
    λ h. elim h [
      | inl (b, s) ↦ absurd (not-IsBlank c e b)
      | inr (d, i, rest, same, s) ↦ inr (d, i, rest, same, (compact-Spells none text rest).1 s)
    ],
  )
]

-- A text without white space that spells bytes passes the tests of the code.
Spells-pairs :
    (text : Text) (bytes : Bytes)
    → Each (λ c. not (is_blank c) ≡ true) text
    → Spells none text bytes
    → (length text % 2 ≡ 0) × (all_hex text ≡ true) × (parse_pairs text ≡ bytes)
unfolding Spells all_hex parse_pairs
Spells-pairs [] bytes n s = (refl, refl, sym s)
Spells-pairs (c ∷ []) bytes (n, _) s = elim s [
  | inl (b, _) ↦ absurd (not-IsBlank c (ground arith) b)
  | inr (d, _, never) ↦ absurd never
]
Spells-pairs (c ∷ d ∷ text) bytes (n, (m, ns)) s = elim s [
  | inl (b, _) ↦ absurd (not-IsBlank c (ground arith) b)
  | inr (high, i, t) ↦ elim t [
    | inl (b, _) ↦ absurd (not-IsBlank d (ground arith) b)
    | inr (low, j, rest, same, u) ↦
        let (hex_c, _, at_c) = digit_agrees c high i in
        let (hex_d, _, at_d) = digit_agrees d low j in
        let (even, all, parsed) = Spells-pairs text rest ns u in
        (
          omega (arith, even),
          rw (hex_c, hex_d) all,
          ap₂ ◌∷◌ (omega (arith, at_c, at_d)) parsed ∙ sym same,
        )
  ]
]

pairs-Spells :
    (text : Text) → length text % 2 ≡ 0 → all_hex text ≡ true → Spells none text (parse_pairs text)
unfolding Spells all_hex parse_pairs
pairs-Spells [] even all = refl
pairs-Spells (c ∷ []) even all = absurd (omega (arith, even))
pairs-Spells (c ∷ d ∷ text) even all = inr (
  digit_value c,
  IsDigit-found c (ground arith),
  inr (
    digit_value d,
    IsDigit-found d (ground arith),
    parse_pairs text,
    refl,
    pairs-Spells text (omega (arith, even)) (ground arith),
  ),
)

-- The tests of the code on the text without white space.
Passed : Text → Type 0
Passed text = (length text % 2 ≡ 0) × (all_hex text ≡ true)

abbrev pub parse_compact : Text → Bytes
parse_compact text =
    if length text == 0 || not (length text % 2 == 0) || not (all_hex text)
    then []
    else parse_pairs text

parse_compact-cases :
    (text : Text)
    → (Passed text × (parse_compact text ≡ parse_pairs text))
      ⊎ ((¬ Passed text) × (parse_compact text ≡ []))
unfolding Passed parse_pairs all_hex
parse_compact-cases [] = inl ((refl, refl), refl)
parse_compact-cases (c ∷ text) =
    elim (Bool-cases (length (c ∷ text) % 2 == 0 && all_hex (c ∷ text))) [
      | inl e ↦ inl ((ground arith, ground arith), ground arith)
      | inr e ↦ inr ((λ (even, all). ground arith), ground arith)
    ]

-- The bytes of a pattern are those that it spells, by two digits for each byte in lower or upper case
-- and with white space anywhere; they are none if the pattern spells no bytes at all.
pub parse_hex_pattern-Spells :
    (input : Text) (bytes : Bytes)
    → (parse_hex_pattern input ≡ bytes)
      ↔ (Spells none input bytes ⊎ ((bytes ≡ []) × (¬ ((other : Bytes) × Spells none input other))))
unfolding parse_hex_pattern Passed
parse_hex_pattern-Spells input bytes =
    let text = compacted input in
    let solid = keep-Each (λ c. not (is_blank c)) input in
    let spelled : (b : Bytes) → Spells none input b → Passed text × (parse_pairs text ≡ b) = λ b s.
      let (even, all, parsed) = Spells-pairs text b solid ((compact-Spells none input b).0 s) in
      ((even, all), parsed) in
    elim (parse_compact-cases text) [
      | inl ((even, all), same) ↦ (
        (λ e. inl (
            subst (Spells none input) (sym same ∙ e)
              ((compact-Spells none input (parse_pairs text)).1 (pairs-Spells text even all)))),
        λ h. elim h [
          | inl s ↦ same ∙ (spelled bytes s).1
          | inr (empty, never) ↦ absurd (
              never (
                parse_pairs text,
                (compact-Spells none input (parse_pairs text)).1 (pairs-Spells text even all),
              ))
        ],
      )
      | inr (fails, same) ↦ (
        (λ e. inr (sym e ∙ same, λ (b, s). fails (spelled b s).0)),
        λ h. elim h [
          | inl s ↦ absurd (fails (spelled bytes s).0)
          | inr (empty, never) ↦ same ∙ sym empty
        ],
      )
    ]
