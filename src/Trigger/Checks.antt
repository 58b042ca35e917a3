-- ===== src/Trigger/Checks.antt =====
-- The loop over the triggers in `feed` of src/lib/trigger-engine.ts.
use bbcom.Base.{
  ℕ, ◌≡◌, ◌⊎◌, inl, inr, refl, sym, Bool, true, Option, some, List, [], ◌∷◌, ◌++◌, arith, ◌==◌,
  if◌then◌else◌, Bool-cases, length, subst,
}
use bbcom.Base.Text.{Text, Dict, lookup, insert, text_eq, lookup-insert}
use bbcom.Base.Sort.{if-both}
use bbcom.Trigger.Hex.{Bytes}
use bbcom.Trigger.Matches.{Due, fires-Due}
use bbcom.Trigger.{Trigger, TriggerFire, TextDecoder, Engine, check_all, fires, feed, feed_checked}

abbrev pub fire_of : Trigger → TriggerFire
fire_of t = record { trigger_id = t.id; response = t.response; response_is_hex = t.response_is_hex }

-- The times of the last fires, by identifier.
abbrev pub Times : Type 0
Times = Text → Option ℕ

abbrev pub Notes : ℕ → Text → Times → Times → Type 0
Notes now fired_id last next =
    (id : Text) → next id ≡ (if text_eq fired_id id then some now else last id)

module _ (now : ℕ) (bytes : Bytes) (said : Text) where
  -- A pass over triggers from the times `last`: a trigger that is due, by the times noted so far, adds its fire
  -- and notes the time under its identifier; another one adds nothing. At the end the times are `final`.
  pub Passes : Times → List Trigger → List TriggerFire → Times → Type 0
  Passes last [] sent final = (sent ≡ []) × ((id : Text) → final id ≡ last id)
  Passes last (t ∷ ts) sent final =
      (Due now bytes said (last t.id) t
        × (rest : List TriggerFire) × (sent ≡ fire_of t ∷ rest)
        × (next : Times) × Notes now t.id last next
        × Passes next ts rest final)
      ⊎ ((¬ Due now bytes said (last t.id) t) × Passes last ts sent final)

  check_all-Passes :
      (ts : List Trigger) (fired : Dict ℕ)
      → Passes
          (λ id. lookup id fired)
          ts
          (check_all now bytes said fired ts).0
          (λ id. lookup id (check_all now bytes said fired ts).1)
  unfolding check_all Passes
  check_all-Passes [] fired = (refl, λ id. refl)
  check_all-Passes (t ∷ ts) fired =
      let fired' = insert t.id now fired in
      let after : Bool → List TriggerFire × Dict ℕ =
        λ hit. check_all now bytes said (if hit then fired' else fired) ts in
      let Goal : Bool → Type 0 = λ hit.
        Passes (λ id. lookup id fired) (t ∷ ts)
          (if hit then fire_of t ∷ (after hit).0 else (after hit).0)
          (λ id. lookup id (after hit).1) in
      elim (Bool-cases (fires now bytes said fired t)) [
        | inl e ↦ subst Goal (sym e) (
            inl (
              (fires-Due now bytes said fired t).0 e,
              (check_all now bytes said fired' ts).0,
              refl,
              (λ id. lookup id fired'),
              (λ id. lookup-insert t.id id now fired),
              check_all-Passes ts fired',
            ))
        | inr e ↦ subst Goal (sym e) (
            inr (
              (λ due. let hit = (fires-Due now bytes said fired t).1 due in ground arith),
              check_all-Passes ts fired,
            ))
      ]

  no_triggers :
      (ts : List Trigger) (last : Times) → (length ts == 0) ≡ true → Passes last ts [] last
  unfolding Passes
  no_triggers [] last e = (refl, λ id. refl)
  no_triggers (t ∷ ts) last e = absurd (ground arith)

module _ (decoder : TextDecoder) where
  open decoder use {decode}

  -- What a `feed` looks at: the bytes it keeps and the new ones, and the texts of both.
  abbrev pub seen_bytes : Bytes → Engine decoder → Bytes
  seen_bytes bytes e = e.byte_tail ++ bytes

  abbrev pub seen_text : Bytes → Engine decoder → Text
  seen_text bytes e = e.text_tail ++ (decode e.text_decoder bytes).0

  -- `feed` passes once over the triggers in their order. A trigger is due if it is enabled, it has no
  -- recorded fire or its cooldown since that is over, and its pattern is not empty and stands in what is seen:
  -- in hexadecimal mode its bytes in the kept and the new bytes, in text mode the pattern in the texts
  -- of both. Exactly the triggers that are due then are fired; the time of the call is noted under their
  -- identifiers, also for a later trigger with the same one, and no other time changes.
  pub feed-fires :
      (now : ℕ) (bytes : Bytes) (e : Engine decoder)
      → Passes now
          (seen_bytes bytes e)
          (seen_text bytes e)
          (λ id. lookup id e.last_fired_at)
          e.triggers
          (feed decoder now bytes e).0
          (λ id. lookup id (feed decoder now bytes e).1.last_fired_at)
  unfolding feed feed_checked
  feed-fires now bytes e =
      let tail = seen_bytes bytes e in
      let said = seen_text bytes e in
      let last : Times = λ id. lookup id e.last_fired_at in
      if-both (λ r. Passes now tail said last e.triggers r.0 (λ id. lookup id r.1.last_fired_at))
        (length e.triggers == 0) ([], e) (feed_checked decoder now bytes e)
        (λ none_left. no_triggers now tail said e.triggers last none_left)
        (λ some_left. check_all-Passes now tail said e.triggers e.last_fired_at)
