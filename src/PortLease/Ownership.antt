-- ===== src/PortLease/Ownership.antt =====
-- Who can take and free a port in the registry (src/features/serial/application/port-lease-registry.ts).
use bbcom.Base.{
  ℕ, ◌≡◌, ◌⊎◌, inl, inr, refl, sym, ap, ◌∙◌, Bool, true, false, Option, none, some, Result, ok,
  length, result-bind, ok-injective, Bool-cases, Option-cases,
}
use bbcom.Base.Text.{Text, text_eq, text_eq_iff, lookup}
use bbcom.PortLease.{
  Owner, StoredLease, Grant, Registry, in_use, id_collision, freeze_grant, find_by_port, find_by_id,
  checked, acquire_free, acquire_checked, acquire, assert_open, release, release_found,
}
use bbcom.PortLease.Names.{validate_opaque_id, validate_session_name, Invalid}
use bbcom.PortLease.Invariant.{IsValid}
use bbcom.PortLease.Found.{
  none_only, true_only, acquire_checked_free, acquire_checked_found, checked_ok, add_lease_found,
  remove_lease_gone,
}

-- The lease that a call of `acquire` grants is found under its port.
acquire_checked_lem :
    (r : Registry) (owner : Owner) (fresh : Text) (g : Grant) (r' : Registry)
    → IsValid r
    → acquire_checked r owner fresh ≡ ok (g, r')
    → (ref : ℕ) × (l : StoredLease) × (find_by_port r' owner.canonical_port ≡ some (ref, l))
      × (freeze_grant l ≡ g)
unfolding acquire_free
acquire_checked_lem r owner fresh g r' v e =
    elim (Option-cases (find_by_port r owner.canonical_port)) [
      | inl free ↦
          let (lease_id, made, _) =
            result-bind (checked (validate_opaque_id fresh 128))
              (sym (acquire_checked_free r owner fresh free) ∙ e) in
          let (_, same) = none_only id_collision (lookup lease_id r.by_id) made in
          (
            length r.heap,
            _,
            ap (λ x. find_by_port x owner.canonical_port) (sym (ap (λ p. p.1) same))
                ∙ add_lease_found r _,
            ap (λ p. p.0) same,
          )
      | inr ((ref, l), found) ↦
          let (_, same) =
            true_only (in_use l.owner) (text_eq l.owner.session_id owner.session_id)
              (sym (acquire_checked_found r owner fresh ref l found) ∙ e) in
          (
            ref,
            l,
            ap (λ x. find_by_port x owner.canonical_port) (sym (ap (λ p. p.1) same)) ∙ found,
            ap (λ p. p.0) same,
          )
    ]

release_found-outcome :
    (r : Registry) (id session : Text) (o : Option (ℕ × StoredLease))
    → find_by_id r id ≡ o
    → (((release_found r id session o).0 ≡ true)
        × (ref : ℕ) × (l : StoredLease) × (find_by_id r id ≡ some (ref, l))
        × (session ≡ l.owner.session_id)
        × (find_by_id (release_found r id session o).1 id ≡ none)
        × (find_by_port (release_found r id session o).1 l.owner.canonical_port ≡ none))
      ⊎ (((release_found r id session o).0 ≡ false) × ((release_found r id session o).1 ≡ r))
unfolding release_found
release_found-outcome r id session none e = inr (refl, refl)
release_found-outcome r id session (some (ref, l)) e =
    elim (Bool-cases (text_eq l.owner.session_id session)) [
      | inl same ↦
          let gone = remove_lease_gone r (record l { lease_id = id }) in
          rw same (
            inl (
              refl,
              ref,
              l,
              e,
              sym ((text_eq_iff l.owner.session_id session).0 same),
              gone.0,
              gone.1,
            ))
      | inr other ↦ rw other (inr (refl, refl))
    ]

-- A `release` that returns has either freed a lease of the session, so that neither its identifier nor its
-- port has a lease, or has returned false and changed nothing.
pub release-outcome :
    (r : Registry) (lease_id s : Text) (answer : Bool) (r' : Registry)
    → release r lease_id s ≡ ok (answer, r')
    → ((answer ≡ true)
        × (id : Text) × (ref : ℕ) × (l : StoredLease) × (find_by_id r id ≡ some (ref, l))
        × (validate_opaque_id lease_id 128 ≡ ok id)
        × (validate_opaque_id s 256 ≡ ok l.owner.session_id)
        × (find_by_id r' id ≡ none)
        × (find_by_port r' l.owner.canonical_port ≡ none))
      ⊎ ((answer ≡ false) × (r' ≡ r))
unfolding release
release-outcome r lease_id s answer r' e =
    let (id, e1, is_id) = result-bind (checked (validate_opaque_id lease_id 128)) e in
    let (session, e2, is_session) = result-bind (checked (validate_opaque_id s 256)) e1 in
    let same = ok-injective e2 in
    elim (release_found-outcome r id session (find_by_id r id) refl) [
      | inl (yes_answer, ref, l, found, own, by_id, by_port) ↦ inl (
        sym (ap (λ x. x.0) same) ∙ yes_answer,
        id,
        ref,
        l,
        found,
        checked_ok (validate_opaque_id lease_id 128) is_id,
        checked_ok (validate_opaque_id s 256) is_session ∙ ap ok own,
        sym (ap (λ x. find_by_id x.1 id) same) ∙ by_id,
        sym (ap (λ x. find_by_port x.1 l.owner.canonical_port) same) ∙ by_port,
      )
      | inr (no_answer, kept) ↦
          inr (sym (ap (λ x. x.0) same) ∙ no_answer, sym (ap (λ x. x.1) same) ∙ kept)
    ]

module _ (canonicalizer : Text → Result Invalid Text) where
  acquire_parts :
      (r : Registry) (p s n fresh : Text) (g : Grant) (r' : Registry)
      → acquire canonicalizer r p s n fresh ≡ ok (g, r')
      → (owner : Owner) × (canonicalizer p ≡ ok owner.canonical_port)
        × (validate_opaque_id s 256 ≡ ok owner.session_id)
        × (acquire_checked r owner fresh ≡ ok (g, r'))
  unfolding acquire
  acquire_parts r p s n fresh g r' e =
      let (_, e1, _) = result-bind (assert_open r) e in
      let (port, e2, is_port) = result-bind (checked (canonicalizer p)) e1 in
      let (owner_id, e3, is_id) = result-bind (checked (validate_opaque_id s 256)) e2 in
      let (owner_name, e4, _) = result-bind (checked (validate_session_name n)) e3 in
      (_, checked_ok (canonicalizer p) is_port, checked_ok (validate_opaque_id s 256) is_id, e4)

  -- When a port has been acquired in a valid registry, a further `acquire` of the same port that succeeds
  -- is by the session that holds it, returns the grant there is and leaves the registry as it was.
  pub acquire-acquire :
      (r : Registry) (p s n fresh s2 n2 fresh2 : Text) (g g2 : Grant) (r1 r2 : Registry)
      → IsValid r
      → acquire canonicalizer r p s n fresh ≡ ok (g, r1)
      → acquire canonicalizer r1 p s2 n2 fresh2 ≡ ok (g2, r2)
      → (validate_opaque_id s2 256 ≡ ok g.owner.session_id) × (g2 ≡ g) × (r2 ≡ r1)
  acquire-acquire r p s n fresh s2 n2 fresh2 g g2 r1 r2 v e f =
      let (first, is_port, _, granted) = acquire_parts r p s n fresh g r1 e in
      let (second, is_port2, is_id, granted2) = acquire_parts r1 p s2 n2 fresh2 g2 r2 f in
      let (ref, l, found, is_grant) = acquire_checked_lem r first fresh g r1 v granted in
      let port : first.canonical_port ≡ second.canonical_port =
        ok-injective (sym is_port ∙ is_port2) in
      let (own, same) = true_only (in_use l.owner) (text_eq l.owner.session_id second.session_id) (
        sym (acquire_checked_found r1 second fresh2 ref l (ap (find_by_port r1) (sym port) ∙ found))
        ∙ granted2) in
      (
        is_id
            ∙ ap ok (
                sym ((text_eq_iff l.owner.session_id second.session_id).0 own)
                ∙ ap (λ x. x.owner.session_id) is_grant),
        sym (ap (λ x. x.0) same) ∙ is_grant,
        sym (ap (λ x. x.1) same),
      )
