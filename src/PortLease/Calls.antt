-- ===== src/PortLease/Calls.antt =====
-- Every call of the port lease registry (src/features/serial/application/port-lease-registry.ts)
-- keeps it valid.
use bbcom.Base.{
  ℕ, ◌≡◌, inl, inr, refl, sym, ap, subst, ◌∙◌, Bool, true, false, Option, none, some, Result, ok,
  if◌then◌else◌, result-bind, ok-injective, Bool-cases, Option-cases,
}
use bbcom.Base.Text.{Text, text_eq, lookup}
use bbcom.PortLease.{
  LeaseState, Owner, StoredLease, Grant, Registry, in_use, id_collision, illegal_transition,
  find_by_port, find_by_id, remove_lease, notify, checked, assert_open, acquire_free,
  acquire_checked, acquire, require_owned, transition, allowed, release_found, release,
  release_session, shutdown,
}
use bbcom.PortLease.Names.{validate_opaque_id, validate_session_name, Invalid}
use bbcom.PortLease.Invariant.{
  IsValid, cleared-IsValid, notify-IsValid, add_lease-IsValid, set_state-IsValid,
  remove_lease-IsValid,
}
use bbcom.PortLease.Found.{
  find_by_port-none, find_by_id-IsValid, find_by_id_lem, none_only, true_only, acquire_checked_free,
  acquire_checked_found, require_owned_lem,
}
use bbcom.PortLease.Removal.{remove_owned-IsValid}

-- The lease that `acquire` enters is new in both maps.
pub acquire_free-IsValid :
    (r : Registry) (owner : Owner) (fresh : Text) (g : Grant) (r' : Registry)
    → IsValid r
    → lookup owner.canonical_port r.by_port ≡ none
    → acquire_free r owner fresh ≡ ok (g, r')
    → IsValid r'
unfolding acquire_free
acquire_free-IsValid r owner fresh g r' v free e =
    let (lease_id, made, _) = result-bind (checked (validate_opaque_id fresh 128)) e in
    let (absent, same) = none_only id_collision (lookup lease_id r.by_id) made in
    subst IsValid (ap (λ p. p.1) same) (notify-IsValid (add_lease-IsValid r _ v free absent))

pub acquire_checked-IsValid :
    (r : Registry) (owner : Owner) (fresh : Text) (g : Grant) (r' : Registry)
    → IsValid r
    → acquire_checked r owner fresh ≡ ok (g, r')
    → IsValid r'
acquire_checked-IsValid r owner fresh g r' v e =
    elim (Option-cases (find_by_port r owner.canonical_port)) [
      | inl free ↦
          acquire_free-IsValid r owner fresh g r' v
            (find_by_port-none r owner.canonical_port v free)
            (sym (acquire_checked_free r owner fresh free) ∙ e)
      | inr ((ref, l), found) ↦
          let (_, same) =
            true_only (in_use l.owner) (text_eq l.owner.session_id owner.session_id)
              (sym (acquire_checked_found r owner fresh ref l found) ∙ e) in
          subst IsValid (ap (λ p. p.1) same) v
    ]

pub acquire-IsValid :
    (canonicalizer : Text → Result Invalid Text) (r : Registry) (p s n fresh : Text) (g : Grant)
    (r' : Registry)
    → IsValid r
    → acquire canonicalizer r p s n fresh ≡ ok (g, r')
    → IsValid r'
unfolding acquire
acquire-IsValid canonicalizer r p s n fresh g r' v e =
    let (_, e1, _) = result-bind (assert_open r) e in
    let (port, e2, _) = result-bind (checked (canonicalizer p)) e1 in
    let (owner_id, e3, _) = result-bind (checked (validate_opaque_id s 256)) e2 in
    let (owner_name, e4, _) = result-bind (checked (validate_session_name n)) e3 in
    acquire_checked-IsValid r _ fresh g r' v e4

pub transition-IsValid :
    (r : Registry) (lease_id s : Text) (state : LeaseState) (g : Grant) (r' : Registry)
    → IsValid r
    → transition r lease_id s state ≡ ok (g, r')
    → IsValid r'
unfolding transition
transition-IsValid r lease_id s state g r' v e =
    let (_, e1, _) = result-bind (assert_open r) e in
    let ((ref, l), e2, held) = result-bind (require_owned r lease_id s) e1 in
    let (id, found) = require_owned_lem r lease_id s ref l held in
    let (_, at) = find_by_id_lem r id ref l found in
    let (_, same) = true_only (illegal_transition l.state state) (allowed l.state state) e2 in
    subst IsValid (ap (λ p. p.1) same) (notify-IsValid (set_state-IsValid r l v ref state at))

notify_if-IsValid : (b : Bool) (r : Registry) → IsValid r → IsValid (if b then notify r else r)
notify_if-IsValid true r v = notify-IsValid v
notify_if-IsValid false r v = v

release_found-IsValid :
    (r : Registry) (id session : Text) (o : Option (ℕ × StoredLease))
    → IsValid r
    → find_by_id r id ≡ o
    → IsValid (release_found r id session o).1
unfolding release_found
release_found-IsValid r id session none v e = v
release_found-IsValid r id session (some (ref, l)) v e =
    elim (Bool-cases (text_eq l.owner.session_id session)) [
      | inl same ↦
          let (own, at, by_id, by_port) = find_by_id-IsValid r id ref l v e in
          let removed =
            remove_lease-IsValid r l v ref at (ap (λ i. lookup i r.by_id) own ∙ by_id) by_port in
          rw same (
            notify-IsValid
              (subst (λ i. IsValid (remove_lease r (record l { lease_id = i }))) own removed))
      | inr other ↦ rw other v
    ]

pub release-IsValid :
    (r : Registry) (lease_id s : Text) (answer : Bool) (r' : Registry)
    → IsValid r
    → release r lease_id s ≡ ok (answer, r')
    → IsValid r'
unfolding release
release-IsValid r lease_id s answer r' v e =
    let (id, e1, _) = result-bind (checked (validate_opaque_id lease_id 128)) e in
    let (owner_id, e2, _) = result-bind (checked (validate_opaque_id s 256)) e1 in
    subst IsValid (ap (λ p. p.1) (ok-injective e2))
      (release_found-IsValid r id owner_id (find_by_id r id) v refl)

pub release_session-IsValid :
    (r : Registry) (s : Text) (n : ℕ) (r' : Registry)
    → IsValid r
    → release_session r s ≡ ok (n, r')
    → IsValid r'
unfolding release_session
release_session-IsValid r s n r' v e =
    let (owner_id, e1, _) = result-bind (checked (validate_opaque_id s 256)) e in
    subst IsValid (ap (λ p. p.1) (ok-injective e1))
      (notify_if-IsValid _ _ (remove_owned-IsValid r owner_id v))

if-IsValid :
    (b : Bool) (x y : ℕ × Registry) → IsValid x.1 → IsValid y.1 → IsValid (if b then x else y).1
if-IsValid true x y v w = v
if-IsValid false x y v w = w

pub shutdown-IsValid : (r : Registry) → IsValid r → IsValid (shutdown r).1
unfolding shutdown
shutdown-IsValid r v = if-IsValid r.shut_down _ _ v (notify_if-IsValid _ _ (cleared-IsValid r))
