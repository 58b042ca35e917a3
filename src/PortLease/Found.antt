-- ===== src/PortLease/Found.antt =====
-- What the lookups of the port lease registry find
-- (src/features/serial/application/port-lease-registry.ts), and what a call that returns has passed.
use bbcom.Base.{
  ℕ, ◌≡◌, inl, inr, refl, sym, ap, ◌∙◌, Bool, true, false, Option, none, some, Result, ok, err,
  arith, if◌then◌else◌, length, get_elem?, get_elem?-snoc, result-bind, ok-injective, Option-cases,
}
use bbcom.Base.Text.{lookup-insert_same, lookup-delete_gone, Text, text_eq, lookup}
use bbcom.PortLease.{
  Owner, StoredLease, Registry, Failure, freeze_grant, in_use, not_owner, find_by_port, find_by_id,
  add_lease, remove_lease, notify, checked, acquire_free, acquire_checked, require_owned,
}
use bbcom.PortLease.Names.{validate_opaque_id, Invalid}
use bbcom.PortLease.Invariant.{IsValid}

-- What `find_by_port` and `find_by_id` find is what the map names.
pub find_by_port_lem :
    (r : Registry) (p : Text) (ref : ℕ) (l : StoredLease)
    → find_by_port r p ≡ some (ref, l)
    → (lookup p r.by_port ≡ some ref) × (get_elem? r.heap ref ≡ some l)
unfolding find_by_port
find_by_port_lem r p ref l e = ground arith

pub find_by_id_lem :
    (r : Registry) (id : Text) (ref : ℕ) (l : StoredLease)
    → find_by_id r id ≡ some (ref, l)
    → (lookup id r.by_id ≡ some ref) × (get_elem? r.heap ref ≡ some l)
unfolding find_by_id
find_by_id_lem r id ref l e = ground arith

pub find_by_port-none :
    (r : Registry) (p : Text) → IsValid r → find_by_port r p ≡ none → lookup p r.by_port ≡ none
unfolding find_by_port
find_by_port-none r p v e = elim (Option-cases (lookup p r.by_port)) [
  | inl free ↦ free
  | inr (k, at) ↦ let (l, g, _, _) = v.by_port p k at in ground (arith, at, g, e)
]

pub find_by_id-none :
    (r : Registry) (id : Text) → IsValid r → find_by_id r id ≡ none → lookup id r.by_id ≡ none
unfolding find_by_id
find_by_id-none r id v e = elim (Option-cases (lookup id r.by_id)) [
  | inl free ↦ free
  | inr (k, at) ↦ let (l, g, _, _) = v.by_id id k at in ground (arith, at, g, e)
]

-- Tests of a call that returns.
pub none_only :
    {A B : Type 0} (d : Failure) {x y : B} (o : Option A)
    → ◌≡◌ {A = Result Failure B} (elim o [ none ↦ ok x | some a ↦ err d ]) (ok y)
    → (o ≡ none) × (x ≡ y)
none_only d none e = (refl, ok-injective e)
none_only d (some a) e = cc

pub true_only :
    {B : Type 0} (d : Failure) {x y : B} (b : Bool)
    → ◌≡◌ {A = Result Failure B} (if b then ok x else err d) (ok y)
    → (b ≡ true) × (x ≡ y)
true_only d true e = (refl, ok-injective e)
true_only d false e = cc

pub acquire_checked_free :
    (r : Registry) (owner : Owner) (fresh : Text)
    → find_by_port r owner.canonical_port ≡ none
    → acquire_checked r owner fresh ≡ acquire_free r owner fresh
unfolding acquire_checked
acquire_checked_free r owner fresh e = rw (e, acquire_checked) refl

pub acquire_checked_found :
    (r : Registry) (owner : Owner) (fresh : Text) (ref : ℕ) (l : StoredLease)
    → find_by_port r owner.canonical_port ≡ some (ref, l)
    → acquire_checked r owner fresh ≡ (
        if text_eq l.owner.session_id owner.session_id
        then ok (freeze_grant l, r)
        else err (in_use l.owner))
unfolding acquire_checked
acquire_checked_found r owner fresh ref l e = rw (e, acquire_checked) refl

pub require_owned_lem :
    (r : Registry) (lease_id session : Text) (ref : ℕ) (l : StoredLease)
    → require_owned r lease_id session ≡ ok (ref, l)
    → (id : Text) × (find_by_id r id ≡ some (ref, l))
unfolding require_owned
require_owned_lem r lease_id session ref l e =
    let (id, e1, _) = result-bind (checked (validate_opaque_id lease_id 128)) e in
    let (owner_id, e2, _) = result-bind (checked (validate_opaque_id session 256)) e1 in
    (id, owned (find_by_id r id) owner_id e2)
  where
    owned :
        (o : Option (ℕ × StoredLease)) (owner_id : Text)
        → ◌≡◌ {A = Result Failure (ℕ × StoredLease)}
            (elim o [
              | none ↦ err not_owner
              | some (k, x) ↦
                  if text_eq x.owner.session_id owner_id then ok (k, x) else err not_owner
            ])
            (ok (ref, l))
        → o ≡ some (ref, l)
    owned none owner_id e = cc
    owned (some (k, x)) owner_id e =
        ap some (true_only not_owner (text_eq x.owner.session_id owner_id) e).1

-- A lease that is found by an identifier has it, and both maps name its place.
pub find_by_id-IsValid :
    (r : Registry) (id : Text) (ref : ℕ) (l : StoredLease)
    → IsValid r
    → find_by_id r id ≡ some (ref, l)
    → (l.lease_id ≡ id)
      × (get_elem? r.heap ref ≡ some l)
      × (lookup id r.by_id ≡ some ref)
      × (lookup l.owner.canonical_port r.by_port ≡ some ref)
find_by_id-IsValid r id ref l v e =
    let (named, at) = find_by_id_lem r id ref l e in
    let (l0, g, ei, ep) = v.by_id id ref named in
    let same : l0 ≡ l = same_object l0 g at in
    (
      ap (λ x. x.lease_id) (sym same) ∙ ei,
      at,
      named,
      ap (λ x. lookup x.owner.canonical_port r.by_port) (sym same) ∙ ep,
    )
  where
    same_object :
        (l0 : StoredLease) → get_elem? r.heap ref ≡ some l0 → get_elem? r.heap ref ≡ some l → l0 ≡ l
    same_object l0 g at = cc

pub checked_ok : {A : Type 0} (o : Result Invalid A) {a : A} → checked o ≡ ok a → o ≡ ok a
checked_ok (ok a) e = ap ok (ok-injective e)
checked_ok (err d) e = cc

-- A lease that has been entered is found under its port.
pub add_lease_found :
    (r : Registry) (l : StoredLease)
    → find_by_port (notify (add_lease r l)) l.owner.canonical_port ≡ some (length r.heap, l)
unfolding find_by_port add_lease notify
add_lease_found r l = ground (
  arith,
  lookup-insert_same l.owner.canonical_port (length r.heap) r.by_port,
  get_elem?-snoc r.heap l,
)

-- A lease that has been removed is found under neither key.
pub remove_lease_gone :
    (r : Registry) (l : StoredLease)
    → (find_by_id (notify (remove_lease r l)) l.lease_id ≡ none)
      × (find_by_port (notify (remove_lease r l)) l.owner.canonical_port ≡ none)
unfolding find_by_id find_by_port remove_lease notify
remove_lease_gone r l = (
  ground (arith, lookup-delete_gone l.lease_id l.lease_id r.by_id refl),
  ground (arith, lookup-delete_gone l.owner.canonical_port l.owner.canonical_port r.by_port refl),
)
