-- ===== src/PortLease/Removal.antt =====
-- Removing the leases of a session (`releaseSession` of
-- src/features/serial/application/port-lease-registry.ts) keeps the registry valid.
use bbcom.Base.{
  ℕ, ◌≡◌, ◌≢◌, ◌⊎◌, inl, inr, refl, sym, ap, subst, ◌∙◌, false, Option, none, some, List, [], ◌∷◌,
  arith, get_elem?, ◌==◌, Bool-cases, ==_iff,
}
use bbcom.Base.Text.{
  Text, text_eq, Dict, lookup, Unique, lookup-delete_absent, lookup-delete_gone,
  lookup-delete_other, lookup-delete_missing, lookup_head, lookup_below,
}
use bbcom.PortLease.{StoredLease, Registry, remove_lease, remove_all, values, owned_by}
use bbcom.PortLease.Invariant.{IsValid, remove_lease-IsValid, remove_missing-IsValid}

-- A lease object that both maps name at its place, or that neither names under its keys.
abbrev Paired : Registry → StoredLease → Type 0
Paired r l =
    ((ref : ℕ) × (get_elem? r.heap ref ≡ some l)
      × (lookup l.lease_id r.by_id ≡ some ref)
      × (lookup l.owner.canonical_port r.by_port ≡ some ref))
    ⊎ ((lookup l.lease_id r.by_id ≡ none) × (lookup l.owner.canonical_port r.by_port ≡ none))

AllPaired : Registry → List StoredLease → Type 0
AllPaired r [] = Unit
AllPaired r (l ∷ ls) = Paired r l × AllPaired r ls

values_found :
    (heap : List StoredLease) (k : Text) (ref : ℕ) (m : Dict ℕ) (l : StoredLease)
    → get_elem? heap ref ≡ some l
    → values heap ((k, ref) ∷ m) ≡ l ∷ values heap m
unfolding values
values_found heap k ref m l g = rw (g, values) refl

module _ (r : Registry) (v : IsValid r) where
  values-AllPaired-within :
      (m : Dict ℕ)
      → Unique m
      → ((k : Text) (ref : ℕ) → lookup k m ≡ some ref → lookup k r.by_id ≡ some ref)
      → AllPaired r (values r.heap m)
  unfolding values AllPaired Unique
  values-AllPaired-within [] u within = tt
  values-AllPaired-within ((k, ref) ∷ m) (free, u) within =
      let (l, g, ei, ep) = v.by_id k ref (within k ref (lookup_head k ref m)) in
      let rest =
        values-AllPaired-within m u (λ j w e. within j w (lookup_below k j ref w m free e)) in
      subst (AllPaired r) (sym (values_found r.heap k ref m l g))
        (inl (ref, g, ap (λ i. lookup i r.by_id) ei ∙ within k ref (lookup_head k ref m), ep), rest)

  values-AllPaired : AllPaired r (values r.heap r.by_id)
  values-AllPaired = values-AllPaired-within r.by_id v.unique (λ k ref e. e)

owned_by-AllPaired :
    (r : Registry) (session : Text) (ls : List StoredLease)
    → AllPaired r ls
    → AllPaired r (owned_by session ls)
unfolding owned_by AllPaired
owned_by-AllPaired r session [] p = tt
owned_by-AllPaired r session (l ∷ ls) (first, p) =
    elim (Bool-cases (text_eq l.owner.session_id session)) [
      | inl same ↦ rw same (first, owned_by-AllPaired r session ls p)
      | inr other ↦ rw other (owned_by-AllPaired r session ls p)
    ]

remove_lease-Paired :
    (r : Registry) (l x : StoredLease) → Paired r l → Paired r x → Paired (remove_lease r l) x
unfolding remove_lease
remove_lease-Paired r l x (inr (no_id, no_port)) (inr (i, p)) = inr (
  lookup-delete_missing l.lease_id x.lease_id r.by_id no_id ∙ i,
  lookup-delete_missing l.owner.canonical_port x.owner.canonical_port r.by_port no_port ∙ p,
)
remove_lease-Paired r l x (inr (no_id, no_port)) (inl (ref, g, i, p)) = inl (
  ref,
  g,
  lookup-delete_missing l.lease_id x.lease_id r.by_id no_id ∙ i,
  lookup-delete_missing l.owner.canonical_port x.owner.canonical_port r.by_port no_port ∙ p,
)
remove_lease-Paired r l x (inl at) (inr (i, p)) = inr (
  lookup-delete_absent l.lease_id x.lease_id r.by_id i,
  lookup-delete_absent l.owner.canonical_port x.owner.canonical_port r.by_port p,
)
remove_lease-Paired r l x (inl (ref, g, i, p)) (inl (ref', g', i', p')) =
    elim (Bool-cases (ref == ref')) [
      | inl same ↦
          let the_lease = same_lease ((==_iff ref ref').0 same) in
          inr (
            lookup-delete_gone l.lease_id x.lease_id r.by_id (ap (λ y. y.lease_id) the_lease),
            lookup-delete_gone l.owner.canonical_port x.owner.canonical_port r.by_port
                (ap (λ y. y.owner.canonical_port) the_lease),
          )
      | inr other ↦ inl (
        ref',
        g',
        lookup-delete_other l.lease_id x.lease_id ref' r.by_id
            (λ e. apart other (sym i ∙ ap (λ j. lookup j r.by_id) e ∙ i')) i',
        lookup-delete_other l.owner.canonical_port x.owner.canonical_port ref' r.by_port
            (λ e. apart other (sym p ∙ ap (λ j. lookup j r.by_port) e ∙ p')) p',
      )
    ]
  where
    same_lease : ref ≡ ref' → l ≡ x
    same_lease e = cc

    apart : (ref == ref') ≡ false → ◌≢◌ {A = Option ℕ} (some ref) (some ref')
    apart other e = ground (arith, other, e)

remove_lease-AllPaired :
    (r : Registry) (l : StoredLease) (xs : List StoredLease)
    → Paired r l
    → AllPaired r xs
    → AllPaired (remove_lease r l) xs
unfolding AllPaired
remove_lease-AllPaired r l [] at p = tt
remove_lease-AllPaired r l (x ∷ xs) at (first, p) =
    (remove_lease-Paired r l x at first, remove_lease-AllPaired r l xs at p)

remove_lease-IsValid-Paired :
    (r : Registry) (l : StoredLease) → IsValid r → Paired r l → IsValid (remove_lease r l)
remove_lease-IsValid-Paired r l v (inl (ref, g, i, p)) = remove_lease-IsValid r l v ref g i p
remove_lease-IsValid-Paired r l v (inr (no_id, no_port)) =
    remove_missing-IsValid r l v no_id no_port

remove_all-IsValid :
    (ls : List StoredLease) (r : Registry) → IsValid r → AllPaired r ls → IsValid (remove_all r ls)
unfolding remove_all AllPaired
remove_all-IsValid [] r v p = v
remove_all-IsValid (l ∷ ls) r v (first, p) =
    remove_all-IsValid ls (remove_lease r l) (remove_lease-IsValid-Paired r l v first)
      (remove_lease-AllPaired r l ls first p)

-- What `release_session` removes.
pub remove_owned-IsValid :
    (r : Registry) (session : Text)
    → IsValid r
    → IsValid (remove_all r (owned_by session (values r.heap r.by_id)))
remove_owned-IsValid r session v =
    remove_all-IsValid (owned_by session (values r.heap r.by_id)) r v
      (owned_by-AllPaired r session (values r.heap r.by_id) (values-AllPaired r v))
