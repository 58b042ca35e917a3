-- ===== src/PortLease/Invariant.antt =====
-- The two maps of the port lease registry (src/features/serial/application/port-lease-registry.ts)
-- always name the same leases.
use bbcom.Base.{
  ℕ, ◌≡◌, inl, inr, refl, sym, ap, ◌∙◌, true, Option, none, some, [], ◌∷◌, ◌++◌, arith, ◌==◌,
  length, get_elem?, set, get_elem?-append, get_elem?-snoc, get_elem?-set, Bool-cases,
}
use bbcom.Base.Text.{
  Text, lookup, insert, delete, lookup-insert-cases, lookup-insert_same, lookup-insert_other,
  lookup-delete-cases, lookup-delete_other, lookup-delete_missing, Unique, insert-Unique,
  delete-Unique,
}
use bbcom.PortLease.{
  LeaseState, StoredLease, Registry, new_registry, add_lease, set_state, remove_lease, notify,
}

-- The entry of a port is the lease of that port, which stands in the other map under its identifier.
abbrev pub PortEntry : Registry → Text → ℕ → Type 0
PortEntry r p ref =
    (l : StoredLease) × (get_elem? r.heap ref ≡ some l)
    × (l.owner.canonical_port ≡ p)
    × (lookup l.lease_id r.by_id ≡ some ref)

abbrev pub IdEntry : Registry → Text → ℕ → Type 0
IdEntry r id ref =
    (l : StoredLease) × (get_elem? r.heap ref ≡ some l)
    × (l.lease_id ≡ id)
    × (lookup l.owner.canonical_port r.by_port ≡ some ref)

pub record IsValid (r : Registry) : Type 0 where
  pub by_port : (p : Text) (ref : ℕ) → lookup p r.by_port ≡ some ref → PortEntry r p ref
  pub by_id : (id : Text) (ref : ℕ) → lookup id r.by_id ≡ some ref → IdEntry r id ref
  pub unique : Unique r.by_id

pub new_registry-IsValid : IsValid new_registry
unfolding lookup Unique
new_registry-IsValid = record { by_port = λ p ref e. cc; by_id = λ id ref e. cc; unique = tt }

-- `shutdown` clears both maps.
pub cleared-IsValid :
    (r : Registry) → IsValid (record r { shut_down = true; by_id = []; by_port = [] })
unfolding lookup Unique
cleared-IsValid r = record { by_port = λ p ref e. cc; by_id = λ id ref e. cc; unique = tt }

pub notify-IsValid : {r : Registry} → IsValid r → IsValid (notify r)
unfolding notify
notify-IsValid v = record { by_port = v.by_port; by_id = v.by_id; unique = v.unique }

module _ (r : Registry) (l : StoredLease) (v : IsValid r) where
  pub add_lease-IsValid :
      lookup l.owner.canonical_port r.by_port ≡ none
      → lookup l.lease_id r.by_id ≡ none
      → IsValid (add_lease r l)
  unfolding add_lease
  add_lease-IsValid free fresh = record {
    by_port = port;
    by_id = ident;
    unique = insert-Unique l.lease_id (length r.heap) r.by_id v.unique;
  }
    where
      new : (ref : ℕ) → ref ≡ length r.heap → get_elem? (r.heap ++ l ∷ []) ref ≡ some l
      new ref e = rw e (get_elem?-snoc r.heap l)

      port :
          (p : Text) (ref : ℕ)
          → lookup p (insert l.owner.canonical_port (length r.heap) r.by_port) ≡ some ref
          → PortEntry (add_lease r l) p ref
      port p ref e =
          elim (lookup-insert-cases l.owner.canonical_port p (length r.heap) ref r.by_port e) [
            | inl (same, at) ↦
                (l, new ref at, same, rw at (lookup-insert_same l.lease_id (length r.heap) r.by_id))
            | inr (other, old) ↦
                let (l0, g, ep, ei) = v.by_port p ref old in
                (
                  l0,
                  get_elem?-append r.heap (l ∷ []) ref l0 g,
                  ep,
                  lookup-insert_other l.lease_id l0.lease_id (length r.heap) ref r.by_id fresh ei,
                )
          ]

      ident :
          (id : Text) (ref : ℕ)
          → lookup id (insert l.lease_id (length r.heap) r.by_id) ≡ some ref
          → IdEntry (add_lease r l) id ref
      ident id ref e = elim (lookup-insert-cases l.lease_id id (length r.heap) ref r.by_id e) [
        | inl (same, at) ↦ (
          l,
          new ref at,
          same,
          rw at (lookup-insert_same l.owner.canonical_port (length r.heap) r.by_port),
        )
        | inr (other, old) ↦
            let (l0, g, ei, ep) = v.by_id id ref old in
            (
              l0,
              get_elem?-append r.heap (l ∷ []) ref l0 g,
              ei,
              lookup-insert_other l.owner.canonical_port l0.owner.canonical_port (length r.heap) ref
                  r.by_port free ep,
            )
      ]

  -- The lease goes from both maps, when it is found under its identifier.
  pub remove_lease-IsValid :
      (ref : ℕ)
      → get_elem? r.heap ref ≡ some l
      → lookup l.lease_id r.by_id ≡ some ref
      → lookup l.owner.canonical_port r.by_port ≡ some ref
      → IsValid (remove_lease r l)
  unfolding remove_lease
  remove_lease-IsValid ref at by_id by_port = record {
    by_port = port;
    by_id = ident;
    unique = delete-Unique l.lease_id r.by_id v.unique;
  }
    where
      the_lease :
          (k : ℕ) (l0 : StoredLease)
          → get_elem? r.heap k ≡ some l0
          → ◌≡◌ {A = Option ℕ} (some k) (some ref)
          → l ≡ l0
      the_lease k l0 g e = cc

      port :
          (p : Text) (k : ℕ)
          → lookup p (delete l.owner.canonical_port r.by_port) ≡ some k
          → PortEntry (remove_lease r l) p k
      port p k e =
          let (other, old) = lookup-delete-cases l.owner.canonical_port p k r.by_port e in
          let (l0, g, ep, ei) = v.by_port p k old in
          (
            l0,
            g,
            ep,
            lookup-delete_other l.lease_id l0.lease_id k r.by_id
                (λ same. other (
                  ap (λ x. x.owner.canonical_port)
                    (the_lease k l0 g (sym ei ∙ ap (λ i. lookup i r.by_id) (sym same) ∙ by_id))
                  ∙ ep))
                ei,
          )

      ident :
          (id : Text) (k : ℕ)
          → lookup id (delete l.lease_id r.by_id) ≡ some k
          → IdEntry (remove_lease r l) id k
      ident id k e =
          let (other, old) = lookup-delete-cases l.lease_id id k r.by_id e in
          let (l0, g, ei, ep) = v.by_id id k old in
          (
            l0,
            g,
            ei,
            lookup-delete_other l.owner.canonical_port l0.owner.canonical_port k r.by_port
                (λ same. other (
                  ap (λ x. x.lease_id)
                    (the_lease k l0 g (sym ep ∙ ap (λ i. lookup i r.by_port) (sym same) ∙ by_port))
                  ∙ ei))
                ep,
          )

  -- Removing a lease that neither map has changes nothing.
  pub remove_missing-IsValid :
      lookup l.lease_id r.by_id ≡ none
      → lookup l.owner.canonical_port r.by_port ≡ none
      → IsValid (remove_lease r l)
  unfolding remove_lease
  remove_missing-IsValid no_id no_port = record {
    by_port = λ p k e.
        (let (l0, g, ep, ei) =
            v.by_port p k
              (sym (lookup-delete_missing l.owner.canonical_port p r.by_port no_port) ∙ e) in
          (l0, g, ep, lookup-delete_missing l.lease_id l0.lease_id r.by_id no_id ∙ ei));
    by_id = λ id k e.
        (let (l0, g, ei, ep) =
            v.by_id id k (sym (lookup-delete_missing l.lease_id id r.by_id no_id) ∙ e) in
          (
            l0,
            g,
            ei,
            lookup-delete_missing l.owner.canonical_port l0.owner.canonical_port r.by_port no_port
                ∙ ep,
          ));
    unique = delete-Unique l.lease_id r.by_id v.unique;
  }

  -- The place of the lease keeps its identifier and its owner.
  pub set_state-IsValid :
      (ref : ℕ) (state : LeaseState)
      → get_elem? r.heap ref ≡ some l
      → IsValid (set_state r ref l state)
  unfolding set_state
  set_state-IsValid ref state at = record { by_port = port; by_id = ident; unique = v.unique }
    where
      updated : StoredLease
      updated = record l { state = state }

      same_lease : (k : ℕ) (l0 : StoredLease) → get_elem? r.heap k ≡ some l0 → ref ≡ k → l ≡ l0
      same_lease k l0 g e = cc

      kept :
          (k : ℕ) (l0 : StoredLease)
          → get_elem? r.heap k ≡ some l0
          → (l1 : StoredLease) × (get_elem? (set r.heap ref updated) k ≡ some l1)
            × (l1.lease_id ≡ l0.lease_id)
            × (l1.owner ≡ l0.owner)
      kept k l0 g = elim (Bool-cases (ref == k)) [
        | inl same ↦
            let the_lease = same_lease k l0 g (ground (arith, same)) in
            (
              updated,
              get_elem?-set r.heap ref k updated at ∙ rw same refl,
              ap (λ x. x.lease_id) the_lease,
              ap (λ x. x.owner) the_lease,
            )
        | inr other ↦ (l0, get_elem?-set r.heap ref k updated at ∙ rw other g, refl, refl)
      ]

      port :
          (p : Text) (k : ℕ) → lookup p r.by_port ≡ some k → PortEntry (set_state r ref l state) p k
      port p k e =
          let (l0, g, ep, ei) = v.by_port p k e in
          let (l1, g1, same_id, same_owner) = kept k l0 g in
          (
            l1,
            g1,
            ap (λ o. o.canonical_port) same_owner ∙ ep,
            ap (λ i. lookup i r.by_id) same_id ∙ ei,
          )

      ident :
          (id : Text) (k : ℕ) → lookup id r.by_id ≡ some k → IdEntry (set_state r ref l state) id k
      ident id k e =
          let (l0, g, ei, ep) = v.by_id id k e in
          let (l1, g1, same_id, same_owner) = kept k l0 g in
          (l1, g1, same_id ∙ ei, ap (λ o. lookup o.canonical_port r.by_port) same_owner ∙ ep)
