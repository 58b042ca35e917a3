-- ===== src/PortLease/History.antt =====
-- Histories of calls of the port lease registry
-- (src/features/serial/application/port-lease-registry.ts), from a new one.
use bbcom.Base.{ℕ, ◌≡◌, refl, sym, ap, ◌∙◌, Option, some, List, [], ◌∷◌, Result, ok, err, get_elem?}
use bbcom.Base.Text.{Text, lookup}
use bbcom.PortLease.{
  LeaseState, StoredLease, Registry, Failure, new_registry, find_by_id, acquire, transition,
  release, release_session, shutdown,
}
use bbcom.PortLease.Names.{Invalid}
use bbcom.PortLease.Invariant.{IsValid, new_registry-IsValid}
use bbcom.PortLease.Found.{find_by_id-IsValid}
use bbcom.PortLease.Calls.{
  acquire-IsValid, transition-IsValid, release-IsValid, release_session-IsValid, shutdown-IsValid,
}

some-injective : {a b : ℕ} → ◌≡◌ {A = Option ℕ} (some a) (some b) → a ≡ b
some-injective e = cc

same_object :
    (r : Registry) {a b : ℕ} {l m : StoredLease}
    → get_elem? r.heap a ≡ some l
    → get_elem? r.heap b ≡ some m
    → ◌≡◌ {A = Option ℕ} (some a) (some b)
    → l ≡ m
same_object r f g e = cc

pub data Call : Type 0 where
  acquire_call : Text → Text → Text → Text → Call
  transition_call : Text → Text → LeaseState → Call
  release_call : Text → Text → Call
  release_session_call : Text → Call
  shutdown_call : Call

-- The registry after a call: as it was, when the call throws.
abbrev after : {A : Type 0} → Registry → Result Failure (A × Registry) → Registry
after r (ok (a, r')) = r'
after r (err e) = r

after-IsValid :
    {A : Type 0} (r : Registry) (o : Result Failure (A × Registry))
    → IsValid r
    → ((a : A) (r' : Registry) → o ≡ ok (a, r') → IsValid r')
    → IsValid (after r o)
after-IsValid r (ok (a, r')) v next = next a r' refl
after-IsValid r (err e) v next = v

module _ (canonicalizer : Text → Result Invalid Text) where
  unfoldable pub next_registry : Registry → Call → Registry
  next_registry r (acquire_call p s n fresh) = after r (acquire canonicalizer r p s n fresh)
  next_registry r (transition_call id s state) = after r (transition r id s state)
  next_registry r (release_call id s) = after r (release r id s)
  next_registry r (release_session_call s) = after r (release_session r s)
  next_registry r shutdown_call = (shutdown r).1

  unfoldable pub run : Registry → List Call → Registry
  unfolding next_registry
  run r [] = r
  run r (c ∷ calls) = run (next_registry r c) calls

  next_registry-IsValid : (r : Registry) (c : Call) → IsValid r → IsValid (next_registry r c)
  unfolding next_registry
  next_registry-IsValid r (acquire_call p s n fresh) v =
      after-IsValid r (acquire canonicalizer r p s n fresh) v
        (λ g r' e. acquire-IsValid canonicalizer r p s n fresh g r' v e)
  next_registry-IsValid r (transition_call id s state) v =
      after-IsValid r (transition r id s state) v
        (λ g r' e. transition-IsValid r id s state g r' v e)
  next_registry-IsValid r (release_call id s) v =
      after-IsValid r (release r id s) v (λ b r' e. release-IsValid r id s b r' v e)
  next_registry-IsValid r (release_session_call s) v =
      after-IsValid r (release_session r s) v (λ n r' e. release_session-IsValid r s n r' v e)
  next_registry-IsValid r shutdown_call v = shutdown-IsValid r v

  run-IsValid : (r : Registry) (calls : List Call) → IsValid r → IsValid (run r calls)
  unfolding run
  run-IsValid r [] v = v
  run-IsValid r (c ∷ calls) v = run-IsValid (next_registry r c) calls (next_registry-IsValid r c v)

  -- After any sequence of calls on a new registry, two leases that are found by identifiers and are for
  -- the same port are one lease under one identifier.
  pub run-exclusive :
      (calls : List Call) (i j : Text) (a b : ℕ) (l m : StoredLease)
      → find_by_id (run new_registry calls) i ≡ some (a, l)
      → find_by_id (run new_registry calls) j ≡ some (b, m)
      → l.owner.canonical_port ≡ m.owner.canonical_port
      → (i ≡ j) × (a ≡ b) × (l ≡ m)
  run-exclusive calls i j a b l m e f same =
      let v = run-IsValid new_registry calls new_registry-IsValid in
      let (own_l, at_l, _, port_l) = find_by_id-IsValid (run new_registry calls) i a l v e in
      let (own_m, at_m, _, port_m) = find_by_id-IsValid (run new_registry calls) j b m v f in
      let place = sym port_l ∙ ap (λ p. lookup p (run new_registry calls).by_port) same ∙ port_m in
      let object = same_object (run new_registry calls) at_l at_m place in
      (sym own_l ∙ ap (λ x. x.lease_id) object ∙ own_m, some-injective place, object)
