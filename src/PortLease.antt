-- ===== src/PortLease.antt =====
-- src/features/serial/application/port-lease-registry.ts: which session owns which serial port.
-- Both maps of the registry hold references to the same mutable lease objects. So a lease is an object
-- on a heap, and a map takes a key to the place of an object. The canonicalizer is an option of the
-- constructor and a parameter here; the identifier that the factory makes is an argument of `acquire`.
-- What listeners are told is a log of snapshots: an exception of one changes nothing, and a listener
-- that calls the registry back is not modelled.
pub mod Names
pub mod Invariant
pub mod Removal
pub mod Found
pub mod Calls
pub mod Ownership
pub mod History
mod Tests
use bbcom.Base.{
  ℕ, zero, suc, ◌+◌, ◌<◌, Bool, true, false, not, ◌&&◌, ◌||◌, Option, none, some, List, [], ◌∷◌,
  ◌++◌, map, Result, ok, err, ◌>>=◌, ltb, leb, ◌==◌, if◌then◌else◌, length, get_elem?, set,
}
use bbcom.Base.Text.{Text, text_eq, Dict, lookup, insert, delete}
use Names.{validate_opaque_id, validate_session_name, Invalid}

pub data LeaseState : Type 0 where
  opening connected reconnecting failed closing : LeaseState

-- `ALLOWED_TRANSITIONS`
unfoldable pub allowed : LeaseState → LeaseState → Bool
allowed opening connected = true
allowed opening failed = true
allowed opening closing = true
allowed connected reconnecting = true
allowed connected failed = true
allowed connected closing = true
allowed reconnecting connected = true
allowed reconnecting failed = true
allowed reconnecting closing = true
allowed _ _ = false

pub record Owner : Type 0 where
  pub session_id : Text
  pub session_name : Text
  pub canonical_port : Text

pub record StoredLease : Type 0 where
  pub lease_id : Text
  pub owner : Owner
  pub state : LeaseState
  pub sequence : ℕ

pub record Grant : Type 0 where
  pub lease_id : Text
  pub owner : Owner
  pub state : LeaseState

pub record Registry : Type 0 where
  pub heap : List StoredLease
  pub by_port : Dict ℕ
  pub by_id : Dict ℕ
  pub sequence : ℕ
  pub shut_down : Bool
  pub told : List (List Grant)

pub data Failure : Type 0 where
  invalid : Failure
  in_use : Owner → Failure
  illegal_transition : LeaseState → LeaseState → Failure
  not_owner : Failure
  registry_shut_down : Failure
  id_collision : Failure

abbrev pub new_registry : Registry
new_registry = record {
  heap = [];
  by_port = [];
  by_id = [];
  sequence = 0;
  shut_down = false;
  told = [];
}

abbrev pub freeze_grant : StoredLease → Grant
freeze_grant l = record { lease_id = l.lease_id; owner = l.owner; state = l.state }

-- The object that a map has under a key, with its place.
abbrev deref : List StoredLease → Option ℕ → Option (ℕ × StoredLease)
deref heap none = none
deref heap (some ref) = elim (get_elem? heap ref) [ none ↦ none | some l ↦ some (ref, l) ]

unfoldable pub find_by_port : Registry → Text → Option (ℕ × StoredLease)
find_by_port r port = deref r.heap (lookup port r.by_port)

unfoldable pub find_by_id : Registry → Text → Option (ℕ × StoredLease)
find_by_id r id = deref r.heap (lookup id r.by_id)

-- The objects of the map `leasesById`, oldest entry first.
unfoldable pub values : List StoredLease → Dict ℕ → List StoredLease
values heap [] = []
values heap ((k, ref) ∷ m) = elim (get_elem? heap ref) [
  | none ↦ values heap m
  | some l ↦ l ∷ values heap m
]

-- `sort` by the sequence numbers; equal numbers keep their order.
unfoldable pub insert_lease : StoredLease → List StoredLease → List StoredLease
insert_lease l [] = l ∷ []
insert_lease l (x ∷ xs) = if leb l.sequence x.sequence then l ∷ x ∷ xs else x ∷ insert_lease l xs

unfoldable pub sort_leases : List StoredLease → List StoredLease
unfolding insert_lease
sort_leases [] = []
sort_leases (x ∷ xs) = insert_lease x (sort_leases xs)

unfoldable pub snapshot : Registry → List Grant
unfolding values sort_leases
snapshot r = map freeze_grant (sort_leases (values r.heap r.by_id))

unfoldable pub notify : Registry → Registry
notify r = record r { told = snapshot r ∷ r.told }

unfoldable pub assert_open : Registry → Result Failure (Unit {0})
assert_open r = if r.shut_down then err registry_shut_down else ok tt

abbrev checked : {A : Type 0} → Result Invalid A → Result Failure A
checked (ok a) = ok a
checked (err e) = err invalid

-- A new lease object, entered in both maps.
unfoldable pub add_lease : Registry → StoredLease → Registry
add_lease r l = record r {
  heap = r.heap ++ l ∷ [];
  by_port = insert l.owner.canonical_port (length r.heap) r.by_port;
  by_id = insert l.lease_id (length r.heap) r.by_id;
  sequence = r.sequence + 1;
}

-- The part of `acquire` for a port that has no lease.
unfoldable pub acquire_free : Registry → Owner → Text → Result Failure (Grant × Registry)
acquire_free r owner fresh = do
  lease_id ← checked (validate_opaque_id fresh 128)
  let lease : StoredLease = record {
    lease_id = lease_id;
    owner = owner;
    state = opening;
    sequence = r.sequence;
  }
  elim (lookup lease_id r.by_id) [
    | some ref ↦ err id_collision
    | none ↦ ok (freeze_grant lease, notify (add_lease r lease))
  ]

unfoldable pub acquire_checked : Registry → Owner → Text → Result Failure (Grant × Registry)
acquire_checked r owner fresh = elim (find_by_port r owner.canonical_port) [
  | some (ref, existing) ↦
      if text_eq existing.owner.session_id owner.session_id
      then ok (freeze_grant existing, r)
      else err (in_use existing.owner)
  | none ↦ acquire_free r owner fresh
]

module _ (canonicalizer : Text → Result Invalid Text) where
  unfoldable pub acquire : Registry → Text → Text → Text → Text → Result Failure (Grant × Registry)
  acquire r canonical_port session_id session_name fresh = do
    _ ← assert_open r
    port ← checked (canonicalizer canonical_port)
    owner_id ← checked (validate_opaque_id session_id 256)
    owner_name ← checked (validate_session_name session_name)
    acquire_checked r
        (record { session_id = owner_id; session_name = owner_name; canonical_port = port }) fresh

  unfoldable pub get_by_port : Registry → Text → Result Failure (Option Grant)
  get_by_port r port = do
    key ← checked (canonicalizer port)
    ok (elim (find_by_port r key) [ none ↦ none | some (ref, l) ↦ some (freeze_grant l) ])

unfoldable pub require_owned : Registry → Text → Text → Result Failure (ℕ × StoredLease)
require_owned r lease_id session_id = do
  id ← checked (validate_opaque_id lease_id 128)
  session ← checked (validate_opaque_id session_id 256)
  elim (find_by_id r id) [
    | none ↦ err not_owner
    | some (ref, l) ↦ if text_eq l.owner.session_id session then ok (ref, l) else err not_owner
  ]

-- `lease.state = state` on the shared object.
unfoldable pub set_state : Registry → ℕ → StoredLease → LeaseState → Registry
set_state r ref l state = record r { heap = set r.heap ref (record l { state = state }) }

unfoldable pub transition : Registry → Text → Text → LeaseState → Result Failure (Grant × Registry)
transition r lease_id session_id state = do
  _ ← assert_open r
  (ref, l) ← require_owned r lease_id session_id
  if allowed l.state state
      then ok (freeze_grant (record l { state = state }), notify (set_state r ref l state))
      else err (illegal_transition l.state state)

unfoldable pub remove_lease : Registry → StoredLease → Registry
remove_lease r l = record r {
  by_id = delete l.lease_id r.by_id;
  by_port = delete l.owner.canonical_port r.by_port;
}

-- `release` of the lease that the map of identifiers has, if it has one.
unfoldable pub release_found : Registry → Text → Text → Option (ℕ × StoredLease) → Bool × Registry
release_found r id session none = (false, r)
release_found r id session (some (ref, l)) =
    if text_eq l.owner.session_id session
    then (true, notify (remove_lease r (record l { lease_id = id })))
    else (false, r)

unfoldable pub release : Registry → Text → Text → Result Failure (Bool × Registry)
release r lease_id session_id = do
  id ← checked (validate_opaque_id lease_id 128)
  session ← checked (validate_opaque_id session_id 256)
  ok (release_found r id session (find_by_id r id))

-- The leases of a session.
unfoldable pub owned_by : Text → List StoredLease → List StoredLease
owned_by session [] = []
owned_by session (l ∷ ls) =
    if text_eq l.owner.session_id session then l ∷ owned_by session ls else owned_by session ls

unfoldable pub remove_all : Registry → List StoredLease → Registry
remove_all r [] = r
remove_all r (l ∷ ls) = remove_all (remove_lease r l) ls

unfoldable pub release_session : Registry → Text → Result Failure (ℕ × Registry)
release_session r session_id = do
  session ← checked (validate_opaque_id session_id 256)
  let owned = owned_by session (values r.heap r.by_id)
  let r' = remove_all r owned
  ok (length owned, if ltb 0 (length owned) then notify r' else r')

pub get_by_session : Registry → Text → Result Failure (List Grant)
get_by_session r session_id = do
  session ← checked (validate_opaque_id session_id 256)
  ok (map freeze_grant (sort_leases (owned_by session (values r.heap r.by_id))))

unfoldable pub shutdown : Registry → ℕ × Registry
shutdown r =
    if r.shut_down
    then (0, r)
    else (let r' = record r { shut_down = true; by_id = []; by_port = [] } in
        (length r.by_id, if ltb 0 (length r.by_id) then notify r' else r'))
