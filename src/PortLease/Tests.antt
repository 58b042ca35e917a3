-- ===== src/PortLease/Tests.antt =====
-- The port lease registry at concrete inputs.
use bbcom.Base.{ℕ, ◌≡◌, ◌⊎◌, refl, true, false, none, some, List, [], ◌∷◌, ok}
use bbcom.Base.Text.{Text, text_eq, lookup, insert, delete}
use bbcom.PortLease.{
  Owner, StoredLease, Grant, Registry, new_registry, find_by_port, find_by_id, add_lease, set_state,
  remove_lease, notify, snapshot, values, sort_leases, insert_lease, assert_open, acquire_free,
  acquire_checked, acquire, require_owned, transition, allowed, release, release_found, connected,
  opening,
}
use bbcom.PortLease.Names.{
  is_space, trim_start, trim_end, trim, contains_control_character, is_alphanumeric, id_rest,
  is_opaque_id, validate_opaque_id, validate_session_name, split_slash, unix_parts, join_parts,
  unix_path, canonicalize_unix_port,
}
use bbcom.PortLease.Invariant.{new_registry-IsValid}
use bbcom.PortLease.History.{
  Call, acquire_call, transition_call, release_call, next_registry, run, run-exclusive,
}
use bbcom.PortLease.Ownership.{acquire-acquire, release-outcome}

abbrev dev_a : Text
dev_a = b'/' ∷ b'd' ∷ b'e' ∷ b'v' ∷ b'/' ∷ b'/' ∷ b'a' ∷ []

abbrev dev_a_canonical : Text
dev_a_canonical = b'/' ∷ b'd' ∷ b'e' ∷ b'v' ∷ b'/' ∷ b'a' ∷ []

abbrev dev_b : Text
dev_b = b'/' ∷ b'd' ∷ b'e' ∷ b'v' ∷ b'/' ∷ b'b' ∷ []

abbrev alice : Text
alice = b's' ∷ b'1' ∷ []

abbrev bob : Text
bob = b's' ∷ b'2' ∷ []

abbrev first_id : Text
first_id = b'l' ∷ b'1' ∷ []

abbrev second_id : Text
second_id = b'l' ∷ b'2' ∷ []

abbrev owner_a : Owner
owner_a = record { session_id = alice; session_name = alice; canonical_port = dev_a_canonical }

abbrev lease_a : StoredLease
lease_a = record { lease_id = first_id; owner = owner_a; state = opening; sequence = 0 }

abbrev grant_a : Grant
grant_a = record { lease_id = first_id; owner = owner_a; state = opening }

abbrev one_lease : Registry
one_lease = record {
  heap = lease_a ∷ [];
  by_port = (dev_a_canonical, 0) ∷ [];
  by_id = (first_id, 0) ∷ [];
  sequence = 1;
  shut_down = false;
  told = (grant_a ∷ []) ∷ [];
}

acquired :
    acquire canonicalize_unix_port new_registry dev_a alice alice first_id ≡ ok (grant_a, one_lease)
unfolding acquire acquire_checked acquire_free find_by_port assert_open add_lease notify snapshot
    values sort_leases insert_lease lookup insert text_eq canonicalize_unix_port unix_path
    unix_parts split_slash join_parts validate_opaque_id validate_session_name
    contains_control_character is_opaque_id id_rest is_alphanumeric trim trim_start trim_end
    is_space
acquired = refl

again : acquire canonicalize_unix_port one_lease dev_a alice bob second_id ≡ ok (grant_a, one_lease)
unfolding acquire acquire_checked acquire_free find_by_port assert_open add_lease notify snapshot
    values sort_leases insert_lease lookup insert text_eq canonicalize_unix_port unix_path
    unix_parts split_slash join_parts validate_opaque_id validate_session_name
    contains_control_character is_opaque_id id_rest is_alphanumeric trim trim_start trim_end
    is_space
again = refl

acquire-acquire_example :
    (validate_opaque_id alice 256 ≡ ok alice) × (grant_a ≡ grant_a) × (one_lease ≡ one_lease)
acquire-acquire_example =
    acquire-acquire canonicalize_unix_port new_registry dev_a alice alice first_id alice bob
      second_id grant_a grant_a one_lease one_lease new_registry-IsValid acquired again

abbrev released : Registry
released = record one_lease { by_port = []; by_id = []; told = [] ∷ (grant_a ∷ []) ∷ [] }

freed : release one_lease first_id alice ≡ ok (true, released)
unfolding release release_found find_by_id remove_lease notify snapshot values sort_leases
    insert_lease lookup delete text_eq validate_opaque_id is_opaque_id id_rest is_alphanumeric trim
    trim_start trim_end is_space
freed = refl

release-outcome_example :
    ((true ≡ true)
      × (id : Text) × (ref : ℕ) × (l : StoredLease) × (find_by_id one_lease id ≡ some (ref, l))
      × (validate_opaque_id first_id 128 ≡ ok id)
      × (validate_opaque_id alice 256 ≡ ok l.owner.session_id)
      × (find_by_id released id ≡ none)
      × (find_by_port released l.owner.canonical_port ≡ none))
    ⊎ ((true ≡ false) × (released ≡ one_lease))
release-outcome_example = release-outcome one_lease first_id alice true released freed

-- Two sessions take two ports, a third call is refused and one lease moves on.
abbrev history : List Call
history =
    acquire_call dev_a alice alice first_id
    ∷ acquire_call dev_b bob bob second_id
    ∷ acquire_call dev_a bob bob second_id
    ∷ transition_call second_id bob connected
    ∷ release_call second_id alice
    ∷ []

abbrev lease_b : StoredLease
lease_b = record {
  lease_id = second_id;
  owner = record { session_id = bob; session_name = bob; canonical_port = dev_b };
  state = connected;
  sequence = 1;
}

reached : find_by_id (run canonicalize_unix_port new_registry history) second_id ≡ some (1, lease_b)
unfolding run next_registry acquire acquire_checked acquire_free find_by_port find_by_id assert_open
    add_lease notify snapshot values sort_leases insert_lease lookup insert text_eq
    canonicalize_unix_port unix_path unix_parts split_slash join_parts validate_opaque_id
    validate_session_name contains_control_character is_opaque_id id_rest is_alphanumeric trim
    trim_start trim_end is_space transition require_owned set_state allowed release release_found
    remove_lease delete
reached = refl

run-exclusive_example : (second_id ≡ second_id) × (◌≡◌ {A = ℕ} 1 1) × (lease_b ≡ lease_b)
run-exclusive_example =
    run-exclusive canonicalize_unix_port history second_id second_id 1 1 lease_b lease_b reached
      reached refl
