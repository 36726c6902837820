-- ===== src/Migrate/Pairing.antt =====
-- `pair_maps`: the old and the new identity of every test, if the reports prove one mapping.
pub mod Rounds
pub mod Proof
pub mod Reports
use resq.Base.{
  string_eq, list_eq, Eq, ℕ, String, Bool, true, false, not, ◌&&◌, ◌||◌, List, [], ◌∷◌, Option,
  none, some, ◌==◌, if◌then◌else◌, ◌≡◌, refl, same_set,
}
use resq.Py.Value.{Json, null, obj, Fields, entries}
use resq.Py.Result.{Exn, Result, ok, err, migration_error, key_error, raise_if, ◌>>=◌, ◌>>◌}
use resq.Py.Dict.{Dict, lookup, insert, is_some, keys}
use resq.Py.Access.{get, subscript, iterate, is_dict, truthy, nonempty_str}
use resq.Py.Equal.{is_text}
use resq.Py.Text.{Runtime}
use resq.Py.Hash.{Atom, atom_eq}
use resq.Py.Loops.{fold_m}
use resq.Migrate.Inventory.{manifest, Key, Index, execution_key, parent_key, indexed, conflicts}

abbrev pub current_algorithm : String
current_algorithm = "resq-test-case-id-v3"

abbrev pub Mapping : Type 0
Mapping = Dict String String

abbrev at_key : Option String → Result String
at_key none = err (key_error "key")
at_key (some v) = ok v

-- one round of the loops over `old_exec` and `old_parent`
unfoldable pub pair_key : Index → Mapping → Key × String → Result Mapping
unfolding conflicts
pair_key new_index mapping (key, old_id) = do
  new_id ← at_key (lookup key new_index)
  raise_if (conflicts (lookup old_id mapping) new_id) (migration_error "old ID maps ambiguously")
  ok (insert old_id new_id mapping)

-- one round of the loop that checks that no two old identities meet
unfoldable pub reverse_pair : Mapping → String × String → Result Mapping
unfolding conflicts
reverse_pair reverse (old_id, new_id) = do
  raise_if (conflicts (lookup new_id reverse) old_id) (migration_error "new ID collides")
  ok (insert new_id old_id reverse)

-- the part of `pair_maps` from the four indexes on
unfoldable pub pair_indexes : Index → Index → Index → Index → Result Mapping
unfolding pair_key reverse_pair fold_m
pair_indexes old_exec new_exec old_parent new_parent = do
  by_case ← fold_m (pair_key new_exec) [] old_exec
  mapping ← fold_m (pair_key new_parent) by_case old_parent
  reverse ← fold_m reverse_pair [] mapping
  ok mapping

module _ ⦃r : Runtime⦄ where
  unfoldable pub pair_maps : Json → Json → Result (Mapping × Json)
  unfolding pair_indexes
  pair_maps old new = do
    old_manifest ← manifest old
    new_manifest ← manifest new
    algorithm ← get new_manifest "identityAlgorithm" null
    raise_if (not (is_text algorithm current_algorithm))
        (migration_error "new report must use the current algorithm")
    codec ← get new_manifest "identityCodec" null
    raise_if (not (is_dict codec) || not (truthy codec))
        (migration_error "new report has no identity codec envelope")
    old_tests ← subscript old_manifest "tests"
    old_entries ← iterate old_tests
    new_tests ← subscript new_manifest "tests"
    new_entries ← iterate new_tests
    old_exec ← indexed execution_key "executionId" old_entries
    new_exec ← indexed execution_key "executionId" new_entries
    raise_if (not (same_set (keys old_exec) (keys new_exec)))
        (migration_error "report inventories differ")
    old_parent ← indexed parent_key "testId" old_entries
    new_parent ← indexed parent_key "testId" new_entries
    raise_if (not (same_set (keys old_parent) (keys new_parent)))
        (migration_error "report parent-test inventories differ")
    mapping ← pair_indexes old_exec new_exec old_parent new_parent
    ok (mapping, codec)
