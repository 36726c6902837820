-- ===== src/Merge/Inventory.antt =====
-- `validate_inventory`: every shard's manifest agrees with the assignment of tests to shards.
pub mod Assigned
pub mod Manifests
pub mod Ordered
pub mod Selection
use resq.Base.{
  string_eq, list_eq, String, Bool, true, not, ◌&&◌, ◌||◌, List, [], ◌∷◌, ◌++◌, map, Option, none,
  some, ◌==◌, bool_eq, same_set, if◌then◌else◌,
}
use resq.Py.Value.{Json, null, bool, int, str, arr, nil, negsuc}
use resq.Py.Result.{Result, ok, merge_error, raise_if, ◌>>=◌, ◌>>◌}
use resq.Py.Dict.{Dict, lookup, insert, is_some, keys, values}
use resq.Py.Access.{get, subscript, iterate, truthy, set_item, is_int}
use resq.Py.Equal.{py_eq, is_text}
use resq.Py.Hash.{Atom, text, hashed, atom_eq}
use resq.Py.Order.{range_bound, in_range, less_tuple, sort_m}
use resq.Py.Text.{Runtime}
use resq.Py.Loops.{fold_m, each, map_m, filter_m, any_m}
use resq.Merge.Shared.{execution_id, differs, normalize_inventory, shard_of, shard_index}

abbrev pub Rows : Type 0
Rows = Dict String Json

-- `entry.get("selected")`, as a truth value
unfoldable pub is_selected : Json → Result Bool
is_selected entry = do selected ← get entry "selected" null; ok (truthy selected)

unfoldable pub is_shardable : Json → Result Bool
is_shardable entry = do shardable ← get entry "shardable" (bool true); ok (truthy shardable)

-- the second loop over a manifest: the selection follows the assignment
unfoldable pub check_selection : Json → String × Json → Result (Unit {0})
unfolding is_selected is_shardable
check_selection index (identity, entry) = do
  assigned ← subscript entry "assignedShard"
  shardable ← is_shardable entry
  selected ← is_selected entry
  raise_if (shardable && not (bool_eq selected (py_eq assigned index)))
      (merge_error "selection disagrees with assignment")
  raise_if (not shardable && not selected) (merge_error "run-level execution must be selected")
  ok tt

-- `{identity for identity, entry in local.items() if entry.get("selected")}`
unfoldable pub selected_ids : Rows → Result (List String)
unfolding is_selected filter_m
selected_ids local = do chosen ← filter_m (λ item. is_selected item.1) local; ok (keys chosen)

-- the declared identities of a shard are those that its manifest selects
unfoldable pub check_declared : Json → List String → Result (Unit {0})
check_declared shard expected = do
  listed ← get shard "selectedExecutionIds" (arr nil)
  elements ← iterate listed
  declared ← map_m hashed elements
  raise_if (not (same_set declared (map text expected)))
      (merge_error "selectedExecutionIds disagrees with manifest assignment")
  ok tt

-- the order of the merged manifest
unfoldable pub sort_key : Json → Result (List Atom)
sort_key entry = do
  file ← get entry "file" (str "")
  suite ← get entry "suite" (str "")
  line ← get entry "line" null
  description ← get entry "description" (str "")
  identity ← subscript entry "executionId"
  a ← hashed file
  b ← hashed suite
  c ← hashed (if is_int line then line else int (negsuc 0))
  d ← hashed description
  e ← hashed identity
  ok (a ∷ b ∷ c ∷ d ∷ e ∷ [])

unfoldable pub keyed : Json → Result (List Atom × Json)
unfolding sort_key
keyed entry = do key ← sort_key entry; ok (key, entry)

-- `sorted(union.values(), …)`, with every entry then marked as selected
unfoldable pub ordered_entries : Rows → Result (List Json)
unfolding keyed
ordered_entries union = do
  pairs ← map_m keyed (values union)
  sorted ← sort_m (λ a b. less_tuple a.0 b.0) pairs
  map_m (λ pair. set_item pair.1 "selected" (bool true)) sorted

module _ ⦃r : Runtime⦄ where
  -- an entry that is known from another shard is the same there, but for its selection
  unfoldable pub check_known : Option Json → Json → Result (Unit {0})
  unfolding differs normalize_inventory
  check_known none normalized = ok tt
  check_known (some known) normalized = do
    other ← normalize_inventory known
    different ← differs other normalized
    raise_if different (merge_error "manifest identity differs across shards")
    ok tt

  -- `union.setdefault(identity, …)`
  unfoldable pub set_default : String → Json → Rows → Rows
  set_default identity entry union =
      if is_some (lookup identity union) then union else insert identity entry union

  -- the first loop over a manifest
  unfoldable pub add_entry : Json → Rows × Rows → Json → Result (Rows × Rows)
  unfolding check_known set_default execution_id
  add_entry shard_count (local, union) entry = do
    identity ← execution_id entry
    stated ← get entry "executionId" null
    raise_if (identity == "" || not (is_text stated identity))
        (merge_error "malformed execution identity")
    raise_if (is_some (lookup identity local)) (merge_error "duplicate manifest identity")
    assigned ← get entry "assignedShard" null
    bound ← range_bound shard_count
    raise_if (not (in_range assigned bound)) (merge_error "invalid assignment")
    normalized ← normalize_inventory entry
    check_known (lookup identity union) normalized
    ok (insert identity entry local, set_default identity entry union)

  -- one shard: its manifest is added to the union, and the identities that it has to run are returned
  unfoldable pub add_shard :
      Json → Rows × List (List String) → Json → Result (Rows × List (List String))
  unfolding add_entry check_selection selected_ids check_declared
  add_shard shard_count (union, expected_by_shard) document = do
    index ← shard_index document
    manifest ← subscript document "manifest"
    tests ← subscript manifest "tests"
    entries ← iterate tests
    (local, union') ← fold_m (add_entry shard_count) ([], union) entries
    each (check_selection index) local
    expected ← selected_ids local
    shard ← shard_of document
    check_declared shard expected
    ok (union', expected_by_shard ++ expected ∷ [])

  unfoldable pub has_tests : Json → Result Bool
  has_tests document = do tests ← subscript document "tests"; ok (truthy tests)

  unfoldable pub check_orphans : Rows → List Json → Result (Unit {0})
  unfolding has_tests any_m
  check_orphans [] documents = do
    orphans ← any_m has_tests documents
    raise_if orphans (merge_error "result rows exist without manifest inventory")
    ok tt
  check_orphans (item ∷ union) documents = ok tt

  unfoldable pub validate_inventory : List Json → Json → Result (List Json × List (List String))
  unfolding add_shard check_orphans ordered_entries
  validate_inventory documents shard_count = do
    (union, expected) ← fold_m (add_shard shard_count) ([], []) documents
    check_orphans union documents
    ordered ← ordered_entries union
    ok (ordered, expected)
