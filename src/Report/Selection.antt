-- ===== src/Report/Selection.antt =====
-- tools/validate_report.py, validate_manifest: the shard against the files and the tests of the manifest.
use resq.Base.{
  string_eq, ℕ, String, not, List, [], ◌∷◌, length, same_set, distinct, to_set, if◌then◌else◌,
}
use resq.Py.Value.{negsuc, Json, null, int, nat, object}
use resq.Py.Result.{Result, ok, ◌>>=◌, ◌>>◌}
use resq.Py.Access.{subscript, get, is_dict, is_list, is_int}
use resq.Py.Equal.{is_nat, is_text, py_eq}
use resq.Py.Hash.{Atom, atom_eq}
use resq.Py.Checks.{refuse_if, lt}
use resq.Report.{require, expect_nat, expect_one_of}
use resq.Report.Shards.{shard_fields, check_aggregate, set_of}
use resq.Report.Manifest.{check_head, check_files, check_tests, is_below, atoms_at, rows_with}

-- the shard's own members
unfoldable pub check_topology : Json → Result (Unit {0})
unfolding subscript is_int lt expect_one_of py_eq check_aggregate is_below
check_topology shard = do
  count ← subscript shard "count"
  refuse_if (not (is_int count)) "expected positive integer"
  few ← lt count (nat 1)
  refuse_if few "expected positive integer"
  expect_one_of shard "unit" ("file" ∷ "test" ∷ "case" ∷ [])
  index ← subscript shard "index"
  let aggregate = check_aggregate shard count
  let single = do
    refuse_if (not (is_int index)) "outside shard range"
    inside ← is_below index count
    refuse_if (not inside) "outside shard range"
  if py_eq index (int (negsuc 0)) then aggregate else single

-- a list without repetition, as a set
unfoldable pub unique_set : Json → String → Result (List Atom)
unfolding subscript is_list set_of distinct
unique_set shard name = do
  member ← subscript shard name
  refuse_if (not (is_list member)) "expected unique array"
  keys ← set_of member
  refuse_if (not (distinct keys)) "expected unique array"
  ok keys

-- `shard[name] != n` is refused
unfoldable pub expect_number : Json → String → ℕ → Result (Unit {0})
unfolding expect_nat
expect_number shard name n = expect_nat shard name n "disagrees with manifest"

-- the number of shardable units, each counted once
unfoldable pub unit_count : List Json → Result ℕ
unfolding rows_with atoms_at to_set
unit_count entries = do
  shardable ← rows_with "shardable" entries
  keys ← atoms_at "shardKey" shardable
  ok (length (to_set keys))

unfoldable pub check_units :
    Json → List Json → List Json → List Json → List Json → Result (Unit {0})
unfolding subscript is_text unit_count expect_number
check_units shard files selected_files entries selected_entries = do
  unit ← subscript shard "unit"
  let all_units = unit_count entries
  let selected_units = unit_count selected_entries
  units ← (if is_text unit "file" then ok (length files) else all_units)
  selected ← (if is_text unit "file" then ok (length selected_files) else selected_units)
  expect_number shard "allUnitCount" units
  expect_number shard "selectedUnitCount" selected

-- what the shard says it has selected is what the manifest selects
unfoldable pub check_shard_selection : Json → Json → List Json → List Json → Result (Unit {0})
unfolding unique_set rows_with atoms_at same_set expect_number check_units subscript get is_nat
check_shard_selection document shard files entries = do
  selected_ids ← unique_set shard "selectedExecutionIds"
  selected_entries ← rows_with "selected" entries
  expected ← atoms_at "executionId" selected_entries
  refuse_if (not (same_set selected_ids expected)) "disagrees with manifest selection"
  selected_files ← rows_with "selected" files
  expect_number shard "allFileCount" (length files)
  expect_number shard "selectedFileCount" (length selected_files)
  reported ← unique_set shard "selectedFiles"
  paths ← atoms_at "path" selected_files
  refuse_if (not (same_set reported paths)) "disagrees with manifest selection"
  check_units shard files selected_files entries selected_entries
  run ← subscript document "run"
  selection ← get run "selection" (object [])
  stated ← get selection "selectedTestCount" null
  refuse_if (not (is_nat stated (length selected_ids))) "disagrees with selected execution IDs"

unfoldable pub validate_manifest : Json → Json → Result (Unit {0})
unfolding check_head check_files check_tests subscript get is_dict require py_eq check_topology
    check_shard_selection
validate_manifest manifest document = do
  check_head manifest document
  files ← check_files manifest document
  entries ← check_tests manifest document files
  run ← subscript document "run"
  shard ← get run "shard" null
  refuse_if (not (is_dict shard)) "expected object"
  require shard shard_fields
  stated ← subscript manifest "shard"
  refuse_if (not (py_eq stated shard)) "disagrees with run.shard"
  check_topology shard
  check_shard_selection document shard files entries
