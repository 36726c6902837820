-- ===== src/Report/Shards.antt =====
-- tools/validate_report.py: validate_profile, validate_run_shard and validate_completion.
use resq.Base.{
  string_eq, String, Bool, false, not, ◌&&◌, List, [], ◌∷◌, bool_eq, length, map, if◌then◌else◌,
}
use resq.Py.Value.{negsuc, Json, null, bool, int, str, nat, array}
use resq.Py.Result.{Result, ok, ◌>>=◌, ◌>>◌}
use resq.Py.Dict.{keys, is_some}
use resq.Py.Access.{subscript, get, iterate, is_dict, is_list, nonempty_str}
use resq.Py.Equal.{is_nat, is_text, py_eq}
use resq.Py.Hash.{Atom, hashed, atom_eq}
use resq.Py.Order.{range_bound, range_from}
use resq.Py.Checks.{is_null, refuse_if, is_one_of, is_true, are_distinct, lt, as_count}
use resq.Py.Loops.{each, map_m, any_m}
use resq.Coverage.Summary.{items}
use resq.Report.{require, is_hex_id, expect_one_of, expect_count, has_form}
use resq.Report.Rows.{telemetry_omitted_fields, has_common}

abbrev pub omitted_sections : List String
omitted_sections =
    "performance" ∷ "coverage" ∷ "flake" ∷ "snapshotInventory" ∷ "benchmarkAnalysis" ∷ "manifest"
    ∷ "events" ∷ []

texts : List String → Json
texts names = array (map str names)

-- `completeness[name] != [...]` is refused
unfoldable pub expect_texts : Json → String → List String → Result (Unit {0})
unfolding subscript py_eq texts
expect_texts completeness name expected = do
  stated ← subscript completeness name
  refuse_if (not (py_eq stated (texts expected))) "disagrees with profile"

-- `x is b`
is_bool_value : Json → Bool → Bool
is_bool_value (bool b) c = bool_eq b c
is_bool_value null c = false
is_bool_value _ c = false

-- what the completeness of a profile has to be; the sections that it omits are not there
unfoldable pub validate_completeness : Json → Bool → Bool → Result (Unit {0})
unfolding get is_dict require subscript is_bool_value expect_texts has_common keys items
validate_completeness document is_full is_telemetry = do
  completeness ← get document "completeness" null
  refuse_if (not (is_dict completeness)) "expected object"
  require completeness
      ("evidenceComplete" ∷ "omittedSections" ∷ "omittedTestFields" ∷ "boundedFields" ∷ [])
  evidence ← subscript completeness "evidenceComplete"
  refuse_if (not (is_bool_value evidence is_full)) "disagrees with profile"
  let sections = if is_full then [] else omitted_sections
  expect_texts completeness "omittedSections" sections
  expect_texts completeness "omittedTestFields"
      (if is_telemetry then telemetry_omitted_fields else [])
  expect_texts completeness "boundedFields"
      (if is_telemetry then "tests.message" ∷ "diagnostics.message" ∷ [] else [])
  refuse_if (has_common sections (keys (items document))) "declared omitted sections are present"
  if is_full then require document omitted_sections else ok tt

pub data Profile : Type 0 where
  legacy_full full results telemetry : Profile

unfoldable pub profile_of : Json → Profile
profile_of x =
    if is_text x "full" then full else if is_text x "telemetry" then telemetry else results

unfoldable pub validate_named_profile : Json → Json → Result Profile
unfolding is_one_of is_text validate_completeness profile_of
validate_named_profile document profile = do
  known ← is_one_of profile ("full" ∷ "results" ∷ "telemetry" ∷ [])
  refuse_if (not known) "expected full, results, or telemetry"
  validate_completeness document (is_text profile "full") (is_text profile "telemetry")
  ok (profile_of profile)

unfoldable pub validate_profile : Json → Result Profile
unfolding get is_null validate_named_profile
validate_profile document = do
  profile ← get document "profile" null
  let named = validate_named_profile document profile
  if is_null profile then ok legacy_full else named

abbrev pub shard_fields : List String
shard_fields =
    "index" ∷ "count" ∷ "unit" ∷ "algorithm" ∷ "allFileCount" ∷ "selectedFileCount" ∷ "allUnitCount"
    ∷ "selectedUnitCount" ∷ "selectedFiles" ∷ "selectedExecutionIds" ∷ []

-- `x == list(range(count))`
unfoldable pub is_range : Json → Json → Result Bool
unfolding range_bound range_from py_eq
is_range x count = do n ← range_bound count; ok (py_eq x (array (map nat (range_from 0 n))))

-- an aggregate has -1 as its index, and all the indices
unfoldable pub check_aggregate : Json → Json → Result (Unit {0})
unfolding get is_true is_range
check_aggregate shard count = do
  merged ← get shard "merged" null
  refuse_if (not (is_true merged)) "aggregate index requires a complete merged topology"
  indices ← get shard "indices" null
  complete ← is_range indices count
  refuse_if (not complete) "aggregate index requires a complete merged topology"

-- `isinstance(index, int)` without `bool`, and `0 <= index < count`
unfoldable pub check_index : Json → Json → Result (Unit {0})
unfolding as_count lt
check_index index count = do
  refuse_if (not (is_some (as_count index))) "outside shard range"
  inside ← lt index count
  refuse_if (not inside) "outside shard range"

is_minus_one : Json → Bool
unfolding py_eq
is_minus_one x = py_eq x (int (negsuc 0))

-- `x > y` is refused for two members
unfoldable pub expect_at_most : Json → String → String → Result (Unit {0})
unfolding subscript lt
expect_at_most shard name bound = do
  x ← subscript shard name
  y ← subscript shard bound
  over ← lt y x
  refuse_if over "exceeds topology"

-- a list of distinct texts, none of them bad
unfoldable pub check_inventory : Json → String → (Json → Bool) → Result (List Json)
unfolding subscript is_list iterate any_m are_distinct
check_inventory shard name fits = do
  member ← subscript shard name
  refuse_if (not (is_list member)) "expected unique inventory"
  rows ← iterate member
  bad ← any_m (λ row. ok (not (fits row))) rows
  refuse_if bad "expected unique inventory"
  unique ← are_distinct rows
  refuse_if (not unique) "expected unique inventory"
  ok rows

unfoldable pub check_selected : Json → Json → Result (Unit {0})
unfolding check_inventory nonempty_str subscript is_nat has_form is_hex_id get is_dict is_text py_eq
check_selected run shard = do
  files ← check_inventory shard "selectedFiles" (λ path. is_some (nonempty_str path))
  file_count ← subscript shard "selectedFileCount"
  refuse_if (not (is_nat file_count (length files))) "expected unique selected-file inventory"
  ids ← check_inventory shard "selectedExecutionIds" (has_form is_hex_id)
  selection ← get run "selection" null
  refuse_if (not (is_dict selection)) "expected object"
  stated ← get selection "selectedTestCount" null
  refuse_if (not (is_nat stated (length ids))) "disagrees with selected execution IDs"
  unit ← subscript shard "unit"
  units ← subscript shard "selectedUnitCount"
  refuse_if (is_text unit "file" && not (py_eq units file_count)) "disagrees with selected files"

unfoldable pub validate_shard : Json → Json → Result (Unit {0})
unfolding is_dict require subscript as_count lt expect_one_of is_text is_minus_one check_aggregate
    check_index each expect_count expect_at_most check_selected
validate_shard run shard = do
  refuse_if (not (is_dict shard)) "expected object"
  require shard shard_fields
  count ← subscript shard "count"
  index ← subscript shard "index"
  refuse_if (not (is_some (as_count count))) "expected positive integer"
  few ← lt count (nat 1)
  refuse_if few "expected positive integer"
  expect_one_of shard "unit" ("file" ∷ "test" ∷ "case" ∷ [])
  unit ← subscript shard "unit"
  algorithm ← subscript shard "algorithm"
  refuse_if
      (not (
        is_text algorithm
          (if is_text unit "file" then "sorted-index-mod-v1" else "stable-id-weighted-hash-v1")))
      "disagrees with shard unit"
  let aggregate = check_aggregate shard count
  let single = check_index index count
  (if is_minus_one index then aggregate else single)
  each (expect_count shard)
      ("allFileCount" ∷ "selectedFileCount" ∷ "allUnitCount" ∷ "selectedUnitCount" ∷ [])
  expect_at_most shard "selectedFileCount" "allFileCount"
  expect_at_most shard "selectedUnitCount" "allUnitCount"
  check_selected run shard

unfoldable pub validate_run_shard : Json → Result (Unit {0})
unfolding subscript get is_null validate_shard
validate_run_shard document = do
  run ← subscript document "run"
  shard ← get run "shard" null
  let checked = validate_shard run shard
  if is_null shard then ok tt else checked

-- `set(xs)`, as the keys of its elements
unfoldable pub set_of : Json → Result (List Atom)
unfolding iterate map_m hashed
set_of xs = do rows ← iterate xs; map_m hashed rows
