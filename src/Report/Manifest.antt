-- ===== src/Report/Manifest.antt =====
-- tools/validate_report.py: validate_manifest.
use resq.Base.{
  string_eq, list_eq, String, Bool, false, not, ◌&&◌, ◌||◌, List, [], ◌∷◌, ◌==◌, contains, subset,
  distinct, str_le, is_prefixed_hex, if◌then◌else◌,
}
use resq.Base.Sorting.{sort}
use resq.Py.Value.{negsuc, Json, null, bool, int, str, nat, object}
use resq.Py.Result.{Result, ok, ◌>>=◌, ◌>>◌}
use resq.Py.Dict.{is_some}
use resq.Py.Access.{
  subscript, get, iterate, truthy, or_else, is_dict, is_int, nonempty_str, text_of,
}
use resq.Py.Equal.{is_text, py_eq}
use resq.Py.Hash.{Atom, hashed, atom_eq}
use resq.Py.Checks.{refuse_if, lt}
use resq.Py.Loops.{each, map_m, filter_m}
use resq.Report.{
  require, require_object, is_hex_id, expect_text, expect_nat, expect_bool, expect_list,
  expect_form, full_match,
}

abbrev manifest_fields : List String
manifest_fields =
    "schemaVersion" ∷ "kind" ∷ "digest" ∷ "digestAlgorithm" ∷ "identityAlgorithm" ∷ "identityCodec"
    ∷ "frameworkVersion" ∷ "revision" ∷ "shard" ∷ "files" ∷ "tests" ∷ []

unfoldable pub expect_nonempty : Json → String → Result (Unit {0})
unfolding subscript nonempty_str
expect_nonempty x name = do
  v ← subscript x name
  refuse_if (not (is_some (nonempty_str v))) "unsupported"

unfoldable pub check_codec : Json → Result (Unit {0})
unfolding is_dict require expect_text expect_nat expect_nonempty
check_codec codec = do
  refuse_if (not (is_dict codec)) "expected object"
  require codec
      ("name" ∷ "version" ∷ "qVersion" ∷ "qRelease" ∷ "ipcSerialization" ∷ "capabilityLevel" ∷ [])
  expect_text codec "name" "resq-value-v1+q-ipc-leaves" "unsupported"
  expect_nat codec "version" 1 "unsupported"
  expect_nonempty codec "qVersion"
  expect_nonempty codec "qRelease"
  expect_text codec "ipcSerialization" "q unary -8!/-9!" "unsupported"
  expect_text codec "capabilityLevel"
      "local unary serialization; no negotiated IPC connection capability" "unsupported"

-- the head of a manifest
unfoldable pub check_head : Json → Json → Result (Unit {0})
unfolding require_object expect_nat expect_text expect_form is_prefixed_hex subscript check_codec
    py_eq expect_list
check_head manifest document = do
  require_object manifest manifest_fields
  expect_nat manifest "schemaVersion" 3 "expected resQ execution manifest v3"
  expect_text manifest "kind" "resq-execution-manifest" "expected resQ execution manifest v3"
  expect_form (is_prefixed_hex "manifest_" 32) manifest "digest"
  expect_text manifest "digestAlgorithm" "md5-source-topology-v3" "unsupported"
  expect_text manifest "identityAlgorithm" "resq-test-case-id-v3" "unsupported"
  codec ← subscript manifest "identityCodec"
  check_codec codec
  version ← subscript manifest "frameworkVersion"
  report_version ← subscript document "frameworkVersion"
  refuse_if (not (py_eq version report_version)) "does not match report"
  expect_list manifest "files"
  expect_list manifest "tests"

-- `document["run"].get("shard", {}).get(name, default)`
unfoldable pub shard_member : Json → String → Json → Result Json
unfolding subscript get
shard_member document name default = do
  run ← subscript document "run"
  shard ← get run "shard" (object [])
  get shard name default

-- `0 <= x < count`
unfoldable pub is_below : Json → Json → Result Bool
unfolding lt
is_below x count = do
  negative ← lt x (nat 0)
  let below = lt x count
  if negative then ok false else below

unfoldable pub is_digest : Json → Bool
unfolding is_prefixed_hex
is_digest (str s) = s == "" || is_prefixed_hex "" 32 s
is_digest null = false
is_digest _ = false

unfoldable pub check_file_entry : Json → Json → Result (Unit {0})
unfolding require_object expect_form is_prefixed_hex expect_nonempty subscript is_digest
    shard_member is_int is_text is_below py_eq expect_bool
check_file_entry document entry = do
  require_object entry
      ("fileId" ∷ "path" ∷ "sourceDigest" ∷ "assignedShard" ∷ "selected" ∷ "shardable" ∷ [])
  expect_form (is_prefixed_hex "file_" 32) entry "fileId"
  expect_nonempty entry "path"
  digest ← subscript entry "sourceDigest"
  refuse_if (not (is_digest digest)) "invalid"
  unit ← shard_member document "unit" (str "file")
  assigned ← subscript entry "assignedShard"
  refuse_if (not (is_int assigned)) "outside shard range"
  count ← shard_member document "count" (nat 1)
  let below = is_below assigned count
  valid ← (if is_text unit "file" then below else ok (py_eq assigned (int (negsuc 0))))
  refuse_if (not valid) "outside shard range"
  expect_bool entry "selected"
  expect_bool entry "shardable"

-- `entry["caseId"] or entry["testId"]`
unfoldable pub execution_of : Json → Result Json
unfolding subscript or_else
execution_of entry = do
  case_id ← subscript entry "caseId"
  test_id ← subscript entry "testId"
  ok (or_else case_id test_id)

-- selected if and only if the entry is assigned to the shard of the run, and always if it is not shardable
unfoldable pub check_selection : Json → Json → Result (Unit {0})
unfolding shard_member lt subscript truthy py_eq
check_selection document entry = do
  index ← shard_member document "index" (nat 0)
  negative ← lt index (nat 0)
  shardable ← subscript entry "shardable"
  selected ← subscript entry "selected"
  assigned ← subscript entry "assignedShard"
  refuse_if (not negative && truthy shardable && not (py_eq selected (bool (py_eq assigned index))))
      "disagrees with shard assignment"
  refuse_if (not negative && not (truthy shardable) && not (truthy selected))
      "run-level execution must be selected"

abbrev entry_fields : List String
entry_fields =
    "executionId" ∷ "testId" ∷ "caseId" ∷ "suiteId" ∷ "fileId" ∷ "file" ∷ "suite" ∷ "description"
    ∷ "line" ∷ "kind" ∷ "parameters" ∷ "tags" ∷ "shardKey" ∷ "assignedShard" ∷ "selected"
    ∷ "shardable" ∷ []

unfoldable pub check_entry : Json → List Atom → Json → Result (Unit {0})
unfolding require_object expect_form is_hex_id is_prefixed_hex subscript hashed contains truthy
    execution_of py_eq full_match is_int shard_member is_below expect_bool check_selection
check_entry document known_files entry = do
  require_object entry entry_fields
  expect_form is_hex_id entry "testId"
  expect_form (is_prefixed_hex "suite_" 32) entry "suiteId"
  file_id ← subscript entry "fileId"
  file_key ← hashed file_id
  file ← subscript entry "file"
  refuse_if (not (contains file_key known_files) && truthy file) "not present in file inventory"
  execution_id ← execution_of entry
  stated ← subscript entry "executionId"
  refuse_if (not (py_eq stated execution_id)) "invalid or inconsistent"
  valid ← full_match is_hex_id execution_id
  refuse_if (not valid) "invalid or inconsistent"
  assigned ← subscript entry "assignedShard"
  refuse_if (not (is_int assigned)) "outside shard range"
  count ← shard_member document "count" (nat 1)
  inside ← is_below assigned count
  refuse_if (not inside) "outside shard range"
  expect_bool entry "selected"
  expect_bool entry "shardable"
  check_selection document entry

unfoldable pub texts_at : String → List Json → Result (List String)
unfolding map_m subscript text_of
texts_at name = map_m (λ row. do v ← subscript row name; text_of v)

unfoldable pub atoms_at : String → List Json → Result (List Atom)
unfolding map_m subscript hashed
atoms_at name = map_m (λ row. do v ← subscript row name; hashed v)

unfoldable pub rows_with : String → List Json → Result (List Json)
unfolding filter_m subscript truthy
rows_with name = filter_m (λ row. do v ← subscript row name; ok (truthy v))

-- the files of a manifest, with identities and paths of their own, in the order of the paths
unfoldable pub check_files : Json → Json → Result (List Json)
unfolding subscript iterate each check_file_entry texts_at distinct sort str_le
check_files manifest document = do
  member ← subscript manifest "files"
  files ← iterate member
  each (check_file_entry document) files
  ids ← texts_at "fileId" files
  paths ← texts_at "path" files
  refuse_if (not (distinct ids) || not (distinct paths)) "duplicate identity or path"
  refuse_if (not (paths == sort str_le paths)) "paths must be deterministically sorted"
  ok files

-- the tests of a manifest; the report has results of no other
unfoldable pub check_tests : Json → Json → List Json → Result (List Json)
unfolding subscript iterate atoms_at each check_entry map_m execution_of hashed distinct subset
check_tests manifest document files = do
  known_files ← atoms_at "fileId" files
  member ← subscript manifest "tests"
  entries ← iterate member
  each (check_entry document known_files) entries
  ids ← map_m (λ entry. execution_of entry >>= hashed) entries
  refuse_if (not (distinct ids)) "duplicate executionId"
  tests ← subscript document "tests"
  rows ← iterate tests
  reported ← map_m (λ row. execution_of row >>= hashed) rows
  refuse_if (not (subset reported ids)) "report contains identity outside inventory"
  ok entries
