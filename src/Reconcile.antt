-- ===== src/Reconcile.antt =====
-- tools/reconcile_coverage.py: the report of an isolated run and that of a coverage run agree.
pub mod Agreement
pub mod Inventory
use resq.Base.{
  string_eq, ℕ, String, Bool, true, false, not, ◌&&◌, ◌||◌, List, [], ◌∷◌, map, Option, none, some,
  ◌==◌, same_set, if◌then◌else◌, ◌≡◌, str_le,
}
use resq.Base.Sorting.{sort}
use resq.Py.Value.{Json, null, bool, str, nat, array, object}
use resq.Py.Result.{Exn, Result, ok, err, value_error, raise_if, ◌>>=◌, ◌>>◌}
use resq.Py.Dict.{Dict, lookup, insert, is_some, keys}
use resq.Py.Access.{get, subscript, iterate, truthy, found}
use resq.Py.Equal.{py_eq, is_text}
use resq.Py.Text.{Runtime}
use resq.Py.Loops.{fold_m, each, map_m, filter_m}
use resq.Merge.Shared.{execution_id}

abbrev pub Rows : Type 0
Rows = Dict String Json

abbrev pub summary_fields : List String
summary_fields =
    "suiteCount" ∷ "testCount" ∷ "assertionCount" ∷ "passCount" ∷ "failCount" ∷ "errorCount"
    ∷ "skipCount" ∷ []

abbrev pub row_keys : List String
row_keys = "testId" ∷ "caseId" ∷ "suite" ∷ "description" ∷ "file" ∷ "status" ∷ "assertsRun" ∷ []

abbrev pub documented_differences : List String
documented_differences =
    "run identity and timestamps" ∷ "wall-clock and per-test durations"
    ∷ "coverage configuration, diagnostics, events, and artifacts" ∷ "isolation process metadata"
    ∷ []

-- `left.get(key) != right.get(key)` is refused
unfoldable pub check_same : Exn → Json → Json → String → Result (Unit {0})
check_same refusal left right key = do
  a ← get left key null
  b ← get right key null
  raise_if (not (py_eq a b)) refusal

-- `document.get("profile", "full") != "full"`
unfoldable pub is_partial : Json → Result Bool
is_partial document = do
  profile ← get document "profile" (str "full")
  ok (not (is_text profile "full"))

-- `document.get("run", {}).get("config", {}).get("isolate")`
unfoldable pub is_isolated : Json → Result Bool
is_isolated document = do
  run ← get document "run" (object [])
  config ← get run "config" (object [])
  isolate ← get config "isolate" null
  ok (truthy isolate)

-- the conditions on the two lanes
unfoldable pub check_lanes : Json → Json → Result (Unit {0})
unfolding is_partial is_isolated
check_lanes correctness coverage = do
  partial ← is_partial correctness
  partial' ← (if partial then ok true else is_partial coverage)
  raise_if partial' (value_error "coverage reconciliation requires full report profiles")
  evidence ← get correctness "coverage" null
  raise_if (truthy evidence)
      (value_error "correctness lane must not contain source-coverage evidence")
  measured ← get coverage "coverage" (object [])
  enabled ← get measured "enabled" null
  raise_if (not (truthy enabled))
      (value_error "coverage lane lacks enabled source-coverage evidence")
  isolated ← is_isolated correctness
  raise_if (not isolated) (value_error "correctness lane must be isolated")
  isolated' ← is_isolated coverage
  raise_if isolated' (value_error "coverage lane must be non-isolated")

-- the identities that a manifest selects
unfoldable pub selected_in : Json → Result (List Json)
selected_in document = do
  manifest ← subscript document "manifest"
  tests ← subscript manifest "tests"
  rows ← iterate tests
  chosen ← filter_m (λ row. do selected ← get row "selected" null; ok (truthy selected)) rows
  map_m (λ row. subscript row "executionId") chosen

unfoldable pub check_envelopes : Json → Json → Result (Unit {0})
unfolding check_same selected_in
check_envelopes correctness coverage = do
  each (check_same (value_error "lane differs") correctness coverage)
      ("framework" ∷ "frameworkVersion" ∷ [])
  manifest ← subscript correctness "manifest"
  manifest' ← subscript coverage "manifest"
  each (check_same (value_error "lane manifest differs") manifest manifest')
      ("revision" ∷ "digest" ∷ [])
  selected ← selected_in correctness
  selected' ← selected_in coverage
  raise_if (not (py_eq (array selected) (array selected')))
      (value_error "lane selected test inventory differs")
  summary ← subscript correctness "summary"
  summary' ← subscript coverage "summary"
  each (check_same (value_error "lane summary differs") summary summary') summary_fields

module _ ⦃r : Runtime⦄ where
  unfoldable pub add_row : Rows → Json → Result Rows
  unfolding execution_id
  add_row rows row = do
    identity ← execution_id row
    raise_if (identity == "" || is_some (lookup identity rows))
        (value_error "missing or duplicate execution identity")
    ok (insert identity row rows)

  unfoldable pub rows_by_identity : Json → Result Rows
  unfolding add_row fold_m
  rows_by_identity document = do
    tests ← subscript document "tests"
    rows ← iterate tests
    fold_m add_row [] rows

  -- the two rows of an identity agree in the compared fields
  unfoldable pub check_rows : Rows → Rows → String → Result (Unit {0})
  unfolding check_same each
  check_rows correctness_rows coverage_rows identity = do
    left ← found identity (lookup identity correctness_rows)
    right ← found identity (lookup identity coverage_rows)
    each (check_same (value_error "lane execution differs") left right) row_keys

  texts : List String → Json
  texts names = array (map str names)

  unfoldable pub reconciliation : Json → Json → Result Json
  unfolding texts
  reconciliation correctness coverage = do
    framework ← subscript correctness "framework"
    version ← subscript correctness "frameworkVersion"
    run ← subscript correctness "run"
    run_id ← subscript run "id"
    run' ← subscript coverage "run"
    run_id' ← subscript run' "id"
    manifest ← subscript correctness "manifest"
    digest ← subscript manifest "digest"
    summary ← subscript correctness "summary"
    tests ← subscript summary "testCount"
    assertions ← subscript summary "assertionCount"
    passes ← subscript summary "passCount"
    failures ← subscript summary "failCount"
    errors ← subscript summary "errorCount"
    skips ← subscript summary "skipCount"
    ok (
        object (
          ("schemaVersion", nat 1)
          ∷ ("kind", str "resq-coverage-reconciliation")
          ∷ ("framework", framework)
          ∷ ("frameworkVersion", version)
          ∷ ("matched", bool true)
          ∷ ("correctnessRunId", run_id)
          ∷ ("coverageRunId", run_id')
          ∷ ("manifestDigest", digest)
          ∷ (
            "inventory",
            object (
                ("tests", tests)
                ∷ ("assertions", assertions)
                ∷ ("passes", passes)
                ∷ ("failures", failures)
                ∷ ("errors", errors)
                ∷ ("skips", skips)
                ∷ []),
          )
          ∷ ("comparedExecutionFields", texts row_keys)
          ∷ ("allowedDifferences", texts documented_differences)
          ∷ []))

  -- `validate` is that of tools/validate_report.py, which refuses a document or returns
  unfoldable pub reconcile_reports : (Json → Result (Unit {0})) → Json → Json → Result Json
  unfolding check_lanes check_envelopes rows_by_identity check_rows reconciliation
  reconcile_reports validate correctness coverage = do
    validate correctness
    validate coverage
    check_lanes correctness coverage
    check_envelopes correctness coverage
    correctness_rows ← rows_by_identity correctness
    coverage_rows ← rows_by_identity coverage
    raise_if (not (same_set (keys correctness_rows) (keys coverage_rows)))
        (value_error "lane execution inventory differs")
    each (check_rows correctness_rows coverage_rows) (sort str_le (keys correctness_rows))
    reconciliation correctness coverage
