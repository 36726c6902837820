-- ===== src/Report/Rows.antt =====
-- tools/validate_report.py: validate_test and validate_telemetry_test.
use resq.Base.{string_eq, String, Bool, false, ◌||◌, List, [], ◌∷◌, contains}
use resq.Py.Value.{Json}
use resq.Py.Result.{Result, ◌>>=◌, ◌>>◌}
use resq.Py.Dict.{keys}
use resq.Py.Access.{subscript, iterate}
use resq.Py.Checks.{refuse_if}
use resq.Py.Loops.{each}
use resq.Py.Text.{Runtime}
use resq.Coverage.Summary.{items}
use resq.Report.{
  require_object, statuses, expect_one_of, expect_str, expect_list, expect_count,
  require_non_negative_number, validate_interval, validate_diagnostic,
}
use resq.Report.Tests.{
  test_fields, check_row_identity, check_kind, check_retries, check_retried, check_flaky,
  check_attempts, check_cases, check_snapshot, check_benchmark,
}
use resq.Report.Evidence.{check_property, check_quarantine}

abbrev telemetry_fields : List String
telemetry_fields =
    "suite" ∷ "description" ∷ "status" ∷ "message" ∷ "durationSeconds" ∷ "assertsRun" ∷ "file"
    ∷ "line" ∷ "testId" ∷ "caseId" ∷ "kind" ∷ "attempts" ∷ "retried" ∷ "flaky" ∷ []

abbrev pub telemetry_omitted_fields : List String
telemetry_omitted_fields =
    "time" ∷ "failures" ∷ "namespace" ∷ "tags" ∷ "output" ∷ "parameters" ∷ "attemptHistory"
    ∷ "parameterCases" ∷ "property" ∷ "diagnostics" ∷ "snapshots" ∷ "benchmark" ∷ "quarantine" ∷ []

-- `set(xs) & set(ys)` is not empty
unfoldable pub has_common : List String → List String → Bool
unfolding contains
has_common [] ys = false
has_common (x ∷ xs) ys = contains x ys || has_common xs ys

module _ ⦃r : Runtime⦄ where
  -- what a row of either kind is asked for first
  unfoldable pub check_outcome : Json → Result (Unit {0})
  unfolding expect_one_of require_non_negative_number validate_interval expect_count
      check_row_identity
  check_outcome row = do
    expect_one_of row "status" statuses
    require_non_negative_number row "durationSeconds"
    validate_interval row
    expect_count row "assertsRun"
    check_row_identity row

  unfoldable pub check_members : Json → String → (Json → Result (Unit {0})) → Result (Unit {0})
  unfolding subscript iterate each
  check_members row name check = do
    member ← subscript row name
    rows ← iterate member
    each check rows

  unfoldable pub check_history : Json → Result (Unit {0})
  unfolding subscript iterate check_attempts
  check_history row = do
    member ← subscript row "attemptHistory"
    attempts ← iterate member
    check_attempts 1 attempts

  unfoldable pub validate_test : Json → Result (Unit {0})
  unfolding require_object check_outcome check_kind check_retries check_flaky check_retried
      check_history check_cases check_property check_members check_benchmark expect_list
      check_quarantine
  validate_test row = do
    require_object row test_fields
    check_outcome row
    check_kind row
    check_retries row
    check_flaky row
    check_retried row
    check_history row
    check_cases row
    check_property row
    check_members row "snapshots" check_snapshot
    check_benchmark row
    expect_list row "diagnostics"
    check_members row "diagnostics" validate_diagnostic
    check_quarantine row

  unfoldable pub validate_telemetry_test : Json → Result (Unit {0})
  unfolding require_object has_common keys items check_outcome expect_str check_retries
      check_retried
  validate_telemetry_test row = do
    require_object row telemetry_fields
    refuse_if (has_common (keys (items row)) telemetry_omitted_fields)
        "telemetry contains declared omitted fields"
    check_outcome row
    expect_str row "message"
    check_retries row
    check_retried row
