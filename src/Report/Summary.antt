-- ===== src/Report/Summary.antt =====
-- tools/validate_report.py, validate: the summary of a report.
use resq.Base.{string_eq, list_eq, ℕ, String, not, List, [], ◌∷◌, length, to_set, if◌then◌else◌}
use resq.Py.Value.{Json, null, nat}
use resq.Py.Result.{Result, ok, ◌>>=◌, ◌>>◌}
use resq.Py.Access.{subscript, get}
use resq.Py.Equal.{is_text, py_eq}
use resq.Py.Hash.{hashed, atom_eq}
use resq.Py.Checks.{refuse_if, is_one_of, is_member, to_float}
use resq.Py.Floats.{apart, float_gt}
use resq.Py.Arithmetic.{total_from}
use resq.Py.Loops.{each, map_m, filter_m}
use resq.Py.Text.{Runtime}
use resq.Report.{require, expect_nat, expect_count, picosecond, require_non_negative_number}

abbrev pub summary_fields : List String
summary_fields =
    "suiteCount" ∷ "testCount" ∷ "assertionCount" ∷ "passCount" ∷ "failCount" ∷ "errorCount"
    ∷ "skipCount" ∷ []

-- `sum(row.get("status") in {names} for row in rows)`
unfoldable pub status_count : List String → List Json → Result ℕ
unfolding filter_m get is_one_of
status_count names rows = do
  chosen ← filter_m (λ row. do status ← get row "status" null; is_one_of status names) rows
  ok (length chosen)

-- `row.get("status") == name`
unfoldable pub equal_count : String → List Json → Result ℕ
unfolding filter_m get is_text
equal_count name rows = do
  chosen ← filter_m (λ row. do status ← get row "status" null; ok (is_text status name)) rows
  ok (length chosen)

-- the counts of the statuses are those of the rows
unfoldable pub check_statuses : Json → List Json → Result (Unit {0})
unfolding equal_count status_count expect_nat
check_statuses summary rows = do
  passes ← equal_count "pass" rows
  failures ← equal_count "fail" rows
  errors ← equal_count "error" rows
  skips ← status_count ("skip" ∷ "pending" ∷ []) rows
  expect_nat summary "passCount" passes "disagrees with test rows"
  expect_nat summary "failCount" failures "disagrees with test rows"
  expect_nat summary "errorCount" errors "disagrees with test rows"
  expect_nat summary "skipCount" skips "disagrees with test rows"

unfoldable pub check_suites : Json → List Json → Result (Unit {0})
unfolding map_m get hashed to_set expect_nat
check_suites summary rows = do
  suites ← map_m (λ row. do suite ← get row "suite" null; hashed suite) rows
  expect_nat summary "suiteCount" (length (to_set suites)) "disagrees with test rows"

unfoldable pub check_assertions : Json → List Json → Result (Unit {0})
unfolding map_m get total_from subscript py_eq
check_assertions summary rows = do
  counts ← map_m (λ row. get row "assertsRun" (nat 0)) rows
  total ← total_from (nat 0) counts
  stated ← subscript summary "assertionCount"
  refuse_if (not (py_eq stated total)) "disagrees with test rows"

abbrev pub count_fields : List String
count_fields = "passCount" ∷ "failCount" ∷ "errorCount" ∷ "skipCount" ∷ []

-- `testCount` is the sum of the four other counts
unfoldable pub check_sum : Json → Result (Unit {0})
unfolding map_m subscript total_from py_eq
check_sum summary = do
  counts ← map_m (subscript summary) count_fields
  total ← total_from (nat 0) counts
  stated ← subscript summary "testCount"
  refuse_if (not (py_eq stated total)) "summary status counts do not add up"

abbrev pub required_counts : List String
required_counts =
    "suiteCount" ∷ "testCount" ∷ "assertionCount" ∷ "passCount" ∷ "failCount" ∷ "errorCount"
    ∷ "skipCount" ∷ "duration" ∷ "durationSeconds" ∷ []

module _ ⦃r : Runtime⦄ where
  unfoldable pub check_durations : Json → Result (Unit {0})
  unfolding require_non_negative_number is_member subscript to_float apart float_gt picosecond
  check_durations summary = do
    require_non_negative_number summary "durationSeconds"
    summed ← is_member summary "testDurationSumSeconds"
    let agree = do
      require_non_negative_number summary "testDurationSumSeconds"
      sum ← subscript summary "testDurationSumSeconds"
      sum_seconds ← to_float sum
      duration ← subscript summary "durationSeconds"
      seconds ← to_float duration
      refuse_if (float_gt (apart sum_seconds seconds) picosecond) "disagrees with durationSeconds"
    if summed then agree else ok tt

  unfoldable pub check_summary : Json → List Json → Result (Unit {0})
  unfolding require expect_nat check_sum each expect_count check_durations check_statuses
      check_suites check_assertions
  check_summary summary rows = do
    require summary required_counts
    expect_nat summary "testCount" (length rows) "does not match tests length"
    check_sum summary
    each (expect_count summary) summary_fields
    check_durations summary
    check_statuses summary rows
    check_suites summary rows
    check_assertions summary rows
