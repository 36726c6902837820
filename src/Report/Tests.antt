-- ===== src/Report/Tests.antt =====
-- tools/validate_report.py: validate_test.
use Prim.Native.Char.{code}
use resq.Base.{
  string_eq, ℕ, suc, String, Bool, true, false, not, ◌&&◌, ◌||◌, List, [], ◌∷◌, ◌==◌, none, some,
  nat_eq, if◌then◌else◌, after,
}
use resq.Py.Value.{Json, null, bool, str, nat, object}
use resq.Py.Result.{Result, ok, ◌>>=◌, ◌>>◌}
use resq.Py.Access.{subscript, get, iterate, truthy, is_dict, is_int, is_str}
use resq.Py.Equal.{is_nat, is_text, py_eq}
use resq.Py.Checks.{refuse_if, is_member, are_distinct, lt, len}
use resq.Py.Loops.{each, map_m}
use resq.Py.Text.{Runtime}
use resq.Report.{
  require, is_hex_id, statuses, expect_nat, expect_one_of, expect_bool, expect_form, full_match,
  iso8601_at, validate_interval,
}
use resq.Report.Benchmarks.{validate_benchmark_telemetry}

abbrev pub test_fields : List String
test_fields =
    "suite" ∷ "description" ∷ "status" ∷ "message" ∷ "time" ∷ "durationSeconds" ∷ "failures"
    ∷ "assertsRun" ∷ "file" ∷ "line" ∷ "namespace" ∷ "tags" ∷ "output" ∷ "testId" ∷ "caseId"
    ∷ "kind" ∷ "attempts" ∷ "retried" ∷ "flaky" ∷ "attemptHistory" ∷ "parameterCases" ∷ "property"
    ∷ "diagnostics" ∷ "snapshots" ∷ "benchmark" ∷ []

-- `isinstance(x, str) and (not x or HEX_ID.fullmatch(x))`
is_case_id : Json → Bool
unfolding is_hex_id
is_case_id (str s) = s == "" || is_hex_id s
is_case_id null = false
is_case_id _ = false

-- the identities of a row
unfoldable pub check_row_identity : Json → Result (Unit {0})
unfolding expect_form is_hex_id subscript is_case_id
check_row_identity row = do
  expect_form is_hex_id row "testId"
  case_id ← subscript row "caseId"
  refuse_if (not (is_case_id case_id)) "invalid stable identity"

unfoldable pub check_kind : Json → Result (Unit {0})
unfolding subscript is_str is_text truthy get is_dict
check_kind row = do
  kind ← subscript row "kind"
  refuse_if (not (is_str kind)) "expected string"
  case_id ← subscript row "caseId"
  refuse_if (is_text kind "case" && not (truthy case_id)) "declarative case requires caseId"
  parameters ← get row "parameters" (object [])
  refuse_if (not (is_dict parameters)) "expected object"

-- an int of at least 1, and the flags of retries
unfoldable pub check_retries : Json → Result (Unit {0})
unfolding subscript is_int lt expect_bool
check_retries row = do
  attempts ← subscript row "attempts"
  refuse_if (not (is_int attempts)) "expected positive integer"
  few ← lt attempts (nat 1)
  refuse_if few "expected positive integer"
  expect_bool row "retried"
  expect_bool row "flaky"

-- `row["retried"] != (row["attempts"] > 1)` is refused
unfoldable pub check_retried : Json → Result (Unit {0})
unfolding subscript lt py_eq
check_retried row = do
  retried ← subscript row "retried"
  attempts ← subscript row "attempts"
  several ← lt (nat 1) attempts
  refuse_if (not (py_eq retried (bool several))) "retried must agree with attempts"

unfoldable pub check_flaky : Json → Result (Unit {0})
unfolding subscript truthy is_text lt len is_nat
check_flaky row = do
  flaky ← subscript row "flaky"
  status ← subscript row "status"
  attempts ← subscript row "attempts"
  few ← lt attempts (nat 2)
  refuse_if (truthy flaky && (not (is_text status "pass") || few)) "flaky requires a late pass"
  history ← subscript row "attemptHistory"
  n ← len history
  refuse_if (not (nat_eq n 0 || is_nat attempts n)) "attempt history must be empty or complete"

module _ ⦃r : Runtime⦄ where
  digits : String → Bool
  digits String.[] = true
  digits (String.◌∷◌ c s) = r.is_decimal c && digits s

  digits1 : String → Bool
  unfolding digits
  digits1 String.[] = false
  digits1 (String.◌∷◌ c s) = r.is_decimal c && digits s

  -- `\d+/\d+`
  rest_and_number : String → Bool
  unfolding digits1
  rest_and_number String.[] = false
  rest_and_number (String.◌∷◌ d t) =
      let rest = rest_and_number t in
      if nat_eq (code d) 47 then digits1 t else r.is_decimal d && rest

  two_numbers : String → Bool
  unfolding rest_and_number
  two_numbers String.[] = false
  two_numbers (String.◌∷◌ c s) = r.is_decimal c && rest_and_number s

  signed_numbers : String → Bool
  unfolding two_numbers
  signed_numbers String.[] = false
  signed_numbers (String.◌∷◌ c s) =
      if nat_eq (code c) 45 then two_numbers s else two_numbers (String.◌∷◌ c s)

  -- REPLAY_TOKEN
  unfoldable pub is_replay_token : String → Bool
  unfolding after signed_numbers
  is_replay_token s = elim (after "resq-pbt-v1/" s) [
    | none ↦ false
    | some rest ↦ signed_numbers rest
  ]

  unfoldable pub check_attempt : ℕ → Json → Result (Unit {0})
  unfolding require validate_interval expect_nat expect_one_of
  check_attempt position attempt = do
    require attempt (
        "attempt" ∷ "status" ∷ "duration" ∷ "durationSeconds" ∷ "message" ∷ "failures"
        ∷ "assertsRun" ∷ [])
    validate_interval attempt
    expect_nat attempt "attempt" position "unexpected attempt"
    expect_one_of attempt "status" statuses

  unfoldable pub check_attempts : ℕ → List Json → Result (Unit {0})
  unfolding check_attempt
  check_attempts position [] = ok tt
  check_attempts position (attempt ∷ attempts) = do
    check_attempt position attempt
    check_attempts (suc position) attempts

  unfoldable pub check_case : Json → Result (Unit {0})
  unfolding require subscript full_match is_hex_id expect_one_of validate_interval
  check_case case = do
    require case ("caseId" ∷ "index" ∷ "parameters" ∷ "status" ∷ [])
    id ← subscript case "caseId"
    valid ← full_match is_hex_id id
    refuse_if (not valid) "invalid"
    expect_one_of case "status" statuses
    validate_interval case

  -- the parameter cases: identities and indices are unique
  unfoldable pub check_cases : Json → Result (Unit {0})
  unfolding subscript iterate each check_case map_m are_distinct
  check_cases row = do
    member ← subscript row "parameterCases"
    cases ← iterate member
    each check_case cases
    ids ← map_m (λ case. subscript case "caseId") cases
    indices ← map_m (λ case. subscript case "index") cases
    unique ← are_distinct ids
    refuse_if (not unique) "identities and indices must be unique"
    distinct_indices ← are_distinct indices
    refuse_if (not distinct_indices) "identities and indices must be unique"

  unfoldable pub check_snapshot : Json → Result (Unit {0})
  unfolding require iso8601_at
  check_snapshot snapshot = do
    require snapshot ("backend" ∷ "name" ∷ "status" ∷ "path" ∷ "timestamp" ∷ [])
    stamp ← iso8601_at snapshot "timestamp"
    ok tt

  unfoldable pub check_benchmark : Json → Result (Unit {0})
  unfolding subscript is_dict is_member truthy validate_benchmark_telemetry is_text
  check_benchmark row = do
    benchmark ← subscript row "benchmark"
    refuse_if (not (is_dict benchmark)) "expected object"
    named ← is_member benchmark "benchmarkId"
    let telemetry = do
      test_id ← subscript row "testId"
      validate_benchmark_telemetry benchmark test_id
      kind ← subscript row "kind"
      refuse_if (not (is_text kind "perf")) "only perf rows may carry benchmark telemetry"
    if truthy benchmark && named then telemetry else ok tt
