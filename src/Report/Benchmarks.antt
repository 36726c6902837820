-- ===== src/Report/Benchmarks.antt =====
-- tools/validate_report.py: the validators of benchmarks, and rows_for_validation.
use resq.Base.{
  string_eq, ◌^◌, String, Bool, true, false, not, ◌&&◌, ◌||◌, List, [], ◌∷◌, length, bool_eq,
  if◌then◌else◌, same_set, is_prefixed_hex,
}
use resq.Py.Value.{Float, finite, Json, null, arr, obj, end, field, entries, elements, nat}
use resq.Py.Result.{Result, ok, err, value_error, ◌>>=◌, ◌>>◌}
use resq.Py.Dict.{keys}
use resq.Py.Access.{subscript, get, iterate, truthy, is_list, is_int}
use resq.Py.Equal.{is_nat, is_text, py_eq}
use resq.Py.Checks.{is_null, refuse_if, is_one_of, lt, to_float}
use resq.Py.Floats.{float_le}
use resq.Py.Loops.{each, any_m}
use resq.Py.Text.{Runtime, to_str}
use resq.Report.{
  require_object, is_hex_id, is_benchmark_id, expect_one_of, expect_bool, expect_form,
}

unfoldable pub rows_for_validation : Json → Result (List Json)
rows_for_validation (arr xs) = ok (elements xs)
rows_for_validation (obj end) = ok []
rows_for_validation (obj (field k v fs)) = ok (obj (field k v fs) ∷ [])
rows_for_validation null = err (value_error "performance: expected array or empty object")
rows_for_validation _ = err (value_error "performance: expected array or empty object")

-- a field that may be null, and the states that it may be in
abbrev pub Rule : Type 0
Rule = String × List String

unfoldable pub check_rule : Json → Json → Rule → Result (Unit {0})
unfolding subscript is_one_of get is_null is_text
check_rule row status (name, allowed) = do
  state ← subscript status name
  known ← is_one_of state allowed
  refuse_if (not known) "invalid"
  value ← get row name null
  refuse_if (not (bool_eq (not (is_null value)) (is_text state "finite"))) "disagrees with value"

unfoldable pub validate_known_status : Json → List Rule → Json → Result (Unit {0})
unfolding keys same_set each check_rule
validate_known_status row rules (obj fs) = do
  refuse_if (not (same_set (keys (entries fs)) (keys rules)))
      "must classify every nullable numeric field"
  each (check_rule row (obj fs)) rules
validate_known_status row rules null = ok tt
validate_known_status row rules _ = err (value_error "must classify every nullable numeric field")

unfoldable pub validate_numeric_status : Json → List Rule → Result (Unit {0})
unfolding get validate_known_status
validate_numeric_status row rules = do
  status ← get row "numericStatus" null
  validate_known_status row rules status

abbrev sample_fields : List String
sample_fields = "timeNs" ∷ "retainedBytes" ∷ "heapGrowthBytes" ∷ []

-- `not isinstance(value, int) or value < 0`
unfoldable pub is_bad_sample : Json → Result Bool
unfolding is_int lt
is_bad_sample value = let negative = lt value (nat 0) in if is_int value then negative else ok true

unfoldable pub check_samples : Json → Json → String → Result (Unit {0})
unfolding subscript is_list iterate is_nat any_m is_bad_sample
check_samples samples runs name = do
  values ← subscript samples name
  refuse_if (not (is_list values)) "sample count must equal runs"
  rows ← iterate values
  refuse_if (not (is_nat runs (length rows))) "sample count must equal runs"
  bad ← any_m is_bad_sample rows
  refuse_if bad "expected non-negative integer samples"

unfoldable pub validate_benchmark_samples : Json → Json → Result (Unit {0})
unfolding require_object each check_samples
validate_benchmark_samples samples runs = do
  require_object samples sample_fields
  each (check_samples samples runs) sample_fields

unfoldable pub validate_benchmark_workload : Json → Json → Result (Unit {0})
unfolding require_object subscript py_eq lt each expect_bool
validate_benchmark_workload workload runs = do
  require_object workload ("runs" ∷ "warmup" ∷ "gcBefore" ∷ "gcEach" ∷ "space" ∷ [])
  stated ← subscript workload "runs"
  refuse_if (not (py_eq stated runs)) "invalid runs/warmup"
  few ← lt runs (nat 1)
  refuse_if few "invalid runs/warmup"
  warmup ← subscript workload "warmup"
  negative ← lt warmup (nat 0)
  refuse_if negative "invalid runs/warmup"
  each (expect_bool workload) ("gcBefore" ∷ "gcEach" ∷ "space" ∷ [])

unfoldable pub validate_benchmark_environment : Json → Result (Unit {0})
unfolding require_object expect_form is_prefixed_hex
validate_benchmark_environment environment = do
  require_object environment (
      "qVersion" ∷ "qRelease" ∷ "os" ∷ "architecture" ∷ "cpuModel" ∷ "logicalCores" ∷ "fingerprint"
      ∷ [])
  expect_form (is_prefixed_hex "environment_" 32) environment "fingerprint"

abbrev comparison_fields : List String
comparison_fields =
    "benchmarkId" ∷ "testId" ∷ "file" ∷ "suite" ∷ "description" ∷ "classification" ∷ "reason"
    ∷ "baselineFound" ∷ "comparable" ∷ "environmentMatch" ∷ "workloadMatch" ∷ "environmentAccepted"
    ∷ "metric" ∷ "unit" ∷ "baselineMedian" ∷ "currentMedian" ∷ "relativeChangePercent" ∷ "u" ∷ "z"
    ∷ "pValue" ∷ "adjustedPValue" ∷ "alpha" ∷ "practicalEffectPercent" ∷ "baselineRuns"
    ∷ "currentRuns" ∷ []

abbrev comparison_rules : List Rule
comparison_rules =
    ("baselineMedian", "finite" ∷ "baselineMissing" ∷ [])
    ∷ ("currentMedian", "finite" ∷ "samplesMissing" ∷ [])
    ∷ ("relativeChangePercent", "finite" ∷ "baselineMissingOrZero" ∷ [])
    ∷ ("u", "finite" ∷ "notComparable" ∷ [])
    ∷ ("z", "finite" ∷ "notComparable" ∷ [])
    ∷ ("pValue", "finite" ∷ "notAvailable" ∷ [])
    ∷ ("adjustedPValue", "finite" ∷ "notComparable" ∷ "notAvailable" ∷ [])
    ∷ ("alpha", "finite" ∷ "notAvailable" ∷ [])
    ∷ ("practicalEffectPercent", "finite" ∷ "notAvailable" ∷ [])
    ∷ []

abbrev zero_float : Float
zero_float = finite false 0

one_float : Float
one_float = finite false (2 ^ 1074)

module _ ⦃r : Runtime⦄ where
  -- `not FORM.fullmatch(str(x[name]))` is refused
  unfoldable pub expect_text_form : (String → Bool) → Json → String → Result (Unit {0})
  unfolding subscript to_str
  expect_text_form form x name = do
    v ← subscript x name
    refuse_if (not (form (to_str v))) "invalid"

  unfoldable pub float_at : Json → String → Result Float
  unfolding subscript to_float
  float_at x name = do v ← subscript x name; to_float v

  -- 0 <= pValue <= adjustedPValue <= 1, and 0 < alpha <= 1
  unfoldable pub check_probabilities : Json → Result (Unit {0})
  unfolding float_at float_le one_float
  check_probabilities comparison = do
    p ← float_at comparison "pValue"
    refuse_if (not (float_le zero_float p)) "invalid raw/adjusted p-values"
    adjusted ← float_at comparison "adjustedPValue"
    refuse_if (not (float_le p adjusted && float_le adjusted one_float))
        "invalid raw/adjusted p-values"
    alpha ← float_at comparison "alpha"
    refuse_if (float_le alpha zero_float || not (float_le alpha one_float)) "invalid"

  unfoldable pub validate_benchmark_comparison : Json → Result (Unit {0})
  unfolding require_object expect_text_form is_benchmark_id is_hex_id expect_one_of
      check_probabilities subscript truthy is_text validate_numeric_status
  validate_benchmark_comparison comparison = do
    require_object comparison comparison_fields
    expect_text_form is_benchmark_id comparison "benchmarkId"
    expect_text_form is_hex_id comparison "testId"
    expect_one_of comparison "classification"
        ("improved" ∷ "stable" ∷ "inconclusive" ∷ "regressed" ∷ [])
    check_probabilities comparison
    comparable ← subscript comparison "comparable"
    classification ← subscript comparison "classification"
    refuse_if (not (truthy comparable) && not (is_text classification "inconclusive"))
        "non-comparable benchmark must be inconclusive"
    validate_numeric_status comparison comparison_rules

  -- a comparison that is there is valid, and of the same benchmark
  unfoldable pub check_own_comparison : Json → Json → Result (Unit {0})
  unfolding validate_benchmark_comparison subscript py_eq
  check_own_comparison benchmark comparison = do
    validate_benchmark_comparison comparison
    other ← subscript comparison "benchmarkId"
    own ← subscript benchmark "benchmarkId"
    refuse_if (not (py_eq other own)) "benchmark identity differs"

  unfoldable pub validate_benchmark_telemetry : Json → Json → Result (Unit {0})
  unfolding require_object expect_text_form is_benchmark_id subscript py_eq is_int lt
      validate_benchmark_workload validate_benchmark_samples truthy check_own_comparison
  validate_benchmark_telemetry benchmark test_id = do
    require_object benchmark (
        "benchmarkId" ∷ "testId" ∷ "file" ∷ "suite" ∷ "description" ∷ "status" ∷ "runs" ∷ "metric"
        ∷ "unit" ∷ "measurement" ∷ "limits" ∷ "workload" ∷ "samples" ∷ "comparison" ∷ [])
    expect_text_form is_benchmark_id benchmark "benchmarkId"
    own ← subscript benchmark "testId"
    refuse_if (not (py_eq own test_id)) "invalid benchmark/test identity"
    runs ← subscript benchmark "runs"
    refuse_if (not (is_int runs)) "expected positive integer"
    few ← lt runs (nat 1)
    refuse_if few "expected positive integer"
    workload ← subscript benchmark "workload"
    validate_benchmark_workload workload runs
    samples ← subscript benchmark "samples"
    validate_benchmark_samples samples runs
    comparison ← subscript benchmark "comparison"
    let compared = check_own_comparison benchmark comparison
    if truthy comparison then compared else ok tt
