-- ===== src/Report/Sections.antt =====
-- tools/validate_report.py, validate: the flake, snapshot, performance and benchmark sections.
use resq.Base.{string_eq, String, not, ◌&&◌, List, [], ◌∷◌, distinct, if◌then◌else◌}
use resq.Py.Value.{Json, nat, array}
use resq.Py.Result.{Result, ok, ◌>>=◌, ◌>>◌}
use resq.Py.Access.{subscript, get, iterate, truthy, is_dict}
use resq.Py.Hash.{Atom, hashed, atom_eq}
use resq.Py.Checks.{refuse_if, is_member, lt}
use resq.Py.Loops.{each, map_m}
use resq.Py.Text.{Runtime}
use resq.Report.{
  require, is_hex_id, is_benchmark_id, expect_text, expect_nat, expect_one_of, expect_bool,
  iso8601_at,
}
use resq.Report.Benchmarks.{
  Rule, rows_for_validation, validate_numeric_status, validate_benchmark_samples,
  validate_benchmark_workload, validate_benchmark_environment, validate_benchmark_comparison,
  expect_text_form,
}

-- `x < y` is refused for two members, or for a member and a number
unfoldable pub expect_at_least : Json → String → Json → Result (Unit {0})
unfolding subscript lt
expect_at_least x name bound = do
  value ← subscript x name
  below ← lt value bound
  refuse_if below "invalid evidence thresholds"

unfoldable pub check_flake : Json → Result (Unit {0})
unfolding require expect_nat expect_one_of expect_at_least subscript
check_flake flake = do
  require flake (
      "schemaVersion" ∷ "historyPath" ∷ "historyStatus" ∷ "manifestPath" ∷ "manifestStatus"
      ∷ "nonBlockingEnabled" ∷ "evidenceMin" ∷ "failureMin" ∷ "window" ∷ "healthy" ∷ "suspect"
      ∷ "quarantined" ∷ "expired" ∷ "insufficient" ∷ "proposalCount" ∷ [])
  expect_nat flake "schemaVersion" 2 "unsupported schema"
  expect_one_of flake "historyStatus" ("ok" ∷ "missing" ∷ "invalid" ∷ "unsupported" ∷ [])
  expect_one_of flake "manifestStatus" ("ok" ∷ "missing" ∷ "invalid" ∷ "unsupported" ∷ [])
  expect_at_least flake "evidenceMin" (nat 2)
  expect_at_least flake "failureMin" (nat 1)
  evidence ← subscript flake "evidenceMin"
  expect_at_least flake "window" evidence

unfoldable pub check_snapshot_entry : Json → Result (Unit {0})
unfolding require expect_one_of
check_snapshot_entry entry = do
  require entry (
      "backend" ∷ "name" ∷ "path" ∷ "root" ∷ "absoluteRoot" ∷ "absolutePath" ∷ "status"
      ∷ "referenced" ∷ "declared" ∷ "dynamic" ∷ "exists" ∷ "unsafe" ∷ "executionIds"
      ∷ "observedStatuses" ∷ [])
  expect_one_of entry "status" ("referenced" ∷ "missing" ∷ "obsolete" ∷ "unverified" ∷ [])
  expect_one_of entry "backend" ("binary" ∷ "text" ∷ [])

-- `set(xs)` of values that are already there
unfoldable pub atoms : List Json → Result (List Atom)
unfolding map_m hashed
atoms = map_m hashed

-- `name in document`, then the check of that section
unfoldable pub section : Json → String → (Json → Result (Unit {0})) → Result (Unit {0})
unfolding is_member subscript
section document name check = do
  present ← is_member document name
  let checked = do value ← subscript document name; check value
  if present then checked else ok tt

module _ ⦃r : Runtime⦄ where
  unfoldable pub check_snapshot_inventory : Json → Result (Unit {0})
  unfolding require expect_nat expect_text iso8601_at expect_bool subscript truthy iterate each
      check_snapshot_entry
  check_snapshot_inventory snapshots = do
    require snapshots (
        "schemaVersion" ∷ "kind" ∷ "enabled" ∷ "generatedAt" ∷ "complete" ∷ "completenessReasons"
        ∷ "roots" ∷ "entries" ∷ "counts" ∷ "gate" ∷ [])
    expect_nat snapshots "schemaVersion" 1 "unsupported schema"
    expect_text snapshots "kind" "resq-snapshot-inventory" "unsupported schema"
    generated ← iso8601_at snapshots "generatedAt"
    expect_bool snapshots "complete"
    expect_bool snapshots "enabled"
    complete ← subscript snapshots "complete"
    reasons ← subscript snapshots "completenessReasons"
    refuse_if (not (truthy complete) && not (truthy reasons)) "partial inventory requires reasons"
    gate ← subscript snapshots "gate"
    require gate ("enabled" ∷ "passed" ∷ "reasons" ∷ [])
    member ← subscript snapshots "entries"
    rows ← iterate member
    each check_snapshot_entry rows

  abbrev measurement_fields : List String
  measurement_fields =
      "benchmarkId" ∷ "testId" ∷ "file" ∷ "suite" ∷ "description" ∷ "metric" ∷ "unit" ∷ "runs"
      ∷ "avgTimeMs" ∷ "minTimeMs" ∷ "medTimeMs" ∷ "maxTimeMs" ∷ "devTimeMs" ∷ "avgSpaceBytes"
      ∷ "maxSpaceBytes" ∷ "timeLimitMs" ∷ "spaceLimitBytes" ∷ "workload" ∷ "samples" ∷ "measurement"
      ∷ "environment" ∷ "comparison" ∷ []

  abbrev measurement_rules : List Rule
  measurement_rules =
      ("avgTimeMs", "finite" ∷ "notMeasured" ∷ [])
      ∷ ("minTimeMs", "finite" ∷ "notMeasured" ∷ [])
      ∷ ("medTimeMs", "finite" ∷ "notMeasured" ∷ [])
      ∷ ("maxTimeMs", "finite" ∷ "notMeasured" ∷ [])
      ∷ ("devTimeMs", "finite" ∷ "notMeasured" ∷ [])
      ∷ ("avgSpaceBytes", "finite" ∷ "notMeasured" ∷ [])
      ∷ ("maxSpaceBytes", "finite" ∷ "notMeasured" ∷ [])
      ∷ ("timeLimitMs", "finite" ∷ "notConfigured" ∷ [])
      ∷ ("spaceLimitBytes", "finite" ∷ "notConfigured" ∷ [])
      ∷ []

  unfoldable pub validate_measurement : Json → Result (Unit {0})
  unfolding require expect_text_form is_benchmark_id is_hex_id subscript validate_benchmark_workload
      validate_benchmark_samples validate_benchmark_environment validate_numeric_status truthy
      validate_benchmark_comparison
  validate_measurement measurement = do
    require measurement measurement_fields
    expect_text_form is_benchmark_id measurement "benchmarkId"
    expect_text_form is_hex_id measurement "testId"
    runs ← subscript measurement "runs"
    workload ← subscript measurement "workload"
    validate_benchmark_workload workload runs
    samples ← subscript measurement "samples"
    validate_benchmark_samples samples runs
    environment ← subscript measurement "environment"
    validate_benchmark_environment environment
    validate_numeric_status measurement measurement_rules
    comparison ← subscript measurement "comparison"
    let compared = validate_benchmark_comparison comparison
    if truthy comparison then compared else ok tt

  -- one round over the measurements, with the identities so far
  unfoldable pub performance_ids : List Json → Result (List Atom)
  unfolding is_dict is_member validate_measurement subscript hashed
  performance_ids [] = ok []
  performance_ids (measurement ∷ rows) = do
    refuse_if (not (is_dict measurement)) "expected object"
    named ← is_member measurement "benchmarkId"
    let rest = performance_ids rows
    let checked = do
      validate_measurement measurement
      id ← subscript measurement "benchmarkId"
      ids ← rest
      key ← hashed id
      ok (key ∷ ids)
    if named then checked else rest

  unfoldable pub check_performance : Json → Result (List Atom)
  unfolding get rows_for_validation performance_ids distinct
  check_performance document = do
    member ← get document "performance" (array [])
    rows ← rows_for_validation member
    ids ← performance_ids rows
    refuse_if (not (distinct ids)) "duplicate benchmark identity"
    ok ids
