-- ===== src/Report/Gates.antt =====
-- tools/validate_report.py, validate: the benchmark analysis, and the verdict against the diagnostics.
use resq.Base.{
  string_eq, ℕ, zero, suc, ◌/◌, ◌^◌, String, Bool, true, false, not, ◌&&◌, ◌||◌, List, [], ◌∷◌,
  Option, none, some, same_set, distinct, nat_eq, length, if◌then◌else◌,
}
use resq.Py.Value.{
  ℤ, pos, negsuc, finite, infinity, nan, Json, null, bool, int, float, str, nat, object,
}
use resq.Py.Result.{Result, ok, err, value_error, type_error, overflow_error, ◌>>=◌, ◌>>◌}
use resq.Py.Access.{subscript, get, iterate, truthy, is_dict}
use resq.Py.Equal.{is_nat, is_text, py_eq}
use resq.Py.Hash.{Atom, hashed, atom_eq}
use resq.Py.Checks.{refuse_if, is_member, is_true, lt}
use resq.Py.Loops.{each, map_m, filter_m}
use resq.Py.Text.{Runtime}
use resq.Report.{require, expect_text, expect_nat, expect_one_of, expect_bool}
use resq.Report.Benchmarks.{validate_benchmark_environment, validate_benchmark_comparison}

signed : Bool → ℕ → ℤ
signed s zero = pos 0
signed false (suc n) = pos (suc n)
signed true (suc n) = negsuc n

module _ ⦃r : Runtime⦄ where
  read : Option ℤ → Result ℤ
  read (some z) = ok z
  read none = err (value_error "invalid literal for int()")

  -- `int(x)`
  unfoldable pub to_int : Json → Result ℤ
  unfolding signed read
  to_int (int z) = ok z
  to_int (bool true) = ok (pos 1)
  to_int (bool false) = ok (pos 0)
  to_int (float (finite s m)) = ok (signed s (m / 2 ^ 1074))
  to_int (float (infinity s)) = err overflow_error
  to_int (float nan) = err (value_error "cannot convert float NaN to integer")
  to_int (str s) = read (r.read_int s)
  to_int null = err type_error
  to_int _ = err type_error

  -- only an unmerged run of several shards may defer its gate
  unfoldable pub check_deferred : Json → Json → Result (Unit {0})
  unfolding subscript truthy get to_int lt
  check_deferred run gate = do
    enabled ← subscript gate "enabled"
    passed ← subscript gate "passed"
    reasons ← subscript gate "reasons"
    refuse_if (not (truthy enabled) || not (truthy passed) || truthy reasons)
        "deferred shard gate must be enabled, non-blocking, and reason-free"
    shard ← get run "shard" (object [])
    count ← get shard "count" (nat 1)
    n ← to_int count
    several ← lt (nat 1) (int n)
    merged ← get shard "merged" (bool false)
    refuse_if (not several || truthy merged) "only an unmerged multi-shard run may defer"

  unfoldable pub check_analysis_gate : Json → Json → Result (Unit {0})
  unfolding subscript require each expect_bool truthy check_deferred
  check_analysis_gate run analysis = do
    gate ← subscript analysis "gate"
    require gate ("enabled" ∷ "deferred" ∷ "passed" ∷ "reasons" ∷ [])
    each (expect_bool gate) ("enabled" ∷ "deferred" ∷ "passed" ∷ [])
    deferred ← subscript gate "deferred"
    let checked = check_deferred run gate
    if truthy deferred then checked else ok tt

  -- an enabled analysis compares every benchmark that was measured, each once
  unfoldable pub check_analysis : Json → List Atom → Json → Result (Unit {0})
  unfolding require expect_nat expect_text expect_one_of subscript validate_benchmark_environment
      iterate each validate_benchmark_comparison map_m hashed distinct truthy same_set
      check_analysis_gate
  check_analysis run measured analysis = do
    require analysis (
        "schemaVersion" ∷ "kind" ∷ "enabled" ∷ "baselinePath" ∷ "baselineStatus" ∷ "method"
        ∷ "config" ∷ "environment" ∷ "counts" ∷ "comparisons" ∷ "gate" ∷ [])
    expect_nat analysis "schemaVersion" 1 "unsupported schema"
    expect_text analysis "kind" "resq-benchmark-analysis" "unsupported schema"
    expect_one_of analysis "baselineStatus"
        ("disabled" ∷ "notLoaded" ∷ "ok" ∷ "missing" ∷ "invalid" ∷ "unsupported" ∷ [])
    environment ← subscript analysis "environment"
    validate_benchmark_environment environment
    member ← subscript analysis "comparisons"
    comparisons ← iterate member
    each validate_benchmark_comparison comparisons
    ids ← map_m (λ row. subscript row "benchmarkId" >>= hashed) comparisons
    refuse_if (not (distinct ids)) "duplicate comparison identity"
    enabled ← subscript analysis "enabled"
    refuse_if (truthy enabled && not (same_set ids measured))
        "comparisons must cover every performance record"
    check_analysis_gate run analysis

enabled_holds : Json → Result Bool
unfolding get truthy is_true
enabled_holds gate = do
  enabled ← get gate "enabled" null
  passed ← get gate "passed" null
  ok (not (truthy enabled) || is_true passed)

-- a gate that is enabled has to have passed
unfoldable pub gate_holds : Json → Result Bool
unfolding is_dict enabled_holds
gate_holds gate = if is_dict gate then enabled_holds gate else ok true

-- `document.get(name, {}).get("gate", {})`
unfoldable pub gate_of : Json → String → Result Json
unfolding get
gate_of document name = do part ← get document name (object []); get part "gate" (object [])

-- the run has no failure, no error and no failed gate
unfoldable pub is_green : Json → Json → Result Bool
unfolding subscript is_nat get gate_holds gate_of
is_green document summary = do
  failures ← subscript summary "failCount"
  errors ← subscript summary "errorCount"
  coverage ← get document "coverage" (object [])
  covered ← gate_holds coverage
  snapshot_gate ← gate_of document "snapshotInventory"
  kept ← gate_holds snapshot_gate
  benchmark_gate ← gate_of document "benchmarkAnalysis"
  fast ← gate_holds benchmark_gate
  ok (is_nat failures 0 && is_nat errors 0 && covered && kept && fast)

-- an error that was not expected and bears on the verdict
unfoldable pub is_unexpected : Json → Result Bool
unfolding subscript is_text get truthy
is_unexpected diagnostic = do
  severity ← subscript diagnostic "severity"
  data_value ← subscript diagnostic "data"
  expected ← get data_value "expected" (bool false)
  other ← get data_value "nonVerdict" (bool false)
  ok (is_text severity "error" && not (truthy expected) && not (truthy other))

unfoldable pub check_green : Json → Json → List Json → Result (Unit {0})
unfolding is_green filter_m is_unexpected
check_green document summary diagnostics = do
  green ← is_green document summary
  unexpected ← filter_m is_unexpected diagnostics
  refuse_if (green && not (nat_eq (length unexpected) 0))
      "all-green report contains verdict-bearing error diagnostics"

-- the benchmarks of the rows are those that were measured
unfoldable pub row_benchmarks : List Json → Result (List Atom)
unfolding get truthy is_member subscript hashed
row_benchmarks [] = ok []
row_benchmarks (row ∷ rows) = do
  benchmark ← get row "benchmark" null
  let rest = row_benchmarks rows
  let named = is_member benchmark "benchmarkId"
  let own = do id ← subscript benchmark "benchmarkId"; hashed id
  is_named ← (if truthy benchmark then named else ok false)
  if is_named then (do key ← own; keys ← rest; ok (key ∷ keys)) else rest

unfoldable pub check_benchmarks : Json → List Json → List Atom → Result (Unit {0})
unfolding row_benchmarks is_member same_set
check_benchmarks document rows measured = do
  ids ← row_benchmarks rows
  present ← is_member document "performance"
  refuse_if (present && not (same_set ids measured))
      "identities differ from test benchmark telemetry"

-- the one event of that type is there if and only if the section is enabled, and its payload is the section
unfoldable pub check_section_event : List Json → String → Json → Result (Unit {0})
unfolding filter_m subscript is_text get truthy is_nat each py_eq
check_section_event events name part = do
  found ← filter_m (λ event. do kind ← subscript event "type"; ok (is_text kind name)) events
  enabled ← get part "enabled" null
  refuse_if (not (nat_eq (length found) (if truthy enabled then 1 else 0)))
      "presence disagrees with section"
  each
      (λ event. do
        payload ← subscript event "payload"
        refuse_if (not (py_eq payload part)) "payload differs from report")
      found
