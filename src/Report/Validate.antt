-- ===== src/Report/Validate.antt =====
-- tools/validate_report.py: validate.
use resq.Base.{string_eq, String, not, ◌||◌, List, [], ◌∷◌, concat, if◌then◌else◌}
use resq.Py.Value.{Json, object, array}
use resq.Py.Result.{Result, ok, ◌>>=◌, ◌>>◌}
use resq.Py.Access.{subscript, get, iterate, is_dict, is_list}
use resq.Py.Hash.{Atom}
use resq.Py.Checks.{refuse_if, is_member, are_distinct}
use resq.Py.Loops.{each, map_m}
use resq.Py.Text.{Runtime}
use resq.Coverage.Gates.{validate_report_coverage}
use resq.Report.{require, expect_text, expect_nat, validate_diagnostic}
use resq.Report.Numbers.{reject_non_finite_numbers, validate_canonical_value_envelopes}
use resq.Report.Rows.{validate_test, validate_telemetry_test}
use resq.Report.Shards.{Profile, legacy_full, telemetry, validate_profile, validate_run_shard}
use resq.Report.Completion.{validate_completion}
use resq.Report.Manifest.{execution_of}
use resq.Report.Selection.{validate_manifest}
use resq.Report.Timeline.{validate_events}
use resq.Report.Header.{check_run}
use resq.Report.Summary.{check_summary}
use resq.Report.Sections.{section, check_flake, check_snapshot_inventory, check_performance}
use resq.Report.Gates.{check_analysis, check_green, check_benchmarks, check_section_event}

unfoldable pub required_sections : Profile → List String
required_sections legacy_full =
    "schemaVersion" ∷ "framework" ∷ "frameworkVersion" ∷ "run" ∷ "summary" ∷ "tests" ∷ "diagnostics"
    ∷ "performance" ∷ "coverage" ∷ []
required_sections _ =
    "schemaVersion" ∷ "framework" ∷ "frameworkVersion" ∷ "run" ∷ "summary" ∷ "tests" ∷ "diagnostics"
    ∷ []

-- the identities of the parameter cases of a row
unfoldable pub case_ids : Json → Result (List Json)
unfolding get iterate map_m subscript
case_ids row = do
  member ← get row "parameterCases" (array [])
  cases ← iterate member
  map_m (λ case. subscript case "caseId") cases

module _ ⦃r : Runtime⦄ where
  -- the validator of a row
  unfoldable pub row_validator : Profile → Json → Result (Unit {0})
  unfolding validate_test validate_telemetry_test
  row_validator telemetry = validate_telemetry_test
  row_validator legacy_full = validate_test
  row_validator _ = validate_test

  -- the rows; their identities and those of their cases are unique
  unfoldable pub check_rows : Profile → List Json → Result (List Json)
  unfolding each row_validator map_m execution_of case_ids are_distinct
  check_rows profile rows = do
    each (row_validator profile) rows
    ids ← map_m execution_of rows
    cases ← map_m case_ids rows
    unique ← are_distinct ids
    refuse_if (not unique) "duplicate execution identity"
    unique_cases ← are_distinct (concat cases)
    refuse_if (not unique_cases) "duplicate parameter caseId"
    ok ids

  -- the manifest and the events, of which neither goes without the other
  unfoldable pub check_lifecycle_sections : Json → Result (Unit {0})
  unfolding is_member require subscript validate_manifest validate_events iterate get
      check_section_event
  check_lifecycle_sections document = do
    listed ← is_member document "manifest"
    told ← is_member document "events"
    let checked = do
      require document ("manifest" ∷ "events" ∷ [])
      manifest ← subscript document "manifest"
      validate_manifest manifest document
      events ← subscript document "events"
      validate_events events document
      rows ← iterate events
      snapshots ← get document "snapshotInventory" (object [])
      check_section_event rows "snapshots.audited" snapshots
      analysis ← get document "benchmarkAnalysis" (object [])
      check_section_event rows "benchmarks.compared" analysis
    if listed || told then checked else ok tt

  unfoldable pub check_diagnostics : Json → Result (List Json)
  unfolding subscript is_list iterate each validate_diagnostic
  check_diagnostics document = do
    member ← subscript document "diagnostics"
    refuse_if (not (is_list member)) "expected array"
    rows ← iterate member
    each validate_diagnostic rows
    ok rows

  -- the checks of the sections around the rows
  unfoldable pub check_sections : Json → Json → Result (List Atom)
  unfolding section validate_report_coverage check_flake check_snapshot_inventory check_performance
      check_analysis
  check_sections document run = do
    section document "coverage" validate_report_coverage
    section document "flake" check_flake
    section document "snapshotInventory" check_snapshot_inventory
    measured ← check_performance document
    section document "benchmarkAnalysis" (check_analysis run measured)
    ok measured

  -- the checks of a document whose numbers are finite
  unfoldable pub validate_finite : Json → Result (Unit {0})
  unfolding validate_canonical_value_envelopes validate_profile require required_sections expect_nat
      expect_text subscript check_run validate_run_shard iterate check_summary check_sections
      check_rows validate_completion check_diagnostics check_green check_benchmarks
      check_lifecycle_sections
  validate_finite document = do
    validate_canonical_value_envelopes document
    profile ← validate_profile document
    require document (required_sections profile)
    expect_nat document "schemaVersion" 2 "expected resQ schemaVersion 2"
    expect_text document "framework" "resQ" "expected resQ schemaVersion 2"
    run ← subscript document "run"
    check_run document run
    validate_run_shard document
    summary ← subscript document "summary"
    tests ← subscript document "tests"
    rows ← iterate tests
    check_summary summary rows
    measured ← check_sections document run
    ids ← check_rows profile rows
    validate_completion document ids
    diagnostics ← check_diagnostics document
    check_green document summary diagnostics
    check_benchmarks document rows measured
    check_lifecycle_sections document

  unfoldable pub validate : Json → Result (Unit {0})
  unfolding is_dict reject_non_finite_numbers validate_finite
  validate document = do
    refuse_if (not (is_dict document)) "expected object"
    reject_non_finite_numbers document
    validate_finite document
