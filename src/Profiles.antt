-- ===== src/Profiles.antt =====
-- tools/report_profiles.py: the projections of a complete report to a declared profile.
pub mod Members
pub mod Rows
pub mod Returns
use resq.Base.{
  string_eq, ℕ, String, Bool, true, false, not, List, [], ◌∷◌, map, Option, none, some, ◌==◌,
  if◌then◌else◌, ◌≡◌, contains,
}
use resq.Py.Value.{
  Json, null, bool, int, float, str, arr, obj, nil, Fields, entries, of_entries, array, object,
}
use resq.Py.Result.{
  Exn, Result, ok, err, value_error, attribute_error, type_error, raise_if, ◌>>=◌, ◌>>◌,
}
use resq.Py.Dict.{Dict, lookup}
use resq.Py.Access.{get, set_item, pop, iterate, truthy, is_list}
use resq.Py.Fields.{member}
use resq.Py.Loops.{map_m, fold_m}

abbrev pub profiles : List String
profiles = "full" ∷ "results" ∷ "telemetry" ∷ []

abbrev pub omitted_sections : List String
omitted_sections =
    "performance" ∷ "coverage" ∷ "flake" ∷ "snapshotInventory" ∷ "benchmarkAnalysis" ∷ "manifest"
    ∷ "events" ∷ []

abbrev pub omitted_test_fields : List String
omitted_test_fields =
    "time" ∷ "failures" ∷ "namespace" ∷ "tags" ∷ "output" ∷ "parameters" ∷ "attemptHistory"
    ∷ "parameterCases" ∷ "property" ∷ "diagnostics" ∷ "snapshots" ∷ "benchmark" ∷ "quarantine" ∷ []

abbrev pub telemetry_test_fields : List String
telemetry_test_fields =
    "suite" ∷ "description" ∷ "status" ∷ "message" ∷ "durationSeconds" ∷ "assertsRun" ∷ "file"
    ∷ "line" ∷ "testId" ∷ "caseId" ∷ "kind" ∷ "attempts" ∷ "retried" ∷ "flaky" ∷ "startedAt"
    ∷ "finishedAt" ∷ []

-- a list of texts as a JSON array
abbrev pub texts : List String → Json
texts names = array (map str names)

unfoldable pub completeness : String → Result Json
unfolding contains
completeness profile = do
  raise_if (not (contains profile profiles)) (value_error "unsupported report profile")
  ok (
      object (
        ("evidenceComplete", bool (profile == "full"))
        ∷ ("omittedSections", if profile == "full" then texts [] else texts omitted_sections)
        ∷ (
          "omittedTestFields",
          if profile == "telemetry" then texts omitted_test_fields else texts [],
        )
        ∷ (
          "boundedFields",
          if profile == "telemetry"
              then texts ("tests.message" ∷ "diagnostics.message" ∷ [])
              else texts [],
        )
        ∷ []))

-- `if not row.get("quarantine"): row.pop("quarantine", None)`
unfoldable pub drop_empty_quarantine : Json → Result Json
drop_empty_quarantine row = do
  quarantine ← get row "quarantine" null
  if truthy quarantine then ok row else pop row "quarantine"

-- The rows are changed in place: a document with no list of tests has none to change.
unfoldable pub clean_tests : Option Json → Json → Result Json
unfolding drop_empty_quarantine map_m
clean_tests none out = ok out
clean_tests (some tests) out = do
  rows ← iterate tests
  cleaned ← map_m drop_empty_quarantine rows
  if is_list tests then set_item out "tests" (array cleaned) else ok out

-- `{name: row[name] for name in names if name in row}`
unfoldable pub select : List String → Dict String Json → Dict String Json
unfolding lookup
select [] row = []
select (name ∷ names) row = elim (lookup name row) [
  | none ↦ select names row
  | some v ↦ (name, v) ∷ select names row
]

unfoldable pub telemetry_row : Json → Result Json
unfolding select
telemetry_row (obj fs) = ok (object (select telemetry_test_fields (entries fs)))
telemetry_row null = err type_error
telemetry_row _ = err type_error

unfoldable pub telemetry_tests : Json → Result Json
unfolding telemetry_row map_m
telemetry_tests out = do
  tests ← get out "tests" (arr nil)
  rows ← iterate tests
  selected ← map_m telemetry_row rows
  set_item out "tests" (array selected)

unfoldable pub drop_sections : String → Json → Result Json
unfolding fold_m
drop_sections profile out = if profile == "full" then ok out else fold_m pop out omitted_sections

unfoldable pub project : Json → String → Result Json
unfolding drop_sections clean_tests telemetry_tests completeness contains
project document profile = do
  raise_if (not (contains profile profiles)) (value_error "unsupported report profile")
  without ← drop_sections profile document
  tests ← get without "tests" (arr nil)
  cleaned ← clean_tests (member without "tests") without
  selected ← (if profile == "telemetry" then telemetry_tests cleaned else ok cleaned)
  labelled ← set_item selected "profile" (str profile)
  complete ← completeness profile
  set_item labelled "completeness" complete
