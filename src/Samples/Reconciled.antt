-- ===== src/Samples/Reconciled.antt =====
-- tools/reconcile_coverage.py with the validator of tools/validate_report.py, on two whole reports.
use resq.Base.{string_eq, String, Bool, List, true, false, [], ◌∷◌, map, some, ◌≡◌, refl}
use resq.Py.Value.{Json, bool, str, nat, array, object}
use resq.Py.Result.{ok}
use resq.Py.Access.{iterate}
use resq.Py.Fields.{member}
use resq.Py.Running.{python}
use resq.Py.Samples.{plain}
use resq.Report.Validate.{validate}
use resq.Reconcile.{row_keys, documented_differences, reconcile_reports}
use resq.Reconcile.Inventory.{InventoryCounts, reconcile_reports-counts}
use resq.Samples.Artifacts.{coverage}
use resq.Samples.Reports.{test_id, shard, summary, manifest}

abbrev row : Json
row = object (
    ("suite", str "s")
    ∷ ("description", str "d")
    ∷ ("status", str "pass")
    ∷ ("message", str "")
    ∷ ("time", nat 0)
    ∷ ("durationSeconds", nat 0)
    ∷ ("failures", array [])
    ∷ ("assertsRun", nat 2)
    ∷ ("file", str "a.q")
    ∷ ("line", nat 1)
    ∷ ("namespace", str "")
    ∷ ("tags", array [])
    ∷ ("output", str "")
    ∷ ("testId", test_id)
    ∷ ("caseId", str "")
    ∷ ("kind", str "test")
    ∷ ("attempts", nat 1)
    ∷ ("retried", bool false)
    ∷ ("flaky", bool false)
    ∷ ("attemptHistory", array [])
    ∷ ("parameterCases", array [])
    ∷ ("property", object [])
    ∷ ("diagnostics", array [])
    ∷ ("snapshots", array [])
    ∷ ("benchmark", object [])
    ∷ [])

abbrev run_id : Json
run_id = str "run_00000000000000000000000000000002"

abbrev run : Bool → Json
run isolate = object (
    ("id", run_id)
    ∷ ("startedAt", str "2026-01-01T00:00:00Z")
    ∷ ("finishedAt", str "2026-01-01T00:00:00Z")
    ∷ ("durationSeconds", nat 0)
    ∷ ("hostname", str "h")
    ∷ ("cwd", str "/")
    ∷ ("qVersion", str "4.1")
    ∷ ("qRelease", str "2026.01.01")
    ∷ ("os", str "l64")
    ∷ ("resqVersion", str "1")
    ∷ ("vcs", object (("sha", str "") ∷ ("branch", str "main") ∷ ("dirty", bool false) ∷ []))
    ∷ ("ci", object [])
    ∷ ("config", object (("isolate", bool isolate) ∷ []))
    ∷ ("shard", shard)
    ∷ ("selection", object (("selectedTestCount", nat 1) ∷ []))
    ∷ [])

abbrev event : Json → String → String → Json → Json
event sequence kind entity payload = object (
    ("schemaVersion", nat 1)
    ∷ ("sequence", sequence)
    ∷ ("type", str kind)
    ∷ ("runId", run_id)
    ∷ ("entityId", str entity)
    ∷ ("parentId", str "")
    ∷ ("occurredAt", str "2026-01-01T00:00:00Z")
    ∷ ("payload", payload)
    ∷ [])

abbrev events : Json
events = array (
    event (nat 1) "run.started" "r" (object [])
    ∷ event (nat 2) "manifest.published" "manifest_00000000000000000000000000000005" (object [])
    ∷ event (nat 3) "run.finished" "r" summary
    ∷ [])

abbrev report : Bool → Json → Json
report isolate measured = object (
    ("schemaVersion", nat 2)
    ∷ ("framework", str "resQ")
    ∷ ("frameworkVersion", str "1")
    ∷ ("run", run isolate)
    ∷ ("summary", summary)
    ∷ ("tests", array (row ∷ []))
    ∷ ("diagnostics", array [])
    ∷ ("performance", array [])
    ∷ ("coverage", measured)
    ∷ ("manifest", manifest)
    ∷ ("events", events)
    ∷ [])

abbrev lane : Json
lane = report true (object [])

validates : validate lane ≡ ok tt
unfolding validate python
validates = refl

abbrev covered : Json
covered = report false coverage

validates_covered : validate covered ≡ ok tt
unfolding validate python
validates_covered = refl

abbrev matched : Json
matched = object (
    ("schemaVersion", nat 1)
    ∷ ("kind", str "resq-coverage-reconciliation")
    ∷ ("framework", str "resQ")
    ∷ ("frameworkVersion", str "1")
    ∷ ("matched", bool true)
    ∷ ("correctnessRunId", run_id)
    ∷ ("coverageRunId", run_id)
    ∷ ("manifestDigest", str "manifest_00000000000000000000000000000005")
    ∷ (
      "inventory",
      object (
          ("tests", nat 1)
          ∷ ("assertions", nat 2)
          ∷ ("passes", nat 1)
          ∷ ("failures", nat 0)
          ∷ ("errors", nat 0)
          ∷ ("skips", nat 0)
          ∷ []),
    )
    ∷ ("comparedExecutionFields", array (map str row_keys))
    ∷ ("allowedDifferences", array (map str documented_differences))
    ∷ [])

reconciled : reconcile_reports validate lane covered ≡ ok matched
unfolding reconcile_reports validate python
reconciled = refl

reconcile_reports-counts_example :
    (inventory : Json) × (tests : Json) × (tests' : Json) × (rows : List Json) × (rows' : List Json)
    × (member matched "inventory" ≡ some inventory)
    × (member lane "tests" ≡ some tests)
    × (member covered "tests" ≡ some tests')
    × (iterate tests ≡ ok rows)
    × (iterate tests' ≡ ok rows')
    × InventoryCounts inventory rows
    × InventoryCounts inventory rows'
reconcile_reports-counts_example = reconcile_reports-counts lane covered matched reconciled
