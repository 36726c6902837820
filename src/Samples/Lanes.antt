-- ===== src/Samples/Lanes.antt =====
-- tools/reconcile_coverage.py on two small reports.
use resq.Base.{
  string_eq, String, Bool, List, true, false, [], ◌∷◌, some, ◌≡◌, refl, contains, distinct, All,
}
use resq.Py.Value.{Json, bool, str, array, object, nat}
use resq.Py.Result.{Result, ok}
use resq.Py.Dict.{lookup, keys}
use resq.Py.Running.{python}
use resq.Py.Samples.{plain}
use resq.Merge.Results.AllShards.{result_ids}
use resq.Reconcile.{Rows, row_keys, rows_by_identity, reconcile_reports}
use resq.Reconcile.Agreement.{IsSame, reconcile_reports-ids, reconcile_reports-IsSame}

abbrev accept : Json → Result (Unit {0})
accept document = ok tt

-- a result with a duration, which may differ
abbrev row : Json
row = object (("caseId", str "a") ∷ ("status", str "pass") ∷ [])

abbrev slow_row : Json
slow_row = object (("caseId", str "a") ∷ ("status", str "pass") ∷ ("time", nat 9) ∷ [])

abbrev report : String → Bool → Json → List (String × Json) → Json
report run_id isolate result more = object (
    ("framework", str "resQ")
    ∷ ("frameworkVersion", str "1")
    ∷ (
      "run",
      object (("id", str run_id) ∷ ("config", object (("isolate", bool isolate) ∷ [])) ∷ []),
    )
    ∷ (
      "manifest",
      object (
          ("digest", str "d")
          ∷ ("tests", array (object (("executionId", str "a") ∷ ("selected", bool true) ∷ []) ∷ []))
          ∷ []),
    )
    ∷ (
      "summary",
      object (
          ("testCount", nat 1)
          ∷ ("assertionCount", nat 2)
          ∷ ("passCount", nat 1)
          ∷ ("failCount", nat 0)
          ∷ ("errorCount", nat 0)
          ∷ ("skipCount", nat 0)
          ∷ []),
    )
    ∷ ("tests", array (result ∷ []))
    ∷ more)

abbrev correctness : Json
correctness = report "r1" true row []

abbrev coverage : Json
coverage = report "r2" false slow_row (("coverage", object (("enabled", bool true) ∷ [])) ∷ [])

abbrev matched : Json
matched = object (
    ("schemaVersion", nat 1)
    ∷ ("kind", str "resq-coverage-reconciliation")
    ∷ ("framework", str "resQ")
    ∷ ("frameworkVersion", str "1")
    ∷ ("matched", bool true)
    ∷ ("correctnessRunId", str "r1")
    ∷ ("coverageRunId", str "r2")
    ∷ ("manifestDigest", str "d")
    ∷ (
      "inventory",
      object (
          ("tests", nat 1)
          ∷ ("assertions", nat 2)
          ∷ ("passes", nat 1)
          ∷ ("failures", nat 0)
          ∷ ("errors", nat 0)
          ∷ ("skips", nat 0)
          ∷ []),
    )
    ∷ (
      "comparedExecutionFields",
      array (
          str "testId"
          ∷ str "caseId"
          ∷ str "suite"
          ∷ str "description"
          ∷ str "file"
          ∷ str "status"
          ∷ str "assertsRun"
          ∷ []),
    )
    ∷ (
      "allowedDifferences",
      array (
          str "run identity and timestamps"
          ∷ str "wall-clock and per-test durations"
          ∷ str "coverage configuration, diagnostics, events, and artifacts"
          ∷ str "isolation process metadata"
          ∷ []),
    )
    ∷ [])

reconciled : reconcile_reports accept correctness coverage ≡ ok matched
unfolding reconcile_reports python
reconciled = refl

left_rows : rows_by_identity correctness ≡ ok (("a", row) ∷ [])
unfolding rows_by_identity python
left_rows = refl

right_rows : rows_by_identity coverage ≡ ok (("a", slow_row) ∷ [])
unfolding rows_by_identity python
right_rows = refl

abbrev left : Rows
left = ("a", row) ∷ []

abbrev right : Rows
right = ("a", slow_row) ∷ []

a_listed : contains {A = String} "a" (keys left) ≡ true
unfolding python
a_listed = refl

reconcile_reports-ids_example :
    (ids : List String) × (ids' : List String) × (result_ids correctness ≡ ok ids)
    × (result_ids coverage ≡ ok ids')
    × (distinct ids ≡ true)
    × (distinct ids' ≡ true)
    × (contains "" ids ≡ false)
    × ((i : String) → contains i ids ≡ contains i ids')
reconcile_reports-ids_example = reconcile_reports-ids accept correctness coverage matched reconciled

reconcile_reports-IsSame_example :
    (l row : Json) × (lookup {K = String} "a" left ≡ some l)
    × (lookup {K = String} "a" right ≡ some row)
    × All (IsSame l row) row_keys
reconcile_reports-IsSame_example =
    reconcile_reports-IsSame accept correctness coverage matched left right "a" reconciled left_rows
      right_rows a_listed
