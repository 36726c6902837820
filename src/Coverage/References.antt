-- ===== src/Coverage/References.antt =====
-- tools/coverage_contract.py, validate_coverage_artifact: the catalogs, the report, and the whole.
use resq.Base.{
  string_eq, number_eq, pair_eq, ℕ, String, Bool, true, false, not, List, [], ◌∷◌, ◌++◌, Option,
  none, some, contains, if◌then◌else◌,
}
use resq.Py.Value.{ℤ, pos, negsuc, Json, null, object, array}
use resq.Py.Result.{Result, ok, ◌>>=◌, ◌>>◌}
use resq.Py.Access.{subscript, get, iterate, is_list, truthy}
use resq.Py.Equal.{py_eq}
use resq.Py.Hash.{Atom, hashed, atom_eq}
use resq.Py.Checks.{refuse_if, is_one_of}
use resq.Py.Text.{Runtime}
use resq.Py.Loops.{each, map_m}
use resq.Coverage.{require}
use resq.Coverage.Summary.{summary_counts, summary_percentages, summary_booleans, validate_summary}
use resq.Coverage.Gates.{validate_report_coverage}
use resq.Coverage.Sites.{Site, edge_indices}
use resq.Coverage.Functions.{Function, check_stated}
use resq.Coverage.Files.{File, validate_file}
use resq.Coverage.Contexts.{function, statement, branch, Metric, Context}
use resq.Coverage.Measurement.{all_metrics, validate_context_measurement}
use resq.Coverage.Artifact.{
  artifact_fields, check_artifact_producer, check_unique, aggregate, check_fallback_counts, paths,
  site_ids,
}

unfoldable pub named_functions : String → List Function → List (String × String)
named_functions path [] = []
named_functions path (fn ∷ fns) = (path, fn.name) ∷ named_functions path fns

unfoldable pub function_catalog : List File → List (String × String)
unfolding named_functions
function_catalog [] = []
function_catalog (file ∷ files) =
    named_functions (file.path) (file.functions) ++ function_catalog files

unfoldable pub placed : String → List String → List (String × String)
placed path [] = []
placed path (id ∷ ids) = (path, id) ∷ placed path ids

unfoldable pub site_catalog : List File → List (String × String)
unfolding placed site_ids
site_catalog [] = []
site_catalog (file ∷ files) =
    placed (file.path) (site_ids (file.sites ++ file.branches)) ++ site_catalog files

-- a path, a site and the index of an edge
abbrev pub EdgeKey : Type 0
EdgeKey = (String × String) × ℕ

unfoldable pub placed_edges : String → String → List ℕ → List EdgeKey
placed_edges path site [] = []
placed_edges path site (i ∷ indices) = ((path, site), i) ∷ placed_edges path site indices

unfoldable pub branch_edges : String → List Site → List EdgeKey
unfolding placed_edges edge_indices
branch_edges path [] = []
branch_edges path (site ∷ sites) =
    placed_edges path (site.site_id) (edge_indices (site.edges)) ++ branch_edges path sites

unfoldable pub edge_catalog : List File → List EdgeKey
unfolding branch_edges
edge_catalog [] = []
edge_catalog (file ∷ files) = branch_edges (file.path) (file.branches) ++ edge_catalog files

unfoldable pub is_catalogued : String × String → ℤ → List EdgeKey → Bool
unfolding contains
is_catalogued at (pos i) catalog = contains (at, i) catalog
is_catalogued at (negsuc i) catalog = false

-- a metric is about something that the files have
unfoldable pub is_referenced : List File → Metric → Bool
unfolding contains function_catalog site_catalog edge_catalog is_catalogued
is_referenced files metric = elim (metric.kind) [
  | function ↦ contains (metric.file, metric.function_name) (function_catalog files)
  | statement ↦ contains (metric.file, metric.site_id) (site_catalog files)
  | branch ↦ is_catalogued (metric.file, metric.site_id) (metric.edge_index) (edge_catalog files)
]

unfoldable pub check_metric : List File → Metric → Result (Unit {0})
unfolding contains is_referenced
check_metric files metric = do
  refuse_if (not (contains (metric.file) (paths files)))
      "coverage context metric references an unknown file"
  refuse_if (not (is_referenced files metric)) "coverage metric references an unknown member"

-- `left != right` is refused for a member of both
unfoldable pub check_equal : Json → Json → String → Result (Unit {0})
unfolding subscript py_eq
check_equal left right name = do
  a ← subscript left name
  b ← subscript right name
  refuse_if (not (py_eq a b)) "differs from coverage artifact"

unfoldable pub test_ids_of : Json → Result (List Atom)
unfolding get iterate map_m hashed
test_ids_of report = do
  tests ← get report "tests" (array [])
  rows ← iterate tests
  map_m (λ row. do id ← get row "testId" null; hashed id) rows

unfoldable pub check_context_test : List Atom → Json → Result (Unit {0})
unfolding subscript is_one_of hashed contains
check_context_test test_ids context = do
  kind ← subscript context "kind"
  normal ← is_one_of kind ("test" ∷ "attempt" ∷ [])
  let looked_up = subscript context "testId" >>= hashed
  known ← (if normal then (do key ← looked_up; ok (contains key test_ids)) else ok true)
  refuse_if (not known) "coverage context testId does not exist in report"

module _ ⦃r : Runtime⦄ where
  unfoldable pub check_report : Json → Json → Json → Result (Unit {0})
  unfolding get subscript py_eq validate_report_coverage truthy each check_equal test_ids_of iterate
      check_context_test
  check_report root summary report = do
    run ← get report "run" (object [])
    report_id ← get run "id" null
    id ← subscript root "runId"
    refuse_if (not (py_eq report_id id)) "coverage.runId differs from report"
    report_version ← get report "frameworkVersion" null
    version ← subscript root "frameworkVersion"
    refuse_if (not (py_eq report_version version)) "coverage.frameworkVersion differs from report"
    coverage ← get report "coverage" (object [])
    validate_report_coverage coverage
    (if truthy coverage
        then each (check_equal coverage summary)
            (summary_counts ++ summary_percentages ++ summary_booleans ++ "fallbackCounts" ∷ [])
        else ok tt)
    test_ids ← test_ids_of report
    measurement ← subscript root "contextMeasurement"
    contexts ← get measurement "contexts" (array [])
    rows ← iterate contexts
    each (check_context_test test_ids) rows

  unfoldable pub check_given : Json → Json → Option Json → Result (Unit {0})
  unfolding check_report
  check_given root summary none = ok tt
  check_given root summary (some report) = check_report root summary report

  -- It returns what its checks have read: the files and the contexts.
  unfoldable pub validate_coverage_artifact : Json → Option Json → Result (List File × List Context)
  unfolding require check_artifact_producer subscript validate_summary is_list iterate map_m
      validate_file check_unique each check_stated aggregate check_fallback_counts
      validate_context_measurement check_metric all_metrics check_given
  validate_coverage_artifact document report = do
    root ← require document artifact_fields
    run ← check_artifact_producer root
    stated ← subscript root "summary"
    summary ← validate_summary stated
    member ← subscript root "files"
    refuse_if (not (is_list member)) "expected array"
    rows ← iterate member
    files ← map_m validate_file rows
    check_unique files
    each (check_stated summary) (aggregate files)
    check_fallback_counts summary files
    measurement ← subscript root "contextMeasurement"
    contexts ← validate_context_measurement measurement
    each (check_metric files) (all_metrics contexts)
    check_given root summary report
    ok (files, contexts)
