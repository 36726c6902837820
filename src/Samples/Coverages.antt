-- ===== src/Samples/Coverages.antt =====
-- The theorems on tools/coverage_contract.py at the artifact of Samples.Artifacts.
use resq.Base.{
  string_eq, ◌*◌, ◌^◌, String, List, true, false, [], ◌++◌, All, none, some, ◌≡◌, ◌↔◌, refl,
}
use resq.Py.Value.{Json, finite, null, str, object}
use resq.Py.Result.{ok, err}
use resq.Py.Dict.{Dict}
use resq.Py.Running.{python}
use resq.Py.Samples.{plain}
use resq.Py.Equal.{py_eq}
use resq.Py.Fields.{member, rows_of}
use resq.Py.Rows.{items_of}
use resq.Coverage.Summary.{pairs, completeness}
use resq.Coverage.Gates.{Gate, validate_gate, validate_gates}
use resq.Coverage.Sites.{Site, branch, validate_hit_record, validate_site}
use resq.Coverage.Files.{File}
use resq.Coverage.Contexts.{Context}
use resq.Coverage.Measurement.{validate_context_measurement}
use resq.Coverage.References.{validate_coverage_artifact}
use resq.Coverage.Consistency.{
  PairAgrees, FlagAgrees, GateAgrees, validate_summary-IsConsistent, validate_gate-GateAgrees,
}
use resq.Coverage.Verdict.{VerdictAgrees, PartialAgrees, validate_report_coverage-verdict}
use resq.Coverage.Edges.{IsHit, validate_hit_record_iff}
use resq.Coverage.Branches.{BranchAgrees, validate_site-BranchAgrees}
use resq.Coverage.Totals.{TotalsAgree, validate_coverage_artifact-totals}
use resq.Coverage.Identities.{AreUnique, validate_coverage_artifact_unique}
use resq.Coverage.Metrics.{IsResolved, validate_coverage_artifact-metrics}
use resq.Coverage.Hits.{IsCounted, validate_context_measurement-IsCounted}
use resq.Samples.Artifacts.{
  summary, validates_summary, gate, coverage, validates_coverage, line, branch_row, measurement,
  artifact,
}

validate_summary-IsConsistent_example :
    All (PairAgrees summary) pairs × All (FlagAgrees summary) completeness
validate_summary-IsConsistent_example = validate_summary-IsConsistent summary validates_summary

abbrev half : Json
half = gate "branches" 50 1 2 50

abbrev half_gate : Gate
half_gate = record {
  basis = str "branches";
  measurable = true;
  hit = 1;
  found = 2;
  share = finite false (50 * 2 ^ 1074);
  minimum = finite false (50 * 2 ^ 1074);
  passed = true;
}

validates_gate : validate_gate half ≡ ok half_gate
unfolding validate_gate python
validates_gate = refl

validate_gate-GateAgrees_example : GateAgrees half half_gate
validate_gate-GateAgrees_example = validate_gate-GateAgrees half validates_gate

not_empty : py_eq coverage (object []) ≡ false
unfolding python
not_empty = refl

validate_report_coverage-verdict_example :
    (checked : Dict String Gate) × (validate_gates coverage ≡ ok checked)
    × VerdictAgrees coverage checked
    × PartialAgrees coverage "partialLines" "statementMode" "statementFunctionsInstrumented"
        "statementFunctionsEligible"
    × PartialAgrees coverage "partialBranches" "branchMode" "branchSitesInstrumented"
        "branchSitesEligible"
validate_report_coverage-verdict_example =
    validate_report_coverage-verdict coverage validates_coverage not_empty

validate_hit_record_iff_example : (validate_hit_record line ≡ ok 3) ↔ IsHit line 3
validate_hit_record_iff_example = validate_hit_record_iff line 3

abbrev site : Site
unfolding validate_site python
site = elim (validate_site branch branch_row) [
  | ok found ↦ found
  | err e ↦ record {
    row = null;
    site_id = "";
    eligible = false;
    instrumented = false;
    hits = 0;
    edges = [];
    edges_found = 0;
    edges_hit = 0;
  }
]

validates_site : validate_site branch branch_row ≡ ok site
unfolding validate_site python
validates_site = refl

validate_site-BranchAgrees_example : BranchAgrees branch_row
validate_site-BranchAgrees_example = validate_site-BranchAgrees branch_row site validates_site

abbrev checked : List File × List Context
unfolding validate_coverage_artifact python
checked = elim (validate_coverage_artifact artifact none) [ ok found ↦ found | err e ↦ ([], []) ]

validates_artifact : validate_coverage_artifact artifact none ≡ ok (checked.0, checked.1)
unfolding validate_coverage_artifact python
validates_artifact = refl

validate_coverage_artifact-totals_example : TotalsAgree artifact
validate_coverage_artifact-totals_example =
    validate_coverage_artifact-totals artifact none (checked.0) (checked.1) validates_artifact

validate_coverage_artifact_unique_example :
    let rows = rows_of (member artifact "files") in
    AreUnique "path" rows
    × AreUnique "siteId" (items_of "statementSites" rows ++ items_of "branches" rows)
    × AreUnique "edgeId" (items_of "edges" (items_of "branches" rows))
validate_coverage_artifact_unique_example =
    validate_coverage_artifact_unique artifact none (checked.0) (checked.1) validates_artifact

validate_coverage_artifact-metrics_example :
    (contexts : Json) × (member artifact "contextMeasurement" ≡ some contexts)
    × All
        (IsResolved (rows_of (member artifact "files")))
        (items_of "metrics" (rows_of (member contexts "contexts")))
validate_coverage_artifact-metrics_example =
    validate_coverage_artifact-metrics artifact none (checked.0) (checked.1) validates_artifact

abbrev contexts : List Context
unfolding validate_context_measurement python
contexts = elim (validate_context_measurement measurement) [ ok found ↦ found | err e ↦ [] ]

validates_measurement : validate_context_measurement measurement ≡ ok contexts
unfolding validate_context_measurement python
validates_measurement = refl

validate_context_measurement-IsCounted_example : IsCounted measurement
validate_context_measurement-IsCounted_example =
    validate_context_measurement-IsCounted measurement contexts validates_measurement
