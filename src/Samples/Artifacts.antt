-- ===== src/Samples/Artifacts.antt =====
-- tools/coverage_contract.py on an artifact of one file with one function, one line and one branch.
use resq.Base.{string_eq, ℕ, String, List, true, false, [], ◌∷◌, ◌++◌, ◌≡◌, refl}
use resq.Py.Value.{Json, bool, int, str, array, object, nat, negsuc}
use resq.Py.Result.{ok}
use resq.Py.Running.{python}
use resq.Py.Samples.{plain}
use resq.Coverage.Summary.{validate_summary}
use resq.Coverage.Gates.{validate_report_coverage}

abbrev pub counts : List (String × Json)
counts =
    ("linesFound", nat 1)
    ∷ ("linesHit", nat 1)
    ∷ ("functionsFound", nat 1)
    ∷ ("functionsHit", nat 1)
    ∷ ("statementSitesFound", nat 0)
    ∷ ("statementSitesHit", nat 0)
    ∷ ("statementSitesInstrumented", nat 0)
    ∷ ("branchesFound", nat 2)
    ∷ ("branchesHit", nat 1)
    ∷ ("branchSitesEligible", nat 1)
    ∷ ("branchSitesInstrumented", nat 1)
    ∷ ("filesFound", nat 1)
    ∷ ("filesLoaded", nat 1)
    ∷ ("filesWithStatements", nat 1)
    ∷ ("functionsEligible", nat 1)
    ∷ ("functionsInstrumented", nat 1)
    ∷ ("statementFunctionsEligible", nat 1)
    ∷ ("statementFunctionsInstrumented", nat 1)
    ∷ []

abbrev pub rates : List (String × Json)
rates =
    ("linePercent", nat 100)
    ∷ ("functionPercent", nat 100)
    ∷ ("statementSitePercent", nat 0)
    ∷ ("statementSiteInstrumentationPercent", nat 0)
    ∷ ("branchPercent", nat 50)
    ∷ ("branchInstrumentationPercent", nat 100)
    ∷ ("functionInstrumentationPercent", nat 100)
    ∷ ("statementInstrumentationPercent", nat 100)
    ∷ ("statementSiteInstrumentationComplete", bool false)
    ∷ ("branchMode", bool true)
    ∷ ("branchInstrumentationComplete", bool true)
    ∷ ("statementMode", bool true)
    ∷ ("statementInstrumentationComplete", bool true)
    ∷ ("fallbackCounts", object [])
    ∷ []

abbrev pub summary : Json
summary = object (counts ++ rates)

pub validates_summary : validate_summary summary ≡ ok summary
unfolding validate_summary python
validates_summary = refl

abbrev pub gate : String → ℕ → ℕ → ℕ → ℕ → Json
gate basis share hit found minimum = object (
    ("measurable", bool true)
    ∷ ("basis", str basis)
    ∷ ("percent", nat share)
    ∷ ("hit", nat hit)
    ∷ ("found", nat found)
    ∷ ("minimum", nat minimum)
    ∷ ("passed", bool true)
    ∷ [])

abbrev pub gates : Json
gates = object (
    ("functions", gate "functions" 100 1 1 80)
    ∷ ("lines", gate "measured_lines" 100 1 1 80)
    ∷ ("completeness", gate "statement_instrumentation" 100 1 1 0)
    ∷ ("branches", gate "branches" 50 1 2 50)
    ∷ ("branchCompleteness", gate "branch_instrumentation" 100 1 1 0)
    ∷ [])

abbrev pub coverage : Json
coverage = object (
    counts
    ++ rates
    ++ ("schemaVersion", nat 2)
      ∷ ("enabled", bool true)
      ∷ ("detailArtifact", str "coverage.json")
      ∷ ("gates", gates)
      ∷ ("allowPartialLines", bool false)
      ∷ ("partialLines", bool false)
      ∷ ("partialBranches", bool false)
      ∷ ("basis", str "functions")
      ∷ ("minimum", nat 80)
      ∷ ("passed", bool true)
      ∷ [])

pub validates_coverage : validate_report_coverage coverage ≡ ok tt
unfolding validate_report_coverage python
validates_coverage = refl

abbrev pub hit : List (String × Json)
hit = ("hits", nat 3) ∷ ("covered", bool true) ∷ []

abbrev pub line : Json
line = object (("line", nat 7) ∷ hit)

abbrev pub edge_of : ℕ → String → String → ℕ → Json → Json
edge_of index label id hits covered = object (
    ("edgeId", str id)
    ∷ ("index", nat index)
    ∷ ("label", str label)
    ∷ ("hits", nat hits)
    ∷ ("covered", covered)
    ∷ [])

abbrev pub branch_row : Json
branch_row = object (
    ("siteId", str "branch_00000000000000000000000000000001")
    ∷ ("function", str "f")
    ∷ ("line", nat 7)
    ∷ ("column", nat 2)
    ∷ ("lambdaId", str "")
    ∷ ("lambdaDepth", nat 0)
    ∷ ("anonymous", bool false)
    ∷ ("eligible", bool true)
    ∷ ("instrumented", bool true)
    ∷ ("fallbackReason", str "none")
    ∷ ("kind", str "if")
    ∷ ("conditionIndex", nat 0)
    ∷ ("block", nat 0)
    ∷ ("edgesFound", nat 2)
    ∷ ("edgesHit", nat 1)
    ∷ (
      "edges",
      array (
          edge_of 0 "true" "edge_00000000000000000000000000000002" 3 (bool true)
          ∷ edge_of 1 "false" "edge_00000000000000000000000000000003" 0 (bool false)
          ∷ []),
    )
    ∷ [])

abbrev pub function_row : Json
function_row = object (
    ("name", str "f")
    ∷ ("line", nat 7)
    ∷ ("hits", nat 3)
    ∷ ("covered", bool true)
    ∷ ("functionEligible", bool true)
    ∷ ("functionInstrumented", bool true)
    ∷ ("statementEligible", bool true)
    ∷ ("statementInstrumented", bool true)
    ∷ ("fallbackReason", str "none")
    ∷ ("statementFound", nat 1)
    ∷ ("statementHit", nat 1)
    ∷ ("statements", array (line ∷ []))
    ∷ ("statementSitesFound", nat 0)
    ∷ ("statementSitesHit", nat 0)
    ∷ ("statementSitesInstrumented", nat 0)
    ∷ ("statementSites", array [])
    ∷ ("branchSitesEligible", nat 1)
    ∷ ("branchSitesInstrumented", nat 1)
    ∷ ("branchFound", nat 2)
    ∷ ("branchHit", nat 1)
    ∷ ("branches", array (branch_row ∷ []))
    ∷ [])

abbrev pub file_row : Json
file_row = object (
    ("path", str "a.q")
    ∷ ("loaded", bool true)
    ∷ ("functionFound", nat 1)
    ∷ ("functionHit", nat 1)
    ∷ ("statementFunctionsInstrumented", nat 1)
    ∷ ("lineFound", nat 1)
    ∷ ("lineHit", nat 1)
    ∷ ("statementSitesEligible", nat 0)
    ∷ ("statementSitesInstrumented", nat 0)
    ∷ ("statementSitesHit", nat 0)
    ∷ ("branchSitesEligible", nat 1)
    ∷ ("branchSitesInstrumented", nat 1)
    ∷ ("branchFound", nat 2)
    ∷ ("branchHit", nat 1)
    ∷ ("functions", array (function_row ∷ []))
    ∷ ("lines", array (line ∷ []))
    ∷ ("statementSites", array [])
    ∷ ("branches", array (branch_row ∷ []))
    ∷ [])

abbrev pub metric : Json
metric = object (
    ("contextId", str "c")
    ∷ ("metricId", str "m")
    ∷ ("kind", str "function")
    ∷ ("file", str "a.q")
    ∷ ("function", str "f")
    ∷ ("siteId", str "")
    ∷ ("edgeIndex", int (negsuc 0))
    ∷ ("edgeLabel", str "")
    ∷ ("hits", nat 3)
    ∷ [])

abbrev pub context : Json
context = object (
    ("contextId", str "c")
    ∷ ("kind", str "test")
    ∷ ("testId", str "t")
    ∷ ("attempt", nat 1)
    ∷ ("suite", str "s")
    ∷ ("description", str "d")
    ∷ ("file", str "t.q")
    ∷ ("metrics", array (metric ∷ []))
    ∷ [])

abbrev pub measurement : Json
measurement = object (
    ("schemaVersion", nat 1)
    ∷ ("enabled", bool true)
    ∷ ("detail", str "test")
    ∷ ("contextLimit", nat 1)
    ∷ ("entryLimit", nat 4)
    ∷ (
      "summary",
      object (
          ("contextsStored", nat 1)
          ∷ ("metricEntriesStored", nat 1)
          ∷ ("functionHits", nat 3)
          ∷ ("statementHits", nat 0)
          ∷ ("branchHits", nat 0)
          ∷ ("unattributedHits", nat 0)
          ∷ ("overflowActivations", nat 0)
          ∷ ("droppedMetricHits", nat 0)
          ∷ ("truncated", bool false)
          ∷ []),
    )
    ∷ ("contexts", array (context ∷ []))
    ∷ [])

abbrev pub artifact : Json
artifact = object (
    ("schemaVersion", nat 2)
    ∷ ("kind", str "resq-coverage")
    ∷ ("framework", str "resQ")
    ∷ ("frameworkVersion", str "1")
    ∷ ("runId", str "run_00000000000000000000000000000004")
    ∷ ("summary", summary)
    ∷ ("files", array (file_row ∷ []))
    ∷ ("contextMeasurement", measurement)
    ∷ [])
