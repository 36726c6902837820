-- ===== src/Coverage/Artifact.antt =====
-- tools/coverage_contract.py: validate_coverage_artifact.
use resq.Base.{
  string_eq, number_eq, pair_eq, ℕ, suc, String, Bool, not, ◌||◌, List, [], ◌∷◌, ◌++◌, Option, none,
  some, ◌==◌, length, ltb, distinct, if◌then◌else◌, is_prefixed_hex,
}
use resq.Py.Value.{Json, nat, object}
use resq.Py.Result.{Result, ◌>>=◌, ◌>>◌}
use resq.Py.Dict.{Dict, keys, lookup, insert}
use resq.Py.Access.{subscript}
use resq.Py.Equal.{py_eq, is_nat, is_text}
use resq.Py.Hash.{atom_eq}
use resq.Py.Checks.{refuse_if}
use resq.Coverage.Summary.{items}
use resq.Coverage.Sites.{Site, identity, edge_ids}
use resq.Coverage.Functions.{
  Line, Function, count_where, sum_of, is_line_hit, is_eligible, is_instrumented, is_eligible_hit,
  found_edges, hit_edges_of,
}
use resq.Coverage.Files.{File, is_function_hit, is_statement_instrumented}

unfoldable pub is_run_id : String → Bool
unfolding is_prefixed_hex
is_run_id = is_prefixed_hex "run_" 32

abbrev pub artifact_fields : List String
artifact_fields =
    "schemaVersion" ∷ "kind" ∷ "framework" ∷ "frameworkVersion" ∷ "runId" ∷ "summary" ∷ "files"
    ∷ "contextMeasurement" ∷ []

unfoldable pub check_artifact_producer : Json → Result String
unfolding subscript is_nat is_text identity is_run_id
check_artifact_producer root = do
  version ← subscript root "schemaVersion"
  kind ← subscript root "kind"
  framework ← subscript root "framework"
  refuse_if
      (not (is_nat version 2)
        || not (is_text kind "resq-coverage")
        || not (is_text framework "resQ"))
      "unsupported producer/schema"
  run ← subscript root "runId"
  identity is_run_id run

abbrev pub paths : List File → List String
paths [] = []
paths (file ∷ files) = file.path ∷ paths files

unfoldable pub all_functions : List File → List Function
all_functions [] = []
all_functions (file ∷ files) = file.functions ++ all_functions files

unfoldable pub all_lines : List File → List Line
all_lines [] = []
all_lines (file ∷ files) = file.lines ++ all_lines files

unfoldable pub all_sites : List File → List Site
all_sites [] = []
all_sites (file ∷ files) = file.sites ++ all_sites files

unfoldable pub all_branches : List File → List Site
all_branches [] = []
all_branches (file ∷ files) = file.branches ++ all_branches files

unfoldable pub site_ids : List Site → List String
site_ids [] = []
site_ids (site ∷ sites) = site.site_id ∷ site_ids sites

unfoldable pub all_edge_ids : List Site → List String
unfolding edge_ids
all_edge_ids [] = []
all_edge_ids (site ∷ sites) = edge_ids (site.edges) ++ all_edge_ids sites

-- the identities are unique over the files
unfoldable pub check_unique : List File → Result (Unit {0})
unfolding distinct all_sites all_branches site_ids all_edge_ids
check_unique files = do
  refuse_if (not (distinct (paths files))) "duplicate path"
  refuse_if
      (not (distinct (site_ids (all_sites files ++ all_branches files)))
        || not (distinct (all_edge_ids (all_branches files))))
      "duplicate site or edge identity"

unfoldable pub is_loaded : File → Bool
is_loaded file = file.loaded

unfoldable pub has_lines : File → Bool
has_lines file = ltb 0 (file.line_found)

unfoldable pub is_function_eligible : Function → Bool
is_function_eligible fn = fn.function_eligible

unfoldable pub is_function_instrumented : Function → Bool
is_function_instrumented fn = fn.function_instrumented

unfoldable pub is_statement_eligible : Function → Bool
is_statement_eligible fn = fn.statement_eligible

-- the totals that the summary states
unfoldable pub aggregate : List File → List (String × ℕ)
unfolding count_where sum_of is_loaded has_lines is_function_hit is_function_eligible
    is_function_instrumented is_statement_eligible is_statement_instrumented is_line_hit is_eligible
    is_instrumented is_eligible_hit found_edges hit_edges_of all_functions all_lines all_sites
    all_branches
aggregate files =
    let functions = all_functions files in
    let lines = all_lines files in
    let sites = all_sites files in
    let branches = all_branches files in
    ("filesFound", length files)
    ∷ ("filesLoaded", count_where is_loaded files)
    ∷ ("filesWithStatements", count_where has_lines files)
    ∷ ("functionsFound", length functions)
    ∷ ("functionsHit", count_where is_function_hit functions)
    ∷ ("functionsEligible", count_where is_function_eligible functions)
    ∷ ("functionsInstrumented", count_where is_function_instrumented functions)
    ∷ ("statementFunctionsEligible", count_where is_statement_eligible functions)
    ∷ ("statementFunctionsInstrumented", count_where is_statement_instrumented functions)
    ∷ ("linesFound", length lines)
    ∷ ("linesHit", count_where is_line_hit lines)
    ∷ ("statementSitesFound", count_where is_eligible sites)
    ∷ ("statementSitesInstrumented", count_where is_instrumented sites)
    ∷ ("statementSitesHit", count_where is_eligible_hit sites)
    ∷ ("branchSitesEligible", count_where is_eligible branches)
    ∷ ("branchSitesInstrumented", count_where is_instrumented branches)
    ∷ ("branchesFound", sum_of found_edges branches)
    ∷ ("branchesHit", sum_of hit_edges_of branches)
    ∷ []

-- the counts of the reasons, from 0 for those that the summary names
abbrev Tally : Type 0
Tally = Dict String ℕ

unfoldable pub zero_counts : Tally → List String → Tally
unfolding insert
zero_counts counts [] = counts
zero_counts counts (name ∷ names) = zero_counts (insert name 0 counts) names

count_or_zero : Option ℕ → ℕ
count_or_zero none = 0
count_or_zero (some n) = n

unfoldable pub count_fallbacks : Tally → List Function → Tally
unfolding lookup insert count_or_zero
count_fallbacks counts [] = counts
count_fallbacks counts (fn ∷ fns) =
    let reason = fn.fallback_reason in
    let more = insert reason (suc (count_or_zero (lookup reason counts))) counts in
    count_fallbacks (if reason == "none" then counts else more) fns

unfoldable pub tally_object : Tally → List (String × Json)
tally_object [] = []
tally_object ((reason, n) ∷ rest) = (reason, nat n) ∷ tally_object rest

unfoldable pub check_fallback_counts : Json → List File → Result (Unit {0})
unfolding subscript items keys zero_counts count_fallbacks tally_object all_functions py_eq
check_fallback_counts summary files = do
  stated ← subscript summary "fallbackCounts"
  let start = zero_counts [] (keys (items stated))
  let counts = count_fallbacks start (all_functions files)
  refuse_if (not (py_eq stated (object (tally_object counts)))) "disagrees with functions"
