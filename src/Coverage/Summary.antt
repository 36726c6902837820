-- ===== src/Coverage/Summary.antt =====
-- tools/coverage_contract.py: validate_summary.
use resq.Base.{
  string_eq, String, not, ◌&&◌, ◌||◌, List, [], ◌∷◌, ◌++◌, nat_eq, bool_eq, ltb, length,
  if◌then◌else◌,
}
use resq.Py.Value.{Json, null, str, obj, entries}
use resq.Py.Result.{Result, ok, ◌>>=◌, ◌>>◌}
use resq.Py.Access.{subscript, get, is_list, is_str, iterate}
use resq.Py.Checks.{refuse_if, is_one_of, is_member}
use resq.Py.Loops.{each}
use resq.Coverage.{require, nonnegative_int, boolean, equal_percent, count_at, flag_at, fallbacks}

abbrev pub summary_counts : List String
summary_counts =
    "linesFound" ∷ "linesHit" ∷ "functionsFound" ∷ "functionsHit" ∷ "statementSitesFound"
    ∷ "statementSitesHit" ∷ "statementSitesInstrumented" ∷ "branchesFound" ∷ "branchesHit"
    ∷ "branchSitesEligible" ∷ "branchSitesInstrumented" ∷ "filesFound" ∷ "filesLoaded"
    ∷ "filesWithStatements" ∷ "functionsEligible" ∷ "functionsInstrumented"
    ∷ "statementFunctionsEligible" ∷ "statementFunctionsInstrumented" ∷ []

abbrev pub summary_percentages : List String
summary_percentages =
    "linePercent" ∷ "functionPercent" ∷ "statementSitePercent"
    ∷ "statementSiteInstrumentationPercent" ∷ "branchPercent" ∷ "branchInstrumentationPercent"
    ∷ "functionInstrumentationPercent" ∷ "statementInstrumentationPercent" ∷ []

abbrev pub summary_booleans : List String
summary_booleans =
    "statementSiteInstrumentationComplete" ∷ "branchMode" ∷ "branchInstrumentationComplete"
    ∷ "statementMode" ∷ "statementInstrumentationComplete" ∷ []

-- a percentage, the count that was hit, and the count of which it is one
abbrev pub Pair : Type 0
Pair = (String × String) × String

abbrev pub pairs : List Pair
pairs =
    (("linePercent", "linesHit"), "linesFound")
    ∷ (("functionPercent", "functionsHit"), "functionsFound")
    ∷ (("statementSitePercent", "statementSitesHit"), "statementSitesFound")
    ∷ (("statementSiteInstrumentationPercent", "statementSitesInstrumented"), "statementSitesFound")
    ∷ (("branchPercent", "branchesHit"), "branchesFound")
    ∷ (("branchInstrumentationPercent", "branchSitesInstrumented"), "branchSitesEligible")
    ∷ (("functionInstrumentationPercent", "functionsInstrumented"), "functionsEligible")
    ∷ (
      ("statementInstrumentationPercent", "statementFunctionsInstrumented"),
      "statementFunctionsEligible",
    )
    ∷ []

unfoldable pub check_pair : Json → Pair → Result (Unit {0})
unfolding count_at subscript equal_percent
check_pair value ((percentage, hit), whole) = do
  hits ← count_at value hit
  found ← count_at value whole
  refuse_if (ltb found hits) "exceeds found"
  actual ← subscript value percentage
  equal_percent actual hits found

-- a flag, the measured count, the eligible one, and the mode
abbrev pub Completeness : Type 0
Completeness = (String × String) × (String × String)

abbrev pub completeness : List Completeness
completeness =
    (
      ("statementSiteInstrumentationComplete", "statementSitesInstrumented"),
      ("statementSitesFound", "statementMode"),
    )
    ∷ (
      ("branchInstrumentationComplete", "branchSitesInstrumented"),
      ("branchSitesEligible", "branchMode"),
    )
    ∷ (
      ("statementInstrumentationComplete", "statementFunctionsInstrumented"),
      ("statementFunctionsEligible", "statementMode"),
    )
    ∷ []

unfoldable pub check_completeness : Json → Completeness → Result (Unit {0})
unfolding count_at flag_at
check_completeness value ((flag, measured), (eligible, mode)) = do
  on ← flag_at value mode
  whole ← count_at value eligible
  part ← count_at value measured
  complete ← flag_at value flag
  refuse_if (not (bool_eq complete (on && ltb 0 whole && nat_eq part whole)))
      "disagrees with mode/completeness counts"

unfoldable pub check_count : Json → String → Result (Unit {0})
unfolding count_at
check_count value name = do count ← count_at value name; ok tt

unfoldable pub check_flag : Json → String → Result (Unit {0})
unfolding flag_at
check_flag value name = do flag ← flag_at value name; ok tt

unfoldable pub check_fallback : String × Json → Result (Unit {0})
unfolding is_one_of nonnegative_int
check_fallback (reason, count) = do
  known ← is_one_of (str reason) fallbacks
  refuse_if (not known) "unknown reason"
  number ← nonnegative_int count
  ok tt

-- the members of a dict
unfoldable pub items : Json → List (String × Json)
items (obj fs) = entries fs
items null = []
items _ = []

check_text : Json → String → Result (Unit {0})
unfolding subscript is_str
check_text row name = do
  member ← subscript row name
  refuse_if (not (is_str member)) "expected string"

abbrev diagnostic_fields : List String
diagnostic_fields = "file" ∷ "function" ∷ "phase" ∷ "message" ∷ []

unfoldable pub check_parse_diagnostic : Json → Result (Unit {0})
unfolding require check_text each
check_parse_diagnostic diagnostic = do
  row ← require diagnostic diagnostic_fields
  each (check_text row) diagnostic_fields

unfoldable pub check_parse : Json → Result (Unit {0})
unfolding boolean get is_list iterate each check_parse_diagnostic
check_parse value = do
  flag ← get value "sourceParseComplete" null
  complete ← boolean flag
  diagnostics ← get value "sourceParseDiagnostics" null
  refuse_if (not (is_list diagnostics)) "expected array"
  rows ← iterate diagnostics
  each check_parse_diagnostic rows
  refuse_if (not (bool_eq complete (nat_eq (length rows) 0)))
      "disagrees with sourceParseDiagnostics"

unfoldable pub validate_summary : Json → Result Json
unfolding require each check_count check_flag check_pair check_completeness items check_fallback
    is_member check_parse subscript
validate_summary summary = do
  value ←
      require summary
        (summary_counts ++ summary_percentages ++ summary_booleans ++ "fallbackCounts" ∷ [])
  each (check_count value) summary_counts
  each (check_flag value) summary_booleans
  each (check_pair value) pairs
  each (check_completeness value) completeness
  counts ← subscript value "fallbackCounts"
  reasons ← require counts []
  each check_fallback (items reasons)
  complete ← is_member value "sourceParseComplete"
  parsed ← is_member value "sourceParseDiagnostics"
  (if complete || parsed then check_parse value else ok tt)
  ok value
