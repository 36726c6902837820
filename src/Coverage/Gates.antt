-- ===== src/Coverage/Gates.antt =====
-- tools/coverage_contract.py: validate_gate and validate_report_coverage.
use resq.Base.{
  string_eq, ℕ, String, Bool, false, not, ◌&&◌, ◌||◌, List, [], ◌∷◌, ◌++◌, nat_eq, bool_eq, ltb,
  if◌then◌else◌,
}
use resq.Py.Value.{Float, finite, Json, object}
use resq.Py.Result.{Result, ok, ◌>>=◌, ◌>>◌}
use resq.Py.Dict.{Dict}
use resq.Py.Access.{subscript}
use resq.Py.Equal.{py_eq, is_nat, is_text, float_eq}
use resq.Py.Checks.{refuse_if, is_true, to_float, at_key}
use resq.Py.Floats.{float_le, float_gt}
use resq.Py.Text.{Runtime}
use resq.Py.Loops.{each, map_m}
use resq.Coverage.{require, percent, equal_percent, count_at, flag_at}
use resq.Coverage.Summary.{
  summary_counts, summary_percentages, summary_booleans, items, validate_summary, check_flag,
}

-- the members of a gate, as its checks have read them
pub record Gate : Type 0 where
  pub basis : Json
  pub measurable : Bool
  pub hit : ℕ
  pub found : ℕ
  pub share : Float
  pub minimum : Float
  pub passed : Bool

abbrev gate_fields : List String
gate_fields = "measurable" ∷ "basis" ∷ "percent" ∷ "hit" ∷ "found" ∷ "minimum" ∷ "passed" ∷ []

unfoldable pub percent_at : Json → String → Result Float
unfolding subscript percent
percent_at value name = do member ← subscript value name; percent member

unfoldable pub validate_gate : Json → Result Gate
unfolding require subscript count_at flag_at equal_percent percent_at float_le
validate_gate gate = do
  value ← require gate gate_fields
  measurable ← flag_at value "measurable"
  passed ← flag_at value "passed"
  hit ← count_at value "hit"
  found ← count_at value "found"
  refuse_if (ltb found hit) "exceeds found"
  actual ← subscript value "percent"
  equal_percent actual hit found
  minimum ← percent_at value "minimum"
  refuse_if (not (bool_eq measurable (ltb 0 found))) "disagrees with denominator"
  share ← percent_at value "percent"
  refuse_if (not (bool_eq passed (measurable && float_le minimum share)))
      "disagrees with measurable/threshold"
  basis ← subscript value "basis"
  ok record {
    basis = basis;
    measurable = measurable;
    hit = hit;
    found = found;
    share = share;
    minimum = minimum;
    passed = passed;
  }

unfoldable pub validate_named_gate : String × Json → Result (String × Gate)
unfolding validate_gate
validate_named_gate (name, value) = do gate ← validate_gate value; ok (name, gate)

-- a gate's name, its basis, and the counts of the summary that it is about
abbrev pub Expected : Type 0
Expected = (String × String) × (String × String)

abbrev pub expected_gates : List Expected
expected_gates =
    (("functions", "functions"), ("functionsHit", "functionsFound"))
    ∷ (("lines", "measured_lines"), ("linesHit", "linesFound"))
    ∷ (
      ("completeness", "statement_instrumentation"),
      ("statementFunctionsInstrumented", "statementFunctionsEligible"),
    )
    ∷ (("branches", "branches"), ("branchesHit", "branchesFound"))
    ∷ (
      ("branchCompleteness", "branch_instrumentation"),
      ("branchSitesInstrumented", "branchSitesEligible"),
    )
    ∷ []

unfoldable pub check_gate : Json → Dict String Gate → Expected → Result (Unit {0})
unfolding at_key count_at is_text
check_gate coverage checked ((name, basis), (hit, found)) = do
  gate ← at_key name checked
  refuse_if (not (is_text (gate.basis) basis)) "unexpected"
  hits ← count_at coverage hit
  whole ← count_at coverage found
  refuse_if (not (nat_eq (gate.hit) hits && nat_eq (gate.found) whole))
      "disagrees with coverage summary"

-- `coverage[flag]` is that the mode is on and the part is below the whole
unfoldable pub check_partial : Json → String → String → String → String → Result (Unit {0})
unfolding count_at flag_at
check_partial coverage flag mode part whole = do
  partial ← flag_at coverage flag
  on ← flag_at coverage mode
  measured ← count_at coverage part
  eligible ← count_at coverage whole
  refuse_if (not (bool_eq partial (on && ltb measured eligible))) "disagrees with completeness"

-- `gate["minimum"] > 0`
unfoldable pub is_enforced : Gate → Bool
unfolding float_gt
is_enforced gate = float_gt (gate.minimum) (finite false 0)

-- what an enforced gate adds to the conditions before it
unfoldable pub and_if : Bool → Bool → Bool → Bool
and_if enforced expected condition = if enforced then expected && condition else expected

abbrev pub coverage_fields : List String
coverage_fields =
    summary_counts
    ++ summary_percentages
    ++ summary_booleans
    ++ "schemaVersion" ∷ "enabled" ∷ "detailArtifact" ∷ "fallbackCounts" ∷ "gates"
      ∷ "allowPartialLines" ∷ "partialLines" ∷ "partialBranches" ∷ "basis" ∷ "minimum" ∷ "passed"
      ∷ []

unfoldable pub expected_passed : Dict String Gate → Bool → Bool → Bool → Result Bool
unfolding at_key is_enforced and_if
expected_passed checked allowed partial_lines partial_branches = do
  functions ← at_key "functions" checked
  lines ← at_key "lines" checked
  complete ← at_key "completeness" checked
  branches ← at_key "branches" checked
  branch_complete ← at_key "branchCompleteness" checked
  let first = functions.passed
  let second = and_if (is_enforced lines) first ((allowed || not partial_lines) && lines.passed)
  let third = and_if (is_enforced complete) second (complete.passed)
  let fourth = and_if (is_enforced branches) third (not partial_branches && branches.passed)
  ok (and_if (is_enforced branch_complete) fourth (branch_complete.passed))

-- the flags and the verdict of the coverage
unfoldable pub check_verdict : Json → Dict String Gate → Result (Unit {0})
unfolding flag_at expected_passed
check_verdict coverage checked = do
  allowed ← flag_at coverage "allowPartialLines"
  partial_lines ← flag_at coverage "partialLines"
  partial_branches ← flag_at coverage "partialBranches"
  expected ← expected_passed checked allowed partial_lines partial_branches
  passed ← flag_at coverage "passed"
  refuse_if (not (bool_eq passed expected)) "disagrees with independent gates"

unfoldable pub check_producer : Json → Result (Unit {0})
unfolding subscript is_nat is_text is_true
check_producer coverage = do
  version ← subscript coverage "schemaVersion"
  enabled ← subscript coverage "enabled"
  refuse_if (not (is_nat version 2) || not (is_true enabled))
      "expected enabled schemaVersion 2 measurement"
  artifact ← subscript coverage "detailArtifact"
  refuse_if (not (is_text artifact "coverage.json")) "expected coverage.json"

unfoldable pub validate_gates : Json → Result (Dict String Gate)
unfolding subscript require items map_m validate_named_gate each check_gate
validate_gates coverage = do
  member ← subscript coverage "gates"
  gates ←
      require member
        ("functions" ∷ "lines" ∷ "completeness" ∷ "branches" ∷ "branchCompleteness" ∷ [])
  checked ← map_m validate_named_gate (items gates)
  each (check_gate coverage checked) expected_gates
  ok checked

abbrev pub verdict_flags : List String
verdict_flags = "allowPartialLines" ∷ "partialLines" ∷ "partialBranches" ∷ "passed" ∷ []

module _ ⦃r : Runtime⦄ where
  -- the basis and the minimum are those of the gate of the functions
  unfoldable pub check_basis : Json → Dict String Gate → Result (Unit {0})
  unfolding at_key subscript py_eq to_float float_eq
  check_basis coverage checked = do
    functions ← at_key "functions" checked
    basis ← subscript coverage "basis"
    refuse_if (not (py_eq basis (functions.basis))) "disagrees with function gate"
    minimum ← subscript coverage "minimum"
    number ← to_float minimum
    refuse_if (not (float_eq number (functions.minimum))) "disagrees with function gate"

  unfoldable pub check_coverage : Json → Result (Unit {0})
  unfolding require check_producer validate_summary validate_gates check_flag check_partial
      check_basis check_verdict each
  check_coverage value = do
    coverage ← require value coverage_fields
    check_producer coverage
    summary ← validate_summary coverage
    checked ← validate_gates coverage
    each (check_flag coverage) verdict_flags
    check_partial coverage "partialLines" "statementMode" "statementFunctionsInstrumented"
        "statementFunctionsEligible"
    check_partial coverage "partialBranches" "branchMode" "branchSitesInstrumented"
        "branchSitesEligible"
    check_basis coverage checked
    check_verdict coverage checked

  unfoldable pub validate_report_coverage : Json → Result (Unit {0})
  unfolding check_coverage py_eq
  validate_report_coverage value = if py_eq value (object []) then ok tt else check_coverage value
