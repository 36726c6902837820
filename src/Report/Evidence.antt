-- ===== src/Report/Evidence.antt =====
-- tools/validate_report.py: the property and the quarantine of a row.
use resq.Base.{string_eq, String, true, false, not, ◌&&◌, List, [], ◌∷◌, bool_eq, if◌then◌else◌}
use resq.Py.Value.{finite, Json, bool, nat, object}
use resq.Py.Result.{Result, ok, ◌>>=◌, ◌>>◌}
use resq.Py.Access.{subscript, get, iterate, truthy, is_dict, is_int}
use resq.Py.Equal.{is_nat, is_text, py_eq}
use resq.Py.Checks.{refuse_if, is_one_of, is_member, lt, len, to_float}
use resq.Py.Floats.{apart, float_gt}
use resq.Py.Arithmetic.{added, divided_by, first}
use resq.Py.Loops.{each, any_m}
use resq.Py.Text.{Runtime, to_str}
use resq.Report.{require, expect_text, expect_nat, expect_one_of, picosecond}
use resq.Report.Tests.{is_replay_token}

abbrev property_fields : List String
property_fields =
    "seed" ∷ "runs" ∷ "maxFailRate" ∷ "failRate" ∷ "passCount" ∷ "failCount" ∷ "failedInputs"
    ∷ "shrunkInput" ∷ "generatorProtocol" ∷ "replayToken" ∷ "replayTokens" ∷ "originalInput"
    ∷ "minimalInput" ∷ "shrinkSteps" ∷ "shrinkCandidates" ∷ "shrinkTermination" ∷ "failureSignature"
    ∷ "shrinkDurationMs" ∷ []

-- `len(x[name]) != failures` is refused
unfoldable pub expect_length : Json → String → Json → Result (Unit {0})
unfolding subscript len is_nat
expect_length x name failures = do
  member ← subscript x name
  n ← len member
  refuse_if (not (is_nat failures n)) "count must equal failCount"

-- the failures of a property: as many inputs and tokens as failures, and the first token
unfoldable pub check_failures : Json → Json → Result (Unit {0})
unfolding subscript added py_eq expect_length truthy first
check_failures property failures = do
  passes ← subscript property "passCount"
  runs ← subscript property "runs"
  sum ← added passes failures
  refuse_if (not (py_eq sum runs)) "pass/fail totals must equal runs"
  expect_length property "failedInputs" failures
  expect_length property "replayTokens" failures
  token ← subscript property "replayToken"
  refuse_if (not (bool_eq (truthy token) (truthy failures)))
      "replayToken presence must match failures"
  tokens ← subscript property "replayTokens"
  let start = first tokens
  same ← (if truthy failures then (do head ← start; ok (py_eq token head)) else ok true)
  refuse_if (not same) "replayToken must identify the first failure"

unfoldable pub check_shrinking : Json → Json → Result (Unit {0})
unfolding subscript lt is_one_of is_text truthy
check_shrinking property failures = do
  steps ← subscript property "shrinkSteps"
  negative ← lt steps (nat 0)
  refuse_if negative "invalid shrink work counters"
  candidates ← subscript property "shrinkCandidates"
  fewer ← lt candidates steps
  refuse_if fewer "invalid shrink work counters"
  termination ← subscript property "shrinkTermination"
  known ←
      is_one_of termination
        ("notRun" ∷ "minimal" ∷ "stepLimit" ∷ "candidateLimit" ∷ "timeLimit" ∷ [])
  refuse_if (not known) "invalid shrink termination"
  refuse_if (bool_eq (truthy failures) (is_text termination "notRun"))
      "shrink termination disagrees with failures"
  signature ← subscript property "failureSignature"
  refuse_if (not (bool_eq (truthy failures) (truthy signature)))
      "failure signature presence must match failures"

module _ ⦃r : Runtime⦄ where
  unfoldable pub check_rate : Json → Json → Result (Unit {0})
  unfolding subscript divided_by truthy to_float apart float_gt picosecond
  check_rate property failures = do
    runs ← subscript property "runs"
    let rate = divided_by failures runs
    expected ← (if truthy runs then rate else ok (finite false 0))
    stated ← subscript property "failRate"
    number ← to_float stated
    refuse_if (float_gt (apart number expected) picosecond) "failRate disagrees with failCount/runs"

  unfoldable pub check_tokens : Json → Result (Unit {0})
  unfolding subscript iterate any_m to_str is_replay_token expect_text
  check_tokens property = do
    member ← subscript property "replayTokens"
    tokens ← iterate member
    bad ← any_m (λ token. ok (not (is_replay_token (to_str token)))) tokens
    refuse_if bad "invalid replay token"
    expect_text property "generatorProtocol" "resq-generator-v1" "unsupported generator protocol"

  unfoldable pub validate_property : Json → Result (Unit {0})
  unfolding require subscript check_failures check_tokens check_rate check_shrinking
  validate_property property = do
    require property property_fields
    failures ← subscript property "failCount"
    check_failures property failures
    check_tokens property
    check_rate property failures
    check_shrinking property failures

  unfoldable pub check_property : Json → Result (Unit {0})
  unfolding subscript is_dict is_member truthy validate_property
  check_property row = do
    property ← subscript row "property"
    refuse_if (not (is_dict property)) "expected object"
    named ← is_member property "generatorProtocol"
    let checked = validate_property property
    if truthy property && named then checked else ok tt

abbrev quarantine_fields : List String
quarantine_fields =
    "schemaVersion" ∷ "state" ∷ "active" ∷ "nonBlocking" ∷ "observations" ∷ "passes" ∷ "failures"
    ∷ "flakes" ∷ "owner" ∷ "reason" ∷ "evidence" ∷ "issue" ∷ "createdAt" ∷ "expiresAt" ∷ []

-- `not isinstance(value, int) or value < 0`
unfoldable pub check_counter : Json → String → Result (Unit {0})
unfolding subscript is_int lt
check_counter quarantine name = do
  value ← subscript quarantine name
  refuse_if (not (is_int value)) "evidence counters must be non-negative integers"
  negative ← lt value (nat 0)
  refuse_if negative "evidence counters must be non-negative integers"

unfoldable pub validate_quarantine : Json → Result (Unit {0})
unfolding require expect_nat expect_one_of subscript is_text py_eq truthy each check_counter added
    lt
validate_quarantine quarantine = do
  require quarantine quarantine_fields
  expect_nat quarantine "schemaVersion" 2 "unsupported schema"
  expect_one_of quarantine "state"
      ("insufficient" ∷ "healthy" ∷ "suspect" ∷ "quarantined" ∷ "expired" ∷ [])
  state ← subscript quarantine "state"
  let active = is_text state "quarantined"
  stated ← subscript quarantine "active"
  refuse_if (not (py_eq stated (bool active))) "disagrees with state"
  non_blocking ← subscript quarantine "nonBlocking"
  refuse_if (truthy non_blocking && not active) "only active quarantine can be non-blocking"
  each (check_counter quarantine) ("observations" ∷ "passes" ∷ "failures" ∷ "flakes" ∷ [])
  passes ← subscript quarantine "passes"
  failures ← subscript quarantine "failures"
  sum ← added passes failures
  observations ← subscript quarantine "observations"
  over ← lt observations sum
  refuse_if over "pass/failure evidence exceeds observations"

unfoldable pub check_quarantine : Json → Result (Unit {0})
unfolding get is_dict truthy validate_quarantine
check_quarantine row = do
  quarantine ← get row "quarantine" (object [])
  refuse_if (not (is_dict quarantine)) "expected object"
  let checked = validate_quarantine quarantine
  if truthy quarantine then checked else ok tt
