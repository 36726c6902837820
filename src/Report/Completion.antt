-- ===== src/Report/Completion.antt =====
-- tools/validate_report.py: validate_completion.
use resq.Base.{
  string_eq, ℕ, String, not, ◌&&◌, List, [], ◌∷◌, length, contains, subset, same_set, if◌then◌else◌,
}
use resq.Py.Value.{Json, null, bool, array, object}
use resq.Py.Result.{Result, ok, ◌>>=◌, ◌>>◌}
use resq.Py.Access.{subscript, get, truthy, is_dict}
use resq.Py.Equal.{is_nat, is_text, py_eq}
use resq.Py.Hash.{Atom, hashed, atom_eq}
use resq.Py.Checks.{is_null, refuse_if, is_one_of, len}
use resq.Py.Loops.{map_m}
use resq.Report.{require, expect_one_of, expect_bool}
use resq.Report.Shards.{set_of}

abbrev pub completion_fields : List String
completion_fields =
    "state" ∷ "complete" ∷ "truncated" ∷ "reason" ∷ "selectedTestCount" ∷ "resultCount"
    ∷ "missingExecutionIds" ∷ []

-- what a completion says of itself
unfoldable pub check_state : Json → Result (Unit {0})
unfolding expect_one_of expect_bool subscript py_eq is_text
check_state completion = do
  expect_one_of completion "state" ("complete" ∷ "incomplete" ∷ [])
  expect_bool completion "complete"
  expect_bool completion "truncated"
  complete ← subscript completion "complete"
  truncated ← subscript completion "truncated"
  refuse_if (py_eq complete truncated) "complete and truncated must be opposites"
  state ← subscript completion "state"
  refuse_if (not (py_eq (bool (is_text state "complete")) complete)) "disagrees with complete"
  expect_one_of completion "reason" (
      "completed" ∷ "describeOnly" ∷ "emptyShard" ∷ "frameworkError" ∷ "loadError"
      ∷ "isolationError" ∷ "failFast" ∷ "missingResults" ∷ [])

-- `xs - ys` on sets
unfoldable pub difference : List Atom → List Atom → List Atom
unfolding contains
difference [] ys = []
difference (x ∷ xs) ys = let rest = difference xs ys in if contains x ys then rest else x ∷ rest

-- the completion against what was selected and what has a result
unfoldable pub check_coverage : Json → List Atom → ℕ → List Atom → ℕ → Result (Unit {0})
unfolding subscript is_nat set_of same_set difference subset truthy is_one_of
check_coverage completion selected selected_count executed executed_count = do
  stated ← subscript completion "selectedTestCount"
  refuse_if (not (is_nat stated selected_count)) "disagrees with run selection"
  counted ← subscript completion "resultCount"
  refuse_if (not (is_nat counted executed_count)) "disagrees with report rows"
  member ← subscript completion "missingExecutionIds"
  missing ← set_of member
  refuse_if (not (same_set missing (difference selected executed))) "is not the exact selection gap"
  refuse_if (not (subset executed selected)) "result identity lies outside selected execution IDs"
  complete ← subscript completion "complete"
  refuse_if (truthy complete && not (same_set executed selected))
      "complete run must exactly cover its selection"
  truncated ← subscript completion "truncated"
  reason ← subscript completion "reason"
  ended ← is_one_of reason ("completed" ∷ "describeOnly" ∷ "emptyShard" ∷ [])
  refuse_if (truthy truncated && ended) "truncated run requires an incomplete reason"

unfoldable pub validate_present_completion : Json → Json → List Json → Result (Unit {0})
unfolding is_dict require check_state get len set_of map_m hashed check_coverage
validate_present_completion run completion execution_ids = do
  refuse_if (not (is_dict completion)) "expected object"
  require completion completion_fields
  check_state completion
  shard ← get run "shard" (object [])
  selected ← get shard "selectedExecutionIds" (array [])
  executed_set ← map_m hashed execution_ids
  selected_set ← set_of selected
  n ← len selected
  check_coverage completion selected_set n executed_set (length execution_ids)

unfoldable pub validate_completion : Json → List Json → Result (Unit {0})
unfolding subscript get is_null validate_present_completion
validate_completion document execution_ids = do
  run ← subscript document "run"
  completion ← get run "completion" null
  let checked = validate_present_completion run completion execution_ids
  if is_null completion then ok tt else checked
