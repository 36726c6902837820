-- ===== src/Merge/Results.antt =====
-- `validate_results`: every shard has exactly the results that it had to produce, each once, and no
-- result but a run-level one comes from two shards.
pub mod AllShards
pub mod OneShard
use resq.Base.{
  string_eq, ℕ, String, Bool, true, false, not, ◌&&◌, ◌||◌, List, [], ◌∷◌, ◌++◌, map, Option, none,
  some, ◌==◌, same_set, contains, if◌then◌else◌, ◌≡◌,
}
use resq.Py.Value.{Json, null, object}
use resq.Py.Result.{Exn, Result, ok, err, merge_error, raise_if, ◌>>=◌, ◌>>◌}
use resq.Py.Dict.{Dict, lookup, insert, is_some, keys, values}
use resq.Py.Access.{get, subscript, iterate}
use resq.Py.Text.{Runtime}
use resq.Py.Loops.{fold_m, map_m}
use resq.Merge.Shared.{execution_id, differs, shard_index}
use resq.Merge.Inventory.{Rows}

abbrev pub compared_fields : List String
compared_fields =
    "suite" ∷ "description" ∷ "status" ∷ "message" ∷ "failures" ∷ "assertsRun" ∷ "file" ∷ "line"
    ∷ "testId" ∷ "caseId" ∷ "kind" ∷ "parameters" ∷ []

-- `{field: row.get(field) for field in fields}`
unfoldable pub compared : Json → Result Json
unfolding map_m
compared row = do
  items ← map_m (λ field. do value ← get row field null; ok (field, value)) compared_fields
  ok (object items)

-- `zip(xs, ys)`
unfoldable pub zip {ℓ κ} : {A : Type ℓ} {B : Type κ} → List A → List B → List (A × B)
zip [] ys = []
zip (x ∷ xs) [] = []
zip (x ∷ xs) (y ∷ ys) = (x, y) ∷ zip xs ys

module _ ⦃r : Runtime⦄ (unshardable : List String) where
  -- what becomes of a result, given what the union has under its identity
  unfoldable pub join_row : String → Json → Rows → Option Json → Result Rows
  unfolding compared differs
  join_row identity row union none = ok (insert identity row union)
  join_row identity row union (some known) = do
    raise_if (not (contains identity unshardable))
        (merge_error "result appears in more than one shard")
    old ← compared known
    new ← compared row
    different ← differs old new
    raise_if different (merge_error "run-level result differs across shards")
    ok union

  unfoldable pub add_row : Rows × Rows → Json → Result (Rows × Rows)
  unfolding join_row execution_id
  add_row (local, union) row = do
    identity ← execution_id row
    raise_if (is_some (lookup identity local)) (merge_error "duplicate result")
    union' ← join_row identity row union (lookup identity union)
    ok (insert identity row local, union')

  unfoldable pub add_results : Rows → Json × List String → Result Rows
  unfolding add_row fold_m
  add_results union (document, expected) = do
    index ← shard_index document
    tests ← subscript document "tests"
    rows ← iterate tests
    (local, union') ← fold_m add_row ([], union) rows
    raise_if (not (same_set (keys local) expected)) (merge_error "incomplete result set")
    ok union'

  unfoldable pub validate_results : List Json → List (List String) → Result (List Json)
  unfolding add_results zip
  validate_results documents expected_by_shard = do
    union ← fold_m add_results [] (zip documents expected_by_shard)
    ok (values union)
