-- ===== src/Merge/Shared.antt =====
-- Helpers of the merger: identities, comparison by canonical text, normal forms of entries.
use resq.Base.{string_eq, String, Bool, not, List, [], ◌∷◌, ◌==◌}
use resq.Py.Value.{Json, null, str}
use resq.Py.Result.{Result, ok, err, merge_error, index_error, raise_if, ◌>>=◌, ◌>>◌}
use resq.Py.Access.{get, subscript, pop, or_else}
use resq.Py.Text.{Runtime, to_str, canonical}
use resq.Py.Loops.{map_m, any_m}

-- document["run"]["shard"]
unfoldable pub shard_of : Json → Result Json
shard_of document = do run ← subscript document "run"; subscript run "shard"

unfoldable pub shard_index : Json → Result Json
unfolding shard_of
shard_index document = do shard ← shard_of document; subscript shard "index"

unfoldable pub normalize_file : Json → Result Json
normalize_file entry = pop entry "selected"

unfoldable pub normalize_inventory : Json → Result Json
normalize_inventory entry = pop entry "selected"

module _ ⦃r : Runtime⦄ where
  unfoldable pub execution_id : Json → Result String
  execution_id row = do
    case_id ← get row "caseId" null
    test_id ← get row "testId" null
    own_id ← get row "executionId" null
    ok (to_str (or_else case_id (or_else test_id (or_else own_id (str "")))))

  -- `canonical(v) != canonical(w)`
  unfoldable pub differs : Json → Json → Result Bool
  differs v w = do a ← canonical v; b ← canonical w; ok (not (a == b))

  same_values : List Json → String → Result Json
  unfolding any_m differs
  same_values [] label = err index_error
  same_values (first ∷ rest) label = do
    mixed ← any_m (λ value. differs value first) rest
    raise_if mixed (merge_error label)
    ok first

  unfoldable pub same : List Json → (Json → Result Json) → String → Result Json
  unfolding map_m same_values
  same documents getter label = do values ← map_m getter documents; same_values values label
