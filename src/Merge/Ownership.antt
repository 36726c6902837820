-- ===== src/Merge/Ownership.antt =====
-- `validate_snapshot_ownership`, `merge_performance` and `merge_diagnostics`.
pub mod Measurements
pub mod Snapshots
use resq.Base.{
  string_eq, pair_eq, String, Bool, true, false, not, ◌&&◌, ◌||◌, List, [], ◌∷◌, ◌++◌, map, Option,
  none, some, ◌==◌, if◌then◌else◌, ◌≡◌, str_le,
}
use resq.Base.Sorting.{sort}
use resq.Py.Value.{Json, null, str, arr, obj, nil, Fields, entries, of_entries, object}
use resq.Py.Result.{Exn, Result, ok, err, merge_error, raise_if, ◌>>=◌, ◌>>◌}
use resq.Py.Dict.{Dict, lookup, insert, is_some, keys, values}
use resq.Py.Access.{get, subscript, iterate, set_item, truthy, is_dict, or_else, found}
use resq.Py.Text.{Runtime, to_str}
use resq.Py.Loops.{fold_m, map_m}
use resq.Merge.Shared.{execution_id, shard_index}
use resq.Merge.Inventory.{Rows}

-- a snapshot is known by its backend and its path
abbrev pub SnapshotKey : Type 0
SnapshotKey = String × String

abbrev pub Owners : Type 0
Owners = Dict SnapshotKey String

abbrev pub by_other : Option String → String → Bool
by_other none identity = false
by_other (some owner) identity = not (owner == identity)

module _ ⦃r : Runtime⦄ where
  unfoldable pub snapshot_key : Json → Result SnapshotKey
  unfolding to_str
  snapshot_key snapshot = do
    backend ← get snapshot "backend" (str "")
    path ← get snapshot "path" (str "")
    ok (to_str backend, to_str path)

  unfoldable pub own_snapshot : String → Owners → Json → Result Owners
  unfolding snapshot_key
  own_snapshot identity owners snapshot = do
    key ← snapshot_key snapshot
    raise_if (by_other (lookup key owners) identity)
        (merge_error "snapshot was written by multiple executions")
    ok (insert key identity owners)

  unfoldable pub own_row : Owners → Json → Result Owners
  unfolding own_snapshot execution_id
  own_row owners row = do
    identity ← execution_id row
    listed ← get row "snapshots" (arr nil)
    snapshots ← iterate listed
    fold_m (own_snapshot identity) owners snapshots

  unfoldable pub validate_snapshot_ownership : List Json → Result (Unit {0})
  unfolding own_row
  validate_snapshot_ownership rows = do owners ← fold_m own_row [] rows; ok tt

  -- `[performance] if performance else []` for a single dict
  unfoldable pub measurements : Json → Result (List Json)
  measurements (obj fs) = ok (if truthy (obj fs) then obj fs ∷ [] else [])
  measurements performance = iterate performance

  -- `str(row.get("benchmarkId", ""))`
  unfoldable pub benchmark_id : Json → Result String
  unfolding to_str
  benchmark_id row = do benchmark ← get row "benchmarkId" (str ""); ok (to_str benchmark)

  unfoldable pub add_measurement : Rows → Json → Result Rows
  unfolding benchmark_id
  add_measurement merged row = do
    key ← benchmark_id row
    raise_if (key == "") (merge_error "benchmark result has no stable benchmarkId")
    raise_if (is_some (lookup key merged))
        (merge_error "benchmark result appears in more than one shard")
    ok (insert key row merged)

  unfoldable pub add_performance : Rows → Json → Result Rows
  unfolding add_measurement measurements
  add_performance merged document = do
    listed ← get document "performance" null
    rows ← measurements (or_else listed (arr nil))
    fold_m add_measurement merged rows

  -- `merged[key]`
  unfoldable pub at_key : Rows → String → Result Json
  at_key merged key = found key (lookup key merged)

  unfoldable pub merge_performance : List Json → Result (List Json)
  unfolding add_performance at_key
  merge_performance documents = do
    merged ← fold_m add_performance [] documents
    map_m (at_key merged) (sort str_le (keys merged))

-- the shard's index is added to a diagnostic's data
unfoldable pub with_shard : Json → Json → Json
with_shard index (obj fs) = obj (of_entries (insert "shardIndex" index (entries fs)))
with_shard index null = object (("value", null) ∷ ("shardIndex", index) ∷ [])
with_shard index value = object (("value", value) ∷ ("shardIndex", index) ∷ [])

unfoldable pub shard_diagnostic : Json → Json → Result Json
unfolding with_shard
shard_diagnostic index diagnostic = do
  value ← get diagnostic "data" null
  set_item diagnostic "data" (with_shard index value)

unfoldable pub add_diagnostics : List Json → Json → Result (List Json)
unfolding shard_diagnostic map_m
add_diagnostics merged document = do
  index ← shard_index document
  listed ← get document "diagnostics" (arr nil)
  diagnostics ← iterate listed
  items ← map_m (shard_diagnostic index) diagnostics
  ok (merged ++ items)

unfoldable pub merge_diagnostics : List Json → Result (List Json)
unfolding add_diagnostics fold_m
merge_diagnostics = fold_m add_diagnostics []
