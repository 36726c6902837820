-- ===== src/Samples/Merging.antt =====
-- tools/merge_shards.py on the reports of two shards.
use resq.Merge.Statuses.{status_summary, statuses_of}
use resq.Merge.Statuses.Partition.{unknown, status_summary-counts}
use resq.Base.{
  ◌+◌, string_eq, list_eq, ℕ, String, List, true, false, [], ◌∷◌, ◌≡◌, refl, contains, distinct,
  All, arith, concat, str_le,
}
use resq.Base.Sorting.{sort}
use resq.Py.Value.{Json, str, array, object, nat}
use resq.Py.Result.{ok}
use resq.Py.Hash.{atom_eq}
use resq.Py.Loops.{map_m}
use resq.Py.Order.{range_bound}
use resq.Py.Running.{python}
use resq.Py.Samples.{plain}
use resq.Merge.Shared.{execution_id, shard_of, shard_index, same}
use resq.Merge.Topology.{topology}
use resq.Merge.Topology.Indices.{IsUnion, topology-IsUnion}
use resq.Merge.Results.{validate_results, zip}
use resq.Merge.Results.AllShards.{
  IsComplete, wanted_by_some, validate_results-IsComplete, validate_results-shared,
  validate_results-union,
}
use resq.Merge.Ownership.{
  validate_snapshot_ownership, snapshot_key, merge_performance, benchmark_id,
}
use resq.Merge.Ownership.Snapshots.{snapshots_of, validate_snapshot_ownership_unique}
use resq.Merge.Ownership.Measurements.{measured, merge_performance-sorted}

abbrev snapshot : Json
snapshot = object (("backend", str "q") ∷ ("path", str "s") ∷ [])

-- a result of its own, with a snapshot
abbrev row : String → Json
row identity = object (("caseId", str identity) ∷ ("snapshots", array (snapshot ∷ [])) ∷ [])

-- a result of the run, which every shard produces
abbrev run_row : Json
run_row = object (("testId", str "run") ∷ ("status", str "pass") ∷ [])

abbrev measurement : String → Json
measurement benchmark = object (("benchmarkId", str benchmark) ∷ [])

abbrev document : ℕ → List Json → String → Json
document index rows benchmark = object (
    (
      "run",
      object (
          ("shard", object (("index", nat index) ∷ ("count", nat 2) ∷ ("algorithm", str "a") ∷ []))
          ∷ []),
    )
    ∷ ("tests", array rows)
    ∷ ("performance", array (measurement benchmark ∷ []))
    ∷ [])

abbrev second : Json
second = document 1 (row "b" ∷ run_row ∷ []) "y"

abbrev first : Json
first = document 0 (run_row ∷ row "a" ∷ []) "x"

abbrev documents : List Json
documents = second ∷ first ∷ []

abbrev of_run : List String
of_run = "run" ∷ []

abbrev of_second : List String
of_second = "run" ∷ "b" ∷ []

abbrev of_first : List String
of_first = "run" ∷ "a" ∷ []

abbrev expected : List (List String)
expected = of_second ∷ of_first ∷ []

abbrev merged_rows : List Json
merged_rows = row "b" ∷ run_row ∷ row "a" ∷ []

abbrev shared_id : String
shared_id = "run"

abbrev owner : String
owner = "a"

topology_accepts : topology documents ≡ ok (str "file", nat 2, nat 1 ∷ nat 0 ∷ [])
unfolding topology python shard_of same
topology_accepts = refl

results_accepted : validate_results of_run documents expected ≡ ok merged_rows
unfolding validate_results python shard_index
results_accepted = refl

run_in_first : contains shared_id of_second ≡ true
unfolding contains
run_in_first = refl

run_in_second : contains shared_id of_first ≡ true
unfolding contains
run_in_second = refl

topology-IsUnion_example :
    (map_m shard_index documents ≡ ok (nat 1 ∷ nat 0 ∷ []))
    × (range_bound (nat 2) ≡ ok 2)
    × IsUnion (nat 1 ∷ nat 0 ∷ []) 2
topology-IsUnion_example =
    topology-IsUnion documents (str "file") (nat 2) (nat 1 ∷ nat 0 ∷ []) topology_accepts

validate_results-IsComplete_example : All IsComplete (zip documents expected)
validate_results-IsComplete_example =
    validate_results-IsComplete of_run documents expected merged_rows results_accepted

validate_results-union_example :
    (ids : List String) × (map_m execution_id merged_rows ≡ ok ids)
    × (distinct ids ≡ true)
    × ((i : String) → contains i ids ≡ wanted_by_some i (zip documents expected))
validate_results-union_example =
    validate_results-union of_run documents expected merged_rows results_accepted

validate_results-shared_example : contains shared_id of_run ≡ true
unfolding zip
validate_results-shared_example =
    validate_results-shared of_run documents expected merged_rows 0 1 (second, of_second)
      (first, of_first) shared_id results_accepted (omega arith) refl refl run_in_first
      run_in_second

-- one execution that writes a snapshot twice
abbrev twice : List Json
twice = row "a" ∷ row "a" ∷ []

owned_once : validate_snapshot_ownership twice ≡ ok tt
unfolding validate_snapshot_ownership python
owned_once = refl

identity_of_row : execution_id (row "a") ≡ ok "a"
unfolding execution_id python
identity_of_row = refl

listed_snapshots : snapshots_of (row "a") ≡ ok (snapshot ∷ [])
unfolding snapshots_of python
listed_snapshots = refl

key_of_snapshot : snapshot_key snapshot ≡ ok ("q", "s")
unfolding snapshot_key python
key_of_snapshot = refl

validate_snapshot_ownership_unique_example : owner ≡ owner
validate_snapshot_ownership_unique_example =
    validate_snapshot_ownership_unique twice 0 1 0 0 (row "a") (row "a") "a" "a" (snapshot ∷ [])
      (snapshot ∷ []) snapshot snapshot ("q", "s") owned_once refl refl identity_of_row
      identity_of_row listed_snapshots listed_snapshots refl refl key_of_snapshot key_of_snapshot

performance_sorted : merge_performance documents ≡ ok (measurement "x" ∷ measurement "y" ∷ [])
unfolding merge_performance python
performance_sorted = refl

merge_performance-sorted_example :
    (idss : List (List String)) × (map_m measured documents ≡ ok idss)
    × (map_m benchmark_id (measurement "x" ∷ measurement "y" ∷ []) ≡ ok (sort str_le (concat idss)))
    × (distinct (concat idss) ≡ true)
    × (contains "" (concat idss) ≡ false)
merge_performance-sorted_example =
    merge_performance-sorted documents (measurement "x" ∷ measurement "y" ∷ []) performance_sorted

-- one result of each kind
abbrev with_status : String → Json
with_status status = object (("status", str status) ∷ [])

abbrev results : List Json
results =
    with_status "pass" ∷ with_status "fail" ∷ with_status "pending" ∷ with_status "strange" ∷ []

abbrev counted : Json
counted = object (
    ("testCount", nat 4)
    ∷ ("passCount", nat 1)
    ∷ ("failCount", nat 1)
    ∷ ("errorCount", nat 0)
    ∷ ("skipCount", nat 1)
    ∷ [])

summed_up : status_summary results ≡ ok counted
unfolding status_summary python
summed_up = refl

status_summary-counts_example :
    (statuses : List Json) × (passed failed errors skipped : ℕ) × (statuses_of results
      ≡ ok statuses)
    × (counted
        ≡ object (
            ("testCount", nat 4)
            ∷ ("passCount", nat passed)
            ∷ ("failCount", nat failed)
            ∷ ("errorCount", nat errors)
            ∷ ("skipCount", nat skipped)
            ∷ []))
    × (passed + failed + errors + skipped + unknown statuses ≡ 4)
status_summary-counts_example = status_summary-counts results counted summed_up
