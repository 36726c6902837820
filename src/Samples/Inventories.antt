-- ===== src/Samples/Inventories.antt =====
-- `validate_inventory` and `validate_sources` of tools/merge_shards.py on the manifests of two shards.
use resq.Base.{
  length, string_eq, ℕ, String, Bool, List, true, false, [], ◌∷◌, some, ◌≡◌, refl, contains,
  distinct, All, concat,
}
use resq.Py.Value.{Json, bool, str, array, object, nat}
use resq.Py.Result.{ok}
use resq.Py.Fields.{member}
use resq.Py.Loops.{map_m, Pointwise}
use resq.Py.Running.{python}
use resq.Py.Samples.{plain}
use resq.Merge.Shared.{execution_id, shard_of, shard_index}
use resq.Merge.Inventory.{Rows, validate_inventory}
use resq.Merge.Sources.{file_inventory, validate_sources}
use resq.Merge.Sources.Agreement.{validate_sources-agree}
use resq.Py.Text.{canonical}
use resq.Py.Dict.{values}
use resq.Merge.Inventory.Assigned.{IsAssigned, manifest_ids, validate_inventory-IsAssigned}
use resq.Merge.Inventory.Ordered.{validate_inventory-ids}

-- an entry of a manifest: a run-level one if `shardable` is false
abbrev entry : String → ℕ → Bool → Bool → Json
entry identity assigned shardable selected = object (
    ("executionId", str identity)
    ∷ ("assignedShard", nat assigned)
    ∷ ("shardable", bool shardable)
    ∷ ("selected", bool selected)
    ∷ [])

abbrev document : ℕ → List Json → List String → Json
document index entries selected = object (
    (
      "run",
      object (
          (
            "shard",
            object (("index", nat index) ∷ ("selectedExecutionIds", array (strings selected)) ∷ []),
          )
          ∷ []),
    )
    ∷ ("manifest", object (("tests", array entries) ∷ []))
    ∷ ("tests", array [])
    ∷ [])
  where
    strings : List String → List Json
    strings [] = []
    strings (s ∷ ss) = str s ∷ strings ss

abbrev documents : List Json
documents =
    document 1 (entry "run" 0 false true ∷ entry "b" 1 true true ∷ entry "a" 0 true false ∷ [])
      ("b" ∷ "run" ∷ [])
    ∷ document 0 (entry "run" 0 false true ∷ entry "b" 1 true false ∷ entry "a" 0 true true ∷ [])
        ("a" ∷ "run" ∷ [])
    ∷ []

abbrev ordered : List Json
ordered = entry "a" 0 true true ∷ entry "b" 1 true true ∷ entry "run" 0 false true ∷ []

abbrev expected : List (List String)
expected = ("run" ∷ "b" ∷ []) ∷ ("run" ∷ "a" ∷ []) ∷ []

inventory_accepted : validate_inventory documents (nat 2) ≡ ok (ordered, expected)
unfolding validate_inventory python shard_of shard_index
inventory_accepted = refl

validate_inventory-IsAssigned_example : Pointwise IsAssigned documents expected
validate_inventory-IsAssigned_example =
    validate_inventory-IsAssigned documents (nat 2) ordered expected inventory_accepted

validate_inventory-ids_example :
    (ids : List String) × (idss : List (List String)) × (map_m execution_id ordered ≡ ok ids)
    × (map_m manifest_ids documents ≡ ok idss)
    × (distinct ids ≡ true)
    × ((i : String) → contains i ids ≡ contains i (concat idss))
    × All (λ entry. member entry "selected" ≡ some (bool true)) ordered
validate_inventory-ids_example =
    validate_inventory-ids documents (nat 2) ordered expected inventory_accepted

-- a manifest of source files
abbrev file : String → String → Json
file identity path = object (("fileId", str identity) ∷ ("path", str path) ∷ [])

abbrev sources : Json
sources =
    object
      (("manifest", object (("files", array (file "f" "b.q" ∷ file "g" "a.q" ∷ [])) ∷ [])) ∷ [])

abbrev marked : String → String → Json
marked identity path =
    object (("fileId", str identity) ∷ ("path", str path) ∷ ("selected", bool true) ∷ [])

sources_agree :
    validate_sources (sources ∷ sources ∷ []) ≡ ok (marked "g" "a.q" ∷ marked "f" "b.q" ∷ [])
unfolding validate_sources python
sources_agree = refl

validate_sources-agree_example :
    (reference : Rows) × (rest : List Rows) × (map_m file_inventory (sources ∷ sources ∷ [])
      ≡ ok (reference ∷ rest))
    × All (λ inventory. canonical (object inventory) ≡ canonical (object reference)) rest
    × (2 ≡ length (values reference))
    × All
        (λ entry. member entry "selected" ≡ some (bool true))
        (marked "g" "a.q" ∷ marked "f" "b.q" ∷ [])
validate_sources-agree_example =
    validate_sources-agree (sources ∷ sources ∷ []) (marked "g" "a.q" ∷ marked "f" "b.q" ∷ [])
      sources_agree
