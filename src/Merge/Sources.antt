-- ===== src/Merge/Sources.antt =====
-- `validate_sources`: all shards were made from the same source files.
pub mod Agreement
use resq.Base.{
  string_eq, ℕ, String, Bool, true, false, not, List, [], ◌∷◌, map, Option, none, some, ◌==◌,
  nat_eq, length, if◌then◌else◌, ◌≡◌,
}
use resq.Py.Value.{Json, bool, object}
use resq.Py.Result.{Exn, Result, ok, err, merge_error, index_error, raise_if, ◌>>=◌, ◌>>◌}
use resq.Py.Dict.{Dict, insert, keys, values}
use resq.Py.Access.{subscript, set_item, iterate, text_of}
use resq.Py.Hash.{Atom, hashed}
use resq.Py.Order.{less, sort_m}
use resq.Py.Text.{Runtime}
use resq.Py.Loops.{fold_m, map_m, any_m}
use resq.Merge.Shared.{differs, normalize_file}
use resq.Merge.Inventory.{Rows}

-- `entry["fileId"]`, which is a text in a valid report
unfoldable pub file_id : Json → Result String
unfolding text_of
file_id entry = do identity ← subscript entry "fileId"; text_of identity

unfoldable pub add_file : Rows → Json → Result Rows
unfolding file_id normalize_file
add_file by_id entry = do
  identity ← file_id entry
  normalized ← normalize_file entry
  ok (insert identity normalized by_id)

unfoldable pub file_inventory : Json → Result Rows
unfolding add_file fold_m
file_inventory document = do
  manifest ← subscript document "manifest"
  files ← subscript manifest "files"
  entries ← iterate files
  by_id ← fold_m add_file [] entries
  raise_if (not (nat_eq (length (keys by_id)) (length entries)))
      (merge_error "duplicate source file identity within a manifest")
  ok by_id

unfoldable pub by_path : Json → Result (Atom × Json)
by_path entry = do path ← subscript entry "path"; key ← hashed path; ok (key, entry)

-- the files of the reference, sorted by path and marked as selected
unfoldable pub selected_files : Rows → Result (List Json)
unfolding by_path
selected_files reference = do
  pairs ← map_m by_path (values reference)
  sorted ← sort_m (λ a b. less a.0 b.0) pairs
  map_m (λ pair. set_item pair.1 "selected" (bool true)) sorted

module _ ⦃r : Runtime⦄ where
  unfoldable pub check_inventories : List Rows → Result (List Json)
  unfolding differs selected_files any_m
  check_inventories [] = err index_error
  check_inventories (reference ∷ rest) = do
    mixed ← any_m (λ inventory. differs (object inventory) (object reference)) rest
    raise_if mixed (merge_error "source inventory or source digest differs across shards")
    selected_files reference

  unfoldable pub validate_sources : List Json → Result (List Json)
  unfolding file_inventory check_inventories map_m
  validate_sources documents = do
    inventories ← map_m file_inventory documents
    check_inventories inventories
