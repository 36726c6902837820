-- ===== src/Migrate/State.antt =====
-- `migrate_state`: every identity of a state document is replaced by its new one.
pub mod Rows
pub mod Documents
pub mod Distinct
use resq.Base.{
  string_eq, ℕ, String, Bool, true, false, not, ◌&&◌, ◌||◌, List, [], ◌∷◌, Option, none, some, ◌==◌,
  if◌then◌else◌, ◌≡◌, refl,
}
use resq.Py.Value.{Json, null, str, obj, Fields, entries, array, nat, arr, of_elements}
use resq.Py.Result.{Exn, Result, ok, err, migration_error, attribute_error, raise_if, ◌>>=◌, ◌>>◌}
use resq.Py.Dict.{Dict, lookup, insert, is_some}
use resq.Py.Access.{get, subscript, iterate, set_item, is_dict, is_list, nonempty_str, has_key}
use resq.Py.Equal.{is_text}
use resq.Py.Loops.{map_m}
use resq.Migrate.Pairing.{Mapping, current_algorithm}

abbrev proven : Option String → Result String
proven none = err (migration_error "identifier has no proven mapping")
proven (some new_id) = ok new_id

abbrev known : Option String → Result String
known none = err (migration_error "identifier must be a non-empty string")
known (some identifier) = ok identifier

unfoldable pub map_id : Mapping → Json → Result String
map_id mapping identifier = do
  old_id ← known (nonempty_str identifier)
  proven (lookup old_id mapping)

-- the rows of one of the three kinds of documents with rows
unfoldable pub migrate_rows : (Json → Result Json) → String → Json → Result Json
unfolding map_m
migrate_rows migrate_one section document = do
  rows ← get document section null
  raise_if (not (is_list rows)) (migration_error "rows must be an array")
  old_rows ← iterate rows
  new_rows ← map_m migrate_one old_rows
  set_item document section (array new_rows)

module _ (mapping : Mapping) where
  -- `row["testId"] = map_id(row.get("testId"), …)`
  unfoldable pub migrate_row : Json → Result Json
  unfolding map_id
  migrate_row row = do
    raise_if (not (is_dict row)) (migration_error "row must be an object")
    identifier ← get row "testId" null
    new_id ← map_id mapping identifier
    set_item row "testId" (str new_id)

  -- a suggested entry carries the identity a second time
  unfoldable pub migrate_suggested : Json → Json → Result Json
  unfolding map_id
  migrate_suggested row (obj fs) =
      if has_key fs "testId"
      then (do
        identifier ← subscript (obj fs) "testId"
        new_id ← map_id mapping identifier
        suggested ← set_item (obj fs) "testId" (str new_id)
        set_item row "suggestedEntry" suggested)
      else ok row
  migrate_suggested row null = ok row
  migrate_suggested row _ = ok row

  unfoldable pub migrate_proposal : Json → Result Json
  unfolding migrate_row migrate_suggested
  migrate_proposal row = do
    row' ← migrate_row row
    suggested ← get row' "suggestedEntry" null
    migrate_suggested row' suggested

  unfoldable pub migrate_failed : Json → Result Json
  unfolding map_m map_id
  migrate_failed document = do
    ids ← subscript document "failedTestIds"
    raise_if (not (is_list ids)) (migration_error "rerun failedTestIds must be an array")
    old_ids ← iterate ids
    new_ids ← map_m (λ identifier. do new_id ← map_id mapping identifier; ok (str new_id)) old_ids
    set_item document "failedTestIds" (array new_ids)

  unfoldable pub migrate_kind : Json → Json → Result Json
  unfolding migrate_row migrate_proposal migrate_rows
  migrate_kind kind document =
      if is_text kind "resq-flake-history"
      then migrate_rows migrate_row "tests" document
      else if is_text kind "resq-quarantine-manifest"
      then migrate_rows migrate_row "entries" document
      else if is_text kind "resq-quarantine-proposals"
      then migrate_rows migrate_proposal "proposals" document
      else err (migration_error "unrecognized identity-bearing state document")

  -- the document's identities, by its kind
  unfoldable pub migrate_identities : Json → Result Json
  unfolding migrate_failed migrate_kind
  migrate_identities (obj fs) = do
    kind ← get (obj fs) "kind" null
    if has_key fs "failedTestIds" then migrate_failed (obj fs) else migrate_kind kind (obj fs)
  migrate_identities null = err attribute_error
  migrate_identities _ = err attribute_error

abbrev pub current_state_version : ℕ
current_state_version = 2

unfoldable pub migrate_state : Json → Mapping → Json → Result Json
unfolding migrate_identities
migrate_state state mapping codec = do
  migrated ← migrate_identities mapping state
  a ← set_item migrated "schemaVersion" (nat current_state_version)
  b ← set_item a "identityAlgorithm" (str current_algorithm)
  set_item b "identityCodec" codec
