-- ===== src/Samples/Migration.antt =====
-- tools/migrate_identity_state.py on two reports with two tests each.
use resq.Base.{
  string_eq, list_eq, String, true, [], ◌∷◌, none, some, ◌≡◌, refl, distinct, get_elem?,
}
use resq.Py.Value.{Json, null, str, array, object, nat}
use resq.Py.Result.{ok}
use resq.Py.Dict.{lookup}
use resq.Py.Hash.{Atom, atom_eq}
use resq.Py.Running.{python}
use resq.Py.Samples.{plain}
use resq.Py.Fields.{member, rows_of}
use resq.Py.Loops.{Pointwise}
use resq.Migrate.Inventory.{manifest, indexed, index_entry, execution_key, parent_key, Key}
use resq.Migrate.Inventory.Indexing.{identity, manifest_tests}
use resq.Migrate.Pairing.{Mapping, pair_maps, current_algorithm}
use resq.Migrate.Pairing.Reports.{
  pair_maps-executions, pair_maps-parents, pair_maps-covers, pair_maps-injective,
}
use resq.Migrate.State.{migrate_state}
use resq.Migrate.State.Rows.{IsRenamed}
use resq.Migrate.State.Documents.{history, IsCurrent, migrate_state-rows}
use resq.Migrate.State.Distinct.{row_ids, migrate_state-distinct}

abbrev entry : String → String → String → Json
entry test_id execution_id description = object (
    ("executionId", str execution_id)
    ∷ ("testId", str test_id)
    ∷ ("file", str "a.q")
    ∷ ("suite", str "s")
    ∷ ("description", str description)
    ∷ ("kind", str "test")
    ∷ [])

abbrev report : String → Json → Json → Json
report algorithm codec tests = object (
    (
      "manifest",
      object
          (("identityAlgorithm", str algorithm) ∷ ("identityCodec", codec) ∷ ("tests", tests) ∷ []),
    )
    ∷ [])

abbrev codec : Json
codec = object (("name", str "q") ∷ [])

abbrev old : Json
old = report "v2" null (array (entry "t1" "t1" "one" ∷ entry "t2" "c2" "two" ∷ []))

abbrev new : Json
new = report current_algorithm codec (array (entry "u2" "d2" "two" ∷ entry "u1" "u1" "one" ∷ []))

abbrev mapping : Mapping
mapping = ("t1", "u1") ∷ ("c2", "d2") ∷ ("t2", "u2") ∷ []

pairs : pair_maps old new ≡ ok (mapping, codec)
unfolding pair_maps manifest indexed index_entry execution_key parent_key python
pairs = refl

abbrev key : Key
key =
    Atom.text "a.q"
    ∷ Atom.text "s"
    ∷ Atom.text "two"
    ∷ Atom.text "test"
    ∷ Atom.text "null"
    ∷ Atom.text "null"
    ∷ []

old_key : execution_key (entry "t2" "c2" "two") ≡ ok key
unfolding execution_key python
old_key = refl

new_key : execution_key (entry "u2" "d2" "two") ≡ ok key
unfolding execution_key python
new_key = refl

abbrev parent : Key
parent = Atom.text "a.q" ∷ Atom.text "s" ∷ Atom.text "two" ∷ []

old_parent : parent_key (entry "t2" "c2" "two") ≡ ok parent
unfolding parent_key python
old_parent = refl

new_parent : parent_key (entry "u2" "d2" "two") ≡ ok parent
unfolding parent_key python
new_parent = refl

at_old : get_elem? (manifest_tests old) 1 ≡ some (entry "t2" "c2" "two")
unfolding python
at_old = refl

at_new : get_elem? (manifest_tests new) 0 ≡ some (entry "u2" "d2" "two")
unfolding python
at_new = refl

old_id : identity "executionId" (entry "t2" "c2" "two") ≡ some "c2"
unfolding python
old_id = refl

new_id : identity "executionId" (entry "u2" "d2" "two") ≡ some "d2"
unfolding python
new_id = refl

old_test : identity "testId" (entry "t2" "c2" "two") ≡ some "t2"
unfolding python
old_test = refl

new_test : identity "testId" (entry "u2" "d2" "two") ≡ some "u2"
unfolding python
new_test = refl

pair_maps-executions_example : lookup "c2" mapping ≡ some "d2"
pair_maps-executions_example =
    pair_maps-executions old new mapping codec pairs 1 0 (entry "t2" "c2" "two")
      (entry "u2" "d2" "two") key "c2" "d2" at_old at_new old_key new_key old_id new_id

parent_of_second : lookup "t2" mapping ≡ some "u2"
parent_of_second =
    pair_maps-parents old new mapping codec pairs 1 0 (entry "t2" "c2" "two")
      (entry "u2" "d2" "two") parent "t2" "u2" at_old at_new old_parent new_parent old_test new_test

new_ids_of_entries :
    (i : String) × (i' : String) × (identity "executionId" (entry "t2" "c2" "two") ≡ some i)
    × (lookup i mapping ≡ some i')
new_ids_of_entries = pair_maps-covers old new mapping codec pairs 1 (entry "t2" "c2" "two") at_old

at_c2 : lookup "c2" mapping ≡ some "d2"
unfolding python
at_c2 = refl

pair_maps-injective_example : ◌≡◌ {A = String} "c2" "c2"
pair_maps-injective_example =
    pair_maps-injective old new mapping codec pairs "c2" "c2" "d2" at_c2 at_c2

abbrev flake : String → String → Json
flake first second = object (
    ("kind", str "resq-flake-history")
    ∷ (
      "tests",
      array (
          object (("testId", str first) ∷ ("runs", nat 3) ∷ [])
          ∷ object (("testId", str second) ∷ [])
          ∷ []),
    )
    ∷ [])

abbrev migrated : Json
migrated = object (
    ("kind", str "resq-flake-history")
    ∷ (
      "tests",
      array (
          object (("testId", str "u1") ∷ ("runs", nat 3) ∷ [])
          ∷ object (("testId", str "d2") ∷ [])
          ∷ []),
    )
    ∷ ("schemaVersion", nat 2)
    ∷ ("identityAlgorithm", str current_algorithm)
    ∷ ("identityCodec", codec)
    ∷ [])

carried : migrate_state (flake "t1" "c2") mapping codec ≡ ok migrated
unfolding migrate_state python
carried = refl

no_failed : member (flake "t1" "c2") "failedTestIds" ≡ none
unfolding python
no_failed = refl

of_kind : member (flake "t1" "c2") "kind" ≡ some (str "resq-flake-history")
unfolding python
of_kind = refl

migrate_state-rows_example :
    Pointwise
      (IsRenamed mapping)
      (rows_of (member (flake "t1" "c2") "tests"))
      (rows_of (member migrated "tests"))
    × IsCurrent codec migrated
migrate_state-rows_example =
    migrate_state-rows (flake "t1" "c2") codec migrated mapping history no_failed of_kind carried

apart : distinct (row_ids (rows_of (member (flake "t1" "c2") "tests"))) ≡ true
unfolding python
apart = refl

migrate_state-distinct_example : distinct (row_ids (rows_of (member migrated "tests"))) ≡ true
migrate_state-distinct_example =
    migrate_state-distinct old new codec (flake "t1" "c2") migrated mapping history pairs no_failed
      of_kind carried apart
