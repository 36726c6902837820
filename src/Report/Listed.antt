-- ===== src/Report/Listed.antt =====
-- What the manifest and the shard of a report are that validate_manifest accepts.
use resq.Base.{
  string_eq, list_eq, list_beq_iff, String, true, not, ◌||◌, List, ◌==◌, some, ◌≡◌, length,
  distinct, subset, same_set, eq_true_of_not, either_not, str_le,
}
use resq.Base.Sorting.{sort}
use resq.Py.Value.{Json, null}
use resq.Py.Result.{ok, through, past, ok-injective, ◌>>=◌}
use resq.Py.Access.{subscript, get, iterate, is_dict}
use resq.Py.Fields.{member, subscript-eq-ok}
use resq.Py.Equal.{py_eq}
use resq.Py.Hash.{Atom, hashed, atom_eq}
use resq.Py.Loops.{each, map_m}
use resq.Py.Rows.{TextsAt, those}
use resq.Report.{require}
use resq.Report.Shards.{shard_fields}
use resq.Report.Manifest.{
  check_head, check_file_entry, check_files, check_entry, check_tests, execution_of, atoms_at,
  texts_at, rows_with,
}
use resq.Report.Marked.{
  is_marked, KeysAt, ExecutionsOf, UniqueKeys, texts_at-TextsAt, atoms_at-KeysAt,
  executions-ExecutionsOf, rows_with-those, unique_set-UniqueKeys,
}
use resq.Report.Selection.{
  check_topology, check_shard_selection, unique_set, expect_number, validate_manifest,
}

-- files with identities and paths of their own, in the order of the paths
abbrev pub FilesListed : Json → List Json → Type 0
FilesListed manifest files =
    (member_files : Json) × (ids : List String) × (paths : List String) × (member manifest "files"
      ≡ some member_files)
    × (iterate member_files ≡ ok files)
    × TextsAt "fileId" files ids
    × TextsAt "path" files paths
    × (distinct ids ≡ true)
    × (distinct paths ≡ true)
    × (paths ≡ sort str_le paths)

check_files-FilesListed :
    (manifest document : Json) {files : List Json}
    → check_files manifest document ≡ ok files
    → FilesListed manifest files
unfolding check_files
check_files-FilesListed manifest document h = through (subscript manifest "files") _ h λ m e h₁.
    through (iterate m) _ h₁ λ files i h₂.
      through (each (check_file_entry document) files) _ h₂ λ _ _ h₃.
        through (texts_at "fileId" files) _ h₃ λ ids a h₄.
          through (texts_at "path" files) _ h₄ λ paths b h₅.
            past (not (distinct ids) || not (distinct paths)) _ _ h₅ λ unique h₆.
              past (not (paths == sort str_le paths)) _ _ h₆ λ order h₇.
                let (u, w) = either_not (distinct ids) (distinct paths) unique in
                rw (← (ok-injective h₇)) (
                  m,
                  ids,
                  paths,
                  subscript-eq-ok manifest "files" e,
                  i,
                  texts_at-TextsAt "fileId" files ids a,
                  texts_at-TextsAt "path" files paths b,
                  u,
                  w,
                  (list_beq_iff paths (sort str_le paths)).0 (eq_true_of_not _ order),
                )

-- tests with identities of their own, among which are those of the report's rows
abbrev pub TestsListed : Json → Json → List Json → Type 0
TestsListed manifest document entries =
    (listed : Json) × (tests : Json) × (rows : List Json) × (ids : List Atom) × (reported : List
      Atom)
    × (member manifest "tests" ≡ some listed)
    × (iterate listed ≡ ok entries)
    × ExecutionsOf entries ids
    × (distinct ids ≡ true)
    × (member document "tests" ≡ some tests)
    × (iterate tests ≡ ok rows)
    × ExecutionsOf rows reported
    × (subset reported ids ≡ true)

check_tests-TestsListed :
    (manifest document : Json) (files : List Json) {entries : List Json}
    → check_tests manifest document files ≡ ok entries
    → TestsListed manifest document entries
unfolding check_tests
check_tests-TestsListed manifest document files h =
    through (atoms_at "fileId" files) _ h λ known _ h₁.
      through (subscript manifest "tests") _ h₁ λ m at h₂.
        through (iterate m) _ h₂ λ entries listed h₃.
          through (each (check_entry document known) entries) _ h₃ λ _ _ h₄.
            through (map_m (λ entry. execution_of entry >>= hashed) entries) _ h₄ λ ids a h₅.
              past (not (distinct ids)) _ _ h₅ λ unique h₆.
                through (subscript document "tests") _ h₆ λ tests t h₇.
                  through (iterate tests) _ h₇ λ rows i h₈.
                    through (map_m (λ row. execution_of row >>= hashed) rows) _ h₈ λ reported b h₉.
                      past (not (subset reported ids)) _ _ h₉ λ inside h₁₀.
                        rw (← (ok-injective h₁₀)) (
                          m,
                          tests,
                          rows,
                          ids,
                          reported,
                          subscript-eq-ok manifest "tests" at,
                          listed,
                          executions-ExecutionsOf entries ids a,
                          eq_true_of_not _ unique,
                          subscript-eq-ok document "tests" t,
                          i,
                          executions-ExecutionsOf rows reported b,
                          eq_true_of_not _ inside,
                        )

-- the shard selects the executions and the files that the manifest marks as selected
abbrev pub SelectionListed : Json → List Json → List Json → Type 0
SelectionListed shard files entries =
    (ids : List Atom) × (expected : List Atom) × (reported : List Atom) × (paths : List Atom)
    × UniqueKeys shard "selectedExecutionIds" ids
    × KeysAt "executionId" (those (is_marked "selected") entries) expected
    × (same_set ids expected ≡ true)
    × UniqueKeys shard "selectedFiles" reported
    × KeysAt "path" (those (is_marked "selected") files) paths
    × (same_set reported paths ≡ true)

check_shard_selection-SelectionListed :
    (document shard : Json) (files entries : List Json)
    → check_shard_selection document shard files entries ≡ ok tt
    → SelectionListed shard files entries
unfolding check_shard_selection
check_shard_selection-SelectionListed document shard files entries h =
    through (unique_set shard "selectedExecutionIds") _ h λ ids a h₁.
      through (rows_with "selected" entries) _ h₁ λ chosen b h₂.
        through (atoms_at "executionId" chosen) _ h₂ λ expected c h₃.
          past (not (same_set ids expected)) _ _ h₃ λ same h₄.
            through (rows_with "selected" files) _ h₄ λ chosen_files d h₅.
              through (expect_number shard "allFileCount" (length files)) _ h₅ λ _ _ h₆.
                through (expect_number shard "selectedFileCount" (length chosen_files)) _ h₆
                  λ _ _ h₇. through (unique_set shard "selectedFiles") _ h₇ λ reported e h₈.
                    through (atoms_at "path" chosen_files) _ h₈ λ paths f h₉.
                      past (not (same_set reported paths)) _ _ h₉ λ same_files _. (
                        ids,
                        expected,
                        reported,
                        paths,
                        unique_set-UniqueKeys shard "selectedExecutionIds" ids a,
                        rw (← (rows_with-those "selected" entries chosen b))
                            (atoms_at-KeysAt "executionId" chosen expected c),
                        eq_true_of_not _ same,
                        unique_set-UniqueKeys shard "selectedFiles" reported e,
                        rw (← (rows_with-those "selected" files chosen_files d))
                            (atoms_at-KeysAt "path" chosen_files paths f),
                        eq_true_of_not _ same_files,
                      )

-- If validate_manifest accepts a manifest, its files have distinct identities and distinct
-- paths in sorted order, its tests have distinct execution identities, which include those of
-- the report's rows, and the shard's selected executions and files are exactly those that the
-- manifest marks as selected.
pub validate_manifest-IsListed :
    (manifest document : Json)
    → validate_manifest manifest document ≡ ok tt
    → (run : Json) × (shard : Json) × (files : List Json) × (entries : List Json) × (member document
          "run"
        ≡ some run)
      × (get run "shard" null ≡ ok shard)
      × FilesListed manifest files
      × TestsListed manifest document entries
      × SelectionListed shard files entries
unfolding validate_manifest
validate_manifest-IsListed manifest document h =
    through (check_head manifest document) _ h λ _ _ h₁.
      through (check_files manifest document) _ h₁ λ files f h₂.
        through (check_tests manifest document files) _ h₂ λ entries t h₃.
          through (subscript document "run") _ h₃ λ run r h₄.
            through (get run "shard" null) _ h₄ λ shard s h₅.
              past (not (is_dict shard)) _ _ h₅ λ _ h₆.
                through (require shard shard_fields) _ h₆ λ _ _ h₇.
                  through (subscript manifest "shard") _ h₇ λ stated _ h₈.
                    past (not (py_eq stated shard)) _ _ h₈ λ _ h₉.
                      through (check_topology shard) _ h₉ λ _ _ h₁₀. (
                        run,
                        shard,
                        files,
                        entries,
                        subscript-eq-ok document "run" r,
                        s,
                        check_files-FilesListed manifest document f,
                        check_tests-TestsListed manifest document files t,
                        check_shard_selection-SelectionListed document shard files entries h₁₀,
                      )
