-- ===== src/Coverage/Parts.antt =====
-- What a coverage artifact is that validate_coverage_artifact accepts.
use mathlib.Core.Path.{subst}
use resq.Base.{
  eq_true_of_not, string_eq, ℕ, String, true, not, List, [], ◌∷◌, All, Option, some, ◌==◌, ◌≡◌,
  refl, sym, ap, ◌∙◌, arith, length, length-append, nat_eq_iff, some-injective,
}
use resq.Py.Value.{Json, nat}
use resq.Py.Result.{ok, through, past, ok-injective, raise_if-eq-ok}
use resq.Py.Access.{subscript, iterate, is_list}
use resq.Py.Fields.{member, rows_of, subscript-eq-ok}
use resq.Py.Rows.{rows_of-list}
use resq.Py.Equal.{is_nat, numbers_eq, number, number_eq, int_eq}
use resq.Py.Loops.{each, each-eq-ok, map_m, map_m-All, map_m-Pointwise, Pointwise}
use resq.Py.Text.{Runtime}
use resq.Coverage.{require, count_at, flag_at}
use resq.Coverage.Found.{FileFound}
use resq.Coverage.Found.Files.{validate_file-FileFound}
use resq.Coverage.Reads.{count_at-eq-ok, require-same}
use resq.Coverage.Summary.{validate_summary, check_count}
use resq.Coverage.Consistency.{validate_summary-same}
use resq.Coverage.Sites.{Site, statement, branch}
use resq.Coverage.Functions.{
  Line, Function, sum_of, check_stated, string_at, validate_lines, validate_sites,
}
use resq.Coverage.Files.{
  File, file_counts, collections, check_collection, validate_functions, check_children,
  counts_of_file, validate_file,
}
use resq.Coverage.Contexts.{Context}
use resq.Coverage.Measurement.{all_metrics, validate_context_measurement}
use resq.Coverage.Artifact.{
  artifact_fields, check_artifact_producer, check_unique, aggregate, check_fallback_counts,
  all_lines,
}
use resq.Coverage.References.{check_metric, check_given, validate_coverage_artifact}

-- a member states the number
abbrev pub IsStated : Json → String × ℕ → Type 0
IsStated x (name, n) = (v : Json) × (member x name ≡ some v) × (is_nat v n ≡ true)

pub check_stated-IsStated :
    (x : Json) (row : String × ℕ) → check_stated x row ≡ ok tt → IsStated x row
unfolding check_stated
check_stated-IsStated x (name, n) h =
    through (subscript x name) _ h
      λ v e h₁. (v, subscript-eq-ok x name e, eq_true_of_not _ (raise_if-eq-ok _ _ h₁))

pub each-IsStated :
    (x : Json) (rows : List (String × ℕ)) {u : Unit {0}}
    → each (check_stated x) rows ≡ ok u
    → All (IsStated x) rows
each-IsStated x rows h = go rows (each-eq-ok (check_stated x) rows h)
  where
    go :
        (rows : List (String × ℕ))
        → All (λ row. check_stated x row ≡ ok tt) rows
        → All (IsStated x) rows
    go [] h = tt
    go (row ∷ rows) h = (check_stated-IsStated x row h.0, go rows h.1)

-- a stated count is the number
pub stated_count :
    (x : Json) (name : String) (n m : ℕ)
    → IsStated x (name, n)
    → member x name ≡ some (nat m)
    → m ≡ n
unfolding is_nat numbers_eq number number_eq int_eq
stated_count x name n m (v, at, same) h =
    let is_count = some-injective (sym at ∙ h) in (nat_eq_iff m n).0 (rw is_count at same)

-- the lines that a file states are those that it has
abbrev pub CountsLines : File → Type 0
CountsLines file = file.line_found ≡ length (file.lines)

counts_of_file-IsStated :
    (x : Json) (functions : List Function) (lines : List Line) (sites branches : List Site)
    → All (IsStated x) (counts_of_file functions lines sites branches)
    → IsStated x ("lineFound", length lines)
unfolding counts_of_file
counts_of_file-IsStated x functions lines sites branches h = h.1.1.1.0

validate_file-CountsLines : (x : Json) (file : File) → validate_file x ≡ ok file → CountsLines file
unfolding validate_file
validate_file-CountsLines x file h = through (require x _) _ h λ value _ h₁.
    through (string_at value "path") _ h₁ λ path _ h₂. past (path == "") _ _ h₂ λ _ h₃.
      through (flag_at value "loaded") _ h₃ λ loaded _ h₄.
        through (each (check_count value) file_counts) _ h₄ λ _ _ h₅.
          through (each (check_collection value) collections) _ h₅ λ _ _ h₆.
            through (validate_functions value) _ h₆ λ functions _ h₇.
              through (subscript value "lines") _ h₇ λ rows _ h₈.
                through (validate_lines rows) _ h₈ λ lines _ h₉.
                  through (validate_sites statement value "statementSites") _ h₉ λ sites _ h₁₀.
                    through (validate_sites branch value "branches") _ h₁₀ λ branches _ h₁₁.
                      through (check_children functions lines sites branches) _ h₁₁ λ _ _ h₁₂.
                        through
                          (each (check_stated value)
                            (counts_of_file functions lines sites branches))
                          _ h₁₂
                          λ _ counted h₁₃.
                            through (count_at value "lineFound") _ h₁₃ λ line_found at h₁₄.
                              subst CountsLines (ok-injective h₁₄) (
                                stated_count value "lineFound" (length lines) line_found
                                  (counts_of_file-IsStated value functions lines sites branches (
                                    each-IsStated value
                                      (counts_of_file functions lines sites branches) counted))
                                  (count_at-eq-ok value "lineFound" at))

pub length-all_lines :
    (files : List File)
    → All CountsLines files
    → length (all_lines files) ≡ sum_of (λ f. f.line_found) files
unfolding all_lines sum_of
length-all_lines [] h = refl
length-all_lines (file ∷ files) h =
    omega (arith, length-append (file.lines) (all_lines files), length-all_lines files h.1, h.0)

pub lines_stated :
    (rows : List Json) (files : List File)
    → map_m validate_file rows ≡ ok files
    → length (all_lines files) ≡ sum_of (λ f. f.line_found) files
lines_stated rows files f =
    length-all_lines files
      (map_m-All CountsLines validate_file validate_file-CountsLines rows files f)

module _ ⦃r : Runtime⦄ where
  -- what the checks of an artifact went through
  abbrev pub Parts : Json → Option Json → List File → List Context → Type 0
  Parts root report files contexts =
      (summary : Json) × (measurement : Json) × (rows : List Json) × (member root "summary"
        ≡ some summary)
      × (member root "contextMeasurement" ≡ some measurement)
      × (rows_of (member root "files") ≡ rows)
      × (map_m validate_file rows ≡ ok files)
      × (check_unique files ≡ ok tt)
      × (each (check_stated summary) (aggregate files) ≡ ok tt)
      × (validate_context_measurement measurement ≡ ok contexts)
      × (each (check_metric files) (all_metrics contexts) ≡ ok tt)
      × (check_given root summary report ≡ ok tt)

  pub parts :
      (document : Json) (report : Option Json) {files : List File} {contexts : List Context}
      → validate_coverage_artifact document report ≡ ok (files, contexts)
      → Parts document report files contexts
  unfolding validate_coverage_artifact
  parts document report h = through (require document artifact_fields) _ h λ root same h₁.
      through (check_artifact_producer root) _ h₁ λ _ _ h₂.
        through (subscript root "summary") _ h₂ λ stated s h₃.
          through (validate_summary stated) _ h₃ λ summary v h₄.
            through (subscript root "files") _ h₄ λ m fm h₅. past (not (is_list m)) _ _ h₅ λ l h₆.
              through (iterate m) _ h₆ λ rows i h₇.
                through (map_m validate_file rows) _ h₇ λ files' f h₈.
                  through (check_unique files') _ h₈ λ _ u h₉.
                    through (each (check_stated summary) (aggregate files')) _ h₉ λ _ a h₁₀.
                      through (check_fallback_counts summary files') _ h₁₀ λ _ _ h₁₁.
                        through (subscript root "contextMeasurement") _ h₁₁ λ mm ms h₁₂.
                          through (validate_context_measurement mm) _ h₁₂ λ contexts' c h₁₃.
                            through (each (check_metric files') (all_metrics contexts')) _ h₁₃
                              λ _ k h₁₄. through (check_given root summary report) _ h₁₄ λ _ g h₁₅.
                                let pair = ok-injective h₁₅ in
                                rw (require-same document _ same) (
                                  rw (← (ap (λ t. t.0) pair)) (
                                    rw (← (ap (λ t. t.1) pair)) (
                                      summary,
                                      mm,
                                      rows,
                                      subscript-eq-ok root "summary" s
                                          ∙ ap some (validate_summary-same stated v),
                                      subscript-eq-ok root "contextMeasurement" ms,
                                      ap rows_of (subscript-eq-ok root "files" fm)
                                          ∙ rows_of-list m (eq_true_of_not _ l) i,
                                      f,
                                      u,
                                      a,
                                      c,
                                      k,
                                      g,
                                    )))

  pub files_found :
      (document : Json) (report : Option Json) {files : List File} {contexts : List Context}
      → validate_coverage_artifact document report ≡ ok (files, contexts)
      → Pointwise FileFound (rows_of (member document "files")) files
  files_found document report {files} h =
      let (_, _, rows, _, _, is_rows, f, _, _, _, _, _) = parts document report h in
      rw is_rows (map_m-Pointwise FileFound validate_file validate_file-FileFound rows files f)
