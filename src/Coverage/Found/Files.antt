-- ===== src/Coverage/Found/Files.antt =====
-- tools/coverage_contract.py: what the loops over functions and files read.
use resq.Base.{
  string_eq, number_eq, pair_eq, ℕ, String, Bool, true, not, ◌&&◌, List, [], ◌∷◌, ◌++◌, ◌==◌, some,
  some-injective, ◌≡◌, sym, ◌∙◌, contains, eq_true_of_not,
}
use resq.Py.Value.{Json}
use resq.Py.Result.{ok, through, past, ok-injective, raise_if-eq-ok}
use resq.Py.Access.{subscript, is_list, iterate, text_of}
use resq.Py.Fields.{member, rows_of, subscript-eq-ok}
use resq.Py.Checks.{is_one_of}
use resq.Py.Loops.{each, each-eq-ok, map_m-Pointwise, Pointwise}
use resq.Py.Rows.{rows_of-list, fold_m-rows}
use resq.Coverage.{require, count_at, flag_at, fallbacks}
use resq.Coverage.Reads.{count_at-eq-ok, flag_at-eq-ok, require-same}
use resq.Coverage.Edges.{validate_hit_record-IsHit}
use resq.Coverage.Summary.{check_count}
use resq.Coverage.Sites.{Site, statement, branch, validate_hit_record, validate_site}
use resq.Coverage.Functions.{
  Function, function_fields, identities, expected_counts, check_stated, string_at, validate_lines,
  validate_sites, with_children, add_function,
}
use resq.Coverage.Files.{
  File, file_fields, file_counts, collections, check_collection, validate_functions, check_children,
  counts_of_file, validate_file,
}
use resq.Coverage.Found.{StatementFound, BranchFound, FunctionFound, FileFound}
use resq.Coverage.Found.Sites.{
  string_at-eq-ok, validate_lines-LineFound, validate_site-StatementFound,
  validate_site-BranchFound,
}

-- the head of a function keeps its name, its hits and its flags
with_children-head :
    (x fn : Json) (head whole : Function)
    → FunctionFound x head
    → with_children fn head ≡ ok whole
    → FunctionFound x whole
unfolding with_children
with_children-head x fn head whole found h = through (subscript fn "statements") _ h λ rows _ h₁.
    through (validate_lines rows) _ h₁ λ lines _ h₂.
      through (validate_sites statement fn "statementSites") _ h₂ λ sites _ h₃.
        through (validate_sites branch fn "branches") _ h₃ λ branches _ h₄.
          through (each (check_stated fn) (expected_counts lines sites branches)) _ h₄ λ _ _ h₅.
            rw (← (ok-injective h₅)) (record {
              name = found.name;
              hits = found.hits;
              eligible = found.eligible;
              instrumented = found.instrumented;
              statement_eligible = found.statement_eligible;
              statement_instrumented = found.statement_instrumented;
            })

-- a function before its children are read
abbrev head_of : String → ℕ → ℕ → Bool → Bool → Bool → Bool → String → Function
head_of name line hits fe fi se si reason = record {
  name = name;
  line = line;
  hits = hits;
  function_eligible = fe;
  function_instrumented = fi;
  statement_eligible = se;
  statement_instrumented = si;
  fallback_reason = reason;
  statements = [];
  statement_sites = [];
  branches = [];
}

add_function-FunctionFound :
    (seen : List Function) (x : Json) (after : List Function)
    → add_function seen x ≡ ok after
    → (fn : Function) × (after ≡ seen ++ fn ∷ []) × FunctionFound x fn
unfolding add_function
add_function-FunctionFound seen x after h = through (require x function_fields) _ h λ fn same h₁.
    through (string_at fn "name") _ h₁ λ name a h₂. through (count_at fn "line") _ h₂ λ line _ h₃.
      past (contains (name, line) (identities seen)) _ _ h₃ λ _ h₄.
        through (validate_hit_record fn) _ h₄ λ hits b h₅.
          through (flag_at fn "functionEligible") _ h₅ λ fe c h₆.
            through (flag_at fn "functionInstrumented") _ h₆ λ fi d h₇.
              through (flag_at fn "statementEligible") _ h₇ λ se e h₈.
                through (flag_at fn "statementInstrumented") _ h₈ λ si f h₉.
                  past (fi && not fe) _ _ h₉ λ _ h₁₀.
                    through (subscript fn "fallbackReason") _ h₁₀ λ reason _ h₁₁.
                      through (is_one_of reason fallbacks) _ h₁₁ λ known _ h₁₂.
                        past (not known) _ _ h₁₂ λ _ h₁₃. through (text_of reason) _ h₁₃ λ fr _ h₁₄.
                          through (with_children fn (head_of name line hits fe fi se si fr)) _ h₁₄
                            λ whole w h₁₅. (
                              whole,
                              sym (ok-injective h₁₅),
                              rw (require-same x _ same) (
                                  with_children-head fn fn (head_of name line hits fe fi se si fr)
                                    whole
                                    (record {
                                      name = string_at-eq-ok fn "name" a;
                                      hits = (validate_hit_record-IsHit fn b).0;
                                      eligible = flag_at-eq-ok fn "functionEligible" c;
                                      instrumented = flag_at-eq-ok fn "functionInstrumented" d;
                                      statement_eligible = flag_at-eq-ok fn "statementEligible" e;
                                      statement_instrumented =
                                          flag_at-eq-ok fn "statementInstrumented" f;
                                    })
                                    w),
                            )

-- the member is a list
IsRows : Json → String → Type 0
IsRows x name = (m : Json) × (member x name ≡ some m) × (is_list m ≡ true)

check_collection-IsRows :
    (x : Json) (name : String) → check_collection x name ≡ ok tt → IsRows x name
unfolding check_collection IsRows
check_collection-IsRows x name h =
    through (subscript x name) _ h
      λ m e h₁. (m, subscript-eq-ok x name e, eq_true_of_not _ (raise_if-eq-ok _ _ h₁))

-- what was iterated is the rows of the member
IsRows-rows :
    (x : Json) (name : String) {m : Json} {xs : List Json}
    → IsRows x name
    → subscript x name ≡ ok m
    → iterate m ≡ ok xs
    → rows_of (member x name) ≡ xs
unfolding IsRows
IsRows-rows x name (m', at, listed) e i =
    let at' = subscript-eq-ok x name e in
    rw at' (rows_of-list _ (rw (some-injective (sym at ∙ at')) at listed) i)

validate_functions-FunctionFound :
    (x : Json) {functions : List Function}
    → IsRows x "functions"
    → validate_functions x ≡ ok functions
    → Pointwise FunctionFound (rows_of (member x "functions")) functions
unfolding validate_functions
validate_functions-FunctionFound x listed h = through (subscript x "functions") _ h λ m e h₁.
    through (iterate m) _ h₁ λ rows i h₂.
      rw (IsRows-rows x "functions" listed e i)
        (fold_m-rows FunctionFound add_function add_function-FunctionFound rows _ h₂)

validate_sites-StatementFound :
    (x : Json) (name : String) {sites : List Site}
    → IsRows x name
    → validate_sites statement x name ≡ ok sites
    → Pointwise StatementFound (rows_of (member x name)) sites
unfolding validate_sites
validate_sites-StatementFound x name {sites} listed h = through (subscript x name) _ h λ m e h₁.
    through (iterate m) _ h₁ λ rows i h₂. rw (IsRows-rows x name listed e i) (
      map_m-Pointwise StatementFound (validate_site statement) validate_site-StatementFound rows
        sites h₂)

validate_sites-BranchFound :
    (x : Json) (name : String) {sites : List Site}
    → IsRows x name
    → validate_sites branch x name ≡ ok sites
    → Pointwise BranchFound (rows_of (member x name)) sites
unfolding validate_sites
validate_sites-BranchFound x name {sites} listed h = through (subscript x name) _ h λ m e h₁.
    through (iterate m) _ h₁ λ rows i h₂. rw (IsRows-rows x name listed e i) (
      map_m-Pointwise BranchFound (validate_site branch)
        (λ row site own. (validate_site-BranchFound row site own).0) rows sites h₂)

pub validate_file-FileFound :
    (x : Json) (file : File) → validate_file x ≡ ok file → FileFound x file
unfolding validate_file
validate_file-FileFound x file h = through (require x file_fields) _ h λ value same h₁.
    through (string_at value "path") _ h₁ λ path a h₂. past (path == "") _ _ h₂ λ _ h₃.
      through (flag_at value "loaded") _ h₃ λ loaded b h₄.
        through (each (check_count value) file_counts) _ h₄ λ _ _ h₅.
          through (each (check_collection value) collections) _ h₅ λ _ listed h₆.
            through (validate_functions value) _ h₆ λ functions c h₇.
              through (subscript value "lines") _ h₇ λ rows d h₈.
                through (validate_lines rows) _ h₈ λ lines e h₉.
                  through (validate_sites statement value "statementSites") _ h₉ λ sites f h₁₀.
                    through (validate_sites branch value "branches") _ h₁₀ λ branches g h₁₁.
                      through (check_children functions lines sites branches) _ h₁₁ λ _ _ h₁₂.
                        through
                          (each (check_stated value)
                            (counts_of_file functions lines sites branches))
                          _ h₁₂
                          λ _ _ h₁₃. through (count_at value "lineFound") _ h₁₃ λ n k h₁₄.
                            let (fs, (_, (ss, (bs, _)))) =
                              each-eq-ok (check_collection value) collections listed in
                            rw (require-same x _ same, ← (ok-injective h₁₄))
                              (record {
                                path = string_at-eq-ok value "path" a;
                                loaded = flag_at-eq-ok value "loaded" b;
                                line_found = count_at-eq-ok value "lineFound" k;
                                functions =
                                    validate_functions-FunctionFound value
                                      (check_collection-IsRows value "functions" fs) c;
                                lines =
                                    rw (subscript-eq-ok value "lines" d)
                                      (validate_lines-LineFound rows e);
                                sites =
                                    validate_sites-StatementFound value "statementSites"
                                      (check_collection-IsRows value "statementSites" ss) f;
                                branches =
                                    validate_sites-BranchFound value "branches"
                                      (check_collection-IsRows value "branches" bs) g;
                              })
