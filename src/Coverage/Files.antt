-- ===== src/Coverage/Files.antt =====
-- tools/coverage_contract.py, validate_coverage_artifact: the loop over the files.
use resq.Base.{
  string_eq, number_eq, ℕ, String, Bool, true, false, not, ◌&&◌, ◌||◌, List, [], ◌∷◌, ◌++◌, ◌==◌,
  Option, none, some, Eq, length, nat_eq, ltb,
}
use resq.Py.Value.{Json}
use resq.Py.Result.{Result, ok, ◌>>=◌, ◌>>◌}
use resq.Py.Dict.{Dict, lookup, insert}
use resq.Py.Access.{subscript, iterate, is_list}
use resq.Py.Equal.{py_eq}
use resq.Py.Checks.{refuse_if}
use resq.Py.Loops.{each, fold_m}
use resq.Coverage.{require, count_at, flag_at}
use resq.Coverage.Summary.{check_count}
use resq.Coverage.Sites.{Site, statement, branch}
use resq.Coverage.Functions.{
  Line, Function, count_where, sum_of, is_line_hit, is_eligible, is_instrumented, is_eligible_hit,
  found_edges, hit_edges_of, validate_lines, validate_sites, check_stated, string_at, add_function,
}

-- a file as its checks have read it
pub record File : Type 0 where
  pub path : String
  pub loaded : Bool
  pub line_found : ℕ
  pub functions : List Function
  pub lines : List Line
  pub sites : List Site
  pub branches : List Site

abbrev pub file_counts : List String
file_counts =
    "functionFound" ∷ "functionHit" ∷ "statementFunctionsInstrumented" ∷ "lineFound" ∷ "lineHit"
    ∷ "statementSitesEligible" ∷ "statementSitesInstrumented" ∷ "statementSitesHit"
    ∷ "branchSitesEligible" ∷ "branchSitesInstrumented" ∷ "branchFound" ∷ "branchHit" ∷ []

abbrev pub file_fields : List String
file_fields =
    file_counts ++ "path" ∷ "loaded" ∷ "functions" ∷ "lines" ∷ "statementSites" ∷ "branches" ∷ []

abbrev pub collections : List String
collections = "functions" ∷ "lines" ∷ "statementSites" ∷ "branches" ∷ []

unfoldable pub check_collection : Json → String → Result (Unit {0})
unfolding subscript is_list
check_collection value name = do
  rows ← subscript value name
  refuse_if (not (is_list rows)) "coverage child collections must be arrays"

-- `{row["line"]: row for row in rows}`, and so for sites
unfoldable pub by_line : Dict ℕ Json → List Line → Dict ℕ Json
unfolding insert
by_line map [] = map
by_line map (line ∷ lines) = by_line (insert (line.line) (line.row) map) lines

unfoldable pub by_site : Dict String Json → List Site → Dict String Json
unfolding insert
by_site map [] = map
by_site map (site ∷ sites) = by_site (insert (site.site_id) (site.row) map) sites

unfoldable pub same_row : Json → Option Json → Bool
unfolding py_eq
same_row row none = false
same_row row (some other) = py_eq row other

-- `a == b` on dicts of rows
module _ {ℓ} {K : Type ℓ} ⦃e : Eq K⦄ where
  unfoldable pub rows_in : Dict K Json → Dict K Json → Bool
  unfolding lookup same_row
  rows_in [] other = true
  rows_in ((k, row) ∷ rows) other = same_row row (lookup k other) && rows_in rows other

  unfoldable pub same_rows : Dict K Json → Dict K Json → Bool
  unfolding rows_in
  same_rows rows other = nat_eq (length rows) (length other) && rows_in rows other

unfoldable pub embedded_lines : List Function → List Line
embedded_lines [] = []
embedded_lines (fn ∷ fns) = fn.statements ++ embedded_lines fns

unfoldable pub embedded_sites : List Function → List Site
embedded_sites [] = []
embedded_sites (fn ∷ fns) = fn.statement_sites ++ embedded_sites fns

unfoldable pub embedded_branches : List Function → List Site
embedded_branches [] = []
embedded_branches (fn ∷ fns) = fn.branches ++ embedded_branches fns

unfoldable pub is_function_hit : Function → Bool
is_function_hit fn = ltb 0 (fn.hits)

unfoldable pub is_statement_instrumented : Function → Bool
is_statement_instrumented fn = fn.statement_instrumented

-- the counts of the children of a file
unfoldable pub counts_of_file :
    List Function → List Line → List Site → List Site → List (String × ℕ)
unfolding count_where sum_of is_line_hit is_eligible is_instrumented is_eligible_hit found_edges
    hit_edges_of is_function_hit is_statement_instrumented
counts_of_file functions lines sites branches =
    ("functionFound", length functions)
    ∷ ("functionHit", count_where is_function_hit functions)
    ∷ ("statementFunctionsInstrumented", count_where is_statement_instrumented functions)
    ∷ ("lineFound", length lines)
    ∷ ("lineHit", count_where is_line_hit lines)
    ∷ ("statementSitesEligible", count_where is_eligible sites)
    ∷ ("statementSitesInstrumented", count_where is_instrumented sites)
    ∷ ("statementSitesHit", count_where is_eligible_hit sites)
    ∷ ("branchSitesEligible", count_where is_eligible branches)
    ∷ ("branchSitesInstrumented", count_where is_instrumented branches)
    ∷ ("branchFound", sum_of found_edges branches)
    ∷ ("branchHit", sum_of hit_edges_of branches)
    ∷ []

unfoldable pub check_children :
    List Function → List Line → List Site → List Site → Result (Unit {0})
unfolding same_rows by_line by_site embedded_lines embedded_sites embedded_branches
check_children functions lines sites branches =
    refuse_if
      (not (same_rows (by_line [] (embedded_lines functions)) (by_line [] lines))
        || not (same_rows (by_site [] (embedded_sites functions)) (by_site [] sites))
        || not (same_rows (by_site [] (embedded_branches functions)) (by_site [] branches)))
      "file-level coverage rows differ from function children"

unfoldable pub validate_functions : Json → Result (List Function)
unfolding subscript iterate fold_m add_function
validate_functions value = do
  member ← subscript value "functions"
  rows ← iterate member
  fold_m add_function [] rows

unfoldable pub validate_file : Json → Result File
unfolding require string_at flag_at each check_count check_collection validate_functions subscript
    validate_lines validate_sites check_children check_stated counts_of_file count_at
validate_file file_row = do
  value ← require file_row file_fields
  path ← string_at value "path"
  refuse_if (path == "") "expected nonempty string"
  loaded ← flag_at value "loaded"
  each (check_count value) file_counts
  each (check_collection value) collections
  functions ← validate_functions value
  rows ← subscript value "lines"
  lines ← validate_lines rows
  sites ← validate_sites statement value "statementSites"
  branches ← validate_sites branch value "branches"
  check_children functions lines sites branches
  each (check_stated value) (counts_of_file functions lines sites branches)
  line_found ← count_at value "lineFound"
  ok record {
    path = path;
    loaded = loaded;
    line_found = line_found;
    functions = functions;
    lines = lines;
    sites = sites;
    branches = branches;
  }
