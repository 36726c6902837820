-- ===== src/Coverage/Functions.antt =====
-- tools/coverage_contract.py, validate_coverage_artifact: the functions of a file.
use resq.Base.{
  string_eq, number_eq, pair_eq, ℕ, ◌+◌, String, Bool, not, ◌&&◌, List, [], ◌∷◌, ◌++◌, length, ltb,
  contains, if◌then◌else◌,
}
use resq.Py.Value.{Json}
use resq.Py.Result.{Result, ok, err, value_error, ◌>>=◌, ◌>>◌}
use resq.Py.Access.{subscript, iterate, is_list, text_of}
use resq.Py.Equal.{is_nat}
use resq.Py.Checks.{refuse_if, is_one_of}
use resq.Py.Loops.{each, map_m, fold_m}
use resq.Coverage.{require, count_at, flag_at, fallbacks}
use resq.Coverage.Sites.{Site, Kind, statement, branch, validate_hit_record, validate_site}

-- a row of a line, as its checks have read it
pub record Line : Type 0 where
  pub row : Json
  pub line : ℕ
  pub hits : ℕ

pub record Function : Type 0 where
  pub name : String
  pub line : ℕ
  pub hits : ℕ
  pub function_eligible : Bool
  pub function_instrumented : Bool
  pub statement_eligible : Bool
  pub statement_instrumented : Bool
  pub fallback_reason : String
  pub statements : List Line
  pub statement_sites : List Site
  pub branches : List Site

-- `sum(test(row) for row in rows)`
module _ {ℓ} {A : Type ℓ} where
  unfoldable pub count_where : (A → Bool) → List A → ℕ
  count_where test [] = 0
  count_where test (x ∷ xs) = (if test x then 1 else 0) + count_where test xs

  unfoldable pub sum_of : (A → ℕ) → List A → ℕ
  sum_of size [] = 0
  sum_of size (x ∷ xs) = size x + sum_of size xs

unfoldable pub is_line_hit : Line → Bool
is_line_hit row = ltb 0 (row.hits)

unfoldable pub is_eligible : Site → Bool
is_eligible site = site.eligible

unfoldable pub is_instrumented : Site → Bool
is_instrumented site = site.instrumented

unfoldable pub is_eligible_hit : Site → Bool
is_eligible_hit site = site.eligible && ltb 0 (site.hits)

-- the edges that an eligible site adds to a sum
unfoldable pub found_edges : Site → ℕ
found_edges site = if site.eligible then site.edges_found else 0

unfoldable pub hit_edges_of : Site → ℕ
hit_edges_of site = if site.eligible then site.edges_hit else 0

unfoldable pub lines_of : List Line → List ℕ
lines_of [] = []
lines_of (row ∷ rows) = row.line ∷ lines_of rows

-- one round over the rows of lines: no line stands twice
unfoldable pub add_line : List Line → Json → Result (List Line)
unfolding require count_at validate_hit_record lines_of contains
add_line seen statement_row = do
  item ← require statement_row ("line" ∷ "hits" ∷ "covered" ∷ [])
  line ← count_at item "line"
  refuse_if (contains line (lines_of seen)) "duplicate line"
  hits ← validate_hit_record item
  ok (seen ++ record { row = item; line = line; hits = hits } ∷ [])

-- the rows of a list of lines
unfoldable pub validate_lines : Json → Result (List Line)
unfolding is_list iterate fold_m add_line
validate_lines rows = do
  refuse_if (not (is_list rows)) "expected array"
  lines ← iterate rows
  fold_m add_line [] lines

unfoldable pub validate_sites : Kind → Json → String → Result (List Site)
unfolding subscript iterate map_m validate_site
validate_sites kind value name = do
  member ← subscript value name
  rows ← iterate member
  map_m (validate_site kind) rows

-- a count that a row states is the one of its children
unfoldable pub check_stated : Json → String × ℕ → Result (Unit {0})
unfolding subscript is_nat
check_stated value (name, expected) = do
  stated ← subscript value name
  refuse_if (not (is_nat stated expected)) "disagrees with child records"

-- the counts of the children of a function
unfoldable pub expected_counts : List Line → List Site → List Site → List (String × ℕ)
unfolding count_where sum_of is_line_hit is_eligible is_instrumented is_eligible_hit found_edges
    hit_edges_of
expected_counts statements sites branches =
    ("statementFound", length statements)
    ∷ ("statementHit", count_where is_line_hit statements)
    ∷ ("statementSitesFound", count_where is_eligible sites)
    ∷ ("statementSitesHit", count_where is_eligible_hit sites)
    ∷ ("statementSitesInstrumented", count_where is_instrumented sites)
    ∷ ("branchSitesEligible", count_where is_eligible branches)
    ∷ ("branchSitesInstrumented", count_where is_instrumented branches)
    ∷ ("branchFound", sum_of found_edges branches)
    ∷ ("branchHit", sum_of hit_edges_of branches)
    ∷ []

abbrev pub function_fields : List String
function_fields =
    "name" ∷ "line" ∷ "hits" ∷ "covered" ∷ "functionEligible" ∷ "functionInstrumented"
    ∷ "statementEligible" ∷ "statementInstrumented" ∷ "fallbackReason" ∷ "statementFound"
    ∷ "statementHit" ∷ "statements" ∷ "statementSitesFound" ∷ "statementSitesHit"
    ∷ "statementSitesInstrumented" ∷ "statementSites" ∷ "branchSitesEligible"
    ∷ "branchSitesInstrumented" ∷ "branchFound" ∷ "branchHit" ∷ "branches" ∷ []

unfoldable pub string_at : Json → String → Result String
unfolding subscript
string_at value name = do
  member ← subscript value name
  elim (text_of member) [ err e ↦ err (value_error "expected string") | ok s ↦ ok s ]

-- the children of a function, and that it counts them as they are
unfoldable pub with_children : Json → Function → Result Function
unfolding subscript validate_lines validate_sites each check_stated expected_counts
with_children fn head = do
  statement_rows ← subscript fn "statements"
  statements ← validate_lines statement_rows
  sites ← validate_sites statement fn "statementSites"
  branches ← validate_sites branch fn "branches"
  each (check_stated fn) (expected_counts statements sites branches)
  ok record {
    name = head.name;
    line = head.line;
    hits = head.hits;
    function_eligible = head.function_eligible;
    function_instrumented = head.function_instrumented;
    statement_eligible = head.statement_eligible;
    statement_instrumented = head.statement_instrumented;
    fallback_reason = head.fallback_reason;
    statements = statements;
    statement_sites = sites;
    branches = branches;
  }

abbrev pub identities : List Function → List (String × ℕ)
identities [] = []
identities (fn ∷ fns) = (fn.name, fn.line) ∷ identities fns

-- one round over the functions of a file
unfoldable pub add_function : List Function → Json → Result (List Function)
unfolding require string_at count_at contains validate_hit_record flag_at subscript is_one_of
    text_of with_children
add_function seen function = do
  fn ← require function function_fields
  name ← string_at fn "name"
  line ← count_at fn "line"
  refuse_if (contains (name, line) (identities seen)) "duplicate function identity"
  hits ← validate_hit_record fn
  function_eligible ← flag_at fn "functionEligible"
  function_instrumented ← flag_at fn "functionInstrumented"
  statement_eligible ← flag_at fn "statementEligible"
  statement_instrumented ← flag_at fn "statementInstrumented"
  refuse_if (function_instrumented && not function_eligible)
      "ineligible function cannot be instrumented"
  reason ← subscript fn "fallbackReason"
  known ← is_one_of reason fallbacks
  refuse_if (not known) "unknown"
  fallback_reason ← text_of reason
  whole ← with_children fn record {
    name = name;
    line = line;
    hits = hits;
    function_eligible = function_eligible;
    function_instrumented = function_instrumented;
    statement_eligible = statement_eligible;
    statement_instrumented = statement_instrumented;
    fallback_reason = fallback_reason;
    statements = [];
    statement_sites = [];
    branches = [];
  }
  ok (seen ++ whole ∷ [])
