-- ===== src/Coverage/Sites.antt =====
-- tools/coverage_contract.py: validate_hit_record and validate_site.
use resq.Base.{
  string_eq, number_eq, list_eq, ℕ, zero, suc, ◌+◌, String, Bool, not, ◌&&◌, ◌||◌, List, [], ◌∷◌,
  ◌++◌, ◌==◌, nat_eq, bool_eq, ltb, leb, length, distinct, if◌then◌else◌, is_prefixed_hex,
}
use resq.Base.Sorting.{sort}
use resq.Py.Value.{Json, null, str}
use resq.Py.Result.{Result, ok, err, value_error, ◌>>=◌, ◌>>◌}
use resq.Py.Access.{subscript, iterate, is_list, text_of}
use resq.Py.Equal.{is_nat, is_text}
use resq.Py.Hash.{natural, hashed, atom_eq}
use resq.Py.Checks.{refuse_if, is_one_of}
use resq.Py.Loops.{map_m}
use resq.Coverage.{require, count_at, flag_at, fallbacks}

unfoldable pub is_site_id : String → Bool
unfolding is_prefixed_hex
is_site_id s = is_prefixed_hex "statement_" 32 s || is_prefixed_hex "branch_" 32 s

unfoldable pub is_edge_id : String → Bool
unfolding is_prefixed_hex
is_edge_id = is_prefixed_hex "edge_" 32

-- the text of a value that has the form
unfoldable pub identity : (String → Bool) → Json → Result String
identity form (str s) = do refuse_if (not (form s)) "invalid"; ok s
identity form null = err (value_error "invalid")
identity form _ = err (value_error "invalid")

-- the hits of a row
unfoldable pub validate_hit_record : Json → Result ℕ
unfolding require count_at flag_at
validate_hit_record row = do
  value ← require row ("hits" ∷ "covered" ∷ [])
  hits ← count_at value "hits"
  covered ← flag_at value "covered"
  refuse_if (not (bool_eq covered (ltb 0 hits))) "disagrees with hits"
  ok hits

pub data Kind : Type 0 where
  statement branch : Kind

pub record Edge : Type 0 where
  pub edge_id : String
  pub index : ℕ
  pub label : String
  pub hits : ℕ

-- a site as its checks have read it; `row` is the dict. A statement has no edges, and a branch has no hits
-- of its own.
pub record Site : Type 0 where
  pub row : Json
  pub site_id : String
  pub eligible : Bool
  pub instrumented : Bool
  pub hits : ℕ
  pub edges : List Edge
  pub edges_found : ℕ
  pub edges_hit : ℕ

abbrev common_fields : List String
common_fields =
    "siteId" ∷ "function" ∷ "line" ∷ "column" ∷ "lambdaId" ∷ "lambdaDepth" ∷ "anonymous"
    ∷ "eligible" ∷ "instrumented" ∷ "fallbackReason" ∷ []

unfoldable pub fields_of : Kind → List String
fields_of statement = "hits" ∷ "covered" ∷ []
fields_of branch = "kind" ∷ "conditionIndex" ∷ "block" ∷ "edgesFound" ∷ "edgesHit" ∷ "edges" ∷ []

unfoldable pub edge_label : ℕ → String
edge_label zero = "true"
edge_label (suc n) = "false"

-- `index in {0, 1}`
unfoldable pub edge_index : Json → Result ℕ
unfolding hashed
edge_index value = do
  key ← hashed value
  refuse_if (not (key == natural 0 || key == natural 1)) "expected 0 or 1"
  ok (if key == natural 0 then 0 else 1)

unfoldable pub validate_edge : Bool → Json → Result Edge
unfolding require subscript identity is_edge_id edge_index is_one_of is_text edge_label
    validate_hit_record text_of
validate_edge instrumented edge = do
  item ← require edge ("edgeId" ∷ "index" ∷ "label" ∷ "hits" ∷ "covered" ∷ [])
  id ← subscript item "edgeId"
  edge_id ← identity is_edge_id id
  position ← subscript item "index"
  index ← edge_index position
  label ← subscript item "label"
  known ← is_one_of label ("true" ∷ "false" ∷ [])
  refuse_if (not known) "invalid"
  refuse_if (not (is_text label (edge_label index))) "disagrees with edge index"
  hits ← validate_hit_record item
  refuse_if (not instrumented && ltb 0 hits) "uninstrumented branch cannot have hits"
  name ← text_of label
  ok record { edge_id = edge_id; index = index; label = name; hits = hits }

unfoldable pub edge_ids : List Edge → List String
edge_ids [] = []
edge_ids (edge ∷ edges) = edge.edge_id ∷ edge_ids edges

unfoldable pub edge_indices : List Edge → List ℕ
edge_indices [] = []
edge_indices (edge ∷ edges) = edge.index ∷ edge_indices edges

-- `sum(edge["hits"] > 0 for edge in edges)`
unfoldable pub hit_edges : List Edge → ℕ
hit_edges [] = 0
hit_edges (edge ∷ edges) = (if ltb 0 (edge.hits) then 1 else 0) + hit_edges edges

unfoldable pub is_sorted_pair : List ℕ → Bool
unfolding sort
is_sorted_pair indices = sort leb indices == 0 ∷ 1 ∷ []

-- what both kinds of site are asked for: the identity, whether it is eligible, and whether instrumented
unfoldable pub validate_common : Json → Result (String × (Bool × Bool))
unfolding subscript identity is_site_id count_at flag_at is_one_of
validate_common value = do
  id ← subscript value "siteId"
  site_id ← identity is_site_id id
  line ← count_at value "line"
  column ← count_at value "column"
  depth ← count_at value "lambdaDepth"
  anonymous ← flag_at value "anonymous"
  eligible ← flag_at value "eligible"
  instrumented ← flag_at value "instrumented"
  reason ← subscript value "fallbackReason"
  known ← is_one_of reason fallbacks
  refuse_if (not known) "unknown"
  refuse_if (instrumented && not eligible) "ineligible site cannot be instrumented"
  ok (site_id, (eligible, instrumented))

unfoldable pub validate_statement : Json → String → Bool → Bool → Result Site
unfolding validate_hit_record
validate_statement value site_id eligible instrumented = do
  hits ← validate_hit_record value
  refuse_if (not instrumented && ltb 0 hits) "uninstrumented statement cannot have hits"
  ok record {
    row = value;
    site_id = site_id;
    eligible = eligible;
    instrumented = instrumented;
    hits = hits;
    edges = [];
    edges_found = 0;
    edges_hit = 0;
  }

-- the two edges of a branch
unfoldable pub validate_edges : Json → Bool → Result (List Edge)
unfolding subscript is_list iterate map_m validate_edge is_sorted_pair edge_indices edge_ids
    distinct
validate_edges value instrumented = do
  member ← subscript value "edges"
  refuse_if (not (is_list member)) "expected true and false edges"
  rows ← iterate member
  refuse_if (not (nat_eq (length rows) 2)) "expected true and false edges"
  edges ← map_m (validate_edge instrumented) rows
  refuse_if (not (is_sorted_pair (edge_indices edges)) || not (distinct (edge_ids edges)))
      "expected unique true/false identities"
  ok edges

unfoldable pub validate_branch : Json → String → Bool → Bool → Result Site
unfolding subscript is_one_of count_at validate_edges hit_edges is_nat
validate_branch value site_id eligible instrumented = do
  form ← subscript value "kind"
  known ← is_one_of form ("if" ∷ "while" ∷ "$" ∷ "conditional" ∷ [])
  refuse_if (not known) "invalid"
  condition ← count_at value "conditionIndex"
  block ← count_at value "block"
  edges ← validate_edges value instrumented
  let found = if eligible then 2 else 0
  let hit = if eligible then hit_edges edges else 0
  found_value ← subscript value "edgesFound"
  hit_value ← subscript value "edgesHit"
  refuse_if (not (is_nat found_value found) || not (is_nat hit_value hit))
      "edge aggregates disagree with edges"
  ok record {
    row = value;
    site_id = site_id;
    eligible = eligible;
    instrumented = instrumented;
    hits = 0;
    edges = edges;
    edges_found = found;
    edges_hit = hit;
  }

unfoldable pub validate_kind : Kind → Json → String → Bool → Bool → Result Site
unfolding validate_statement validate_branch
validate_kind statement = validate_statement
validate_kind branch = validate_branch

unfoldable pub validate_site : Kind → Json → Result Site
unfolding require fields_of validate_common validate_kind
validate_site kind row = do
  value ← require row (common_fields ++ fields_of kind)
  (site_id, (eligible, instrumented)) ← validate_common value
  validate_kind kind value site_id eligible instrumented
