-- ===== src/Coverage/Contexts.antt =====
-- tools/coverage_contract.py: validate_context_measurement.
use resq.Base.{
  string_eq, ℕ, String, Bool, not, ◌&&◌, ◌||◌, List, [], ◌∷◌, ◌++◌, ◌==◌, ltb, contains,
  if◌then◌else◌, list_eq,
}
use resq.Py.Value.{ℤ, pos, negsuc, Json, null, int, str}
use resq.Py.Result.{Result, ok, err, value_error, ◌>>=◌, ◌>>◌}
use resq.Py.Access.{subscript, iterate, is_list, text_of}
use resq.Py.Equal.{py_eq, int_eq}
use resq.Py.Checks.{refuse_if, is_one_of}
use resq.Py.Loops.{fold_m}
use resq.Coverage.{require, count_at}
use resq.Coverage.Sites.{is_site_id}
use resq.Coverage.Functions.{string_at}

pub data MetricKind : Type 0 where
  function statement branch : MetricKind

-- a metric, as its checks have read it
pub record Metric : Type 0 where
  pub metric_id : String
  pub kind : MetricKind
  pub file : String
  pub function_name : String
  pub site_id : String
  pub edge_index : ℤ
  pub edge_label : String
  pub hits : ℕ

pub record Context : Type 0 where
  pub context_id : String
  pub kind : String
  pub metrics : List Metric

abbrev pub metric_fields : List String
metric_fields =
    "contextId" ∷ "metricId" ∷ "kind" ∷ "file" ∷ "function" ∷ "siteId" ∷ "edgeIndex" ∷ "edgeLabel"
    ∷ "hits" ∷ []

unfoldable pub kind_of : String → Result MetricKind
kind_of name =
    if name == "function"
    then ok function
    else if name == "statement"
    then ok statement
    else if name == "branch"
    then ok branch
    else err (value_error "invalid")

-- `isinstance(x, int)` without `bool`
unfoldable pub integer : Json → Result ℤ
integer (int z) = ok z
integer null = err (value_error "expected integer")
integer _ = err (value_error "expected integer")

-- the site, the edge and its label fit the kind of a metric
unfoldable pub is_identity : MetricKind → String → ℤ → String → Bool
unfolding int_eq is_site_id
is_identity function site_id edge label = site_id == "" && int_eq edge (negsuc 0) && label == ""
is_identity statement site_id edge label =
    is_site_id site_id && int_eq edge (negsuc 0) && label == ""
is_identity branch site_id edge label =
    is_site_id site_id
    && (int_eq edge (pos 0) || int_eq edge (pos 1))
    && label == (if int_eq edge (pos 0) then "true" else "false")

unfoldable pub metric_ids : List Metric → List String
metric_ids [] = []
metric_ids (metric ∷ metrics) = metric.metric_id ∷ metric_ids metrics

-- one round over the metrics of a context
unfoldable pub add_metric : Json → List Metric → Json → Result (List Metric)
unfolding require subscript py_eq string_at contains metric_ids is_one_of text_of kind_of integer
    is_identity count_at
add_metric context_id seen metric = do
  record_row ← require metric metric_fields
  parent ← subscript record_row "contextId"
  refuse_if (not (py_eq parent context_id)) "differs from parent"
  metric_id ← string_at record_row "metricId"
  file ← string_at record_row "file"
  function_name ← string_at record_row "function"
  site_id ← string_at record_row "siteId"
  label ← string_at record_row "edgeLabel"
  refuse_if (metric_id == "") "expected nonempty string"
  refuse_if (contains metric_id (metric_ids seen)) "duplicate metricId"
  kind_value ← subscript record_row "kind"
  known ← is_one_of kind_value ("function" ∷ "statement" ∷ "branch" ∷ [])
  refuse_if (not known) "invalid"
  kind_name ← text_of kind_value
  kind ← kind_of kind_name
  edge_value ← subscript record_row "edgeIndex"
  edge ← integer edge_value
  refuse_if (not (is_identity kind site_id edge label)) "invalid metric identity"
  hits ← count_at record_row "hits"
  refuse_if (ltb hits 1) "stored metrics require observed hits"
  ok (
      seen
      ++ record {
        metric_id = metric_id;
        kind = kind;
        file = file;
        function_name = function_name;
        site_id = site_id;
        edge_index = edge;
        edge_label = label;
        hits = hits;
      }
        ∷ [])

abbrev pub context_fields : List String
context_fields =
    "contextId" ∷ "kind" ∷ "testId" ∷ "attempt" ∷ "suite" ∷ "description" ∷ "file" ∷ "metrics" ∷ []

unfoldable pub validate_context : Bool → Json → Result Context
unfolding require string_at subscript is_one_of text_of count_at is_list iterate fold_m add_metric
validate_context by_test context = do
  item ← require context context_fields
  context_id ← string_at item "contextId"
  refuse_if (context_id == "") "expected nonempty string"
  kind_value ← subscript item "kind"
  known ← is_one_of kind_value ("test" ∷ "attempt" ∷ "unattributed" ∷ "overflow" ∷ [])
  refuse_if (not known) "invalid"
  kind ← text_of kind_value
  attempt ← count_at item "attempt"
  refuse_if (kind == "attempt" && ltb attempt 1) "attempt context requires positive number"
  refuse_if (by_test && kind == "attempt") "attempt context in test-detail measurement"
  member ← subscript item "metrics"
  refuse_if (not (is_list member)) "expected array"
  rows ← iterate member
  metrics ← fold_m (add_metric (str context_id)) [] rows
  ok record { context_id = context_id; kind = kind; metrics = metrics }
