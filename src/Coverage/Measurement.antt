-- ===== src/Coverage/Measurement.antt =====
-- tools/coverage_contract.py: validate_context_measurement.
use resq.Base.{
  string_eq, ℕ, String, Bool, not, ◌&&◌, ◌||◌, List, [], ◌∷◌, ◌++◌, ◌==◌, length, nat_eq, bool_eq,
  ltb, distinct, if◌then◌else◌, str_le, list_eq,
}
use resq.Base.Sorting.{sort}
use resq.Py.Value.{Json}
use resq.Py.Result.{Result, ok, ◌>>=◌, ◌>>◌}
use resq.Py.Dict.{keys}
use resq.Py.Access.{subscript, iterate, is_list}
use resq.Py.Equal.{is_nat, is_text}
use resq.Py.Checks.{refuse_if, is_one_of}
use resq.Py.Loops.{each, map_m}
use resq.Coverage.{require, count_at, flag_at}
use resq.Coverage.Summary.{items, check_count}
use resq.Coverage.Functions.{sum_of, count_where, check_stated}
use resq.Coverage.Contexts.{function, statement, branch, Metric, Context, validate_context}

unfoldable pub context_ids : List Context → List String
context_ids [] = []
context_ids (context ∷ contexts) = context.context_id ∷ context_ids contexts

unfoldable pub all_metrics : List Context → List Metric
all_metrics [] = []
all_metrics (context ∷ contexts) = context.metrics ++ all_metrics contexts

unfoldable pub is_normal : Context → Bool
is_normal context = not (context.kind == "unattributed" || context.kind == "overflow")

unfoldable pub metric_hits : Metric → ℕ
metric_hits metric = metric.hits

unfoldable pub function_hits : Metric → ℕ
function_hits metric = elim (metric.kind) [ function ↦ metric.hits | _ ↦ 0 ]

unfoldable pub statement_hits : Metric → ℕ
statement_hits metric = elim (metric.kind) [ statement ↦ metric.hits | _ ↦ 0 ]

unfoldable pub branch_hits : Metric → ℕ
branch_hits metric = elim (metric.kind) [ branch ↦ metric.hits | _ ↦ 0 ]

unfoldable pub unattributed_hits : Context → ℕ
unfolding sum_of metric_hits
unattributed_hits context =
    if context.kind == "unattributed" then sum_of metric_hits (context.metrics) else 0

-- the totals that the summary states
unfoldable pub expected_totals : List Context → List (String × ℕ)
unfolding count_where sum_of is_normal all_metrics function_hits statement_hits branch_hits
    unattributed_hits
expected_totals contexts =
    ("contextsStored", count_where is_normal contexts)
    ∷ ("metricEntriesStored", length (all_metrics contexts))
    ∷ ("functionHits", sum_of function_hits (all_metrics contexts))
    ∷ ("statementHits", sum_of statement_hits (all_metrics contexts))
    ∷ ("branchHits", sum_of branch_hits (all_metrics contexts))
    ∷ ("unattributedHits", sum_of unattributed_hits contexts)
    ∷ []

abbrev pub summary_fields : List String
summary_fields =
    "contextsStored" ∷ "metricEntriesStored" ∷ "functionHits" ∷ "statementHits" ∷ "branchHits"
    ∷ "unattributedHits" ∷ "overflowActivations" ∷ "droppedMetricHits" ∷ "truncated" ∷ []

-- every member but the flag is a count
unfoldable pub check_summary_member : Json → String → Result (Unit {0})
unfolding check_count
check_summary_member summary name = if name == "truncated" then ok tt else check_count summary name

unfoldable pub validate_context_summary : Json → Result Json
unfolding subscript require each check_summary_member keys items flag_at
validate_context_summary measurement = do
  member ← subscript measurement "summary"
  summary ← require member summary_fields
  each (check_summary_member summary) (keys (items summary))
  flag ← flag_at summary "truncated"
  ok summary

unfoldable pub check_truncated : Json → Result (Unit {0})
unfolding count_at flag_at
check_truncated summary = do
  activations ← count_at summary "overflowActivations"
  dropped ← count_at summary "droppedMetricHits"
  truncated ← flag_at summary "truncated"
  refuse_if (not (bool_eq truncated (ltb 0 activations || ltb 0 dropped)))
      "disagrees with loss counters"

-- the identities are sorted and unique, and the limits are kept
unfoldable pub check_stored : List Context → Bool → ℕ → ℕ → Result (Unit {0})
unfolding context_ids distinct sort str_le count_where is_normal all_metrics
check_stored contexts enabled context_limit entry_limit = do
  refuse_if
      (not (context_ids contexts == sort str_le (context_ids contexts))
        || not (distinct (context_ids contexts)))
      "identities must be unique and sorted"
  refuse_if (not enabled && not (nat_eq (length contexts) 0))
      "disabled measurement must not retain contexts"
  refuse_if
      (ltb context_limit (count_where is_normal contexts)
        || ltb entry_limit (length (all_metrics contexts)))
      "configured storage limits exceeded"

abbrev pub measurement_fields : List String
measurement_fields =
    "schemaVersion" ∷ "enabled" ∷ "detail" ∷ "contextLimit" ∷ "entryLimit" ∷ "summary" ∷ "contexts"
    ∷ []

-- It returns the contexts; the metrics are those of all of them.
unfoldable pub validate_context_measurement : Json → Result (List Context)
unfolding require subscript is_nat flag_at is_one_of count_at validate_context_summary is_list
    iterate map_m validate_context is_text check_stored each check_stated expected_totals
    check_truncated
validate_context_measurement value = do
  measurement ← require value measurement_fields
  version ← subscript measurement "schemaVersion"
  refuse_if (not (is_nat version 1)) "unsupported"
  enabled ← flag_at measurement "enabled"
  detail ← subscript measurement "detail"
  known ← is_one_of detail ("test" ∷ "attempt" ∷ [])
  refuse_if (not known) "invalid"
  context_limit ← count_at measurement "contextLimit"
  entry_limit ← count_at measurement "entryLimit"
  summary ← validate_context_summary measurement
  member ← subscript measurement "contexts"
  refuse_if (not (is_list member)) "expected array"
  rows ← iterate member
  contexts ← map_m (validate_context (is_text detail "test")) rows
  check_stored contexts enabled context_limit entry_limit
  each (check_stated summary) (expected_totals contexts)
  check_truncated summary
  ok contexts
