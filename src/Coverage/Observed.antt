-- ===== src/Coverage/Observed.antt =====
-- tools/coverage_contract.py: the hits of the metrics that validate_context accepts.
use mathlib.Core.Path.{subst}
use resq.Base.{
  string_eq, list_eq, ℕ, ◌+◌, ◌≤◌, Bool, false, not, ◌&&◌, List, [], ◌∷◌, All, ◌==◌, ◌≡◌, arith,
  ltb, length, contains, All-append,
}
use resq.Py.Value.{Json, str}
use resq.Py.Result.{ok, through, past, ok-injective}
use resq.Py.Access.{subscript, iterate, is_list, text_of}
use resq.Py.Equal.{py_eq}
use resq.Py.Checks.{is_one_of}
use resq.Py.Loops.{fold_m, fold_m_inv}
use resq.Coverage.{require, count_at}
use resq.Coverage.Functions.{sum_of, string_at}
use resq.Coverage.Contexts.{
  MetricKind, function, statement, branch, Metric, Context, add_metric, validate_context,
  metric_fields, context_fields, metric_ids, kind_of, integer, is_identity,
}
use resq.Coverage.Measurement.{all_metrics, metric_hits, function_hits, statement_hits, branch_hits}

-- a stored metric has been hit
abbrev pub IsObserved : Metric → Type 0
IsObserved metric = ltb (metric.hits) 1 ≡ false

add_metric-IsObserved :
    (id : Json) (seen : List Metric) (x : Json) (after : List Metric)
    → All IsObserved seen
    → add_metric id seen x ≡ ok after
    → All IsObserved after
unfolding add_metric
add_metric-IsObserved id seen x after before h = through (require x metric_fields) _ h λ row _ h₁.
    through (subscript row "contextId") _ h₁ λ parent _ h₂.
      past (not (py_eq parent id)) _ _ h₂ λ _ h₃.
        through (string_at row "metricId") _ h₃ λ metric_id _ h₄.
          through (string_at row "file") _ h₄ λ file _ h₅.
            through (string_at row "function") _ h₅ λ name _ h₆.
              through (string_at row "siteId") _ h₆ λ site _ h₇.
                through (string_at row "edgeLabel") _ h₇ λ label _ h₈.
                  past (metric_id == "") _ _ h₈ λ _ h₉.
                    past (contains metric_id (metric_ids seen)) _ _ h₉ λ _ h₁₀.
                      through (subscript row "kind") _ h₁₀ λ kv _ h₁₁.
                        through (is_one_of kv ("function" ∷ "statement" ∷ "branch" ∷ [])) _ h₁₁
                          λ known _ h₁₂. past (not known) _ _ h₁₂ λ _ h₁₃.
                            through (text_of kv) _ h₁₃ λ kn _ h₁₄.
                              through (kind_of kn) _ h₁₄ λ kind _ h₁₅.
                                through (subscript row "edgeIndex") _ h₁₅ λ ev _ h₁₆.
                                  through (integer ev) _ h₁₆ λ edge _ h₁₇.
                                    past (not (is_identity kind site edge label)) _ _ h₁₇ λ _ h₁₈.
                                      through (count_at row "hits") _ h₁₈ λ hits _ h₁₉.
                                        past (ltb hits 1) _ _ h₁₉ λ observed h₂₀.
                                          subst (All IsObserved) (ok-injective h₂₀)
                                            (All-append IsObserved seen _ before (observed, tt))

pub validate_context-IsObserved :
    (by_test : Bool) (x : Json) (context : Context)
    → validate_context by_test x ≡ ok context
    → All IsObserved (context.metrics)
unfolding validate_context
validate_context-IsObserved by_test x context h =
    through (require x context_fields) _ h λ item _ h₁.
      through (string_at item "contextId") _ h₁ λ id _ h₂. past (id == "") _ _ h₂ λ _ h₃.
        through (subscript item "kind") _ h₃ λ kv _ h₄.
          through (is_one_of kv ("test" ∷ "attempt" ∷ "unattributed" ∷ "overflow" ∷ [])) _ h₄
            λ known _ h₅. past (not known) _ _ h₅ λ _ h₆. through (text_of kv) _ h₆ λ kind _ h₇.
              through (count_at item "attempt") _ h₇ λ attempt _ h₈.
                past (kind == "attempt" && ltb attempt 1) _ _ h₈ λ _ h₉.
                  past (by_test && kind == "attempt") _ _ h₉ λ _ h₁₀.
                    through (subscript item "metrics") _ h₁₀ λ m _ h₁₁.
                      past (not (is_list m)) _ _ h₁₁ λ _ h₁₂.
                        through (iterate m) _ h₁₂ λ rows _ h₁₃.
                          through (fold_m (add_metric (str id)) [] rows) _ h₁₃ λ metrics e h₁₄.
                            subst (λ c. All IsObserved (c.metrics)) (ok-injective h₁₄)
                              (fold_m_inv (All IsObserved) (add_metric (str id))
                                (λ seen y after before.
                                  add_metric-IsObserved (str id) seen y after before)
                                [] rows metrics tt e)

pub all_metrics-IsObserved :
    (contexts : List Context)
    → All (λ c. All IsObserved (c.metrics)) contexts
    → All IsObserved (all_metrics contexts)
unfolding all_metrics
all_metrics-IsObserved [] h = tt
all_metrics-IsObserved (c ∷ cs) h =
    All-append IsObserved (c.metrics) (all_metrics cs) h.0 (all_metrics-IsObserved cs h.1)

pub length-le-hits : (ms : List Metric) → All IsObserved ms → length ms ≤ sum_of metric_hits ms
unfolding sum_of metric_hits
length-le-hits [] h = omega arith
length-le-hits (m ∷ ms) h = ground (arith, h.0, length-le-hits ms h.1)

one_kind : (m : Metric) → function_hits m + statement_hits m + branch_hits m ≡ metric_hits m
unfolding function_hits statement_hits branch_hits metric_hits
one_kind m = by_kind (m.kind) (m.hits)
  where
    by_kind :
        (k : MetricKind) (n : ℕ)
        → (elim k [ function ↦ n | _ ↦ 0 ])
            + (elim k [ statement ↦ n | _ ↦ 0 ])
            + (elim k [ branch ↦ n | _ ↦ 0 ])
          ≡ n
    by_kind function n = omega arith
    by_kind statement n = omega arith
    by_kind branch n = omega arith

-- Each hit is one of a function, of a statement or of a branch.
pub hits_by_kind :
    (ms : List Metric)
    → sum_of function_hits ms + sum_of statement_hits ms + sum_of branch_hits ms
      ≡ sum_of metric_hits ms
unfolding sum_of
hits_by_kind [] = omega arith
hits_by_kind (m ∷ ms) = omega (arith, one_kind m, hits_by_kind ms)
