-- ===== src/Coverage/Found/Contexts.antt =====
-- tools/coverage_contract.py: what the loops over contexts and their metrics read.
use resq.Base.{
  string_eq, list_eq, String, Bool, true, not, ◌&&◌, List, [], ◌∷◌, ◌++◌, ◌==◌, some, ◌≡◌, sym, ap,
  ◌∙◌, ltb, contains, eq_true_of_not, eq_iff, Bool-cases, inl, inr,
}
use resq.Py.Value.{Json, str}
use resq.Py.Result.{ok, through, past, ok-injective, err-ne-ok}
use resq.Py.Access.{subscript, is_list, iterate, text_of}
use resq.Py.Equal.{py_eq}
use resq.Py.Fields.{member, rows_of, subscript-eq-ok}
use resq.Py.Checks.{is_one_of}
use resq.Py.Loops.{fold_m, Pointwise}
use resq.Py.Rows.{rows_of-list, fold_m-rows}
use resq.Coverage.{require, count_at}
use resq.Coverage.Reads.{count_at-eq-ok, require-same}
use resq.Coverage.Functions.{string_at}
use resq.Coverage.Contexts.{
  MetricKind, Metric, Context, add_metric, validate_context, metric_fields, context_fields,
  metric_ids, kind_of, integer, is_identity,
}
use resq.Coverage.Found.{MetricFound, kind_name, text_of-eq-ok}
use resq.Coverage.Found.Sites.{string_at-eq-ok}

kind_of-eq-ok : (name : String) {k : MetricKind} → kind_of name ≡ ok k → name ≡ kind_name k
unfolding kind_of
kind_of-eq-ok name h = elim (Bool-cases (name == "function")) [
  | inl e ↦ (eq_iff name "function").0 e ∙ ap kind_name (ok-injective (rw e at h))
  | inr e ↦
      let h₁ = rw e at h in
      elim (Bool-cases (name == "statement")) [
        | inl e' ↦ (eq_iff name "statement").0 e' ∙ ap kind_name (ok-injective (rw e' at h₁))
        | inr e' ↦
            let h₂ = rw e' at h₁ in
            elim (Bool-cases (name == "branch")) [
              | inl e'' ↦ (eq_iff name "branch").0 e'' ∙ ap kind_name (ok-injective (rw e'' at h₂))
              | inr e'' ↦ absurd (err-ne-ok (rw e'' at h₂))
            ]
      ]
]

-- what was read of a metric, whose identity fits its kind
pub record MetricRead (row : Json) (metric : Metric) : Type 0 where
  pub found : MetricFound row metric
  pub fits : is_identity metric.kind metric.site_id metric.edge_index metric.edge_label ≡ true

add_metric-MetricRead :
    (id : Json) (seen : List Metric) (x : Json) (after : List Metric)
    → add_metric id seen x ≡ ok after
    → (metric : Metric) × (after ≡ seen ++ metric ∷ []) × MetricRead x metric
unfolding add_metric
add_metric-MetricRead id seen x after h = through (require x metric_fields) _ h λ row same h₁.
    through (subscript row "contextId") _ h₁ λ parent _ h₂.
      past (not (py_eq parent id)) _ _ h₂ λ _ h₃.
        through (string_at row "metricId") _ h₃ λ metric_id _ h₄.
          through (string_at row "file") _ h₄ λ file a h₅.
            through (string_at row "function") _ h₅ λ name b h₆.
              through (string_at row "siteId") _ h₆ λ site c h₇.
                through (string_at row "edgeLabel") _ h₇ λ label d h₈.
                  past (metric_id == "") _ _ h₈ λ _ h₉.
                    past (contains metric_id (metric_ids seen)) _ _ h₉ λ _ h₁₀.
                      through (subscript row "kind") _ h₁₀ λ kv e h₁₁.
                        through (is_one_of kv ("function" ∷ "statement" ∷ "branch" ∷ [])) _ h₁₁
                          λ known _ h₁₂. past (not known) _ _ h₁₂ λ _ h₁₃.
                            through (text_of kv) _ h₁₃ λ kn f h₁₄.
                              through (kind_of kn) _ h₁₄ λ kind g h₁₅.
                                through (subscript row "edgeIndex") _ h₁₅ λ ev _ h₁₆.
                                  through (integer ev) _ h₁₆ λ edge _ h₁₇.
                                    past (not (is_identity kind site edge label)) _ _ h₁₇
                                      λ fits h₁₈. through (count_at row "hits") _ h₁₈ λ hits k h₁₉.
                                        past (ltb hits 1) _ _ h₁₉ λ _ h₂₀.
                                          rw (require-same x _ same) (
                                            _,
                                            sym (ok-injective h₂₀),
                                            record {
                                              found = record {
                                                kind =
                                                    subscript-eq-ok row "kind" e
                                                    ∙ ap some (
                                                        text_of-eq-ok kv f
                                                        ∙ ap str (kind_of-eq-ok kn g));
                                                file = string_at-eq-ok row "file" a;
                                                function_name = string_at-eq-ok row "function" b;
                                                site_id = string_at-eq-ok row "siteId" c;
                                                edge_label = string_at-eq-ok row "edgeLabel" d;
                                                hits = count_at-eq-ok row "hits" k;
                                              };
                                              fits = eq_true_of_not _ fits;
                                            },
                                          )

-- what was read of a context
pub record ContextRead (row : Json) (context : Context) : Type 0 where
  pub kind : member row "kind" ≡ some (str context.kind)
  pub metrics : Pointwise MetricRead (rows_of (member row "metrics")) context.metrics

pub validate_context-ContextRead :
    (by_test : Bool) (x : Json) (context : Context)
    → validate_context by_test x ≡ ok context
    → ContextRead x context
unfolding validate_context
validate_context-ContextRead by_test x context h =
    through (require x context_fields) _ h λ item same h₁.
      through (string_at item "contextId") _ h₁ λ id _ h₂. past (id == "") _ _ h₂ λ _ h₃.
        through (subscript item "kind") _ h₃ λ kv a h₄.
          through (is_one_of kv ("test" ∷ "attempt" ∷ "unattributed" ∷ "overflow" ∷ [])) _ h₄
            λ known _ h₅. past (not known) _ _ h₅ λ _ h₆. through (text_of kv) _ h₆ λ kind b h₇.
              through (count_at item "attempt") _ h₇ λ attempt _ h₈.
                past (kind == "attempt" && ltb attempt 1) _ _ h₈ λ _ h₉.
                  past (by_test && kind == "attempt") _ _ h₉ λ _ h₁₀.
                    through (subscript item "metrics") _ h₁₀ λ m c h₁₁.
                      past (not (is_list m)) _ _ h₁₁ λ l h₁₂.
                        through (iterate m) _ h₁₂ λ rows i h₁₃.
                          through (fold_m (add_metric (str id)) [] rows) _ h₁₃ λ metrics e h₁₄.
                            rw (require-same x _ same, ← (ok-injective h₁₄))
                              (record {
                                kind = subscript-eq-ok item "kind" a ∙ ap some (text_of-eq-ok kv b);
                                metrics =
                                    rw
                                      (
                                        subscript-eq-ok item "metrics" c,
                                        rows_of-list m (eq_true_of_not _ l) i,
                                      )
                                      (fold_m-rows MetricRead (add_metric (str id))
                                        (add_metric-MetricRead (str id)) rows metrics e);
                              })
