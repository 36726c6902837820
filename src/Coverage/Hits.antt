-- ===== src/Coverage/Hits.antt =====
-- What the summary of contexts states that validate_context_measurement accepts.
use mathlib.Core.Path.{subst}
use resq.Base.{
  string_eq, ℕ, ◌+◌, ◌≤◌, String, Bool, not, ◌||◌, List, [], ◌∷◌, All, some, ◌==◌, ◌≡◌, refl, ap,
  length, if◌then◌else◌,
}
use resq.Py.Value.{Json}
use resq.Py.Result.{ok}
use resq.Py.Equal.{is_text}
use resq.Py.Fields.{member, rows_of}
use resq.Py.Loops.{Pointwise, map_m-Pointwise, map_m-All}
use resq.Py.Rows.{
  items_of, natural_of, natural_at, says, number_of, total_of, length-Pointwise, Pointwise-append,
}
use resq.Coverage.Contexts.{
  MetricKind, function, statement, branch, Metric, Context, validate_context,
}
use resq.Coverage.Measurement.{
  all_metrics, is_normal, metric_hits, function_hits, statement_hits, branch_hits,
  unattributed_hits, expected_totals, validate_context_measurement,
}
use resq.Coverage.Observed.{
  IsObserved, all_metrics-IsObserved, length-le-hits, hits_by_kind, validate_context-IsObserved,
}
use resq.Coverage.Limits.{measurement_parts}
use resq.Coverage.Parts.{IsStated, each-IsStated}
use resq.Coverage.Found.{kind_name}
use resq.Coverage.Found.Counts.{number_of-where, total_of-sum}
use resq.Coverage.Found.Contexts.{MetricRead, ContextRead, validate_context-ContextRead}

-- the hits of a metric, and those of one kind
abbrev pub hits_at : Json → ℕ
hits_at metric = natural_at metric "hits"

abbrev pub hits_of : String → Json → ℕ
hits_of kind metric = if says metric "kind" kind then hits_at metric else 0

-- a context of a test or of an attempt
abbrev pub is_attributed : Json → Bool
is_attributed context = not (says context "kind" "unattributed" || says context "kind" "overflow")

-- the hits of a context that is not attributed
abbrev pub unattributed_at : Json → ℕ
unattributed_at context =
    if says context "kind" "unattributed"
    then total_of hits_at (rows_of (member context "metrics"))
    else 0

-- the totals of the contexts of a document
abbrev pub context_totals : List Json → List (String × ℕ)
context_totals contexts =
    let metrics = items_of "metrics" contexts in
    ("contextsStored", number_of is_attributed contexts)
    ∷ ("metricEntriesStored", length metrics)
    ∷ ("functionHits", total_of (hits_of "function") metrics)
    ∷ ("statementHits", total_of (hits_of "statement") metrics)
    ∷ ("branchHits", total_of (hits_of "branch") metrics)
    ∷ ("unattributedHits", total_of unattributed_at contexts)
    ∷ []

pub metrics_of :
    (xs : List Json) (contexts : List Context)
    → Pointwise ContextRead xs contexts
    → Pointwise MetricRead (items_of "metrics" xs) (all_metrics contexts)
unfolding all_metrics
metrics_of [] [] h = tt
metrics_of (x ∷ xs) (c ∷ cs) h =
    Pointwise-append MetricRead (rows_of (member x "metrics")) (items_of "metrics" xs) c.metrics
      (all_metrics cs) h.0.metrics (metrics_of xs cs h.1)
metrics_of [] (c ∷ cs) h = absurd h
metrics_of (x ∷ xs) [] h = absurd h

metric_hit : (x : Json) (m : Metric) → MetricRead x m → hits_at x ≡ metric_hits m
unfolding metric_hits
metric_hit x m h = ap natural_of h.found.hits

function_hit : (x : Json) (m : Metric) → MetricRead x m → hits_of "function" x ≡ function_hits m
unfolding function_hits
function_hit x m h = rw (h.found.kind, h.found.hits) (by_kind m.kind m.hits)
  where
    by_kind :
        (k : MetricKind) (n : ℕ)
        → (if kind_name k == "function" then n else 0) ≡ elim k [ function ↦ n | _ ↦ 0 ]
    by_kind function n = refl
    by_kind statement n = refl
    by_kind branch n = refl

statement_hit : (x : Json) (m : Metric) → MetricRead x m → hits_of "statement" x ≡ statement_hits m
unfolding statement_hits
statement_hit x m h = rw (h.found.kind, h.found.hits) (by_kind m.kind m.hits)
  where
    by_kind :
        (k : MetricKind) (n : ℕ)
        → (if kind_name k == "statement" then n else 0) ≡ elim k [ statement ↦ n | _ ↦ 0 ]
    by_kind function n = refl
    by_kind statement n = refl
    by_kind branch n = refl

branch_hit : (x : Json) (m : Metric) → MetricRead x m → hits_of "branch" x ≡ branch_hits m
unfolding branch_hits
branch_hit x m h = rw (h.found.kind, h.found.hits) (by_kind m.kind m.hits)
  where
    by_kind :
        (k : MetricKind) (n : ℕ)
        → (if kind_name k == "branch" then n else 0) ≡ elim k [ branch ↦ n | _ ↦ 0 ]
    by_kind function n = refl
    by_kind statement n = refl
    by_kind branch n = refl

unattributed_hit :
    (x : Json) (c : Context) → ContextRead x c → unattributed_at x ≡ unattributed_hits c
unfolding unattributed_hits
unattributed_hit x c h =
    rw
      (
        h.kind,
        total_of-sum MetricRead hits_at metric_hits metric_hit (rows_of (member x "metrics"))
            c.metrics h.metrics,
      )
      refl

expected-totals :
    (xs : List Json) (contexts : List Context)
    → Pointwise ContextRead xs contexts
    → expected_totals contexts ≡ context_totals xs
unfolding expected_totals is_normal
expected-totals xs cs h =
    let ms = metrics_of xs cs h in
    let rows = items_of "metrics" xs in
    rw
      (
        number_of-where ContextRead is_attributed is_normal (λ x y k. rw k.kind refl) xs cs h,
        length-Pointwise MetricRead rows (all_metrics cs) ms,
        total_of-sum MetricRead (hits_of "function") function_hits function_hit rows
            (all_metrics cs) ms,
        total_of-sum MetricRead (hits_of "statement") statement_hits statement_hit rows
            (all_metrics cs) ms,
        total_of-sum MetricRead (hits_of "branch") branch_hits branch_hit rows (all_metrics cs) ms,
        total_of-sum ContextRead unattributed_at unattributed_hits unattributed_hit xs cs h,
      )
      refl

-- the contexts that were read are those of the document
pub contexts_read :
    (x : Json) (contexts : List Context)
    → validate_context_measurement x ≡ ok contexts
    → Pointwise ContextRead (rows_of (member x "contexts")) contexts
contexts_read x contexts h =
    let (_, _, _, _, detail, rows, _, _, _, _, is_rows, f, _, _) = measurement_parts x contexts h in
    rw is_rows (
      map_m-Pointwise ContextRead (validate_context (is_text detail "test"))
        (validate_context-ContextRead (is_text detail "test")) rows contexts f)

-- what the summary of the contexts of a document states
abbrev pub IsCounted : Json → Type 0
IsCounted x =
    let contexts = rows_of (member x "contexts") in
    let metrics = items_of "metrics" contexts in
    (summary : Json) × (member x "summary" ≡ some summary)
    × All (IsStated summary) (context_totals contexts)
    × (total_of (hits_of "function") metrics
          + total_of (hits_of "statement") metrics
          + total_of (hits_of "branch") metrics
        ≡ total_of hits_at metrics)
    × (length metrics ≤ total_of hits_at metrics)

-- If validate_context_measurement returns, the summary states the number of the contexts of
-- tests and attempts, the number of the metrics of all contexts, the hits of the metrics of
-- functions, of statements and of branches, and the hits of the metrics of the unattributed
-- contexts; the hits of the three kinds are all hits, and there are at least as many hits as
-- metrics.
pub validate_context_measurement-IsCounted :
    (x : Json) (contexts : List Context)
    → validate_context_measurement x ≡ ok contexts
    → IsCounted x
validate_context_measurement-IsCounted x contexts h =
    let (_, _, _, summary, detail, rows, _, _, _, s, _, f, _, t) = measurement_parts x contexts h in
    let xs = rows_of (member x "contexts") in
    let read = contexts_read x contexts h in
    let ms = metrics_of xs contexts read in
    let metrics = items_of "metrics" xs in
    let observed = all_metrics-IsObserved contexts (
      map_m-All (λ c. All IsObserved (c.metrics)) (validate_context (is_text detail "test"))
        (validate_context-IsObserved (is_text detail "test")) rows contexts f) in
    (
      summary,
      s,
      subst (All (IsStated summary)) (expected-totals xs contexts read)
          (each-IsStated summary (expected_totals contexts) t),
      rw
          (
            total_of-sum MetricRead (hits_of "function") function_hits function_hit metrics
                (all_metrics contexts) ms,
            total_of-sum MetricRead (hits_of "statement") statement_hits statement_hit metrics
                (all_metrics contexts) ms,
            total_of-sum MetricRead (hits_of "branch") branch_hits branch_hit metrics
                (all_metrics contexts) ms,
            total_of-sum MetricRead hits_at metric_hits metric_hit metrics (all_metrics contexts)
                ms,
          )
          (hits_by_kind (all_metrics contexts)),
      rw
          (
            length-Pointwise MetricRead metrics (all_metrics contexts) ms,
            total_of-sum MetricRead hits_at metric_hits metric_hit metrics (all_metrics contexts)
                ms,
          )
          (length-le-hits (all_metrics contexts) observed),
    )
