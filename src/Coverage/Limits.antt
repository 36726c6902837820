-- ===== src/Coverage/Limits.antt =====
-- What contexts are that validate_context_measurement accepts: sorted, within the limits.
use mathlib.Core.Path.{subst}
use resq.Base.{
  eq_true_of_not, string_eq, list_eq, ℕ, ◌≤◌, Bool, true, false, not, List, [], ◌∷◌, some, ◌≡◌, ap,
  ◌∙◌, length, distinct, str_le,
}
use resq.Base.Sorting.{sort}
use resq.Py.Value.{Json, nat, bool}
use resq.Py.Result.{ok, through, past, ok-injective}
use resq.Py.Access.{subscript, iterate, is_list}
use resq.Py.Fields.{member, rows_of, subscript-eq-ok}
use resq.Py.Rows.{rows_of-list}
use resq.Py.Equal.{is_nat, is_text}
use resq.Py.Checks.{is_one_of}
use resq.Py.Dict.{keys}
use resq.Coverage.Summary.{items}
use resq.Py.Loops.{each, map_m}
use resq.Coverage.{require, count_at, flag_at}
use resq.Coverage.Reads.{count_at-eq-ok, flag_at-eq-ok, require-same}
use resq.Coverage.Functions.{count_where, check_stated}
use resq.Coverage.Contexts.{Context, validate_context}
use resq.Coverage.Measurement.{
  context_ids, all_metrics, is_normal, expected_totals, check_stored, validate_context_summary,
  check_truncated, measurement_fields, validate_context_measurement, summary_fields,
  check_summary_member,
}

-- sorted and unique, none when not enabled, and not more than the limits
abbrev pub IsBounded : Json → List Context → Type 0
IsBounded x contexts =
    (enabled : Bool) × (context_limit : ℕ) × (entry_limit : ℕ) × (member x "enabled"
      ≡ some (bool enabled))
    × (member x "contextLimit" ≡ some (nat context_limit))
    × (member x "entryLimit" ≡ some (nat entry_limit))
    × (context_ids contexts ≡ sort str_le (context_ids contexts))
    × (distinct (context_ids contexts) ≡ true)
    × (enabled ≡ false → length contexts ≡ 0)
    × (count_where is_normal contexts ≤ context_limit)
    × (length (all_metrics contexts) ≤ entry_limit)

validate_context_summary-member :
    (x : Json) {s : Json} → validate_context_summary x ≡ ok s → member x "summary" ≡ some s
unfolding validate_context_summary
validate_context_summary-member x h = through (subscript x "summary") _ h λ m at h₁.
    through (require m summary_fields) _ h₁ λ s same h₂.
      through (each (check_summary_member s) (keys (items s))) _ h₂ λ _ _ h₃.
        through (flag_at s "truncated") _ h₃ λ _ _ h₄.
          subscript-eq-ok x "summary" at ∙ ap some (require-same m _ same ∙ ok-injective h₄)

-- what the measurement's checks went through
abbrev pub MeasurementParts : Json → List Context → Type 0
MeasurementParts x contexts =
    (enabled : Bool) × (context_limit : ℕ) × (entry_limit : ℕ) × (summary : Json) × (detail : Json)
    × (rows : List Json) × (member x "enabled" ≡ some (bool enabled))
    × (member x "contextLimit" ≡ some (nat context_limit))
    × (member x "entryLimit" ≡ some (nat entry_limit))
    × (member x "summary" ≡ some summary)
    × (rows_of (member x "contexts") ≡ rows)
    × (map_m (validate_context (is_text detail "test")) rows ≡ ok contexts)
    × (check_stored contexts enabled context_limit entry_limit ≡ ok tt)
    × (each (check_stated summary) (expected_totals contexts) ≡ ok tt)

pub measurement_parts :
    (x : Json) (contexts : List Context)
    → validate_context_measurement x ≡ ok contexts
    → MeasurementParts x contexts
unfolding validate_context_measurement
measurement_parts x contexts h = through (require x measurement_fields) _ h λ value same h₁.
    through (subscript value "schemaVersion") _ h₁ λ version _ h₂.
      past (not (is_nat version 1)) _ _ h₂ λ _ h₃.
        through (flag_at value "enabled") _ h₃ λ enabled en h₄.
          through (subscript value "detail") _ h₄ λ detail _ h₅.
            through (is_one_of detail ("test" ∷ "attempt" ∷ [])) _ h₅ λ known _ h₆.
              past (not known) _ _ h₆ λ _ h₇.
                through (count_at value "contextLimit") _ h₇ λ cl c h₈.
                  through (count_at value "entryLimit") _ h₈ λ el e h₉.
                    through (validate_context_summary value) _ h₉ λ summary s h₁₀.
                      through (subscript value "contexts") _ h₁₀ λ m at h₁₁.
                        past (not (is_list m)) _ _ h₁₁ λ l h₁₂.
                          through (iterate m) _ h₁₂ λ rows i h₁₃.
                            through (map_m (validate_context (is_text detail "test")) rows) _ h₁₃
                              λ cs f h₁₄. through (check_stored cs enabled cl el) _ h₁₄ λ _ k h₁₅.
                                through (each (check_stated summary) (expected_totals cs)) _ h₁₅
                                  λ _ t h₁₆. through (check_truncated summary) _ h₁₆ λ _ _ h₁₇.
                                    rw (require-same x _ same) (
                                      subst (MeasurementParts value) (ok-injective h₁₇) (
                                        enabled,
                                        cl,
                                        el,
                                        summary,
                                        detail,
                                        rows,
                                        flag_at-eq-ok value _ en,
                                        count_at-eq-ok value _ c,
                                        count_at-eq-ok value _ e,
                                        validate_context_summary-member value s,
                                        ap rows_of (subscript-eq-ok value "contexts" at)
                                            ∙ rows_of-list m (eq_true_of_not _ l) i,
                                        f,
                                        k,
                                        t,
                                      ))
