-- ===== src/Reconcile/Inventory.antt =====
-- tools/reconcile_coverage.py with the validator of tools/validate_report.py: what the outcome counts.
use resq.Base.{
  string_eq, ℕ, String, not, List, [], ◌∷◌, some, ◌≡◌, refl, sym, ap, ◌∙◌, length, nat_eq_iff,
  str_le, same_set, some-injective, All,
}
use resq.Base.Sorting.{sort}
use resq.Py.Value.{Json, null, nat, array, object, entries, of_entries}
use resq.Py.Result.{ok, value_error, ok-injective, through, past}
use resq.Py.Dict.{lookup, keys}
use resq.Py.Access.{get_or, subscript, iterate}
use resq.Py.Fields.{member, get-eq-ok, subscript-eq-ok}
use resq.Py.Equal.{py_eq, numbers_eq, number, number_eq, int_eq}
use resq.Py.Loops.{each, each-eq-ok}
use resq.Py.Text.{Runtime}
use resq.Report.Summary.{equal_count, status_count}
use resq.Report.Validate.{validate}
use resq.Report.Agreement.{RowsCounted, validate-counts}
use resq.Reconcile.{
  summary_fields, check_same, check_lanes, check_envelopes, selected_in, rows_by_identity,
  check_rows, reconciliation, reconcile_reports,
}
use resq.Reconcile.Agreement.{IsSame, All-IsSame}

-- equal counts are the same number
same_count :
    (x y : Json) (key : String) (n m : ℕ)
    → IsSame x y key
    → member x key ≡ some (nat n)
    → member y key ≡ some (nat m)
    → n ≡ m
unfolding py_eq numbers_eq number number_eq int_eq
same_count x y key n m (a, b, at, at', same) is_n is_m =
    let is_a = get-eq-ok x key null at ∙ ap (λ o. get_or o null) is_n in
    let is_b = get-eq-ok y key null at' ∙ ap (λ o. get_or o null) is_m in
    (nat_eq_iff n m).0 (rw (is_a, is_b) at same)

-- a subscript gives the member that is there
read_is :
    (x : Json) (key : String) {v w : Json} → subscript x key ≡ ok w → member x key ≡ some v → w ≡ v
read_is x key h at = some-injective (sym (subscript-eq-ok x key h) ∙ at)

-- the counts of an inventory are those of the rows
abbrev pub InventoryCounts : Json → List Json → Type 0
InventoryCounts inventory rows =
    (p : ℕ) × (f : ℕ) × (e : ℕ) × (s : ℕ) × (equal_count "pass" rows ≡ ok p)
    × (equal_count "fail" rows ≡ ok f)
    × (equal_count "error" rows ≡ ok e)
    × (status_count ("skip" ∷ "pending" ∷ []) rows ≡ ok s)
    × (member inventory "tests" ≡ some (nat (length rows)))
    × (member inventory "passes" ≡ some (nat p))
    × (member inventory "failures" ≡ some (nat f))
    × (member inventory "errors" ≡ some (nat e))
    × (member inventory "skips" ≡ some (nat s))

-- an inventory has the counts of a summary
abbrev Copies : Json → Json → Type 0
Copies inventory summary =
    (member inventory "tests" ≡ member summary "testCount")
    × (member inventory "passes" ≡ member summary "passCount")
    × (member inventory "failures" ≡ member summary "failCount")
    × (member inventory "errors" ≡ member summary "errorCount")
    × (member inventory "skips" ≡ member summary "skipCount")

Copies-counts :
    (inventory summary : Json) (rows : List Json)
    → Copies inventory summary
    → RowsCounted summary rows
    → InventoryCounts inventory rows
Copies-counts inventory summary rows (t, p, f, e, s)
      (pass, fail, error, skip, hp, hf, he, hs, mp, mf, me, ms, mt, _) =
    (pass, fail, error, skip, hp, hf, he, hs, t ∙ mt, p ∙ mp, f ∙ mf, e ∙ me, s ∙ ms)

-- two summaries with the same counts
abbrev SameCounts : Json → Json → Type 0
SameCounts summary summary' = All (IsSame summary summary') summary_fields

RowsCounted-transfer :
    (summary summary' : Json) (rows' : List Json) (rows : List Json)
    → SameCounts summary summary'
    → RowsCounted summary rows
    → RowsCounted summary' rows'
    → (inventory : Json) → Copies inventory summary
    → InventoryCounts inventory rows'
RowsCounted-transfer summary summary' rows' rows (_, (st, (_, (sp, (sf, (se, (ss, _)))))))
      (_, _, _, _, _, _, _, _, mp, mf, me, ms, mt, _)
      (p', f', e', s', hp, hf, he, hs, mp', mf', me', ms', mt', _) inventory (t, p, f, e, s) =
    (
      p',
      f',
      e',
      s',
      hp,
      hf,
      he,
      hs,
      t ∙ mt ∙ ap (λ n. some (nat n)) (same_count summary summary' "testCount" _ _ st mt mt'),
      p ∙ mp ∙ ap (λ n. some (nat n)) (same_count summary summary' "passCount" _ _ sp mp mp'),
      f ∙ mf ∙ ap (λ n. some (nat n)) (same_count summary summary' "failCount" _ _ sf mf mf'),
      e ∙ me ∙ ap (λ n. some (nat n)) (same_count summary summary' "errorCount" _ _ se me me'),
      s ∙ ms ∙ ap (λ n. some (nat n)) (same_count summary summary' "skipCount" _ _ ss ms ms'),
    )

copied :
    (s summary : Json) (key : String) {v : Json}
    → s ≡ summary
    → subscript s key ≡ ok v
    → some v ≡ member summary key
copied s summary key same h = sym (subscript-eq-ok s key h) ∙ ap (λ x. member x key) same

module _ ⦃r : Runtime⦄ where
  reconciliation-Copies :
      (correctness coverage summary : Json) {result : Json}
      → reconciliation correctness coverage ≡ ok result
      → member correctness "summary" ≡ some summary
      → (inventory : Json) × (member result "inventory" ≡ some inventory) × Copies inventory summary
  unfolding reconciliation lookup entries of_entries
  reconciliation-Copies correctness coverage summary h at =
      through (subscript correctness "framework") _ h λ framework _ h₁.
        through (subscript correctness "frameworkVersion") _ h₁ λ version _ h₂.
          through (subscript correctness "run") _ h₂ λ run _ h₃.
            through (subscript run "id") _ h₃ λ run_id _ h₄.
              through (subscript coverage "run") _ h₄ λ run' _ h₅.
                through (subscript run' "id") _ h₅ λ run_id' _ h₆.
                  through (subscript correctness "manifest") _ h₆ λ manifest _ h₇.
                    through (subscript manifest "digest") _ h₇ λ digest _ h₈.
                      through (subscript correctness "summary") _ h₈ λ s is_s h₉.
                        through (subscript s "testCount") _ h₉ λ tests t h₁₀.
                          through (subscript s "assertionCount") _ h₁₀ λ assertions _ h₁₁.
                            through (subscript s "passCount") _ h₁₁ λ passes p h₁₂.
                              through (subscript s "failCount") _ h₁₂ λ failures f h₁₃.
                                through (subscript s "errorCount") _ h₁₃ λ errors e h₁₄.
                                  through (subscript s "skipCount") _ h₁₄ λ skips k h₁₅.
                                    let same = read_is correctness "summary" is_s at in
                                    rw (← (ok-injective h₁₅)) (
                                      object (
                                          ("tests", tests)
                                          ∷ ("assertions", assertions)
                                          ∷ ("passes", passes)
                                          ∷ ("failures", failures)
                                          ∷ ("errors", errors)
                                          ∷ ("skips", skips)
                                          ∷ []),
                                      refl,
                                      (
                                        copied s summary "testCount" same t,
                                        copied s summary "passCount" same p,
                                        copied s summary "failCount" same f,
                                        copied s summary "errorCount" same e,
                                        copied s summary "skipCount" same k,
                                      ),
                                    )

  check_envelopes-SameCounts :
      (correctness coverage summary summary' : Json)
      → check_envelopes correctness coverage ≡ ok tt
      → member correctness "summary" ≡ some summary
      → member coverage "summary" ≡ some summary'
      → SameCounts summary summary'
  unfolding check_envelopes
  check_envelopes-SameCounts correctness coverage summary summary' h at at' =
      through
        (each (check_same (value_error "lane differs") correctness coverage)
          ("framework" ∷ "frameworkVersion" ∷ []))
        _ h
        λ _ _ h₁. through (subscript correctness "manifest") _ h₁ λ manifest _ h₂.
          through (subscript coverage "manifest") _ h₂ λ manifest' _ h₃.
            through
              (each (check_same (value_error "lane manifest differs") manifest manifest')
                ("revision" ∷ "digest" ∷ []))
              _ h₃
              λ _ _ h₄. through (selected_in correctness) _ h₄ λ selected _ h₅.
                through (selected_in coverage) _ h₅ λ selected' _ h₆.
                  past (not (py_eq (array selected) (array selected'))) _ _ h₆ λ _ h₇.
                    through (subscript correctness "summary") _ h₇ λ s is_s h₈.
                      through (subscript coverage "summary") _ h₈ λ s' is_s' h₉.
                        rw
                          (
                            ← (read_is correctness "summary" is_s at),
                            ← (read_is coverage "summary" is_s' at'),
                          )
                          (All-IsSame (value_error "lane summary differs") s s' summary_fields (
                            each-eq-ok (check_same (value_error "lane summary differs") s s')
                              summary_fields h₉))

  -- If reconcile_reports returns, with the validate of the reports as its validator, then its
  -- inventory states how many tests each of the two reports has, and how many of them passed,
  -- failed, were erroneous and were skipped, pending ones counted as skipped.
  pub reconcile_reports-counts :
      (correctness coverage result : Json)
      → reconcile_reports validate correctness coverage ≡ ok result
      → (inventory : Json) × (tests : Json) × (tests' : Json) × (rows : List Json) × (rows' : List
          Json)
        × (member result "inventory" ≡ some inventory)
        × (member correctness "tests" ≡ some tests)
        × (member coverage "tests" ≡ some tests')
        × (iterate tests ≡ ok rows)
        × (iterate tests' ≡ ok rows')
        × InventoryCounts inventory rows
        × InventoryCounts inventory rows'
  unfolding reconcile_reports
  reconcile_reports-counts correctness coverage result h =
      through (validate correctness) _ h λ _ valid h₁.
        through (validate coverage) _ h₁ λ _ valid' h₂.
          through (check_lanes correctness coverage) _ h₂ λ _ _ h₃.
            through (check_envelopes correctness coverage) _ h₃ λ _ same h₄.
              through (rows_by_identity correctness) _ h₄ λ left _ h₅.
                through (rows_by_identity coverage) _ h₅ λ right _ h₆.
                  past (not (same_set (keys left) (keys right))) _ _ h₆ λ _ h₇.
                    through (each (check_rows left right) (sort str_le (keys left))) _ h₇ λ _ _ h₈.
                      let (s, t, rows, is_s, is_t, of_t, c) = validate-counts correctness valid in
                      let (s', t', rows', is_s', is_t', of_t', c') =
                        validate-counts coverage valid' in
                      let (inventory, own, copies) =
                        reconciliation-Copies correctness coverage s h₈ is_s in
                      (
                        inventory,
                        t,
                        t',
                        rows,
                        rows',
                        own,
                        is_t,
                        is_t',
                        of_t,
                        of_t',
                        Copies-counts inventory s rows copies c,
                        RowsCounted-transfer s s' rows' rows
                            (check_envelopes-SameCounts correctness coverage s s' same is_s is_s') c
                            c' inventory copies,
                      )
