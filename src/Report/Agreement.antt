-- ===== src/Report/Agreement.antt =====
-- The summary of a report that validate accepts counts its rows.
use resq.Base.{
  string_eq, ℕ, ◌+◌, String, not, List, [], ◌∷◌, none, some, ◌≡◌, refl, ap, ◌∙◌, arith, length,
  nat_eq, nat_eq_iff, eq_true_of_not,
}
use resq.Py.Value.{Json, null, nat, obj, int, pos, negsuc}
use resq.Py.Result.{Exn, ok, err, value_error, raise_if, through, err-ne-ok, raise_if-eq-ok}
use resq.Py.Access.{subscript, iterate}
use resq.Py.Fields.{member, subscript-eq-ok}
use resq.Py.Equal.{py_eq, numbers_eq, number, number_eq, int_eq}
use resq.Py.Hash.{atom_eq}
use resq.Py.Checks.{as_count}
use resq.Py.Arithmetic.{total_from, added}
use resq.Py.Loops.{each, each-eq-ok, map_m}
use resq.Py.Text.{Runtime}
use resq.Coverage.Parts.{IsStated, stated_count}
use resq.Report.{require, expect_nat, expect_count}
use resq.Report.Summary.{
  check_summary, check_sum, check_durations, check_statuses, equal_count, status_count,
  summary_fields, required_counts,
}
use resq.Report.Validate.{validate}
use resq.Report.Accepted.{validate-Accepted}

as_count-eq-ok :
    (v : Json) (e : Exn) {u : Unit {0}}
    → elim (as_count v) [ none ↦ err e | some n ↦ ok tt ] ≡ ok u
    → (n : ℕ) × (v ≡ nat n)
unfolding as_count
as_count-eq-ok (int (pos n)) e h = (n, refl)
as_count-eq-ok (int (negsuc n)) e h = absurd (err-ne-ok h)
as_count-eq-ok null e h = absurd (err-ne-ok h)
as_count-eq-ok _ e h = absurd (err-ne-ok h)

expect_count-eq-ok :
    (x : Json) (name : String)
    → expect_count x name ≡ ok tt
    → (n : ℕ) × (member x name ≡ some (nat n))
unfolding expect_count
expect_count-eq-ok x name h =
    through (subscript x name) _ h λ v e h₁.
      let (n, is_n) = as_count-eq-ok v _ h₁ in (n, subscript-eq-ok x name e ∙ ap some is_n)

expect_nat-IsStated :
    (x : Json) (name : String) (n : ℕ) (message : String) {u : Unit {0}}
    → expect_nat x name n message ≡ ok u
    → IsStated x (name, n)
unfolding expect_nat
expect_nat-IsStated x name n message h =
    through (subscript x name) _ h
      λ v e h₁. (v, subscript-eq-ok x name e, eq_true_of_not _ (raise_if-eq-ok _ _ h₁))

-- a member that is a count and states the number is the number
count_is :
    (x : Json) (name : String) (n : ℕ) (message : String) {u : Unit {0}}
    → expect_count x name ≡ ok tt
    → expect_nat x name n message ≡ ok u
    → member x name ≡ some (nat n)
count_is x name n message c h =
    let (m, at) = expect_count-eq-ok x name c in
    at
    ∙ ap (λ k. some (nat k)) (stated_count x name n m (expect_nat-IsStated x name n message h) at)

pub member-subscript :
    (x : Json) (k : String) {v : Json} → member x k ≡ some v → subscript x k ≡ ok v
unfolding subscript
member-subscript (obj fs) k h = rw h refl
member-subscript null k h = cc
member-subscript _ k h = cc

-- The four counts add up to the number of the rows.
sums_up :
    (summary : Json) (p f e s t : ℕ)
    → member summary "passCount" ≡ some (nat p)
    → member summary "failCount" ≡ some (nat f)
    → member summary "errorCount" ≡ some (nat e)
    → member summary "skipCount" ≡ some (nat s)
    → member summary "testCount" ≡ some (nat t)
    → check_sum summary ≡ ok tt
    → p + f + e + s ≡ t
unfolding check_sum map_m total_from added py_eq numbers_eq number number_eq int_eq
sums_up summary p f e s t hp hf he hs ht h = total (
    rw
      (
        member-subscript summary "passCount" hp,
        member-subscript summary "failCount" hf,
        member-subscript summary "errorCount" he,
        member-subscript summary "skipCount" hs,
        member-subscript summary "testCount" ht,
      )
      at h)
  where
    total :
        (raise_if
            (not (nat_eq t (0 + p + f + e + s)))
            (value_error "summary status counts do not add up"))
          ≡ ok tt
        → p + f + e + s ≡ t
    total k =
        omega
          (arith, (nat_eq_iff t (0 + p + f + e + s)).0 (eq_true_of_not _ (raise_if-eq-ok _ _ k)))

-- what the rows of a report are, by its summary
abbrev pub RowsCounted : Json → List Json → Type 0
RowsCounted summary rows =
    (p : ℕ) × (f : ℕ) × (e : ℕ) × (s : ℕ) × (equal_count "pass" rows ≡ ok p)
    × (equal_count "fail" rows ≡ ok f)
    × (equal_count "error" rows ≡ ok e)
    × (status_count ("skip" ∷ "pending" ∷ []) rows ≡ ok s)
    × (member summary "passCount" ≡ some (nat p))
    × (member summary "failCount" ≡ some (nat f))
    × (member summary "errorCount" ≡ some (nat e))
    × (member summary "skipCount" ≡ some (nat s))
    × (member summary "testCount" ≡ some (nat (length rows)))
    × (p + f + e + s ≡ length rows)

check_statuses-counts :
    (summary : Json) (rows : List Json)
    → expect_count summary "passCount" ≡ ok tt
    → expect_count summary "failCount" ≡ ok tt
    → expect_count summary "errorCount" ≡ ok tt
    → expect_count summary "skipCount" ≡ ok tt
    → member summary "testCount" ≡ some (nat (length rows))
    → check_sum summary ≡ ok tt
    → check_statuses summary rows ≡ ok tt
    → RowsCounted summary rows
unfolding check_statuses
check_statuses-counts summary rows cp cf ce cs t sum h =
    through (equal_count "pass" rows) _ h λ p ep h₁.
      through (equal_count "fail" rows) _ h₁ λ f ef h₂.
        through (equal_count "error" rows) _ h₂ λ e ee h₃.
          through (status_count ("skip" ∷ "pending" ∷ []) rows) _ h₃ λ s es h₄.
            through (expect_nat summary "passCount" p "disagrees with test rows") _ h₄ λ _ np h₅.
              through (expect_nat summary "failCount" f "disagrees with test rows") _ h₅ λ _ nf h₆.
                through (expect_nat summary "errorCount" e "disagrees with test rows") _ h₆
                  λ _ ne ns.
                    let mp = count_is summary "passCount" p _ cp np in
                    let mf = count_is summary "failCount" f _ cf nf in
                    let me = count_is summary "errorCount" e _ ce ne in
                    let ms = count_is summary "skipCount" s _ cs ns in
                    (
                      p,
                      f,
                      e,
                      s,
                      ep,
                      ef,
                      ee,
                      es,
                      mp,
                      mf,
                      me,
                      ms,
                      t,
                      sums_up summary p f e s (length rows) mp mf me ms t sum,
                    )

module _ ⦃r : Runtime⦄ where
  check_summary-RowsCounted :
      (summary : Json) (rows : List Json)
      → check_summary summary rows ≡ ok tt
      → RowsCounted summary rows
  unfolding check_summary
  check_summary-RowsCounted summary rows h = through (require summary required_counts) _ h λ _ _ h₁.
      through (expect_nat summary "testCount" (length rows) "does not match tests length") _ h₁
        λ _ t h₂. through (check_sum summary) _ h₂ λ _ sum h₃.
          through (each (expect_count summary) summary_fields) _ h₃ λ _ counts h₄.
            through (check_durations summary) _ h₄ λ _ _ h₅.
              through (check_statuses summary rows) _ h₅ λ _ statuses _.
                let (_, (tc, (_, (cp, (cf, (ce, (cs, _))))))) =
                  each-eq-ok (expect_count summary) summary_fields counts in
                check_statuses-counts summary rows cp cf ce cs
                  (count_is summary "testCount" (length rows) _ tc t) sum statuses

  -- the rows of a report and its summary
  abbrev pub CountsAgree : Json → Type 0
  CountsAgree x =
      (summary : Json) × (tests : Json) × (rows : List Json) × (member x "summary" ≡ some summary)
      × (member x "tests" ≡ some tests)
      × (iterate tests ≡ ok rows)
      × RowsCounted summary rows

  -- If validate accepts a report, the counts of passed, failed, erroneous and skipped tests in
  -- its summary are the numbers of rows with these statuses, pending ones counted as skipped,
  -- the test count is the number of the rows, and the four counts add up to it.
  pub validate-counts : (x : Json) → validate x ≡ ok tt → CountsAgree x
  validate-counts x h =
      let (_, _, summary, tests, rows, _, _, s, t, i, c, _, _) = validate-Accepted x h in
      (summary, tests, rows, s, t, i, check_summary-RowsCounted summary rows c)
