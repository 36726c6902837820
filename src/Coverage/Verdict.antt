-- ===== src/Coverage/Verdict.antt =====
-- When a coverage report that validate_report_coverage accepts says that it passed.
use resq.Base.{
  same_bool, string_eq, ℕ, String, Bool, true, false, not, ◌&&◌, ◌||◌, [], some, ◌≡◌, ◌↔◌, sym, ap,
  ◌∙◌, arith, ltb,
}
use resq.Py.Value.{Json, nat, bool, object}
use resq.Py.Result.{ok, through, ok-injective, raise_if-eq-ok}
use resq.Py.Dict.{Dict}
use resq.Py.Fields.{member}
use resq.Py.Equal.{py_eq}
use resq.Py.Loops.{each}
use resq.Py.Checks.{at_key}
use resq.Py.Text.{Runtime}
use resq.Coverage.{require, count_at, flag_at}
use resq.Coverage.Reads.{count_at-eq-ok, flag_at-eq-ok, require-same}
use resq.Coverage.Summary.{validate_summary, check_flag}
use resq.Coverage.Gates.{
  Gate, coverage_fields, verdict_flags, validate_gates, check_producer, check_partial, check_basis,
  check_verdict, expected_passed, is_enforced, and_if, check_coverage, validate_report_coverage,
}

-- the gate of the functions passes, and so does each other one with a minimum above 0; lines that are only
-- partly measured have to be allowed, and branches have to be measured whole
abbrev pub Passes : Gate → Gate → Gate → Gate → Gate → Bool → Bool → Bool → Type 0
Passes functions lines complete branches branch_complete allowed partial_lines partial_branches =
    (functions.passed ≡ true)
    × (is_enforced lines ≡ true → (partial_lines ≡ true → allowed ≡ true) × (lines.passed ≡ true))
    × (is_enforced complete ≡ true → complete.passed ≡ true)
    × (is_enforced branches ≡ true → (partial_branches ≡ false) × (branches.passed ≡ true))
    × (is_enforced branch_complete ≡ true → branch_complete.passed ≡ true)

abbrev pub Gates : Dict String Gate → Gate → Gate → Gate → Gate → Gate → Type 0
Gates checked functions lines complete branches branch_complete =
    (at_key "functions" checked ≡ ok functions)
    × (at_key "lines" checked ≡ ok lines)
    × (at_key "completeness" checked ≡ ok complete)
    × (at_key "branches" checked ≡ ok branches)
    × (at_key "branchCompleteness" checked ≡ ok branch_complete)

chain :
    (f l c b d : Gate) (allowed pl pb : Bool)
    → (and_if
          (is_enforced d)
          (and_if
            (is_enforced b)
            (and_if
              (is_enforced c)
              (and_if (is_enforced l) (f.passed) ((allowed || not pl) && l.passed))
              (c.passed))
            (not pb && b.passed))
          (d.passed)
        ≡ true)
      ↔ Passes f l c b d allowed pl pb
unfolding and_if
chain f l c b d allowed pl pb = ground arith

-- what the verdict of a coverage is
abbrev pub VerdictAgrees : Json → Dict String Gate → Type 0
VerdictAgrees x checked =
    (f : Gate) × (l : Gate) × (c : Gate) × (b : Gate) × (d : Gate) × (allowed : Bool) × (pl : Bool)
    × (pb : Bool) × (passed : Bool) × Gates checked f l c b d
    × (member x "allowPartialLines" ≡ some (bool allowed))
    × (member x "partialLines" ≡ some (bool pl))
    × (member x "partialBranches" ≡ some (bool pb))
    × (member x "passed" ≡ some (bool passed))
    × ((passed ≡ true) ↔ Passes f l c b d allowed pl pb)

pub check_verdict-VerdictAgrees :
    (x : Json) (checked : Dict String Gate) {u : Unit {0}}
    → check_verdict x checked ≡ ok u
    → VerdictAgrees x checked
unfolding check_verdict expected_passed
check_verdict-VerdictAgrees x checked h =
    through (flag_at x "allowPartialLines") _ h λ allowed a h₁.
      through (flag_at x "partialLines") _ h₁ λ pl p h₂.
        through (flag_at x "partialBranches") _ h₂ λ pb q h₃.
          through (expected_passed checked allowed pl pb) _ h₃ λ expected e h₄.
            through (flag_at x "passed") _ h₄ λ passed v h₅.
              through (at_key "functions" checked) _ e λ f ef e₁.
                through (at_key "lines" checked) _ e₁ λ l el e₂.
                  through (at_key "completeness" checked) _ e₂ λ c ec e₃.
                    through (at_key "branches" checked) _ e₃ λ b eb e₄.
                      through (at_key "branchCompleteness" checked) _ e₄ λ d ed e₅.
                        let same =
                          same_bool passed expected (raise_if-eq-ok _ _ h₅)
                          ∙ sym (ok-injective e₅) in
                        (
                          f,
                          l,
                          c,
                          b,
                          d,
                          allowed,
                          pl,
                          pb,
                          passed,
                          (ef, el, ec, eb, ed),
                          flag_at-eq-ok x _ a,
                          flag_at-eq-ok x _ p,
                          flag_at-eq-ok x _ q,
                          flag_at-eq-ok x _ v,
                          rw same (chain f l c b d allowed pl pb),
                        )

-- a flag of partial measurement is that the mode is on and less is measured than is eligible
abbrev pub PartialAgrees : Json → String → String → String → String → Type 0
PartialAgrees x flag mode part whole =
    (on : Bool) × (measured : ℕ) × (eligible : ℕ) × (member x mode ≡ some (bool on))
    × (member x part ≡ some (nat measured))
    × (member x whole ≡ some (nat eligible))
    × (member x flag ≡ some (bool (on && ltb measured eligible)))

check_partial-PartialAgrees :
    (x : Json) (flag mode part whole : String) {u : Unit {0}}
    → check_partial x flag mode part whole ≡ ok u
    → PartialAgrees x flag mode part whole
unfolding check_partial
check_partial-PartialAgrees x flag mode part whole h = through (flag_at x flag) _ h λ partial a h₁.
    through (flag_at x mode) _ h₁ λ on b h₂. through (count_at x part) _ h₂ λ measured c h₃.
      through (count_at x whole) _ h₃ λ eligible d h₄. (
        on,
        measured,
        eligible,
        flag_at-eq-ok x mode b,
        count_at-eq-ok x part c,
        count_at-eq-ok x whole d,
        flag_at-eq-ok x flag a
            ∙ ap (λ t. some (bool t)) (same_bool partial _ (raise_if-eq-ok _ _ h₄)),
      )

module _ ⦃r : Runtime⦄ where
  -- If validate_report_coverage accepts a report that is not an empty object, then the report
  -- says that it passed if and only if its function gate passes, its line gate passes with
  -- partial lines absent or allowed if its minimum is above 0, its branch gate passes without
  -- partial branches if its minimum is above 0, and each of the two completeness gates passes
  -- if its minimum is above 0; the flags of partial measurement are those that the modes and
  -- the counts give.
  pub validate_report_coverage-verdict :
      (x : Json)
      → validate_report_coverage x ≡ ok tt
      → py_eq x (object []) ≡ false
      → (checked : Dict String Gate) × (validate_gates x ≡ ok checked)
        × VerdictAgrees x checked
        × PartialAgrees x "partialLines" "statementMode" "statementFunctionsInstrumented"
            "statementFunctionsEligible"
        × PartialAgrees x "partialBranches" "branchMode" "branchSitesInstrumented"
            "branchSitesEligible"
  unfolding validate_report_coverage check_coverage
  validate_report_coverage-verdict x h given =
      through (require x coverage_fields) _ (rw given at h) λ value same h₁.
        through (check_producer value) _ h₁ λ _ _ h₂.
          through (validate_summary value) _ h₂ λ _ _ h₃.
            through (validate_gates value) _ h₃ λ checked gates h₄.
              through (each (check_flag value) verdict_flags) _ h₄ λ _ _ h₅.
                through (check_partial value _ _ _ _) _ h₅ λ _ lines h₆.
                  through (check_partial value _ _ _ _) _ h₆ λ _ branches h₇.
                    through (check_basis value checked) _ h₇ λ _ _ h₈. rw (require-same x _ same) (
                      checked,
                      gates,
                      check_verdict-VerdictAgrees value checked h₈,
                      check_partial-PartialAgrees value _ _ _ _ lines,
                      check_partial-PartialAgrees value _ _ _ _ branches,
                    )
