-- ===== src/Report/Accepted.antt =====
-- The checks that a report went through which validate accepts.
use resq.Base.{string_eq, not, List, some, ◌≡◌}
use resq.Py.Value.{Json}
use resq.Py.Result.{ok, through, past}
use resq.Py.Access.{subscript, iterate, is_dict}
use resq.Py.Fields.{member, subscript-eq-ok}
use resq.Py.Hash.{atom_eq}
use resq.Py.Text.{Runtime}
use resq.Report.{require, expect_nat, expect_text}
use resq.Report.Numbers.{reject_non_finite_numbers, validate_canonical_value_envelopes}
use resq.Report.Shards.{Profile, validate_profile, validate_run_shard}
use resq.Report.Completion.{validate_completion}
use resq.Report.Header.{check_run}
use resq.Report.Summary.{check_summary}
use resq.Report.Validate.{required_sections, check_rows, check_sections, validate, validate_finite}

module _ ⦃r : Runtime⦄ where
  -- the checks that an accepted report went through
  abbrev pub Accepted : Json → Type 0
  Accepted x =
      (profile : Profile) × (run : Json) × (summary : Json) × (tests : Json) × (rows : List Json)
      × (ids : List Json) × (member x "run" ≡ some run)
      × (member x "summary" ≡ some summary)
      × (member x "tests" ≡ some tests)
      × (iterate tests ≡ ok rows)
      × (check_summary summary rows ≡ ok tt)
      × (check_rows profile rows ≡ ok ids)
      × (validate_completion x ids ≡ ok tt)

  pub validate-Accepted : (x : Json) → validate x ≡ ok tt → Accepted x
  unfolding validate validate_finite
  validate-Accepted x h = past (not (is_dict x)) _ _ h λ _ h₁.
      through (reject_non_finite_numbers x) _ h₁ λ _ _ h₂.
        through (validate_canonical_value_envelopes x) _ h₂ λ _ _ h₃.
          through (validate_profile x) _ h₃ λ profile _ h₄.
            through (require x (required_sections profile)) _ h₄ λ _ _ h₅.
              through (expect_nat x "schemaVersion" 2 "expected resQ schemaVersion 2") _ h₅
                λ _ _ h₆.
                  through (expect_text x "framework" "resQ" "expected resQ schemaVersion 2") _ h₆
                    λ _ _ h₇. through (subscript x "run") _ h₇ λ run r₁ h₈.
                      through (check_run x run) _ h₈ λ _ _ h₉.
                        through (validate_run_shard x) _ h₉ λ _ _ h₁₀.
                          through (subscript x "summary") _ h₁₀ λ summary s h₁₁.
                            through (subscript x "tests") _ h₁₁ λ tests t h₁₂.
                              through (iterate tests) _ h₁₂ λ rows i h₁₃.
                                through (check_summary summary rows) _ h₁₃ λ _ c h₁₄.
                                  through (check_sections x run) _ h₁₄ λ measured _ h₁₅.
                                    through (check_rows profile rows) _ h₁₅ λ ids k h₁₆.
                                      through (validate_completion x ids) _ h₁₆ λ _ v _. (
                                        profile,
                                        run,
                                        summary,
                                        tests,
                                        rows,
                                        ids,
                                        subscript-eq-ok x _ r₁,
                                        subscript-eq-ok x _ s,
                                        subscript-eq-ok x _ t,
                                        i,
                                        c,
                                        k,
                                        v,
                                      )
