-- ===== src/Report/Covered.antt =====
-- A complete run of an accepted report has a result for exactly what it selected.
use mathlib.Core.Path.{subst}
use resq.Base.{
  string_eq, ℕ, String, Bool, true, false, not, ◌&&◌, List, [], some, ◌≡◌, refl, sym, ap, ◌∙◌,
  arith, length, distinct, subset, same_set, concat, eq_true_of_not, if◌then◌else◌, some-injective,
}
use resq.Py.Value.{Json, null, bool, obj, object, array}
use resq.Py.Result.{Result, ok, through, past, ok-injective}
use resq.Py.Access.{subscript, get, iterate, is_dict, truthy}
use resq.Py.Fields.{member, subscript-eq-ok}
use resq.Py.Equal.{is_nat}
use resq.Py.Hash.{Atom, hashed, atom_eq}
use resq.Py.Checks.{is_null, are_distinct, len}
use resq.Py.Loops.{each, map_m}
use resq.Py.Text.{Runtime}
use resq.Report.{require}
use resq.Report.Shards.{Profile, set_of}
use resq.Report.Completion.{
  completion_fields, check_state, difference, check_coverage, validate_present_completion,
  validate_completion,
}
use resq.Report.Manifest.{execution_of}
use resq.Report.Validate.{row_validator, check_rows, case_ids, validate}
use resq.Report.Agreement.{member-subscript}
use resq.Report.Accepted.{validate-Accepted}

-- the identities of the rows are unique
check_rows-distinct :
    ⦃r : Runtime⦄ (profile : Profile) (rows : List Json) {ids : List Json}
    → check_rows profile rows ≡ ok ids
    → (map_m execution_of rows ≡ ok ids) × (are_distinct ids ≡ ok true)
unfolding check_rows
check_rows-distinct profile rows h = through (each (row_validator profile) rows) _ h λ _ _ h₁.
    through (map_m execution_of rows) _ h₁ λ ids e h₂.
      through (map_m case_ids rows) _ h₂ λ cases _ h₃.
        through (are_distinct ids) _ h₃ λ unique d h₄. past (not unique) _ _ h₄ λ yes h₅.
          through (are_distinct (concat cases)) _ h₅ λ unique_cases _ h₆.
            past (not unique_cases) _ _ h₆
              λ _ h₇. rw (← (ok-injective h₇)) (e, d ∙ ap ok (eq_true_of_not unique yes))

are_distinct-keys :
    (ids : List Json) (keys : List Atom)
    → are_distinct ids ≡ ok true
    → map_m hashed ids ≡ ok keys
    → distinct keys ≡ true
unfolding are_distinct
are_distinct-keys ids keys h k =
    through (map_m hashed ids) _ h
      λ keys' e h₁. subst (λ ks. distinct ks ≡ true) (ok-injective (sym e ∙ k)) (ok-injective h₁)

-- the identities of the rows, those that the run selected, and that they are the same
abbrev pub IsCovered : Json → List Json → Type 0
IsCovered run ids =
    (shard : Json) × (chosen : Json) × (executed : List Atom) × (selected : List Atom) × (get run
        "shard" (object [])
      ≡ ok shard)
    × (get shard "selectedExecutionIds" (array []) ≡ ok chosen)
    × (set_of chosen ≡ ok selected)
    × (map_m hashed ids ≡ ok executed)
    × (same_set executed selected ≡ true)

both_true : (a b : Bool) → (a && not b) ≡ false → a ≡ true → b ≡ true
both_true a b h k = ground arith

check_coverage-same_set :
    (completion : Json) (selected : List Atom) (n : ℕ) (executed : List Atom) (m : ℕ)
    → check_coverage completion selected n executed m ≡ ok tt
    → member completion "complete" ≡ some (bool true)
    → same_set executed selected ≡ true
unfolding check_coverage truthy
check_coverage-same_set completion selected n executed m h complete =
    through (subscript completion "selectedTestCount") _ h λ stated _ h₁.
      past (not (is_nat stated n)) _ _ h₁ λ _ h₂.
        through (subscript completion "resultCount") _ h₂ λ counted _ h₃.
          past (not (is_nat counted m)) _ _ h₃ λ _ h₄.
            through (subscript completion "missingExecutionIds") _ h₄ λ mm _ h₅.
              through (set_of mm) _ h₅ λ missing _ h₆.
                past (not (same_set missing (difference selected executed))) _ _ h₆ λ _ h₇.
                  past (not (subset executed selected)) _ _ h₇ λ _ h₈.
                    through (subscript completion "complete") _ h₈ λ c e h₉.
                      let is_true =
                        some-injective (sym (subscript-eq-ok completion "complete" e) ∙ complete) in
                      past (truthy c && not (same_set executed selected)) _ _ h₉ λ covered _.
                        both_true (truthy c) (same_set executed selected) covered
                          (ap truthy is_true)

member-get : (x : Json) (k : String) (d : Json) {v : Json} → member x k ≡ some v → get x k d ≡ ok v
unfolding get
member-get (obj fs) k d h = rw h refl
member-get null k d h = cc
member-get _ k d h = cc

-- a value with a member is not null
not_null :
    (c : Json) (k : String) (v : Json) (check : Result (Unit {0}))
    → member c k ≡ some v
    → (if is_null c then ok tt else check) ≡ ok tt
    → check ≡ ok tt
unfolding is_null
not_null (obj fs) k v check at h = h
not_null null k v check at h = cc
not_null _ k v check at h = cc

present_completion :
    (run completion : Json) (ids : List Json)
    → validate_present_completion run completion ids ≡ ok tt
    → member completion "complete" ≡ some (bool true)
    → IsCovered run ids
unfolding validate_present_completion
present_completion run c ids h complete = past (not (is_dict c)) _ _ h λ _ h₁.
    through (require c completion_fields) _ h₁ λ _ _ h₂. through (check_state c) _ h₂ λ _ _ h₃.
      through (get run "shard" (object [])) _ h₃ λ shard a h₄.
        through (get shard "selectedExecutionIds" (array [])) _ h₄ λ chosen b h₅.
          through (map_m hashed ids) _ h₅ λ executed k h₆.
            through (set_of chosen) _ h₆ λ selected s h₇. through (len chosen) _ h₇ λ n _ h₈. (
              shard,
              chosen,
              executed,
              selected,
              a,
              b,
              s,
              k,
              check_coverage-same_set c selected n executed (length ids) h₈ complete,
            )

validate_completion-IsCovered :
    (x run completion : Json) (ids : List Json)
    → validate_completion x ids ≡ ok tt
    → member x "run" ≡ some run
    → member run "completion" ≡ some completion
    → member completion "complete" ≡ some (bool true)
    → IsCovered run ids
unfolding validate_completion
validate_completion-IsCovered x run completion ids h at_run at_completion complete =
    present_completion run completion ids
      (not_null completion "complete" (bool true) (validate_present_completion run completion ids)
        complete
        (rw (member-subscript x "run" at_run, member-get run "completion" null at_completion) at h))
      complete

module _ ⦃r : Runtime⦄ where
  -- If validate accepts a report whose run says that it is complete, the results of the report
  -- have distinct execution identities, and these are exactly the identities that the run's
  -- shard has selected.
  pub validate-IsCovered :
      (x run completion : Json)
      → validate x ≡ ok tt
      → member x "run" ≡ some run
      → member run "completion" ≡ some completion
      → member completion "complete" ≡ some (bool true)
      → (tests : Json) × (rows : List Json) × (ids : List Json) × (keys : List Atom) × (member x
            "tests"
          ≡ some tests)
        × (iterate tests ≡ ok rows)
        × (map_m execution_of rows ≡ ok ids)
        × (map_m hashed ids ≡ ok keys)
        × (distinct keys ≡ true)
        × IsCovered run ids
  validate-IsCovered x run completion h at_run at_completion complete =
      let (profile, _, _, tests, rows, ids, _, _, t, i, _, k, v) = validate-Accepted x h in
      let (e, d) = check_rows-distinct profile rows k in
      let covered =
        validate_completion-IsCovered x run completion ids v at_run at_completion complete in
      let (_, _, keys, _, _, _, _, keyed, _) = covered in
      (tests, rows, ids, keys, t, i, e, keyed, are_distinct-keys ids keys d keyed, covered)
