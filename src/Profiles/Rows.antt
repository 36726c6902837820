-- ===== src/Profiles/Rows.antt =====
-- What a projection does to the rows of a report.
use mathlib.Core.Path.{subst}
use resq.Base.{
  string_eq, String, Bool, true, false, not, ◌&&◌, List, [], ◌∷◌, Option, none, some, ◌==◌,
  if◌then◌else◌, ◌≡◌, refl, sym, ap, ◌∙◌, arith, contains, Bool-cases, inl, inr, eq_iff,
}
use resq.Py.Value.{
  Json, null, str, arr, obj, nil, Items, elements, entries, entries-of_entries,
  elements-of_elements, array,
}
use resq.Py.Result.{ok, ok-injective, through}
use resq.Py.Dict.{Dict, lookup}
use resq.Py.Access.{get, get_or, iterate, truthy, is_list}
use resq.Py.Fields.{member, member-set_item, member-pop, get-eq-ok, rows_of}
use resq.Py.Loops.{map_m, Pointwise, Pointwise-imp, map_m-Pointwise, Pointwise-trans}
use resq.Profiles.{
  drop_empty_quarantine, clean_tests, select, telemetry_test_fields, telemetry_row, telemetry_tests,
  project,
}
use resq.Profiles.Members.{unless, Projection, project-Projection, drop_sections-tests}

-- Only an empty quarantine is dropped.
abbrev pub IsCleaned : Json → Json → Type 0
IsCleaned row row' =
    (j : String)
    → member row' j
      ≡ unless ("quarantine" == j && not (truthy (get_or (member row "quarantine") null)))
          (member row j)

drop_empty_quarantine-IsCleaned :
    (row row' : Json) → drop_empty_quarantine row ≡ ok row' → IsCleaned row row'
unfolding drop_empty_quarantine
drop_empty_quarantine-IsCleaned row row' h j = through (get row "quarantine" null) _ h λ q got h₁.
    elim (Bool-cases (truthy q)) [
      | inl e ↦
          rw (← (get-eq-ok row "quarantine" null got), e)
            (ap (λ z. member z j) (sym (ok-injective (rw e at h₁)))
              ∙ kept ("quarantine" == j) (member row j))
      | inr e ↦
          rw (← (get-eq-ok row "quarantine" null got), e)
            (member-pop row "quarantine" (rw e at h₁) j
              ∙ dropped ("quarantine" == j) (member row j))
    ]
  where
    kept : (b : Bool) (o : Option Json) → o ≡ unless (b && false) o
    kept true o = refl
    kept false o = refl

    dropped : (b : Bool) (o : Option Json) → (if b then none else o) ≡ unless (b && true) o
    dropped true o = refl
    dropped false o = refl

-- Only the telemetry fields are left.
abbrev pub IsTelemetry : Json → Json → Type 0
IsTelemetry row row' =
    (j : String) → member row' j ≡ unless (not (contains j telemetry_test_fields)) (member row j)

lookup-select :
    (names : List String) (row : Dict String Json) (j : String)
    → lookup j (select names row) ≡ unless (not (contains j names)) (lookup j row)
unfolding select lookup contains
lookup-select [] row j = refl
lookup-select (name ∷ names) row j = ground (arith, lookup-select names row j, eq_iff name j)

telemetry_row-IsTelemetry : (row row' : Json) → telemetry_row row ≡ ok row' → IsTelemetry row row'
unfolding telemetry_row
telemetry_row-IsTelemetry (obj fs) row' h j =
    rw (← (ok-injective h))
      (rw entries-of_entries (lookup-select telemetry_test_fields (entries fs) j))
telemetry_row-IsTelemetry null row' h j = cc
telemetry_row-IsTelemetry _ row' h j = cc

-- The tests of a report after a step: a list of rows that relate to the rows before.
record HasTests (R : Json → Json → Type 0) (rows : List Json) (x : Json) : Type 0 where
  after : List Json
  at : member x "tests" ≡ some (array after)
  related : Pointwise R rows after

clean_tests-rows :
    (x y : Json) (xs : Items)
    → clean_tests (some (arr xs)) x ≡ ok y
    → HasTests IsCleaned (elements xs) y
unfolding clean_tests iterate is_list
clean_tests-rows x y xs h =
    through (map_m drop_empty_quarantine (elements xs)) _ h λ cleaned done h₁. record {
      after = cleaned;
      at = member-set_item x "tests" (array cleaned) h₁ "tests";
      related =
          map_m-Pointwise IsCleaned drop_empty_quarantine drop_empty_quarantine-IsCleaned
            (elements xs) cleaned done;
    }

telemetry_tests-rows :
    (x y : Json) (ys : List Json)
    → member x "tests" ≡ some (array ys)
    → telemetry_tests x ≡ ok y
    → HasTests IsTelemetry ys y
unfolding telemetry_tests iterate
telemetry_tests-rows x y ys at h = through (get x "tests" (arr nil)) _ h λ tests got h₁.
    through (iterate tests) _ h₁ λ rows seen h₂.
      through (map_m telemetry_row rows) _ h₂ λ selected done h₃.
        let is_rows : rows ≡ ys = ok-injective (
          sym seen
          ∙ ap iterate (get-eq-ok x "tests" (arr nil) got)
          ∙ ap (λ o. iterate (get_or o (arr nil))) at
          ∙ ap ok (elements-of_elements ys)) in
        record {
          after = selected;
          at = member-set_item x "tests" (array selected) h₃ "tests";
          related =
              map_m-Pointwise IsTelemetry telemetry_row telemetry_row-IsTelemetry ys selected
                (rw is_rows at done);
        }

-- what a profile drops of a row at a key
abbrev pub row_omits : String → Json → String → Bool
row_omits profile row j =
    if profile == "telemetry"
    then not (contains j telemetry_test_fields)
    else "quarantine" == j && not (truthy (get_or (member row "quarantine") null))

abbrev pub IsProjected : String → Json → Json → Type 0
IsProjected profile row row' =
    (j : String) → member row' j ≡ unless (row_omits profile row j) (member row j)

telemetry_fields_clean :
    (j : String) → contains j telemetry_test_fields ≡ true → ("quarantine" == j) ≡ false
unfolding contains
telemetry_fields_clean j h = elim (Bool-cases ("quarantine" == j)) [
  | inl e ↦ absurd (
      not_there (
        subst (λ k. contains k telemetry_test_fields ≡ true) (sym ((eq_iff "quarantine" j).0 e)) h))
  | inr e ↦ e
]
  where
    not_there : contains "quarantine" telemetry_test_fields ≡ true → ⊥
    not_there p = cc p

join_rows : (x y z : Json) → IsCleaned x y → IsTelemetry y z → IsProjected "telemetry" x z
join_rows x y z h k j =
    k j
    ∙ rw (h j) (elim (Bool-cases (contains j telemetry_test_fields)) [
      | inl e ↦ rw (e, telemetry_fields_clean j e)
      | inr e ↦ rw e
    ])

module _ (document : Json) (profile : String) (xs : Items) (out : Json)
    (listed : member document "tests" ≡ some (arr xs))
    (run : project document profile ≡ ok out) where
  abbrev p : Projection document profile out
  p = project-Projection document profile out run

  cleaned_rows : HasTests IsCleaned (elements xs) p.cleaned
  cleaned_rows =
      clean_tests-rows p.without p.cleaned xs
        (rw (drop_sections-tests profile document p.without p.dropped, listed) at p.clean)

  out-tests : member out "tests" ≡ member p.selected "tests"
  out-tests =
      member-set_item p.labelled "completeness" p.complete p.finish "tests"
      ∙ member-set_item p.selected "profile" (str profile) p.label "tests"

  -- If project returns on a report with a list of tests, the projection has one row for each
  -- of them, in order: a telemetry row has exactly the telemetry fields of the report's row,
  -- with their values; in the other profiles a row keeps all its members, except a quarantine
  -- that is missing or empty.
  pub project-rows :
      Pointwise
        (IsProjected profile)
        (rows_of (member document "tests"))
        (rows_of (member out "tests"))
  project-rows =
      rw (listed, out-tests)
        (elim (Bool-cases (profile == "telemetry")) [
          | inl e ↦
              let z =
                telemetry_tests-rows p.cleaned p.selected cleaned_rows.after cleaned_rows.at
                  (rw e at p.select) in
              rw (z.at, elements-of_elements)
                (Pointwise-trans IsCleaned IsTelemetry (IsProjected profile)
                  (λ row mid row' c s.
                    rw ((eq_iff profile "telemetry").0 e) (join_rows row mid row' c s))
                  (elements xs) cleaned_rows.after z.after cleaned_rows.related z.related)
          | inr e ↦
              rw (← (ok-injective (rw e at p.select)), cleaned_rows.at, elements-of_elements)
                (Pointwise-imp IsCleaned (IsProjected profile) (λ row row' c j. rw e (c j))
                  (elements xs) cleaned_rows.after cleaned_rows.related)
        ])
