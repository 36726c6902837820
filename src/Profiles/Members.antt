-- ===== src/Profiles/Members.antt =====
-- Which members a projection keeps.
use resq.Base.{
  string_eq, String, Bool, true, false, not, List, [], ◌∷◌, Option, none, some, ◌==◌, if◌then◌else◌,
  ◌≡◌, refl, sym, ap, ◌∙◌, contains, Bool-cases, inl, inr, eq_true_of_not,
}
use resq.Py.Value.{Json, str, arr, nil, array}
use resq.Py.Result.{Result, ok, err, ok-injective, through, past}
use resq.Py.Access.{get, set_item, pop, iterate, is_list}
use resq.Py.Fields.{member, member-set_item, member-pop}
use resq.Py.Loops.{map_m, fold_m}
use resq.Profiles.{
  profiles, omitted_sections, completeness, drop_empty_quarantine, clean_tests, telemetry_row,
  telemetry_tests, drop_sections, project,
}

-- what is left at a key after some are popped
abbrev pub unless : Bool → Option Json → Option Json
unless true o = none
unless false o = o

pop_all :
    (names : List String) (x y : Json)
    → fold_m pop x names ≡ ok y
    → (j : String) → member y j ≡ unless (contains j names) (member x j)
unfolding fold_m contains
pop_all [] x y h j = rw (← (ok-injective h)) refl
pop_all (name ∷ names) x y h j = through (pop x name) _ h λ x' hx h₁.
    elim (Bool-cases (name == j)) [
      | inl e ↦ rw e (
          pop_all names x' y h₁ j
          ∙ rw (member-pop x name hx j) (rw e (unless_none (contains j names))))
      | inr e ↦ rw e (pop_all names x' y h₁ j ∙ rw (member-pop x name hx j) (rw e))
    ]
  where
    unless_none : (b : Bool) → unless b none ≡ none
    unless_none true = refl
    unless_none false = refl

-- the sections that a profile leaves out
abbrev pub omits : String → String → Bool
omits profile j = if profile == "full" then false else contains j omitted_sections

drop_sections-member :
    (profile : String) (x y : Json)
    → drop_sections profile x ≡ ok y
    → (j : String) → member y j ≡ unless (omits profile j) (member x j)
unfolding drop_sections
drop_sections-member profile x y h j = elim (Bool-cases (profile == "full")) [
  | inl e ↦ rw e (ap (λ z. member z j) (sym (ok-injective (rw e at h))))
  | inr e ↦ rw e (pop_all omitted_sections x y (rw e at h) j)
]

clean_tests-member :
    (o : Option Json) (x y : Json)
    → clean_tests o x ≡ ok y
    → (j : String) → ("tests" == j) ≡ false
    → member y j ≡ member x j
unfolding clean_tests
clean_tests-member none x y h j ne = ap (λ z. member z j) (sym (ok-injective h))
clean_tests-member (some tests) x y h j ne = through (iterate tests) _ h λ rows _ h₁.
    through (map_m drop_empty_quarantine rows) _ h₁ λ cleaned _ h₂.
      elim (Bool-cases (is_list tests)) [
        | inl e ↦ member-set_item x "tests" (array cleaned) (rw e at h₂) j ∙ rw ne
        | inr e ↦ ap (λ z. member z j) (sym (ok-injective (rw e at h₂)))
      ]

telemetry_tests-member :
    (x y : Json)
    → telemetry_tests x ≡ ok y
    → (j : String) → ("tests" == j) ≡ false
    → member y j ≡ member x j
unfolding telemetry_tests
telemetry_tests-member x y h j ne = through (get x "tests" (arr nil)) _ h λ tests _ h₁.
    through (iterate tests) _ h₁ λ rows _ h₂.
      through (map_m telemetry_row rows) _ h₂
        λ selected _ h₃. member-set_item x "tests" (array selected) h₃ j ∙ rw ne

-- the rows of a telemetry report are cut down after the others' step
pub select_tests-member :
    (profile : String) (x y : Json)
    → (if profile == "telemetry" then telemetry_tests x else ok x) ≡ ok y
    → (j : String) → ("tests" == j) ≡ false
    → member y j ≡ member x j
select_tests-member profile x y h j ne = elim (Bool-cases (profile == "telemetry")) [
  | inl e ↦ telemetry_tests-member x y (rw e at h) j ne
  | inr e ↦ ap (λ z. member z j) (sym (ok-injective (rw e at h)))
]

-- The steps of a projection that returned.
pub record Projection (document : Json) (profile : String) (out : Json) : Type 0 where
  pub without : Json
  pub cleaned : Json
  pub selected : Json
  pub labelled : Json
  pub complete : Json
  pub known : contains profile profiles ≡ true
  pub dropped : drop_sections profile document ≡ ok without
  pub clean : clean_tests (member without "tests") without ≡ ok cleaned
  pub select :
      (if profile == "telemetry" then telemetry_tests cleaned else ok cleaned) ≡ ok selected
  pub label : set_item selected "profile" (str profile) ≡ ok labelled
  pub declared : completeness profile ≡ ok complete
  pub finish : set_item labelled "completeness" complete ≡ ok out

pub project-Projection :
    (document : Json) (profile : String) (out : Json)
    → project document profile ≡ ok out
    → Projection document profile out
unfolding project
project-Projection document profile out h = past (not (contains profile profiles)) _ _ h λ known h₁.
    through (drop_sections profile document) _ h₁ λ without h_drop h₂.
      through (get without "tests" (arr nil)) _ h₂ λ tests _ h₃.
        through (clean_tests (member without "tests") without) _ h₃ λ cleaned h_clean h₄.
          through (if profile == "telemetry" then telemetry_tests cleaned else ok cleaned) _ h₄
            λ selected h_select h₅.
              through (set_item selected "profile" (str profile)) _ h₅ λ labelled h_label h₆.
                through (completeness profile) _ h₆ λ complete h_complete h₇. record {
                  without = without;
                  cleaned = cleaned;
                  selected = selected;
                  labelled = labelled;
                  complete = complete;
                  known = eq_true_of_not _ known;
                  dropped = h_drop;
                  clean = h_clean;
                  select = h_select;
                  label = h_label;
                  declared = h_complete;
                  finish = h₇;
                }

abbrev pub value_of : Result Json → Option Json
value_of (ok v) = some v
value_of (err e) = none

-- If project returns, the projection names its profile and has the completeness of that
-- profile; every other member but the tests is the document's, except that the sections which
-- the profile omits are gone.
pub project-members :
    (document : Json) (profile : String) (out : Json) (j : String)
    → project document profile ≡ ok out
    → ("tests" == j) ≡ false
    → member out j ≡ (
        if "completeness" == j
        then value_of (completeness profile)
        else if "profile" == j
        then some (str profile)
        else unless (omits profile j) (member document j))
project-members document profile out j h not_tests =
    let p = project-Projection document profile out h in
    rw (
      p.declared,
      member-set_item p.labelled "completeness" p.complete p.finish j,
      member-set_item p.selected "profile" (str profile) p.label j,
      select_tests-member profile p.cleaned p.selected p.select j not_tests,
      clean_tests-member (member p.without "tests") p.without p.cleaned p.clean j not_tests,
      drop_sections-member profile document p.without p.dropped j,
    )

pub drop_sections-tests :
    (profile : String) (x y : Json)
    → drop_sections profile x ≡ ok y
    → member y "tests" ≡ member x "tests"
unfolding contains
drop_sections-tests profile x y h =
    drop_sections-member profile x y h "tests" ∙ kept (profile == "full")
  where
    kept :
        (b : Bool)
        → unless (if b then false else contains "tests" omitted_sections) (member x "tests")
          ≡ member x "tests"
    kept true = refl
    kept false = refl
