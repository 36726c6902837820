-- ===== src/Profiles/Returns.antt =====
-- When project returns: on every report that is an object whose tests, if any, are a list of objects.
use mathlib.Core.Path.{subst}
use resq.Base.{
  string_eq, String, Bool, true, not, List, [], ◌∷◌, All, Option, none, some, ◌==◌, if◌then◌else◌,
  ◌≡◌, refl, sym, ◌∙◌, contains, Bool-cases, inl, inr,
}
use resq.Py.Value.{Json, null, str, arr, obj, nil, array, elements, elements-of_elements}
use resq.Py.Result.{Exn, Result, ok, raise_if, ◌>>=◌, ◌>>◌}
use resq.Py.Access.{get, set_item, pop, iterate, is_list, is_dict, truthy, get_or}
use resq.Py.Fields.{member, member-set_item}
use resq.Py.Loops.{map_m, fold_m}
use resq.Profiles.{
  profiles, omitted_sections, completeness, drop_empty_quarantine, clean_tests, telemetry_row,
  telemetry_tests, drop_sections, project,
}
use resq.Profiles.Members.{drop_sections-tests}

-- a step returns an object
abbrev Gives : Result Json → Type 0
Gives step = (y : Json) × (step ≡ ok y) × (is_dict y ≡ true)

pop-Gives : (x : Json) (k : String) → is_dict x ≡ true → Gives (pop x k)
unfolding pop is_dict
pop-Gives (obj fs) k d = (_, refl, refl)
pop-Gives null k d = cc
pop-Gives _ k d = cc

set_item-Gives : (x : Json) (k : String) (v : Json) → is_dict x ≡ true → Gives (set_item x k v)
unfolding set_item is_dict
set_item-Gives (obj fs) k v d = (_, refl, refl)
set_item-Gives null k v d = cc
set_item-Gives _ k v d = cc

get_returns :
    (x : Json) (k : String) (v : Json) → is_dict x ≡ true → get x k v ≡ ok (get_or (member x k) v)
unfolding get is_dict
get_returns (obj fs) k v d = refl
get_returns null k v d = cc
get_returns _ k v d = cc

pop_all-Gives : (names : List String) (x : Json) → is_dict x ≡ true → Gives (fold_m pop x names)
unfolding fold_m
pop_all-Gives [] x d = (x, refl, d)
pop_all-Gives (name ∷ names) x d =
    let (y, e, d') = pop-Gives x name d in
    let (z, e', d'') = pop_all-Gives names y d' in (z, rw e e', d'')

drop_sections-Gives :
    (profile : String) (x : Json) → is_dict x ≡ true → Gives (drop_sections profile x)
unfolding drop_sections
drop_sections-Gives profile x d = elim (Bool-cases (profile == "full")) [
  | inl e ↦ rw e (x, refl, d)
  | inr e ↦ rw e (pop_all-Gives omitted_sections x d)
]

-- a list of objects
abbrev pub IsRows : Json → Type 0
IsRows (arr xs) = All (λ x. is_dict x ≡ true) (elements xs)
IsRows null = ⊥
IsRows _ = ⊥

abbrev pub HasRows : Option Json → Type 0
HasRows none = Unit
HasRows (some tests) = IsRows tests

map_m-Gives :
    (f : Json → Result Json) (xs : List Json)
    → ((x : Json) → is_dict x ≡ true → Gives (f x))
    → All (λ x. is_dict x ≡ true) xs
    → (ys : List Json) × (map_m f xs ≡ ok ys) × All (λ y. is_dict y ≡ true) ys
unfolding map_m
map_m-Gives f [] step h = ([], refl, tt)
map_m-Gives f (x ∷ xs) step h =
    let (y, e, d) = step x h.0 in
    let (ys, e', ds) = map_m-Gives f xs step h.1 in (y ∷ ys, rw (e, e') refl, (d, ds))

drop_empty_quarantine-Gives : (x : Json) → is_dict x ≡ true → Gives (drop_empty_quarantine x)
unfolding drop_empty_quarantine
drop_empty_quarantine-Gives x d =
    rw (get_returns x "quarantine" null d)
      (elim (Bool-cases (truthy (get_or (member x "quarantine") null))) [
        | inl e ↦ rw e (x, refl, d)
        | inr e ↦ rw e (pop-Gives x "quarantine" d)
      ])

telemetry_row-Gives : (x : Json) → is_dict x ≡ true → Gives (telemetry_row x)
unfolding telemetry_row is_dict
telemetry_row-Gives (obj fs) d = (_, refl, refl)
telemetry_row-Gives null d = cc
telemetry_row-Gives _ d = cc

-- what is set as the tests are rows
set_rows :
    (x : Json) (rows : List Json)
    → is_dict x ≡ true
    → All (λ y. is_dict y ≡ true) rows
    → (y : Json) × (set_item x "tests" (array rows) ≡ ok y)
      × (is_dict y ≡ true)
      × HasRows (member y "tests")
set_rows x rows d h =
    let (y, e, d') = set_item-Gives x "tests" (array rows) d in
    (
      y,
      e,
      d',
      subst HasRows (sym (member-set_item x "tests" (array rows) e "tests"))
          (rw (elements-of_elements rows) h),
    )

clean_tests-returns :
    (o : Option Json) (x : Json)
    → is_dict x ≡ true
    → member x "tests" ≡ o
    → HasRows o
    → (y : Json) × (clean_tests o x ≡ ok y) × (is_dict y ≡ true) × HasRows (member y "tests")
unfolding clean_tests iterate is_list
clean_tests-returns none x d at h = (x, refl, d, rw at tt)
clean_tests-returns (some (arr xs)) x d at h =
    let (ys, e, ds) =
      map_m-Gives drop_empty_quarantine (elements xs) drop_empty_quarantine-Gives h in
    let (y, e', d', rows) = set_rows x ys d ds in (y, rw (e, e') refl, d', rows)
clean_tests-returns (some null) x d at h = absurd h
clean_tests-returns (some _) x d at h = absurd h

telemetry_tests-Gives :
    (x : Json) → is_dict x ≡ true → HasRows (member x "tests") → Gives (telemetry_tests x)
unfolding telemetry_tests iterate elements
telemetry_tests-Gives x d h = rw (get_returns x "tests" (arr nil) d) (on_rows (member x "tests") h)
  where
    on_rows :
        (o : Option Json)
        → HasRows o
        → Gives (
            iterate (get_or o (arr nil)) >>= λ rows.
            map_m telemetry_row rows >>= λ selected. set_item x "tests" (array selected))
    on_rows none h = set_item-Gives x "tests" (array []) d
    on_rows (some (arr xs)) h =
        let (ys, e, _) = map_m-Gives telemetry_row (elements xs) telemetry_row-Gives h in
        rw e (set_item-Gives x "tests" (array ys) d)
    on_rows (some null) h = absurd h
    on_rows (some _) h = absurd h

select_tests-Gives :
    (profile : String) (x : Json)
    → is_dict x ≡ true
    → HasRows (member x "tests")
    → Gives (if profile == "telemetry" then telemetry_tests x else ok x)
select_tests-Gives profile x d h = elim (Bool-cases (profile == "telemetry")) [
  | inl e ↦ rw e (telemetry_tests-Gives x d h)
  | inr e ↦ rw e (x, refl, d)
]

completeness_returns :
    (profile : String)
    → contains profile profiles ≡ true
    → (c : Json) × (completeness profile ≡ ok c)
unfolding completeness
completeness_returns profile known = rw known (_, refl)

-- what follows a step that returned
after_ok :
    (step : Result Json) (next : Json → Result Json) {x : Json} {r : Result Json}
    → step ≡ ok x
    → next x ≡ r
    → (step >>= next) ≡ r
after_ok step next e h = rw e h

not_refused :
    (b : Bool) (e : Exn) (rest : Result Json) → b ≡ true → (raise_if (not b) e >> rest) ≡ rest
not_refused b e rest h = rw h refl

-- project returns, without an exception, for each of the three profiles on every document that
-- is an object and whose tests, if it has any, are a list of objects.
pub project_returns :
    (document : Json) (profile : String)
    → is_dict document ≡ true
    → contains profile profiles ≡ true
    → HasRows (member document "tests")
    → (out : Json) × (project document profile ≡ ok out)
unfolding project
project_returns document profile d known h =
    let (x, e₁, d₁) = drop_sections-Gives profile document d in
    let same = drop_sections-tests profile document x e₁ in
    let (y, e₂, d₂, rows) =
      clean_tests-returns (member x "tests") x d₁ refl (subst HasRows (sym same) h) in
    let (z, e₃, d₃) = select_tests-Gives profile y d₂ rows in
    let (w, e₄, d₄) = set_item-Gives z "profile" (str profile) d₃ in
    let (c, e₅) = completeness_returns profile known in
    let (out, e₆, _) = set_item-Gives w "completeness" c d₄ in
    (
      out,
      not_refused (contains profile profiles) _ _ known
          ∙ after_ok (drop_sections profile document) _ e₁ (
              after_ok (get x "tests" (arr nil)) _ (get_returns x "tests" (arr nil) d₁) (
                after_ok (clean_tests (member x "tests") x) _ e₂ (
                  after_ok (if profile == "telemetry" then telemetry_tests y else ok y) _ e₃ (
                    after_ok (set_item z "profile" (str profile)) _ e₄
                      (after_ok (completeness profile) _ e₅ e₆))))),
    )
