-- ===== src/Trend/Validity.antt =====
-- The points that are made and read are valid, and so is a trend of such points.
use resq.Base.{
  string_eq, list_eq, String, Bool, true, false, not, ◌&&◌, List, [], ◌∷◌, Option, none, some, ◌≡◌,
  refl, sym, ap, ◌∙◌, arith, distinct, length-to_set_iff, str_le,
}
use resq.Base.Sorting.{sort-IsSorted_self, IsSorted}
use resq.Py.Value.{
  Json, null, bool, str, nat, elements-of_elements, entries, of_entries, array, object,
}
use resq.Py.Result.{ok, ok-injective, through, past}
use resq.Py.Dict.{lookup, is_some}
use resq.Py.Access.{text_of, get, get_or, subscript, iterate, nonempty_str, is_dict, is_list}
use resq.Py.Fields.{member, subscript-eq-ok, get-eq-ok}
use resq.Py.Equal.{is_nat, is_text}
use resq.Py.Loops.{each, map_m}
use resq.Trend.{
  is_bool_of, check_field, validate_summary, has_keys, summary_keys, check_basis, bases,
  check_point, check_contract, validate_trend, point_of, previous_points,
}
use resq.Trend.Points.{validate_trend-times}

pub validate_summary-same : (x : Json) {y : Json} → validate_summary x ≡ ok y → x ≡ y
unfolding validate_summary
validate_summary-same x h =
    past (not (has_keys x summary_keys)) _ _ h
      λ _ h₁. through (each (check_basis x) bases) _ h₁ λ _ _ h₂. ok-injective h₂

three : (a b c : Bool) → not (a && b && c) ≡ false → (a ≡ true) × (b ≡ true) × (c ≡ true)
three a b c h = ground arith

is_text_of : (x : Json) → is_some (nonempty_str x) ≡ true → (s : String) × (x ≡ str s)
unfolding nonempty_str
is_text_of (str s) h = (s, refl)
is_text_of null h = cc
is_text_of _ h = cc

abbrev point : Json → Json → Json → Json → Json
point generated_at framework_version q_version summary = object (
    ("generatedAt", generated_at)
    ∷ ("frameworkVersion", framework_version)
    ∷ ("qVersion", q_version)
    ∷ ("summary", summary)
    ∷ [])

-- A point of three texts and a valid summary is a point of a trend.
check_point-point :
    (g : String) (f q s : Json)
    → is_some (nonempty_str (str g)) ≡ true
    → is_some (nonempty_str f) ≡ true
    → is_some (nonempty_str q) ≡ true
    → validate_summary s ≡ ok s
    → check_point (point (str g) f q s) ≡ ok g
unfolding check_point check_field each get lookup subscript text_of is_dict nonempty_str entries
    of_entries
check_point-point g f q s hg hf hq hs = rw (hg, hf, hq, hs) refl

pub point_of-time :
    (artifact : Json) {p : Json}
    → point_of artifact ≡ ok p
    → (g : String) × (get artifact "generatedAt" null ≡ ok (str g)) × (check_point p ≡ ok g)
unfolding point_of
point_of-time artifact h = through (get artifact "generatedAt" null) _ h λ g got h₁.
    through (get artifact "frameworkVersion" null) _ h₁ λ f _ h₂.
      through (get artifact "qVersion" null) _ h₂ λ q _ h₃.
        through (get artifact "summary" null) _ h₃ λ s _ h₄.
          through (validate_summary s) _ h₄ λ s' valid h₅.
            past
              (not
                (is_some (nonempty_str g) && is_some (nonempty_str f) && is_some (nonempty_str q)))
              _ _ h₅
              λ texts h₆.
                let (hg, hf, hq) =
                  three (is_some (nonempty_str g)) (is_some (nonempty_str f))
                    (is_some (nonempty_str q)) texts in
                let (t, is_t) = is_text_of g hg in
                let same = validate_summary-same s valid in
                rw (← (ok-injective h₆)) (
                  t,
                  got ∙ ap ok is_t,
                  rw is_t (check_point-point t f q s' (rw is_t at hg) hf hq (rw same at valid)),
                )

pub previous_points-times :
    (existing : Option Json) {rows : List Json}
    → previous_points existing ≡ ok rows
    → (times : List String) × (map_m check_point rows ≡ ok times) × (distinct times ≡ true)
unfolding previous_points map_m distinct
previous_points-times none h = rw (← (ok-injective h)) ([], refl, refl)
previous_points-times (some existing) h = through (validate_trend existing) _ h λ previous valid h₁.
    through (subscript previous "points") _ h₁ λ points at h₂.
      let (points', rows', times, same, got, iterated, checked, once) =
        validate_trend-times existing valid in
      let is_points : points' ≡ points =
        get-eq-ok existing "points" null got
        ∙ ap (λ o. get_or o null)
            (ap (λ d. member d "points") same ∙ subscript-eq-ok previous "points" at) in
      (times, rw (ok-injective (sym iterated ∙ ap iterate is_points ∙ h₂)) at checked, once)

abbrev pub trend : Json → Json → List Json → Json
trend basis limit rows = object (
    ("schemaVersion", nat 1)
    ∷ ("kind", str "resq-self-coverage-trend")
    ∷ ("framework", str "resQ")
    ∷ ("experimental", bool true)
    ∷ ("gatingSupported", bool false)
    ∷ ("measurementBasis", basis)
    ∷ ("retentionLimit", limit)
    ∷ ("points", array rows)
    ∷ [])

-- A trend whose points have sorted and distinct times is valid.
pub validate_trend-trend :
    (basis limit : Json) (rows : List Json) (times : List String)
    → map_m check_point rows ≡ ok times
    → IsSorted str_le times
    → distinct times ≡ true
    → validate_trend (trend basis limit rows) ≡ ok (trend basis limit rows)
unfolding validate_trend check_contract is_bool_of is_nat is_text get lookup iterate is_dict is_list
    entries of_entries
validate_trend-trend basis limit rows times checked in_order once =
    rw
      (
        elements-of_elements rows,
        checked,
        sort-IsSorted_self str_le times in_order,
        (list_eq.beq_iff times times).1 refl,
        length-to_set_iff times,
        once,
      )
      refl
