-- ===== src/Samples/Trends.antt =====
-- tools/self_coverage_trend.py on a trend of one point with a limit of one.
use resq.Base.{
  string_eq, ℕ, String, List, true, false, [], ◌∷◌, some, ◌≡◌, refl, distinct, drop, length, ◌-◌,
  str_le,
}
use resq.Base.Sorting.{IsSorted}
use resq.Py.Value.{Json, bool, str, array, object, nat}
use resq.Py.Access.{get}
use resq.Py.Value.{null}
use resq.Py.Result.{ok}
use resq.Py.Fields.{member}
use resq.Py.Loops.{map_m, Pointwise}
use resq.Py.Running.{python}
use resq.Trend.{check_point, validate_trend, append_point}
use resq.Trend.Origin.{IsPointOf, HasPoints, IsAt, IsOrigin}
use resq.Trend.Retention.{append_point-validate_trend, append_point-latest}

abbrev summary : Json
summary = object (
    ("functionsMeasured", nat 4)
    ∷ ("functionsHit", nat 3)
    ∷ ("logicalLinesMeasured", nat 9)
    ∷ ("logicalLinesHit", nat 9)
    ∷ ("blocksMeasured", nat 0)
    ∷ ("blocksHit", nat 0)
    ∷ [])

abbrev point : String → Json
point time = object (
    ("generatedAt", str time)
    ∷ ("frameworkVersion", str "1")
    ∷ ("qVersion", str "4.1")
    ∷ ("summary", summary)
    ∷ [])

abbrev trend : List Json → Json
trend rows = object (
    ("schemaVersion", nat 1)
    ∷ ("kind", str "resq-self-coverage-trend")
    ∷ ("framework", str "resQ")
    ∷ ("experimental", bool true)
    ∷ ("gatingSupported", bool false)
    ∷ ("measurementBasis", str "calls")
    ∷ ("retentionLimit", nat 1)
    ∷ ("points", array rows)
    ∷ [])

abbrev artifact : Json
artifact = object (
    (
      "measurement",
      object (
          ("complete", bool false) ∷ ("gatingSupported", bool false) ∷ ("basis", str "calls") ∷ []),
    )
    ∷ ("generatedAt", str "2026-02")
    ∷ ("frameworkVersion", str "1")
    ∷ ("qVersion", str "4.1")
    ∷ ("summary", summary)
    ∷ [])

abbrev before : Json
before = trend (point "2026-01" ∷ [])

abbrev after : Json
after = trend (point "2026-02" ∷ [])

appended : append_point artifact (some before) (nat 1) ≡ ok after
unfolding append_point python
appended = refl

append_point-validate_trend_example : validate_trend after ≡ ok after
append_point-validate_trend_example =
    append_point-validate_trend artifact (some before) (nat 1) after appended

append_point-latest_example :
    (n : ℕ) × (g : String) × (new : Json) × (previous : List Json) × (all : List Json)
    × (times : List String) × (nat 1 ≡ nat n)
    × (get artifact "generatedAt" null ≡ ok (str g))
    × IsPointOf artifact new
    × HasPoints (some before) previous
    × (member after "points" ≡ some (array (drop (length all - n) all)))
    × (map_m check_point all ≡ ok times)
    × Pointwise (λ row t. IsAt t row) all times
    × IsSorted str_le times
    × (distinct times ≡ true)
    × IsOrigin g new previous all
append_point-latest_example = append_point-latest artifact (some before) (nat 1) after appended
