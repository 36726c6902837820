-- ===== src/Trend.antt =====
-- tools/self_coverage_trend.py: a bounded history of coverage summaries.
pub mod Origin
pub mod Points
pub mod Retention
pub mod Validity
use resq.Base.{
  string_eq, list_eq, ℕ, String, Bool, true, false, not, ◌&&◌, ◌||◌, ◌-◌, List, [], ◌∷◌, ◌++◌, map,
  Option, none, some, ◌==◌, nat_eq, ltb, leb, length, drop, to_set, same_set, if◌then◌else◌, ◌≡◌,
  str_le,
}
use resq.Base.Sorting.{sort}
use resq.Py.Value.{Json, null, bool, int, pos, str, arr, obj, nat, entries, array, object}
use resq.Py.Result.{Exn, Result, ok, err, runtime_error, raise_if, ◌>>=◌, ◌>>◌}
use resq.Py.Dict.{keys, is_some}
use resq.Py.Access.{text_of, get, subscript, iterate, is_dict, is_list, nonempty_str}
use resq.Py.Equal.{py_eq, is_nat, is_text}
use resq.Py.Hash.{Atom, hashed}
use resq.Py.Order.{less, sort_m}
use resq.Py.Checks.{as_count}
use resq.Py.Loops.{each, map_m, filter_m}

abbrev pub summary_keys : List String
summary_keys =
    "functionsMeasured" ∷ "functionsHit" ∷ "logicalLinesMeasured" ∷ "logicalLinesHit"
    ∷ "blocksMeasured" ∷ "blocksHit" ∷ []

unfoldable pub within : Option ℕ → Option ℕ → Bool
within (some measured) (some hit) = leb hit measured
within none hit = false
within (some measured) none = false

unfoldable pub check_basis : Json → String × String → Result (Unit {0})
unfolding as_count within
check_basis summary (measured_key, hit_key) = do
  measured ← subscript summary measured_key
  hit ← subscript summary hit_key
  raise_if (not (within (as_count measured) (as_count hit)))
      (runtime_error "invalid self-coverage counts")

-- `set(x) == keys` for a dict
unfoldable pub has_keys : Json → List String → Bool
has_keys (obj fs) names = same_set (keys (entries fs)) names
has_keys null names = false
has_keys _ names = false

abbrev pub bases : List (String × String)
bases =
    ("functionsMeasured", "functionsHit")
    ∷ ("logicalLinesMeasured", "logicalLinesHit")
    ∷ ("blocksMeasured", "blocksHit")
    ∷ []

unfoldable pub validate_summary : Json → Result Json
unfolding has_keys check_basis
validate_summary summary = do
  raise_if (not (has_keys summary summary_keys))
      (runtime_error "self-coverage trend summary contract drifted")
  each (check_basis summary) bases
  ok summary

-- `x is True` and `x is False`
unfoldable pub is_bool_of : Json → Bool → Bool
is_bool_of (bool true) b = b
is_bool_of (bool false) b = not b
is_bool_of null b = false
is_bool_of _ b = false

abbrev pub identity_fields : List String
identity_fields = "generatedAt" ∷ "frameworkVersion" ∷ "qVersion" ∷ []

unfoldable pub check_field : Json → String → Result (Unit {0})
check_field point name = do
  value ← get point name null
  raise_if (not (is_some (nonempty_str value)))
      (runtime_error "self-coverage trend point lacks a field")

-- a point of a trend is checked, and its time is returned
unfoldable pub check_point : Json → Result String
unfolding check_field validate_summary text_of
check_point point = do
  raise_if (not (is_dict point)) (runtime_error "self-coverage trend point must be an object")
  each (check_field point) identity_fields
  summary ← get point "summary" null
  validated ← validate_summary summary
  generated_at ← subscript point "generatedAt"
  text_of generated_at

unfoldable pub check_contract : Json → Result (Unit {0})
unfolding is_bool_of
check_contract document = do
  version ← get document "schemaVersion" null
  kind ← get document "kind" null
  experimental ← get document "experimental" null
  gating ← get document "gatingSupported" null
  raise_if
      (not (is_nat version 1)
        || not (is_text kind "resq-self-coverage-trend")
        || not (is_bool_of experimental true)
        || not (is_bool_of gating false))
      (runtime_error "unexpected self-coverage trend contract")

unfoldable pub validate_trend : Json → Result Json
unfolding check_contract check_point
validate_trend document = do
  raise_if (not (is_dict document)) (runtime_error "self-coverage trend must be an object")
  check_contract document
  points ← get document "points" null
  raise_if (not (is_list points)) (runtime_error "self-coverage trend points must be an array")
  rows ← iterate points
  timestamps ← map_m check_point rows
  raise_if
      (not (timestamps == sort str_le timestamps)
        || not (nat_eq (length timestamps) (length (to_set timestamps))))
      (runtime_error "self-coverage trend timestamps must be unique and sorted")
  ok document

-- `limit`, if it is an `int` from 1 through 1000
unfoldable pub valid_limit : Option ℕ → Result ℕ
valid_limit none = err (runtime_error "self-coverage trend limit must be from 1 through 1000")
valid_limit (some n) = do
  raise_if (ltb n 1 || ltb 1000 n)
      (runtime_error "self-coverage trend limit must be from 1 through 1000")
  ok n

-- the point of an artifact
unfoldable pub point_of : Json → Result Json
unfolding validate_summary
point_of artifact = do
  generated_at ← get artifact "generatedAt" null
  framework_version ← get artifact "frameworkVersion" null
  q_version ← get artifact "qVersion" null
  summary ← get artifact "summary" null
  validated ← validate_summary summary
  let point = object (
      ("generatedAt", generated_at)
      ∷ ("frameworkVersion", framework_version)
      ∷ ("qVersion", q_version)
      ∷ ("summary", validated)
      ∷ [])
  raise_if
      (not (
        is_some (nonempty_str generated_at)
        && is_some (nonempty_str framework_version)
        && is_some (nonempty_str q_version)))
      (runtime_error "self-coverage source lacks trend identity")
  ok point

unfoldable pub previous_points : Option Json → Result (List Json)
unfolding validate_trend
previous_points none = ok []
previous_points (some existing) = do
  previous ← validate_trend existing
  points ← subscript previous "points"
  iterate points

-- `old["generatedAt"] != point["generatedAt"]`
unfoldable pub is_other : Json → Json → Result Bool
is_other point old = do
  old_time ← subscript old "generatedAt"
  new_time ← subscript point "generatedAt"
  ok (not (py_eq old_time new_time))

unfoldable pub by_time : Json → Result (Atom × Json)
by_time row = do
  generated_at ← subscript row "generatedAt"
  key ← hashed generated_at
  ok (key, row)

-- `points.sort(key=lambda row: row["generatedAt"])`
unfoldable pub sort_points : List Json → Result (List Json)
unfolding by_time
sort_points points = do
  keyed ← map_m by_time points
  sorted ← sort_m (λ a b. less a.0 b.0) keyed
  ok (map (λ (pair : Atom × Json). pair.1) sorted)

unfoldable pub append_point : Json → Option Json → Json → Result Json
unfolding valid_limit as_count is_bool_of point_of previous_points is_other sort_points
append_point artifact existing limit = do
  n ← valid_limit (as_count limit)
  measurement ← get artifact "measurement" (object [])
  complete ← get measurement "complete" null
  gating ← get measurement "gatingSupported" null
  raise_if (not (is_bool_of complete false) || not (is_bool_of gating false))
      (runtime_error "self-coverage source must be partial and non-gating")
  point ← point_of artifact
  previous ← previous_points existing
  others ← filter_m (is_other point) previous
  sorted ← sort_points (others ++ point ∷ [])
  basis ← get measurement "basis" (str "provider-defined partial measurement")
  ok (
      object (
        ("schemaVersion", nat 1)
        ∷ ("kind", str "resq-self-coverage-trend")
        ∷ ("framework", str "resQ")
        ∷ ("experimental", bool true)
        ∷ ("gatingSupported", bool false)
        ∷ ("measurementBasis", basis)
        ∷ ("retentionLimit", limit)
        ∷ ("points", array (drop (length sorted - n) sorted))
        ∷ []))
