-- ===== src/Report.antt =====
-- tools/validate_report.py: what the checks of a report ask of a value.
pub mod Numbers
pub mod Benchmarks
pub mod Tests
pub mod Evidence
pub mod Rows
pub mod Shards
pub mod Completion
pub mod Manifest
pub mod Selection
pub mod Events
pub mod Timeline
pub mod Header
pub mod Summary
pub mod Sections
pub mod Gates
pub mod Validate
pub mod Projected
pub mod Accepted
pub mod Agreement
pub mod Covered
pub mod Refusals
pub mod Marked
pub mod Listed
use Prim.Native.Char.{Char, code}
use Prim.Native.String.{◌++◌ as append}
use resq.Base.{
  string_eq, ℕ, zero, suc, ◌+◌, ◌-◌, ◌*◌, ◌^◌, String, Bool, true, false, not, ◌&&◌, ◌||◌, List, [],
  ◌∷◌, Option, none, some, nat_eq, ltb, if◌then◌else◌, is_prefixed_hex,
}
use resq.Py.Value.{
  ℤ, pos, negsuc, Float, finite, Json, null, bool, int, float, str, arr, obj, entries, nat,
}
use resq.Py.Result.{Result, ok, err, value_error, type_error, attribute_error, ◌>>=◌, ◌>>◌}
use resq.Py.Dict.{keys}
use resq.Py.Access.{subscript, get, is_dict, is_list, is_str, is_bool, is_int, nonempty_str}
use resq.Py.Equal.{is_nat, is_text, py_eq}
use resq.Py.Checks.{is_null, refuse_if, has_all, as_count, is_one_of, is_member, lt, to_float}
use resq.Py.Floats.{rounded, apart, float_gt}
use resq.Py.Text.{Runtime}

-- a dict that has the names
unfoldable pub require : Json → List String → Result (Unit {0})
unfolding has_all
require (obj fs) names = refuse_if (not (has_all names (keys (entries fs)))) "missing"
require null names = err attribute_error
require _ names = err attribute_error

-- `isinstance(x, dict)`, then what is required of it
unfoldable pub require_object : Json → List String → Result (Unit {0})
unfolding is_dict require
require_object x names = do refuse_if (not (is_dict x)) "expected object"; require x names

unfoldable pub is_hex_id : String → Bool
unfolding is_prefixed_hex
is_hex_id s =
    is_prefixed_hex "run_" 32 s || is_prefixed_hex "test_" 32 s || is_prefixed_hex "case_" 32 s

unfoldable pub is_benchmark_id : String → Bool
unfolding is_prefixed_hex
is_benchmark_id = is_prefixed_hex "benchmark_" 32

abbrev pub statuses : List String
statuses = "pass" ∷ "fail" ∷ "error" ∷ "skip" ∷ "pending" ∷ []

-- a member of an object, as a check reads it
unfoldable pub expect_text : Json → String → String → String → Result (Unit {0})
unfolding subscript is_text
expect_text x name expected message = do
  v ← subscript x name
  refuse_if (not (is_text v expected)) message

unfoldable pub expect_nat : Json → String → ℕ → String → Result (Unit {0})
unfolding subscript is_nat
expect_nat x name n message = do v ← subscript x name; refuse_if (not (is_nat v n)) message

unfoldable pub expect_one_of : Json → String → List String → Result (Unit {0})
unfolding subscript is_one_of
expect_one_of x name names = do
  v ← subscript x name
  known ← is_one_of v names
  refuse_if (not known) "invalid"

unfoldable pub expect_bool : Json → String → Result (Unit {0})
unfolding subscript is_bool
expect_bool x name = do v ← subscript x name; refuse_if (not (is_bool v)) "expected boolean"

unfoldable pub expect_str : Json → String → Result (Unit {0})
unfolding subscript is_str
expect_str x name = do v ← subscript x name; refuse_if (not (is_str v)) "expected string"

unfoldable pub expect_dict : Json → String → Result (Unit {0})
unfolding subscript is_dict
expect_dict x name = do v ← subscript x name; refuse_if (not (is_dict v)) "expected object"

unfoldable pub expect_list : Json → String → Result (Unit {0})
unfolding subscript is_list
expect_list x name = do v ← subscript x name; refuse_if (not (is_list v)) "expected array"

unfoldable pub expect_count : Json → String → Result (Unit {0})
unfolding subscript as_count
expect_count x name = do
  v ← subscript x name
  elim (as_count v) [ none ↦ err (value_error "expected non-negative integer") | some n ↦ ok tt ]

-- `isinstance(x, str) and FORM.fullmatch(x)`
unfoldable pub has_form : (String → Bool) → Json → Bool
has_form form (str s) = form s
has_form form null = false
has_form form _ = false

unfoldable pub expect_form : (String → Bool) → Json → String → Result (Unit {0})
unfolding subscript has_form
expect_form form x name = do v ← subscript x name; refuse_if (not (has_form form v)) "invalid"

-- `FORM.fullmatch(x)`, which raises on what is not a text
unfoldable pub full_match : (String → Bool) → Json → Result Bool
full_match form (str s) = ok (form s)
full_match form null = err type_error
full_match form _ = err type_error

-- `isinstance(x, (int, float))` without `bool`
is_number : Json → Bool
is_number (int z) = true
is_number (float f) = true
is_number null = false
is_number _ = false

unfoldable pub require_non_negative_number : Json → String → Result (Unit {0})
unfolding subscript is_number lt
require_non_negative_number x name = do
  v ← subscript x name
  refuse_if (not (is_number v)) "expected non-negative number"
  negative ← lt v (nat 0)
  refuse_if negative "expected non-negative number"

-- `s.replace("Z", "+00:00")`
unfoldable pub with_offset : String → String
with_offset String.[] = String.[]
with_offset (String.◌∷◌ c s) =
    let rest = with_offset s in
    if nat_eq (code c) 90 then append "+00:00" rest else String.◌∷◌ c rest

-- how far the second instant is after the first, in microseconds
unfoldable pub span : ℤ → ℤ → Option ℕ
span (pos a) (pos b) = if ltb b a then none else some (b - a)
span (negsuc a) (pos b) = some (suc a + b)
span (pos a) (negsuc b) = none
span (negsuc a) (negsuc b) = if ltb a b then none else some (a - b)

-- `timedelta.total_seconds()`
unfoldable pub seconds : ℕ → Float
unfolding rounded
seconds microseconds = rounded (microseconds * 2 ^ 1074) 1000000

-- 0.001 and 1e-12
unfoldable pub millisecond : Float
unfolding rounded
millisecond = rounded (2 ^ 1074) 1000

unfoldable pub picosecond : Float
unfolding rounded
picosecond = rounded (2 ^ 1074) 1000000000000

module _ ⦃r : Runtime⦄ where
  instant : Option (Option ℤ) → Result ℤ
  instant none = err (value_error "Invalid isoformat string")
  instant (some none) = err (value_error "timezone offset is required")
  instant (some (some t)) = ok t

  unfoldable pub iso8601 : Json → Result ℤ
  unfolding with_offset instant
  iso8601 (str s) = instant (r.read_time (with_offset s))
  iso8601 null = err (value_error "expected ISO-8601 string")
  iso8601 _ = err (value_error "expected ISO-8601 string")

  unfoldable pub iso8601_at : Json → String → Result ℤ
  unfolding subscript iso8601
  iso8601_at x name = do v ← subscript x name; iso8601 v

  -- a number of the record is near the seconds that passed
  unfoldable pub check_elapsed : Json → String → ℕ → Result (Unit {0})
  unfolding subscript to_float apart float_gt seconds millisecond
  check_elapsed record_value name elapsed = do
    v ← subscript record_value name
    number ← to_float v
    refuse_if (float_gt (apart number (seconds elapsed)) millisecond)
        "disagrees with timing interval"

  unfoldable pub elapsed_of : Option ℕ → Result ℕ
  elapsed_of none = err (value_error "finishedAt precedes startedAt")
  elapsed_of (some n) = ok n

  unfoldable pub validate_known_interval : Json → Json → Json → Result (Unit {0})
  unfolding iso8601 span elapsed_of is_member check_elapsed
  validate_known_interval row started finished = do
    parsed_start ← iso8601 started
    parsed_finish ← iso8601 finished
    elapsed ← elapsed_of (span parsed_start parsed_finish)
    timed ← is_member row "durationSeconds"
    if timed then check_elapsed row "durationSeconds" elapsed else ok tt

  unfoldable pub validate_interval : Json → Result (Unit {0})
  unfolding is_member subscript is_null validate_known_interval
  validate_interval row = do
    starts ← is_member row "startedAt"
    finishes ← is_member row "finishedAt"
    let known = do
      refuse_if (not starts || not finishes) "startedAt and finishedAt must appear together"
      started ← subscript row "startedAt"
      finished ← subscript row "finishedAt"
      refuse_if
          (is_null started && not (is_null finished) || is_null finished && not (is_null started))
          "timing interval must be fully known or null"
      if is_null started then ok tt else validate_known_interval row started finished
    if starts || finishes then known else ok tt

  unfoldable pub validate_diagnostic : Json → Result (Unit {0})
  unfolding require_object expect_one_of expect_dict is_member iso8601_at
  validate_diagnostic diagnostic = do
    require_object diagnostic ("type" ∷ "severity" ∷ "phase" ∷ "message" ∷ "data" ∷ [])
    expect_one_of diagnostic "severity" ("info" ∷ "warning" ∷ "error" ∷ [])
    expect_dict diagnostic "data"
    timed ← is_member diagnostic "timestamp"
    let stamp = do instant_read ← iso8601_at diagnostic "timestamp"; ok tt
    if timed then stamp else ok tt
