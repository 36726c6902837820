-- ===== src/Coverage.antt =====
-- tools/coverage_contract.py: what every check of the contract asks of a value.
pub mod Summary
pub mod Gates
pub mod Sites
pub mod Functions
pub mod Files
pub mod Contexts
pub mod Measurement
pub mod Reads
pub mod Consistency
pub mod Found
pub mod Edges
pub mod Branches
pub mod Verdict
pub mod Parts
pub mod Totals
pub mod Identities
pub mod Observed
pub mod Limits
pub mod Hits
pub mod Metrics
pub mod Artifact
pub mod References
use resq.Base.{
  string_eq, ℕ, zero, suc, ◌+◌, ◌^◌, String, Bool, true, false, not, ◌&&◌, ◌||◌, List, [], ◌∷◌,
  Option, none, some, nat_eq, ltb, if◌then◌else◌, ◌*◌,
}
use resq.Py.Value.{ℤ, pos, Float, finite, Json, null, bool, int, float, str, arr, obj, entries}
use resq.Py.Result.{Result, ok, err, value_error, ◌>>=◌, ◌>>◌}
use resq.Py.Dict.{keys}
use resq.Py.Access.{subscript}
use resq.Py.Checks.{refuse_if, has_all, as_count}
use resq.Py.Floats.{rounded, float_of_nat, float_of_int, times, divided, apart, float_gt, float_le}

abbrev pub fallbacks : List String
fallbacks =
    "none" ∷ "statement_mode_disabled" ∷ "source_not_loaded" ∷ "function_wrapper_unavailable"
    ∷ "rewrite_rejected" ∷ []

-- a dict that has the names
unfoldable pub require : Json → List String → Result Json
unfolding has_all
require (obj fs) names = do
  refuse_if (not (has_all names (keys (entries fs)))) "missing"
  ok (obj fs)
require null names = err (value_error "expected object")
require _ names = err (value_error "expected object")

unfoldable pub nonnegative_int : Json → Result ℕ
unfolding as_count
nonnegative_int value = elim (as_count value) [
  | none ↦ err (value_error "expected non-negative integer")
  | some n ↦ ok n
]

unfoldable pub boolean : Json → Result Bool
boolean (bool b) = ok b
boolean null = err (value_error "expected boolean")
boolean _ = err (value_error "expected boolean")

-- 100.0 and 0.0001
unfoldable pub hundred : Float
hundred = finite false (100 * 2 ^ 1074)

unfoldable pub tolerance : Float
unfolding rounded
tolerance = rounded (2 ^ 1074) 10000

in_percent_range : Float → Result Float
unfolding hundred float_le
in_percent_range number = do
  refuse_if (not (float_le (finite false 0) number && float_le number hundred))
      "expected percentage from 0 through 100"
  ok number

unfoldable pub percent : Json → Result Float
unfolding float_of_int in_percent_range
percent (int z) = do number ← float_of_int z; in_percent_range number
percent (float f) = in_percent_range f
percent null = err (value_error "expected percentage")
percent _ = err (value_error "expected percentage")

unfoldable pub expected_percent : ℕ → ℕ → Result Float
unfolding float_of_nat times divided hundred
expected_percent hit zero = ok (finite false 0)
expected_percent hit (suc n) = do
  hits ← float_of_nat hit
  whole ← float_of_nat (suc n)
  ok (divided (times hundred hits) whole)

unfoldable pub equal_percent : Json → ℕ → ℕ → Result (Unit {0})
unfolding expected_percent percent apart float_gt tolerance
equal_percent actual hit found = do
  expected ← expected_percent hit found
  number ← percent actual
  refuse_if (float_gt (apart number expected) tolerance) "disagrees with hit/found counts"

-- a member that is read as a count, or as a Boolean
unfoldable pub count_at : Json → String → Result ℕ
unfolding subscript nonnegative_int
count_at value name = do member ← subscript value name; nonnegative_int member

unfoldable pub flag_at : Json → String → Result Bool
unfolding subscript boolean
flag_at value name = do member ← subscript value name; boolean member
