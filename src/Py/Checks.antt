-- ===== src/Py/Checks.antt =====
-- What the validators ask of values: types, members, membership in a set of texts, order, numbers.
use resq.Base.{
  string_eq, ℕ, suc, String, Bool, true, false, ◌&&◌, List, [], ◌∷◌, map, Option, none, some,
  contains, distinct, length,
}
use resq.Py.Value.{pos, Float, Json, null, bool, int, float, str, arr, obj, elements, entries}
use resq.Py.Result.{Result, ok, err, value_error, type_error, key_error, raise_if, ◌>>=◌}
use resq.Py.Dict.{Dict, lookup}
use resq.Py.Access.{has_key}
use resq.Py.Hash.{text, hashed, atom_eq}
use resq.Py.Order.{less}
use resq.Py.Loops.{map_m}
use resq.Py.Floats.{float_of_int}
use resq.Py.Text.{Runtime}

-- `if b: raise ValueError(message)`
abbrev pub refuse_if : Bool → String → Result (Unit {0})
refuse_if b message = raise_if b (value_error message)

-- `x in {names}`
unfoldable pub is_one_of : Json → List String → Result Bool
unfolding hashed contains
is_one_of x names = do key ← hashed x; ok (contains key (map text names))

-- `x < y`; lists and dicts raise, and so do other types that do not compare
unfoldable pub lt : Json → Json → Result Bool
unfolding hashed less
lt x y = do a ← hashed x; b ← hashed y; less a b

-- `isinstance(x, int)` without `bool`, and `x >= 0`
unfoldable pub as_count : Json → Option ℕ
as_count (int (pos n)) = some n
as_count null = none
as_count _ = none

-- `x is None`
unfoldable pub is_null : Json → Bool
is_null null = true
is_null (bool b) = false
is_null _ = false

-- `x is True`
unfoldable pub is_true : Json → Bool
is_true (bool b) = b
is_true null = false
is_true _ = false

-- `x` as the number that a check has found it to be
unfoldable pub nat_of : Json → Result ℕ
unfolding as_count
nat_of x = elim (as_count x) [ none ↦ err type_error | some n ↦ ok n ]

-- `x` as the Boolean that a check has found it to be
unfoldable pub bool_of : Json → Result Bool
bool_of (bool b) = ok b
bool_of null = err type_error
bool_of _ = err type_error

-- `d[k]` on a dict of the program's own
unfoldable pub at_key {ℓ} : {V : Type ℓ} → String → Dict String V → Result V
unfolding lookup
at_key k d = elim (lookup k d) [ none ↦ err (key_error k) | some v ↦ ok v ]

-- `all(name in x for name in names)`
unfoldable pub has_all : List String → List String → Bool
unfolding contains
has_all [] present = true
has_all (name ∷ names) present = contains name present && has_all names present

-- `name in x`, on a dict
unfoldable pub is_member : Json → String → Result Bool
is_member (obj fs) name = ok (has_key fs name)
is_member null name = err type_error
is_member _ name = err type_error

-- `len(set(xs)) == len(xs)`
unfoldable pub are_distinct : List Json → Result Bool
unfolding hashed map_m distinct
are_distinct xs = do names ← map_m hashed xs; ok (distinct names)

unfoldable pub text_length : String → ℕ
text_length String.[] = 0
text_length (String.◌∷◌ c s) = suc (text_length s)

-- `len(x)`
unfoldable pub len : Json → Result ℕ
unfolding text_length
len (arr xs) = ok (length (elements xs))
len (obj fs) = ok (length (entries fs))
len (str s) = ok (text_length s)
len null = err type_error
len _ = err type_error

module _ ⦃r : Runtime⦄ where
  -- what `float(s)` gives for a text
  read : Option Float → Result Float
  read (some f) = ok f
  read none = err (value_error "could not convert string to float")

  -- `float(x)`
  unfoldable pub to_float : Json → Result Float
  unfolding read float_of_int
  to_float (float f) = ok f
  to_float (int z) = float_of_int z
  to_float (bool true) = float_of_int (pos 1)
  to_float (bool false) = float_of_int (pos 0)
  to_float (str s) = read (r.read_float s)
  to_float null = err type_error
  to_float _ = err type_error
