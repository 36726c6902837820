-- ===== src/Py/Equal.antt =====
-- `==` on JSON values: numbers compare across `bool`, `int` and `float`, dicts without order.
use resq.Base.{
  string_eq, ℕ, suc, ◌*◌, ◌^◌, String, Bool, true, false, ◌&&◌, ◌||◌, Option, none, some, ◌==◌,
  nat_eq, bool_eq, length,
}
use resq.Py.Value.{
  ℤ, pos, negsuc, Float, finite, infinity, nan, Json, null, bool, int, float, str, arr, obj, Items,
  nil, cons, Fields, end, field, entries,
}
use resq.Py.Dict.{lookup}

pub data Number : Type 0 where
  whole : ℤ → Number
  real : Float → Number

unfoldable pub number : Json → Option Number
number (bool true) = some (whole (pos 1))
number (bool false) = some (whole (pos 0))
number (int z) = some (whole z)
number (float f) = some (real f)
number _ = none

unfoldable pub int_eq : ℤ → ℤ → Bool
int_eq (pos n) (pos m) = nat_eq n m
int_eq (negsuc n) (negsuc m) = nat_eq n m
int_eq (pos n) (negsuc m) = false
int_eq (negsuc n) (pos m) = false

-- 0.0 == -0.0, and nan is equal to nothing
unfoldable pub float_eq : Float → Float → Bool
float_eq (finite s m) (finite t n) = nat_eq m n && (bool_eq s t || nat_eq m 0)
float_eq (infinity s) (infinity t) = bool_eq s t
float_eq _ _ = false

-- exact, as Python compares an `int` with a `float`
unfoldable pub float_is : Float → ℤ → Bool
float_is (finite s m) (pos n) = nat_eq m (n * 2 ^ 1074) && (bool_eq s false || nat_eq m 0)
float_is (finite s m) (negsuc n) = nat_eq m (suc n * 2 ^ 1074) && s
float_is (infinity s) z = false
float_is nan z = false

unfoldable pub number_eq : Number → Number → Bool
unfolding int_eq float_eq float_is
number_eq (whole z) (whole w) = int_eq z w
number_eq (whole z) (real f) = float_is f z
number_eq (real f) (whole z) = float_is f z
number_eq (real f) (real g) = float_eq f g

unfoldable pub numbers_eq : Option Number → Option Number → Bool
unfolding number_eq
numbers_eq (some x) (some y) = number_eq x y
numbers_eq none y = false
numbers_eq x none = false

unfoldable mutual
  unfolding number numbers_eq

  pub py_eq : Json → Json → Bool
  py_eq null null = true
  py_eq (str s) (str t) = s == t
  py_eq (arr xs) (arr ys) = items_eq xs ys
  py_eq (obj fs) (obj gs) = nat_eq (length (entries fs)) (length (entries gs)) && fields_in fs gs
  py_eq x y = numbers_eq (number x) (number y)

  pub items_eq : Items → Items → Bool
  items_eq nil nil = true
  items_eq (cons x xs) (cons y ys) = py_eq x y && items_eq xs ys
  items_eq _ _ = false

  pub fields_in : Fields → Fields → Bool
  fields_in end gs = true
  fields_in (field k v fs) gs =
      elim (lookup k (entries gs)) [ none ↦ false | some w ↦ py_eq v w ] && fields_in fs gs

-- `x == n` for a number of the source
unfoldable pub is_nat : Json → ℕ → Bool
unfolding numbers_eq number
is_nat x n = numbers_eq (number x) (some (whole (pos n)))

-- `x == s` for a text of the source
unfoldable pub is_text : Json → String → Bool
is_text (str t) s = t == s
is_text null s = false
is_text _ s = false
