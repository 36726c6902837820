-- ===== src/Py/Arithmetic.antt =====
-- `+`, `/` and `sum` on values, and what is taken of the first element.
use Prim.Native.String.{◌++◌ as append}
use resq.Base.{ℕ, suc, ◌+◌, ◌-◌, List, [], ◌∷◌, ◌++◌, Option, none, some, ltb, if◌then◌else◌}
use resq.Py.Value.{
  ℤ, pos, negsuc, Float, Json, null, int, float, str, arr, obj, elements, of_elements,
}
use resq.Py.Result.{Result, ok, err, type_error, index_error, key_error, ◌>>=◌}
use resq.Py.Floats.{float_of_int, plus, quotient, int_quotient}
use resq.Py.Equal.{Number, whole, real, number}
use resq.Py.Access.{characters}

-- `b` and more away from `a`
below : ℕ → ℕ → ℤ
below b a = negsuc (b - a)

unfoldable pub int_plus : ℤ → ℤ → ℤ
unfolding below
int_plus (pos a) (pos b) = pos (a + b)
int_plus (negsuc a) (negsuc b) = negsuc (suc (a + b))
int_plus (pos a) (negsuc b) = if ltb b a then pos (a - suc b) else below b a
int_plus (negsuc a) (pos b) = if ltb a b then pos (b - suc a) else below a b

add_numbers : Number → Number → Result Json
unfolding int_plus float_of_int plus
add_numbers (whole a) (whole b) = ok (int (int_plus a b))
add_numbers (whole a) (real g) = do f ← float_of_int a; ok (float (plus f g))
add_numbers (real f) (whole b) = do g ← float_of_int b; ok (float (plus f g))
add_numbers (real f) (real g) = ok (float (plus f g))

of_numbers : (Number → Number → Result Json) → Option Number → Option Number → Result Json
of_numbers f (some a) (some b) = f a b
of_numbers f none b = err type_error
of_numbers f (some a) none = err type_error

-- `x + y`
unfoldable pub added : Json → Json → Result Json
unfolding add_numbers of_numbers number elements of_elements
added (str s) (str t) = ok (str (append s t))
added (arr xs) (arr ys) = ok (arr (of_elements (elements xs ++ elements ys)))
added x y = of_numbers add_numbers (number x) (number y)

-- `sum(xs)`
unfoldable pub total_from : Json → List Json → Result Json
unfolding added
total_from sum [] = ok sum
total_from sum (x ∷ xs) = do next ← added sum x; total_from next xs

divide_numbers : Option Number → Option Number → Result Float
unfolding quotient int_quotient float_of_int
divide_numbers (some (whole a)) (some (whole b)) = int_quotient a b
divide_numbers (some (whole a)) (some (real g)) = do f ← float_of_int a; ok (quotient f g)
divide_numbers (some (real f)) (some (whole b)) = do g ← float_of_int b; ok (quotient f g)
divide_numbers (some (real f)) (some (real g)) = ok (quotient f g)
divide_numbers none b = err type_error
divide_numbers (some a) none = err type_error

-- `x / y`, for a `y` that is true
unfoldable pub divided_by : Json → Json → Result Float
unfolding divide_numbers number
divided_by x y = divide_numbers (number x) (number y)

-- `xs[0]` on a list
unfoldable pub first_of : List Json → Result Json
first_of [] = err index_error
first_of (x ∷ xs) = ok x

-- `x[0]`
unfoldable pub first : Json → Result Json
unfolding first_of elements characters
first (arr xs) = first_of (elements xs)
first (str s) = first_of (characters s)
first (obj fs) = err (key_error "0")
first null = err type_error
first _ = err type_error
