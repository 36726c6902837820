-- ===== src/Py/Floats.antt =====
-- Arithmetic on binary64, exact: a value is rounded to the nearest, and a tie to the even one.
use mathlib.Core.Path.{subst, sym}
use native.Mathlib.Nat.{pow-suc}
use resq.Base.{
  ℕ, zero, suc, ◌+◌, ◌-◌, ◌*◌, ◌/◌, ◌%◌, ◌^◌, Bool, true, false, not, ◌&&◌, ◌||◌, ltb, leb, nat_eq,
  bool_eq, if◌then◌else◌, ◌<◌, Bool-cases, inl, inr, nat_eq_iff, arith,
}
use resq.Py.Value.{ℤ, pos, negsuc, Float, finite, infinity, nan}
use resq.Py.Result.{Result, ok, err, overflow_error, ◌>>=◌}

-- how many binary digits a number has; a binary64 has at most 2098 before its last place
bits : ℕ → ℕ → ℕ
bits zero n = 0
bits (suc fuel) n = let rest = bits fuel (n / 2) in if nat_eq n 0 then 0 else suc rest

half_below : (n p : ℕ) → n < p * 2 → n / 2 < p
half_below n p h = omega arith

twice_above : (n p : ℕ) → n / 2 < p → n < p * 2
twice_above n p h = omega arith

-- With enough fuel the count of the digits of a number bounds it.
bits_enough : (fuel n : ℕ) → n < 2 ^ fuel → n < 2 ^ bits fuel n
unfolding bits
bits_enough zero n h = h
bits_enough (suc fuel) n h = elim (Bool-cases (nat_eq n 0)) [
  | inl e ↦ rw e (omega (arith, (nat_eq_iff n 0).0 e))
  | inr e ↦ rw e (
      subst (λ p. n < p) (sym (pow-suc 2 (bits fuel (n / 2))))
        (twice_above n (2 ^ bits fuel (n / 2)) (
          bits_enough fuel (n / 2)
            (half_below n (2 ^ fuel) (subst (λ p. n < p) (pow-suc 2 fuel) h)))))
]

-- the count of units next to `num / den`
round_at : ℕ → ℕ → ℕ → ℕ
round_at num den step =
    let whole = den * step in
    let hi = num / whole in
    let twice = 2 * (num % whole) in
    let up = ltb whole twice || (nat_eq whole twice && nat_eq (hi % 2) 1) in
    (if up then suc hi else hi) * step

unfoldable pub rounded : ℕ → ℕ → Float
unfolding bits round_at
rounded num den =
    let digits = bits 5000 (num / den) in
    let units = round_at num den (2 ^ (digits - 53)) in
    if ltb units (2 ^ 2098) then finite false units else infinity false

-- a float of that many units
unit_scale : ℕ
unit_scale = 2 ^ 1074

not_too_large : Float → Result Float
not_too_large (finite s m) = ok (finite s m)
not_too_large (infinity s) = err overflow_error
not_too_large nan = err overflow_error

-- `float(n)`, which raises if the number is too large
unfoldable pub float_of_nat : ℕ → Result Float
unfolding rounded unit_scale not_too_large
float_of_nat n = not_too_large (rounded (n * unit_scale) 1)

unfoldable pub negated : Float → Float
negated (finite s m) = finite (not s) m
negated (infinity s) = infinity (not s)
negated nan = nan

with_sign : Bool → Float → Float
unfolding negated
with_sign true f = negated f
with_sign false f = f

unfoldable pub float_of_int : ℤ → Result Float
unfolding float_of_nat negated
float_of_int (pos n) = float_of_nat n
float_of_int (negsuc n) = do f ← float_of_nat (suc n); ok (negated f)

-- products and quotients of floats that are not below 0
unfoldable pub times : Float → Float → Float
unfolding rounded unit_scale
times (finite s m) (finite t n) = rounded (m * n) unit_scale
times (infinity s) (finite t n) = if nat_eq n 0 then nan else infinity s
times (finite s m) (infinity t) = if nat_eq m 0 then nan else infinity t
times (infinity s) (infinity t) = infinity false
times nan y = nan
times x nan = nan

unfoldable pub divided : Float → Float → Float
unfolding rounded unit_scale
divided (finite s m) (finite t n) = rounded (m * unit_scale) n
divided (infinity s) (finite t n) = infinity s
divided nan y = nan
divided x y = nan

-- `a <= b`
unfoldable pub float_le : Float → Float → Bool
float_le (finite false m) (finite false n) = leb m n
float_le (finite true m) (finite true n) = leb n m
float_le (finite true m) (finite false n) = true
float_le (finite false m) (finite true n) = nat_eq m 0 && nat_eq n 0
float_le (finite s m) (infinity t) = not t
float_le (infinity s) (finite t n) = s
float_le (infinity s) (infinity t) = s || not t
float_le nan y = false
float_le x nan = false

distance : ℕ → ℕ → ℕ
distance m n = if leb m n then n - m else m - n

-- `abs(a - b)`
unfoldable pub apart : Float → Float → Float
unfolding rounded distance
apart (finite s m) (finite t n) = rounded (if bool_eq s t then distance m n else m + n) 1
apart (infinity s) (infinity t) = if bool_eq s t then nan else infinity false
apart (infinity s) (finite t n) = infinity false
apart (finite s m) (infinity t) = infinity false
apart nan y = nan
apart x nan = nan

-- `a > b`
unfoldable pub float_gt : Float → Float → Bool
unfolding float_le
float_gt nan y = false
float_gt x nan = false
float_gt x y = not (float_le x y)

-- `math.isfinite(x)`
unfoldable pub is_finite : Float → Bool
is_finite (finite s m) = true
is_finite (infinity s) = false
is_finite nan = false

-- `a + b`
unfoldable pub plus : Float → Float → Float
unfolding rounded with_sign distance
plus (finite s m) (finite t n) =
    if bool_eq s t
    then with_sign s (rounded (m + n) 1)
    else with_sign (if leb m n then (if nat_eq m n then false else t) else s)
        (rounded (distance m n) 1)
plus (infinity s) (infinity t) = if bool_eq s t then infinity s else nan
plus (infinity s) (finite t n) = infinity s
plus (finite s m) (infinity t) = infinity t
plus nan y = nan
plus x nan = nan

differ : Bool → Bool → Bool
differ s t = not (bool_eq s t)

-- `a / b` on floats, for a `b` that is not 0
unfoldable pub quotient : Float → Float → Float
unfolding rounded unit_scale with_sign differ
quotient (finite s m) (finite t n) = with_sign (differ s t) (rounded (m * unit_scale) n)
quotient (infinity s) (finite t n) = infinity (differ s t)
quotient (finite s m) (infinity t) = finite (differ s t) 0
quotient (infinity s) (infinity t) = nan
quotient nan y = nan
quotient x nan = nan

size_of : ℤ → ℕ
size_of (pos n) = n
size_of (negsuc n) = suc n

is_negative : ℤ → Bool
is_negative (pos n) = false
is_negative (negsuc n) = true

-- `a / b` on ints, for a `b` that is not 0: the exact quotient is rounded
unfoldable pub int_quotient : ℤ → ℤ → Result Float
unfolding rounded unit_scale with_sign differ size_of is_negative not_too_large
int_quotient a b = do
  f ← not_too_large (rounded (size_of a * unit_scale) (size_of b))
  ok (with_sign (differ (is_negative a) (is_negative b)) f)
