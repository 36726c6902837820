-- ===== src/Py/Order.antt =====
-- `<` and `sorted` on values that can be keys, and `range`. Numbers compare with numbers and texts
-- with texts; any other comparison raises.
pub mod Kept
pub mod Mapped
use resq.Base.{
  string_eq, ℕ, zero, suc, ◌+◌, ◌*◌, ◌/◌, ◌%◌, ◌^◌, String, Bool, true, false, not, ◌&&◌, ◌||◌,
  List, [], ◌∷◌, map, Option, none, some, ◌==◌, nat_eq, ltb, bool_eq, if◌then◌else◌, ◌≡◌, refl,
  str_le, contains, length, ap, arith, Eq, ◌∙◌,
}
use resq.Py.Value.{ℤ, pos, negsuc, Float, finite, infinity, nan, Json, null, bool, int, float}
use resq.Py.Result.{Exn, Result, ok, err, type_error, ◌>>=◌, through, ok-injective}
use resq.Py.Hash.{
  Atom, none_key, not_a_number, natural, negative, fraction, infinite, text, atom_eq,
}
use resq.Base.{Bool-cases, inl, inr}

-- a number as its sign and its size in units of 2^-1074
pub data Size : Type 0 where
  sized : Bool → ℕ → Size
  endless : Bool → Size
  unordered : Size

size : Atom → Option Size
size (natural n) = some (sized false (n * 2 ^ 1074))
size (negative n) = some (sized true (suc n * 2 ^ 1074))
size (fraction s m) = some (sized s m)
size (infinite s) = some (endless s)
size not_a_number = some unordered
size none_key = none
size (text s) = none

size_lt : Size → Size → Bool
size_lt (sized false m) (sized false n) = ltb m n
size_lt (sized true m) (sized true n) = ltb n m
size_lt (sized true m) (sized false n) = not (nat_eq m 0 && nat_eq n 0)
size_lt (sized false m) (sized true n) = false
size_lt (sized s m) (endless t) = not t
size_lt (endless s) (sized t n) = s
size_lt (endless s) (endless t) = s && not t
size_lt unordered y = false
size_lt x unordered = false

sizes_lt : Option Size → Option Size → Result Bool
unfolding size_lt
sizes_lt (some x) (some y) = ok (size_lt x y)
sizes_lt none y = err type_error
sizes_lt (some x) none = err type_error

-- `a < b`
unfoldable pub less : Atom → Atom → Result Bool
unfolding size sizes_lt str_le
less (text s) (text t) = ok (not (str_le t s))
less x y = sizes_lt (size x) (size y)

-- `a < b` on tuples: the first place where they differ decides
unfoldable pub less_tuple : List Atom → List Atom → Result Bool
unfolding less
less_tuple [] [] = ok false
less_tuple [] (y ∷ ys) = ok true
less_tuple (x ∷ xs) [] = ok false
less_tuple (x ∷ xs) (y ∷ ys) = let rest = less_tuple xs ys in if x == y then rest else less x y

-- `sorted` by a comparison that may raise; it is stable
module _ {ℓ} {A : Type ℓ} (lt : A → A → Result Bool) where
  unfoldable pub insort_m : A → List A → Result (List A)
  insort_m x [] = ok (x ∷ [])
  insort_m x (y ∷ ys) = do
    before ← lt y x
    let rest = insort_m x ys
    if before then (do zs ← rest; ok (y ∷ zs)) else ok (x ∷ y ∷ ys)

  unfoldable pub sort_m : List A → Result (List A)
  unfolding insort_m
  sort_m [] = ok []
  sort_m (x ∷ xs) = do ys ← sort_m xs; insort_m x ys

-- `list(range(n))`
unfoldable pub range_from : ℕ → ℕ → List ℕ
range_from start zero = []
range_from start (suc n) = start ∷ range_from (start + 1) n

-- the bound of `range(x)`
unfoldable pub range_bound : Json → Result ℕ
range_bound (int (pos n)) = ok n
range_bound (int (negsuc n)) = ok 0
range_bound (bool true) = ok 1
range_bound (bool false) = ok 0
range_bound null = err type_error
range_bound _ = err type_error

-- `x in range(n)`
unfoldable pub in_range : Json → ℕ → Bool
in_range (int (pos i)) n = ltb i n
in_range (bool true) n = ltb 1 n
in_range (bool false) n = ltb 0 n
in_range (float (finite s m)) n =
    nat_eq (m % 2 ^ 1074) 0 && ltb (m / 2 ^ 1074) n && (bool_eq s false || nat_eq m 0)
in_range null n = false
in_range _ n = false
