-- ===== src/Base/Lists.antt =====
-- Lists over the native numbers, and lists as Python uses them: `x in xs`, `set(xs)`.
use Prim.Native.Nat.{ℕ, zero, suc, ◌+◌, ◌-◌, ◌≤◌}
use mathlib.Core.Path.{◌≡◌, refl, subst}
use mathlib.Core.Option.{Option, none, some}
use mathlib.Core.Bool.{Bool, true, false, ◌&&◌, ◌||◌, not}
use mathlib.Core.List.{List, [], ◌∷◌, ◌++◌}
use native.Mathlib.Omega.{arith}
use resq.Base.Equality.{Eq, ◌==◌}
use mathlib.Core.Logic.{inl, inr}
use resq.Base.Tests.{Bool-cases, if◌then◌else◌, nat_eq, some-injective}

module _ {ℓ} {A : Type ℓ} where
  abbrev pub length : List A → ℕ
  length [] = 0
  length (x ∷ xs) = suc (length xs)

  abbrev pub drop : ℕ → List A → List A
  drop zero xs = xs
  drop (suc n) [] = []
  drop (suc n) (x ∷ xs) = drop n xs

  abbrev pub All {κ} : (A → Type κ) → List A → Type κ
  All P [] = Unit
  All P (x ∷ xs) = P x × All P xs

  abbrev pub get_elem? : List A → ℕ → Option A
  get_elem? [] i = none
  get_elem? (x ∷ xs) zero = some x
  get_elem? (x ∷ xs) (suc i) = get_elem? xs i

  abbrev pub concat : List (List A) → List A
  concat [] = []
  concat (xs ∷ xss) = xs ++ concat xss

  pub All-get_elem? {κ} :
      (P : A → Type κ) (xs : List A) (i : ℕ) {x : A} → All P xs → get_elem? xs i ≡ some x → P x
  All-get_elem? P [] i h e = cc
  All-get_elem? P (y ∷ xs) zero h e = subst P (some-injective e) h.0
  All-get_elem? P (y ∷ xs) (suc i) h e = All-get_elem? P xs i h.1 e

  pub length-append : (xs ys : List A) → length (xs ++ ys) ≡ length xs + length ys
  length-append [] ys = omega arith
  length-append (x ∷ xs) ys = omega (arith, length-append xs ys)

  pub length-drop : (n : ℕ) (xs : List A) → length (drop n xs) ≡ length xs - n
  length-drop zero xs = omega arith
  length-drop (suc n) [] = omega arith
  length-drop (suc n) (x ∷ xs) = omega (arith, length-drop n xs)

  pub All-append {κ} : (P : A → Type κ) (xs ys : List A) → All P xs → All P ys → All P (xs ++ ys)
  All-append P [] ys h k = k
  All-append P (x ∷ xs) ys h k = (h.0, All-append P xs ys h.1 k)

  pub All-drop {κ} : (P : A → Type κ) (n : ℕ) (xs : List A) → All P xs → All P (drop n xs)
  All-drop P zero xs h = h
  All-drop P (suc n) [] h = tt
  All-drop P (suc n) (x ∷ xs) h = All-drop P n xs h.1

-- Membership and sets, over whatever `==` compares.
module _ {ℓ} {A : Type ℓ} ⦃e : Eq A⦄ where
  -- `x in xs` on a list or a set of keys
  unfoldable pub contains : A → List A → Bool
  contains k [] = false
  contains k (x ∷ xs) = x == k || contains k xs

  -- `set(xs)`, in the order of first occurrence from the right
  unfoldable pub to_set : List A → List A
  unfolding contains
  to_set [] = []
  to_set (x ∷ xs) = let rest = to_set xs in if contains x rest then rest else x ∷ rest

  -- no element stands twice
  unfoldable pub distinct : List A → Bool
  unfolding contains
  distinct [] = true
  distinct (x ∷ xs) = not (contains x xs) && distinct xs

  -- `a <= b` on sets of keys
  unfoldable pub subset : List A → List A → Bool
  unfolding contains
  subset [] ys = true
  subset (x ∷ xs) ys = contains x ys && subset xs ys

  -- `a == b` on sets of keys
  unfoldable pub same_set : List A → List A → Bool
  unfolding subset
  same_set xs ys = subset xs ys && subset ys xs

  pub contains-to_set : (k : A) (xs : List A) → contains k (to_set xs) ≡ contains k xs
  unfolding contains to_set
  contains-to_set k [] = refl
  contains-to_set k (x ∷ xs) =
      ground (arith, contains-to_set k xs, contains-to_set x xs, e.beq_iff x k)

  pub length-to_set-le : (xs : List A) → length (to_set xs) ≤ length xs
  unfolding to_set
  length-to_set-le [] = omega arith
  length-to_set-le (x ∷ xs) = ground (arith, length-to_set-le xs)

  -- `len(xs) == len(set(xs))` says that no element stands twice.
  pub length-to_set_iff : (xs : List A) → nat_eq (length xs) (length (to_set xs)) ≡ distinct xs
  unfolding to_set distinct
  length-to_set_iff [] = refl
  length-to_set_iff (x ∷ xs) =
      ground (arith, length-to_set_iff xs, length-to_set-le xs, contains-to_set x xs)

  pub subset-contains :
      (xs ys : List A) (k : A) → subset xs ys ≡ true → contains k xs ≡ true → contains k ys ≡ true
  unfolding contains subset
  subset-contains [] ys k h m = cc
  subset-contains (x ∷ xs) ys k h m = ground (arith, e.beq_iff x k, subset-contains xs ys k)

  pub same_set-contains :
      (xs ys : List A) (k : A) → same_set xs ys ≡ true → contains k xs ≡ contains k ys
  unfolding same_set
  same_set-contains xs ys k h = ground (arith, subset-contains xs ys k, subset-contains ys xs k)

  pub contains-append :
      (k : A) (xs ys : List A) → contains k (xs ++ ys) ≡ (contains k xs || contains k ys)
  unfolding contains
  contains-append k [] ys = refl
  contains-append k (x ∷ xs) ys = ground (arith, contains-append k xs ys)

  pub distinct-append :
      (xs : List A) (k : A)
      → distinct xs ≡ true
      → contains k xs ≡ false
      → distinct (xs ++ k ∷ []) ≡ true
  unfolding contains distinct
  distinct-append [] k h m = refl
  distinct-append (x ∷ xs) k h m =
      ground
        (arith, distinct-append xs k, contains-append x xs (k ∷ []), e.beq_iff x k, e.beq_iff k x)

  pub contains_nil : (k : A) → contains k [] ≡ false
  unfolding contains
  contains_nil k = refl

  pub contains_cons : (k x : A) (xs : List A) → contains k (x ∷ xs) ≡ (x == k || contains k xs)
  unfolding contains
  contains_cons k x xs = refl

  pub All-contains : (xs : List A) → All (λ x. contains x xs ≡ true) xs
  unfolding contains
  All-contains [] = tt
  All-contains (x ∷ xs) = (ground (arith, e.beq_iff x x), later xs (All-contains xs))
    where
      later :
          (ys : List A)
          → All (λ y. contains y xs ≡ true) ys
          → All (λ y. (x == y || contains y xs) ≡ true) ys
      later [] h = tt
      later (y ∷ ys) h = (ground (arith, h.0), later ys h.1)

  pub distinct-drop : (n : ℕ) (xs : List A) → distinct xs ≡ true → distinct (drop n xs) ≡ true
  unfolding distinct
  distinct-drop zero xs h = h
  distinct-drop (suc n) [] h = refl
  distinct-drop (suc n) (x ∷ xs) h = distinct-drop n xs (ground (arith, h))

  pub distinct-to_set : (xs : List A) → distinct (to_set xs) ≡ true
  unfolding to_set distinct
  distinct-to_set [] = refl
  distinct-to_set (x ∷ xs) = ground (arith, distinct-to_set xs)

  pub All-at {κ} : (P : A → Type κ) (k : A) (xs : List A) → All P xs → contains k xs ≡ true → P k
  unfolding contains
  All-at P k [] h m = cc
  All-at P k (x ∷ xs) h m = elim (Bool-cases (x == k)) [
    | inl b ↦ subst P ((e.beq_iff x k).0 b) h.0
    | inr b ↦ All-at P k xs h.1 (rw b at m)
  ]
