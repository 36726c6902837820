-- ===== src/Base/Sorting.antt =====
-- Python's `sorted`: a stable insertion sort by a Boolean order, and what it does.
use Prim.Native.Nat.{ℕ, zero, suc}
use mathlib.Core.Path.{◌≡◌, refl, ◌∙◌, ap}
use mathlib.Core.Bool.{Bool, true, false, not, ◌&&◌, ◌||◌}
use mathlib.Core.Logic.{inl, inr}
use mathlib.Core.List.{List, [], ◌∷◌}
use native.Mathlib.Omega.{arith}
use resq.Base.Tests.{if◌then◌else◌, Bool-cases}
use resq.Base.Equality.{Eq, ◌==◌}
use resq.Base.Lists.{length, All, drop, contains, distinct}

module _ {ℓ} {A : Type ℓ} (le : A → A → Bool) where
  unfoldable pub insort : A → List A → List A
  insort x [] = x ∷ []
  insort x (y ∷ ys) = if le x y then x ∷ y ∷ ys else y ∷ insort x ys

  unfoldable pub sort : List A → List A
  unfolding insort
  sort [] = []
  sort (x ∷ xs) = insort x (sort xs)

  -- every element is below all that follow it
  abbrev pub IsSorted : List A → Type 0
  IsSorted [] = Unit
  IsSorted (x ∷ xs) = All (λ y. le x y ≡ true) xs × IsSorted xs

  pub length-insort : (x : A) (xs : List A) → length (insort x xs) ≡ suc (length xs)
  unfolding insort
  length-insort x [] = refl
  length-insort x (y ∷ ys) = ground (arith, length-insort x ys)

  pub length-sort : (xs : List A) → length (sort xs) ≡ length xs
  unfolding sort
  length-sort [] = refl
  length-sort (x ∷ xs) = length-insort x (sort xs) ∙ ap suc (length-sort xs)

  pub All-insort {κ} : (P : A → Type κ) (x : A) (xs : List A) → P x → All P xs → All P (insort x xs)
  unfolding insort
  All-insort P x [] p ps = (p, tt)
  All-insort P x (y ∷ ys) p ps = elim (Bool-cases (le x y)) [
    | inl e ↦ rw e (p, ps)
    | inr e ↦ rw e (ps.0, All-insort P x ys p ps.1)
  ]

  pub All-sort {κ} : (P : A → Type κ) (xs : List A) → All P xs → All P (sort xs)
  unfolding sort
  All-sort P [] ps = tt
  All-sort P (x ∷ xs) ps = All-insort P x (sort xs) ps.0 (All-sort P xs ps.1)

  pub insort_first : (x : A) (xs : List A) → All (λ y. le x y ≡ true) xs → insort x xs ≡ x ∷ xs
  unfolding insort
  insort_first x [] h = refl
  insort_first x (y ∷ ys) h = rw h.0

  -- sorting what is sorted changes nothing
  pub sort-IsSorted_self : (xs : List A) → IsSorted xs → sort xs ≡ xs
  unfolding sort
  sort-IsSorted_self [] h = refl
  sort-IsSorted_self (x ∷ xs) h = rw (sort-IsSorted_self xs h.1) (insort_first x xs h.0)

module _ {ℓ} {A : Type ℓ} (le : A → A → Bool) (total : (a b : A) → le a b ≡ false → le b a ≡ true)
    (trans : (a b c : A) → le a b ≡ true → le b c ≡ true → le a c ≡ true) where
  All-le :
      (x y : A) (ys : List A)
      → le x y ≡ true
      → All (λ z. le y z ≡ true) ys
      → All (λ z. le x z ≡ true) ys
  All-le x y [] h ps = tt
  All-le x y (z ∷ zs) h ps = (trans x y z h ps.0, All-le x y zs h ps.1)

  insort-IsSorted : (x : A) (xs : List A) → IsSorted le xs → IsSorted le (insort le x xs)
  unfolding insort
  insort-IsSorted x [] h = (tt, tt)
  insort-IsSorted x (y ∷ ys) h = elim (Bool-cases (le x y)) [
    | inl e ↦ rw e ((e, All-le x y ys e h.0), h)
    | inr e ↦
        rw e (All-insort le (λ z. le y z ≡ true) x ys (total x y e) h.0, insort-IsSorted x ys h.1)
  ]

  pub sort-IsSorted : (xs : List A) → IsSorted le (sort le xs)
  unfolding sort
  sort-IsSorted [] = tt
  sort-IsSorted (x ∷ xs) = insort-IsSorted x (sort le xs) (sort-IsSorted xs)

module _ {ℓ} {A : Type ℓ} (le : A → A → Bool) where
  pub IsSorted-drop : (n : ℕ) (xs : List A) → IsSorted le xs → IsSorted le (drop n xs)
  IsSorted-drop zero xs h = h
  IsSorted-drop (suc n) [] h = tt
  IsSorted-drop (suc n) (x ∷ xs) h = IsSorted-drop n xs h.1

  module _ ⦃e : Eq A⦄ where
    pub contains-insort :
        (k x : A) (xs : List A) → contains k (insort le x xs) ≡ (x == k || contains k xs)
    unfolding insort contains
    contains-insort k x [] = refl
    contains-insort k x (y ∷ ys) = ground (arith, contains-insort k x ys)

    pub contains-sort : (k : A) (xs : List A) → contains k (sort le xs) ≡ contains k xs
    unfolding sort contains
    contains-sort k [] = refl
    contains-sort k (x ∷ xs) =
        contains-insort k x (sort le xs) ∙ ap (λ b. x == k || b) (contains-sort k xs)

    distinct-insort :
        (x : A) (xs : List A) → distinct (insort le x xs) ≡ (not (contains x xs) && distinct xs)
    unfolding insort contains distinct
    distinct-insort x [] = refl
    distinct-insort x (y ∷ ys) =
        ground (arith, distinct-insort x ys, contains-insort y x ys, e.beq_iff x y, e.beq_iff y x)

    pub distinct-sort : (xs : List A) → distinct (sort le xs) ≡ distinct xs
    unfolding sort distinct
    distinct-sort [] = refl
    distinct-sort (x ∷ xs) =
        distinct-insort x (sort le xs) ∙ rw (contains-sort x xs, distinct-sort xs) refl
