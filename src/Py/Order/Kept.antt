-- ===== src/Py/Order/Kept.antt =====
-- What sorting keeps, and what a range contains.
use resq.Base.{
  ℕ, zero, suc, ◌+◌, Bool, ◌&&◌, ◌||◌, List, [], ◌∷◌, map, ◌==◌, ltb, leb, ◌≡◌, refl, ap, ◌∙◌,
  contains, length, arith, Eq, Bool-cases, inl, inr,
}
use resq.Py.Result.{Result, ok, through, ok-injective}
use resq.Py.Hash.{natural, atom_eq}
use resq.Py.Order.{insort_m, sort_m, range_from}

module _ {ℓ} {A : Type ℓ} ⦃e : Eq A⦄ (lt : A → A → Result Bool) where
  contains-insort_m :
      (x : A) (xs zs : List A) (k : A)
      → insort_m lt x xs ≡ ok zs
      → contains k zs ≡ (x == k || contains k xs)
  unfolding insort_m contains
  contains-insort_m x [] zs k h = rw (← (ok-injective h)) refl
  contains-insort_m x (y ∷ ys) zs k h = through (lt y x) _ h λ before _ h₁.
      elim (Bool-cases before) [
        | inl b ↦
            let h₂ = rw b at h₁ in
            through (insort_m lt x ys) _ h₂ λ ws step h₃.
              rw (← (ok-injective h₃)) (ground (arith, contains-insort_m x ys ws k step))
        | inr b ↦ rw (← (ok-injective (rw b at h₁))) refl
      ]

  pub contains-sort_m :
      (xs zs : List A) (k : A) → sort_m lt xs ≡ ok zs → contains k zs ≡ contains k xs
  unfolding sort_m contains
  contains-sort_m [] zs k h = rw (← (ok-injective h)) refl
  contains-sort_m (x ∷ xs) zs k h = through (sort_m lt xs) _ h λ ys sorted h₁.
      contains-insort_m x ys zs k h₁ ∙ ap (λ b. x == k || b) (contains-sort_m xs ys k sorted)

module _ {ℓ} {A : Type ℓ} (lt : A → A → Result Bool) where
  length-insort_m :
      (x : A) (xs zs : List A) → insort_m lt x xs ≡ ok zs → length zs ≡ suc (length xs)
  unfolding insort_m
  length-insort_m x [] zs h = rw (← (ok-injective h)) refl
  length-insort_m x (y ∷ ys) zs h = through (lt y x) _ h λ before _ h₁. elim (Bool-cases before) [
    | inl b ↦
        let h₂ = rw b at h₁ in
        through (insort_m lt x ys) _ h₂
          λ ws step h₃. rw (← (ok-injective h₃)) (ap suc (length-insort_m x ys ws step))
    | inr b ↦ rw (← (ok-injective (rw b at h₁))) refl
  ]

  pub length-sort_m : (xs zs : List A) → sort_m lt xs ≡ ok zs → length zs ≡ length xs
  unfolding sort_m
  length-sort_m [] zs h = rw (← (ok-injective h)) refl
  length-sort_m (x ∷ xs) zs h =
      through (sort_m lt xs) _ h
        λ ys sorted h₁. length-insort_m x ys zs h₁ ∙ ap suc (length-sort_m xs ys sorted)

pub contains-range_from :
    (k start n : ℕ)
    → contains (natural k) (map natural (range_from start n)) ≡ (leb start k && ltb k (start + n))
unfolding range_from contains
contains-range_from k start zero = ground arith
contains-range_from k start (suc n) = ground (arith, contains-range_from k (start + 1) n)

pub length-range_from : (start n : ℕ) → length (map natural (range_from start n)) ≡ n
unfolding range_from
length-range_from start zero = refl
length-range_from start (suc n) = ap suc (length-range_from (start + 1) n)
