-- ===== src/Py/Order/Mapped.antt =====
-- What a sorted list is mapped to.
use resq.Base.{Bool, List, [], ◌∷◌, ◌≡◌, refl, contains, distinct, arith, Eq, Bool-cases, inl, inr}
use resq.Py.Result.{Result, ok, through, ok-injective}
use resq.Py.Loops.{map_m, map_m-cons}
use resq.Py.Order.{insort_m, sort_m}

module _ {κ} {B : Type κ} ⦃e : Eq B⦄ where
  -- two lists with the same elements, of which both have one twice or neither
  pub record Alike (xs ys : List B) : Type κ where
    pub has : (k : B) → contains k ys ≡ contains k xs
    pub once : distinct ys ≡ distinct xs

  module _ {ℓ} {A : Type ℓ} (lt : A → A → Result Bool) (f : A → Result B) where
    insort_m-Alike :
        (x : A) (xs zs : List A) (y : B) (ys : List B)
        → insort_m lt x xs ≡ ok zs
        → f x ≡ ok y
        → map_m f xs ≡ ok ys
        → (ws : List B) × (map_m f zs ≡ ok ws) × Alike (y ∷ ys) ws
    unfolding insort_m map_m contains distinct
    insort_m-Alike x [] zs y ys h own of_xs =
        rw (← (ok-injective h)) (
          y ∷ [],
          rw own refl,
          rw (← (ok-injective of_xs)) (record { has = λ k. refl; once = refl }),
        )
    insort_m-Alike x (x' ∷ xs) zs y ys h own of_xs =
        let (y', ys', own', of_xs', split) = map_m-cons f x' xs of_xs in
        through (lt x' x) _ h λ before _ h₁. elim (Bool-cases before) [
          | inl b ↦
              let h₂ = rw b at h₁ in
              through (insort_m lt x xs) _ h₂ λ rest step h₃.
                let (ws, of_rest, a) = insort_m-Alike x xs rest y ys' step own of_xs' in
                rw (← (ok-injective h₃)) (
                  y' ∷ ws,
                  rw (own', of_rest) refl,
                  rw (← split) (record {
                    has = λ k. ground (arith, a.has k);
                    once = ground (arith, a.once, a.has y', e.beq_iff y y', e.beq_iff y' y);
                  }),
                )
          | inr b ↦
              rw (← (ok-injective (rw b at h₁)))
                (y ∷ ys, rw (own, of_xs) refl, record { has = λ k. refl; once = refl })
        ]

    pub sort_m-Alike :
        (xs zs : List A) (ys : List B)
        → sort_m lt xs ≡ ok zs
        → map_m f xs ≡ ok ys
        → (ws : List B) × (map_m f zs ≡ ok ws) × Alike ys ws
    unfolding sort_m map_m contains distinct
    sort_m-Alike [] zs ys h of_xs =
        rw (← (ok-injective h)) (ys, of_xs, record { has = λ k. refl; once = refl })
    sort_m-Alike (x ∷ xs) zs ys h of_xs =
        let (y, ys', own, of_xs', split) = map_m-cons f x xs of_xs in
        through (sort_m lt xs) _ h λ rest sorted h₁.
          let (ws, of_rest, a) = sort_m-Alike xs rest ys' sorted of_xs' in
          let (vs, of_zs, b) = insort_m-Alike x rest zs y ws h₁ own of_rest in
          (
            vs,
            of_zs,
            rw (← split) (record {
              has = λ k. ground (arith, a.has k, b.has k);
              once = ground (arith, a.once, b.once, a.has y);
            }),
          )
