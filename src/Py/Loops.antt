-- ===== src/Py/Loops.antt =====
-- `for` loops whose body may raise, and the rule for an invariant.
use resq.Base.{
  ℕ, zero, drop, ◌++◌, List, [], ◌∷◌, All, ◌≡◌, refl, ap, Bool, true, false, if◌then◌else◌, arith,
  length, suc, Bool-cases, inl, inr,
}
use resq.Py.Result.{Result, ok, ◌>>=◌, ◌>>◌, bind-eq-ok, ok-injective}

module _ {ℓ κ} {A : Type ℓ} {S : Type κ} where
  -- a loop that carries a state
  unfoldable pub fold_m : (S → A → Result S) → S → List A → Result S
  fold_m f s [] = ok s
  fold_m f s (x ∷ xs) = do s' ← f s x; fold_m f s' xs

  -- What each round keeps, the loop keeps.
  pub fold_m_inv {μ} :
      (P : S → Type μ) (f : S → A → Result S)
      → ((s : S) (x : A) (s' : S) → P s → f s x ≡ ok s' → P s')
      → (s : S) (xs : List A) (t : S) → P s
      → fold_m f s xs ≡ ok t
      → P t
  unfolding fold_m
  fold_m_inv P f keep s [] t p h = rw (← (ok-injective h)) p
  fold_m_inv P f keep s (x ∷ xs) t p h =
      let (s', e, h') = bind-eq-ok (f s x) (λ s'. fold_m f s' xs) h in
      fold_m_inv P f keep s' xs t (keep s x s' p e) h'

  -- What a round makes true of its element, and later rounds keep, holds of every element.
  pub fold_m-All {μ} :
      (Q : S → A → Type μ) (f : S → A → Result S)
      → ((s : S) (x : A) (s' : S) → f s x ≡ ok s' → Q s' x)
      → ((y : A) (s : S) (x : A) (s' : S) → Q s y → f s x ≡ ok s' → Q s' y)
      → (s : S) (xs : List A) (t : S) → fold_m f s xs ≡ ok t
      → All (Q t) xs
  unfolding fold_m
  fold_m-All Q f makes keeps s [] t h = tt
  fold_m-All Q f makes keeps s (x ∷ xs) t h =
      let (s', e, h') = bind-eq-ok (f s x) (λ s'. fold_m f s' xs) h in
      (
        fold_m_inv (λ u. Q u x) f (keeps x) s' xs t (makes s x s' e) h',
        fold_m-All Q f makes keeps s' xs t h',
      )

module _ {ℓ} {A : Type ℓ} where
  -- a loop that only checks
  unfoldable pub each : (A → Result (Unit {0})) → List A → Result (Unit {0})
  each f [] = ok tt
  each f (x ∷ xs) = do f x; each f xs

  pub each-eq-ok :
      (f : A → Result (Unit {0})) (xs : List A) {u : Unit {0}}
      → each f xs ≡ ok u
      → All (λ x. f x ≡ ok tt) xs
  unfolding each
  each-eq-ok f [] h = tt
  each-eq-ok f (x ∷ xs) h =
      let (v, e, h') = bind-eq-ok (f x) (λ _. each f xs) h in (e, each-eq-ok f xs h')

  pub each_ok :
      (f : A → Result (Unit {0})) (xs : List A) → All (λ x. f x ≡ ok tt) xs → each f xs ≡ ok tt
  unfolding each
  each_ok f [] h = refl
  each_ok f (x ∷ xs) h = rw h.0 (each_ok f xs h.1)

module _ {ℓ κ} {A : Type ℓ} {B : Type κ} where
  -- a comprehension
  unfoldable pub map_m : (A → Result B) → List A → Result (List B)
  map_m f [] = ok []
  map_m f (x ∷ xs) = do y ← f x; ys ← map_m f xs; ok (y ∷ ys)

  -- what a comprehension over one more element went through
  pub map_m-cons :
      (f : A → Result B) (x : A) (xs : List A) {zs : List B}
      → map_m f (x ∷ xs) ≡ ok zs
      → (y : B) × (ys : List B) × (f x ≡ ok y) × (map_m f xs ≡ ok ys) × (y ∷ ys ≡ zs)
  unfolding map_m
  map_m-cons f x xs h =
      let (y, e, h') = bind-eq-ok (f x) (λ y. map_m f xs >>= λ ys. ok (y ∷ ys)) h in
      let (ys, e', h'') = bind-eq-ok (map_m f xs) (λ ys. ok (y ∷ ys)) h' in
      (y, ys, e, e', ok-injective h'')

  -- Each result comes from an element by the body.
  pub map_m-All {μ} :
      (P : B → Type μ) (f : A → Result B)
      → ((x : A) (y : B) → f x ≡ ok y → P y)
      → (xs : List A) (ys : List B) → map_m f xs ≡ ok ys
      → All P ys
  unfolding map_m
  map_m-All P f each_one [] ys h = rw (← (ok-injective h)) tt
  map_m-All P f each_one (x ∷ xs) zs h =
      let (y, ys, e, rest, split) = map_m-cons f x xs h in
      rw (← split) (each_one x y e, map_m-All P f each_one xs ys rest)

  pub length-map_m :
      (f : A → Result B) (xs : List A) (ys : List B) → map_m f xs ≡ ok ys → length ys ≡ length xs
  unfolding map_m
  length-map_m f [] ys h = rw (← (ok-injective h)) refl
  length-map_m f (x ∷ xs) zs h =
      let (y, ys, e, rest, split) = map_m-cons f x xs h in
      rw (← split) (ap suc (length-map_m f xs ys rest))

module _ {ℓ κ} {A : Type ℓ} {B : Type κ} (f : A → Result B) where
  pub map_m-append_one :
      (xs : List A) (x : A) {ys : List B} {y : B}
      → map_m f xs ≡ ok ys
      → f x ≡ ok y
      → map_m f (xs ++ x ∷ []) ≡ ok (ys ++ y ∷ [])
  unfolding map_m
  map_m-append_one [] x h own = rw (← (ok-injective h)) (rw own refl)
  map_m-append_one (x' ∷ xs) x h own =
      let (y', ys', e, e', split) = map_m-cons f x' xs h in
      rw (← split) (rw (e, map_m-append_one xs x e' own) refl)

  pub map_m-drop :
      (n : ℕ) (xs : List A) {ys : List B}
      → map_m f xs ≡ ok ys
      → map_m f (drop n xs) ≡ ok (drop n ys)
  unfolding map_m
  map_m-drop zero xs h = h
  map_m-drop (suc n) [] h = rw (← (ok-injective h)) refl
  map_m-drop (suc n) (x ∷ xs) h =
      let (y, ys, e, e', split) = map_m-cons f x xs h in rw (← split) (map_m-drop n xs e')

-- A comprehension over a comprehension is one whose body does both.
pub map_m-map_m {ℓ κ μ} :
    {A : Type ℓ} {B : Type κ} {C : Type μ} (f : A → Result B) (g : B → Result C) (xs : List A)
    {ys : List B} {zs : List C}
    → map_m f xs ≡ ok ys
    → map_m g ys ≡ ok zs
    → map_m (λ x. f x >>= g) xs ≡ ok zs
unfolding map_m
map_m-map_m f g [] h k = rw (← (ok-injective h)) at k
map_m-map_m f g (x ∷ xs) h k =
    let (y, ys, e, rest, split) = map_m-cons f x xs h in
    let (z, zs, e', rest', split') = map_m-cons g y ys (rw (← split) at k) in
    rw (e, e', map_m-map_m f g xs rest rest') (ap ok split')

-- `any(test(x) for x in xs)`, which stops at the first
module _ {ℓ} {A : Type ℓ} where
  unfoldable pub any_m : (A → Result Bool) → List A → Result Bool
  any_m test [] = ok false
  any_m test (x ∷ xs) = do found ← test x; let rest = any_m test xs; if found then ok true else rest

-- Two lists of one length, related element by element.
abbrev pub Pointwise {ℓ κ} : {A : Type ℓ} {B : Type κ} → (A → B → Type 0) → List A → List B → Type 0
Pointwise R [] [] = Unit
Pointwise R (x ∷ xs) (y ∷ ys) = R x y × Pointwise R xs ys
Pointwise R [] (y ∷ ys) = ⊥
Pointwise R (x ∷ xs) [] = ⊥

module _ {ℓ κ} {A : Type ℓ} {B : Type κ} where
  -- A comprehension has the results of its body in order.
  pub map_m-Pointwise :
      (R : A → B → Type 0) (f : A → Result B)
      → ((x : A) (y : B) → f x ≡ ok y → R x y)
      → (xs : List A) (ys : List B) → map_m f xs ≡ ok ys
      → Pointwise R xs ys
  unfolding map_m
  map_m-Pointwise R f body [] ys h = rw (← (ok-injective h)) tt
  map_m-Pointwise R f body (x ∷ xs) zs h =
      let (y, ys, e, rest, split) = map_m-cons f x xs h in
      rw (← split) (body x y e, map_m-Pointwise R f body xs ys rest)

pub Pointwise-imp {ℓ κ} :
    {A : Type ℓ} {B : Type κ} (R S : A → B → Type 0)
    → ((x : A) (y : B) → R x y → S x y)
    → (xs : List A) (ys : List B) → Pointwise R xs ys
    → Pointwise S xs ys
Pointwise-imp R S weaken [] [] h = tt
Pointwise-imp R S weaken (x ∷ xs) (y ∷ ys) h = (weaken x y h.0, Pointwise-imp R S weaken xs ys h.1)
Pointwise-imp R S weaken [] (y ∷ ys) h = absurd h
Pointwise-imp R S weaken (x ∷ xs) [] h = absurd h

pub Pointwise-trans {ℓ κ μ} :
    {A : Type ℓ} {B : Type κ} {C : Type μ} (R : A → B → Type 0) (S : B → C → Type 0)
    (T : A → C → Type 0)
    → ((x : A) (y : B) (z : C) → R x y → S y z → T x z)
    → (xs : List A) (ys : List B) (zs : List C) → Pointwise R xs ys
    → Pointwise S ys zs
    → Pointwise T xs zs
Pointwise-trans R S T join [] [] [] h k = tt
Pointwise-trans R S T join (x ∷ xs) (y ∷ ys) (z ∷ zs) h k =
    (join x y z h.0 k.0, Pointwise-trans R S T join xs ys zs h.1 k.1)
Pointwise-trans R S T join [] (y ∷ ys) zs h k = absurd h
Pointwise-trans R S T join (x ∷ xs) [] zs h k = absurd h
Pointwise-trans R S T join [] [] (z ∷ zs) h k = absurd k
Pointwise-trans R S T join (x ∷ xs) (y ∷ ys) [] h k = absurd k

-- `[x for x in xs if test(x)]`
module _ {ℓ} {A : Type ℓ} where
  unfoldable pub filter_by : (A → Bool) → List A → List A
  filter_by p [] = []
  filter_by p (x ∷ xs) = if p x then x ∷ filter_by p xs else filter_by p xs

  pub All-filter_by : (p : A → Bool) (xs : List A) → All (λ x. p x ≡ true) (filter_by p xs)
  unfolding filter_by
  All-filter_by p [] = tt
  All-filter_by p (x ∷ xs) = ground (arith, All-filter_by p xs)

  pub All-filter_by_of {μ} :
      (P : A → Type μ) (p : A → Bool) (xs : List A) → All P xs → All P (filter_by p xs)
  unfolding filter_by
  All-filter_by_of P p [] h = tt
  All-filter_by_of P p (x ∷ xs) h = elim (Bool-cases (p x)) [
    | inl e ↦ rw e (h.0, All-filter_by_of P p xs h.1)
    | inr e ↦ rw e (All-filter_by_of P p xs h.1)
  ]

  unfoldable pub filter_m : (A → Result Bool) → List A → Result (List A)
  filter_m f [] = ok []
  filter_m f (x ∷ xs) = do keep ← f x; rest ← filter_m f xs; ok (if keep then x ∷ rest else rest)
