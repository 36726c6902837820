-- ===== src/Py/Dict.antt =====
-- Python's `dict`: pairs in insertion order. An assignment to a key that is there
-- keeps its place.
use mathlib.Core.Path.{subst}
use resq.Base.{
  Bool-cases, Bool, true, false, ◌||◌, List, [], ◌∷◌, ◌++◌, Option, none, some, ◌≡◌, refl, arith,
  ◌==◌, Eq, All, some-injective, ◌⊎◌, inl, inr, if◌then◌else◌, contains, distinct,
}

abbrev pub Dict {ℓ κ} : Type ℓ → Type κ → Type (ℓ ⊔ κ)
Dict K V = List (K × V)

module _ {ℓ κ} {K : Type ℓ} {V : Type κ} where
  unfoldable pub keys : Dict K V → List K
  keys [] = []
  keys ((j, w) ∷ d) = j ∷ keys d

  unfoldable pub values : Dict K V → List V
  values [] = []
  values ((j, w) ∷ d) = w ∷ values d

abbrev pub is_some {ℓ} : {V : Type ℓ} → Option V → Bool
is_some none = false
is_some (some v) = true

module _ {ℓ κ} {K : Type ℓ} {V : Type κ} ⦃e : Eq K⦄ where
  -- d.get(k)
  unfoldable pub lookup : K → Dict K V → Option V
  lookup k [] = none
  lookup k ((j, v) ∷ d) = if j == k then some v else lookup k d

  -- d[k] = v
  unfoldable pub insert : K → V → Dict K V → Dict K V
  insert k v [] = (k, v) ∷ []
  insert k v ((j, w) ∷ d) = if j == k then (j, v) ∷ d else (j, w) ∷ insert k v d

  -- d.pop(k, None)
  unfoldable pub remove : K → Dict K V → Dict K V
  remove k [] = []
  remove k ((j, w) ∷ d) = if j == k then remove k d else (j, w) ∷ remove k d

  pub lookup-insert :
      (k j : K) (v : V) (d : Dict K V)
      → lookup j (insert k v d) ≡ (if k == j then some v else lookup j d)
  unfolding lookup insert
  lookup-insert k j v [] = refl
  lookup-insert k j v ((i, w) ∷ d) =
      ground (arith, e.beq_iff k j, e.beq_iff i k, e.beq_iff i j, lookup-insert k j v d)

  pub lookup-remove :
      (k j : K) (d : Dict K V) → lookup j (remove k d) ≡ (if k == j then none else lookup j d)
  unfolding lookup remove
  lookup-remove k j [] = ground arith
  lookup-remove k j ((i, w) ∷ d) =
      ground (arith, e.beq_iff k j, e.beq_iff i k, e.beq_iff i j, lookup-remove k j d)

  pub contains-keys : (k : K) (d : Dict K V) → contains k (keys d) ≡ is_some (lookup k d)
  unfolding contains keys lookup
  contains-keys k [] = refl
  contains-keys k ((i, w) ∷ d) = ground (arith, contains-keys k d)

  -- A new key goes to the end.
  pub insert_new :
      (k : K) (v : V) (d : Dict K V) → lookup k d ≡ none → insert k v d ≡ d ++ (k, v) ∷ []
  unfolding lookup insert
  insert_new k v [] h = refl
  insert_new k v ((i, w) ∷ d) h = ground (arith, insert_new k v d)

  -- An assignment to a key that is there leaves the list of the keys as it is.
  pub keys-insert_old :
      (k : K) (v : V) (d : Dict K V) → is_some (lookup k d) ≡ true → keys (insert k v d) ≡ keys d
  unfolding lookup insert keys
  keys-insert_old k v [] h = cc
  keys-insert_old k v ((i, w) ∷ d) h = ground (arith, keys-insert_old k v d)

  pub contains-keys-insert :
      (k j : K) (v : V) (d : Dict K V)
      → contains j (keys (insert k v d)) ≡ (k == j || contains j (keys d))
  contains-keys-insert k j v d =
      ground (arith, contains-keys j (insert k v d), contains-keys j d, lookup-insert k j v d)

  pub distinct-keys-insert :
      (k : K) (v : V) (d : Dict K V)
      → distinct (keys d) ≡ true
      → distinct (keys (insert k v d)) ≡ true
  unfolding insert keys distinct
  distinct-keys-insert k v [] h = refl
  distinct-keys-insert k v ((i, w) ∷ d) h = ground (
    arith,
    distinct-keys-insert k v d,
    contains-keys-insert k i v d,
    e.beq_iff k i,
    e.beq_iff i k,
  )

  pub lookup-insert_self : (k : K) (v : V) (d : Dict K V) → lookup k (insert k v d) ≡ some v
  lookup-insert_self k v d = ground (arith, lookup-insert k k v d, e.beq_iff k k)

  -- An assignment that agrees with what is there leaves every member as it is.
  pub insert_agreeing :
      (k j : K) (v w : V) (d : Dict K V)
      → (lookup k d ≡ none) ⊎ (lookup k d ≡ some v)
      → lookup j d ≡ some w
      → lookup j (insert k v d) ≡ some w
  insert_agreeing k j v w d (inl h) at = ground (arith, lookup-insert k j v d, e.beq_iff k j)
  insert_agreeing k j v w d (inr h) at = ground (arith, lookup-insert k j v d, e.beq_iff k j)

  -- What holds of every pair holds of a member.
  pub All-lookup {μ} :
      (P : K × V → Type μ) (k : K) (v : V) (d : Dict K V) → All P d → lookup k d ≡ some v → P (k, v)
  unfolding lookup
  All-lookup P k v [] ps h = cc
  All-lookup P k v ((j, w) ∷ d) ps h =
      pick (j == k) (e.beq_iff j k).0 h ps.0 (All-lookup P k v d ps.1)
    where
      pick :
          (b : Bool)
          → (b ≡ true → j ≡ k)
          → (if b then some w else lookup k d) ≡ some v
          → P (j, w)
          → (lookup k d ≡ some v → P (k, v))
          → P (k, v)
      pick true same got first rest = subst P (λ i. (same refl i, some-injective got i)) first
      pick false same got first rest = rest got

  pub lookup-none : (k : K) (d : Dict K V) → is_some (lookup k d) ≡ false → lookup k d ≡ none
  lookup-none k d h = ground arith

  pub keys-insert_new :
      (k : K) (v : V) (d : Dict K V)
      → is_some (lookup k d) ≡ false
      → keys (insert k v d) ≡ keys d ++ k ∷ []
  unfolding lookup insert keys
  keys-insert_new k v [] h = refl
  keys-insert_new k v ((i, w) ∷ d) h = ground (arith, keys-insert_new k v d)

  -- What holds of every pair holds after a new pair that it holds of.
  pub All-insert_new {μ} :
      (P : K × V → Type μ) (k : K) (v : V) (d : Dict K V)
      → is_some (lookup k d) ≡ false
      → P (k, v)
      → All P d
      → All P (insert k v d)
  unfolding lookup insert
  All-insert_new P k v [] h p ps = (p, tt)
  All-insert_new P k v ((i, w) ∷ d) h p ps = elim (Bool-cases (i == k)) [
    | inl e ↦ absurd (taken (rw e at h))
    | inr e ↦ rw e (ps.0, All-insert_new P k v d (rw e at h) p ps.1)
  ]
    where
      taken : true ≡ false → ⊥
      taken q = cc

pub ruleset dict_laws = (lookup-insert, lookup-remove)
