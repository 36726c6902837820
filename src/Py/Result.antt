-- ===== src/Py/Result.antt =====
-- Exceptions as results. A message keeps its fixed words; what an f-string interpolates is left out.
use resq.Base.{String, Bool, true, false, ◌≡◌, refl}

pub data Exn : Type 0 where
  merge_error value_error migration_error runtime_error key_error : String → Exn
  type_error attribute_error index_error overflow_error : Exn

pub data Result {κ} (V : Type κ) : Type κ where
  err : Exn → Result V
  ok : V → Result V

infixl 5 ◌>>=◌ ◌>>◌
-- a raise ends the statements that follow
abbrev pub ◌>>=◌ {κ μ} :
    {V : Type κ} {W : Type μ} (step : Result V) (next : V → Result W) → Result W
err raised >>= next = err raised
ok value >>= next = next value

abbrev pub ◌>>◌ {μ} : {W : Type μ} (check : Result (Unit {0})) (next : Result W) → Result W
check >> next = check >>= λ _. next

-- `if b: raise e`
abbrev pub raise_if : Bool → Exn → Result (Unit {0})
raise_if true e = err e
raise_if false e = ok tt

-- what a chain that returned went through
pub bind-eq-ok {κ μ} :
    {V : Type κ} {W : Type μ} (step : Result V) (next : V → Result W) {result : W}
    → (step >>= next) ≡ ok result
    → (value : V) × (step ≡ ok value) × (next value ≡ ok result)
bind-eq-ok (err raised) next h = cc
bind-eq-ok (ok value) next h = (value, refl, h)

pub raise_if-eq-ok : (b : Bool) (e : Exn) {u : Unit {0}} → raise_if b e ≡ ok u → b ≡ false
raise_if-eq-ok true e h = cc
raise_if-eq-ok false e h = refl

pub ok-injective {ℓ} : {A : Type ℓ} {a b : A} → ok a ≡ ok b → a ≡ b
ok-injective h = cc

pub err-ne-ok {ℓ} : {A : Type ℓ} {e : Exn} {a : A} → err e ≡ ok a → ⊥
err-ne-ok h = cc

-- The same in the style of a continuation, for long chains: what follows sees plain variables.
pub through {ℓ κ μ} :
    {A : Type ℓ} {B : Type κ} {C : Type μ} (m : Result A) (f : A → Result B) {b : B}
    → (m >>= f) ≡ ok b
    → ((a : A) → m ≡ ok a → f a ≡ ok b → C)
    → C
through (ok a) f h go = go a refl h
through (err e) f h go = absurd (err-ne-ok h)

pub past {κ μ} :
    {B : Type κ} {C : Type μ} (t : Bool) (e : Exn) (k : Result B) {b : B}
    → (raise_if t e >> k) ≡ ok b
    → (t ≡ false → k ≡ ok b → C)
    → C
past true e k h go = absurd (err-ne-ok h)
past false e k h go = go refl h
