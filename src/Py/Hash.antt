-- ===== src/Py/Hash.antt =====
-- Values as keys of a dict or a set: what can be hashed, up to `==`. A NaN counts as equal to itself.
use resq.Base.{
  string_eq, ℕ, zero, suc, ◌/◌, ◌%◌, ◌^◌, String, Bool, true, false, ◌&&◌, ◌==◌, nat_eq, bool_eq,
  if◌then◌else◌, ◌≡◌, refl, ◌↔◌, arith, Eq, eq_iff,
}
use resq.Py.Value.{
  pos, negsuc, Float, finite, infinity, nan, Json, null, bool, int, float, str, arr, obj,
}
use resq.Py.Result.{Result, ok, err, type_error, ok-injective}

pub data Atom : Type 0 where
  none_key not_a_number : Atom
  natural negative : ℕ → Atom
  fraction : Bool → ℕ → Atom
  infinite : Bool → Atom
  text : String → Atom

whole_key : Bool → ℕ → Atom
whole_key s zero = natural 0
whole_key false (suc n) = natural (suc n)
whole_key true (suc n) = negative n

-- a float that is a whole number is equal to that `int`, and hashes alike
float_key : Float → Atom
unfolding whole_key
float_key (finite s m) =
    if nat_eq (m % 2 ^ 1074) 0 then whole_key s (m / 2 ^ 1074) else fraction s m
float_key (infinity s) = infinite s
float_key nan = not_a_number

unfoldable pub hashed : Json → Result Atom
unfolding float_key
hashed null = ok none_key
hashed (bool true) = ok (natural 1)
hashed (bool false) = ok (natural 0)
hashed (int (pos n)) = ok (natural n)
hashed (int (negsuc n)) = ok (negative n)
hashed (float f) = ok (float_key f)
hashed (str s) = ok (text s)
hashed (arr xs) = err type_error
hashed (obj fs) = err type_error

abbrev pub atom_beq : Atom → Atom → Bool
atom_beq none_key none_key = true
atom_beq not_a_number not_a_number = true
atom_beq (natural n) (natural m) = nat_eq n m
atom_beq (negative n) (negative m) = nat_eq n m
atom_beq (fraction s n) (fraction t m) = bool_eq s t && nat_eq n m
atom_beq (infinite s) (infinite t) = bool_eq s t
atom_beq (text s) (text t) = s == t
atom_beq _ _ = false

pub atom_beq_iff : (a b : Atom) → (atom_beq a b ≡ true) ↔ (a ≡ b)
atom_beq_iff (text s) (text t) = ground (arith, eq_iff s t)
atom_beq_iff a b = ground arith

instance abbrev pub atom_eq : Eq Atom
atom_eq = record { beq = atom_beq; beq_iff = atom_beq_iff }

whole_key-text : (s : Bool) (n : ℕ) (t : String) → (text t == whole_key s n) ≡ false
unfolding whole_key
whole_key-text s zero t = refl
whole_key-text false (suc n) t = refl
whole_key-text true (suc n) t = refl

-- A float is no text.
pub hashed_float-text :
    (f : Float) (t : String) {k : Atom} → hashed (float f) ≡ ok k → (text t == k) ≡ false
unfolding hashed float_key
hashed_float-text (finite s m) t h = rw (← (ok-injective h)) (go (nat_eq (m % 2 ^ 1074) 0))
  where
    go : (b : Bool) → (text t == (if b then whole_key s (m / 2 ^ 1074) else fraction s m)) ≡ false
    go true = whole_key-text s (m / 2 ^ 1074) t
    go false = refl
hashed_float-text (infinity s) t h = rw (← (ok-injective h)) refl
hashed_float-text nan t h = rw (← (ok-injective h)) refl
