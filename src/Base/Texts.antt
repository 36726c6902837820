-- ===== src/Base/Texts.antt =====
-- The order of texts by code points, which is Python's order of `str`.
use Prim.Native.Nat.{Ordering}
use Prim.Native.Nat.{ℕ, compare as compare_nat}
use Prim.Native.Char.{code}
use Prim.Native.String.compare as text_compare
use Prim.Native.String.{String, compare, then}
use mathlib.Core.Path.{◌≡◌, refl, sym, ap, ◌∙◌}
use mathlib.Core.Bool.{Bool, true, false}
use native.Mathlib.Omega.{arith}
use text.Mathlib.TextEquality.{path_by_compare}
use text.Mathlib.TextPositions.{compare_refl}

abbrev not_gt : Ordering → Bool
not_gt Ordering.gt = false
not_gt Ordering.eq = true
not_gt Ordering.lt = true

-- a <= b on `str`
unfoldable pub str_le : String → String → Bool
str_le s t = not_gt (compare s t)

pub str_le_refl : (s : String) → str_le s s ≡ true
unfolding str_le
str_le_refl s = ap not_gt (compare_refl s)

abbrev flip : Ordering → Ordering
flip Ordering.lt = Ordering.gt
flip Ordering.eq = Ordering.eq
flip Ordering.gt = Ordering.lt

flip_nat : (a b : ℕ) → compare_nat b a ≡ flip (compare_nat a b)
flip_nat a b = ground arith

flip-then : (o r : Ordering) → then (flip o) (flip r) ≡ flip (then o r)
flip-then Ordering.lt r = refl
flip-then Ordering.eq r = refl
flip-then Ordering.gt r = refl

flip_text : (s t : String) → compare t s ≡ flip (compare s t)
flip_text String.[] String.[] = text_compare.nil-nil ∙ ap flip (sym text_compare.nil-nil)
flip_text String.[] (String.◌∷◌ d t) =
    text_compare.cons-nil d t ∙ ap flip (sym (text_compare.nil-cons d t))
flip_text (String.◌∷◌ c s) String.[] =
    text_compare.nil-cons c s ∙ ap flip (sym (text_compare.cons-nil c s))
flip_text (String.◌∷◌ c s) (String.◌∷◌ d t) =
    text_compare.cons-cons d c t s
    ∙ rw (flip_nat (code c) (code d)) (rw (flip_text s t) (flip-then _ _))
    ∙ ap flip (sym (text_compare.cons-cons c d s t))

not_gt-flip : (o : Ordering) → not_gt o ≡ false → not_gt (flip o) ≡ true
not_gt-flip Ordering.lt h = cc
not_gt-flip Ordering.eq h = cc
not_gt-flip Ordering.gt h = refl

pub str_le_total : (s t : String) → str_le s t ≡ false → str_le t s ≡ true
unfolding str_le
str_le_total s t h = rw (flip_text s t) (not_gt-flip (compare s t) h)

both_ways : (o : Ordering) → not_gt o ≡ true → not_gt (flip o) ≡ true → o ≡ Ordering.eq
both_ways Ordering.lt h k = cc
both_ways Ordering.eq h k = refl
both_ways Ordering.gt h k = cc

pub str_le_antisymm : (s t : String) → str_le s t ≡ true → str_le t s ≡ true → s ≡ t
unfolding str_le
str_le_antisymm s t h k = path_by_compare s t (both_ways (compare s t) h (rw (← flip_text s t) k))

-- what the first characters and the rests say of a comparison by both
then_trans :
    (a b c : ℕ) (o p q : Ordering)
    → (not_gt o ≡ true → not_gt p ≡ true → not_gt q ≡ true)
    → not_gt (then (compare_nat a b) o) ≡ true
    → not_gt (then (compare_nat b c) p) ≡ true
    → not_gt (then (compare_nat a c) q) ≡ true
then_trans a b c o p q ih h k = ground (arith)

pub str_le_trans : (s t u : String) → str_le s t ≡ true → str_le t u ≡ true → str_le s u ≡ true
unfolding str_le
str_le_trans String.[] t String.[] h k = ap not_gt text_compare.nil-nil
str_le_trans String.[] t (String.◌∷◌ e u) h k = ap not_gt (text_compare.nil-cons e u)
str_le_trans (String.◌∷◌ c s) String.[] u h k = cc (h, ap not_gt (text_compare.cons-nil c s))
str_le_trans (String.◌∷◌ c s) (String.◌∷◌ d t) String.[] h k =
    cc (k, ap not_gt (text_compare.cons-nil d t))
str_le_trans (String.◌∷◌ c s) (String.◌∷◌ d t) (String.◌∷◌ e u) h k =
    ap not_gt (text_compare.cons-cons c e s u)
    ∙ then_trans (code c) (code d) (code e) (compare s t) (compare t u) (compare s u)
        (str_le_trans s t u) (sym (ap not_gt (text_compare.cons-cons c d s t)) ∙ h)
        (sym (ap not_gt (text_compare.cons-cons d e t u)) ∙ k)
