-- ===== src/Py/Rows.antt =====
-- What a document says of lists of rows, read without exceptions.
use mathlib.Core.List.{append-nil, append_assoc}
use mathlib.Core.Path.{subst}
use resq.Base.{
  string_eq, ℕ, ◌+◌, String, Bool, true, false, List, [], ◌∷◌, ◌++◌, Option, none, some, ◌==◌, ◌⊎◌,
  if◌then◌else◌, ◌≡◌, refl, sym, ap, ◌∙◌, suc, length,
}
use resq.Py.Value.{Json, null, pos, int, bool, str, arr}
use resq.Py.Result.{Result, ok, ok-injective, through}
use resq.Py.Access.{is_list, iterate}
use resq.Py.Fields.{member, rows_of}
use resq.Py.Loops.{fold_m, filter_m, Pointwise}

-- a document stands in a list
abbrev pub IsIn : Json → List Json → Type 0
IsIn x [] = ⊥
IsIn x (y ∷ ys) = (x ≡ y) ⊎ IsIn x ys

-- the elements of the lists that the rows have at a key, one list after the other
abbrev pub items_of : String → List Json → List Json
items_of name [] = []
items_of name (row ∷ rows) = rows_of (member row name) ++ items_of name rows

-- a count, or 0
abbrev pub natural_of : Option Json → ℕ
natural_of (some (int (pos n))) = n
natural_of none = 0
natural_of _ = 0

abbrev pub natural_at : Json → String → ℕ
natural_at row name = natural_of (member row name)

-- a flag is True
abbrev pub flag_of : Option Json → Bool
flag_of (some (bool b)) = b
flag_of none = false
flag_of _ = false

abbrev pub is_set : Json → String → Bool
is_set row name = flag_of (member row name)

-- a member is that text
abbrev pub text_is : Option Json → String → Bool
text_is (some (str s)) t = s == t
text_is none t = false
text_is _ t = false

abbrev pub says : Json → String → String → Bool
says row name text = text_is (member row name) text

abbrev pub number_of : (Json → Bool) → List Json → ℕ
number_of test [] = 0
number_of test (row ∷ rows) = (if test row then 1 else 0) + number_of test rows

abbrev pub total_of : (Json → ℕ) → List Json → ℕ
total_of size [] = 0
total_of size (row ∷ rows) = size row + total_of size rows

-- the rows have these texts at a key
abbrev pub TextsAt : String → List Json → List String → Type 0
TextsAt name = Pointwise (λ row text. member row name ≡ some (str text))

pub rows_of-list :
    (x : Json) {xs : List Json} → is_list x ≡ true → iterate x ≡ ok xs → rows_of (some x) ≡ xs
unfolding is_list iterate
rows_of-list (arr es) l h = ok-injective h
rows_of-list null l h = cc
rows_of-list _ l h = cc

module _ {ℓ} {B : Type ℓ} (R : Json → B → Type 0) where
  pub length-Pointwise : (xs : List Json) (ys : List B) → Pointwise R xs ys → length xs ≡ length ys
  length-Pointwise [] [] h = refl
  length-Pointwise (x ∷ xs) (y ∷ ys) h = ap suc (length-Pointwise xs ys h.1)
  length-Pointwise [] (y ∷ ys) h = absurd h
  length-Pointwise (x ∷ xs) [] h = absurd h

  pub Pointwise-append :
      (xs xs' : List Json) (ys ys' : List B)
      → Pointwise R xs ys
      → Pointwise R xs' ys'
      → Pointwise R (xs ++ xs') (ys ++ ys')
  Pointwise-append [] xs' [] ys' h k = k
  Pointwise-append (x ∷ xs) xs' (y ∷ ys) ys' h k = (h.0, Pointwise-append xs xs' ys ys' h.1 k)
  Pointwise-append [] xs' (y ∷ ys) ys' h k = absurd h
  Pointwise-append (x ∷ xs) xs' [] ys' h k = absurd h

  -- A loop whose rounds append one element each.
  pub fold_m-Pointwise :
      (f : List B → Json → Result (List B))
      → ((s : List B) (x : Json) (s' : List B)
          → f s x ≡ ok s'
          → (y : B) × (s' ≡ s ++ y ∷ []) × R x y)
      → (s : List B) (xs : List Json) (t : List B) → fold_m f s xs ≡ ok t
      → (ys : List B) × (t ≡ s ++ ys) × Pointwise R xs ys
  unfolding fold_m
  fold_m-Pointwise f round s [] t h = ([], sym (ok-injective h) ∙ sym (append-nil s), tt)
  fold_m-Pointwise f round s (x ∷ xs) t h = through (f s x) _ h λ s' step rest.
      let (y, e, own) = round s x s' step in
      let (ys, e', later) = fold_m-Pointwise f round s' xs t rest in
      (y ∷ ys, e' ∙ ap (λ l. l ++ ys) e ∙ append_assoc s (y ∷ []) ys, (own, later))

  pub fold_m-rows :
      (f : List B → Json → Result (List B))
      → ((s : List B) (x : Json) (s' : List B)
          → f s x ≡ ok s'
          → (y : B) × (s' ≡ s ++ y ∷ []) × R x y)
      → (xs : List Json) (t : List B) → fold_m f [] xs ≡ ok t
      → Pointwise R xs t
  fold_m-rows f round xs t h =
      let (ys, e, all) = fold_m-Pointwise f round [] xs t h in subst (Pointwise R xs) (sym e) all

-- the rows that pass a test, in order
abbrev pub those : (Json → Bool) → List Json → List Json
those test [] = []
those test (row ∷ rows) = if test row then row ∷ those test rows else those test rows

pub filter_m-those :
    (f : Json → Result Bool) (test : Json → Bool)
    → ((x : Json) (b : Bool) → f x ≡ ok b → b ≡ test x)
    → (xs ys : List Json) → filter_m f xs ≡ ok ys
    → ys ≡ those test xs
unfolding filter_m
filter_m-those f test same [] ys h = sym (ok-injective h)
filter_m-those f test same (x ∷ xs) ys h = through (f x) _ h λ keep own h₁.
    through (filter_m f xs) _ h₁ λ rest later h₂.
      sym (ok-injective h₂) ∙ rw (same x keep own, filter_m-those f test same xs rest later) refl
