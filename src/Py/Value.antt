-- ===== src/Py/Value.antt =====
-- Values of the JSON documents that the tools read, as Python holds them after `json.loads`.
use resq.Base.{ℕ, String, Bool, List, [], ◌∷◌, ◌≡◌, refl, ap}

-- `negsuc n` is -(n + 1).
pub data ℤ : Type 0 where
  pos : ℕ → ℤ
  negsuc : ℕ → ℤ

-- A binary64: `finite negative m` is m (or -m) times 2^-1074, which every finite one is.
pub data Float : Type 0 where
  finite : Bool → ℕ → Float
  infinity : Bool → Float
  nan : Float

mutual
  pub data Json : Type 0 where
    null : Json
    bool : Bool → Json
    int : ℤ → Json
    float : Float → Json
    str : String → Json
    arr : Items → Json
    obj : Fields → Json

  pub data Items : Type 0 where
    nil : Items
    cons : Json → Items → Items

  -- the items of a `dict` in insertion order
  pub data Fields : Type 0 where
    end : Fields
    field : String → Json → Fields → Fields

unfoldable pub elements : Items → List Json
elements nil = []
elements (cons x xs) = x ∷ elements xs

unfoldable pub of_elements : List Json → Items
of_elements [] = nil
of_elements (x ∷ xs) = cons x (of_elements xs)

unfoldable pub entries : Fields → List (String × Json)
entries end = []
entries (field k v fs) = (k, v) ∷ entries fs

unfoldable pub of_entries : List (String × Json) → Fields
of_entries [] = end
of_entries ((k, v) ∷ rest) = field k v (of_entries rest)

pub elements-of_elements : (xs : List Json) → elements (of_elements xs) ≡ xs
unfolding elements of_elements
elements-of_elements [] = refl
elements-of_elements (x ∷ xs) = ap (λ r. x ∷ r) (elements-of_elements xs)

pub entries-of_entries : (es : List (String × Json)) → entries (of_entries es) ≡ es
unfolding entries of_entries
entries-of_entries [] = refl
entries-of_entries ((k, v) ∷ rest) = ap (λ r. (k, v) ∷ r) (entries-of_entries rest)

-- literals of the source
abbrev pub nat : ℕ → Json
nat n = int (pos n)

abbrev pub object : List (String × Json) → Json
object es = obj (of_entries es)

abbrev pub array : List Json → Json
array xs = arr (of_elements xs)
