-- ===== src/Py/Fields.antt =====
-- What `.get`, subscripts, assignments and `.pop` do to the members of a dict.
use resq.Base.{
  string_eq, String, true, List, [], Option, none, some, ◌==◌, if◌then◌else◌, ◌≡◌, refl, arith, sym,
}
use resq.Py.Value.{Json, null, arr, obj, elements, entries, entries-of_entries}
use resq.Py.Result.{ok, ok-injective}
use resq.Py.Dict.{lookup, lookup-insert, lookup-remove}
use resq.Py.Access.{get, get_or, subscript, set_item, pop, is_dict, is_list, iterate}

-- the member of a dict at a key
abbrev pub member : Json → String → Option Json
member (obj fs) k = lookup k (entries fs)
member null k = none
member _ k = none

pub get-eq-ok :
    (x : Json) (k : String) (d : Json) {v : Json} → get x k d ≡ ok v → v ≡ get_or (member x k) d
unfolding get
get-eq-ok (obj fs) k d h = sym (ok-injective h)
get-eq-ok null k d h = cc
get-eq-ok _ k d h = cc

pub subscript-eq-ok :
    (x : Json) (k : String) {v : Json} → subscript x k ≡ ok v → member x k ≡ some v
unfolding subscript
subscript-eq-ok (obj fs) k h = ground arith
subscript-eq-ok null k h = cc
subscript-eq-ok _ k h = cc

pub member-set_item :
    (x : Json) (k : String) (v : Json) {x' : Json}
    → set_item x k v ≡ ok x'
    → (j : String) → member x' j ≡ (if k == j then some v else member x j)
unfolding set_item
member-set_item (obj fs) k v h j =
    rw (← (ok-injective h)) (rw entries-of_entries (lookup-insert k j v (entries fs)))
member-set_item null k v h j = cc
member-set_item _ k v h j = cc

pub member-pop :
    (x : Json) (k : String) {x' : Json}
    → pop x k ≡ ok x'
    → (j : String) → member x' j ≡ (if k == j then none else member x j)
unfolding pop
member-pop (obj fs) k h j =
    rw (← (ok-injective h)) (rw entries-of_entries (lookup-remove k j (entries fs)))
member-pop null k h j = cc
member-pop _ k h j = cc

pub set_item-is_dict :
    (x : Json) (k : String) (v : Json) {x' : Json} → set_item x k v ≡ ok x' → is_dict x' ≡ true
unfolding set_item is_dict
set_item-is_dict (obj fs) k v h = rw (← (ok-injective h)) refl
set_item-is_dict null k v h = cc
set_item-is_dict _ k v h = cc

-- the elements of a member that is a list
abbrev pub rows_of : Option Json → List Json
rows_of (some (arr xs)) = elements xs
rows_of none = []
rows_of _ = []

pub iterate_rows :
    (o : Option Json) {es : List Json}
    → is_list (get_or o null) ≡ true
    → iterate (get_or o null) ≡ ok es
    → es ≡ rows_of o
unfolding is_list iterate
iterate_rows (some (arr xs)) l k = sym (ok-injective k)
iterate_rows none l k = cc
iterate_rows (some null) l k = cc
iterate_rows (some _) l k = cc
