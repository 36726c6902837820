-- ===== src/Merge/Inventory/Selection.antt =====
-- What the loops of `validate_inventory` over one manifest establish: which identities are selected.
use mathlib.Core.Path.{subst}
use resq.Base.{
  string_eq, list_eq, eq_iff, String, Bool, true, false, not, ◌&&◌, ◌||◌, List, [], ◌∷◌, bool_eq,
  if◌then◌else◌, ◌≡◌, refl, sym, ap, ◌∙◌, arith, All, contains, distinct,
}
use resq.Py.Value.{Json}
use resq.Py.Result.{Result, ok, ok-injective, through, past}
use resq.Py.Dict.{keys}
use resq.Py.Access.{subscript}
use resq.Py.Equal.{py_eq}
use resq.Py.Hash.{atom_eq}
use resq.Py.Loops.{filter_m}
use resq.Merge.Inventory.{Rows, is_selected, is_shardable, check_selection, selected_ids}

-- The entry of an identity is selected if and only if the identity is in `expected`. If it can be
-- sharded, it is selected if and only if it is assigned to the shard `index`, and else it is.
abbrev pub IsPlaced : Json → List String → String × Json → Type 0
IsPlaced index expected (identity, entry) =
    (assigned : Json) × (shardable : Bool) × (subscript entry "assignedShard" ≡ ok assigned)
    × (is_shardable entry ≡ ok shardable)
    × (is_selected entry ≡ ok (contains identity expected))
    × (contains identity expected ≡ (if shardable then py_eq assigned index else true))

-- what the second loop over a manifest passed
Checked : Json → String × Json → Type 0
Checked index (identity, entry) =
    (assigned : Json) × (shardable selected : Bool) × (subscript entry "assignedShard"
      ≡ ok assigned)
    × (is_shardable entry ≡ ok shardable)
    × (is_selected entry ≡ ok selected)
    × (selected ≡ (if shardable then py_eq assigned index else true))

check_selection-Checked :
    (index : Json) (item : String × Json) → check_selection index item ≡ ok tt → Checked index item
unfolding check_selection Checked
check_selection-Checked index (identity, entry) h =
    through (subscript entry "assignedShard") _ h λ assigned at h₁.
      through (is_shardable entry) _ h₁ λ shardable at₁ h₂.
        through (is_selected entry) _ h₂ λ selected at₂ h₃.
          past (shardable && not (bool_eq selected (py_eq assigned index))) _ _ h₃ λ agrees h₄.
            past (not shardable && not selected) _ _ h₄ λ run_level _. (
              assigned,
              shardable,
              selected,
              at,
              at₁,
              at₂,
              placed shardable selected (py_eq assigned index) agrees run_level,
            )
  where
    placed :
        (shardable selected here : Bool)
        → (shardable && not (bool_eq selected here)) ≡ false
        → (not shardable && not selected) ≡ false
        → selected ≡ (if shardable then here else true)
    placed true true true h k = refl
    placed true true false h k = cc
    placed true false true h k = cc
    placed true false false h k = refl
    placed false true here h k = refl
    placed false false here h k = cc

-- A filter chooses a pair under a key that stands once if and only if its test says so.
module _ {A : Type 0} (f : String × A → Result Bool) where
  contains-chosen :
      (items chosen : List (String × A)) (k : String)
      → filter_m f items ≡ ok chosen
      → contains k (keys items) ≡ false
      → contains k (keys chosen) ≡ false
  unfolding filter_m keys contains
  contains-chosen [] chosen k h absent = rw (← (ok-injective h)) refl
  contains-chosen ((j, a) ∷ items) chosen k h absent = through (f (j, a)) _ h λ keep _ h₁.
      through (filter_m f items) _ h₁ λ rest filtered h₂.
        let ih = contains-chosen items rest k filtered in
        rw (← (ok-injective h₂)) (after keep rest ih)
    where
      after :
          (keep : Bool) (rest : List (String × A))
          → (contains k (keys items) ≡ false → contains k (keys rest) ≡ false)
          → contains k (keys (if keep then (j, a) ∷ rest else rest)) ≡ false
      after true rest ih = ground (arith, absent, ih)
      after false rest ih = ground (arith, absent, ih)

  others_kept :
      (keep : Bool) (j : String) (a : A) (rest items : List (String × A))
      → contains j (keys items) ≡ false
      → All (λ item. f item ≡ ok (contains item.0 (keys rest))) items
      → All
          (λ item. f item ≡ ok (contains item.0 (keys (if keep then (j, a) ∷ rest else rest))))
          items
  unfolding keys contains
  others_kept keep j a rest [] absent h = tt
  others_kept keep j a rest ((k, b) ∷ items) absent h =
      (h.0 ∙ ap ok (same_there keep), others_kept keep j a rest items (ground (arith, absent)) h.1)
    where
      same_there :
          (keep : Bool)
          → contains k (keys rest) ≡ contains k (keys (if keep then (j, a) ∷ rest else rest))
      same_there true = ground (arith, absent, eq_iff j k, eq_iff k j)
      same_there false = refl

  filter_m-chosen :
      (items chosen : List (String × A))
      → filter_m f items ≡ ok chosen
      → distinct (keys items) ≡ true
      → All (λ item. f item ≡ ok (contains item.0 (keys chosen))) items
  unfolding filter_m keys distinct contains
  filter_m-chosen [] chosen h once = tt
  filter_m-chosen ((j, a) ∷ items) chosen h once = through (f (j, a)) _ h λ keep kept h₁.
      through (filter_m f items) _ h₁ λ rest filtered h₂.
        let absent : contains j (keys items) ≡ false = ground (arith, once) in
        let missing = contains-chosen items rest j filtered absent in
        let ih = filter_m-chosen items rest filtered (ground (arith, once)) in
        subst (λ c. All (λ item. f item ≡ ok (contains item.0 (keys c))) ((j, a) ∷ items))
          (ok-injective h₂)
          (kept ∙ ap ok (here keep rest missing), others_kept keep j a rest items absent ih)
    where
      here :
          (keep : Bool) (rest : List (String × A))
          → contains j (keys rest) ≡ false
          → keep ≡ contains j (keys (if keep then (j, a) ∷ rest else rest))
      here true rest q = ground (arith, eq_iff j j)
      here false rest q = sym q

pub selected_ids-chosen :
    (local : Rows) (expected : List String)
    → selected_ids local ≡ ok expected
    → distinct (keys local) ≡ true
    → All (λ item. is_selected item.1 ≡ ok (contains item.0 expected)) local
      × ((i : String) → (not (contains i expected) || contains i (keys local)) ≡ true)
unfolding selected_ids
selected_ids-chosen local expected h once =
    through (filter_m (λ item. is_selected item.1) local) _ h λ chosen filtered h₁.
      rw (← (ok-injective h₁)) (
        filter_m-chosen (λ item. is_selected item.1) local chosen filtered once,
        λ i. ground (arith, contains-chosen (λ item. is_selected item.1) local chosen i filtered),
      )

pub All-IsPlaced :
    (index : Json) (expected : List String) (items : Rows)
    → All (λ item. check_selection index item ≡ ok tt) items
    → All (λ item. is_selected item.1 ≡ ok (contains item.0 expected)) items
    → All (IsPlaced index expected) items
unfolding Checked
All-IsPlaced index expected [] h k = tt
All-IsPlaced index expected ((identity, entry) ∷ items) h k =
    let (assigned, shardable, selected, at, at₁, at₂, placed) =
      check_selection-Checked index (identity, entry) h.0 in
    let chosen = ok-injective (sym at₂ ∙ k.0) in
    (
      (assigned, shardable, at, at₁, k.0, sym chosen ∙ placed),
      All-IsPlaced index expected items h.1 k.1,
    )
