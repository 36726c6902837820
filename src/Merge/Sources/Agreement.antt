-- ===== src/Merge/Sources/Agreement.antt =====
-- What `validate_sources` establishes.
use resq.Base.{
  string_eq, eq_iff, Bool, true, false, List, [], ◌∷◌, some, ◌≡◌, refl, sym, ap, ◌∙◌, length, All,
  Bool-cases, inl, inr, eq_true_of_not,
}
use resq.Py.Value.{Json, bool, object}
use resq.Py.Result.{Result, ok, ok-injective, err-ne-ok, through, past}
use resq.Py.Text.{Runtime, canonical}
use resq.Py.Access.{set_item}
use resq.Py.Fields.{member, member-set_item}
use resq.Py.Hash.{Atom}
use resq.Py.Order.{less, sort_m}
use resq.Py.Loops.{map_m, map_m-All, length-map_m, any_m}
use resq.Py.Order.Kept.{length-sort_m}
use resq.Py.Dict.{values}
use resq.Merge.Shared.{differs}
use resq.Merge.Inventory.{Rows}
use resq.Merge.Sources.{
  file_inventory, by_path, selected_files, check_inventories, validate_sources,
}

any_m-false :
    {A : Type 0} (test : A → Result Bool) (xs : List A)
    → any_m test xs ≡ ok false
    → All (λ x. test x ≡ ok false) xs
unfolding any_m
any_m-false test [] h = tt
any_m-false test (x ∷ xs) h = through (test x) _ h λ found at h₁. elim (Bool-cases found) [
  | inl b ↦ absurd (other (ok-injective (rw b at h₁)))
  | inr b ↦ (at ∙ ap ok b, any_m-false test xs (rw b at h₁))
]
  where
    other : true ≡ false → ⊥
    other q = cc

selected_files-selected :
    (reference : Rows) (files : List Json)
    → selected_files reference ≡ ok files
    → All (λ entry. member entry "selected" ≡ some (bool true)) files
      × (length files ≡ length (values reference))
unfolding selected_files
selected_files-selected reference files h =
    through (map_m by_path (values reference)) _ h λ pairs listed h₁.
      through (sort_m (λ a b. less a.0 b.0) pairs) _ h₁ λ sorted in_order h₂.
        let mark = λ (pair : Atom × Json). set_item pair.1 "selected" (bool true) in
        (
          map_m-All (λ entry. member entry "selected" ≡ some (bool true)) mark
              (λ pair entry e. member-set_item pair.1 "selected" (bool true) e "selected") sorted
              files h₂,
          length-map_m mark sorted files h₂
              ∙ length-sort_m (λ a b. less a.0 b.0) pairs sorted in_order
              ∙ length-map_m by_path (values reference) pairs listed,
        )

module _ ⦃r : Runtime⦄ where
  differs-canonical : (a b : Json) → differs a b ≡ ok false → canonical a ≡ canonical b
  unfolding differs
  differs-canonical a b h = through (canonical a) _ h λ s at h₁.
      through (canonical b) _ h₁
        λ t at' h₂. at ∙ ap ok ((eq_iff s t).0 (eq_true_of_not _ (ok-injective h₂))) ∙ sym at'

  All-canonical :
      (reference : Rows) (rest : List Rows)
      → All (λ inventory. differs (object inventory) (object reference) ≡ ok false) rest
      → All (λ inventory. canonical (object inventory) ≡ canonical (object reference)) rest
  All-canonical reference [] h = tt
  All-canonical reference (inventory ∷ rest) h = (
    differs-canonical (object inventory) (object reference) h.0,
    All-canonical reference rest h.1,
  )

  checked-agree :
      (inventories : List Rows) (files : List Json)
      → check_inventories inventories ≡ ok files
      → (reference : Rows) × (rest : List Rows) × (inventories ≡ reference ∷ rest)
        × All (λ inventory. canonical (object inventory) ≡ canonical (object reference)) rest
        × (selected_files reference ≡ ok files)
  unfolding check_inventories
  checked-agree [] files h = absurd (err-ne-ok h)
  checked-agree (reference ∷ rest) files h =
      through (any_m (λ inventory. differs (object inventory) (object reference)) rest) _ h
        λ mixed at h₁. past mixed _ _ h₁ λ agree h₂. (
          reference,
          rest,
          refl,
          All-canonical reference rest (
              any_m-false (λ inventory. differs (object inventory) (object reference)) rest
                (at ∙ ap ok agree)),
          h₂,
        )

  -- If validate_sources returns, every document has a source inventory, the canonical text of
  -- each is that of the first, and the files are as many as the first inventory has, each
  -- marked as selected.
  pub validate_sources-agree :
      (documents files : List Json)
      → validate_sources documents ≡ ok files
      → (reference : Rows) × (rest : List Rows) × (map_m file_inventory documents
          ≡ ok (reference ∷ rest))
        × All (λ inventory. canonical (object inventory) ≡ canonical (object reference)) rest
        × (length files ≡ length (values reference))
        × All (λ entry. member entry "selected" ≡ some (bool true)) files
  unfolding validate_sources
  validate_sources-agree documents files h =
      through (map_m file_inventory documents) _ h λ inventories listed checked.
        let (reference, rest, split, agree, chosen) = checked-agree inventories files checked in
        let (selected, counted) = selected_files-selected reference files chosen in
        (reference, rest, listed ∙ ap ok split, agree, counted, selected)
