-- ===== src/Merge/Inventory/Ordered.antt =====
-- What `validate_inventory` returns as the merged manifest.
use resq.Base.{
  string_eq, String, true, List, [], ◌∷◌, some, ◌≡◌, refl, ap, ◌∙◌, All, contains, distinct, concat,
}
use resq.Py.Value.{Json, null, bool, obj, entries, entries-of_entries}
use resq.Py.Result.{ok, ok-injective, through}
use resq.Py.Dict.{keys, values, lookup-insert}
use resq.Py.Access.{get, set_item}
use resq.Py.Fields.{member, member-set_item}
use resq.Py.Hash.{Atom}
use resq.Py.Order.{less_tuple, sort_m}
use resq.Py.Order.Mapped.{Alike, sort_m-Alike}
use resq.Py.Text.{Runtime}
use resq.Py.Loops.{fold_m, map_m, map_m-cons, map_m-All}
use resq.Merge.Shared.{execution_id}
use resq.Merge.Inventory.{
  Rows, sort_key, keyed, add_shard, check_orphans, ordered_entries, validate_inventory,
}
use resq.Merge.Inventory.Manifests.{IsKeyed}
use resq.Merge.Inventory.Assigned.{manifest_ids, documents-Union}

module _ ⦃r : Runtime⦄ where
  -- Marking an entry as selected leaves its identity.
  execution_id-set_item :
      (entry : Json) (v : Json) {entry' : Json}
      → set_item entry "selected" v ≡ ok entry'
      → execution_id entry' ≡ execution_id entry
  unfolding set_item execution_id get
  execution_id-set_item (obj fs) v h = rw (← (ok-injective h)) (
      rw
        (
          entries-of_entries,
          lookup-insert "selected" "caseId" v (entries fs),
          lookup-insert "selected" "testId" v (entries fs),
          lookup-insert "selected" "executionId" v (entries fs),
        )
        refl)
  execution_id-set_item null v h = cc
  execution_id-set_item _ v h = cc

  keyed-ids :
      (union : Rows) (pairs : List (List Atom × Json))
      → IsKeyed union
      → map_m keyed (values union) ≡ ok pairs
      → map_m (λ pair. execution_id pair.1) pairs ≡ ok (keys union)
  unfolding map_m values keys keyed
  keyed-ids [] pairs own h = rw (← (ok-injective h)) refl
  keyed-ids ((identity, entry) ∷ union) pairs own h =
      let (pair, rest, e, e', split) = map_m-cons keyed entry (values union) h in
      through (sort_key entry) _ e λ key _ e₁.
        rw (← split) (rw (← (ok-injective e₁), own.0, keyed-ids union rest own.1 e') refl)

  selected-ids :
      (pairs : List (List Atom × Json)) (ordered : List Json) (ids : List String)
      → map_m (λ pair. set_item pair.1 "selected" (bool true)) pairs ≡ ok ordered
      → map_m (λ pair. execution_id pair.1) pairs ≡ ok ids
      → map_m execution_id ordered ≡ ok ids
  unfolding map_m
  selected-ids [] ordered ids h k = rw (← (ok-injective h)) k
  selected-ids (pair ∷ pairs) ordered ids h k =
      let (entry, rest, e, e', split) =
        map_m-cons (λ pair. set_item pair.1 "selected" (bool true)) pair pairs h in
      let (identity, ids', i, i', split') = map_m-cons (λ pair. execution_id pair.1) pair pairs k in
      rw (← split) (
        rw (execution_id-set_item pair.1 (bool true) e, i, selected-ids pairs rest ids' e' i')
          (ap ok split'))

  ordered_entries-ids :
      (union : Rows) (ordered : List Json)
      → IsKeyed union
      → ordered_entries union ≡ ok ordered
      → (ids : List String) × (map_m execution_id ordered ≡ ok ids)
        × Alike (keys union) ids
        × All (λ entry. member entry "selected" ≡ some (bool true)) ordered
  unfolding ordered_entries
  ordered_entries-ids union ordered own h =
      through (map_m keyed (values union)) _ h λ pairs paired h₁.
        through (sort_m (λ a b. less_tuple a.0 b.0) pairs) _ h₁ λ sorted in_order h₂.
          let (ids, of_sorted, a) =
            sort_m-Alike (λ a b. less_tuple a.0 b.0) (λ pair. execution_id pair.1) pairs sorted
              (keys union) in_order (keyed-ids union pairs own paired) in
          (
            ids,
            selected-ids sorted ordered ids h₂ of_sorted,
            a,
            map_m-All (λ entry. member entry "selected" ≡ some (bool true))
                (λ (pair : List Atom × Json). set_item pair.1 "selected" (bool true))
                (λ pair entry e. member-set_item pair.1 "selected" (bool true) e "selected") sorted
                ordered h₂,
          )

  -- If validate_inventory returns, the merged manifest has distinct identities, these are the
  -- identities that some manifest lists, and every entry is marked as selected.
  pub validate_inventory-ids :
      (documents : List Json) (count : Json) (ordered : List Json) (expected : List (List String))
      → validate_inventory documents count ≡ ok (ordered, expected)
      → (ids : List String) × (idss : List (List String)) × (map_m execution_id ordered ≡ ok ids)
        × (map_m manifest_ids documents ≡ ok idss)
        × (distinct ids ≡ true)
        × ((i : String) → contains i ids ≡ contains i (concat idss))
        × All (λ entry. member entry "selected" ≡ some (bool true)) ordered
  unfolding validate_inventory keys distinct contains
  validate_inventory-ids documents count ordered expected h =
      through (fold_m (add_shard count) ([], []) documents) _ h λ state passed h₁.
        through (check_orphans state.0 documents) _ h₁ λ _ _ h₂.
          through (ordered_entries state.0) _ h₂ λ entries in_order h₃.
            let (expected', idss, grown, u) = documents-Union count documents [] [] state passed in
            let same = ap (λ (s : List Json × List (List String)). s.0) (ok-injective h₃) in
            let (ids, of_ordered, a, marked) =
              ordered_entries-ids state.0 ordered (u.stays_keyed tt) (rw same at in_order) in
            (
              ids,
              idss,
              of_ordered,
              u.listed,
              a.once ∙ u.stays_distinct refl,
              λ i. a.has i ∙ u.has_keys i,
              marked,
            )
