-- ===== src/Merge/Inventory/Assigned.antt =====
-- What `validate_inventory` establishes of the identities that are expected of each shard.
use mathlib.Core.List.{append-nil, append_assoc}
use resq.Base.{
  string_eq, list_eq, String, true, not, ◌||◌, List, [], ◌∷◌, ◌++◌, ◌≡◌, refl, sym, ap, ◌∙◌, arith,
  All, contains, contains_nil, contains-append, concat, distinct,
}
use resq.Py.Value.{Json}
use resq.Py.Result.{Result, ok, ok-injective, through, ◌>>=◌}
use resq.Py.Dict.{keys}
use resq.Py.Access.{subscript, iterate}
use resq.Py.Hash.{atom_eq}
use resq.Py.Text.{Runtime}
use resq.Py.Loops.{fold_m, each, each-eq-ok, map_m, Pointwise}
use resq.Merge.Shared.{execution_id, shard_of, shard_index}
use resq.Merge.Inventory.{
  Rows, check_selection, selected_ids, check_declared, add_entry, add_shard, check_orphans,
  ordered_entries, validate_inventory,
}
use resq.Merge.Inventory.Selection.{IsPlaced, selected_ids-chosen, All-IsPlaced}
use resq.Merge.Inventory.Manifests.{identified, IsKeyed, Added, entries-Added}

unfoldable pub manifest_entries : Json → Result (List Json)
manifest_entries document = do
  manifest ← subscript document "manifest"
  tests ← subscript manifest "tests"
  iterate tests

module _ ⦃r : Runtime⦄ where
  -- The manifest of a document names each identity once and places it by the document's index, and
  -- `expected` has no identity but those of the manifest.
  abbrev pub IsAssigned : Json → List String → Type 0
  IsAssigned document expected =
      (index : Json) × (entries : List Json) × (items : Rows) × (shard_index document ≡ ok index)
      × (manifest_entries document ≡ ok entries)
      × (map_m identified entries ≡ ok items)
      × (distinct (keys items) ≡ true)
      × All (IsPlaced index expected) items
      × ((i : String) → (not (contains i expected) || contains i (keys items)) ≡ true)

  -- the identities that a document's manifest lists
  unfoldable pub manifest_ids : Json → Result (List String)
  unfolding manifest_entries execution_id map_m
  manifest_ids document = do entries ← manifest_entries document; map_m execution_id entries

  identified-ids :
      (entries : List Json) (items : Rows)
      → map_m identified entries ≡ ok items
      → map_m execution_id entries ≡ ok (keys items)
  unfolding map_m identified keys
  identified-ids [] items h = rw (← (ok-injective h)) refl
  identified-ids (entry ∷ entries) items h =
      through (execution_id entry >>= λ identity. ok (identity, entry)) _ h λ item e h₁.
        through (execution_id entry) _ e λ identity own e₁.
          through (map_m identified entries) _ h₁ λ rest listed h₂.
            rw (← (ok-injective h₂))
              (rw (own, identified-ids entries rest listed, ← (ok-injective e₁)) refl)

  -- What the loop over the documents did, where it expects `expected` and the manifests list `ids`.
  pub record Union (documents : List Json) (union union' : Rows) (expected : List (List String))
      (ids : List (List String)) : Type 0 where
    pub assigned : Pointwise IsAssigned documents expected
    pub listed : map_m manifest_ids documents ≡ ok ids
    pub has_keys :
        (i : String)
        → contains i (keys union') ≡ (contains i (keys union) || contains i (concat ids))
    pub stays_distinct : distinct (keys union) ≡ true → distinct (keys union') ≡ true
    pub stays_keyed : IsKeyed union → IsKeyed union'

  add_shard-IsAssigned :
      (count : Json) (union : Rows) (expecteds : List (List String)) (document : Json)
      (state : Rows × List (List String))
      → add_shard count (union, expecteds) document ≡ ok state
      → (expected : List String) × (items local : Rows) × (manifest_ids document ≡ ok (keys items))
        × IsAssigned document expected
        × (state.1 ≡ expecteds ++ expected ∷ [])
        × Added items [] union local state.0
  unfolding add_shard manifest_entries manifest_ids keys distinct
  add_shard-IsAssigned count union expecteds document state h =
      through (shard_index document) _ h λ index indexed h₁.
        through (subscript document "manifest") _ h₁ λ manifest got h₂.
          through (subscript manifest "tests") _ h₂ λ tests got₁ h₃.
            through (iterate tests) _ h₃ λ entries iterated h₄.
              through (fold_m (add_entry count) ([], union) entries) _ h₄ λ next passed h₅.
                through (each (check_selection index) next.0) _ h₅ λ _ checked h₆.
                  through (selected_ids next.0) _ h₆ λ expected selected h₇.
                    through (shard_of document) _ h₇ λ shard _ h₈.
                      through (check_declared shard expected) _ h₈ λ _ _ h₉.
                        let (items, identifieds, a) =
                          entries-Added count entries [] union next passed in
                        let once = rw (a.local_items) at (a.local_distinct refl) in
                        let (chosen, within) =
                          selected_ids-chosen items expected (rw (a.local_items) at selected)
                            once in
                        let placed =
                          All-IsPlaced index expected items
                            (rw (a.local_items) at
                              (each-eq-ok (check_selection index) next.0 checked))
                            chosen in
                        (
                          expected,
                          items,
                          next.0,
                          rw (got, got₁, iterated) (identified-ids entries items identifieds),
                          (
                            index,
                            entries,
                            items,
                            indexed,
                            rw (got, got₁) iterated,
                            identifieds,
                            once,
                            placed,
                            within,
                          ),
                          ap (λ (s : Rows × List (List String)). s.1) (sym (ok-injective h₉)),
                          rw (ap (λ (s : Rows × List (List String)). s.0) (ok-injective h₉)) at a,
                        )

  pub documents-Union :
      (count : Json) (documents : List Json) (union : Rows) (expecteds : List (List String))
      (state : Rows × List (List String))
      → fold_m (add_shard count) (union, expecteds) documents ≡ ok state
      → (expected ids : List (List String)) × (state.1 ≡ expecteds ++ expected)
        × Union documents union state.0 expected ids
  unfolding fold_m map_m
  documents-Union count [] union expecteds state h = rw (← (ok-injective h)) (
    [],
    [],
    sym (append-nil expecteds),
    record {
      assigned = tt;
      listed = refl;
      has_keys = λ i. ground (arith, contains_nil i);
      stays_distinct = λ q. q;
      stays_keyed = λ q. q;
    },
  )
  documents-Union count (document ∷ documents) union expecteds state h =
      through (add_shard count (union, expecteds) document) _ h λ next step rest.
        let (wanted, items, local, own_ids, placed, grown, a) =
          add_shard-IsAssigned count union expecteds document next step in
        let (expected, ids, grown', u) = documents-Union count documents next.0 next.1 state rest in
        (
          wanted ∷ expected,
          keys items ∷ ids,
          grown' ∙ ap (λ e. e ++ expected) grown ∙ append_assoc expecteds (wanted ∷ []) expected,
          record {
            assigned = (placed, u.assigned);
            listed = rw (own_ids, u.listed) refl;
            has_keys = λ i.
                ground (
                  arith,
                  u.has_keys i,
                  a.union_keys i,
                  contains-append i (keys items) (concat ids),
                );
            stays_distinct = λ q. u.stays_distinct (a.union_distinct q);
            stays_keyed = λ q. u.stays_keyed (a.union_keyed q);
          },
        )

  -- If validate_inventory returns, each shard's manifest names every identity once, and the
  -- identities expected of the shard are the selected ones of its manifest: a shardable entry
  -- is expected if and only if its assigned shard is the shard's index, and a run-level entry
  -- is always expected.
  pub validate_inventory-IsAssigned :
      (documents : List Json) (count : Json) (ordered : List Json) (expected : List (List String))
      → validate_inventory documents count ≡ ok (ordered, expected)
      → Pointwise IsAssigned documents expected
  unfolding validate_inventory
  validate_inventory-IsAssigned documents count ordered expected h =
      through (fold_m (add_shard count) ([], []) documents) _ h λ state passed h₁.
        through (check_orphans state.0 documents) _ h₁ λ _ _ h₂.
          through (ordered_entries state.0) _ h₂ λ entries _ h₃.
            let (expected', ids, grown, u) = documents-Union count documents [] [] state passed in
            let same = ap (λ (s : List Json × List (List String)). s.1) (ok-injective h₃) in
            rw (sym grown ∙ same) at u.assigned
