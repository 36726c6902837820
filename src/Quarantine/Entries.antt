-- ===== src/Quarantine/Entries.antt =====
-- What `build_manifest` writes.
use resq.Base.{
  string_eq, eq_iff, String, true, false, not, ◌||◌, List, [], ◌∷◌, Option, none, some, contains,
  to_set, contains-to_set, distinct, ◌≡◌, refl, sym, ap, ◌∙◌, arith, str_le, str_le_total,
  str_le_trans, distinct-to_set,
}
use resq.Base.Sorting.{sort, IsSorted, sort-IsSorted, contains-sort, distinct-sort}
use resq.Py.Value.{Json, null, str, obj, entries, array}
use resq.Py.Result.{Result, ok, through, past, ◌>>=◌}
use resq.Py.Dict.{lookup, keys, distinct-keys-insert}
use resq.Py.Access.{subscript, iterate, set_item, found}
use resq.Py.Fields.{member, member-set_item}
use resq.Py.Loops.{fold_m, map_m, map_m-Pointwise, Pointwise, Pointwise-imp}
use resq.Quarantine.{
  Rows, Options, load_proposals, load_manifest, selection, add_available, is_missing, existing_from,
  add_existing, renew_entry, build_manifest,
}
use resq.Quarantine.Content.{
  found-eq-ok, AreNamed, IsEntry, available-AreNamed, existing_from-AreNamed, is_named,
  existing_from-is_named, entry_after-IsEntry,
}
use resq.Quarantine.Renewal.{
  entry_after, renewed-after, renewed-keys, renewed-distinct, entry_after-same,
}

-- the proposals of a file, and the entries that the manifest has before
unfoldable pub proposals_in : Json → Result (List Json)
unfolding load_proposals
proposals_in proposal_file = do
  document ← load_proposals proposal_file
  listed ← subscript document "proposals"
  iterate listed

unfoldable pub entries_in : Json → Option Json → Result (List Json)
unfolding load_proposals load_manifest
entries_in proposal_file manifest_file = do
  document ← load_proposals proposal_file
  algorithm ← subscript document "identityAlgorithm"
  codec ← subscript document "identityCodec"
  manifest ← load_manifest manifest_file algorithm codec
  listed ← subscript manifest "entries"
  iterate listed

add_existing-distinct :
    (entry : Json) (o : Option Json) (d : Rows)
    → distinct (keys d) ≡ true
    → distinct (keys (add_existing entry o d)) ≡ true
unfolding add_existing
add_existing-distinct entry (some (str i)) d h = distinct-keys-insert i entry d h
add_existing-distinct entry none d h = h
add_existing-distinct entry (some null) d h = h
add_existing-distinct entry (some _) d h = h

existing_from-distinct :
    (rows : List Json) (d : Rows)
    → distinct (keys d) ≡ true
    → distinct (keys (existing_from rows d)) ≡ true
unfolding existing_from
existing_from-distinct [] d h = h
existing_from-distinct (obj fs ∷ rows) d h =
    existing_from-distinct rows (add_existing (obj fs) (lookup "testId" (entries fs)) d)
      (add_existing-distinct (obj fs) (lookup "testId" (entries fs)) d h)
existing_from-distinct (null ∷ rows) d h = existing_from-distinct rows d h
existing_from-distinct (_ ∷ rows) d h = existing_from-distinct rows d h

is_missing-contains :
    (selected available : List String) (i : String)
    → is_missing selected available ≡ false
    → (not (contains i selected) || contains i available) ≡ true
unfolding is_missing contains
is_missing-contains [] available i h = refl
is_missing-contains (s ∷ selected) available i h =
    ground (arith, is_missing-contains selected available i, eq_iff s i)

module _ (options : Options) (now : String) where
  -- what the steps of build_manifest went through
  build_manifest-after :
      (proposal_file : Json) (manifest_file : Option Json) (document : Json)
      → build_manifest options now proposal_file manifest_file ≡ ok document
      → (proposals : List Json) × (selected : List String) × (available : Rows) × (rows : List Json)
        × (ordered : List Json) × (ids : List String) × (proposals_in proposal_file ≡ ok proposals)
        × (selection options.test_ids proposals ≡ ok selected)
        × (fold_m add_available [] proposals ≡ ok available)
        × (entries_in proposal_file manifest_file ≡ ok rows)
        × ((i : String) → (not (contains i selected) || contains i (keys available)) ≡ true)
        × (member document "updatedAt" ≡ some (str now))
        × (member document "entries" ≡ some (array ordered))
        × IsSorted str_le ids
        × (distinct ids ≡ true)
        × ((i : String)
            → contains i ids ≡ (contains i (keys (existing_from rows [])) || contains i selected))
        × Pointwise
            (λ i row. entry_after options now available (existing_from rows []) selected i ≡ ok row)
            ids
            ordered
  unfolding build_manifest proposals_in entries_in keys distinct
  build_manifest-after proposal_file manifest_file document h =
      through (load_proposals proposal_file) _ h λ proposal_document loaded h₁.
        through (subscript proposal_document "proposals") _ h₁ λ listed at h₂.
          through (iterate listed) _ h₂ λ proposals iterated h₃.
            through (selection options.test_ids proposals) _ h₃ λ selected chosen h₄.
              through (fold_m add_available [] proposals) _ h₄ λ available indexed h₅.
                past (is_missing selected (keys available)) _ _ h₅ λ present h₆.
                  through (subscript proposal_document "identityAlgorithm") _ h₆
                    λ algorithm at_algorithm h₇.
                      through (subscript proposal_document "identityCodec") _ h₇
                        λ codec at_codec h₈.
                          through (load_manifest manifest_file algorithm codec) _ h₈
                            λ manifest loaded_manifest h₉.
                              through (subscript manifest "entries") _ h₉
                                λ entry_list at_entries h₁₀.
                                  through (iterate entry_list) _ h₁₀ λ rows iterated_rows h₁₁.
                                    through
                                      (fold_m (renew_entry options now available)
                                        (existing_from rows []) (sort str_le (to_set selected)))
                                      _ h₁₁
                                      λ final renewed h₁₂.
                                        through (set_item manifest "updatedAt" (str now)) _ h₁₂
                                          λ dated dating h₁₃.
                                            through
                                              (map_m (λ i. found i (lookup i final))
                                                (sort str_le (keys final)))
                                              _ h₁₃
                                              λ ordered in_order h₁₄.
                                                let same_ids = λ (i : String).
                                                  contains-sort str_le i (to_set selected)
                                                  ∙ contains-to_set i selected in
                                                let after =
                                                  λ (i : String) (row : Json)
                                                      (e : found i (lookup i final) ≡ ok row).
                                                    sym (
                                                      entry_after-same options now available
                                                        (existing_from rows []) selected
                                                        (sort str_le (to_set selected)) i
                                                        (same_ids i))
                                                    ∙ renewed-after options now available
                                                        (sort str_le (to_set selected))
                                                        (existing_from rows []) final i row
                                                        (distinct-sort str_le (to_set selected)
                                                          ∙ distinct-to_set selected)
                                                        renewed
                                                        (found-eq-ok i (lookup i final) e) in
                                                (
                                                  proposals,
                                                  selected,
                                                  available,
                                                  rows,
                                                  ordered,
                                                  sort str_le (keys final),
                                                  rw (loaded, at) iterated,
                                                  chosen,
                                                  indexed,
                                                  rw
                                                      (
                                                        loaded, at_algorithm, at_codec,
                                                        loaded_manifest, at_entries,
                                                      )
                                                      iterated_rows,
                                                  λ i.
                                                      is_missing-contains selected (keys available)
                                                        i present,
                                                  member-set_item dated "entries" (array ordered)
                                                        h₁₄ "updatedAt"
                                                      ∙ member-set_item manifest "updatedAt"
                                                          (str now) dating "updatedAt",
                                                  member-set_item dated "entries" (array ordered)
                                                      h₁₄ "entries",
                                                  sort-IsSorted str_le str_le_total str_le_trans
                                                      (keys final),
                                                  distinct-sort str_le (keys final)
                                                      ∙ renewed-distinct options now available
                                                          (sort str_le (to_set selected))
                                                          (existing_from rows []) final renewed
                                                          (existing_from-distinct rows [] refl),
                                                  λ i.
                                                      contains-sort str_le i (keys final)
                                                      ∙ renewed-keys options now available
                                                          (sort str_le (to_set selected))
                                                          (existing_from rows []) final i renewed
                                                      ∙ ap
                                                          (λ b.
                                                            contains i
                                                            (keys (existing_from rows []))
                                                            || b)
                                                          (same_ids i),
                                                  map_m-Pointwise
                                                      (λ i row.
                                                        entry_after options now available
                                                          (existing_from rows []) selected i
                                                        ≡ ok row)
                                                      (λ i. found i (lookup i final)) after
                                                      (sort str_le (keys final)) ordered in_order,
                                                )

  -- If build_manifest returns, every selected test has a proposal, the manifest has the new
  -- time, and its entries are sorted by test and one for each test that it had or that is
  -- selected: the entry of a selected test names the test, has the owner, the reason, the
  -- issue and the expiry of the options, the evidence of the proposal for that test, and the
  -- creation time of its old entry, or the new time if there was none, and any other entry is
  -- as it was.
  pub build_manifest-entries :
      (proposal_file : Json) (manifest_file : Option Json) (document : Json)
      → build_manifest options now proposal_file manifest_file ≡ ok document
      → (proposals : List Json) × (selected : List String) × (available : Rows) × (rows : List Json)
        × (ordered : List Json) × (ids : List String) × (proposals_in proposal_file ≡ ok proposals)
        × (selection options.test_ids proposals ≡ ok selected)
        × (fold_m add_available [] proposals ≡ ok available)
        × (entries_in proposal_file manifest_file ≡ ok rows)
        × ((i : String) → (not (contains i selected) || contains i (keys available)) ≡ true)
        × (member document "updatedAt" ≡ some (str now))
        × (member document "entries" ≡ some (array ordered))
        × IsSorted str_le ids
        × (distinct ids ≡ true)
        × ((i : String) → contains i ids ≡ (is_named i rows || contains i selected))
        × AreNamed proposals available
        × AreNamed rows (existing_from rows [])
        × Pointwise (IsEntry options now available (existing_from rows []) selected) ids ordered
  build_manifest-entries proposal_file manifest_file document h =
      let (
        proposals, selected, available, rows, ordered, ids, p, c, a, r, present, u, e, s, d, k,
        after,
      ) =
        build_manifest-after proposal_file manifest_file document h in
      (
        proposals,
        selected,
        available,
        rows,
        ordered,
        ids,
        p,
        c,
        a,
        r,
        present,
        u,
        e,
        s,
        d,
        λ i. k i ∙ ap (λ b. b || contains i selected) (existing_from-is_named rows i),
        available-AreNamed proposals available a,
        existing_from-AreNamed rows,
        Pointwise-imp
            (λ i row. entry_after options now available (existing_from rows []) selected i ≡ ok row)
            (IsEntry options now available (existing_from rows []) selected)
            (entry_after-IsEntry options now available (existing_from rows []) selected) ids ordered
            after,
      )
