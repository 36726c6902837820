-- ===== src/Merge/Ownership/Measurements.antt =====
-- What `merge_performance` returns.
use mathlib.Core.List.{append-nil, append_assoc}
use resq.Base.{
  string_eq, String, true, false, List, [], ◌∷◌, ◌++◌, ◌==◌, ◌≡◌, refl, sym, ap, ◌∙◌, All, contains,
  distinct, concat, str_le, Option-cases, inl, inr,
}
use resq.Base.Sorting.{sort}
use resq.Py.Value.{Json, arr, null, nil}
use resq.Py.Result.{Result, ok, ok-injective, err-ne-ok, through, past, ◌>>=◌}
use resq.Py.Dict.{
  lookup, is_some, keys, contains-keys-insert, distinct-keys-insert, keys-insert_new,
  All-insert_new, All-lookup,
}
use resq.Py.Access.{get, or_else}
use resq.Py.Text.{Runtime}
use resq.Py.Loops.{fold_m, map_m, map_m-cons}
use resq.Merge.Inventory.{Rows}
use resq.Merge.Ownership.{
  measurements, benchmark_id, add_measurement, add_performance, at_key, merge_performance,
}

module _ ⦃r : Runtime⦄ where
  -- the benchmarks that a document measures
  unfoldable pub measured : Json → Result (List String)
  unfolding measurements benchmark_id map_m
  measured document = do
    listed ← get document "performance" null
    rows ← measurements (or_else listed (arr nil))
    map_m benchmark_id rows

  abbrev IsKeyed : Rows → Type 0
  IsKeyed = All (λ item. benchmark_id item.1 ≡ ok item.0)

  -- what a loop over rows with the keys `ids` does
  record Grown (ids : List String) (merged merged' : Rows) : Type 0 where
    has_keys : keys merged' ≡ keys merged ++ ids
    stays_distinct : distinct (keys merged) ≡ true → distinct (keys merged') ≡ true
    stays_named : contains "" (keys merged) ≡ false → contains "" (keys merged') ≡ false
    stays_keyed : IsKeyed merged → IsKeyed merged'

  Grown-nil : (merged : Rows) → Grown [] merged merged
  Grown-nil merged = record {
    has_keys = sym (append-nil (keys merged));
    stays_distinct = λ h. h;
    stays_named = λ h. h;
    stays_keyed = λ h. h;
  }

  Grown-append :
      (ids ids' : List String) (merged merged₁ merged₂ : Rows)
      → Grown ids merged merged₁
      → Grown ids' merged₁ merged₂
      → Grown (ids ++ ids') merged merged₂
  Grown-append ids ids' merged merged₁ merged₂ g g' = record {
    has_keys = g'.has_keys ∙ ap (λ ks. ks ++ ids') g.has_keys ∙ append_assoc (keys merged) ids ids';
    stays_distinct = λ h. g'.stays_distinct (g.stays_distinct h);
    stays_named = λ h. g'.stays_named (g.stays_named h);
    stays_keyed = λ h. g'.stays_keyed (g.stays_keyed h);
  }

  add_measurement-Grown :
      (merged : Rows) (row : Json) (merged' : Rows)
      → add_measurement merged row ≡ ok merged'
      → (key : String) × (benchmark_id row ≡ ok key) × Grown (key ∷ []) merged merged'
  unfolding add_measurement
  add_measurement-Grown merged row merged' h = through (benchmark_id row) _ h λ key own h₁.
      past (key == "") _ _ h₁ λ named h₂. past (is_some (lookup key merged)) _ _ h₂ λ fresh h₃.
        rw (← (ok-injective h₃)) (
          key,
          own,
          record {
            has_keys = keys-insert_new key row merged fresh;
            stays_distinct = distinct-keys-insert key row merged;
            stays_named = λ q. contains-keys-insert key "" row merged ∙ rw (named) q;
            stays_keyed =
                All-insert_new (λ item. benchmark_id item.1 ≡ ok item.0) key row merged fresh own;
          },
        )

  rows-Grown :
      (rows : List Json) (merged merged' : Rows)
      → fold_m add_measurement merged rows ≡ ok merged'
      → (ids : List String) × (map_m benchmark_id rows ≡ ok ids) × Grown ids merged merged'
  unfolding fold_m map_m
  rows-Grown [] merged merged' h = rw (← (ok-injective h)) ([], refl, Grown-nil merged)
  rows-Grown (row ∷ rows) merged merged' h =
      through (add_measurement merged row) _ h λ next step rest.
        let (key, own, g) = add_measurement-Grown merged row next step in
        let (ids, of_rows, g') = rows-Grown rows next merged' rest in
        (key ∷ ids, rw (own, of_rows) refl, Grown-append (key ∷ []) ids merged next merged' g g')

  documents-Grown :
      (documents : List Json) (merged merged' : Rows)
      → fold_m add_performance merged documents ≡ ok merged'
      → (idss : List (List String)) × (map_m measured documents ≡ ok idss)
        × Grown (concat idss) merged merged'
  unfolding fold_m map_m add_performance measured
  documents-Grown [] merged merged' h = rw (← (ok-injective h)) ([], refl, Grown-nil merged)
  documents-Grown (document ∷ documents) merged merged' h =
      through (add_performance merged document) _ h λ next step rest.
        through (get document "performance" null) _ step λ listed got step₁.
          through (measurements (or_else listed (arr nil))) _ step₁ λ rows as_rows step₂.
            let (ids, of_rows, g) = rows-Grown rows merged next step₂ in
            let (idss, of_documents, g') = documents-Grown documents next merged' rest in
            (
              ids ∷ idss,
              rw (got, as_rows, of_rows, of_documents) refl,
              Grown-append ids (concat idss) merged next merged' g g',
            )

  at_key-id :
      (merged : Rows) (key : String) (row : Json)
      → IsKeyed merged
      → at_key merged key ≡ ok row
      → benchmark_id row ≡ ok key
  unfolding at_key
  at_key-id merged key row keyed h = elim (Option-cases (lookup key merged)) [
    | inl e ↦ absurd (err-ne-ok (rw e at h))
    | inr (known, e) ↦
        rw (ok-injective (rw e at h)) at
          (All-lookup (λ item. benchmark_id item.1 ≡ ok item.0) key known merged keyed e)
  ]

  rows-ids :
      (merged : Rows) (ks : List String) (rows : List Json)
      → IsKeyed merged
      → map_m (at_key merged) ks ≡ ok rows
      → map_m benchmark_id rows ≡ ok ks
  unfolding map_m
  rows-ids merged [] rows keyed h = rw (← (ok-injective h)) refl
  rows-ids merged (key ∷ ks) rows keyed h =
      let (row, rest, e, e', split) = map_m-cons (at_key merged) key ks h in
      rw (← split) (rw (at_key-id merged key row keyed e, rows-ids merged ks rest keyed e') refl)

  -- If merge_performance returns, the benchmarks that the documents measure are distinct and
  -- named, and the rows are those of all these benchmarks, in sorted order.
  pub merge_performance-sorted :
      (documents rows : List Json)
      → merge_performance documents ≡ ok rows
      → (idss : List (List String)) × (map_m measured documents ≡ ok idss)
        × (map_m benchmark_id rows ≡ ok (sort str_le (concat idss)))
        × (distinct (concat idss) ≡ true)
        × (contains "" (concat idss) ≡ false)
  unfolding merge_performance keys distinct contains
  merge_performance-sorted documents rows h =
      through (fold_m add_performance [] documents) _ h λ merged all h₁.
        let (idss, of_documents, g) = documents-Grown documents [] merged all in
        let as_keys =
          rw (g.has_keys) at
            (rows-ids merged (sort str_le (keys merged)) rows (g.stays_keyed tt) h₁) in
        (
          idss,
          of_documents,
          as_keys,
          rw (g.has_keys) at (g.stays_distinct refl),
          rw (g.has_keys) at (g.stays_named refl),
        )
