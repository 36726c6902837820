-- ===== src/Reconcile/Agreement.antt =====
-- What `reconcile_reports` establishes of the two lanes.
use mathlib.Core.List.{append-nil, append_assoc}
use resq.Base.{
  string_eq, String, Bool, true, false, not, ◌||◌, List, [], ◌∷◌, ◌++◌, Option, none, some, ◌==◌,
  same_set, same_set-contains, contains, distinct, All, All-at, ◌≡◌, refl, sym, ap, ◌∙◌, str_le,
  eq_true_of_not, or_false,
}
use resq.Base.Sorting.{sort, contains-sort}
use resq.Py.Value.{Json, null}
use resq.Py.Result.{Exn, Result, ok, value_error, raise_if, ok-injective, through, past}
use resq.Py.Dict.{
  lookup, is_some, keys, keys-insert_new, contains-keys-insert, distinct-keys-insert,
}
use resq.Py.Access.{get, subscript, iterate, found}
use resq.Py.Equal.{py_eq}
use resq.Py.Text.{Runtime}
use resq.Py.Loops.{fold_m, each, each-eq-ok, map_m}
use resq.Merge.Shared.{execution_id}
use resq.Merge.Results.AllShards.{result_ids}
use resq.Reconcile.{
  Rows, row_keys, check_same, check_lanes, check_envelopes, add_row, rows_by_identity, check_rows,
  reconcile_reports,
}

-- two rows have equal values of a field, where a missing one counts as None
abbrev pub IsSame : Json → Json → String → Type 0
IsSame left right key =
    (a b : Json) × (get left key null ≡ ok a) × (get right key null ≡ ok b) × (py_eq a b ≡ true)

check_same-IsSame :
    (refusal : Exn) (left right : Json) (key : String)
    → check_same refusal left right key ≡ ok tt
    → IsSame left right key
unfolding check_same
check_same-IsSame refusal left right key h =
    through (get left key null) _ h
      λ a at h₁. through (get right key null) _ h₁ λ b at' h₂. (a, b, at, at', equal (py_eq a b) h₂)
  where
    equal : (same : Bool) → raise_if (not same) refusal ≡ ok tt → same ≡ true
    equal true k = refl
    equal false k = cc

pub All-IsSame :
    (refusal : Exn) (left right : Json) (names : List String)
    → All (λ key. check_same refusal left right key ≡ ok tt) names
    → All (IsSame left right) names
All-IsSame refusal left right [] h = tt
All-IsSame refusal left right (key ∷ names) h =
    (check_same-IsSame refusal left right key h.0, All-IsSame refusal left right names h.1)

found-eq-ok : (k : String) (o : Option Json) {v : Json} → found k o ≡ ok v → o ≡ some v
found-eq-ok k none h = cc
found-eq-ok k (some w) h = ap some (ok-injective h)

module _ ⦃r : Runtime⦄ where
  check_rows-IsSame :
      (left right : Rows) (identity : String)
      → check_rows left right identity ≡ ok tt
      → (l row : Json) × (lookup identity left ≡ some l)
        × (lookup identity right ≡ some row)
        × All (IsSame l row) row_keys
  unfolding check_rows
  check_rows-IsSame left right identity h =
      through (found identity (lookup identity left)) _ h λ l at h₁.
        through (found identity (lookup identity right)) _ h₁ λ row at' h₂. (
          l,
          row,
          found-eq-ok identity (lookup identity left) at,
          found-eq-ok identity (lookup identity right) at',
          All-IsSame (value_error "lane execution differs") l row row_keys
              (each-eq-ok (check_same (value_error "lane execution differs") l row) row_keys h₂),
        )

  -- what a pass over rows with the identities `ids` does
  record Added (ids : List String) (rows rows' : Rows) : Type 0 where
    has_keys : keys rows' ≡ keys rows ++ ids
    stays_distinct : distinct (keys rows) ≡ true → distinct (keys rows') ≡ true
    stays_named : contains "" (keys rows) ≡ false → contains "" (keys rows') ≡ false

  add_row-Added :
      (rows : Rows) (row : Json) (rows' : Rows)
      → add_row rows row ≡ ok rows'
      → (identity : String) × (execution_id row ≡ ok identity) × Added (identity ∷ []) rows rows'
  unfolding add_row
  add_row-Added rows row rows' h = through (execution_id row) _ h λ identity own h₁.
      past (identity == "" || is_some (lookup identity rows)) _ _ h₁ λ fine h₂.
        let (named, fresh) = or_false (identity == "") (is_some (lookup identity rows)) fine in
        rw (← (ok-injective h₂)) (
          identity,
          own,
          record {
            has_keys = keys-insert_new identity row rows fresh;
            stays_distinct = distinct-keys-insert identity row rows;
            stays_named = λ q. contains-keys-insert identity "" row rows ∙ rw named q;
          },
        )

  rows-Added :
      (list : List Json) (rows rows' : Rows)
      → fold_m add_row rows list ≡ ok rows'
      → (ids : List String) × (map_m execution_id list ≡ ok ids) × Added ids rows rows'
  unfolding fold_m map_m
  rows-Added [] rows rows' h = rw (← (ok-injective h)) (
    [],
    refl,
    record {
      has_keys = sym (append-nil (keys rows));
      stays_distinct = λ q. q;
      stays_named = λ q. q;
    },
  )
  rows-Added (row ∷ list) rows rows' h = through (add_row rows row) _ h λ next step rest.
      let (identity, own, a) = add_row-Added rows row next step in
      let (ids, of_list, b) = rows-Added list next rows' rest in
      (
        identity ∷ ids,
        rw (own, of_list) refl,
        record {
          has_keys =
              b.has_keys
              ∙ ap (λ ks. ks ++ ids) a.has_keys
              ∙ append_assoc (keys rows) (identity ∷ []) ids;
          stays_distinct = λ q. b.stays_distinct (a.stays_distinct q);
          stays_named = λ q. b.stays_named (a.stays_named q);
        },
      )

  -- The rows of a document stand under its identities, which are distinct and no empty text.
  rows_by_identity-ids :
      (document : Json) (rows : Rows)
      → rows_by_identity document ≡ ok rows
      → (result_ids document ≡ ok (keys rows))
        × (distinct (keys rows) ≡ true)
        × (contains "" (keys rows) ≡ false)
  unfolding rows_by_identity result_ids keys distinct contains
  rows_by_identity-ids document rows h = through (subscript document "tests") _ h λ tests at h₁.
      through (iterate tests) _ h₁ λ list iterated h₂.
        let (ids, of_list, a) = rows-Added list [] rows h₂ in
        (
          rw (at, iterated) (of_list ∙ ap ok (sym a.has_keys)),
          a.stays_distinct refl,
          a.stays_named refl,
        )

  module _ (validate : Json → Result (Unit {0})) where
    -- what an accepted pair of reports passed
    record Accepted (correctness coverage : Json) : Type 0 where
      left : Rows
      right : Rows
      is_left : rows_by_identity correctness ≡ ok left
      is_right : rows_by_identity coverage ≡ ok right
      same_keys : same_set (keys left) (keys right) ≡ true
      checked : All (λ i. check_rows left right i ≡ ok tt) (sort str_le (keys left))

    reconcile_reports-Accepted :
        (correctness coverage : Json) {result : Json}
        → reconcile_reports validate correctness coverage ≡ ok result
        → Accepted correctness coverage
    unfolding reconcile_reports
    reconcile_reports-Accepted correctness coverage h = through (validate correctness) _ h λ _ _ h₁.
        through (validate coverage) _ h₁ λ _ _ h₂.
          through (check_lanes correctness coverage) _ h₂ λ _ _ h₃.
            through (check_envelopes correctness coverage) _ h₃ λ _ _ h₄.
              through (rows_by_identity correctness) _ h₄ λ left is_left h₅.
                through (rows_by_identity coverage) _ h₅ λ right is_right h₆.
                  past (not (same_set (keys left) (keys right))) _ _ h₆ λ same h₇.
                    through (each (check_rows left right) (sort str_le (keys left))) _ h₇ λ _ all _.
                      record {
                        left = left;
                        right = right;
                        is_left = is_left;
                        is_right = is_right;
                        same_keys = eq_true_of_not _ same;
                        checked = each-eq-ok (check_rows left right) (sort str_le (keys left)) all;
                      }

    -- If reconcile_reports returns, whatever the validator is, the results of each report have
    -- distinct identities, none of the correctness report is empty, and both reports have the
    -- same identities.
    pub reconcile_reports-ids :
        (correctness coverage result : Json)
        → reconcile_reports validate correctness coverage ≡ ok result
        → (ids : List String) × (ids' : List String) × (result_ids correctness ≡ ok ids)
          × (result_ids coverage ≡ ok ids')
          × (distinct ids ≡ true)
          × (distinct ids' ≡ true)
          × (contains "" ids ≡ false)
          × ((i : String) → contains i ids ≡ contains i ids')
    reconcile_reports-ids correctness coverage result h =
        let a = reconcile_reports-Accepted correctness coverage h in
        let (listed, once, named) = rows_by_identity-ids correctness a.left a.is_left in
        let (listed', once', named') = rows_by_identity-ids coverage a.right a.is_right in
        (
          keys a.left,
          keys a.right,
          listed,
          listed',
          once,
          once',
          named,
          λ i. same_set-contains (keys a.left) (keys a.right) i a.same_keys,
        )

    -- If reconcile_reports returns, whatever the validator is, each identity of the
    -- correctness report has a row in both reports, and the two rows have equal values of
    -- every compared field.
    pub reconcile_reports-IsSame :
        (correctness coverage result : Json) (left right : Rows) (i : String)
        → reconcile_reports validate correctness coverage ≡ ok result
        → rows_by_identity correctness ≡ ok left
        → rows_by_identity coverage ≡ ok right
        → contains i (keys left) ≡ true
        → (l row : Json) × (lookup i left ≡ some l)
          × (lookup i right ≡ some row)
          × All (IsSame l row) row_keys
    reconcile_reports-IsSame correctness coverage result left right i h is_left is_right listed =
        let a = reconcile_reports-Accepted correctness coverage h in
        let all =
          rw (ok-injective (sym a.is_left ∙ is_left), ok-injective (sym a.is_right ∙ is_right)) at
            a.checked in
        check_rows-IsSame left right i (
          All-at (λ k. check_rows left right k ≡ ok tt) i (sort str_le (keys left)) all
            (contains-sort str_le i (keys left) ∙ listed))
