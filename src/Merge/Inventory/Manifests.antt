-- ===== src/Merge/Inventory/Manifests.antt =====
-- The loop over the entries of one manifest.
use mathlib.Core.List.{append-nil, append_assoc}
use resq.Base.{
  string_eq, eq_iff, String, true, false, not, ◌||◌, List, [], ◌∷◌, ◌++◌, ◌==◌, ◌≡◌, refl, sym, ap,
  ◌∙◌, arith, All, contains, contains_nil, contains_cons, distinct, Bool-cases, inl, inr,
}
use resq.Py.Value.{Json, null}
use resq.Py.Result.{Result, ok, ok-injective, through, past, ◌>>=◌}
use resq.Py.Dict.{
  lookup, insert, insert_new, is_some, keys, contains-keys, contains-keys-insert,
  distinct-keys-insert, All-insert_new, lookup-none,
}
use resq.Py.Access.{get}
use resq.Py.Equal.{is_text}
use resq.Py.Order.{range_bound, in_range}
use resq.Py.Text.{Runtime}
use resq.Py.Loops.{fold_m, map_m}
use resq.Merge.Shared.{execution_id, normalize_inventory}
use resq.Merge.Inventory.{Rows, check_known, set_default, add_entry}

module _ ⦃r : Runtime⦄ where
  -- an entry with its identity
  unfoldable pub identified : Json → Result (String × Json)
  unfolding execution_id
  identified entry = do identity ← execution_id entry; ok (identity, entry)

  -- Each entry stands under its own identity.
  abbrev pub IsKeyed : Rows → Type 0
  IsKeyed = All (λ item. execution_id item.1 ≡ ok item.0)

  -- What a pass over the entries of a manifest did, whose identified entries are `items`.
  pub record Added (items local union local' union' : Rows) : Type 0 where
    pub local_items : local' ≡ local ++ items
    pub local_distinct : distinct (keys local) ≡ true → distinct (keys local') ≡ true
    pub union_keys :
        (i : String)
        → contains i (keys union') ≡ (contains i (keys union) || contains i (keys items))
    pub union_distinct : distinct (keys union) ≡ true → distinct (keys union') ≡ true
    pub union_keyed : IsKeyed union → IsKeyed union'

  Added-nil : (local union : Rows) → Added [] local union local union
  unfolding keys
  Added-nil local union = record {
    local_items = sym (append-nil local);
    local_distinct = λ h. h;
    union_keys = λ i. ground (arith, contains_nil i);
    union_distinct = λ h. h;
    union_keyed = λ h. h;
  }

  set_default-keys :
      (identity i : String) (entry : Json) (union : Rows)
      → contains i (keys (set_default identity entry union))
        ≡ (identity == i || contains i (keys union))
  unfolding set_default
  set_default-keys identity i entry union = elim (Bool-cases (is_some (lookup identity union))) [
    | inl e ↦ rw e (ground (arith, contains-keys identity union, eq_iff identity i))
    | inr e ↦ rw e (contains-keys-insert identity i entry union)
  ]

  set_default-distinct :
      (identity : String) (entry : Json) (union : Rows)
      → distinct (keys union) ≡ true
      → distinct (keys (set_default identity entry union)) ≡ true
  unfolding set_default
  set_default-distinct identity entry union h =
      elim (Bool-cases (is_some (lookup identity union))) [
        | inl e ↦ rw e h
        | inr e ↦ rw e (distinct-keys-insert identity entry union h)
      ]

  set_default-IsKeyed :
      (identity : String) (entry : Json) (union : Rows)
      → execution_id entry ≡ ok identity
      → IsKeyed union
      → IsKeyed (set_default identity entry union)
  unfolding set_default
  set_default-IsKeyed identity entry union own h =
      elim (Bool-cases (is_some (lookup identity union))) [
        | inl e ↦ rw e h
        | inr e ↦
            rw e (
              All-insert_new (λ item. execution_id item.1 ≡ ok item.0) identity entry union e own h)
      ]

  Added-cons :
      (identity : String) (entry : Json) (items local union local' union' : Rows)
      → is_some (lookup identity local) ≡ false
      → execution_id entry ≡ ok identity
      → Added items (insert identity entry local) (set_default identity entry union) local' union'
      → Added ((identity, entry) ∷ items) local union local' union'
  unfolding keys
  Added-cons identity entry items local union local' union' fresh own a = record {
    local_items =
        a.local_items
        ∙ ap (λ l. l ++ items) (insert_new identity entry local (lookup-none identity local fresh))
        ∙ append_assoc local ((identity, entry) ∷ []) items;
    local_distinct = λ h. a.local_distinct (distinct-keys-insert identity entry local h);
    union_keys = λ i. ground (
      arith,
      a.union_keys i,
      set_default-keys identity i entry union,
      contains_cons i identity (keys items),
    );
    union_distinct = λ h. a.union_distinct (set_default-distinct identity entry union h);
    union_keyed = λ h. a.union_keyed (set_default-IsKeyed identity entry union own h);
  }

  add_entry-eq-ok :
      {C : Type 0} (count : Json) (local union : Rows) (entry : Json) {state : Rows × Rows}
      → add_entry count (local, union) entry ≡ ok state
      → ((identity : String)
          → execution_id entry ≡ ok identity
          → is_some (lookup identity local) ≡ false
          → (insert identity entry local, set_default identity entry union) ≡ state
          → C)
      → C
  unfolding add_entry
  add_entry-eq-ok count local union entry h go = through (execution_id entry) _ h λ identity own h₁.
      through (get entry "executionId" null) _ h₁ λ stated _ h₂.
        past (identity == "" || not (is_text stated identity)) _ _ h₂ λ _ h₃.
          past (is_some (lookup identity local)) _ _ h₃ λ fresh h₄.
            through (get entry "assignedShard" null) _ h₄ λ assigned _ h₅.
              through (range_bound count) _ h₅ λ bound _ h₆.
                past (not (in_range assigned bound)) _ _ h₆ λ _ h₇.
                  through (normalize_inventory entry) _ h₇ λ normalized _ h₈.
                    through (check_known (lookup identity union) normalized) _ h₈
                      λ _ _ h₉. go identity own fresh (ok-injective h₉)

  pub entries-Added :
      (count : Json) (entries : List Json) (local union : Rows) (state : Rows × Rows)
      → fold_m (add_entry count) (local, union) entries ≡ ok state
      → (items : Rows) × (map_m identified entries ≡ ok items)
        × Added items local union state.0 state.1
  unfolding fold_m map_m identified
  entries-Added count [] local union state h =
      rw (← (ok-injective h)) ([], refl, Added-nil local union)
  entries-Added count (entry ∷ entries) local union state h =
      through (add_entry count (local, union) entry) _ h λ next step rest.
        add_entry-eq-ok count local union entry step λ identity own fresh same.
          let (items, of_entries, a) =
            entries-Added count entries (insert identity entry local)
              (set_default identity entry union) state (rw same rest) in
          (
            (identity, entry) ∷ items,
            rw (own, of_entries) refl,
            Added-cons identity entry items local union state.0 state.1 fresh own a,
          )
