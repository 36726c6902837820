-- ===== src/Merge/Results/OneShard.antt =====
-- The loop over the rows of one shard.
use mathlib.Core.List.{append-nil, append_assoc}
use resq.Base.{
  string_eq, String, true, false, not, ◌||◌, List, [], ◌∷◌, ◌++◌, Option, none, some, ◌==◌, ◌≡◌,
  refl, sym, ap, ◌∙◌, arith, All, contains, distinct, eq_true_of_not, eq_iff, Bool-cases, or_comm,
  contains_nil, contains_cons, inl, inr,
}
use resq.Py.Value.{Json}
use resq.Py.Result.{ok, ok-injective, through, past}
use resq.Py.Dict.{
  lookup, insert, is_some, keys, contains-keys, contains-keys-insert, distinct-keys-insert,
  keys-insert_new, All-insert_new,
}
use resq.Py.Text.{Runtime}
use resq.Py.Loops.{fold_m, map_m}
use resq.Merge.Shared.{execution_id, differs}
use resq.Merge.Inventory.{Rows}
use resq.Merge.Results.{compared, join_row, add_row}

module _ ⦃r : Runtime⦄ where
  -- Each row stands under its own identity.
  abbrev pub IsKeyed : Rows → Type 0
  IsKeyed = All (λ item. execution_id item.1 ≡ ok item.0)

module _ ⦃r : Runtime⦄ (unshardable : List String) where
  -- what a row does to the union
  record Joined (identity : String) (row : Json) (union union' : Rows) : Type 0 where
    has_keys : (i : String) → contains i (keys union') ≡ (contains i (keys union) || identity == i)
    stays_distinct : distinct (keys union) ≡ true → distinct (keys union') ≡ true
    shared : is_some (lookup identity union) ≡ true → contains identity unshardable ≡ true
    stays_keyed : execution_id row ≡ ok identity → IsKeyed union → IsKeyed union'

  known_key :
      (k i : String) (union : Rows)
      → is_some (lookup k union) ≡ true
      → contains i (keys union) ≡ (contains i (keys union) || k == i)
  known_key k i union h = ground (arith, contains-keys k union, eq_iff k i)

  join_row-Joined :
      (identity : String) (row : Json) (union : Rows) (o : Option Json) (union' : Rows)
      → lookup identity union ≡ o
      → join_row unshardable identity row union o ≡ ok union'
      → Joined identity row union union'
  unfolding join_row
  join_row-Joined identity row union none union' e h = rw (← (ok-injective h)) (record {
    has_keys = λ i.
        contains-keys-insert identity i row union
        ∙ or_comm (identity == i) (contains i (keys union));
    stays_distinct = distinct-keys-insert identity row union;
    shared = λ q. cc (rw e at q);
    stays_keyed = λ own all.
        All-insert_new (λ item. execution_id item.1 ≡ ok item.0) identity row union (ap is_some e)
          own all;
  })
  join_row-Joined identity row union (some known) union' e h =
      past (not (contains identity unshardable)) _ _ h λ listed h₁.
        through (compared known) _ h₁ λ old _ h₂. through (compared row) _ h₂ λ new _ h₃.
          through (differs old new) _ h₃ λ different _ h₄. past different _ _ h₄ λ _ h₅.
            rw (← (ok-injective h₅)) (record {
              has_keys = λ i. known_key identity i union (ap is_some e);
              stays_distinct = λ q. q;
              shared = λ _. eq_true_of_not _ listed;
              stays_keyed = λ _ all. all;
            })

  -- What a pass over rows with the identities `ids` did.
  pub record Added (ids : List String) (local union local' union' : Rows) : Type 0 where
    pub local_keys : keys local' ≡ keys local ++ ids
    pub local_distinct : distinct (keys local) ≡ true → distinct (keys local') ≡ true
    pub union_keys :
        (i : String) → contains i (keys union') ≡ (contains i (keys union) || contains i ids)
    pub union_distinct : distinct (keys union) ≡ true → distinct (keys union') ≡ true
    pub shared :
        (i : String)
        → contains i (keys union) ≡ true
        → contains i ids ≡ true
        → contains i unshardable ≡ true
    pub keyed : IsKeyed union → IsKeyed union'

  pub record Pass (rows : List Json) (local union local' union' : Rows) : Type 0 where
    pub ids : List String
    pub of_rows : map_m execution_id rows ≡ ok ids
    pub added : Added ids local union local' union'

  Added-nil : (local union : Rows) → Added [] local union local union
  Added-nil local union = record {
    local_keys = sym (append-nil (keys local));
    local_distinct = λ h. h;
    union_keys = λ i. ground (arith, contains_nil i);
    union_distinct = λ h. h;
    shared = λ i h k. cc (sym (contains_nil i) ∙ k);
    keyed = λ h. h;
  }

  Added-cons :
      (identity : String) (row : Json) (ids : List String) (local union union₁ local' union' : Rows)
      → is_some (lookup identity local) ≡ false
      → execution_id row ≡ ok identity
      → Joined identity row union union₁
      → Added ids (insert identity row local) union₁ local' union'
      → Added (identity ∷ ids) local union local' union'
  Added-cons identity row ids local union union₁ local' union' fresh own j a = record {
    local_keys =
        a.local_keys
        ∙ ap (λ ks. ks ++ ids) (keys-insert_new identity row local fresh)
        ∙ append_assoc (keys local) (identity ∷ []) ids;
    local_distinct = λ h. a.local_distinct (distinct-keys-insert identity row local h);
    union_keys = λ i. ground (arith, a.union_keys i, j.has_keys i, contains_cons i identity ids);
    union_distinct = λ h. a.union_distinct (j.stays_distinct h);
    shared = λ i h k. elim (Bool-cases (identity == i)) [
      | inl e ↦
          let q = (eq_iff identity i).0 e in
          rw (← q) (j.shared (sym (contains-keys identity union) ∙ rw q h))
      | inr e ↦ a.shared i (rw (j.has_keys i, h)) (rw e at (sym (contains_cons i identity ids) ∙ k))
    ];
    keyed = λ h. a.keyed (j.stays_keyed own h);
  }

  add_row-eq-ok :
      {C : Type 0} (local union : Rows) (row : Json) {state : Rows × Rows}
      → add_row unshardable (local, union) row ≡ ok state
      → ((identity : String) (union₁ : Rows)
          → execution_id row ≡ ok identity
          → is_some (lookup identity local) ≡ false
          → Joined identity row union union₁
          → (insert identity row local, union₁) ≡ state
          → C)
      → C
  unfolding add_row
  add_row-eq-ok local union row h go = through (execution_id row) _ h λ identity own h₁.
      past (is_some (lookup identity local)) _ _ h₁ λ fresh h₂.
        through (join_row unshardable identity row union (lookup identity union)) _ h₂
          λ union₁ joined h₃.
            go identity union₁ own fresh
              (join_row-Joined identity row union (lookup identity union) union₁ refl joined)
              (ok-injective h₃)

  pub rows-Pass :
      (rows : List Json) (local union : Rows) (state : Rows × Rows)
      → fold_m (add_row unshardable) (local, union) rows ≡ ok state
      → Pass rows local union state.0 state.1
  unfolding fold_m map_m
  rows-Pass [] local union state h =
      rw (← (ok-injective h)) (record { ids = []; of_rows = refl; added = Added-nil local union })
  rows-Pass (row ∷ rows) local union state h =
      through (add_row unshardable (local, union) row) _ h λ next step rest.
        add_row-eq-ok local union row step λ identity union₁ own fresh joined same.
          let p = rows-Pass rows (insert identity row local) union₁ state (rw same rest) in
          record {
            ids = identity ∷ p.ids;
            of_rows = rw (own, p.of_rows);
            added =
                Added-cons identity row p.ids local union union₁ state.0 state.1 fresh own joined
                  p.added;
          }
