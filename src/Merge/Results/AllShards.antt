-- ===== src/Merge/Results/AllShards.antt =====
-- The loop over the shards: what the merged results are.
use Prim.Native.Nat.{ℕ, zero, suc, ◌<◌}
use resq.Base.{
  string_eq, String, Bool, true, false, not, ◌||◌, List, [], ◌∷◌, some, ◌≡◌, refl, ◌∙◌, arith, All,
  contains, distinct, same_set, same_set-contains, get_elem?, eq_true_of_not, some-injective,
  or_true_right,
}
use resq.Py.Value.{Json}
use resq.Py.Result.{Result, ok, ok-injective, through, past, ◌>>=◌}
use resq.Py.Dict.{keys, values}
use resq.Py.Access.{subscript, iterate}
use resq.Py.Text.{Runtime}
use resq.Py.Loops.{fold_m, map_m}
use resq.Merge.Shared.{execution_id, shard_index}
use resq.Merge.Inventory.{Rows}
use resq.Merge.Results.{add_row, add_results, validate_results, zip}
use resq.Merge.Results.OneShard.{IsKeyed, rows-Pass}

-- one of the shards has to produce the result
unfoldable pub wanted_by_some : String → List (Json × List String) → Bool
wanted_by_some i [] = false
wanted_by_some i (shard ∷ shards) = contains i shard.1 || wanted_by_some i shards

module _ ⦃r : Runtime⦄ where
  -- the identities of a document's results, in its order
  unfoldable pub result_ids : Json → Result (List String)
  unfolding execution_id map_m
  result_ids document = do
    tests ← subscript document "tests"
    rows ← iterate tests
    map_m execution_id rows

  -- A document has the results its shard had to produce, each once.
  abbrev pub IsComplete : Json × List String → Type 0
  IsComplete (document, expected) =
      (ids : List String) × (result_ids document ≡ ok ids)
      × (distinct ids ≡ true)
      × ((i : String) → contains i ids ≡ contains i expected)

  ids-keyed : (union : Rows) → IsKeyed union → map_m execution_id (values union) ≡ ok (keys union)
  unfolding map_m keys values
  ids-keyed [] h = refl
  ids-keyed ((k, row) ∷ union) h = rw (h.0, ids-keyed union h.1) refl

  module _ (unshardable : List String) where
    -- what one shard does to the union
    record Step (shard : Json × List String) (union union' : Rows) : Type 0 where
      complete : IsComplete shard
      has_keys :
          (i : String) → contains i (keys union') ≡ (contains i (keys union) || contains i shard.1)
      stays_distinct : distinct (keys union) ≡ true → distinct (keys union') ≡ true
      shared :
          (i : String)
          → contains i (keys union) ≡ true
          → contains i shard.1 ≡ true
          → contains i unshardable ≡ true
      stays_keyed : IsKeyed union → IsKeyed union'

    add_results-Step :
        (union : Rows) (document : Json) (expected : List String) (union' : Rows)
        → add_results unshardable union (document, expected) ≡ ok union'
        → Step (document, expected) union union'
    unfolding add_results result_ids distinct keys
    add_results-Step union document expected union' h =
        through (shard_index document) _ h λ index _ h₁.
          through (subscript document "tests") _ h₁ λ tests listed h₂.
            through (iterate tests) _ h₂ λ rows iterated h₃.
              through (fold_m (add_row unshardable) ([], union) rows) _ h₃ λ state passed h₄.
                past (not (same_set (keys state.0) expected)) _ _ h₄ λ same h₅.
                  let p = rows-Pass unshardable rows [] union state passed in
                  let a = p.added in
                  let covers = λ (i : String).
                    rw (a.local_keys) at
                      (same_set-contains (keys state.0) expected i (eq_true_of_not _ same)) in
                  rw (← (ok-injective h₅)) (record {
                    complete = (
                      p.ids,
                      rw (listed, iterated) p.of_rows,
                      rw (a.local_keys) at (a.local_distinct refl),
                      covers,
                    );
                    has_keys = λ i. rw (← (covers i)) (a.union_keys i);
                    stays_distinct = a.union_distinct;
                    shared = λ i known wanted. a.shared i known (covers i ∙ wanted);
                    stays_keyed = a.keyed;
                  })

    -- what the loop over the shards does to the union
    record Union (shards : List (Json × List String)) (union union' : Rows) : Type 0 where
      complete : All IsComplete shards
      has_keys :
          (i : String)
          → contains i (keys union') ≡ (contains i (keys union) || wanted_by_some i shards)
      stays_distinct : distinct (keys union) ≡ true → distinct (keys union') ≡ true
      stays_keyed : IsKeyed union → IsKeyed union'

    shards-Union :
        (shards : List (Json × List String)) (union union' : Rows)
        → fold_m (add_results unshardable) union shards ≡ ok union'
        → Union shards union union'
    unfolding fold_m wanted_by_some
    shards-Union [] union union' h = rw (← (ok-injective h)) (record {
      complete = tt;
      has_keys = λ i. ground arith;
      stays_distinct = λ q. q;
      stays_keyed = λ q. q;
    })
    shards-Union ((document, expected) ∷ shards) union union' h =
        through (add_results unshardable union (document, expected)) _ h λ next step rest.
          let s = add_results-Step union document expected next step in
          let u = shards-Union shards next union' rest in
          record {
            complete = (s.complete, u.complete);
            has_keys = λ i. ground (arith, s.has_keys i, u.has_keys i);
            stays_distinct = λ q. u.stays_distinct (s.stays_distinct q);
            stays_keyed = λ q. u.stays_keyed (s.stays_keyed q);
          }

    -- A later shard that has to produce a known result produces a run-level one.
    later-shared :
        (shards : List (Json × List String)) (union union' : Rows) (n : ℕ)
        (shard : Json × List String) (i : String)
        → fold_m (add_results unshardable) union shards ≡ ok union'
        → get_elem? shards n ≡ some shard
        → contains i (keys union) ≡ true
        → contains i shard.1 ≡ true
        → contains i unshardable ≡ true
    unfolding fold_m
    later-shared [] union union' n shard i h at_n known wanted = cc
    later-shared ((document, expected) ∷ shards) union union' zero shard i h at_n known wanted =
        through (add_results unshardable union (document, expected)) _ h λ next step _.
          let s = add_results-Step union document expected next step in
          s.shared i known (rw (← (some-injective at_n)) at wanted)
    later-shared ((document, expected) ∷ shards) union union' (suc n) shard i h at_n known wanted =
        through (add_results unshardable union (document, expected)) _ h λ next step rest.
          let s = add_results-Step union document expected next step in
          later-shared shards next union' n shard i rest at_n (rw (s.has_keys i, known)) wanted

    two-shared :
        (shards : List (Json × List String)) (union union' : Rows) (m n : ℕ)
        (shard shard' : Json × List String) (i : String)
        → fold_m (add_results unshardable) union shards ≡ ok union'
        → m < n
        → get_elem? shards m ≡ some shard
        → get_elem? shards n ≡ some shard'
        → contains i shard.1 ≡ true
        → contains i shard'.1 ≡ true
        → contains i unshardable ≡ true
    unfolding fold_m
    two-shared [] union union' m n shard shard' i h m<n at_m at_n wanted wanted' = cc
    two-shared (s ∷ shards) union union' m zero shard shard' i h m<n at_m at_n wanted wanted' =
        absurd (omega (arith, m<n))
    two-shared ((document, expected) ∷ shards) union union' zero (suc n) shard shard' i h m<n at_m
          at_n wanted wanted' =
        through (add_results unshardable union (document, expected)) _ h λ next step rest.
          let s = add_results-Step union document expected next step in
          let now = rw (← (some-injective at_m)) at wanted in
          later-shared shards next union' n shard' i rest at_n
            (s.has_keys i ∙ rw (now) (or_true_right (contains i (keys union)))) wanted'
    two-shared ((document, expected) ∷ shards) union union' (suc m) (suc n) shard shard' i h m<n
          at_m at_n wanted wanted' =
        through (add_results unshardable union (document, expected)) _ h λ next _ rest.
          two-shared shards next union' m n shard shard' i rest (omega (arith, m<n)) at_m at_n
            wanted wanted'

    -- If validate_results returns, an identity that is expected of two shards is unshardable.
    pub validate_results-shared :
        (documents : List Json) (expected_by_shard : List (List String)) (rows : List Json)
        (m n : ℕ) (shard shard' : Json × List String) (i : String)
        → validate_results unshardable documents expected_by_shard ≡ ok rows
        → m < n
        → get_elem? (zip documents expected_by_shard) m ≡ some shard
        → get_elem? (zip documents expected_by_shard) n ≡ some shard'
        → contains i shard.1 ≡ true
        → contains i shard'.1 ≡ true
        → contains i unshardable ≡ true
    unfolding validate_results
    validate_results-shared documents expected_by_shard rows m n shard shard' i h =
        through (fold_m (add_results unshardable) [] (zip documents expected_by_shard)) _ h
          λ union all _.
            two-shared (zip documents expected_by_shard) [] union m n shard shard' i all

    -- If validate_results returns, every shard has results with exactly the identities
    -- expected of it, each once.
    pub validate_results-IsComplete :
        (documents : List Json) (expected_by_shard : List (List String)) (rows : List Json)
        → validate_results unshardable documents expected_by_shard ≡ ok rows
        → All IsComplete (zip documents expected_by_shard)
    unfolding validate_results
    validate_results-IsComplete documents expected_by_shard rows h =
        through (fold_m (add_results unshardable) [] (zip documents expected_by_shard)) _ h
          λ union all _. (shards-Union (zip documents expected_by_shard) [] union all).complete

    -- If validate_results returns, the merged rows have distinct identities, and these are the
    -- identities that some shard is expected to produce.
    pub validate_results-union :
        (documents : List Json) (expected_by_shard : List (List String)) (rows : List Json)
        → validate_results unshardable documents expected_by_shard ≡ ok rows
        → (ids : List String) × (map_m execution_id rows ≡ ok ids)
          × (distinct ids ≡ true)
          × ((i : String) → contains i ids ≡ wanted_by_some i (zip documents expected_by_shard))
    unfolding validate_results distinct keys contains
    validate_results-union documents expected_by_shard rows h =
        through (fold_m (add_results unshardable) [] (zip documents expected_by_shard)) _ h
          λ union all h₁.
            let u = shards-Union (zip documents expected_by_shard) [] union all in
            (
              keys union,
              rw (← (ok-injective h₁)) (ids-keyed union (u.stays_keyed tt)),
              u.stays_distinct refl,
              u.has_keys,
            )
