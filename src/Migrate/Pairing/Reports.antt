-- ===== src/Migrate/Pairing/Reports.antt =====
-- What `pair_maps` proves, in terms of the two reports.
use resq.Base.{
  string_eq, list_eq, String, not, ◌||◌, List, [], ◌∷◌, some, ◌≡◌, sym, ap, ◌∙◌, All, same_set,
  some-injective, ℕ, get_elem?, All-get_elem?,
}
use resq.Py.Value.{Json, null}
use resq.Py.Result.{Result, ok, ok-injective, through, past}
use resq.Py.Dict.{lookup, keys, All-lookup}
use resq.Py.Access.{get, subscript, iterate, is_dict, truthy}
use resq.Py.Equal.{is_text}
use resq.Py.Hash.{atom_eq}
use resq.Py.Text.{Runtime}
use resq.Migrate.Inventory.{Key, Index, manifest, indexed, execution_key, parent_key}
use resq.Migrate.Inventory.Indexing.{
  identity, IsIndexed, indexed-IsIndexed, manifest_tests, manifest-tests,
}
use resq.Migrate.Pairing.{Mapping, pair_indexes, pair_maps, current_algorithm}
use resq.Migrate.Pairing.Rounds.{IsPaired}
use resq.Migrate.Pairing.Proof.{pair_indexes-IsProven}

module _ {key_fn : Json → Result Key} {id_field : String} {old_index new_index : Index}
    (mapping : Mapping) (paired : All (IsPaired new_index mapping) old_index) where
  -- The mapping sends the identity of an old entry to that of a new entry with the same key.
  sends :
      (e e' : Json) (k : Key) (i i' : String)
      → IsIndexed key_fn id_field old_index e
      → IsIndexed key_fn id_field new_index e'
      → key_fn e ≡ ok k
      → key_fn e' ≡ ok k
      → identity id_field e ≡ some i
      → identity id_field e' ≡ some i'
      → lookup i mapping ≡ some i'
  sends e e' k i i' x x' ke ke' ie ie' =
      let same = some-injective (sym x.has_id ∙ ie) in
      let same' = some-injective (sym x'.has_id ∙ ie') in
      let at_k : lookup k old_index ≡ some i =
        rw (ok-injective (sym ke ∙ x.has_key)) (x.at ∙ ap some same) in
      let at_k' : lookup k new_index ≡ some i' =
        rw (ok-injective (sym ke' ∙ x'.has_key)) (x'.at ∙ ap some same') in
      let p = All-lookup (IsPaired new_index mapping) k i old_index paired at_k in
      p.mapped ∙ sym p.in_new ∙ at_k'

-- Two lists of entries are matched by key, and the mapping follows the match.
abbrev Follows : (Json → Result Key) → String → Mapping → Json → Json → Type 0
Follows key_fn id_field mapping e e' =
    (k : Key) (i i' : String)
    → key_fn e ≡ ok k
    → key_fn e' ≡ ok k
    → identity id_field e ≡ some i
    → identity id_field e' ≡ some i'
    → lookup i mapping ≡ some i'

module _ (key_fn : Json → Result Key) (id_field : String) (old_index new_index : Index)
    (mapping : Mapping) (paired : All (IsPaired new_index mapping) old_index) where
  Follows-each :
      (e : Json) (news : List Json)
      → IsIndexed key_fn id_field old_index e
      → All (IsIndexed key_fn id_field new_index) news
      → All (Follows key_fn id_field mapping e) news
  Follows-each e [] x xs = tt
  Follows-each e (e' ∷ news) x xs =
      (λ k i i'. sends mapping paired e e' k i i' x xs.0, Follows-each e news x xs.1)

  follows :
      (olds news : List Json)
      → All (IsIndexed key_fn id_field old_index) olds
      → All (IsIndexed key_fn id_field new_index) news
      → All (λ e. All (Follows key_fn id_field mapping e) news) olds
  follows [] news xs ys = tt
  follows (e ∷ olds) news xs ys = (Follows-each e news xs.0 ys, follows olds news xs.1 ys)

  each_mapped :
      (olds : List Json)
      → All (IsIndexed key_fn id_field old_index) olds
      → All
          (λ e.
            (i : String) × (i' : String) × (identity id_field e ≡ some i)
            × (lookup i mapping ≡ some i'))
          olds
  each_mapped [] xs = tt
  each_mapped (e ∷ olds) xs =
      let x = xs.0 in
      let p = All-lookup (IsPaired new_index mapping) x.key x.identifier old_index paired x.at in
      ((x.identifier, p.new_id, x.has_id, p.mapped), each_mapped olds xs.1)

module _ ⦃r : Runtime⦄ where
  -- the facts that the theorems below are read off
  record AreProven (old new : Json) (mapping : Mapping) : Type 0 where
    executions :
        All
          (λ e. All (Follows execution_key "executionId" mapping e) (manifest_tests new))
          (manifest_tests old)
    parents :
        All
          (λ e. All (Follows parent_key "testId" mapping e) (manifest_tests new))
          (manifest_tests old)
    covered :
        All
          (λ e.
            (i : String) × (i' : String) × (identity "executionId" e ≡ some i)
            × (lookup i mapping ≡ some i'))
          (manifest_tests old)
    apart : (a b i : String) → lookup a mapping ≡ some i → lookup b mapping ≡ some i → a ≡ b

  pair_maps-AreProven :
      (old new : Json) (mapping : Mapping) (codec : Json)
      → pair_maps old new ≡ ok (mapping, codec)
      → AreProven old new mapping
  unfolding pair_maps
  pair_maps-AreProven old new mapping codec h = through (manifest old) _ h λ om hm h₁.
      through (manifest new) _ h₁ λ nm hn h₂.
        through (get nm "identityAlgorithm" null) _ h₂ λ algorithm _ h₃.
          past (not (is_text algorithm current_algorithm)) _ _ h₃ λ _ h₄.
            through (get nm "identityCodec" null) _ h₄ λ c _ h₅.
              past (not (is_dict c) || not (truthy c)) _ _ h₅ λ _ h₆.
                through (subscript om "tests") _ h₆ λ ot hot h₇.
                  through (iterate ot) _ h₇ λ oes hoes h₈.
                    through (subscript nm "tests") _ h₈ λ nt hnt h₉.
                      through (iterate nt) _ h₉ λ nes hnes h₁₀.
                        through (indexed execution_key "executionId" oes) _ h₁₀ λ oe hoe h₁₁.
                          through (indexed execution_key "executionId" nes) _ h₁₁ λ ne hne h₁₂.
                            past (not (same_set (keys oe) (keys ne))) _ _ h₁₂ λ _ h₁₃.
                              through (indexed parent_key "testId" oes) _ h₁₃ λ op hop h₁₄.
                                through (indexed parent_key "testId" nes) _ h₁₄ λ np hnp h₁₅.
                                  past (not (same_set (keys op) (keys np))) _ _ h₁₅ λ _ h₁₆.
                                    through (pair_indexes oe ne op np) _ h₁₆ λ m hpm h₁₇.
                                      let m-eq = ap (λ p. p.0) (ok-injective h₁₇) in
                                      let old-eq = manifest-tests old hm hot hoes in
                                      let new-eq = manifest-tests new hn hnt hnes in
                                      let oe-ok =
                                        indexed-IsIndexed execution_key "executionId" oes oe hoe in
                                      let op-ok =
                                        indexed-IsIndexed parent_key "testId" oes op hop in
                                      let p = pair_indexes-IsProven oe ne op np m hpm in
                                      rw (← m-eq) (record {
                                        executions =
                                            rw (← old-eq, ← new-eq)
                                              (follows execution_key "executionId" oe ne m p.cases
                                                oes nes oe-ok
                                                (indexed-IsIndexed execution_key "executionId" nes
                                                  ne hne));
                                        parents =
                                            rw (← old-eq, ← new-eq)
                                              (follows parent_key "testId" op np m p.tests oes nes
                                                op-ok
                                                (indexed-IsIndexed parent_key "testId" nes np hnp));
                                        covered = rw (← old-eq) (
                                            each_mapped execution_key "executionId" oe ne m p.cases
                                              oes oe-ok);
                                        apart = p.apart;
                                      })

  module _ (old new : Json) (mapping : Mapping) (codec : Json)
      (run : pair_maps old new ≡ ok (mapping, codec)) where
    -- If pair_maps returns, the mapping sends the execution identity of an entry of the old
    -- report to that of any entry of the new report with the same file, suite, description,
    -- kind, parameters and tags.
    pub pair_maps-executions :
        (m n : ℕ) (e e' : Json) (k : Key) (i i' : String)
        → get_elem? (manifest_tests old) m ≡ some e
        → get_elem? (manifest_tests new) n ≡ some e'
        → execution_key e ≡ ok k
        → execution_key e' ≡ ok k
        → identity "executionId" e ≡ some i
        → identity "executionId" e' ≡ some i'
        → lookup i mapping ≡ some i'
    pair_maps-executions m n e e' k i i' at at' =
        All-get_elem? (Follows execution_key "executionId" mapping e) (manifest_tests new) n
          (All-get_elem?
            (λ x. All (Follows execution_key "executionId" mapping x) (manifest_tests new))
            (manifest_tests old) m (pair_maps-AreProven old new mapping codec run).executions at)
          at' k i i'

    -- If pair_maps returns, the mapping sends the test identity of an entry of the old report
    -- to that of any entry of the new report with the same file, suite and description.
    pub pair_maps-parents :
        (m n : ℕ) (e e' : Json) (k : Key) (i i' : String)
        → get_elem? (manifest_tests old) m ≡ some e
        → get_elem? (manifest_tests new) n ≡ some e'
        → parent_key e ≡ ok k
        → parent_key e' ≡ ok k
        → identity "testId" e ≡ some i
        → identity "testId" e' ≡ some i'
        → lookup i mapping ≡ some i'
    pair_maps-parents m n e e' k i i' at at' =
        All-get_elem? (Follows parent_key "testId" mapping e) (manifest_tests new) n
          (All-get_elem? (λ x. All (Follows parent_key "testId" mapping x) (manifest_tests new))
            (manifest_tests old) m (pair_maps-AreProven old new mapping codec run).parents at)
          at' k i i'

    -- If pair_maps returns, every entry of the old report states an execution identity, and
    -- the mapping has a new one for it.
    pub pair_maps-covers :
        (m : ℕ) (e : Json)
        → get_elem? (manifest_tests old) m ≡ some e
        → (i : String) × (i' : String) × (identity "executionId" e ≡ some i)
          × (lookup i mapping ≡ some i')
    pair_maps-covers m e at =
        All-get_elem?
          (λ x.
            (i : String) × (i' : String) × (identity "executionId" x ≡ some i)
            × (lookup i mapping ≡ some i'))
          (manifest_tests old) m (pair_maps-AreProven old new mapping codec run).covered at

    -- If pair_maps returns, its mapping sends no two old identities to one new identity.
    pub pair_maps-injective :
        (a b i : String) → lookup a mapping ≡ some i → lookup b mapping ≡ some i → a ≡ b
    pair_maps-injective a b i p q = (pair_maps-AreProven old new mapping codec run).apart a b i p q
