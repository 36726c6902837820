-- ===== src/Merge/Topology/Indices.antt =====
-- What `topology` establishes of the indices of the shards.
use resq.Base.{
  string_eq, list_eq, eq_true_of_not, ℕ, true, not, List, map, ◌==◌, nat_eq, ltb, length, to_set,
  contains, distinct, length-to_set_iff, ◌≡◌, sym, ap, ◌∙◌, arith,
}
use resq.Py.Value.{Json, str}
use resq.Py.Result.{ok, ok-injective, through, past, ◌>>=◌}
use resq.Py.Access.{get, subscript}
use resq.Py.Hash.{Atom, natural, hashed, atom_eq}
use resq.Py.Order.{less, sort_m, range_from, range_bound}
use resq.Py.Order.Kept.{contains-sort_m, length-sort_m, contains-range_from, length-range_from}
use resq.Py.Text.{Runtime}
use resq.Py.Loops.{map_m, length-map_m, map_m-map_m}
use resq.Merge.Shared.{shard_of, shard_index, same}
use resq.Merge.Topology.{check_indices, topology}

-- The keys of the indices are 0, 1, … n - 1, each once.
abbrev pub IsUnion : List Json → ℕ → Type 0
IsUnion indices n =
    (keys : List Atom) × (map_m hashed indices ≡ ok keys)
    × (distinct keys ≡ true)
    × (length keys ≡ n)
    × ((k : ℕ) → contains (natural k) keys ≡ ltb k n)

natural_below :
    (keys sorted : List Atom) (n k : ℕ)
    → sort_m less keys ≡ ok sorted
    → sorted ≡ map natural (range_from 0 n)
    → contains (natural k) keys ≡ ltb k n
natural_below keys sorted n k h same = ground (
  arith,
  contains-sort_m less keys sorted (natural k) h,
  ap (contains (natural k)) same,
  contains-range_from k 0 n,
)

check_indices-IsUnion :
    (indices : List Json) (count : Json)
    → check_indices indices count ≡ ok tt
    → (n : ℕ) × (range_bound count ≡ ok n) × IsUnion indices n
unfolding check_indices
check_indices-IsUnion indices count h = through (map_m hashed indices) _ h λ keys hashes h₁.
    past (not (nat_eq (length indices) (length (to_set keys)))) _ _ h₁ λ once h₂.
      through (range_bound count) _ h₂ λ n bounded h₃.
        through (sort_m less keys) _ h₃ λ sorted in_order h₄.
          past (not (sorted == map natural (range_from 0 n))) _ _ h₄ λ matches _.
            let all =
              (list_eq.beq_iff sorted (map natural (range_from 0 n))).0
                (eq_true_of_not _ matches) in
            (
              n,
              bounded,
              (
                keys,
                hashes,
                sym (length-to_set_iff keys)
                    ∙ rw (length-map_m hashed indices keys hashes) (eq_true_of_not _ once),
                sym (length-sort_m less keys sorted in_order)
                    ∙ ap length all
                    ∙ length-range_from 0 n,
                λ k. natural_below keys sorted n k in_order all,
              ),
            )

module _ ⦃r : Runtime⦄ where
  -- If topology returns, the indices are those of the documents in order, the count is the
  -- number of documents, and the indices are the numbers below it, each once.
  pub topology-IsUnion :
      (documents : List Json) (unit count : Json) (indices : List Json)
      → topology documents ≡ ok (unit, count, indices)
      → (map_m shard_index documents ≡ ok indices)
        × (range_bound count ≡ ok (length documents))
        × IsUnion indices (length documents)
  unfolding topology shard_index
  topology-IsUnion documents unit count indices h =
      through (map_m shard_of documents) _ h λ shards all h₁.
        through
          (same documents (λ d. do shard ← shard_of d; get shard "unit" (str "file"))
            "mixed shard unit across shards")
          _ h₁
          λ unit' _ h₂.
            through
              (same documents (λ d. do shard ← shard_of d; subscript shard "count")
                "mixed shard count across shards")
              _ h₂
              λ count' _ h₃.
                through
                  (same documents (λ d. do shard ← shard_of d; subscript shard "algorithm")
                    "mixed shard algorithm across shards")
                  _ h₃
                  λ algorithm _ h₄.
                    through (map_m (λ shard. subscript shard "index") shards) _ h₄
                      λ indices' listed h₅.
                        through (check_indices indices' count') _ h₅ λ _ checked h₆.
                          let (n, bounded, union) = check_indices-IsUnion indices' count' checked in
                          let (keys, hashes, once, counted, below) = union in
                          let as_documents =
                            sym counted
                            ∙ length-map_m hashed indices' keys hashes
                            ∙ length-map_m (λ shard. subscript shard "index") shards indices' listed
                            ∙ length-map_m shard_of documents shards all in
                          let same_parts = ok-injective h₆ in
                          let same_count = ap (λ (t : Json × Json × List Json). t.1) same_parts in
                          let same_indices = ap (λ (t : Json × Json × List Json). t.2) same_parts in
                          (
                            map_m-map_m shard_of (λ shard. subscript shard "index") documents all
                                (rw same_indices at listed),
                            ap range_bound (sym same_count) ∙ bounded ∙ ap ok as_documents,
                            rw (same_indices, as_documents) at union,
                          )
