-- ===== src/Merge/Topology.antt =====
-- `topology`: the shards are exactly 0, 1, … count - 1, each once.
pub mod Indices
use resq.Base.{
  string_eq, list_eq, ℕ, String, Bool, true, false, not, List, [], ◌∷◌, map, Option, none, some,
  ◌==◌, nat_eq, length, to_set, if◌then◌else◌, ◌≡◌,
}
use resq.Py.Value.{Json, null, str}
use resq.Py.Result.{Exn, Result, ok, err, merge_error, raise_if, ◌>>=◌, ◌>>◌}
use resq.Py.Access.{get, subscript}
use resq.Py.Hash.{Atom, natural, hashed, atom_eq}
use resq.Py.Order.{less, sort_m, range_from, range_bound}
use resq.Py.Text.{Runtime}
use resq.Py.Loops.{map_m}
use resq.Merge.Shared.{shard_of, same}

-- the checks on the indices, which are compared by `==`
unfoldable pub check_indices : List Json → Json → Result (Unit {0})
check_indices indices count = do
  keys ← map_m hashed indices
  raise_if (not (nat_eq (length indices) (length (to_set keys))))
      (merge_error "duplicate shard index")
  bound ← range_bound count
  sorted ← sort_m less keys
  raise_if (not (sorted == map natural (range_from 0 bound))) (merge_error "incomplete shard union")
  ok tt

module _ ⦃r : Runtime⦄ where
  unfoldable pub topology : List Json → Result (Json × Json × List Json)
  unfolding check_indices
  topology documents = do
    shards ← map_m shard_of documents
    unit ←
        same documents (λ d. do shard ← shard_of d; get shard "unit" (str "file"))
          "mixed shard unit across shards"
    count ←
        same documents (λ d. do shard ← shard_of d; subscript shard "count")
          "mixed shard count across shards"
    algorithm ←
        same documents (λ d. do shard ← shard_of d; subscript shard "algorithm")
          "mixed shard algorithm across shards"
    indices ← map_m (λ shard. subscript shard "index") shards
    check_indices indices count
    ok (unit, count, indices)
