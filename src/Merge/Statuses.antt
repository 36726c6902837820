-- ===== src/Merge/Statuses.antt =====
-- `status_summary`: the numbers of the results by status.
pub mod Partition
use resq.Base.{
  string_eq, ℕ, suc, String, Bool, true, false, ◌||◌, List, [], ◌∷◌, length, contains,
  if◌then◌else◌, ◌≡◌, ◌==◌,
}
use resq.Py.Value.{Json, nat, object}
use resq.Py.Result.{Exn, Result, ok, err, ◌>>=◌}
use resq.Py.Access.{subscript}
use resq.Py.Equal.{is_text}
use resq.Py.Hash.{Atom, text, hashed, atom_eq}
use resq.Py.Loops.{map_m, filter_m}

-- `statuses.count(status)`
unfoldable pub count : String → List Json → ℕ
count status [] = 0
count status (x ∷ xs) = let rest = count status xs in if is_text x status then suc rest else rest

-- `status in {"skip", "pending"}`
unfoldable pub is_skip : Json → Result Bool
unfolding hashed contains
is_skip status = do key ← hashed status; ok (contains key (text "skip" ∷ text "pending" ∷ []))

unfoldable pub statuses_of : List Json → Result (List Json)
unfolding map_m
statuses_of = map_m (λ row. subscript row "status")

unfoldable pub status_summary : List Json → Result Json
unfolding statuses_of count is_skip filter_m
status_summary rows = do
  statuses ← statuses_of rows
  skipped ← filter_m is_skip statuses
  ok (
      object (
        ("testCount", nat (length rows))
        ∷ ("passCount", nat (count "pass" statuses))
        ∷ ("failCount", nat (count "fail" statuses))
        ∷ ("errorCount", nat (count "error" statuses))
        ∷ ("skipCount", nat (length skipped))
        ∷ []))
