-- ===== src/Coverage/Branches.antt =====
-- tools/coverage_contract.py: what a row of a branch is that validate_site accepts.
use resq.Base.{
  string_eq, number_eq, ℕ, String, Bool, true, false, List, [], ◌∷◌, All, some, ◌⊎◌, inl, inr,
  Bool-cases, ◌≡◌, refl, ap, ◌∙◌, arith, ltb, leb, if◌then◌else◌, distinct, length,
}
use resq.Base.Sorting.{sort, insort}
use resq.Py.Value.{Json, bool}
use resq.Py.Result.{ok}
use resq.Py.Equal.{is_nat}
use resq.Py.Fields.{member, rows_of}
use resq.Py.Loops.{Pointwise}
use resq.Py.Rows.{natural_of, natural_at, number_of, total_of, TextsAt, length-Pointwise}
use resq.Coverage.Sites.{Edge, Site, branch, validate_site, edge_indices, edge_ids, edge_label}
use resq.Coverage.Edges.{IsMeasured, validate_site-BranchParts}
use resq.Coverage.Found.{EdgeFound}
use resq.Coverage.Found.Counts.{hit_edges-number, edge_ids-TextsAt}
use resq.Coverage.Found.Sites.{validate_site-BranchFound}

edge_labels : List Edge → List String
edge_labels [] = []
edge_labels (edge ∷ edges) = edge_label edge.index ∷ edge_labels edges

labels-TextsAt :
    (xs : List Json) (edges : List Edge)
    → Pointwise EdgeFound xs edges
    → TextsAt "label" xs (edge_labels edges)
unfolding edge_labels
labels-TextsAt [] [] h = tt
labels-TextsAt (x ∷ xs) (e ∷ es) h = (h.0.label, labels-TextsAt xs es h.1)
labels-TextsAt [] (e ∷ es) h = absurd h
labels-TextsAt (x ∷ xs) [] h = absurd h

-- the true edge and the false one, in either order
abbrev pub AreBoth : List String → Type 0
AreBoth labels = (labels ≡ "true" ∷ "false" ∷ []) ⊎ (labels ≡ "false" ∷ "true" ∷ [])

abbrev head_of : List ℕ → ℕ
head_of [] = 0
head_of (n ∷ ns) = n

abbrev second_of : List ℕ → ℕ
second_of [] = 0
second_of (n ∷ ns) = head_of ns

both_labels :
    (edges : List Edge)
    → length edges ≡ 2
    → sort leb (edge_indices edges) ≡ 0 ∷ 1 ∷ []
    → AreBoth (edge_labels edges)
unfolding edge_labels edge_indices edge_label sort insort
both_labels (a ∷ b ∷ []) two sorted = elim (Bool-cases (leb a.index b.index)) [
  | inl e ↦ let s = rw e at sorted in inl (rw (ap head_of s, ap second_of s) refl)
  | inr e ↦ let s = rw e at sorted in inr (rw (ap second_of s, ap head_of s) refl)
]
both_labels [] two sorted = absurd (omega (arith, two))
both_labels (a ∷ []) two sorted = absurd (omega (arith, two))
both_labels (a ∷ b ∷ c ∷ cs) two sorted = absurd (omega (arith, two))

no_total :
    (xs : List Json) (edges : List Edge)
    → Pointwise EdgeFound xs edges
    → All (IsMeasured false) edges
    → total_of (λ x. natural_at x "hits") xs ≡ 0
no_total [] [] h none_hit = refl
no_total (x ∷ xs) (e ∷ es) h none_hit =
    omega (arith, ap natural_of h.0.hits, none_hit.0 refl, no_total xs es h.1 none_hit.1)
no_total [] (e ∷ es) h none_hit = absurd h
no_total (x ∷ xs) [] h none_hit = absurd h

-- what the row of an accepted branch says
abbrev pub BranchAgrees : Json → Type 0
BranchAgrees row =
    let edges = rows_of (member row "edges") in
    (eligible : Bool) × (instrumented : Bool) × (ids : List String) × (labels : List String)
    × (found : Json) × (hit : Json) × (member row "eligible" ≡ some (bool eligible))
    × (member row "instrumented" ≡ some (bool instrumented))
    × (instrumented ≡ true → eligible ≡ true)
    × (length edges ≡ 2)
    × TextsAt "edgeId" edges ids
    × (distinct ids ≡ true)
    × TextsAt "label" edges labels
    × AreBoth labels
    × (instrumented ≡ false → total_of (λ x. natural_at x "hits") edges ≡ 0)
    × (member row "edgesFound" ≡ some found)
    × (member row "edgesHit" ≡ some hit)
    × (is_nat found (if eligible then length edges else 0) ≡ true)
    × (is_nat hit (if eligible then number_of (λ x. ltb 0 (natural_at x "hits")) edges else 0)
        ≡ true)

-- If validate_site accepts a branch, its row has two edges, one labelled true and one false,
-- with distinct identities, none with hits unless the branch is instrumented; an instrumented
-- branch is eligible; and the row of an eligible branch states, as the edges found and hit,
-- the number of its edges and the number of those that have hits, and that of any other branch
-- states none.
pub validate_site-BranchAgrees :
    (row : Json) (site : Site) → validate_site branch row ≡ ok site → BranchAgrees row
validate_site-BranchAgrees row site h =
    let (own, (found, hit, at_found, at_hit, f, k)) = validate_site-BranchFound row site h in
    let ((two, sorted, unique, measured), allowed, _, _, _) = validate_site-BranchParts row h in
    let edges = rows_of (member row "edges") in
    let many = length-Pointwise EdgeFound edges site.edges own.edges ∙ two in
    (
      site.eligible,
      site.instrumented,
      edge_ids site.edges,
      edge_labels site.edges,
      found,
      hit,
      own.common.eligible,
      own.common.instrumented,
      allowed,
      many,
      edge_ids-TextsAt edges site.edges own.edges,
      unique,
      labels-TextsAt edges site.edges own.edges,
      both_labels site.edges two sorted,
      λ off. no_total edges site.edges own.edges (rw off at measured),
      at_found,
      at_hit,
      rw (many, ← own.found) f,
      rw (hit_edges-number edges site.edges own.edges, ← own.hit) k,
    )
