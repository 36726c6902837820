-- ===== src/Migrate/State/Distinct.antt =====
-- No two rows of a migrated document share an identity, if none did before.
use resq.Base.{
  string_eq, String, true, List, [], ◌∷◌, Option, none, some, ◌==◌, ◌≡◌, refl, ap, ◌∙◌, arith,
  contains, distinct, eq_iff, Bool-cases, inl, inr, or_true_right,
}
use resq.Py.Value.{Json, null, str}
use resq.Py.Result.{ok}
use resq.Py.Dict.{lookup}
use resq.Py.Access.{nonempty_str, get_or}
use resq.Py.Fields.{member, rows_of}
use resq.Py.Text.{Runtime}
use resq.Py.Loops.{Pointwise}
use resq.Migrate.Pairing.{Mapping, pair_maps}
use resq.Migrate.Pairing.Reports.{pair_maps-injective}
use resq.Migrate.State.{migrate_state}
use resq.Migrate.State.Rows.{IsRenamed}
use resq.Migrate.State.Documents.{RowKind, migrate_state-rows}

abbrev pub text_of : Option Json → Option String
text_of (some (str s)) = some s
text_of none = none
text_of _ = none

abbrev pub with_id : Option String → List String → List String
with_id none ids = ids
with_id (some i) ids = i ∷ ids

-- the identities of the rows, in order
abbrev pub row_ids : List Json → List String
row_ids [] = []
row_ids (row ∷ rows) = with_id (text_of (member row "testId")) (row_ids rows)

text_of_nonempty :
    (o : Option Json) {i : String} → nonempty_str (get_or o null) ≡ some i → text_of o ≡ some i
unfolding nonempty_str
text_of_nonempty (some (str s)) h = ground arith
text_of_nonempty none h = cc
text_of_nonempty (some null) h = cc
text_of_nonempty (some _) h = cc

module _ (mapping : Mapping) where
  abbrev Images : List String → List String → Type 0
  Images = Pointwise (λ i i'. lookup i mapping ≡ some i')

  row_ids-Images :
      (rows rows' : List Json)
      → Pointwise (IsRenamed mapping) rows rows'
      → Images (row_ids rows) (row_ids rows')
  row_ids-Images [] [] h = tt
  row_ids-Images [] (y ∷ ys) h = absurd h
  row_ids-Images (x ∷ xs) [] h = absurd h
  row_ids-Images (x ∷ xs) (y ∷ ys) h =
      let r = h.0 in
      rw (text_of_nonempty (member x "testId") r.had, r.members "testId")
        (r.mapped, row_ids-Images xs ys h.1)

  module _
      (apart : (a b i : String)
        → lookup a mapping ≡ some i
        → lookup b mapping ≡ some i
        → a ≡ b) where
    contains-Images :
        (x y : String) (xs ys : List String)
        → lookup x mapping ≡ some y
        → Images xs ys
        → contains y ys ≡ true
        → contains x xs ≡ true
    unfolding contains
    contains-Images x y [] [] at h c = cc
    contains-Images x y [] (w ∷ ys) at h c = absurd h
    contains-Images x y (v ∷ xs) [] at h c = absurd h
    contains-Images x y (v ∷ xs) (w ∷ ys) at h c = elim (Bool-cases (w == y)) [
      | inl e ↦ rw ((eq_iff v x).1 (apart v x y (h.0 ∙ ap some ((eq_iff w y).0 e)) at))
      | inr e ↦ rw (contains-Images x y xs ys at h.1 (rw e at c)) (or_true_right (v == x))
    ]

    distinct-Images : (xs ys : List String) → Images xs ys → distinct xs ≡ true → distinct ys ≡ true
    unfolding distinct
    distinct-Images [] [] h d = refl
    distinct-Images [] (w ∷ ys) h d = absurd h
    distinct-Images (v ∷ xs) [] h d = absurd h
    distinct-Images (v ∷ xs) (w ∷ ys) h d =
        ground (arith, contains-Images v w xs ys h.0 h.1, distinct-Images xs ys h.1)

-- With the mapping that pair_maps returns, migrate_state takes a flake history or a quarantine
-- manifest whose rows have distinct identities to one whose rows have distinct identities.
pub migrate_state-distinct :
    ⦃r : Runtime⦄ (old new codec state out : Json) (mapping : Mapping) {kind section : String}
    → RowKind kind section
    → pair_maps old new ≡ ok (mapping, codec)
    → member state "failedTestIds" ≡ none
    → member state "kind" ≡ some (str kind)
    → migrate_state state mapping codec ≡ ok out
    → distinct (row_ids (rows_of (member state section))) ≡ true
    → distinct (row_ids (rows_of (member out section))) ≡ true
migrate_state-distinct old new codec state out mapping {kind} {section} row_kind pairs no_ids
      is_kind run d =
    distinct-Images mapping (pair_maps-injective old new mapping codec pairs)
      (row_ids (rows_of (member state section))) (row_ids (rows_of (member out section)))
      (row_ids-Images mapping (rows_of (member state section)) (rows_of (member out section))
        (migrate_state-rows state codec out mapping row_kind no_ids is_kind run).0)
      d
