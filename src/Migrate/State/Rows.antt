-- ===== src/Migrate/State/Rows.antt =====
-- What the migration does to one row and to the rows of a document.
use resq.Base.{
  string_eq, String, false, not, Option, none, some, ◌==◌, if◌then◌else◌, ◌≡◌, ap, ◌∙◌,
  eq_true_of_not, eq_refl,
}
use resq.Py.Value.{Json, null, str, elements-of_elements, array}
use resq.Py.Result.{Result, ok, ok-injective, through, past}
use resq.Py.Dict.{lookup}
use resq.Py.Access.{get, iterate, is_dict, is_list, nonempty_str}
use resq.Py.Fields.{member, get-eq-ok, member-set_item, rows_of, iterate_rows}
use resq.Py.Loops.{map_m, Pointwise, map_m-Pointwise}
use resq.Migrate.Inventory.Indexing.{identity}
use resq.Migrate.Pairing.{Mapping}
use resq.Migrate.State.{proven, known, map_id, migrate_row, migrate_rows}

known-eq-ok : (o : Option String) {i : String} → known o ≡ ok i → o ≡ some i
known-eq-ok none h = cc
known-eq-ok (some j) h = ap some (ok-injective h)

proven-eq-ok : (o : Option String) {i : String} → proven o ≡ ok i → o ≡ some i
proven-eq-ok none h = cc
proven-eq-ok (some j) h = ap some (ok-injective h)

pub map_id-eq-ok :
    (mapping : Mapping) (x : Json) {i' : String}
    → map_id mapping x ≡ ok i'
    → (i : String) × (nonempty_str x ≡ some i) × (lookup i mapping ≡ some i')
unfolding map_id
map_id-eq-ok mapping x h =
    through (known (nonempty_str x)) _ h λ i e h₁. (i, known-eq-ok _ e, proven-eq-ok _ h₁)

-- The new row has the mapped identity, and every other member of the old one.
pub record IsRenamed (mapping : Mapping) (row row' : Json) : Type 0 where
  pub old_id : String
  pub new_id : String
  pub had : identity "testId" row ≡ some old_id
  pub mapped : lookup old_id mapping ≡ some new_id
  pub members :
      (j : String) → member row' j ≡ (if "testId" == j then some (str new_id) else member row j)

module _ (mapping : Mapping) where
  pub migrate_row-IsRenamed :
      (row row' : Json) → migrate_row mapping row ≡ ok row' → IsRenamed mapping row row'
  unfolding migrate_row
  migrate_row-IsRenamed row row' h = past (not (is_dict row)) _ _ h λ _ h₁.
      through (get row "testId" null) _ h₁ λ x got h₂.
        through (map_id mapping x) _ h₂ λ new_id m h₃.
          let (old_id, had, mapped) = map_id-eq-ok mapping x m in
          record {
            old_id = old_id;
            new_id = new_id;
            had = rw (← (get-eq-ok row "testId" null got)) had;
            mapped = mapped;
            members = member-set_item row "testId" (str new_id) h₃;
          }

-- The rows of a section are carried over one by one, and the document keeps its other members.
pub record IsCarried (R : Json → Json → Type 0) (section : String) (document document' : Json)
    : Type 0 where
  pub rows : Pointwise R (rows_of (member document section)) (rows_of (member document' section))
  pub others : (j : String) → (section == j) ≡ false → member document' j ≡ member document j

pub migrate_rows-IsCarried :
    (R : Json → Json → Type 0) (one : Json → Result Json)
    → ((x y : Json) → one x ≡ ok y → R x y)
    → (section : String) (document document' : Json)
    → migrate_rows one section document ≡ ok document'
    → IsCarried R section document document'
unfolding migrate_rows
migrate_rows-IsCarried R one each_one section document document' h =
    through (get document section null) _ h λ rows got h₁.
      past (not (is_list rows)) _ _ h₁ λ listed h₂. through (iterate rows) _ h₂ λ olds seen h₃.
        through (map_m one olds) _ h₃ λ news done h₄.
          let is_member = get-eq-ok document section null got in
          let olds-eq : olds ≡ rows_of (member document section) =
            iterate_rows (member document section)
              (rw (← is_member) (eq_true_of_not (is_list rows) listed)) (rw (← is_member) seen) in
          record {
            rows =
                rw
                  (
                    ← olds-eq,
                    member-set_item document section (array news) h₄ section,
                    eq_refl section,
                    elements-of_elements,
                  )
                  (map_m-Pointwise R one each_one olds news done);
            others = λ j ne. member-set_item document section (array news) h₄ j ∙ rw ne;
          }
