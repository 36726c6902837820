-- ===== src/Report/Marked.antt =====
-- tools/validate_report.py, validate_manifest: what its comprehensions read of rows.
use resq.Base.{
  string_eq, String, Bool, true, not, List, some, ◌≡◌, sym, ap, ◌∙◌, distinct, eq_true_of_not,
  if◌then◌else◌,
}
use resq.Py.Value.{Json, null, str}
use resq.Py.Result.{ok, through, past, ok-injective, ◌>>=◌}
use resq.Py.Access.{subscript, get_or, iterate, is_list, truthy, or_else}
use resq.Py.Fields.{member, subscript-eq-ok}
use resq.Py.Hash.{Atom, hashed, atom_eq}
use resq.Py.Loops.{map_m, map_m-Pointwise, Pointwise}
use resq.Py.Rows.{TextsAt, those, filter_m-those}
use resq.Coverage.Found.{text_of-eq-ok}
use resq.Report.Shards.{set_of}
use resq.Report.Manifest.{execution_of, atoms_at, texts_at, rows_with}
use resq.Report.Selection.{unique_set}

-- the member of the row is there and true
abbrev pub is_marked : String → Json → Bool
is_marked name row = truthy (get_or (member row name) null)

-- the rows have these keys at a member
abbrev pub KeysAt : String → List Json → List Atom → Type 0
KeysAt name = Pointwise (λ row key. (v : Json) × (member row name ≡ some v) × (hashed v ≡ ok key))

-- the rows have these execution identities: the one of the case, or else that of the test
abbrev pub ExecutionsOf : List Json → List Atom → Type 0
ExecutionsOf = Pointwise (λ row key.
    (case : Json) × (test : Json) × (member row "caseId" ≡ some case)
    × (member row "testId" ≡ some test)
    × (hashed (if truthy case then case else test) ≡ ok key))

-- the member is a list of these keys, and none stands twice
abbrev pub UniqueKeys : Json → String → List Atom → Type 0
UniqueKeys x name keys =
    (m : Json) × (values : List Json) × (member x name ≡ some m)
    × (iterate m ≡ ok values)
    × Pointwise (λ v key. hashed v ≡ ok key) values keys
    × (distinct keys ≡ true)

pub texts_at-TextsAt :
    (name : String) (rows : List Json) (texts : List String)
    → texts_at name rows ≡ ok texts
    → TextsAt name rows texts
unfolding texts_at
texts_at-TextsAt name rows texts h =
    map_m-Pointwise (λ row text. member row name ≡ some (str text)) _
      (λ row text e.
        through (subscript row name) _ e
          λ v at e₁. subscript-eq-ok row name at ∙ ap some (text_of-eq-ok v e₁))
      rows texts h

pub atoms_at-KeysAt :
    (name : String) (rows : List Json) (keys : List Atom)
    → atoms_at name rows ≡ ok keys
    → KeysAt name rows keys
unfolding atoms_at
atoms_at-KeysAt name rows keys h =
    map_m-Pointwise (λ row key. (v : Json) × (member row name ≡ some v) × (hashed v ≡ ok key)) _
      (λ row key e.
        through (subscript row name) _ e λ v at e₁. (v, subscript-eq-ok row name at, e₁))
      rows keys h

pub executions-ExecutionsOf :
    (rows : List Json) (keys : List Atom)
    → map_m (λ row. execution_of row >>= hashed) rows ≡ ok keys
    → ExecutionsOf rows keys
unfolding execution_of or_else
executions-ExecutionsOf rows keys h =
    map_m-Pointwise
      (λ row key.
        (case : Json) × (test : Json) × (member row "caseId" ≡ some case)
        × (member row "testId" ≡ some test)
        × (hashed (if truthy case then case else test) ≡ ok key))
      _
      (λ row key e. through (execution_of row) _ e λ id made e₁.
        through (subscript row "caseId") _ made λ case at made₁.
          through (subscript row "testId") _ made₁ λ test at' made₂. (
            case,
            test,
            subscript-eq-ok row "caseId" at,
            subscript-eq-ok row "testId" at',
            ap hashed (ok-injective made₂) ∙ e₁,
          ))
      rows keys h

pub rows_with-those :
    (name : String) (rows chosen : List Json)
    → rows_with name rows ≡ ok chosen
    → chosen ≡ those (is_marked name) rows
unfolding rows_with
rows_with-those name rows chosen h =
    filter_m-those _ (is_marked name)
      (λ row b e. through (subscript row name) _ e λ v at e₁.
        sym (ok-injective e₁)
        ∙ ap (λ o. truthy (get_or o null)) (sym (subscript-eq-ok row name at)))
      rows chosen h

pub unique_set-UniqueKeys :
    (x : Json) (name : String) (keys : List Atom)
    → unique_set x name ≡ ok keys
    → UniqueKeys x name keys
unfolding unique_set set_of
unique_set-UniqueKeys x name keys h = through (subscript x name) _ h λ m at h₁.
    past (not (is_list m)) _ _ h₁ λ _ h₂. through (set_of m) _ h₂ λ found read h₃.
      past (not (distinct found)) _ _ h₃ λ once h₄. through (iterate m) _ read λ values i read₁.
        rw (← (ok-injective h₄)) (
          m,
          values,
          subscript-eq-ok x name at,
          i,
          map_m-Pointwise (λ v key. hashed v ≡ ok key) hashed (λ v key e. e) values found read₁,
          eq_true_of_not _ once,
        )
