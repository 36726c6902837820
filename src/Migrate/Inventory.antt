-- ===== src/Migrate/Inventory.antt =====
-- The manifest of a report, and its entries indexed by what they mean.
pub mod Indexing
use resq.Base.{
  string_eq, list_eq, Eq, ℕ, String, Bool, true, false, not, ◌&&◌, ◌||◌, List, [], ◌∷◌, Option,
  none, some, ◌==◌, if◌then◌else◌, ◌≡◌, refl, ap, ◌⊎◌, inl, inr, eq_iff, eq_true_of_not,
}
use resq.Py.Value.{Json, null, str}
use resq.Py.Result.{Exn, Result, ok, err, migration_error, raise_if, ◌>>=◌, ◌>>◌}
use resq.Py.Dict.{Dict, lookup, insert, is_some}
use resq.Py.Access.{get, is_dict, is_list, nonempty_str}
use resq.Py.Text.{Runtime, frozen}
use resq.Py.Hash.{Atom, hashed, atom_eq}
use resq.Py.Loops.{fold_m}

-- a report's execution manifest
unfoldable pub manifest : Json → Result Json
manifest report = do
  value ← get report "manifest" null
  raise_if (not (is_dict value)) (migration_error "report has no execution manifest")
  tests ← get value "tests" null
  raise_if (not (is_list tests)) (migration_error "report has no execution manifest")
  algorithm ← get value "identityAlgorithm" null
  raise_if (not (is_some (nonempty_str algorithm)))
      (migration_error "report has no identity algorithm")
  ok value

-- a tuple that serves as a key of a dict
abbrev pub Key : Type 0
Key = List Atom

module _ ⦃r : Runtime⦄ where
  unfoldable pub execution_key : Json → Result Key
  execution_key entry = do
    file ← get entry "file" null
    suite ← get entry "suite" null
    description ← get entry "description" null
    kind ← get entry "kind" null
    parameters ← get entry "parameters" null
    parameters_text ← frozen parameters
    tags ← get entry "tags" null
    tags_text ← frozen tags
    a ← hashed file
    b ← hashed suite
    c ← hashed description
    d ← hashed kind
    e ← hashed (str parameters_text)
    f ← hashed (str tags_text)
    ok (a ∷ b ∷ c ∷ d ∷ e ∷ f ∷ [])

unfoldable pub parent_key : Json → Result Key
parent_key entry = do
  file ← get entry "file" null
  suite ← get entry "suite" null
  description ← get entry "description" null
  a ← hashed file
  b ← hashed suite
  c ← hashed description
  ok (a ∷ b ∷ c ∷ [])

abbrev pub Index : Type 0
Index = Dict Key String

-- `prior is not None and prior != identifier`
unfoldable pub conflicts : Option String → String → Bool
conflicts none identifier = false
conflicts (some prior) identifier = not (prior == identifier)

pub conflicts-eq-false :
    (o : Option String) (identifier : String)
    → conflicts o identifier ≡ false
    → (o ≡ none) ⊎ (o ≡ some identifier)
unfolding conflicts
conflicts-eq-false none identifier h = inl refl
conflicts-eq-false (some prior) identifier h =
    inr (ap some ((eq_iff prior identifier).0 (eq_true_of_not _ h)))

abbrev pub identified : Option String → String → Result String
identified none what = err (migration_error what)
identified (some identifier) what = ok identifier

module _ (key_fn : Json → Result Key) (id_field : String) where
  -- one round of the loop of `indexed`
  unfoldable pub index_entry : Index → Json → Result Index
  unfolding conflicts
  index_entry result raw = do
    raise_if (not (is_dict raw)) (migration_error "manifest entry is not an object")
    value ← get raw id_field null
    identifier ← identified (nonempty_str value) "manifest entry has no id"
    key ← key_fn raw
    raise_if (conflicts (lookup key result) identifier)
        (migration_error "manifest has an ambiguous semantic key")
    ok (insert key identifier result)

  unfoldable pub indexed : List Json → Result Index
  indexed = fold_m index_entry []
