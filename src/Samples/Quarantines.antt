-- ===== src/Samples/Quarantines.antt =====
-- tools/update_quarantine.py on a manifest with one entry and a new proposal.
use resq.Base.{
  string_eq, String, List, true, [], ◌∷◌, some, ◌≡◌, refl, contains, distinct, str_le, ◌||◌, not,
}
use resq.Base.Sorting.{IsSorted}
use resq.Py.Value.{Json, str, array, object, nat}
use resq.Py.Result.{ok}
use resq.Py.Dict.{keys}
use resq.Py.Fields.{member}
use resq.Py.Loops.{fold_m, Pointwise}
use resq.Py.Running.{python}
use resq.Quarantine.{Rows, Options, selection, add_available, existing_from, build_manifest}
use resq.Quarantine.Content.{AreNamed, is_named, IsEntry}
use resq.Quarantine.Entries.{proposals_in, entries_in, build_manifest-entries}

abbrev options : Options
options = record {
  owner = "ann";
  reason = "flaky";
  issue = "7";
  expires = "2027-01-01";
  test_ids = [];
}

abbrev codec : Json
codec = object (("name", str "c") ∷ [])

abbrev proposals : Json
proposals = object (
    ("schemaVersion", nat 2)
    ∷ ("kind", str "resq-quarantine-proposals")
    ∷ ("identityAlgorithm", str "v3")
    ∷ ("identityCodec", codec)
    ∷ ("proposals", array (object (("testId", str "a") ∷ ("state", str "suspect") ∷ []) ∷ []))
    ∷ [])

abbrev old : Json
old = object (("testId", str "b") ∷ ("owner", str "bob") ∷ [])

abbrev renewed : Json
renewed = object (
    ("testId", str "a")
    ∷ ("owner", str "ann")
    ∷ ("reason", str "flaky")
    ∷ ("evidence", object [])
    ∷ ("issue", str "7")
    ∷ ("createdAt", str "now")
    ∷ ("expiresAt", str "2027-01-01")
    ∷ [])

abbrev manifest : String → List Json → Json
manifest updated rows = object (
    ("schemaVersion", nat 2)
    ∷ ("identityAlgorithm", str "v3")
    ∷ ("identityCodec", codec)
    ∷ ("kind", str "resq-quarantine-manifest")
    ∷ ("updatedAt", str updated)
    ∷ ("entries", array rows)
    ∷ [])

abbrev document : Json
document = manifest "now" (renewed ∷ old ∷ [])

built : build_manifest options "now" proposals (some (manifest "before" (old ∷ []))) ≡ ok document
unfolding build_manifest python
built = refl

build_manifest-entries_example :
    (rows_in : List Json) × (selected : List String) × (available : Rows) × (rows : List Json)
    × (ordered : List Json) × (ids : List String) × (proposals_in proposals ≡ ok rows_in)
    × (selection [] rows_in ≡ ok selected)
    × (fold_m add_available [] rows_in ≡ ok available)
    × (entries_in proposals (some (manifest "before" (old ∷ []))) ≡ ok rows)
    × ((i : String) → (not (contains i selected) || contains i (keys available)) ≡ true)
    × (member document "updatedAt" ≡ some (str "now"))
    × (member document "entries" ≡ some (array ordered))
    × IsSorted str_le ids
    × (distinct ids ≡ true)
    × ((i : String) → contains i ids ≡ (is_named i rows || contains i selected))
    × AreNamed rows_in available
    × AreNamed rows (existing_from rows [])
    × Pointwise (IsEntry options "now" available (existing_from rows []) selected) ids ordered
build_manifest-entries_example =
    build_manifest-entries options "now" proposals (some (manifest "before" (old ∷ []))) document
      built
