-- ===== src/Quarantine.antt =====
-- tools/update_quarantine.py: proposals of flaky tests become entries of a quarantine manifest.
pub mod Content
pub mod Entries
pub mod Renewal
use resq.Base.{
  string_eq, ℕ, String, Bool, true, false, not, ◌&&◌, ◌||◌, List, [], ◌∷◌, map, Option, none, some,
  ◌==◌, contains, to_set, if◌then◌else◌, ◌≡◌, str_le,
}
use resq.Base.Sorting.{sort}
use resq.Py.Value.{Json, null, str, arr, obj, nat, entries, array, object}
use resq.Py.Result.{Exn, Result, ok, err, value_error, raise_if, ◌>>=◌, ◌>>◌}
use resq.Py.Dict.{Dict, lookup, insert, keys}
use resq.Py.Access.{
  get, get_or, subscript, set_item, iterate, or_else, found, text_of, is_dict, is_list, is_str,
}
use resq.Py.Equal.{py_eq, is_nat, is_text}
use resq.Py.Loops.{fold_m, each, map_m}

abbrev pub schema_version : ℕ
schema_version = 2

abbrev pub Rows : Type 0
Rows = Dict String Json

-- what the command line gives; no `--test-id` is the empty list
pub record Options : Type 0 where
  pub owner : String
  pub reason : String
  pub issue : String
  pub expires : String
  pub test_ids : List String

unfoldable pub check_proposal : Json → Result (Unit {0})
check_proposal proposal = do
  raise_if (not (is_dict proposal)) (value_error "malformed proposal")
  test_id ← get proposal "testId" null
  raise_if (not (is_str test_id)) (value_error "malformed proposal")
  state ← get proposal "state" null
  raise_if (not (is_text state "suspect")) (value_error "proposal is not suspect")

-- `document.get("schemaVersion") != SCHEMA_VERSION or document.get("kind") != kind`
unfoldable pub check_kind : Json → String → Exn → Result (Unit {0})
check_kind document expected_kind refusal = do
  version ← get document "schemaVersion" null
  kind ← get document "kind" null
  raise_if (not (is_nat version schema_version) || not (is_text kind expected_kind)) refusal

unfoldable pub load_proposals : Json → Result Json
unfolding check_kind check_proposal
load_proposals document = do
  raise_if (not (is_dict document)) (value_error "expected a JSON object")
  check_kind document "resq-quarantine-proposals"
      (value_error "expected resQ quarantine proposals v2")
  algorithm ← get document "identityAlgorithm" null
  codec ← get document "identityCodec" null
  raise_if (not (is_str algorithm) || not (is_dict codec))
      (value_error "identity algorithm/codec envelope is missing")
  proposals ← get document "proposals" null
  raise_if (not (is_list proposals)) (value_error "proposals must be an array")
  rows ← iterate proposals
  each check_proposal rows
  ok document

-- the manifest, or an empty one if there is no file
unfoldable pub load_manifest : Option Json → Json → Json → Result Json
unfolding check_kind
load_manifest none algorithm codec = ok (
    object (
      ("schemaVersion", nat schema_version)
      ∷ ("identityAlgorithm", algorithm)
      ∷ ("identityCodec", codec)
      ∷ ("kind", str "resq-quarantine-manifest")
      ∷ ("updatedAt", str "")
      ∷ ("entries", array [])
      ∷ []))
load_manifest (some document) algorithm codec = do
  raise_if (not (is_dict document)) (value_error "expected a JSON object")
  check_kind document "resq-quarantine-manifest"
      (value_error "expected resQ quarantine manifest v2")
  own_algorithm ← get document "identityAlgorithm" null
  own_codec ← get document "identityCodec" null
  raise_if (not (py_eq own_algorithm algorithm) || not (py_eq own_codec codec))
      (value_error "manifest identity algorithm/codec differs from the proposals")
  listed ← get document "entries" null
  raise_if (not (is_list listed)) (value_error "entries must be an array")
  ok document

-- `proposal["testId"]`, which load_proposals has found to be a text
unfoldable pub test_id_of : Json → Result String
unfolding text_of
test_id_of row = do test_id ← subscript row "testId"; text_of test_id

unfoldable pub add_available : Rows → Json → Result Rows
unfolding test_id_of
add_available available proposal = do
  test_id ← test_id_of proposal
  ok (insert test_id proposal available)

-- `args.test_id or [proposal["testId"] for proposal in proposals]`
unfoldable pub selection : List String → List Json → Result (List String)
unfolding test_id_of map_m
selection [] proposals = map_m test_id_of proposals
selection (test_id ∷ test_ids) proposals = ok (test_id ∷ test_ids)

unfoldable pub is_missing : List String → List String → Bool
unfolding contains
is_missing [] available = false
is_missing (test_id ∷ selected) available =
    not (contains test_id available) || is_missing selected available

unfoldable pub add_existing : Json → Option Json → Rows → Rows
add_existing entry (some (str test_id)) existing = insert test_id entry existing
add_existing entry none existing = existing
add_existing entry _ existing = existing

-- `{entry.get("testId"): entry for entry in manifest["entries"] if …}`
unfoldable pub existing_from : List Json → Rows → Rows
unfolding add_existing
existing_from [] existing = existing
existing_from (obj fs ∷ rows) existing =
    existing_from rows (add_existing (obj fs) (lookup "testId" (entries fs)) existing)
existing_from (null ∷ rows) existing = existing_from rows existing
existing_from (_ ∷ rows) existing = existing_from rows existing

module _ (options : Options) (now : String) where
  -- the entry of a selected test: it keeps the time of its creation
  unfoldable pub renew : Rows → String → Option Json → Result Json
  renew available test_id existing = do
    proposal ← found test_id (lookup test_id available)
    evidence ← get proposal "evidence" (object [])
    created ← get (get_or existing (object [])) "createdAt" null
    ok (
        object (
          ("testId", str test_id)
          ∷ ("owner", str options.owner)
          ∷ ("reason", str options.reason)
          ∷ ("evidence", evidence)
          ∷ ("issue", str options.issue)
          ∷ ("createdAt", or_else created (str now))
          ∷ ("expiresAt", str options.expires)
          ∷ []))

  unfoldable pub renew_entry : Rows → Rows → String → Result Rows
  unfolding renew
  renew_entry available existing test_id = do
    entry ← renew available test_id (lookup test_id existing)
    ok (insert test_id entry existing)

  unfoldable pub build_manifest : Json → Option Json → Result Json
  unfolding load_proposals selection add_available is_missing load_manifest existing_from
      renew_entry
  build_manifest proposal_file manifest_file = do
    proposal_document ← load_proposals proposal_file
    listed ← subscript proposal_document "proposals"
    proposals ← iterate listed
    selected ← selection options.test_ids proposals
    available ← fold_m add_available [] proposals
    raise_if (is_missing selected (keys available))
        (value_error "requested test IDs are absent from proposals")
    algorithm ← subscript proposal_document "identityAlgorithm"
    codec ← subscript proposal_document "identityCodec"
    manifest ← load_manifest manifest_file algorithm codec
    entry_list ← subscript manifest "entries"
    rows ← iterate entry_list
    existing ←
        fold_m (renew_entry available) (existing_from rows []) (sort str_le (to_set selected))
    dated ← set_item manifest "updatedAt" (str now)
    ordered ←
        map_m (λ test_id. found test_id (lookup test_id existing)) (sort str_le (keys existing))
    set_item dated "entries" (array ordered)
