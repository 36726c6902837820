-- ===== src/Report/Events.antt =====
-- tools/validate_report.py: validate_events.
use Prim.Native.Char.{code}
use resq.Base.{
  string_eq, pair_eq, String, Bool, false, not, ◌||◌, List, [], ◌∷◌, ◌==◌, none, some, nat_eq,
  if◌then◌else◌,
}
use resq.Py.Value.{Json, null, str, nat, object}
use resq.Py.Result.{Result, ok, err, value_error, index_error, ◌>>=◌, ◌>>◌}
use resq.Py.Dict.{Dict, lookup, insert}
use resq.Py.Access.{subscript, get}
use resq.Py.Equal.{is_text, py_eq}
use resq.Py.Hash.{Atom, natural, hashed, atom_eq}
use resq.Py.Checks.{is_null, refuse_if, len}
use resq.Py.Arithmetic.{first_of}

-- `"." in s`
unfoldable pub has_dot : String → Bool
has_dot String.[] = false
has_dot (String.◌∷◌ c s) = nat_eq (code c) 46 || has_dot s

unfoldable pub has_type : Json → Bool
unfolding has_dot
has_type (str s) = has_dot s
has_type null = false
has_type _ = false

abbrev pub event_fields : List String
event_fields =
    "schemaVersion" ∷ "sequence" ∷ "type" ∷ "runId" ∷ "entityId" ∷ "parentId" ∷ "occurredAt"
    ∷ "payload" ∷ []

-- `x in {1, 2}`
unfoldable pub is_version : Atom → Bool
is_version key = key == natural 1 || key == natural 2

-- the second and the last of the events
unfoldable pub second_of : List Json → Result Json
unfolding first_of
second_of [] = err index_error
second_of (x ∷ xs) = first_of xs

unfoldable pub last_of : List Json → Result Json
last_of [] = err index_error
last_of (x ∷ []) = ok x
last_of (x ∷ y ∷ xs) = last_of (y ∷ xs)

is_type : Json → String → Result Bool
unfolding subscript is_text
is_type event name = do kind ← subscript event "type"; ok (is_text kind name)

-- the run starts, the manifest is published, and the run finishes
unfoldable pub check_lifecycle : List Json → Result (Unit {0})
unfolding first_of second_of last_of is_type
check_lifecycle [] = err index_error
check_lifecycle (e ∷ []) = err (value_error "invalid run lifecycle boundary")
check_lifecycle (e ∷ e' ∷ events) = do
  starts ← is_type e "run.started"
  publishes ← is_type e' "manifest.published"
  final ← last_of (e' ∷ events)
  finishes ← is_type final "run.finished"
  refuse_if (not starts || not publishes || not finishes) "invalid run lifecycle boundary"

-- the notice of a manifest
unfoldable pub expected_notice : Json → Result Json
unfolding subscript len
expected_notice manifest = do
  version ← subscript manifest "schemaVersion"
  kind ← subscript manifest "kind"
  digest ← subscript manifest "digest"
  digest_algorithm ← subscript manifest "digestAlgorithm"
  identity_algorithm ← subscript manifest "identityAlgorithm"
  codec ← subscript manifest "identityCodec"
  framework ← subscript manifest "frameworkVersion"
  files ← subscript manifest "files"
  file_count ← len files
  tests ← subscript manifest "tests"
  test_count ← len tests
  ok (
      object (
        ("schemaVersion", version)
        ∷ ("kind", kind)
        ∷ ("digest", digest)
        ∷ ("digestAlgorithm", digest_algorithm)
        ∷ ("identityAlgorithm", identity_algorithm)
        ∷ ("identityCodec", codec)
        ∷ ("frameworkVersion", framework)
        ∷ ("fileCount", nat file_count)
        ∷ ("testCount", nat test_count)
        ∷ []))

-- events by their type and entity; a later one takes the place of an earlier one
abbrev pub Index : Type 0
Index = Dict (Atom × Atom) Json

unfoldable pub index_event : Index → Json → Result Index
unfolding subscript hashed insert
index_event by_key event = do
  kind ← subscript event "type"
  kind_key ← hashed kind
  entity ← subscript event "entityId"
  entity_key ← hashed entity
  ok (insert (kind_key, entity_key) event by_key)

unfoldable pub linked : Index → String → Json → Result Json
unfolding hashed lookup
linked by_key kind entity = do
  kind_key ← hashed (str kind)
  entity_key ← hashed entity
  elim (lookup (kind_key, entity_key) by_key) [
    | none ↦ err (value_error "events: missing event")
    | some event ↦ ok event
  ]

-- the event of that type and entity occurred when the row says
unfoldable pub check_time : Index → String → Json → Json → String → Result (Unit {0})
unfolding linked subscript py_eq
check_time by_key kind entity row name = do
  event ← linked by_key kind entity
  occurred ← subscript event "occurredAt"
  stated ← subscript row name
  refuse_if (not (py_eq occurred stated)) "timing differs"

-- the two events of something that started, unless it does not say when
unfoldable pub check_times : Index → String → String → Json → Json → Result (Unit {0})
unfolding get is_null check_time
check_times by_key starts finishes entity row = do
  started ← get row "startedAt" null
  let checked = do
    check_time by_key starts entity row "startedAt"
    check_time by_key finishes entity row "finishedAt"
  if is_null started then ok tt else checked
