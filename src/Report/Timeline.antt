-- ===== src/Report/Timeline.antt =====
-- tools/validate_report.py: validate_events, on the events that Report.Events reads.
use Prim.Native.String.{◌++◌ as append}
use resq.Base.{
  string_eq, pair_eq, ℕ, suc, String, Bool, true, false, not, ◌&&◌, ◌||◌, List, [], ◌∷◌, none, some,
  length, nat_eq, to_set, contains, if◌then◌else◌,
}
use resq.Py.Value.{ℤ, Json, null, str}
use resq.Py.Result.{Result, ok, ◌>>=◌, ◌>>◌}
use resq.Py.Dict.{keys}
use resq.Py.Access.{subscript, get, iterate, truthy, is_list, text_of}
use resq.Py.Equal.{py_eq}
use resq.Py.Hash.{Atom, natural, hashed, atom_eq}
use resq.Py.Checks.{refuse_if}
use resq.Py.Loops.{each, fold_m}
use resq.Py.Text.{Runtime, decimal}
use resq.Coverage.Summary.{items}
use resq.Report.{require_object, expect_nat, expect_str, expect_dict, iso8601_at, span}
use resq.Report.Rows.{has_common}
use resq.Report.Manifest.{execution_of, atoms_at}
use resq.Report.Events.{
  has_type, event_fields, is_version, second_of, last_of, check_lifecycle, expected_notice, Index,
  index_event, linked, check_times,
}

-- `f"{identity}/attempt/{number}"`
unfoldable pub attempt_id : String → ℕ → String
unfolding decimal
attempt_id identity number = append identity (append "/attempt/" (decimal number))

unfoldable pub check_attempt_times : Index → String → ℕ → List Json → Result (Unit {0})
unfolding check_times attempt_id
check_attempt_times by_key identity number [] = ok tt
check_attempt_times by_key identity number (attempt ∷ attempts) = do
  check_times by_key "attempt.started" "attempt.finished" (str (attempt_id identity number)) attempt
  check_attempt_times by_key identity (suc number) attempts

unfoldable pub check_case_times : Index → Json → Result (Unit {0})
unfolding subscript check_times
check_case_times by_key case = do
  id ← subscript case "caseId"
  check_times by_key "case.started" "case.finished" id case

-- the members of a payload
unfoldable pub payload_keys : Json → Result (List String)
unfolding subscript keys items
payload_keys event = do payload ← subscript event "payload"; ok (keys (items payload))

-- the events of a row do not repeat what the row says, and agree with its times
unfoldable pub check_row_events : Index → Json → Result (Unit {0})
unfolding execution_of linked payload_keys has_common get truthy check_times text_of subscript
    iterate check_attempt_times each check_case_times
check_row_events by_key row = do
  identity ← execution_of row
  started ← linked by_key "test.started" identity
  finished ← linked by_key "test.finished" identity
  start_keys ← payload_keys started
  refuse_if (has_common ("testId" ∷ "caseId" ∷ []) start_keys) "test.started repeats identity"
  finish_keys ← payload_keys finished
  refuse_if (contains "caseId" finish_keys) "test.finished repeats identity"
  quarantine ← get row "quarantine" null
  refuse_if (not (truthy quarantine) && contains "quarantine" finish_keys)
      "test.finished carries empty quarantine"
  check_times by_key "test.started" "test.finished" identity row
  name ← text_of identity
  history ← subscript row "attemptHistory"
  attempts ← iterate history
  check_attempt_times by_key name 1 attempts
  member ← subscript row "parameterCases"
  cases ← iterate member
  each (check_case_times by_key) cases

module _ ⦃r : Runtime⦄ where
  unfoldable pub check_event : Json → ℕ → Json → Result (Unit {0})
  unfolding require_object subscript hashed is_version expect_nat py_eq has_type expect_str each
      iso8601_at expect_dict
  check_event run_id position event = do
    require_object event event_fields
    version ← subscript event "schemaVersion"
    key ← hashed version
    refuse_if (not (is_version key)) "expected 1 or 2"
    expect_nat event "sequence" position "unexpected sequence"
    id ← subscript event "runId"
    refuse_if (not (py_eq id run_id)) "does not match run"
    kind ← subscript event "type"
    refuse_if (not (has_type kind)) "invalid"
    each (expect_str event) ("entityId" ∷ "parentId" ∷ "occurredAt" ∷ [])
    occurred ← iso8601_at event "occurredAt"
    expect_dict event "payload"

  unfoldable pub check_sequence : Json → ℕ → List Json → Result (Unit {0})
  unfolding check_event
  check_sequence run_id position [] = ok tt
  check_sequence run_id position (event ∷ events) = do
    check_event run_id position event
    check_sequence run_id (suc position) events

  is_after : ℤ → ℤ → Bool
  unfolding span
  is_after start t = elim (span start t) [ none ↦ false | some n ↦ true ]

  -- an event occurred within the run
  unfoldable pub check_within : ℤ → ℤ → Json → Result (Unit {0})
  unfolding iso8601_at is_after
  check_within start finish event = do
    occurred ← iso8601_at event "occurredAt"
    refuse_if (not (is_after start occurred) || not (is_after occurred finish))
        "occurredAt lies outside run interval"

  -- the boundaries of the stream against the report
  unfoldable pub check_boundaries : Json → List Json → Result (Unit {0})
  unfolding check_lifecycle second_of last_of subscript py_eq
  check_boundaries document events = do
    check_lifecycle events
    published ← second_of events
    entity ← subscript published "entityId"
    manifest ← subscript document "manifest"
    digest ← subscript manifest "digest"
    refuse_if (not (py_eq entity digest)) "manifest identity differs from report manifest"
    final ← last_of events
    payload ← subscript final "payload"
    summary ← subscript document "summary"
    refuse_if (not (py_eq payload summary)) "run summary differs from report summary"

  -- what the second version of the stream adds
  unfoldable pub check_second_version : Json → List Json → Result (Unit {0})
  unfolding subscript expected_notice second_of py_eq iso8601_at each check_within fold_m
      index_event iterate check_row_events
  check_second_version document events = do
    manifest ← subscript document "manifest"
    notice ← expected_notice manifest
    published ← second_of events
    payload ← subscript published "payload"
    refuse_if (not (py_eq payload notice))
        "manifest notice must contain digest/identity/version/counts only"
    run ← subscript document "run"
    start ← iso8601_at run "startedAt"
    finish ← iso8601_at run "finishedAt"
    each (check_within start finish) events
    by_key ← fold_m index_event [] events
    tests ← subscript document "tests"
    rows ← iterate tests
    each (check_row_events by_key) rows

  unfoldable pub check_versions : Json → List Json → List Atom → Result (Unit {0})
  unfolding to_set check_boundaries check_second_version
  check_versions document events versions = do
    refuse_if (not (nat_eq (length (to_set versions)) 1)) "mixed schema versions"
    check_boundaries document events
    let second = check_second_version document events
    if contains (natural 2) versions then second else ok tt

  unfoldable pub validate_events : Json → Json → Result (Unit {0})
  unfolding is_list iterate subscript check_sequence atoms_at check_versions
  validate_events events document = do
    refuse_if (not (is_list events)) "expected non-empty array"
    rows ← iterate events
    refuse_if (nat_eq (length rows) 0) "expected non-empty array"
    run ← subscript document "run"
    run_id ← subscript run "id"
    check_sequence run_id 1 rows
    versions ← atoms_at "schemaVersion" rows
    check_versions document rows versions
