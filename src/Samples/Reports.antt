-- ===== src/Samples/Reports.antt =====
-- tools/validate_report.py on a telemetry report of one test, and on a manifest of one file and one test.
use resq.Base.{string_eq, List, true, false, [], ◌∷◌, some, ◌≡◌, refl, distinct}
use resq.Py.Value.{Json, null, bool, str, nat, array, object, float, nan}
use resq.Py.Result.{ok, err}
use resq.Py.Access.{get, iterate, is_dict}
use resq.Py.Fields.{member}
use resq.Py.Hash.{Atom, hashed, atom_eq}
use resq.Py.Loops.{map_m}
use resq.Py.Running.{python}
use resq.Py.Samples.{plain}
use resq.Py.Floats.{is_finite}
use resq.Profiles.{project, texts, omitted_sections, omitted_test_fields}
use resq.Report.Numbers.{AllFinite}
use resq.Report.Shards.{telemetry, validate_profile}
use resq.Report.Manifest.{execution_of}
use resq.Report.Selection.{validate_manifest}
use resq.Report.Validate.{validate}
use resq.Report.Agreement.{CountsAgree, validate-counts}
use resq.Report.Covered.{IsCovered, validate-IsCovered}
use resq.Report.Refusals.{non_finite, validate_refuses}
use resq.Report.Listed.{FilesListed, TestsListed, SelectionListed, validate_manifest-IsListed}
use resq.Report.Projected.{project-validate_profile}

abbrev pub test_id : Json
test_id = str "test_00000000000000000000000000000001"

abbrev file_names : Json
file_names = array (str "a.q" ∷ [])

abbrev pub shard : Json
shard = object (
    ("index", nat 0)
    ∷ ("count", nat 1)
    ∷ ("unit", str "file")
    ∷ ("algorithm", str "sorted-index-mod-v1")
    ∷ ("allFileCount", nat 1)
    ∷ ("selectedFileCount", nat 1)
    ∷ ("allUnitCount", nat 1)
    ∷ ("selectedUnitCount", nat 1)
    ∷ ("selectedFiles", file_names)
    ∷ ("selectedExecutionIds", array (test_id ∷ []))
    ∷ [])

abbrev completion : Json
completion = object (
    ("state", str "complete")
    ∷ ("complete", bool true)
    ∷ ("truncated", bool false)
    ∷ ("reason", str "completed")
    ∷ ("selectedTestCount", nat 1)
    ∷ ("resultCount", nat 1)
    ∷ ("missingExecutionIds", array [])
    ∷ [])

abbrev run : Json
run = object (
    ("id", str "run_00000000000000000000000000000002")
    ∷ ("startedAt", str "2026-01-01T00:00:00Z")
    ∷ ("finishedAt", str "2026-01-01T00:00:00Z")
    ∷ ("durationSeconds", nat 0)
    ∷ ("hostname", str "h")
    ∷ ("cwd", str "/")
    ∷ ("qVersion", str "4.1")
    ∷ ("qRelease", str "2026.01.01")
    ∷ ("os", str "l64")
    ∷ ("resqVersion", str "1")
    ∷ ("vcs", object (("sha", str "") ∷ ("branch", str "main") ∷ ("dirty", bool false) ∷ []))
    ∷ ("ci", object [])
    ∷ ("config", object [])
    ∷ ("shard", shard)
    ∷ ("selection", object (("selectedTestCount", nat 1) ∷ []))
    ∷ ("completion", completion)
    ∷ [])

abbrev row : Json
row = object (
    ("suite", str "s")
    ∷ ("description", str "d")
    ∷ ("status", str "pass")
    ∷ ("message", str "")
    ∷ ("durationSeconds", nat 0)
    ∷ ("assertsRun", nat 2)
    ∷ ("file", str "a.q")
    ∷ ("line", nat 1)
    ∷ ("testId", test_id)
    ∷ ("caseId", str "")
    ∷ ("kind", str "test")
    ∷ ("attempts", nat 1)
    ∷ ("retried", bool false)
    ∷ ("flaky", bool false)
    ∷ [])

abbrev pub summary : Json
summary = object (
    ("suiteCount", nat 1)
    ∷ ("testCount", nat 1)
    ∷ ("assertionCount", nat 2)
    ∷ ("passCount", nat 1)
    ∷ ("failCount", nat 0)
    ∷ ("errorCount", nat 0)
    ∷ ("skipCount", nat 0)
    ∷ ("duration", nat 0)
    ∷ ("durationSeconds", nat 0)
    ∷ [])

abbrev report : Json
report = object (
    ("schemaVersion", nat 2)
    ∷ ("framework", str "resQ")
    ∷ ("frameworkVersion", str "1")
    ∷ ("run", run)
    ∷ ("summary", summary)
    ∷ ("tests", array (row ∷ []))
    ∷ ("diagnostics", array [])
    ∷ ("profile", str "telemetry")
    ∷ (
      "completeness",
      object (
          ("evidenceComplete", bool false)
          ∷ ("omittedSections", texts omitted_sections)
          ∷ ("omittedTestFields", texts omitted_test_fields)
          ∷ ("boundedFields", texts ("tests.message" ∷ "diagnostics.message" ∷ []))
          ∷ []),
    )
    ∷ [])

validates : validate report ≡ ok tt
unfolding validate python
validates = refl

validate-counts_example : CountsAgree report
validate-counts_example = validate-counts report validates

run_of : member report "run" ≡ some run
unfolding python
run_of = refl

completion_of : member run "completion" ≡ some completion
unfolding python
completion_of = refl

completed : member completion "complete" ≡ some (bool true)
unfolding python
completed = refl

validate-IsCovered_example :
    (tests : Json) × (rows : List Json) × (ids : List Json) × (keys : List Atom) × (member report
        "tests"
      ≡ some tests)
    × (iterate tests ≡ ok rows)
    × (map_m execution_of rows ≡ ok ids)
    × (map_m hashed ids ≡ ok keys)
    × (distinct keys ≡ true)
    × IsCovered run ids
validate-IsCovered_example =
    validate-IsCovered report run completion validates run_of completion_of completed

abbrev broken : Json
broken = object (("run", object (("durationSeconds", float nan) ∷ [])) ∷ [])

is_broken : AllFinite broken → ⊥
unfolding python AllFinite is_finite
is_broken h = absurd (different h.0.0)
  where
    different : false ≡ true → ⊥
    different e = cc

is_object : is_dict broken ≡ true
unfolding is_dict
is_object = refl

validate_refuses_example : validate broken ≡ err non_finite
validate_refuses_example = validate_refuses broken is_object is_broken

abbrev codec : Json
codec = object (
    ("name", str "resq-value-v1+q-ipc-leaves")
    ∷ ("version", nat 1)
    ∷ ("qVersion", str "4.1")
    ∷ ("qRelease", str "2026.01.01")
    ∷ ("ipcSerialization", str "q unary -8!/-9!")
    ∷ ("capabilityLevel", str "local unary serialization; no negotiated IPC connection capability")
    ∷ [])

abbrev file : Json
file = object (
    ("fileId", str "file_00000000000000000000000000000003")
    ∷ ("path", str "a.q")
    ∷ ("sourceDigest", str "")
    ∷ ("assignedShard", nat 0)
    ∷ ("selected", bool true)
    ∷ ("shardable", bool true)
    ∷ [])

abbrev entry : Json
entry = object (
    ("executionId", test_id)
    ∷ ("testId", test_id)
    ∷ ("caseId", str "")
    ∷ ("suiteId", str "suite_00000000000000000000000000000004")
    ∷ ("fileId", str "file_00000000000000000000000000000003")
    ∷ ("file", str "a.q")
    ∷ ("suite", str "s")
    ∷ ("description", str "d")
    ∷ ("line", nat 1)
    ∷ ("kind", str "test")
    ∷ ("parameters", object [])
    ∷ ("tags", array [])
    ∷ ("shardKey", str "a.q")
    ∷ ("assignedShard", nat 0)
    ∷ ("selected", bool true)
    ∷ ("shardable", bool true)
    ∷ [])

abbrev pub manifest : Json
manifest = object (
    ("schemaVersion", nat 3)
    ∷ ("kind", str "resq-execution-manifest")
    ∷ ("digest", str "manifest_00000000000000000000000000000005")
    ∷ ("digestAlgorithm", str "md5-source-topology-v3")
    ∷ ("identityAlgorithm", str "resq-test-case-id-v3")
    ∷ ("identityCodec", codec)
    ∷ ("frameworkVersion", str "1")
    ∷ ("revision", str "")
    ∷ ("shard", shard)
    ∷ ("files", array (file ∷ []))
    ∷ ("tests", array (entry ∷ []))
    ∷ [])

validates_manifest : validate_manifest manifest report ≡ ok tt
unfolding validate_manifest python
validates_manifest = refl

validate_manifest-IsListed_example :
    (run : Json) × (shard : Json) × (files : List Json) × (entries : List Json) × (member report
        "run"
      ≡ some run)
    × (get run "shard" null ≡ ok shard)
    × FilesListed manifest files
    × TestsListed manifest report entries
    × SelectionListed shard files entries
validate_manifest-IsListed_example = validate_manifest-IsListed manifest report validates_manifest

abbrev small : Json
small = object (
    ("run", str "r")
    ∷ ("tests", array [])
    ∷ ("profile", str "telemetry")
    ∷ (
      "completeness",
      object (
          ("evidenceComplete", bool false)
          ∷ ("omittedSections", texts omitted_sections)
          ∷ ("omittedTestFields", texts omitted_test_fields)
          ∷ ("boundedFields", texts ("tests.message" ∷ "diagnostics.message" ∷ []))
          ∷ []),
    )
    ∷ [])

abbrev whole : Json
whole = object (("run", str "r") ∷ ("events", array []) ∷ ("tests", array []) ∷ [])

projected : project whole "telemetry" ≡ ok small
unfolding project python
projected = refl

project-validate_profile_example : validate_profile small ≡ ok telemetry
project-validate_profile_example = project-validate_profile whole "telemetry" small projected refl
