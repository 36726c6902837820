-- ===== src/Ndjson.antt =====
-- tools/resq_to_ndjson.py: a report as a sequence of records.
pub mod Contexts
pub mod Events
pub mod Streams
use Prim.Native.String.{String as Text}
use resq.Base.{
  string_eq, ℕ, String, Bool, true, false, not, ◌&&◌, ◌||◌, List, [], ◌∷◌, ◌++◌, map, Option, none,
  some, ◌==◌, contains, length, suc, if◌then◌else◌, ◌≡◌,
}
use resq.Py.Value.{Json, null, str, arr, obj, nat, entries, elements, array, object, of_entries}
use resq.Py.Result.{Exn, Result, ok, err, type_error, raise_if, ◌>>=◌, ◌>>◌}
use resq.Py.Dict.{Dict, lookup, insert, is_some, keys}
use resq.Py.Access.{get, subscript, iterate, truthy, has_key}
use resq.Py.Checks.{len}
use resq.Py.Loops.{map_m}

abbrev pub Members : Type 0
Members = Dict String Json

-- `{**context, **more}`
unfoldable pub extended : Members → Members → Members
extended context [] = context
extended context ((name, value) ∷ more) = extended (insert name value context) more

unfoldable pub context_of : Json → Result Members
context_of document = do
  run ← subscript document "run"
  framework ← subscript document "framework"
  version ← subscript document "frameworkVersion"
  schema ← subscript document "schemaVersion"
  run_id ← subscript run "id"
  started ← subscript run "startedAt"
  hostname ← get run "hostname" (str "")
  labels ← get run "labels" (object [])
  vcs ← subscript run "vcs"
  ci ← subscript run "ci"
  profile ← get document "profile" (str "legacy-full")
  completeness ← get document "completeness" (object [])
  ok (
      ("framework", framework)
      ∷ ("frameworkVersion", version)
      ∷ ("schemaVersion", schema)
      ∷ ("runId", run_id)
      ∷ ("startedAt", started)
      ∷ ("hostname", hostname)
      ∷ ("labels", labels)
      ∷ ("vcs", vcs)
      ∷ ("ci", ci)
      ∷ ("profile", profile)
      ∷ ("completeness", completeness)
      ∷ [])

abbrev pub run_fields : List String
run_fields =
    "id" ∷ "startedAt" ∷ "finishedAt" ∷ "durationSeconds" ∷ "wallDurationSeconds" ∷ "hostname"
    ∷ "cwd" ∷ "qVersion" ∷ "qRelease" ∷ "os" ∷ "resqVersion" ∷ "vcs" ∷ "ci" ∷ "config" ∷ "ordering"
    ∷ "selection" ∷ "completion" ∷ "labels" ∷ []

-- the members of a dict; what calls it has read a member before
unfoldable pub members_of : Json → Result Members
members_of (obj fs) = ok (entries fs)
members_of null = err type_error
members_of _ = err type_error

abbrev pub one_member : String → Option Json → Members
one_member name none = []
one_member name (some value) = (name, value) ∷ []

-- `{name: run[name] for name in names if name in run}`
unfoldable pub picked : List String → Members → Members
picked [] members = []
picked (name ∷ names) members = one_member name (lookup name members) ++ picked names members

unfoldable pub without : List String → Members → Members
unfolding contains
without names [] = []
without names ((name, value) ∷ members) =
    if contains name names then without names members else (name, value) ∷ without names members

-- the shard of a run, with the numbers of its selected files and executions in their place
unfoldable pub with_shard_counts : Members → Json → Result Members
unfolding without len
with_shard_counts normalized_run (obj fs) = do
  files ← get (obj fs) "selectedFiles" (array [])
  file_count ← len files
  executions ← get (obj fs) "selectedExecutionIds" (array [])
  execution_count ← len executions
  let kept = without ("selectedFiles" ∷ "selectedExecutionIds" ∷ []) (entries fs)
  let counted =
      insert "selectedExecutionIdCount" (nat execution_count)
        (insert "selectedFilePathCount" (nat file_count) kept)
  ok (insert "shard" (object counted) normalized_run)
with_shard_counts normalized_run null = ok normalized_run
with_shard_counts normalized_run _ = ok normalized_run

unfoldable pub run_record : Json → Members → Result Json
unfolding members_of picked with_shard_counts extended
run_record document context = do
  run ← subscript document "run"
  run_members ← members_of run
  shard ← get run "shard" null
  normalized_run ← with_shard_counts (picked run_fields run_members) shard
  summary ← subscript document "summary"
  diagnostics ← subscript document "diagnostics"
  document_members ← members_of document
  let record_members = extended context (
      ("eventType", str "resq.run")
      ∷ ("recordSchema", str "resq-ndjson-v1")
      ∷ (
        "recordOmissions",
        array (str "run.shard.selectedFiles" ∷ str "run.shard.selectedExecutionIds" ∷ []),
      )
      ∷ ("run", object normalized_run)
      ∷ ("summary", summary)
      ∷ ("diagnostics", diagnostics)
      ∷ [])
  ok (
      object (
        extended record_members
          (picked ("coverage" ∷ "snapshotInventory" ∷ "benchmarkAnalysis" ∷ []) document_members)))

unfoldable pub event : Members → String → String → Json → Json
unfolding extended
event context kind name payload =
    object (extended context (("eventType", str kind) ∷ (name, payload) ∷ []))

-- a list of measurements, or a single one
unfoldable pub measurements_in : Json → Result (List Json)
measurements_in (arr xs) = ok (elements xs)
measurements_in null = ok []
measurements_in performance = ok (if truthy performance then performance ∷ [] else [])

-- all that the generator yields, in order
unfoldable pub records : Json → Result (List Json)
unfolding context_of run_record event measurements_in
records document = do
  context ← context_of document
  run ← run_record document context
  listed ← subscript document "tests"
  rows ← iterate listed
  performance ← get document "performance" (array [])
  measurements ← measurements_in performance
  ok (
      run
      ∷ (map (event context "resq.test" "test") rows
          ++ map (event context "resq.benchmark" "benchmark") measurements))
