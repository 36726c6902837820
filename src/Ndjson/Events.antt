-- ===== src/Ndjson/Events.antt =====
-- The members of the records, and the order of the records.
use resq.Base.{
  string_eq, eq_iff, String, false, List, [], ◌∷◌, ◌++◌, map, Option, none, some, ◌==◌, contains,
  ◌≡◌, refl, sym, ap, ◌∙◌, arith, or_false,
}
use resq.Py.Value.{Json, null, str, entries-of_entries, array, object}
use resq.Py.Result.{Result, ok, ok-injective, through, ◌>>=◌}
use resq.Py.Dict.{lookup, insert, keys, lookup-insert, lookup-insert_self}
use resq.Py.Access.{get, subscript, iterate}
use resq.Py.Fields.{member}
use resq.Ndjson.{
  Members, extended, context_of, picked, one_member, members_of, with_shard_counts, run_fields,
  run_record, event, measurements_in, records,
}

-- A member that is not among the new ones is as it was.
pub lookup-extended :
    (k : String) (more context : Members)
    → contains k (keys more) ≡ false
    → lookup k (extended context more) ≡ lookup k context
unfolding extended keys contains
lookup-extended k [] context h = refl
lookup-extended k ((name, value) ∷ more) context h =
    let (other, later) = or_false (name == k) (contains k (keys more)) h in
    lookup-extended k more (insert name value context) later
    ∙ lookup-insert name k value context
    ∙ rw other refl

pub lookup-first :
    (k : String) (value : Json) (more context : Members)
    → contains k (keys more) ≡ false
    → lookup k (extended context ((k, value) ∷ more)) ≡ some value
unfolding extended
lookup-first k value more context h =
    lookup-extended k more (insert k value context) h ∙ lookup-insert_self k value context

pub keys-picked :
    (k : String) (names : List String) (members : Members)
    → contains k names ≡ false
    → contains k (keys (picked names members)) ≡ false
unfolding picked keys contains
keys-picked k [] members h = refl
keys-picked k (name ∷ names) members h =
    let (other, later) = or_false (name == k) (contains k names) h in
    go (lookup name members) other (keys-picked k names members later)
  where
    go :
        (o : Option Json)
        → (name == k) ≡ false
        → contains k (keys (picked names members)) ≡ false
        → contains k (keys (one_member name o ++ picked names members)) ≡ false
    go none other ih = ih
    go (some value) other ih = ground (arith, other, ih)

-- the sections that the record of the run has if the document has them
abbrev pub optional_fields : List String
optional_fields = "coverage" ∷ "snapshotInventory" ∷ "benchmarkAnalysis" ∷ []

-- the record of the run, as its members are built
pub run_record-parts :
    (document : Json) (context : Members) {run : Json}
    → run_record document context ≡ ok run
    → (normalized summary diagnostics : Json) × (members : Members) × (run
        ≡ object (
            extended
              (extended context (
                ("eventType", str "resq.run")
                ∷ ("recordSchema", str "resq-ndjson-v1")
                ∷ (
                  "recordOmissions",
                  array (str "run.shard.selectedFiles" ∷ str "run.shard.selectedExecutionIds" ∷ []),
                )
                ∷ ("run", normalized)
                ∷ ("summary", summary)
                ∷ ("diagnostics", diagnostics)
                ∷ []))
              (picked optional_fields members)))
unfolding run_record
run_record-parts document context h = through (subscript document "run") _ h λ run _ h₁.
    through (members_of run) _ h₁ λ run_members _ h₂.
      through (get run "shard" null) _ h₂ λ shard _ h₃.
        through (with_shard_counts (picked run_fields run_members) shard) _ h₃ λ normalized _ h₄.
          through (subscript document "summary") _ h₄ λ summary _ h₅.
            through (subscript document "diagnostics") _ h₅ λ diagnostics _ h₆.
              through (members_of document) _ h₆ λ members _ h₇.
                (object normalized, summary, diagnostics, members, sym (ok-injective h₇))

-- The type of the record of the run.
pub run_record-type :
    (document : Json) (context : Members) (run : Json)
    → run_record document context ≡ ok run
    → member run "eventType" ≡ some (str "resq.run")
unfolding contains keys
run_record-type document context run h =
    let (normalized, summary, diagnostics, members, is_run) = run_record-parts document context h in
    ap (λ x. member x "eventType") is_run
    ∙ rw (entries-of_entries) (
        lookup-extended "eventType" (picked optional_fields members) _
          (keys-picked "eventType" optional_fields members refl)
        ∙ lookup-first "eventType" (str "resq.run") _ context refl)

pub event-type :
    (context : Members) (kind name : String) (payload : Json)
    → (name == "eventType") ≡ false
    → member (event context kind name payload) "eventType" ≡ some (str kind)
unfolding event extended
event-type context kind name payload other =
    rw
      (
        entries-of_entries,
        lookup-insert name "eventType" payload (insert "eventType" (str kind) context),
        other,
        lookup-insert "eventType" "eventType" (str kind) context,
      )
      refl

pub event-payload :
    (context : Members) (kind name : String) (payload : Json)
    → member (event context kind name payload) name ≡ some payload
unfolding event extended
event-payload context kind name payload =
    rw
      (
        entries-of_entries,
        lookup-insert name name payload (insert "eventType" (str kind) context),
        (eq_iff name name).1 refl,
      )
      refl

-- the tests and the measurements of a document
unfoldable pub tests_in : Json → Result (List Json)
tests_in document = do listed ← subscript document "tests"; iterate listed

unfoldable pub benchmarks_in : Json → Result (List Json)
unfolding measurements_in
benchmarks_in document = do
  performance ← get document "performance" (array [])
  measurements_in performance

-- the records as they are put together
pub records-parts :
    (document : Json) {stream : List Json}
    → records document ≡ ok stream
    → (context : Members) × (run : Json) × (rows : List Json) × (measurements : List Json)
      × (context_of document ≡ ok context)
      × (run_record document context ≡ ok run)
      × (tests_in document ≡ ok rows)
      × (benchmarks_in document ≡ ok measurements)
      × (stream
          ≡ run
            ∷ (map (event context "resq.test" "test") rows
                ++ map (event context "resq.benchmark" "benchmark") measurements))
unfolding records tests_in benchmarks_in
records-parts document h = through (context_of document) _ h λ context is_context h₁.
    through (run_record document context) _ h₁ λ run is_run h₂.
      through (subscript document "tests") _ h₂ λ listed at h₃.
        through (iterate listed) _ h₃ λ rows iterated h₄.
          through (get document "performance" (array [])) _ h₄ λ performance got h₅.
            through (measurements_in performance) _ h₅ λ measurements measured h₆. (
              context,
              run,
              rows,
              measurements,
              is_context,
              is_run,
              rw at iterated,
              rw got measured,
              sym (ok-injective h₆),
            )
