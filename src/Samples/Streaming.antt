-- ===== src/Samples/Streaming.antt =====
-- tools/resq_to_ndjson.py on a report with two results and one measurement.
use resq.Base.{string_eq, String, List, true, [], ◌∷◌, some, ◌≡◌, refl, contains, All, map}
use resq.Py.Value.{Json, str, array, object, nat}
use resq.Py.Result.{ok}
use resq.Py.Dict.{lookup}
use resq.Py.Fields.{member}
use resq.Py.Running.{python}
use resq.Ndjson.{Members, context_of, records}
use resq.Ndjson.Events.{tests_in, benchmarks_in}
use resq.Ndjson.Streams.{payloads, records-payloads}
use resq.Ndjson.Contexts.{context_fields, records-context}

abbrev first : Json
first = object (("suite", str "s") ∷ [])

abbrev second : Json
second = object (("suite", str "t") ∷ [])

abbrev measurement : Json
measurement = object (("benchmarkId", str "b") ∷ [])

abbrev document : Json
document = object (
    ("framework", str "resQ")
    ∷ ("frameworkVersion", str "1")
    ∷ ("schemaVersion", nat 2)
    ∷ (
      "run",
      object (
          ("id", str "r")
          ∷ ("startedAt", str "now")
          ∷ ("vcs", object [])
          ∷ ("ci", object [])
          ∷ (
            "shard",
            object (("index", nat 0) ∷ ("selectedFiles", array (str "a" ∷ str "b" ∷ [])) ∷ []),
          )
          ∷ []),
    )
    ∷ ("summary", object [])
    ∷ ("diagnostics", array [])
    ∷ ("tests", array (first ∷ second ∷ []))
    ∷ ("performance", measurement)
    ∷ [])

abbrev context : Members
context =
    ("framework", str "resQ")
    ∷ ("frameworkVersion", str "1")
    ∷ ("schemaVersion", nat 2)
    ∷ ("runId", str "r")
    ∷ ("startedAt", str "now")
    ∷ ("hostname", str "")
    ∷ ("labels", object [])
    ∷ ("vcs", object [])
    ∷ ("ci", object [])
    ∷ ("profile", str "legacy-full")
    ∷ ("completeness", object [])
    ∷ []

abbrev joined : Members → Members → Members
joined [] own = own
joined (item ∷ context) own = item ∷ joined context own

abbrev stream : List Json
stream =
    object (
      joined context (
        ("eventType", str "resq.run")
        ∷ ("recordSchema", str "resq-ndjson-v1")
        ∷ (
          "recordOmissions",
          array (str "run.shard.selectedFiles" ∷ str "run.shard.selectedExecutionIds" ∷ []),
        )
        ∷ (
          "run",
          object (
              ("id", str "r")
              ∷ ("startedAt", str "now")
              ∷ ("vcs", object [])
              ∷ ("ci", object [])
              ∷ (
                "shard",
                object (
                    ("index", nat 0)
                    ∷ ("selectedFilePathCount", nat 2)
                    ∷ ("selectedExecutionIdCount", nat 0)
                    ∷ []),
              )
              ∷ []),
        )
        ∷ ("summary", object [])
        ∷ ("diagnostics", array [])
        ∷ []))
    ∷ object (joined context (("eventType", str "resq.test") ∷ ("test", first) ∷ []))
    ∷ object (joined context (("eventType", str "resq.test") ∷ ("test", second) ∷ []))
    ∷ object
        (joined context (("eventType", str "resq.benchmark") ∷ ("benchmark", measurement) ∷ []))
    ∷ []

streamed : records document ≡ ok stream
unfolding records python
streamed = refl

context_read : context_of document ≡ ok context
unfolding context_of python
context_read = refl

run_id_listed : contains "runId" context_fields ≡ true
unfolding python
run_id_listed = refl

records-payloads_example :
    (rows : List Json) × (measurements : List Json) × (tests_in document ≡ ok rows)
    × (benchmarks_in document ≡ ok measurements)
    × (payloads "resq.test" "test" stream ≡ map some rows)
    × (payloads "resq.benchmark" "benchmark" stream ≡ map some measurements)
records-payloads_example = records-payloads document stream streamed

records-context_example :
    All (λ row. member row "runId" ≡ lookup {K = String} "runId" context) stream
records-context_example =
    records-context document stream context "runId" streamed context_read run_id_listed
