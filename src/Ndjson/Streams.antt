-- ===== src/Ndjson/Streams.antt =====
-- What the records of a report contain.
use mathlib.Core.List.{append-nil}
use resq.Base.{
  string_eq, eq_iff, String, Bool, false, List, [], ◌∷◌, ◌++◌, map, Option, none, some, ◌==◌,
  if◌then◌else◌, ◌≡◌, refl, ap, ◌∙◌, Bool-cases, inl, inr,
}
use resq.Py.Value.{Json, str}
use resq.Py.Result.{ok}
use resq.Py.Fields.{member}
use resq.Ndjson.{Members, event, records}
use resq.Ndjson.Events.{
  run_record-type, event-type, event-payload, tests_in, benchmarks_in, records-parts,
}

unfoldable has_type : String → Option Json → Bool
has_type kind (some (str own)) = own == kind
has_type kind none = false
has_type kind _ = false

-- what the records of a kind carry under a name
unfoldable pub payloads : String → String → List Json → List (Option Json)
unfolding has_type
payloads kind name [] = []
payloads kind name (row ∷ rows) =
    if has_type kind (member row "eventType")
    then member row name ∷ payloads kind name rows
    else payloads kind name rows

payloads-append :
    (kind name : String) (xs ys : List Json)
    → payloads kind name (xs ++ ys) ≡ payloads kind name xs ++ payloads kind name ys
unfolding payloads
payloads-append kind name [] ys = refl
payloads-append kind name (x ∷ xs) ys = elim (Bool-cases (has_type kind (member x "eventType"))) [
  | inl e ↦ rw e (ap (λ l. member x name ∷ l) (payloads-append kind name xs ys))
  | inr e ↦ rw e (payloads-append kind name xs ys)
]

payloads-same :
    (context : Members) (kind name : String) (rows : List Json)
    → (name == "eventType") ≡ false
    → payloads kind name (map (event context kind name) rows) ≡ map some rows
unfolding payloads has_type
payloads-same context kind name [] other = refl
payloads-same context kind name (row ∷ rows) other =
    rw
      (
        event-type context kind name row other,
        (eq_iff kind kind).1 refl,
        event-payload context kind name row,
        payloads-same context kind name rows other,
      )
      refl

payloads-none :
    (context : Members) (kind name kind' name' : String) (rows : List Json)
    → (name' == "eventType") ≡ false
    → (kind' == kind) ≡ false
    → payloads kind name (map (event context kind' name') rows) ≡ []
unfolding payloads has_type
payloads-none context kind name kind' name' [] other differs = refl
payloads-none context kind name kind' name' (row ∷ rows) other differs =
    rw (event-type context kind' name' row other, differs)
      (payloads-none context kind name kind' name' rows other differs)

payloads-other :
    (kind name : String) (row : Json) (rows : List Json) (own : String)
    → member row "eventType" ≡ some (str own)
    → (own == kind) ≡ false
    → payloads kind name (row ∷ rows) ≡ payloads kind name rows
unfolding payloads has_type
payloads-other kind name row rows own at differs = rw (at, differs) refl

-- If records yields its records without an exception, the payloads of the test records are the
-- tests of the report, in order, and those of the benchmark records are its measurements, in
-- order.
pub records-payloads :
    (document : Json) (stream : List Json)
    → records document ≡ ok stream
    → (rows : List Json) × (measurements : List Json) × (tests_in document ≡ ok rows)
      × (benchmarks_in document ≡ ok measurements)
      × (payloads "resq.test" "test" stream ≡ map some rows)
      × (payloads "resq.benchmark" "benchmark" stream ≡ map some measurements)
records-payloads document stream h =
    let (context, run, rows, measurements, is_context, is_run, tests, benchmarks, is_stream) =
      records-parts document h in
    let first = run_record-type document context run is_run in
    let of_tests = map (event context "resq.test" "test") rows in
    let of_benchmarks = map (event context "resq.benchmark" "benchmark") measurements in
    (
      rows,
      measurements,
      tests,
      benchmarks,
      ap (payloads "resq.test" "test") is_stream
          ∙ payloads-other "resq.test" "test" run (of_tests ++ of_benchmarks) "resq.run" first refl
          ∙ payloads-append "resq.test" "test" of_tests of_benchmarks
          ∙ rw
              (
                payloads-same context "resq.test" "test" rows refl,
                payloads-none context "resq.test" "test" "resq.benchmark" "benchmark" measurements
                    refl refl,
              )
              (append-nil (map some rows)),
      ap (payloads "resq.benchmark" "benchmark") is_stream
          ∙ payloads-other "resq.benchmark" "benchmark" run (of_tests ++ of_benchmarks) "resq.run"
              first refl
          ∙ payloads-append "resq.benchmark" "benchmark" of_tests of_benchmarks
          ∙ rw
              (
                payloads-none context "resq.benchmark" "benchmark" "resq.test" "test" rows refl
                    refl,
                payloads-same context "resq.benchmark" "benchmark" measurements refl,
              )
              refl,
    )
