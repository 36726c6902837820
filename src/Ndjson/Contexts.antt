-- ===== src/Ndjson/Contexts.antt =====
-- Every record carries the context of its run.
use mathlib.Core.Path.{subst}
use resq.Base.{
  string_eq, String, true, false, List, [], ◌∷◌, map, contains, All, All-at, All-append, ◌≡◌, refl,
  sym, ap, ◌∙◌,
}
use resq.Py.Value.{Json, str, entries-of_entries}
use resq.Py.Result.{ok, ok-injective}
use resq.Py.Dict.{lookup, keys}
use resq.Py.Fields.{member}
use resq.Ndjson.{Members, context_of, picked, run_record, event, records}
use resq.Ndjson.Events.{
  lookup-extended, keys-picked, optional_fields, run_record-parts, records-parts,
}

-- the members of the context
abbrev pub context_fields : List String
context_fields =
    "framework" ∷ "frameworkVersion" ∷ "schemaVersion" ∷ "runId" ∷ "startedAt" ∷ "hostname"
    ∷ "labels" ∷ "vcs" ∷ "ci" ∷ "profile" ∷ "completeness" ∷ []

-- the members that the records have of their own
abbrev own_fields : List String
own_fields =
    "eventType" ∷ "recordSchema" ∷ "recordOmissions" ∷ "run" ∷ "summary" ∷ "diagnostics" ∷ []

abbrev IsApart : String → Type 0
IsApart k =
    (contains k own_fields ≡ false)
    × (contains k optional_fields ≡ false)
    × (contains k ("eventType" ∷ "test" ∷ []) ≡ false)
    × (contains k ("eventType" ∷ "benchmark" ∷ []) ≡ false)

-- No record overwrites a member of the context.
context_fields-IsApart : All IsApart context_fields
unfolding contains
context_fields-IsApart = (
  (refl, refl, refl, refl),
  (
    (refl, refl, refl, refl),
    (
      (refl, refl, refl, refl),
      (
        (refl, refl, refl, refl),
        (
          (refl, refl, refl, refl),
          (
            (refl, refl, refl, refl),
            (
              (refl, refl, refl, refl),
              (
                (refl, refl, refl, refl),
                (
                  (refl, refl, refl, refl),
                  ((refl, refl, refl, refl), ((refl, refl, refl, refl), tt)),
                ),
              ),
            ),
          ),
        ),
      ),
    ),
  ),
)

run_record-context :
    (document : Json) (context : Members) (run : Json) (k : String)
    → run_record document context ≡ ok run
    → IsApart k
    → member run k ≡ lookup k context
unfolding keys
run_record-context document context run k h apart =
    let (normalized, summary, diagnostics, members, is_run) = run_record-parts document context h in
    ap (λ x. member x k) is_run
    ∙ rw (entries-of_entries) (
        lookup-extended k (picked optional_fields members) _
          (keys-picked k optional_fields members apart.1)
        ∙ lookup-extended k _ context apart.0)

events-context :
    (context : Members) (kind name : String) (rows : List Json) (k : String)
    → contains k ("eventType" ∷ name ∷ []) ≡ false
    → All (λ row. member row k ≡ lookup k context) (map (event context kind name) rows)
unfolding event keys
events-context context kind name [] k apart = tt
events-context context kind name (row ∷ rows) k apart = (
  rw (entries-of_entries)
      (lookup-extended k (("eventType", str kind) ∷ (name, row) ∷ []) context apart),
  events-context context kind name rows k apart,
)

-- If records yields its records without an exception, every record has each member of the
-- context of the run with the value of the context: no record overwrites it.
pub records-context :
    (document : Json) (stream : List Json) (context : Members) (k : String)
    → records document ≡ ok stream
    → context_of document ≡ ok context
    → contains k context_fields ≡ true
    → All (λ row. member row k ≡ lookup k context) stream
records-context document stream context k h made listed =
    let (context', run, rows, measurements, is_context, is_run, tests, benchmarks, is_stream) =
      records-parts document h in
    let same = ok-injective (sym is_context ∙ made) in
    let apart = All-at IsApart k context_fields context_fields-IsApart listed in
    subst (λ c. All (λ row. member row k ≡ lookup k c) stream) same
      (subst (All (λ row. member row k ≡ lookup k context')) (sym is_stream) (
        run_record-context document context' run k is_run apart,
        All-append (λ row. member row k ≡ lookup k context')
            (map (event context' "resq.test" "test") rows)
            (map (event context' "resq.benchmark" "benchmark") measurements)
            (events-context context' "resq.test" "test" rows k apart.2)
            (events-context context' "resq.benchmark" "benchmark" measurements k apart.3),
      ))
