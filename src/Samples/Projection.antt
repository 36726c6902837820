-- ===== src/Samples/Projection.antt =====
-- tools/report_profiles.py on a report with one test.
use resq.Base.{string_eq, false, [], ◌∷◌, none, some, ◌≡◌, refl}
use resq.Py.Value.{Json, bool, str, array, object, nat, of_elements}
use resq.Py.Result.{ok}
use resq.Py.Fields.{member, rows_of}
use resq.Py.Loops.{Pointwise}
use resq.Py.Running.{python}
use resq.Base.{contains, true}
use resq.Py.Access.{is_dict}
use resq.Profiles.Returns.{HasRows, project_returns}
use resq.Profiles.{profiles, project, texts, omitted_sections, omitted_test_fields}
use resq.Profiles.Members.{unless, omits, project-members}
use resq.Profiles.Rows.{IsProjected, project-rows}

abbrev full : Json
full = object (
    ("run", str "r")
    ∷ ("events", array [])
    ∷ (
      "tests",
      array (object (("suite", str "s") ∷ ("time", nat 3) ∷ ("quarantine", object []) ∷ []) ∷ []),
    )
    ∷ [])

abbrev telemetry : Json
telemetry = object (
    ("run", str "r")
    ∷ ("tests", array (object (("suite", str "s") ∷ []) ∷ []))
    ∷ ("profile", str "telemetry")
    ∷ (
      "completeness",
      object (
          ("evidenceComplete", bool false)
          ∷ ("omittedSections", texts omitted_sections)
          ∷ ("omittedTestFields", texts omitted_test_fields)
          ∷ ("boundedFields", texts ("tests.message" ∷ "diagnostics.message" ∷ []))
          ∷ []),
    )
    ∷ [])

projected : project full "telemetry" ≡ ok telemetry
unfolding project python
projected = refl

abbrev rows : Json
rows = array (object (("suite", str "s") ∷ ("time", nat 3) ∷ ("quarantine", object []) ∷ []) ∷ [])

listed : member full "tests" ≡ some rows
unfolding python
listed = refl

events_gone : member telemetry "events" ≡ none
unfolding python
events_gone = refl

project-members_example :
    member telemetry "events" ≡ unless (omits "telemetry" "events") (member full "events")
project-members_example = project-members full "telemetry" telemetry "events" projected refl

project-rows_example :
    Pointwise
      (IsProjected "telemetry")
      (rows_of (member full "tests"))
      (rows_of (member telemetry "tests"))
project-rows_example =
    project-rows full "telemetry"
      (of_elements
        (object (("suite", str "s") ∷ ("time", nat 3) ∷ ("quarantine", object []) ∷ []) ∷ []))
      telemetry listed projected

full_object : is_dict full ≡ true
unfolding is_dict
full_object = refl

known_name : contains "telemetry" profiles ≡ true
unfolding contains
known_name = refl

objects : HasRows (some rows)
unfolding python
objects = (refl, tt)

project_returns_example : (out : Json) × (project full "telemetry" ≡ ok out)
project_returns_example =
    project_returns full "telemetry" full_object known_name (rw listed objects)
