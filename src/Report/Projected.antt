-- ===== src/Report/Projected.antt =====
-- What report_profiles.project returns is a report of its profile for validate_profile.
use resq.Base.{
  string_eq, eq_iff, String, Bool, true, false, List, [], ◌∷◌, none, some, ◌==◌, ◌≡◌, ◌⊎◌, inl, inr,
  refl, ◌∙◌, arith, All, contains, if◌then◌else◌,
}
use resq.Py.Value.{Json, null, bool, str, obj, Fields, entries, object}
use resq.Py.Result.{ok}
use resq.Py.Dict.{keys, lookup, contains-keys}
use resq.Py.Fields.{member, set_item-is_dict}
use resq.Py.Access.{is_dict}
use resq.Py.Running.{python}
use resq.Profiles.{profiles, project, texts, completeness}
use resq.Profiles.Members.{project-Projection, project-members}
use resq.Report.Rows.{has_common, telemetry_omitted_fields}
use resq.Report.Shards.{Profile, results, telemetry, omitted_sections, validate_profile}

-- the completeness that a projection states
abbrev stated : Bool → Json
stated is_telemetry = object (
    ("evidenceComplete", bool false)
    ∷ ("omittedSections", texts omitted_sections)
    ∷ ("omittedTestFields", if is_telemetry then texts telemetry_omitted_fields else texts [])
    ∷ (
      "boundedFields",
      if is_telemetry then texts ("tests.message" ∷ "diagnostics.message" ∷ []) else texts [],
    )
    ∷ [])

accepts_results :
    (fs : Fields)
    → lookup "profile" (entries fs) ≡ some (str "results")
    → lookup "completeness" (entries fs) ≡ some (stated false)
    → has_common omitted_sections (keys (entries fs)) ≡ false
    → validate_profile (obj fs) ≡ ok results
unfolding validate_profile python
accepts_results fs p c o = rw (p, c, o) refl

accepts_telemetry :
    (fs : Fields)
    → lookup "profile" (entries fs) ≡ some (str "telemetry")
    → lookup "completeness" (entries fs) ≡ some (stated true)
    → has_common omitted_sections (keys (entries fs)) ≡ false
    → validate_profile (obj fs) ≡ ok telemetry
unfolding validate_profile python
accepts_telemetry fs p c o = rw (p, c, o) refl

-- Nothing of the names is there.
abbrev AllAbsent : Json → List String → Type 0
AllAbsent x names = All (λ name. member x name ≡ none) names

has_common-AllAbsent :
    (fs : Fields) (names : List String)
    → AllAbsent (obj fs) names
    → has_common names (keys (entries fs)) ≡ false
unfolding has_common
has_common-AllAbsent fs [] h = refl
has_common-AllAbsent fs (name ∷ names) h =
    rw (contains-keys name (entries fs), h.0) (has_common-AllAbsent fs names h.1)

gone :
    (document out : Json) (profile j : String)
    → project document profile ≡ ok out
    → (profile == "full") ≡ false
    → ("tests" == j) ≡ false
    → ("completeness" == j) ≡ false
    → ("profile" == j) ≡ false
    → contains j omitted_sections ≡ true
    → member out j ≡ none
gone document out profile j h not_full t c p o =
    project-members document profile out j h t ∙ rw (c, p, not_full, o) refl

-- the sections that the profile omits
project-AllAbsent :
    (document out : Json) (profile : String)
    → project document profile ≡ ok out
    → (profile == "full") ≡ false
    → AllAbsent out omitted_sections
unfolding python
project-AllAbsent document out profile h n = (
  gone document out profile "performance" h n refl refl refl refl,
  (
    gone document out profile "coverage" h n refl refl refl refl,
    (
      gone document out profile "flake" h n refl refl refl refl,
      (
        gone document out profile "snapshotInventory" h n refl refl refl refl,
        (
          gone document out profile "benchmarkAnalysis" h n refl refl refl refl,
          (
            gone document out profile "manifest" h n refl refl refl refl,
            (gone document out profile "events" h n refl refl refl refl, tt),
          ),
        ),
      ),
    ),
  ),
)

project-is_dict :
    (document out : Json) (profile : String)
    → project document profile ≡ ok out
    → is_dict out ≡ true
project-is_dict document out profile h =
    let p = project-Projection document profile out h in
    set_item-is_dict p.labelled "completeness" p.complete p.finish

results_valid :
    (document out : Json)
    → project document "results" ≡ ok out
    → is_dict out ≡ true
    → validate_profile out ≡ ok results
unfolding completeness python is_dict
results_valid document (obj fs) h d =
    accepts_results fs (project-members document "results" (obj fs) "profile" h refl)
      (project-members document "results" (obj fs) "completeness" h refl)
      (has_common-AllAbsent fs omitted_sections
        (project-AllAbsent document (obj fs) "results" h refl))
results_valid document null h d = cc
results_valid document _ h d = cc

telemetry_valid :
    (document out : Json)
    → project document "telemetry" ≡ ok out
    → is_dict out ≡ true
    → validate_profile out ≡ ok telemetry
unfolding completeness python is_dict
telemetry_valid document (obj fs) h d =
    accepts_telemetry fs (project-members document "telemetry" (obj fs) "profile" h refl)
      (project-members document "telemetry" (obj fs) "completeness" h refl)
      (has_common-AllAbsent fs omitted_sections
        (project-AllAbsent document (obj fs) "telemetry" h refl))
telemetry_valid document null h d = cc
telemetry_valid document _ h d = cc

-- the profile of a projection that is not full
abbrev pub projected : String → Profile
projected profile = if profile == "telemetry" then telemetry else results

known_profile :
    (profile : String)
    → contains profile profiles ≡ true
    → (profile == "full") ≡ false
    → (profile ≡ "results") ⊎ (profile ≡ "telemetry")
unfolding contains
known_profile profile known not_full = ground (
  arith,
  eq_iff profile "full",
  eq_iff "full" profile,
  eq_iff "results" profile,
  eq_iff "telemetry" profile,
)

-- What project returns for a profile other than full is accepted by validate_profile, as a
-- report of that profile.
pub project-validate_profile :
    (document : Json) (profile : String) (out : Json)
    → project document profile ≡ ok out
    → (profile == "full") ≡ false
    → validate_profile out ≡ ok (projected profile)
project-validate_profile document profile out h not_full =
    let p = project-Projection document profile out h in
    let d = project-is_dict document out profile h in
    elim (known_profile profile p.known not_full) [
      | inl e ↦ rw e (results_valid document out (rw e at h) d)
      | inr e ↦ rw e (telemetry_valid document out (rw e at h) d)
    ]
