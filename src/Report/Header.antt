-- ===== src/Report/Header.antt =====
-- tools/validate_report.py, validate: the run of a report.
use Prim.Native.Char.{code}
use resq.Base.{
  string_eq, list_eq, ℕ, zero, suc, ◌+◌, String, Bool, true, false, not, ◌&&◌, ◌||◌, List, [], ◌∷◌,
  ◌==◌, length, nat_eq, ltb, leb, str_le, after, if◌then◌else◌,
}
use resq.Base.Sorting.{sort}
use resq.Py.Value.{Json, object}
use resq.Py.Result.{Result, ok, ◌>>=◌, ◌>>◌}
use resq.Py.Dict.{keys, is_some}
use resq.Py.Access.{subscript, get, is_dict, is_str}
use resq.Py.Equal.{py_eq}
use resq.Py.Hash.{atom_eq}
use resq.Py.Checks.{refuse_if, is_one_of, is_member, len, text_length}
use resq.Py.Loops.{each}
use resq.Py.Text.{Runtime, to_str}
use resq.Coverage.Summary.{items}
use resq.Report.{
  require, is_hex_id, expect_one_of, expect_bool, expect_str, full_match, iso8601_at, span,
  elapsed_of, check_elapsed, require_non_negative_number,
}

abbrev run_fields : List String
run_fields =
    "id" ∷ "startedAt" ∷ "finishedAt" ∷ "durationSeconds" ∷ "hostname" ∷ "cwd" ∷ "qVersion"
    ∷ "qRelease" ∷ "os" ∷ "resqVersion" ∷ "vcs" ∷ "ci" ∷ "config" ∷ []

is_letter : ℕ → Bool
is_letter c = leb 65 c && leb c 90 || leb 97 c && leb c 122

-- `[A-Za-z0-9_.-]`
is_label_character : ℕ → Bool
unfolding is_letter
is_label_character c =
    is_letter c || leb 48 c && leb c 57 || nat_eq c 95 || nat_eq c 46 || nat_eq c 45

-- at most that many of them
label_rest : ℕ → String → Bool
unfolding is_label_character
label_rest n String.[] = true
label_rest zero (String.◌∷◌ c s) = false
label_rest (suc n) (String.◌∷◌ c s) = is_label_character (code c) && label_rest n s

starts : String → String → Bool
unfolding after
starts prefix s = is_some (after prefix s)

label_form : String → Bool
unfolding is_letter label_rest
label_form String.[] = false
label_form (String.◌∷◌ c s) = is_letter (code c) && label_rest 63 s

-- LABEL_KEY
unfoldable pub is_label_key : String → Bool
unfolding starts label_form
is_label_key s =
    not (starts "resq." s || starts "vcs." s || starts "ci." s || starts "__" s) && label_form s

unfoldable pub check_label : String × Json → Result (Unit {0})
unfolding is_label_key is_str len
check_label (key, value) = do
  refuse_if (not (is_label_key key)) "invalid key"
  refuse_if (not (is_str value)) "expected string of at most 256 characters"
  n ← len value
  refuse_if (ltb 256 n) "expected string of at most 256 characters"

module _ ⦃r : Runtime⦄ where
  -- `sum(len(str(key)) + len(str(value)) for key, value in labels.items())`
  unfoldable pub label_size : List (String × Json) → ℕ
  unfolding text_length to_str
  label_size [] = 0
  label_size ((key, value) ∷ labels) =
      text_length key + text_length (to_str value) + label_size labels

  unfoldable pub check_labels : Json → Result (Unit {0})
  unfolding get is_dict items keys sort str_le label_size each check_label
  check_labels run = do
    labels ← get run "labels" (object [])
    refuse_if (not (is_dict labels) || ltb 32 (length (items labels)))
        "expected object with at most 32 entries"
    refuse_if (not (keys (items labels) == sort str_le (keys (items labels))))
        "keys must use deterministic lexical order"
    refuse_if (ltb 4096 (label_size (items labels)))
        "total key/value content exceeds 4096 characters"
    each check_label (items labels)

  unfoldable pub check_vcs : Json → Result (Unit {0})
  unfolding subscript require expect_str expect_bool is_member is_one_of
  check_vcs run = do
    vcs ← subscript run "vcs"
    require vcs ("sha" ∷ "branch" ∷ "dirty" ∷ [])
    expect_str vcs "sha"
    expect_str vcs "branch"
    expect_bool vcs "dirty"
    stated ← is_member vcs "status"
    let known = expect_one_of vcs "status" ("ok" ∷ "unavailable" ∷ "disabled" ∷ [])
    if stated then known else ok tt

  -- the times of the run
  unfoldable pub check_run_times : Json → Result (Unit {0})
  unfolding iso8601_at require_non_negative_number span elapsed_of check_elapsed is_member
  check_run_times run = do
    started_at ← iso8601_at run "startedAt"
    finished_at ← iso8601_at run "finishedAt"
    require_non_negative_number run "durationSeconds"
    elapsed ← elapsed_of (span started_at finished_at)
    check_elapsed run "durationSeconds" elapsed
    walled ← is_member run "wallDurationSeconds"
    let wall = do
      require_non_negative_number run "wallDurationSeconds"
      check_elapsed run "wallDurationSeconds" elapsed
    if walled then wall else ok tt

  unfoldable pub check_run : Json → Json → Result (Unit {0})
  unfolding require subscript full_match is_hex_id check_run_times py_eq check_labels check_vcs
  check_run document run = do
    require run run_fields
    id ← subscript run "id"
    valid ← full_match is_hex_id id
    refuse_if (not valid) "invalid"
    check_run_times run
    version ← subscript run "resqVersion"
    framework ← subscript document "frameworkVersion"
    refuse_if (not (py_eq version framework)) "does not match frameworkVersion"
    check_labels run
    check_vcs run
