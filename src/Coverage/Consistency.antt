-- ===== src/Coverage/Consistency.antt =====
-- What a summary and a gate are that validate_summary and validate_gate accept.
use resq.Base.{
  same_bool, not_ltb, string_eq, ℕ, Bool, false, not, ◌&&◌, ◌||◌, List, [], ◌∷◌, All, some, ◌≡◌,
  ◌≤◌, ap, ◌∙◌, ltb, nat_eq, bool_eq, if◌then◌else◌,
}
use resq.Py.Value.{Json, Float, nat, bool}
use resq.Py.Result.{ok, through, past, ok-injective, raise_if-eq-ok}
use resq.Py.Access.{subscript}
use resq.Py.Fields.{member, subscript-eq-ok}
use resq.Py.Checks.{is_member}
use resq.Py.Loops.{each, each-eq-ok}
use resq.Py.Floats.{apart, float_gt, float_le}
use resq.Coverage.{require, count_at, flag_at, percent, expected_percent, equal_percent, tolerance}
use resq.Coverage.Reads.{count_at-eq-ok, flag_at-eq-ok, require-same}
use resq.Coverage.Summary.{
  Pair, pairs, check_pair, Completeness, completeness, check_completeness, validate_summary,
  summary_counts, summary_booleans, check_count, check_flag, items, check_fallback, check_parse,
}
use resq.Coverage.Gates.{Gate, validate_gate, percent_at}

-- a percentage is within the tolerance of 100 * hit / found
abbrev pub IsShare : Json → ℕ → ℕ → Type 0
IsShare actual hit found =
    (shown : Float) × (expected : Float) × (percent actual ≡ ok shown)
    × (expected_percent hit found ≡ ok expected)
    × (float_gt (apart shown expected) tolerance ≡ false)

pub equal_percent-IsShare :
    (actual : Json) (hit found : ℕ) {u : Unit {0}}
    → equal_percent actual hit found ≡ ok u
    → IsShare actual hit found
unfolding equal_percent
equal_percent-IsShare actual hit found h = through (expected_percent hit found) _ h λ expected e h₁.
    through (percent actual) _ h₁ λ shown s h₂. (shown, expected, s, e, raise_if-eq-ok _ _ h₂)

-- the counts of a pair are members, one is at most the other, and the percentage is theirs
abbrev pub PairAgrees : Json → Pair → Type 0
PairAgrees value ((percentage, hit), whole) =
    (hits : ℕ) × (found : ℕ) × (actual : Json) × (member value hit ≡ some (nat hits))
    × (member value whole ≡ some (nat found))
    × (member value percentage ≡ some actual)
    × (hits ≤ found)
    × IsShare actual hits found

pub check_pair-PairAgrees :
    (value : Json) (pair : Pair) → check_pair value pair ≡ ok tt → PairAgrees value pair
unfolding check_pair
check_pair-PairAgrees value ((percentage, hit), whole) h =
    through (count_at value hit) _ h λ hits a h₁. through (count_at value whole) _ h₁ λ found b h₂.
      past (ltb found hits) _ _ h₂ λ le h₃. through (subscript value percentage) _ h₃ λ actual c h₄.
        (
          hits,
          found,
          actual,
          count_at-eq-ok value hit a,
          count_at-eq-ok value whole b,
          subscript-eq-ok value percentage c,
          not_ltb found hits le,
          equal_percent-IsShare actual hits found h₄,
        )

-- the flag says that the mode is on, something is eligible, and all of it is measured
abbrev pub FlagAgrees : Json → Completeness → Type 0
FlagAgrees value ((flag, measured), (eligible, mode)) =
    (part : ℕ) × (whole : ℕ) × (on : Bool) × (member value measured ≡ some (nat part))
    × (member value eligible ≡ some (nat whole))
    × (member value mode ≡ some (bool on))
    × (member value flag ≡ some (bool (on && ltb 0 whole && nat_eq part whole)))

pub check_completeness-FlagAgrees :
    (value : Json) (row : Completeness)
    → check_completeness value row ≡ ok tt
    → FlagAgrees value row
unfolding check_completeness
check_completeness-FlagAgrees value ((flag, measured), (eligible, mode)) h =
    through (flag_at value mode) _ h λ on a h₁. through (count_at value eligible) _ h₁ λ whole b h₂.
      through (count_at value measured) _ h₂ λ part c h₃.
        through (flag_at value flag) _ h₃ λ complete d h₄. (
          part,
          whole,
          on,
          count_at-eq-ok value measured c,
          count_at-eq-ok value eligible b,
          flag_at-eq-ok value mode a,
          flag_at-eq-ok value flag d
              ∙ ap (λ x. some (bool x)) (same_bool complete _ (raise_if-eq-ok _ _ h₄)),
        )

pub All-imp {ℓ κ μ} :
    {A : Type ℓ} (P : A → Type κ) (Q : A → Type μ)
    → ((x : A) → P x → Q x)
    → (xs : List A) → All P xs
    → All Q xs
All-imp P Q go [] h = tt
All-imp P Q go (x ∷ xs) h = (go x h.0, All-imp P Q go xs h.1)

-- If validate_summary returns, for each of its percentages the part is at most the whole and
-- the percentage is within the tolerance of 100 * part / whole, and each flag of complete
-- instrumentation is set if and only if its mode is on, something is eligible and all of it is
-- instrumented.
pub validate_summary-IsConsistent :
    (x : Json) {y : Json}
    → validate_summary x ≡ ok y
    → All (PairAgrees x) pairs × All (FlagAgrees x) completeness
unfolding validate_summary
validate_summary-IsConsistent x h = through (require x _) _ h λ value e h₁.
    through (each (check_count value) summary_counts) _ h₁ λ _ _ h₂.
      through (each (check_flag value) summary_booleans) _ h₂ λ _ _ h₃.
        through (each (check_pair value) pairs) _ h₃ λ _ a h₄.
          through (each (check_completeness value) completeness) _ h₄ λ _ b _.
            rw (require-same x _ e) (
              All-imp (λ p. check_pair value p ≡ ok tt) (PairAgrees value)
                  (check_pair-PairAgrees value) pairs (each-eq-ok (check_pair value) pairs a),
              All-imp (λ p. check_completeness value p ≡ ok tt) (FlagAgrees value)
                  (check_completeness-FlagAgrees value) completeness
                  (each-eq-ok (check_completeness value) completeness b),
            )

pub validate_summary-same : (x : Json) {y : Json} → validate_summary x ≡ ok y → x ≡ y
unfolding validate_summary
validate_summary-same x h = through (require x _) _ h λ value e h₁.
    through (each (check_count value) summary_counts) _ h₁ λ _ _ h₂.
      through (each (check_flag value) summary_booleans) _ h₂ λ _ _ h₃.
        through (each (check_pair value) pairs) _ h₃ λ _ _ h₄.
          through (each (check_completeness value) completeness) _ h₄ λ _ _ h₅.
            through (subscript value "fallbackCounts") _ h₅ λ _ _ h₆.
              through (require _ []) _ h₆ λ reasons _ h₇.
                through (each check_fallback (items reasons)) _ h₇ λ _ _ h₈.
                  through (is_member value "sourceParseComplete") _ h₈ λ a _ h₉.
                    through (is_member value "sourceParseDiagnostics") _ h₉ λ b _ h₁₀.
                      through (if a || b then check_parse value else ok tt) _ h₁₀
                        λ _ _ h₁₁. require-same x _ e ∙ ok-injective h₁₁

-- what the members of an accepted gate are, and when it passes
abbrev pub GateAgrees : Json → Gate → Type 0
GateAgrees x gate =
    (member x "hit" ≡ some (nat (gate.hit)))
    × (member x "found" ≡ some (nat (gate.found)))
    × (member x "measurable" ≡ some (bool (ltb 0 (gate.found))))
    × (member x "passed" ≡ some (bool (gate.passed)))
    × (gate.hit ≤ gate.found)
    × (percent_at x "percent" ≡ ok (gate.share))
    × (percent_at x "minimum" ≡ ok (gate.minimum))
    × (gate.passed ≡ (ltb 0 (gate.found) && float_le (gate.minimum) (gate.share)))

-- If validate_gate returns, the hits are at most what was found, the gate is measurable if and
-- only if anything was found, and it has passed if and only if it is measurable and its
-- percentage is at least the minimum.
pub validate_gate-GateAgrees : (x : Json) {g : Gate} → validate_gate x ≡ ok g → GateAgrees x g
unfolding validate_gate
validate_gate-GateAgrees x h = through (require x _) _ h λ value same h₁.
    through (flag_at value "measurable") _ h₁ λ measurable m h₂.
      through (flag_at value "passed") _ h₂ λ passed p h₃.
        through (count_at value "hit") _ h₃ λ hit a h₄.
          through (count_at value "found") _ h₄ λ found b h₅. past (ltb found hit) _ _ h₅ λ le h₆.
            through (subscript value "percent") _ h₆ λ actual _ h₇.
              through (equal_percent actual hit found) _ h₇ λ _ _ h₈.
                through (percent_at value "minimum") _ h₈ λ minimum mi h₉.
                  past (not (bool_eq measurable (ltb 0 found))) _ _ h₉ λ me h₁₀.
                    through (percent_at value "percent") _ h₁₀ λ share sh h₁₁.
                      past (not (bool_eq passed (measurable && float_le minimum share))) _ _ h₁₁
                        λ pe h₁₂. through (subscript value "basis") _ h₁₂ λ basis _ h₁₃.
                          let is_measurable = same_bool measurable _ me in
                          rw (require-same x _ same) (
                            rw (← (ok-injective h₁₃)) (
                              count_at-eq-ok value "hit" a,
                              count_at-eq-ok value "found" b,
                              flag_at-eq-ok value "measurable" m
                                  ∙ ap (λ t. some (bool t)) is_measurable,
                              flag_at-eq-ok value "passed" p,
                              not_ltb found hit le,
                              sh,
                              mi,
                              same_bool passed _ pe
                                  ∙ ap (λ t. t && float_le minimum share) is_measurable,
                            ))
