-- ===== src/Trend/Origin.antt =====
-- tools/self_coverage_trend.py, append_point: which points the trend takes over.
use mathlib.Core.Path.{subst}
use resq.Base.{
  string_eq, eq_iff, String, Bool, true, false, not, ◌&&◌, All, List, [], ◌∷◌, ◌++◌, map, Option,
  none, some, some-injective, ◌==◌, ◌⊎◌, inl, inr, ◌≡◌, refl, sym, ap, ◌∙◌, arith, if◌then◌else◌,
  Bool-cases,
}
use resq.Py.Value.{Json, null, str, entries, of_entries}
use resq.Py.Result.{Result, ok, ok-injective, through, past}
use resq.Py.Hash.{Atom, hashed}
use resq.Py.Dict.{lookup, is_some}
use resq.Py.Access.{subscript, get, get_or, iterate, nonempty_str}
use resq.Py.Fields.{member, get-eq-ok, subscript-eq-ok}
use resq.Py.Loops.{filter_m, map_m, map_m-cons}
use resq.Py.Rows.{IsIn}
use resq.Py.Order.{less, insort_m, sort_m}
use resq.Trend.{
  validate_summary, check_point, validate_trend, point_of, previous_points, is_other, by_time,
  sort_points,
}
use resq.Trend.Points.{check_point-time, other_time, validate_trend-times}
use resq.Trend.Validity.{validate_summary-same}

-- two lists hold the same documents
abbrev SameRows : List Json → List Json → Type 0
SameRows xs ys = (z : Json) → (IsIn z xs → IsIn z ys) × (IsIn z ys → IsIn z xs)

rows_in : List (Atom × Json) → List Json
rows_in = map (λ (pair : Atom × Json). pair.1)

-- the two rows at the head change places
swapped : (x y : Json) (xs : List Json) → SameRows (x ∷ y ∷ xs) (y ∷ x ∷ xs)
swapped x y xs z = (swap x y, swap y x)
  where
    swap : (x y : Json) → IsIn z (x ∷ y ∷ xs) → IsIn z (y ∷ x ∷ xs)
    swap x y (inl e) = inr (inl e)
    swap x y (inr (inl e)) = inl e
    swap x y (inr (inr h)) = inr (inr h)

kept_head : (x : Json) (xs ys : List Json) → SameRows xs ys → SameRows (x ∷ xs) (x ∷ ys)
kept_head x xs ys same z = (go xs ys (same z).0, go ys xs (same z).1)
  where
    go : (xs ys : List Json) → (IsIn z xs → IsIn z ys) → IsIn z (x ∷ xs) → IsIn z (x ∷ ys)
    go xs ys f (inl e) = inl e
    go xs ys f (inr h) = inr (f h)

joined : (xs ys zs : List Json) → SameRows xs ys → SameRows ys zs → SameRows xs zs
joined xs ys zs f g z = (λ h. (g z).0 ((f z).0 h), λ h. (f z).1 ((g z).1 h))

text-injective : {s t : String} → str s ≡ str t → s ≡ t
text-injective h = cc

insort_m-SameRows :
    (lt : Atom × Json → Atom × Json → Result Bool) (p : Atom × Json) (ps zs : List (Atom × Json))
    → insort_m lt p ps ≡ ok zs
    → SameRows (p.1 ∷ rows_in ps) (rows_in zs)
unfolding insort_m rows_in
insort_m-SameRows lt p [] zs h = rw (← (ok-injective h)) (λ z. (λ q. q, λ q. q))
insort_m-SameRows lt p (p' ∷ ps) zs h = through (lt p' p) _ h λ before _ h₁.
    elim (Bool-cases before) [
      | inl b ↦
          let h₂ = rw b at h₁ in
          through (insort_m lt p ps) _ h₂ λ rest step h₃. rw (← (ok-injective h₃)) (
            joined (p.1 ∷ p'.1 ∷ rows_in ps) (p'.1 ∷ p.1 ∷ rows_in ps) (p'.1 ∷ rows_in rest)
              (swapped p.1 p'.1 (rows_in ps))
              (kept_head p'.1 (p.1 ∷ rows_in ps) (rows_in rest)
                (insort_m-SameRows lt p ps rest step)))
      | inr b ↦ rw (← (ok-injective (rw b at h₁))) (λ z. (λ q. q, λ q. q))
    ]

sort_m-SameRows :
    (lt : Atom × Json → Atom × Json → Result Bool) (ps zs : List (Atom × Json))
    → sort_m lt ps ≡ ok zs
    → SameRows (rows_in ps) (rows_in zs)
unfolding sort_m rows_in
sort_m-SameRows lt [] zs h = rw (← (ok-injective h)) (λ z. (λ q. q, λ q. q))
sort_m-SameRows lt (p ∷ ps) zs h = through (sort_m lt ps) _ h λ rest sorted h₁.
    joined (p.1 ∷ rows_in ps) (p.1 ∷ rows_in rest) (rows_in zs)
      (kept_head p.1 (rows_in ps) (rows_in rest) (sort_m-SameRows lt ps rest sorted))
      (insort_m-SameRows lt p rest zs h₁)

keyed-rows :
    (rows : List Json) (keyed : List (Atom × Json))
    → map_m by_time rows ≡ ok keyed
    → rows_in keyed ≡ rows
unfolding map_m by_time rows_in
keyed-rows [] keyed h = rw (← (ok-injective h)) refl
keyed-rows (row ∷ rows) keyed h =
    let (pair, pairs, made, rest, split) = map_m-cons by_time row rows h in
    rw (← split) (
      through (subscript row "generatedAt") _ made λ g _ made₁.
        through (hashed g) _ made₁ λ key _ made₂.
          rw (keyed-rows rows pairs rest)
            (ap (λ (p : Atom × Json). p.1 ∷ rows) (sym (ok-injective made₂))))

sort_points-SameRows :
    (rows sorted : List Json) → sort_points rows ≡ ok sorted → SameRows rows sorted
unfolding sort_points rows_in
sort_points-SameRows rows sorted h = through (map_m by_time rows) _ h λ keyed made h₁.
    through (sort_m (λ a b. less a.0 b.0) keyed) _ h₁ λ pairs in_order h₂.
      rw (← (ok-injective h₂), ← (keyed-rows rows keyed made))
        (sort_m-SameRows (λ a b. less a.0 b.0) keyed pairs in_order)

-- the row has that time
abbrev pub IsAt : String → Json → Type 0
IsAt g row = member row "generatedAt" ≡ some (str g)

same_time : (g t : String) (row : Json) → IsAt t row → IsAt g row → (t == g) ≡ true
same_time g t row own at = (eq_iff t g).1 (text-injective (some-injective (sym own ∙ at)))

kept_step :
    (g t : String) (row : Json) (rows later : List Json) (z : Json) (keep : Bool)
    → IsAt t row
    → keep ≡ not (t == g)
    → (IsIn z later → IsIn z rows × ¬ (IsAt g z))
    → (IsIn z rows → ¬ (IsAt g z) → IsIn z later)
    → (IsIn z (if keep then row ∷ later else later) → IsIn z (row ∷ rows) × ¬ (IsAt g z))
      × (IsIn z (row ∷ rows) → ¬ (IsAt g z) → IsIn z (if keep then row ∷ later else later))
kept_step g t row rows later z true own is_kept inside back = (
  λ q. elim q [
    | inl e ↦ (inl e, λ at. absurd (kept_other (same_time g t row own (rw e at at))))
    | inr w ↦ (inr (inside w).0, (inside w).1)
  ],
  λ q other. elim q [ inl e ↦ inl e | inr w ↦ inr (back w other) ],
)
  where
    kept_other : (t == g) ≡ true → ⊥
    kept_other e = cc
kept_step g t row rows later z false own is_kept inside back = (
  λ q. (inr (inside q).0, (inside q).1),
  λ q other. elim q [
    | inl e ↦ absurd (other (rw e (rw (← ((eq_iff t g).0 same)) own)))
    | inr w ↦ back w other
  ],
)
  where
    same : (t == g) ≡ true
    same = ground (arith, is_kept)

others-IsIn :
    (point : Json) (g : String) (rows kept : List Json) (times : List String)
    → subscript point "generatedAt" ≡ ok (str g)
    → map_m check_point rows ≡ ok times
    → filter_m (is_other point) rows ≡ ok kept
    → (z : Json)
    → (IsIn z kept → IsIn z rows × ¬ (IsAt g z)) × (IsIn z rows → ¬ (IsAt g z) → IsIn z kept)
unfolding filter_m map_m
others-IsIn point g [] kept times at h k z =
    rw (← (ok-injective k)) (λ q. absurd q, λ q _. absurd q)
others-IsIn point g (row ∷ rows) kept times at h k z =
    let (t, ts, own, rest, split) = map_m-cons check_point row rows h in
    through (is_other point row) _ k λ keep kept₁ k₁.
      through (filter_m (is_other point) rows) _ k₁ λ later filtered k₂.
        let (inside, back) = others-IsIn point g rows later ts at rest filtered z in
        let is_kept = other_time point g row t at own keep kept₁ in
        let own_at = subscript-eq-ok row "generatedAt" (check_point-time row own) in
        subst
          (λ l.
            (IsIn z l → IsIn z (row ∷ rows) × ¬ (IsAt g z))
            × (IsIn z (row ∷ rows) → ¬ (IsAt g z) → IsIn z l))
          (ok-injective k₂) (kept_step g t row rows later z keep own_at is_kept inside back)

-- the point has the times, the versions and the summary of the artifact
abbrev pub IsPointOf : Json → Json → Type 0
IsPointOf artifact point =
    All (λ name. member point name ≡ some (get_or (member artifact name) null))
      ("generatedAt" ∷ "frameworkVersion" ∷ "qVersion" ∷ "summary" ∷ [])

pub point_of-IsPointOf :
    (artifact : Json) (point : Json) → point_of artifact ≡ ok point → IsPointOf artifact point
unfolding point_of lookup entries of_entries
point_of-IsPointOf artifact point h = through (get artifact "generatedAt" null) _ h λ g is_g h₁.
    through (get artifact "frameworkVersion" null) _ h₁ λ f is_f h₂.
      through (get artifact "qVersion" null) _ h₂ λ q is_q h₃.
        through (get artifact "summary" null) _ h₃ λ s is_s h₄.
          through (validate_summary s) _ h₄ λ s' valid h₅.
            past
              (not
                (is_some (nonempty_str g) && is_some (nonempty_str f) && is_some (nonempty_str q)))
              _ _ h₅
              λ _ h₆. rw (← (ok-injective h₆)) (
                (
                  ap some (get-eq-ok artifact "generatedAt" null is_g),
                  (
                    ap some (get-eq-ok artifact "frameworkVersion" null is_f),
                    (
                      ap some (get-eq-ok artifact "qVersion" null is_q),
                      (
                        ap some (
                            sym (validate_summary-same s valid)
                            ∙ get-eq-ok artifact "summary" null is_s),
                        tt,
                      ),
                    ),
                  ),
                ))

-- the points of the trend that there is, if there is one
abbrev pub HasPoints : Option Json → List Json → Type 0
HasPoints none rows = rows ≡ []
HasPoints (some trend) rows =
    (points : Json) × (member trend "points" ≡ some points) × (iterate points ≡ ok rows)

pub previous_points-HasPoints :
    (existing : Option Json) {rows : List Json}
    → previous_points existing ≡ ok rows
    → HasPoints existing rows
unfolding previous_points
previous_points-HasPoints none h = sym (ok-injective h)
previous_points-HasPoints (some existing) h =
    through (validate_trend existing) _ h λ previous valid h₁.
      through (subscript previous "points") _ h₁ λ points at h₂.
        let (_, _, _, same, _, _, _, _) = validate_trend-times existing valid in
        (points, ap (λ d. member d "points") same ∙ subscript-eq-ok previous "points" at, h₂)

-- The points of `all` are the new point and those of `old` that have another time.
abbrev pub IsOrigin : String → Json → List Json → List Json → Type 0
IsOrigin g point old all =
    (row : Json)
    → (IsIn row all → (row ≡ point) ⊎ (IsIn row old × ¬ (IsAt g row)))
      × ((row ≡ point) ⊎ (IsIn row old × ¬ (IsAt g row)) → IsIn row all)

IsIn-append :
    (x y : Json) (xs : List Json)
    → (IsIn x (xs ++ y ∷ []) → (x ≡ y) ⊎ IsIn x xs) × ((x ≡ y) ⊎ IsIn x xs → IsIn x (xs ++ y ∷ []))
IsIn-append x y [] = (
  λ q. elim q [ inl e ↦ inl e | inr w ↦ absurd w ],
  λ q. elim q [ inl e ↦ inl e | inr w ↦ absurd w ],
)
IsIn-append x y (z ∷ zs) =
    let (to, from) = IsIn-append x y zs in
    (
      λ q. elim q [
        | inl e ↦ inr (inl e)
        | inr w ↦ elim (to w) [ inl e ↦ inl e | inr v ↦ inr (inr v) ]
      ],
      λ q. elim q [
        | inl e ↦ inr (from (inl e))
        | inr w ↦ elim w [ inl e ↦ inl e | inr v ↦ inr (from (inr v)) ]
      ],
    )

pub sort_points-IsOrigin :
    (point : Json) (g : String) (rows others sorted : List Json) (times : List String)
    → subscript point "generatedAt" ≡ ok (str g)
    → map_m check_point rows ≡ ok times
    → filter_m (is_other point) rows ≡ ok others
    → sort_points (others ++ point ∷ []) ≡ ok sorted
    → IsOrigin g point rows sorted
sort_points-IsOrigin point g rows others sorted times at checked kept in_order row =
    let same = sort_points-SameRows (others ++ point ∷ []) sorted in_order row in
    let (to, from) = IsIn-append row point others in
    let (inside, back) = others-IsIn point g rows others times at checked kept row in
    (
      λ q. elim (to (same.1 q)) [ inl e ↦ inl e | inr w ↦ inr (inside w) ],
      λ q. elim q [ inl e ↦ same.0 (from (inl e)) | inr w ↦ same.0 (from (inr (back w.0 w.1))) ],
    )
