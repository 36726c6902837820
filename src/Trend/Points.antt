-- ===== src/Trend/Points.antt =====
-- What the steps of `append_point` do to the times of the points.
use mathlib.Core.Path.{subst}
use resq.Base.{
  string_eq, list_eq, eq_iff, String, Bool, true, false, not, ◌&&◌, ◌||◌, List, [], ◌∷◌, map, ◌==◌,
  if◌then◌else◌, ◌≡◌, refl, sym, ap, ◌∙◌, arith, contains, distinct, eq_true_of_not, Bool-cases,
  inl, inr, str_le, nat_eq, length, to_set, length-to_set_iff, or_false,
}
use resq.Base.Sorting.{insort, sort}
use resq.Py.Value.{Json, null, str}
use resq.Py.Result.{ok, ok-injective, through, past}
use resq.Py.Access.{text_of, get, subscript, iterate, is_dict, is_list}
use resq.Py.Equal.{py_eq}
use resq.Py.Hash.{Atom, text, hashed}
use resq.Py.Order.{less, insort_m, sort_m}
use resq.Py.Loops.{each, map_m, map_m-cons, filter_m, Pointwise}
use resq.Trend.{
  identity_fields, check_field, validate_summary, check_point, check_contract, validate_trend,
  is_other, by_time, sort_points,
}

text_of-eq-ok : (x : Json) {t : String} → text_of x ≡ ok t → x ≡ str t
unfolding text_of
text_of-eq-ok (str s) h = ap str (ok-injective h)
text_of-eq-ok null h = cc
text_of-eq-ok _ h = cc

pub check_point-time :
    (row : Json) {t : String} → check_point row ≡ ok t → subscript row "generatedAt" ≡ ok (str t)
unfolding check_point
check_point-time row h = past (not (is_dict row)) _ _ h λ _ h₁.
    through (each (check_field row) identity_fields) _ h₁ λ _ _ h₂.
      through (get row "summary" null) _ h₂ λ summary _ h₃.
        through (validate_summary summary) _ h₃ λ _ _ h₄.
          through (subscript row "generatedAt") _ h₄
            λ generated_at at h₅. at ∙ ap ok (text_of-eq-ok generated_at h₅)

-- The points of a valid trend have distinct times.
pub validate_trend-times :
    (document : Json) {document' : Json}
    → validate_trend document ≡ ok document'
    → (points : Json) × (rows : List Json) × (times : List String) × (document ≡ document')
      × (get document "points" null ≡ ok points)
      × (iterate points ≡ ok rows)
      × (map_m check_point rows ≡ ok times)
      × (distinct times ≡ true)
unfolding validate_trend
validate_trend-times document h = past (not (is_dict document)) _ _ h λ _ h₁.
    through (check_contract document) _ h₁ λ _ _ h₂.
      through (get document "points" null) _ h₂ λ points got h₃.
        past (not (is_list points)) _ _ h₃ λ _ h₄. through (iterate points) _ h₄ λ rows iterated h₅.
          through (map_m check_point rows) _ h₅ λ times checked h₆.
            past
              (not (times == sort str_le times)
                || not (nat_eq (length times) (length (to_set times))))
              _ _ h₆
              λ fine h₇. (
                points,
                rows,
                times,
                ok-injective h₇,
                got,
                iterated,
                checked,
                sym (length-to_set_iff times)
                    ∙ eq_true_of_not _ (or_false (not (times == sort str_le times)) _ fine).1,
              )

pub other_time :
    (point : Json) (g : String) (row : Json) (t : String)
    → subscript point "generatedAt" ≡ ok (str g)
    → check_point row ≡ ok t
    → (keep : Bool) → is_other point row ≡ ok keep
    → keep ≡ not (t == g)
unfolding is_other py_eq
other_time point g row t at own keep h = sym (ok-injective (rw (check_point-time row own, at) at h))

kept_times :
    (g : String) (row : Json) (t : String) (ts : List String) (later : List Json)
    (ts' : List String) (keep : Bool)
    → check_point row ≡ ok t
    → keep ≡ not (t == g)
    → map_m check_point later ≡ ok ts'
    → ((k : String) → contains k ts' ≡ (contains k ts && not (k == g)))
    → (distinct ts ≡ true → distinct ts' ≡ true)
    → (times' : List String) × (map_m check_point (if keep then row ∷ later else later) ≡ ok times')
      × ((k : String) → contains k times' ≡ (contains k (t ∷ ts) && not (k == g)))
      × (distinct (t ∷ ts) ≡ true → distinct times' ≡ true)
unfolding map_m contains distinct
kept_times g row t ts later ts' true own is_kept of_later has once = (
  t ∷ ts',
  rw (own, of_later) refl,
  λ k. ground (arith, has k, eq_iff t k, is_kept),
  λ q. ground (arith, has t, once, q),
)
kept_times g row t ts later ts' false own is_kept of_later has once = (
  ts',
  of_later,
  λ k. ground (arith, has k, eq_iff t k, eq_iff t g, eq_iff k g, is_kept),
  λ q. ground (arith, once, q),
)

-- What is kept beside a new point has the other times.
pub others-times :
    (point : Json) (g : String) (rows kept : List Json) (times : List String)
    → subscript point "generatedAt" ≡ ok (str g)
    → map_m check_point rows ≡ ok times
    → filter_m (is_other point) rows ≡ ok kept
    → (times' : List String) × (map_m check_point kept ≡ ok times')
      × ((k : String) → contains k times' ≡ (contains k times && not (k == g)))
      × (distinct times ≡ true → distinct times' ≡ true)
unfolding map_m filter_m contains distinct
others-times point g [] kept times at h k =
    rw (← (ok-injective k), ← (ok-injective h)) ([], refl, λ i. refl, λ q. q)
others-times point g (row ∷ rows) kept times at h k =
    let (t, ts, own, rest, split) = map_m-cons check_point row rows h in
    through (is_other point row) _ k λ keep kept₁ k₁.
      through (filter_m (is_other point) rows) _ k₁ λ later filtered k₂.
        let (ts', of_later, has, once) = others-times point g rows later ts at rest filtered in
        let is_kept = other_time point g row t at own keep kept₁ in
        rw (← split) (
          subst
            (λ r.
              (times' : List String) × (map_m check_point r ≡ ok times')
              × ((k : String) → contains k times' ≡ (contains k (t ∷ ts) && not (k == g)))
              × (distinct (t ∷ ts) ≡ true → distinct times' ≡ true))
            (ok-injective k₂) (kept_times g row t ts later ts' keep own is_kept of_later has once))

-- A pair that is to be sorted: the key of its time, and the point.
IsTimed : Atom × Json → String → Type 0
IsTimed pair t = (pair.0 ≡ text t) × (check_point pair.1 ≡ ok t)

by_time-IsTimed :
    (rows : List Json) (times : List String) (keyed : List (Atom × Json))
    → map_m check_point rows ≡ ok times
    → map_m by_time rows ≡ ok keyed
    → Pointwise IsTimed keyed times
unfolding map_m by_time IsTimed hashed
by_time-IsTimed [] times keyed h k = rw (← (ok-injective k), ← (ok-injective h)) tt
by_time-IsTimed (row ∷ rows) times keyed h k =
    let (t, ts, own, rest, split) = map_m-cons check_point row rows h in
    let (pair, pairs, made, rest', split') = map_m-cons by_time row rows k in
    let is_pair = ok-injective (rw (check_point-time row own) at made) in
    rw (← split, ← split', ← is_pair) ((refl, own), by_time-IsTimed rows ts pairs rest rest')

less-timed :
    (p q : Atom × Json) (s t : String)
    → IsTimed p s
    → IsTimed q t
    → less p.0 q.0 ≡ ok (not (str_le t s))
unfolding IsTimed less
less-timed p q s t h k = rw (h.0, k.0) refl

insort_m-IsTimed :
    (pair : Atom × Json) (t : String) (pairs : List (Atom × Json)) (ts : List String)
    (zs : List (Atom × Json))
    → IsTimed pair t
    → Pointwise IsTimed pairs ts
    → insort_m (λ a b. less a.0 b.0) pair pairs ≡ ok zs
    → Pointwise IsTimed zs (insort str_le t ts)
unfolding insort_m insort
insort_m-IsTimed pair t [] [] zs own h k = rw (← (ok-injective k)) (own, tt)
insort_m-IsTimed pair t [] (s ∷ ts) zs own h k = absurd h
insort_m-IsTimed pair t (p ∷ pairs) [] zs own h k = absurd h
insort_m-IsTimed pair t (p ∷ pairs) (s ∷ ts) zs own h k =
    let k₁ = rw (less-timed p pair s t h.0 own) at k in
    elim (Bool-cases (str_le t s)) [
      | inl b ↦ rw b (rw (← (ok-injective (rw b at k₁))) (own, h))
      | inr b ↦
          let k₂ = rw b at k₁ in
          through (insort_m (λ a b. less a.0 b.0) pair pairs) _ k₂ λ rest step k₃.
            rw b
              (rw (← (ok-injective k₃)) (h.0, insort_m-IsTimed pair t pairs ts rest own h.1 step))
    ]

sort_m-IsTimed :
    (pairs : List (Atom × Json)) (ts : List String) (zs : List (Atom × Json))
    → Pointwise IsTimed pairs ts
    → sort_m (λ a b. less a.0 b.0) pairs ≡ ok zs
    → Pointwise IsTimed zs (sort str_le ts)
unfolding sort_m sort
sort_m-IsTimed [] [] zs h k = rw (← (ok-injective k)) tt
sort_m-IsTimed [] (s ∷ ts) zs h k = absurd h
sort_m-IsTimed (p ∷ pairs) [] zs h k = absurd h
sort_m-IsTimed (p ∷ pairs) (s ∷ ts) zs h k =
    through (sort_m (λ a b. less a.0 b.0) pairs) _ k λ rest sorted k₁.
      insort_m-IsTimed p s rest (sort str_le ts) zs h.0 (sort_m-IsTimed pairs ts rest h.1 sorted) k₁

timed-points :
    (pairs : List (Atom × Json)) (ts : List String)
    → Pointwise IsTimed pairs ts
    → map_m check_point (map (λ (pair : Atom × Json). pair.1) pairs) ≡ ok ts
unfolding map_m IsTimed
timed-points [] [] h = refl
timed-points [] (s ∷ ts) h = absurd h
timed-points (p ∷ pairs) [] h = absurd h
timed-points (p ∷ pairs) (s ∷ ts) h = rw (h.0.1, timed-points pairs ts h.1) refl

-- Sorting the points sorts their times.
pub sort_points-times :
    (rows sorted : List Json) (times : List String)
    → map_m check_point rows ≡ ok times
    → sort_points rows ≡ ok sorted
    → map_m check_point sorted ≡ ok (sort str_le times)
unfolding sort_points
sort_points-times rows sorted times h k = through (map_m by_time rows) _ k λ keyed made k₁.
    through (sort_m (λ a b. less a.0 b.0) keyed) _ k₁ λ pairs in_order k₂.
      rw (← (ok-injective k₂)) (
        timed-points pairs (sort str_le times)
          (sort_m-IsTimed keyed times pairs (by_time-IsTimed rows times keyed h made) in_order))
