-- ===== src/Trend/Retention.antt =====
-- What `append_point` returns.
use resq.Base.{
  string_eq, list_eq, eq_iff, ℕ, String, true, false, not, ◌&&◌, ◌||◌, ◌-◌, List, [], ◌∷◌, ◌++◌,
  Option, some, ◌==◌, ◌≡◌, refl, sym, ap, ◌∙◌, arith, contains, distinct, distinct-append,
  distinct-drop, drop, length, str_le, str_le_total, str_le_trans, contains_nil, contains_cons,
  contains-append, ltb,
}
use resq.Base.Sorting.{sort, sort-IsSorted, IsSorted, contains-sort, IsSorted-drop, distinct-sort}
use resq.Py.Value.{int, pos, Json, null, str, nat, entries, of_entries, array, object}
use resq.Py.Result.{ok, ok-injective, through, past}
use resq.Py.Dict.{lookup}
use resq.Py.Access.{get}
use resq.Py.Fields.{member, subscript-eq-ok}
use resq.Py.Checks.{as_count}
use resq.Py.Loops.{
  map_m, Pointwise, map_m-Pointwise, map_m-append_one, length-map_m, map_m-drop, filter_m,
}
use resq.Trend.{
  valid_limit, is_bool_of, check_point, validate_trend, point_of, previous_points, is_other,
  sort_points, append_point,
}
use resq.Trend.Origin.{
  IsPointOf, HasPoints, IsAt, IsOrigin, point_of-IsPointOf, previous_points-HasPoints,
  sort_points-IsOrigin,
}
use resq.Trend.Points.{check_point-time, others-times, sort_points-times}
use resq.Trend.Validity.{point_of-time, previous_points-times, trend, validate_trend-trend}

valid_limit-eq-ok : (x : Json) {n : ℕ} → valid_limit (as_count x) ≡ ok n → x ≡ nat n
unfolding valid_limit as_count
valid_limit-eq-ok (int (pos m)) h =
    past (ltb m 1 || ltb 1000 m) _ _ h λ _ h₁. ap nat (ok-injective h₁)
valid_limit-eq-ok null h = cc
valid_limit-eq-ok _ h = cc

-- The points of `document` are the latest `n` of `all`, which are the times of `existing` and the
-- time of the artifact, each once, in order.
record Appended (artifact : Json) (existing : Option Json) (limit document : Json) : Type 0 where
  n : ℕ
  g : String
  old : List String
  all : List String
  point : Json
  previous : List Json
  sorted : List Json
  rows : List Json
  basis : Json
  is_limit : limit ≡ nat n
  is_trend : document ≡ trend basis limit rows
  is_new : get artifact "generatedAt" null ≡ ok (str g)
  is_point : IsPointOf artifact point
  has_points : HasPoints existing previous
  is_old : map_m check_point previous ≡ ok old
  is_latest : rows ≡ drop (length sorted - n) sorted
  all_checked : map_m check_point sorted ≡ ok all
  origin : IsOrigin g point previous sorted
  checked : map_m check_point rows ≡ ok (drop (length all - n) all)
  in_order : IsSorted str_le all
  once : distinct all ≡ true
  has : (k : String) → contains k all ≡ (contains k old || k == g)

has_all :
    (g k : String) (old others : List String)
    → ((i : String) → contains i others ≡ (contains i old && not (i == g)))
    → contains k (sort str_le (others ++ g ∷ [])) ≡ (contains k old || k == g)
has_all g k old others has = ground (
  arith,
  contains-sort str_le k (others ++ g ∷ []),
  contains-append k others (g ∷ []),
  has k,
  contains_cons k g [],
  contains_nil k,
  eq_iff k g,
  eq_iff g k,
)

append_point-Appended :
    (artifact : Json) (existing : Option Json) (limit : Json) {document : Json}
    → append_point artifact existing limit ≡ ok document
    → Appended artifact existing limit document
unfolding append_point
append_point-Appended artifact existing limit h =
    through (valid_limit (as_count limit)) _ h λ n limited h₁.
      through (get artifact "measurement" (object [])) _ h₁ λ measurement _ h₂.
        through (get measurement "complete" null) _ h₂ λ complete _ h₃.
          through (get measurement "gatingSupported" null) _ h₃ λ gating _ h₄.
            past (not (is_bool_of complete false) || not (is_bool_of gating false)) _ _ h₄ λ _ h₅.
              through (point_of artifact) _ h₅ λ p made h₆.
                through (previous_points existing) _ h₆ λ previous before h₇.
                  through (filter_m (is_other p) previous) _ h₇ λ others kept h₈.
                    through (sort_points (others ++ p ∷ [])) _ h₈ λ sorted in_order h₉.
                      through (get measurement "basis" (str "provider-defined partial measurement"))
                        _ h₉
                        λ basis _ h₁₀.
                          let (g, is_new, own) = point_of-time artifact made in
                          let (old, of_old, old_once) = previous_points-times existing before in
                          let (times, of_others, has, once) =
                            others-times p g previous others old (check_point-time p own) of_old
                              kept in
                          let of_sorted =
                            sort_points-times (others ++ p ∷ []) sorted (times ++ g ∷ [])
                              (map_m-append_one check_point others p of_others own) in_order in
                          let as_long =
                            length-map_m check_point sorted (sort str_le (times ++ g ∷ []))
                              of_sorted in
                          record {
                            n = n;
                            g = g;
                            old = old;
                            all = sort str_le (times ++ g ∷ []);
                            point = p;
                            previous = previous;
                            sorted = sorted;
                            rows = drop (length sorted - n) sorted;
                            basis = basis;
                            is_limit = valid_limit-eq-ok limit limited;
                            is_trend = sym (ok-injective h₁₀);
                            is_new = is_new;
                            is_point = point_of-IsPointOf artifact p made;
                            has_points = previous_points-HasPoints existing before;
                            is_old = of_old;
                            is_latest = refl;
                            all_checked = of_sorted;
                            origin =
                                sort_points-IsOrigin p g previous others sorted old
                                  (check_point-time p own) of_old kept in_order;
                            checked =
                                rw (as_long)
                                  (map_m-drop check_point (length sorted - n) sorted of_sorted);
                            in_order =
                                sort-IsSorted str_le str_le_total str_le_trans (times ++ g ∷ []);
                            once =
                                distinct-sort str_le (times ++ g ∷ [])
                                ∙ distinct-append times g (once old_once)
                                    (ground (arith, has g, eq_iff g g));
                            has = λ k. has_all g k old times has;
                          }

-- What append_point returns is accepted by validate_trend.
pub append_point-validate_trend :
    (artifact : Json) (existing : Option Json) (limit document : Json)
    → append_point artifact existing limit ≡ ok document
    → validate_trend document ≡ ok document
append_point-validate_trend artifact existing limit document h =
    let a = append_point-Appended artifact existing limit h in
    let cut = length a.all - a.n in
    rw a.is_trend (
      validate_trend-trend a.basis limit a.rows (drop cut a.all) a.checked
        (IsSorted-drop str_le cut a.all a.in_order) (distinct-drop cut a.all a.once))

-- If append_point returns, the points of the trend are the latest ones, as many as the limit
-- allows, of a list that is sorted by time, has no time twice, and consists of the point of
-- the artifact and the points of the existing trend that have another time.
pub append_point-latest :
    (artifact : Json) (existing : Option Json) (limit document : Json)
    → append_point artifact existing limit ≡ ok document
    → (n : ℕ) × (g : String) × (point : Json) × (previous : List Json) × (all : List Json)
      × (times : List String) × (limit ≡ nat n)
      × (get artifact "generatedAt" null ≡ ok (str g))
      × IsPointOf artifact point
      × HasPoints existing previous
      × (member document "points" ≡ some (array (drop (length all - n) all)))
      × (map_m check_point all ≡ ok times)
      × Pointwise (λ row t. IsAt t row) all times
      × IsSorted str_le times
      × (distinct times ≡ true)
      × IsOrigin g point previous all
unfolding lookup entries of_entries
append_point-latest artifact existing limit document h =
    let a = append_point-Appended artifact existing limit h in
    (
      a.n,
      a.g,
      a.point,
      a.previous,
      a.sorted,
      a.all,
      a.is_limit,
      a.is_new,
      a.is_point,
      a.has_points,
      rw (a.is_trend, a.is_latest) refl,
      a.all_checked,
      map_m-Pointwise (λ row t. IsAt t row) check_point
          (λ row t e. subscript-eq-ok row "generatedAt" (check_point-time row e)) a.sorted a.all
          a.all_checked,
      a.in_order,
      a.once,
      a.origin,
    )
