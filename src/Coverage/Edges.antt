-- ===== src/Coverage/Edges.antt =====
-- What rows of hits and sites are that validate_hit_record and validate_site accept.
use resq.Base.{
  same_bool, either_not, implied, eq_true_of_not, string_eq, number_eq, list_eq, list_beq_iff, ℕ,
  ◌≤◌, String, Bool, true, false, not, ◌&&◌, ◌||◌, List, [], ◌∷◌, All, some, ◌≡◌, ◌↔◌, refl, ap,
  ◌∙◌, arith, ltb, leb, nat_eq, bool_eq, if◌then◌else◌, distinct, length, nat_eq_iff,
}
use resq.Base.Sorting.{sort}
use resq.Py.Value.{Json, null, nat, bool, obj, entries}
use resq.Py.Result.{ok, through, past, ok-injective}
use resq.Py.Dict.{Dict, lookup, keys, contains-keys}
use resq.Py.Access.{subscript, is_list, iterate, text_of}
use resq.Py.Equal.{is_text, is_nat}
use resq.Py.Fields.{member}
use resq.Py.Checks.{has_all, as_count, is_one_of}
use resq.Py.Loops.{map_m, map_m-All, length-map_m}
use resq.Coverage.{require, count_at, flag_at, nonnegative_int, boolean, fallbacks}
use resq.Coverage.Reads.{count_at-eq-ok, flag_at-eq-ok, require-same}
use resq.Coverage.Sites.{
  Edge, Site, branch, validate_hit_record, validate_edge, validate_edges, edge_indices, edge_ids,
  hit_edges, is_sorted_pair, validate_common, validate_branch, validate_kind, validate_site,
  identity, is_edge_id, is_site_id, edge_index, edge_label,
}

-- a row with a count of hits that is covered if and only if there are any
abbrev pub IsHit : Json → ℕ → Type 0
IsHit row hits =
    (member row "hits" ≡ some (nat hits)) × (member row "covered" ≡ some (bool (ltb 0 hits)))

pub validate_hit_record-IsHit :
    (row : Json) {hits : ℕ} → validate_hit_record row ≡ ok hits → IsHit row hits
unfolding validate_hit_record
validate_hit_record-IsHit row h = through (require row _) _ h λ value same h₁.
    through (count_at value "hits") _ h₁ λ hits a h₂.
      through (flag_at value "covered") _ h₂ λ covered b h₃.
        past (not (bool_eq covered (ltb 0 hits))) _ _ h₃ λ agree h₄. rw (require-same row _ same) (
          rw (← (ok-injective h₄)) (
            count_at-eq-ok value "hits" a,
            flag_at-eq-ok value "covered" b ∙ ap (λ t. some (bool t)) (same_bool covered _ agree),
          ))

reflexive : (b : Bool) → not (bool_eq b b) ≡ false
reflexive b = ground arith

has_both :
    (d : Dict String Json) (a b : String) {v w : Json}
    → lookup a d ≡ some v
    → lookup b d ≡ some w
    → has_all (a ∷ b ∷ []) (keys d) ≡ true
unfolding has_all
has_both d a b h k = rw (contains-keys a d, contains-keys b d, h, k) refl

-- The other way round: such a row of hits is accepted.
validate_hit_record_accepts :
    (row : Json) (hits : ℕ) → IsHit row hits → validate_hit_record row ≡ ok hits
unfolding validate_hit_record require count_at flag_at subscript nonnegative_int boolean as_count
validate_hit_record_accepts (obj fs) hits (a, b) =
    rw (has_both (entries fs) "hits" "covered" a b, a, b) (rw (reflexive (ltb 0 hits)) refl)
validate_hit_record_accepts null hits (a, b) = cc
validate_hit_record_accepts _ hits (a, b) = cc

-- validate_hit_record returns a number of hits if and only if the row has that count of hits
-- and is covered exactly if it is not 0.
pub validate_hit_record_iff :
    (row : Json) (hits : ℕ) → (validate_hit_record row ≡ ok hits) ↔ IsHit row hits
validate_hit_record_iff row hits =
    (validate_hit_record-IsHit row, validate_hit_record_accepts row hits)

-- An uninstrumented site has no hits on an edge.
abbrev pub IsMeasured : Bool → Edge → Type 0
IsMeasured instrumented edge = instrumented ≡ false → edge.hits ≡ 0

no_hits :
    (instrumented : Bool) (hits : ℕ)
    → (not instrumented && ltb 0 hits) ≡ false
    → instrumented ≡ false
    → hits ≡ 0
no_hits instrumented hits h off = ground arith

validate_edge-IsMeasured :
    (instrumented : Bool) (x : Json) (edge : Edge)
    → validate_edge instrumented x ≡ ok edge
    → IsMeasured instrumented edge
unfolding validate_edge
validate_edge-IsMeasured instrumented x edge h = through (require x _) _ h λ item _ h₁.
    through (subscript item "edgeId") _ h₁ λ id _ h₂.
      through (identity is_edge_id id) _ h₂ λ edge_id _ h₃.
        through (subscript item "index") _ h₃ λ position _ h₄.
          through (edge_index position) _ h₄ λ index _ h₅.
            through (subscript item "label") _ h₅ λ label _ h₆.
              through (is_one_of label ("true" ∷ "false" ∷ [])) _ h₆ λ known _ h₇.
                past (not known) _ _ h₇ λ _ h₈.
                  past (not (is_text label (edge_label index))) _ _ h₈ λ _ h₉.
                    through (validate_hit_record item) _ h₉ λ hits _ h₁₀.
                      past (not instrumented && ltb 0 hits) _ _ h₁₀ λ none_hit h₁₁.
                        through (text_of label) _ h₁₁ λ name _ h₁₂.
                          rw (← (ok-injective h₁₂)) (no_hits instrumented hits none_hit)

-- two edges, the true one and the false one, with identities of their own
abbrev pub TwoEdges : Bool → List Edge → Type 0
TwoEdges instrumented edges =
    (length edges ≡ 2)
    × (sort leb (edge_indices edges) ≡ 0 ∷ 1 ∷ [])
    × (distinct (edge_ids edges) ≡ true)
    × All (IsMeasured instrumented) edges

sorted_pair : (is : List ℕ) → is_sorted_pair is ≡ true → sort leb is ≡ 0 ∷ 1 ∷ []
unfolding is_sorted_pair
sorted_pair is h = (list_beq_iff (sort leb is) (0 ∷ 1 ∷ [])).0 h

validate_edges-TwoEdges :
    (value : Json) (instrumented : Bool) {edges : List Edge}
    → validate_edges value instrumented ≡ ok edges
    → TwoEdges instrumented edges
unfolding validate_edges
validate_edges-TwoEdges value instrumented h = through (subscript value "edges") _ h λ m _ h₁.
    past (not (is_list m)) _ _ h₁ λ _ h₂. through (iterate m) _ h₂ λ rows _ h₃.
      past (not (nat_eq (length rows) 2)) _ _ h₃ λ two h₄.
        through (map_m (validate_edge instrumented) rows) _ h₄ λ edges e h₅.
          past (not (is_sorted_pair (edge_indices edges)) || not (distinct (edge_ids edges))) _ _ h₅
            λ pair h₆.
              let (sorted, unique) =
                either_not (is_sorted_pair (edge_indices edges)) (distinct (edge_ids edges)) pair in
              rw (← (ok-injective h₆)) (
                length-map_m (validate_edge instrumented) rows edges e
                    ∙ (nat_eq_iff (length rows) 2).0 (eq_true_of_not _ two),
                sorted_pair (edge_indices edges) sorted,
                unique,
                map_m-All (IsMeasured instrumented) (validate_edge instrumented)
                    (validate_edge-IsMeasured instrumented) rows edges e,
              )

hit_edges-le : (edges : List Edge) → hit_edges edges ≤ length edges
unfolding hit_edges
hit_edges-le [] = omega arith
hit_edges-le (edge ∷ edges) = ground (arith, hit_edges-le edges)

-- what the checks of a branch have established of the site that they read
abbrev pub BranchParts : Site → Type 0
BranchParts site =
    TwoEdges (site.instrumented) (site.edges)
    × (site.instrumented ≡ true → site.eligible ≡ true)
    × (site.edges_found ≡ (if site.eligible then 2 else 0))
    × (site.edges_hit ≡ (if site.eligible then hit_edges (site.edges) else 0))
    × (site.edges_hit ≤ site.edges_found)

validate_common-implied :
    (value : Json) {id : String} {eligible instrumented : Bool}
    → validate_common value ≡ ok (id, (eligible, instrumented))
    → instrumented ≡ true
    → eligible ≡ true
unfolding validate_common
validate_common-implied value h = through (subscript value "siteId") _ h λ id _ h₁.
    through (identity is_site_id id) _ h₁ λ site _ h₂.
      through (count_at value "line") _ h₂ λ _ _ h₃.
        through (count_at value "column") _ h₃ λ _ _ h₄.
          through (count_at value "lambdaDepth") _ h₄ λ _ _ h₅.
            through (flag_at value "anonymous") _ h₅ λ _ _ h₆.
              through (flag_at value "eligible") _ h₆ λ e _ h₇.
                through (flag_at value "instrumented") _ h₇ λ i _ h₈.
                  through (subscript value "fallbackReason") _ h₈ λ reason _ h₉.
                    through (is_one_of reason fallbacks) _ h₉ λ known _ h₁₀.
                      past (not known) _ _ h₁₀ λ _ h₁₁. past (i && not e) _ _ h₁₁ λ allowed h₁₂.
                        let same = ap (λ t. t.1) (ok-injective h₁₂) in
                        rw (← (ap (λ t. t.0) same))
                          (rw (← (ap (λ t. t.1) same)) (implied i e allowed))

hits_le :
    (b : Bool) (edges : List Edge)
    → length edges ≡ 2
    → (if b then hit_edges edges else 0) ≤ (if b then 2 else 0)
hits_le true edges two = omega (arith, hit_edges-le edges, two)
hits_le false edges two = omega arith

validate_branch-BranchParts :
    (value : Json) (id : String) (eligible instrumented : Bool) {site : Site}
    → (instrumented ≡ true → eligible ≡ true)
    → validate_branch value id eligible instrumented ≡ ok site
    → BranchParts site
unfolding validate_branch
validate_branch-BranchParts value id eligible instrumented allowed h =
    through (subscript value "kind") _ h λ form _ h₁.
      through (is_one_of form ("if" ∷ "while" ∷ "$" ∷ "conditional" ∷ [])) _ h₁ λ known _ h₂.
        past (not known) _ _ h₂ λ _ h₃. through (count_at value "conditionIndex") _ h₃ λ _ _ h₄.
          through (count_at value "block") _ h₄ λ _ _ h₅.
            through (validate_edges value instrumented) _ h₅ λ edges e h₆.
              through (subscript value "edgesFound") _ h₆ λ f _ h₇.
                through (subscript value "edgesHit") _ h₇ λ g _ h₈.
                  past
                    (not (is_nat f (if eligible then 2 else 0))
                      || not (is_nat g (if eligible then hit_edges edges else 0)))
                    _ _ h₈
                    λ _ h₉.
                      let two = validate_edges-TwoEdges value instrumented e in
                      rw (← (ok-injective h₉))
                        (two, allowed, refl, refl, hits_le eligible edges (two.0))

pub validate_site-BranchParts :
    (x : Json) {site : Site} → validate_site branch x ≡ ok site → BranchParts site
unfolding validate_site validate_kind
validate_site-BranchParts x h = through (require x _) _ h λ value _ h₁.
    through (validate_common value) _ h₁ λ common c h₂.
      validate_branch-BranchParts value (common.0) (common.1.0) (common.1.1)
        (validate_common-implied value c) h₂
