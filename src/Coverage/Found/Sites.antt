-- ===== src/Coverage/Found/Sites.antt =====
-- tools/coverage_contract.py: what validate_site and the loops over lines read.
use resq.Base.{
  string_eq, number_eq, list_eq, either_not, eq_true_of_not, String, Bool, true, not, ◌&&◌, ◌||◌,
  List, [], ◌∷◌, ◌++◌, some, ◌≡◌, refl, sym, ap, ◌∙◌, ltb, nat_eq, length, distinct, contains,
  eq_iff, if◌then◌else◌, nat_eq_iff,
}
use resq.Py.Value.{Json, null, bool, str}
use resq.Py.Result.{ok, err, value_error, through, past, ok-injective, err-ne-ok}
use resq.Py.Access.{subscript, is_list, iterate, text_of}
use resq.Py.Equal.{is_text, is_nat}
use resq.Py.Fields.{member, rows_of, subscript-eq-ok}
use resq.Py.Checks.{is_one_of}
use resq.Py.Loops.{map_m, map_m-Pointwise, length-map_m, Pointwise}
use resq.Py.Rows.{rows_of-list, fold_m-rows}
use resq.Coverage.{require, count_at, flag_at, fallbacks}
use resq.Coverage.Reads.{flag_at-eq-ok, require-same}
use resq.Coverage.Edges.{validate_hit_record-IsHit}
use resq.Coverage.Sites.{
  Edge, Site, statement, branch, validate_hit_record, validate_edge, validate_edges, edge_indices,
  edge_ids, hit_edges, is_sorted_pair, validate_common, validate_branch, validate_statement,
  validate_kind, validate_site, identity, is_edge_id, is_site_id, edge_index, edge_label,
}
use resq.Coverage.Functions.{Line, add_line, lines_of, validate_lines, string_at}
use resq.Coverage.Found.{LineFound, EdgeFound, StatementFound, BranchFound}

identity-eq-ok : (form : String → Bool) (x : Json) {s : String} → identity form x ≡ ok s → x ≡ str s
unfolding identity
identity-eq-ok form (str t) h = past (not (form t)) _ _ h λ _ h₁. ap str (ok-injective h₁)
identity-eq-ok form null h = absurd (err-ne-ok h)
identity-eq-ok form _ h = absurd (err-ne-ok h)

is_text-eq : (x : Json) (t : String) → is_text x t ≡ true → x ≡ str t
unfolding is_text
is_text-eq (str s) t h = ap str ((eq_iff s t).0 h)
is_text-eq null t h = cc
is_text-eq _ t h = cc

as_text :
    (m : Json) {s : String}
    → elim (text_of m) [ err e ↦ err (value_error "expected string") | ok s ↦ ok s ] ≡ ok s
    → m ≡ str s
unfolding text_of
as_text (str t) h = ap str (ok-injective h)
as_text null h = absurd (err-ne-ok h)
as_text _ h = absurd (err-ne-ok h)

pub string_at-eq-ok :
    (x : Json) (k : String) {s : String} → string_at x k ≡ ok s → member x k ≡ some (str s)
unfolding string_at
string_at-eq-ok x k h =
    through (subscript x k) _ h λ m e h₁. subscript-eq-ok x k e ∙ ap some (as_text m h₁)

add_line-LineFound :
    (seen : List Line) (x : Json) (after : List Line)
    → add_line seen x ≡ ok after
    → (line : Line) × (after ≡ seen ++ line ∷ []) × LineFound x line
unfolding add_line
add_line-LineFound seen x after h =
    through (require x ("line" ∷ "hits" ∷ "covered" ∷ [])) _ h λ item same h₁.
      through (count_at item "line") _ h₁ λ line _ h₂.
        past (contains line (lines_of seen)) _ _ h₂ λ _ h₃.
          through (validate_hit_record item) _ h₃ λ hits at h₄.
            rw (require-same x _ same)
              (_, sym (ok-injective h₄), record { hits = (validate_hit_record-IsHit item at).0 })

pub validate_lines-LineFound :
    (x : Json) {lines : List Line}
    → validate_lines x ≡ ok lines
    → Pointwise LineFound (rows_of (some x)) lines
unfolding validate_lines
validate_lines-LineFound x h = past (not (is_list x)) _ _ h λ l h₁.
    through (iterate x) _ h₁ λ rows i h₂.
      rw (rows_of-list x (eq_true_of_not _ l) i)
        (fold_m-rows LineFound add_line add_line-LineFound rows _ h₂)

validate_edge-EdgeFound :
    (instrumented : Bool) (x : Json) (edge : Edge)
    → validate_edge instrumented x ≡ ok edge
    → EdgeFound x edge
unfolding validate_edge
validate_edge-EdgeFound instrumented x edge h = through (require x _) _ h λ item same h₁.
    through (subscript item "edgeId") _ h₁ λ id at_id h₂.
      through (identity is_edge_id id) _ h₂ λ edge_id is_id h₃.
        through (subscript item "index") _ h₃ λ position _ h₄.
          through (edge_index position) _ h₄ λ index _ h₅.
            through (subscript item "label") _ h₅ λ label at_label h₆.
              through (is_one_of label ("true" ∷ "false" ∷ [])) _ h₆ λ known _ h₇.
                past (not known) _ _ h₇ λ _ h₈.
                  past (not (is_text label (edge_label index))) _ _ h₈ λ named h₉.
                    through (validate_hit_record item) _ h₉ λ hits hit h₁₀.
                      past (not instrumented && ltb 0 hits) _ _ h₁₀ λ _ h₁₁.
                        through (text_of label) _ h₁₁ λ name _ h₁₂.
                          rw (require-same x _ same, ← (ok-injective h₁₂))
                            (record {
                              id =
                                  subscript-eq-ok item "edgeId" at_id
                                  ∙ ap some (identity-eq-ok is_edge_id id is_id);
                              label =
                                  subscript-eq-ok item "label" at_label
                                  ∙ ap some (
                                      is_text-eq label (edge_label index) (eq_true_of_not _ named));
                              hits = (validate_hit_record-IsHit item hit).0;
                            })

validate_edges-Found :
    (value : Json) (instrumented : Bool) {edges : List Edge}
    → validate_edges value instrumented ≡ ok edges
    → Pointwise EdgeFound (rows_of (member value "edges")) edges × (length edges ≡ 2)
unfolding validate_edges
validate_edges-Found value instrumented h = through (subscript value "edges") _ h λ m at h₁.
    past (not (is_list m)) _ _ h₁ λ l h₂. through (iterate m) _ h₂ λ rows i h₃.
      past (not (nat_eq (length rows) 2)) _ _ h₃ λ two h₄.
        through (map_m (validate_edge instrumented) rows) _ h₄ λ edges e h₅.
          past (not (is_sorted_pair (edge_indices edges)) || not (distinct (edge_ids edges))) _ _ h₅
            λ _ h₆.
              rw
                (
                  subscript-eq-ok value "edges" at,
                  rows_of-list m (eq_true_of_not _ l) i,
                  ← (ok-injective h₆),
                )
                (
                  map_m-Pointwise EdgeFound (validate_edge instrumented)
                      (validate_edge-EdgeFound instrumented) rows edges e,
                  length-map_m (validate_edge instrumented) rows edges e
                      ∙ (nat_eq_iff (length rows) 2).0 (eq_true_of_not _ two),
                )

-- what is common to the sites, as `validate_common` returns it
abbrev IsCommon : Json → String → Bool → Bool → Type 0
IsCommon row id eligible instrumented =
    (member row "siteId" ≡ some (str id))
    × (member row "eligible" ≡ some (bool eligible))
    × (member row "instrumented" ≡ some (bool instrumented))

validate_common-IsCommon :
    (value : Json) {id : String} {eligible instrumented : Bool}
    → validate_common value ≡ ok (id, (eligible, instrumented))
    → IsCommon value id eligible instrumented
unfolding validate_common
validate_common-IsCommon value h = through (subscript value "siteId") _ h λ id at h₁.
    through (identity is_site_id id) _ h₁ λ site is_id h₂.
      through (count_at value "line") _ h₂ λ _ _ h₃.
        through (count_at value "column") _ h₃ λ _ _ h₄.
          through (count_at value "lambdaDepth") _ h₄ λ _ _ h₅.
            through (flag_at value "anonymous") _ h₅ λ _ _ h₆.
              through (flag_at value "eligible") _ h₆ λ e at_e h₇.
                through (flag_at value "instrumented") _ h₇ λ i at_i h₈.
                  through (subscript value "fallbackReason") _ h₈ λ reason _ h₉.
                    through (is_one_of reason fallbacks) _ h₉ λ known _ h₁₀.
                      past (not known) _ _ h₁₀ λ _ h₁₁. past (i && not e) _ _ h₁₁ λ _ h₁₂.
                        let same = ok-injective h₁₂ in
                        rw
                          (
                            ← (ap (λ t. t.0) same),
                            ← (ap (λ t. t.1.0) same),
                            ← (ap (λ t. t.1.1) same),
                          )
                          (
                            subscript-eq-ok value "siteId" at
                                ∙ ap some (identity-eq-ok is_site_id id is_id),
                            flag_at-eq-ok value "eligible" at_e,
                            flag_at-eq-ok value "instrumented" at_i,
                          )

validate_statement-Found :
    (value : Json) (id : String) (eligible instrumented : Bool) (site : Site)
    → IsCommon value id eligible instrumented
    → validate_statement value id eligible instrumented ≡ ok site
    → StatementFound value site
unfolding validate_statement
validate_statement-Found value id eligible instrumented site (a, b, c) h =
    through (validate_hit_record value) _ h λ hits hit h₁.
      past (not instrumented && ltb 0 hits) _ _ h₁ λ _ h₂. rw (← (ok-injective h₂)) (record {
        common = record { id = a; eligible = b; instrumented = c };
        hits = (validate_hit_record-IsHit value hit).0;
      })

-- the aggregates that a branch states are those of its edges
abbrev pub IsAggregate : Json → Site → Type 0
IsAggregate row site =
    (found : Json) × (hit : Json) × (member row "edgesFound" ≡ some found)
    × (member row "edgesHit" ≡ some hit)
    × (is_nat found site.edges_found ≡ true)
    × (is_nat hit site.edges_hit ≡ true)

validate_branch-Found :
    (value : Json) (id : String) (eligible instrumented : Bool) (site : Site)
    → IsCommon value id eligible instrumented
    → validate_branch value id eligible instrumented ≡ ok site
    → BranchFound value site × IsAggregate value site
unfolding validate_branch
validate_branch-Found value id eligible instrumented site (a, b, c) h =
    through (subscript value "kind") _ h λ form _ h₁.
      through (is_one_of form ("if" ∷ "while" ∷ "$" ∷ "conditional" ∷ [])) _ h₁ λ known _ h₂.
        past (not known) _ _ h₂ λ _ h₃. through (count_at value "conditionIndex") _ h₃ λ _ _ h₄.
          through (count_at value "block") _ h₄ λ _ _ h₅.
            through (validate_edges value instrumented) _ h₅ λ edges e h₆.
              through (subscript value "edgesFound") _ h₆ λ fv at_f h₇.
                through (subscript value "edgesHit") _ h₇ λ hv at_h h₈.
                  past
                    (not (is_nat fv (if eligible then 2 else 0))
                      || not (is_nat hv (if eligible then hit_edges edges else 0)))
                    _ _ h₈
                    λ stated h₉.
                      let (f, k) =
                        either_not (is_nat fv (if eligible then 2 else 0))
                          (is_nat hv (if eligible then hit_edges edges else 0)) stated in
                      let (own, two) = validate_edges-Found value instrumented e in
                      rw (← (ok-injective h₉)) (
                        record {
                          common = record { id = a; eligible = b; instrumented = c };
                          edges = own;
                          two = two;
                          found = refl;
                          hit = refl;
                        },
                        (
                          fv,
                          hv,
                          subscript-eq-ok value "edgesFound" at_f,
                          subscript-eq-ok value "edgesHit" at_h,
                          f,
                          k,
                        ),
                      )

pub validate_site-StatementFound :
    (x : Json) (site : Site) → validate_site statement x ≡ ok site → StatementFound x site
unfolding validate_site validate_kind
validate_site-StatementFound x site h = through (require x _) _ h λ value same h₁.
    through (validate_common value) _ h₁ λ (id, (eligible, instrumented)) common h₂.
      rw (require-same x _ same) (
        validate_statement-Found value id eligible instrumented site
          (validate_common-IsCommon value common) h₂)

pub validate_site-BranchFound :
    (x : Json) (site : Site)
    → validate_site branch x ≡ ok site
    → BranchFound x site × IsAggregate x site
unfolding validate_site validate_kind
validate_site-BranchFound x site h = through (require x _) _ h λ value same h₁.
    through (validate_common value) _ h₁ λ (id, (eligible, instrumented)) common h₂.
      rw (require-same x _ same) (
        validate_branch-Found value id eligible instrumented site
          (validate_common-IsCommon value common) h₂)
