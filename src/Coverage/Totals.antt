-- ===== src/Coverage/Totals.antt =====
-- What the summary of a coverage artifact states that validate_coverage_artifact accepts.
use mathlib.Core.Path.{subst}
use resq.Base.{
  string_eq, ℕ, String, Bool, true, false, ◌&&◌, List, [], ◌∷◌, All, Option, some, ◌≡◌, refl, sym,
  ap, ◌∙◌, ltb, length, if◌then◌else◌,
}
use resq.Py.Value.{Json}
use resq.Py.Result.{ok}
use resq.Py.Fields.{member, rows_of}
use resq.Py.Loops.{Pointwise}
use resq.Py.Rows.{
  items_of, natural_of, natural_at, flag_of, is_set, number_of, total_of, length-Pointwise,
}
use resq.Py.Text.{Runtime}
use resq.Coverage.Sites.{Site}
use resq.Coverage.Functions.{
  is_line_hit, is_eligible, is_instrumented, is_eligible_hit, found_edges, hit_edges_of,
}
use resq.Coverage.Files.{File, is_function_hit, is_statement_instrumented}
use resq.Coverage.Contexts.{Context}
use resq.Coverage.Artifact.{
  aggregate, all_functions, all_lines, all_sites, all_branches, is_loaded, has_lines,
  is_function_eligible, is_function_instrumented, is_statement_eligible,
}
use resq.Coverage.References.{validate_coverage_artifact}
use resq.Coverage.Parts.{IsStated, each-IsStated, parts, files_found, lines_stated}
use resq.Coverage.Found.{LineFound, StatementFound, BranchFound, FunctionFound, FileFound}
use resq.Coverage.Found.Counts.{
  number_of-where, total_of-sum, hit_edges-number, functions_in, lines_in, sites_in, branches_in,
}

-- the row has hits
abbrev pub has_hits : Json → Bool
has_hits row = ltb 0 (natural_at row "hits")

-- the edges of an eligible branch, and those of them that have hits
abbrev pub edges_of : Json → ℕ
edges_of row = if is_set row "eligible" then length (rows_of (member row "edges")) else 0

abbrev pub hit_edges_at : Json → ℕ
hit_edges_at row =
    if is_set row "eligible" then number_of has_hits (rows_of (member row "edges")) else 0

-- the totals of the rows of files of a document
abbrev pub totals : List Json → List (String × ℕ)
totals files =
    let functions = items_of "functions" files in
    let lines = items_of "lines" files in
    let sites = items_of "statementSites" files in
    let branches = items_of "branches" files in
    ("filesFound", length files)
    ∷ ("filesLoaded", number_of (λ f. is_set f "loaded") files)
    ∷ ("filesWithStatements", number_of (λ f. ltb 0 (natural_at f "lineFound")) files)
    ∷ ("functionsFound", length functions)
    ∷ ("functionsHit", number_of has_hits functions)
    ∷ ("functionsEligible", number_of (λ f. is_set f "functionEligible") functions)
    ∷ ("functionsInstrumented", number_of (λ f. is_set f "functionInstrumented") functions)
    ∷ ("statementFunctionsEligible", number_of (λ f. is_set f "statementEligible") functions)
    ∷ (
      "statementFunctionsInstrumented",
      number_of (λ f. is_set f "statementInstrumented") functions,
    )
    ∷ ("linesFound", length lines)
    ∷ ("linesHit", number_of has_hits lines)
    ∷ ("statementSitesFound", number_of (λ s. is_set s "eligible") sites)
    ∷ ("statementSitesInstrumented", number_of (λ s. is_set s "instrumented") sites)
    ∷ ("statementSitesHit", number_of (λ s. is_set s "eligible" && has_hits s) sites)
    ∷ ("branchSitesEligible", number_of (λ b. is_set b "eligible") branches)
    ∷ ("branchSitesInstrumented", number_of (λ b. is_set b "instrumented") branches)
    ∷ ("branchesFound", total_of edges_of branches)
    ∷ ("branchesHit", total_of hit_edges_at branches)
    ∷ []

twice : (b : Bool) (n : ℕ) → (if b then n else 0) ≡ (if b then (if b then n else 0) else 0)
twice true n = refl
twice false n = refl

edges_found : (x : Json) (site : Site) → BranchFound x site → edges_of x ≡ found_edges site
unfolding found_edges
edges_found x site h =
    rw
      (
        h.common.eligible,
        length-Pointwise _ (rows_of (member x "edges")) site.edges h.edges,
        h.two,
        h.found,
      )
      (twice site.eligible 2)

edges_hit : (x : Json) (site : Site) → BranchFound x site → hit_edges_at x ≡ hit_edges_of site
unfolding hit_edges_of
edges_hit x site h =
    rw (h.common.eligible, hit_edges-number (rows_of (member x "edges")) site.edges h.edges, h.hit)
      (twice site.eligible _)

aggregate-totals :
    (rows : List Json) (files : List File)
    → Pointwise FileFound rows files
    → aggregate files ≡ totals rows
unfolding aggregate is_loaded has_lines is_function_hit is_function_eligible
    is_function_instrumented is_statement_eligible is_statement_instrumented is_line_hit is_eligible
    is_instrumented is_eligible_hit
aggregate-totals rows files h =
    let fs = functions_in rows files h in
    let ls = lines_in rows files h in
    let ss = sites_in rows files h in
    let bs = branches_in rows files h in
    let fr = items_of "functions" rows in
    let lr = items_of "lines" rows in
    let sr = items_of "statementSites" rows in
    let br = items_of "branches" rows in
    rw
      (
        length-Pointwise FileFound rows files h,
        number_of-where FileFound (λ f. is_set f "loaded") is_loaded (λ x y k. ap flag_of k.loaded)
            rows files h,
        number_of-where FileFound (λ f. ltb 0 (natural_at f "lineFound")) has_lines
            (λ x y k. ap (λ o. ltb 0 (natural_of o)) k.line_found) rows files h,
        length-Pointwise FunctionFound fr (all_functions files) fs,
        number_of-where FunctionFound has_hits is_function_hit
            (λ x y k. ap (λ o. ltb 0 (natural_of o)) k.hits) fr (all_functions files) fs,
        number_of-where FunctionFound (λ f. is_set f "functionEligible") is_function_eligible
            (λ x y k. ap flag_of k.eligible) fr (all_functions files) fs,
        number_of-where FunctionFound (λ f. is_set f "functionInstrumented")
            is_function_instrumented (λ x y k. ap flag_of k.instrumented) fr (all_functions files)
            fs,
        number_of-where FunctionFound (λ f. is_set f "statementEligible") is_statement_eligible
            (λ x y k. ap flag_of k.statement_eligible) fr (all_functions files) fs,
        number_of-where FunctionFound (λ f. is_set f "statementInstrumented")
            is_statement_instrumented (λ x y k. ap flag_of k.statement_instrumented) fr
            (all_functions files) fs,
        length-Pointwise LineFound lr (all_lines files) ls,
        number_of-where LineFound has_hits is_line_hit
            (λ x y k. ap (λ o. ltb 0 (natural_of o)) k.hits) lr (all_lines files) ls,
        number_of-where StatementFound (λ s. is_set s "eligible") is_eligible
            (λ x y k. ap flag_of k.common.eligible) sr (all_sites files) ss,
        number_of-where StatementFound (λ s. is_set s "instrumented") is_instrumented
            (λ x y k. ap flag_of k.common.instrumented) sr (all_sites files) ss,
        number_of-where StatementFound (λ s. is_set s "eligible" && has_hits s) is_eligible_hit
            (λ x y k. rw (k.common.eligible, k.hits) refl) sr (all_sites files) ss,
        number_of-where BranchFound (λ s. is_set s "eligible") is_eligible
            (λ x y k. ap flag_of k.common.eligible) br (all_branches files) bs,
        number_of-where BranchFound (λ s. is_set s "instrumented") is_instrumented
            (λ x y k. ap flag_of k.common.instrumented) br (all_branches files) bs,
        total_of-sum BranchFound edges_of found_edges edges_found br (all_branches files) bs,
        total_of-sum BranchFound hit_edges_at hit_edges_of edges_hit br (all_branches files) bs,
      )
      refl

module _ ⦃r : Runtime⦄ where
  -- the summary of the document states its totals
  abbrev pub TotalsAgree : Json → Type 0
  TotalsAgree document =
      (summary : Json) × (member document "summary" ≡ some summary)
      × All (IsStated summary) (totals (rows_of (member document "files")))
      × (length (items_of "lines" (rows_of (member document "files")))
          ≡ total_of (λ f. natural_at f "lineFound") (rows_of (member document "files")))

  -- If validate_coverage_artifact returns, the summary of the artifact states the number of
  -- the rows of its files and of those that are loaded or have lines, of the rows of their
  -- functions and of those that are hit, eligible or instrumented, of the lines and of those
  -- that are hit, of the sites that are eligible, instrumented or hit, and of the edges of
  -- eligible branches and of those of them that are hit; and the lines are as many as the
  -- files state together.
  pub validate_coverage_artifact-totals :
      (document : Json) (report : Option Json) (files : List File) (contexts : List Context)
      → validate_coverage_artifact document report ≡ ok (files, contexts)
      → TotalsAgree document
  validate_coverage_artifact-totals document report files contexts h =
      let (summary, _, rows, s, _, _, f, _, a, _, _, _) = parts document report h in
      let found = files_found document report h in
      let xs = rows_of (member document "files") in
      (
        summary,
        s,
        subst (All (IsStated summary)) (aggregate-totals xs files found)
            (each-IsStated summary (aggregate files) a),
        length-Pointwise LineFound (items_of "lines" xs) (all_lines files) (lines_in xs files found)
            ∙ lines_stated rows files f
            ∙ sym (
                total_of-sum FileFound (λ x. natural_at x "lineFound") (λ y. y.line_found)
                  (λ x y k. ap natural_of k.line_found) xs files found),
      )
