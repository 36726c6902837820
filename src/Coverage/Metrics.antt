-- ===== src/Coverage/Metrics.antt =====
-- The metrics of an accepted coverage artifact refer to what its files have.
use resq.Base.{
  string_eq, number_eq, pair_eq, Eq, ℕ, zero, suc, String, true, not, List, [], ◌∷◌, ◌++◌, ◌==◌,
  All, Option, some, ◌⊎◌, inl, inr, Bool-cases, ◌≡◌, refl, sym, ap, ◌∙◌, arith, contains,
  contains-append, eq_iff, eq_true_of_not,
}
use resq.Py.Value.{ℤ, pos, negsuc, Json, str}
use resq.Py.Result.{ok, past, raise_if-eq-ok}
use resq.Py.Equal.{int_eq}
use resq.Py.Fields.{member, rows_of}
use resq.Py.Loops.{Pointwise, each-eq-ok}
use resq.Py.Rows.{IsIn, items_of, TextsAt}
use resq.Py.Text.{Runtime}
use resq.Coverage.Sites.{Edge, Site, edge_indices, edge_label}
use resq.Coverage.Functions.{Function}
use resq.Coverage.Files.{File}
use resq.Coverage.Contexts.{MetricKind, function, statement, branch, Metric, Context, is_identity}
use resq.Coverage.Measurement.{all_metrics}
use resq.Coverage.Artifact.{paths, site_ids}
use resq.Coverage.References.{
  named_functions, function_catalog, placed, site_catalog, EdgeKey, placed_edges, branch_edges,
  edge_catalog, is_catalogued, is_referenced, check_metric, validate_coverage_artifact,
}
use resq.Coverage.Parts.{parts, files_found}
use resq.Coverage.Found.{EdgeFound, BranchFound, FunctionFound, FileFound, kind_name}
use resq.Coverage.Found.Counts.{site_ids-TextsAt}
use resq.Coverage.Found.Contexts.{MetricRead}
use resq.Coverage.Hits.{metrics_of, contexts_read}

-- the two rows have one text at a key of each
abbrev pub SameText : Json → String → Json → String → Type 0
SameText x k y j = (text : String) × (member x k ≡ some (str text)) × (member y j ≡ some (str text))

-- the file of a metric is among the files
abbrev pub FileOf : List Json → Json → Json → Type 0
FileOf files metric file = IsIn file files × SameText file "path" metric "file"

-- a metric of a function is about a function of its file, one of a statement about a site or a branch of
-- its file, and one of a branch about an edge of a branch of its file
abbrev pub FunctionResolved : List Json → Json → Type 0
FunctionResolved files metric =
    (file : Json) × (fn : Json) × FileOf files metric file
    × IsIn fn (rows_of (member file "functions"))
    × SameText fn "name" metric "function"

abbrev pub StatementResolved : List Json → Json → Type 0
StatementResolved files metric =
    (file : Json) × (site : Json) × FileOf files metric file
    × IsIn site (rows_of (member file "statementSites") ++ rows_of (member file "branches"))
    × SameText site "siteId" metric "siteId"

abbrev pub BranchResolved : List Json → Json → Type 0
BranchResolved files metric =
    (file : Json) × (site : Json) × (edge : Json) × FileOf files metric file
    × IsIn site (rows_of (member file "branches"))
    × SameText site "siteId" metric "siteId"
    × IsIn edge (rows_of (member site "edges"))
    × SameText edge "label" metric "edgeLabel"

abbrev pub IsResolved : List Json → Json → Type 0
IsResolved files metric =
    ((member metric "kind" ≡ some (str "function")) × FunctionResolved files metric)
    ⊎ ((member metric "kind" ≡ some (str "statement")) × StatementResolved files metric)
    ⊎ ((member metric "kind" ≡ some (str "branch")) × BranchResolved files metric)

module _ {ℓ} {K : Type ℓ} ⦃e : Eq K⦄ where
  first_or_later :
      (k y : K) (ys : List K) → contains k (y ∷ ys) ≡ true → (y ≡ k) ⊎ (contains k ys ≡ true)
  unfolding contains
  first_or_later k y ys h = elim (Bool-cases (y == k)) [
    | inl q ↦ inl ((e.beq_iff y k).0 q)
    | inr q ↦ inr (rw q at h)
  ]

  left_or_right :
      (k : K) (xs ys : List K)
      → contains k (xs ++ ys) ≡ true
      → (contains k xs ≡ true) ⊎ (contains k ys ≡ true)
  left_or_right k xs ys h = elim (Bool-cases (contains k xs)) [
    | inl q ↦ inl q
    | inr q ↦ inr (rw q at (sym (contains-append k xs ys) ∙ h))
  ]

-- a text that is there is the one of some row
text_row :
    (name text : String) (xs : List Json) (texts : List String)
    → TextsAt name xs texts
    → contains text texts ≡ true
    → (x : Json) × IsIn x xs × (member x name ≡ some (str text))
unfolding contains
text_row name text [] [] h k = cc
text_row name text (x ∷ xs) (t ∷ ts) h k = elim (first_or_later text t ts k) [
  | inl e ↦ (x, inl refl, h.0 ∙ ap (λ s. some (str s)) e)
  | inr w ↦ let (y, inside, at) = text_row name text xs ts h.1 w in (y, inr inside, at)
]
text_row name text [] (t ∷ ts) h k = absurd h
text_row name text (x ∷ xs) [] h k = absurd h

named_row :
    (path p name : String) (xs : List Json) (fns : List Function)
    → Pointwise FunctionFound xs fns
    → contains (path, name) (named_functions p fns) ≡ true
    → (p ≡ path) × (x : Json) × IsIn x xs × (member x "name" ≡ some (str name))
unfolding named_functions contains
named_row path p name [] [] h k = cc
named_row path p name (x ∷ xs) (f ∷ fs) h k =
    elim (first_or_later (path, name) (p, f.name) (named_functions p fs) k) [
      | inl e ↦
          (ap (λ q. q.0) e, x, inl refl, h.0.name ∙ ap (λ (q : String × String). some (str q.1)) e)
      | inr w ↦
          let (same, y, inside, at) = named_row path p name xs fs h.1 w in (same, y, inr inside, at)
    ]
named_row path p name [] (f ∷ fs) h k = absurd h
named_row path p name (x ∷ xs) [] h k = absurd h

placed_id :
    (path p id : String) (ids : List String)
    → contains (path, id) (placed p ids) ≡ true
    → (p ≡ path) × (contains id ids ≡ true)
unfolding placed contains
placed_id path p id [] k = cc
placed_id path p id (i ∷ ids) k = elim (first_or_later (path, id) (p, i) (placed p ids) k) [
  | inl e ↦ (ap (λ q. q.0) e, ground (arith, (eq_iff i id).1 (ap (λ (q : String × String). q.1) e)))
  | inr w ↦ let (same, inside) = placed_id path p id ids w in (same, ground (arith, inside))
]

-- a function of the catalog
catalog_function :
    (path name : String) (xs : List Json) (files : List File)
    → Pointwise FileFound xs files
    → contains (path, name) (function_catalog files) ≡ true
    → (x : Json) × (fn : Json) × IsIn x xs
      × (member x "path" ≡ some (str path))
      × IsIn fn (rows_of (member x "functions"))
      × (member fn "name" ≡ some (str name))
unfolding function_catalog contains
catalog_function path name [] [] h k = cc
catalog_function path name (x ∷ xs) (f ∷ fs) h k =
    elim (left_or_right (path, name) (named_functions f.path f.functions) (function_catalog fs) k) [
      | inl w ↦
          let (same, fn, inside, at) =
            named_row path f.path name (rows_of (member x "functions")) f.functions h.0.functions
              w in
          (x, fn, inl refl, h.0.path ∙ ap (λ s. some (str s)) same, inside, at)
      | inr w ↦
          let (y, fn, there, own, inside, at) = catalog_function path name xs fs h.1 w in
          (y, fn, inr there, own, inside, at)
    ]
catalog_function path name [] (f ∷ fs) h k = absurd h
catalog_function path name (x ∷ xs) [] h k = absurd h

-- a site of the catalog
catalog_site :
    (path id : String) (xs : List Json) (files : List File)
    → Pointwise FileFound xs files
    → contains (path, id) (site_catalog files) ≡ true
    → (x : Json) × (site : Json) × IsIn x xs
      × (member x "path" ≡ some (str path))
      × IsIn site (rows_of (member x "statementSites") ++ rows_of (member x "branches"))
      × (member site "siteId" ≡ some (str id))
unfolding site_catalog contains
catalog_site path id [] [] h k = cc
catalog_site path id (x ∷ xs) (f ∷ fs) h k =
    elim (left_or_right (path, id) (placed f.path (site_ids (f.sites ++ f.branches)))
      (site_catalog fs) k) [
        | inl w ↦
            let (same, there) = placed_id path f.path id (site_ids (f.sites ++ f.branches)) w in
            let (site, inside, at) =
              text_row "siteId" id
                (rows_of (member x "statementSites") ++ rows_of (member x "branches"))
                (site_ids (f.sites ++ f.branches))
                (site_ids-TextsAt (rows_of (member x "statementSites"))
                  (rows_of (member x "branches")) f.sites f.branches h.0.sites h.0.branches)
                there in
            (x, site, inl refl, h.0.path ∙ ap (λ s. some (str s)) same, inside, at)
        | inr w ↦
            let (y, site, there, own, inside, at) = catalog_site path id xs fs h.1 w in
            (y, site, inr there, own, inside, at)
      ]
catalog_site path id [] (f ∷ fs) h k = absurd h
catalog_site path id (x ∷ xs) [] h k = absurd h

placed_edge :
    (key : EdgeKey) (p s : String) (xs : List Json) (edges : List Edge)
    → Pointwise EdgeFound xs edges
    → contains key (placed_edges p s (edge_indices edges)) ≡ true
    → (p ≡ key.0.0)
      × (s ≡ key.0.1)
      × (edge : Json) × IsIn edge xs
      × (member edge "label" ≡ some (str (edge_label key.1)))
unfolding placed_edges edge_indices contains
placed_edge key p s [] [] h k = cc
placed_edge key p s (x ∷ xs) (e ∷ es) h k =
    elim (first_or_later key ((p, s), e.index) (placed_edges p s (edge_indices es)) k) [
      | inl q ↦ (
        ap (λ (t : EdgeKey). t.0.0) q,
        ap (λ (t : EdgeKey). t.0.1) q,
        x,
        inl refl,
        h.0.label ∙ ap (λ (t : EdgeKey). some (str (edge_label t.1))) q,
      )
      | inr w ↦
          let (a, b, edge, inside, at) = placed_edge key p s xs es h.1 w in
          (a, b, edge, inr inside, at)
    ]
placed_edge key p s [] (e ∷ es) h k = absurd h
placed_edge key p s (x ∷ xs) [] h k = absurd h

-- an edge of the branches of a file
branch_edge :
    (key : EdgeKey) (p : String) (xs : List Json) (branches : List Site)
    → Pointwise BranchFound xs branches
    → contains key (branch_edges p branches) ≡ true
    → (p ≡ key.0.0)
      × (site : Json) × (edge : Json) × IsIn site xs
      × (member site "siteId" ≡ some (str key.0.1))
      × IsIn edge (rows_of (member site "edges"))
      × (member edge "label" ≡ some (str (edge_label key.1)))
unfolding branch_edges contains
branch_edge key p [] [] h k = cc
branch_edge key p (x ∷ xs) (b ∷ bs) h k =
    elim (left_or_right key (placed_edges p b.site_id (edge_indices b.edges)) (branch_edges p bs)
      k) [
        | inl w ↦
            let (same, id, edge, inside, at) =
              placed_edge key p b.site_id (rows_of (member x "edges")) b.edges h.0.edges w in
            (same, x, edge, inl refl, h.0.common.id ∙ ap (λ s. some (str s)) id, inside, at)
        | inr w ↦
            let (same, site, edge, there, id, inside, at) = branch_edge key p xs bs h.1 w in
            (same, site, edge, inr there, id, inside, at)
      ]
branch_edge key p [] (b ∷ bs) h k = absurd h
branch_edge key p (x ∷ xs) [] h k = absurd h

-- an edge of the catalog
catalog_edge :
    (key : EdgeKey) (xs : List Json) (files : List File)
    → Pointwise FileFound xs files
    → contains key (edge_catalog files) ≡ true
    → (x : Json) × (site : Json) × (edge : Json) × IsIn x xs
      × (member x "path" ≡ some (str key.0.0))
      × IsIn site (rows_of (member x "branches"))
      × (member site "siteId" ≡ some (str key.0.1))
      × IsIn edge (rows_of (member site "edges"))
      × (member edge "label" ≡ some (str (edge_label key.1)))
unfolding edge_catalog contains
catalog_edge key [] [] h k = cc
catalog_edge key (x ∷ xs) (f ∷ fs) h k =
    elim (left_or_right key (branch_edges f.path f.branches) (edge_catalog fs) k) [
      | inl w ↦
          let (same, site, edge, there, id, inside, at) =
            branch_edge key f.path (rows_of (member x "branches")) f.branches h.0.branches w in
          (x, site, edge, inl refl, h.0.path ∙ ap (λ s. some (str s)) same, there, id, inside, at)
      | inr w ↦
          let (y, site, edge, here, own, there, id, inside, at) = catalog_edge key xs fs h.1 w in
          (y, site, edge, inr here, own, there, id, inside, at)
    ]
catalog_edge key [] (f ∷ fs) h k = absurd h
catalog_edge key (x ∷ xs) [] h k = absurd h

-- the label of a branch metric is the one of its edge
fitting_label :
    (site label : String) (i : ℕ)
    → is_identity branch site (pos i) label ≡ true
    → edge_label i ≡ label
unfolding is_identity int_eq edge_label
fitting_label site label zero h = sym ((eq_iff label "true").0 (ground (arith, h)))
fitting_label site label (suc i) h = sym ((eq_iff label "false").0 (ground (arith, h)))

-- what is referenced, by the kind of the metric
kind-IsResolved :
    (row : Json) (xs : List Json) (files : List File) (kind : MetricKind)
    (path name site label : String) (edge : ℤ)
    → Pointwise FileFound xs files
    → member row "kind" ≡ some (str (kind_name kind))
    → member row "file" ≡ some (str path)
    → member row "function" ≡ some (str name)
    → member row "siteId" ≡ some (str site)
    → member row "edgeLabel" ≡ some (str label)
    → is_identity kind site edge label ≡ true
    → elim kind [
      | function ↦ contains (path, name) (function_catalog files)
      | statement ↦ contains (path, site) (site_catalog files)
      | branch ↦ is_catalogued (path, site) edge (edge_catalog files)
    ]
      ≡ true
    → IsResolved xs row
unfolding is_catalogued
kind-IsResolved row xs files function path name site label edge found k p n s l fits h =
    let (x, fn, here, own, inside, at) = catalog_function path name xs files found h in
    inl (k, (x, fn, (here, (path, own, p)), inside, (name, at, n)))
kind-IsResolved row xs files statement path name site label edge found k p n s l fits h =
    let (x, y, here, own, inside, at) = catalog_site path site xs files found h in
    inr (inl (k, (x, y, (here, (path, own, p)), inside, (site, at, s))))
kind-IsResolved row xs files branch path name site label (pos i) found k p n s l fits h =
    let (x, y, e, here, own, there, id, inside, at) =
      catalog_edge ((path, site), i) xs files found h in
    inr (
      inr (
        k,
        (
          x,
          y,
          e,
          (here, (path, own, p)),
          there,
          (site, id, s),
          inside,
          (label, at ∙ ap (λ t. some (str t)) (fitting_label site label i fits), l),
        ),
      ))
kind-IsResolved row xs files branch path name site label (negsuc i) found k p n s l fits h = cc

metric-IsResolved :
    (xs : List Json) (files : List File) (row : Json) (metric : Metric)
    → Pointwise FileFound xs files
    → MetricRead row metric
    → check_metric files metric ≡ ok tt
    → IsResolved xs row
unfolding check_metric is_referenced
metric-IsResolved xs files row metric found read h =
    past (not (contains (metric.file) (paths files))) _ _ h λ _ h₁.
      kind-IsResolved row xs files metric.kind metric.file metric.function_name metric.site_id
        metric.edge_label metric.edge_index found read.found.kind read.found.file
        read.found.function_name read.found.site_id read.found.edge_label read.fits
        (eq_true_of_not _ (raise_if-eq-ok _ _ h₁))

all-IsResolved :
    (files : List Json) (found : List File) (xs : List Json) (metrics : List Metric)
    → Pointwise FileFound files found
    → Pointwise MetricRead xs metrics
    → All (λ m. check_metric found m ≡ ok tt) metrics
    → All (IsResolved files) xs
all-IsResolved files found [] [] h k c = tt
all-IsResolved files found (x ∷ xs) (m ∷ ms) h k c =
    (metric-IsResolved files found x m h k.0 c.0, all-IsResolved files found xs ms h k.1 c.1)
all-IsResolved files found [] (m ∷ ms) h k c = absurd k
all-IsResolved files found (x ∷ xs) [] h k c = absurd k

module _ ⦃r : Runtime⦄ where
  -- If validate_coverage_artifact returns, every row of a metric in the contexts of the
  -- artifact is of a function, of a statement or of a branch, and there is a row of a file
  -- with the path that the metric states which has, in turn, a function of the stated name, a
  -- site or branch with the stated identity, or a branch with the stated identity and an edge
  -- of it with the stated label.
  pub validate_coverage_artifact-metrics :
      (document : Json) (report : Option Json) (files : List File) (contexts : List Context)
      → validate_coverage_artifact document report ≡ ok (files, contexts)
      → (measurement : Json) × (member document "contextMeasurement" ≡ some measurement)
        × All
            (IsResolved (rows_of (member document "files")))
            (items_of "metrics" (rows_of (member measurement "contexts")))
  validate_coverage_artifact-metrics document report files contexts h =
      let (_, measurement, _, _, m, _, _, _, _, c, k, _) = parts document report h in
      let rows = rows_of (member measurement "contexts") in
      (
        measurement,
        m,
        all-IsResolved (rows_of (member document "files")) files (items_of "metrics" rows)
            (all_metrics contexts) (files_found document report h)
            (metrics_of rows contexts (contexts_read measurement contexts c))
            (each-eq-ok (check_metric files) (all_metrics contexts) k),
      )
