-- ===== src/Coverage/Found/Counts.antt =====
-- tools/coverage_contract.py: sums over what the checks read are sums over the rows of the document.
use resq.Base.{string_eq, ℕ, String, Bool, List, [], ◌∷◌, ◌++◌, map, some, ◌≡◌, refl, ap, ltb}
use resq.Py.Value.{Json, str}
use resq.Py.Fields.{member, rows_of}
use resq.Py.Loops.{Pointwise}
use resq.Py.Rows.{items_of, natural_of, natural_at, number_of, total_of, TextsAt, Pointwise-append}
use resq.Coverage.Sites.{Edge, Site, hit_edges, edge_ids}
use resq.Coverage.Functions.{count_where, sum_of}
use resq.Coverage.Files.{File}
use resq.Coverage.Artifact.{
  paths, all_functions, all_lines, all_sites, all_branches, site_ids, all_edge_ids,
}
use resq.Coverage.Found.{
  LineFound, EdgeFound, StatementFound, BranchFound, FunctionFound, FileFound,
}

module _ {B : Type 0} (R : Json → B → Type 0) where
  pub number_of-where :
      (p : Json → Bool) (q : B → Bool)
      → ((x : Json) (y : B) → R x y → p x ≡ q y)
      → (xs : List Json) (ys : List B) → Pointwise R xs ys
      → number_of p xs ≡ count_where q ys
  unfolding count_where
  number_of-where p q same [] [] h = refl
  number_of-where p q same (x ∷ xs) (y ∷ ys) h =
      rw (same x y h.0, number_of-where p q same xs ys h.1) refl
  number_of-where p q same [] (y ∷ ys) h = absurd h
  number_of-where p q same (x ∷ xs) [] h = absurd h

  pub total_of-sum :
      (p : Json → ℕ) (q : B → ℕ)
      → ((x : Json) (y : B) → R x y → p x ≡ q y)
      → (xs : List Json) (ys : List B) → Pointwise R xs ys
      → total_of p xs ≡ sum_of q ys
  unfolding sum_of
  total_of-sum p q same [] [] h = refl
  total_of-sum p q same (x ∷ xs) (y ∷ ys) h =
      rw (same x y h.0, total_of-sum p q same xs ys h.1) refl
  total_of-sum p q same [] (y ∷ ys) h = absurd h
  total_of-sum p q same (x ∷ xs) [] h = absurd h

  pub texts-Pointwise :
      (name : String) (f : B → String)
      → ((x : Json) (y : B) → R x y → member x name ≡ some (str (f y)))
      → (xs : List Json) (ys : List B) → Pointwise R xs ys
      → TextsAt name xs (map f ys)
  texts-Pointwise name f same [] [] h = tt
  texts-Pointwise name f same (x ∷ xs) (y ∷ ys) h =
      (same x y h.0, texts-Pointwise name f same xs ys h.1)
  texts-Pointwise name f same [] (y ∷ ys) h = absurd h
  texts-Pointwise name f same (x ∷ xs) [] h = absurd h

pub TextsAt-append :
    (name : String) (xs ys : List Json) (ss ts : List String)
    → TextsAt name xs ss
    → TextsAt name ys ts
    → TextsAt name (xs ++ ys) (ss ++ ts)
TextsAt-append name xs ys ss ts =
    Pointwise-append (λ row text. member row name ≡ some (str text)) xs ys ss ts

edge_hit : (x : Json) (e : Edge) → EdgeFound x e → natural_at x "hits" ≡ e.hits
edge_hit x e h = ap natural_of h.hits

pub hit_edges-number :
    (xs : List Json) (edges : List Edge)
    → Pointwise EdgeFound xs edges
    → number_of (λ x. ltb 0 (natural_at x "hits")) xs ≡ hit_edges edges
unfolding hit_edges
hit_edges-number [] [] h = refl
hit_edges-number (x ∷ xs) (e ∷ es) h = rw (h.0.hits, hit_edges-number xs es h.1) refl
hit_edges-number [] (e ∷ es) h = absurd h
hit_edges-number (x ∷ xs) [] h = absurd h

pub edge_ids-TextsAt :
    (xs : List Json) (edges : List Edge)
    → Pointwise EdgeFound xs edges
    → TextsAt "edgeId" xs (edge_ids edges)
unfolding edge_ids
edge_ids-TextsAt [] [] h = tt
edge_ids-TextsAt (x ∷ xs) (e ∷ es) h = (h.0.id, edge_ids-TextsAt xs es h.1)
edge_ids-TextsAt [] (e ∷ es) h = absurd h
edge_ids-TextsAt (x ∷ xs) [] h = absurd h

pub all_edge_ids-TextsAt :
    (xs : List Json) (branches : List Site)
    → Pointwise BranchFound xs branches
    → TextsAt "edgeId" (items_of "edges" xs) (all_edge_ids branches)
unfolding all_edge_ids
all_edge_ids-TextsAt [] [] h = tt
all_edge_ids-TextsAt (x ∷ xs) (b ∷ bs) h =
    TextsAt-append "edgeId" (rows_of (member x "edges")) (items_of "edges" xs) (edge_ids b.edges)
      (all_edge_ids bs) (edge_ids-TextsAt (rows_of (member x "edges")) b.edges h.0.edges)
      (all_edge_ids-TextsAt xs bs h.1)
all_edge_ids-TextsAt [] (b ∷ bs) h = absurd h
all_edge_ids-TextsAt (x ∷ xs) [] h = absurd h

site_ids-append : (xs ys : List Site) → site_ids (xs ++ ys) ≡ site_ids xs ++ site_ids ys
unfolding site_ids
site_ids-append [] ys = refl
site_ids-append (x ∷ xs) ys = ap (λ l. x.site_id ∷ l) (site_ids-append xs ys)

statement_ids :
    (xs : List Json) (sites : List Site)
    → Pointwise StatementFound xs sites
    → TextsAt "siteId" xs (site_ids sites)
unfolding site_ids
statement_ids [] [] h = tt
statement_ids (x ∷ xs) (s ∷ ss) h = (h.0.common.id, statement_ids xs ss h.1)
statement_ids [] (s ∷ ss) h = absurd h
statement_ids (x ∷ xs) [] h = absurd h

branch_ids :
    (xs : List Json) (sites : List Site)
    → Pointwise BranchFound xs sites
    → TextsAt "siteId" xs (site_ids sites)
unfolding site_ids
branch_ids [] [] h = tt
branch_ids (x ∷ xs) (s ∷ ss) h = (h.0.common.id, branch_ids xs ss h.1)
branch_ids [] (s ∷ ss) h = absurd h
branch_ids (x ∷ xs) [] h = absurd h

pub site_ids-TextsAt :
    (xs ys : List Json) (sites branches : List Site)
    → Pointwise StatementFound xs sites
    → Pointwise BranchFound ys branches
    → TextsAt "siteId" (xs ++ ys) (site_ids (sites ++ branches))
site_ids-TextsAt xs ys sites branches h k = rw (site_ids-append sites branches) (
    TextsAt-append "siteId" xs ys (site_ids sites) (site_ids branches) (statement_ids xs sites h)
      (branch_ids ys branches k))

-- the children of all the files
module _ where
  pub functions_in :
      (xs : List Json) (files : List File)
      → Pointwise FileFound xs files
      → Pointwise FunctionFound (items_of "functions" xs) (all_functions files)
  unfolding all_functions
  functions_in [] [] h = tt
  functions_in (x ∷ xs) (f ∷ fs) h =
      Pointwise-append FunctionFound (rows_of (member x "functions")) (items_of "functions" xs)
        f.functions (all_functions fs) h.0.functions (functions_in xs fs h.1)
  functions_in [] (f ∷ fs) h = absurd h
  functions_in (x ∷ xs) [] h = absurd h

  pub lines_in :
      (xs : List Json) (files : List File)
      → Pointwise FileFound xs files
      → Pointwise LineFound (items_of "lines" xs) (all_lines files)
  unfolding all_lines
  lines_in [] [] h = tt
  lines_in (x ∷ xs) (f ∷ fs) h =
      Pointwise-append LineFound (rows_of (member x "lines")) (items_of "lines" xs) f.lines
        (all_lines fs) h.0.lines (lines_in xs fs h.1)
  lines_in [] (f ∷ fs) h = absurd h
  lines_in (x ∷ xs) [] h = absurd h

  pub sites_in :
      (xs : List Json) (files : List File)
      → Pointwise FileFound xs files
      → Pointwise StatementFound (items_of "statementSites" xs) (all_sites files)
  unfolding all_sites
  sites_in [] [] h = tt
  sites_in (x ∷ xs) (f ∷ fs) h =
      Pointwise-append StatementFound (rows_of (member x "statementSites"))
        (items_of "statementSites" xs) f.sites (all_sites fs) h.0.sites (sites_in xs fs h.1)
  sites_in [] (f ∷ fs) h = absurd h
  sites_in (x ∷ xs) [] h = absurd h

  pub branches_in :
      (xs : List Json) (files : List File)
      → Pointwise FileFound xs files
      → Pointwise BranchFound (items_of "branches" xs) (all_branches files)
  unfolding all_branches
  branches_in [] [] h = tt
  branches_in (x ∷ xs) (f ∷ fs) h =
      Pointwise-append BranchFound (rows_of (member x "branches")) (items_of "branches" xs)
        f.branches (all_branches fs) h.0.branches (branches_in xs fs h.1)
  branches_in [] (f ∷ fs) h = absurd h
  branches_in (x ∷ xs) [] h = absurd h

pub paths-TextsAt :
    (xs : List Json) (files : List File)
    → Pointwise FileFound xs files
    → TextsAt "path" xs (paths files)
paths-TextsAt [] [] h = tt
paths-TextsAt (x ∷ xs) (f ∷ fs) h = (h.0.path, paths-TextsAt xs fs h.1)
paths-TextsAt [] (f ∷ fs) h = absurd h
paths-TextsAt (x ∷ xs) [] h = absurd h
