-- ===== src/Coverage/Identities.antt =====
-- Identities in an accepted coverage artifact are unique.
use resq.Base.{
  either_not, eq_true_of_not, string_eq, String, true, not, List, ◌++◌, Option, ◌≡◌, distinct,
}
use resq.Py.Value.{Json}
use resq.Py.Result.{ok, past, raise_if-eq-ok}
use resq.Py.Fields.{member, rows_of}
use resq.Py.Rows.{items_of, TextsAt}
use resq.Py.Text.{Runtime}
use resq.Coverage.Files.{File}
use resq.Coverage.Contexts.{Context}
use resq.Coverage.Artifact.{check_unique, paths, site_ids, all_sites, all_branches, all_edge_ids}
use resq.Coverage.References.{validate_coverage_artifact}
use resq.Coverage.Parts.{parts, files_found}
use resq.Coverage.Found.Counts.{
  paths-TextsAt, site_ids-TextsAt, all_edge_ids-TextsAt, sites_in, branches_in,
}

check_unique-IsUnique :
    (files : List File)
    → check_unique files ≡ ok tt
    → (distinct (paths files) ≡ true)
      × (distinct (site_ids (all_sites files ++ all_branches files)) ≡ true)
      × (distinct (all_edge_ids (all_branches files)) ≡ true)
unfolding check_unique
check_unique-IsUnique files h = past (not (distinct (paths files))) _ _ h λ p h₁.
    let (s, e) =
      either_not (distinct (site_ids (all_sites files ++ all_branches files)))
        (distinct (all_edge_ids (all_branches files))) (raise_if-eq-ok _ _ h₁) in
    (eq_true_of_not _ p, s, e)

-- every row has a text at the key, and no two the same
abbrev pub AreUnique : String → List Json → Type 0
AreUnique name rows = (texts : List String) × TextsAt name rows texts × (distinct texts ≡ true)

module _ ⦃r : Runtime⦄ where
  -- If validate_coverage_artifact returns, every row of a file has a path, every row of a
  -- statement site or a branch in a file has an identity, and every row of an edge of these
  -- branches has one; and no path, no identity of a site or branch, and no identity of an edge
  -- stands twice in the artifact.
  pub validate_coverage_artifact_unique :
      (document : Json) (report : Option Json) (files : List File) (contexts : List Context)
      → validate_coverage_artifact document report ≡ ok (files, contexts)
      → let rows = rows_of (member document "files") in
        AreUnique "path" rows
        × AreUnique "siteId" (items_of "statementSites" rows ++ items_of "branches" rows)
        × AreUnique "edgeId" (items_of "edges" (items_of "branches" rows))
  validate_coverage_artifact_unique document report files contexts h =
      let (_, _, _, _, _, _, _, u, _, _, _, _) = parts document report h in
      let found = files_found document report h in
      let xs = rows_of (member document "files") in
      let (p, s, e) = check_unique-IsUnique files u in
      let branches = branches_in xs files found in
      (
        (paths files, paths-TextsAt xs files found, p),
        (
          site_ids (all_sites files ++ all_branches files),
          site_ids-TextsAt (items_of "statementSites" xs) (items_of "branches" xs) (all_sites files)
              (all_branches files) (sites_in xs files found) branches,
          s,
        ),
        (
          all_edge_ids (all_branches files),
          all_edge_ids-TextsAt (items_of "branches" xs) (all_branches files) branches,
          e,
        ),
      )
