-- ===== src/Coverage/Found.antt =====
-- tools/coverage_contract.py: what the checks read of a document is what the document says.
pub mod Counts
pub mod Sites
pub mod Files
pub mod Contexts
use resq.Base.{
  string_eq, ℕ, String, Bool, ◌&&◌, List, [], ◌∷◌, some, if◌then◌else◌, ◌≡◌, ltb, length,
}
use resq.Py.Value.{Json, null, nat, bool, str}
use resq.Py.Fields.{member, rows_of}
use resq.Py.Loops.{Pointwise}
use resq.Py.Result.{ok, ok-injective, through, err-ne-ok}
use resq.Py.Access.{subscript, text_of}
use resq.Coverage.Sites.{Edge, Site, edge_label, hit_edges}
use resq.Coverage.Functions.{Line, Function, string_at}
use resq.Coverage.Files.{File}
use resq.Coverage.Contexts.{MetricKind, function, statement, branch, Metric, Context}

pub record LineFound (row : Json) (line : Line) : Type 0 where
  pub hits : member row "hits" ≡ some (nat line.hits)

pub record EdgeFound (row : Json) (edge : Edge) : Type 0 where
  pub id : member row "edgeId" ≡ some (str edge.edge_id)
  pub label : member row "label" ≡ some (str (edge_label edge.index))
  pub hits : member row "hits" ≡ some (nat edge.hits)

pub record SiteFound (row : Json) (site : Site) : Type 0 where
  pub id : member row "siteId" ≡ some (str site.site_id)
  pub eligible : member row "eligible" ≡ some (bool site.eligible)
  pub instrumented : member row "instrumented" ≡ some (bool site.instrumented)

pub record StatementFound (row : Json) (site : Site) : Type 0 where
  pub common : SiteFound row site
  pub hits : member row "hits" ≡ some (nat site.hits)

pub record BranchFound (row : Json) (site : Site) : Type 0 where
  pub common : SiteFound row site
  pub edges : Pointwise EdgeFound (rows_of (member row "edges")) site.edges
  pub two : length site.edges ≡ 2
  pub found : site.edges_found ≡ (if site.eligible then 2 else 0)
  pub hit : site.edges_hit ≡ (if site.eligible then hit_edges site.edges else 0)

pub record FunctionFound (row : Json) (fn : Function) : Type 0 where
  pub name : member row "name" ≡ some (str fn.name)
  pub hits : member row "hits" ≡ some (nat fn.hits)
  pub eligible : member row "functionEligible" ≡ some (bool fn.function_eligible)
  pub instrumented : member row "functionInstrumented" ≡ some (bool fn.function_instrumented)
  pub statement_eligible : member row "statementEligible" ≡ some (bool fn.statement_eligible)
  pub statement_instrumented :
      member row "statementInstrumented" ≡ some (bool fn.statement_instrumented)

pub record FileFound (row : Json) (file : File) : Type 0 where
  pub path : member row "path" ≡ some (str file.path)
  pub loaded : member row "loaded" ≡ some (bool file.loaded)
  pub line_found : member row "lineFound" ≡ some (nat file.line_found)
  pub functions : Pointwise FunctionFound (rows_of (member row "functions")) file.functions
  pub lines : Pointwise LineFound (rows_of (member row "lines")) file.lines
  pub sites : Pointwise StatementFound (rows_of (member row "statementSites")) file.sites
  pub branches : Pointwise BranchFound (rows_of (member row "branches")) file.branches

abbrev pub kind_name : MetricKind → String
kind_name function = "function"
kind_name statement = "statement"
kind_name branch = "branch"

pub record MetricFound (row : Json) (metric : Metric) : Type 0 where
  pub kind : member row "kind" ≡ some (str (kind_name metric.kind))
  pub file : member row "file" ≡ some (str metric.file)
  pub function_name : member row "function" ≡ some (str metric.function_name)
  pub site_id : member row "siteId" ≡ some (str metric.site_id)
  pub edge_label : member row "edgeLabel" ≡ some (str metric.edge_label)
  pub hits : member row "hits" ≡ some (nat metric.hits)

pub text_of-eq-ok : (x : Json) {t : String} → text_of x ≡ ok t → x ≡ str t
unfolding text_of
text_of-eq-ok (str s) h = cc
text_of-eq-ok null h = cc
text_of-eq-ok _ h = cc
