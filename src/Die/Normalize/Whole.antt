-- ===== src/Die/Normalize/Whole.antt =====
-- Diagnostics and the whole of `Normalize` (backend/die/implementation.go).
use software_engineering_pla.Shared.{
  ℕ, ◌+◌, Bool, not, ◌||◌, List, [], ◌∷◌, ◌++◌, if◌then◌else◌, length,
}
use software_engineering_pla.Shared.Int.{ℤ, pos, negsuc, ltb_ℤ}
use software_engineering_pla.Die.Text.{
  Text, text_eq, text_lt, is_empty, safe_text, digits, sort_by, dedupe,
}
use software_engineering_pla.Die.Path.{normalize_path}
use software_engineering_pla.Die.Model.{
  error, invalid_input, Result, ok, ◌>>=◌, ◌>>◌, require, ArtifactReference, DiagnosticCandidate,
  GraphInput, DependencyNode, ContainmentEdge, DependencyEdge, Config,
}
use software_engineering_pla.Die.Evidence.{limited}
use software_engineering_pla.Die.Normalize.{
  analysis_canceled, Polls, normalize_sources, normalize_nodes,
}
use software_engineering_pla.Die.Normalize.Edges.{normalize_containment, normalize_edges, increment}

-- `%d`
abbrev decimal : ℤ → Text
decimal (pos n) = digits 20 n
decimal (negsuc n) = b'-' ∷ digits 20 (n + 1)

-- a diagnostic has the fields of its candidate, with the path normalized
unfoldable pub check_diagnostic : DiagnosticCandidate → Result DiagnosticCandidate
check_diagnostic v = do
  file ← normalize_path v.file
  require (not (is_empty v.code || (not (safe_text v.code) || not (safe_text v.message))))
      (error invalid_input "invalid_diagnostic")
  ok (record v { file = file })

unfoldable pub check_diagnostics : List DiagnosticCandidate → Result (List DiagnosticCandidate)
check_diagnostics [] = ok []
check_diagnostics (v ∷ vs) = do w ← check_diagnostic v; ws ← check_diagnostics vs; ok (w ∷ ws)

abbrev int_eq : ℤ → ℤ → Bool
int_eq a b = not (ltb_ℤ a b || ltb_ℤ b a)

abbrev pub diagnostic_less : DiagnosticCandidate → DiagnosticCandidate → Bool
diagnostic_less a b =
    if not (text_eq a.code b.code)
    then text_lt a.code b.code
    else if not (text_eq a.graph b.graph)
    then text_lt a.graph b.graph
    else if not (text_eq a.file b.file)
    then text_lt a.file b.file
    else if not (int_eq a.start_line b.start_line)
    then ltb_ℤ a.start_line b.start_line
    else if not (int_eq a.start_column b.start_column)
    then ltb_ℤ a.start_column b.start_column
    else text_lt a.stable_id b.stable_id

abbrev pub diagnostic_key : DiagnosticCandidate → Text
diagnostic_key v =
    v.code
    ++ 0
      ∷ (v.graph
          ++ 0
            ∷ (v.file
                ++ 0 ∷ (decimal v.start_line ++ 0 ∷ (decimal v.start_column ++ 0 ∷ v.stable_id))))

unfoldable pub normalize_diagnostics :
    List DiagnosticCandidate → ℕ → Result (List DiagnosticCandidate × ℕ)
unfolding check_diagnostics check_diagnostic dedupe
normalize_diagnostics vs limit = do
  ws ← check_diagnostics vs
  ok (limited (dedupe diagnostic_key (sort_by diagnostic_less ws)) limit)

pub record DependencyStatistics : Type 0 where
  pub nodes_by_kind : List (Text × ℕ)
  pub edges_by_graph : List (Text × ℕ)
  pub edges_by_resolution : List (Text × ℕ)
  pub diagnostics : ℕ
  pub omitted_diagnostics : ℕ
  pub omitted_nodes : ℕ
  pub omitted_containment : ℕ
  pub omitted_edges : ℕ
  pub omitted_evidence : ℕ

-- the view before analysis: it has no components and no cycles yet
pub record DependencyInventory : Type 0 where
  pub source_artifacts : List ArtifactReference
  pub nodes : List DependencyNode
  pub containment : List ContainmentEdge
  pub dependencies : List DependencyEdge
  pub diagnostics : List DiagnosticCandidate
  pub statistics : DependencyStatistics

count_kinds : List DependencyNode → List (Text × ℕ)
count_kinds [] = []
count_kinds (n ∷ ns) = increment n.identity.kind (count_kinds ns)

unfoldable pub normalize : (Text → Text) → Config → Polls → GraphInput → Result DependencyInventory
unfolding count_kinds
normalize sha256_hex c polls input = do
  require (not polls.at_start) analysis_canceled
  sources ← normalize_sources input.source_artifacts
  nodes ← normalize_nodes sha256_hex c polls.at_node input.nodes
  containment ← normalize_containment sha256_hex nodes.1 c polls.at_containment input.containment
  edges ← normalize_edges sha256_hex nodes.1 c polls.at_edge input.dependencies
  diagnostics ← normalize_diagnostics input.diagnostics c.max_diagnostics
  ok (record {
    source_artifacts = sources;
    nodes = nodes.0;
    containment = containment.0;
    dependencies = edges.edges;
    diagnostics = diagnostics.0;
    statistics = record {
      nodes_by_kind = count_kinds nodes.0;
      edges_by_graph = edges.by_graph;
      edges_by_resolution = edges.by_resolution;
      diagnostics = length diagnostics.0 + diagnostics.1;
      omitted_diagnostics = diagnostics.1;
      omitted_nodes = 0;
      omitted_containment = containment.1;
      omitted_edges = edges.omitted;
      omitted_evidence = nodes.2 + containment.2 + edges.omitted_evidence;
    };
  })
