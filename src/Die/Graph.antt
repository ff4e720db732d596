-- ===== src/Die/Graph.antt =====
-- The index of an inventory (backend/die/analysis.go: `index`, `eligible`, `localVertex`,
-- `countAnalysis`).
--
-- The model is of calls whose context does not end: every poll of it passes. An adjacency list holds
-- the edges where the source holds their positions. The fingerprint of the inventory, SHA-256 of its
-- JSON, is not computed, and neither is the summary of each graph, which counts and does not decide.
pub mod Integrity
use software_engineering_pla.Shared.{
  ℕ, ◌+◌, ◌-◌, Bool, false, not, ◌&&◌, ◌||◌, List, [], ◌∷◌, ◌++◌, map, Option, none, some, ltb,
  ◌==◌, if◌then◌else◌, length,
}
use software_engineering_pla.Die.Text.{
  Text, text, text_eq, text_lt, is_empty, sort_by, lookup, insert,
}
use software_engineering_pla.Die.Model.{
  Error, error, invalid_input, integrity, limit_exceeded, Result, ok, err, ◌>>=◌, ◌>>◌, require,
  valid_graph, valid_dependency, valid_containment, valid_resolution, NodeIdentity, DependencyNode,
  ContainmentEdge, DependencyEdge,
}
use software_engineering_pla.Die.Identity.{normalize_identity, node_id, edge_id, containment_id}
use software_engineering_pla.Die.Normalize.Whole.{DependencyInventory}
use software_engineering_pla.Die.Limits.{AnalysisConfig}

pub record ArtifactMetadata : Type 0 where
  pub name : Text
  pub version : Text
  pub engine_name : Text
  pub engine_version : Text
  pub node_id_scheme : Text
  pub edge_id_scheme : Text
  pub containment_id_scheme : Text

-- An inventory with its metadata, and the sizes of the components, cycles and reason lists of an
-- earlier analysis, which `index` only counts.
pub record Inventory : Type 0 where
  pub artifact : ArtifactMetadata
  pub body : DependencyInventory
  pub component_sizes : List ℕ
  pub cycle_sizes : List ℕ
  pub analysis_reasons : Option (List ℕ)

abbrev local_vertex : DependencyNode → Text → Bool
local_vertex n graph =
    text_eq n.identity.resolution (text "resolved_local") && text_eq n.identity.kind graph

abbrev pub analysis_limit : Error
analysis_limit = error limit_exceeded "analysis_limit_exceeded"

abbrev pub inconsistent : Error
inconsistent = error integrity "inconsistent_graph"

unfoldable pub count_analysis : ℕ → ℕ → ℕ → Result ℕ
count_analysis limit current n =
    if ltb limit current || ltb (limit - current) n then err analysis_limit else ok (current + n)

unfoldable pub count_each : ℕ → ℕ → List ℕ → Result ℕ
unfolding count_analysis
count_each limit current [] = ok current
count_each limit current (n ∷ ns) = do
  next ← count_analysis limit current n
  count_each limit next ns

abbrev sizes_of : Option (List ℕ) → List ℕ
sizes_of none = []
sizes_of (some reasons) = length reasons ∷ reasons

abbrev has_supported_schemes : ArtifactMetadata → ArtifactMetadata → Bool
has_supported_schemes m expected =
    text_eq m.name expected.name
    && (text_eq m.version expected.version
        && (text_eq m.engine_name expected.engine_name
            && (text_eq m.engine_version expected.engine_version
                && (text_eq m.node_id_scheme expected.node_id_scheme
                    && (text_eq m.edge_id_scheme expected.edge_id_scheme
                        && text_eq m.containment_id_scheme expected.containment_id_scheme)))))

abbrev pub supported : ArtifactMetadata
supported = record {
  name = text "dependency-inventory";
  version = text "0.1.0";
  engine_name = text "dependency-intelligence-core";
  engine_version = text "0.1.0";
  node_id_scheme = text "dependency-node-id/v1";
  edge_id_scheme = text "dependency-edge-id/v1";
  containment_id_scheme = text "dependency-containment-id/v1";
}

-- the checks of `index` on metadata and sizes
unfoldable pub check_limits : AnalysisConfig → Inventory → Result (Unit {0})
unfolding count_each
check_limits c v = do
  require (has_supported_schemes v.artifact supported)
      (error invalid_input "incompatible_inventory")
  require
      (not (
        ltb c.max_input_nodes (length v.body.nodes)
        || ltb c.max_input_edges (length v.body.dependencies)))
      analysis_limit
  aux ← count_each c.max_input_aux_records 0 (
      length v.body.containment
      ∷ length v.body.source_artifacts
      ∷ length v.body.diagnostics
      ∷ length v.component_sizes
      ∷ length v.cycle_sizes
      ∷ [])
  evidence ← count_each c.max_input_evidence 0 (
      map (λ n. length n.evidence) v.body.nodes
      ++ map (λ e. length e.evidence) v.body.dependencies
      ++ map (λ e. length e.evidence) v.body.containment)
  total ←
      count_each c.max_input_aux_records aux
        (v.component_sizes ++ (v.cycle_sizes ++ sizes_of v.analysis_reasons))
  ok tt

abbrev pub Nodes : Type 0
Nodes = List (Text × DependencyNode)

abbrev pub has_node : Nodes → Text → Bool
has_node nodes id = elim (lookup id nodes) [ some n ↦ not (is_empty n.id) | none ↦ false ]

abbrev identity_eq : NodeIdentity → NodeIdentity → Bool
identity_eq a b =
    text_eq a.kind b.kind
    && (text_eq a.language b.language
        && (text_eq a.qualified_name b.qualified_name
            && (text_eq a.repository_path b.repository_path && text_eq a.resolution b.resolution)))

abbrev is_normal : NodeIdentity → Bool
is_normal id = elim (normalize_identity id) [ ok norm ↦ identity_eq norm id | err _ ↦ false ]

abbrev pub contains_text : Text → List Text → Bool
contains_text t [] = false
contains_text t (x ∷ xs) = text_eq x t || contains_text t xs

module _ (sha256_hex : Text → Text) where
  unfoldable pub index_nodes : Nodes → List DependencyNode → Result Nodes
  index_nodes nodes [] = ok nodes
  index_nodes nodes (n ∷ ns) = do
    require
        (is_normal n.identity
          && (text_eq n.id (node_id sha256_hex n.identity) && not (has_node nodes n.id)))
        inconsistent
    index_nodes (insert n.id n nodes) ns

  unfoldable pub check_edges : Nodes → List Text → List DependencyEdge → Result (Unit {0})
  check_edges nodes seen [] = ok tt
  check_edges nodes seen (e ∷ es) = do
    require
        (valid_graph e.graph
          && (valid_dependency e.kind
              && (valid_resolution e.resolution
                  && (not (e.occurrences == 0)
                      && (has_node nodes e.from_node_id
                          && (has_node nodes e.to_node_id
                              && (not (contains_text e.id seen)
                                  && text_eq e.id (
                                      edge_id sha256_hex e.graph e.kind e.from_node_id e.to_node_id
                                        e.resolution))))))))
        inconsistent
    check_edges nodes (e.id ∷ seen) es

  unfoldable pub check_containment : Nodes → List Text → List ContainmentEdge → Result (Unit {0})
  check_containment nodes seen [] = ok tt
  check_containment nodes seen (e ∷ es) = do
    require
        (valid_containment e.kind
          && (has_node nodes e.parent_id
              && (has_node nodes e.child_id
                  && (not (contains_text e.id seen)
                      && text_eq e.id (containment_id sha256_hex e.kind e.parent_id e.child_id)))))
        inconsistent
    check_containment nodes (e.id ∷ seen) es

-- `graphIndex`: the nodes by identifier, and the edges that the adjacency lists are made of
pub record GraphIndex : Type 0 where
  pub nodes : Nodes
  pub edges : List DependencyEdge

unfoldable pub index : (Text → Text) → AnalysisConfig → Inventory → Result GraphIndex
unfolding check_limits index_nodes check_edges check_containment
index sha256_hex c v = do
  check_limits c v
  nodes ← index_nodes sha256_hex [] v.body.nodes
  check_edges sha256_hex nodes [] v.body.dependencies
  check_containment sha256_hex nodes [] v.body.containment
  ok (record { nodes = nodes; edges = v.body.dependencies })

-- `localVertex(x.nodes[id], g)`; the zero node is local in no graph
unfoldable pub is_local : GraphIndex → Text → Text → Bool
is_local x graph id = elim (lookup id x.nodes) [ some n ↦ local_vertex n graph | none ↦ false ]

unfoldable pub eligible : GraphIndex → DependencyEdge → Bool
unfolding is_local
eligible x e =
    text_eq e.resolution (text "resolved_local")
    && (is_local x e.graph e.from_node_id && is_local x e.graph e.to_node_id)

abbrev pub select {ℓ} : {A : Type ℓ} → (A → Bool) → List A → List A
select p [] = []
select p (a ∷ more) = let rest = select p more in if p a then a ∷ rest else rest

-- `x.out[g][id]` and `x.in[g][id]`, sorted by the other endpoint and then by identifier
unfoldable pub out_edges : GraphIndex → Text → Text → List DependencyEdge
out_edges x graph id =
    sort_by
      (λ a b.
        if not (text_eq a.to_node_id b.to_node_id)
        then text_lt a.to_node_id b.to_node_id
        else text_lt a.id b.id)
      (select (λ e. text_eq e.graph graph && text_eq e.from_node_id id) x.edges)

unfoldable pub in_edges : GraphIndex → Text → Text → List DependencyEdge
in_edges x graph id =
    sort_by
      (λ a b.
        if not (text_eq a.from_node_id b.from_node_id)
        then text_lt a.from_node_id b.from_node_id
        else text_lt a.id b.id)
      (select (λ e. text_eq e.graph graph && text_eq e.to_node_id id) x.edges)
