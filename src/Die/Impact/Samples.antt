-- ===== src/Die/Impact/Samples.antt =====
-- An inventory with two files, one importing the other, and an import of a file that is not resolved
-- (backend/die), and the theorems at it. The hash is a stand-in: the text itself.
use mathlib.Core.List.Memᴰ.{head}
use software_engineering_pla.Shared.{
  length, ◌+◌, ◌≤◌, ◌≡◌, refl, ◌⊎◌, true, false, [], ◌∷◌, map, arith, All, none,
}
use software_engineering_pla.Die.Text.{Text, text, safe_text}
use software_engineering_pla.Die.Model.{ok, NodeIdentity, DependencyNode, DependencyEdge}
use software_engineering_pla.Die.Identity.{node_id, edge_id, normalize_identity}
use software_engineering_pla.Die.Identity.Framing.{Collision, stable_id_distinct}
use software_engineering_pla.Die.Path.{normalize_path, clean}
use software_engineering_pla.Die.Limits.{
  new_analysis_config, AnalysisConfig, ImpactQuery, dependencies,
}
use software_engineering_pla.Die.Graph.{
  Inventory, GraphIndex, index, supported, is_local, out_edges, eligible,
}
use software_engineering_pla.Die.Impact.{
  ImpactResult, impact, arcs, traverse, scan_front, scan_arcs, scan_arc,
}
use software_engineering_pla.Die.Impact.Sets.{◌∈◌}
use software_engineering_pla.Die.Impact.Walks.{Walk, begin, extend, Shortest}
use software_engineering_pla.Die.Impact.Report.{impact_bounds, impact_sound, impact_complete}

abbrev hash : Text → Text
hash t = t

abbrev identity_of : Text → Text → NodeIdentity
identity_of path resolution = record {
  kind = text "file";
  language = text "go";
  qualified_name = path;
  repository_path = path;
  resolution = resolution;
}

abbrev a_identity : NodeIdentity
a_identity = identity_of (text "a.go") (text "resolved_local")

abbrev b_identity : NodeIdentity
b_identity = identity_of (text "b.go") (text "resolved_local")

abbrev node_of : NodeIdentity → DependencyNode
node_of v = record {
  id = node_id hash v;
  identity = v;
  name = v.qualified_name;
  source_identity = record {
    artifact_name = text "x";
    artifact_version = text "1";
    source_id = text "s";
  };
  evidence = [];
}

abbrev edge_of : NodeIdentity → NodeIdentity → DependencyEdge
edge_of v w = record {
  id =
      edge_id hash (text "file") (text "imports") (node_id hash v) (node_id hash w)
        (text "resolved_local");
  graph = text "file";
  kind = text "imports";
  from_node_id = node_id hash v;
  to_node_id = node_id hash w;
  resolution = text "resolved_local";
  occurrences = 1;
  evidence = [];
  omitted_evidence = 0;
}

abbrev inventory : Inventory
inventory = record {
  artifact = supported;
  body = record {
    source_artifacts = [];
    nodes = node_of a_identity ∷ node_of b_identity ∷ [];
    containment = [];
    dependencies = edge_of a_identity b_identity ∷ [];
    diagnostics = [];
    statistics = record {
      nodes_by_kind = [];
      edges_by_graph = [];
      edges_by_resolution = [];
      diagnostics = 0;
      omitted_diagnostics = 0;
      omitted_nodes = 0;
      omitted_containment = 0;
      omitted_edges = 0;
      omitted_evidence = 0;
    };
  };
  component_sizes = [];
  cycle_sizes = [];
  analysis_reasons = none;
}

abbrev config : AnalysisConfig
config = record {
  max_input_nodes = 1000;
  max_input_edges = 1000;
  max_input_evidence = 1000;
  max_input_aux_records = 1000;
  max_components = 1000;
  max_cycles = 1000;
  max_traversal_nodes = 100;
  max_traversal_edges = 100;
  max_traversal_depth = 64;
  max_page_size = 100;
}

abbrev query : ImpactQuery
query = record {
  node_ids = node_id hash a_identity ∷ [];
  graph = text "file";
  direction = dependencies;
  max_depth = 0;
  max_nodes = 0;
  max_edges = 0;
}

abbrev indexed : GraphIndex
indexed = record {
  nodes =
      (node_id hash a_identity, node_of a_identity)
      ∷ (node_id hash b_identity, node_of b_identity)
      ∷ [];
  edges = edge_of a_identity b_identity ∷ [];
}

abbrev answer : ImpactResult
answer = record {
  seeds = node_id hash a_identity ∷ [];
  reached = (node_id hash b_identity, 1) ∷ [];
  boundary_node_ids = [];
  edge_ids = (edge_of a_identity b_identity).id ∷ [];
  visited_nodes = 2;
  scanned_edges = 1;
  max_depth_reached = 1;
  truncated = false;
}

index_is : index hash config inventory ≡ ok indexed
unfolding index node_id edge_id normalize_identity safe_text normalize_path clean
index_is = refl

answer_is : impact hash config inventory query ≡ ok answer
unfolding impact index node_id edge_id normalize_identity safe_text normalize_path clean is_local
    traverse scan_front scan_arcs arcs out_edges scan_arc eligible
answer_is = refl

walk_to_b :
    Walk (arcs indexed (text "file") dependencies) query.node_ids (node_id hash b_identity) 1
unfolding node_id edge_id arcs out_edges eligible is_local
walk_to_b =
    extend {id = node_id hash a_identity} (begin refl)
      (record {
        id = (edge_of a_identity b_identity).id;
        target = node_id hash b_identity;
        is_eligible = true;
      })
      (head {xs = []} refl) refl

impact_bounds_example :
    (answer.visited_nodes ≤ 100)
    × (answer.scanned_edges ≤ 100)
    × (length answer.reached + length query.node_ids ≤ 100)
    × (length answer.edge_ids ≤ 100)
    × (answer.max_depth_reached ≤ 64)
    × All (λ n. n.1 ≤ 64) answer.reached
impact_bounds_example = impact_bounds hash config inventory query answer answer_is

impact_sound_example :
    All (Shortest (arcs indexed (text "file") dependencies) query.node_ids) answer.reached
impact_sound_example = impact_sound hash config inventory query answer indexed index_is answer_is

impact_complete_example :
    node_id hash b_identity ∈ query.node_ids
    ⊎ node_id hash b_identity ∈ map (λ n. n.0) answer.reached
impact_complete_example =
    impact_complete hash config inventory query answer indexed index_is answer_is refl
      (node_id hash b_identity) 1 walk_to_b

stable_id_distinct_example : (a_identity.kind ∷ [] ≡ text "file" ∷ []) ⊎ Collision hash
stable_id_distinct_example =
    stable_id_distinct hash "dependency-node-id/v1" (a_identity.kind ∷ []) (text "file" ∷ [])
      (omega arith, (omega arith, tt)) (omega arith, tt) refl

-- all settings left to their defaults
abbrev zero_settings : AnalysisConfig
zero_settings = record {
  max_input_nodes = 0;
  max_input_edges = 0;
  max_input_evidence = 0;
  max_input_aux_records = 0;
  max_components = 0;
  max_cycles = 0;
  max_traversal_nodes = 0;
  max_traversal_edges = 0;
  max_traversal_depth = 0;
  max_page_size = 0;
}

abbrev default_settings : AnalysisConfig
default_settings = record {
  max_input_nodes = 1000000;
  max_input_edges = 2000000;
  max_input_evidence = 4000000;
  max_input_aux_records = 2000000;
  max_components = 1000000;
  max_cycles = 1000000;
  max_traversal_nodes = 100000;
  max_traversal_edges = 1000000;
  max_traversal_depth = 64;
  max_page_size = 100;
}

settings_are : new_analysis_config zero_settings ≡ ok default_settings
unfolding new_analysis_config
settings_are = refl
