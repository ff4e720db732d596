-- ===== src/Die/Limits.antt =====
-- Limits of analysis and the checks of impact queries (backend/die/analysis_config.go).
pub mod Settings
use software_engineering_pla.Shared.{
  ℕ, Bool, true, not, ◌&&◌, ◌||◌, List, [], ◌∷◌, ltb, ◌==◌, if◌then◌else◌, length, drop,
}
use software_engineering_pla.Die.Text.{
  Text, text, text_lt, has_prefix, valid_digest, sort_by, dedupe,
}
use software_engineering_pla.Die.Model.{
  Error, error, invalid_input, Result, ok, err, ◌>>=◌, ◌>>◌, require, valid_graph, or_default,
}

abbrev pub invalid_config : Error
invalid_config = error invalid_input "invalid_analysis_config"

abbrev pub invalid_query : Error
invalid_query = error invalid_input "invalid_query"

-- `AnalysisConfigParams`
pub record AnalysisConfig : Type 0 where
  pub max_input_nodes : ℕ
  pub max_input_edges : ℕ
  pub max_input_evidence : ℕ
  pub max_input_aux_records : ℕ
  pub max_components : ℕ
  pub max_cycles : ℕ
  pub max_traversal_nodes : ℕ
  pub max_traversal_edges : ℕ
  pub max_traversal_depth : ℕ
  pub max_page_size : ℕ

-- one round of the loop: the default for 0, and the maximum
unfoldable pub bounded : ℕ → ℕ → ℕ → Result ℕ
bounded value default maximum =
    if ltb maximum (or_default value default)
    then err invalid_config
    else ok (or_default value default)

unfoldable pub new_analysis_config : AnalysisConfig → Result AnalysisConfig
unfolding bounded
new_analysis_config p = do
  nodes ← bounded p.max_input_nodes 1000000 10000000
  edges ← bounded p.max_input_edges 2000000 20000000
  evidence ← bounded p.max_input_evidence 4000000 20000000
  aux ← bounded p.max_input_aux_records 2000000 20000000
  components ← bounded p.max_components 1000000 10000000
  cycles ← bounded p.max_cycles 1000000 10000000
  traversal_nodes ← bounded p.max_traversal_nodes 100000 1000000
  traversal_edges ← bounded p.max_traversal_edges 1000000 20000000
  let depth = or_default p.max_traversal_depth 64
  let page = or_default p.max_page_size 100
  require
      (not (
        ltb 4096 depth
        || (ltb 1000 page
            || (ltb components cycles
                || (ltb nodes components
                    || (ltb nodes traversal_nodes || ltb edges traversal_edges))))))
      invalid_config
  ok (record {
    max_input_nodes = nodes;
    max_input_edges = edges;
    max_input_evidence = evidence;
    max_input_aux_records = aux;
    max_components = components;
    max_cycles = cycles;
    max_traversal_nodes = traversal_nodes;
    max_traversal_edges = traversal_edges;
    max_traversal_depth = depth;
    max_page_size = page;
  })

pub data TraversalDirection : Type 0 where
  dependencies dependents : TraversalDirection

-- `ImpactQueryParams`; a direction that is neither constant is refused at once, and left out here
pub record ImpactQuery : Type 0 where
  pub node_ids : List Text
  pub graph : Text
  pub direction : TraversalDirection
  pub max_depth : ℕ
  pub max_nodes : ℕ
  pub max_edges : ℕ

-- `analysisNodeID`: the prefix has 29 bytes
unfoldable pub analysis_node_id : Text → Bool
analysis_node_id s = has_prefix s (text "dependency-node-id/v1:sha256:") && valid_digest (drop 29 s)

all_node_ids : List Text → Bool
all_node_ids [] = true
all_node_ids (id ∷ ids) = analysis_node_id id && all_node_ids ids

-- `ImpactQueryParams.NodeIDs` sorted without duplicates
unfoldable pub new_impact_query : ImpactQuery → Result ImpactQuery
unfolding all_node_ids dedupe
new_impact_query p = do
  require
      (not (
        length p.node_ids == 0
        || (ltb 1000000 (length p.node_ids)
            || (not (valid_graph p.graph)
                || (ltb 4096 p.max_depth
                    || (ltb 1000000 p.max_nodes || ltb 20000000 p.max_edges))))))
      invalid_query
  require (all_node_ids p.node_ids) invalid_query
  ok (record p { node_ids = dedupe (λ s. s) (sort_by text_lt p.node_ids) })
