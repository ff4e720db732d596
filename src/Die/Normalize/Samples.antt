-- ===== src/Die/Normalize/Samples.antt =====
-- Two files, one of which imports the other twice (backend/die), and the theorems at them. The hash
-- is a stand-in: the text itself.
use software_engineering_pla.Shared.{ℕ, ◌+◌, ◌≤◌, All, ◌≡◌, refl, false, List, [], ◌∷◌, length}
use software_engineering_pla.Die.Text.{Text, text, safe_text, dedupe, sort_by}
use software_engineering_pla.Die.Path.Canonical.{IsName, joined, normalize_path_inside}
use software_engineering_pla.Die.Path.{normalize_path, clean}
use software_engineering_pla.Die.Evidence.{
  validate_source, check_all, canonical_evidence, normalize_evidence,
}
use software_engineering_pla.Die.Model.{
  ok, Config, new_config, GraphInput, NodeIdentity, SourceIdentity, NodeCandidate,
  DependencyCandidate, DependencyNode, DependencyEdge,
}
use software_engineering_pla.Die.Identity.{node_id, edge_id, identity_key, normalize_identity}
use software_engineering_pla.Die.Normalize.{
  Polls, normalize_sources, keep_evidence, normalize_nodes,
}
use software_engineering_pla.Die.Normalize.Edges.{
  EdgeResult, edge_round, normalize_containment, normalize_edges,
}
use software_engineering_pla.Die.Normalize.Whole.{
  check_diagnostics, diagnostic_key, diagnostic_less, DependencyInventory, normalize_diagnostics,
  normalize,
}
use software_engineering_pla.Die.Normalize.Counts.{normalize_bounds}
use software_engineering_pla.Die.Normalize.Occurrences.{total, normalize_edges_counts}

abbrev hash : Text → Text
hash t = t

abbrev identity_of : Text → NodeIdentity
identity_of path = record {
  kind = text "file";
  language = text "go";
  qualified_name = path;
  repository_path = path;
  resolution = text "resolved_local";
}

abbrev origin : SourceIdentity
origin = record { artifact_name = text "x"; artifact_version = text "1"; source_id = text "s" }

abbrev candidate_of : Text → NodeCandidate
candidate_of path = record {
  identity = identity_of path;
  name = path;
  source_identity = origin;
  evidence = [];
}

abbrev node_of : Text → DependencyNode
node_of path = record {
  id = node_id hash (identity_of path);
  identity = identity_of path;
  name = path;
  source_identity = origin;
  evidence = [];
}

abbrev import_of : Text → Text → DependencyCandidate
import_of from to = record {
  graph = text "file";
  kind = text "imports";
  source = identity_of from;
  target = identity_of to;
  resolution = text "resolved_local";
  evidence = [];
}

abbrev edge_of : Text → Text → ℕ → DependencyEdge
edge_of from to occurrences = record {
  id =
      edge_id hash (text "file") (text "imports") (node_id hash (identity_of from))
        (node_id hash (identity_of to)) (text "resolved_local");
  graph = text "file";
  kind = text "imports";
  from_node_id = node_id hash (identity_of from);
  to_node_id = node_id hash (identity_of to);
  resolution = text "resolved_local";
  occurrences = occurrences;
  evidence = [];
  omitted_evidence = 0;
}

abbrev config : Config
config = record { max_nodes = 10; max_edges = 10; max_evidence_per_item = 8; max_diagnostics = 10 }

abbrev never : Polls
never = record {
  at_start = false;
  at_node = λ i. false;
  at_containment = λ i. false;
  at_edge = λ i. false;
}

abbrev imports : List DependencyCandidate
imports = import_of (text "b") (text "a") ∷ import_of (text "b") (text "a") ∷ []

abbrev input : GraphInput
input = record {
  source_artifacts = [];
  nodes = candidate_of (text "b") ∷ candidate_of (text "a") ∷ [];
  containment = [];
  dependencies = imports;
  diagnostics = [];
}

abbrev node_ids : List (Text × Text)
node_ids =
    (identity_key (identity_of (text "b")), node_id hash (identity_of (text "b")))
    ∷ (identity_key (identity_of (text "a")), node_id hash (identity_of (text "a")))
    ∷ []

abbrev edges : EdgeResult
edges = record {
  edges = edge_of (text "b") (text "a") 2 ∷ [];
  omitted = 0;
  omitted_evidence = 0;
  by_graph = (text "file", 1) ∷ [];
  by_resolution = (text "resolved_local", 1) ∷ [];
}

abbrev inventory : DependencyInventory
inventory = record {
  source_artifacts = [];
  nodes = node_of (text "a") ∷ node_of (text "b") ∷ [];
  containment = [];
  dependencies = edges.edges;
  diagnostics = [];
  statistics = record {
    nodes_by_kind = (text "file", 2) ∷ [];
    edges_by_graph = (text "file", 1) ∷ [];
    edges_by_resolution = (text "resolved_local", 1) ∷ [];
    diagnostics = 0;
    omitted_diagnostics = 0;
    omitted_nodes = 0;
    omitted_containment = 0;
    omitted_edges = 0;
    omitted_evidence = 0;
  };
}

inventory_is : normalize hash config never input ≡ ok inventory
unfolding normalize normalize_sources normalize_nodes normalize_containment normalize_diagnostics
    validate_source normalize_edges edge_round normalize_identity safe_text normalize_path clean
    identity_key normalize_evidence check_all edge_id node_id keep_evidence canonical_evidence
inventory_is = refl

edges_are : normalize_edges hash node_ids config never.at_edge imports ≡ ok edges
unfolding normalize_edges edge_round normalize_identity safe_text normalize_path clean identity_key
    normalize_evidence check_all edge_id node_id keep_evidence canonical_evidence
edges_are = refl

normalize_bounds_example :
    (length inventory.nodes ≤ 10)
    × (length inventory.containment ≤ 10)
    × (length inventory.dependencies ≤ 10)
    × (length inventory.diagnostics ≤ 10)
    × ((ws : _) × (check_diagnostics input.diagnostics ≡ ok ws)
        × (length inventory.diagnostics + inventory.statistics.omitted_diagnostics
            ≡ length (dedupe diagnostic_key (sort_by diagnostic_less ws))))
normalize_bounds_example = normalize_bounds hash config never input inventory inventory_is

normalize_edges_counts_example : total edges.edges ≡ 2
normalize_edges_counts_example =
    normalize_edges_counts hash node_ids config never.at_edge imports edges edges_are refl

abbrev default_config : Config
default_config = record {
  max_nodes = 1000000;
  max_edges = 2000000;
  max_evidence_per_item = 8;
  max_diagnostics = 1000;
}

config_is :
    new_config
      (record { max_nodes = 0; max_edges = 0; max_evidence_per_item = 0; max_diagnostics = 0 })
    ≡ ok default_config
unfolding new_config
config_is = refl

path_is : normalize_path (text ".//a/b/../c") ≡ ok (text "a/c")
unfolding normalize_path clean
path_is = refl

normalize_path_inside_example : (kept : List Text) × All IsName kept × (text "a/c" ≡ joined kept)
normalize_path_inside_example = normalize_path_inside (text ".//a/b/../c") (text "a/c") path_is
