-- ===== src/Die/Normalize.antt =====
-- Normalization of graph input (backend/die/implementation.go: `Normalize` and its parts).
--
-- The maps are association lists in the order of first insertion. Go iterates them in any order, and
-- each list made from one is then sorted by a chain of keys that ends with the unique identifier.
-- The context is polled where the code polls it: `Polls` says where it has ended. The view's
-- metadata, constant texts, and the copies that accessors make are left out.
pub mod Edges
pub mod Whole
pub mod Counts
pub mod Occurrences
pub mod Samples
use software_engineering_pla.Shared.{
  ℕ, ◌+◌, ◌-◌, ◌%◌, ◌^◌, Bool, true, false, not, ◌&&◌, ◌||◌, List, [], ◌∷◌, ◌++◌, Option, none,
  some, ltb, ◌==◌, if◌then◌else◌, length, take,
}
use software_engineering_pla.Shared.Int.{ℤ, ltb_ℤ}
use software_engineering_pla.Die.Text.{
  Text, text_eq, text_lt, is_empty, safe_text, valid_digest, sort_by, dedupe, lookup, insert,
  values,
}
use software_engineering_pla.Die.Path.{normalize_path}
use software_engineering_pla.Die.Model.{
  Error, error, invalid_input, integrity, limit_exceeded, canceled, Result, ok, err, ◌>>=◌, ◌>>◌,
  require, valid_graph, valid_dependency, valid_containment, valid_resolution, ArtifactReference,
  SourceIdentity, DependencyEvidence, NodeIdentity, NodeCandidate, ContainmentCandidate,
  DependencyCandidate, DiagnosticCandidate, GraphInput, DependencyNode, ContainmentEdge,
  DependencyEdge, Config,
}
use software_engineering_pla.Die.Evidence.{
  validate_source, normalize_evidence, merge_evidence, limited,
}
use software_engineering_pla.Die.Identity.{
  normalize_identity, identity_key, node_id, edge_id, containment_id,
}

abbrev pub analysis_canceled : Error
analysis_canceled = error canceled "analysis_canceled"

-- `^uint64(0)`
abbrev pub no_limit : ℕ
no_limit = 2 ^ 64 - 1

-- at which polls the context has ended
pub record Polls : Type 0 where
  pub at_start : Bool
  pub at_node : ℕ → Bool
  pub at_containment : ℕ → Bool
  pub at_edge : ℕ → Bool

-- the poll of every 1024th round
abbrev pub checkpoint : (ℕ → Bool) → ℕ → Result (Unit {0})
checkpoint ended i = require (not (i % 1024 == 0 && ended i)) analysis_canceled

-- `normalizeSources`
abbrev check_source_artifact : ArtifactReference → Result (Unit {0})
check_source_artifact v = do
  require
      (not (
        not (safe_text v.name)
        || (not (safe_text v.version) || (is_empty v.name || is_empty v.version))))
      (error invalid_input "invalid_source_artifact")
  require (is_empty v.digest || valid_digest v.digest) (error invalid_input "invalid_source_digest")

check_source_artifacts : List ArtifactReference → Result (Unit {0})
check_source_artifacts [] = ok tt
check_source_artifacts (v ∷ vs) = do check_source_artifact v; check_source_artifacts vs

abbrev artifact_less : ArtifactReference → ArtifactReference → Bool
artifact_less a b =
    if not (text_eq a.name b.name)
    then text_lt a.name b.name
    else if not (text_eq a.version b.version)
    then text_lt a.version b.version
    else text_lt a.digest b.digest

abbrev artifact_eq : ArtifactReference → ArtifactReference → Bool
artifact_eq a b =
    text_eq a.name b.name && (text_eq a.version b.version && text_eq a.digest b.digest)

abbrev has_neighbours : List ArtifactReference → Bool
has_neighbours [] = false
has_neighbours (a ∷ []) = false
has_neighbours (a ∷ b ∷ rest) = artifact_eq a b || has_neighbours (b ∷ rest)

unfoldable pub normalize_sources : List ArtifactReference → Result (List ArtifactReference)
unfolding check_source_artifacts
normalize_sources vs = do
  check_source_artifacts vs
  let out = sort_by artifact_less vs
  require (not (has_neighbours out)) (error invalid_input "duplicate_source_artifact")
  ok out

abbrev source_eq : SourceIdentity → SourceIdentity → Bool
source_eq a b =
    text_eq a.artifact_name b.artifact_name
    && (text_eq a.artifact_version b.artifact_version && text_eq a.source_id b.source_id)

abbrev pub node_less : DependencyNode → DependencyNode → Bool
node_less a b =
    if not (text_eq a.identity.kind b.identity.kind)
    then text_lt a.identity.kind b.identity.kind
    else if not (text_eq a.identity.qualified_name b.identity.qualified_name)
    then text_lt a.identity.qualified_name b.identity.qualified_name
    else if not (text_eq a.identity.repository_path b.identity.repository_path)
    then text_lt a.identity.repository_path b.identity.repository_path
    else text_lt a.id b.id

abbrev pub containment_less : ContainmentEdge → ContainmentEdge → Bool
containment_less a b =
    if not (text_eq a.kind b.kind)
    then text_lt a.kind b.kind
    else if not (text_eq a.parent_id b.parent_id)
    then text_lt a.parent_id b.parent_id
    else if not (text_eq a.child_id b.child_id)
    then text_lt a.child_id b.child_id
    else text_lt a.id b.id

abbrev pub edge_less : DependencyEdge → DependencyEdge → Bool
edge_less a b =
    if not (text_eq a.graph b.graph)
    then text_lt a.graph b.graph
    else if not (text_eq a.kind b.kind)
    then text_lt a.kind b.kind
    else if not (text_eq a.from_node_id b.from_node_id)
    then text_lt a.from_node_id b.from_node_id
    else if not (text_eq a.to_node_id b.to_node_id)
    then text_lt a.to_node_id b.to_node_id
    else if not (text_eq a.resolution b.resolution)
    then text_lt a.resolution b.resolution
    else text_lt a.id b.id

-- the maps `byID` and `identities` of `normalizeNodes`
pub record NodeMaps : Type 0 where
  pub by_id : List (Text × DependencyNode)
  pub identities : List (Text × Text)

-- Evidence kept for an item, with the count of what is left out. Its error is discarded, as in the
-- source: the evidence has been checked.
unfoldable pub keep_evidence : List DependencyEvidence → ℕ → List DependencyEvidence × ℕ
keep_evidence vs limit = elim (normalize_evidence vs limit) [ ok kept ↦ kept | err _ ↦ ([], 0) ]

unfoldable pub node_round_kept : List (Text × DependencyNode) → ℕ → List DependencyNode × ℕ
unfolding keep_evidence
node_round_kept [] limit = ([], 0)
node_round_kept ((_, n) ∷ m) limit =
    let (kept, omitted) = keep_evidence n.evidence limit in
    let (rest, total) = node_round_kept m limit in
    (record n { evidence = kept } ∷ rest, omitted + total)

module _ (sha256_hex : Text → Text) (c : Config) where
  unfoldable pub add_node : NodeMaps → DependencyNode → Text → Result NodeMaps
  add_node maps n key = elim (lookup n.id maps.by_id) [
    | some prior ↦ do
      require (text_eq prior.name n.name && source_eq prior.source_identity n.source_identity)
          (error integrity "conflicting_node")
      ok (record maps {
        by_id =
            insert n.id (record prior { evidence = merge_evidence prior.evidence n.evidence })
              maps.by_id;
      })
    | none ↦
        let by_id = insert n.id n maps.by_id in
        do
          require (not (ltb c.max_nodes (length by_id))) (error limit_exceeded "max_nodes_exceeded")
          ok (record { by_id = by_id; identities = insert key n.id maps.identities })
  ]

  unfoldable pub node_round : NodeMaps → NodeCandidate → Result NodeMaps
  unfolding add_node
  node_round maps candidate = do
    identity ← normalize_identity candidate.identity
    validate_source candidate.source_identity
    kept ← normalize_evidence candidate.evidence no_limit
    let n : DependencyNode = record {
      id = node_id sha256_hex identity;
      identity = identity;
      name = candidate.name;
      source_identity = candidate.source_identity;
      evidence = kept.0;
    }
    add_node maps n (identity_key identity)

  unfoldable pub node_rounds : (ℕ → Bool) → ℕ → NodeMaps → List NodeCandidate → Result NodeMaps
  unfolding node_round
  node_rounds ended i maps [] = ok maps
  node_rounds ended i maps (v ∷ vs) = do
    checkpoint ended i
    next ← node_round maps v
    node_rounds ended (i + 1) next vs

  unfoldable pub normalize_nodes :
      (ℕ → Bool) → List NodeCandidate → Result (List DependencyNode × List (Text × Text) × ℕ)
  unfolding node_rounds node_round_kept
  normalize_nodes ended vs = do
    maps ← node_rounds ended 0 (record { by_id = []; identities = [] }) vs
    let kept = node_round_kept maps.by_id c.max_evidence_per_item
    ok (sort_by node_less kept.0, maps.identities, kept.1)
