-- ===== src/Die/Graph/Integrity.antt =====
-- The checks of an inventory's edges in the index (backend/die/analysis.go, `index`).
use software_engineering_pla.Shared.{
  ◌≡◌, refl, subst, true, false, not, ◌&&◌, List, [], ◌∷◌, arith, All, ◌==◌,
}
use software_engineering_pla.Die.Text.{Text, text_eq}
use software_engineering_pla.Die.Text.Order.{text_eq_sound}
use software_engineering_pla.Die.Model.{
  Result, ok, err, ◌>>◌, require, bind_ok, then_ok, ok_value, DependencyEdge, valid_graph,
  valid_dependency, valid_resolution,
}
use software_engineering_pla.Die.Identity.{edge_id}
use software_engineering_pla.Die.Limits.{AnalysisConfig}
use software_engineering_pla.Die.Graph.{
  Nodes, has_node, contains_text, Inventory, GraphIndex, check_limits, index_nodes, check_edges,
  check_containment, index, inconsistent,
}

-- an edge between nodes of the index, with the identifier that its fields give it
pub record IsSound (sha256_hex : Text → Text) (nodes : Nodes) (e : DependencyEdge) : Type 0 where
  pub from : has_node nodes e.from_node_id ≡ true
  pub to : has_node nodes e.to_node_id ≡ true
  pub occurs : (e.occurrences == 0) ≡ false
  pub is_stable : e.id ≡ edge_id sha256_hex e.graph e.kind e.from_node_id e.to_node_id e.resolution

-- no identifier of an edge twice, and none of those given
abbrev pub AllNew : List Text → List DependencyEdge → Type 0
AllNew seen [] = Unit
AllNew seen (e ∷ es) = (contains_text e.id seen ≡ false) × AllNew (e.id ∷ seen) es

-- where two calls succeed in turn, the first does
first_ok {κ} :
    {W : Type κ} (x : Result (Unit {0})) (next : Result W) (w : W)
    → (x >> next) ≡ ok w
    → (x ≡ ok tt) × (next ≡ ok w)
first_ok (err failure) next w e = absurd (cc)
first_ok (ok tt) next w e = (refl, e)

module _ (sha256_hex : Text → Text) where
  -- the condition of the loop at one edge
  check_edge_lem :
      (nodes : Nodes) (seen : List Text) (e : DependencyEdge)
      → require
          (valid_graph e.graph
            && (valid_dependency e.kind
                && (valid_resolution e.resolution
                    && (not (e.occurrences == 0)
                        && (has_node nodes e.from_node_id
                            && (has_node nodes e.to_node_id
                                && (not (contains_text e.id seen)
                                    && text_eq e.id (
                                        edge_id sha256_hex e.graph e.kind e.from_node_id
                                          e.to_node_id e.resolution))))))))
          inconsistent
        ≡ ok tt
      → IsSound sha256_hex nodes e × (contains_text e.id seen ≡ false)
  check_edge_lem nodes seen e r = (
    record {
      from = ground arith;
      to = ground arith;
      occurs = ground arith;
      is_stable = text_eq_sound _ _ (ground arith);
    },
    ground arith,
  )

  check_edges_lem :
      (nodes : Nodes) (seen : List Text) (es : List DependencyEdge)
      → check_edges sha256_hex nodes seen es ≡ ok tt
      → All (IsSound sha256_hex nodes) es × AllNew seen es
  unfolding check_edges
  check_edges_lem nodes seen [] h = (tt, tt)
  check_edges_lem nodes seen (e ∷ es) h =
      let (r, rest) = first_ok _ (check_edges sha256_hex nodes (e.id ∷ seen) es) tt h in
      let (sound, new) = check_edge_lem nodes seen e r in
      let (sounds, news) = check_edges_lem nodes (e.id ∷ seen) es rest in
      ((sound, sounds), (new, news))

-- Where the index is built, every edge joins two nodes of the index, occurs at least once and has the
-- stable identifier of its fields, and no two edges share an identifier.
pub index-IsSound :
    (sha256_hex : Text → Text) (c : AnalysisConfig) (v : Inventory) (x : GraphIndex)
    → index sha256_hex c v ≡ ok x
    → All (IsSound sha256_hex x.nodes) x.edges × AllNew [] x.edges
unfolding index
index-IsSound sha256_hex c v x e =
    let (nodes, _, e1) =
      bind_ok (index_nodes sha256_hex [] v.body.nodes) _ x (then_ok (check_limits c v) _ x e) in
    let (f, e2) = first_ok (check_edges sha256_hex nodes [] v.body.dependencies) _ x e1 in
    let same =
      ok_value _ x (then_ok (check_containment sha256_hex nodes [] v.body.containment) _ x e2) in
    subst (λ y. All (IsSound sha256_hex y.nodes) y.edges × AllNew [] y.edges) same
      (check_edges_lem sha256_hex nodes [] v.body.dependencies f)
