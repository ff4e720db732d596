-- ===== src/Scan/Analysis/Chains.antt =====
-- Chains of dependencies between candidates, and the edges that `NewAnalysisResult` makes of them
-- (backend/service/repository/scan/model.go).
use software_engineering_pla.Shared.{
  ◌≡◌, refl, sym, subst, ◌⊎◌, inl, inr, true, ◌&&◌, ◌||◌, List, [], ◌∷◌, ◌++◌, map, arith,
  Bool-cases,
}
use software_engineering_pla.Die.Text.{Text, text_eq, insert}
use software_engineering_pla.Die.Text.Order.{text_eq_sound, text_eq_refl}
use software_engineering_pla.Die.Text.Maps.{lookup-insert}
use software_engineering_pla.Scan.Model.{
  ArtifactDependency, ArtifactCandidate, candidate_key, dependency_key, is_seen,
}
use software_engineering_pla.Scan.Analysis.{Edges, edges_of, add_edges, candidate_edges}
use software_engineering_pla.Scan.Analysis.Graph.{Walk, edge, further}

-- a candidate with the first key has a dependency with the second
abbrev pub Depends : List ArtifactCandidate → Text → Text → Type 0
Depends [] j k = ⊥
Depends (c ∷ cs) j k =
    ((candidate_key c ≡ j) × (is_seen k (map dependency_key c.dependencies) ≡ true))
    ⊎ Depends cs j k

-- a chain of one dependency or more
pub data Chain (cs : List ArtifactCandidate) (j : Text) : Text → Type 0 where
  link : (k : Text) → Depends cs j k → Chain cs j k
  onward : (k l : Text) → Chain cs j k → Depends cs k l → Chain cs j l

is_seen-append :
    (k d : Text) (ks : List Text) → is_seen k (ks ++ d ∷ []) ≡ is_seen k ks || is_seen k (d ∷ [])
is_seen-append k d [] = refl
is_seen-append k d (j ∷ ks) = ground (arith, is_seen-append k d ks)

-- an edge is kept, and a new one added
insert-edge :
    (edges : Edges) (i j k d : Text)
    → is_seen k (edges_of edges j) || (text_eq i j && is_seen k (d ∷ [])) ≡ true
    → is_seen k (edges_of (insert i (edges_of edges i ++ d ∷ []) edges) j) ≡ true
insert-edge edges i j k d h = elim (Bool-cases (text_eq i j)) [
  | inl e ↦
      let same = text_eq_sound i j e in
      let kept : is_seen k (edges_of edges i) || is_seen k (d ∷ []) ≡ true =
        subst (λ x. is_seen k (edges_of edges x) || is_seen k (d ∷ []) ≡ true) (sym same)
          (ground (arith, h, e)) in
      ground (
        arith,
        e,
        lookup-insert edges i j (edges_of edges i ++ d ∷ []),
        is_seen-append k d (edges_of edges i),
        kept,
      )
  | inr e ↦ ground (arith, h, e, lookup-insert edges i j (edges_of edges i ++ d ∷ []))
]

add_edges-edge :
    (edges : Edges) (i j k : Text) (ds : List ArtifactDependency)
    → is_seen k (edges_of edges j) || (text_eq i j && is_seen k (map dependency_key ds)) ≡ true
    → is_seen k (edges_of (add_edges edges i ds) j) ≡ true
add_edges-edge edges i j k [] h = ground (arith, h)
add_edges-edge edges i j k (d ∷ ds) h =
    let key = dependency_key d in
    let next = insert i (edges_of edges i ++ key ∷ []) edges in
    add_edges-edge next i j k ds
      (elim (Bool-cases (is_seen k (edges_of edges j) || (text_eq i j && is_seen k (key ∷ [])))) [
        | inl e ↦ rw (insert-edge edges i j k key e) refl
        | inr e ↦ ground (arith, h, e)
      ])

candidate_edges-kept :
    (edges : Edges) (j k : Text) (cs : List ArtifactCandidate)
    → is_seen k (edges_of edges j) ≡ true
    → is_seen k (edges_of (candidate_edges edges cs) j) ≡ true
candidate_edges-kept edges j k [] h = h
candidate_edges-kept edges j k (c ∷ cs) h =
    candidate_edges-kept (add_edges edges (candidate_key c) c.dependencies) j k cs
      (add_edges-edge edges (candidate_key c) j k c.dependencies (rw h refl))

-- every dependency is an edge
Depends-edge :
    (edges : Edges) (j k : Text) (cs : List ArtifactCandidate)
    → Depends cs j k
    → is_seen k (edges_of (candidate_edges edges cs) j) ≡ true
Depends-edge edges j k [] h = absurd h
Depends-edge edges j k (c ∷ cs) (inl (same, h)) =
    let own =
      subst (λ x. text_eq (candidate_key c) x ≡ true) same (text_eq_refl (candidate_key c)) in
    candidate_edges-kept (add_edges edges (candidate_key c) c.dependencies) j k cs
      (add_edges-edge edges (candidate_key c) j k c.dependencies (ground (arith, own, h)))
Depends-edge edges j k (c ∷ cs) (inr h) =
    Depends-edge (add_edges edges (candidate_key c) c.dependencies) j k cs h

pub Chain-Walk :
    (cs : List ArtifactCandidate) {j k : Text} → Chain cs j k → Walk (candidate_edges [] cs) j k
Chain-Walk cs (link k h) = edge k (Depends-edge [] _ k cs h)
Chain-Walk cs (onward k l w h) = further k l (Chain-Walk cs w) (Depends-edge [] k l cs h)
