-- ===== src/Scan/Analysis/Decided.antt =====
-- Results of an analysis that are decided (backend/service/repository/scan/model.go: `NewAnalysisResult`).
use software_engineering_pla.Shared.{
  suc, ◌+◌, ◌≡◌, refl, sym, ◌∙◌, ap, subst, ◌⊎◌, inl, inr, Bool, true, false, ◌||◌, List, [], ◌∷◌,
  ◌++◌, Option, some, ltb, ◌==◌, arith, All, Bool-cases, length, if◌then◌else◌,
}
use software_engineering_pla.Die.Text.{Text, text, text_eq, insert}
use software_engineering_pla.Repo.Errors.{
  Failure, neutral, invalid_input, no_cause, new_service_error, Outcome, fails, gives,
}
use software_engineering_pla.Repo.Values.{AnalysisProfile, is_zero_profile}
use software_engineering_pla.Scan.Model.{
  default_max_artifacts, ArtifactDependency, ArtifactCandidate, candidate_key, dependency_key,
  is_seen, AnalysisResult, sort_candidates,
}
use software_engineering_pla.Scan.Execute.Cases.{Outcome-cases}
use software_engineering_pla.Scan.Analysis.{
  Edges, edges_of, add_edges, candidate_edges, check_candidates, check_edges, check_all_edges,
  acyclic_candidates, new_analysis_result,
}
use software_engineering_pla.Scan.Analysis.Graph.{Walk, Cycle}
use software_engineering_pla.Die.Text.Maps.{lookup-insert}
use software_engineering_pla.Scan.Analysis.Chains.{Chain, Chain-Walk}
use software_engineering_pla.Scan.Analysis.Visits.{acyclic_candidates-Cycle}

abbrev pub keys_of : List ArtifactCandidate → List Text
keys_of [] = []
keys_of (c ∷ cs) = candidate_key c ∷ keys_of cs

abbrev given {ℓ} : {V : Type ℓ} → V → Outcome V → V
given other (gives v) = v
given other (fails f) = other

check_candidates-keys :
    (seen s : List Text) (cs : List ArtifactCandidate)
    → check_candidates seen cs ≡ gives s
    → (length s ≡ length seen + length cs)
      × ((k : Text) → is_seen k seen || is_seen k (keys_of cs) ≡ true → is_seen k s ≡ true)
unfolding check_candidates
check_candidates-keys seen s [] h =
    let e : seen ≡ s = ap (given s) h in
    (ground (arith, ap length e), λ k m. subst (λ x. is_seen k x ≡ true) e (ground (arith, m)))
check_candidates-keys seen s (c ∷ cs) h =
    let rest : check_candidates (candidate_key c ∷ seen) cs ≡ gives s = ground (arith, h) in
    let (n, known) = check_candidates-keys (candidate_key c ∷ seen) s cs rest in
    (omega (arith, n), λ k m. known k (ground (arith, m)))

abbrev AllSeen : List Text → List ArtifactDependency → Type 0
AllSeen s = All (λ d. is_seen (dependency_key d) s ≡ true)

check_edges-AllSeen :
    (s : List Text) (c : ArtifactCandidate) (ds : List ArtifactDependency) (b : Bool)
    → check_edges s c ds ≡ gives b
    → AllSeen s ds
unfolding check_edges
check_edges-AllSeen s c [] b h = tt
check_edges-AllSeen s c (d ∷ ds) b h =
    (ground (arith, h), check_edges-AllSeen s c ds b (ground (arith, h)))

check_all_edges-AllSeen :
    (s : List Text) (cs : List ArtifactCandidate) (b : Bool)
    → check_all_edges s cs ≡ gives b
    → All (λ c. AllSeen s c.dependencies) cs
unfolding check_all_edges
check_all_edges-AllSeen s [] b h = tt
check_all_edges-AllSeen s (c ∷ cs) b h = elim (Outcome-cases (check_edges s c c.dependencies)) [
  | inl (f, e) ↦ absurd (ground (arith, e, h))
  | inr (x, e) ↦ (
    check_edges-AllSeen s c c.dependencies x e,
    check_all_edges-AllSeen s cs b (ground (arith, e, h)),
  )
]

module _ (s : List Text) where
  -- the targets of all edges are seen
  abbrev Closed : Edges → Type 0
  Closed edges = (k : Text) → All (λ d. is_seen d s ≡ true) (edges_of edges k)

  All-append :
      (ks : List Text) (d : Text)
      → All (λ d. is_seen d s ≡ true) ks
      → is_seen d s ≡ true
      → All (λ d. is_seen d s ≡ true) (ks ++ d ∷ [])
  All-append [] d h e = (e, tt)
  All-append (k ∷ ks) d h e = (h.0, All-append ks d h.1 e)

  edges_of-insert :
      (edges : Edges) (k j : Text) (v : List Text)
      → edges_of (insert k v edges) j ≡ (if text_eq k j then v else edges_of edges j)
  edges_of-insert edges k j v = ground (arith, lookup-insert edges k j v)

  Closed-add_edges :
      (edges : Edges) (k : Text) (ds : List ArtifactDependency)
      → Closed edges
      → AllSeen s ds
      → Closed (add_edges edges k ds)
  Closed-add_edges edges k [] h m = h
  Closed-add_edges edges k (d ∷ ds) h m =
      let v = edges_of edges k ++ dependency_key d ∷ [] in
      Closed-add_edges (insert k v edges) k ds
        (λ j. elim (Bool-cases (text_eq k j)) [
          | inl e ↦
              subst (All (λ d. is_seen d s ≡ true)) (sym (edges_of-insert edges k j v ∙ rw e refl))
                (All-append (edges_of edges k) (dependency_key d) (h k) m.0)
          | inr e ↦
              subst (All (λ d. is_seen d s ≡ true)) (sym (edges_of-insert edges k j v ∙ rw e refl))
                (h j)
        ])
        m.1

  Closed-candidate_edges :
      (edges : Edges) (cs : List ArtifactCandidate)
      → Closed edges
      → All (λ c. AllSeen s c.dependencies) cs
      → Closed (candidate_edges edges cs)
  Closed-candidate_edges edges [] h m = h
  Closed-candidate_edges edges (c ∷ cs) h m =
      Closed-candidate_edges (add_edges edges (candidate_key c) c.dependencies) cs
        (Closed-add_edges edges (candidate_key c) c.dependencies h m.0) m.1

-- the keys of candidates are among those that are seen
All-known :
    (s : List Text) (cs : List ArtifactCandidate) (ks : List Text)
    → ((k : Text) → is_seen k (keys_of cs) ≡ true → is_seen k s ≡ true)
    → All (λ k. is_seen k (keys_of cs) ≡ true) ks
    → All (λ k. is_seen k s ≡ true) ks
All-known s cs [] f h = tt
All-known s cs (k ∷ ks) f h = (f k h.0, All-known s cs ks f h.1)

module _ (profile : AnalysisProfile) (candidates : List ArtifactCandidate)
    (order : Edges → List Text)
    (known : All
      (λ k. is_seen k (keys_of candidates) ≡ true)
      (order (candidate_edges [] candidates)))
    (covers : (k : Text)
      → (is_seen k (order (candidate_edges [] candidates)) ≡ true)
        ⊎ (edges_of (candidate_edges [] candidates) k ≡ [])) where
  acyclic-decided :
      (s : List Text) (b : Bool)
      → check_candidates [] candidates ≡ gives s
      → check_all_edges s candidates ≡ gives b
      → (let edges = candidate_edges [] candidates in
          ((acyclic_candidates (suc (length candidates)) (order edges) edges ≡ some true)
            × ((k : Text) → Walk edges k k → ⊥))
          ⊎ ((acyclic_candidates (suc (length candidates)) (order edges) edges ≡ some false)
              × Cycle edges))
  acyclic-decided s b e h =
      let (n, seen) = check_candidates-keys [] s candidates e in
      let same : length s ≡ length candidates = omega (arith, n) in
      let edges = candidate_edges [] candidates in
      let closed =
        Closed-candidate_edges s [] candidates (λ k. tt)
          (check_all_edges-AllSeen s candidates b h) in
      subst
        (λ x.
          ((acyclic_candidates (suc x) (order edges) edges ≡ some true)
            × ((k : Text) → Walk edges k k → ⊥))
          ⊎ ((acyclic_candidates (suc x) (order edges) edges ≡ some false) × Cycle edges))
        same
        (acyclic_candidates-Cycle edges s (λ k _. closed k) (order edges)
          (All-known s candidates (order edges) seen known) covers)

  -- refused, or accepted with the candidates in order and no cycle among them
  abbrev pub Decided : Option (Outcome AnalysisResult) → Type 0
  Decided answer =
      ((f : Failure) × (answer ≡ some (fails f)))
      ⊎ ((answer
            ≡ some (gives (record { profile = profile; candidates = sort_candidates candidates })))
          × ((k : Text) → ¬ Chain candidates k k))

  abbrev error : Text → Failure
  error reason =
      neutral
        (new_service_error (some invalid_input) (text "new-analysis-result") reason false no_cause)

  -- Where the keys are ranged over in an order that takes keys of candidates, and every key that has an edge, fuel for
  -- one visit more than there are candidates is enough: the candidates are refused with an error, or accepted in
  -- their order, and then no candidate depends on itself through a chain of dependencies.
  pub new_analysis_result-Decided :
      Decided (new_analysis_result (suc (length candidates)) order profile candidates)
  unfolding new_analysis_result
  new_analysis_result-Decided =
      elim (Bool-cases (
        is_zero_profile profile
        || (length candidates == 0 || ltb default_max_artifacts (length candidates)))) [
          | inl e ↦ inl (error (text "invalid-result"), rw e refl)
          | inr e ↦ elim (Outcome-cases (check_candidates [] candidates)) [
            | inl (f, c) ↦ inl (f, rw (e, c) refl)
            | inr (s, c) ↦ elim (Outcome-cases (check_all_edges s candidates)) [
              | inl (f, d) ↦ inl (f, rw (e, c, d) refl)
              | inr (b, d) ↦ elim (acyclic-decided s b c d) [
                | inl (a, none_walks) ↦
                    inr (rw (e, c, d, a) refl, λ k w. none_walks k (Chain-Walk candidates w))
                | inr (a, _) ↦ inl (error (text "cyclic-dependency"), rw (e, c, d, a) refl)
              ]
            ]
          ]
        ]
