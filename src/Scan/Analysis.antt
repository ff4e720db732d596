-- ===== src/Scan/Analysis.antt =====
-- The result of an analysis (backend/service/repository/scan/model.go: `NewAnalysisResult`,
-- `acyclicCandidates`).
--
-- A Go map ranges over its keys in any order: `order` is the order in which `acyclicCandidates` takes the keys of
-- `edges`. A visit is a recursion on fuel, and `none` is that of a visit that has no fuel left.
pub mod Graph
pub mod Chains
pub mod Visits
pub mod Decided
mod Samples
use software_engineering_pla.Shared.{
  ℕ, zero, suc, ◌+◌, Bool, true, false, not, ◌&&◌, ◌||◌, List, [], ◌∷◌, ◌++◌, Option, none, some,
  ltb, ◌==◌, if◌then◌else◌, length,
}
use software_engineering_pla.Die.Text.{Text, text, text_eq, lookup, insert}
use software_engineering_pla.Repo.Errors.{Outcome, gives, fails, fail_with, invalid_input, conflict}
use software_engineering_pla.Repo.Values.{is_zero_digest, AnalysisProfile, is_zero_profile}
use software_engineering_pla.Scan.Model.{
  default_max_artifacts, ArtifactDependency, ArtifactCandidate, candidate_key, dependency_key,
  is_seen, sort_candidates, AnalysisResult,
}

abbrev pub Edges : Type 0
Edges = List (Text × List Text)

abbrev pub Colors : Type 0
Colors = List (Text × ℕ)

abbrev pub edges_of : Edges → Text → List Text
edges_of edges k = elim (lookup k edges) [ some ks ↦ ks | none ↦ [] ]

abbrev pub add_edges : Edges → Text → List ArtifactDependency → Edges
add_edges edges k [] = edges
add_edges edges k (d ∷ ds) =
    add_edges (insert k (edges_of edges k ++ dependency_key d ∷ []) edges) k ds

abbrev pub candidate_edges : Edges → List ArtifactCandidate → Edges
candidate_edges edges [] = edges
candidate_edges edges (c ∷ cs) =
    candidate_edges (add_edges edges (candidate_key c) c.dependencies) cs

-- `states[key]`
abbrev pub color : Colors → Text → ℕ
color states k = elim (lookup k states) [ some c ↦ c | none ↦ 0 ]

-- what a visit returns, with the states that it leaves
abbrev pub Visit : Type 0
Visit = Option (Bool × Colors)

-- `visit` of each key, up to the first that fails
abbrev pub visit_each : (Colors → Text → Visit) → Colors → List Text → Visit
visit_each visit states [] = some (true, states)
visit_each visit states (k ∷ ks) = elim (visit states k) [
  | none ↦ none
  | some r ↦ elim r.0 [ true ↦ visit_each visit r.1 ks | false ↦ some (false, r.1) ]
]

-- the end of a visit
abbrev pub leave_key : Text → Visit → Visit
leave_key k none = none
leave_key k (some r) = elim r.0 [ true ↦ some (true, insert k 2 r.1) | false ↦ some (false, r.1) ]

unfoldable pub visit : Edges → ℕ → Colors → Text → Visit
visit edges zero states k = none
visit edges (suc fuel) states k =
    if color states k == 1
    then some (false, states)
    else if color states k == 2
    then some (true, states)
    else leave_key k (visit_each (visit edges fuel) (insert k 1 states) (edges_of edges k))

unfoldable pub acyclic_candidates : ℕ → List Text → Edges → Option Bool
unfolding visit
acyclic_candidates fuel order edges = elim (visit_each (visit edges fuel) [] order) [
  | some r ↦ some r.0
  | none ↦ none
]

abbrev pub analysis_error {ℓ} : {V : Type ℓ} → Text → Outcome V
analysis_error = fail_with invalid_input (text "new-analysis-result")

-- the first loop, to the keys that it has seen
unfoldable pub check_candidates : List Text → List ArtifactCandidate → Outcome (List Text)
check_candidates seen [] = gives seen
check_candidates seen (c ∷ cs) =
    let rest = check_candidates (candidate_key c ∷ seen) cs in
    if not c.has_payload || is_zero_digest c.payload_digest
    then analysis_error (text "invalid-candidate")
    else if is_seen (candidate_key c) seen
    then fail_with conflict (text "new-analysis-result") (text "duplicate-artifact")
    else rest

-- the second loop
unfoldable pub check_edges : List Text → ArtifactCandidate → List ArtifactDependency → Outcome Bool
check_edges seen c [] = gives true
check_edges seen c (d ∷ ds) =
    let rest = check_edges seen c ds in
    if not (is_seen (dependency_key d) seen)
    then analysis_error (text "missing-dependency")
    else if text_eq d.name c.name && text_eq d.version c.version
    then analysis_error (text "self-dependency")
    else rest

unfoldable pub check_all_edges : List Text → List ArtifactCandidate → Outcome Bool
unfolding check_edges
check_all_edges seen [] = gives true
check_all_edges seen (c ∷ cs) = elim (check_edges seen c c.dependencies) [
  | fails failure ↦ fails failure
  | gives _ ↦ check_all_edges seen cs
]

-- `none` where the fuel does not suffice
unfoldable pub new_analysis_result :
    ℕ
    → (Edges → List Text)
    → AnalysisProfile
    → List ArtifactCandidate
    → Option (Outcome AnalysisResult)
unfolding check_candidates check_all_edges acyclic_candidates
new_analysis_result fuel order profile candidates =
    if is_zero_profile profile
      || (length candidates == 0 || ltb default_max_artifacts (length candidates))
    then some (analysis_error (text "invalid-result"))
    else elim (check_candidates [] candidates) [
      | fails failure ↦ some (fails failure)
      | gives seen ↦ elim (check_all_edges seen candidates) [
        | fails failure ↦ some (fails failure)
        | gives _ ↦
            let edges = candidate_edges [] candidates in
            elim (acyclic_candidates fuel (order edges) edges) [
              | none ↦ none
              | some false ↦ some (analysis_error (text "cyclic-dependency"))
              | some true ↦
                  some
                    (gives (record { profile = profile; candidates = sort_candidates candidates }))
            ]
      ]
    ]
