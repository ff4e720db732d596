-- ===== src/Scan/Analysis/Samples.antt =====
-- Graphs of dependencies (backend/service/repository/scan/model.go: `acyclicCandidates`), and the theorem at one.
use software_engineering_pla.Shared.{
  ◌≡◌, refl, ◌⊎◌, inl, inr, true, false, List, [], ◌∷◌, none, some, All, Bool-cases,
}
use software_engineering_pla.Die.Text.{Text, text, text_eq}
use software_engineering_pla.Shared.Int.{pos}
use software_engineering_pla.Repo.Errors.{
  gives, fails, neutral, invalid_input, no_cause, new_service_error,
}
use software_engineering_pla.Repo.Values.{AnalysisProfile}
use software_engineering_pla.Scan.Model.{
  is_seen, ArtifactDependency, ArtifactCandidate, version_key,
}
use software_engineering_pla.Scan.Analysis.{
  Edges, edges_of, visit, acyclic_candidates, candidate_edges, check_candidates, check_edges,
  check_all_edges, new_analysis_result,
}
use software_engineering_pla.Scan.Analysis.Decided.{Decided, new_analysis_result-Decided}
use software_engineering_pla.Scan.Analysis.Graph.{Walk, Cycle}
use software_engineering_pla.Scan.Analysis.Visits.{acyclic_candidates-Cycle}

abbrev chain : Edges
chain = (text "a", text "b" ∷ text "c" ∷ []) ∷ (text "b", text "c" ∷ []) ∷ []

abbrev ring : Edges
ring = (text "a", text "b" ∷ []) ∷ (text "b", text "a" ∷ []) ∷ []

chain_runs : acyclic_candidates 4 (text "b" ∷ text "a" ∷ []) chain ≡ some true
unfolding acyclic_candidates visit
chain_runs = refl

ring_runs : acyclic_candidates 3 (text "b" ∷ text "a" ∷ []) ring ≡ some false
unfolding acyclic_candidates visit
ring_runs = refl

short_of_fuel : acyclic_candidates 1 (text "a" ∷ []) chain ≡ none
unfolding acyclic_candidates visit
short_of_fuel = refl

abbrev pair : Edges
pair = (text "a", text "b" ∷ []) ∷ []

abbrev pair_nodes : List Text
pair_nodes = text "a" ∷ text "b" ∷ []

pair_closed :
    (k : Text)
    → is_seen k pair_nodes ≡ true
    → All (λ d. is_seen d pair_nodes ≡ true) (edges_of pair k)
pair_closed k h = elim (Bool-cases (text_eq (text "a") k)) [
  | inl e ↦ rw e (refl, tt)
  | inr e ↦ rw e tt
]

pair_covers : (k : Text) → (is_seen k (text "a" ∷ []) ≡ true) ⊎ (edges_of pair k ≡ [])
pair_covers k = elim (Bool-cases (text_eq (text "a") k)) [
  | inl e ↦ inl (rw e refl)
  | inr e ↦ inr (rw e refl)
]

acyclic_candidates-Cycle_example :
    ((acyclic_candidates 3 (text "a" ∷ []) pair ≡ some true) × ((k : Text) → Walk pair k k → ⊥))
    ⊎ ((acyclic_candidates 3 (text "a" ∷ []) pair ≡ some false) × Cycle pair)
acyclic_candidates-Cycle_example =
    acyclic_candidates-Cycle pair pair_nodes pair_closed (text "a" ∷ []) (refl, tt) pair_covers

abbrev profile : AnalysisProfile
profile = record { name = text "repository-go"; version = text "1"; digest = 7 ∷ [] }

abbrev candidate : Text → List ArtifactDependency → ArtifactCandidate
candidate name dependencies = record {
  name = name;
  version = text "1";
  stable_id_scheme = text "id/v1";
  codec_name = text "json";
  codec_version = text "1";
  media_type = text "application/json";
  payload_digest = 9 ∷ [];
  payload_size = 12;
  producer_name = text "engine";
  producer_version = text "1";
  dependencies = dependencies;
  has_payload = true;
}

abbrev on : Text → ArtifactDependency
on name = record { name = name; version = text "1"; ordinal = pos 0 }

abbrev two : List ArtifactCandidate
two = candidate (text "semantic") (on (text "build") ∷ []) ∷ candidate (text "build") [] ∷ []

abbrev order : Edges → List Text
order edges = version_key (text "semantic") (text "1") ∷ []

two_covers :
    (k : Text)
    → (is_seen k (order (candidate_edges [] two)) ≡ true)
      ⊎ (edges_of (candidate_edges [] two) k ≡ [])
two_covers k = elim (Bool-cases (text_eq (version_key (text "semantic") (text "1")) k)) [
  | inl e ↦ inl (rw e refl)
  | inr e ↦ inr (rw e refl)
]

new_analysis_result-Decided_example :
    Decided profile two order (refl, tt) two_covers (new_analysis_result 3 order profile two)
new_analysis_result-Decided_example =
    new_analysis_result-Decided profile two order (refl, tt) two_covers

two_sorted :
    new_analysis_result 3 order profile two
    ≡ some (
        gives (record {
          profile = profile;
          candidates =
              candidate (text "build") []
              ∷ candidate (text "semantic") (on (text "build") ∷ [])
              ∷ [];
        }))
unfolding new_analysis_result acyclic_candidates visit check_candidates check_all_edges check_edges
two_sorted = refl

two_ring :
    new_analysis_result 3 order profile (
      candidate (text "semantic") (on (text "build") ∷ [])
      ∷ candidate (text "build") (on (text "semantic") ∷ [])
      ∷ [])
    ≡ some (
        fails (
          neutral (
            new_service_error
              (some invalid_input)
              (text "new-analysis-result")
              (text "cyclic-dependency")
              false
              no_cause)))
unfolding new_analysis_result acyclic_candidates visit check_candidates check_all_edges check_edges
two_ring = refl
