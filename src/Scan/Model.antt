-- ===== src/Scan/Model.antt =====
-- The values of a scan's execution (backend/service/repository/scan/model.go, config.go).
--
-- A payload source is whether it is there. The keys that the maps `seen` hold are a list. A status is
-- one of the constants, or that of a zero value.
use software_engineering_pla.Shared.{
  ℕ, ◌+◌, Bool, true, false, not, ◌&&◌, ◌||◌, List, [], ◌∷◌, ◌++◌, Option, none, some, ◌==◌,
  if◌then◌else◌,
}
use software_engineering_pla.Shared.Int.{ℤ, pos, ltb_ℤ}
use software_engineering_pla.Die.Text.{Text, text, text_eq, text_lt, is_empty, sort_by}
use software_engineering_pla.Repo.Errors.{
  fails, foreign, other_cause, Outcome, gives, fail_with, invalid_input, conflict, ◌>>=◌,
}
use software_engineering_pla.Repo.Valid.{
  Unicode, valid_runes, valid_safe_text, valid_name, valid_media_type,
}
use software_engineering_pla.Repo.Values.{
  Time, is_zero_digest, Scope, AnalysisProfile, ScanState, requested, running, succeeded, failed,
  canceled, Scan, Artifact, ExecuteScanRequest,
}
use software_engineering_pla.Repo.Contract.{all_of_scan}

abbrev pub default_max_artifacts : ℕ
default_max_artifacts = 64

module _ (u : Unicode) where
  -- `validVersion` of this package
  unfoldable pub valid_candidate_version : Text → Bool
  valid_candidate_version v =
      valid_runes u
        (λ c. u.is_letter c || (u.is_digit c || (c == b'-' || (c == b'_' || c == b'.')))) v 64

  -- `safeRevision`
  unfoldable pub safe_revision : Text → Bool
  safe_revision v = valid_safe_text u v 1024

pub record AnalysisRequest : Type 0 where
  pub scope : Scope
  pub repository_id : Text
  pub scan_id : Text
  pub source : Text
  pub profile : AnalysisProfile

abbrev pub new_analysis_request : ExecuteScanRequest → AnalysisRequest
new_analysis_request r = record {
  scope = r.scope;
  repository_id = r.repository_id;
  scan_id = r.scan_id;
  source = r.source;
  profile = r.profile;
}

pub record ArtifactDependency : Type 0 where
  pub name : Text
  pub version : Text
  pub ordinal : ℤ

abbrev pub ordinal_eq : ℤ → ℤ → Bool
ordinal_eq i j = not (ltb_ℤ i j || ltb_ℤ j i)

-- `ArtifactCandidateParams`
pub record ArtifactCandidate : Type 0 where
  pub name : Text
  pub version : Text
  pub stable_id_scheme : Text
  pub codec_name : Text
  pub codec_version : Text
  pub media_type : Text
  pub payload_digest : Text
  pub payload_size : ℕ
  pub producer_name : Text
  pub producer_version : Text
  pub dependencies : List ArtifactDependency
  pub has_payload : Bool

abbrev pub version_key : Text → Text → Text
version_key name version = name ++ 0 ∷ version

abbrev pub candidate_key : ArtifactCandidate → Text
candidate_key c = version_key c.name c.version

abbrev pub dependency_key : ArtifactDependency → Text
dependency_key d = version_key d.name d.version

abbrev pub is_seen : Text → List Text → Bool
is_seen key [] = false
is_seen key (k ∷ seen) = text_eq k key || is_seen key seen

abbrev pub sort_key : ArtifactCandidate → Text
sort_key c = c.name ++ 0 ∷ (c.version ++ 0 ∷ c.stable_id_scheme)

abbrev pub sort_candidates : List ArtifactCandidate → List ArtifactCandidate
sort_candidates = sort_by (λ a b. text_lt (sort_key a) (sort_key b))

module _ (u : Unicode) where
  unfoldable pub new_artifact_dependency : Text → Text → ℤ → Outcome ArtifactDependency
  unfolding valid_candidate_version
  new_artifact_dependency name version ordinal =
      if valid_name u name 128
        && (valid_candidate_version u version
            && not (ltb_ℤ ordinal (pos 0) || not (ltb_ℤ ordinal (pos default_max_artifacts))))
      then gives (record { name = name; version = version; ordinal = ordinal })
      else fail_with invalid_input (text "new-artifact-dependency") (text "invalid-dependency")

  -- the loop over the dependencies of a candidate
  unfoldable check_dependencies : ℕ → List Text → List ArtifactDependency → Outcome {0} Unit
  check_dependencies index seen [] = gives tt
  check_dependencies index seen (d ∷ dependencies) =
      let rest = check_dependencies (index + 1) (dependency_key d ∷ seen) dependencies in
      if is_empty d.name || not (ordinal_eq d.ordinal (pos index))
      then fail_with invalid_input (text "new-artifact-candidate") (text "invalid-dependency-order")
      else if is_seen (dependency_key d) seen
      then fail_with conflict (text "new-artifact-candidate") (text "duplicate-dependency")
      else rest

  unfoldable pub new_artifact_candidate : ArtifactCandidate → Outcome ArtifactCandidate
  unfolding valid_candidate_version check_dependencies
  new_artifact_candidate p =
      if valid_name u p.name 128
        && (valid_candidate_version u p.version
            && (valid_name u p.stable_id_scheme 128
                && (valid_name u p.codec_name 128
                    && (valid_candidate_version u p.codec_version
                        && (valid_media_type p.media_type
                            && (not (is_zero_digest p.payload_digest)
                                && (not (p.payload_size == 0)
                                    && (valid_name u p.producer_name 128
                                        && (valid_candidate_version u p.producer_version
                                            && p.has_payload)))))))))
      then (check_dependencies 0 [] p.dependencies >>= λ _. gives p)
      else fail_with invalid_input (text "new-artifact-candidate") (text "invalid-candidate")

pub record AnalysisResult : Type 0 where
  pub profile : AnalysisProfile
  pub candidates : List ArtifactCandidate

pub data BeginStatus : Type 0 where
  begin_started begin_already_published begin_previously_failed begin_previously_canceled
        begin_orphaned :
      BeginStatus
  no_status : BeginStatus

pub record BeginResult : Type 0 where
  pub status : BeginStatus
  pub scan : Scan
  pub artifacts : List Artifact

abbrev state_eq : ScanState → ScanState → Bool
state_eq requested requested = true
state_eq running running = true
state_eq succeeded succeeded = true
state_eq failed failed = true
state_eq canceled canceled = true
state_eq _ _ = false

-- `expectedState`
abbrev expected_state : BeginStatus → Option ScanState
expected_state begin_started = some running
expected_state begin_already_published = some succeeded
expected_state begin_previously_failed = some failed
expected_state begin_previously_canceled = some canceled
expected_state begin_orphaned = some running
expected_state no_status = none

abbrev is_published : BeginStatus → Bool
is_published begin_already_published = true
is_published _ = false

abbrev no_artifacts : List Artifact → Bool
no_artifacts [] = true
no_artifacts (_ ∷ _) = false

unfoldable pub new_begin_result : BeginStatus → Scan → List Artifact → Outcome BeginResult
new_begin_result status scan artifacts =
    if is_empty scan.scan_id
    then fail_with invalid_input (text "new-begin-result") (text "invalid-result")
    else elim (expected_state status) [
      | none ↦ fail_with invalid_input (text "new-begin-result") (text "invalid-result")
      | some expected ↦
          if not (state_eq scan.state expected)
          then fail_with invalid_input (text "new-begin-result") (text "invalid-state")
          else if not (is_published status) && not (no_artifacts artifacts)
          then fail_with invalid_input (text "new-begin-result") (text "unexpected-artifacts")
          else if not (all_of_scan scan.scan_id artifacts)
          then fail_with invalid_input (text "new-begin-result") (text "artifact-scan-mismatch")
          else gives (record { status = status; scan = scan; artifacts = artifacts })
    ]

pub record BeginCommand : Type 0 where
  pub scope : Scope
  pub request_id : Text
  pub mutation_fingerprint : Text
  pub source_fingerprint : Text
  pub scan : Scan

pub record PublicationArtifact : Type 0 where
  pub metadata : Artifact
  pub payload : ArtifactCandidate

pub record PublishCommand : Type 0 where
  pub scope : Scope
  pub request_id : Text
  pub scan : Scan
  pub artifacts : List PublicationArtifact

pub record FinalizeCommand : Type 0 where
  pub scope : Scope
  pub request_id : Text
  pub scan : Scan

pub record CancelCommand : Type 0 where
  pub scope : Scope
  pub request_id : Text
  pub fingerprint : Text
  pub repository_id : Text
  pub scan_id : Text
  pub at : Time

pub record ReconcileResult : Type 0 where
  pub scan : Scan
  pub artifacts : List Artifact

unfoldable pub new_reconcile_result : Scan → List Artifact → Outcome ReconcileResult
new_reconcile_result scan artifacts =
    if is_empty scan.scan_id
    then fail_with invalid_input (text "new-reconcile-result") (text "invalid-result")
    else if not (state_eq scan.state succeeded) && not (no_artifacts artifacts)
    then fail_with invalid_input (text "new-reconcile-result") (text "unexpected-artifacts")
    else if not (all_of_scan scan.scan_id artifacts)
    then fail_with invalid_input (text "new-reconcile-result") (text "artifact-scan-mismatch")
    else gives (record { scan = scan; artifacts = artifacts })

-- durations in nanoseconds
pub record Config : Type 0 where
  pub cleanup_timeout : ℤ
  pub finalization_timeout : ℤ
  pub max_artifacts : ℤ

abbrev or_default : ℤ → ℕ → ℤ
or_default v default = if ordinal_eq v (pos 0) then pos default else v

unfoldable pub with_defaults : Config → Config
with_defaults c = record {
  cleanup_timeout = or_default c.cleanup_timeout 5000000000;
  finalization_timeout = or_default c.finalization_timeout 5000000000;
  max_artifacts = or_default c.max_artifacts default_max_artifacts;
}

abbrev within : ℕ → ℕ → ℤ → Bool
within low high v = not (ltb_ℤ v (pos low) || ltb_ℤ (pos high) v)

unfoldable pub validate : Config → Bool
validate c =
    within 1000000000 60000000000 c.cleanup_timeout
    && (within 1000000000 60000000000 c.finalization_timeout
        && within 1 default_max_artifacts c.max_artifacts)

-- `New`, with whether its dependencies are there and the configurations given; the errors that wrap
-- `ErrInvalidConfig` are one foreign error
unfoldable pub new_scan_service : Bool → List Config → Outcome Config
unfolding with_defaults validate
new_scan_service false configs =
    fail_with invalid_input (text "new-scan-service") (text "invalid-dependencies")
new_scan_service true [] = gives (record {
  cleanup_timeout = pos 5000000000;
  finalization_timeout = pos 5000000000;
  max_artifacts = pos default_max_artifacts;
})
new_scan_service true (c ∷ []) =
    if validate (with_defaults c) then gives (with_defaults c) else fails (foreign other_cause)
new_scan_service true (_ ∷ _ ∷ _) = fails (foreign other_cause)
