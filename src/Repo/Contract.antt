-- ===== src/Repo/Contract.antt =====
-- The constructors of the contract (backend/service/repository/implementation.go, config.go).
--
-- SHA-256 is the parameter `sha256`, its hexadecimal encoding `hex`. A scan's and a repository's state
-- is one of the constants, so the tests of the states always pass.
use software_engineering_pla.Shared.{
  ℕ, Bool, true, not, ◌&&◌, ◌||◌, List, [], ◌∷◌, ltb, ◌==◌, if◌then◌else◌,
}
use software_engineering_pla.Shared.Int.{ℤ, pos, ltb_ℤ}
use software_engineering_pla.Die.Text.{Text, text, text_eq, is_empty}
use software_engineering_pla.Repo.Errors.{Outcome, gives, invalid, fail_with, invalid_input, ◌>>=◌}
use software_engineering_pla.Repo.Valid.{
  Unicode, valid_uuid, valid_machine, valid_optional_machine, valid_safe_text, valid_name,
  valid_version, valid_identity_field, valid_optional_token, valid_media_type,
}
use software_engineering_pla.Repo.Values.{
  before, is_zero_time, utc, is_zero_digest, Scope, is_zero_scope, AnalysisProfile, is_zero_profile,
  requested, running, Disposition, Repository, Scan, Artifact, ScanResult, Page,
  RegisterRepositoryRequest, RepositoryQuery, RepositoryListRequest, ArchiveRepositoryRequest,
  ScanQuery, CancelScanRequest, ArtifactQuery, ScanListRequest, ArtifactListRequest,
}

-- the limits that the constructors read; `MaxArtifactBytes` is 4 GiB
pub record Config : Type 0 where
  pub max_page_size : ℕ
  pub max_display_name_bytes : ℕ
  pub max_source_handle_bytes : ℕ

abbrev pub default_max_artifact_bytes : ℕ
default_max_artifact_bytes = 4294967296

abbrev check {ℓ} : {V : Type ℓ} → Bool → Text → V → Outcome V
check ok operation v = if ok then gives v else invalid operation

-- `validScanTimes`
unfoldable pub valid_scan_times : Scan → Bool
valid_scan_times s =
    not (not (is_zero_time s.started_at) && before s.started_at s.requested_at)
    && (not (
          not (is_zero_time s.finished_at)
          && (is_zero_time s.started_at || before s.finished_at s.started_at))
        && elim s.state [
          | requested ↦ is_zero_time s.started_at && is_zero_time s.finished_at
          | running ↦ not (is_zero_time s.started_at) && is_zero_time s.finished_at
          | _ ↦ not (is_zero_time s.started_at) && not (is_zero_time s.finished_at)
        ])

module _ (u : Unicode) where
  unfoldable pub new_scope : Text → Text → Outcome Scope
  new_scope scope_id principal_id =
      if valid_uuid scope_id && valid_machine u principal_id 128
      then gives (record { scope_id = scope_id; principal_id = principal_id })
      else fail_with invalid_input (text "new-scope") (text "invalid-scope")

  unfoldable pub new_source_handle : Text → ℕ → Outcome Text
  new_source_handle v maximum =
      if not (ltb maximum 1) && valid_safe_text u v maximum
      then gives v
      else fail_with invalid_input (text "new-source-handle") (text "invalid-source-handle")

  unfoldable pub new_analysis_profile : Text → Text → Text → Outcome AnalysisProfile
  new_analysis_profile name version digest =
      if valid_name u name 128 && (valid_version u version && not (is_zero_digest digest))
      then gives (record { name = name; version = version; digest = digest })
      else fail_with invalid_input (text "new-analysis-profile") (text "invalid-profile")

  unfoldable pub new_repository : Repository → Outcome Repository
  new_repository p =
      check
        (valid_uuid p.repository_id
          && (valid_safe_text u p.display_name 256
              && (valid_name u p.source_kind 64
                  && (valid_name u p.fingerprint_scheme 128
                      && (not (is_zero_digest p.fingerprint)
                          && ((is_empty p.current_scan_id || valid_uuid p.current_scan_id)
                              && not (
                                  is_zero_time p.created_at
                                  || (is_zero_time p.updated_at
                                      || before p.updated_at p.created_at))))))))
        (text "new-repository")
        (record p { created_at = utc p.created_at; updated_at = utc p.updated_at })

  unfoldable pub new_scan : Scan → Outcome Scan
  new_scan p =
      check
        (valid_uuid p.repository_id
          && (valid_uuid p.scan_id
              && (not (is_zero_profile p.profile)
                  && ((is_empty p.source_revision || valid_identity_field u p.source_revision)
                      && (not (is_zero_time p.requested_at)
                          && (valid_optional_token p.reason_code 128 && valid_scan_times p))))))
        (text "new-scan")
        (record p {
          requested_at = utc p.requested_at;
          started_at = utc p.started_at;
          finished_at = utc p.finished_at;
        })

  unfoldable pub new_artifact : Artifact → Outcome Artifact
  new_artifact p =
      check
        (valid_machine u p.artifact_id 256
          && (valid_uuid p.scan_id
              && (valid_name u p.name 128
                  && (valid_version u p.version
                      && (valid_name u p.stable_id_scheme 128
                          && (valid_name u p.codec_name 128
                              && (valid_version u p.codec_version
                                  && (valid_media_type p.media_type
                                      && (not (is_zero_digest p.payload_digest)
                                          && (not (
                                                p.payload_size == 0
                                                || ltb default_max_artifact_bytes p.payload_size)
                                              && (valid_name u p.producer_name 128
                                                  && (valid_version u p.producer_version
                                                      && not (is_zero_time p.created_at)))))))))))))
        (text "new-artifact") (record p { created_at = utc p.created_at })

  abbrev all_named {ℓ} : {V : Type ℓ} → (V → Text) → List V → Bool
  all_named id [] = true
  all_named id (v ∷ vs) = not (is_empty (id v)) && all_named id vs

  -- `NewRepositoryPage`, `NewScanPage` and `NewArtifactPage`
  unfoldable pub new_page {ℓ} : {V : Type ℓ} → (V → Text) → Text → List V → Text → Outcome (Page V)
  new_page id operation items next =
      check (valid_optional_machine u next 1024 && all_named id items) operation
        (record { items = items; next = next })

  unfoldable pub new_register_repository_request :
      Config → RegisterRepositoryRequest → Outcome RegisterRepositoryRequest
  unfolding new_source_handle
  new_register_repository_request c p =
      if not (is_zero_scope p.scope)
        && (valid_machine u p.request_id 128
            && (valid_uuid p.repository_id
                && valid_safe_text u p.display_name c.max_display_name_bytes))
      then (new_source_handle p.source c.max_source_handle_bytes >>= λ _. gives p)
      else invalid (text "register-repository")

  unfoldable pub new_repository_query : RepositoryQuery → Outcome RepositoryQuery
  new_repository_query p =
      check (not (is_zero_scope p.scope) && valid_uuid p.repository_id) (text "get-repository") p

  abbrev valid_page_request : Config → ℤ → Text → Bool
  valid_page_request c size cursor =
      not (ltb_ℤ size (pos 1) || ltb_ℤ (pos c.max_page_size) size)
      && valid_optional_machine u cursor 1024

  unfoldable pub new_repository_list_request :
      Config → RepositoryListRequest → Outcome RepositoryListRequest
  new_repository_list_request c p =
      check (not (is_zero_scope p.scope) && valid_page_request c p.page_size p.cursor)
        (text "list-repositories") p

  unfoldable pub new_archive_repository_request :
      ArchiveRepositoryRequest → Outcome ArchiveRepositoryRequest
  new_archive_repository_request p =
      check
        (not (is_zero_scope p.scope)
          && (valid_machine u p.request_id 128 && valid_uuid p.repository_id))
        (text "archive-repository") p

  unfoldable pub new_scan_query : ScanQuery → Outcome ScanQuery
  new_scan_query p =
      check (not (is_zero_scope p.scope) && (valid_uuid p.repository_id && valid_uuid p.scan_id))
        (text "get-scan") p

  unfoldable pub new_scan_list_request : Config → ScanListRequest → Outcome ScanListRequest
  new_scan_list_request c p =
      check
        (not (is_zero_scope p.scope)
          && (valid_uuid p.repository_id && valid_page_request c p.page_size p.cursor))
        (text "list-scans") p

  unfoldable pub new_cancel_scan_request : CancelScanRequest → Outcome CancelScanRequest
  new_cancel_scan_request p =
      check
        (not (is_zero_scope p.scope)
          && (valid_machine u p.request_id 128
              && (valid_uuid p.repository_id && valid_uuid p.scan_id)))
        (text "cancel-scan") p

  unfoldable pub new_artifact_query : ArtifactQuery → Outcome ArtifactQuery
  new_artifact_query p =
      check
        (not (is_zero_scope p.scope)
          && (valid_uuid p.repository_id
              && (valid_uuid p.scan_id && valid_machine u p.artifact_id 256)))
        (text "get-artifact") p

  unfoldable pub new_artifact_list_request :
      Config → ArtifactListRequest → Outcome ArtifactListRequest
  new_artifact_list_request c p =
      check
        (not (is_zero_scope p.scope)
          && (valid_uuid p.repository_id
              && (valid_uuid p.scan_id && valid_page_request c p.page_size p.cursor)))
        (text "list-artifacts") p

abbrev pub all_of_scan : Text → List Artifact → Bool
all_of_scan id [] = true
all_of_scan id (a ∷ artifacts) = text_eq a.scan_id id && all_of_scan id artifacts

unfoldable pub new_scan_result : Scan → List Artifact → Disposition → Outcome ScanResult
new_scan_result scan artifacts disposition =
    check (not (is_empty scan.scan_id) && all_of_scan scan.scan_id artifacts)
      (text "new-scan-result")
      (record { scan = scan; artifacts = artifacts; disposition = disposition })
