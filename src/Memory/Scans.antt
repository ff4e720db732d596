-- ===== src/Memory/Scans.antt =====
-- Executed scans, listings and exports of the reference store
-- (backend/service/repository/conformance/implementation.go).
--
-- A writer is missing where it is nil, and else the cause of the error that it ends with.
use software_engineering_pla.Shared.{
  ℕ, false, List, [], ◌∷◌, ◌++◌, Option, none, some, if◌then◌else◌, length,
}
use software_engineering_pla.Shared.Int.{pos_part}
use software_engineering_pla.Die.Text.{Text, text, text_lt, lookup, insert, has_prefix, sort_by}
use software_engineering_pla.Repo.Valid.{Unicode}
use software_engineering_pla.Repo.Errors.{
  Cause, neutral, new_service_error, Outcome, fails, fail_with, invalid_input, internal,
}
use software_engineering_pla.Repo.Values.{
  Time, Repository, Scan, succeeded, created, already_present, Artifact, ScanResult, ExportReceipt,
  ExecuteScanRequest, RepositoryListRequest, ScanListRequest, ArtifactListRequest, ArtifactQuery,
  Page,
}
use software_engineering_pla.Repo.Contract.{new_scan, new_artifact, new_scan_result, new_page}
use software_engineering_pla.Repo.Framing.{new_artifact_id}
use software_engineering_pla.Repo.Profiles.{new_export_receipt}
use software_engineering_pla.Memory.{
  MemoryStore, Context, check_context, guarded, missing, or_value, bar, repository_key,
  memory_scan_key, artifact_key,
}
use software_engineering_pla.Memory.Paging.{page_of}
use software_engineering_pla.Memory.Store.{zero_time, zero_scan}

abbrev pub zero_artifact : Artifact
zero_artifact = record {
  artifact_id = [];
  scan_id = [];
  name = [];
  version = [];
  stable_id_scheme = [];
  codec_name = [];
  codec_version = [];
  media_type = [];
  payload_digest = [];
  payload_size = 0;
  producer_name = [];
  producer_version = [];
  created_at = zero_time;
}

-- the values of a map whose keys have a prefix
abbrev pub with_prefix : {V : Type 0} → Text → List (Text × V) → List V
with_prefix prefix [] = []
with_prefix prefix ((k, v) ∷ m) =
    let rest = with_prefix prefix m in if has_prefix k prefix then v ∷ rest else rest

-- `artifactsFor`
unfoldable pub artifacts_for : MemoryStore → Text → Text → Text → List Artifact
unfolding memory_scan_key
artifacts_for m scope repository_id scan_id =
    sort_by (λ a b. text_lt a.artifact_id b.artifact_id)
      (with_prefix (memory_scan_key scope repository_id scan_id ++ bar) m.artifacts)

-- the payload that every executed scan has
abbrev pub fake_payload : Text
fake_payload = text "{\"fake\":true}" ++ 10 ∷ []

abbrev pub summary_name : Text
summary_name = text "repository-intelligence-summary"

abbrev pub identity_scheme : Text
identity_scheme = text "repository-service-artifact-id/v1"

-- what `ExecuteScan` finds or makes
pub data Execution : Type 0 where
  no_repository : Execution
  existing : Scan → Execution
  executed_now : Execution

abbrev pub execution_of : Option Repository → Option Scan → Execution
execution_of none s = no_repository
execution_of (some v) (some s) = existing s
execution_of (some v) none = executed_now

module _ (u : Unicode) (sha256 hex : Text → Text) (now : Time) where
  abbrev pub fake_scan : ExecuteScanRequest → Scan
  fake_scan r = or_value zero_scan (
      new_scan u (record {
        repository_id = r.repository_id;
        scan_id = r.scan_id;
        profile = r.profile;
        source_revision = text "fake-revision";
        state = succeeded;
        reason_code = [];
        requested_at = now;
        started_at = now;
        finished_at = now;
      }))

  abbrev pub fake_artifact_id : ExecuteScanRequest → Text
  fake_artifact_id r = or_value [] (
      new_artifact_id u sha256 hex r.repository_id r.scan_id summary_name (text "1.0.0")
        identity_scheme)

  abbrev pub fake_artifact : ExecuteScanRequest → Artifact
  fake_artifact r = or_value zero_artifact (
      new_artifact u (record {
        artifact_id = fake_artifact_id r;
        scan_id = r.scan_id;
        name = summary_name;
        version = text "1.0.0";
        stable_id_scheme = identity_scheme;
        codec_name = text "canonical-json";
        codec_version = text "0.1.0";
        media_type = text "application/json";
        payload_digest = sha256 fake_payload;
        payload_size = length fake_payload;
        producer_name = text "repository-summary";
        producer_version = text "1.0.0";
        created_at = now;
      }))

  -- the maps with an execution carried out
  abbrev pub keep_execution :
      ExecuteScanRequest → MemoryStore → Execution → Outcome ScanResult × MemoryStore
  keep_execution r m no_repository = (missing (text "execute-scan"), m)
  keep_execution r m (existing s) = (
    new_scan_result s (artifacts_for m r.scope.scope_id r.repository_id r.scan_id) already_present,
    m,
  )
  keep_execution r m executed_now =
      let scan_key = memory_scan_key r.scope.scope_id r.repository_id r.scan_id in
      let key = artifact_key r.scope.scope_id r.repository_id r.scan_id (fake_artifact_id r) in
      (
        new_scan_result (fake_scan r) (fake_artifact r ∷ []) created,
        record m {
          scans = insert scan_key (fake_scan r) m.scans;
          artifacts = insert key (fake_artifact r) m.artifacts;
          payloads = insert key fake_payload m.payloads;
        },
      )

  -- `ExecuteScan`
  unfoldable pub execute_stored :
      Context → ExecuteScanRequest → MemoryStore → Outcome ScanResult × MemoryStore
  unfolding artifacts_for
  execute_stored context r = guarded context (text "execute-scan") (λ m. keep_execution r m (
      execution_of (lookup (repository_key r.scope.scope_id r.repository_id) m.repositories)
        (lookup (memory_scan_key r.scope.scope_id r.repository_id r.scan_id) m.scans)))

  abbrev paged {ℓ} : {V : Type ℓ} → (V → Text) → Text → List V → ℕ → Text → Outcome (Page V)
  paged id operation values size cursor =
      let (items, next) = page_of values size cursor in new_page u id operation items next

  -- `ListRepositories`
  unfoldable pub list_stored_repositories :
      Context → RepositoryListRequest → MemoryStore → Outcome (Page Repository) × MemoryStore
  unfolding page_of
  list_stored_repositories context r = guarded context (text "list-repositories") (λ m. (
    paged (λ v. v.repository_id) (text "new-repository-page")
        (sort_by (λ a b. text_lt a.repository_id b.repository_id)
          (with_prefix (r.scope.scope_id ++ bar) m.repositories))
        (pos_part r.page_size) r.cursor,
    m,
  ))

  -- `ListScans`
  unfoldable pub list_stored_scans :
      Context → ScanListRequest → MemoryStore → Outcome (Page Scan) × MemoryStore
  unfolding page_of
  list_stored_scans context r = guarded context (text "list-scans") (λ m. (
    paged (λ v. v.scan_id) (text "new-scan-page")
        (sort_by (λ a b. text_lt a.scan_id b.scan_id)
          (with_prefix (repository_key r.scope.scope_id r.repository_id ++ bar) m.scans))
        (pos_part r.page_size) r.cursor,
    m,
  ))

  -- `ListArtifacts`
  unfoldable pub list_stored_artifacts :
      Context → ArtifactListRequest → MemoryStore → Outcome (Page Artifact) × MemoryStore
  unfolding page_of artifacts_for
  list_stored_artifacts context r = guarded context (text "list-artifacts") (λ m. (
    paged (λ v. v.artifact_id) (text "new-artifact-page")
        (artifacts_for m r.scope.scope_id r.repository_id r.scan_id) (pos_part r.page_size)
        r.cursor,
    m,
  ))

abbrev payload_of : Option Text → Text
payload_of none = []
payload_of (some v) = v

abbrev write_payload : Option Cause → Artifact → Text → Outcome ExportReceipt × Text
write_payload (some cause) a payload = (
  fails (
      neutral (
        new_service_error (some internal) (text "export-artifact") (text "write-failed") false
          cause)),
  [],
)
write_payload none a payload = (new_export_receipt a.payload_digest (length payload), payload)

abbrev export_found : Option Cause → Option Artifact → Text → Outcome ExportReceipt × Text
export_found failure none payload = (missing (text "export-artifact"), [])
export_found failure (some a) payload = write_payload failure a payload

-- `ExportArtifact`, with what a writer that succeeds takes
unfoldable pub export_stored :
    Context → ArtifactQuery → Option (Option Cause) → MemoryStore → Outcome ExportReceipt × Text
unfolding artifact_key
export_stored context q writer m = elim (check_context context (text "export-artifact")) [
  | some failure ↦ (fails failure, [])
  | none ↦ elim writer [
    | none ↦ (fail_with invalid_input (text "export-artifact") (text "writer-required"), [])
    | some failure ↦
        let key = artifact_key q.scope.scope_id q.repository_id q.scan_id q.artifact_id in
        export_found failure (lookup key m.artifacts) (payload_of (lookup key m.payloads))
  ]
]
