-- ===== src/Scan/Service.antt =====
-- The handlers that ask the store (backend/service/repository/scan/implementation.go: `GetScan`,
-- `ListScans`, `CancelScan`, `GetArtifact`, `ListArtifacts`, `ExportArtifact`).
--
-- The answer of the store is an argument; `none` is the nil context. A handler that reaches the store says
-- so, and `CancelScan` says whether it cancels the flight of the scan.
use software_engineering_pla.Shared.{Bool, true, false, ◌&&◌, Option, none, some, if◌then◌else◌}
use software_engineering_pla.Die.Text.{Text, text, text_eq}
use software_engineering_pla.Repo.Errors.{
  internal, integrity_failure, invalid_input, persistence_unavailable, no_cause, Failure, Outcome,
  fails, gives,
}
use software_engineering_pla.Repo.Valid.{Unicode}
use software_engineering_pla.Repo.Values.{
  ExportReceipt, Time, utc, is_zero_time, ScanState, canceled, Scan, Artifact, Page, ScanQuery,
  ArtifactQuery, CancelScanRequest,
}
use software_engineering_pla.Repo.Contract.{new_page}
use software_engineering_pla.Scan.Errors.{
  ContextState, service_failure, map_dependency_error, context_failure,
}
use software_engineering_pla.Scan.Model.{CancelCommand}
use software_engineering_pla.Scan.Publication.{cancel_fingerprint}

-- whether the store was asked, and what the caller gets
pub record Reply {ℓ} (V : Type ℓ) : Type ℓ where
  pub asked : Bool
  pub outcome : Outcome V

abbrev reply_with {ℓ} : {V : Type ℓ} → Bool → Outcome V → Reply V
reply_with asked outcome = record { asked = asked; outcome = outcome }

-- a handler whose context is live asks the store
abbrev guard_context {ℓ} : {V : Type ℓ} → Option ContextState → Text → Outcome V → Reply V
guard_context context operation answer = elim (context_failure context operation) [
  | some failure ↦ reply_with false (fails failure)
  | none ↦ reply_with true answer
]

abbrev store_failed {ℓ} : {V : Type ℓ} → Failure → Text → Outcome V
store_failed failure operation =
    fails (map_dependency_error failure operation (text "store-failed") persistence_unavailable)

abbrev store_mismatch {ℓ} : {V : Type ℓ} → Text → Outcome V
store_mismatch operation =
    fails
      (service_failure integrity_failure operation (text "store-result-mismatch") false no_cause)

unfoldable pub get_scan : Option ContextState → ScanQuery → Outcome Scan → Reply Scan
get_scan context query answer = guard_context context (text "get-scan") (elim answer [
  | fails failure ↦ store_failed failure (text "get-scan")
  | gives v ↦
      if text_eq v.repository_id query.repository_id && text_eq v.scan_id query.scan_id
      then gives v
      else store_mismatch (text "get-scan")
])

unfoldable pub get_artifact :
    Option ContextState → ArtifactQuery → Outcome Artifact → Reply Artifact
get_artifact context query answer = guard_context context (text "get-artifact") (elim answer [
  | fails failure ↦ store_failed failure (text "get-artifact")
  | gives v ↦
      if text_eq v.scan_id query.scan_id && text_eq v.artifact_id query.artifact_id
      then gives v
      else store_mismatch (text "get-artifact")
])

module _ (u : Unicode) where
  unfoldable pub list_scans : Option ContextState → Outcome (Page Scan) → Reply (Page Scan)
  unfolding new_page
  list_scans context answer = guard_context context (text "list-scans") (elim answer [
    | fails failure ↦ store_failed failure (text "list-scans")
    | gives list ↦ new_page u (λ s. s.scan_id) (text "new-scan-page") list.items list.next
  ])

  unfoldable pub list_artifacts :
      Option ContextState → Outcome (Page Artifact) → Reply (Page Artifact)
  unfolding new_page
  list_artifacts context answer = guard_context context (text "list-artifacts") (elim answer [
    | fails failure ↦ store_failed failure (text "list-artifacts")
    | gives list ↦ new_page u (λ a. a.artifact_id) (text "new-artifact-page") list.items list.next
  ])

unfoldable pub export_artifact :
    Option ContextState → Bool → Outcome ExportReceipt → Reply ExportReceipt
export_artifact context has_writer answer =
    if has_writer
    then guard_context context (text "export-artifact") (elim answer [
      | fails failure ↦ store_failed failure (text "export-artifact")
      | gives receipt ↦ gives receipt
    ])
    else reply_with false (
        fails (
          service_failure invalid_input (text "export-artifact") (text "invalid-request") false
            no_cause))

abbrev pub is_canceled_state : ScanState → Bool
is_canceled_state canceled = true
is_canceled_state _ = false

pub record CancelReply : Type 0 where
  pub command : Option CancelCommand
  pub cancels_flight : Bool
  pub outcome : Outcome Scan

abbrev cancel_refused : Option CancelCommand → Failure → CancelReply
cancel_refused command failure = record {
  command = command;
  cancels_flight = false;
  outcome = fails failure;
}

-- the store answers each command
unfoldable pub cancel_scan :
    (Text → Text)
    → Option ContextState
    → CancelScanRequest
    → Time
    → (CancelCommand → Outcome Scan)
    → CancelReply
cancel_scan sha256 context request clock answer =
    elim (context_failure context (text "cancel-scan")) [
      | some failure ↦ cancel_refused none failure
      | none ↦
          if is_zero_time (utc clock)
          then cancel_refused none
              (service_failure internal (text "cancel-scan") (text "invalid-clock") false no_cause)
          else (let command : CancelCommand = record {
            scope = request.scope;
            request_id = request.request_id;
            fingerprint = cancel_fingerprint sha256 request;
            repository_id = request.repository_id;
            scan_id = request.scan_id;
            at = utc clock;
          } in
              elim (answer command) [
                | fails failure ↦ cancel_refused (some command) (
                    map_dependency_error failure (text "cancel-scan") (text "store-failed")
                      persistence_unavailable)
                | gives v ↦
                    if text_eq v.repository_id request.repository_id
                      && (text_eq v.scan_id request.scan_id && is_canceled_state v.state)
                    then record { command = some command; cancels_flight = true; outcome = gives v }
                    else cancel_refused (some command) (
                        service_failure integrity_failure (text "cancel-scan")
                          (text "store-result-mismatch") false no_cause)
              ])
    ]
