-- ===== src/Scan/Handlers.antt =====
-- What the handlers return (backend/service/repository/scan/implementation.go: `GetScan`, `GetArtifact`,
-- `CancelScan`).
use software_engineering_pla.Shared.{
  ◌≡◌, Bool, true, false, not, ◌&&◌, ◌||◌, Option, none, some, arith,
}
use software_engineering_pla.Die.Text.{Text, text_eq}
use software_engineering_pla.Repo.Errors.{kind_of, Outcome, fails, gives}
use software_engineering_pla.Repo.Values.{
  Time, Scan, Artifact, ScanQuery, ArtifactQuery, CancelScanRequest,
}
use software_engineering_pla.Scan.Errors.{
  ContextState, live_context, context_failure, map_dependency_error,
}
use software_engineering_pla.Scan.Model.{CancelCommand}
use software_engineering_pla.Scan.Outcomes.{is_neutral}
use software_engineering_pla.Scan.Service.{get_scan, get_artifact, cancel_scan, is_canceled_state}

-- an error of the service, or a value that passes the test
abbrev pub answers {ℓ} : {V : Type ℓ} → (V → Bool) → Outcome V → Bool
answers test (fails f) = is_neutral f
answers test (gives v) = test v

abbrev is_live : Option ContextState → Bool
is_live (some live_context) = true
is_live _ = false

abbrev pub of_query : ScanQuery → Scan → Bool
of_query q v = text_eq v.repository_id q.repository_id && text_eq v.scan_id q.scan_id

abbrev pub of_artifact_query : ArtifactQuery → Artifact → Bool
of_artifact_query q v = text_eq v.scan_id q.scan_id && text_eq v.artifact_id q.artifact_id

-- The lookups ask the store exactly when the context is live, and whatever the store answers, they return an error of
-- the service, or a scan with the identifiers of the query, or an artifact with them.
pub get_scan-answers :
    (context : Option ContextState) (q : ScanQuery) (a : ArtifactQuery) (scan : Outcome Scan)
    (artifact : Outcome Artifact)
    → ((get_scan context q scan).asked ≡ is_live context)
      × (answers (of_query q) (get_scan context q scan).outcome ≡ true)
      × ((get_artifact context a artifact).asked ≡ is_live context)
      × (answers (of_artifact_query a) (get_artifact context a artifact).outcome ≡ true)
unfolding get_scan get_artifact context_failure map_dependency_error kind_of
get_scan-answers context q a scan artifact =
    (ground arith, ground arith, ground arith, ground arith)

-- the store's scan is the canceled one of the request
abbrev pub confirms : CancelScanRequest → Outcome Scan → Bool
confirms request (fails f) = false
confirms request (gives v) =
    text_eq v.repository_id request.repository_id
    && (text_eq v.scan_id request.scan_id && is_canceled_state v.state)

abbrev pub was_asked : Option CancelCommand → Bool
was_asked (some _) = true
was_asked none = false

-- A cancellation cancels the flight exactly when it returns the canceled scan of the request, and only after
-- the store was asked; every other return is an error of the service.
pub cancel_scan-confirms :
    (sha256 : Text → Text) (context : Option ContextState) (request : CancelScanRequest)
    (clock : Time) (answer : CancelCommand → Outcome Scan)
    → (let r = cancel_scan sha256 context request clock answer in
        (r.cancels_flight ≡ confirms request r.outcome)
        × (answers (λ v. r.cancels_flight) r.outcome ≡ true)
        × (not r.cancels_flight || was_asked r.command ≡ true))
unfolding cancel_scan context_failure map_dependency_error kind_of
cancel_scan-confirms sha256 context request clock answer =
    (ground arith, ground arith, ground arith)
