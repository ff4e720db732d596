-- ===== src/Scan/Execute.antt =====
-- One flight (backend/service/repository/scan/implementation.go: `execute`, `failRunning`,
-- `reconcilePublication`, `closeSession`).
--
-- What the flight meets is a `World`: the answers of the admission controller, of the preparer and its
-- session, of the store and of the clock, and what the execution context says each time it is asked. A
-- run is the events in their order, a deferred call at its place, and the outcome.
pub mod Cases
use Prim.Native.String.{String}
use software_engineering_pla.Shared.{
  ℕ, Bool, true, false, not, ◌&&◌, ◌||◌, List, [], ◌∷◌, ◌++◌, Option, none, some, ltb,
  if◌then◌else◌, length,
}
use software_engineering_pla.Shared.Int.{pos, ltb_ℤ}
use software_engineering_pla.Die.Text.{Text, text, text_eq, is_empty}
use software_engineering_pla.Repo.Errors.{
  ErrorKind, canceled as canceled_error, internal, source_unavailable, persistence_unavailable,
  integrity_failure, analysis_failed, orphaned_scan, timeout, Cause, no_cause, is_canceled, Failure,
  kind_of, Outcome, fails, gives,
}
use software_engineering_pla.Repo.Valid.{Unicode}
use software_engineering_pla.Repo.Values.{
  Time, before, is_zero_time, utc, is_zero_digest, Scope, profile_eq, ScanState, requested, running,
  succeeded, failed, canceled, Disposition, created, already_present, Scan, ScanResult,
  ExecuteScanRequest,
}
use software_engineering_pla.Repo.Contract.{new_scan, new_scan_result}
use software_engineering_pla.Scan.Errors.{
  ContextState, context_error, service_failure, context_ended, map_dependency_error,
  context_failure,
}
use software_engineering_pla.Scan.Model.{
  safe_revision, AnalysisRequest, new_analysis_request, AnalysisResult, BeginResult, begin_started,
  begin_already_published, begin_previously_failed, begin_previously_canceled, begin_orphaned,
  no_status, BeginCommand, PublicationArtifact, PublishCommand, FinalizeCommand, ReconcileResult,
  Config,
}
use software_engineering_pla.Scan.Publication.{
  finished_scan, build_publication, publication_matches, execute_fingerprint,
}

pub data LeaseAnswer : Type 0 where
  lease_error : Failure → LeaseAnswer
  nil_lease lease_without_context : LeaseAnswer
  leased : ContextState → LeaseAnswer

pub record Session : Type 0 where
  pub source_fingerprint : Text
  pub source_revision : Text
  pub analysis : Outcome AnalysisResult

pub data SessionAnswer : Type 0 where
  session_error : Failure → SessionAnswer
  nil_session : SessionAnswer
  opened : Session → SessionAnswer

pub record World : Type 0 where
  pub acquire : LeaseAnswer
  pub at_lease : ContextState
  pub prepare : AnalysisRequest → SessionAnswer
  pub at_session : ContextState
  pub start_clock : Time
  pub begin : BeginCommand → Outcome BeginResult
  pub at_analysis : ContextState
  pub finish_clock : Time
  pub at_publication : ContextState
  pub publish : PublishCommand → Outcome ScanResult
  pub reconcile : Scope → Text → Text → Outcome ReconcileResult
  pub at_failure : ContextState
  pub failure_clock : Time
  pub finalize : FinalizeCommand → Outcome Scan

pub data Event : Type 0 where
  acquires prepares closes releases reconciles : Event
  begins : BeginCommand → Event
  publishes : PublishCommand → Event
  finalizes : FinalizeCommand → Event

pub record Run : Type 0 where
  pub log : List Event
  pub outcome : Outcome ScanResult

abbrev pub emit : Event → Run → Run
emit e r = record r { log = e ∷ r.log }

-- a deferred call
abbrev pub lastly : Event → Run → Run
lastly e r = record r { log = r.log ++ e ∷ [] }

abbrev ends_with : Outcome ScanResult → Run
ends_with outcome = record { log = []; outcome = outcome }

abbrev refuse : Failure → Run
refuse failure = ends_with (fails failure)

abbrev pub execute_scan_op : Text
execute_scan_op = text "execute-scan"

abbrev reject : ErrorKind → Text → Run
reject kind reason = refuse (service_failure kind execute_scan_op reason false no_cause)

abbrev reject_canceled : Text → Run
reject_canceled reason =
    refuse (service_failure canceled_error execute_scan_op reason false is_canceled)

abbrev dependency_failed : Failure → Text → ErrorKind → Run
dependency_failed failure reason fallback =
    refuse (map_dependency_error failure execute_scan_op reason fallback)

-- `contextFailure` of the execution context, which is not nil
abbrev poll : ContextState → Run → Run
poll state next = elim (context_failure (some state) execute_scan_op) [
  | some failure ↦ refuse failure
  | none ↦ next
]

abbrev pub is_cancellation : ErrorKind → Bool
is_cancellation canceled_error = true
is_cancellation timeout = true
is_cancellation _ = false

abbrev pub has_ended : ContextState → Bool
has_ended state = elim (context_error state) [ some _ ↦ true | none ↦ false ]

-- an instant, unless it is missing or before the start of the scan
abbrev pub after_start : Scan → Time → Bool
after_start current t = not (is_zero_time t || before t current.started_at)

module _ (u : Unicode) (w : World) (request : ExecuteScanRequest) where
  -- the scan that ends in failure or cancellation
  abbrev pub terminal_scan : Scan → Bool → Text → Scan
  terminal_scan current ended reason =
      finished_scan current (if ended then canceled else failed)
        (if ended then text "canceled" else reason)
        (if after_start current (utc w.failure_clock)
          then utc w.failure_clock
          else current.started_at)

  unfoldable pub fail_running : Scan → Failure → Text → Run
  unfolding kind_of
  fail_running current cause reason =
      let ended = has_ended w.at_failure || is_cancellation (kind_of cause) in
      elim (new_scan u (terminal_scan current ended reason)) [
        | fails _ ↦ reject internal (text "terminal-model-failed")
        | gives terminal ↦
            let command : FinalizeCommand = record {
              scope = request.scope;
              request_id = request.request_id;
              scan = terminal;
            } in
            emit (finalizes command) (elim (w.finalize command) [
              | fails failure ↦
                  dependency_failed failure (text "terminal-finalization-failed")
                    persistence_unavailable
              | gives _ ↦
                  if ended then reject_canceled (text "canceled") else reject analysis_failed reason
            ])
      ]

  abbrev ambiguous : Run
  ambiguous = refuse (
      service_failure persistence_unavailable execute_scan_op (text "publication-ambiguous") true
        no_cause)

  unfoldable pub reconcile_publication : Scan → List PublicationArtifact → Run
  reconcile_publication expected publication =
      emit reconciles (elim (w.reconcile request.scope request.repository_id request.scan_id) [
        | fails _ ↦ ambiguous
        | gives resolved ↦ elim resolved.scan.state [
          | succeeded ↦ elim (new_scan_result resolved.scan resolved.artifacts created) [
            | fails _ ↦ reject integrity_failure (text "reconciled-publication-mismatch")
            | gives candidate ↦
                if publication_matches candidate expected publication
                then ends_with (gives candidate)
                else reject integrity_failure (text "reconciled-publication-mismatch")
          ]
          | canceled ↦ reject_canceled resolved.scan.reason_code
          | failed ↦ reject analysis_failed resolved.scan.reason_code
          | requested ↦ ambiguous
          | running ↦ ambiguous
        ]
      ])

  abbrev pub publish_scan : Scan → List PublicationArtifact → Run
  publish_scan scan publication =
      let command : PublishCommand = record {
        scope = request.scope;
        request_id = request.request_id;
        scan = scan;
        artifacts = publication;
      } in
      emit (publishes command) (elim (w.publish command) [
        | fails _ ↦ reconcile_publication scan publication
        | gives result ↦
            if publication_matches result scan publication
            then ends_with (new_scan_result result.scan result.artifacts created)
            else reject integrity_failure (text "publication-result-mismatch")
      ])

  -- the cases of `contextFailure` after the scan has begun
  abbrev pub poll_running : ContextState → Scan → Run → Run
  poll_running state current next = elim (context_failure (some state) execute_scan_op) [
    | some failure ↦ fail_running current failure (text "canceled")
    | none ↦ next
  ]

  abbrev mismatch : Text → Failure
  mismatch reason = service_failure integrity_failure execute_scan_op reason false no_cause

  module _ (sha256 hex : Text → Text) (c : Config) where
    -- `execute`, after `BeginStarted`
    unfoldable pub run_started : Session → Scan → Run
    unfolding fail_running reconcile_publication
    run_started session current = elim session.analysis [
      | fails failure ↦ fail_running current failure (text "analysis-failed")
      | gives analysis ↦
          if not (profile_eq analysis.profile request.profile)
            || ltb_ℤ c.max_artifacts (pos (length analysis.candidates))
          then fail_running current (mismatch (text "analysis-result-mismatch"))
              (text "analysis-result-mismatch")
          else poll_running w.at_analysis current (
              let finished = utc w.finish_clock in
              if after_start current finished
              then elim (build_publication u sha256 hex request current finished analysis) [
                | fails failure ↦ fail_running current failure (text "artifact-metadata-failed")
                | gives built ↦ poll_running w.at_publication current (publish_scan built.0 built.1)
              ]
              else fail_running current
                  (service_failure internal execute_scan_op (text "invalid-clock") false no_cause)
                  (text "invalid-clock"))
    ]

    -- `execute`, on what `Begin` returned
    unfoldable pub run_begun : Session → BeginResult → Run
    unfolding run_started
    run_begun session begun =
        if text_eq begun.scan.repository_id request.repository_id
          && text_eq begun.scan.scan_id request.scan_id
        then elim begun.status [
          | begin_already_published ↦
              ends_with (new_scan_result begun.scan begun.artifacts already_present)
          | begin_previously_failed ↦ reject analysis_failed begun.scan.reason_code
          | begin_previously_canceled ↦ reject_canceled begun.scan.reason_code
          | begin_orphaned ↦ reject orphaned_scan (text "durable-running-without-leader")
          | begin_started ↦ run_started session begun.scan
          | no_status ↦ reject integrity_failure (text "invalid-begin-status")
        ]
        else reject integrity_failure (text "begin-result-mismatch")

    abbrev pub begin_command : Session → Scan → BeginCommand
    begin_command session current = record {
      scope = request.scope;
      request_id = request.request_id;
      mutation_fingerprint =
          execute_fingerprint sha256 hex request session.source_fingerprint session.source_revision;
      source_fingerprint = session.source_fingerprint;
      scan = current;
    }

    abbrev pub running_scan : Session → Scan
    running_scan session = record {
      repository_id = request.repository_id;
      scan_id = request.scan_id;
      profile = request.profile;
      source_revision = session.source_revision;
      state = running;
      reason_code = [];
      requested_at = utc w.start_clock;
      started_at = utc w.start_clock;
      finished_at = record { instant = pos 0; is_utc = true };
    }

    -- `execute`, with a session
    unfoldable pub run_session : Session → Run
    unfolding run_begun
    run_session session =
        if is_zero_digest session.source_fingerprint
          || (not (is_empty session.source_revision)
              && not (safe_revision u session.source_revision))
        then reject source_unavailable (text "invalid-source-proof")
        else poll w.at_session (
            if is_zero_time (utc w.start_clock)
            then reject internal (text "invalid-clock")
            else elim (new_scan u (running_scan session)) [
              | fails _ ↦ reject internal (text "invalid-running-scan")
              | gives current ↦
                  let command = begin_command session current in
                  emit (begins command) (elim (w.begin command) [
                    | fails failure ↦
                        dependency_failed failure (text "scan-begin-failed") persistence_unavailable
                    | gives begun ↦ run_begun session begun
                  ])
            ])

    -- `execute`, with a lease
    unfoldable pub run_leased : ContextState → Run
    unfolding run_session
    run_leased lease = elim (context_error lease) [
      | some cause ↦ refuse (context_ended execute_scan_op cause)
      | none ↦ poll w.at_lease (elim (w.prepare (new_analysis_request request)) [
        | session_error failure ↦
            dependency_failed failure (text "source-unavailable") source_unavailable
        | nil_session ↦ reject source_unavailable (text "invalid-analysis-session")
        | opened session ↦ emit prepares (lastly closes (run_session session))
      ])
    ]

    unfoldable pub execute : Run
    unfolding run_leased
    execute = elim w.acquire [
      | lease_error failure ↦ dependency_failed failure (text "admission-failed") internal
      | nil_lease ↦ reject internal (text "invalid-lease")
      | lease_without_context ↦
          emit acquires (emit releases (reject internal (text "invalid-lease")))
      | leased lease ↦ emit acquires (lastly releases (run_leased lease))
    ]
