-- ===== src/Scan/Outcomes.antt =====
-- What a flight returns (backend/service/repository/scan/implementation.go: `execute`).
use software_engineering_pla.Shared.{
  ◌≡◌, ◌∙◌, inl, inr, Bool, true, false, ◌&&◌, List, Option, some, arith, Bool-cases,
}
use software_engineering_pla.Die.Text.{Text, text_eq}
use software_engineering_pla.Die.Text.Order.{text_eq_sound}
use software_engineering_pla.Repo.Errors.{
  ErrorKind, Failure, neutral, foreign, kind_of, Outcome, fails, gives,
}
use software_engineering_pla.Repo.Valid.{Unicode}
use software_engineering_pla.Repo.Values.{Disposition, joined, Scan, ScanResult, ExecuteScanRequest}
use software_engineering_pla.Repo.Contract.{new_scan, new_scan_result, all_of_scan}
use software_engineering_pla.Scan.Errors.{ContextState, map_dependency_error, context_failure}
use software_engineering_pla.Scan.Model.{
  Config, BeginCommand, BeginResult, new_begin_result, new_analysis_request, PublicationArtifact,
}
use software_engineering_pla.Scan.Publication.{is_succeeded, publication_matches}
use software_engineering_pla.Scan.Execute.{
  World, Session, running_scan, begin_command, fail_running, reconcile_publication, publish_scan,
  run_started, run_begun, run_session, run_leased, execute,
}
use software_engineering_pla.Scan.Terminal.{built_scan}
use software_engineering_pla.Scan.Execute.Cases.{
  run_started-cases, Outcome-cases, SessionAnswer-cases,
}

abbrev pub is_neutral : Failure → Bool
is_neutral (neutral e) = true
is_neutral (foreign c) = false

abbrev is_own : Disposition → Bool
is_own joined = false
is_own _ = true

-- an error of the service, or the succeeded scan of the request with its own artifacts
abbrev pub delivers : ExecuteScanRequest → Outcome ScanResult → Bool
delivers request (fails f) = is_neutral f
delivers request (gives r) =
    text_eq r.scan.repository_id request.repository_id
    && (text_eq r.scan.scan_id request.scan_id
        && (is_succeeded r.scan.state
            && (all_of_scan r.scan.scan_id r.artifacts && is_own r.disposition)))

map_dependency_error-neutral :
    (f : Failure) (operation reason : Text) (fallback : ErrorKind)
    → is_neutral (map_dependency_error f operation reason fallback) ≡ true
unfolding map_dependency_error kind_of
map_dependency_error-neutral f operation reason fallback = ground arith

context_failure-neutral :
    (state : Option ContextState) (operation : Text) (f : Failure)
    → context_failure state operation ≡ some f
    → is_neutral f ≡ true
unfolding context_failure
context_failure-neutral state operation f h = ground arith

module _ (u : Unicode) (w : World) (request : ExecuteScanRequest) where
  fail_running-delivers :
      (current : Scan) (cause : Failure) (reason : Text)
      → delivers request (fail_running u w request current cause reason).outcome ≡ true
  unfolding fail_running map_dependency_error kind_of
  fail_running-delivers current cause reason = ground arith

  reconcile_publication-delivers :
      (expected : Scan) (publication : List PublicationArtifact)
      → expected.repository_id ≡ request.repository_id
      → expected.scan_id ≡ request.scan_id
      → delivers request (reconcile_publication u w request expected publication).outcome ≡ true
  unfolding reconcile_publication publication_matches new_scan_result
  reconcile_publication-delivers expected publication h k = ground arith

  publish_scan-delivers :
      (scan : Scan) (publication : List PublicationArtifact)
      → scan.repository_id ≡ request.repository_id
      → scan.scan_id ≡ request.scan_id
      → delivers request (publish_scan u w request scan publication).outcome ≡ true
  unfolding publication_matches new_scan_result
  publish_scan-delivers scan publication h k =
      ground (arith, h, k, reconcile_publication-delivers scan publication h k)

  module _ (sha256 hex : Text → Text) (c : Config) where
    run_started-delivers :
        (session : Session) (current : Scan)
        → current.repository_id ≡ request.repository_id
        → current.scan_id ≡ request.scan_id
        → delivers request (run_started u w request sha256 hex c session current).outcome ≡ true
    run_started-delivers session current h k =
        run_started-cases u w request sha256 hex c (λ run. delivers request run.outcome ≡ true)
          session current (λ cause reason v. fail_running-delivers current cause reason)
          (λ analysis t publication m o.
            let (e, (p, q, _)) =
              built_scan u w request sha256 hex c current t w.finish_clock analysis publication m
                o in
            publish_scan-delivers t publication (p ∙ h) (q ∙ k))

    run_begun-delivers :
        (session : Session) (b : BeginResult)
        → new_begin_result b.status b.scan b.artifacts ≡ gives b
        → delivers request (run_begun u w request sha256 hex c session b).outcome ≡ true
    unfolding run_begun new_begin_result new_scan_result
    run_begun-delivers session b h =
        elim (Bool-cases (
          text_eq b.scan.repository_id request.repository_id
          && text_eq b.scan.scan_id request.scan_id)) [
            | inr n ↦ ground (arith, n)
            | inl n ↦
                let p =
                  text_eq_sound b.scan.repository_id request.repository_id (ground (arith, n)) in
                let q = text_eq_sound b.scan.scan_id request.scan_id (ground (arith, n)) in
                ground (arith, n, h, run_started-delivers session b.scan p q)
          ]

    run_session-delivers :
        (session : Session)
        → ((command : BeginCommand) (b : BeginResult)
            → w.begin command ≡ gives b
            → new_begin_result b.status b.scan b.artifacts ≡ gives b)
        → delivers request (run_session u w request sha256 hex c session).outcome ≡ true
    unfolding run_session context_failure map_dependency_error kind_of
    run_session-delivers session made =
        elim (Outcome-cases (new_scan u (running_scan u w request sha256 hex c session))) [
          | inl (f, e) ↦ ground (arith, e)
          | inr (current, e) ↦
              let command = begin_command u w request sha256 hex c session current in
              elim (Outcome-cases (w.begin command)) [
                | inl (f, h) ↦ ground (arith, e, h)
                | inr (b, h) ↦ ground (arith, e, h, run_begun-delivers session b (made command b h))
              ]
        ]

    -- A flight whose store answers `Begin` with results of `NewBeginResult` returns either an error in
    -- which `KindOf` finds a kind of the service, which may be the one that a dependency returned, or a
    -- scan result with the repository and the scan of the request, which has succeeded, whose artifacts
    -- are all of that scan, and which is reported as created or already present.
    pub execute-delivers :
        ((command : BeginCommand) (b : BeginResult)
          → w.begin command ≡ gives b
          → new_begin_result b.status b.scan b.artifacts ≡ gives b)
        → delivers request (execute u w request sha256 hex c).outcome ≡ true
    unfolding execute run_leased context_failure map_dependency_error kind_of
    execute-delivers made = elim (SessionAnswer-cases (w.prepare (new_analysis_request request))) [
      | inl (inl (f, h)) ↦ ground (arith, h)
      | inl (inr h) ↦ ground (arith, h)
      | inr (session, h) ↦ ground (arith, h, run_session-delivers session made)
    ]
