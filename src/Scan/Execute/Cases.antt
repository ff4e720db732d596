-- ===== src/Scan/Execute/Cases.antt =====
-- How a run after `BeginStarted` can go on (backend/service/repository/scan/implementation.go:
-- `execute`).
use software_engineering_pla.Shared.{
  ◌≡◌, refl, ◌⊎◌, inl, inr, true, not, ◌||◌, List, some, length, Bool-cases, Option-cases,
}
use software_engineering_pla.Shared.Int.{pos, ltb_ℤ}
use software_engineering_pla.Die.Text.{Text, text}
use software_engineering_pla.Repo.Errors.{Failure, Outcome, fails, gives}
use software_engineering_pla.Repo.Valid.{Unicode, safe_token, valid_optional_token}
use software_engineering_pla.Repo.Values.{utc, profile_eq, Scan, ExecuteScanRequest}
use software_engineering_pla.Scan.Errors.{context_failure}
use software_engineering_pla.Scan.Model.{AnalysisResult, PublicationArtifact, Config}
use software_engineering_pla.Scan.Publication.{build_publication}
use software_engineering_pla.Scan.Execute.{
  World, Session, SessionAnswer, session_error, nil_session, opened, Run, after_start, fail_running,
  publish_scan, poll_running, run_started, execute_scan_op,
}

pub Outcome-cases {ℓ} :
    {V : Type ℓ} (o : Outcome V) → ((f : Failure) × (o ≡ fails f)) ⊎ ((v : V) × (o ≡ gives v))
Outcome-cases (fails f) = inl (f, refl)
Outcome-cases (gives v) = inr (v, refl)

pub SessionAnswer-cases :
    (a : SessionAnswer)
    → (((f : Failure) × (a ≡ session_error f)) ⊎ (a ≡ nil_session))
      ⊎ ((s : Session) × (a ≡ opened s))
SessionAnswer-cases (session_error f) = inl (inl (f, refl))
SessionAnswer-cases nil_session = inl (inr refl)
SessionAnswer-cases (opened s) = inr (s, refl)

module _ (u : Unicode) (w : World) (request : ExecuteScanRequest) (sha256 hex : Text → Text)
    (c : Config) where
  pub run_started-cases {κ} :
      (P : Run → Type κ) (session : Session) (current : Scan)
      → ((cause : Failure) (reason : Text)
          → valid_optional_token reason 128 ≡ true
          → P (fail_running u w request current cause reason))
      → ((analysis : AnalysisResult) (scan : Scan) (publication : List PublicationArtifact)
          → after_start current (utc w.finish_clock) ≡ true
          → build_publication u sha256 hex request current (utc w.finish_clock) analysis
            ≡ gives (scan, publication)
          → P (publish_scan u w request scan publication))
      → P (run_started u w request sha256 hex c session current)
  unfolding run_started valid_optional_token safe_token
  run_started-cases P session current hf hp = elim (Outcome-cases session.analysis) [
    | inl (f, e) ↦ rw e (search hf)
    | inr (analysis, e) ↦
        rw e
          (elim (Bool-cases (
            not (profile_eq analysis.profile request.profile)
            || ltb_ℤ c.max_artifacts (pos (length analysis.candidates)))) [
              | inl b ↦ rw b (search hf)
              | inr b ↦
                  rw b (elim (Option-cases (context_failure (some w.at_analysis) execute_scan_op)) [
                    | inr (f, g) ↦ rw (poll_running, g) (search hf)
                    | inl g ↦
                        rw (poll_running, g)
                          (elim (Bool-cases (after_start current (utc w.finish_clock))) [
                            | inr k ↦ rw k (search hf)
                            | inl k ↦ rw k (built analysis k)
                          ])
                  ])
            ])
  ]
    where
      built :
          (analysis : AnalysisResult)
          → after_start current (utc w.finish_clock) ≡ true
          → P (elim (build_publication u sha256 hex request current (utc w.finish_clock) analysis) [
            | fails failure ↦
                fail_running u w request current failure (text "artifact-metadata-failed")
            | gives b ↦
                poll_running u w request w.at_publication current (publish_scan u w request b.0 b.1)
          ])
      built analysis k =
          elim (Outcome-cases
            (build_publication u sha256 hex request current (utc w.finish_clock) analysis)) [
              | inl (f, o) ↦ rw o (search hf)
              | inr (b, o) ↦
                  rw o
                    (elim (Option-cases (context_failure (some w.at_publication) execute_scan_op)) [
                      | inr (f, m) ↦ rw (poll_running, m) (search hf)
                      | inl m ↦ rw (poll_running, m) (hp analysis b.0 b.1 k o)
                    ])
            ]
