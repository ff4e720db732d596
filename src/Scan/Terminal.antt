-- ===== src/Scan/Terminal.antt =====
-- The end of a scan that has started (backend/service/repository/scan/implementation.go: `execute`
-- after `BeginStarted`, `failRunning`).
use software_engineering_pla.Shared.{
  ◌≡◌, refl, sym, subst, ap, inl, inr, Bool, true, false, not, ◌||◌, List, [], ◌∷◌, arith,
  if◌then◌else◌,
}
use software_engineering_pla.Die.Text.{Text, text}
use software_engineering_pla.Repo.Errors.{Failure, Outcome, fails, gives, kind_of, ◌>>=◌}
use software_engineering_pla.Repo.Valid.{Unicode, safe_token, valid_optional_token}
use software_engineering_pla.Repo.Values.{
  Time, before, is_zero_time, utc, ScanState, running, succeeded, failed, canceled, Scan,
  ExecuteScanRequest,
}
use software_engineering_pla.Repo.Contract.{valid_scan_times, new_scan}
use software_engineering_pla.Scan.Publication.{finished_scan, build_publication, describe_all}
use software_engineering_pla.Scan.Execute.{
  World, Event, publishes, finalizes, reconciles, Session, after_start, fail_running, has_ended,
  is_cancellation, reconcile_publication, publish_scan, run_started,
}
use software_engineering_pla.Scan.Execute.Cases.{run_started-cases, Outcome-cases}
use software_engineering_pla.Scan.Model.{
  Config, sort_candidates, PublicationArtifact, PublishCommand, FinalizeCommand, AnalysisResult,
}

-- a scan as the service makes it
abbrev pub IsBuilt : Unicode → Scan → Type 0
IsBuilt u s = new_scan u s ≡ gives s

abbrev end_state : Bool → ScanState
end_state ended = if ended then canceled else failed

new_scan-finished_scan :
    (u : Unicode) (s : Scan) (ended : Bool) (reason : Text) (t : Time)
    → IsBuilt u s
    → s.state ≡ running
    → valid_optional_token reason 128 ≡ true
    → not (is_zero_time t || before t s.started_at) ≡ true
    → new_scan u (finished_scan s (end_state ended) reason t)
      ≡ gives (finished_scan s (end_state ended) reason (utc t))
unfolding new_scan valid_scan_times
new_scan-finished_scan u s ended reason t b r v h = ground arith

abbrev is_terminal : ScanState → Bool
is_terminal canceled = true
is_terminal failed = true
is_terminal _ = false

-- the record that ends a scan: of the same scan, with an end that is set and not before the start
abbrev pub Ends : Scan → Scan → Type 0
Ends s t =
    (t.repository_id ≡ s.repository_id)
    × (t.scan_id ≡ s.scan_id)
    × (not (is_zero_time t.finished_at || before t.finished_at s.started_at) ≡ true)

-- the events from the start to the end of a scan: one finalization, or one publication that may be
-- reconciled
abbrev pub Decided : Scan → List Event → Type 0
Decided s (finalizes c ∷ []) = (is_terminal c.scan.state ≡ true) × Ends s c.scan
Decided s (publishes c ∷ []) = (c.scan.state ≡ succeeded) × Ends s c.scan
Decided s (publishes c ∷ reconciles ∷ []) = (c.scan.state ≡ succeeded) × Ends s c.scan
Decided s _ = ⊥

bind_gives {ℓ κ} :
    {V : Type ℓ} {W : Type κ} (o : Outcome V) (next : V → Outcome W) (y : W)
    → (o >>= next) ≡ gives y
    → (x : V) × (o ≡ gives x) × (next x ≡ gives y)
bind_gives (fails f) next y e = cc
bind_gives (gives x) next y e = (x, refl, e)

abbrev scan_or {ℓ} : {P : Type ℓ} → Scan → Outcome (Scan × P) → Scan
scan_or s (gives (t, p)) = t
scan_or s (fails f) = s

new_scan-utc :
    (u : Unicode) (p s : Scan)
    → new_scan u p ≡ gives s
    → s ≡ record p {
      requested_at = utc p.requested_at;
      started_at = utc p.started_at;
      finished_at = utc p.finished_at;
    }
unfolding new_scan
new_scan-utc u p s h = ground arith

canceled_token :
    (ended : Bool) (reason : Text)
    → valid_optional_token reason 128 ≡ true
    → valid_optional_token (if ended then text "canceled" else reason) 128 ≡ true
unfolding valid_optional_token safe_token
canceled_token true reason v = refl
canceled_token false reason v = v

is_terminal-end_state : (ended : Bool) → is_terminal (end_state ended) ≡ true
is_terminal-end_state ended = ground arith

module _ (u : Unicode) (w : World) (request : ExecuteScanRequest) where
  failure_time :
      (s : Scan)
      → IsBuilt u s
      → s.state ≡ running
      → (let t =
            if after_start s (utc w.failure_clock) then utc w.failure_clock else s.started_at in
          not (is_zero_time t || before t s.started_at))
        ≡ true
  unfolding new_scan valid_scan_times
  failure_time s b r = ground arith

  fail_running-log :
      (s : Scan) (cause : Failure) (reason : Text)
      → IsBuilt u s
      → s.state ≡ running
      → valid_optional_token reason 128 ≡ true
      → Decided s (fail_running u w request s cause reason).log
  unfolding fail_running
  fail_running-log s cause reason b r v =
      let ended = has_ended w.at_failure || is_cancellation (kind_of cause) in
      let t = if after_start s (utc w.failure_clock) then utc w.failure_clock else s.started_at in
      let h : not (is_zero_time t || before t s.started_at) ≡ true = failure_time s b r in
      let final = if ended then text "canceled" else reason in
      let e = new_scan-finished_scan u s ended final t b r (canceled_token ended reason v) h in
      let command : FinalizeCommand = record {
        scope = request.scope;
        request_id = request.request_id;
        scan = finished_scan s (end_state ended) final (utc t);
      } in
      let log : (fail_running u w request s cause reason).log ≡ finalizes command ∷ [] =
        ground (arith, e) in
      rw log (is_terminal-end_state ended, (refl, refl, h))

  reconcile_publication-log :
      (expected : Scan) (publication : List PublicationArtifact)
      → (reconcile_publication u w request expected publication).log ≡ reconciles ∷ []
  unfolding reconcile_publication
  reconcile_publication-log expected publication = ground arith

  publish_scan-log :
      (s t : Scan) (publication : List PublicationArtifact)
      → t.state ≡ succeeded
      → Ends s t
      → Decided s (publish_scan u w request t publication).log
  publish_scan-log s t publication e ends =
      let command : PublishCommand = record {
        scope = request.scope;
        request_id = request.request_id;
        scan = t;
        artifacts = publication;
      } in
      elim (Outcome-cases (w.publish command)) [
        | inl (f, h) ↦
            let log : (publish_scan u w request t publication).log
                ≡ publishes command ∷ reconciles ∷ [] =
              ground (arith, h, reconcile_publication-log t publication) in
            subst (Decided s) (sym log) (e, ends)
        | inr (result, h) ↦
            let log : (publish_scan u w request t publication).log ≡ publishes command ∷ [] =
              ground (arith, h) in
            subst (Decided s) (sym log) (e, ends)
      ]

  module _ (sha256 hex : Text → Text) (c : Config) where
    pub built_scan :
        (s t : Scan) (finished : Time) (analysis : AnalysisResult)
        (publication : List PublicationArtifact)
        → after_start s (utc finished) ≡ true
        → build_publication u sha256 hex request s (utc finished) analysis ≡ gives (t, publication)
        → (t.state ≡ succeeded) × Ends s t
    unfolding build_publication
    built_scan s t finished analysis publication k h =
        let (ps, _, e) =
          bind_gives
            (describe_all u sha256 hex request (utc finished) (sort_candidates analysis.candidates))
            _ _ h in
        let (scan, n, g) =
          bind_gives (new_scan u (finished_scan s succeeded [] (utc finished))) _ _ e in
        let same : scan ≡ t = ap (scan_or s) g in
        let utc_scan = new_scan-utc u (finished_scan s succeeded [] (utc finished)) scan n in
        subst (λ x. (x.state ≡ succeeded) × Ends s x) same
          (subst (λ x. (x.state ≡ succeeded) × Ends s x) (sym utc_scan) (refl, (refl, refl, k)))

    -- A running scan that the store has begun is always ended: with whatever the session, the contexts, the
    -- clocks and the store answer, the events that follow are one finalization with a failed or canceled
    -- scan, or one publication with a succeeded scan, which may be reconciled; and the scan that is
    -- sent has the identifiers of the running one and an end that is set and not before its start.
    pub run_started-log :
        (session : Session) (s : Scan)
        → IsBuilt u s
        → s.state ≡ running
        → Decided s (run_started u w request sha256 hex c session s).log
    run_started-log session s b r =
        run_started-cases u w request sha256 hex c (λ run. Decided s run.log) session s
          (λ cause reason v. fail_running-log s cause reason b r v)
          (λ analysis t publication k h.
            let (e, ends) = built_scan s t w.finish_clock analysis publication k h in
            publish_scan-log s t publication e ends)
