-- ===== src/Scan/Samples.antt =====
-- Runs of a scan's execution (backend/service/repository/scan), and the theorems at them.
use software_engineering_pla.Shared.{
  not, ℕ, ◌≡◌, refl, true, ◌||◌, List, [], ◌∷◌, Option, none, some, leb, ltb, ◌==◌, ◌&&◌, arith,
}
use software_engineering_pla.Shared.Int.{pos}
use software_engineering_pla.Die.Text.{Text, text}
use software_engineering_pla.Repo.Errors.{Outcome, gives, fails, foreign, no_cause}
use software_engineering_pla.Repo.Valid.{
  Unicode, valid_uuid, valid_identity_field, valid_optional_token, valid_machine, valid_name,
  valid_version, valid_safe_text,
}
use software_engineering_pla.Repo.Values.{
  Time, AnalysisProfile, Scan, Artifact, CancelScanRequest, canceled, ScanResult,
  ExecuteScanRequest, running, created, Disposition,
}
use software_engineering_pla.Repo.Contract.{
  new_scan, valid_scan_times, new_scan_result, new_artifact,
}
use software_engineering_pla.Scan.Errors.{live_context, context_failure}
use software_engineering_pla.Scan.Model.{
  ArtifactCandidate, BeginResult, begin_started, new_begin_result, PublicationArtifact, Config,
  safe_revision,
}
use software_engineering_pla.Scan.Service.{cancel_scan}
use software_engineering_pla.Scan.Handlers.{answers, confirms, was_asked, cancel_scan-confirms}
use software_engineering_pla.Repo.Framing.{
  frame_fields, canonical_artifact_identity, new_artifact_id,
}
use software_engineering_pla.Scan.Publication.{build_publication, publication_matches}
use software_engineering_pla.Scan.Execute.{
  World, Session, leased, opened, execute, run_started, run_session, run_begun, run_leased,
}
use software_engineering_pla.Scan.Protocol.{accepts, execute-accepts}
use software_engineering_pla.Scan.Outcomes.{delivers, execute-delivers}
use software_engineering_pla.Scan.Terminal.{IsBuilt, Decided, run_started-log}

abbrev pub ascii : Unicode
ascii = record {
  runes = λ v. some v;
  is_trimmed = λ v. true;
  is_letter = λ c. (leb b'a' c && leb c b'z') || (leb b'A' c && leb c b'Z');
  is_digit = λ c. leb b'0' c && leb c b'9';
  is_lower = λ c. leb b'a' c && leb c b'z';
  is_control = λ c. ltb c 32 || c == 127;
}

abbrev pub repository_uuid : Text
repository_uuid = text "11111111-1111-4111-8111-111111111111"

abbrev pub scan_uuid : Text
scan_uuid = text "22222222-2222-4222-8222-222222222222"

abbrev profile : AnalysisProfile
profile = record { name = text "repository-go"; version = text "1"; digest = 7 ∷ [] }

abbrev pub request : ExecuteScanRequest
request = record {
  scope = record {
    scope_id = text "33333333-3333-4333-8333-333333333333";
    principal_id = text "ci";
  };
  request_id = text "r1";
  repository_id = repository_uuid;
  scan_id = scan_uuid;
  source = text "src";
  profile = profile;
}

abbrev candidate : ArtifactCandidate
candidate = record {
  name = text "build-inventory";
  version = text "1.0.0";
  stable_id_scheme = text "id/v1";
  codec_name = text "json";
  codec_version = text "1";
  media_type = text "application/json";
  payload_digest = 9 ∷ [];
  payload_size = 12;
  producer_name = text "engine";
  producer_version = text "1";
  dependencies = [];
  has_payload = true;
}

abbrev at : ℕ → Time
at n = record { instant = pos n; is_utc = true }

abbrev session : Session
session = record {
  source_fingerprint = 5 ∷ [];
  source_revision = text "main";
  analysis = gives (record { profile = profile; candidates = candidate ∷ [] });
}

abbrev metadata_of : List PublicationArtifact → List Artifact
metadata_of [] = []
metadata_of (p ∷ ps) = p.metadata ∷ metadata_of ps

-- a store that begins what it is asked to, and publishes
abbrev world : World
world = record {
  acquire = leased live_context;
  at_lease = live_context;
  prepare = λ _. opened session;
  at_session = live_context;
  start_clock = at 10;
  begin = λ command. new_begin_result begin_started command.scan [];
  at_analysis = live_context;
  finish_clock = at 20;
  at_publication = live_context;
  publish = λ command. new_scan_result command.scan (metadata_of command.artifacts) created;
  reconcile = λ _ _ _. fails (foreign no_cause);
  at_failure = live_context;
  failure_clock = at 25;
  finalize = λ command. gives command.scan;
}

abbrev config : Config
config = record {
  cleanup_timeout = pos 5000000000;
  finalization_timeout = pos 5000000000;
  max_artifacts = pos 64;
}

abbrev hash : Text → Text
hash v = 1 ∷ []

abbrev hex : Text → Text
hex v = text "01"

execute-accepts_example : accepts world (execute ascii world request hash hex config).log ≡ true
execute-accepts_example = execute-accepts ascii world request hash hex config

begin_made :
    (scan : Scan) (b : BeginResult)
    → new_begin_result begin_started scan [] ≡ gives b
    → new_begin_result b.status b.scan b.artifacts ≡ gives b
unfolding new_begin_result
begin_made scan b h = ground arith

execute-delivers_example :
    delivers request (execute ascii world request hash hex config).outcome ≡ true
execute-delivers_example =
    execute-delivers ascii world request hash hex config
      (λ command b h. begin_made command.scan b h)

abbrev pub started_scan : Scan
started_scan = record {
  repository_id = repository_uuid;
  scan_id = scan_uuid;
  profile = profile;
  source_revision = text "main";
  state = running;
  reason_code = [];
  requested_at = at 10;
  started_at = at 10;
  finished_at = at 0;
}

started_scan-IsBuilt : IsBuilt ascii started_scan
unfolding new_scan valid_scan_times valid_uuid valid_identity_field valid_optional_token
started_scan-IsBuilt = refl

run_started-log_example :
    Decided started_scan (run_started ascii world request hash hex config session started_scan).log
run_started-log_example =
    run_started-log ascii world request hash hex config session started_scan started_scan-IsBuilt
      refl

abbrev outcome_kind : Outcome ScanResult → Option Disposition
outcome_kind (gives r) = some r.disposition
outcome_kind (fails f) = none

publishes_scan : outcome_kind (execute ascii world request hash hex config).outcome ≡ some created
unfolding execute new_begin_result new_scan valid_scan_times valid_uuid valid_identity_field
    valid_optional_token safe_revision build_publication new_artifact_id canonical_artifact_identity
    new_artifact publication_matches new_scan_result context_failure valid_machine valid_name
    valid_version valid_safe_text frame_fields run_leased run_session run_begun run_started
publishes_scan = refl

abbrev cancel_request : CancelScanRequest
cancel_request = record {
  scope = request.scope;
  request_id = text "r2";
  repository_id = repository_uuid;
  scan_id = scan_uuid;
}

abbrev canceled_scan : Scan
canceled_scan = record started_scan { state = canceled; finished_at = at 30 }

cancel_scan-confirms_example :
    (let r =
        cancel_scan hash (some live_context) cancel_request (at 30) (λ _. gives canceled_scan) in
      (r.cancels_flight ≡ confirms cancel_request r.outcome)
      × (answers (λ v. r.cancels_flight) r.outcome ≡ true)
      × (not r.cancels_flight || was_asked r.command ≡ true))
cancel_scan-confirms_example =
    cancel_scan-confirms hash (some live_context) cancel_request (at 30) (λ _. gives canceled_scan)
