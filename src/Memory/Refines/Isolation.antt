-- ===== src/Memory/Refines/Isolation.antt =====
-- Commands in one scope leave the others alone
-- (backend/service/repository/conformance/implementation.go, `memoryService`).
use software_engineering_pla.Shared.{◌≡◌, refl, ◌∙◌, false, List, Option, none, some}
use software_engineering_pla.Die.Text.{Text, text, text_eq}
use software_engineering_pla.Repo.Valid.{Unicode}
use software_engineering_pla.Repo.Errors.{Outcome, Failure}
use software_engineering_pla.Repo.Values.{Time, Repository, Scan, Artifact, ExecuteScanRequest}
use software_engineering_pla.Memory.{MemoryStore, check_context, guard_by}
use software_engineering_pla.Memory.Keys.{NoBar}
use software_engineering_pla.Memory.Store.{Decision, answers, stores}
use software_engineering_pla.Memory.Scans.{Execution, no_repository, existing, executed_now}
use software_engineering_pla.Memory.Refines.{
  Scoped, view, Command, registers, archives, cancels, executes, HasPlainIds, scope_of,
  promise_repository, promise_scan, promise_execution, run_command, listed_for, promise,
}
use software_engineering_pla.Memory.Refines.Kept.{run_command-Keeps}

-- one answer to every question about a scope, for identifiers without bars
pub record AgreeIn (scope : Text) (s t : Scoped) : Type 0 where
  pub repository_stays : (b : Text) → s.repository_at scope b ≡ t.repository_at scope b
  pub use_stays : (b : Text) → s.used_for scope b ≡ t.used_for scope b
  pub scan_stays : (b c : Text) → NoBar b → s.scan_at scope b c ≡ t.scan_at scope b c
  pub artifact_stays :
      (b c d : Text) → NoBar b → NoBar c → s.artifact_at scope b c d ≡ t.artifact_at scope b c d
  pub payload_stays :
      (b c d : Text) → NoBar b → NoBar c → s.payload_at scope b c d ≡ t.payload_at scope b c d

module _ (scope other : Text) (apart : text_eq other scope ≡ false) where
  AgreeIn-refl : (s : Scoped) → AgreeIn scope s s
  AgreeIn-refl s = record {
    repository_stays = λ b. refl;
    use_stays = λ b. refl;
    scan_stays = λ b c h. refl;
    artifact_stays = λ b c d h k. refl;
    payload_stays = λ b c d h k. refl;
  }

  guard_by-there :
      {V : Type 0} (f : Option Failure) (spec : Scoped → Outcome V × Scoped) (s : Scoped)
      → AgreeIn scope (spec s).1 s
      → AgreeIn scope (guard_by f spec s).1 s
  guard_by-there (some failure) spec s h = AgreeIn-refl s
  guard_by-there none spec s h = h

  promise_repository-there :
      (id request fingerprint : Text) (s : Scoped) (d : Decision Repository)
      → AgreeIn scope (promise_repository other id request fingerprint s d).1 s
  promise_repository-there id request fingerprint s (answers o) = AgreeIn-refl s
  promise_repository-there id request fingerprint s (stores v) = record {
    repository_stays = λ b. rw apart refl;
    use_stays = λ b. rw apart refl;
    scan_stays = λ b c h. refl;
    artifact_stays = λ b c d h k. refl;
    payload_stays = λ b c d h k. refl;
  }

  promise_scan-there :
      (repository_id id : Text) (s : Scoped) (d : Decision Scan)
      → AgreeIn scope (promise_scan other repository_id id s d).1 s
  promise_scan-there repository_id id s (answers o) = AgreeIn-refl s
  promise_scan-there repository_id id s (stores v) = record {
    repository_stays = λ b. refl;
    use_stays = λ b. refl;
    scan_stays = λ b c h. rw apart refl;
    artifact_stays = λ b c d h k. refl;
    payload_stays = λ b c d h k. refl;
  }

module _ (u : Unicode) (sha256 hex : Text → Text) (now : Time) where
  promise_execution-there :
      (scope : Text) (listed : List Artifact) (r : ExecuteScanRequest) (s : Scoped) (e : Execution)
      → text_eq r.scope.scope_id scope ≡ false
      → AgreeIn scope (promise_execution u sha256 hex now listed r s e).1 s
  promise_execution-there scope listed r s no_repository apart =
      AgreeIn-refl scope r.scope.scope_id apart s
  promise_execution-there scope listed r s (existing scan) apart =
      AgreeIn-refl scope r.scope.scope_id apart s
  promise_execution-there scope listed r s executed_now apart = record {
    repository_stays = λ b. refl;
    use_stays = λ b. refl;
    scan_stays = λ b c h. rw apart refl;
    artifact_stays = λ b c d h k. rw apart refl;
    payload_stays = λ b c d h k. rw apart refl;
  }

  promise-there :
      (scope : Text) (listed : List Artifact) (c : Command) (s : Scoped)
      → text_eq (scope_of c).scope_id scope ≡ false
      → AgreeIn scope (promise u sha256 hex now listed c s).1 s
  promise-there scope listed (registers context r) s apart =
      guard_by-there scope r.scope.scope_id apart
        (check_context context (text "register-repository")) _ s
        (promise_repository-there scope r.scope.scope_id apart r.repository_id r.request_id _ s _)
  promise-there scope listed (archives context r) s apart =
      guard_by-there scope r.scope.scope_id apart
        (check_context context (text "archive-repository")) _ s
        (promise_repository-there scope r.scope.scope_id apart r.repository_id r.request_id _ s _)
  promise-there scope listed (cancels context r) s apart =
      guard_by-there scope r.scope.scope_id apart (check_context context (text "cancel-scan")) _ s
        (promise_scan-there scope r.scope.scope_id apart r.repository_id r.scan_id s _)
  promise-there scope listed (executes context r) s apart =
      guard_by-there scope r.scope.scope_id apart (check_context context (text "execute-scan")) _ s
        (promise_execution-there scope listed r s _ apart)

  -- A command with identifiers without bars, in one scope, leaves the repositories, requests, scans,
  -- artifacts and payloads of every other scope as they were.
  pub run_command-AgreeIn :
      (c : Command) (m : MemoryStore) (scope : Text)
      → HasPlainIds c
      → NoBar scope
      → text_eq (scope_of c).scope_id scope ≡ false
      → AgreeIn scope (view (run_command u sha256 hex now c m).1) (view m)
  run_command-AgreeIn c m scope h n apart =
      let (_, a) = run_command-Keeps u sha256 hex now c m h in
      let t = promise-there scope (listed_for u sha256 hex now c m) c (view m) apart in
      record {
        repository_stays = λ b. a.same_repository scope b n ∙ t.repository_stays b;
        use_stays = λ b. a.same_use scope b n ∙ t.use_stays b;
        scan_stays = λ b c k. a.same_scan scope b c n k ∙ t.scan_stays b c k;
        artifact_stays =
            λ b c d k l. a.same_artifact scope b c d n k l ∙ t.artifact_stays b c d k l;
        payload_stays = λ b c d k l. a.same_payload scope b c d n k l ∙ t.payload_stays b c d k l;
      }
