-- ===== src/Memory/Refines.antt =====
-- What the reference store promises, by identifiers in place of keys
-- (backend/service/repository/conformance/implementation.go, `memoryService`).
pub mod Promised
pub mod Kept
pub mod Isolation
pub mod Retry
pub mod Order
use software_engineering_pla.Shared.{
  ◌≡◌, Bool, true, false, ◌&&◌, List, [], ◌∷◌, Option, none, some, if◌then◌else◌,
}
use software_engineering_pla.Die.Text.{Text, text, text_eq, lookup}
use software_engineering_pla.Repo.Valid.{Unicode}
use software_engineering_pla.Repo.Errors.{
  Outcome, fails, gives, fail_with, conflict, idempotency_conflict,
}
use software_engineering_pla.Repo.Values.{
  Time, Repository, Scan, ScanState, requested, running, succeeded, failed, canceled, archived,
  Artifact, ScanResult, created, already_present, RegisterRepositoryRequest,
  ArchiveRepositoryRequest, CancelScanRequest, ExecuteScanRequest, Scope,
}
use software_engineering_pla.Repo.Contract.{new_repository, new_scan, new_scan_result}
use software_engineering_pla.Memory.{
  MemoryStore, Context, guarded, missing, repository_key, memory_scan_key, artifact_key,
}
use software_engineering_pla.Memory.Keys.{NoBar}
use software_engineering_pla.Memory.Store.{
  Decision, answers, stores, registered, zero_repository, zero_scan, one_second_after,
  registration_fingerprint, archival_fingerprint, register_stored, archive_stored, cancel_stored,
}
use software_engineering_pla.Memory.Scans.{
  Execution, no_repository, existing, executed_now, fake_payload, fake_scan, fake_artifact_id,
  fake_artifact, artifacts_for, execute_stored,
}

-- what is kept in each scope, by identifiers
pub record Scoped : Type 0 where
  pub repository_at : Text → Text → Option Repository
  pub scan_at : Text → Text → Text → Option Scan
  pub artifact_at : Text → Text → Text → Text → Option Artifact
  pub payload_at : Text → Text → Text → Text → Option Text
  pub used_for : Text → Text → Option Text

abbrev pub view : MemoryStore → Scoped
view m = record {
  repository_at = λ a b. lookup (repository_key a b) m.repositories;
  scan_at = λ a b c. lookup (memory_scan_key a b c) m.scans;
  artifact_at = λ a b c d. lookup (artifact_key a b c d) m.artifacts;
  payload_at = λ a b c d. lookup (artifact_key a b c d) m.payloads;
  used_for = λ a b. lookup (repository_key a b) m.requests;
}

module _ {V : Type 0} where
  abbrev pub put2 : (Text → Text → Option V) → Text → Text → V → Text → Text → Option V
  put2 f a b v x y = if text_eq a x && text_eq b y then some v else f x y

  abbrev pub put3 :
      (Text → Text → Text → Option V) → Text → Text → Text → V → Text → Text → Text → Option V
  put3 f a b c v x y z = if text_eq a x && (text_eq b y && text_eq c z) then some v else f x y z

  abbrev pub put4 :
      (Text → Text → Text → Text → Option V)
      → Text
      → Text
      → Text
      → Text
      → V
      → Text
      → Text
      → Text
      → Text
      → Option V
  put4 f a b c d v x y z w =
      if text_eq a x && (text_eq b y && (text_eq c z && text_eq d w)) then some v else f x y z w

pub data Command : Type 0 where
  registers : Context → RegisterRepositoryRequest → Command
  archives : Context → ArchiveRepositoryRequest → Command
  cancels : Context → CancelScanRequest → Command
  executes : Context → ExecuteScanRequest → Command

abbrev pub ReplyTo : Command → Type 0
ReplyTo (registers context r) = Repository
ReplyTo (archives context r) = Repository
ReplyTo (cancels context r) = Scan
ReplyTo (executes context r) = ScanResult

-- identifiers without bars, as UUIDs are
abbrev pub HasPlainIds : Command → Type 0
HasPlainIds (registers context r) = NoBar r.scope.scope_id
HasPlainIds (archives context r) = NoBar r.scope.scope_id
HasPlainIds (cancels context r) = NoBar r.scope.scope_id × NoBar r.repository_id
HasPlainIds (executes context r) = NoBar r.scope.scope_id × NoBar r.repository_id × NoBar r.scan_id

abbrev pub scope_of : Command → Scope
scope_of (registers context r) = r.scope
scope_of (archives context r) = r.scope
scope_of (cancels context r) = r.scope
scope_of (executes context r) = r.scope

abbrev pub promise_repository :
    Text → Text → Text → Text → Scoped → Decision Repository → Outcome Repository × Scoped
promise_repository scope id request fingerprint s (answers o) = (o, s)
promise_repository scope id request fingerprint s (stores v) = (
  gives v,
  record s {
    repository_at = put2 s.repository_at scope id v;
    used_for = put2 s.used_for scope request fingerprint;
  },
)

abbrev pub promise_scan : Text → Text → Text → Scoped → Decision Scan → Outcome Scan × Scoped
promise_scan scope repository_id id s (answers o) = (o, s)
promise_scan scope repository_id id s (stores v) =
    (gives v, record s { scan_at = put3 s.scan_at scope repository_id id v })

module _ (u : Unicode) (sha256 hex : Text → Text) (now : Time) where
  -- the artifacts of a scan that is there are those that a listing gives
  abbrev pub promise_execution :
      List Artifact → ExecuteScanRequest → Scoped → Execution → Outcome ScanResult × Scoped
  promise_execution listed r s no_repository = (missing (text "execute-scan"), s)
  promise_execution listed r s (existing scan) = (new_scan_result scan listed already_present, s)
  promise_execution listed r s executed_now =
      let scope = r.scope.scope_id in
      let id = fake_artifact_id u sha256 hex now r in
      let scan = fake_scan u sha256 hex now r in
      let artifact = fake_artifact u sha256 hex now r in
      (
        new_scan_result scan (artifact ∷ []) created,
        record s {
          scan_at = put3 s.scan_at scope r.repository_id r.scan_id scan;
          artifact_at = put4 s.artifact_at scope r.repository_id r.scan_id id artifact;
          payload_at = put4 s.payload_at scope r.repository_id r.scan_id id fake_payload;
        },
      )

  abbrev pub run_command : (c : Command) → MemoryStore → Outcome (ReplyTo c) × MemoryStore
  run_command (registers context r) m = register_stored u sha256 now context r m
  run_command (archives context r) m = archive_stored u sha256 now context r m
  run_command (cancels context r) m = cancel_stored u sha256 now context r m
  run_command (executes context r) m = execute_stored u sha256 hex now context r m

  abbrev pub listed_for : Command → MemoryStore → List Artifact
  listed_for (executes context r) m = artifacts_for m r.scope.scope_id r.repository_id r.scan_id
  listed_for _ m = []

  -- a request that was used before is refused, or answered with what there is; an unused one stores
  -- what is made of it
  abbrev pub promised_registration :
      Text → Option Text → Option Repository → Outcome Repository → Decision Repository
  promised_registration fingerprint (some previous) present made =
      if text_eq previous fingerprint
      then elim present [
        | some v ↦ answers (gives v)
        | none ↦
            answers
              (fail_with conflict (text "register-repository") (text "missing-idempotent-result"))
      ]
      else answers
          (fail_with idempotency_conflict (text "register-repository") (text "request-reused"))
  promised_registration fingerprint none present made = elim made [
    | fails failure ↦ answers (fails failure)
    | gives v ↦ stores v
  ]

  -- an archival needs a repository, and a request that is unused or was used for it
  abbrev pub promised_archival : Text → Option Text → Option Repository → Decision Repository
  promised_archival fingerprint previous present =
      let decision : Decision Repository = elim present [
        | none ↦ answers (missing (text "archive-repository"))
        | some v ↦
            elim (new_repository u
              (record v { state = archived; updated_at = one_second_after now })) [
                | gives w ↦ stores w
                | fails _ ↦ stores zero_repository
              ]
      ] in
      elim previous [
        | none ↦ decision
        | some p ↦
            if text_eq p fingerprint
            then decision
            else answers
                (fail_with idempotency_conflict (text "archive-repository") (text "request-reused"))
      ]

  -- a scan in any state but one is canceled
  abbrev canceling : Scan → Decision Scan
  canceling s =
      elim (new_scan u
        (record s { state = canceled; reason_code = text "caller-canceled"; finished_at = now })) [
          | gives t ↦ stores t
          | fails _ ↦ stores zero_scan
        ]

  abbrev pub promised_cancellation : Option Scan → Decision Scan
  promised_cancellation none = answers (missing (text "cancel-scan"))
  promised_cancellation (some s) = elim s.state [
    | requested ↦ canceling s
    | running ↦ canceling s
    | succeeded ↦ answers (fail_with conflict (text "cancel-scan") (text "already-published"))
    | failed ↦ canceling s
    | canceled ↦ canceling s
  ]

  -- a scan is executed where there is a repository and no such scan
  abbrev pub promised_execution : Option Repository → Option Scan → Execution
  promised_execution present (some scan) = elim present [
    | none ↦ no_repository
    | some _ ↦ existing scan
  ]
  promised_execution present none = elim present [ none ↦ no_repository | some _ ↦ executed_now ]

  abbrev pub promise : List Artifact → (c : Command) → Scoped → Outcome (ReplyTo c) × Scoped
  promise listed (registers context r) = guarded context (text "register-repository") (λ s.
      let scope = r.scope.scope_id in
      let fingerprint = registration_fingerprint r in
      promise_repository scope r.repository_id r.request_id fingerprint s (
        promised_registration fingerprint (s.used_for scope r.request_id)
          (s.repository_at scope r.repository_id) (registered u sha256 now r)))
  promise listed (archives context r) = guarded context (text "archive-repository") (λ s.
      let scope = r.scope.scope_id in
      let fingerprint = archival_fingerprint r.repository_id in
      promise_repository scope r.repository_id r.request_id fingerprint s (
        promised_archival fingerprint (s.used_for scope r.request_id)
          (s.repository_at scope r.repository_id)))
  promise listed (cancels context r) = guarded context (text "cancel-scan") (λ s.
      let scope = r.scope.scope_id in
      promise_scan scope r.repository_id r.scan_id s
        (promised_cancellation (s.scan_at scope r.repository_id r.scan_id)))
  promise listed (executes context r) = guarded context (text "execute-scan") (λ s.
      let scope = r.scope.scope_id in
      promise_execution listed r s (
        promised_execution (s.repository_at scope r.repository_id)
          (s.scan_at scope r.repository_id r.scan_id)))
