-- ===== src/Memory/Refines/Kept.antt =====
-- The reference store keeps what it promises (backend/service/repository/conformance/implementation.go,
-- `memoryService`).
use software_engineering_pla.Shared.{
  ◌≡◌, refl, subst, none, some, ap, ◌∙◌, List, Option, if◌then◌else◌,
}
use software_engineering_pla.Die.Text.{Text, text, lookup, insert}
use software_engineering_pla.Die.Text.Maps.{lookup-insert}
use software_engineering_pla.Repo.Valid.{Unicode}
use software_engineering_pla.Repo.Errors.{Outcome, Failure}
use software_engineering_pla.Repo.Values.{Time, Repository, Scan, ExecuteScanRequest}
use software_engineering_pla.Memory.{
  MemoryStore, check_context, guard_by, repository_key, memory_scan_key, artifact_key,
}
use software_engineering_pla.Memory.Keys.{
  NoBar, repository_key-distinct, memory_scan_key-distinct, artifact_key-distinct,
}
use software_engineering_pla.Memory.Store.{
  Decision, answers, stores, registration_fingerprint, archival_fingerprint, register_stored,
  archive_stored, cancel_stored, keep_repository, keep_scan,
}
use software_engineering_pla.Memory.Scans.{
  Execution, no_repository, existing, executed_now, artifacts_for, keep_execution, execute_stored,
}
use software_engineering_pla.Memory.Refines.{
  Scoped, view, put2, put3, put4, Command, registers, archives, cancels, executes, HasPlainIds,
  promise_repository, promise_scan, promise_execution, run_command, listed_for, promise,
}
use software_engineering_pla.Memory.Refines.Promised.{
  idempotent-as_promised, decide_archive-as_promised, decide_cancel-as_promised,
  execution_of-as_promised,
}

-- one answer to every question about identifiers without bars
pub record Agree (s t : Scoped) : Type 0 where
  pub same_repository : (a b : Text) → NoBar a → s.repository_at a b ≡ t.repository_at a b
  pub same_use : (a b : Text) → NoBar a → s.used_for a b ≡ t.used_for a b
  pub same_scan : (a b c : Text) → NoBar a → NoBar b → s.scan_at a b c ≡ t.scan_at a b c
  pub same_artifact :
      (a b c d : Text) → NoBar a → NoBar b → NoBar c → s.artifact_at a b c d ≡ t.artifact_at a b c d
  pub same_payload :
      (a b c d : Text) → NoBar a → NoBar b → NoBar c → s.payload_at a b c d ≡ t.payload_at a b c d

Agree-refl : (s : Scoped) → Agree s s
Agree-refl s = record {
  same_repository = λ a b h. refl;
  same_use = λ a b h. refl;
  same_scan = λ a b c h k. refl;
  same_artifact = λ a b c d h k l. refl;
  same_payload = λ a b c d h k l. refl;
}

module _ {V : Type 0} (m : List (Text × V)) (v : V) where
  lookup-insert2 :
      (a b x y : Text)
      → NoBar a
      → NoBar x
      → lookup (repository_key x y) (insert (repository_key a b) v m)
        ≡ put2 (λ x y. lookup (repository_key x y) m) a b v x y
  lookup-insert2 a b x y h k =
      lookup-insert m (repository_key a b) (repository_key x y) v
      ∙ ap (λ e. if e then some v else lookup (repository_key x y) m)
          (repository_key-distinct a x b y h k)

  lookup-insert3 :
      (a b c x y z : Text)
      → NoBar a
      → NoBar b
      → NoBar x
      → NoBar y
      → lookup (memory_scan_key x y z) (insert (memory_scan_key a b c) v m)
        ≡ put3 (λ x y z. lookup (memory_scan_key x y z) m) a b c v x y z
  lookup-insert3 a b c x y z h i k l =
      lookup-insert m (memory_scan_key a b c) (memory_scan_key x y z) v
      ∙ ap (λ e. if e then some v else lookup (memory_scan_key x y z) m)
          (memory_scan_key-distinct a x b y c z h k i l)

  lookup-insert4 :
      (a b c d x y z w : Text)
      → NoBar a
      → NoBar b
      → NoBar c
      → NoBar x
      → NoBar y
      → NoBar z
      → lookup (artifact_key x y z w) (insert (artifact_key a b c d) v m)
        ≡ put4 (λ x y z w. lookup (artifact_key x y z w) m) a b c d v x y z w
  lookup-insert4 a b c d x y z w h i j k l n =
      lookup-insert m (artifact_key a b c d) (artifact_key x y z w) v
      ∙ ap (λ e. if e then some v else lookup (artifact_key x y z w) m)
          (artifact_key-distinct a x b y c z d w h k i l j n)

-- the same answer, and stores that answer alike from then on
abbrev pub Keeps : {V : Type 0} → Outcome V × MemoryStore → Outcome V × Scoped → Type 0
Keeps p q = (p.0 ≡ q.0) × Agree (view p.1) q.1

guard_by-Keeps :
    {V : Type 0} (f : Option Failure) (step : MemoryStore → Outcome V × MemoryStore)
    (spec : Scoped → Outcome V × Scoped) (m : MemoryStore)
    → Keeps (step m) (spec (view m))
    → Keeps (guard_by f step m) (guard_by f spec (view m))
guard_by-Keeps (some failure) step spec m h = (refl, Agree-refl (view m))
guard_by-Keeps none step spec m h = h

keep_repository-Keeps :
    (scope id request fingerprint : Text) (m : MemoryStore) (d : Decision Repository)
    → NoBar scope
    → Keeps
        (keep_repository (repository_key scope id) (repository_key scope request) fingerprint m d)
        (promise_repository scope id request fingerprint (view m) d)
keep_repository-Keeps scope id request fingerprint m (answers o) h = (refl, Agree-refl (view m))
keep_repository-Keeps scope id request fingerprint m (stores v) h = (
  refl,
  record {
    same_repository = λ a b k. lookup-insert2 m.repositories v scope id a b h k;
    same_use = λ a b k. lookup-insert2 m.requests fingerprint scope request a b h k;
    same_scan = λ a b c k l. refl;
    same_artifact = λ a b c d k l n. refl;
    same_payload = λ a b c d k l n. refl;
  },
)

keep_scan-Keeps :
    (scope repository_id id : Text) (m : MemoryStore) (d : Decision Scan)
    → NoBar scope
    → NoBar repository_id
    → Keeps
        (keep_scan (memory_scan_key scope repository_id id) m d)
        (promise_scan scope repository_id id (view m) d)
keep_scan-Keeps scope repository_id id m (answers o) h i = (refl, Agree-refl (view m))
keep_scan-Keeps scope repository_id id m (stores v) h i = (
  refl,
  record {
    same_repository = λ a b k. refl;
    same_use = λ a b k. refl;
    same_scan = λ a b c k l. lookup-insert3 m.scans v scope repository_id id a b c h i k l;
    same_artifact = λ a b c d k l n. refl;
    same_payload = λ a b c d k l n. refl;
  },
)

-- the same for a decision that is promised in another form
keep_repository-equal :
    (scope id request fingerprint : Text) (m : MemoryStore) {d e : Decision Repository}
    → d ≡ e
    → NoBar scope
    → Keeps
        (keep_repository (repository_key scope id) (repository_key scope request) fingerprint m d)
        (promise_repository scope id request fingerprint (view m) e)
keep_repository-equal scope id request fingerprint m {d} {e} q h =
    subst
      (λ e.
        Keeps
          (keep_repository (repository_key scope id) (repository_key scope request) fingerprint m d)
          (promise_repository scope id request fingerprint (view m) e))
      q (keep_repository-Keeps scope id request fingerprint m d h)

keep_scan-equal :
    (scope repository_id id : Text) (m : MemoryStore) {d e : Decision Scan}
    → d ≡ e
    → NoBar scope
    → NoBar repository_id
    → Keeps
        (keep_scan (memory_scan_key scope repository_id id) m d)
        (promise_scan scope repository_id id (view m) e)
keep_scan-equal scope repository_id id m {d} {e} q h i =
    subst
      (λ e.
        Keeps (keep_scan (memory_scan_key scope repository_id id) m d)
          (promise_scan scope repository_id id (view m) e))
      q (keep_scan-Keeps scope repository_id id m d h i)

module _ (u : Unicode) (sha256 hex : Text → Text) (now : Time) where
  keep_execution-Keeps :
      (r : ExecuteScanRequest) (m : MemoryStore) (e : Execution)
      → NoBar r.scope.scope_id
      → NoBar r.repository_id
      → NoBar r.scan_id
      → Keeps (keep_execution u sha256 hex now r m e) (
          promise_execution u sha256 hex now
            (artifacts_for m r.scope.scope_id r.repository_id r.scan_id)
            r
            (view m)
            e)
  keep_execution-Keeps r m no_repository h i j = (refl, Agree-refl (view m))
  keep_execution-Keeps r m (existing s) h i j = (refl, Agree-refl (view m))
  keep_execution-Keeps r m executed_now h i j = (
    refl,
    record {
      same_repository = λ a b k. refl;
      same_use = λ a b k. refl;
      same_scan = λ a b c k l. lookup-insert3 m.scans _ _ _ r.scan_id a b c h i k l;
      same_artifact = λ a b c d k l n. lookup-insert4 m.artifacts _ _ _ _ _ a b c d h i j k l n;
      same_payload = λ a b c d k l n. lookup-insert4 m.payloads _ _ _ _ _ a b c d h i j k l n;
    },
  )

  keep_execution-equal :
      (r : ExecuteScanRequest) (m : MemoryStore) {d e : Execution}
      → d ≡ e
      → NoBar r.scope.scope_id
      → NoBar r.repository_id
      → NoBar r.scan_id
      → Keeps (keep_execution u sha256 hex now r m d) (
          promise_execution u sha256 hex now
            (artifacts_for m r.scope.scope_id r.repository_id r.scan_id)
            r
            (view m)
            e)
  keep_execution-equal r m {d} {e} q h i j =
      subst
        (λ e. Keeps (keep_execution u sha256 hex now r m d) (
          promise_execution u sha256 hex now
            (artifacts_for m r.scope.scope_id r.repository_id r.scan_id) r (view m) e))
        q (keep_execution-Keeps r m d h i j)

  pub run_command-Keeps :
      (c : Command) (m : MemoryStore)
      → HasPlainIds c
      → Keeps
          (run_command u sha256 hex now c m)
          (promise u sha256 hex now (listed_for u sha256 hex now c m) c (view m))
  unfolding register_stored archive_stored cancel_stored execute_stored
  run_command-Keeps (registers context r) m h =
      guard_by-Keeps (check_context context (text "register-repository")) _ _ m (
        keep_repository-equal r.scope.scope_id r.repository_id r.request_id _ m
          (idempotent-as_promised u sha256 hex now (registration_fingerprint r) _ _ _) h)
  run_command-Keeps (archives context r) m h =
      guard_by-Keeps (check_context context (text "archive-repository")) _ _ m (
        keep_repository-equal r.scope.scope_id r.repository_id r.request_id _ m
          (decide_archive-as_promised u sha256 hex now (archival_fingerprint r.repository_id)
            (lookup (repository_key r.scope.scope_id r.request_id) m.requests)
            (lookup (repository_key r.scope.scope_id r.repository_id) m.repositories))
          h)
  run_command-Keeps (cancels context r) m (h, i) =
      guard_by-Keeps (check_context context (text "cancel-scan")) _ _ m (
        keep_scan-equal r.scope.scope_id r.repository_id r.scan_id m
          (decide_cancel-as_promised u sha256 hex now _) h i)
  run_command-Keeps (executes context r) m (h, i, j) =
      guard_by-Keeps (check_context context (text "execute-scan")) _ _ m
        (keep_execution-equal r m (execution_of-as_promised u sha256 hex now _ _) h i j)
