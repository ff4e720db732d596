-- ===== src/Memory/Store.antt =====
-- The operations of the reference store on repositories and scans, and its exports
-- (backend/service/repository/conformance/implementation.go).
--
-- SHA-256 is the parameter `sha256`, its hexadecimal encoding `hex`; a writer is whether it takes the
-- payload, and missing where it is nil.

use software_engineering_pla.Shared.{
  ◌+◌, ◌-◌, ltb, Bool, true, false, not, [], ◌++◌, Option, none, some,
}
use software_engineering_pla.Shared.Int.{ℤ, pos, negsuc}
use software_engineering_pla.Die.Text.{Text, text, text_eq, lookup, insert}
use software_engineering_pla.Repo.Valid.{Unicode}
use software_engineering_pla.Repo.Errors.{
  Outcome, fails, gives, fail_with, idempotency_conflict, conflict,
}
use software_engineering_pla.Repo.Values.{
  Time, Repository, active, archived, Scan, ScanState, succeeded, canceled, requested, Artifact,
  RegisterRepositoryRequest, RepositoryQuery, ArchiveRepositoryRequest, ScanQuery,
  CancelScanRequest, ArtifactQuery,
}
use software_engineering_pla.Repo.Contract.{new_repository, new_scan}
use software_engineering_pla.Memory.{
  MemoryStore, Context, guarded, missing, found, or_value, bar, repository_key, memory_scan_key,
  artifact_key,
}

abbrev pub zero_time : Time
zero_time = record { instant = pos 0; is_utc = true }

abbrev pub zero_repository : Repository
zero_repository = record {
  repository_id = [];
  display_name = [];
  source_kind = [];
  fingerprint_scheme = [];
  fingerprint = [];
  state = active;
  current_scan_id = [];
  created_at = zero_time;
  updated_at = zero_time;
}

abbrev pub zero_scan : Scan
zero_scan = record {
  repository_id = [];
  scan_id = [];
  profile = record { name = []; version = []; digest = [] };
  source_revision = [];
  state = requested;
  reason_code = [];
  requested_at = zero_time;
  started_at = zero_time;
  finished_at = zero_time;
}

abbrev add_second : ℤ → ℤ
add_second (pos n) = pos (n + 1000000000)
add_second (negsuc n) = elim (ltb n 1000000000) [
  | true ↦ pos (999999999 - n)
  | false ↦ negsuc (n - 1000000000)
]

-- `Add(time.Second)`
abbrev pub one_second_after : Time → Time
one_second_after t = record t { instant = add_second t.instant }

-- the fingerprint of a registration
abbrev pub registration_fingerprint : RegisterRepositoryRequest → Text
registration_fingerprint r = r.repository_id ++ bar ++ r.display_name ++ bar ++ r.source

abbrev pub archival_fingerprint : Text → Text
archival_fingerprint id = text "archive|" ++ id

-- what an operation does once it has read: it answers, or it stores a value
pub data Decision (V : Type 0) : Type 0 where
  answers : Outcome V → Decision V
  stores : V → Decision V

-- the answer where the request was used, by whether that was for the same
abbrev pub used_before : Bool → Option Repository → Outcome Repository
used_before false present =
    fail_with idempotency_conflict (text "register-repository") (text "request-reused")
used_before true none =
    fail_with conflict (text "register-repository") (text "missing-idempotent-result")
used_before true (some v) = gives v

-- `idempotent`, by what the request was used for and the repository under its key, and the registration
-- of a repository where it is not handled
unfoldable pub idempotent :
    Option Text → Text → Option Repository → Outcome Repository → Decision Repository
idempotent none fingerprint present (fails failure) = answers (fails failure)
idempotent none fingerprint present (gives v) = stores v
idempotent (some previous) fingerprint present made =
    answers (used_before (text_eq previous fingerprint) present)

-- whether a request was used for something else
abbrev pub is_reused : Option Text → Text → Bool
is_reused none fingerprint = false
is_reused (some previous) fingerprint = not (text_eq previous fingerprint)

-- the value that `NewRepository` or `NewScan` gives, or their zero value
module _ (u : Unicode) (sha256 : Text → Text) (now : Time) where
  unfoldable pub registered : RegisterRepositoryRequest → Outcome Repository
  registered r = new_repository u (record {
    repository_id = r.repository_id;
    display_name = r.display_name;
    source_kind = text "local";
    fingerprint_scheme = text "sha256/v1";
    fingerprint = sha256 r.source;
    state = active;
    current_scan_id = [];
    created_at = now;
    updated_at = now;
  })

  abbrev pub archived_now : Repository → Repository
  archived_now v =
      or_value zero_repository
        (new_repository u (record v { state = archived; updated_at = one_second_after now }))

  -- `ArchiveRepository`, by what it reads
  unfoldable pub decide_archive : Option Text → Text → Option Repository → Decision Repository
  decide_archive previous fingerprint present = elim (is_reused previous fingerprint) [
    | true ↦
        answers (fail_with idempotency_conflict (text "archive-repository") (text "request-reused"))
    | false ↦ elim present [
      | none ↦ answers (missing (text "archive-repository"))
      | some v ↦ stores (archived_now v)
    ]
  ]

  abbrev pub is_succeeded : ScanState → Bool
  is_succeeded succeeded = true
  is_succeeded _ = false

  abbrev pub canceled_now : Scan → Scan
  canceled_now s = or_value zero_scan (
      new_scan u
        (record s { state = canceled; reason_code = text "caller-canceled"; finished_at = now }))

  -- `CancelScan`, by what it reads
  unfoldable pub decide_cancel : Option Scan → Decision Scan
  decide_cancel none = answers (missing (text "cancel-scan"))
  decide_cancel (some s) = elim (is_succeeded s.state) [
    | true ↦ answers (fail_with conflict (text "cancel-scan") (text "already-published"))
    | false ↦ stores (canceled_now s)
  ]

-- the maps with a decision carried out
abbrev pub keep_repository :
    Text → Text → Text → MemoryStore → Decision Repository → Outcome Repository × MemoryStore
keep_repository key request fingerprint m (answers o) = (o, m)
keep_repository key request fingerprint m (stores v) = (
  gives v,
  record m {
    repositories = insert key v m.repositories;
    requests = insert request fingerprint m.requests;
  },
)

abbrev pub keep_scan : Text → MemoryStore → Decision Scan → Outcome Scan × MemoryStore
keep_scan key m (answers o) = (o, m)
keep_scan key m (stores v) = (gives v, record m { scans = insert key v m.scans })

module _ (u : Unicode) (sha256 : Text → Text) (now : Time) where
  -- `RegisterRepository`
  unfoldable pub register_stored :
      Context → RegisterRepositoryRequest → MemoryStore → Outcome Repository × MemoryStore
  unfolding idempotent registered
  register_stored context r = guarded context (text "register-repository") (λ m.
      let key = repository_key r.scope.scope_id r.repository_id in
      let request = repository_key r.scope.scope_id r.request_id in
      let fingerprint = registration_fingerprint r in
      keep_repository key request fingerprint m (
        idempotent (lookup request m.requests) fingerprint (lookup key m.repositories)
          (registered u sha256 now r)))

  -- `ArchiveRepository`
  unfoldable pub archive_stored :
      Context → ArchiveRepositoryRequest → MemoryStore → Outcome Repository × MemoryStore
  unfolding decide_archive
  archive_stored context r = guarded context (text "archive-repository") (λ m.
      let key = repository_key r.scope.scope_id r.repository_id in
      let request = repository_key r.scope.scope_id r.request_id in
      let fingerprint = archival_fingerprint r.repository_id in
      keep_repository key request fingerprint m (
        decide_archive u sha256 now (lookup request m.requests) fingerprint
          (lookup key m.repositories)))

  -- `CancelScan`
  unfoldable pub cancel_stored :
      Context → CancelScanRequest → MemoryStore → Outcome Scan × MemoryStore
  unfolding decide_cancel
  cancel_stored context r = guarded context (text "cancel-scan") (λ m.
      let key = memory_scan_key r.scope.scope_id r.repository_id r.scan_id in
      keep_scan key m (decide_cancel u sha256 now (lookup key m.scans)))

-- `GetRepository`
unfoldable pub get_stored_repository :
    Context → RepositoryQuery → MemoryStore → Outcome Repository × MemoryStore
unfolding repository_key
get_stored_repository context q = guarded context (text "get-repository") (λ m. (
  found (text "get-repository")
      (lookup (repository_key q.scope.scope_id q.repository_id) m.repositories),
  m,
))

-- `GetScan`
unfoldable pub get_stored_scan : Context → ScanQuery → MemoryStore → Outcome Scan × MemoryStore
unfolding memory_scan_key
get_stored_scan context q = guarded context (text "get-scan") (λ m. (
  found (text "get-scan")
      (lookup (memory_scan_key q.scope.scope_id q.repository_id q.scan_id) m.scans),
  m,
))

-- `GetArtifact`
unfoldable pub get_stored_artifact :
    Context → ArtifactQuery → MemoryStore → Outcome Artifact × MemoryStore
unfolding artifact_key
get_stored_artifact context q = guarded context (text "get-artifact") (λ m. (
  found (text "get-artifact")
      (lookup (artifact_key q.scope.scope_id q.repository_id q.scan_id q.artifact_id) m.artifacts),
  m,
))
