-- ===== src/Memory.antt =====
-- The reference store of the repository service, in memory
-- (backend/service/repository/conformance/implementation.go, `memoryService`).
--
-- Every operation holds the lock from its first read to its last write, so it is one step on the
-- store. Maps are association lists; `sort.Slice` orders what a map is ranged over. A context is
-- missing, live, or ended with its cause.
pub mod Paging
pub mod Keys
pub mod Store
pub mod Scans
pub mod Refines
mod Samples
use software_engineering_pla.Shared.{Bool, true, false, List, [], ◌∷◌, ◌++◌, Option, none, some}
use software_engineering_pla.Die.Text.{Text, text}
use software_engineering_pla.Repo.Errors.{
  Cause, no_cause, Failure, neutral, Outcome, fails, gives, new_service_error, fail_with,
  invalid_input, internal, not_found,
}
use software_engineering_pla.Repo.Values.{Repository, Scan, Artifact}

pub record MemoryStore : Type 0 where
  pub repositories : List (Text × Repository)
  pub scans : List (Text × Scan)
  pub artifacts : List (Text × Artifact)
  pub payloads : List (Text × Text)
  pub requests : List (Text × Text)
  pub is_closed : Bool

-- `close`
abbrev pub closed_store : MemoryStore → MemoryStore
closed_store m = record {
  repositories = [];
  scans = [];
  artifacts = [];
  payloads = [];
  requests = [];
  is_closed = true;
}

abbrev pub Context : Type 0
Context = Option (Option Cause)

-- `contextError`
unfoldable pub check_context : Context → Text → Option Failure
check_context none operation = some (
    neutral
      (new_service_error (some invalid_input) operation (text "context-required") false no_cause))
check_context (some none) operation = none
check_context (some (some cause)) operation =
    some (neutral (new_service_error (some internal) operation (text "context-ended") false cause))

abbrev pub missing {ℓ} : {V : Type ℓ} → Text → Outcome V
missing operation = fail_with not_found operation (text "not-found")

abbrev pub bar : Text
bar = b'|' ∷ []

-- `repositoryKey`, `scanKey` and `artifactKey`, on the identifier of a scope; `requestKey` is the first
unfoldable pub repository_key : Text → Text → Text
repository_key scope id = scope ++ bar ++ id

unfoldable pub memory_scan_key : Text → Text → Text → Text
unfolding repository_key
memory_scan_key scope repository_id id = repository_key scope repository_id ++ bar ++ id

unfoldable pub artifact_key : Text → Text → Text → Text → Text
unfolding memory_scan_key
artifact_key scope repository_id scan_id id =
    memory_scan_key scope repository_id scan_id ++ bar ++ id

-- an operation on a state, unless the context has failed
abbrev pub guard_by {ℓ κ} :
    {V : Type ℓ} {S : Type κ} → Option Failure → (S → Outcome V × S) → S → Outcome V × S
guard_by (some failure) step m = (fails failure, m)
guard_by none step m = step m

abbrev pub guarded {ℓ κ} :
    {V : Type ℓ} {S : Type κ} → Context → Text → (S → Outcome V × S) → S → Outcome V × S
guarded context operation = guard_by (check_context context operation)

-- a value that the code takes also where there is an error, then the zero value
abbrev pub or_value {ℓ} : {V : Type ℓ} → V → Outcome V → V
or_value zero_value (fails failure) = zero_value
or_value zero_value (gives v) = v

abbrev pub found {ℓ} : {V : Type ℓ} → Text → Option V → Outcome V
found operation none = missing operation
found operation (some v) = gives v
