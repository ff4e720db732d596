-- ===== src/Repo/Errors.antt =====
-- Neutral errors (backend/service/repository/errors.go).
--
-- A cause is what `errors.Is` finds in it: none of the two context errors, one of them, or both. The
-- source's kinds are strings, of which `valid` lets through the fourteen constants; any other is `none`.
use software_engineering_pla.Shared.{
  Bool, true, false, not, ◌&&◌, Option, none, some, if◌then◌else◌,
}
use software_engineering_pla.Die.Text.{Text, text, is_empty}
use software_engineering_pla.Repo.Valid.{safe_token}

pub data ErrorKind : Type 0 where
  invalid_input not_found conflict idempotency_conflict scan_already_running : ErrorKind
  orphaned_scan source_unavailable analysis_failed materialization_failed : ErrorKind
  integrity_failure persistence_unavailable timeout canceled internal : ErrorKind

pub data Cause : Type 0 where
  no_cause other_cause is_canceled is_deadline is_both : Cause

-- `Error`
pub record ServiceError : Type 0 where
  pub kind : ErrorKind
  pub operation : Text
  pub reason_code : Text
  pub retryable : Bool
  pub cause : Cause

-- the kind and `retryable` that a cause imposes
abbrev kind_for : ErrorKind → Cause → ErrorKind
kind_for kind is_canceled = canceled
kind_for kind is_deadline = timeout
kind_for kind is_both = timeout
kind_for kind _ = kind

abbrev retryable_for : Bool → Cause → Bool
retryable_for retryable is_canceled = false
retryable_for retryable is_deadline = true
retryable_for retryable is_both = true
retryable_for retryable _ = retryable

-- the kind, if it is valid
abbrev valid_kind : Option ErrorKind → ErrorKind
valid_kind none = internal
valid_kind (some kind) = kind

-- `NewError`
unfoldable pub new_service_error : Option ErrorKind → Text → Text → Bool → Cause → ServiceError
new_service_error kind operation reason retryable cause = record {
  kind = kind_for (valid_kind kind) cause;
  operation = if safe_token operation 128 then operation else text "repository-service";
  reason_code =
      if not (is_empty reason) && not (safe_token reason 128) then text "internal" else reason;
  retryable = retryable_for retryable cause;
  cause = cause;
}

-- any Go error: one in which `errors.As` finds an error of the service, be it that error or one that
-- wraps it, or another, known by what `errors.Is` finds in it
pub data Failure : Type 0 where
  neutral : ServiceError → Failure
  foreign : Cause → Failure

abbrev pub cause_of : Failure → Cause
cause_of (neutral e) = e.cause
cause_of (foreign c) = c

-- `KindOf` of an error that is not nil
unfoldable pub kind_of : Failure → ErrorKind
kind_of (neutral e) = e.kind
kind_of (foreign is_canceled) = canceled
kind_of (foreign is_both) = canceled
kind_of (foreign is_deadline) = timeout
kind_of (foreign _) = internal

abbrev pub ends_context : Cause → Bool
ends_context is_canceled = true
ends_context is_deadline = true
ends_context is_both = true
ends_context _ = false

abbrev pub is_internal : ErrorKind → Bool
is_internal internal = true
is_internal _ = false

-- a value or the error that a Go function returns in its place
pub data Outcome {ℓ} (V : Type ℓ) : Type ℓ where
  fails : Failure → Outcome V
  gives : V → Outcome V

abbrev pub fail_with {ℓ} : {V : Type ℓ} → ErrorKind → Text → Text → Outcome V
fail_with kind operation reason =
    fails (neutral (new_service_error (some kind) operation reason false no_cause))

abbrev pub invalid {ℓ} : {V : Type ℓ} → Text → Outcome V
invalid operation = fail_with invalid_input operation (text "invalid-request")

infixl 5 ◌>>=◌
abbrev pub ◌>>=◌ {ℓ κ} : {V : Type ℓ} {W : Type κ} → Outcome V → (V → Outcome W) → Outcome W
◌>>=◌ (fails failure) next = fails failure
◌>>=◌ (gives v) next = next v
