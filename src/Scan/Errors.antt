-- ===== src/Scan/Errors.antt =====
-- Errors of dependencies and of contexts (backend/service/repository/scan/errors.go).
--
-- A live context has no error. `none` is the nil context.
use software_engineering_pla.Shared.{Bool, false, Option, none, some, if◌then◌else◌}
use software_engineering_pla.Die.Text.{Text, text}
use software_engineering_pla.Repo.Errors.{
  ErrorKind, invalid_input, internal, Cause, no_cause, is_canceled, is_deadline, new_service_error,
  Failure, neutral, cause_of, kind_of, ends_context, is_internal,
}

-- what `Err` of a context says
pub data ContextState : Type 0 where
  live_context canceled_context expired_context : ContextState

abbrev pub context_error : ContextState → Option Cause
context_error live_context = none
context_error canceled_context = some is_canceled
context_error expired_context = some is_deadline

abbrev pub service_failure : ErrorKind → Text → Text → Bool → Cause → Failure
service_failure kind operation reason retryable cause =
    neutral (new_service_error (some kind) operation reason retryable cause)

-- the error that `context-ended` reports
abbrev pub context_ended : Text → Cause → Failure
context_ended operation cause =
    service_failure internal operation (text "context-ended") false cause

-- `mapDependencyError` of an error that is not nil
unfoldable pub map_dependency_error : Failure → Text → Text → ErrorKind → Failure
unfolding kind_of
map_dependency_error failure operation reason fallback =
    if ends_context (cause_of failure)
    then context_ended operation (cause_of failure)
    else if is_internal (kind_of failure)
    then service_failure fallback operation reason false no_cause
    else failure

-- `contextFailure`
unfoldable pub context_failure : Option ContextState → Text → Option Failure
context_failure none operation =
    some (service_failure invalid_input operation (text "invalid-request") false no_cause)
context_failure (some state) operation = elim (context_error state) [
  | some cause ↦ some (context_ended operation cause)
  | none ↦ none
]
