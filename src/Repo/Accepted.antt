-- ===== src/Repo/Accepted.antt =====
-- Values and errors that the constructors let through (backend/service/repository/implementation.go: `NewScan`;
-- backend/service/repository/errors.go: `NewError`).
use software_engineering_pla.Shared.{
  Option, ◌≡◌, refl, ap, subst, if◌then◌else◌, Bool, true, false, not, ◌&&◌, arith, Bool-cases, inl,
  inr,
}
use software_engineering_pla.Die.Text.{Text, text, is_empty}
use software_engineering_pla.Repo.Errors.{
  ErrorKind, canceled as canceled_error, timeout, Cause, no_cause, other_cause, is_canceled,
  is_deadline, is_both, ServiceError, new_service_error, Outcome, gives, fails, invalid,
}
use software_engineering_pla.Repo.Valid.{Unicode, safe_token, valid_optional_token}
use software_engineering_pla.Repo.Values.{before, is_zero_time, utc, requested, running, Scan}
use software_engineering_pla.Repo.Contract.{valid_scan_times, new_scan}

-- the order of the times that each state asks for
abbrev pub in_order : Scan → Bool
in_order s = elim s.state [
  | requested ↦ is_zero_time s.started_at && is_zero_time s.finished_at
  | running ↦
      not (is_zero_time s.started_at)
      && (not (before s.started_at s.requested_at) && is_zero_time s.finished_at)
  | _ ↦
      not (is_zero_time s.started_at)
      && (not (before s.started_at s.requested_at) && not (before s.finished_at s.started_at))
]

abbrev or_given {ℓ} : {V : Type ℓ} → V → Outcome V → V
or_given s (gives v) = v
or_given s (fails f) = s

pub accepted {ℓ} :
    {V : Type ℓ} (ok : Bool) (v s : V) (operation : Text)
    → (if ok then gives v else invalid operation) ≡ gives s
    → (ok ≡ true) × (v ≡ s)
accepted true v s operation e = (refl, ap (or_given s) e)
accepted false v s operation e = cc

abbrev in_utc : Scan → Scan
in_utc p = record p {
  requested_at = utc p.requested_at;
  started_at = utc p.started_at;
  finished_at = utc p.finished_at;
}

in_order_utc : (p : Scan) → valid_scan_times p ≡ true → in_order (in_utc p) ≡ true
unfolding valid_scan_times
in_order_utc p h = ground arith

valid_scan_times-in_utc : (p : Scan) → valid_scan_times (in_utc p) ≡ valid_scan_times p
unfolding valid_scan_times
valid_scan_times-in_utc p = refl

-- A scan that is accepted is accepted again unchanged, its times are in UTC and in order: not before one another
-- from the request over the start to the end, and a start or an end is there exactly where the
-- state has one.
pub new_scan-in_order :
    (u : Unicode) (p s : Scan)
    → new_scan u p ≡ gives s
    → (new_scan u s ≡ gives s) × (in_order s ≡ true)
unfolding new_scan
new_scan-in_order u p s h =
    let (ok, e) = accepted _ (in_utc p) s (text "new-scan") h in
    let times : valid_scan_times p ≡ true = ground (arith, ok) in
    subst (λ x. (new_scan u x ≡ gives x) × (in_order x ≡ true)) e
      (rw (valid_scan_times-in_utc p) (rw ok refl), in_order_utc p times)

named : safe_token (text "repository-service") 128 ≡ true
unfolding safe_token
named = refl

coded : safe_token (text "internal") 128 ≡ true
unfolding safe_token
coded = refl

safe_operation :
    (operation : Text)
    → safe_token (if safe_token operation 128 then operation else text "repository-service") 128
      ≡ true
safe_operation operation = elim (Bool-cases (safe_token operation 128)) [
  | inl e ↦ rw e e
  | inr e ↦ rw e named
]

safe_reason :
    (reason : Text)
    → valid_optional_token
        (if not (is_empty reason) && not (safe_token reason 128) then text "internal" else reason)
        128
      ≡ true
unfolding valid_optional_token
safe_reason reason = elim (Bool-cases (not (is_empty reason) && not (safe_token reason 128))) [
  | inl e ↦ rw e coded
  | inr e ↦ rw e (ground (arith, e))
]

-- the kind and `retryable` of an error with this cause
abbrev pub ShowsCause : Cause → ServiceError → Type 0
ShowsCause is_canceled e = (e.kind ≡ canceled_error) × (e.retryable ≡ false)
ShowsCause is_deadline e = (e.kind ≡ timeout) × (e.retryable ≡ true)
ShowsCause is_both e = (e.kind ≡ timeout) × (e.retryable ≡ true)
ShowsCause _ e = Unit

new_service_error-ShowsCause :
    (kind : Option ErrorKind) (operation reason : Text) (retryable : Bool) (cause : Cause)
    → ShowsCause cause (new_service_error kind operation reason retryable cause)
unfolding new_service_error
new_service_error-ShowsCause kind operation reason retryable is_canceled = (refl, refl)
new_service_error-ShowsCause kind operation reason retryable is_deadline = (refl, refl)
new_service_error-ShowsCause kind operation reason retryable is_both = (refl, refl)
new_service_error-ShowsCause kind operation reason retryable no_cause = tt
new_service_error-ShowsCause kind operation reason retryable other_cause = tt

-- Whatever a caller passes, a service error names an operation that is a safe token of at most 128 bytes, its
-- reason code is empty or such a token, and where the cause is an end of a context, its
-- kind says which, a deadline where it is both, and it is retryable exactly for a deadline.
pub new_service_error-safe :
    (kind : Option ErrorKind) (operation reason : Text) (retryable : Bool) (cause : Cause)
    → (let e = new_service_error kind operation reason retryable cause in
        (safe_token e.operation 128 ≡ true)
        × (valid_optional_token e.reason_code 128 ≡ true)
        × ShowsCause cause e)
unfolding new_service_error valid_optional_token
new_service_error-safe kind operation reason retryable cause = (
  safe_operation operation,
  safe_reason reason,
  new_service_error-ShowsCause kind operation reason retryable cause,
)
