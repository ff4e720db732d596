-- ===== src/Memory/Refines/Promised.antt =====
-- The decisions of the reference store and what is promised of them
-- (backend/service/repository/conformance/implementation.go).
use software_engineering_pla.Shared.{◌≡◌, refl, arith, Option, none, some}
use software_engineering_pla.Die.Text.{Text}
use software_engineering_pla.Repo.Valid.{Unicode}
use software_engineering_pla.Repo.Errors.{Outcome, fails, gives}
use software_engineering_pla.Repo.Values.{Time, Repository, Scan}
use software_engineering_pla.Memory.Store.{idempotent, decide_archive, decide_cancel}
use software_engineering_pla.Memory.Scans.{execution_of}
use software_engineering_pla.Memory.Refines.{
  promised_registration, promised_archival, promised_cancellation, promised_execution,
}

module _ (u : Unicode) (sha256 hex : Text → Text) (now : Time) where
  pub idempotent-as_promised :
      (fingerprint : Text) (previous : Option Text) (present : Option Repository)
      (made : Outcome Repository)
      → idempotent previous fingerprint present made
        ≡ promised_registration u sha256 hex now fingerprint previous present made
  unfolding idempotent
  idempotent-as_promised fingerprint none present (fails f) = refl
  idempotent-as_promised fingerprint none present (gives v) = refl
  idempotent-as_promised fingerprint (some p) present made = ground arith

  pub decide_archive-as_promised :
      (fingerprint : Text) (previous : Option Text) (present : Option Repository)
      → decide_archive u sha256 now previous fingerprint present
        ≡ promised_archival u sha256 hex now fingerprint previous present
  unfolding decide_archive
  decide_archive-as_promised fingerprint previous present = ground arith

  pub decide_cancel-as_promised :
      (present : Option Scan)
      → decide_cancel u sha256 now present ≡ promised_cancellation u sha256 hex now present
  unfolding decide_cancel
  decide_cancel-as_promised present = ground arith

  pub execution_of-as_promised :
      (present : Option Repository) (s : Option Scan)
      → execution_of present s ≡ promised_execution u sha256 hex now present s
  execution_of-as_promised present s = ground arith
