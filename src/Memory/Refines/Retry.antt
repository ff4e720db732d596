-- ===== src/Memory/Refines/Retry.antt =====
-- A registration that succeeded can be repeated (backend/service/repository/conformance/implementation.go,
-- `RegisterRepository`, `idempotent`).
use mathlib.Core.Path.{ap₂}
use software_engineering_pla.Shared.{
  ◌≡◌, refl, ap, ◌∙◌, false, List, Option, none, some, if◌then◌else◌, arith,
}
use software_engineering_pla.Die.Text.{Text, text, text_eq, lookup, insert}
use software_engineering_pla.Die.Text.Order.{text_eq_refl}
use software_engineering_pla.Die.Text.Maps.{lookup-insert}
use software_engineering_pla.Repo.Valid.{Unicode}
use software_engineering_pla.Repo.Errors.{Outcome, fails, gives, fail_with, idempotency_conflict}
use software_engineering_pla.Repo.Values.{Time, Repository, RegisterRepositoryRequest}
use software_engineering_pla.Memory.{MemoryStore, check_context, repository_key}
use software_engineering_pla.Memory.Store.{
  used_before, idempotent, registered, registration_fingerprint, register_stored, keep_repository,
}

lookup-insert_same :
    {V : Type 0} (m : List (Text × V)) (k : Text) (v : V) → lookup k (insert k v m) ≡ some v
lookup-insert_same m k v =
    lookup-insert m k k v ∙ ap (λ b. if b then some v else lookup k m) (text_eq_refl k)

module _ (key request fingerprint : Text) where
  -- a registration by what it reads
  abbrev decided :
      MemoryStore
      → Option Text
      → Option Repository
      → Outcome Repository
      → Outcome Repository × MemoryStore
  decided m previous present made =
      keep_repository key request fingerprint m (idempotent previous fingerprint present made)

  -- a registration under a live context
  abbrev attempt : Outcome Repository → MemoryStore → Outcome Repository × MemoryStore
  attempt made m = decided m (lookup request m.requests) (lookup key m.repositories) made

  attempt-decided :
      (made : Outcome Repository) (m : MemoryStore) (v : Repository)
      → lookup request m.requests ≡ some fingerprint
      → lookup key m.repositories ≡ some v
      → attempt made m ≡ (gives v, m)
  unfolding idempotent
  attempt-decided made m v h k =
      ap₂ (λ a b. decided m a b made) h k
      ∙ ap (λ b. (used_before b (some v), m)) (text_eq_refl fingerprint)

  decided_again :
      (made remade : Outcome Repository) (m : MemoryStore) (previous : Option Text)
      (present : Option Repository) (v : Repository)
      → lookup request m.requests ≡ previous
      → lookup key m.repositories ≡ present
      → (decided m previous present made).0 ≡ gives v
      → attempt remade (decided m previous present made).1
        ≡ (gives v, (decided m previous present made).1)
  unfolding idempotent
  decided_again (fails f) remade m none present v h k e = absurd (ground (arith, e))
  decided_again (gives w) remade m none present v h k e =
      let after = (decided m none present (gives w)).1 in
      attempt-decided remade after w (lookup-insert_same m.requests request fingerprint)
        (lookup-insert_same m.repositories key w)
      ∙ ap (λ o. (o, after)) e
  decided_again made remade m (some p) present v h k e =
      ap₂ (λ a b. decided m a b remade) h k ∙ ap (λ o. (o, m)) e

module _ (u : Unicode) (sha256 : Text → Text) (now : Time) where
  -- A registration that succeeds under a live context succeeds again at any later time, with the
  -- repository of the first time, and changes nothing.
  pub register_stored-again :
      (later : Time) (r : RegisterRepositoryRequest) (m : MemoryStore) (v : Repository)
      → (register_stored u sha256 now (some none) r m).0 ≡ gives v
      → register_stored u sha256 later
          (some none)
          r
          (register_stored u sha256 now (some none) r m).1
        ≡ (gives v, (register_stored u sha256 now (some none) r m).1)
  unfolding register_stored check_context
  register_stored-again later r m v e =
      let key = repository_key r.scope.scope_id r.repository_id in
      let request = repository_key r.scope.scope_id r.request_id in
      decided_again key request (registration_fingerprint r) (registered u sha256 now r)
        (registered u sha256 later r) m (lookup request m.requests) (lookup key m.repositories) v
        refl refl e

  -- A request that registered something else is refused as a conflict, and nothing changes.
  pub register_stored-reused :
      (r : RegisterRepositoryRequest) (m : MemoryStore) (previous : Text)
      → lookup (repository_key r.scope.scope_id r.request_id) m.requests ≡ some previous
      → text_eq previous (registration_fingerprint r) ≡ false
      → register_stored u sha256 now (some none) r m
        ≡ (fail_with idempotency_conflict (text "register-repository") (text "request-reused"), m)
  unfolding register_stored check_context idempotent
  register_stored-reused r m previous h n =
      let key = repository_key r.scope.scope_id r.repository_id in
      let request = repository_key r.scope.scope_id r.request_id in
      ap
        (λ a.
          decided key request (registration_fingerprint r) m a (lookup key m.repositories)
            (registered u sha256 now r))
        h
      ∙ ap (λ b. (used_before b (lookup key m.repositories), m)) n
