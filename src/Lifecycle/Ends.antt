-- ===== src/Lifecycle/Ends.antt =====
-- What the handlers of the lifecycle do and return (backend/service/repository/lifecycle/implementation.go).
use software_engineering_pla.Shared.{
  ◌≡◌, refl, Bool, true, false, not, ◌&&◌, List, [], ◌∷◌, Option, arith, subst, inl, inr,
  Bool-cases,
}
use software_engineering_pla.Die.Text.{Text, text, text_eq}
use software_engineering_pla.Die.Text.Order.{text_eq_refl}
use software_engineering_pla.Repo.Errors.{kind_of, Outcome, fails, gives}
use software_engineering_pla.Repo.Valid.{Unicode}
use software_engineering_pla.Repo.Values.{
  Time, before, is_zero_time, utc, Scope, RepositoryState, active, Repository,
  RegisterRepositoryRequest, RepositoryQuery, ArchiveRepositoryRequest,
}
use software_engineering_pla.Repo.Contract.{new_repository}
use software_engineering_pla.Repo.Accepted.{accepted}
use software_engineering_pla.Scan.Errors.{ContextState, context_failure}
use software_engineering_pla.Scan.Outcomes.{is_neutral}
use software_engineering_pla.Scan.Execute.Cases.{Outcome-cases}
use software_engineering_pla.Lifecycle.{
  SourceProof, new_entry, register_command, ResolveAnswer, resolve_error, nil_resolution,
  resolution, Event, resolves, closes_source, registers, RegisterCommand, ArchiveCommand,
  map_store_error, register_proof, register_repository, get_repository, archive_repository,
  is_archived,
}

abbrev is_active : RepositoryState → Bool
is_active active = true
is_active _ = false

-- the command registers the repository of the request, active and as new as it is old
abbrev registers_new : RegisterRepositoryRequest → RegisterCommand → Bool
registers_new request c =
    text_eq c.value.repository_id request.repository_id
    && (is_active c.value.state
        && (not (is_zero_time c.value.created_at)
            && not (before c.value.updated_at c.value.created_at)))

-- an error of the service
abbrev pub is_refusal : Outcome Repository → Bool
is_refusal (fails f) = is_neutral f
is_refusal (gives v) = false

-- an error of the service, or a repository with this identifier
abbrev pub is_reply : Text → Outcome Repository → Bool
is_reply id (fails f) = is_neutral f
is_reply id (gives v) = text_eq v.repository_id id

-- the resolver is asked first, the source is closed before the store is asked, and without the store there is only an
-- error
abbrev pub in_sequence : RegisterRepositoryRequest → List Event → Outcome Repository → Bool
in_sequence request [] o = is_refusal o
in_sequence request (resolves ∷ []) o = is_refusal o
in_sequence request (resolves ∷ closes_source ∷ []) o = is_refusal o
in_sequence request (resolves ∷ closes_source ∷ registers c ∷ []) o =
    registers_new request c && is_reply request.repository_id o
in_sequence request _ o = false

new_repository-utc :
    (u : Unicode) (p v : Repository)
    → new_repository u p ≡ gives v
    → record p { created_at = utc p.created_at; updated_at = utc p.updated_at } ≡ v
unfolding new_repository
new_repository-utc u p v h =
    (accepted _ (record p { created_at = utc p.created_at; updated_at = utc p.updated_at }) v
      (text "new-repository") h).1

module _ (u : Unicode) (sha256 hex : Text → Text) where
  register_proof-sequence :
      (request : RegisterRepositoryRequest) (proof : SourceProof) (clock : Time)
      (store : RegisterCommand → Outcome Repository)
      → (let r = register_proof u sha256 hex request proof clock store in
          in_sequence request r.log r.outcome)
        ≡ true
  unfolding register_proof map_store_error kind_of
  register_proof-sequence request proof clock store =
      elim (Outcome-cases (new_repository u (new_entry u sha256 hex request proof clock))) [
        | inl (f, e) ↦ ground (arith, e)
        | inr (v, e) ↦
            let entry = new_repository-utc u (new_entry u sha256 hex request proof clock) v e in
            elim (Bool-cases (is_zero_time (utc clock))) [
              | inl z ↦ ground (arith, z)
              | inr z ↦
                  let fits : registers_new request (register_command u sha256 hex request proof v)
                      ≡ true =
                    subst
                      (λ x.
                        registers_new request (register_command u sha256 hex request proof x)
                        ≡ true)
                      entry (ground (arith, z, text_eq_refl request.repository_id)) in
                  elim (Outcome-cases (store (register_command u sha256 hex request proof v))) [
                    | inl (f, h) ↦ ground (arith, e, z, h, fits)
                    | inr (result, h) ↦ ground (arith, e, z, h, fits)
                  ]
            ]
      ]

  -- Whatever the resolver, the contexts, the clock and the store answer, a registration asks the resolver first, closes
  -- the source that it resolved before it asks the store, asks the store at most once, and that
  -- to register an active repository with the identifier of the request; it returns a repository of
  -- that identifier only after that, and else an error of the service.
  pub register_repository-sequence :
      (context : Option ContextState) (request : RegisterRepositoryRequest)
      (resolver : Scope → Text → ResolveAnswer) (context_after : ContextState) (clock : Time)
      (store : RegisterCommand → Outcome Repository)
      → (let r =
            register_repository u sha256 hex context request resolver context_after clock store in
          in_sequence request r.log r.outcome)
        ≡ true
  unfolding register_repository context_failure map_store_error kind_of
  register_repository-sequence context request resolver context_after clock store =
      go (resolver request.scope request.source) refl
    where
      go :
          (a : ResolveAnswer)
          → resolver request.scope request.source ≡ a
          → (let r =
                register_repository u sha256 hex context request resolver context_after clock
                  store in
              in_sequence request r.log r.outcome)
            ≡ true
      go (resolve_error f) h = ground (arith, h)
      go nil_resolution h = ground (arith, h)
      go (resolution proof close_error) h =
          ground (arith, h, register_proof-sequence request proof clock store)

  abbrev pub is_archived_reply : Text → Outcome Repository → Bool
  is_archived_reply id (fails f) = is_neutral f
  is_archived_reply id (gives v) = text_eq v.repository_id id && is_archived v.state

  -- Whatever the store answers, a lookup returns an error of the service or a repository with the identifier of the
  -- query, and an archival an error of the service or an archived repository with the identifier of
  -- the request.
  pub get_repository-reply :
      (context : Option ContextState) (query : RepositoryQuery) (answer : Outcome Repository)
      (request : ArchiveRepositoryRequest) (clock : Time)
      (store : ArchiveCommand → Outcome Repository)
      → (is_reply query.repository_id (get_repository u sha256 hex context query answer) ≡ true)
        × (is_archived_reply request.repository_id
              (archive_repository u sha256 hex context request clock store)
            ≡ true)
  unfolding get_repository archive_repository context_failure map_store_error kind_of
  get_repository-reply context query answer request clock store = (ground arith, ground arith)
