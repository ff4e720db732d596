-- ===== src/Lifecycle.antt =====
-- The lifecycle of repositories (backend/service/repository/lifecycle).
--
-- The resolver, the store and the clock are arguments, by their answers; `none` is the nil context.
-- SHA-256 is the parameter `sha256`, its hexadecimal encoding `hex`.
pub mod Ends
mod Samples
use software_engineering_pla.Shared.{
  ℕ, Bool, true, false, not, ◌&&◌, ◌||◌, List, [], ◌∷◌, ◌++◌, Option, none, some, if◌then◌else◌,
}
use software_engineering_pla.Shared.Int.{ℤ, pos, ltb_ℤ}
use software_engineering_pla.Die.Text.{Text, text, text_eq, is_empty}
use software_engineering_pla.Repo.Errors.{
  ErrorKind, internal, invalid_input, integrity_failure, source_unavailable, no_cause, foreign,
  other_cause, Failure, cause_of, kind_of, ends_context, is_internal, Outcome, fails, gives,
  fail_with,
}
use software_engineering_pla.Repo.Valid.{Unicode, valid_name, valid_safe_text}
use software_engineering_pla.Repo.Values.{
  Time, utc, is_zero_time, is_zero_digest, Scope, RepositoryState, active, archived, Repository,
  Page, RegisterRepositoryRequest, RepositoryQuery, ArchiveRepositoryRequest,
}
use software_engineering_pla.Repo.Contract.{new_repository, new_page}
use software_engineering_pla.Repo.Framing.{frame_fields}
use software_engineering_pla.Scan.Errors.{ContextState, service_failure, context_failure}

pub record SourceProof : Type 0 where
  pub kind : Text
  pub scheme : Text
  pub revision : Text
  pub digest : Text

unfoldable pub new_source_proof : Unicode → Text → Text → Text → Text → Outcome SourceProof
new_source_proof u kind scheme digest revision =
    if valid_name u kind 64
      && (valid_name u scheme 128
          && (not (is_zero_digest digest)
              && (is_empty revision || valid_safe_text u revision 1024)))
    then gives (record { kind = kind; scheme = scheme; revision = revision; digest = digest })
    else fail_with invalid_input (text "new-source-proof") (text "invalid-source-proof")

abbrev is_zero_proof : SourceProof → Bool
is_zero_proof p = is_empty p.kind || (is_empty p.scheme || is_zero_digest p.digest)

-- nanoseconds
abbrev pub with_close_default : ℤ → ℤ
with_close_default t = if ltb_ℤ t (pos 0) || ltb_ℤ (pos 0) t then t else pos 5000000000

abbrev pub valid_close_timeout : ℤ → Bool
valid_close_timeout t = not (ltb_ℤ t (pos 1000000000) || ltb_ℤ (pos 60000000000) t)

-- `New`, with whether its dependencies are there and the close timeouts given; the errors that wrap
-- `ErrInvalidConfig` are one foreign error
unfoldable pub new_lifecycle : Bool → List ℤ → Outcome ℤ
new_lifecycle false timeouts =
    fail_with invalid_input (text "new-repository-lifecycle") (text "invalid-dependencies")
new_lifecycle true [] = gives (pos 5000000000)
new_lifecycle true (t ∷ []) =
    if valid_close_timeout (with_close_default t)
    then gives (with_close_default t)
    else fails (foreign other_cause)
new_lifecycle true (_ ∷ _ ∷ _) = fails (foreign other_cause)

pub record RegisterCommand : Type 0 where
  pub scope : Scope
  pub request_id : Text
  pub fingerprint : Text
  pub value : Repository

pub record ArchiveCommand : Type 0 where
  pub scope : Scope
  pub request_id : Text
  pub repository_id : Text
  pub fingerprint : Text
  pub at : Time

-- `mapDependencyError` of this package keeps the reason of an error that ends a context
unfoldable pub map_store_error : Failure → Text → Text → ErrorKind → Failure
unfolding kind_of
map_store_error failure operation reason fallback =
    if ends_context (cause_of failure)
    then service_failure internal operation reason false (cause_of failure)
    else if is_internal (kind_of failure)
    then service_failure fallback operation reason false no_cause
    else failure

-- a resolution with its proof and what its `Close` returns
pub data ResolveAnswer : Type 0 where
  resolve_error : Failure → ResolveAnswer
  nil_resolution : ResolveAnswer
  resolution : SourceProof → Option Failure → ResolveAnswer

pub data Event : Type 0 where
  resolves closes_source : Event
  registers : RegisterCommand → Event

pub record Registration : Type 0 where
  pub log : List Event
  pub outcome : Outcome Repository

abbrev register_op : Text
register_op = text "register-repository"

abbrev refuse : List Event → Failure → Registration
refuse log failure = record { log = log; outcome = fails failure }

abbrev reject : List Event → ErrorKind → Text → Registration
reject log kind reason = refuse log (service_failure kind register_op reason false no_cause)

abbrev pub is_archived : RepositoryState → Bool
is_archived archived = true
is_archived _ = false

module _ (u : Unicode) (sha256 hex : Text → Text) where
  abbrev lifecycle_fingerprint : Text → List Text → Text
  lifecycle_fingerprint domain fields = sha256 (domain ++ 0 ∷ frame_fields fields)

  abbrev register_fingerprint : RegisterRepositoryRequest → SourceProof → Text
  register_fingerprint r p =
      lifecycle_fingerprint (text "repository-service-register/v1")
        (r.repository_id ∷ r.display_name ∷ p.kind ∷ p.scheme ∷ hex p.digest ∷ p.revision ∷ [])

  abbrev archive_fingerprint : ArchiveRepositoryRequest → Text
  archive_fingerprint r =
      lifecycle_fingerprint (text "repository-service-archive/v1") (r.repository_id ∷ [])

  abbrev pub new_entry : RegisterRepositoryRequest → SourceProof → Time → Repository
  new_entry request proof clock = record {
    repository_id = request.repository_id;
    display_name = request.display_name;
    source_kind = proof.kind;
    fingerprint_scheme = proof.scheme;
    fingerprint = proof.digest;
    state = active;
    current_scan_id = [];
    created_at = utc clock;
    updated_at = utc clock;
  }

  abbrev pub register_command :
      RegisterRepositoryRequest → SourceProof → Repository → RegisterCommand
  register_command request proof v = record {
    scope = request.scope;
    request_id = request.request_id;
    fingerprint = register_fingerprint request proof;
    value = v;
  }

  -- `RegisterRepository`, with a proof and a closed source
  unfoldable pub register_proof :
      RegisterRepositoryRequest
      → SourceProof
      → Time
      → (RegisterCommand → Outcome Repository)
      → Registration
  register_proof request proof clock store =
      let log = resolves ∷ closes_source ∷ [] in
      if is_zero_time (utc clock)
      then reject log internal (text "invalid-clock")
      else elim (new_repository u (new_entry request proof clock)) [
        | fails _ ↦ reject log internal (text "invalid-repository-model")
        | gives v ↦
            let command = register_command request proof v in
            let asked = resolves ∷ closes_source ∷ registers command ∷ [] in
            elim (store command) [
              | fails failure ↦
                  refuse asked (map_store_error failure register_op (text "store-failed") internal)
              | gives result ↦
                  if text_eq result.repository_id request.repository_id
                  then record { log = asked; outcome = gives result }
                  else reject asked integrity_failure (text "store-result-mismatch")
            ]
      ]

  unfoldable pub register_repository :
      Option ContextState
      → RegisterRepositoryRequest
      → (Scope → Text → ResolveAnswer)
      → ContextState
      → Time
      → (RegisterCommand → Outcome Repository)
      → Registration
  unfolding register_proof
  register_repository context request resolver context_after clock store =
      elim (context_failure context register_op) [
        | some failure ↦ refuse [] failure
        | none ↦ elim (resolver request.scope request.source) [
          | resolve_error failure ↦
              refuse (resolves ∷ [])
                (map_store_error failure register_op (text "source-unavailable") source_unavailable)
          | nil_resolution ↦
              reject (resolves ∷ []) source_unavailable (text "invalid-source-resolution")
          | resolution proof close_error ↦
              if is_zero_proof proof
              then reject (resolves ∷ closes_source ∷ []) source_unavailable
                  (text "invalid-source-proof")
              else elim close_error [
                | some failure ↦ refuse (resolves ∷ closes_source ∷ []) (
                    map_store_error failure register_op (text "source-cleanup-failed")
                      source_unavailable)
                | none ↦ elim (context_failure (some context_after) register_op) [
                  | some failure ↦ refuse (resolves ∷ closes_source ∷ []) failure
                  | none ↦ register_proof request proof clock store
                ]
              ]
        ]
      ]

  unfoldable pub get_repository :
      Option ContextState → RepositoryQuery → Outcome Repository → Outcome Repository
  get_repository context query answer = elim (context_failure context (text "get-repository")) [
    | some failure ↦ fails failure
    | none ↦ elim answer [
      | fails failure ↦
          fails (map_store_error failure (text "get-repository") (text "store-failed") internal)
      | gives v ↦
          if text_eq v.repository_id query.repository_id
          then gives v
          else fails (
              service_failure integrity_failure (text "get-repository")
                (text "store-result-mismatch") false no_cause)
    ]
  ]

  unfoldable pub list_repositories :
      Option ContextState → Outcome (Page Repository) → Outcome (Page Repository)
  unfolding new_page
  list_repositories context answer = elim (context_failure context (text "list-repositories")) [
    | some failure ↦ fails failure
    | none ↦ elim answer [
      | fails failure ↦
          fails (map_store_error failure (text "list-repositories") (text "store-failed") internal)
      | gives list ↦
          new_page u (λ r. r.repository_id) (text "new-repository-page") list.items list.next
    ]
  ]

  unfoldable pub archive_repository :
      Option ContextState
      → ArchiveRepositoryRequest
      → Time
      → (ArchiveCommand → Outcome Repository)
      → Outcome Repository
  archive_repository context request clock store =
      elim (context_failure context (text "archive-repository")) [
        | some failure ↦ fails failure
        | none ↦
            if is_zero_time (utc clock)
            then fails (
                service_failure internal (text "archive-repository") (text "invalid-clock") false
                  no_cause)
            else elim (store (record {
              scope = request.scope;
              request_id = request.request_id;
              repository_id = request.repository_id;
              fingerprint = archive_fingerprint request;
              at = utc clock;
            })) [
              | fails failure ↦ fails (
                  map_store_error failure (text "archive-repository") (text "store-failed")
                    internal)
              | gives v ↦
                  if text_eq v.repository_id request.repository_id && is_archived v.state
                  then gives v
                  else fails (
                      service_failure integrity_failure (text "archive-repository")
                        (text "store-result-mismatch") false no_cause)
            ]
      ]
