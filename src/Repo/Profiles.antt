-- ===== src/Repo/Profiles.antt =====
-- Profiles and their registry, and the requests that need it (backend/service/repository/implementation.go).
--
-- A registry is an association list by name and version. SHA-256 is the parameter `sha256`.
pub mod Resolved
use software_engineering_pla.Shared.{
  ℕ, ◌%◌, ◌^◌, Bool, true, false, not, ◌&&◌, ◌||◌, List, [], ◌∷◌, ◌++◌, Option, none, some, ltb,
  ◌==◌, if◌then◌else◌, length,
}
use software_engineering_pla.Die.Text.{
  Text, text, text_eq, text_lt, is_empty, sort_by, lookup, insert, values,
}
use software_engineering_pla.Repo.Errors.{
  invalid_input, conflict, Outcome, fails, gives, fail_with, invalid, ◌>>=◌,
}
use software_engineering_pla.Repo.Valid.{
  Unicode, valid_uuid, valid_machine, valid_name, valid_version,
}
use software_engineering_pla.Repo.Values.{
  is_zero_scope, is_zero_digest, is_zero_profile, AnalysisProfile, ProfileArtifact,
  ProfileDefinition, ExecuteScanRequest, ArtifactQuery, ExportReceipt,
}
use software_engineering_pla.Repo.Contract.{
  Config, default_max_artifact_bytes, new_source_handle, new_analysis_profile,
}
use software_engineering_pla.Repo.Framing.{big_endian_32, frame_fields}

abbrev default_max_artifacts_per_scan : ℕ
default_max_artifacts_per_scan = 64

abbrev pub profile_key : Text → Text → Text
profile_key name version = name ++ 0 ∷ version

abbrev artifact_fields : List ProfileArtifact → List Text
artifact_fields [] = []
artifact_fields (a ∷ artifacts) =
    a.name ∷ a.version ∷ a.stable_id_scheme ∷ artifact_fields artifacts

abbrev has_key : Text → List Text → Bool
has_key key [] = false
has_key key (k ∷ seen) = text_eq k key || has_key key seen

module _ (u : Unicode) where
  abbrev valid_profile_artifact : Text → Text → Text → Bool
  valid_profile_artifact name version scheme =
      valid_name u name 128 && (valid_version u version && valid_name u scheme 128)

  unfoldable pub new_profile_artifact : Text → Text → Text → Outcome ProfileArtifact
  new_profile_artifact name version scheme =
      if valid_profile_artifact name version scheme
      then gives (record { name = name; version = version; stable_id_scheme = scheme })
      else invalid (text "new-profile-artifact")

  -- the loop over the artifacts of a definition
  unfoldable check_artifacts : List Text → List ProfileArtifact → Outcome (List Text)
  check_artifacts seen [] = gives seen
  check_artifacts seen (a ∷ artifacts) =
      let rest = check_artifacts (profile_key a.name a.version ∷ seen) artifacts in
      if not (valid_profile_artifact a.name a.version a.stable_id_scheme)
      then invalid (text "new-profile-definition")
      else if has_key (profile_key a.name a.version) seen
      then fail_with conflict (text "new-profile-definition") (text "duplicate-artifact")
      else rest

  unfoldable pub new_profile_definition :
      (Text → Text) → Text → Text → List ProfileArtifact → Outcome ProfileDefinition
  unfolding check_artifacts new_analysis_profile
  new_profile_definition sha256 name version artifacts =
      if valid_name u name 128
        && (valid_version u version
            && not (length artifacts == 0 || ltb default_max_artifacts_per_scan (length artifacts)))
      then (check_artifacts [] artifacts >>= λ _.
          new_analysis_profile u name version (
            sha256 (
              text "repository-service-profile/v1"
              ++ 0
                ∷ (frame_fields (name ∷ version ∷ [])
                    ++ (big_endian_32 (length artifacts % 2 ^ 32)
                        ++ frame_fields (artifact_fields artifacts)))))
          >>= λ profile. gives (record { profile = profile; artifacts = artifacts }))
      else invalid (text "new-profile-definition")

abbrev pub ProfileRegistry : Type 0
ProfileRegistry = List (Text × ProfileDefinition)

abbrev pub definition_key : ProfileDefinition → Text
definition_key d = profile_key d.profile.name d.profile.version

unfoldable pub add_definitions : ProfileRegistry → List ProfileDefinition → Outcome ProfileRegistry
add_definitions registry [] = gives registry
add_definitions registry (d ∷ definitions) =
    let rest = add_definitions (insert (definition_key d) d registry) definitions in
    if is_zero_profile d.profile
    then invalid (text "new-profile-registry")
    else elim (lookup (definition_key d) registry) [
      | some _ ↦ fail_with conflict (text "new-profile-registry") (text "duplicate-profile")
      | none ↦ rest
    ]

unfoldable pub new_profile_registry : List ProfileDefinition → Outcome ProfileRegistry
unfolding add_definitions
new_profile_registry = add_definitions []

unfoldable pub resolve : ProfileRegistry → Text → Text → Text → Option ProfileDefinition
resolve registry name version digest = elim (lookup (profile_key name version) registry) [
  | none ↦ none
  | some d ↦ if text_eq d.profile.digest digest then some d else none
]

-- `Definitions` with `sortProfileDefinitions`
unfoldable pub definitions_of : ProfileRegistry → List ProfileDefinition
definitions_of registry =
    sort_by (λ a b. text_lt (definition_key a) (definition_key b)) (values registry)

module _ (u : Unicode) (c : Config) (profiles : ProfileRegistry) where
  unfoldable pub new_execute_scan_request : ExecuteScanRequest → Outcome ExecuteScanRequest
  unfolding resolve new_source_handle
  new_execute_scan_request p =
      if not (is_zero_scope p.scope)
        && (valid_machine u p.request_id 128
            && (valid_uuid p.repository_id
                && (valid_uuid p.scan_id && not (is_zero_profile p.profile))))
      then elim (resolve profiles p.profile.name p.profile.version p.profile.digest) [
        | none ↦ fail_with invalid_input (text "execute-scan") (text "unsupported-profile")
        | some _ ↦ new_source_handle u p.source c.max_source_handle_bytes >>= λ _. gives p
      ]
      else invalid (text "execute-scan")

unfoldable pub new_export_artifact_request : ArtifactQuery → Outcome ArtifactQuery
new_export_artifact_request q =
    if is_zero_scope q.scope
      || (is_empty q.repository_id || (is_empty q.scan_id || is_empty q.artifact_id))
    then invalid (text "export-artifact")
    else gives q

unfoldable pub new_export_receipt : Text → ℕ → Outcome ExportReceipt
new_export_receipt digest size =
    if is_zero_digest digest || (size == 0 || ltb default_max_artifact_bytes size)
    then invalid (text "new-export-receipt")
    else gives (record { digest = digest; size = size })
