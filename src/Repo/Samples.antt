-- ===== src/Repo/Samples.antt =====
-- Values of the contract (backend/service/repository), and the theorems at them.
use software_engineering_pla.Shared.{
  ◌++◌, All, ◌≡◌, refl, true, false, ◌&&◌, ◌||◌, [], ◌∷◌, some, leb, ltb, ◌==◌,
}
use software_engineering_pla.Shared.Int.{pos}
use software_engineering_pla.Die.Text.{Text, text}
use software_engineering_pla.Repo.Errors.{
  internal, is_deadline, new_service_error, Outcome, gives, fails,
}
use software_engineering_pla.Repo.Valid.{
  Unicode, safe_token, valid_uuid, valid_identity_field, valid_optional_token,
}
use software_engineering_pla.Repo.Profiles.{ProfileRegistry, add_definitions, new_profile_registry}
use software_engineering_pla.Repo.Profiles.Resolved.{Resolves, new_profile_registry-Resolves}
use software_engineering_pla.Repo.Values.{ProfileDefinition, succeeded, Scan}
use software_engineering_pla.Repo.Contract.{valid_scan_times, new_scan}
use software_engineering_pla.Repo.Accepted.{
  in_order, ShowsCause, new_scan-in_order, new_service_error-safe,
}
use software_engineering_pla.Repo.Framing.{canonical_artifact_identity}
use software_engineering_pla.Repo.Framing.Distinct.{
  identity_fields, canonical_artifact_identity-injective,
}

abbrev ascii : Unicode
ascii = record {
  runes = λ v. some v;
  is_trimmed = λ v. true;
  is_letter = λ c. (leb b'a' c && leb c b'z') || (leb b'A' c && leb c b'Z');
  is_digit = λ c. leb b'0' c && leb c b'9';
  is_lower = λ c. leb b'a' c && leb c b'z';
  is_control = λ c. ltb c 32 || c == 127;
}

abbrev repository_uuid : Text
repository_uuid = text "11111111-1111-4111-8111-111111111111"

abbrev scan_uuid : Text
scan_uuid = text "22222222-2222-4222-8222-222222222222"

abbrev finished : Scan
finished = record {
  repository_id = repository_uuid;
  scan_id = scan_uuid;
  profile = record { name = text "repository-go"; version = text "1"; digest = 7 ∷ [] };
  source_revision = [];
  state = succeeded;
  reason_code = [];
  requested_at = record { instant = pos 10; is_utc = true };
  started_at = record { instant = pos 12; is_utc = true };
  finished_at = record { instant = pos 20; is_utc = true };
}

finished_accepted : new_scan ascii finished ≡ gives finished
unfolding new_scan valid_scan_times valid_uuid valid_identity_field valid_optional_token
finished_accepted = refl

new_scan-in_order_example : (new_scan ascii finished ≡ gives finished) × (in_order finished ≡ true)
new_scan-in_order_example = new_scan-in_order ascii finished finished finished_accepted

new_service_error-safe_example :
    (let e =
        new_service_error
          (some internal)
          (text "execute scan")
          (text "context-ended")
          false
          is_deadline in
      (safe_token e.operation 128 ≡ true)
      × (valid_optional_token e.reason_code 128 ≡ true)
      × ShowsCause is_deadline e)
new_service_error-safe_example =
    new_service_error-safe (some internal) (text "execute scan") (text "context-ended") false
      is_deadline

abbrev canonical_of : Outcome Text → Text
canonical_of (gives c) = c
canonical_of (fails f) = []

abbrev name : Text
name = text "build-inventory"

abbrev canonical : Text
canonical =
    canonical_of
      (canonical_artifact_identity ascii repository_uuid scan_uuid name (text "1") (text "id/v1"))

same_canonical :
    canonical_artifact_identity ascii repository_uuid scan_uuid name (text "1") (text "id/v1")
    ≡ gives canonical
unfolding canonical_artifact_identity valid_uuid valid_identity_field
same_canonical = refl

canonical_artifact_identity-injective_example :
    identity_fields repository_uuid scan_uuid name (text "1") (text "id/v1")
    ≡ identity_fields repository_uuid scan_uuid name (text "1") (text "id/v1")
canonical_artifact_identity-injective_example =
    canonical_artifact_identity-injective ascii repository_uuid repository_uuid scan_uuid scan_uuid
      name name (text "1") (text "1") (text "id/v1") (text "id/v1") canonical same_canonical
      same_canonical

abbrev definition : ProfileDefinition
definition = record {
  profile = record { name = text "repository-go"; version = text "1"; digest = 7 ∷ [] };
  artifacts =
      record { name = text "build"; version = text "1"; stable_id_scheme = text "id/v1" } ∷ [];
}

abbrev other_definition : ProfileDefinition
other_definition = record definition {
  profile = record { name = text "repository-go"; version = text "2"; digest = 8 ∷ [] };
}

abbrev registry : ProfileRegistry
registry =
    (text "repository-go" ++ 0 ∷ text "1", definition)
    ∷ (text "repository-go" ++ 0 ∷ text "2", other_definition)
    ∷ []

registry_accepted : new_profile_registry (definition ∷ other_definition ∷ []) ≡ gives registry
unfolding new_profile_registry add_definitions
registry_accepted = refl

new_profile_registry-Resolves_example : All (Resolves registry) (definition ∷ other_definition ∷ [])
new_profile_registry-Resolves_example =
    new_profile_registry-Resolves (definition ∷ other_definition ∷ []) registry registry_accepted
