-- ===== src/Repo/Framing.antt =====
-- Canonical bytes (backend/service/repository/implementation.go: `CanonicalArtifactIdentity`,
-- `NewArtifactID`, `appendCanonicalField`).
--
-- SHA-256 is the parameter `sha256`, its hexadecimal encoding `hex`. A length is written as a uint32,
-- which wraps around.
pub mod Distinct
use software_engineering_pla.Shared.{
  ℕ, ◌/◌, ◌%◌, ◌^◌, Bool, true, ◌&&◌, List, [], ◌∷◌, ◌++◌, if◌then◌else◌, length,
}
use software_engineering_pla.Die.Text.{Text, text}
use software_engineering_pla.Repo.Errors.{Outcome, gives, fails, invalid, ◌>>=◌}
use software_engineering_pla.Repo.Valid.{Unicode, valid_uuid, valid_identity_field}

-- `binary.BigEndian.PutUint32`
abbrev pub big_endian_32 : ℕ → Text
big_endian_32 n = (n / 2 ^ 24 % 256) ∷ (n / 2 ^ 16 % 256) ∷ (n / 2 ^ 8 % 256) ∷ (n % 256) ∷ []

-- `appendCanonicalField` of each field
unfoldable pub frame_fields : List Text → Text
frame_fields [] = []
frame_fields (field ∷ fields) =
    big_endian_32 (length field % 2 ^ 32) ++ (field ++ frame_fields fields)

abbrev pub all_valid : Unicode → List Text → Bool
all_valid u [] = true
all_valid u (field ∷ fields) = valid_identity_field u field && all_valid u fields

abbrev pub artifact_identity_domain : Text
artifact_identity_domain = text "repository-service-artifact-id/v1" ++ 0 ∷ []

module _ (u : Unicode) where
  unfoldable pub canonical_artifact_identity : Text → Text → Text → Text → Text → Outcome Text
  canonical_artifact_identity repository_id scan_id name version stable_id_scheme =
      if valid_uuid repository_id && valid_uuid scan_id
      then (let fields = repository_id ∷ scan_id ∷ name ∷ version ∷ stable_id_scheme ∷ [] in
          if all_valid u fields
          then gives (artifact_identity_domain ++ frame_fields fields)
          else invalid (text "artifact-identity"))
      else invalid (text "artifact-identity")

  module _ (sha256 hex : Text → Text) where
    unfoldable pub new_artifact_id : Text → Text → Text → Text → Text → Outcome Text
    new_artifact_id repository_id scan_id name version stable_id_scheme =
        canonical_artifact_identity repository_id scan_id name version stable_id_scheme
        >>= λ canonical. gives (text "rsaid1_" ++ hex (sha256 canonical))
