-- ===== src/Die/Identity.antt =====
-- Node identities and stable identifiers (backend/die/implementation.go: `normalizeIdentity`,
-- `identityKey`, `nodeID`, `edgeID`, `containmentID`, `stableID`).
--
-- SHA-256 followed by hexadecimal encoding is the parameter `sha256_hex`.
pub mod Framing
use Prim.Native.String.{String}
use software_engineering_pla.Shared.{
  ℕ, ◌/◌, ◌%◌, ◌^◌, not, ◌||◌, List, [], ◌∷◌, ◌++◌, if◌then◌else◌, length,
}
use software_engineering_pla.Die.Text.{Text, text, is_empty, safe_text}
use software_engineering_pla.Die.Path.{normalize_path}
use software_engineering_pla.Die.Model.{
  error, invalid_input, Result, ok, err, ◌>>=◌, ◌>>◌, require, NodeIdentity, valid_node,
  valid_resolution,
}

unfoldable pub normalize_identity : NodeIdentity → Result NodeIdentity
normalize_identity v = do
  require
      (not (
        not (valid_node v.kind)
        || (not (valid_resolution v.resolution)
            || (is_empty v.qualified_name
                || (not (safe_text v.language) || not (safe_text v.qualified_name))))))
      (error invalid_input "invalid_node_identity")
  p ← normalize_path v.repository_path
  ok (record v { repository_path = p })

unfoldable pub identity_key : NodeIdentity → Text
identity_key v =
    v.kind
    ++ 0 ∷ (v.language ++ 0 ∷ (v.qualified_name ++ 0 ∷ (v.repository_path ++ 0 ∷ v.resolution)))

-- `binary.BigEndian.PutUint64`
abbrev pub big_endian_64 : ℕ → Text
big_endian_64 n =
    (n / 2 ^ 56 % 256)
    ∷ (n / 2 ^ 48 % 256)
    ∷ (n / 2 ^ 40 % 256)
    ∷ (n / 2 ^ 32 % 256)
    ∷ (n / 2 ^ 24 % 256)
    ∷ (n / 2 ^ 16 % 256)
    ∷ (n / 2 ^ 8 % 256)
    ∷ (n % 256)
    ∷ []

-- what `stableID` writes to the hash: each part behind its length
unfoldable pub frame : List Text → Text
frame [] = []
frame (v ∷ parts) = big_endian_64 (length v) ++ (v ++ frame parts)

module _ (sha256_hex : Text → Text) where
  unfoldable pub stable_id : String → List Text → Text
  unfolding frame
  stable_id domain fields =
      text domain ++ (text ":sha256:" ++ sha256_hex (frame (text domain ∷ fields)))

  unfoldable pub node_id : NodeIdentity → Text
  unfolding stable_id
  node_id v =
      stable_id "dependency-node-id/v1"
        (v.kind ∷ v.language ∷ v.qualified_name ∷ v.repository_path ∷ v.resolution ∷ [])

  unfoldable pub edge_id : Text → Text → Text → Text → Text → Text
  unfolding stable_id
  edge_id graph kind from to resolution =
      stable_id "dependency-edge-id/v1" (graph ∷ kind ∷ from ∷ to ∷ resolution ∷ [])

  unfoldable pub containment_id : Text → Text → Text → Text
  unfolding stable_id
  containment_id kind parent child =
      stable_id "dependency-containment-id/v1" (kind ∷ parent ∷ child ∷ [])
