-- ===== src/Repo/Framing/Distinct.antt =====
-- The canonical bytes of an artifact's identity, read backwards (backend/service/repository/implementation.go:
-- `CanonicalArtifactIdentity`, `NewArtifactID`).
use software_engineering_pla.Shared.{
  ℕ, ◌/◌, ◌%◌, ◌^◌, ◌<◌, ◌≤◌, ◌≡◌, refl, sym, ◌∙◌, ap, inl, inr, true, ◌&&◌, List, [], ◌∷◌, ◌++◌,
  arith, length, All, Bool-cases,
}
use software_engineering_pla.Die.Text.{Text}
use software_engineering_pla.Die.Identity.Framing.{
  append_injective, cons_injective, join_byte, prefix_injective,
}
use software_engineering_pla.Repo.Errors.{Outcome, gives, fails}
use software_engineering_pla.Repo.Valid.{Unicode, valid_uuid, valid_identity_field}
use software_engineering_pla.Repo.Framing.{
  big_endian_32, frame_fields, all_valid, artifact_identity_domain, canonical_artifact_identity,
}

big_endian_32_injective :
    (n m : ℕ) → n < 2 ^ 32 → m < 2 ^ 32 → big_endian_32 n ≡ big_endian_32 m → n ≡ m
big_endian_32_injective n m p q e =
    let (e3, r3) = cons_injective _ _ _ _ e in
    let (e2, r2) = cons_injective _ _ _ _ r3 in
    let (e1, r1) = cons_injective _ _ _ _ r2 in
    let (e0, _) = cons_injective _ _ _ _ r1 in
    let k3 : n / 2 ^ 24 ≡ m / 2 ^ 24 = omega (arith, e3, p, q) in
    let k2 : n / 2 ^ 16 ≡ m / 2 ^ 16 = join_byte (n / 2 ^ 16) (m / 2 ^ 16) e2 (omega (arith, k3)) in
    let k1 : n / 2 ^ 8 ≡ m / 2 ^ 8 = join_byte (n / 2 ^ 8) (m / 2 ^ 8) e1 (omega (arith, k2)) in
    join_byte n m e0 k1

abbrev Fits : Text → Type 0
Fits v = length v ≤ 1024

frame_fields_injective :
    (xs ys : List Text) → All Fits xs → All Fits ys → frame_fields xs ≡ frame_fields ys → xs ≡ ys
unfolding frame_fields
frame_fields_injective [] [] p q e = refl
frame_fields_injective [] (y ∷ ys) p q e = cc
frame_fields_injective (x ∷ xs) [] p q e = cc
frame_fields_injective (x ∷ xs) (y ∷ ys) p q e =
    let (h, t) =
      append_injective (big_endian_32 (length x % 2 ^ 32)) (big_endian_32 (length y % 2 ^ 32))
        (x ++ frame_fields xs) (y ++ frame_fields ys) refl e in
    let same =
      big_endian_32_injective (length x % 2 ^ 32) (length y % 2 ^ 32) (omega arith) (omega arith)
        h in
    let (f, r) =
      append_injective x y (frame_fields xs) (frame_fields ys) (omega (arith, same, p.0, q.0)) t in
    let g = frame_fields_injective xs ys p.1 q.1 r in cc

all_valid-Fits : (u : Unicode) (fields : List Text) → all_valid u fields ≡ true → All Fits fields
unfolding valid_identity_field
all_valid-Fits u [] h = tt
all_valid-Fits u (v ∷ fields) h = (ground arith, all_valid-Fits u fields (ground (arith, h)))

abbrev given : Text → Outcome Text → Text
given other (gives c) = c
given other (fails f) = other

abbrev pub identity_fields : Text → Text → Text → Text → Text → List Text
identity_fields r s n v i = r ∷ s ∷ n ∷ v ∷ i ∷ []

module _ (u : Unicode) where
  canonical_fields :
      (r s n v i c : Text)
      → canonical_artifact_identity u r s n v i ≡ gives c
      → (all_valid u (identity_fields r s n v i) ≡ true)
        × (gives c ≡ gives (artifact_identity_domain ++ frame_fields (identity_fields r s n v i)))
  unfolding canonical_artifact_identity
  canonical_fields r s n v i c h =
      let fields = identity_fields r s n v i in
      elim (Bool-cases (valid_uuid r && valid_uuid s)) [
        | inr e ↦ absurd (ground (arith, e, h))
        | inl e ↦ elim (Bool-cases (all_valid u fields)) [
          | inr f ↦ absurd (ground (arith, e, f, h))
          | inl f ↦ (f, ground (arith, e, f, h))
        ]
      ]

  -- Two artifacts whose identities have the same canonical bytes have the same repository, scan, name, version
  -- and scheme of stable identifiers.
  pub canonical_artifact_identity-injective :
      (r r' s s' n n' v v' i i' c : Text)
      → canonical_artifact_identity u r s n v i ≡ gives c
      → canonical_artifact_identity u r' s' n' v' i' ≡ gives c
      → identity_fields r s n v i ≡ identity_fields r' s' n' v' i'
  canonical_artifact_identity-injective r r' s s' n n' v v' i i' c h k =
      let xs = identity_fields r s n v i in
      let ys = identity_fields r' s' n' v' i' in
      let (p, a) = canonical_fields r s n v i c h in
      let (q, b) = canonical_fields r' s' n' v' i' c k in
      let same : artifact_identity_domain ++ frame_fields xs
          ≡ artifact_identity_domain ++ frame_fields ys =
        ap (given []) (sym a ∙ b) in
      frame_fields_injective xs ys (all_valid-Fits u xs p) (all_valid-Fits u ys q)
        (prefix_injective artifact_identity_domain (frame_fields xs) (frame_fields ys) same)
