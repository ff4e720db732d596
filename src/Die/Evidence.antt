-- ===== src/Die/Evidence.antt =====
-- Source identities and evidence (backend/die/implementation.go: `validateSource`,
-- `normalizeEvidence`, `mergeEvidence`, `evidenceKey`).
--
-- Keys are made of checked evidence only, so the line and the column in them are not negative.
use software_engineering_pla.Shared.{
  ℕ, ◌-◌, Bool, not, ◌||◌, List, [], ◌∷◌, ◌++◌, ltb, if◌then◌else◌, length, take,
}
use software_engineering_pla.Shared.Int.{pos, pos_part, ltb_ℤ}
use software_engineering_pla.Die.Text.{Text, text_lt, is_empty, safe_text, padded, sort_by, dedupe}
use software_engineering_pla.Die.Path.{normalize_path}
use software_engineering_pla.Die.Model.{
  error, invalid_input, Result, ok, ◌>>=◌, ◌>>◌, require, SourceIdentity, DependencyEvidence,
}

unfoldable pub validate_source : SourceIdentity → Result (Unit {0})
validate_source v =
    require
      (not (
        is_empty v.artifact_name
        || (is_empty v.artifact_version
            || (is_empty v.source_id
                || (not (safe_text v.artifact_name)
                    || (not (safe_text v.artifact_version) || not (safe_text v.source_id)))))))
      (error invalid_input "invalid_source_identity")

abbrev is_valid_evidence : DependencyEvidence → Bool
is_valid_evidence v = not (
    is_empty v.rule
    || (not (safe_text v.rule)
        || (not (safe_text v.value)
            || (ltb_ℤ v.start_line (pos 0) || ltb_ℤ v.start_column (pos 0)))))

-- the body of the first loop of `normalizeEvidence`
unfoldable pub check_evidence : DependencyEvidence → Result DependencyEvidence
unfolding validate_source
check_evidence v = do
  validate_source v.source
  p ← normalize_path v.file
  require (is_valid_evidence v) (error invalid_input "invalid_evidence")
  ok (record v { file = p })

unfoldable pub check_all : List DependencyEvidence → Result (List DependencyEvidence)
check_all [] = ok []
check_all (v ∷ vs) = do w ← check_evidence v; ws ← check_all vs; ok (w ∷ ws)

-- `Sprintf`: eight fields with a NUL between them
unfoldable pub evidence_key : DependencyEvidence → Text
unfolding padded
evidence_key v =
    v.source.artifact_name
    ++ 0
      ∷ (v.source.artifact_version
          ++ 0
            ∷ (v.source.source_id
                ++ 0
                  ∷ (v.file
                      ++ 0
                        ∷ (padded (pos_part v.start_line)
                            ++ 0
                              ∷ (padded (pos_part v.start_column)
                                  ++ 0 ∷ (v.rule ++ 0 ∷ v.value))))))

abbrev pub evidence_less : DependencyEvidence → DependencyEvidence → Bool
evidence_less a b = text_lt (evidence_key a) (evidence_key b)

-- sorted, without duplicates, before the limit
unfoldable pub canonical_evidence : List DependencyEvidence → List DependencyEvidence
unfolding dedupe
canonical_evidence vs = dedupe evidence_key (sort_by evidence_less vs)

-- the first `limit` records and how many are left out
abbrev pub limited {ℓ} : {A : Type ℓ} → List A → ℕ → List A × ℕ
limited out limit =
    if ltb limit (length out) then (take limit out, length out - limit) else (out, 0)

unfoldable pub normalize_evidence :
    List DependencyEvidence → ℕ → Result (List DependencyEvidence × ℕ)
normalize_evidence vs limit = do ws ← check_all vs; ok (limited (canonical_evidence ws) limit)

abbrev pub merge_evidence :
    List DependencyEvidence → List DependencyEvidence → List DependencyEvidence
merge_evidence a b = a ++ b
