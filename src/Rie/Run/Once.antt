-- ===== src/Rie/Run/Once.antt =====
-- An artifact is recorded once (backend/rie/artifact.go, `Put` and `Get`).
use software_engineering_pla.Shared.{
  ◌≡◌, refl, ap, ◌∙◌, ◌⊎◌, inl, inr, Bool, true, false, Option, none, some, if◌then◌else◌,
}
use software_engineering_pla.Die.Text.{Text, text_eq, is_empty, lookup}
use software_engineering_pla.Die.Text.Order.{text_eq_refl}
use software_engineering_pla.Die.Text.Maps.{lookup-insert}
use software_engineering_pla.Rie.Run.{
  Artifact, artifact_name, RunFailure, artifact_name_required, already_exists, Artifacts, put_named,
  put_checked, put_artifact, get_artifact_named,
}

-- a store with one artifact more, and nothing else changed
abbrev pub Gains : Artifact → Artifacts → Artifacts → Type 0
Gains a m n =
    (get_artifact_named (artifact_name a) (some m) ≡ none)
    × (get_artifact_named (artifact_name a) (some n) ≡ some a)
    × ((other : Text)
        → text_eq (artifact_name a) other ≡ false
        → get_artifact_named other (some n) ≡ get_artifact_named other (some m))

-- recorded under a name that was free, or refused with nothing changed
abbrev pub PutOnce : Artifact → Artifacts → Option RunFailure × Artifacts → Type 0
PutOnce a m (failed, n) =
    ((is_empty (artifact_name a) ≡ false) × (failed ≡ none) × Gains a m n)
    ⊎ ((n ≡ m)
        × (((is_empty (artifact_name a) ≡ true) × (failed ≡ some artifact_name_required))
            ⊎ ((b : Artifact) × (get_artifact_named (artifact_name a) (some m) ≡ some b)
                × (failed ≡ some (already_exists (artifact_name a))))))

put_named-PutOnce :
    (a : Artifact) (m : Artifacts) (found : Option Artifact)
    → is_empty (artifact_name a) ≡ false
    → lookup (artifact_name a) m ≡ found
    → PutOnce a m (put_named (artifact_name a) a found m)
unfolding get_artifact_named
put_named-PutOnce a m (some b) e h = inr (refl, inr (b, h, refl))
put_named-PutOnce a m none e h =
    let name = artifact_name a in
    inl (
      e,
      refl,
      (
        h,
        lookup-insert m name name a
            ∙ ap (λ b. if b then some a else lookup name m) (text_eq_refl name),
        λ other n. lookup-insert m name other a ∙ ap (λ b. if b then some a else lookup other m) n,
      ),
    )

put_checked-PutOnce :
    (b : Bool) (a : Artifact) (m : Artifacts)
    → is_empty (artifact_name a) ≡ b
    → PutOnce a m (put_checked b a m)
put_checked-PutOnce true a m h = inr (refl, inl (h, refl))
put_checked-PutOnce false a m h = put_named-PutOnce a m (lookup (artifact_name a) m) h refl

-- An artifact is recorded exactly where it has a name, which is not empty, and the name is free, and
-- then it is found under that name while all others are found as before; else it is refused and the
-- store stays as it is.
pub put_artifact-PutOnce : (a : Artifact) (m : Artifacts) → PutOnce a m (put_artifact (some a) m)
unfolding put_artifact
put_artifact-PutOnce a m = put_checked-PutOnce (is_empty (artifact_name a)) a m refl
