-- ===== src/Repo/Profiles/Resolved.antt =====
-- Profiles that a registry resolves (backend/service/repository/implementation.go: `NewProfileRegistry`,
-- `Resolve`).
use mathlib.Core.Bool.{false≢true}
use software_engineering_pla.Shared.{
  ◌≡◌, sym, ◌∙◌, ap, subst, true, false, Bool, inl, inr, List, [], ◌∷◌, Option, none, some, arith,
  All, Bool-cases,
}
use software_engineering_pla.Die.Text.{Text, text_eq, lookup, insert}
use software_engineering_pla.Die.Text.Order.{text_eq_sound, text_eq_refl}
use software_engineering_pla.Die.Text.Maps.{lookup-insert}
use software_engineering_pla.Repo.Errors.{Outcome, fails, gives}
use software_engineering_pla.Repo.Values.{ProfileDefinition}
use software_engineering_pla.Repo.Profiles.{
  ProfileRegistry, definition_key, add_definitions, new_profile_registry, resolve,
}

abbrev Holds : ProfileRegistry → ProfileDefinition → Type 0
Holds r d = lookup (definition_key d) r ≡ some d

abbrev is_some {ℓ} : {V : Type ℓ} → Option V → Bool
is_some (some _) = true
is_some none = false

abbrev registry_or : ProfileRegistry → Outcome ProfileRegistry → ProfileRegistry
registry_or other (gives r) = r
registry_or other (fails f) = other

add_definitions-Holds :
    (registry r : ProfileRegistry) (ds : List ProfileDefinition)
    → add_definitions registry ds ≡ gives r
    → All (Holds r) ds
      × ((k : Text) (d : ProfileDefinition) → lookup k registry ≡ some d → lookup k r ≡ some d)
unfolding add_definitions
add_definitions-Holds registry r [] h =
    (tt, λ k d e. subst (λ x. lookup k x ≡ some d) (ap (registry_or r) h) e)
add_definitions-Holds registry r (d ∷ ds) h =
    let key = definition_key d in
    let rest : add_definitions (insert key d registry) ds ≡ gives r = ground (arith, h) in
    let fresh : is_some (lookup key registry) ≡ false = ground (arith, h) in
    let (held, kept) = add_definitions-Holds (insert key d registry) r ds rest in
    let own : lookup key (insert key d registry) ≡ some d =
      ground (arith, lookup-insert registry key key d, text_eq_refl key) in
    (
      (kept key d own, held),
      λ k v e. kept k v (elim (Bool-cases (text_eq key k)) [
        | inl same ↦ absurd (
            false≢true (
              sym fresh
              ∙ ap (λ x. is_some (lookup x registry)) (text_eq_sound key k same)
              ∙ ap is_some e))
        | inr other ↦ ground (arith, lookup-insert registry key k d, other, e)
      ]),
    )

abbrev pub Resolves : ProfileRegistry → ProfileDefinition → Type 0
Resolves r d = resolve r d.profile.name d.profile.version d.profile.digest ≡ some d

Holds-Resolves : (r : ProfileRegistry) (d : ProfileDefinition) → Holds r d → Resolves r d
unfolding resolve
Holds-Resolves r d h = ground (arith, h, text_eq_refl d.profile.digest)

All-Resolves :
    (r : ProfileRegistry) (ds : List ProfileDefinition) → All (Holds r) ds → All (Resolves r) ds
All-Resolves r [] h = tt
All-Resolves r (d ∷ ds) h = (Holds-Resolves r d h.0, All-Resolves r ds h.1)

-- A registry that is accepted resolves each definition that it was made of, by its name, version and digest.
pub new_profile_registry-Resolves :
    (ds : List ProfileDefinition) (r : ProfileRegistry)
    → new_profile_registry ds ≡ gives r
    → All (Resolves r) ds
unfolding new_profile_registry
new_profile_registry-Resolves ds r h = All-Resolves r ds (add_definitions-Holds [] r ds h).0
