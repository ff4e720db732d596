-- ===== src/Rie/Rules/Last.antt =====
-- The last rule that applies to an entry decides (backend/rie/ignore/implementation.go,
-- `matchesRules`).
use mathlib.Core.Bool.{false≢true}
use software_engineering_pla.Shared.{
  ◌≡◌, refl, ap, ◌∙◌, ◌⊎◌, inl, inr, ◌↔◌, Bool, true, false, not, List, [], ◌∷◌, ◌++◌, arith, All,
  Bool-cases,
}
use software_engineering_pla.Rie.Rules.{Texts, Entry, Rule, applies, after_rules, matches_rules}

module _ (x : Texts) (e : Entry) where
  abbrev pub Passes : List Rule → Type 0
  Passes rules = All (λ r. applies x e r ≡ false) rules

  -- a rule that applies, is not negated, and comes after all others that apply
  abbrev pub LastIgnores : List Rule → Type 0
  LastIgnores rules =
      (before : List Rule) × (r : Rule) × (after : List Rule) × (rules ≡ before ++ r ∷ after)
      × (applies x e r ≡ true)
      × (r.negated ≡ false)
      × Passes after

  after_rules-Passes :
      (ignored : Bool) (rules : List Rule) → Passes rules → after_rules x e ignored rules ≡ ignored
  unfolding after_rules
  after_rules-Passes ignored [] h = refl
  after_rules-Passes ignored (r ∷ rules) (n, h) = rw n (after_rules-Passes ignored rules h)

  after_rules-append :
      (before after : List Rule) (ignored : Bool)
      → after_rules x e ignored (before ++ after)
        ≡ after_rules x e (after_rules x e ignored before) after
  unfolding after_rules
  after_rules-append [] after ignored = refl
  after_rules-append (r ∷ before) after ignored = after_rules-append before after _

  later : (r : Rule) (rules : List Rule) → LastIgnores rules → LastIgnores (r ∷ rules)
  later r rules (before, q, after, same, a, n, p) =
      (r ∷ before, q, after, ap (λ v. r ∷ v) same, a, n, p)

  after_rules_inv :
      (ignored : Bool) (rules : List Rule)
      → after_rules x e ignored rules ≡ true
      → LastIgnores rules ⊎ ((ignored ≡ true) × Passes rules)
  unfolding after_rules
  after_rules_inv ignored [] h = inr (h, tt)
  after_rules_inv ignored (r ∷ rules) h = elim (Bool-cases (applies x e r)) [
    | inl a ↦ elim (after_rules_inv _ rules (rw a at h)) [
      | inl l ↦ inl (later r rules l)
      | inr (n, p) ↦ inl ([], r, rules, refl, a, ground (arith, n), p)
    ]
    | inr a ↦ elim (after_rules_inv _ rules (rw a at h)) [
      | inl l ↦ inl (later r rules l)
      | inr (n, p) ↦ inr (n, (a, p))
    ]
  ]

  -- The rules ignore an entry exactly where the last one that applies to it is not negated.
  pub matches_rules_iff : (rules : List Rule) → (matches_rules x e rules ≡ true) ↔ LastIgnores rules
  unfolding matches_rules after_rules
  matches_rules_iff rules = (
    λ h. elim (after_rules_inv false rules h) [ inl l ↦ l | inr (n, p) ↦ absurd (false≢true n) ],
    λ (before, r, after, same, a, n, p).
        ap (matches_rules x e) same
        ∙ (after_rules-append before (r ∷ after) false
            ∙ rw a (after_rules-Passes (not r.negated) after p ∙ ap not n)),
  )
