-- ===== src/Rie/Rules/Below.antt =====
-- A rule that matches a folder matches all that is below it (backend/rie/ignore/implementation.go,
-- `ruleMatchesTarget`).
use mathlib.Core.Bool.{false≢true}
use software_engineering_pla.Shared.{
  ℕ, zero, suc, ◌+◌, ◌<◌, ◌≡◌, refl, sym, ap, ◌∙◌, ◌⊎◌, inl, inr, ◌↔◌, Bool, true, false, not, ◌&&◌,
  ◌||◌, List, [], ◌∷◌, ◌++◌, arith, All, Bool-cases, length, length-append,
}
use software_engineering_pla.Die.Text.{Text, text_eq, is_empty, contains_byte}
use software_engineering_pla.Die.Path.{slash, dot}
use software_engineering_pla.Die.Path.Canonical.{IsName, joined}
use software_engineering_pla.Rie.Rules.{Texts, Rule, covers, covers_parent, rule_matches_target}
use software_engineering_pla.Rie.Rules.Ancestors.{
  joined-below, joined-not_empty, dir-top, dir-below,
}

not_dot_below : (v s : Text) → is_empty v ≡ false → text_eq (v ++ slash ∷ s) dot ≡ false
not_dot_below [] s h = absurd (false≢true (sym h))
not_dot_below (c ∷ []) s h = ground arith
not_dot_below (c ∷ d ∷ v) s h = ground arith

not_slash_below :
    (v s : Text)
    → is_empty v ≡ false
    → is_empty s ≡ false
    → text_eq (v ++ slash ∷ s) (slash ∷ []) ≡ false
not_slash_below [] s h n = absurd (false≢true (sym h))
not_slash_below (c ∷ []) s h n = ground arith
not_slash_below (c ∷ d ∷ v) s h n = ground arith

not_slash_name : (s : Text) → contains_byte slash s ≡ false → text_eq s (slash ∷ []) ≡ false
not_slash_name [] h = refl
not_slash_name (c ∷ s) h = ground (arith, h)

-- the loop does not stop at a path with names
goes_on :
    (s : Text) (kept : List Text)
    → IsName s
    → All IsName kept
    → (text_eq (joined (s ∷ kept)) dot || text_eq (joined (s ∷ kept)) (slash ∷ [])) ≡ false
goes_on s [] n h = rw n.not_dot (not_slash_name s n.no_slash)
goes_on s (t ∷ kept) n (m, h) =
    let e = joined-not_empty t kept m h in
    rw (joined-below s t kept) (
      rw (not_dot_below (joined (t ∷ kept)) s e)
        (not_slash_below (joined (t ∷ kept)) s e n.not_empty))

positive : (s : Text) → is_empty s ≡ false → 0 < length s
positive [] h = absurd (false≢true (sym h))
positive (c ∷ s) h = omega arith

names-length :
    (s : Text) (kept : List Text)
    → IsName s
    → All IsName kept
    → length kept < length (joined (s ∷ kept))
names-length s [] n h = positive s n.not_empty
names-length s (t ∷ kept) n (m, h) =
    rw (joined-below s t kept)
      (omega (arith, names-length t kept m h, length-append (joined (t ∷ kept)) (slash ∷ s)))

module _ (x : Texts) (r : Rule) where
  abbrev above : List Text → Bool
  above [] = false
  above (s ∷ kept) = covers x r (joined (s ∷ kept)) || above kept

  covers_parent-above :
      (fuel : ℕ) (s : Text) (kept : List Text)
      → IsName s
      → All IsName kept
      → length kept + 1 < fuel
      → covers_parent x fuel r (joined (s ∷ kept)) ≡ above (s ∷ kept)
  unfolding covers_parent
  covers_parent-above zero s kept n h f = absurd (omega arith)
  covers_parent-above (suc zero) s kept n h f = absurd (omega arith)
  covers_parent-above (suc (suc fuel)) s [] n h f = rw (goes_on s [] n h) (rw (dir-top s n) refl)
  covers_parent-above (suc (suc fuel)) s (t ∷ kept) n (m, h) f =
      rw (goes_on s (t ∷ kept) n (m, h)) (
        rw (dir-below s t kept n m h) (
          ap (λ b. covers x r (joined (s ∷ t ∷ kept)) || b)
            (covers_parent-above (suc fuel) t kept m h (omega arith))))

  -- a folder above, with what the rule says of it
  abbrev pub CoversAbove : List Text → Type 0
  CoversAbove kept =
      (near : List Text) × (t : Text) × (far : List Text) × (kept ≡ near ++ t ∷ far)
      × (covers x r (joined (t ∷ far)) ≡ true)

  above_inv : (kept : List Text) → above kept ≡ true → CoversAbove kept
  above_inv [] h = absurd (false≢true h)
  above_inv (s ∷ kept) h = elim (Bool-cases (covers x r (joined (s ∷ kept)))) [
    | inl c ↦ ([], s, kept, refl, c)
    | inr c ↦
        let (near, t, far, e, k) = above_inv kept (rw c at h) in
        (s ∷ near, t, far, ap (λ v. s ∷ v) e, k)
  ]

  above_of :
      (near : List Text) (t : Text) (far : List Text)
      → covers x r (joined (t ∷ far)) ≡ true
      → above (near ++ t ∷ far) ≡ true
  above_of [] t far c = rw c refl
  above_of (s ∷ near) t far c = rw (above_of near t far c) (ground arith)

  covers_parent-dot : (fuel : ℕ) → covers_parent x fuel r dot ≡ false
  unfolding covers_parent
  covers_parent-dot zero = refl
  covers_parent-dot (suc fuel) = refl

  abbrev at_path : Text → Bool → Bool
  at_path v is_dir = covers x r v && (not r.directory || is_dir)

  rule_matches_target-above :
      (s : Text) (kept : List Text) (is_dir : Bool)
      → IsName s
      → All IsName kept
      → rule_matches_target x r (joined (s ∷ kept)) is_dir
        ≡ at_path (joined (s ∷ kept)) is_dir || above kept
  unfolding rule_matches_target
  rule_matches_target-above s [] is_dir n h =
      rw (dir-top s n) (ap (λ b. at_path s is_dir || b) (covers_parent-dot (length s + 1)))
  rule_matches_target-above s (t ∷ kept) is_dir n (m, h) = rw (dir-below s t kept n m h) (
      ap (λ b. at_path (joined (s ∷ t ∷ kept)) is_dir || b)
        (covers_parent-above (length (joined (s ∷ t ∷ kept)) + 1) t kept m h
          (omega (arith, names-length s (t ∷ kept) n (m, h)))))

  -- For a path with names, a rule matches where it covers the path, which has to be a folder if the
  -- rule asks for one, or where it covers a folder above the path.
  pub rule_matches_target_iff :
      (s : Text) (kept : List Text) (is_dir : Bool)
      → IsName s
      → All IsName kept
      → (rule_matches_target x r (joined (s ∷ kept)) is_dir ≡ true) ↔ (
          ((covers x r (joined (s ∷ kept)) ≡ true) × ((r.directory ≡ false) ⊎ (is_dir ≡ true)))
          ⊎ CoversAbove kept)
  rule_matches_target_iff s kept is_dir n h =
      let same = rule_matches_target-above s kept is_dir n h in
      (
        λ e.
            let o = sym same ∙ e in
            elim (Bool-cases (above kept)) [
              | inl a ↦ inr (above_inv kept a)
              | inr a ↦ inl (
                ground (arith, o, a),
                elim (Bool-cases r.directory) [
                  | inl d ↦ inr (ground (arith, o, a, d))
                  | inr d ↦ inl d
                ],
              )
            ],
        λ q. same ∙ elim q [
          | inl (c, inl d) ↦ rw c (rw d refl)
          | inl (c, inr d) ↦ rw c (rw d (ground arith))
          | inr (near, t, far, e, c) ↦ rw e (rw (above_of near t far c) (ground arith))
        ],
      )
