-- ===== src/Die/Text/Order.antt =====
-- Equality of texts, and what sorting (backend/die) keeps.
use software_engineering_pla.Shared.{
  suc, ◌≡◌, refl, ◌↔◌, inl, inr, Bool, true, false, List, [], ◌∷◌, arith, length, All, Bool-cases,
}
use software_engineering_pla.Die.Text.{Text, text_eq, insert_by, sort_by}

pub text_eq_sound : (a b : Text) → text_eq a b ≡ true → a ≡ b
text_eq_sound [] [] h = refl
text_eq_sound [] (y ∷ ys) h = cc
text_eq_sound (x ∷ xs) [] h = cc
text_eq_sound (x ∷ xs) (y ∷ ys) h = ground (arith, text_eq_sound xs ys)

pub text_eq_refl : (a : Text) → text_eq a a ≡ true
text_eq_refl [] = refl
text_eq_refl (x ∷ xs) = ground (arith, text_eq_refl xs)

pub text_eq_iff : (a b : Text) → (text_eq a b ≡ true) ↔ (a ≡ b)
text_eq_iff a b = (text_eq_sound a b, λ e. rw e (text_eq_refl b))

module _ {ℓ} {A : Type ℓ} (less : A → A → Bool) where
  pub length-insert_by : (a : A) (xs : List A) → length (insert_by less a xs) ≡ suc (length xs)
  length-insert_by a [] = refl
  length-insert_by a (x ∷ xs) = ground (arith, length-insert_by a xs)

  pub length-sort_by : (xs : List A) → length (sort_by less xs) ≡ length xs
  length-sort_by [] = refl
  length-sort_by (x ∷ xs) = omega (arith, length-insert_by x (sort_by less xs), length-sort_by xs)

  pub All-insert_by {κ} :
      (P : A → Type κ) (a : A) (xs : List A) → P a → All P xs → All P (insert_by less a xs)
  All-insert_by P a [] h hs = (h, hs)
  All-insert_by P a (x ∷ xs) h hs = elim (Bool-cases (less x a)) [
    | inl e ↦ rw e (hs.0, All-insert_by P a xs h hs.1)
    | inr e ↦ rw e (h, hs)
  ]

  pub All-sort_by {κ} : (P : A → Type κ) (xs : List A) → All P xs → All P (sort_by less xs)
  All-sort_by P [] hs = hs
  All-sort_by P (x ∷ xs) hs = All-insert_by P x (sort_by less xs) hs.0 (All-sort_by P xs hs.1)

pub text_eq-flip : (a b : Text) → text_eq a b ≡ false → text_eq b a ≡ false
text_eq-flip [] [] h = h
text_eq-flip [] (y ∷ b) h = refl
text_eq-flip (x ∷ a) [] h = refl
text_eq-flip (x ∷ a) (y ∷ b) h = ground (arith, h, text_eq-flip a b)
