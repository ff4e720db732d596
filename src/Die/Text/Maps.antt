-- ===== src/Die/Text/Maps.antt =====
-- Association lists that stand for Go maps keyed by text.
use mathlib.Core.Bool.{false≢true}
use software_engineering_pla.Shared.{
  ◌≡◌, refl, sym, ◌∙◌, ap, inl, inr, List, [], ◌∷◌, some, arith, Bool-cases, if◌then◌else◌,
}
use software_engineering_pla.Die.Text.{text_eq, lookup, insert, Text}
use software_engineering_pla.Die.Text.Order.{text_eq_sound, text_eq_refl}

pub lookup-insert {ℓ} :
    {V : Type ℓ} (m : List (Text × V)) (k j : Text) (v : V)
    → lookup j (insert k v m) ≡ (if text_eq k j then some v else lookup j m)
lookup-insert [] k j v = refl
lookup-insert ((i, w) ∷ m) k j v = elim (Bool-cases (text_eq i k)) [
  | inl e ↦
      let same = text_eq_sound i k e in
      let agree : text_eq i j ≡ text_eq k j = ap (λ x. text_eq x j) same in ground (arith, e, agree)
  | inr e ↦ elim (Bool-cases (text_eq i j)) [
    | inr o ↦ ground (arith, e, o, lookup-insert m k j v)
    | inl o ↦ elim (Bool-cases (text_eq k j)) [
      | inr p ↦ ground (arith, e, o, p)
      | inl p ↦
          let same = text_eq_sound i j o ∙ sym (text_eq_sound k j p) in
          absurd (false≢true (sym e ∙ ap (λ x. text_eq x k) same ∙ text_eq_refl k))
    ]
  ]
]
