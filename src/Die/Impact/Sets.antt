-- ===== src/Die/Impact/Sets.antt =====
-- Membership in the sets and lists of the traversal (backend/die/analysis_query.go).
use software_engineering_pla.Shared.{
  ◌≡◌, refl, sym, subst, ◌⊎◌, true, List, [], ◌∷◌, arith, Bool-cases, inl, inr,
}
use software_engineering_pla.Die.Text.{Text, text_eq, text_lt, insert_by, sort_by}
use software_engineering_pla.Die.Text.Order.{text_eq_sound, text_eq_refl}
use software_engineering_pla.Die.Graph.{contains_text}

infix 50 ◌∈◌
abbrev pub ◌∈◌ : Text → List Text → Type 0
t ∈ ts = contains_text t ts ≡ true

pub mem-cons_self : (t : Text) (ts : List Text) → t ∈ t ∷ ts
mem-cons_self t ts = ground (arith, text_eq_refl t)

contains_text-insert_by :
    (t x : Text) (ts : List Text)
    → contains_text t (insert_by text_lt x ts) ≡ contains_text t (x ∷ ts)
contains_text-insert_by t x [] = refl
contains_text-insert_by t x (y ∷ ts) = ground (arith, contains_text-insert_by t x ts)

pub contains_text-sort_by :
    (t : Text) (ts : List Text) → contains_text t (sort_by text_lt ts) ≡ contains_text t ts
contains_text-sort_by t [] = refl
contains_text-sort_by t (x ∷ ts) =
    ground (arith, contains_text-insert_by t x (sort_by text_lt ts), contains_text-sort_by t ts)

pub mem-cons_eq : (t x : Text) (ts : List Text) → t ≡ x → t ∈ x ∷ ts
mem-cons_eq t x ts e = subst (λ y. y ∈ x ∷ ts) (sym e) (mem-cons_self x ts)

pub mem-cons_tail : (t x : Text) (ts : List Text) → t ∈ ts → t ∈ x ∷ ts
mem-cons_tail t x ts h = ground arith

pub mem-cons_cases : (t x : Text) (ts : List Text) → t ∈ x ∷ ts → (t ≡ x) ⊎ t ∈ ts
mem-cons_cases t x ts h = elim (Bool-cases (text_eq x t)) [
  | inl e ↦ inl (sym (text_eq_sound x t e))
  | inr e ↦ inr (ground arith)
]
