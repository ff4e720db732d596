-- ===== src/Rie/Glob/Meaning.antt =====
-- What the patterns of ignore rules mean (backend/rie/ignore/implementation.go, `globExpression`),
-- said of the characters of the pattern itself, as code points.
use software_engineering_pla.Shared.{
  ℕ, ◌≡◌, refl, ap, ◌⊎◌, inl, inr, Bool, true, false, not, ◌||◌, List, [], ◌∷◌, ◌++◌, ◌==◌, arith,
  Bool-cases,
}
use software_engineering_pla.Die.Text.{has_prefix}
use software_engineering_pla.Die.Path.{slash}
use software_engineering_pla.Rie.Glob.{star, in_line, in_segment}

abbrev pub Every : (ℕ → Bool) → List ℕ → Type 0
Every ok [] = Unit
Every ok (c ∷ s) = (ok c ≡ true) × Every ok s

-- not a byte that the patterns give a meaning
abbrev pub plain : ℕ → Bool
plain c = not (c == b'*' || (c == b'?' || c == b'['))

-- the pattern covers the whole path
pub data Glob : List ℕ → List ℕ → Type 0 where
  at_end : Glob [] []
  no_folders : {p s : List ℕ} → Glob p s → Glob (b'*' ∷ b'*' ∷ b'/' ∷ p) s
  folders :
      {p s : List ℕ} (d : List ℕ)
      → Every in_line d
      → Glob p s
      → Glob (b'*' ∷ b'*' ∷ b'/' ∷ p) (d ++ slash ∷ s)
  anything :
      {p s : List ℕ} (d : List ℕ)
      → has_prefix p (b'/' ∷ []) ≡ false
      → Every in_line d
      → Glob p s
      → Glob (b'*' ∷ b'*' ∷ p) (d ++ s)
  in_name :
      {p s : List ℕ} (d : List ℕ)
      → has_prefix p (b'*' ∷ []) ≡ false
      → Every in_segment d
      → Glob p s
      → Glob (b'*' ∷ p) (d ++ s)
  one_of_name : {p s : List ℕ} {c : ℕ} → in_segment c ≡ true → Glob p s → Glob (b'?' ∷ p) (c ∷ s)
  itself : {p s : List ℕ} {c : ℕ} → plain c ≡ true → Glob p s → Glob (c ∷ p) (c ∷ s)

-- the pattern covers the path, or, where it is not rooted, what follows a slash of it
abbrev pub Covers : List ℕ → Bool → List ℕ → Type 0
Covers p rooted s =
    Glob p s ⊎ ((rooted ≡ false) × (d : List ℕ) × (t : List ℕ) × (s ≡ d ++ slash ∷ t) × Glob p t)

pub star-Every :
    (ok : ℕ → Bool) (k : List ℕ → Bool) (d s : List ℕ)
    → Every ok d
    → k s ≡ true
    → star ok k (d ++ s) ≡ true
unfolding star
star-Every ok k [] [] h e = e
star-Every ok k [] (c ∷ s) h e = rw e refl
star-Every ok k (c ∷ d) s (a, h) e = ground (arith, a, star-Every ok k d s h e)

pub star_inv :
    (ok : ℕ → Bool) (k : List ℕ → Bool) (s : List ℕ)
    → star ok k s ≡ true
    → (d : List ℕ) × (t : List ℕ) × (s ≡ d ++ t) × Every ok d × (k t ≡ true)
unfolding star
star_inv ok k [] e = ([], [], refl, tt, e)
star_inv ok k (c ∷ s) e = elim (Bool-cases (k (c ∷ s))) [
  | inl h ↦ ([], c ∷ s, refl, tt, h)
  | inr h ↦
      let a : ok c ≡ true = ground (arith, e, h) in
      let r : star ok k s ≡ true = ground (arith, e, h) in
      let (d, t, q, all, kt) = star_inv ok k s r in (c ∷ d, t, ap (◌∷◌ c) q, (a, all), kt)
]
