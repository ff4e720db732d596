-- ===== src/Rie/Glob/Correct.antt =====
-- Compiled patterns match what the patterns mean (backend/rie/ignore/implementation.go,
-- `globExpression`).
use mathlib.Core.Bool.{false≢true}
use software_engineering_pla.Shared.{
  ℕ, ◌≡◌, refl, sym, ap, subst, ◌∙◌, inl, inr, Bool, true, false, List, [], ◌∷◌, ◌++◌, Option, none,
  some, ==_iff, arith, drop, Bool-cases,
}
use software_engineering_pla.Die.Text.{Text, has_prefix}
use software_engineering_pla.Die.Path.{slash}
use software_engineering_pla.Rie.Glob.{
  Piece, any_folders, any_text, any_segment, any_character, literal, prepend, glob_pieces, star,
  at_slash, in_line, in_segment, match_pieces,
}
use software_engineering_pla.Rie.Glob.Meaning.{
  plain, Glob, at_end, no_folders, folders, anything, in_name, one_of_name, itself, star-Every,
  star_inv,
}

pub prepend_inv :
    (x : Piece) (o : Option (List Piece)) (ps : List Piece)
    → prepend x o ≡ some ps
    → (qs : List Piece) × (o ≡ some qs) × (ps ≡ x ∷ qs)
prepend_inv x none ps e = absurd (ground (arith, e))
prepend_inv x (some qs) ps e = (qs, refl, ground (arith, e))

-- what the rest of the pattern has to match, for the piece in front
abbrev Rest : Piece → Text → List ℕ → Type 0
Rest x p s = (qs : List Piece) → glob_pieces 0 p ≡ some qs → match_pieces (x ∷ qs) s ≡ true

front_matches :
    (x : Piece) (p : Text) (s : List ℕ) (ps : List Piece)
    → Rest x p s
    → prepend x (glob_pieces 0 p) ≡ some ps
    → match_pieces ps s ≡ true
front_matches x p s ps h e =
    let (qs, o, q) = prepend_inv x (glob_pieces 0 p) ps e in
    subst (λ v. match_pieces v s ≡ true) (sym q) (h qs o)

glob_pieces-plain :
    (c : ℕ) (p : Text)
    → plain c ≡ true
    → glob_pieces 0 (c ∷ p) ≡ prepend (literal c) (glob_pieces 0 p)
unfolding glob_pieces
glob_pieces-plain c p h = ground (arith, h)

pub Glob-matches :
    {p : Text} {s : List ℕ} (g : Glob p s) (ps : List Piece)
    → glob_pieces 0 p ≡ some ps
    → match_pieces ps s ≡ true
unfolding glob_pieces match_pieces star
Glob-matches at_end ps e = ground (arith, e)
Glob-matches {s} (no_folders {p} g) ps e =
    front_matches any_folders p s ps (λ qs o. rw (Glob-matches g qs o) refl) e
Glob-matches (folders {p} {s} d h g) ps e =
    front_matches any_folders p _ ps
      (λ qs o. ground (
        arith,
        star-Every in_line (at_slash (match_pieces qs)) d (slash ∷ s) h (Glob-matches g qs o),
      ))
      e
Glob-matches (anything {p} {s} d n h g) ps e =
    front_matches any_text p _ ps
      (λ qs o. star-Every in_line (match_pieces qs) d s h (Glob-matches g qs o)) (rw n at e)
Glob-matches (in_name {p} {s} d n h g) ps e =
    front_matches any_segment p _ ps
      (λ qs o. star-Every in_segment (match_pieces qs) d s h (Glob-matches g qs o)) (rw n at e)
Glob-matches (one_of_name {p} {s} {c} h g) ps e =
    front_matches any_character p _ ps (λ qs o. rw h (Glob-matches g qs o)) e
Glob-matches (itself {p} {s} {c} h g) ps e =
    front_matches (literal c) p _ ps (λ qs o. ground (arith, Glob-matches g qs o))
      (sym (glob_pieces-plain c p h) ∙ e)

pub head_of : (c : ℕ) (p : Text) → has_prefix p (c ∷ []) ≡ true → p ≡ c ∷ drop 1 p
head_of c [] h = absurd (false≢true h)
head_of c (x ∷ p) h = ground (arith, h)

pub two_of : (a c : ℕ) (p : Text) → has_prefix p (a ∷ c ∷ []) ≡ true → p ≡ a ∷ c ∷ drop 2 p
two_of a c [] h = absurd (false≢true h)
two_of a c (x ∷ []) h = ground (arith, h)
two_of a c (x ∷ y ∷ p) h = ground (arith, h)

pub at_slash_inv :
    (k : List ℕ → Bool) (t : List ℕ)
    → at_slash k t ≡ true
    → (u : List ℕ) × (t ≡ slash ∷ u) × (k u ≡ true)
at_slash_inv k [] e = absurd (false≢true e)
at_slash_inv k (c ∷ t) e =
    (t, ap (λ x. x ∷ t) ((==_iff c slash).0 (ground (arith, e))), ground (arith, e))

-- where the rest of a pattern is sound, the pattern with a piece in front is
module _ (p : Text) (s : List ℕ) (qs : List Piece) where
  abbrev pub IsSound : Text → Type 0
  IsSound q = (t : List ℕ) → match_pieces qs t ≡ true → Glob q t

  pub folders_sound :
      IsSound p → match_pieces (any_folders ∷ qs) s ≡ true → Glob (b'*' ∷ b'*' ∷ b'/' ∷ p) s
  unfolding match_pieces
  folders_sound h e = elim (Bool-cases (match_pieces qs s)) [
    | inl m ↦ no_folders (h s m)
    | inr m ↦
        let (d, t, q, all, k) = star_inv in_line (at_slash (match_pieces qs)) s (rw m at e) in
        let (u, r, n) = at_slash_inv (match_pieces qs) t k in
        subst (Glob _) (sym (q ∙ ap (λ x. d ++ x) r)) (folders d all (h u n))
  ]

  pub anything_sound :
      IsSound p
      → has_prefix p (b'/' ∷ []) ≡ false
      → match_pieces (any_text ∷ qs) s ≡ true
      → Glob (b'*' ∷ b'*' ∷ p) s
  unfolding match_pieces
  anything_sound h n e =
      let (d, t, q, all, k) = star_inv in_line (match_pieces qs) s e in
      subst (Glob _) (sym q) (anything d n all (h t k))

  pub in_name_sound :
      IsSound p
      → has_prefix p (b'*' ∷ []) ≡ false
      → match_pieces (any_segment ∷ qs) s ≡ true
      → Glob (b'*' ∷ p) s
  unfolding match_pieces
  in_name_sound h n e =
      let (d, t, q, all, k) = star_inv in_segment (match_pieces qs) s e in
      subst (Glob _) (sym q) (in_name d n all (h t k))

pub one_sound :
    (p : Text) (s : List ℕ) (qs : List Piece)
    → ((t : List ℕ) → match_pieces qs t ≡ true → Glob p t)
    → match_pieces (any_character ∷ qs) s ≡ true
    → Glob (b'?' ∷ p) s
unfolding match_pieces
one_sound p [] qs h e = absurd (false≢true e)
one_sound p (c ∷ s) qs h e = one_of_name (ground (arith, e)) (h s (ground (arith, e)))

pub itself_sound :
    (c : ℕ) (p : Text) (s : List ℕ) (qs : List Piece)
    → plain c ≡ true
    → ((t : List ℕ) → match_pieces qs t ≡ true → Glob p t)
    → match_pieces (literal c ∷ qs) s ≡ true
    → Glob (c ∷ p) s
unfolding match_pieces
itself_sound c p [] qs n h e = absurd (false≢true e)
itself_sound c p (x ∷ s) qs n h e =
    subst (λ y. Glob (c ∷ p) (y ∷ s)) (sym ((==_iff x c).0 (ground (arith, e))))
      (itself n (h s (ground (arith, e))))
