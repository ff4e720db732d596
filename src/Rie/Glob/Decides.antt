-- ===== src/Rie/Glob/Decides.antt =====
-- The compiled expression decides whether a pattern covers a path
-- (backend/rie/ignore/implementation.go, `globExpression`).
use mathlib.Core.Bool.{false≢true}
use software_engineering_pla.Shared.{
  ℕ, zero, suc, ◌≡◌, sym, subst, inl, inr, true, false, List, [], ◌∷◌, some, ◌==◌, ==_iff, arith,
  drop, Bool-cases,
}
use software_engineering_pla.Die.Text.{Text, text, has_prefix}
use software_engineering_pla.Rie.Glob.{
  Piece, any_folders, any_text, any_segment, any_character, literal, prepend, glob_pieces,
  match_pieces,
}
use software_engineering_pla.Rie.Glob.Meaning.{Glob, at_end}
use software_engineering_pla.Rie.Glob.Correct.{
  prepend_inv, head_of, two_of, folders_sound, anything_sound, in_name_sound, one_sound,
  itself_sound,
}

not_slash :
    (p : Text)
    → has_prefix p (text "*") ≡ true
    → has_prefix p (text "*/") ≡ false
    → has_prefix (drop 1 p) (b'/' ∷ []) ≡ false
not_slash [] h n = absurd (false≢true h)
not_slash (x ∷ p) h n = ground (arith, h, n)

-- the pieces behind the bytes that the first piece stands for
abbrev IsSoundPast : ℕ → Text → Type 0
IsSoundPast k p =
    (qs : List Piece)
    → glob_pieces k p ≡ some qs
    → (t : List ℕ) → match_pieces qs t ≡ true
    → Glob (drop k p) t

module _ (p : Text) (ps : List Piece) (s : List ℕ) (m : match_pieces ps s ≡ true) where
  by_piece :
      (x : Piece) (k : ℕ) (q : Text)
      → IsSoundPast k p
      → ((qs : List Piece)
          → ((t : List ℕ) → match_pieces qs t ≡ true → Glob (drop k p) t)
          → match_pieces (x ∷ qs) s ≡ true
          → Glob q s)
      → prepend x (glob_pieces k p) ≡ some ps
      → Glob q s
  by_piece x k q ih step e =
      let (qs, o, r) = prepend_inv x (glob_pieces k p) ps e in
      step qs (ih qs o) (subst (λ v. match_pieces v s ≡ true) r m)

  star_sound :
      IsSoundPast 0 p
      → IsSoundPast 1 p
      → IsSoundPast 2 p
      → glob_pieces 0 (b'*' ∷ p) ≡ some ps
      → Glob (b'*' ∷ p) s
  unfolding glob_pieces
  star_sound i0 i1 i2 e = elim (Bool-cases (has_prefix p (text "*"))) [
    | inl h ↦ elim (Bool-cases (has_prefix p (text "*/"))) [
      | inl n ↦
          subst (λ q. Glob (b'*' ∷ q) s) (sym (two_of b'*' b'/' p n))
            (by_piece any_folders 2 _ i2 (λ qs. folders_sound (drop 2 p) s qs)
              (ground (arith, e, h, n)))
      | inr n ↦
          subst (λ q. Glob (b'*' ∷ q) s) (sym (head_of b'*' p h))
            (by_piece any_text 1 _ i1 (λ qs f. anything_sound (drop 1 p) s qs f (not_slash p h n))
              (ground (arith, e, h, n)))
    ]
    | inr h ↦ by_piece any_segment 0 _ i0 (λ qs f. in_name_sound p s qs f h) (ground (arith, e, h))
  ]

  plain_sound :
      (c : ℕ)
      → (c == b'*') ≡ false
      → IsSoundPast 0 p
      → glob_pieces 0 (c ∷ p) ≡ some ps
      → Glob (c ∷ p) s
  unfolding glob_pieces
  plain_sound c n i0 e = elim (Bool-cases (c == b'?')) [
    | inl h ↦
        subst (λ x. Glob (x ∷ p) s) (sym ((==_iff c b'?').0 h))
          (by_piece any_character 0 _ i0 (one_sound p s) (ground (arith, e, n, h)))
    | inr h ↦ elim (Bool-cases (c == b'[')) [
      | inl o ↦ absurd (ground (arith, e, n, h, o))
      | inr o ↦
          by_piece (literal c) 0 _ i0 (λ qs. itself_sound c p s qs (ground (arith, n, h, o)))
            (ground (arith, e, n, h, o))
    ]
  ]

pub pieces_sound : (k : ℕ) (p : Text) → IsSoundPast k p
unfolding glob_pieces match_pieces
pieces_sound k [] [] e [] m = elim k as (λ k. Glob (drop k []) []) [
  | zero ↦ at_end
  | suc j ↦ at_end
]
pieces_sound k [] [] e (c ∷ s) m = absurd (false≢true m)
pieces_sound zero [] (x ∷ ps) e s m = absurd (ground (arith, e))
pieces_sound (suc k) [] (x ∷ ps) e s m = absurd (ground (arith, e))
pieces_sound (suc k) (c ∷ p) ps e s m = pieces_sound k p ps e s m
pieces_sound zero (c ∷ p) ps e s m = elim (Bool-cases (c == b'*')) [
  | inl h ↦
      let same = (==_iff c b'*').0 h in
      subst (λ x. Glob (x ∷ p) s) (sym same)
        (star_sound p ps s m (pieces_sound 0 p) (pieces_sound 1 p) (pieces_sound 2 p)
          (subst (λ x. glob_pieces 0 (x ∷ p) ≡ some ps) same e))
  | inr h ↦ plain_sound p ps s m c h (pieces_sound 0 p) e
]
