-- ===== src/Rie/Glob/Equivalence.antt =====
-- Patterns without a bracket, and what the expressions made of them match
-- (backend/rie/ignore/implementation.go, `globExpression`).
use mathlib.Core.Bool.{false≢true}
use software_engineering_pla.Shared.{
  ℕ, zero, suc, ◌≡◌, refl, sym, subst, All, ltb, ap, inl, inr, ◌↔◌, Bool, true, false, ◌||◌, List,
  [], ◌∷◌, ◌++◌, Option, some, ◌==◌, arith, Bool-cases,
}
use software_engineering_pla.Die.Text.{Text, text, contains_byte, has_prefix}
use software_engineering_pla.Die.Path.{slash}
use software_engineering_pla.Rie.Glob.{
  Piece, any_folders, any_text, any_segment, any_character, literal, Expression, prepend,
  glob_pieces, glob_expression, at_slash, match_pieces, after_slash, match_string,
}
use software_engineering_pla.Rie.Glob.Meaning.{Covers}
use software_engineering_pla.Rie.Glob.Correct.{Glob-matches, at_slash_inv}
use software_engineering_pla.Rie.Glob.Decides.{pieces_sound}

prepend-some :
    (x : Piece) (o : Option (List Piece))
    → ((ps : List Piece) × (o ≡ some ps))
    → (ps : List Piece) × (prepend x o ≡ some ps)
prepend-some x o (ps, e) = (x ∷ ps, rw e refl)

pieces_compile :
    (k : ℕ) (p : Text)
    → contains_byte b'[' p ≡ false
    → (ps : List Piece) × (glob_pieces k p ≡ some ps)
unfolding glob_pieces
pieces_compile zero [] h = ([], refl)
pieces_compile (suc k) [] h = ([], refl)
pieces_compile (suc k) (c ∷ p) h = pieces_compile k p (ground (arith, h))
pieces_compile zero (c ∷ p) h =
    let n : contains_byte b'[' p ≡ false = ground (arith, h) in
    let plain : (c == b'[') ≡ false = ground (arith, h) in
    let next = λ (x : Piece). prepend-some x (glob_pieces 0 p) (pieces_compile 0 p n) in
    elim (Bool-cases (c == b'*')) [
      | inl e ↦ rw e (elim (Bool-cases (has_prefix p (text "*"))) [
        | inl e1 ↦ rw e1 (elim (Bool-cases (has_prefix p (text "*/"))) [
          | inl e2 ↦ rw e2 (prepend-some any_folders (glob_pieces 2 p) (pieces_compile 2 p n))
          | inr e2 ↦ rw e2 (prepend-some any_text (glob_pieces 1 p) (pieces_compile 1 p n))
        ])
        | inr e1 ↦ rw e1 (next any_segment)
      ])
      | inr e ↦ rw e (elim (Bool-cases (c == b'?')) [
        | inl e1 ↦ rw e1 (next any_character)
        | inr e1 ↦ rw e1 (rw plain (next (literal c)))
      ])
    ]

after_slash_inv :
    (k : List ℕ → Bool) (s : List ℕ)
    → after_slash k s ≡ true
    → (d : List ℕ) × (t : List ℕ) × (s ≡ d ++ slash ∷ t) × (k t ≡ true)
unfolding after_slash
after_slash_inv k [] e = absurd (false≢true e)
after_slash_inv k (c ∷ s) e = elim (Bool-cases (at_slash k (c ∷ s))) [
  | inl h ↦ let (t, q, m) = at_slash_inv k (c ∷ s) h in ([], t, q, m)
  | inr h ↦ let (d, t, q, m) = after_slash_inv k s (rw h at e) in (c ∷ d, t, ap (λ x. c ∷ x) q, m)
]

after_slash_of :
    (k : List ℕ → Bool) (d t : List ℕ) → k t ≡ true → after_slash k (d ++ slash ∷ t) ≡ true
unfolding after_slash
after_slash_of k [] t e = rw e refl
after_slash_of k (c ∷ d) t e = rw (after_slash_of k d t e) (ground arith)

-- a text of ASCII characters
abbrev pub IsAscii : Text → Type 0
IsAscii = All (λ c. ltb c 128 ≡ true)

-- the pattern as a list of its bytes
bytes-Covers :
    (p : Text) (anchored : Bool)
    → contains_byte b'[' p ≡ false
    → (e : Expression) × (glob_expression p anchored ≡ some e)
      × ((s : List ℕ) → (match_string e s ≡ true) ↔ Covers p (anchored || contains_byte slash p) s)
unfolding glob_expression match_string
bytes-Covers p anchored h =
    let (ps, o) = pieces_compile 0 p h in
    let rooted = anchored || contains_byte slash p in
    let e : Expression = record { from_start = rooted; pieces = ps } in
    (
      e,
      rw o refl,
      λ s. (
        λ m. elim (Bool-cases (match_pieces ps s)) [
          | inl w ↦ inl (pieces_sound 0 p ps o s w)
          | inr w ↦
              let a : after_slash (match_pieces ps) s ≡ true = ground (arith, m, w) in
              let r : rooted ≡ false = ground (arith, m, w) in
              let (d, t, q, n) = after_slash_inv (match_pieces ps) s a in
              inr (r, d, t, q, pieces_sound 0 p ps o t n)
        ],
        λ c. elim c [
          | inl g ↦ rw (Glob-matches g ps o) refl
          | inr (r, d, t, q, g) ↦
              let a = after_slash_of (match_pieces ps) d t (Glob-matches g ps o) in
              rw q (rw a (rw r (ground arith)))
        ],
      ),
    )

-- A pattern of ASCII characters without a bracket compiles, and the expression matches exactly the paths
-- that its characters cover: the whole path, or, where the pattern has no slash and is not anchored,
-- what follows some slash of the path. The path and the pattern are read as UTF-8, which takes ASCII as
-- it is.
pub glob_expression-Covers :
    (runes : Text → List ℕ) (p : Text) (anchored : Bool)
    → ((t : Text) → IsAscii t → runes t ≡ t)
    → IsAscii p
    → contains_byte b'[' p ≡ false
    → (e : Expression) × (glob_expression p anchored ≡ some e)
      × ((path : Text)
          → (match_string e (runes path) ≡ true)
            ↔ Covers (runes p) (anchored || contains_byte slash p) (runes path))
glob_expression-Covers runes p anchored reads ascii h =
    let (e, made, decides) = bytes-Covers p anchored h in
    (
      e,
      made,
      λ path.
          subst
            (λ q.
              (match_string e (runes path) ≡ true)
              ↔ Covers q (anchored || contains_byte slash p) (runes path))
            (sym (reads p ascii)) (decides (runes path)),
    )
