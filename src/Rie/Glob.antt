-- ===== src/Rie/Glob.antt =====
-- The patterns of ignore rules (backend/rie/ignore/implementation.go, `globExpression`), with what
-- the package regexp makes of the expressions that the code writes.
--
-- An expression is its anchor and the pieces that the loop appends. Matching is over code points;
-- a byte of the pattern is quoted as the code point of that value. An expression of these pieces
-- always compiles.
pub mod Meaning
pub mod Correct
pub mod Decides
pub mod Equivalence
use software_engineering_pla.Shared.{
  ℕ, zero, suc, Bool, true, false, not, ◌&&◌, ◌||◌, List, [], ◌∷◌, Option, none, some, ◌==◌,
  if◌then◌else◌,
}
use software_engineering_pla.Die.Text.{Text, text, is_empty, contains_byte, has_prefix}
use software_engineering_pla.Die.Path.{slash}

-- `(?:.*/)?`, `.*`, `[^/]*`, `[^/]`, and a quoted code point
pub data Piece : Type 0 where
  any_folders any_text any_segment any_character : Piece
  literal : ℕ → Piece

-- `^` or `(?:^|/)`, the pieces, and `$`
pub record Expression : Type 0 where
  pub from_start : Bool
  pub pieces : List Piece

abbrev pub prepend : Piece → Option (List Piece) → Option (List Piece)
prepend piece none = none
prepend piece (some ps) = some (piece ∷ ps)

-- the loop, which steps over the bytes that `i` was moved past; `none` is the error
unfoldable pub glob_pieces : ℕ → Text → Option (List Piece)
glob_pieces k [] = some []
glob_pieces (suc k) (c ∷ p) = glob_pieces k p
glob_pieces zero (c ∷ p) =
    let next = glob_pieces 0 p in
    let past_star = glob_pieces 1 p in
    let past_slash = glob_pieces 2 p in
    if c == b'*'
    then if has_prefix p (text "*")
      then if has_prefix p (text "*/")
        then prepend any_folders past_slash
        else prepend any_text past_star
      else prepend any_segment next
    else if c == b'?'
    then prepend any_character next
    else if c == b'['
    then none
    else prepend (literal c) next

abbrev expression_of : Bool → Option (List Piece) → Option Expression
expression_of rooted none = none
expression_of rooted (some ps) = some (record { from_start = rooted; pieces = ps })

unfoldable pub glob_expression : Text → Bool → Option Expression
unfolding glob_pieces
glob_expression p anchored = expression_of (anchored || contains_byte slash p) (glob_pieces 0 p)

-- any number of code points that pass, then the rest
unfoldable pub star : (ℕ → Bool) → (List ℕ → Bool) → List ℕ → Bool
star ok k [] = k []
star ok k (c ∷ s) = k (c ∷ s) || (ok c && star ok k s)

abbrev pub at_slash : (List ℕ → Bool) → List ℕ → Bool
at_slash k [] = false
at_slash k (c ∷ s) = c == slash && k s

-- what `.` does not match is a line feed
abbrev pub in_line : ℕ → Bool
in_line c = not (c == 10)

abbrev pub in_segment : ℕ → Bool
in_segment c = not (c == slash)

unfoldable pub match_pieces : List Piece → List ℕ → Bool
unfolding star
match_pieces [] s = is_empty s
match_pieces (any_folders ∷ ps) s = match_pieces ps s || star in_line (at_slash (match_pieces ps)) s
match_pieces (any_text ∷ ps) s = star in_line (match_pieces ps) s
match_pieces (any_segment ∷ ps) s = star in_segment (match_pieces ps) s
match_pieces (any_character ∷ ps) [] = false
match_pieces (any_character ∷ ps) (c ∷ s) = in_segment c && match_pieces ps s
match_pieces (literal x ∷ ps) [] = false
match_pieces (literal x ∷ ps) (c ∷ s) = c == x && match_pieces ps s

-- after any slash
unfoldable pub after_slash : (List ℕ → Bool) → List ℕ → Bool
after_slash k [] = false
after_slash k (c ∷ s) = at_slash k (c ∷ s) || after_slash k s

-- `MatchString`
unfoldable pub match_string : Expression → List ℕ → Bool
unfolding match_pieces after_slash
match_string e s =
    match_pieces e.pieces s || (not e.from_start && after_slash (match_pieces e.pieces) s)
