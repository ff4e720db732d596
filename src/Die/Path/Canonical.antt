-- ===== src/Die/Path/Canonical.antt =====
-- The shape of normalized repository paths (backend/die/implementation.go, `normalizePath`).
use software_engineering_pla.Shared.{
  ℕ, ◌≡◌, refl, sym, subst, ◌∙◌, ◌⊎◌, inl, inr, true, false, ◌||◌, List, [], ◌∷◌, ◌++◌, arith, All,
  Bool-cases, ◌==◌,
}
use software_engineering_pla.Die.Text.{Text, text_eq, is_empty, contains_byte, has_prefix}
use software_engineering_pla.Die.Model.{ok}
use software_engineering_pla.Die.Path.{
  slash, replace_backslashes, split_from, dot, dot_dot, pop, clean_segment, clean_segments,
  join_onto, join_stack, clean, normalize_path,
}

-- the name of a file or a directory
pub record IsName (s : Text) : Type 0 where
  pub not_empty : is_empty s ≡ false
  pub not_dot : text_eq s dot ≡ false
  pub not_dot_dot : text_eq s dot_dot ≡ false
  pub no_slash : contains_byte slash s ≡ false

-- names with slashes between them, the last name first
abbrev pub joined : List Text → Text
joined [] = []
joined (s ∷ kept) = join_onto kept s

abbrev NoSlash : Text → Type 0
NoSlash s = contains_byte slash s ≡ false

contains_byte-append :
    (c : ℕ) (xs ys : Text) → contains_byte c (xs ++ ys) ≡ contains_byte c xs || contains_byte c ys
contains_byte-append c [] ys = refl
contains_byte-append c (x ∷ xs) ys = ground (arith, contains_byte-append c xs ys)

split_from-NoSlash : (seen v : Text) → NoSlash seen → All NoSlash (split_from seen v)
unfolding split_from
split_from-NoSlash seen [] h = (h, tt)
split_from-NoSlash seen (c ∷ v) h = elim (Bool-cases (c == slash)) [
  | inl e ↦ rw e (h, split_from-NoSlash [] v refl)
  | inr e ↦ rw e (
      split_from-NoSlash (seen ++ c ∷ []) v
        (ground (arith, contains_byte-append slash seen (c ∷ []))))
]

abbrev AllDots : List Text → Type 0
AllDots kept = All (λ s. s ≡ dot_dot) kept

-- names above leading `..` segments
abbrev IsStack : List Text → Type 0
IsStack [] = Unit
IsStack (s ∷ kept) = (IsName s × IsStack kept) ⊎ ((s ≡ dot_dot) × AllDots kept)

all_dots : (kept : List Text) → AllDots kept → IsStack kept
all_dots [] h = tt
all_dots (s ∷ kept) h = inr h

text_eq_of : (s : Text) → s ≡ dot_dot → text_eq s dot_dot ≡ true
text_eq_of s e = subst (λ t. text_eq t dot_dot ≡ true) (sym e) refl

pop-IsStack : (kept : List Text) → IsStack kept → IsStack (pop kept)
pop-IsStack [] h = inr (refl, tt)
pop-IsStack (s ∷ kept) (inl (n, h)) = rw n.not_dot_dot h
pop-IsStack (s ∷ kept) (inr (e, h)) = rw (text_eq_of s e) (inr (refl, (e, h)))

clean_segment-IsStack :
    (kept : List Text) (s : Text) → NoSlash s → IsStack kept → IsStack (clean_segment kept s)
clean_segment-IsStack kept s n h = elim (Bool-cases (is_empty s)) [
  | inl a ↦ rw a h
  | inr a ↦ elim (Bool-cases (text_eq s dot)) [
    | inl b ↦ rw (a, b) h
    | inr b ↦ elim (Bool-cases (text_eq s dot_dot)) [
      | inl c ↦ rw (a, b, c) (pop-IsStack kept h)
      | inr c ↦
          rw (a, b, c)
            (inl (record { not_empty = a; not_dot = b; not_dot_dot = c; no_slash = n }, h))
    ]
  ]
]

clean_segments-IsStack :
    (kept segments : List Text)
    → All NoSlash segments
    → IsStack kept
    → IsStack (clean_segments kept segments)
unfolding clean_segments
clean_segments-IsStack kept [] n h = h
clean_segments-IsStack kept (s ∷ segments) n h =
    clean_segments-IsStack (clean_segment kept s) segments n.1 (clean_segment-IsStack kept s n.0 h)

abbrev up : Text
up = dot_dot ++ slash ∷ []

dots_escape :
    (kept : List Text) (out : Text)
    → AllDots kept
    → has_prefix out up ≡ true
    → has_prefix (join_onto kept out) up ≡ true
dots_escape [] out h p = p
dots_escape (s ∷ kept) out h p =
    dots_escape kept (s ++ slash ∷ out) h.1
      (subst (λ t. has_prefix (t ++ slash ∷ out) up ≡ true) (sym h.0) refl)

-- a stack is all names, or what it is joined to begins with `../`
names_or_up :
    (kept : List Text)
    → IsStack kept
    → All IsName kept ⊎ ((out : Text) → has_prefix (join_onto kept out) up ≡ true)
names_or_up [] h = inl tt
names_or_up (s ∷ kept) (inl (n, h)) = elim (names_or_up kept h) [
  | inl names ↦ inl (n, names)
  | inr f ↦ inr (λ out. f (s ++ slash ∷ out))
]
names_or_up (s ∷ kept) (inr (e, h)) = inr (λ out.
    dots_escape kept (s ++ slash ∷ out) h
      (subst (λ t. has_prefix (t ++ slash ∷ out) up ≡ true) (sym e) refl))

-- what the tests after `path.Clean` let through
stack_inside :
    (kept : List Text)
    → IsStack kept
    → text_eq (join_stack kept) dot ≡ false
    → (text_eq (join_stack kept) dot_dot || has_prefix (join_stack kept) up) ≡ false
    → All IsName kept × (join_stack kept ≡ joined kept)
stack_inside [] h d e = absurd (cc)
stack_inside (s ∷ kept) (inl (n, h)) d e = elim (names_or_up kept h) [
  | inl names ↦ ((n, names), refl)
  | inr f ↦ absurd (ground (arith, f s))
]
stack_inside (s ∷ []) (inr (q, h)) d e = absurd (ground (arith, text_eq_of s q))
stack_inside (s ∷ t ∷ kept) (inr (q, h)) d e = absurd (
    ground (
      arith,
      dots_escape kept (t ++ slash ∷ s) h.1
          (subst (λ x. has_prefix (x ++ slash ∷ s) up ≡ true) (sym h.0) refl),
    ))

-- the segments of a path on the stack
abbrev stack_of : Text → List Text
stack_of v = clean_segments [] (split_from [] (replace_backslashes v))

normalize_path_cases :
    (v c : Text)
    → normalize_path v ≡ ok c
    → (c ≡ [])
      ⊎ ((c ≡ join_stack (stack_of v))
          × (text_eq (join_stack (stack_of v)) dot ≡ false)
          × ((text_eq (join_stack (stack_of v)) dot_dot || has_prefix (join_stack (stack_of v)) up)
              ≡ false))
unfolding normalize_path clean
normalize_path_cases v c e = ground arith

-- A path that normalizes is empty, for the repository itself, or is made of names with single slashes
-- between them, none of which is empty, `.` or `..` or contains a slash.
pub normalize_path_inside :
    (v c : Text)
    → normalize_path v ≡ ok c
    → (kept : List Text) × All IsName kept × (c ≡ joined kept)
normalize_path_inside v c e = elim (normalize_path_cases v c e) [
  | inl empty ↦ ([], tt, empty)
  | inr (same, d, u) ↦
      let h =
        clean_segments-IsStack [] (split_from [] (replace_backslashes v))
          (split_from-NoSlash [] (replace_backslashes v) refl) tt in
      let (names, all) = stack_inside (stack_of v) h d u in (stack_of v, names, same ∙ all)
]
