-- ===== src/Rie/Rules/Ancestors.antt =====
-- The folders above a path (backend/rie/ignore/implementation.go, `ruleMatchesTarget`).
--
-- A path is given by the names on it, the last one first, as the stack that `path.Clean` builds.
use mathlib.Core.Bool.{false≢true}
use mathlib.Core.List.{append_assoc, append-nil}
use software_engineering_pla.Shared.{
  ◌≡◌, refl, sym, ap, ◌∙◌, inl, inr, true, false, List, [], ◌∷◌, ◌++◌, arith, All, Bool-cases, ◌==◌,
}
use software_engineering_pla.Die.Text.{Text, is_empty, contains_byte, has_prefix}
use software_engineering_pla.Die.Path.{
  slash, dot, split_from, clean_segments, join_onto, join_stack, clean,
}
use software_engineering_pla.Die.Path.Canonical.{IsName, joined}
use software_engineering_pla.Rie.Rules.{dir_part, dir}

join_onto-append : (kept : List Text) (a b : Text) → join_onto kept (a ++ b) ≡ join_onto kept a ++ b
join_onto-append [] a b = refl
join_onto-append (s ∷ kept) a b =
    ap (join_onto kept) (sym (append_assoc s (slash ∷ a) b))
    ∙ join_onto-append kept (s ++ slash ∷ a) b

-- a name below a path with names
pub joined-below :
    (s t : Text) (kept : List Text) → joined (s ∷ t ∷ kept) ≡ joined (t ∷ kept) ++ slash ∷ s
joined-below s t kept = join_onto-append kept t (slash ∷ s)

dir_part-NoSlash : (s : Text) → contains_byte slash s ≡ false → dir_part s ≡ []
unfolding dir_part
dir_part-NoSlash [] h = refl
dir_part-NoSlash (c ∷ s) h = rw h refl

contains_slash : (v s : Text) → contains_byte slash (v ++ slash ∷ s) ≡ true
contains_slash [] s = refl
contains_slash (c ∷ v) s = rw (contains_slash v s) (ground arith)

dir_part-below :
    (v s : Text) → contains_byte slash s ≡ false → dir_part (v ++ slash ∷ s) ≡ v ++ slash ∷ []
unfolding dir_part
dir_part-below [] s h = rw (dir_part-NoSlash s h) refl
dir_part-below (c ∷ v) s h = rw (contains_slash (c ∷ v) s) (ap (λ w. c ∷ w) (dir_part-below v s h))

split_from-below :
    (seen v w : Text) → split_from seen (v ++ slash ∷ w) ≡ split_from seen v ++ split_from [] w
unfolding split_from
split_from-below seen [] w = refl
split_from-below seen (c ∷ v) w = elim (Bool-cases (c == slash)) [
  | inl e ↦ rw e (ap (λ r. seen ∷ r) (split_from-below [] v w))
  | inr e ↦ rw e (split_from-below (seen ++ c ∷ []) v w)
]

split_from-name :
    (seen s : Text) → contains_byte slash s ≡ false → split_from seen s ≡ (seen ++ s) ∷ []
unfolding split_from
split_from-name seen [] h = ap (λ v. v ∷ []) (sym (append-nil seen))
split_from-name seen (c ∷ s) h =
    let n : (c == slash) ≡ false = ground (arith, h) in
    rw n (
      split_from-name (seen ++ c ∷ []) s (ground (arith, h))
      ∙ ap (λ v. v ∷ []) (append_assoc seen (c ∷ []) s))

clean_segments-append :
    (front back kept : List Text)
    → clean_segments kept (front ++ back) ≡ clean_segments (clean_segments kept front) back
unfolding clean_segments
clean_segments-append [] back kept = refl
clean_segments-append (a ∷ front) back kept = clean_segments-append front back _

clean_segments-name :
    (s : Text) (kept : List Text) → IsName s → clean_segments kept (s ∷ []) ≡ s ∷ kept
unfolding clean_segments
clean_segments-name s kept n = rw n.not_empty (rw n.not_dot (rw n.not_dot_dot refl))

-- cleaning a path with names takes back the names
segments-joined :
    (s : Text) (kept : List Text)
    → IsName s
    → All IsName kept
    → clean_segments [] (split_from [] (joined (s ∷ kept))) ≡ s ∷ kept
segments-joined s [] n h =
    ap (clean_segments []) (split_from-name [] s n.no_slash) ∙ clean_segments-name s [] n
segments-joined s (t ∷ kept) n (m, h) =
    ap (λ v. clean_segments [] (split_from [] v)) (joined-below s t kept)
    ∙ (ap (clean_segments []) (split_from-below [] (joined (t ∷ kept)) s)
        ∙ (clean_segments-append (split_from [] (joined (t ∷ kept))) (split_from [] s) []
            ∙ (ap (λ k. clean_segments k (split_from [] s)) (segments-joined t kept m h)
                ∙ (ap (clean_segments (t ∷ kept)) (split_from-name [] s n.no_slash)
                    ∙ clean_segments-name s (t ∷ kept) n))))

has_prefix-append :
    (v w : Text) → is_empty v ≡ false → has_prefix (v ++ w) (slash ∷ []) ≡ has_prefix v (slash ∷ [])
has_prefix-append [] w h = absurd (false≢true (sym h))
has_prefix-append (c ∷ v) w h = ground arith

name_front : (s : Text) → IsName s → has_prefix s (slash ∷ []) ≡ false
name_front [] n = refl
name_front (c ∷ s) n = let h = n.no_slash in ground (arith, h)

append-not_empty : (v w : Text) → is_empty v ≡ false → is_empty (v ++ w) ≡ false
append-not_empty [] w h = absurd (false≢true (sym h))
append-not_empty (c ∷ v) w h = refl

pub joined-not_empty :
    (s : Text) (kept : List Text)
    → IsName s
    → All IsName kept
    → is_empty (joined (s ∷ kept)) ≡ false
joined-not_empty s [] n h = n.not_empty
joined-not_empty s (t ∷ kept) n (m, h) =
    ap is_empty (joined-below s t kept)
    ∙ append-not_empty (joined (t ∷ kept)) (slash ∷ s) (joined-not_empty t kept m h)

-- a path with names does not begin at the root
joined-relative :
    (s : Text) (kept : List Text)
    → IsName s
    → All IsName kept
    → has_prefix (joined (s ∷ kept)) (slash ∷ []) ≡ false
joined-relative s [] n h = name_front s n
joined-relative s (t ∷ kept) n (m, h) =
    ap (λ v. has_prefix v (slash ∷ [])) (joined-below s t kept)
    ∙ (has_prefix-append (joined (t ∷ kept)) (slash ∷ s) (joined-not_empty t kept m h)
        ∙ joined-relative t kept m h)

pub dir-top : (s : Text) → IsName s → dir s ≡ dot
unfolding dir dir_part clean split_from clean_segments
dir-top s n = rw (dir_part-NoSlash s n.no_slash) refl

-- the parent of a name below a path is the path
pub dir-below :
    (s t : Text) (kept : List Text)
    → IsName s
    → IsName t
    → All IsName kept
    → dir (joined (s ∷ t ∷ kept)) ≡ joined (t ∷ kept)
unfolding dir clean split_from clean_segments
dir-below s t kept n m h =
    let v = joined (t ∷ kept) in
    let part : dir_part (joined (s ∷ t ∷ kept)) ≡ v ++ slash ∷ [] =
      ap dir_part (joined-below s t kept) ∙ dir_part-below v s n.no_slash in
    let relative : has_prefix (v ++ slash ∷ []) (slash ∷ []) ≡ false =
      has_prefix-append v (slash ∷ []) (joined-not_empty t kept m h) ∙ joined-relative t kept m h in
    rw part (
      rw relative (
        ap join_stack (
          ap (clean_segments []) (split_from-below [] v [])
          ∙ (clean_segments-append (split_from [] v) ([] ∷ []) []
              ∙ ap (λ k. clean_segments k ([] ∷ [])) (segments-joined t kept m h)))))
