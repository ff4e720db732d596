-- ===== src/Memory/Keys.antt =====
-- Keys with bars between their parts (backend/service/repository/conformance/implementation.go,
-- `repositoryKey`, `scanKey`, `artifactKey`).
use mathlib.Core.List.{append_assoc}
use software_engineering_pla.Shared.{◌≡◌, refl, sym, ap, ◌∙◌, false, [], ◌∷◌, ◌++◌, arith, ◌&&◌}
use software_engineering_pla.Die.Text.{Text, text_eq, contains_byte}
use software_engineering_pla.Memory.{bar, repository_key, memory_scan_key, artifact_key}

-- no bar in a part
abbrev pub NoBar : Text → Type 0
NoBar v = contains_byte b'|' v ≡ false

-- the parts before the first bar are compared, then what is behind it
pub text_eq-bar :
    (a b s t : Text)
    → NoBar a
    → NoBar b
    → text_eq (a ++ bar ++ s) (b ++ bar ++ t) ≡ text_eq a b && text_eq s t
text_eq-bar [] [] s t h k = refl
text_eq-bar [] (y ∷ b) s t h k = ground (arith, k)
text_eq-bar (x ∷ a) [] s t h k = ground (arith, h)
text_eq-bar (x ∷ a) (y ∷ b) s t h k = ground (arith, h, k, text_eq-bar a b s t)

pub repository_key-distinct :
    (a b s t : Text)
    → NoBar a
    → NoBar b
    → text_eq (repository_key a s) (repository_key b t) ≡ text_eq a b && text_eq s t
unfolding repository_key
repository_key-distinct a b s t h k = text_eq-bar a b s t h k

memory_scan_key_shape : (a s x : Text) → memory_scan_key a s x ≡ a ++ bar ++ (s ++ bar ++ x)
unfolding memory_scan_key repository_key
memory_scan_key_shape a s x =
    append_assoc (a ++ bar ++ s) bar x
    ∙ (append_assoc (a ++ bar) s (bar ++ x) ∙ ap (λ v. a ++ bar ++ v) (sym (append_assoc s bar x)))

pub memory_scan_key-distinct :
    (a b s t x y : Text)
    → NoBar a
    → NoBar b
    → NoBar s
    → NoBar t
    → text_eq (memory_scan_key a s x) (memory_scan_key b t y)
      ≡ text_eq a b && (text_eq s t && text_eq x y)
memory_scan_key-distinct a b s t x y h k i j = rw (memory_scan_key_shape a s x) (
    rw (memory_scan_key_shape b t y) (
      text_eq-bar a b (s ++ bar ++ x) (t ++ bar ++ y) h k
      ∙ ap (λ e. text_eq a b && e) (text_eq-bar s t x y i j)))

artifact_key_shape :
    (a s x w : Text) → artifact_key a s x w ≡ a ++ bar ++ (s ++ bar ++ (x ++ bar ++ w))
unfolding artifact_key
artifact_key_shape a s x w =
    ap (λ v. v ++ bar ++ w) (memory_scan_key_shape a s x)
    ∙ (append_assoc (a ++ bar ++ (s ++ bar ++ x)) bar w
        ∙ (append_assoc (a ++ bar) (s ++ bar ++ x) (bar ++ w)
            ∙ ap (λ v. a ++ bar ++ v)
                (append_assoc (s ++ bar) x (bar ++ w)
                  ∙ ap (λ v. s ++ bar ++ v) (sym (append_assoc x bar w)))))

pub artifact_key-distinct :
    (a b s t x y w z : Text)
    → NoBar a
    → NoBar b
    → NoBar s
    → NoBar t
    → NoBar x
    → NoBar y
    → text_eq (artifact_key a s x w) (artifact_key b t y z)
      ≡ text_eq a b && (text_eq s t && (text_eq x y && text_eq w z))
artifact_key-distinct a b s t x y w z h k i j m n = rw (artifact_key_shape a s x w) (
    rw (artifact_key_shape b t y z) (
      text_eq-bar a b (s ++ bar ++ (x ++ bar ++ w)) (t ++ bar ++ (y ++ bar ++ z)) h k
      ∙ ap (λ e. text_eq a b && e)
          (text_eq-bar s t (x ++ bar ++ w) (y ++ bar ++ z) i j
            ∙ ap (λ e. text_eq s t && e) (text_eq-bar x y w z m n))))
