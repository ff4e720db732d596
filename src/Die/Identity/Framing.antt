-- ===== src/Die/Identity/Framing.antt =====
-- The framing of the parts that `stableID` hashes (backend/die/implementation.go), read backwards.
use Prim.Native.String.{String}
use mathlib.Core.Bool.{false≢true}
use software_engineering_pla.Shared.{
  ℕ, ◌/◌, ◌%◌, ◌^◌, ◌<◌, ◌≡◌, ◌≢◌, refl, sym, ◌∙◌, ap, ◌⊎◌, inl, inr, List, [], ◌∷◌, ◌++◌, arith,
  length, All, Bool-cases,
}
use software_engineering_pla.Die.Text.{Text, text, text_eq}
use software_engineering_pla.Die.Text.Order.{text_eq_sound, text_eq_refl}
use software_engineering_pla.Die.Identity.{big_endian_64, frame, stable_id}

pub cons_injective : (x y : ℕ) (xs ys : Text) → x ∷ xs ≡ y ∷ ys → (x ≡ y) × (xs ≡ ys)
cons_injective x y xs ys e = (cc, cc)

-- texts of one length before others
pub append_injective : (a b c d : Text) → length a ≡ length b → a ++ c ≡ b ++ d → (a ≡ b) × (c ≡ d)
append_injective [] [] c d n e = (refl, e)
append_injective [] (y ∷ b) c d n e = absurd (omega (arith, n))
append_injective (x ∷ a) [] c d n e = absurd (omega (arith, n))
append_injective (x ∷ a) (y ∷ b) c d n e =
    let (h, t) = cons_injective x y (a ++ c) (b ++ d) e in
    let (p, q) = append_injective a b c d (omega arith) t in (cc, q)

pub join_byte : (a b : ℕ) → a % 256 ≡ b % 256 → a / 256 ≡ b / 256 → a ≡ b
join_byte a b h k = omega arith

big_endian_64_injective :
    (n m : ℕ) → n < 2 ^ 64 → m < 2 ^ 64 → big_endian_64 n ≡ big_endian_64 m → n ≡ m
big_endian_64_injective n m p q e =
    let (e7, r7) = cons_injective _ _ _ _ e in
    let (e6, r6) = cons_injective _ _ _ _ r7 in
    let (e5, r5) = cons_injective _ _ _ _ r6 in
    let (e4, r4) = cons_injective _ _ _ _ r5 in
    let (e3, r3) = cons_injective _ _ _ _ r4 in
    let (e2, r2) = cons_injective _ _ _ _ r3 in
    let (e1, r1) = cons_injective _ _ _ _ r2 in
    let (e0, _) = cons_injective _ _ _ _ r1 in
    let k7 : n / 2 ^ 56 ≡ m / 2 ^ 56 = omega (arith, e7, p, q) in
    let k6 : n / 2 ^ 48 ≡ m / 2 ^ 48 = join_byte (n / 2 ^ 48) (m / 2 ^ 48) e6 (omega (arith, k7)) in
    let k5 : n / 2 ^ 40 ≡ m / 2 ^ 40 = join_byte (n / 2 ^ 40) (m / 2 ^ 40) e5 (omega (arith, k6)) in
    let k4 : n / 2 ^ 32 ≡ m / 2 ^ 32 = join_byte (n / 2 ^ 32) (m / 2 ^ 32) e4 (omega (arith, k5)) in
    let k3 : n / 2 ^ 24 ≡ m / 2 ^ 24 = join_byte (n / 2 ^ 24) (m / 2 ^ 24) e3 (omega (arith, k4)) in
    let k2 : n / 2 ^ 16 ≡ m / 2 ^ 16 = join_byte (n / 2 ^ 16) (m / 2 ^ 16) e2 (omega (arith, k3)) in
    let k1 : n / 2 ^ 8 ≡ m / 2 ^ 8 = join_byte (n / 2 ^ 8) (m / 2 ^ 8) e1 (omega (arith, k2)) in
    join_byte n m e0 k1

-- what Go's lengths are
abbrev pub Fits : Text → Type 0
Fits v = length v < 2 ^ 64

frame_injective : (xs ys : List Text) → All Fits xs → All Fits ys → frame xs ≡ frame ys → xs ≡ ys
unfolding frame
frame_injective [] [] p q e = refl
frame_injective [] (y ∷ ys) p q e = cc
frame_injective (x ∷ xs) [] p q e = cc
frame_injective (x ∷ xs) (y ∷ ys) p q e =
    let (h, t) =
      append_injective (big_endian_64 (length x)) (big_endian_64 (length y)) (x ++ frame xs)
        (y ++ frame ys) refl e in
    let (f, r) =
      append_injective x y (frame xs) (frame ys)
        (big_endian_64_injective (length x) (length y) p.0 q.0 h) t in
    let g = frame_injective xs ys p.1 q.1 r in cc

pub prefix_injective : (p a b : Text) → p ++ a ≡ p ++ b → a ≡ b
prefix_injective [] a b e = e
prefix_injective (x ∷ p) a b e = prefix_injective p a b (cons_injective x x (p ++ a) (p ++ b) e).1

abbrev pub Collision : (Text → Text) → Type 0
Collision sha256_hex = (a : Text) × (b : Text) × (a ≢ b) × (sha256_hex a ≡ sha256_hex b)

-- Two stable identifiers of one domain whose parts have 64-bit lengths are equal only if the parts are
-- equal one by one, or if they show two different texts with one hash.
pub stable_id_distinct :
    (sha256_hex : Text → Text) (domain : String) (xs ys : List Text)
    → All Fits (text domain ∷ xs)
    → All Fits ys
    → stable_id sha256_hex domain xs ≡ stable_id sha256_hex domain ys
    → (xs ≡ ys) ⊎ Collision sha256_hex
unfolding stable_id
stable_id_distinct sha256_hex domain xs ys p q e =
    let h = prefix_injective (text ":sha256:") _ _ (prefix_injective (text domain) _ _ e) in
    let a = frame (text domain ∷ xs) in
    let b = frame (text domain ∷ ys) in
    elim (Bool-cases (text_eq a b)) [
      | inl same ↦
          let g =
            frame_injective (text domain ∷ xs) (text domain ∷ ys) p (p.0, q)
              (text_eq_sound a b same) in
          inl (cc)
      | inr other ↦ inr (
        a,
        b,
        (λ f. absurd (false≢true (sym other ∙ ap (text_eq a) (sym f) ∙ text_eq_refl a))),
        h,
      )
    ]
