-- ===== src/Memory/Paging/Decimal.antt =====
-- Cursors are numbers in decimal, and are read back (backend/service/repository/conformance/implementation.go,
-- `pageStart`, `nextCursor`).
use mathlib.Core.Bool.{false≢true}
use software_engineering_pla.Shared.{
  ℕ, zero, suc, ◌+◌, ◌-◌, ◌*◌, ◌/◌, ◌%◌, ◌≤◌, ◌<◌, ◌≡◌, refl, ap, ◌∙◌, ◌⊎◌, inl, inr, Bool, true,
  false, [], ◌∷◌, ◌++◌, none, some, ltb, leb, ◌==◌, if◌then◌else◌, arith, Bool-cases, ltb→lt,
}
use software_engineering_pla.Die.Text.{Text, is_empty, digits}
use software_engineering_pla.Memory.Paging.{
  is_decimal, read_digits, as_int, signed, page_start, itoa, next_cursor,
}

read_digits-last :
    (a k c : ℕ) (v : Text)
    → read_digits a v ≡ some k
    → is_decimal c ≡ true
    → read_digits a (v ++ c ∷ []) ≡ some (k * 10 + (c - b'0'))
unfolding read_digits
read_digits-last a k c [] h d = ground (arith, h, d)
read_digits-last a k c (x ∷ v) h d = elim (Bool-cases (is_decimal x)) [
  | inl e ↦ rw e (read_digits-last (a * 10 + (x - b'0')) k c v (rw e at h) d)
  | inr e ↦ absurd (ground (arith, e, h))
]

-- one more than the largest number with so many digits
abbrev ceiling : ℕ → ℕ
ceiling zero = 1
ceiling (suc fuel) = 10 * ceiling fuel

last_digit : (n : ℕ) → is_decimal (b'0' + n % 10) ≡ true
last_digit n = ground arith

-- a text whose first byte is a digit
abbrev starts_decimal : Text → Bool
starts_decimal [] = false
starts_decimal (c ∷ v) = is_decimal c

starts_decimal-last :
    (v : Text) (c : ℕ)
    → is_decimal c ≡ true
    → (is_empty v ≡ true) ⊎ (starts_decimal v ≡ true)
    → starts_decimal (v ++ c ∷ []) ≡ true
starts_decimal-last [] c d h = d
starts_decimal-last (x ∷ v) c d (inl h) = absurd (false≢true h)
starts_decimal-last (x ∷ v) c d (inr h) = h

starts_or_empty :
    (fuel n : ℕ) → (is_empty (digits fuel n) ≡ true) ⊎ (starts_decimal (digits fuel n) ≡ true)
starts_or_empty zero n = inl refl
starts_or_empty (suc fuel) n = elim (Bool-cases (ltb n 10)) [
  | inl e ↦ inr (rw e (last_digit n))
  | inr e ↦ inr (
      rw e (
        starts_decimal-last (digits fuel (n / 10)) (b'0' + n % 10) (last_digit n)
          (starts_or_empty fuel (n / 10))))
]

digits_start : (fuel n : ℕ) → starts_decimal (digits (suc fuel) n) ≡ true
digits_start fuel n = elim (Bool-cases (ltb n 10)) [
  | inl e ↦ rw e (last_digit n)
  | inr e ↦ rw e (
      starts_decimal-last (digits fuel (n / 10)) (b'0' + n % 10) (last_digit n)
        (starts_or_empty fuel (n / 10)))
]

lt→ltb : (a b : ℕ) → a < b → ltb a b ≡ true
lt→ltb a b h = ground arith

pub leb→le : (a b : ℕ) → leb a b ≡ true → a ≤ b
leb→le a b h = ground arith

pub leb_false→lt : (a b : ℕ) → leb a b ≡ false → b < a
leb_false→lt a b h = ground arith

read_digits-digits :
    (fuel n : ℕ) → n < ceiling (suc fuel) → read_digits 0 (digits (suc fuel) n) ≡ some n
unfolding read_digits
read_digits-digits zero n h = rw (lt→ltb n 10 h) (rw (last_digit n) (ap some (omega arith)))
read_digits-digits (suc fuel) n h = elim (Bool-cases (ltb n 10)) [
  | inl e ↦ rw e (rw (last_digit n) (ap some (omega (arith, ltb→lt n 10 e))))
  | inr e ↦ rw e (
      read_digits-last 0 (n / 10) (b'0' + n % 10) (digits (suc fuel) (n / 10))
        (read_digits-digits fuel (n / 10) (omega arith)) (last_digit n)
      ∙ ap some (omega arith))
]

-- a text of digits has no sign
signed-plain :
    (v : Text) (n : ℕ)
    → starts_decimal v ≡ true
    → read_digits 0 v ≡ some n
    → n < 9223372036854775808
    → signed v ≡ some n
signed-plain [] n h r k = absurd (false≢true h)
signed-plain (c ∷ v) n h r k =
    let plus : (c == b'+') ≡ false = ground (arith, h) in
    let minus : (c == b'-') ≡ false = ground (arith, h) in
    rw plus (rw minus (ap as_int r ∙ ap (λ b. if b then some n else none) (lt→ltb n _ k)))

page_start-signed :
    (v : Text) (n all : ℕ)
    → starts_decimal v ≡ true
    → signed v ≡ some n
    → n ≤ all
    → page_start v all ≡ n
unfolding page_start
page_start-signed [] n all s h k = absurd (false≢true s)
page_start-signed (c ∷ v) n all s h k =
    ap (λ o. elim o [ none ↦ all | some n ↦ if ltb all n then all else n ]) h ∙ ground (arith, k)

-- a cursor that a page returns is where the next page starts
pub page_start-itoa :
    (n all : ℕ) → n ≤ all → all < 9223372036854775808 → page_start (itoa n) all ≡ n
unfolding itoa
page_start-itoa n all h k =
    page_start-signed (digits 20 n) n all (digits_start 19 n)
      (signed-plain (digits 20 n) n (digits_start 19 n) (read_digits-digits 19 n (omega arith))
        (omega arith))
      h

pub itoa_filled : (n : ℕ) → is_empty (itoa n) ≡ false
unfolding itoa
itoa_filled n = filled (digits 20 n) (digits_start 19 n)
  where
    filled : (v : Text) → starts_decimal v ≡ true → is_empty v ≡ false
    filled [] h = absurd (false≢true h)
    filled (c ∷ v) h = refl

pub next_cursor-last : (end all : ℕ) → leb all end ≡ true → next_cursor end all ≡ []
unfolding next_cursor
next_cursor-last end all h = ap (λ b. if b then [] else itoa end) h

pub next_cursor-itoa : (end all : ℕ) → leb all end ≡ false → next_cursor end all ≡ itoa end
unfolding next_cursor
next_cursor-itoa end all h = ap (λ b. if b then [] else itoa end) h
