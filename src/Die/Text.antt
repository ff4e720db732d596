-- ===== src/Die/Text.antt =====
-- Go strings as lists of bytes, with the order of `<`, and the sorting and removal of duplicates
-- that backend/die applies to them.
--
-- `sort.Slice` promises a sorted permutation and no order among ties; `sort_by` is insertion sort.
pub mod Order
pub mod Maps
use Prim.Native.Char.{code}
use Prim.Native.String.{String}
use software_engineering_pla.Shared.{
  ℕ, ◌+◌, ◌/◌, ◌%◌, ◌-◌, zero, suc, Bool, true, false, not, ◌&&◌, ◌||◌, List, [], ◌∷◌, ◌++◌, Option,
  none, some, ltb, leb, ◌==◌, if◌then◌else◌, length,
}

abbrev pub Text : Type 0
Text = List ℕ

-- an ASCII literal
abbrev pub text : String → Text
text String.[] = []
text (String.◌∷◌ c s) = code c ∷ text s

abbrev pub text_eq : Text → Text → Bool
text_eq [] [] = true
text_eq [] (y ∷ ys) = false
text_eq (x ∷ xs) [] = false
text_eq (x ∷ xs) (y ∷ ys) = x == y && text_eq xs ys

-- bytewise lexicographic order
abbrev pub text_lt : Text → Text → Bool
text_lt [] [] = false
text_lt [] (y ∷ ys) = true
text_lt (x ∷ xs) [] = false
text_lt (x ∷ xs) (y ∷ ys) = ltb x y || (x == y && text_lt xs ys)

abbrev pub is_empty : Text → Bool
is_empty [] = true
is_empty (_ ∷ _) = false

abbrev pub contains_byte : ℕ → Text → Bool
contains_byte c [] = false
contains_byte c (x ∷ xs) = x == c || contains_byte c xs

abbrev pub has_prefix : Text → Text → Bool
has_prefix xs [] = true
has_prefix [] (p ∷ ps) = false
has_prefix (x ∷ xs) (p ∷ ps) = x == p && has_prefix xs ps

-- `safeText`: no NUL, carriage return or line feed
unfoldable pub safe_text : Text → Bool
safe_text v = not (contains_byte 0 v) && not (contains_byte 13 v || contains_byte 10 v)

abbrev is_digit : ℕ → Bool
is_digit c = leb b'0' c && leb c b'9'

abbrev is_lower_hex : ℕ → Bool
is_lower_hex c = is_digit c || (leb b'a' c && leb c b'f')

abbrev is_hex : ℕ → Bool
is_hex c = is_lower_hex c || (leb b'A' c && leb c b'F')

abbrev to_lower : ℕ → ℕ
to_lower c = if leb b'A' c && leb c b'Z' then c + 32 else c

abbrev all_hex : Text → Bool
all_hex [] = true
all_hex (c ∷ v) = is_hex c && all_hex v

abbrev lower : Text → Text
lower [] = []
lower (c ∷ v) = to_lower c ∷ lower v

-- `validDigest`: 64 characters that `hex.DecodeString` takes, in lower case
unfoldable pub valid_digest : Text → Bool
valid_digest v = length v == 64 && (all_hex v && text_eq v (lower v))

-- `%d` of a number that is not negative, with a digit for each unit of fuel at most
abbrev pub digits : ℕ → ℕ → Text
digits zero n = []
digits (suc fuel) n =
    let rest = digits fuel (n / 10) in
    let last = (b'0' + n % 10) ∷ [] in if ltb n 10 then last else rest ++ last

abbrev zeros : ℕ → Text
zeros zero = []
zeros (suc k) = b'0' ∷ zeros k

-- `%010d`, for the range of Go's int, which has 19 digits at most
unfoldable pub padded : ℕ → Text
padded n = let d = digits 20 n in zeros (10 - length d) ++ d

module _ {ℓ} {A : Type ℓ} where
  abbrev pub insert_by : (A → A → Bool) → A → List A → List A
  insert_by less a [] = a ∷ []
  insert_by less a (x ∷ xs) = if less x a then x ∷ insert_by less a xs else a ∷ x ∷ xs

  abbrev pub sort_by : (A → A → Bool) → List A → List A
  sort_by less [] = []
  sort_by less (x ∷ xs) = insert_by less x (sort_by less xs)

  -- `dedupe`: of neighbours with one key the first stays
  abbrev pub dedupe_after : (A → Text) → Text → List A → List A
  dedupe_after key last [] = []
  dedupe_after key last (x ∷ xs) =
      let rest = dedupe_after key (key x) xs in
      let same = dedupe_after key last xs in if text_eq (key x) last then same else x ∷ rest

  unfoldable pub dedupe : (A → Text) → List A → List A
  dedupe key [] = []
  dedupe key (x ∷ xs) = x ∷ dedupe_after key (key x) xs

module _ {ℓ} {V : Type ℓ} where
  -- a Go map keyed by text: keys in the order of first insertion
  abbrev pub lookup : Text → List (Text × V) → Option V
  lookup k [] = none
  lookup k ((j, v) ∷ m) = if text_eq j k then some v else lookup k m

  abbrev pub insert : Text → V → List (Text × V) → List (Text × V)
  insert k v [] = (k, v) ∷ []
  insert k v ((j, w) ∷ m) = if text_eq j k then (j, v) ∷ m else (j, w) ∷ insert k v m

  abbrev pub values : List (Text × V) → List V
  values [] = []
  values ((_, v) ∷ m) = v ∷ values m
