-- ===== src/Memory/Paging.antt =====
-- Pages of the reference store (backend/service/repository/conformance/implementation.go, `pageStart`,
-- `nextCursor`, `pageRepositories`, `pageScans`, `pageArtifacts`).
--
-- A page size is at least 1 and at most the configured maximum, as the requests promise, so that its
-- sum with a start does not overflow. `strconv.Atoi` refuses what is not a decimal
-- number or does not fit an int of 64 bits; `strconv.Itoa` is `itoa`, with 20 units of fuel for the 19
-- digits that a length has at most.
pub mod Decimal
pub mod Resumes
use software_engineering_pla.Shared.{
  ℕ, zero, suc, ◌+◌, ◌-◌, ◌*◌, min, Bool, true, false, not, ◌&&◌, ◌||◌, List, [], ◌∷◌, ◌++◌, Option,
  none, some, ltb, leb, ◌==◌, if◌then◌else◌, length, take, drop,
}
use software_engineering_pla.Die.Text.{Text, is_empty, digits}

abbrev pub is_decimal : ℕ → Bool
is_decimal c = leb b'0' c && leb c b'9'

-- the number that digits spell behind those read
unfoldable pub read_digits : ℕ → Text → Option ℕ
read_digits n [] = some n
read_digits n (c ∷ v) = if is_decimal c then read_digits (n * 10 + (c - b'0')) v else none

abbrev pub as_int : Option ℕ → Option ℕ
as_int none = none
as_int (some n) = if ltb n 9223372036854775808 then some n else none

-- `Atoi` where it gives a number that is not negative; a minus sign gives `-0` at most
abbrev pub signed : Text → Option ℕ
signed [] = none
signed (c ∷ v) =
    if c == b'+'
    then (if is_empty v then none else as_int (read_digits 0 v))
    else if c == b'-'
    then (if is_empty v then none else elim (read_digits 0 v) [ some zero ↦ some 0 | _ ↦ none ])
    else as_int (read_digits 0 (c ∷ v))

-- `pageStart`
unfoldable pub page_start : Text → ℕ → ℕ
unfolding read_digits
page_start cursor size_of_all = if is_empty cursor then 0 else elim (signed cursor) [
  | none ↦ size_of_all
  | some n ↦ if ltb size_of_all n then size_of_all else n
]

-- `Itoa`
unfoldable pub itoa : ℕ → Text
itoa n = digits 20 n

-- `nextCursor`
unfoldable pub next_cursor : ℕ → ℕ → Text
unfolding itoa
next_cursor end size_of_all = if leb size_of_all end then [] else itoa end

-- `pageRepositories`, `pageScans` and `pageArtifacts`
unfoldable pub page_of {ℓ} : {V : Type ℓ} → List V → ℕ → Text → List V × Text
unfolding page_start next_cursor
page_of values size cursor =
    let all = length values in
    let start = page_start cursor all in
    let end = min (start + size) all in
    (take (end - start) (drop start values), next_cursor end all)
