-- ===== src/Memory/Paging/Resumes.antt =====
-- Following the cursors of the reference store gives every value once
-- (backend/service/repository/conformance/implementation.go, `pageStart`, `nextCursor`).
use mathlib.Core.List.{append-nil}
use software_engineering_pla.Shared.{
  ℕ, zero, suc, ◌+◌, ◌-◌, ◌≤◌, ◌<◌, min, ◌≡◌, refl, sym, ap, ◌∙◌, inl, inr, Bool, true, false, List,
  [], ◌∷◌, ◌++◌, leb, length, take, drop, arith, Bool-cases,
}
use software_engineering_pla.Die.Text.{Text, is_empty}
use software_engineering_pla.Memory.Paging.Decimal.{
  page_start-itoa, itoa_filled, next_cursor-last, next_cursor-itoa, leb→le, leb_false→lt,
}
use software_engineering_pla.Memory.Paging.{page_start, itoa, next_cursor, page_of}

module _ {V : Type 0} where
  take-drop : (k : ℕ) (xs : List V) → take k xs ++ drop k xs ≡ xs
  take-drop zero xs = refl
  take-drop (suc k) [] = refl
  take-drop (suc k) (x ∷ xs) = ap (λ v. x ∷ v) (take-drop k xs)

  drop-drop : (s k e : ℕ) (xs : List V) → s + k ≡ e → drop k (drop s xs) ≡ drop e xs
  drop-drop zero k e xs h = ap (λ n. drop n xs) (omega (arith, h))
  drop-drop (suc s) k zero xs h = absurd (omega (arith, h))
  drop-drop (suc s) zero (suc e) [] h = refl
  drop-drop (suc s) (suc k) (suc e) [] h = refl
  drop-drop (suc s) k (suc e) (x ∷ xs) h = drop-drop s k e xs (omega (arith, h))

  -- what is between two places of a list, and what is behind the second
  slice-rest : (s e : ℕ) (xs : List V) → s ≤ e → take (e - s) (drop s xs) ++ drop e xs ≡ drop s xs
  slice-rest s e xs h =
      ap (λ v. take (e - s) (drop s xs) ++ v) (sym (drop-drop s (e - s) e xs (omega (arith, h))))
      ∙ take-drop (e - s) (drop s xs)

  drop-length : (n : ℕ) (xs : List V) → length xs ≤ n → drop n xs ≡ []
  drop-length zero [] h = refl
  drop-length zero (x ∷ xs) h = absurd (omega arith)
  drop-length (suc n) [] h = refl
  drop-length (suc n) (x ∷ xs) h = drop-length n xs (omega arith)

  abbrev gather_by : Bool → List V → List V → List V
  gather_by true items more = items
  gather_by false items more = items ++ more

  -- a page with what its cursor leads to
  abbrev gather : List V × Text → (Text → List V) → List V
  gather (items, next) rest = gather_by (is_empty next) items (rest next)

  gather-last :
      (items : List V) (next : Text) (rest : Text → List V)
      → next ≡ []
      → gather (items, next) rest ≡ items
  gather-last items next rest h = ap (λ v. gather (items, v) rest) h

  gather-more :
      (items : List V) (next : Text) (rest : Text → List V)
      → is_empty next ≡ false
      → gather (items, next) rest ≡ items ++ rest next
  gather-more items next rest h = ap (λ b. gather_by b items (rest next)) h

  -- a caller that follows the cursors, for so many pages at most
  unfoldable pub all_pages : ℕ → List V → ℕ → Text → List V
  unfolding page_of
  all_pages zero values size cursor = []
  all_pages (suc fuel) values size cursor =
      gather (page_of values size cursor) (all_pages fuel values size)

  module _ (values : List V) (size : ℕ) (positive : 0 < size)
      (fits : length values < 9223372036854775808) where
    -- a page that starts at a place of the list
    page_at :
        (cursor : Text) (start : ℕ)
        → page_start cursor (length values) ≡ start
        → page_of values size cursor ≡ (
          take (min (start + size) (length values) - start) (drop start values),
          next_cursor (min (start + size) (length values)) (length values),
        )
    unfolding page_of
    page_at cursor start h =
        ap
          (λ s. (
            take (min (s + size) (length values) - s) (drop s values),
            next_cursor (min (s + size) (length values)) (length values),
          ))
          h

    all_pages-from :
        (fuel : ℕ) (cursor : Text) (start : ℕ)
        → page_start cursor (length values) ≡ start
        → start ≤ length values
        → length values - start < fuel
        → all_pages fuel values size cursor ≡ drop start values
    unfolding all_pages
    all_pages-from zero cursor start h k f = absurd (omega (arith, f))
    all_pages-from (suc fuel) cursor start h k f =
        let all = length values in
        let end = min (start + size) all in
        let items = take (end - start) (drop start values) in
        let rest = slice-rest start end values (omega (arith, k, positive)) in
        let page = ap (λ p. gather p (all_pages fuel values size)) (page_at cursor start h) in
        page ∙ elim (Bool-cases (leb all end)) [
          | inl e ↦
              gather-last items _ (all_pages fuel values size) (next_cursor-last end all e)
              ∙ (sym (append-nil items)
                  ∙ (ap (λ v. items ++ v) (sym (drop-length end values (leb→le all end e))) ∙ rest))
          | inr e ↦
              let next = next_cursor-itoa end all e in
              gather-more items _ (all_pages fuel values size) (ap is_empty next ∙ itoa_filled end)
              ∙ (ap (λ c. items ++ all_pages fuel values size c) next
                  ∙ (ap (λ v. items ++ v)
                        (all_pages-from fuel (itoa end) end
                          (page_start-itoa end all (omega arith) fits) (omega arith)
                          (omega (arith, f, positive, leb_false→lt all end e)))
                      ∙ rest))
        ]

    -- For a page size that is positive and values whose number fits an int, a caller that begins
    -- without a cursor and follows those that the pages return gets every value once, in order, and one
    -- page more than there are values is enough.
    pub all_pages_complete : all_pages (length values + 1) values size [] ≡ values
    unfolding page_start
    all_pages_complete = all_pages-from (length values + 1) [] 0 refl (omega arith) (omega arith)
