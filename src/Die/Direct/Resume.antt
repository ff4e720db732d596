-- ===== src/Die/Direct/Resume.antt =====
-- Where the cursor of a page of neighbours leads (backend/die/analysis_query.go, `direct`).
use software_engineering_pla.Shared.{
  ℕ, zero, suc, ◌+◌, ◌≤◌, ◌<◌, ◌≡◌, refl, sym, subst, ap, ◌∙◌, true, false, List, [], ◌∷◌, ◌++◌,
  map, some, arith, length, take, drop, All,
}
use software_engineering_pla.Die.Text.{Text, text_lt, is_empty}
use software_engineering_pla.Die.Text.Order.{text_eq_refl}
use software_engineering_pla.Die.Model.{ok}
use software_engineering_pla.Die.Limits.{analysis_node_id}
use software_engineering_pla.Die.Direct.{
  Field, text_field, Codec, PageKey, cursor_fields, page_cursor, last_field, Neighbor, search,
  node_at, last_of, cursor_last, start_of, page_from,
}

pub text_lt_irrefl : (t : Text) → text_lt t t ≡ false
text_lt_irrefl [] = refl
text_lt_irrefl (c ∷ t) = ground (arith, text_lt_irrefl t)

-- identifiers that ascend
abbrev pub Ascending : List Neighbor → Type 0
Ascending [] = Unit
Ascending (n ∷ ns) = All (λ m. text_lt n.node_id m.node_id ≡ true) ns × Ascending ns

above :
    (t id : Text) (i : ℕ) (ns : List Neighbor)
    → All (λ m. text_lt t m.node_id ≡ true) ns
    → node_at i ns ≡ some id
    → text_lt t id ≡ true
above t id i [] h e = absurd (cc)
above t id zero (n ∷ ns) h e = subst (λ x. text_lt t x ≡ true) (cc) h.0
above t id (suc i) (n ∷ ns) h e = above t id i ns h.1 e

search_hit :
    (id : Text) (i : ℕ) (ns : List Neighbor)
    → Ascending ns
    → node_at i ns ≡ some id
    → search id ns ≡ i
search_hit id i [] h e = absurd (cc)
search_hit id zero (n ∷ ns) h e =
    let same : n.node_id ≡ id = cc in
    let not_below = subst (λ x. text_lt x id ≡ false) (sym same) (text_lt_irrefl id) in
    rw not_below refl
search_hit id (suc i) (n ∷ ns) h e =
    rw (above n.node_id id i ns h.0 e) (ap suc (search_hit id i ns h.1 e))

last_at :
    (start k i : ℕ) (ns : List Neighbor)
    → i ≡ start + k
    → i < length ns
    → node_at i ns ≡ some (last_of (take (suc k) (drop start ns)))
last_at start k i [] e h = absurd (omega arith)
last_at zero zero zero (n ∷ ns) e h = refl
last_at zero zero (suc i) (n ∷ ns) e h = absurd (omega arith)
last_at zero (suc k) zero (n ∷ ns) e h = absurd (omega arith)
last_at zero (suc k) (suc i) (n ∷ []) e h = absurd (omega arith)
last_at zero (suc k) (suc i) (n ∷ m ∷ ns) e h =
    last_at zero k i (m ∷ ns) (omega arith) (omega arith)
last_at (suc start) k zero (n ∷ ns) e h = absurd (omega arith)
last_at (suc start) k (suc i) (n ∷ ns) e h = last_at start k i ns (omega arith) (omega arith)

-- what the packages encoding/json and encoding/base64 do: decoding undoes encoding, an array has the
-- raw messages of its fields, and a node identifier, which is ASCII, is read back from its message
pub record IsCodec (c : Codec) : Type 0 where
  pub raw : Field → Text
  pub decodes : (b : Text) → c.decode (c.encode b) ≡ some b
  pub lists : (fields : List Field) → c.unmarshal_list (c.marshal fields) ≡ some (map raw fields)
  pub texts :
      (id : Text) → analysis_node_id id ≡ true → c.unmarshal_text (raw (text_field id)) ≡ some id
  pub not_empty : (fields : List Field) → is_empty (c.encode (c.marshal fields)) ≡ false

-- the cursors of a page are not longer than a query may have them
abbrev pub IsShort : Codec → PageKey → Type 0
IsShort c k = (id : Text) → analysis_node_id id ≡ true → length (page_cursor c k id) ≤ 2048

last_field-page_cursor :
    (c : Codec) (k : PageKey) (id : Text)
    → IsCodec c
    → analysis_node_id id ≡ true
    → last_field c k (page_cursor c k id) ≡ some id
unfolding last_field page_cursor
last_field-page_cursor c k id codec valid =
    rw
      (
        last_field,
        page_cursor,
        codec.decodes (c.marshal (cursor_fields k id)),
        codec.lists (cursor_fields k id),
      )
      (codec.texts id valid)

cursor_last-page_cursor :
    (c : Codec) (k : PageKey) (id : Text)
    → IsCodec c
    → IsShort c k
    → analysis_node_id id ≡ true
    → cursor_last c k (page_cursor c k id) ≡ ok id
unfolding cursor_last
cursor_last-page_cursor c k id codec fits valid =
    let short = fits id valid in
    let same = text_eq_refl (page_cursor c k id) in
    let back = last_field-page_cursor c k id codec valid in ground arith

resumes_at :
    (c : Codec) (k : PageKey) (ns : List Neighbor) (i : ℕ) (id : Text)
    → IsCodec c
    → IsShort c k
    → Ascending ns
    → analysis_node_id id ≡ true
    → node_at i ns ≡ some id
    → start_of c k (page_cursor c k id) ns ≡ ok (i + 1)
unfolding start_of
resumes_at c k ns i id codec fits h valid e =
    let found = cursor_last-page_cursor c k id codec fits valid in
    let not_empty : is_empty (page_cursor c k id) ≡ false =
      unfold page_cursor in codec.not_empty (cursor_fields k id) in
    let at = search_hit id i ns h e in
    let there : node_at (search id ns) ns ≡ some id =
      subst (λ j. node_at j ns ≡ some id) (sym at) e in
    let same = text_eq_refl id in ground arith

valid_at :
    (i : ℕ) (id : Text) (ns : List Neighbor)
    → All (λ n. analysis_node_id n.node_id ≡ true) ns
    → node_at i ns ≡ some id
    → analysis_node_id id ≡ true
valid_at i id [] h e = absurd (cc)
valid_at zero id (n ∷ ns) h e = subst (λ x. analysis_node_id x ≡ true) (cc) h.0
valid_at (suc i) id (n ∷ ns) h e = valid_at i id ns h.1 e

take-drop {ℓ} :
    {A : Type ℓ} (start size end : ℕ) (xs : List A)
    → end ≡ start + size
    → take size (drop start xs) ++ drop end xs ≡ drop start xs
take-drop zero zero zero xs e = refl
take-drop zero zero (suc end) xs e = absurd (omega arith)
take-drop zero (suc size) zero xs e = absurd (omega arith)
take-drop zero (suc size) (suc end) [] e = refl
take-drop zero (suc size) (suc end) (x ∷ xs) e =
    ap (λ ys. x ∷ ys) (take-drop zero size end xs (omega arith))
take-drop (suc start) size zero xs e = absurd (omega arith)
take-drop (suc start) zero (suc end) [] e = refl
take-drop (suc start) (suc size) (suc end) [] e = refl
take-drop (suc start) size (suc end) (x ∷ xs) e = take-drop start size end xs (omega arith)

-- Where base64 and JSON decode what they have encoded, cursors are short enough for a query, the
-- neighbours ascend by identifiers of the expected form, and a page has a positive size and more to come, its cursor makes
-- the next page begin right behind it, and no neighbour is lost or repeated between the two.
pub page_resumes :
    (c : Codec) (k : PageKey) (size start : ℕ) (ns : List Neighbor)
    → IsCodec c
    → IsShort c k
    → Ascending ns
    → All (λ n. analysis_node_id n.node_id ≡ true) ns
    → 0 < size
    → (page_from c k size ns start).has_more ≡ true
    → (start_of c k (page_from c k size ns start).next_cursor ns ≡ ok (start + size))
      × ((page_from c k size ns start).neighbors ++ drop (start + size) ns ≡ drop start ns)
unfolding page_from
page_resumes c k zero start ns codec fits h valid p more = absurd (omega arith)
page_resumes c k (suc n) start ns codec fits h valid p more =
    let here = last_at start n (start + n) ns refl (ground arith) in
    let id = last_of (take (suc n) (drop start ns)) in
    let resumed =
      resumes_at c k ns (start + n) id codec fits h (valid_at (start + n) id ns valid here) here in
    let cursor : (page_from c k (suc n) ns start).next_cursor ≡ page_cursor c k id = rw more refl in
    (
      subst (λ x. start_of c k x ns ≡ ok (start + suc n)) (sym cursor)
          (resumed ∙ ap ok (omega arith)),
      take-drop start (suc n) (start + suc n) ns refl,
    )
