-- ===== src/Repo/Valid.antt =====
-- The checks of values (backend/service/repository/implementation.go).
--
-- A Go string is a list of bytes. Decoding of UTF-8, `strings.TrimSpace` and the tables of the package
-- unicode are the parameter `Unicode`.
use software_engineering_pla.Shared.{
  ℕ, zero, suc, ◌+◌, Bool, true, false, not, ◌&&◌, ◌||◌, List, [], ◌∷◌, Option, none, some, ltb,
  leb, ◌==◌, length,
}
use software_engineering_pla.Die.Text.{Text, text, text_eq, is_empty, contains_byte}

pub record Unicode : Type 0 where
  -- the code points of valid UTF-8
  pub runes : Text → Option (List ℕ)
  -- whether `TrimSpace` changes nothing
  pub is_trimmed : Text → Bool
  pub is_letter : ℕ → Bool
  pub is_digit : ℕ → Bool
  pub is_lower : ℕ → Bool
  pub is_control : ℕ → Bool

abbrev pub all_of : (ℕ → Bool) → List ℕ → Bool
all_of p [] = true
all_of p (c ∷ cs) = p c && all_of p cs

-- `safeToken`
unfoldable pub safe_token : Text → ℕ → Bool
safe_token v maximum =
    not (is_empty v || ltb maximum (length v))
    && all_of (λ c. (leb b'a' c && leb c b'z') || ((leb b'0' c && leb c b'9') || c == b'-')) v

abbrev byte_at : ℕ → Text → ℕ
byte_at i [] = 0
byte_at zero (c ∷ v) = c
byte_at (suc i) (c ∷ v) = byte_at i v

abbrev is_hyphen_at : ℕ → Bool
is_hyphen_at i = i == 8 || (i == 13 || (i == 18 || i == 23))

abbrev uuid_bytes : ℕ → Text → Bool
uuid_bytes i [] = true
uuid_bytes i (c ∷ v) =
    (is_hyphen_at i || ((leb b'0' c && leb c b'9') || (leb b'a' c && leb c b'f')))
    && uuid_bytes (i + 1) v

-- `validUUID`
unfoldable pub valid_uuid : Text → Bool
valid_uuid v =
    (length v == 36)
    && (byte_at 8 v == b'-'
        && (byte_at 13 v == b'-'
            && (byte_at 18 v == b'-'
                && (byte_at 23 v == b'-'
                    && (leb b'1' (byte_at 14 v)
                        && (leb (byte_at 14 v) b'8'
                            && (contains_byte (byte_at 19 v) (text "89ab") && uuid_bytes 0 v)))))))

module _ (u : Unicode) where
  -- not empty, within the length, trimmed, UTF-8, and of these code points
  abbrev pub valid_runes : (ℕ → Bool) → Text → ℕ → Bool
  valid_runes p v maximum =
      not (is_empty v || (ltb maximum (length v) || not (u.is_trimmed v)))
      && elim (u.runes v) [ none ↦ false | some cs ↦ all_of p cs ]

  unfoldable pub valid_machine : Text → ℕ → Bool
  valid_machine = valid_runes (λ c.
      u.is_letter c || (u.is_digit c || (c == b'-' || (c == b'_' || (c == b'.' || c == b':')))))

  unfoldable pub valid_optional_machine : Text → ℕ → Bool
  valid_optional_machine v maximum = is_empty v || valid_machine v maximum

  -- `validSensitive` and `validSafeText` have one body
  unfoldable pub valid_safe_text : Text → ℕ → Bool
  valid_safe_text = valid_runes (λ c. not (u.is_control c))

  unfoldable pub valid_name : Text → ℕ → Bool
  valid_name = valid_runes (λ c.
      u.is_lower c || (u.is_digit c || (c == b'-' || (c == b'_' || (c == b'/' || c == b'.')))))

  unfoldable pub valid_version : Text → Bool
  valid_version v = valid_machine v 64

  unfoldable pub valid_identity_field : Text → Bool
  valid_identity_field v = valid_runes (λ c. not (ltb c 0x20 || c == 0x7f)) v 1024

unfoldable pub valid_optional_token : Text → ℕ → Bool
valid_optional_token v maximum = is_empty v || safe_token v maximum

abbrev pub valid_media_type : Text → Bool
valid_media_type v =
    text_eq v (text "application/json") || text_eq v (text "application/octet-stream")
