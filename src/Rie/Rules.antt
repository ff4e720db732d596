-- ===== src/Rie/Rules.antt =====
-- The rules of the ignore engine (backend/rie/ignore/implementation.go).
--
-- `strings.TrimSpace`, the decoding of UTF-8 and the quoting of `%q` are the parameter `Texts`. The
-- loop over the parents of a path runs on fuel: each parent is shorter than the path before it.
pub mod Ancestors
pub mod Last
pub mod Below
use software_engineering_pla.Shared.{
  ℕ, zero, suc, ◌+◌, Bool, true, false, not, ◌&&◌, ◌||◌, List, [], ◌∷◌, ◌++◌, Option, none, some,
  ◌==◌, if◌then◌else◌, length, drop,
}
use software_engineering_pla.Die.Text.{Text, text, text_eq, is_empty, contains_byte, has_prefix}
use software_engineering_pla.Die.Path.{
  slash, dot, dot_dot, replace_backslashes, split_from, clean, clean_segment, join_onto,
}
use software_engineering_pla.Rie.Glob.{Expression, glob_expression, match_string}

pub record Texts : Type 0 where
  pub trim : Text → Text
  pub runes : Text → List ℕ
  pub quoted : Text → Text

-- `RepositoryEntry`
pub record Entry : Type 0 where
  pub path : Text
  pub is_dir : Bool

pub record Rule : Type 0 where
  pub pattern : Text
  pub base_path : Text
  pub source : Text
  pub negated : Bool
  pub directory : Bool
  pub matcher : Expression

-- a line that holds no rule, an error with its text, or a rule
pub data Compiled : Type 0 where
  no_rule : Compiled
  refused : Text → Compiled
  compiled : Rule → Compiled

abbrev ends_in : ℕ → Text → Bool
ends_in c [] = false
ends_in c (x ∷ []) = x == c
ends_in c (x ∷ y ∷ v) = ends_in c (y ∷ v)

abbrev drop_last : Text → Text
drop_last [] = []
drop_last (x ∷ []) = []
drop_last (x ∷ y ∷ v) = x ∷ drop_last (y ∷ v)

abbrev with_matcher : Rule → Text → Option Expression → Compiled
with_matcher r message none = refused message
with_matcher r message (some e) = compiled (record r { matcher = e })

-- `path.Split`: up to the last slash, which stays
unfoldable pub dir_part : Text → Text
dir_part [] = []
dir_part (c ∷ v) = let rest = dir_part v in if contains_byte slash (c ∷ v) then c ∷ rest else []

-- at the root `..` takes back a segment where there is one
abbrev pop_rooted : List Text → List Text
pop_rooted [] = []
pop_rooted (top ∷ kept) = kept

abbrev clean_rooted : List Text → List Text → List Text
clean_rooted kept [] = kept
clean_rooted kept (s ∷ segments) =
    clean_rooted (if text_eq s dot_dot then pop_rooted kept else clean_segment kept s) segments

abbrev below_root : List Text → Text
below_root [] = slash ∷ []
below_root (s ∷ kept) = slash ∷ join_onto kept s

-- `path.Dir`, with `path.Clean` for paths at the root too
unfoldable pub dir : Text → Text
unfolding dir_part clean split_from
dir v =
    let d = dir_part v in
    if has_prefix d (slash ∷ []) then below_root (clean_rooted [] (split_from [] d)) else clean d

-- `pathWithinBase`
unfoldable pub path_within_base : Text → Text → Option Text
path_within_base relative base =
    if is_empty base
    then some relative
    else if text_eq relative base
    then some []
    else if has_prefix relative (base ++ slash ∷ [])
    then some (drop (length base + 1) relative)
    else none

abbrev hidden : List Text → Bool
hidden [] = false
hidden (s ∷ segments) =
    (has_prefix s dot && (not (text_eq s dot) && not (text_eq s dot_dot))) || hidden segments

-- `hasHiddenSegment`
unfoldable pub has_hidden_segment : Text → Bool
unfolding split_from
has_hidden_segment v = hidden (split_from [] v)

module _ (x : Texts) where
  -- the pattern behind its marks
  unfoldable pub compile_pattern : Text → Bool → Text → Text → Compiled
  unfolding replace_backslashes glob_expression
  compile_pattern v negated base source =
      let w = replace_backslashes v in
      let directory = ends_in slash w in
      let bare = if directory then drop_last w else w in
      let anchored = has_prefix bare (slash ∷ []) in
      let pattern = if anchored then drop 1 bare else bare in
      if is_empty pattern
      then no_rule
      else with_matcher
          (record {
            pattern = pattern;
            base_path = base;
            source = source;
            negated = negated;
            directory = directory;
            matcher = record { from_start = false; pieces = [] };
          })
          (text "character classes are not supported yet: " ++ x.quoted pattern)
          (glob_expression pattern anchored)

  unfoldable pub compile_rule : Text → Text → Text → Compiled
  unfolding compile_pattern
  compile_rule raw base source =
      let v = x.trim raw in
      if is_empty v || has_prefix v (text "#")
      then no_rule
      else let w = if has_prefix v (text "\\#") then drop 1 v else v in
        if has_prefix w (text "\\!")
        then compile_pattern (drop 1 w) false base source
        else if has_prefix w (text "!")
        then compile_pattern (drop 1 w) true base source
        else compile_pattern w false base source

  abbrev pub covers : Rule → Text → Bool
  covers r v = match_string r.matcher (x.runes v)

  -- the loop over the parents, from `parent` on
  unfoldable pub covers_parent : ℕ → Rule → Text → Bool
  covers_parent zero r parent = false
  covers_parent (suc fuel) r parent =
      let rest = covers_parent fuel r (dir parent) in
      if text_eq parent dot || text_eq parent (slash ∷ []) then false else covers r parent || rest

  unfoldable pub rule_matches_target : Rule → Text → Bool → Bool
  unfolding covers_parent dir
  rule_matches_target r target target_is_dir =
      (covers r target && (not r.directory || target_is_dir))
      || covers_parent (length target + 1) r (dir target)

  -- whether a rule is not passed over by `continue`
  unfoldable pub applies : Entry → Rule → Bool
  unfolding path_within_base rule_matches_target
  applies e r = elim (path_within_base e.path r.base_path) [
    | none ↦ false
    | some target ↦ rule_matches_target r target e.is_dir
  ]

  -- the rest of the loop of `matchesRules`
  unfoldable pub after_rules : Entry → Bool → List Rule → Bool
  unfolding applies
  after_rules e ignored [] = ignored
  after_rules e ignored (r ∷ rules) =
      after_rules e (if applies e r then not r.negated else ignored) rules

  unfoldable pub matches_rules : Entry → List Rule → Bool
  unfolding after_rules
  matches_rules e rules = after_rules e false rules
