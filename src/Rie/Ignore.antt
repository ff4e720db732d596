-- ===== src/Rie/Ignore.antt =====
-- The ignore engine (backend/rie/ignore/implementation.go): loading the rules and `Execute`.
--
-- Files are the parameter `Files`: whether one opens, and the lines that the scanner gives with the
-- error that it ends with. The context is the function `ended`, its error at each call of `Err`.
pub mod Execute
pub mod Filtered
use software_engineering_pla.Shared.{
  ℕ, zero, suc, ◌+◌, Bool, true, false, not, ◌&&◌, ◌||◌, List, [], ◌∷◌, ◌++◌, Option, none, some,
  ltb, ◌==◌, if◌then◌else◌, length,
}
use software_engineering_pla.Die.Text.{Text, text, text_eq, text_lt, is_empty, digits, sort_by}
use software_engineering_pla.Die.Path.{slash, dot, split_from}
use software_engineering_pla.Rie.Rules.{
  Texts, Entry, Rule, Compiled, no_rule, refused, compiled, dir, compile_rule, has_hidden_segment,
  matches_rules,
}
use software_engineering_pla.Rie.Run.{Diagnostic, RunContext}

pub data Opened : Type 0 where
  unreadable : Text → Opened
  readable : List Text → Option Text → Opened

pub record Files : Type 0 where
  -- by the path of the repository and the path in it
  pub open_file : Text → Text → Opened

abbrev engine_name : Text
engine_name = text "ignore"

abbrev pub ignore_version : Text
ignore_version = text "0.2.1"

abbrev pub default_ignore_names : List Text
default_ignore_names = text ".gitignore" ∷ []

-- rules with what was reported on the way
pub record Loaded : Type 0 where
  pub rules : List Rule
  pub warnings : List Diagnostic
  pub sources : List Text
  pub calls : ℕ

abbrev warning : Text → Text → Text → Diagnostic
warning code message path = record {
  engine = engine_name;
  code = code;
  message = message;
  path = path;
}

abbrev strip_slashes : Text → Text
strip_slashes [] = []
strip_slashes (c ∷ v) =
    let rest = strip_slashes v in if c == slash && is_empty rest then [] else c ∷ rest

abbrev last_segment : Text → List Text → Text
last_segment v [] = v
last_segment v (w ∷ segments) = last_segment w segments

-- `path.Base`
unfoldable pub base_name : Text → Text
unfolding split_from
base_name v =
    let w = strip_slashes v in
    if is_empty v then dot else if is_empty w then slash ∷ [] else last_segment [] (split_from [] w)

unfoldable pub depth : Text → ℕ
depth [] = 0
depth (c ∷ v) = let rest = depth v in if c == slash then suc rest else rest

-- shallower, or of one depth and before in the order of strings
abbrev pub earlier_file : Text → Text → Bool
earlier_file a b = if depth a == depth b then text_lt a b else ltb (depth a) (depth b)

abbrev is_one_of : List Text → Text → Bool
is_one_of [] v = false
is_one_of (name ∷ names) v = text_eq name v || is_one_of names v

unfoldable pub ignore_paths : List Text → List Entry → List Text
ignore_paths names [] = []
ignore_paths names (e ∷ entries) =
    let rest = ignore_paths names entries in
    if not e.is_dir && is_one_of names (base_name e.path) then e.path ∷ rest else rest

-- `findIgnoreFiles`
unfoldable pub find_ignore_files : List Text → List Entry → List Text
unfolding ignore_paths
find_ignore_files names entries = sort_by earlier_file (ignore_paths names entries)

-- `basePath`
abbrev base_of : Text → Text
base_of relative = let d = dir relative in if text_eq d dot then [] else d

module _ (x : Texts) where
  abbrev with_compiled :
      Compiled → ℕ → Text → List Rule × List Diagnostic → List Rule × List Diagnostic
  with_compiled no_rule line source (rules, warnings) = (rules, warnings)
  with_compiled (compiled r) line source (rules, warnings) = (r ∷ rules, warnings)
  with_compiled (refused e) line source (rules, warnings) = (
    rules,
    warning (text "invalid_ignore_pattern") (text "line " ++ digits 20 line ++ text ": " ++ e)
          source
        ∷ warnings,
  )

  -- the loop of `parsePatternList`, from the number of a line on
  unfoldable pub parse_pattern_list : ℕ → List Text → Text → Text → List Rule × List Diagnostic
  parse_pattern_list line [] base source = ([], [])
  parse_pattern_list line (raw ∷ patterns) base source =
      with_compiled (compile_rule x raw base source) line source
        (parse_pattern_list (line + 1) patterns base source)

  abbrev read_warning : Option Text → Text → List Diagnostic
  read_warning none source = []
  read_warning (some e) source = warning (text "ignore_file_read_failed") e source ∷ []

  -- `parseRules`
  unfoldable pub parse_rules : List Text → Option Text → Text → Text → List Rule × List Diagnostic
  unfolding parse_pattern_list
  parse_rules patterns failure base source =
      let (rules, warnings) = parse_pattern_list 1 patterns base source in
      (rules, warnings ++ read_warning failure source)

  abbrev nothing_loaded : ℕ → Loaded
  nothing_loaded calls = record { rules = []; warnings = []; sources = []; calls = calls }

  abbrev file_loaded : Opened → Text → Loaded → Loaded
  file_loaded (unreadable e) relative rest = record rest {
    warnings = warning (text "ignore_file_unreadable") e relative ∷ rest.warnings;
  }
  file_loaded (readable patterns failure) relative rest =
      let (rules, warnings) = parse_rules patterns failure (base_of relative) relative in
      record rest {
        rules = rules ++ rest.rules;
        warnings = warnings ++ rest.warnings;
        sources = relative ∷ rest.sources;
      }

  module _ (files : Files) (context : ℕ → Option Text) where
    -- the loop over the ignore files, with the number of calls of `Err` before it
    unfoldable pub load_files : Text → ℕ → List Text → Loaded
    unfolding parse_rules
    load_files root calls [] = nothing_loaded calls
    load_files root calls (relative ∷ paths) = elim (context calls) [
      | some e ↦ nothing_loaded (calls + 1)
      | none ↦
          file_loaded (files.open_file root relative) relative (load_files root (calls + 1) paths)
    ]

    abbrev with_config : List Text → Loaded → Loaded
    with_config [] loaded = loaded
    with_config (p ∷ patterns) loaded =
        let (rules, warnings) = parse_pattern_list 1 (p ∷ patterns) [] (text "config") in
        record loaded {
          rules = loaded.rules ++ rules;
          warnings = loaded.warnings ++ warnings;
          sources = loaded.sources ++ text "config" ∷ [];
        }

    -- `loadRules`, for entries that are not nil
    unfoldable pub load_rules : List Text → RunContext → List Entry → Loaded
    unfolding load_files find_ignore_files parse_pattern_list
    load_rules names run entries =
        with_config run.config.ignore_patterns
          (load_files run.root_path 0 (find_ignore_files names entries))
