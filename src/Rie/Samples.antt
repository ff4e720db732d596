-- ===== src/Rie/Samples.antt =====
-- Tests of the ignore engine and the pipeline (backend/rie), and their theorems at concrete inputs.
use software_engineering_pla.Shared.{
  ℕ, ◌≡◌, refl, ◌⊎◌, ◌↔◌, Bool, true, false, ◌||◌, List, [], ◌∷◌, Option, none, some,
}
use software_engineering_pla.Shared.Int.{pos}
use software_engineering_pla.Die.Text.{Text, text, contains_byte}
use software_engineering_pla.Die.Path.{slash}
use software_engineering_pla.Die.Path.Canonical.{IsName, joined}
use software_engineering_pla.Rie.Glob.{Expression, glob_expression, match_string}
use software_engineering_pla.Rie.Glob.Meaning.{Covers}
use software_engineering_pla.Rie.Glob.Equivalence.{glob_expression-Covers}
use software_engineering_pla.Rie.Rules.{
  Texts, Entry, Rule, compiled, compile_rule, covers, rule_matches_target, matches_rules,
}
use software_engineering_pla.Rie.Rules.Last.{LastIgnores, matches_rules_iff}
use software_engineering_pla.Rie.Rules.Below.{CoversAbove, rule_matches_target_iff}
use software_engineering_pla.Rie.Run.{
  produced, other_failure, put_artifact, get_artifact_named, RunContext,
}
use software_engineering_pla.Rie.Run.Once.{PutOnce, put_artifact-PutOnce}
use software_engineering_pla.Rie.Ignore.{
  base_name, readable, Files, default_ignore_names, load_rules, find_ignore_files,
}
use software_engineering_pla.Rie.Ignore.Execute.{is_ignored, execute_ignore, ignore_engine}
use software_engineering_pla.Rie.Ignore.Filtered.{
  HasFiltered, execute_ignore-HasFiltered, ignore_engine-LeavesBookkeeping,
}
use software_engineering_pla.Rie.Pipeline.{Engine, run_pipeline}
use software_engineering_pla.Rie.Pipeline.Order.{EndsRun, run_pipeline-EndsRun}

abbrev ascii : Texts
ascii = record { trim = λ v. v; runes = λ v. v; quoted = λ v. v }

abbrev matches : Option Expression → Text → Bool
matches none v = false
matches (some e) v = match_string e v

star_in_a_name : matches (glob_expression (text "*.log") false) (text "var/debug.log") ≡ true
unfolding glob_expression match_string
star_in_a_name = refl

star_stops_at_a_slash : matches (glob_expression (text "*.log") true) (text "var/debug.log") ≡ false
unfolding glob_expression match_string
star_stops_at_a_slash = refl

folders_in_front : matches (glob_expression (text "**/gen/*.go") false) (text "a/b/gen/x.go") ≡ true
unfolding glob_expression match_string
folders_in_front = refl

bracket_is_refused : glob_expression (text "[a]") false ≡ none
unfolding glob_expression
bracket_is_refused = refl

-- the UTF-8 of U+00E9 is quoted byte by byte, and does not match that code point
accent_is_missed : matches (glob_expression (0xc3 ∷ 0xa9 ∷ []) false) (0xe9 ∷ []) ≡ false
unfolding glob_expression match_string
accent_is_missed = refl

glob_expression-Covers_example :
    (e : Expression) × (glob_expression (text "*.log") false ≡ some e)
    × ((path : Text)
        → (match_string e (ascii.runes path) ≡ true)
          ↔ Covers
              (ascii.runes (text "*.log"))
              (false || contains_byte slash (text "*.log"))
              (ascii.runes path))
glob_expression-Covers_example =
    glob_expression-Covers ascii.runes (text "*.log") false (λ t h. refl)
      (refl, (refl, (refl, (refl, (refl, tt))))) refl

abbrev rule : Text → Bool → Bool → Rule
rule p negated directory = record {
  pattern = p;
  base_path = [];
  source = text "config";
  negated = negated;
  directory = directory;
  matcher = record { from_start = false; pieces = [] };
}

abbrev with_rule : Rule → Text → Rule
unfolding glob_expression
with_rule r p = record r {
  matcher = elim (glob_expression p false) [
    | none ↦ record { from_start = false; pieces = [] }
    | some e ↦ e
  ];
}

abbrev logs : Rule
logs = with_rule (rule (text "*.log") false false) (text "*.log")

abbrev important : Rule
important = with_rule (rule (text "important.log") true false) (text "important.log")

abbrev modules : Rule
modules = with_rule (rule (text "node_modules") false true) (text "node_modules")

compiled_as_written :
    compile_rule ascii (text "node_modules/") [] (text "config") ≡ compiled modules
unfolding compile_rule glob_expression
compiled_as_written = refl

kept_by_the_last :
    matches_rules ascii
      (record { path = text "important.log"; is_dir = false })
      (logs ∷ important ∷ [])
    ≡ false
unfolding matches_rules glob_expression match_string
kept_by_the_last = refl

below_a_folder : rule_matches_target ascii modules (text "a/node_modules/b/c.js") false ≡ true
unfolding rule_matches_target glob_expression match_string
below_a_folder = refl

matches_rules_iff_example :
    let e : Entry = record { path = text "debug.log"; is_dir = false } in
    (matches_rules ascii e (logs ∷ important ∷ []) ≡ true)
    ↔ LastIgnores ascii e (logs ∷ important ∷ [])
matches_rules_iff_example =
    matches_rules_iff ascii (record { path = text "debug.log"; is_dir = false })
      (logs ∷ important ∷ [])

abbrev library : Text
library = text "lib.js"

abbrev folder : Text
folder = text "node_modules"

library-IsName : IsName library
library-IsName = record { not_empty = refl; not_dot = refl; not_dot_dot = refl; no_slash = refl }

folder-IsName : IsName folder
folder-IsName = record { not_empty = refl; not_dot = refl; not_dot_dot = refl; no_slash = refl }

rule_matches_target_iff_example :
    (rule_matches_target ascii modules (joined (library ∷ folder ∷ [])) false ≡ true) ↔ (
      ((covers ascii modules (joined (library ∷ folder ∷ [])) ≡ true)
        × ((modules.directory ≡ false) ⊎ (false ≡ true)))
      ⊎ CoversAbove ascii modules (folder ∷ []))
rule_matches_target_iff_example =
    rule_matches_target_iff ascii modules library (folder ∷ []) false library-IsName
      (folder-IsName, tt)

put_artifact-PutOnce_example :
    PutOnce
      (produced (text "summary") (text "1.0.0"))
      []
      (put_artifact (some (produced (text "summary") (text "1.0.0"))) [])
put_artifact-PutOnce_example = put_artifact-PutOnce (produced (text "summary") (text "1.0.0")) []

abbrev entry : Text → Bool → Entry
entry path is_dir = record { path = path; is_dir = is_dir }

abbrev repository_entries : List Entry
repository_entries =
    entry (text ".gitignore") false
    ∷ entry (text "debug.log") false
    ∷ entry (text "main.go") false
    ∷ entry folder true
    ∷ []

abbrev disk : Files
disk = record { open_file = λ root path. readable (text "*.log" ∷ text "node_modules/" ∷ []) none }

abbrev discovered : RunContext
discovered = record {
  config = record {
    max_workers = pos 4;
    ignore_patterns = [];
    max_file_size = pos 100;
    scan_hidden = true;
  };
  root_path = text "/work";
  entries = some repository_entries;
  artifacts = none;
  statistics = record { files = 0; folders = 0 };
  ignore = record { rules = 0; ignored_files = 0; ignored_folders = 0; sources = [] };
  warnings = [];
  errors = [];
  engines = [];
}

abbrev no_end : ℕ → Option Text
no_end k = none

two_files_are_kept :
    (execute_ignore ascii no_end disk default_ignore_names discovered).1.statistics
    ≡ record { files = 2; folders = 0 }
unfolding execute_ignore find_ignore_files matches_rules base_name compile_rule match_string
two_files_are_kept = refl

execute_ignore-HasFiltered_example :
    let loaded = load_rules ascii disk no_end default_ignore_names discovered repository_entries in
    HasFiltered
      (is_ignored ascii true loaded.rules)
      loaded
      (record discovered { warnings = loaded.warnings })
      repository_entries
      (execute_ignore ascii no_end disk default_ignore_names discovered)
unfolding get_artifact_named
execute_ignore-HasFiltered_example =
    execute_ignore-HasFiltered ascii no_end (λ k. refl) disk default_ignore_names discovered
      repository_entries refl refl refl

abbrev ignoring : Engine
ignoring = ignore_engine ascii no_end disk default_ignore_names

abbrev refusing : Engine
refusing = record {
  name = text "language";
  version = text "1.0.0";
  description = text "Languages";
  execute = λ r. (some (other_failure (text "unreadable")), r);
}

run_pipeline-EndsRun_example :
    EndsRun
      (λ f. [])
      (ignoring ∷ refusing ∷ [])
      discovered
      (run_pipeline (λ f. []) (ignoring ∷ refusing ∷ []) (some discovered))
run_pipeline-EndsRun_example =
    run_pipeline-EndsRun (λ f. []) (ignoring ∷ refusing ∷ []) discovered
      (
        ignore_engine-LeavesBookkeeping ascii no_end disk default_ignore_names,
        (λ r. (refl, refl), tt),
      )
