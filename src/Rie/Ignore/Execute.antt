-- ===== src/Rie/Ignore/Execute.antt =====
-- `Execute` of the ignore engine (backend/rie/ignore/implementation.go).
use software_engineering_pla.Shared.{
  ℕ, suc, ◌+◌, Bool, true, false, not, ◌&&◌, ◌||◌, List, [], ◌∷◌, ◌++◌, Option, none, some, length,
}
use software_engineering_pla.Die.Text.{Text, text, is_empty}
use software_engineering_pla.Rie.Rules.{Texts, Entry, Rule, has_hidden_segment, matches_rules}
use software_engineering_pla.Rie.Run.{
  RepositorySnapshot, snapshot_artifact, RunFailure, discovery_required, ended, Artifacts,
  put_artifact, RunContext,
}
use software_engineering_pla.Rie.Ignore.{Files, ignore_version, Loaded, load_rules}
use software_engineering_pla.Rie.Pipeline.{Engine}

-- the entries kept with their counts, and the counts of those ignored
pub record Tally : Type 0 where
  pub kept : List Entry
  pub files : ℕ
  pub folders : ℕ
  pub ignored_files : ℕ
  pub ignored_folders : ℕ

abbrev pub no_entries : Tally
no_entries = record { kept = []; files = 0; folders = 0; ignored_files = 0; ignored_folders = 0 }

abbrev pub count_entry : Entry → Bool → Tally → Tally
count_entry e true t = elim e.is_dir [
  | true ↦ record t { ignored_folders = suc t.ignored_folders }
  | false ↦ record t { ignored_files = suc t.ignored_files }
]
count_entry e false t = elim e.is_dir [
  | true ↦ record t { kept = e ∷ t.kept; folders = suc t.folders }
  | false ↦ record t { kept = e ∷ t.kept; files = suc t.files }
]

-- the error of the context, or the tally
pub data Filtering : Type 0 where
  interrupted : Text → Filtering
  filtered : Tally → Filtering

abbrev pub add_entry : Entry → Bool → Filtering → Filtering
add_entry e ignored (interrupted f) = interrupted f
add_entry e ignored (filtered t) = filtered (count_entry e ignored t)

-- one round, with the error of the context and what the rounds after it make
abbrev pub at_entry : Option Text → Entry → Bool → Filtering → Filtering
at_entry (some f) e ignored rest = interrupted f
at_entry none e ignored rest = add_entry e ignored rest

abbrev pub stored : Option Artifacts → Artifacts
stored none = []
stored (some m) = m

abbrev pub frozen : RunContext → Tally → RepositorySnapshot
frozen run t = record {
  root_path = run.root_path;
  entries = t.kept;
  statistics = record { files = t.files; folders = t.folders };
  diagnostics = run.warnings;
  engine_version = ignore_version;
}

-- the assignments to the run, and the artifact
abbrev pub finish_filtering : Loaded → RunContext → Tally → Option RunFailure × RunContext
finish_filtering loaded run t =
    let (failed, artifacts) =
      put_artifact (some (snapshot_artifact (frozen run t))) (stored run.artifacts) in
    (
      failed,
      record run {
        entries = some t.kept;
        artifacts = some artifacts;
        statistics = record { files = t.files; folders = t.folders };
        ignore = record {
          rules = length loaded.rules;
          ignored_files = t.ignored_files;
          ignored_folders = t.ignored_folders;
          sources = loaded.sources;
        };
      },
    )

abbrev pub after_filtering : Loaded → RunContext → Filtering → Option RunFailure × RunContext
after_filtering loaded run (interrupted f) = (some (ended f), run)
after_filtering loaded run (filtered t) = finish_filtering loaded run t

module _ (x : Texts) where
  unfoldable pub is_ignored : Bool → List Rule → Entry → Bool
  is_ignored scan_hidden rules e =
      matches_rules x e rules || (not scan_hidden && has_hidden_segment e.path)

  module _ (context : ℕ → Option Text) where
    -- the loop over the entries, with the number of calls of `Err` before it
    unfoldable pub filter_entries : Bool → List Rule → ℕ → List Entry → Filtering
    unfolding is_ignored
    filter_entries scan_hidden rules calls [] = filtered no_entries
    filter_entries scan_hidden rules calls (e ∷ entries) =
        at_entry (context calls) e (is_ignored scan_hidden rules e)
          (filter_entries scan_hidden rules (calls + 1) entries)

    module _ (files : Files) (names : List Text) where
      abbrev pub filter_with : Loaded → RunContext → List Entry → Option RunFailure × RunContext
      filter_with loaded run entries =
          after_filtering loaded (record run { warnings = run.warnings ++ loaded.warnings })
            (filter_entries run.config.scan_hidden loaded.rules loaded.calls entries)

      -- by whether the path of the repository is empty
      abbrev pub execute_at : Bool → RunContext → List Entry → Option RunFailure × RunContext
      execute_at true run entries = (some discovery_required, run)
      execute_at false run entries =
          filter_with (load_rules x files context names run entries) run entries

      abbrev pub execute_entries : RunContext → Option (List Entry) → Option RunFailure × RunContext
      execute_entries run none = (some discovery_required, run)
      execute_entries run (some entries) = execute_at (is_empty run.root_path) run entries

      -- `Execute`, for a run that is not nil
      unfoldable pub execute_ignore : RunContext → Option RunFailure × RunContext
      unfolding filter_entries load_rules put_artifact
      execute_ignore run = execute_entries run run.entries

      unfoldable pub ignore_engine : Engine
      unfolding execute_ignore
      ignore_engine = record {
        name = text "ignore";
        version = ignore_version;
        description = text "Loads ordered ignore rules and excludes matching repository entries";
        execute = execute_ignore;
      }
