-- ===== src/Rie/Ignore/Filtered.antt =====
-- What a run holds after the ignore engine (backend/rie/ignore/implementation.go, `Execute`).
use mathlib.Core.Bool.{false≢true}
use mathlib.Core.Path.{ap₂}
use software_engineering_pla.Shared.{
  ℕ, suc, ◌+◌, ◌≡◌, refl, sym, ap, subst, ◌∙◌, inl, inr, Bool, true, false, not, List, [], ◌∷◌,
  ◌++◌, Option, none, some, arith, if◌then◌else◌,
}
use software_engineering_pla.Die.Text.{Text, is_empty}
use software_engineering_pla.Rie.Rules.{Texts, Entry, Rule}
use software_engineering_pla.Rie.Run.{
  snapshot_artifact, snapshot_name, artifact_name, RunFailure, as_snapshot,
  repository_snapshot_from, get_artifact_named, RunContext,
}
use software_engineering_pla.Rie.Run.Once.{put_artifact-PutOnce}
use software_engineering_pla.Rie.Ignore.{Files, Loaded, load_rules}
use software_engineering_pla.Rie.Ignore.Execute.{
  Tally, no_entries, count_entry, at_entry, Filtering, interrupted, filtered, stored, is_ignored,
  filter_entries, frozen, finish_filtering, after_filtering, execute_at, execute_entries,
  execute_ignore, ignore_engine,
}
use software_engineering_pla.Rie.Pipeline.Order.{LeavesBookkeeping}

-- the entries of which a test does not hold
abbrev pub without : (Entry → Bool) → List Entry → List Entry
without test [] = []
without test (e ∷ entries) = let rest = without test entries in if test e then rest else e ∷ rest

abbrev pub count_of : (Entry → Bool) → List Entry → ℕ
count_of test [] = 0
count_of test (e ∷ entries) = let rest = count_of test entries in if test e then suc rest else rest

abbrev pub is_folder : Entry → Bool
is_folder e = e.is_dir

abbrev pub is_file : Entry → Bool
is_file e = not e.is_dir

-- what the loop makes of entries
pub record IsTallyOf (ignored : Entry → Bool) (entries : List Entry) (t : Tally) : Type 0 where
  pub entries_kept : t.kept ≡ without ignored entries
  pub files_kept : t.files ≡ count_of is_file (without ignored entries)
  pub folders_kept : t.folders ≡ count_of is_folder (without ignored entries)
  pub all_files : t.files + t.ignored_files ≡ count_of is_file entries
  pub all_folders : t.folders + t.ignored_folders ≡ count_of is_folder entries

count_entry-IsTallyOf :
    (ignored : Entry → Bool) (e : Entry) (entries : List Entry) (t : Tally)
    → IsTallyOf ignored entries t
    → IsTallyOf ignored (e ∷ entries) (count_entry e (ignored e) t)
count_entry-IsTallyOf ignored e entries t h =
    let k = h.entries_kept in
    let f = h.files_kept in
    let d = h.folders_kept in
    let a = h.all_files in
    let b = h.all_folders in
    record {
      entries_kept = ground (arith, k);
      files_kept = ground (arith, f);
      folders_kept = ground (arith, d);
      all_files = ground (arith, a);
      all_folders = ground (arith, b);
    }

-- a run that has its entries filtered, with the artifact that says so
pub record HasFiltered (ignored : Entry → Bool) (loaded : Loaded) (run : RunContext)
    (entries : List Entry) (end : Option RunFailure × RunContext) : Type 0 where
  pub tally : Tally
  pub counts : IsTallyOf ignored entries tally
  pub succeeded : end.0 ≡ none
  pub entries_are : end.1.entries ≡ some (without ignored entries)
  pub statistics_are : end.1.statistics ≡ record { files = tally.files; folders = tally.folders }
  pub ignored_files_are : end.1.ignore.ignored_files ≡ tally.ignored_files
  pub ignored_folders_are : end.1.ignore.ignored_folders ≡ tally.ignored_folders
  pub published : repository_snapshot_from end.1.artifacts ≡ some (frozen run tally)

module _ (x : Texts) (context : ℕ → Option Text) (live : (k : ℕ) → context k ≡ none) where
  filter_entries-IsTallyOf :
      (scan_hidden : Bool) (rules : List Rule) (calls : ℕ) (entries : List Entry)
      → (t : Tally) × (filter_entries x context scan_hidden rules calls entries ≡ filtered t)
        × IsTallyOf (is_ignored x scan_hidden rules) entries t
  unfolding filter_entries
  filter_entries-IsTallyOf scan_hidden rules calls [] = (
    no_entries,
    refl,
    record {
      entries_kept = refl;
      files_kept = refl;
      folders_kept = refl;
      all_files = refl;
      all_folders = refl;
    },
  )
  filter_entries-IsTallyOf scan_hidden rules calls (e ∷ entries) =
      let (t, same, h) = filter_entries-IsTallyOf scan_hidden rules (calls + 1) entries in
      let test = is_ignored x scan_hidden rules in
      (
        count_entry e (test e) t,
        ap₂ (λ c rest. at_entry c e (test e) rest) (live calls) same,
        count_entry-IsTallyOf test e entries t h,
      )

  finish_filtering-HasFiltered :
      (ignored : Entry → Bool) (loaded : Loaded) (run : RunContext) (entries : List Entry)
      (t : Tally)
      → IsTallyOf ignored entries t
      → get_artifact_named snapshot_name (some (stored run.artifacts)) ≡ none
      → HasFiltered ignored loaded run entries (finish_filtering loaded run t)
  unfolding repository_snapshot_from artifact_name get_artifact_named
  finish_filtering-HasFiltered ignored loaded run entries t h free =
      elim (put_artifact-PutOnce (snapshot_artifact (frozen run t)) (stored run.artifacts)) [
        | inl (_, ok, (_, found, _)) ↦ record {
          tally = t;
          counts = h;
          succeeded = ok;
          entries_are = ap some h.entries_kept;
          statistics_are = refl;
          ignored_files_are = refl;
          ignored_folders_are = refl;
          published = ap as_snapshot found;
        }
        | inr (_, inl (empty, _)) ↦ absurd (false≢true empty)
        | inr (_, inr (b, taken, _)) ↦ absurd (ground (arith, free, taken))
      ]

  -- Under a context that does not end, with entries that discovery found and a store without a
  -- snapshot, the engine succeeds: the run keeps exactly the entries that are not ignored, in their
  -- order, the files kept and ignored make up the files that there were, and the folders likewise, and
  -- the snapshot in the store holds what was kept.
  pub execute_ignore-HasFiltered :
      (files : Files) (names : List Text) (run : RunContext) (entries : List Entry)
      → run.entries ≡ some entries
      → is_empty run.root_path ≡ false
      → get_artifact_named snapshot_name (some (stored run.artifacts)) ≡ none
      → let loaded = load_rules x files context names run entries in
        HasFiltered
          (is_ignored x run.config.scan_hidden loaded.rules)
          loaded
          (record run { warnings = run.warnings ++ loaded.warnings })
          entries
          (execute_ignore x context files names run)
  unfolding execute_ignore
  execute_ignore-HasFiltered files names run entries found rooted free =
      let loaded = load_rules x files context names run entries in
      let (t, same, h) =
        filter_entries-IsTallyOf run.config.scan_hidden loaded.rules loaded.calls entries in
      let begun = record run { warnings = run.warnings ++ loaded.warnings } in
      let test = is_ignored x run.config.scan_hidden loaded.rules in
      let steps : execute_ignore x context files names run ≡ finish_filtering loaded begun t =
        ap (execute_entries x context files names run) found
        ∙ (ap (λ b. execute_at x context files names b run entries) rooted
            ∙ ap (after_filtering loaded begun) same) in
      subst (HasFiltered test loaded begun entries) (sym steps)
        (finish_filtering-HasFiltered test loaded begun entries t h free)

module _ (x : Texts) (context : ℕ → Option Text) (files : Files) (names : List Text) where
  abbrev SameBookkeeping : RunContext → Option RunFailure × RunContext → Type 0
  SameBookkeeping r (_, after) = (after.engines ≡ r.engines) × (after.errors ≡ r.errors)

  after_filtering-SameBookkeeping :
      (loaded : Loaded) (run : RunContext) (f : Filtering)
      → SameBookkeeping run (after_filtering loaded run f)
  after_filtering-SameBookkeeping loaded run (interrupted e) = (refl, refl)
  after_filtering-SameBookkeeping loaded run (filtered t) = (refl, refl)

  execute_at-SameBookkeeping :
      (b : Bool) (run : RunContext) (entries : List Entry)
      → SameBookkeeping run (execute_at x context files names b run entries)
  execute_at-SameBookkeeping true run entries = (refl, refl)
  execute_at-SameBookkeeping false run entries =
      after_filtering-SameBookkeeping (load_rules x files context names run entries) _
        (filter_entries x context run.config.scan_hidden _ _ entries)

  execute_entries-SameBookkeeping :
      (run : RunContext) (entries : Option (List Entry))
      → SameBookkeeping run (execute_entries x context files names run entries)
  execute_entries-SameBookkeeping run none = (refl, refl)
  execute_entries-SameBookkeeping run (some entries) =
      execute_at-SameBookkeeping (is_empty run.root_path) run entries

  -- the pipeline's own records pass through the ignore engine
  pub ignore_engine-LeavesBookkeeping : LeavesBookkeeping (ignore_engine x context files names)
  unfolding ignore_engine execute_ignore
  ignore_engine-LeavesBookkeeping run = execute_entries-SameBookkeeping run run.entries
