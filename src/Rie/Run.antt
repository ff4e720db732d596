-- ===== src/Rie/Run.antt =====
-- What the engines of a pipeline share: the run context with the report (backend/rie/model.go,
-- backend/rie/config.go), the artifacts of a run (backend/rie/artifact.go) and the errors
-- (backend/rie/errors.go).
--
-- The sections of the report that other engines write, and the times of a run, are left out. A map of
-- artifacts is an association list.
pub mod Once
use software_engineering_pla.Shared.{ℕ, Bool, true, false, List, [], ◌∷◌, Option, none, some}
use software_engineering_pla.Shared.Int.{ℤ, pos, ltb_ℤ}
use software_engineering_pla.Die.Text.{Text, text, is_empty, lookup, insert}
use software_engineering_pla.Rie.Rules.{Entry}

pub record Diagnostic : Type 0 where
  pub engine : Text
  pub code : Text
  pub message : Text
  pub path : Text

pub record Statistics : Type 0 where
  pub files : ℕ
  pub folders : ℕ

pub record IgnoreSummary : Type 0 where
  pub rules : ℕ
  pub ignored_files : ℕ
  pub ignored_folders : ℕ
  pub sources : List Text

pub record RepositorySnapshot : Type 0 where
  pub root_path : Text
  pub entries : List Entry
  pub statistics : Statistics
  pub diagnostics : List Diagnostic
  pub engine_version : Text

-- the snapshot, or what another engine made, with its name and version
pub data Artifact : Type 0 where
  snapshot_artifact : RepositorySnapshot → Artifact
  produced : Text → Text → Artifact

abbrev pub snapshot_name : Text
snapshot_name = text "repository-snapshot"

unfoldable pub artifact_name : Artifact → Text
artifact_name (snapshot_artifact _) = snapshot_name
artifact_name (produced name version) = name

-- `executed` is the error that `Run` wraps, `ended` that of the context, `invalid_configuration` one of
-- `Validate`
pub data RunFailure : Type 0 where
  run_context_required nil_engine nil_artifact artifact_name_required discovery_required :
      RunFailure
  already_exists already_registered ended invalid_configuration other_failure : Text → RunFailure
  executed : Text → Text → RunFailure → RunFailure

abbrev pub Artifacts : Type 0
Artifacts = List (Text × Artifact)

abbrev pub put_named : Text → Artifact → Option Artifact → Artifacts → Option RunFailure × Artifacts
put_named name a (some _) m = (some (already_exists name), m)
put_named name a none m = (none, insert name a m)

abbrev pub put_checked : Bool → Artifact → Artifacts → Option RunFailure × Artifacts
put_checked true a m = (some artifact_name_required, m)
put_checked false a m = put_named (artifact_name a) a (lookup (artifact_name a) m) m

-- `Put`; a nil artifact is `none`
unfoldable pub put_artifact : Option Artifact → Artifacts → Option RunFailure × Artifacts
put_artifact none m = (some nil_artifact, m)
put_artifact (some a) m = put_checked (is_empty (artifact_name a)) a m

-- `Get`; a nil store is `none`
unfoldable pub get_artifact_named : Text → Option Artifacts → Option Artifact
get_artifact_named name none = none
get_artifact_named name (some m) = lookup name m

-- `Reset`
unfoldable pub reset_artifacts : Option Artifacts → Option Artifacts
reset_artifacts none = none
reset_artifacts (some m) = some []

abbrev pub as_snapshot : Option Artifact → Option RepositorySnapshot
as_snapshot none = none
as_snapshot (some (snapshot_artifact s)) = some s
as_snapshot (some (produced _ _)) = none

-- `RepositorySnapshotFrom`, with the assertion of the type in `ArtifactAs`
unfoldable pub repository_snapshot_from : Option Artifacts → Option RepositorySnapshot
unfolding get_artifact_named
repository_snapshot_from m = as_snapshot (get_artifact_named snapshot_name m)

pub record RunConfig : Type 0 where
  pub max_workers : ℤ
  pub ignore_patterns : List Text
  pub max_file_size : ℤ
  pub scan_hidden : Bool

-- `Validate`
unfoldable pub validate_run_config : RunConfig → Option RunFailure
validate_run_config c = elim (ltb_ℤ c.max_workers (pos 1)) [
  | true ↦ some (invalid_configuration (text "max workers must be at least 1"))
  | false ↦ elim (ltb_ℤ c.max_file_size (pos 0)) [
    | true ↦ some (invalid_configuration (text "max file size cannot be negative"))
    | false ↦ none
  ]
]

pub record EngineMetadata : Type 0 where
  pub name : Text
  pub version : Text
  pub description : Text

-- `RunContext` and its `Report`; slices that are nil are `none`
pub record RunContext : Type 0 where
  pub config : RunConfig
  pub root_path : Text
  pub entries : Option (List Entry)
  pub artifacts : Option Artifacts
  pub statistics : Statistics
  pub ignore : IgnoreSummary
  pub warnings : List Diagnostic
  pub errors : List Diagnostic
  pub engines : List EngineMetadata
