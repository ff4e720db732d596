-- ===== src/Rie/Pipeline.antt =====
-- The pipeline of engines (backend/rie/pipeline.go).
--
-- An engine's `Execute`, with its context, is a function of the run. The texts of errors are the
-- parameter `message`.
pub mod Order
use software_engineering_pla.Shared.{ℕ, Bool, true, false, List, [], ◌∷◌, ◌++◌, Option, none, some}
use software_engineering_pla.Die.Text.{Text, text, text_eq}
use software_engineering_pla.Rie.Run.{
  Diagnostic, RunFailure, run_context_required, nil_engine, already_registered, executed, Artifacts,
  reset_artifacts, validate_run_config, EngineMetadata, RunContext,
}

pub record Engine : Type 0 where
  pub name : Text
  pub version : Text
  pub description : Text
  pub execute : RunContext → Option RunFailure × RunContext

abbrev pub metadata_of : Engine → EngineMetadata
metadata_of e = record { name = e.name; version = e.version; description = e.description }

abbrev pub is_registered : Text → List Engine → Bool
is_registered name [] = false
is_registered name (e ∷ engines) = elim (text_eq e.name name) [
  | true ↦ true
  | false ↦ is_registered name engines
]

abbrev pub register_named : Bool → Engine → List Engine → Option RunFailure × List Engine
register_named true e engines = (some (already_registered e.name), engines)
register_named false e engines = (none, engines ++ e ∷ [])

-- `Register`; a nil engine is `none`
unfoldable pub register_engine : Option Engine → List Engine → Option RunFailure × List Engine
register_engine none engines = (some nil_engine, engines)
register_engine (some e) engines = register_named (is_registered e.name engines) e engines

abbrev store_of : Option Artifacts → Option Artifacts
store_of none = some []
store_of (some m) = reset_artifacts (some m)

-- the report that `Run` begins with
unfoldable pub fresh_run : RunContext → RunContext
unfolding reset_artifacts
fresh_run r = record r {
  root_path = [];
  artifacts = store_of r.artifacts;
  statistics = record { files = 0; folders = 0 };
  ignore = record { rules = 0; ignored_files = 0; ignored_folders = 0; sources = [] };
  warnings = [];
  errors = [];
  engines = [];
}

module _ (message : RunFailure → Text) where
  abbrev pub failure_diagnostic : Engine → RunFailure → Diagnostic
  failure_diagnostic e f = record {
    engine = e.name;
    code = text "execution_failed";
    message = message f;
    path = [];
  }

  abbrev pub failed_with : Engine → RunFailure → RunContext → RunContext
  failed_with e f r = record r { errors = r.errors ++ failure_diagnostic e f ∷ [] }

  abbrev pub completed : Engine → RunContext → RunContext
  completed e r = record r { engines = r.engines ++ metadata_of e ∷ [] }

  -- the loop over the engines
  unfoldable pub run_engines : List Engine → RunContext → Option RunFailure × RunContext
  run_engines [] r = (none, r)
  run_engines (e ∷ engines) r =
      let (failed, after) = e.execute r in
      elim failed [
        | some f ↦ (some (executed e.name e.version f), failed_with e f after)
        | none ↦ run_engines engines (completed e after)
      ]

  abbrev pub configuration_diagnostic : RunFailure → Diagnostic
  configuration_diagnostic f = record {
    engine = text "pipeline";
    code = text "invalid_configuration";
    message = message f;
    path = [];
  }

  -- the run behind the check of its configuration
  abbrev pub run_validated :
      List Engine → RunContext → Option RunFailure → Option RunFailure × Option RunContext
  run_validated engines begun (some f) =
      (some f, some (record begun { errors = begun.errors ++ configuration_diagnostic f ∷ [] }))
  run_validated engines begun none = let (f, after) = run_engines engines begun in (f, some after)

  -- `Run`; a nil run context is `none`
  unfoldable pub run_pipeline :
      List Engine → Option RunContext → Option RunFailure × Option RunContext
  unfolding run_engines fresh_run validate_run_config
  run_pipeline engines none = (some run_context_required, none)
  run_pipeline engines (some r) = run_validated engines (fresh_run r) (validate_run_config r.config)
