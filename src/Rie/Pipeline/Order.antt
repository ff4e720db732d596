-- ===== src/Rie/Pipeline/Order.antt =====
-- The order of the engines, and where a run ends (backend/rie/pipeline.go).
use mathlib.Core.List.{append_assoc, append-nil}
use software_engineering_pla.Shared.{
  ◌≡◌, refl, sym, ap, subst, ◌∙◌, ◌⊎◌, inl, inr, Bool, true, false, List, [], ◌∷◌, ◌++◌, map,
  Option, none, some, arith, All, Option-cases,
}
use software_engineering_pla.Die.Text.Order.{text_eq-flip}
use software_engineering_pla.Die.Text.{Text, text_eq}
use software_engineering_pla.Rie.Run.{
  validate_run_config, RunFailure, executed, EngineMetadata, RunContext,
}
use software_engineering_pla.Rie.Pipeline.{
  Engine, metadata_of, is_registered, register_engine, register_named, failure_diagnostic,
  failed_with, completed, run_engines, run_validated, configuration_diagnostic, fresh_run,
  run_pipeline,
}

-- no two engines have one name
abbrev pub DistinctNames : List Engine → Type 0
DistinctNames [] = Unit
DistinctNames (e ∷ engines) = (is_registered e.name engines ≡ false) × DistinctNames engines

-- registrations one after another, whatever each returns
unfoldable pub register_each : List (Option Engine) → List Engine → List Engine
unfolding register_engine
register_each [] engines = engines
register_each (e ∷ more) engines = register_each more (register_engine e engines).1

is_registered-append :
    (name : Text) (engines more : List Engine)
    → is_registered name engines ≡ false
    → is_registered name more ≡ false
    → is_registered name (engines ++ more) ≡ false
is_registered-append name [] more h n = n
is_registered-append name (e ∷ engines) more h n =
    ground (arith, h, is_registered-append name engines more, n)

DistinctNames-append :
    (engines : List Engine) (e : Engine)
    → DistinctNames engines
    → is_registered e.name engines ≡ false
    → DistinctNames (engines ++ e ∷ [])
DistinctNames-append [] e h n = (refl, tt)
DistinctNames-append (g ∷ engines) e (f, h) n =
    let apart : text_eq g.name e.name ≡ false = ground (arith, n) in
    let rest : is_registered e.name engines ≡ false = ground (arith, n) in
    (
      is_registered-append g.name engines (e ∷ []) f
          (ground (arith, text_eq-flip g.name e.name apart)),
      DistinctNames-append engines e h rest,
    )

register_named-DistinctNames :
    (b : Bool) (e : Engine) (engines : List Engine)
    → is_registered e.name engines ≡ b
    → DistinctNames engines
    → DistinctNames (register_named b e engines).1
register_named-DistinctNames true e engines n h = h
register_named-DistinctNames false e engines n h = DistinctNames-append engines e h n

register_engine-DistinctNames :
    (e : Option Engine) (engines : List Engine)
    → DistinctNames engines
    → DistinctNames (register_engine e engines).1
unfolding register_engine
register_engine-DistinctNames none engines h = h
register_engine-DistinctNames (some e) engines h =
    register_named-DistinctNames (is_registered e.name engines) e engines refl h

-- Whatever is registered in whatever order, the engines of a pipeline have different names.
pub register_each-DistinctNames :
    (requests : List (Option Engine)) (engines : List Engine)
    → DistinctNames engines
    → DistinctNames (register_each requests engines)
unfolding register_each
register_each-DistinctNames [] engines h = h
register_each-DistinctNames (e ∷ more) engines h =
    register_each-DistinctNames more _ (register_engine-DistinctNames e engines h)

-- an engine that leaves the bookkeeping of the pipeline alone
abbrev pub LeavesBookkeeping : Engine → Type 0
LeavesBookkeeping e =
    (r : RunContext) → ((e.execute r).1.engines ≡ r.engines) × ((e.execute r).1.errors ≡ r.errors)

module _ (message : RunFailure → Text) where
  -- the engines succeed one after another, each on what the one before it left, from one run to another
  abbrev pub Succeed : List Engine → RunContext → RunContext → Type 0
  Succeed [] r after = r ≡ after
  Succeed (e ∷ engines) r after =
      ((e.execute r).0 ≡ none) × Succeed engines (completed message e (e.execute r).1) after

  -- all engines completed, or those before one, whose failure is the only error
  abbrev pub EndsInOrder : List Engine → RunContext → Option RunFailure × RunContext → Type 0
  EndsInOrder engines r (failed, after) =
      ((failed ≡ none)
        × Succeed engines r after
        × (after.engines ≡ r.engines ++ map metadata_of engines)
        × (after.errors ≡ r.errors))
      ⊎ ((before : List Engine) × (e : Engine) × (rest : List Engine) × (f : RunFailure) × (engines
            ≡ before ++ e ∷ rest)
          × ((at : RunContext) × Succeed before r at
              × ((e.execute at).0 ≡ some f)
              × (after ≡ failed_with message e f (e.execute at).1))
          × (failed ≡ some (executed e.name e.version f))
          × (after.engines ≡ r.engines ++ map metadata_of before)
          × (after.errors ≡ r.errors ++ failure_diagnostic message e f ∷ []))

  run_engines-failed :
      (e : Engine) (engines : List Engine) (r : RunContext) (f : RunFailure)
      → (e.execute r).0 ≡ some f
      → run_engines message (e ∷ engines) r
        ≡ (some (executed e.name e.version f), failed_with message e f (e.execute r).1)
  unfolding run_engines
  run_engines-failed e engines r f h = rw h refl

  run_engines-completed :
      (e : Engine) (engines : List Engine) (r : RunContext)
      → (e.execute r).0 ≡ none
      → run_engines message (e ∷ engines) r
        ≡ run_engines message engines (completed message e (e.execute r).1)
  unfolding run_engines
  run_engines-completed e engines r h = rw h refl

  -- behind an engine that completed
  EndsInOrder-step :
      (e : Engine) (engines : List Engine) (r : RunContext) (end : Option RunFailure × RunContext)
      → LeavesBookkeeping e
      → (e.execute r).0 ≡ none
      → EndsInOrder engines (completed message e (e.execute r).1) end
      → EndsInOrder (e ∷ engines) r end
  EndsInOrder-step e engines r (failed, after) l succeeds h =
      let (same, errors_same) = l r in
      let shift : (ms : List EngineMetadata)
          → ((e.execute r).1.engines ++ metadata_of e ∷ []) ++ ms
            ≡ r.engines ++ metadata_of e ∷ ms =
        λ ms.
          append_assoc (e.execute r).1.engines (metadata_of e ∷ []) ms
          ∙ ap (λ v. v ++ metadata_of e ∷ ms) same in
      elim h [
        | inl (f, v, m, n) ↦ inl (f, (succeeds, v), m ∙ shift _, n ∙ errors_same)
        | inr (before, g, rest, f, q, (at, v, x, y), o, m, n) ↦ inr (
          e ∷ before,
          g,
          rest,
          f,
          ap (λ v. e ∷ v) q,
          (at, (succeeds, v), x, y),
          o,
          m ∙ shift _,
          n ∙ ap (λ v. v ++ failure_diagnostic message g f ∷ []) errors_same,
        )
      ]

  run_engines-EndsInOrder :
      (engines : List Engine) (r : RunContext)
      → All LeavesBookkeeping engines
      → EndsInOrder engines r (run_engines message engines r)
  unfolding run_engines
  run_engines-EndsInOrder [] r h = inl (refl, refl, sym (append-nil r.engines), refl)
  run_engines-EndsInOrder (e ∷ engines) r (l, h) = elim (Option-cases (e.execute r).0) [
    | inl n ↦ subst (EndsInOrder (e ∷ engines) r) (sym (run_engines-completed e engines r n)) (
        EndsInOrder-step e engines r
          (run_engines message engines (completed message e (e.execute r).1)) l n
          (run_engines-EndsInOrder engines (completed message e (e.execute r).1) h))
    | inr (f, n) ↦
        let (same, errors_same) = l r in
        subst (EndsInOrder (e ∷ engines) r) (sym (run_engines-failed e engines r f n)) (
          inr (
            [],
            e,
            engines,
            f,
            refl,
            (r, refl, n, refl),
            refl,
            same ∙ sym (append-nil r.engines),
            ap (λ v. v ++ failure_diagnostic message e f ∷ []) errors_same,
          ))
  ]

  -- refused for its configuration before any engine runs, or ended in order from the report that a run
  -- begins with
  abbrev pub EndsRun : List Engine → RunContext → Option RunFailure × Option RunContext → Type 0
  EndsRun engines r (failed, none) = ⊥
  EndsRun engines r (failed, some after) =
      ((f : RunFailure) × (validate_run_config r.config ≡ some f)
        × (failed ≡ some f)
        × (after.engines ≡ [])
        × (after.errors ≡ configuration_diagnostic message f ∷ []))
      ⊎ ((validate_run_config r.config ≡ none) × EndsInOrder engines (fresh_run r) (failed, after))

  run_validated-EndsRun :
      (engines : List Engine) (r : RunContext) (v : Option RunFailure)
      → validate_run_config r.config ≡ v
      → All LeavesBookkeeping engines
      → EndsRun engines r (run_validated message engines (fresh_run r) v)
  unfolding fresh_run
  run_validated-EndsRun engines r (some f) e h = inl (f, e, refl, refl, refl)
  run_validated-EndsRun engines r none e h =
      inr (e, run_engines-EndsInOrder engines (fresh_run r) h)

  -- Where the engines leave the bookkeeping of the pipeline alone, a run is refused for its
  -- configuration before any engine runs, which is its only error; or all engines succeed in order,
  -- each on what the one before it left, are recorded as completed, and there is no error; or those
  -- before one succeed so and are recorded, that one fails, and its failure is returned and recorded as
  -- the only error, in the run that it left.
  pub run_pipeline-EndsRun :
      (engines : List Engine) (r : RunContext)
      → All LeavesBookkeeping engines
      → EndsRun engines r (run_pipeline message engines (some r))
  unfolding run_pipeline
  run_pipeline-EndsRun engines r h =
      run_validated-EndsRun engines r (validate_run_config r.config) refl h
