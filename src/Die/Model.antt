-- ===== src/Die/Model.antt =====
-- The values, errors and limits of the dependency engine: backend/die (model.go, errors.go,
-- config.go, analysis_config.go). The string types of kinds are texts, as they are in the source;
-- `uint64` and `uint32` values are numbers.
use Prim.Native.String.{String}
use software_engineering_pla.Shared.{
  ℕ, ◌≡◌, refl, ◌⊎◌, inl, inr, Bool, ◌||◌, List, ltb, ◌==◌, if◌then◌else◌,
}
use software_engineering_pla.Shared.Int.{ℤ}
use software_engineering_pla.Die.Text.{Text, text, text_eq}

pub data ErrorKind : Type 0 where
  invalid_input integrity limit_exceeded canceled internal : ErrorKind

-- an error's kind and code
pub data Error : Type 0 where
  error : ErrorKind → String → Error

-- a value or the error that a Go function returns in its place
pub data Result {ℓ} (V : Type ℓ) : Type ℓ where
  err : Error → Result V
  ok : V → Result V

-- `if !holds { return failure }`
abbrev pub require : Bool → Error → Result (Unit {0})
require holds failure = if holds then ok tt else err failure

module _ {ℓ κ} {V : Type ℓ} {W : Type κ} where
  -- `if err != nil { return err }` between two calls
  infixl 5 ◌>>=◌
  abbrev pub ◌>>=◌ : Result V → (V → Result W) → Result W
  err failure >>= next = err failure
  ok value >>= next = next value

module _ {κ} {W : Type κ} where
  infixl 5 ◌>>◌
  abbrev pub ◌>>◌ : Result (Unit {0}) → Result W → Result W
  err failure >> next = err failure
  ok _ >> next = next

-- where a chain of calls succeeds, each call has
pub bind_ok {ℓ κ} :
    {V : Type ℓ} {W : Type κ} (x : Result V) (next : V → Result W) (w : W)
    → (x >>= next) ≡ ok w
    → (v : V) × (x ≡ ok v) × (next v ≡ ok w)
bind_ok (err failure) next w e = absurd (cc)
bind_ok (ok v) next w e = (v, refl, e)

pub ok_value {ℓ} : {V : Type ℓ} (v w : V) → ok v ≡ ok w → v ≡ w
ok_value v w e = cc

pub then_ok {κ} :
    {W : Type κ} (x : Result (Unit {0})) (next : Result W) (w : W)
    → (x >> next) ≡ ok w
    → next ≡ ok w
then_ok (err failure) next w e = absurd (cc)
then_ok (ok v) next w e = e

pub Result-cases {ℓ} :
    {A : Type ℓ} (x : Result A) → ((a : A) × (x ≡ ok a)) ⊎ ((e : Error) × (x ≡ err e))
Result-cases (ok a) = inl (a, refl)
Result-cases (err e) = inr (e, refl)

abbrev pub valid_graph : Text → Bool
valid_graph v = text_eq v (text "module") || (text_eq v (text "package") || text_eq v (text "file"))

abbrev pub valid_node : Text → Bool
valid_node v =
    text_eq v (text "module")
    || (text_eq v (text "package")
        || (text_eq v (text "file")
            || (text_eq v (text "standard_library")
                || (text_eq v (text "external_package") || text_eq v (text "unresolved")))))

abbrev pub valid_dependency : Text → Bool
valid_dependency v = text_eq v (text "imports") || text_eq v (text "references")

abbrev pub valid_containment : Text → Bool
valid_containment v =
    text_eq v (text "module_contains_package") || text_eq v (text "package_contains_file")

abbrev pub valid_resolution : Text → Bool
valid_resolution v =
    text_eq v (text "resolved_local")
    || (text_eq v (text "standard_library")
        || (text_eq v (text "external")
            || (text_eq v (text "unresolved")
                || (text_eq v (text "ambiguous") || text_eq v (text "stale")))))

pub record ArtifactReference : Type 0 where
  pub name : Text
  pub version : Text
  pub digest : Text

pub record SourceIdentity : Type 0 where
  pub artifact_name : Text
  pub artifact_version : Text
  pub source_id : Text

pub record DependencyEvidence : Type 0 where
  pub source : SourceIdentity
  pub file : Text
  pub start_line : ℤ
  pub start_column : ℤ
  pub rule : Text
  pub value : Text

pub record NodeIdentity : Type 0 where
  pub kind : Text
  pub language : Text
  pub qualified_name : Text
  pub repository_path : Text
  pub resolution : Text

pub record NodeCandidate : Type 0 where
  pub identity : NodeIdentity
  pub name : Text
  pub source_identity : SourceIdentity
  pub evidence : List DependencyEvidence

pub record ContainmentCandidate : Type 0 where
  pub kind : Text
  pub parent : NodeIdentity
  pub child : NodeIdentity
  pub evidence : List DependencyEvidence

pub record DependencyCandidate : Type 0 where
  pub graph : Text
  pub kind : Text
  pub source : NodeIdentity
  pub target : NodeIdentity
  pub resolution : Text
  pub evidence : List DependencyEvidence

pub record DiagnosticCandidate : Type 0 where
  pub code : Text
  pub graph : Text
  pub file : Text
  pub start_line : ℤ
  pub start_column : ℤ
  pub stable_id : Text
  pub message : Text

pub record GraphInput : Type 0 where
  pub source_artifacts : List ArtifactReference
  pub nodes : List NodeCandidate
  pub containment : List ContainmentCandidate
  pub dependencies : List DependencyCandidate
  pub diagnostics : List DiagnosticCandidate

pub record DependencyNode : Type 0 where
  pub id : Text
  pub identity : NodeIdentity
  pub name : Text
  pub source_identity : SourceIdentity
  pub evidence : List DependencyEvidence

pub record ContainmentEdge : Type 0 where
  pub id : Text
  pub kind : Text
  pub parent_id : Text
  pub child_id : Text
  pub evidence : List DependencyEvidence
  pub omitted_evidence : ℕ

pub record DependencyEdge : Type 0 where
  pub id : Text
  pub graph : Text
  pub kind : Text
  pub from_node_id : Text
  pub to_node_id : Text
  pub resolution : Text
  pub occurrences : ℕ
  pub evidence : List DependencyEvidence
  pub omitted_evidence : ℕ

pub record Config : Type 0 where
  pub max_nodes : ℕ
  pub max_edges : ℕ
  pub max_evidence_per_item : ℕ
  pub max_diagnostics : ℕ

abbrev pub or_default : ℕ → ℕ → ℕ
or_default value default = if value == 0 then default else value

-- `NewConfig`: a `ConfigParams` has the fields of a `Config`
unfoldable pub new_config : Config → Result Config
new_config params =
    let c : Config = record {
      max_nodes = or_default params.max_nodes 1000000;
      max_edges = or_default params.max_edges 2000000;
      max_evidence_per_item = or_default params.max_evidence_per_item 8;
      max_diagnostics = or_default params.max_diagnostics 1000;
    } in
    if ltb 10000000 c.max_nodes
    then err (error invalid_input "invalid_max_nodes")
    else if ltb 20000000 c.max_edges
    then err (error invalid_input "invalid_max_edges")
    else if ltb 1024 c.max_evidence_per_item
    then err (error invalid_input "invalid_max_evidence")
    else if ltb 1000000 c.max_diagnostics
    then err (error invalid_input "invalid_max_diagnostics")
    else ok c
