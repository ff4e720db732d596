-- ===== src/Repo/Values.antt =====
-- The values of the repository service (backend/service/repository/model.go).
--
-- A struct whose fields are private is its fields. An instant counts nanoseconds from the zero
-- time, and says whether its location is UTC. A digest is a list of bytes.
use software_engineering_pla.Shared.{
  ℕ, zero, suc, Bool, true, false, not, ◌&&◌, ◌||◌, List, [], ◌∷◌,
}
use software_engineering_pla.Shared.Int.{ℤ, pos, ltb_ℤ}
use software_engineering_pla.Die.Text.{Text, text_eq, is_empty}

pub record Time : Type 0 where
  pub instant : ℤ
  pub is_utc : Bool

abbrev pub before : Time → Time → Bool
before a b = ltb_ℤ a.instant b.instant

abbrev pub is_zero_time : Time → Bool
is_zero_time t = not (ltb_ℤ t.instant (pos 0) || ltb_ℤ (pos 0) t.instant)

abbrev pub utc : Time → Time
utc t = record t { is_utc = true }

abbrev pub bool_eq : Bool → Bool → Bool
bool_eq true b = b
bool_eq false b = not b

-- `==` of two times
abbrev pub time_eq : Time → Time → Bool
time_eq a b = not (before a b || before b a) && bool_eq a.is_utc b.is_utc

abbrev pub is_zero_digest : Text → Bool
is_zero_digest [] = true
is_zero_digest (zero ∷ d) = is_zero_digest d
is_zero_digest (suc _ ∷ d) = false

pub record Scope : Type 0 where
  pub scope_id : Text
  pub principal_id : Text

abbrev pub is_zero_scope : Scope → Bool
is_zero_scope s = is_empty s.scope_id || is_empty s.principal_id

abbrev pub scope_eq : Scope → Scope → Bool
scope_eq a b = text_eq a.scope_id b.scope_id && text_eq a.principal_id b.principal_id

pub record AnalysisProfile : Type 0 where
  pub name : Text
  pub version : Text
  pub digest : Text

abbrev pub is_zero_profile : AnalysisProfile → Bool
is_zero_profile p = is_empty p.name || (is_empty p.version || is_zero_digest p.digest)

abbrev pub profile_eq : AnalysisProfile → AnalysisProfile → Bool
profile_eq a b = text_eq a.name b.name && (text_eq a.version b.version && text_eq a.digest b.digest)

pub data RepositoryState : Type 0 where
  active archived purge_pending : RepositoryState

pub data ScanState : Type 0 where
  requested running succeeded failed canceled : ScanState

pub data Disposition : Type 0 where
  created already_present joined : Disposition

-- `RepositoryParams`
pub record Repository : Type 0 where
  pub repository_id : Text
  pub display_name : Text
  pub source_kind : Text
  pub fingerprint_scheme : Text
  pub fingerprint : Text
  pub state : RepositoryState
  pub current_scan_id : Text
  pub created_at : Time
  pub updated_at : Time

-- `ScanParams`
pub record Scan : Type 0 where
  pub repository_id : Text
  pub scan_id : Text
  pub profile : AnalysisProfile
  pub source_revision : Text
  pub state : ScanState
  pub reason_code : Text
  pub requested_at : Time
  pub started_at : Time
  pub finished_at : Time

-- `ArtifactParams`
pub record Artifact : Type 0 where
  pub artifact_id : Text
  pub scan_id : Text
  pub name : Text
  pub version : Text
  pub stable_id_scheme : Text
  pub codec_name : Text
  pub codec_version : Text
  pub media_type : Text
  pub payload_digest : Text
  pub payload_size : ℕ
  pub producer_name : Text
  pub producer_version : Text
  pub created_at : Time

pub record ScanResult : Type 0 where
  pub scan : Scan
  pub artifacts : List Artifact
  pub disposition : Disposition

-- `RepositoryPage`, `ScanPage` and `ArtifactPage`
pub record Page {ℓ} (V : Type ℓ) : Type ℓ where
  pub items : List V
  pub next : Text

pub record RegisterRepositoryRequest : Type 0 where
  pub scope : Scope
  pub request_id : Text
  pub repository_id : Text
  pub display_name : Text
  pub source : Text

pub record RepositoryQuery : Type 0 where
  pub scope : Scope
  pub repository_id : Text

pub record RepositoryListRequest : Type 0 where
  pub scope : Scope
  pub page_size : ℤ
  pub cursor : Text

pub record ArchiveRepositoryRequest : Type 0 where
  pub scope : Scope
  pub request_id : Text
  pub repository_id : Text

pub record ExecuteScanRequest : Type 0 where
  pub scope : Scope
  pub request_id : Text
  pub repository_id : Text
  pub scan_id : Text
  pub source : Text
  pub profile : AnalysisProfile

pub record ScanQuery : Type 0 where
  pub scope : Scope
  pub repository_id : Text
  pub scan_id : Text

pub record CancelScanRequest : Type 0 where
  pub scope : Scope
  pub request_id : Text
  pub repository_id : Text
  pub scan_id : Text

pub record ArtifactQuery : Type 0 where
  pub scope : Scope
  pub repository_id : Text
  pub scan_id : Text
  pub artifact_id : Text

-- `ScanListRequest`, and `ArtifactListRequest` with the scan
pub record ScanListRequest : Type 0 where
  pub scope : Scope
  pub repository_id : Text
  pub page_size : ℤ
  pub cursor : Text

pub record ArtifactListRequest : Type 0 where
  pub scope : Scope
  pub repository_id : Text
  pub scan_id : Text
  pub page_size : ℤ
  pub cursor : Text

pub record ProfileArtifact : Type 0 where
  pub name : Text
  pub version : Text
  pub stable_id_scheme : Text

pub record ProfileDefinition : Type 0 where
  pub profile : AnalysisProfile
  pub artifacts : List ProfileArtifact

pub record ExportReceipt : Type 0 where
  pub digest : Text
  pub size : ℕ
