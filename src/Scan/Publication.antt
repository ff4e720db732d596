-- ===== src/Scan/Publication.antt =====
-- What a flight publishes (backend/service/repository/scan/implementation.go: `buildPublication`,
-- `publicationMatches`, `executeFingerprint`, `cancelFingerprint`, `fingerprint`, `scanKey`,
-- `requestsEquivalent`).
--
-- SHA-256 is the parameter `sha256`, its hexadecimal encoding `hex`.
use Prim.Native.String.{String}
use software_engineering_pla.Shared.{Bool, true, false, not, ◌&&◌, ◌||◌, List, [], ◌∷◌, ◌++◌, ◌==◌}
use software_engineering_pla.Die.Text.{Text, text, text_eq}
use software_engineering_pla.Repo.Errors.{Outcome, gives, ◌>>=◌}
use software_engineering_pla.Repo.Valid.{Unicode}
use software_engineering_pla.Repo.Values.{
  Time, before, is_zero_time, time_eq, Scope, scope_eq, profile_eq, ScanState, succeeded, Scan,
  Artifact, ScanResult, ExecuteScanRequest, CancelScanRequest,
}
use software_engineering_pla.Repo.Contract.{new_scan, new_artifact}
use software_engineering_pla.Repo.Framing.{frame_fields, new_artifact_id}
use software_engineering_pla.Scan.Model.{
  ArtifactCandidate, sort_candidates, AnalysisResult, PublicationArtifact,
}

abbrev pub is_succeeded : ScanState → Bool
is_succeeded succeeded = true
is_succeeded _ = false

-- the scan of a publication: ids, profile, revision and start of the running scan
abbrev pub finished_scan : Scan → ScanState → Text → Time → Scan
finished_scan running state reason finished = record {
  repository_id = running.repository_id;
  scan_id = running.scan_id;
  profile = running.profile;
  source_revision = running.source_revision;
  state = state;
  reason_code = reason;
  requested_at = running.requested_at;
  started_at = running.started_at;
  finished_at = finished;
}

module _ (u : Unicode) (sha256 hex : Text → Text) where
  abbrev describe_candidate :
      ExecuteScanRequest → Time → ArtifactCandidate → Outcome PublicationArtifact
  describe_candidate request finished c =
      new_artifact_id u sha256 hex request.repository_id request.scan_id c.name c.version
        c.stable_id_scheme
      >>= λ id.
          new_artifact u (record {
            artifact_id = id;
            scan_id = request.scan_id;
            name = c.name;
            version = c.version;
            stable_id_scheme = c.stable_id_scheme;
            codec_name = c.codec_name;
            codec_version = c.codec_version;
            media_type = c.media_type;
            payload_digest = c.payload_digest;
            payload_size = c.payload_size;
            producer_name = c.producer_name;
            producer_version = c.producer_version;
            created_at = finished;
          })
          >>= λ metadata. gives (record { metadata = metadata; payload = c })

  abbrev pub describe_all :
      ExecuteScanRequest → Time → List ArtifactCandidate → Outcome (List PublicationArtifact)
  describe_all request finished [] = gives []
  describe_all request finished (c ∷ cs) = describe_candidate request finished c >>= λ p.
      describe_all request finished cs >>= λ ps. gives (p ∷ ps)

  unfoldable pub build_publication :
      ExecuteScanRequest → Scan → Time → AnalysisResult → Outcome (Scan × List PublicationArtifact)
  build_publication request running finished analysis =
      describe_all request finished (sort_candidates analysis.candidates) >>= λ publication.
      new_scan u (finished_scan running succeeded [] finished) >>= λ scan. gives (scan, publication)

-- set, not before the start of the scan, and in UTC
abbrev pub settled_time : Scan → Time → Bool
settled_time scan t = not (is_zero_time t || (before t scan.started_at || not t.is_utc))

-- the fields of an artifact that the store must keep
abbrev pub artifact_kept : Artifact → Artifact → Bool
artifact_kept left right =
    text_eq left.artifact_id right.artifact_id
    && (text_eq left.scan_id right.scan_id
        && (text_eq left.name right.name
            && (text_eq left.version right.version
                && (text_eq left.stable_id_scheme right.stable_id_scheme
                    && (text_eq left.codec_name right.codec_name
                        && (text_eq left.codec_version right.codec_version
                            && (text_eq left.media_type right.media_type
                                && (text_eq left.payload_digest right.payload_digest
                                    && (left.payload_size == right.payload_size
                                        && (text_eq left.producer_name right.producer_name
                                            && text_eq left.producer_version
                                                right.producer_version))))))))))

abbrev pub artifacts_match : Scan → List Artifact → List PublicationArtifact → Bool
artifacts_match scan [] [] = true
artifacts_match scan (left ∷ artifacts) (p ∷ publication) =
    (artifact_kept left p.metadata && settled_time scan left.created_at)
    && artifacts_match scan artifacts publication
artifacts_match scan _ _ = false

unfoldable pub publication_matches : ScanResult → Scan → List PublicationArtifact → Bool
publication_matches result expected publication =
    let actual = result.scan in
    (text_eq actual.repository_id expected.repository_id
      && (text_eq actual.scan_id expected.scan_id
          && (profile_eq actual.profile expected.profile
              && (text_eq actual.source_revision expected.source_revision
                  && (is_succeeded actual.state
                      && (time_eq actual.requested_at expected.requested_at
                          && (time_eq actual.started_at expected.started_at
                              && settled_time actual actual.finished_at)))))))
    && artifacts_match actual result.artifacts publication

unfoldable pub requests_equivalent : ExecuteScanRequest → ExecuteScanRequest → Bool
requests_equivalent left right =
    scope_eq left.scope right.scope
    && (text_eq left.request_id right.request_id
        && (text_eq left.repository_id right.repository_id
            && (text_eq left.scan_id right.scan_id
                && (text_eq left.source right.source && profile_eq left.profile right.profile))))

unfoldable pub scan_key : Scope → Text → Text → Text
scan_key scope repository_id scan_id =
    scope.scope_id ++ 0 ∷ (scope.principal_id ++ 0 ∷ (repository_id ++ 0 ∷ scan_id))

module _ (sha256 : Text → Text) where
  unfoldable pub fingerprint : String → List Text → Text
  fingerprint domain fields = sha256 (text domain ++ 0 ∷ frame_fields fields)

  unfoldable pub execute_fingerprint : (Text → Text) → ExecuteScanRequest → Text → Text → Text
  unfolding fingerprint
  execute_fingerprint hex request source revision = fingerprint "repository-service-execute/v1" (
      request.request_id
      ∷ request.repository_id
      ∷ request.scan_id
      ∷ request.profile.name
      ∷ request.profile.version
      ∷ hex request.profile.digest
      ∷ hex source
      ∷ revision
      ∷ [])

  unfoldable pub cancel_fingerprint : CancelScanRequest → Text
  unfolding fingerprint
  cancel_fingerprint request =
      fingerprint "repository-service-cancel/v1" (request.repository_id ∷ request.scan_id ∷ [])
