-- ===== src/Jobs/Promote.antt =====
-- media_promotion.go: a finished job's outputs are stored and its version becomes the asset's, or
-- its version fails; both only under the lease.
use seta_im_intern.Prelude.{
  ℕ, Bool, true, false, not, ◌&&◌, ◌||◌, none, some, List, [], ◌∷◌, ◌++◌, ◌==◌, if◌then◌else◌,
  length, Table, update_row, matches, is_null, is_value, Result, ok, err, ◌>>=◌, ◌>>◌, refuse_if,
  transaction,
}
use seta_im_intern.Media.{
  Db, Job, JobLease, JobStatus, Version, VersionStatus, Asset, ContentType, Output, OutputKind,
  Policy, same_kind, output_manifest,
}
use seta_im_intern.Jobs.Rows.{
  JobError, incomplete_output_set, version_not_pending, held_by, Times, MediaFailure,
  fail_media_version,
}
use seta_im_intern.Jobs.Claim.{has_active_asset}

pub record MediaCompletion : Type 0 where
  pub job_id : ℕ
  pub version_id : ℕ
  pub org_id : ℕ
  pub asset_id : ℕ
  pub detected_content_type : ContentType
  pub source_width : ℕ
  pub source_height : ℕ
  pub source_sha256 : List ℕ
  pub outputs : List Output

-- `seen[kind]`, the map being the list of the kinds set so far.
abbrev pub has_kind : OutputKind → List OutputKind → Bool
has_kind k [] = false
has_kind k (x ∷ xs) = same_kind x k || has_kind k xs

unfoldable pub collect_kinds : List OutputKind → List Output → Result JobError (List OutputKind)
collect_kinds seen [] = ok seen
collect_kinds seen (o ∷ os) =
    let rest = collect_kinds (o.kind ∷ seen) os in
    if has_kind o.kind seen then err incomplete_output_set else rest

unfoldable pub require_policies : List OutputKind → List Policy → Result JobError (Unit {0})
require_policies seen [] = ok tt
require_policies seen (p ∷ ps) =
    let rest = require_policies seen ps in
    if not (has_kind p.kind seen) then err incomplete_output_set else rest

unfoldable pub require_complete_output_set : List Output → Result JobError (Unit {0})
unfolding collect_kinds require_policies
require_complete_output_set outputs = do
  seen ← collect_kinds [] outputs
  require_policies seen output_manifest

-- `ON CONFLICT (version_id, kind) DO NOTHING`
abbrev pub has_output : ℕ → OutputKind → List Output → Bool
has_output v k [] = false
has_output v k (o ∷ os) = (o.version_id == v && same_kind o.kind k) || has_output v k os

unfoldable pub insert_output : Output → List Output → List Output
insert_output o stored = if has_output o.version_id o.kind stored then stored else stored ++ o ∷ []

unfoldable pub insert_outputs : List Output → List Output → List Output
unfolding insert_output
insert_outputs [] stored = stored
insert_outputs (o ∷ os) stored = insert_outputs os (insert_output o stored)

-- The distinct kinds that a version has stored.
unfoldable pub stored_kinds : ℕ → List Output → List OutputKind
stored_kinds v [] = []
stored_kinds v (o ∷ os) =
    let rest = stored_kinds v os in
    if o.version_id == v && not (has_kind o.kind rest) then o.kind ∷ rest else rest

unfoldable pub require_two_stored_outputs : ℕ → List Output → Result JobError (Unit {0})
unfolding stored_kinds
require_two_stored_outputs v stored =
    refuse_if (not (length (stored_kinds v stored) == length output_manifest)) incomplete_output_set

abbrev pub is_unsettled : VersionStatus → Bool
is_unsettled VersionStatus.pending = true
is_unsettled VersionStatus.processing = true
is_unsettled _ = false

abbrev pub completed_version : MediaCompletion → ℕ → Version → Version
completed_version completion now v = record v {
  status = VersionStatus.completed;
  detected_content_type = some completion.detected_content_type;
  source_width = some completion.source_width;
  source_height = some completion.source_height;
  sha256 = completion.source_sha256;
  completed_at = some now;
  activated_at = some now;
}

abbrev pub completed_job : ℕ → Job → Job
completed_job now j = record j {
  status = JobStatus.completed;
  stage = none;
  completed_at = some now;
  lease_owner = none;
  lease_expires_at = none;
}

abbrev pub is_candidate : MediaCompletion → Asset → Bool
is_candidate completion a =
    is_value a.pending_media_version_id completion.version_id && is_null a.deleted_at

unfoldable pub promote_active_version :
    MediaCompletion → Table Asset → Result JobError (Table Asset)
promote_active_version completion assets =
    if matches assets completion.asset_id (is_candidate completion)
    then ok (
        update_row assets completion.asset_id (is_candidate completion) (λ a. record a {
          active_media_version_id = some completion.version_id;
          pending_media_version_id = none;
        }))
    else err version_not_pending

unfoldable pub complete_work : Times → MediaCompletion → JobLease → Db → Result JobError (Db × Bool)
unfolding insert_outputs require_two_stored_outputs promote_active_version
complete_work at completion held db =
    if matches db.jobs completion.job_id (held_by held (at 0))
    then (do
      let outputs = insert_outputs completion.outputs db.outputs
      require_two_stored_outputs completion.version_id outputs
      let versions =
          update_row db.versions completion.version_id
            (λ v.
              v.org_id == completion.org_id
              && (is_unsettled v.status && has_active_asset db v.asset_id))
            (completed_version completion (at 1))
      assets ← promote_active_version completion db.assets
      let jobs = update_row db.jobs completion.job_id (λ _. true) (completed_job (at 2))
      ok (record db { outputs = outputs; versions = versions; assets = assets; jobs = jobs }, true))
    else ok (db, false)

unfoldable pub complete_checked :
    Times → MediaCompletion → JobLease → Db → Result JobError (Unit {0}) → Db × Result JobError Bool
unfolding complete_work
complete_checked at completion held db (err e) = (db, err e)
complete_checked at completion held db (ok _) = transaction (complete_work at completion held) db

unfoldable pub complete_and_promote :
    Times → MediaCompletion → JobLease → Db → Db × Result JobError Bool
unfolding require_complete_output_set complete_checked
complete_and_promote at completion held db =
    complete_checked at completion held db (require_complete_output_set completion.outputs)

unfoldable pub fail_version : Times → MediaFailure → JobLease → Db → Db × Result JobError Bool
unfolding fail_media_version
fail_version at failure held db =
    if matches db.jobs failure.job_id (held_by held (at 0))
    then (fail_media_version (at 1) (at 2) failure db, ok true)
    else (db, ok false)
