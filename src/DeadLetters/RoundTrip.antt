-- ===== src/DeadLetters/RoundTrip.antt =====
-- What a replay makes of a job whose notification was isolated.
use seta_im_intern.Prelude.{
  ℕ, ◌≤◌, ◌≡◌, refl, ◌∙◌, inl, inr, true, false, none, some, List, [], ◌∷◌, ◌++◌, ◌==◌, ==_refl,
  arith, Bool-cases, if◌then◌else◌, update_row, update_row-eq-some, matches, is_null, has_key, any,
  ok, err, leb, ltb,
}
use seta_im_intern.Media.{Db, Job, Version, Asset}
use seta_im_intern.Events.{Codec}
use seta_im_intern.Jobs.Rows.{is_open, JobStore, attempts, Times, job_exhausted}
use seta_im_intern.Jobs.Claim.{
  claim_job, claim_of, settle_expired_exhausted_claim, recover_or_explain,
}
use seta_im_intern.Jobs.Settle.{insert_outbox_json, clashes_with}
use seta_im_intern.DeadLetters.Isolate.{isolated_job, isolate_notification, is_isolatable}
use seta_im_intern.DeadLetters.Replay.{
  ReplayRequest, restored_job, replay_row, replay_event, replay, is_quarantine_id, is_isolated,
}

-- What a replay needs: the job of an open row, its version, an asset that is not deleted, an operator
-- that is known, an event that can be built, and an outbox in which it clashes with no other.
pub record IsReplayable (codec : Codec) (user_refs : List ℕ) (now event_id : ℕ)
    (request : ReplayRequest) (db : Db) (job : Job) (version : Version) (asset : Asset)
    (payload : List ℕ) : Type 0 where
  pub is_row : db.jobs request.job_id ≡ some job
  pub opened : is_open job.status ≡ true
  pub not_isolated_yet : job.notification_isolated_at ≡ none
  pub is_version : db.versions job.version_id ≡ some version
  pub same_org : (version.org_id == job.org_id) ≡ true
  pub same_asset : (version.asset_id == job.asset_id) ≡ true
  pub is_asset : db.assets job.asset_id ≡ some asset
  pub undeleted : asset.deleted_at ≡ none
  pub operator_known : has_key user_refs request.operator ≡ true
  pub operator_is_uuid : codec.is_uuid request.operator ≡ true
  pub job_is_uuid : codec.is_uuid request.job_id ≡ true
  pub operator_given : (request.operator == 0) ≡ false
  pub job_given : (request.job_id == 0) ≡ false
  pub quarantine_given : is_quarantine_id request.quarantine_id ≡ true
  pub event_given : (event_id == 0) ≡ false
  pub no_event :
      any (clashes_with (replay_row event_id now request.job_id payload)) db.outbox ≡ false
  pub is_built : replay_event codec user_refs now event_id request.job_id job version ≡ ok payload

module _ (store : JobStore) (at : Times) (owner id now : ℕ) (db : Db) (job : Job) (asset : Asset)
    (owned : (owner == 0) ≡ false) (is_row : db.jobs id ≡ some (restored_job now job))
    (is_asset : db.assets job.asset_id ≡ some asset) (undeleted : asset.deleted_at ≡ none)
    (due : now ≤ at 0) where
  claim_restored : (claim_job store at owner id db).1 ≡ (
      if ltb job.attempt_count (attempts store)
      then ok (claim_of store owner (at 0) (restored_job now job))
      else err job_exhausted)
  unfolding claim_job
  claim_restored = elim (Bool-cases (ltb job.attempt_count (attempts store))) [
    | inl room ↦
        let is_due : leb now (at 0) ≡ true = ground arith in
        rw (owned, is_row, is_asset, undeleted, is_due, room) refl
    | inr used ↦
        let is_due : leb now (at 0) ≡ true = ground arith in
        let full : leb (attempts store) job.attempt_count ≡ true = ground arith in
        rw (owned, is_row, is_asset, undeleted, is_due, used)
          (rw (settle_expired_exhausted_claim, is_row) (rw (recover_or_explain, is_row, full) refl))
  ]

module _ (codec : Codec) (user_refs : List ℕ) (isolated_now now event_id : ℕ)
    (request : ReplayRequest) (db : Db) (job : Job) (version : Version) (asset : Asset)
    (payload : List ℕ)
    (given : IsReplayable codec user_refs now event_id request db job version asset payload) where
  abbrev isolated : Db
  isolated = isolate_notification isolated_now request.job_id db

  abbrev replayed : Db
  replayed = record isolated {
    jobs = update_row isolated.jobs request.job_id is_isolated (restored_job now);
    assets =
        update_row isolated.assets job.asset_id (λ a. is_null a.deleted_at)
          (λ a. record a { updated_by = some request.operator });
    outbox = db.outbox ++ replay_row event_id now request.job_id payload ∷ [];
  }

  isolated_row : isolated.jobs request.job_id ≡ some (isolated_job isolated_now job)
  unfolding isolate_notification
  isolated_row =
      update_row-eq-some db.jobs request.job_id request.job_id is_isolatable
        (isolated_job isolated_now) given.is_row
      ∙ rw (==_refl request.job_id, given.opened, given.not_isolated_yet) refl

  isolated_event :
      replay_event codec user_refs now event_id request.job_id
        (isolated_job isolated_now job)
        version
      ≡ ok payload
  unfolding replay_event
  isolated_event = given.is_built

  isolated_asset : matches db.assets job.asset_id (λ a. is_null a.deleted_at) ≡ true
  isolated_asset = rw (given.is_asset, given.undeleted) refl

  inserted :
      insert_outbox_json (replay_row event_id now request.job_id payload) isolated.outbox
      ≡ ok (db.outbox ++ replay_row event_id now request.job_id payload ∷ [])
  unfolding insert_outbox_json isolate_notification
  inserted = rw given.no_event refl

  replayed_is : replay codec user_refs now event_id request isolated ≡ (replayed, ok event_id)
  unfolding replay isolate_notification
  replayed_is =
      rw
        (
          isolated_row, given.operator_known, given.is_version, given.same_org, given.same_asset,
          isolated_event, isolated_asset, given.operator_given, given.job_given,
          given.quarantine_given, given.job_is_uuid, given.operator_is_uuid, inserted,
          given.event_given,
        )
        refl

  replayed_row : replayed.jobs request.job_id ≡ some (restored_job now job)
  replayed_row =
      update_row-eq-some isolated.jobs request.job_id request.job_id is_isolated (restored_job now)
        isolated_row
      ∙ rw (==_refl request.job_id) refl

  replayed_asset :
      replayed.assets job.asset_id ≡ some (record asset { updated_by = some request.operator })
  unfolding isolate_notification
  replayed_asset =
      update_row-eq-some db.assets job.asset_id job.asset_id (λ a. is_null a.deleted_at)
        (λ a. record a { updated_by = some request.operator }) given.is_asset
      ∙ rw (==_refl job.asset_id, given.undeleted) refl

  -- After an isolation and a replay, a claim by a worker at the replay's time or later takes the job
  -- exactly if it has attempts left; otherwise it is refused as exhausted, at every time, although the
  -- job is queued. The premises are those of the replay, and the worker has a name.
  pub claim_job-replay :
      (store : JobStore) (at : Times) (owner : ℕ)
      → (owner == 0) ≡ false
      → now ≤ at 0
      → (claim_job store at owner request.job_id
          (replay codec user_refs now event_id request
            (isolate_notification isolated_now request.job_id db)).0).1
        ≡ (if ltb job.attempt_count (attempts store)
            then ok (claim_of store owner (at 0) (restored_job now job))
            else err job_exhausted)
  claim_job-replay store at owner owned due = rw replayed_is (
      claim_restored store at owner request.job_id now replayed job
        (record asset { updated_by = some request.operator }) owned replayed_row replayed_asset
        given.undeleted due)
