-- ===== src/UploadTests.antt =====
-- Runs of the upload operations on a small database, and the theorems about them at those inputs.
use seta_im_intern.Prelude.{
  ℕ, ◌≡◌, refl, true, none, List, [], ◌∷◌, no_rows, put_row, ok, err, arith,
}
use seta_im_intern.Media.{Db, Asset, png, JobStatus, SessionState}
use seta_im_intern.Events.{Codec}
use seta_im_intern.Uploads.Rows.{CreateRequest, CreateOptions, Readings, Scope, quota_exceeded}
use seta_im_intern.Uploads.Sessions.{create_upload_session}
use seta_im_intern.Uploads.Close.{cancel_upload_session, transition_open_upload_session}
use seta_im_intern.Uploads.Commit.{CommitIds, ObjectAttributes, Acceptance, commit_upload}
use seta_im_intern.Uploads.Ledger.{IsBalanced}
use seta_im_intern.Uploads.Ledger.Runs.{create, commit, Run, here, next, Run-IsBalanced}
use seta_im_intern.Uploads.Closed.{cancel_upload_session-final}

abbrev codec : Codec
codec = record {
  is_uuid = λ n. true;
  encode = λ e p. e.event_id ∷ p.asset_id ∷ p.upload_id ∷ p.version_id ∷ p.job_id ∷ [];
}

abbrev digest : List ℕ → List ℕ
digest text = text

abbrev asset : Asset
asset = record {
  org_id = 5;
  active_media_version_id = none;
  pending_media_version_id = none;
  deleted_at = none;
  folder_deleted_at = none;
  updated_by = none;
}

abbrev empty : Db
empty = record {
  usage = no_rows;
  sessions = [];
  versions = no_rows;
  jobs = no_rows;
  assets = put_row no_rows 10 asset;
  outputs = [];
  outbox = [];
  version_by_upload = no_rows;
  job_by_version = no_rows;
}

abbrev checksum : List ℕ
checksum =
    1 ∷ 2 ∷ 3 ∷ 4 ∷ 5 ∷ 6 ∷ 7 ∷ 8 ∷ 9 ∷ 10 ∷ 11 ∷ 12 ∷ 13 ∷ 14 ∷ 15 ∷ 16 ∷ 17 ∷ 18 ∷ 19 ∷ 20 ∷ 21
    ∷ 22 ∷ 23 ∷ 24 ∷ 25 ∷ 26 ∷ 27 ∷ 28 ∷ 29 ∷ 30 ∷ 31 ∷ 32 ∷ []

abbrev request : CreateRequest
request = record {
  org_id = 5;
  asset_id = 10;
  requested_by = 7;
  idempotency_key = 8;
  original_filename = 9;
  declared_content_type = png;
  expected_size_bytes = 600;
  declared_checksum = checksum;
}

abbrev options : CreateOptions
options = record {
  upload_id = 30;
  raw_object_key = 40;
  default_quota_bytes = 1000;
  credential_expires_at = 150;
  session_expires_at = 200;
}

abbrev scope : Scope
scope = record { org_id = 5; asset_id = 10; upload_id = 30; requested_by = 7 }

abbrev ids : CommitIds
ids = record { version_id = 20; job_id = 50; outbox_id = 60 }

abbrev attributes : ObjectAttributes
attributes = record { size_bytes = 600; content_type = png; checksum = checksum }

abbrev at_100 : Readings
at_100 n = 100

abbrev pub opened : Db
opened = (create_upload_session at_100 request options digest empty).0

abbrev pub accepted : Db
accepted = (commit_upload codec at_100 0 ids scope attributes opened opened).0

abbrev acceptance : Acceptance
acceptance = record { version_id = 20; job_id = 50; status = JobStatus.queued; accepted_at = 100 }

empty-IsBalanced : IsBalanced empty
empty-IsBalanced = record {
  distinct = tt;
  one_open = λ a. omega arith;
  reserved = λ o. refl;
  within = λ k r e. ground arith;
}

run : Run codec digest empty accepted
run =
    next (next here (create at_100 request options refl))
      (commit at_100 0 ids scope attributes opened refl)

Run-IsBalanced_example : IsBalanced accepted
Run-IsBalanced_example = Run-IsBalanced codec digest run empty-IsBalanced

-- A second upload does not fit beside the stored bytes.
over_quota :
    (create_upload_session at_100
      (record request { idempotency_key = 81; expected_size_bytes = 401 })
      (record options { upload_id = 31; raw_object_key = 41 })
      digest
      (record accepted { assets = put_row no_rows 10 asset })).1
    ≡ err quota_exceeded
unfolding create_upload_session commit_upload
over_quota = refl

-- The event was published since.
abbrev published_db : Db
published_db = record accepted { outbox = [] }

abbrev cancelled_db : Db
cancelled_db = (cancel_upload_session 120 scope opened).0

cancels : cancel_upload_session 120 scope opened ≡ (cancelled_db, ok tt)
unfolding create_upload_session cancel_upload_session
cancels = refl

cancel_upload_session-final_example :
    transition_open_upload_session SessionState.expired 300 scope cancelled_db
    ≡ (cancelled_db, ok tt)
cancel_upload_session-final_example =
    cancel_upload_session-final 120 300 scope opened cancelled_db SessionState.expired cancels refl
