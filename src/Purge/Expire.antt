-- ===== src/Purge/Expire.antt =====
-- ExpireUploadSessions of repository/media_purge.go. The time of the listing and, for each candidate by
-- its position, those of the transition and of the deferral are arguments.
use seta_im_intern.Prelude.{
  ℕ, suc, ◌+◌, Bool, true, false, ◌&&◌, ◌||◌, Option, none, some, List, [], ◌∷◌, map, filter, take,
  sort_by, ltb, leb, ◌==◌, if◌then◌else◌, any, Result, ok, err, ◌>>=◌, transaction,
}
use seta_im_intern.Media.{Db, Usage, Session, is_created}
use seta_im_intern.Uploads.Rows.{UploadError, record_not_found, update_sessions}
use seta_im_intern.Uploads.Quota.{release_reservation, expired_session}

pub record ExpirableUploadSession : Type 0 where
  pub upload_id : ℕ
  pub org_id : ℕ
  pub expected_size_bytes : ℕ

abbrev pub expirable_of : Session → ExpirableUploadSession
expirable_of s = record {
  upload_id = s.id;
  org_id = s.org_id;
  expected_size_bytes = s.expected_size_bytes;
}

abbrev pub is_abandoned : ℕ → Session → Bool
is_abandoned now s = is_created s.state && leb s.session_expires_at now

-- ORDER BY updated_at, session_expires_at, id
abbrev pub is_listed_first : Session → Session → Bool
is_listed_first a b =
    ltb a.updated_at b.updated_at
    || (a.updated_at == b.updated_at
        && (ltb a.session_expires_at b.session_expires_at
            || (a.session_expires_at == b.session_expires_at && leb a.id b.id)))

unfoldable pub list_expirable : ℕ → ℕ → List Session → List ExpirableUploadSession
list_expirable now limit sessions =
    map expirable_of (take limit (sort_by is_listed_first (filter (is_abandoned now) sessions)))

abbrev pub is_candidate : ℕ → ExpirableUploadSession → Session → Bool
is_candidate now c s = s.id == c.upload_id && (s.org_id == c.org_id && is_abandoned now s)

abbrev pub touched_session : ℕ → Session → Session
touched_session now s = record s { updated_at = now }

unfoldable pub defer_expiry_candidate : ℕ → ExpirableUploadSession → Db → Db
defer_expiry_candidate now c db = record db {
  sessions = update_sessions (is_candidate now c) (touched_session now) db.sessions;
}

abbrev pub usage_row : Option Usage → Result UploadError Usage
usage_row none = err record_not_found
usage_row (some u) = ok u

unfoldable pub expire_work : ℕ → ExpirableUploadSession → Db → Result UploadError (Db × Bool)
unfolding release_reservation
expire_work now c db = do
  usage ← usage_row (db.usage c.org_id)
  (if any (is_candidate now c) db.sessions
      then ok (
        release_reservation c.org_id c.expected_size_bytes (record db {
          sessions = update_sessions (is_candidate now c) (expired_session now) db.sessions;
        }),
        true,
      )
      else ok (db, false))

unfoldable pub expire_candidate : ℕ → ExpirableUploadSession → Db → Db × Result UploadError Bool
unfolding expire_work
expire_candidate now c db = transaction (expire_work now c) db

-- The next database with the counts of the sessions expired and of the failures.
abbrev pub expired_or_deferred :
    ℕ → ExpirableUploadSession → Db × Result UploadError Bool → Db × ℕ × ℕ
expired_or_deferred now c (db, ok true) = (db, 1, 0)
expired_or_deferred now c (db, ok false) = (db, 0, 0)
expired_or_deferred now c (db, err e) = (defer_expiry_candidate now c db, 0, 1)

unfoldable pub expire_candidates : (ℕ → ℕ → ℕ) → ℕ → List ExpirableUploadSession → Db → Db × ℕ × ℕ
unfolding expire_candidate defer_expiry_candidate
expire_candidates at i [] db = (db, 0, 0)
expire_candidates at i (c ∷ candidates) db =
    let (db', expired, failures) =
      expired_or_deferred (at i 1) c (expire_candidate (at i 0) c db) in
    let (db'', expired', failures') = expire_candidates at (suc i) candidates db' in
    (db'', expired + expired', failures + failures')

unfoldable pub expire_upload_sessions : ℕ → (ℕ → ℕ → ℕ) → ℕ → Db → Db × ℕ × ℕ
unfolding list_expirable expire_candidates
expire_upload_sessions now at limit db =
    if limit == 0
    then (db, 0, 0)
    else expire_candidates at 0 (list_expirable now limit db.sessions) db
