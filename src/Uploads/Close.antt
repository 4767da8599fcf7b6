-- ===== src/Uploads/Close.antt =====
-- CancelUploadSession and ExpireUploadSession of media_repository.go: an open session closes, and
-- its reservation is released.
use seta_im_intern.Prelude.{
  ℕ, Bool, true, false, not, Option, none, some, ltb, if◌then◌else◌, is_some, Result, ok, err,
  ◌>>=◌, ◌>>◌, ◌&&◌, ◌||◌, refuse_if, transaction,
}
use seta_im_intern.Media.{
  Db, Usage, Session, SessionState, created, committed, expired, cancelled, failed,
}
use seta_im_intern.Uploads.Rows.{
  UploadError, upload_not_found, upload_state_conflict, Scope, find_session, update_sessions,
  lock_upload_session_row, is_open_for,
}
use seta_im_intern.Uploads.Quota.{release_reservation, expired_session}

abbrev pub cancelled_session : ℕ → Session → Session
cancelled_session now s = record s { state = cancelled; cancelled_at = some now; updated_at = now }

abbrev pub is_cancelled : SessionState → Bool
is_cancelled cancelled = true
is_cancelled _ = false

abbrev pub is_expired : SessionState → Bool
is_expired expired = true
is_expired _ = false

abbrev pub closed_session : SessionState → ℕ → Session → Session
closed_session target now =
    if is_cancelled target then cancelled_session now else expired_session now

abbrev pub usage_or_refuse : Option Usage → Result UploadError Usage
usage_or_refuse none = err upload_not_found
usage_or_refuse (some u) = ok u

unfoldable pub close_session : SessionState → ℕ → Session → Db → Result UploadError (Db × Unit {0})
unfolding release_reservation
close_session target now session db = do
  refuse_if (not (is_some (find_session (is_open_for session.id) db.sessions)))
      upload_state_conflict
  let released = release_reservation session.org_id session.expected_size_bytes db
  ok (
    record released {
      sessions =
          update_sessions (is_open_for session.id) (closed_session target now) released.sessions;
    },
    tt,
  )

-- What the state of the locked session leaves to do.
unfoldable pub transition_by_state :
    SessionState → ℕ → Session → SessionState → Db → Result UploadError (Db × Unit {0})
unfolding close_session
transition_by_state target now session committed db =
    if is_cancelled target then err upload_state_conflict else ok (db, tt)
transition_by_state target now session created db =
    if is_expired target && ltb now session.session_expires_at
    then ok (db, tt)
    else close_session target now session db
transition_by_state target now session expired db = ok (db, tt)
transition_by_state target now session cancelled db = ok (db, tt)
transition_by_state target now session failed db = ok (db, tt)

unfoldable pub transition_work : SessionState → ℕ → Scope → Db → Result UploadError (Db × Unit {0})
unfolding lock_upload_session_row transition_by_state
transition_work target now scope db = do
  usage ← usage_or_refuse (db.usage scope.org_id)
  session ← lock_upload_session_row scope db
  transition_by_state target now session session.state db

unfoldable pub transition_open_upload_session :
    SessionState → ℕ → Scope → Db → Db × Result UploadError (Unit {0})
unfolding transition_work
transition_open_upload_session target now scope db =
    if not (is_cancelled target || is_expired target)
    then (db, err upload_state_conflict)
    else transaction (transition_work target now scope) db

unfoldable pub cancel_upload_session : ℕ → Scope → Db → Db × Result UploadError (Unit {0})
unfolding transition_open_upload_session
cancel_upload_session = transition_open_upload_session cancelled

unfoldable pub expire_upload_session : ℕ → Scope → Db → Db × Result UploadError (Unit {0})
unfolding transition_open_upload_session
expire_upload_session = transition_open_upload_session expired
