-- ===== src/Uploads/Closed.antt =====
-- After a cancellation nothing is left to close.
use seta_im_intern.Prelude.{
  ℕ, ◌-◌, ◌≡◌, refl, Bool, true, false, ◌||◌, Option, none, some, arith, update_row-some,
  update_row, ok, ==_refl, >>=-eq-ok, commit_or_roll_back-eq-ok,
}
use seta_im_intern.Media.{
  Db, Usage, Session, SessionState, created, committed, expired, cancelled, failed, is_created,
}
use seta_im_intern.Uploads.Rows.{
  update_sessions, is_open_for, in_scope, Scope, lock_upload_session_row,
}
use seta_im_intern.Uploads.Quota.{release_reservation}
use seta_im_intern.Uploads.Close.{
  is_cancelled, is_expired, closed_session, cancelled_session, usage_or_refuse, close_session,
  transition_by_state, transition_work, transition_open_upload_session, cancel_upload_session,
}
use seta_im_intern.Uploads.Ledger.Sums.{find-update}
use seta_im_intern.Uploads.Ledger.Settling.{found}

-- The states in which a session stays.
abbrev is_settled : SessionState → Bool
is_settled expired = true
is_settled cancelled = true
is_settled failed = true
is_settled _ = false

module _ (target : SessionState) (now : ℕ) (scope : Scope) (db : Db) where
  settled_by_state :
      (s : Session) (state : SessionState)
      → is_settled state ≡ true
      → transition_by_state target now s state db ≡ ok (db, tt)
  unfolding transition_by_state
  settled_by_state s expired h = refl
  settled_by_state s cancelled h = refl
  settled_by_state s failed h = refl
  settled_by_state s created h = ground arith
  settled_by_state s committed h = ground arith

  -- A transition of a settled session does nothing.
  settled_stays :
      (u : Usage) (s : Session)
      → db.usage scope.org_id ≡ some u
      → lock_upload_session_row scope db ≡ ok s
      → is_settled s.state ≡ true
      → (is_cancelled target || is_expired target) ≡ true
      → transition_open_upload_session target now scope db ≡ (db, ok tt)
  unfolding transition_open_upload_session transition_work
  settled_stays u s hu hs settled known =
      rw (known, hu, hs, settled_by_state s s.state settled) refl

usage_or_refuse-eq-ok : (o : Option Usage) {u : Usage} → usage_or_refuse o ≡ ok u → o ≡ some u
usage_or_refuse-eq-ok none h = ground arith
usage_or_refuse-eq-ok (some x) h = ground arith

module _ (now : ℕ) (scope : Scope) (db db' : Db) where
  cancelled_once :
      cancel_upload_session now scope db ≡ (db', ok tt)
      → transition_work cancelled now scope db ≡ ok (db', tt)
  unfolding cancel_upload_session transition_open_upload_session
  cancelled_once h = commit_or_roll_back-eq-ok db _ h

  cancelled_row :
      (u : Usage) (s : Session)
      → db.usage scope.org_id ≡ some u
      → lock_upload_session_row scope db ≡ ok s
      → is_created s.state ≡ true
      → close_session cancelled now s db ≡ ok (db', tt)
      → (lock_upload_session_row scope db' ≡ ok (cancelled_session now s))
        × (v : Usage) × (db'.usage scope.org_id ≡ some v)
  unfolding close_session lock_upload_session_row release_reservation
  cancelled_row u s hu hs open' h =
      let ss : db'.sessions
          ≡ update_sessions (is_open_for s.id) (closed_session cancelled now) db.sessions =
        ground arith in
      let uu : db'.usage
          ≡ update_row db.usage s.org_id (λ _. true)
              (λ u. record u {
                reserved_raw_bytes = u.reserved_raw_bytes - s.expected_size_bytes;
              }) =
        ground arith in
      let q =
        find-update (in_scope scope) (is_open_for s.id) (closed_session cancelled now) (λ _. refl)
          db.sessions s (found scope db s hs) (rw (==_refl s.id, open') refl) in
      let (v, hv) =
        update_row-some db.usage s.org_id scope.org_id (λ _. true)
          (λ u. record u { reserved_raw_bytes = u.reserved_raw_bytes - s.expected_size_bytes })
          hu in
      (rw (ss, q) refl, v, rw uu hv)

  -- What a cancellation leaves, by the state that it found.
  cancelled_by_state :
      (u : Usage) (s : Session) (state : SessionState)
      → db.usage scope.org_id ≡ some u
      → lock_upload_session_row scope db ≡ ok s
      → s.state ≡ state
      → transition_by_state cancelled now s state db ≡ ok (db', tt)
      → (t : Session) × (lock_upload_session_row scope db' ≡ ok t)
        × (is_settled t.state ≡ true)
        × (v : Usage) × (db'.usage scope.org_id ≡ some v)
  unfolding transition_by_state
  cancelled_by_state u s created hu hs e h =
      let (row, v, hv) = cancelled_row u s hu hs (ground arith) h in
      (cancelled_session now s, row, refl, v, hv)
  cancelled_by_state u s committed hu hs e h = ground arith
  cancelled_by_state u s expired hu hs e h =
      let q : db ≡ db' = ground arith in (s, rw (← q) hs, rw e refl, u, rw (← q) hu)
  cancelled_by_state u s cancelled hu hs e h =
      let q : db ≡ db' = ground arith in (s, rw (← q) hs, rw e refl, u, rw (← q) hu)
  cancelled_by_state u s failed hu hs e h =
      let q : db ≡ db' = ground arith in (s, rw (← q) hs, rw e refl, u, rw (← q) hu)

-- After a cancellation that succeeds, a later cancellation or expiry in the same scope succeeds and
-- leaves the database as it is, at any time.
pub cancel_upload_session-final :
    (now later : ℕ) (scope : Scope) (db db' : Db) (target : SessionState)
    → cancel_upload_session now scope db ≡ (db', ok tt)
    → (is_cancelled target || is_expired target) ≡ true
    → transition_open_upload_session target later scope db' ≡ (db', ok tt)
unfolding transition_work
cancel_upload_session-final now later scope db db' target h known =
    let w = cancelled_once now scope db db' h in
    let (u, hu, w1) = >>=-eq-ok (usage_or_refuse (db.usage scope.org_id)) _ w in
    let (s, hs, w2) = >>=-eq-ok (lock_upload_session_row scope db) _ w1 in
    let (t, ht, settled, v, hv) =
      cancelled_by_state now scope db db' u s s.state
        (usage_or_refuse-eq-ok (db.usage scope.org_id) hu) hs refl w2 in
    settled_stays target later scope db' v t hv ht settled known
