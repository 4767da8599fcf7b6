-- ===== src/Uploads/Ledger/Settling.antt =====
-- RefreshUploadSession, CancelUploadSession, ExpireUploadSession and CommitUpload keep the ledger.
use seta_im_intern.Prelude.{
  ℕ, ◌+◌, ◌-◌, ◌≤◌, ◌≡◌, refl, inl, inr, Bool, true, false, not, leb, ◌||◌, some, arith, Bool-cases,
  is_some, update_row, Result, ok, err, Commits, Commits-ok, Commits-err, Commits-if, Commits-bind,
  transaction-P, refuse_if,
}
use seta_im_intern.Media.{
  Db, Usage, Session, Asset, SessionState, created, committed, expired, cancelled, failed,
  is_created, is_committed,
}
use seta_im_intern.Events.{Codec}
use seta_im_intern.Uploads.Rows.{
  UploadError, has_pending_version, find_session, update_sessions, is_open_for, in_scope, Scope,
  Readings, lock_active_asset, lock_upload_session_row,
}
use seta_im_intern.Uploads.Quota.{release_reservation}
use seta_im_intern.Uploads.Sessions.{
  is_outside, refreshed_session, refresh_work, refresh_upload_session,
}
use seta_im_intern.Uploads.Close.{
  is_cancelled, is_expired, closed_session, usage_or_refuse, close_session, transition_by_state,
  transition_work, transition_open_upload_session,
}
use seta_im_intern.Uploads.Commit.{
  row_or_refuse, session_is_committable, ObjectAttributes, CommitIds, verify_stored_object,
  accept_upload, replay_commit, commit_locked, commit_open, commit_work, after_first_read,
  commit_upload, committed_session,
}
use seta_im_intern.Uploads.Ledger.{IsLedger, IsBalanced, IsWithin}
use seta_im_intern.Uploads.Ledger.Sums.{
  Keeps, open_bytes-touch, AreDistinct-update, count-update, reclaimed-is_open_for,
  opened-is_open_for,
}
use seta_im_intern.Uploads.Ledger.Closings.{IsLedger-close}

pub found :
    (scope : Scope) (db : Db) (s : Session)
    → lock_upload_session_row scope db ≡ ok s
    → find_session (in_scope scope) db.sessions ≡ some s
unfolding lock_upload_session_row
found scope db s h = ground arith

-- Closing the session that was found, with a row that gives up its size.
module _ (scope : Scope) (db : Db) (s : Session) (b : IsBalanced db)
    (here : find_session (in_scope scope) db.sessions ≡ some s)
    (open' : is_created s.state ≡ true) where
  IsLedger-settle :
      (f : Session → Session) (g : Usage → Usage) (keeps : Keeps f)
      (closes : (x : Session) → is_created (f x).state ≡ false)
      (releases : (u : Usage)
        → s.expected_size_bytes ≤ u.reserved_raw_bytes
        → ((g u).reserved_raw_bytes + s.expected_size_bytes ≡ u.reserved_raw_bytes)
          × (IsWithin u → IsWithin (g u)))
      → IsLedger
          (update_row db.usage s.org_id (λ _. true) g)
          (update_sessions (is_open_for s.id) f db.sessions)
  IsLedger-settle f g keeps closes releases =
      IsLedger-close (is_open_for s.id) f keeps s.org_id closes db.usage db.sessions b
        (opened-is_open_for (in_scope scope) db.sessions s b.distinct here) g s.expected_size_bytes
        (reclaimed-is_open_for (in_scope scope) db.sessions s b.distinct here open') releases

Keeps-closed_session : (target : SessionState) (now : ℕ) → Keeps (closed_session target now)
Keeps-closed_session cancelled now = record {
  id = λ _. refl;
  asset = λ _. refl;
  never_opens = λ s h. refl;
}
Keeps-closed_session _ now = record { id = λ _. refl; asset = λ _. refl; never_opens = λ s h. refl }

closes-closed_session :
    (target : SessionState) (now : ℕ) (s : Session)
    → is_created (closed_session target now s).state ≡ false
closes-closed_session cancelled now s = refl
closes-closed_session _ now s = refl

module _ (target : SessionState) (now : ℕ) (scope : Scope) (db : Db) (b : IsBalanced db) where
  closed :
      (s : Session)
      → find_session (in_scope scope) db.sessions ≡ some s
      → is_created s.state ≡ true
      → Commits IsBalanced (close_session target now s db)
  unfolding close_session release_reservation
  closed s here open' =
      Commits-bind (refuse_if (not (is_some (find_session (is_open_for s.id) db.sessions))) _) _
        (λ _ _. Commits-ok _ tt (
          IsLedger-settle scope db s b here open' (closed_session target now)
            (λ u. record u { reserved_raw_bytes = u.reserved_raw_bytes - s.expected_size_bytes })
            (Keeps-closed_session target now) (closes-closed_session target now)
            (λ u room. (omega arith, λ w. omega arith))))

  transitioned :
      (s : Session) (state : SessionState)
      → find_session (in_scope scope) db.sessions ≡ some s
      → s.state ≡ state
      → Commits IsBalanced (transition_by_state target now s state db)
  unfolding transition_by_state
  transitioned s committed here e =
      Commits-if (is_cancelled target) _ _ (λ _. Commits-err _) (λ _. Commits-ok db tt b)
  transitioned s created here e =
      Commits-if _ _ _ (λ _. Commits-ok db tt b) (λ _. closed s here (ground arith))
  transitioned s expired here e = Commits-ok db tt b
  transitioned s cancelled here e = Commits-ok db tt b
  transitioned s failed here e = Commits-ok db tt b

  transition_work-IsBalanced : Commits IsBalanced (transition_work target now scope db)
  unfolding transition_work
  transition_work-IsBalanced = Commits-bind (usage_or_refuse (db.usage scope.org_id)) _ (λ u _.
      Commits-bind (lock_upload_session_row scope db) _
        (λ s locked. transitioned s s.state (found scope db s locked) refl))

  pub IsBalanced-transition : IsBalanced (transition_open_upload_session target now scope db).0
  unfolding transition_open_upload_session
  IsBalanced-transition = elim (Bool-cases (not (is_cancelled target || is_expired target))) [
    | inl e ↦ rw e b
    | inr e ↦ rw e (transaction-P db _ b transition_work-IsBalanced)
  ]

-- A refresh moves a credential's expiry alone.
module _ (now : ℕ) (scope : Scope) (credential_expires_at : ℕ) (db : Db) (b : IsBalanced db) where
  IsLedger-refresh :
      (p : Session → Bool)
      → IsLedger db.usage
          (update_sessions p (refreshed_session credential_expires_at now) db.sessions)
  IsLedger-refresh p =
      let f = refreshed_session credential_expires_at now in
      let keeps : Keeps f = record { id = λ _. refl; asset = λ _. refl; never_opens = λ s h. h } in
      record {
        distinct = AreDistinct-update p f keeps db.sessions b.distinct;
        one_open = λ a. omega (arith, count-update p f keeps a db.sessions, b.one_open a);
        reserved = λ o. rw (open_bytes-touch p f (λ o' s. refl) o db.sessions) (b.reserved o);
        within = b.within;
      }

  refresh_work-IsBalanced : Commits IsBalanced (refresh_work now scope credential_expires_at db)
  unfolding refresh_work
  refresh_work-IsBalanced =
      Commits-bind (lock_active_asset scope.org_id scope.asset_id db) _ (λ asset _.
        Commits-bind (lock_upload_session_row scope db) _ (λ s _.
          Commits-bind (refuse_if (not (is_created s.state)) _) _ (λ _ _.
            Commits-bind (refuse_if (leb s.session_expires_at now) _) _ (λ _ _.
              Commits-bind (refuse_if (is_outside credential_expires_at now s) _) _ (λ _ _.
                Commits-bind
                  (refuse_if (not (is_some (find_session (is_open_for s.id) db.sessions))) _) _
                  (λ _ _. Commits-ok _ _ (IsLedger-refresh (is_open_for s.id))))))))

  pub IsBalanced-refresh : IsBalanced (refresh_upload_session now scope credential_expires_at db).0
  unfolding refresh_upload_session
  IsBalanced-refresh = transaction-P db _ b refresh_work-IsBalanced

module _ (codec : Codec) (traceparent : ℕ) (ids : CommitIds) (attributes : ObjectAttributes) where
  -- What the rows of an accepted upload leave in the two tables of the ledger.
  pub tables-accept_upload :
      (now : ℕ) (s : Session) (db db' : Db)
      → accept_upload codec traceparent ids now s attributes db ≡ ok db'
      → (db'.sessions ≡ update_sessions (is_open_for s.id) (committed_session now) db.sessions)
        × (db'.usage
            ≡ update_row db.usage s.org_id
                (λ _. true)
                (λ u. record u {
                  reserved_raw_bytes = u.reserved_raw_bytes - s.expected_size_bytes;
                  stored_raw_bytes = u.stored_raw_bytes + attributes.size_bytes;
                }))
  unfolding accept_upload
  tables-accept_upload now s db db' h = (ground arith, ground arith)

size_of_verified :
    (s : Session) (attributes : ObjectAttributes) (u : Unit {0})
    → verify_stored_object s attributes ≡ ok u
    → attributes.size_bytes ≡ s.expected_size_bytes
unfolding verify_stored_object
size_of_verified s attributes u h = ground arith

pub created_of_committable :
    (s : Session) (now : ℕ) (u : Unit {0})
    → session_is_committable s now ≡ ok u
    → is_committed s.state ≡ false
    → is_created s.state ≡ true
unfolding session_is_committable
created_of_committable s now u h e = ground arith

module _ (codec : Codec) (at : Readings) (traceparent : ℕ) (ids : CommitIds) (scope : Scope)
    (attributes : ObjectAttributes) (db : Db) (b : IsBalanced db) where
  accepted-IsBalanced :
      (now : ℕ) (s : Session) (db' : Db)
      → find_session (in_scope scope) db.sessions ≡ some s
      → is_created s.state ≡ true
      → attributes.size_bytes ≡ s.expected_size_bytes
      → accept_upload codec traceparent ids now s attributes db ≡ ok db'
      → IsBalanced db'
  accepted-IsBalanced now s db' here open' size h =
      let (ss, uu) = tables-accept_upload codec traceparent ids attributes now s db db' h in
      rw (ss, uu)
        (IsLedger-settle scope db s b here open' (committed_session now) _
          (record { id = λ _. refl; asset = λ _. refl; never_opens = λ x e. refl }) (λ _. refl)
          (λ u room. (omega arith, λ w. omega arith)))

  replayed : (s : Session) → Commits IsBalanced (replay_commit s db)
  unfolding replay_commit
  replayed s = Commits-bind (row_or_refuse (db.version_by_upload s.id)) _ (λ v _.
      Commits-bind (row_or_refuse (db.versions v)) _ (λ version _.
        Commits-bind (row_or_refuse (db.job_by_version v)) _ (λ j _. Commits-ok db _ b)))

  committed_locked :
      (asset : Asset) (s : Session)
      → find_session (in_scope scope) db.sessions ≡ some s
      → Commits IsBalanced (commit_locked codec at traceparent ids scope attributes asset s db)
  unfolding commit_locked commit_open
  committed_locked asset s here =
      Commits-if (is_committed s.state) _ _ (λ _. replayed s)
        (λ e. Commits-bind (session_is_committable s (at 1)) _ (λ u c.
          Commits-bind (verify_stored_object s attributes) _ (λ u' v.
            Commits-bind (refuse_if (has_pending_version asset) _) _ (λ _ _.
              Commits-bind (accept_upload codec traceparent ids (at 2) s attributes db) _ (λ db' h.
                Commits-ok db' _ (
                  accepted-IsBalanced (at 2) s db' here (created_of_committable s (at 1) u c e)
                    (size_of_verified s attributes u' v) h))))))

  commit_work-IsBalanced :
      Commits IsBalanced (commit_work codec at traceparent ids scope attributes db)
  unfolding commit_work
  commit_work-IsBalanced = Commits-bind (row_or_refuse (db.usage scope.org_id)) _ (λ _ _.
      Commits-bind (lock_active_asset scope.org_id scope.asset_id db) _ (λ asset _.
        Commits-bind (lock_upload_session_row scope db) _
          (λ s locked. committed_locked asset s (found scope db s locked))))

  after_first_read-IsBalanced :
      (r : Result UploadError (Unit {0}))
      → IsBalanced (after_first_read codec at traceparent ids scope attributes r db).0
  after_first_read-IsBalanced (ok u) = transaction-P db _ b commit_work-IsBalanced
  after_first_read-IsBalanced (err e) = b

  pub IsBalanced-commit :
      (seen : Db) → IsBalanced (commit_upload codec at traceparent ids scope attributes seen db).0
  unfolding commit_upload
  IsBalanced-commit seen = after_first_read-IsBalanced _
