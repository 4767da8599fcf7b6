-- ===== src/Uploads/Ledger/Creating.antt =====
-- CreateUploadSession keeps the ledger.
use seta_im_intern.Prelude.{
  same_bytes, ℕ, ◌+◌, ◌-◌, ◌≤◌, ◌≡◌, refl, inl, inr, Bool, true, false, not, Option, none, some,
  List, [], ◌∷◌, ◌++◌, arith, ◌==◌, Bool-cases, All, Table, update_row, matches, ok, Commits,
  Commits-ok, Commits-err, Commits-if, Commits-bind, transaction-P,
}
use seta_im_intern.Media.{Db, Usage, Session, Asset, FileExtension, is_published, is_created}
use seta_im_intern.Uploads.Rows.{
  has_pending_version, lock_active_asset, find_session, count_sessions, CreateRequest,
  CreateOptions, Readings,
}
use seta_im_intern.Uploads.Quota.{
  reclaimed_bytes, has_room, is_overdue, expired_session, lock_organization_usage_row,
  release_reservation, reclaim_expired_sessions, reserve_quota,
}
use seta_im_intern.Uploads.Sessions.{
  is_open_on, violates_unique, insert_session, new_session, replayed_session, open_session,
  admit_session, same_operation, create_as, upload_request_fingerprint, admit_or_replay,
  create_work, create_upload_session,
}
use seta_im_intern.Uploads.Ledger.{IsLedger, IsBalanced}
use seta_im_intern.Uploads.Ledger.Sums.{
  Keeps, IsOpened, AreDistinct-insert, open_bytes-insert, count-insert, has_id-violates,
}
use seta_im_intern.Uploads.Ledger.Quotas.{
  IsWithin-new, reserved-new, reserved-reserve, IsWithin-reserve,
}
use seta_im_intern.Uploads.Ledger.Closings.{IsLedger-close, IsLedger-close_empty}

IsBalanced-lock :
    (org_id quota : ℕ) (db : Db)
    → IsBalanced db
    → IsBalanced (lock_organization_usage_row org_id quota db)
unfolding lock_organization_usage_row
IsBalanced-lock org_id quota db b = record {
  distinct = b.distinct;
  one_open = b.one_open;
  reserved = λ o. rw (reserved-new db.usage org_id quota o) (b.reserved o);
  within = IsWithin-new db.usage org_id quota b.within;
}

IsOpened-is_overdue :
    (org_id asset_id now : ℕ) (ss : List Session)
    → All (IsOpened (is_overdue org_id asset_id now) (expired_session now) org_id (λ _. refl)) ss
IsOpened-is_overdue org_id asset_id now [] = tt
IsOpened-is_overdue org_id asset_id now (s ∷ ss) =
    ((λ h. (ground arith, ground arith)), IsOpened-is_overdue org_id asset_id now ss)

Keeps-expired_session : (now : ℕ) → Keeps (expired_session now)
Keeps-expired_session now = record { id = λ _. refl; asset = λ _. refl; never_opens = λ s h. refl }

IsBalanced-reclaim :
    (org_id asset_id now : ℕ) (db : Db)
    → IsBalanced db
    → IsBalanced (reclaim_expired_sessions org_id asset_id now db)
unfolding reclaim_expired_sessions release_reservation
IsBalanced-reclaim org_id asset_id now db b =
    let overdue = is_overdue org_id asset_id now in
    let opened = IsOpened-is_overdue org_id asset_id now db.sessions in
    elim (Bool-cases (reclaimed_bytes overdue db.sessions == 0)) [
      | inl e ↦ rw e (
          IsLedger-close_empty overdue (expired_session now) (Keeps-expired_session now) org_id
            (λ _. refl) db.usage db.sessions b opened (ground arith))
      | inr e ↦ rw e (
          IsLedger-close overdue (expired_session now) (Keeps-expired_session now) org_id
            (λ _. refl) db.usage db.sessions b opened
            (λ u. record u {
              reserved_raw_bytes = u.reserved_raw_bytes - reclaimed_bytes overdue db.sessions;
            })
            (reclaimed_bytes overdue db.sessions) refl (λ u room. (omega arith, λ w. omega arith)))
    ]

-- A session that is admitted is the asset's only open one, and its size is reserved.
module _ (new : Session) (usage : Table Usage) (sessions : List Session)
    (open' : is_created new.state ≡ true) (b : IsLedger usage sessions)
    (free : (count_sessions (is_open_on new.asset_id) sessions == 0) ≡ true)
    (fresh : violates_unique new sessions ≡ false)
    (room : matches usage new.org_id (has_room new.expected_size_bytes) ≡ true) where
  one_open-insert : (a : ℕ) → count_sessions (is_open_on a) (sessions ++ new ∷ []) ≤ 1
  one_open-insert a =
      rw (count-insert new (is_open_on a) sessions) (elim (Bool-cases (new.asset_id == a)) [
        | inl e ↦ let q : new.asset_id ≡ a = ground arith in rw (e, open') (rw (← q) (ground arith))
        | inr e ↦ rw e (b.one_open a)
      ])

  IsLedger-insert :
      IsLedger
        (update_row usage new.org_id
          (has_room new.expected_size_bytes)
          (λ u. record u { reserved_raw_bytes = u.reserved_raw_bytes + new.expected_size_bytes }))
        (sessions ++ new ∷ [])
  IsLedger-insert = record {
    distinct = AreDistinct-insert new sessions b.distinct (has_id-violates new sessions fresh);
    one_open = one_open-insert;
    reserved = λ o.
        rw
          (
            open_bytes-insert new o sessions,
            reserved-reserve usage new.org_id new.expected_size_bytes room o,
            b.reserved o,
          )
          (elim (Bool-cases (new.org_id == o)) [ inl e ↦ rw (e, open') refl | inr e ↦ rw e refl ]);
    within = IsWithin-reserve usage new.org_id new.expected_size_bytes b.within;
  }

module _ (at : Readings) (request : CreateRequest) (options : CreateOptions) where
  module _ (fingerprint : List ℕ) (extension : FileExtension) (db db' : Db) (r : Session × Bool)
      (e : open_session at request options fingerprint extension db ≡ ok (db', r)) where
    free : (count_sessions (is_open_on request.asset_id) db.sessions == 0) ≡ true
    unfolding open_session
    free = ground arith

    room : matches db.usage request.org_id (has_room request.expected_size_bytes) ≡ true
    unfolding open_session reserve_quota
    room = ground arith

    fresh :
        violates_unique (new_session fingerprint extension (at 1) request options) db.sessions
        ≡ false
    unfolding open_session reserve_quota insert_session
    fresh = ground arith

    stored :
        (db'.usage
          ≡ update_row db.usage request.org_id (has_room request.expected_size_bytes) (λ u.
            record u { reserved_raw_bytes = u.reserved_raw_bytes + request.expected_size_bytes }))
        × (db'.sessions
            ≡ db.sessions ++ new_session fingerprint extension (at 1) request options ∷ [])
    unfolding open_session reserve_quota insert_session
    stored = (ground arith, ground arith)

    IsBalanced-open_session : IsBalanced db → IsBalanced db'
    unfolding new_session
    IsBalanced-open_session b =
        rw (stored.0, stored.1)
          (IsLedger-insert (new_session fingerprint extension (at 1) request options) db.usage
            db.sessions refl b free fresh room)

  admitted :
      (fingerprint : List ℕ) (extension : FileExtension) (asset : Asset) (db : Db)
      → IsBalanced db
      → Commits IsBalanced (admit_session at request options fingerprint extension asset db)
  unfolding admit_session
  admitted fingerprint extension asset db b =
      Commits-if (has_pending_version asset) _ _ (λ _. Commits-err _)
        (λ _. record {
          at = λ db' r e.
              IsBalanced-open_session fingerprint extension
                (reclaim_expired_sessions request.org_id request.asset_id (at 0) db) db' r e
                (IsBalanced-reclaim request.org_id request.asset_id (at 0) db b);
        })

  replayed :
      (fingerprint : List ℕ) (s : Session) (db : Db)
      → IsBalanced db
      → Commits IsBalanced (replayed_session fingerprint s db)
  replayed fingerprint s db b =
      Commits-if (not (same_bytes s.request_fingerprint fingerprint)) _ _ (λ _. Commits-err _)
        (λ _.
          Commits-if (not (is_published s.state)) _ _ (λ _. Commits-err _) (λ _. Commits-ok db _ b))

  admitted_or_replayed :
      (fingerprint : List ℕ) (extension : FileExtension) (asset : Asset) (db : Db)
      (o : Option Session)
      → IsBalanced db
      → Commits IsBalanced (admit_or_replay at request options fingerprint extension asset db o)
  admitted_or_replayed fingerprint extension asset db none b =
      admitted fingerprint extension asset db b
  admitted_or_replayed fingerprint extension asset db (some s) b = replayed fingerprint s db b

  created_work :
      (fingerprint : List ℕ) (extension : FileExtension) (db : Db)
      → IsBalanced db
      → Commits IsBalanced (create_work at request options fingerprint extension db)
  unfolding create_work
  created_work fingerprint extension db b =
      let locked = lock_organization_usage_row request.org_id options.default_quota_bytes db in
      Commits-bind (lock_active_asset request.org_id request.asset_id locked)
        (λ asset.
          admit_or_replay at request options fingerprint extension asset locked
            (find_session (same_operation request) locked.sessions))
        (λ asset _.
          admitted_or_replayed fingerprint extension asset locked _
            (IsBalanced-lock request.org_id options.default_quota_bytes db b))

  created_as :
      (digest : List ℕ → List ℕ) (db : Db) (o : Option FileExtension)
      → IsBalanced db
      → IsBalanced (create_as at request options digest db o).0
  created_as digest db none b = b
  created_as digest db (some extension) b = elim (Bool-cases (options.default_quota_bytes == 0)) [
    | inl e ↦ rw e b
    | inr e ↦ rw e (
        transaction-P db _ b
          (created_work (upload_request_fingerprint digest request) extension db b))
  ]

  pub IsBalanced-create :
      (digest : List ℕ → List ℕ) (db : Db)
      → IsBalanced db
      → IsBalanced (create_upload_session at request options digest db).0
  unfolding create_upload_session
  IsBalanced-create digest db = created_as digest db _
