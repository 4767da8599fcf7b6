-- ===== src/Uploads/Quota.antt =====
-- The quota ledger of media_repository.go: one row for each organization.
use seta_im_intern.Prelude.{
  ℕ, ◌+◌, ◌-◌, Bool, true, Option, none, some, List, [], ◌∷◌, leb, ◌==◌, if◌then◌else◌, ◌&&◌,
  put_row, update_row, matches, Result, ok, err,
}
use seta_im_intern.Media.{Db, Usage, Session, SessionState, is_created}
use seta_im_intern.Uploads.Rows.{UploadError, quota_exceeded, update_sessions}

abbrev pub new_usage : ℕ → Usage
new_usage quota = record { raw_quota_bytes = quota; reserved_raw_bytes = 0; stored_raw_bytes = 0 }

abbrev pub present_or_new : ℕ → Option Usage → Usage
present_or_new quota none = new_usage quota
present_or_new quota (some u) = u

-- INSERT … ON CONFLICT DO NOTHING, and the row that is there then.
unfoldable pub lock_organization_usage_row : ℕ → ℕ → Db → Db
lock_organization_usage_row org_id quota db = record db {
  usage = put_row db.usage org_id (present_or_new quota (db.usage org_id));
}

abbrev pub has_room : ℕ → Usage → Bool
has_room bytes u = leb (u.reserved_raw_bytes + u.stored_raw_bytes + bytes) u.raw_quota_bytes

unfoldable pub reserve_quota : ℕ → ℕ → Db → Result UploadError Db
reserve_quota org_id bytes db =
    if matches db.usage org_id (has_room bytes)
    then ok (record db {
      usage =
          update_row db.usage org_id (has_room bytes)
            (λ u. record u { reserved_raw_bytes = u.reserved_raw_bytes + bytes });
    })
    else err quota_exceeded

-- GREATEST(reserved - bytes, 0) is the subtraction that stops at 0.
unfoldable pub release_reservation : ℕ → ℕ → Db → Db
release_reservation org_id bytes db = record db {
  usage =
      update_row db.usage org_id (λ _. true)
        (λ u. record u { reserved_raw_bytes = u.reserved_raw_bytes - bytes });
}

unfoldable pub convert_reservation_to_stored : ℕ → ℕ → ℕ → Db → Db
convert_reservation_to_stored org_id reserved actual db = record db {
  usage =
      update_row db.usage org_id (λ _. true)
        (λ u. record u {
          reserved_raw_bytes = u.reserved_raw_bytes - reserved;
          stored_raw_bytes = u.stored_raw_bytes + actual;
        });
}

unfoldable pub release_stored_bytes : ℕ → ℕ → Db → Db
release_stored_bytes org_id bytes db = record db {
  usage =
      update_row db.usage org_id (λ _. true)
        (λ u. record u { stored_raw_bytes = u.stored_raw_bytes - bytes });
}

abbrev pub is_overdue : ℕ → ℕ → ℕ → Session → Bool
is_overdue org_id asset_id now s =
    s.asset_id == asset_id
    && (s.org_id == org_id && (is_created s.state && leb s.session_expires_at now))

-- The sizes that the UPDATE returns, summed.
abbrev pub reclaimed_bytes : (Session → Bool) → List Session → ℕ
reclaimed_bytes p [] = 0
reclaimed_bytes p (s ∷ ss) =
    let rest = reclaimed_bytes p ss in if p s then s.expected_size_bytes + rest else rest

abbrev pub expired_session : ℕ → Session → Session
expired_session now s = record s {
  state = SessionState.expired;
  expired_at = some now;
  updated_at = now;
}

unfoldable pub reclaim_expired_sessions : ℕ → ℕ → ℕ → Db → Db
unfolding release_reservation
reclaim_expired_sessions org_id asset_id now db =
    let overdue = is_overdue org_id asset_id now in
    let total = reclaimed_bytes overdue db.sessions in
    let db' = record db { sessions = update_sessions overdue (expired_session now) db.sessions } in
    if total == 0 then db' else release_reservation org_id total db'
