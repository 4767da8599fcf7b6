-- ===== src/Uploads/Ledger.antt =====
-- The quota ledger's invariant over media_repository.go: what an organization has reserved is what
-- its open sessions expect, and never more than its quota with what it has stored.
pub mod Sums
pub mod Quotas
pub mod Closings
pub mod Creating
pub mod Settling
pub mod Runs
use seta_im_intern.Prelude.{
  ℕ, zero, suc, ◌+◌, ◌-◌, ◌≤◌, ◌≡◌, refl, inl, inr, Bool, true, false, not, ◌&&◌, ◌||◌, Option,
  none, some, List, [], ◌∷◌, ◌++◌, arith, ◌==◌, if◌then◌else◌, Bool-cases, Table, AllRows,
}
use seta_im_intern.Media.{Db, Usage, Session, is_created}
use seta_im_intern.Uploads.Rows.{find_session, update_sessions, count_sessions, is_open_for}
use seta_im_intern.Uploads.Quota.{reclaimed_bytes}
use seta_im_intern.Uploads.Sessions.{is_open_on}

abbrev pub has_id : ℕ → List Session → Bool
has_id id [] = false
has_id id (s ∷ ss) = s.id == id || has_id id ss

abbrev pub AreDistinct : List Session → Type 0
AreDistinct [] = Unit
AreDistinct (s ∷ ss) = (has_id s.id ss ≡ false) × AreDistinct ss

abbrev pub open_size : ℕ → Session → ℕ
open_size org_id s = if s.org_id == org_id && is_created s.state then s.expected_size_bytes else 0

abbrev pub open_bytes : ℕ → List Session → ℕ
open_bytes org_id [] = 0
open_bytes org_id (s ∷ ss) = open_size org_id s + open_bytes org_id ss

abbrev pub reserved_of : Option Usage → ℕ
reserved_of none = 0
reserved_of (some u) = u.reserved_raw_bytes

abbrev pub IsWithin : Usage → Type 0
IsWithin u = u.reserved_raw_bytes + u.stored_raw_bytes ≤ u.raw_quota_bytes

-- `one_open` is the partial unique index on the open sessions of an asset.
pub record IsLedger (usage : Table Usage) (sessions : List Session) : Type 0 where
  pub distinct : AreDistinct sessions
  pub one_open : (asset_id : ℕ) → count_sessions (is_open_on asset_id) sessions ≤ 1
  pub reserved : (org_id : ℕ) → reserved_of (usage org_id) ≡ open_bytes org_id sessions
  pub within : AllRows IsWithin usage

abbrev pub IsBalanced : Db → Type 0
IsBalanced db = IsLedger db.usage db.sessions
