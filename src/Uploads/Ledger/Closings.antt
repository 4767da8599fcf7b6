-- ===== src/Uploads/Ledger/Closings.antt =====
-- Closing sessions together with the change of what their organization has reserved.
use seta_im_intern.Prelude.{
  ℕ, ◌+◌, ◌≤◌, ◌≡◌, Bool, true, false, some, List, arith, ◌==◌, if◌then◌else◌, ==_refl, All, Table,
  AllRows-update_row, update_row,
}
use seta_im_intern.Media.{Usage, Session, is_created}
use seta_im_intern.Uploads.Rows.{update_sessions}
use seta_im_intern.Uploads.Quota.{reclaimed_bytes}
use seta_im_intern.Uploads.Ledger.{IsLedger, IsWithin, open_bytes, reserved_of}
use seta_im_intern.Uploads.Ledger.Sums.{
  Keeps, IsOpened, open_bytes-close, AreDistinct-update, count-update,
}
use seta_im_intern.Uploads.Ledger.Quotas.{reserved-update_row}

le_of_sum : (a b c : ℕ) → a + b ≡ c → b ≤ c
le_of_sum a b c h = omega arith

same_of_sums : (a b c x : ℕ) → a + c ≡ x → b + c ≡ x → a ≡ b
same_of_sums a b c x h k = omega arith

plus_nothing : (b : Bool) (a r x : ℕ) → a + (if b then r else 0) ≡ x → r ≡ 0 → a + 0 ≡ x
plus_nothing true a r x h k = omega arith
plus_nothing false a r x h k = h

module _ (p : Session → Bool) (f : Session → Session) (keeps : Keeps f) (org_id : ℕ)
    (closes : (s : Session) → is_created (f s).state ≡ false) (usage : Table Usage)
    (sessions : List Session) (balanced : IsLedger usage sessions)
    (opened : All (IsOpened p f org_id closes) sessions) where
  -- What is closed had been reserved.
  pub reclaimed-le : reclaimed_bytes p sessions ≤ reserved_of (usage org_id)
  reclaimed-le =
      let sum : open_bytes org_id (update_sessions p f sessions) + reclaimed_bytes p sessions
          ≡ open_bytes org_id sessions =
        rw (==_refl org_id) at (open_bytes-close p f org_id closes org_id sessions opened) in
      rw (balanced.reserved org_id) (le_of_sum _ _ _ sum)

  module _ (g : Usage → Usage) (bytes : ℕ) (total : reclaimed_bytes p sessions ≡ bytes)
      (releases : (u : Usage)
        → bytes ≤ u.reserved_raw_bytes
        → ((g u).reserved_raw_bytes + bytes ≡ u.reserved_raw_bytes)
          × (IsWithin u → IsWithin (g u))) where
    room : (u : Usage) → usage org_id ≡ some u → bytes ≤ u.reserved_raw_bytes
    room u e =
        let held : bytes ≤ reserved_of (usage org_id) = rw (← total) reclaimed-le in rw e at held

    pub IsLedger-close :
        IsLedger (update_row usage org_id (λ _. true) g) (update_sessions p f sessions)
    IsLedger-close = record {
      distinct = AreDistinct-update p f keeps sessions balanced.distinct;
      one_open = λ a.
          let c = count-update p f keeps a sessions in let d = balanced.one_open a in omega arith;
      reserved = λ o.
          same_of_sums _ _ _ _
            (reserved-update_row usage org_id g bytes (λ u e. (releases u (room u e)).0)
              (λ e.
                let held : bytes ≤ reserved_of (usage org_id) = rw (← total) reclaimed-le in
                let none_held : bytes ≤ 0 = rw e at held in omega arith)
              o)
            (rw (balanced.reserved o, ← total)
              (open_bytes-close p f org_id closes o sessions opened));
      within =
          AllRows-update_row IsWithin usage org_id (λ _. true) g balanced.within
            (λ u e w _. (releases u (room u e)).1 w);
    }

  -- With nothing to release the ledger's row is left alone.
  pub IsLedger-close_empty :
      reclaimed_bytes p sessions ≡ 0 → IsLedger usage (update_sessions p f sessions)
  IsLedger-close_empty total = record {
    distinct = AreDistinct-update p f keeps sessions balanced.distinct;
    one_open = λ a. omega (arith, count-update p f keeps a sessions, balanced.one_open a);
    reserved = λ o.
        let h = open_bytes-close p f org_id closes o sessions opened in
        same_of_sums _ _ 0 (reserved_of (usage o)) (omega arith)
          (rw (balanced.reserved o) (plus_nothing (org_id == o) _ _ _ h total));
    within = balanced.within;
  }
