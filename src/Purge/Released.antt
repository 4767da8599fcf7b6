-- ===== src/Purge/Released.antt =====
-- The record of a purged object keeps the quota's ledger.
use seta_im_intern.Prelude.{
  ℕ, ◌-◌, refl, inl, inr, true, Option, none, some, List, any, ltb, arith, Bool-cases, update_row,
  Commits, Commits-ok, Commits-if, Commits-bind, transaction-P, AllRows-update_row,
}
use seta_im_intern.Media.{Db, Usage, Session}
use seta_im_intern.Uploads.Rows.{update_sessions}
use seta_im_intern.Uploads.Quota.{release_stored_bytes}
use seta_im_intern.Uploads.Ledger.{IsLedger, IsBalanced, IsWithin}
use seta_im_intern.Uploads.Ledger.Sums.{Keeps, AreDistinct-update, count-update, open_bytes-touch}
use seta_im_intern.Uploads.Ledger.Quotas.{reserved-update_row}
use seta_im_intern.Purge.Objects.{
  PurgeableMediaObjects, is_unpurged, purged_session, locked_usage, drop_version, mark_work,
  mark_media_objects_purged,
}

abbrev pub less_stored : ℕ → Usage → Usage
less_stored bytes u = record u { stored_raw_bytes = u.stored_raw_bytes - bytes }

module _ (now : ℕ) (purged : PurgeableMediaObjects) (db : Db) (b : IsBalanced db) where
  abbrev marked_sessions : List Session
  marked_sessions = update_sessions (is_unpurged purged) (purged_session now) db.sessions

  IsLedger-marked : IsLedger db.usage marked_sessions
  IsLedger-marked =
      let p = is_unpurged purged in
      let f = purged_session now in
      let keeps : Keeps f = record { id = λ _. refl; asset = λ _. refl; never_opens = λ s h. h } in
      record {
        distinct = AreDistinct-update p f keeps db.sessions b.distinct;
        one_open = λ a. omega (arith, count-update p f keeps a db.sessions, b.one_open a);
        reserved = λ o. rw (open_bytes-touch p f (λ o' s. refl) o db.sessions) (b.reserved o);
        within = b.within;
      }

  IsLedger-released :
      IsLedger
        (update_row db.usage purged.org_id (λ _. true) (less_stored purged.stored_bytes))
        marked_sessions
  IsLedger-released =
      let l = IsLedger-marked in
      let g = less_stored purged.stored_bytes in
      record {
        distinct = l.distinct;
        one_open = l.one_open;
        reserved = λ o. grind (
          arith,
          l.reserved o,
          reserved-update_row db.usage purged.org_id g 0 (λ u e. omega arith) (λ e. refl) o,
        );
        within =
            AllRows-update_row IsWithin db.usage purged.org_id (λ _. true) g l.within
              (λ u e w hit. omega (arith, w));
      }

  IsBalanced-drop_version :
      (version : Option ℕ)
      → IsBalanced (drop_version purged version (record db { sessions = marked_sessions }))
  unfolding release_stored_bytes
  IsBalanced-drop_version none = IsLedger-marked
  IsBalanced-drop_version (some id) = elim (Bool-cases (ltb 0 purged.stored_bytes)) [
    | inl e ↦ rw e IsLedger-released
    | inr e ↦ rw e IsLedger-marked
  ]

  IsBalanced-mark_work : Commits IsBalanced (mark_work now purged db)
  unfolding mark_work
  IsBalanced-mark_work = Commits-bind (locked_usage purged db) _ (λ u locked.
      Commits-if (any (is_unpurged purged) db.sessions) _ _
        (λ found. Commits-ok _ tt (IsBalanced-drop_version purged.version_id))
        (λ none_found. Commits-ok db tt b))

  pub IsBalanced-mark : IsBalanced (mark_media_objects_purged now purged db).0
  unfolding mark_media_objects_purged
  IsBalanced-mark = transaction-P db (mark_work now purged db) b IsBalanced-mark_work
