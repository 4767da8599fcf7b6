-- ===== src/Purge/Once.antt =====
-- A sweep keeps the quota's ledger, and the bytes of a purged object are released once.
use seta_im_intern.Prelude.{
  ℕ, suc, ◌-◌, ◌≡◌, refl, sym, ap, subst, ◌∙◌, ◌⊎◌, ◌↔◌, inl, inr, true, false, Option, none, some,
  List, [], ◌∷◌, any, ltb, arith, Bool-cases, update_row-eq-some, ==_refl, Result, ok, err,
  Result-cases,
}
use seta_im_intern.Media.{Db, Usage, Session}
use seta_im_intern.Uploads.Rows.{UploadError, update_sessions}
use seta_im_intern.Uploads.Quota.{release_stored_bytes}
use seta_im_intern.Uploads.Ledger.{IsBalanced}
use seta_im_intern.Purge.Expire.{expire_upload_sessions}
use seta_im_intern.Purge.Objects.{
  ObjectKey, KeyError, PurgeableMediaObjects, is_unpurged, purged_session, locked_usage,
  drop_version, mark_work, mark_media_objects_purged, claim_purgeable_media_objects,
}
use seta_im_intern.Purge.Sweep.{
  ObjectError, store_failed, PurgeError, object_error, SweepTimes, default_batch_size, after_delete,
  delete_raw, delete_objects, marked, mark_deleted, purge_batch, purge_batches, purge_claimed,
  purge_once,
}
use seta_im_intern.Purge.Deleted.{batch_keys, DeletesAll, FailsOn, IsDeletion, IsDeletion-batch}
use seta_im_intern.Purge.Balanced.{IsBalanced-expire_upload_sessions}
use seta_im_intern.Purge.Released.{less_stored, IsBalanced-mark}

none_unpurged :
    (now : ℕ) (purged : PurgeableMediaObjects) (ss : List Session)
    → any (is_unpurged purged) (update_sessions (is_unpurged purged) (purged_session now) ss)
      ≡ false
none_unpurged now purged [] = refl
none_unpurged now purged (s ∷ ss) = ground (arith, none_unpurged now purged ss)

drop_version-sessions :
    (purged : PurgeableMediaObjects) (version : Option ℕ) (db : Db)
    → (drop_version purged version db).sessions ≡ db.sessions
unfolding release_stored_bytes
drop_version-sessions purged none db = refl
drop_version-sessions purged (some id) db = ground arith

-- Where the session is marked, a mark changes nothing.
mark-marked :
    (now : ℕ) (purged : PurgeableMediaObjects) (db : Db)
    → any (is_unpurged purged) db.sessions ≡ false
    → (mark_media_objects_purged now purged db).0 ≡ db
unfolding mark_media_objects_purged mark_work
mark-marked now purged db marked = elim (Result-cases (locked_usage purged db)) [
  | inl (u, e) ↦ rw (e, marked) refl
  | inr (x, e) ↦ rw e refl
]

-- Where the row of the quota is missing, neither.
mark-refused :
    (now : ℕ) (purged : PurgeableMediaObjects) (db : Db) {x : UploadError}
    → locked_usage purged db ≡ err x
    → (mark_media_objects_purged now purged db).0 ≡ db
unfolding mark_media_objects_purged mark_work
mark-refused now purged db e = rw e refl

abbrev dropped : ℕ → PurgeableMediaObjects → Db → Db
dropped now purged db =
    drop_version purged purged.version_id (record db {
      sessions = update_sessions (is_unpurged purged) (purged_session now) db.sessions;
    })

mark-found :
    (now : ℕ) (purged : PurgeableMediaObjects) (db : Db) {u : Unit {0}}
    → locked_usage purged db ≡ ok u
    → any (is_unpurged purged) db.sessions ≡ true
    → mark_media_objects_purged now purged db ≡ (dropped now purged db, ok tt)
unfolding mark_media_objects_purged mark_work
mark-found now purged db e found = rw (e, found) refl

dropped-marked :
    (now : ℕ) (purged : PurgeableMediaObjects) (db : Db)
    → any (is_unpurged purged) (dropped now purged db).sessions ≡ false
dropped-marked now purged db =
    rw
      (drop_version-sessions purged purged.version_id (record db {
        sessions = update_sessions (is_unpurged purged) (purged_session now) db.sessions;
      }))
      (none_unpurged now purged db.sessions)

mark-again :
    (now now' : ℕ) (purged : PurgeableMediaObjects) (db : Db)
    → (mark_media_objects_purged now' purged (mark_media_objects_purged now purged db).0).0
      ≡ (mark_media_objects_purged now purged db).0
mark-again now now' purged db = elim (Result-cases (locked_usage purged db)) [
  | inr (x, e) ↦
      subst (λ d. (mark_media_objects_purged now' purged d).0 ≡ d)
        (sym (mark-refused now purged db e)) (mark-refused now' purged db e)
  | inl (u, e) ↦ elim (Bool-cases (any (is_unpurged purged) db.sessions)) [
    | inl found ↦
        subst (λ d. (mark_media_objects_purged now' purged d).0 ≡ d)
          (sym (ap (λ x. x.0) (mark-found now purged db e found)))
          (mark-marked now' purged (dropped now purged db) (dropped-marked now purged db))
    | inr marked ↦
        subst (λ d. (mark_media_objects_purged now' purged d).0 ≡ d)
          (sym (mark-marked now purged db marked)) (mark-marked now' purged db marked)
  ]
]

module _ {W : Type 0} (delete : ObjectKey → W → W × Result ObjectError (Unit {0})) where
  IsBalanced-mark_deleted :
      (now : ℕ) (batch : PurgeableMediaObjects) (db : Db) (x : W × Result PurgeError (Unit {0}))
      → IsBalanced db
      → IsBalanced (mark_deleted delete now batch db x).0.1
  IsBalanced-mark_deleted now batch db (w, err e) b = b
  IsBalanced-mark_deleted now batch db (w, ok u) b =
      kept (mark_media_objects_purged now batch db) (IsBalanced-mark now batch db b)
    where
      kept :
          (y : Db × Result UploadError (Unit {0}))
          → IsBalanced y.0
          → IsBalanced (marked delete w y).0.1
      kept (d, ok u) h = h
      kept (d, err e) h = h

  IsBalanced-purge_batches :
      (marks : ℕ → ℕ) (i : ℕ) (batches : List PurgeableMediaObjects) (s : W × Db)
      → IsBalanced s.1
      → IsBalanced (purge_batches delete marks i batches s).0.1
  unfolding purge_batches purge_batch
  IsBalanced-purge_batches marks i [] s b = b
  IsBalanced-purge_batches marks i (batch ∷ batches) (w, db) b =
      IsBalanced-purge_batches marks (suc i) batches _ (
        IsBalanced-mark_deleted (marks i) batch db
          (after_delete delete (delete_raw delete batch.raw_object_key)
            (delete_objects delete batch.processed_object_keys w))
          b)

  IsBalanced-purge_claimed :
      (marks : ℕ → ℕ) (s : W × Db) (claimed : Result KeyError (List PurgeableMediaObjects))
      → IsBalanced s.1
      → IsBalanced (purge_claimed delete marks s claimed).0.1
  IsBalanced-purge_claimed marks s (err e) b = b
  IsBalanced-purge_claimed marks s (ok batches) b = IsBalanced-purge_batches marks 0 batches s b

  -- A sweep keeps the ledger balanced, whatever the object store answers.
  pub IsBalanced-purge_once :
      (at : SweepTimes) (quarantine batch_size : ℕ) (w : W) (db : Db)
      → IsBalanced db
      → IsBalanced (purge_once delete at quarantine batch_size (w, db)).0.1
  unfolding purge_once
  IsBalanced-purge_once at quarantine batch_size w db b =
      let limit = default_batch_size batch_size in
      let swept = (expire_upload_sessions at.listed at.expiries limit db).0 in
      IsBalanced-purge_claimed at.marks (w, swept)
        (claim_purgeable_media_objects at.claimed quarantine limit swept)
        (IsBalanced-expire_upload_sessions at.listed at.expiries (default_batch_size batch_size) db
          b)

  marked-db : (w : W) (y : Db × Result UploadError (Unit {0})) → (marked delete w y).0.1 ≡ y.0
  marked-db w (d, ok u) = refl
  marked-db w (d, err e) = refl

  mark_deleted-again :
      (now now' : ℕ) (batch : PurgeableMediaObjects) (db : Db)
      (x x' : W × Result PurgeError (Unit {0}))
      → (mark_deleted delete now batch db x).1 ≡ ok tt
      → (mark_deleted delete now' batch (mark_deleted delete now batch db x).0.1 x').0.1
        ≡ (mark_deleted delete now batch db x).0.1
  mark_deleted-again now now' batch db (w, err e) x' done = cc
  mark_deleted-again now now' batch db (w, ok u) (w', err e) done = refl
  mark_deleted-again now now' batch db (w, ok u) (w', ok u') done =
      let q = marked-db w (mark_media_objects_purged now batch db) in
      marked-db w' _
      ∙ subst (λ d. (mark_media_objects_purged now' batch d).0 ≡ d) (sym q)
          (mark-again now now' batch db)

  -- What a purge of a batch comes to: all its objects are gone and its record is made, or the store
  -- failed on one of them and nothing is recorded.
  abbrev pub IsPurge :
      ℕ → PurgeableMediaObjects → W → Db → (W × Db) × Result PurgeError (Unit {0}) → Type 0
  IsPurge now batch w db x =
      (DeletesAll delete (batch_keys batch) w x.0.0
        × (x.0.1 ≡ (mark_media_objects_purged now batch db).0)
        × ((x.1 ≡ ok tt) ↔ ((mark_media_objects_purged now batch db).1 ≡ ok tt)))
      ⊎ ((e : ℕ) × FailsOn delete e (batch_keys batch) w x.0.0
          × (x.0.1 ≡ db)
          × (x.1 ≡ err (object_error (store_failed e))))

  marked-store : (w : W) (y : Db × Result UploadError (Unit {0})) → (marked delete w y).0.0 ≡ w
  marked-store w (d, ok u) = refl
  marked-store w (d, err e) = refl

  marked-ok :
      (w : W) (y : Db × Result UploadError (Unit {0}))
      → ((marked delete w y).1 ≡ ok tt) ↔ (y.1 ≡ ok tt)
  marked-ok w (d, ok u) = ((λ h. refl), (λ h. refl))
  marked-ok w (d, err e) = ((λ h. cc), (λ h. cc))

  mark_deleted-IsPurge :
      (now : ℕ) (batch : PurgeableMediaObjects) (w : W) (db : Db)
      (x : W × Result PurgeError (Unit {0}))
      → IsDeletion delete (batch_keys batch) w x
      → IsPurge now batch w db (mark_deleted delete now batch db x)
  mark_deleted-IsPurge now batch w db (v, ok u) (inl (done, all)) =
      let y = mark_media_objects_purged now batch db in
      inl (
        subst (λ z. DeletesAll delete (batch_keys batch) w z) (sym (marked-store v y)) all,
        marked-db v y,
        marked-ok v y,
      )
  mark_deleted-IsPurge now batch w db (v, err e) (inl (done, all)) = cc
  mark_deleted-IsPurge now batch w db (v, ok u) (inr (n, done, failed)) = cc
  mark_deleted-IsPurge now batch w db (v, err e) (inr (n, done, failed)) =
      inr (n, failed, refl, done)

  module _ (now : ℕ) (batch : PurgeableMediaObjects) (db : Db) (id : ℕ) (u : Usage)
      (of_version : batch.version_id ≡ some id) (has_bytes : ltb 0 batch.stored_bytes ≡ true)
      (is_usage : db.usage batch.org_id ≡ some u)
      (unpurged : any (is_unpurged batch) db.sessions ≡ true) where
    released : (dropped now batch db).usage batch.org_id ≡ some (less_stored batch.stored_bytes u)
    unfolding release_stored_bytes
    released =
        rw (of_version, has_bytes)
          (update_row-eq-some db.usage batch.org_id batch.org_id (λ _. true)
              (less_stored batch.stored_bytes) is_usage
            ∙ rw (==_refl batch.org_id) refl)

    mark_deleted-released :
        (x : W × Result PurgeError (Unit {0}))
        → (mark_deleted delete now batch db x).1 ≡ ok tt
        → (mark_deleted delete now batch db x).0.1.usage batch.org_id
          ≡ some (less_stored batch.stored_bytes u)
    mark_deleted-released (w, err e) done = cc
    mark_deleted-released (w, ok v) done =
        let found : mark_media_objects_purged now batch db ≡ (dropped now batch db, ok tt) =
          mark-found now batch db (rw (has_bytes, is_usage) refl) unpurged in
        rw found released

  -- A batch is purged once. A purge either deletes all the batch's objects, each of which the store
  -- answers to have deleted or not to have, and then makes the batch's record, and returns without error
  -- exactly if that is made; or it stops at an object on which the store fails, returns that error and
  -- leaves the database as it was. After a purge that returned without error, a further purge of the
  -- batch at any time leaves the database as it is. A purge without error of a version's batch with bytes, of a session that was not marked, takes the
  -- version's bytes from what its organization has stored.
  pub purge_batch-once :
      (now now' : ℕ) (batch : PurgeableMediaObjects) (w : W) (db : Db)
      → let first = purge_batch delete now batch (w, db) in
        IsPurge now batch w db first
        × (first.1 ≡ ok tt → (purge_batch delete now' batch first.0).0.1 ≡ first.0.1)
        × ((id : ℕ) (u : Usage)
            → batch.version_id ≡ some id
            → ltb 0 batch.stored_bytes ≡ true
            → db.usage batch.org_id ≡ some u
            → any (is_unpurged batch) db.sessions ≡ true
            → first.1 ≡ ok tt
            → first.0.1.usage batch.org_id
              ≡ some (record u { stored_raw_bytes = u.stored_raw_bytes - batch.stored_bytes }))
  unfolding purge_batch
  purge_batch-once now now' batch w db =
      let x =
        after_delete delete (delete_raw delete batch.raw_object_key)
          (delete_objects delete batch.processed_object_keys w) in
      let w1 = (mark_deleted delete now batch db x).0.0 in
      let x' =
        after_delete delete (delete_raw delete batch.raw_object_key)
          (delete_objects delete batch.processed_object_keys w1) in
      (
        mark_deleted-IsPurge now batch w db x (IsDeletion-batch delete batch w),
        mark_deleted-again now now' batch db x x',
        (λ id u v h i k done. mark_deleted-released now batch db id u v h i k x done),
      )
