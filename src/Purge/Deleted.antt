-- ===== src/Purge/Deleted.antt =====
-- What a purge asks the object store (usecase/media_purge.go): the answers to its deletions, in their
-- order.
use seta_im_intern.Prelude.{
  ℕ, ◌≡◌, refl, ◌⊎◌, inl, inr, List, [], ◌∷◌, ◌++◌, ◌==◌, if◌then◌else◌, Bool-cases, Result, ok,
  err,
}
use seta_im_intern.Purge.Objects.{ObjectKey, raw_key, PurgeableMediaObjects}
use seta_im_intern.Purge.Sweep.{
  ObjectError, object_not_found, store_failed, PurgeError, object_error, absent_is_done,
  delete_object, after_delete, delete_objects, delete_raw,
}

-- The objects of a batch: the processed ones, then the raw one if there is one.
abbrev pub batch_keys : PurgeableMediaObjects → List ObjectKey
batch_keys batch =
    batch.processed_object_keys
    ++ (if batch.raw_object_key == 0 then [] else raw_key batch.raw_object_key ∷ [])

module _ {W : Type 0} (delete : ObjectKey → W → W × Result ObjectError (Unit {0})) where
  -- Each object is deleted, or the store has none of that key.
  pub data DeletesAll : List ObjectKey → W → W → Type 0 where
    none_left : {w : W} → DeletesAll [] w w
    deletes :
        {key : ObjectKey} {keys : List ObjectKey} {w w1 w2 : W}
        → delete key w ≡ (w1, ok tt)
        → DeletesAll keys w1 w2
        → DeletesAll (key ∷ keys) w w2
    finds_none :
        {key : ObjectKey} {keys : List ObjectKey} {w w1 w2 : W}
        → delete key w ≡ (w1, err object_not_found)
        → DeletesAll keys w1 w2
        → DeletesAll (key ∷ keys) w w2

  -- The store fails on an object after it deleted those before, and no further one is asked for.
  pub data FailsOn : ℕ → List ObjectKey → W → W → Type 0 where
    fails :
        {e : ℕ} {key : ObjectKey} {keys : List ObjectKey} {w w1 : W}
        → delete key w ≡ (w1, err (store_failed e))
        → FailsOn e (key ∷ keys) w w1
    deletes_first :
        {e : ℕ} {key : ObjectKey} {keys : List ObjectKey} {w w1 w2 : W}
        → delete key w ≡ (w1, ok tt)
        → FailsOn e keys w1 w2
        → FailsOn e (key ∷ keys) w w2
    finds_none_first :
        {e : ℕ} {key : ObjectKey} {keys : List ObjectKey} {w w1 w2 : W}
        → delete key w ≡ (w1, err object_not_found)
        → FailsOn e keys w1 w2
        → FailsOn e (key ∷ keys) w w2

  abbrev pub IsDeletion : List ObjectKey → W → W × Result PurgeError (Unit {0}) → Type 0
  IsDeletion keys w x =
      ((x.1 ≡ ok tt) × DeletesAll keys w x.0)
      ⊎ ((e : ℕ) × (x.1 ≡ err (object_error (store_failed e))) × FailsOn e keys w x.0)

  after-deletes :
      {key : ObjectKey} {keys : List ObjectKey} {w w1 : W} (x : W × Result PurgeError (Unit {0}))
      → delete key w ≡ (w1, ok tt)
      → IsDeletion keys w1 x
      → IsDeletion (key ∷ keys) w x
  after-deletes x e (inl (done, all)) = inl (done, deletes e all)
  after-deletes x e (inr (n, done, failed)) = inr (n, done, deletes_first e failed)

  after-finds_none :
      {key : ObjectKey} {keys : List ObjectKey} {w w1 : W} (x : W × Result PurgeError (Unit {0}))
      → delete key w ≡ (w1, err object_not_found)
      → IsDeletion keys w1 x
      → IsDeletion (key ∷ keys) w x
  after-finds_none x e (inl (done, all)) = inl (done, finds_none e all)
  after-finds_none x e (inr (n, done, failed)) = inr (n, done, finds_none_first e failed)

  IsDeletion-answer :
      (key : ObjectKey) (keys : List ObjectKey) (w : W)
      (rest next : W → W × Result PurgeError (Unit {0})) (y : W × Result ObjectError (Unit {0}))
      → delete key w ≡ y
      → ((v : W) → IsDeletion keys v (after_delete delete next (rest v)))
      → IsDeletion
          (key ∷ keys)
          w
          (after_delete delete next (after_delete delete rest (absent_is_done delete y)))
  IsDeletion-answer key keys w rest next (v, ok u) e h = after-deletes _ e (h v)
  IsDeletion-answer key keys w rest next (v, err object_not_found) e h = after-finds_none _ e (h v)
  IsDeletion-answer key keys w rest next (v, err (store_failed n)) e h = inr (n, refl, fails e)

  IsDeletion-delete_objects :
      (keys more : List ObjectKey) (w : W) (next : W → W × Result PurgeError (Unit {0}))
      → ((v : W) → IsDeletion more v (next v))
      → IsDeletion (keys ++ more) w (after_delete delete next (delete_objects delete keys w))
  unfolding delete_objects delete_object
  IsDeletion-delete_objects [] more w next h = h w
  IsDeletion-delete_objects (key ∷ keys) more w next h =
      IsDeletion-answer key (keys ++ more) w (delete_objects delete keys) next (delete key w) refl
        (λ v. IsDeletion-delete_objects keys more v next h)

  IsDeletion-delete_raw :
      (key : ℕ) (w : W)
      → IsDeletion (if key == 0 then [] else raw_key key ∷ []) w (delete_raw delete key w)
  unfolding delete_object
  IsDeletion-delete_raw key w = elim (Bool-cases (key == 0)) [
    | inl empty ↦ rw empty (inl (refl, none_left))
    | inr given ↦ rw given (alone (delete (raw_key key) w) refl)
  ]
    where
      alone :
          (y : W × Result ObjectError (Unit {0}))
          → delete (raw_key key) w ≡ y
          → IsDeletion (raw_key key ∷ []) w (absent_is_done delete y)
      alone (v, ok u) e = inl (refl, deletes e none_left)
      alone (v, err object_not_found) e = inl (refl, finds_none e none_left)
      alone (v, err (store_failed n)) e = inr (n, refl, fails e)

  -- The deletions of a batch, before its record.
  pub IsDeletion-batch :
      (batch : PurgeableMediaObjects) (w : W)
      → IsDeletion (batch_keys batch) w (
          after_delete delete
            (delete_raw delete batch.raw_object_key)
            (delete_objects delete batch.processed_object_keys w))
  IsDeletion-batch batch w =
      IsDeletion-delete_objects batch.processed_object_keys _ w
        (delete_raw delete batch.raw_object_key) (IsDeletion-delete_raw batch.raw_object_key)
