-- ===== src/Import/Kept.antt =====
-- The transaction of an import keeps the tree of folders: each folder that it creates stands below a
-- folder that it found or created before.
use seta_im_intern.Prelude.{
  ℕ, suc, ◌≡◌, refl, sym, ap, subst, ◌∙◌, ◌⊎◌, inl, inr, Bool, true, false, ◌&&◌, Option, none,
  some, err, List, [], ◌∷◌, map, arith, Bool-cases, ok, >>=-eq-ok, ok-injective, refuse_if,
  refuse_if-eq-ok, has_key, ◌==◌, not, is_null, IsAmong, Result,
}
use seta_im_intern.Import.Dataset.{
  Text, ImportDataset, ImportFolder, ImportMetadataItem, ImportSummary,
}
use seta_im_intern.Folders.Rows.{
  Assets, Folder, FolderError, FolderPath, Item, DeletionJob, constraint_violated,
}
use seta_im_intern.Folders.Change.{ensure_refs, find_row, write_folders}
use seta_im_intern.Folders.Reads.{find_row-some, write_folders-ok}
use seta_im_intern.Folders.Forest.{HasFolder, IsForest, IsForest-insert}
use seta_im_intern.Folders.Fenced.{IsKept}
use seta_im_intern.Import.Place.{
  UpsertError, Placed, path_or_empty, parent_of, is_same_folder, imported_folder, count_folder,
  put_placed, found_or_created, upsert_folders, upsert_or, identity_conflict, folder_refused,
}
use seta_im_intern.Import.Upsert.{
  JsonCodec, json_objects_equal, upsert_item, upsert_items, find_identity, folder_or_refuse,
  import_work, no_counts, commit_unless_dry, is_unchanged, write_if_changed,
}

abbrev IsParent : List Folder → ℕ → FolderPath → Type 0
IsParent folders org path = (path ≡ []) ⊎ HasFolder folders org path

HasFolder-self :
    (folders : List Folder) (org : ℕ) (f : Folder)
    → IsAmong f folders
    → f.org_id ≡ org
    → HasFolder folders org f.path
HasFolder-self folders org f among in_org = record {
  folder = f;
  among = among;
  in_org = in_org;
  at_parent = refl;
}

IsParent-insert :
    (new : Folder) (folders : List Folder) (org : ℕ) (path : FolderPath)
    → IsParent folders org path
    → IsParent (new ∷ folders) org path
IsParent-insert new folders org path (inl top) = inl top
IsParent-insert new folders org path (inr at) = inr (record {
  folder = at.folder;
  among = inr at.among;
  in_org = at.in_org;
  at_parent = at.at_parent;
})

upsert_or-ok : {A : Type 0} (r : Result FolderError A) {a : A} → upsert_or r ≡ ok a → r ≡ ok a
upsert_or-ok (ok a) h = ground arith
upsert_or-ok (err e) h = ground arith

pub upsert_write_folders-ok :
    (folders : List Folder) (db : Assets) {db' : Assets}
    → upsert_or (write_folders folders db) ≡ ok db'
    → record db { folders = folders } ≡ db'
upsert_write_folders-ok folders db h =
    write_folders-ok folders db (upsert_or-ok (write_folders folders db) h)

module _ (folders : List Folder) (jobs : List DeletionJob) (org : ℕ) where
  -- What holds between two folders of the dataset.
  record IsImporting (placed : Placed) (db : Assets) : Type 0 where
    kept : IsKept folders jobs db
    parents : (key : ℕ) → IsParent db.folders org (path_or_empty (placed key))

  parent_of-IsParent :
      (placed : Placed) (db : Assets) (key : Option ℕ)
      → IsImporting placed db
      → IsParent db.folders org (parent_of placed key)
  parent_of-IsParent placed db none h = inl refl
  parent_of-IsParent placed db (some key) h = h.parents key

  put_placed-IsImporting :
      (placed : Placed) (db : Assets) (key : ℕ) (f : Folder)
      → IsImporting placed db
      → HasFolder db.folders org f.path
      → IsImporting (put_placed key f placed) db
  put_placed-IsImporting placed db key f h at = record {
    kept = h.kept;
    parents = λ k. elim (Bool-cases (key == k)) [
      | inl hit ↦ rw hit (inr at)
      | inr miss ↦ rw miss (h.parents k)
    ];
  }

  module _ (id user : ℕ) (f : ImportFolder) (placed : Placed) (db : Assets)
      (h : IsImporting placed db) where
    found_or_created-IsImporting :
        (found : Option Folder) {out : Assets × Folder × Bool}
        → find_row (is_same_folder org (parent_of placed f.parent_key) f.name) db.folders ≡ found
        → found_or_created id org user (parent_of placed f.parent_key) f db found ≡ ok out
        → IsImporting (put_placed f.key out.1 placed) out.0
    found_or_created-IsImporting (some existing) is_found done =
        let (among, hit) =
          find_row-some (is_same_folder org (parent_of placed f.parent_key) f.name) db.folders
            existing is_found in
        subst (λ out. IsImporting (put_placed f.key out.1 placed) out.0) (ok-injective done)
          (put_placed-IsImporting placed db f.key existing h
            (HasFolder-self db.folders org existing among (ground arith)))
    found_or_created-IsImporting none is_found done =
        let new = imported_folder id org user (parent_of placed f.parent_key) f in
        let (u, fresh, rest) =
          >>=-eq-ok
            (refuse_if (has_key (map (λ f. f.id) db.folders) id)
              (folder_refused constraint_violated))
            _ done in
        let unused =
          refuse_if-eq-ok (has_key (map (λ f. f.id) db.folders) id)
            (folder_refused constraint_violated) fresh in
        let (db', written, finished) =
          >>=-eq-ok (upsert_or (write_folders (new ∷ db.folders) db)) _ rest in
        let grown : IsImporting placed (record db { folders = new ∷ db.folders }) = record {
          kept = record {
            forest =
                IsForest-insert db.folders new (parent_of placed f.parent_key) unused refl
                  (parent_of-IsParent placed db f.parent_key h) h.kept.forest;
            held = λ f here held. inr (h.kept.held f here held);
          };
          parents = λ key.
              IsParent-insert new db.folders org (path_or_empty (placed key)) (h.parents key);
        } in
        let same = upsert_write_folders-ok (new ∷ db.folders) db written in
        subst (λ out. IsImporting (put_placed f.key out.1 placed) out.0) (ok-injective finished)
          (put_placed-IsImporting placed db' f.key new (subst (IsImporting placed) same grown) (
            HasFolder-self db'.folders org new (subst (λ d. IsAmong new d.folders) same (inl refl))
              refl))

  upsert_folders-IsKept :
      (ids : ℕ → ℕ) (i user : ℕ) (fs : List ImportFolder) (placed : Placed) (s : ImportSummary)
      (db : Assets) {out : Assets × Placed × ImportSummary}
      → IsImporting placed db
      → upsert_folders ids i org user fs (placed, s) db ≡ ok out
      → IsKept folders jobs out.0
  unfolding upsert_folders
  upsert_folders-IsKept ids i user [] placed s db h done =
      subst (λ out. IsKept folders jobs out.0) (ok-injective done) h.kept
  upsert_folders-IsKept ids i user (f ∷ fs) placed s db h done =
      let row = find_row (is_same_folder org (parent_of placed f.parent_key) f.name) db.folders in
      let (found, hit, rest) =
        >>=-eq-ok (found_or_created (ids i) org user (parent_of placed f.parent_key) f db row) _
          done in
      upsert_folders-IsKept ids (suc i) user fs (put_placed f.key found.1 placed)
        (count_folder found.2 s) found.0
        (found_or_created-IsImporting (ids i) user f placed db h row refl hit) rest

module _ (json_equal : Text → Text → Bool) (org user : ℕ) (source : Text) where
  write_if_changed-folders :
      (folder : ℕ) (m : ImportMetadataItem) (item : Item) (db : Assets) (s : ImportSummary)
      → (write_if_changed json_equal org user source folder m item (db, s)).0.folders ≡ db.folders
  write_if_changed-folders folder m item db s =
      elim (Bool-cases
        (is_null item.deleted_at && is_unchanged json_equal org user source folder m item)) [
          | inl same ↦ rw same refl
          | inr other ↦ rw other refl
        ]

  upsert_item-folders :
      (id : ℕ) (m : ImportMetadataItem) (placed : Option Folder) (found : Option (Item × ℕ))
      (db : Assets) (s : ImportSummary) {out : Assets × ImportSummary}
      → upsert_item json_equal org user source id m placed (db, s) found ≡ ok out
      → out.0.folders ≡ db.folders
  upsert_item-folders id m placed none db s h =
      let (folder, is_placed, rest) = >>=-eq-ok (folder_or_refuse placed) _ h in
      let fresh = has_key (map (λ x. x.id) db.items) id in
      let (u, unused, done) =
        >>=-eq-ok (refuse_if fresh (folder_refused constraint_violated)) _ rest in
      sym (ap (λ out. out.0.folders) (ok-injective done))
  upsert_item-folders id m placed (some (item, item_org)) db s h =
      let (u, ours, rest) =
        >>=-eq-ok (refuse_if (not (item_org == org)) (identity_conflict m.external_id)) _ h in
      let (folder, is_placed, done) = >>=-eq-ok (folder_or_refuse placed) _ rest in
      sym (ap (λ out. out.0.folders) (ok-injective done))
      ∙ write_if_changed-folders folder.id m item db s

  pub upsert_items-folders :
      (ids : ℕ → ℕ) (i : ℕ) (placed : Placed) (ms : List ImportMetadataItem) (db : Assets)
      (s : ImportSummary) {out : Assets × ImportSummary}
      → upsert_items json_equal org user source ids i placed ms (db, s) ≡ ok out
      → out.0.folders ≡ db.folders
  unfolding upsert_items
  upsert_items-folders ids i placed [] db s h = sym (ap (λ out. out.0.folders) (ok-injective h))
  upsert_items-folders ids i placed (m ∷ ms) db s h =
      let found = find_identity source m.external_id db in
      let (state, hit, rest) =
        >>=-eq-ok
          (upsert_item json_equal org user source (ids i) m (placed m.folder_key) (db, s) found) _
          h in
      upsert_items-folders ids (suc i) placed ms state.0 state.1 rest
      ∙ upsert_item-folders (ids i) m (placed m.folder_key) found db s hit

IsKept-same_folders :
    {folders : List Folder} {jobs : List DeletionJob} (db after : Assets)
    → after.folders ≡ db.folders
    → IsKept folders jobs db
    → IsKept folders jobs after
IsKept-same_folders db after same kept = record {
  forest = rw same kept.forest;
  held = λ f here held. rw same (kept.held f here held);
}

pub IsKept-import :
    (json : JsonCodec) (folder_ids item_ids : ℕ → ℕ) (org user : ℕ) (dataset : ImportDataset)
    (dry_run : Bool) (db : Assets) {out : Assets × ImportSummary}
    → IsForest db.folders
    → import_work json folder_ids item_ids org user dataset dry_run db ≡ ok out
    → IsKept db.folders db.deletion_jobs out.0
unfolding import_work ensure_refs
IsKept-import json folder_ids item_ids org user dataset dry_run db {out} forest h =
    let (placed, placing, rest) =
      >>=-eq-ok
        (upsert_folders folder_ids 0 org user dataset.folders ((λ k. none), no_counts dry_run)
          (ensure_refs user org db))
        _ h in
    let start : IsImporting db.folders db.deletion_jobs org (λ k. none) (ensure_refs user org db) =
      record {
        kept = record { forest = forest; held = λ f here held. here };
        parents = λ key. inl refl;
      } in
    let kept =
      upsert_folders-IsKept db.folders db.deletion_jobs org folder_ids 0 user dataset.folders
        (λ k. none) (no_counts dry_run) (ensure_refs user org db) start placing in
    IsKept-same_folders placed.0 out.0
      (upsert_items-folders (json_objects_equal json) org user dataset.external_source item_ids 0
        placed.1 dataset.metadata placed.0 placed.2 rest)
      kept

pub commit_unless_dry-IsKept :
    (dry_run : Bool) (db : Assets) (work : Result UpsertError (Assets × ImportSummary))
    → IsForest db.folders
    → ((out : Assets × ImportSummary) → work ≡ ok out → IsKept db.folders db.deletion_jobs out.0)
    → IsKept db.folders db.deletion_jobs (commit_unless_dry dry_run db work).0
commit_unless_dry-IsKept dry_run db (err e) forest h = record {
  forest = forest;
  held = λ f here held. here;
}
commit_unless_dry-IsKept true db (ok out) forest h = record {
  forest = forest;
  held = λ f here held. here;
}
commit_unless_dry-IsKept false db (ok out) forest h = h out refl
