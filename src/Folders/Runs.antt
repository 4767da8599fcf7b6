-- ===== src/Folders/Runs.antt =====
-- The folders over every run of the operations, by any users in any organizations.
use seta_im_intern.Prelude.{ℕ, ◌≡◌, Bool, Option, IsAmong, transaction-P}
use seta_im_intern.Folders.Rows.{Assets, Folder}
use seta_im_intern.Folders.Change.{
  CreateFolderInput, UpdateFolderInput, create_folder, create_work, update_folder, update_work,
  move_folder, move_work,
}
use seta_im_intern.Folders.Delete.{
  delete_folder, delete_work, delete_metadata_item, delete_item_work,
}
use seta_im_intern.Import.Dataset.{ImportDataset}
use seta_im_intern.Import.Upsert.{JsonCodec, import_work, import_sample_transaction}
use seta_im_intern.Import.Kept.{IsKept-import, commit_unless_dry-IsKept}
use seta_im_intern.Folders.Forest.{IsForest}
use seta_im_intern.Folders.Fenced.{IsHeld, IsKept}
use seta_im_intern.Folders.Kept.{IsKept-create, IsKept-update}
use seta_im_intern.Folders.Moved.{IsKept-move}
use seta_im_intern.Folders.Deleted.{IsKept-delete, IsKept-delete_item}

-- One call of the repository, with the identifiers that it generates.
pub data FolderStep (db after : Assets) : Type 0 where
  creates :
      (id org user : ℕ) (input : CreateFolderInput)
      → after ≡ (create_folder id org user input db).0
      → FolderStep db after
  updates :
      (org user id : ℕ) (input : UpdateFolderInput)
      → after ≡ (update_folder org user id input db).0
      → FolderStep db after
  moves :
      (org user id : ℕ) (destination : Option ℕ)
      → after ≡ (move_folder org user id destination db).0
      → FolderStep db after
  deletes :
      (unit_id now org user id : ℕ)
      → after ≡ (delete_folder unit_id now org user id db).0
      → FolderStep db after
  deletes_item :
      (unit_id now org user id : ℕ)
      → after ≡ (delete_metadata_item unit_id now org user id db).0
      → FolderStep db after
  imports :
      (json : JsonCodec) (folder_ids item_ids : ℕ → ℕ) (org user : ℕ) (dataset : ImportDataset)
      (dry_run : Bool)
      → after ≡ (import_sample_transaction json folder_ids item_ids org user dataset dry_run db).0
      → FolderStep db after

pub data FolderRun (db : Assets) : Assets → Type 0 where
  here : FolderRun db db
  next : {m n : Assets} → FolderRun db m → FolderStep m n → FolderRun db n

IsKept-self : (db : Assets) → IsForest db.folders → IsKept db.folders db.deletion_jobs db
IsKept-self db forest = record { forest = forest; held = λ f among h. among }

IsKept-FolderStep :
    {db after : Assets}
    → IsForest db.folders
    → FolderStep db after
    → IsKept db.folders db.deletion_jobs after
unfolding create_folder update_folder move_folder delete_folder delete_metadata_item
    import_sample_transaction
IsKept-FolderStep {db} forest (creates id org user input e) = rw e (
    transaction-P db (create_work id org user input db) (IsKept-self db forest)
      (IsKept-create id org user input db forest))
IsKept-FolderStep {db} forest (updates org user id input e) = rw e (
    transaction-P db (update_work org user id input db) (IsKept-self db forest)
      (IsKept-update org user id input db forest))
IsKept-FolderStep {db} forest (moves org user id destination e) = rw e (
    transaction-P db (move_work org user id destination db) (IsKept-self db forest)
      (IsKept-move org user id destination db forest))
IsKept-FolderStep {db} forest (deletes unit_id now org user id e) = rw e (
    transaction-P db (delete_work unit_id now org user id db) (IsKept-self db forest)
      (IsKept-delete unit_id now org user id db forest))
IsKept-FolderStep {db} forest (deletes_item unit_id now org user id e) = rw e (
    transaction-P db (delete_item_work unit_id now org user id db) (IsKept-self db forest)
      (IsKept-delete_item unit_id now org user id db forest))
IsKept-FolderStep {db} forest (imports json folder_ids item_ids org user dataset dry_run e) = rw e (
    commit_unless_dry-IsKept dry_run db
      (import_work json folder_ids item_ids org user dataset dry_run db) forest
      (λ out. IsKept-import json folder_ids item_ids org user dataset dry_run db forest))

-- If the folders form a tree for each organization (identifiers are distinct, and a folder's path is
-- its own label behind the empty path or the path of a folder of the same organization), they do so
-- after every run of creations, updates, moves, deletions and imports.
pub FolderRun-IsForest :
    {db after : Assets} → IsForest db.folders → FolderRun db after → IsForest after.folders
FolderRun-IsForest forest here = forest
FolderRun-IsForest forest (next run step) =
    (IsKept-FolderStep (FolderRun-IsForest forest run) step).forest

-- Where the folders form a tree, a creation, update, move, deletion or import leaves the row of
-- every folder as it was that is the root, or below the root, of a deletion that is queued, running
-- or failed.
pub FolderStep-held :
    {db after : Assets}
    → IsForest db.folders
    → FolderStep db after
    → (f : Folder) → IsAmong f db.folders
    → IsHeld db.deletion_jobs f
    → IsAmong f after.folders
FolderStep-held forest step f among held = (IsKept-FolderStep forest step).held f among held
