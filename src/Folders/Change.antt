-- ===== src/Folders/Change.antt =====
-- CreateFolder, UpdateFolder, MoveFolder, DeleteFolder and DeleteMetadataItem of
-- repository/asset_repository.go, with repository/deletion_fence.go. A read of one row is the first
-- row of the table that satisfies the clause. Identifiers that the code or the database generates are
-- arguments, and a primary key is tested where a row is inserted. The events after a commit are left out.
use seta_im_intern.Prelude.{
  ℕ, zero, suc, Bool, true, not, ◌&&◌, Option, none, some, List, [], ◌∷◌, ◌++◌, map, drop, length,
  ◌==◌, if◌then◌else◌, same_bytes, any, Result, ok, err, ◌>>=◌, ◌>>◌, refuse_if, transaction,
  has_key,
}
use seta_im_intern.Import.Dataset.{Text}
use seta_im_intern.Folders.Rows.{
  FolderPath, Folder, Assets, FolderError, is_under, parent_path, is_active, is_in_org, is_visible,
  violates_unique, has_child_named, fences, folder_not_found, folder_conflict, cycle_detected,
  deletion_in_progress, record_not_found,
}

module _ {R : Type 0} where
  abbrev pub find_row : (R → Bool) → List R → Option R
  find_row p [] = none
  find_row p (r ∷ rows) = if p r then some r else find_row p rows

  -- First, with the error that the caller makes of ErrRecordNotFound.
  abbrev pub first_row : FolderError → Option R → Result FolderError R
  first_row e none = err e
  first_row e (some r) = ok r

abbrev pub insert_ref : ℕ → List ℕ → List ℕ
insert_ref k refs = if has_key refs k then refs else k ∷ refs

unfoldable pub ensure_refs : ℕ → ℕ → Assets → Assets
ensure_refs user org db = record db {
  user_refs = insert_ref user db.user_refs;
  organization_refs = insert_ref org db.organization_refs;
}

unfoldable pub ensure_no_active_deletion :
    Assets → ℕ → List FolderPath → Result FolderError (Unit {0})
ensure_no_active_deletion db org [] = ok tt
ensure_no_active_deletion db org ([] ∷ paths) = ensure_no_active_deletion db org paths
ensure_no_active_deletion db org ((x ∷ path) ∷ paths) = do
  refuse_if (any (fences org (x ∷ path)) db.deletion_jobs) deletion_in_progress
  ensure_no_active_deletion db org paths

-- The row that is read FOR UPDATE by its path, or by its identifier.
unfoldable pub visible_at : Assets → ℕ → FolderPath → Result FolderError Folder
unfolding is_visible
visible_at db org path = first_row folder_not_found (
    find_row (λ f. is_in_org org f && (same_bytes f.path path && is_visible db.folders f))
      db.folders)

unfoldable pub visible_folder : FolderError → Assets → ℕ → ℕ → Result FolderError Folder
unfolding is_visible
visible_folder e db org id =
    first_row e
      (find_row (λ f. f.id == id && (is_in_org org f && is_visible db.folders f)) db.folders)

-- An INSERT or UPDATE whose table keeps the unique indexes.
unfoldable pub write_folders : List Folder → Assets → Result FolderError Assets
unfolding violates_unique
write_folders folders db = do
  refuse_if (violates_unique folders) folder_conflict
  ok (record db { folders = folders })

abbrev pub any_folder : Folder → Bool
any_folder f = true

abbrev pub is_other : ℕ → Folder → Bool
is_other id f = not (f.id == id)

pub record CreateFolderInput : Type 0 where
  pub parent_path : Option FolderPath
  pub name : Text
  pub description : Option Text

abbrev pub new_folder : ℕ → ℕ → ℕ → FolderPath → CreateFolderInput → Folder
new_folder id org user parent input = record {
  id = id;
  org_id = org;
  path = parent ++ id ∷ [];
  name = input.name;
  description = input.description;
  created_by = user;
  updated_by = none;
  deleted_at = none;
  lifecycle_unit_id = none;
}

abbrev pub load_parent : Assets → ℕ → Option FolderPath → Result FolderError FolderPath
load_parent db org none = ok []
load_parent db org (some []) = ok []
load_parent db org (some (x ∷ path)) = visible_at db org (x ∷ path) >>= λ parent. ok (x ∷ path)

unfoldable pub create_work :
    ℕ → ℕ → ℕ → CreateFolderInput → Assets → Result FolderError (Assets × Folder)
unfolding ensure_refs visible_at ensure_no_active_deletion has_child_named write_folders
create_work id org user input db = do
  let db = ensure_refs user org db
  parent ← load_parent db org input.parent_path
  ensure_no_active_deletion db org (parent ∷ [])
  refuse_if (has_child_named org parent input.name any_folder db.folders) folder_conflict
  let folder = new_folder id org user parent input
  refuse_if (has_key (map (λ f. f.id) db.folders) id) folder_conflict
  db ← write_folders (folder ∷ db.folders) db
  ok (db, folder)

unfoldable pub create_folder :
    ℕ → ℕ → ℕ → CreateFolderInput → Assets → Assets × Result FolderError Folder
unfolding create_work
create_folder id org user input = transaction (create_work id org user input)

-- NameSet is a name that is there: the use case refuses a name that is set and nil.
pub record UpdateFolderInput : Type 0 where
  pub name : Option Text
  pub description_set : Bool
  pub description : Option Text

abbrev pub renamed : Assets → ℕ → Folder → Option Text → Result FolderError Folder
renamed db org folder none = ok folder
renamed db org folder (some name) =
    if same_bytes name folder.name
    then ok folder
    else (refuse_if
          (has_child_named org (parent_path folder.path) name (is_other folder.id) db.folders)
          folder_conflict
        >> ok (record folder { name = name }))

abbrev pub save_row : Folder → Folder → Folder
save_row folder f = if f.id == folder.id then folder else f

unfoldable pub update_work :
    ℕ → ℕ → ℕ → UpdateFolderInput → Assets → Result FolderError (Assets × Folder)
unfolding ensure_refs visible_folder ensure_no_active_deletion has_child_named write_folders
update_work org user id input db = do
  let db = ensure_refs user org db
  folder ← visible_folder folder_not_found db org id
  ensure_no_active_deletion db org (folder.path ∷ [])
  named ← renamed db org folder input.name
  let saved = record named {
    description = if input.description_set then input.description else named.description;
    updated_by = some user;
  }
  db ← write_folders (map (save_row saved) db.folders) db
  ok (db, saved)

unfoldable pub update_folder :
    ℕ → ℕ → ℕ → UpdateFolderInput → Assets → Assets × Result FolderError Folder
unfolding update_work
update_folder org user id input = transaction (update_work org user id input)

-- The path of the destination, [] for the top level.
abbrev pub load_destination : Assets → ℕ → Folder → Option ℕ → Result FolderError FolderPath
load_destination db org folder none = ok []
load_destination db org folder (some zero) = ok []
load_destination db org folder (some (suc d)) = do
  dest ← visible_folder folder_not_found db org (suc d)
  refuse_if (dest.id == folder.id) cycle_detected
  refuse_if (is_under folder.path dest.path) cycle_detected
  ensure_no_active_deletion db org (dest.path ∷ [])
  ok dest.path

-- The UPDATE of the source and its descendants.
abbrev pub shifted_path : FolderPath → FolderPath → FolderPath → FolderPath
shifted_path old new path = if same_bytes path old then new else new ++ drop (length old) path

abbrev pub shift_row : ℕ → ℕ → FolderPath → FolderPath → Folder → Folder
shift_row org user old new f =
    if is_in_org org f && is_under old f.path
    then record f { path = shifted_path old new f.path; updated_by = some user }
    else f

abbrev pub move_to : ℕ → ℕ → Folder → FolderPath → Assets → Result FolderError (Assets × Folder)
move_to org user folder dest db =
    let new = dest ++ folder.id ∷ [] in
    if same_bytes folder.path new then ok (db, folder) else (do
      refuse_if (has_child_named org dest folder.name (is_other folder.id) db.folders)
          folder_conflict
      db ← write_folders (map (shift_row org user folder.path new) db.folders) db
      reloaded ←
          first_row record_not_found
            (find_row (λ f. f.id == folder.id && (is_in_org org f && is_active f)) db.folders)
      ok (db, reloaded))

unfoldable pub move_work : ℕ → ℕ → ℕ → Option ℕ → Assets → Result FolderError (Assets × Folder)
unfolding ensure_refs visible_folder ensure_no_active_deletion has_child_named write_folders
move_work org user id destination db = do
  let db = ensure_refs user org db
  folder ← visible_folder folder_not_found db org id
  ensure_no_active_deletion db org (folder.path ∷ [])
  dest ← load_destination db org folder destination
  move_to org user folder dest db

unfoldable pub move_folder : ℕ → ℕ → ℕ → Option ℕ → Assets → Assets × Result FolderError Folder
unfolding move_work
move_folder org user id destination = transaction (move_work org user id destination)
