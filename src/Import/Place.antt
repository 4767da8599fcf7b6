-- ===== src/Import/Place.antt =====
-- The folders of a dataset in ImportSampleTransaction of repository/asset_repository_import.go: each is
-- found or created below the folder of its parent's key. The maps from a folder's key to its path and
-- identifier are a function from keys to the folder's row; new identifiers are arguments, by the
-- position in the dataset.
use seta_im_intern.Prelude.{
  ℕ, suc, ◌+◌, Bool, true, false, ◌&&◌, Option, none, some, List, [], ◌∷◌, map, ◌==◌, if◌then◌else◌,
  same_bytes, Result, ok, err, ◌>>=◌, ◌>>◌, refuse_if, has_key,
}
use seta_im_intern.Import.Dataset.{Text, ImportFolder, ImportSummary}
use seta_im_intern.Folders.Rows.{
  Assets, Folder, FolderPath, FolderError, constraint_violated, is_active, is_in_org, is_child_path,
}
use seta_im_intern.Folders.Change.{find_row, write_folders, new_folder}

pub data UpsertError : Type 0 where
  folder_refused : FolderError → UpsertError
  identity_conflict : Text → UpsertError

abbrev pub upsert_or : {A : Type 0} → Result FolderError A → Result UpsertError A
upsert_or (ok a) = ok a
upsert_or (err e) = err (folder_refused e)

abbrev pub Placed : Type 0
Placed = ℕ → Option Folder

abbrev pub put_placed : ℕ → Folder → Placed → Placed
put_placed key folder placed k = if key == k then some folder else placed k

-- `folderKeyToPath[key]`, the empty path where the key is absent.
abbrev pub path_or_empty : Option Folder → FolderPath
path_or_empty none = []
path_or_empty (some f) = f.path

abbrev pub parent_of : Placed → Option ℕ → FolderPath
parent_of placed none = []
parent_of placed (some key) = path_or_empty (placed key)

abbrev pub is_same_folder : ℕ → FolderPath → Text → Folder → Bool
is_same_folder org parent name f =
    is_in_org org f && (same_bytes f.name name && (is_active f && is_child_path parent f.path))

abbrev pub imported_folder : ℕ → ℕ → ℕ → FolderPath → ImportFolder → Folder
imported_folder id org user parent f =
    record (new_folder id org user parent
      (record { parent_path = none; name = f.name; description = f.description })) {
        updated_by = some user;
      }

abbrev pub count_folder : Bool → ImportSummary → ImportSummary
count_folder true s = record s { folders_created = s.folders_created + 1 }
count_folder false s = record s { folders_reused = s.folders_reused + 1 }

-- The database, the row of the folder, and whether it was created.
abbrev pub found_or_created :
    ℕ
    → ℕ
    → ℕ
    → FolderPath
    → ImportFolder
    → Assets
    → Option Folder
    → Result UpsertError (Assets × Folder × Bool)
found_or_created id org user parent f db (some existing) = ok (db, existing, false)
found_or_created id org user parent f db none = do
  let folder = imported_folder id org user parent f
  refuse_if (has_key (map (λ f. f.id) db.folders) id) (folder_refused constraint_violated)
  db ← upsert_or (write_folders (folder ∷ db.folders) db)
  ok (db, folder, true)

unfoldable pub upsert_folders :
    (ℕ → ℕ)
    → ℕ
    → ℕ
    → ℕ
    → List ImportFolder
    → Placed × ImportSummary
    → Assets
    → Result UpsertError (Assets × Placed × ImportSummary)
unfolding write_folders
upsert_folders ids i org user [] (placed, summary) db = ok (db, placed, summary)
upsert_folders ids i org user (f ∷ fs) (placed, summary) db = do
  let parent = parent_of placed f.parent_key
  found ←
      found_or_created (ids i) org user parent f db
        (find_row (is_same_folder org parent f.name) db.folders)
  let (db, folder, created) = found
  upsert_folders ids (suc i) org user fs
      (put_placed f.key folder placed, count_folder created summary) db
