-- ===== src/FolderTests.antt =====
-- Small trees of folders, and the theorems about folders at them.
use seta_im_intern.Prelude.{
  IsAmong, inl, inr, ℕ, ◌≡◌, refl, false, none, some, List, [], ◌∷◌, map, err,
}
use seta_im_intern.Folders.Rows.{
  Assets, Folder, FolderPath, DeletionStatus, cycle_detected, folder_conflict, folder_not_empty,
  deletion_in_progress, constraint_violated,
}
use seta_im_intern.Folders.Change.{
  CreateFolderInput, create_folder, update_folder, move_folder, new_folder,
}
use seta_im_intern.Folders.Forest.{IsForest}
use seta_im_intern.Folders.Fenced.{IsHeld}
use seta_im_intern.Folders.Runs.{
  FolderRun, here, next, creates, updates, moves, FolderRun-IsForest, FolderStep-held,
}
use seta_im_intern.Folders.Delete.{delete_folder}

abbrev empty : Assets
empty = record {
  folders = [];
  items = [];
  units = [];
  deletion_jobs = [];
  user_refs = [];
  organization_refs = [];
}

abbrev under : FolderPath → ℕ → CreateFolderInput
under parent name = record { parent_path = some parent; name = name ∷ []; description = none }

-- In the organization 1: 10 with the child 11 and its child 12, and 20, which has the name of 11.
abbrev tree : Assets
tree =
    (create_folder 20 1 2 (under [] 101)
      (create_folder 12 1 2 (under (10 ∷ 11 ∷ []) 102)
        (create_folder 11 1 2 (under (10 ∷ []) 101)
          (create_folder 10 1 2 (under [] 100) empty).0).0).0).0

abbrev paths : Assets → List FolderPath
paths db = map (λ f. f.path) db.folders

creates_tree : paths tree ≡ (20 ∷ []) ∷ (10 ∷ 11 ∷ 12 ∷ []) ∷ (10 ∷ 11 ∷ []) ∷ (10 ∷ []) ∷ []
unfolding create_folder
creates_tree = refl

moves_subtree :
    paths (move_folder 1 2 11 (some 20) tree).0
    ≡ (20 ∷ []) ∷ (20 ∷ 11 ∷ 12 ∷ []) ∷ (20 ∷ 11 ∷ []) ∷ (10 ∷ []) ∷ []
unfolding create_folder move_folder
moves_subtree = refl

refuses_cycle : move_folder 1 2 10 (some 12) tree ≡ (tree, err cycle_detected)
unfolding create_folder move_folder
refuses_cycle = refl

refuses_name : move_folder 1 2 11 none tree ≡ (tree, err folder_conflict)
unfolding create_folder move_folder
refuses_name = refl

refuses_full : delete_folder 30 5 1 2 11 tree ≡ (tree, err folder_not_empty)
unfolding create_folder delete_folder
refuses_full = refl

refuses_unknown_user : delete_folder 30 5 1 3 12 tree ≡ (tree, err constraint_violated)
unfolding create_folder delete_folder
refuses_unknown_user = refl

deletes :
    map (λ f. f.deleted_at) (delete_folder 30 5 1 2 12 tree).0.folders
    ≡ none ∷ some 5 ∷ none ∷ none ∷ []
unfolding create_folder delete_folder
deletes = refl

empty-IsForest : IsForest empty.folders
empty-IsForest = record { distinct = tt; placed = λ f among. elim among [ ] }

created : FolderRun empty tree
created =
    next
      (next
        (next (next here (creates 10 1 2 (under [] 100) refl))
          (creates 11 1 2 (under (10 ∷ []) 101) refl))
        (creates 12 1 2 (under (10 ∷ 11 ∷ []) 102) refl))
      (creates 20 1 2 (under [] 101) refl)

abbrev moved : Assets
moved = (move_folder 1 2 11 (some 20) tree).0

FolderRun-IsForest_example : IsForest moved.folders
FolderRun-IsForest_example =
    FolderRun-IsForest empty-IsForest (next created (moves 1 2 11 (some 20) refl))

-- A failed deletion of 10, and a move of 20 below another folder, which the fence refuses.
abbrev fenced : Assets
fenced = record tree {
  deletion_jobs = record { org_id = 1; root_path = 10 ∷ []; status = DeletionStatus.failed } ∷ [];
}

refuses_fenced : move_folder 1 2 20 (some 11) fenced ≡ (fenced, err deletion_in_progress)
unfolding create_folder move_folder
refuses_fenced = refl

abbrev row_12 : Folder
row_12 = new_folder 12 1 2 (10 ∷ 11 ∷ []) (under (10 ∷ 11 ∷ []) 102)

is_held : IsHeld fenced.deletion_jobs row_12
is_held = record { job = _; among = inl refl; blocking = refl; same_org = refl; below = refl }

is_row : IsAmong row_12 tree.folders
unfolding create_folder
is_row = inr (inl refl)

abbrev renamed_20 : Assets
renamed_20 =
    (update_folder 1 2 20
      (record { name = some (7 ∷ []); description_set = false; description = none }) fenced).0

FolderStep-held_example : IsAmong row_12 renamed_20.folders
FolderStep-held_example =
    FolderStep-held (FolderRun-IsForest empty-IsForest created)
      (updates 1 2 20 (record { name = some (7 ∷ []); description_set = false; description = none })
        refl)
      row_12 is_row is_held
