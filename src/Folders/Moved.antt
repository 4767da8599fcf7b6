-- ===== src/Folders/Moved.antt =====
-- MoveFolder keeps the tree.
use seta_im_intern.Prelude.{
  ℕ, ◌≡◌, subst, ◌⊎◌, inl, inr, false, ◌&&◌, Option, List, [], ◌∷◌, ◌++◌, map, ◌==◌, IsAmong,
  refuse_if, Commits, Commits-ok, Commits-if, Commits-bind, same_bytes,
}
use seta_im_intern.Folders.Rows.{
  Assets, Folder, FolderPath, is_under, is_in_org, is_active, has_child_named, folder_conflict,
  folder_not_found, record_not_found,
}
use seta_im_intern.Folders.Change.{
  move_work, move_to, ensure_refs, load_destination, ensure_no_active_deletion, visible_folder,
  write_folders, is_other, shift_row, first_row, find_row,
}
use seta_im_intern.Folders.Reads.{visible_folder-IsRead, load_destination-ok, write_folders-ok}
use seta_im_intern.Folders.Forest.{HasFolder, IsForest, IsPlaced-is_under_root}
use seta_im_intern.Folders.Shift.{IsForest-shift, shift-kept}
use seta_im_intern.Folders.Fenced.{IsHeld, IsKept, held_unshifted, IsAmong-unchanged}

IsKept-move_to :
    (org user : ℕ) (folder : Folder) (dest : FolderPath) (db : Assets)
    → IsForest db.folders
    → IsAmong folder db.folders
    → folder.org_id ≡ org
    → (dest ≡ []) ⊎ HasFolder db.folders org dest
    → is_under folder.path dest ≡ false
    → ((f : Folder)
        → IsHeld db.deletion_jobs f
        → (is_in_org org f && is_under folder.path f.path) ≡ false)
    → Commits (IsKept db.folders db.deletion_jobs) (move_to org user folder dest db)
IsKept-move_to org user folder dest db forest among in_org above apart unshifted =
    let new = dest ++ folder.id ∷ [] in
    Commits-if (same_bytes folder.path new) _ _
      (λ same. Commits-ok db folder (record { forest = forest; held = λ f here h. here }))
      (λ other.
        Commits-bind
          (refuse_if (has_child_named org dest folder.name (is_other folder.id) db.folders)
            folder_conflict)
          _
          (λ u free.
            Commits-bind (write_folders (map (shift_row org user folder.path new) db.folders) db) _
              (λ db2 written.
                Commits-bind
                  (first_row record_not_found (
                    find_row (λ f. f.id == folder.id && (is_in_org org f && is_active f))
                      db2.folders))
                  _
                  (λ reloaded read. Commits-ok db2 reloaded (
                    subst (IsKept db.folders db.deletion_jobs)
                      (write_folders-ok (map (shift_row org user folder.path new) db.folders) db
                        written)
                      (record {
                        forest =
                            subst
                              (λ o. IsForest (map (shift_row o user folder.path new) db.folders))
                              in_org
                              (IsForest-shift db.folders forest user folder among dest
                                (rw in_org above) apart);
                        held = λ f here h.
                            IsAmong-unchanged db.folders (shift_row org user folder.path new) f here
                              (shift-kept org user folder.path new f (unshifted f h));
                      }))))))

module _ {folders : List Folder} {org : ℕ} (path dest : FolderPath) where
  destination_above :
      (dest ≡ []) ⊎ (HasFolder folders org dest × (is_under path dest ≡ false))
      → (dest ≡ []) ⊎ HasFolder folders org dest
  destination_above (inl e) = inl e
  destination_above (inr at) = inr at.0

  destination_apart :
      is_under path [] ≡ false
      → (dest ≡ []) ⊎ (HasFolder folders org dest × (is_under path dest ≡ false))
      → is_under path dest ≡ false
  destination_apart not_root (inl e) = rw e not_root
  destination_apart not_root (inr at) = at.1

pub IsKept-move :
    (org user id : ℕ) (input : Option ℕ) (db : Assets)
    → IsForest db.folders
    → Commits (IsKept db.folders db.deletion_jobs) (move_work org user id input db)
unfolding move_work ensure_refs
IsKept-move org user id input db forest =
    let db1 = ensure_refs user org db in
    Commits-bind (visible_folder folder_not_found db1 org id) _ (λ folder read.
      Commits-bind (ensure_no_active_deletion db1 org (folder.path ∷ [])) _ (λ u fenced.
        Commits-bind (load_destination db1 org folder input) _ (λ dest loaded.
          let row = (visible_folder-IsRead folder_not_found db1 org id read).0 in
          IsKept-move_to org user folder dest db1 forest row.among row.in_org
            (destination_above folder.path dest (load_destination-ok db1 org folder input loaded))
            (destination_apart folder.path dest
              (IsPlaced-is_under_root db1.folders folder.org_id folder.id folder.path
                (forest.placed folder row.among))
              (load_destination-ok db1 org folder input loaded))
            (held_unshifted db1 forest folder row.among org row.in_org fenced))))
