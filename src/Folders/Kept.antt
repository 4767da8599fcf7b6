-- ===== src/Folders/Kept.antt =====
-- CreateFolder and UpdateFolder keep the tree.
use seta_im_intern.Prelude.{
  ℕ, ◌≡◌, refl, subst, inl, inr, false, Option, none, some, List, [], ◌∷◌, map, ◌==◌, arith,
  Bool-cases, if◌then◌else◌, IsAmong, AreDistinct, AreDistinct-unique, ok, refuse_if,
  refuse_if-eq-ok, refuse_if-then, ok-injective, Commits, Commits-ok, Commits-bind, same_bytes,
  has_key,
}
use seta_im_intern.Import.Dataset.{Text}
use seta_im_intern.Folders.Rows.{
  Assets, Folder, FolderError, has_child_named, folder_conflict, folder_not_found, parent_path,
}
use seta_im_intern.Folders.Change.{
  CreateFolderInput, UpdateFolderInput, create_work, update_work, ensure_refs, load_parent,
  ensure_no_active_deletion, visible_folder, write_folders, new_folder, any_folder, renamed,
  save_row, is_other,
}
use seta_im_intern.Folders.Reads.{visible_folder-IsRead, load_parent-HasFolder, write_folders-ok}
use seta_im_intern.Folders.Forest.{IsForest, IsForest-insert, IsForest-same_paths}
use seta_im_intern.Folders.Fenced.{IsKept, held_other, IsAmong-unchanged}

pub IsKept-create :
    (id org user : ℕ) (input : CreateFolderInput) (db : Assets)
    → IsForest db.folders
    → Commits (IsKept db.folders db.deletion_jobs) (create_work id org user input db)
unfolding create_work ensure_refs
IsKept-create id org user input db forest =
    let db1 = ensure_refs user org db in
    Commits-bind (load_parent db1 org input.parent_path) _ (λ parent loaded.
      Commits-bind (ensure_no_active_deletion db1 org (parent ∷ [])) _ (λ u fenced.
        Commits-bind
          (refuse_if (has_child_named org parent input.name any_folder db1.folders) folder_conflict)
          _
          (λ u free.
            Commits-bind (refuse_if (has_key (map (λ f. f.id) db1.folders) id) folder_conflict) _
              (λ u fresh.
                let new = new_folder id org user parent input in
                Commits-bind (write_folders (new ∷ db1.folders) db1) _ (λ db2 written.
                  Commits-ok db2 new (
                    subst (IsKept db.folders db.deletion_jobs)
                      (write_folders-ok (new ∷ db1.folders) db1 written)
                      (record {
                        forest =
                            IsForest-insert db1.folders new parent
                              (refuse_if-eq-ok _ folder_conflict fresh) refl
                              (load_parent-HasFolder db1 org input.parent_path loaded) forest;
                        held = λ f here h. inr here;
                      })))))))

save_row-id : (saved f : Folder) → (save_row saved f).id ≡ f.id
save_row-id saved f = ground arith

-- Two rows that stand at the same place.
record SamePlace (f g : Folder) : Type 0 where
  same_id : f.id ≡ g.id
  same_org : f.org_id ≡ g.org_id
  same_path : f.path ≡ g.path

renamed-SamePlace :
    (db : Assets) (org : ℕ) (folder : Folder) (name : Option Text) {named : Folder}
    → renamed db org folder name ≡ ok named
    → SamePlace named folder
renamed-SamePlace db org folder none h =
    subst (λ g. SamePlace g folder) (ok-injective h)
      (record { same_id = refl; same_org = refl; same_path = refl })
renamed-SamePlace db org folder (some name) {named} h =
    elim (Bool-cases (same_bytes name folder.name)) [
      | inl same ↦
          subst (λ g. SamePlace g folder) (ok-injective {E = FolderError} (rw same at h))
            (record { same_id = refl; same_org = refl; same_path = refl })
      | inr other ↦
          let returned =
            (refuse_if-then
              (has_child_named org (parent_path folder.path) name (is_other folder.id) db.folders)
              folder_conflict (ok (record folder { name = name })) (rw other at h)).1 in
          subst (λ g. SamePlace g folder) (ok-injective returned)
            (record { same_id = refl; same_org = refl; same_path = refl })
    ]

-- The UPDATE of one row by its primary key writes the row that was read.
save_row-SamePlace :
    (folders : List Folder) (folder saved : Folder)
    → AreDistinct (map (λ f. f.id) folders)
    → IsAmong folder folders
    → SamePlace saved folder
    → (f : Folder) → IsAmong f folders
    → SamePlace (save_row saved f) f
save_row-SamePlace folders folder saved distinct among same f here =
    elim (Bool-cases (f.id == saved.id)) [
      | inl hit ↦
          let q : folder.id ≡ f.id = ground (arith, same.same_id) in
          let e = AreDistinct-unique (λ f. f.id) folders folder f distinct among here q in
          rw hit (subst (λ g. SamePlace saved g) e same)
      | inr miss ↦ rw miss (record { same_id = refl; same_org = refl; same_path = refl })
    ]

pub IsKept-update :
    (org user id : ℕ) (input : UpdateFolderInput) (db : Assets)
    → IsForest db.folders
    → Commits (IsKept db.folders db.deletion_jobs) (update_work org user id input db)
unfolding update_work ensure_refs
IsKept-update org user id input db forest =
    let db1 = ensure_refs user org db in
    Commits-bind (visible_folder folder_not_found db1 org id) _ (λ folder read.
      Commits-bind (ensure_no_active_deletion db1 org (folder.path ∷ [])) _ (λ u fenced.
        Commits-bind (renamed db1 org folder input.name) _ (λ named is_named.
          let saved = record named {
            description = if input.description_set then input.description else named.description;
            updated_by = some user;
          } in
          let row = (visible_folder-IsRead folder_not_found db1 org id read).0 in
          let at = renamed-SamePlace db1 org folder input.name is_named in
          let same =
            save_row-SamePlace db1.folders folder saved forest.distinct row.among
              (record { same_id = at.same_id; same_org = at.same_org; same_path = at.same_path }) in
          Commits-bind (write_folders (map (save_row saved) db1.folders) db1) _ (λ db2 written.
            Commits-ok db2 saved (
              subst (IsKept db.folders db.deletion_jobs)
                (write_folders-ok (map (save_row saved) db1.folders) db1 written)
                (record {
                  forest =
                      IsForest-same_paths db1.folders (save_row saved) (save_row-id saved)
                        (λ f here. (same f here).same_org) (λ f here. (same f here).same_path)
                        forest;
                  held = λ f here h. IsAmong-unchanged db1.folders (save_row saved) f here (
                      let other : (f.id == folder.id) ≡ false =
                        held_other db1 forest folder row.among org row.in_org fenced f here h in
                      rw (at.same_id, other) refl);
                }))))))
