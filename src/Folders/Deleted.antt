-- ===== src/Folders/Deleted.antt =====
-- DeleteFolder and DeleteMetadataItem keep the tree.
use seta_im_intern.Prelude.{
  ℕ, ◌≡◌, refl, subst, none, some, [], ◌∷◌, map, arith, IsAmong, ok, refuse_if, refuse_if-then,
  ok-injective, Commits, Commits-ok, Commits-bind, has_key, any, not,
}
use seta_im_intern.Folders.Rows.{
  Assets, LifecycleUnit, constraint_violated, is_live_root, folder_not_found, folder_not_empty,
  metadata_not_found, folder_resource, metadata_resource,
}
use seta_im_intern.Folders.Change.{ensure_no_active_deletion, visible_folder}
use seta_im_intern.Folders.Delete.{
  delete_work, delete_item_work, create_deleted_unit, deleted_unit, tombstone, is_deletable,
  lifecycle_parent_path, is_active_below, is_item_below, visible_item, is_deletable_item,
}
use seta_im_intern.Folders.Reads.{visible_folder-IsRead}
use seta_im_intern.Folders.Forest.{IsForest, IsForest-same_paths}
use seta_im_intern.Folders.Fenced.{IsKept, held_other, IsAmong-unchanged}

create_deleted_unit-ok :
    (unit : LifecycleUnit) (db : Assets) {db' : Assets}
    → create_deleted_unit unit db ≡ ok db'
    → record db { units = unit ∷ db.units } ≡ db'
unfolding create_deleted_unit
create_deleted_unit-ok unit db h =
    let (_, h1) =
      refuse_if-then (has_key (map (λ u. u.id) db.units) unit.id) constraint_violated _ h in
    let (_, h2) = refuse_if-then (any (is_live_root unit) db.units) constraint_violated _ h1 in
    ok-injective
      (refuse_if-then (not (has_key db.user_refs unit.requested_by)) constraint_violated _ h2).1

pub IsKept-delete :
    (unit_id now org user id : ℕ) (db : Assets)
    → IsForest db.folders
    → Commits (IsKept db.folders db.deletion_jobs) (delete_work unit_id now org user id db)
unfolding delete_work
IsKept-delete unit_id now org user id db forest =
    Commits-bind (visible_folder folder_not_found db org id) _ (λ folder read.
      Commits-bind (ensure_no_active_deletion db org (folder.path ∷ [])) _ (λ u fenced.
        Commits-bind (refuse_if (any (is_active_below org folder) db.folders) folder_not_empty) _
          (λ u h.
            Commits-bind
              (refuse_if (any (is_item_below org folder db.folders) db.items) folder_not_empty) _
              (λ u h.
                let unit =
                  deleted_unit unit_id now org user folder_resource folder.id folder.path
                    (lifecycle_parent_path folder.path) none in
                Commits-bind (create_deleted_unit unit db) _ (λ db2 created.
                  Commits-bind
                    (refuse_if (not (any (is_deletable org folder.id) db2.folders))
                      folder_not_found)
                    _
                    (λ u found.
                      let e = create_deleted_unit-ok unit db created in
                      Commits-ok _ tt (record {
                        forest =
                            IsForest-same_paths db2.folders
                              (tombstone org user folder.id now unit_id) (λ f. ground arith)
                              (λ f h. ground arith) (λ f h. ground arith)
                              (subst (λ d. IsForest d.folders) e forest);
                        held = λ f here h.
                            IsAmong-unchanged db2.folders (tombstone org user folder.id now unit_id)
                              f (subst (λ d. IsAmong f d.folders) e here)
                              (let row =
                                  (visible_folder-IsRead folder_not_found db org id read).0 in
                                rw
                                  (held_other db forest folder row.among org row.in_org fenced f
                                    here h)
                                  refl);
                      })))))))

pub IsKept-delete_item :
    (unit_id now org user id : ℕ) (db : Assets)
    → IsForest db.folders
    → Commits (IsKept db.folders db.deletion_jobs) (delete_item_work unit_id now org user id db)
unfolding delete_item_work
IsKept-delete_item unit_id now org user id db forest =
    Commits-bind (visible_item db org id) _ (λ item read.
      Commits-bind (visible_folder metadata_not_found db org item.folder_id) _ (λ folder read.
        Commits-bind (ensure_no_active_deletion db org (folder.path ∷ [])) _ (λ u fenced.
          let unit =
            deleted_unit unit_id now org user metadata_resource item.id folder.path none
              (some folder.id) in
          Commits-bind (create_deleted_unit unit db) _ (λ db2 created.
            Commits-bind
              (refuse_if (not (any (is_deletable_item item.id) db2.items)) metadata_not_found) _
              (λ u found.
                let e = create_deleted_unit-ok unit db created in
                Commits-ok _ tt (record {
                  forest = subst (λ d. IsForest d.folders) e forest;
                  held = λ f here h. subst (λ d. IsAmong f d.folders) e here;
                }))))))
