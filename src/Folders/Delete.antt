-- ===== src/Folders/Delete.antt =====
-- DeleteFolder and DeleteMetadataItem of repository/asset_repository.go, with the lifecycle unit that
-- a deletion creates. The clock of the application is an argument.
use seta_im_intern.Prelude.{
  ℕ, ◌+◌, Bool, not, ◌&&◌, Option, none, some, List, [], ◌∷◌, map, ◌==◌, if◌then◌else◌, any,
  is_null, Result, ok, ◌>>=◌, ◌>>◌, refuse_if, transaction, has_key,
}
use seta_im_intern.Folders.Rows.{
  FolderPath, Folder, Item, ResourceType, UnitState, LifecycleUnit, Assets, FolderError, is_under,
  parent_path, is_active, is_in_org, is_visible, is_live_root, retention, folder_resource,
  metadata_resource, folder_not_found, folder_not_empty, metadata_not_found, constraint_violated,
}
use seta_im_intern.Folders.Change.{find_row, first_row, ensure_no_active_deletion, visible_folder}

abbrev pub lifecycle_parent_path : FolderPath → Option FolderPath
lifecycle_parent_path [] = none
lifecycle_parent_path (x ∷ []) = none
lifecycle_parent_path (x ∷ y ∷ path) = some (parent_path (x ∷ y ∷ path))

-- The row of a deletion that is complete; the requester is a foreign key.
unfoldable pub create_deleted_unit : LifecycleUnit → Assets → Result FolderError Assets
create_deleted_unit unit db = do
  refuse_if (has_key (map (λ u. u.id) db.units) unit.id) constraint_violated
  refuse_if (any (is_live_root unit) db.units) constraint_violated
  refuse_if (not (has_key db.user_refs unit.requested_by)) constraint_violated
  ok (record db { units = unit ∷ db.units })

abbrev pub deleted_unit :
    ℕ → ℕ → ℕ → ℕ → ResourceType → ℕ → FolderPath → Option FolderPath → Option ℕ → LifecycleUnit
deleted_unit id now org user kind resource root parent folder = record {
  id = id;
  org_id = org;
  root_resource_type = kind;
  root_resource_id = resource;
  root_folder_path = root;
  original_parent_path = parent;
  original_folder_id = folder;
  state = UnitState.deleted;
  requested_by = user;
  delete_completed_at = some now;
  retention_until = some (now + retention);
}

abbrev pub is_active_below : ℕ → Folder → Folder → Bool
is_active_below org folder f =
    is_in_org org f && (is_under folder.path f.path && (not (f.id == folder.id) && is_active f))

abbrev pub is_item_below : ℕ → Folder → List Folder → Item → Bool
is_item_below org folder folders item =
    any (λ f. f.id == item.folder_id && (is_in_org org f && is_under folder.path f.path)) folders
    && is_null item.deleted_at

abbrev pub is_deletable : ℕ → ℕ → Folder → Bool
is_deletable org id f =
    f.id == id && (is_in_org org f && (is_active f && is_null f.lifecycle_unit_id))

abbrev pub tombstone : ℕ → ℕ → ℕ → ℕ → ℕ → Folder → Folder
tombstone org user id now unit f =
    if is_deletable org id f
    then record f { deleted_at = some now; updated_by = some user; lifecycle_unit_id = some unit }
    else f

unfoldable pub delete_work : ℕ → ℕ → ℕ → ℕ → ℕ → Assets → Result FolderError (Assets × Unit {0})
unfolding visible_folder ensure_no_active_deletion create_deleted_unit
delete_work unit_id now org user id db = do
  folder ← visible_folder folder_not_found db org id
  ensure_no_active_deletion db org (folder.path ∷ [])
  refuse_if (any (is_active_below org folder) db.folders) folder_not_empty
  refuse_if (any (is_item_below org folder db.folders) db.items) folder_not_empty
  db ←
      create_deleted_unit
        (deleted_unit unit_id now org user folder_resource folder.id folder.path
          (lifecycle_parent_path folder.path) none)
        db
  refuse_if (not (any (is_deletable org folder.id) db.folders)) folder_not_found
  ok (record db { folders = map (tombstone org user folder.id now unit_id) db.folders }, tt)

unfoldable pub delete_folder : ℕ → ℕ → ℕ → ℕ → ℕ → Assets → Assets × Result FolderError (Unit {0})
unfolding delete_work
delete_folder unit_id now org user id = transaction (delete_work unit_id now org user id)

-- The item joined with its folder.
abbrev pub is_visible_item : Assets → ℕ → ℕ → Item → Bool
is_visible_item db org id item =
    item.id == id
    && (any (λ f. f.id == item.folder_id && (is_in_org org f && is_visible db.folders f)) db.folders
        && is_null item.deleted_at)

unfoldable pub visible_item : Assets → ℕ → ℕ → Result FolderError Item
unfolding is_visible
visible_item db org id =
    first_row metadata_not_found (find_row (is_visible_item db org id) db.items)

abbrev pub is_deletable_item : ℕ → Item → Bool
is_deletable_item id item =
    item.id == id && (is_null item.deleted_at && is_null item.lifecycle_unit_id)

abbrev pub tombstone_item : ℕ → ℕ → ℕ → ℕ → Item → Item
tombstone_item user id now unit item =
    if is_deletable_item id item
    then record item {
      deleted_at = some now;
      updated_by = some user;
      lifecycle_unit_id = some unit;
    }
    else item

unfoldable pub delete_item_work :
    ℕ → ℕ → ℕ → ℕ → ℕ → Assets → Result FolderError (Assets × Unit {0})
unfolding visible_item visible_folder ensure_no_active_deletion create_deleted_unit
delete_item_work unit_id now org user id db = do
  item ← visible_item db org id
  folder ← visible_folder metadata_not_found db org item.folder_id
  ensure_no_active_deletion db org (folder.path ∷ [])
  db ←
      create_deleted_unit
        (deleted_unit unit_id now org user metadata_resource item.id folder.path none
          (some folder.id))
        db
  refuse_if (not (any (is_deletable_item item.id) db.items)) metadata_not_found
  ok (record db { items = map (tombstone_item user item.id now unit_id) db.items }, tt)

unfoldable pub delete_metadata_item :
    ℕ → ℕ → ℕ → ℕ → ℕ → Assets → Assets × Result FolderError (Unit {0})
unfolding delete_item_work
delete_metadata_item unit_id now org user id =
    transaction (delete_item_work unit_id now org user id)
