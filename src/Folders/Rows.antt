-- ===== src/Folders/Rows.antt =====
-- The tables of folders, metadata items, lifecycle units and deletion jobs, and the SQL tests on
-- them: domain/asset.go, domain/lifecycle.go, domain/folder_deletion.go, repository/visibility.go
-- and the migrations V1, V5 and V7 of infra/db/asset. A path is the list of its labels; the label
-- of a folder is its identifier. The columns created_at and updated_at, which the database fills
-- in, are left out.
use seta_im_intern.Prelude.{
  ℕ, ◌+◌, ◌*◌, Bool, true, false, not, ◌||◌, ◌&&◌, Option, List, [], ◌∷◌, length, ◌==◌, same_bytes,
  any, is_null,
}
use seta_im_intern.Import.Dataset.{Text}

abbrev pub FolderPath : Type 0
FolderPath = List ℕ

pub record Folder : Type 0 where
  pub id : ℕ
  pub org_id : ℕ
  pub path : FolderPath
  pub name : Text
  pub description : Option Text
  pub created_by : ℕ
  pub updated_by : Option ℕ
  pub deleted_at : Option ℕ
  pub lifecycle_unit_id : Option ℕ

pub record Item : Type 0 where
  pub id : ℕ
  pub folder_id : ℕ
  pub external_source : Option Text
  pub external_id : Option Text
  pub title : Text
  pub description : Option Text
  pub labels : List Text
  pub category : Option Text
  pub source_url : Option Text
  pub thumbnail_url : Option Text
  pub license : Option Text
  pub author : Option Text
  pub metadata_json : Text
  pub notes : Option Text
  pub created_by : ℕ
  pub updated_by : Option ℕ
  pub deleted_at : Option ℕ
  pub lifecycle_unit_id : Option ℕ

pub data ResourceType : Type 0 where
  folder_resource : ResourceType
  metadata_resource : ResourceType

pub data UnitState : Type 0 where
  delete_queued : UnitState
  deleting : UnitState
  deleted : UnitState
  restore_queued : UnitState
  restoring : UnitState
  restored : UnitState
  purge_queued : UnitState
  purging : UnitState
  unit_failed : UnitState
  purged : UnitState

pub record LifecycleUnit : Type 0 where
  pub id : ℕ
  pub org_id : ℕ
  pub root_resource_type : ResourceType
  pub root_resource_id : ℕ
  pub root_folder_path : FolderPath
  pub original_parent_path : Option FolderPath
  pub original_folder_id : Option ℕ
  pub state : UnitState
  pub requested_by : ℕ
  pub delete_completed_at : Option ℕ
  pub retention_until : Option ℕ

pub data DeletionStatus : Type 0 where
  previewed : DeletionStatus
  queued : DeletionStatus
  running : DeletionStatus
  succeeded : DeletionStatus
  failed : DeletionStatus
  cancelled : DeletionStatus

-- The columns of a deletion job that the fence reads.
pub record DeletionJob : Type 0 where
  pub org_id : ℕ
  pub root_path : FolderPath
  pub status : DeletionStatus

pub record Assets : Type 0 where
  pub folders : List Folder
  pub items : List Item
  pub units : List LifecycleUnit
  pub deletion_jobs : List DeletionJob
  pub user_refs : List ℕ
  pub organization_refs : List ℕ

pub data FolderError : Type 0 where
  folder_not_found : FolderError
  folder_conflict : FolderError
  folder_not_empty : FolderError
  cycle_detected : FolderError
  deletion_in_progress : FolderError
  metadata_not_found : FolderError
  record_not_found : FolderError
  constraint_violated : FolderError

-- `above @> path`: the labels of `above` begin those of `path`.
abbrev pub is_under : FolderPath → FolderPath → Bool
is_under [] path = true
is_under (x ∷ above) [] = false
is_under (x ∷ above) (y ∷ path) = x == y && is_under above path

-- The path less its last label.
abbrev pub parent_path : FolderPath → FolderPath
parent_path [] = []
parent_path (x ∷ []) = []
parent_path (x ∷ y ∷ path) = x ∷ parent_path (y ∷ path)

abbrev pub is_child_path : FolderPath → FolderPath → Bool
is_child_path parent path = is_under parent path && length path == length parent + 1

abbrev pub is_active : Folder → Bool
is_active f = is_null f.deleted_at

abbrev pub is_in_org : ℕ → Folder → Bool
is_in_org org f = f.org_id == org

abbrev pub is_deleted_ancestor : Folder → Folder → Bool
is_deleted_ancestor f a = is_in_org f.org_id a && (not (is_active a) && is_under a.path f.path)

-- visibleFolderPredicate
unfoldable pub is_visible : List Folder → Folder → Bool
is_visible folders f = is_active f && not (any (is_deleted_ancestor f) folders)

-- The unique indexes uq_folders_active_path and uq_folders_active_sibling_name.
abbrev pub clashes : Folder → Folder → Bool
clashes a b =
    is_active a
    && (is_active b
        && (is_in_org b.org_id a
            && (not (a.id == b.id)
                && (same_bytes a.path b.path
                    || (same_bytes (parent_path a.path) (parent_path b.path)
                        && same_bytes a.name b.name)))))

unfoldable pub violates_unique : List Folder → Bool
violates_unique folders = any (λ a. any (clashes a) folders) folders

-- Whether the active folders have a child of `parent` with that name.
unfoldable pub has_child_named : ℕ → FolderPath → Text → (Folder → Bool) → List Folder → Bool
has_child_named org parent name other folders =
    any
      (λ f.
        is_active f
        && (is_in_org org f
            && (is_child_path parent f.path && (same_bytes f.name name && other f))))
      folders

-- uq_asset_lifecycle_units_live_root
abbrev pub is_settled : UnitState → Bool
is_settled restored = true
is_settled purged = true
is_settled _ = false

abbrev pub same_resource : ResourceType → ResourceType → Bool
same_resource folder_resource folder_resource = true
same_resource metadata_resource metadata_resource = true
same_resource _ _ = false

abbrev pub is_live_root : LifecycleUnit → LifecycleUnit → Bool
is_live_root new u =
    not (is_settled u.state)
    && (u.org_id == new.org_id
        && (same_resource u.root_resource_type new.root_resource_type
            && u.root_resource_id == new.root_resource_id))

abbrev pub blocks : DeletionStatus → Bool
blocks queued = true
blocks running = true
blocks failed = true
blocks _ = false

-- The WHERE clause of ensureNoActiveDeletionForPaths.
abbrev pub fences : ℕ → FolderPath → DeletionJob → Bool
fences org path job =
    job.org_id == org
    && (blocks job.status && (is_under job.root_path path || is_under path job.root_path))

abbrev pub retention : ℕ
retention = 30 * 86400000000000
