-- ===== src/Import/Upsert.antt =====
-- ImportSampleTransaction of repository/asset_repository_import.go: the folders of a dataset are placed
-- and its items found or created in one transaction, which a dry run rolls back. New identifiers are
-- arguments, by the position in the dataset. The status of a summary is whether the result is an
-- error; the counts that the code returns beside an error are left out.
use seta_im_intern.Prelude.{
  ℕ, suc, ◌+◌, Bool, true, false, not, ◌&&◌, Option, none, some, List, [], ◌∷◌, map, ◌==◌,
  if◌then◌else◌, same_bytes, any, is_null, Result, ok, err, ◌>>=◌, ◌>>◌, refuse_if, has_key,
}
use seta_im_intern.Import.Dataset.{Text, ImportDataset, ImportMetadataItem, ImportSummary}
use seta_im_intern.Folders.Rows.{
  Assets, Folder, Item, constraint_violated, LifecycleUnit, UnitState, ResourceType,
  metadata_resource, same_resource,
}
use seta_im_intern.Folders.Change.{ensure_refs, find_row}
use seta_im_intern.Import.Place.{
  UpsertError, Placed, upsert_folders, folder_refused, identity_conflict,
}

abbrev pub ptr_string_equal : Option Text → Option Text → Bool
ptr_string_equal none none = true
ptr_string_equal (some a) (some b) = same_bytes a b
ptr_string_equal _ _ = false

abbrev pub slice_equal : List Text → List Text → Bool
slice_equal [] [] = true
slice_equal (a ∷ as') (b ∷ bs) = same_bytes a b && slice_equal as' bs
slice_equal _ _ = false

-- A decoded map[string]json.RawMessage.
abbrev pub JsonObject : Type 0
JsonObject = List (Text × Text)

-- encoding/json: the object at the start of a text, with whether anything but the end follows it, and
-- Marshal, which sorts the keys.
pub record JsonCodec : Type 0 where
  pub decode_object : Text → Option (JsonObject × Bool)
  pub marshal_object : JsonObject → Option Text

abbrev pub only_object : Option (JsonObject × Bool) → Option JsonObject
only_object (some (object, false)) = some object
only_object _ = none

abbrev pub same_canonical : Option Text → Option Text → Bool
same_canonical (some a) (some b) = same_bytes a b
same_canonical _ _ = false

abbrev pub same_objects : JsonCodec → Text → Text → Option JsonObject → Option JsonObject → Bool
same_objects json a b (some x) (some y) =
    same_canonical (json.marshal_object x) (json.marshal_object y)
same_objects json a b _ _ = same_bytes a b

abbrev pub json_objects_equal : JsonCodec → Text → Text → Bool
json_objects_equal json a b =
    same_objects json a b (only_object (json.decode_object a)) (only_object (json.decode_object b))

abbrev pub has_identity : Text → Text → Item → Bool
has_identity source id item =
    ptr_string_equal item.external_source (some source)
    && ptr_string_equal item.external_id (some id)

-- The item with its folder's organization, by a JOIN.
abbrev pub with_org : Option Item → List Folder → Option (Item × ℕ)
with_org none folders = none
with_org (some item) folders = elim (find_row (λ f. f.id == item.folder_id) folders) [
  | none ↦ none
  | some f ↦ some (item, f.org_id)
]

abbrev pub or_else_found : Option (Item × ℕ) → Option (Item × ℕ) → Option (Item × ℕ)
or_else_found none later = later
or_else_found (some x) later = some x

abbrev pub is_joined : List Folder → Item → Bool
is_joined folders item = any (λ f. f.id == item.folder_id) folders

unfoldable pub find_identity : Text → Text → Assets → Option (Item × ℕ)
find_identity source id db =
    or_else_found
      (with_org
        (find_row
          (λ m. is_joined db.folders m && (has_identity source id m && is_null m.deleted_at))
          db.items)
        db.folders)
      (with_org
        (find_row
          (λ m. is_joined db.folders m && (has_identity source id m && not (is_null m.deleted_at)))
          db.items)
        db.folders)

abbrev pub updated_item : ℕ → ℕ → ImportMetadataItem → Item → Item
updated_item user folder m item = record item {
  folder_id = folder;
  title = m.title;
  description = m.description;
  labels = m.labels;
  category = m.category;
  source_url = m.source_url;
  thumbnail_url = m.thumbnail_url;
  license = m.license;
  author = m.author;
  metadata_json = m.metadata_json;
  notes = m.notes;
  updated_by = some user;
  deleted_at = none;
  lifecycle_unit_id = if is_null item.deleted_at then item.lifecycle_unit_id else none;
}

abbrev pub created_item : ℕ → ℕ → ℕ → Text → ImportMetadataItem → Item
created_item id user folder source m = record {
  id = id;
  folder_id = folder;
  external_source = some source;
  external_id = some m.external_id;
  title = m.title;
  description = m.description;
  labels = m.labels;
  category = m.category;
  source_url = m.source_url;
  thumbnail_url = m.thumbnail_url;
  license = m.license;
  author = m.author;
  metadata_json = m.metadata_json;
  notes = m.notes;
  created_by = user;
  updated_by = some user;
  deleted_at = none;
  lifecycle_unit_id = none;
}

abbrev pub is_deleted : UnitState → Bool
is_deleted UnitState.deleted = true
is_deleted _ = false

unfoldable pub complete_lifecycle_restore :
    ℕ → ResourceType → ℕ → List LifecycleUnit → List LifecycleUnit
complete_lifecycle_restore org kind resource units =
    map
      (λ u.
        if u.org_id == org
          && (same_resource u.root_resource_type kind
              && (u.root_resource_id == resource && is_deleted u.state))
        then record u { state = UnitState.restored }
        else u)
      units

abbrev pub folder_or_refuse : Option Folder → Result UpsertError Folder
folder_or_refuse none = err (folder_refused constraint_violated)
folder_or_refuse (some f) = ok f

module _ (json_equal : Text → Text → Bool) (org user : ℕ) (source : Text) where
  abbrev pub is_unchanged : ℕ → ImportMetadataItem → Item → Bool
  is_unchanged folder m item =
      item.folder_id == folder
      && (same_bytes item.title m.title
          && (ptr_string_equal item.description m.description
              && (ptr_string_equal item.category m.category
                  && (ptr_string_equal item.source_url m.source_url
                      && (ptr_string_equal item.thumbnail_url m.thumbnail_url
                          && (ptr_string_equal item.license m.license
                              && (ptr_string_equal item.author m.author
                                  && (ptr_string_equal item.notes m.notes
                                      && (slice_equal item.labels m.labels
                                          && json_equal item.metadata_json m.metadata_json)))))))))

  abbrev pub write_item : ℕ → ImportMetadataItem → Item → Assets → Assets
  write_item folder m item db = record db {
    items = map (λ x. if x.id == item.id then updated_item user folder m item else x) db.items;
    units =
        if is_null item.deleted_at
        then db.units
        else complete_lifecycle_restore org metadata_resource item.id db.units;
  }

  abbrev pub write_if_changed :
      ℕ → ImportMetadataItem → Item → Assets × ImportSummary → Assets × ImportSummary
  write_if_changed folder m item (db, s) =
      if is_null item.deleted_at && is_unchanged folder m item
      then (db, record s { metadata_unchanged = s.metadata_unchanged + 1 })
      else (write_item folder m item db, record s { metadata_updated = s.metadata_updated + 1 })

  -- One item, with the identifier that it gets if it is created, and the row of its folder. The
  -- empty identifier of a folder that is not there is refused by the database.
  abbrev pub upsert_item :
      ℕ
      → ImportMetadataItem
      → Option Folder
      → Assets × ImportSummary
      → Option (Item × ℕ)
      → Result UpsertError (Assets × ImportSummary)
  upsert_item id m placed (db, s) none = do
    folder ← folder_or_refuse placed
    refuse_if (has_key (map (λ x. x.id) db.items) id) (folder_refused constraint_violated)
    ok (
      record db { items = created_item id user folder.id source m ∷ db.items },
      record s { metadata_created = s.metadata_created + 1 },
    )
  upsert_item id m placed (db, s) (some (item, item_org)) = do
    refuse_if (not (item_org == org)) (identity_conflict m.external_id)
    folder ← folder_or_refuse placed
    ok (write_if_changed folder.id m item (db, s))

  unfoldable pub upsert_items :
      (ℕ → ℕ)
      → ℕ
      → Placed
      → List ImportMetadataItem
      → Assets × ImportSummary
      → Result UpsertError (Assets × ImportSummary)
  unfolding complete_lifecycle_restore find_identity
  upsert_items ids i placed [] state = ok state
  upsert_items ids i placed (m ∷ ms) state = do
    state ←
        upsert_item (ids i) m (placed m.folder_key) state
          (find_identity source m.external_id state.0)
    upsert_items ids (suc i) placed ms state

abbrev pub no_counts : Bool → ImportSummary
no_counts dry_run = record {
  dry_run = dry_run;
  folders_created = 0;
  folders_reused = 0;
  metadata_created = 0;
  metadata_updated = 0;
  metadata_unchanged = 0;
}

-- What the transaction does before it decides on a dry run.
unfoldable pub import_work :
    JsonCodec
    → (ℕ → ℕ)
    → (ℕ → ℕ)
    → ℕ
    → ℕ
    → ImportDataset
    → Bool
    → Assets
    → Result UpsertError (Assets × ImportSummary)
unfolding ensure_refs upsert_folders upsert_items
import_work json folder_ids item_ids org user dataset dry_run db = do
  placed ←
      upsert_folders folder_ids 0 org user dataset.folders ((λ k. none), no_counts dry_run)
        (ensure_refs user org db)
  upsert_items (json_objects_equal json) org user dataset.external_source item_ids 0 placed.1
      dataset.metadata (placed.0, placed.2)

-- An error of the work rolls back, and so does DRY_RUN_ROLLBACK, which is not reported.
abbrev pub commit_unless_dry :
    Bool
    → Assets
    → Result UpsertError (Assets × ImportSummary)
    → Assets × Result UpsertError ImportSummary
commit_unless_dry dry_run db (err e) = (db, err e)
commit_unless_dry true db (ok (db', summary)) = (db, ok summary)
commit_unless_dry false db (ok (db', summary)) = (db', ok summary)

unfoldable pub import_sample_transaction :
    JsonCodec
    → (ℕ → ℕ)
    → (ℕ → ℕ)
    → ℕ
    → ℕ
    → ImportDataset
    → Bool
    → Assets
    → Assets × Result UpsertError ImportSummary
unfolding import_work
import_sample_transaction json folder_ids item_ids org user dataset dry_run db =
    commit_unless_dry dry_run db (import_work json folder_ids item_ids org user dataset dry_run db)
