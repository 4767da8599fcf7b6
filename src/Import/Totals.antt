-- ===== src/Import/Totals.antt =====
-- What an import reports, and its dry run.
use seta_im_intern.Prelude.{
  ℕ, suc, ◌≡◌, refl, subst, ◌∙◌, ◌+◌, Bool, true, false, Option, none, some, List, [], ◌∷◌, length,
  arith, Result, ok, err, >>=-eq-ok, ok-injective, refuse_if, refuse_if-eq-ok, inl, inr, not, ◌==◌,
  ◌&&◌, is_null, Bool-cases, has_key, map,
}
use seta_im_intern.Import.Dataset.{
  Text, ImportDataset, ImportFolder, ImportMetadataItem, ImportSummary,
}
use seta_im_intern.Folders.Rows.{Assets, Folder, Item, constraint_violated}
use seta_im_intern.Folders.Change.{ensure_refs, find_row}
use seta_im_intern.Import.Place.{
  UpsertError, Placed, parent_of, is_same_folder, count_folder, put_placed, found_or_created,
  upsert_folders, identity_conflict, folder_refused,
}
use seta_im_intern.Import.Upsert.{
  JsonCodec, json_objects_equal, upsert_item, upsert_items, find_identity, folder_or_refuse,
  write_if_changed, import_work, import_sample_transaction, no_counts, created_item, is_unchanged,
  commit_unless_dry,
}

abbrev pub rehearsed : ImportSummary → ImportSummary
rehearsed s = record s { dry_run = true }

abbrev pub folder_total : ImportSummary → ℕ
folder_total s = s.folders_created + s.folders_reused

abbrev pub item_total : ImportSummary → ℕ
item_total s = s.metadata_created + s.metadata_updated + s.metadata_unchanged

count_folder-total :
    (b : Bool) (s : ImportSummary) → folder_total (count_folder b s) ≡ folder_total s + 1
count_folder-total true s = omega arith
count_folder-total false s = omega arith

count_folder-items : (b : Bool) (s : ImportSummary) → item_total (count_folder b s) ≡ item_total s
count_folder-items true s = refl
count_folder-items false s = refl

count_folder-rehearsed :
    (b : Bool) (s : ImportSummary) → count_folder b (rehearsed s) ≡ rehearsed (count_folder b s)
count_folder-rehearsed true s = refl
count_folder-rehearsed false s = refl

module _ (ids : ℕ → ℕ) (org user : ℕ) where
  record FoldersCounted (i : ℕ) (fs : List ImportFolder) (placed : Placed) (s : ImportSummary)
      (db : Assets) (out : Assets × Placed × ImportSummary) : Type 0 where
    folders : folder_total out.2 ≡ folder_total s + length fs
    items : item_total out.2 ≡ item_total s
    dry :
        upsert_folders ids i org user fs (placed, rehearsed s) db
        ≡ ok (out.0, out.1, rehearsed out.2)

  upsert_folders-FoldersCounted :
      (i : ℕ) (fs : List ImportFolder) (placed : Placed) (s : ImportSummary) (db : Assets)
      {out : Assets × Placed × ImportSummary}
      → upsert_folders ids i org user fs (placed, s) db ≡ ok out
      → FoldersCounted i fs placed s db out
  unfolding upsert_folders
  upsert_folders-FoldersCounted i [] placed s db h =
      subst (FoldersCounted i [] placed s db) (ok-injective h)
        (record { folders = omega arith; items = refl; dry = refl })
  upsert_folders-FoldersCounted i (f ∷ fs) placed s db {out} h =
      let parent = parent_of placed f.parent_key in
      let (found, hit, rest) =
        >>=-eq-ok
          (found_or_created (ids i) org user parent f db
            (find_row (is_same_folder org parent f.name) db.folders))
          _ h in
      let placed1 = put_placed f.key found.1 placed in
      let r =
        upsert_folders-FoldersCounted (suc i) fs placed1 (count_folder found.2 s) found.0 rest in
      let total = count_folder-total found.2 s in
      let grown = r.folders in
      record {
        folders = omega arith;
        items = r.items ∙ count_folder-items found.2 s;
        dry = rw (hit, count_folder-rehearsed found.2 s) r.dry;
      }

-- One more item is counted, and the same is done on a dry run.
record ItemCounted (work : Assets × ImportSummary → Result UpsertError (Assets × ImportSummary))
    (s : ImportSummary) (db : Assets) (out : Assets × ImportSummary) : Type 0 where
  folders : folder_total out.1 ≡ folder_total s
  items : item_total out.1 ≡ item_total s + 1
  dry : work (db, rehearsed s) ≡ ok (out.0, rehearsed out.1)

module _ (json_equal : Text → Text → Bool) (org user : ℕ) (source : Text) where
  write_if_changed-ItemCounted :
      (folder : ℕ) (m : ImportMetadataItem) (item : Item) (s : ImportSummary) (db : Assets)
      → ItemCounted
          (λ state. ok (write_if_changed json_equal org user source folder m item state))
          s
          db
          (write_if_changed json_equal org user source folder m item (db, s))
  write_if_changed-ItemCounted folder m item s db =
      elim (Bool-cases
        (is_null item.deleted_at && is_unchanged json_equal org user source folder m item)) [
          | inl same ↦ record {
            folders = rw same refl;
            items = rw same omega arith;
            dry = rw same refl;
          }
          | inr other ↦ record {
            folders = rw other refl;
            items = rw other omega arith;
            dry = rw other refl;
          }
        ]

  upsert_item-ItemCounted :
      (id : ℕ) (m : ImportMetadataItem) (placed : Option Folder) (found : Option (Item × ℕ))
      (s : ImportSummary) (db : Assets) {out : Assets × ImportSummary}
      → upsert_item json_equal org user source id m placed (db, s) found ≡ ok out
      → ItemCounted
          (λ state. upsert_item json_equal org user source id m placed state found)
          s
          db
          out
  upsert_item-ItemCounted id m placed none s db {out} h =
      let (folder, is_placed, rest) = >>=-eq-ok (folder_or_refuse placed) _ h in
      let (u, fresh, done) =
        >>=-eq-ok
          (refuse_if (has_key (map (λ x. x.id) db.items) id) (folder_refused constraint_violated)) _
          rest in
      let q =
        refuse_if-eq-ok (has_key (map (λ x. x.id) db.items) id) (folder_refused constraint_violated)
          fresh in
      let made : ItemCounted
          (λ state. upsert_item json_equal org user source id m placed state none) s db
          (
            record db { items = created_item id user folder.id source m ∷ db.items },
            record s { metadata_created = s.metadata_created + 1 },
          ) =
        record { folders = refl; items = omega arith; dry = rw (is_placed, q) refl } in
      subst
        (ItemCounted (λ state. upsert_item json_equal org user source id m placed state none) s db)
        (ok-injective done) made
  upsert_item-ItemCounted id m placed (some (item, item_org)) s db {out} h =
      let (u, ours, rest) =
        >>=-eq-ok (refuse_if (not (item_org == org)) (identity_conflict m.external_id)) _ h in
      let (folder, is_placed, done) = >>=-eq-ok (folder_or_refuse placed) _ rest in
      let c = write_if_changed-ItemCounted folder.id m item s db in
      subst
        (ItemCounted
          (λ state.
            upsert_item json_equal org user source id m placed state (some (item, item_org)))
          s db)
        (ok-injective done)
        (record { folders = c.folders; items = c.items; dry = rw (ours, is_placed) c.dry })

  record ItemsCounted (ids : ℕ → ℕ) (i : ℕ) (placed : Placed) (ms : List ImportMetadataItem)
      (s : ImportSummary) (db : Assets) (out : Assets × ImportSummary) : Type 0 where
    folders : folder_total out.1 ≡ folder_total s
    items : item_total out.1 ≡ item_total s + length ms
    dry :
        upsert_items json_equal org user source ids i placed ms (db, rehearsed s)
        ≡ ok (out.0, rehearsed out.1)

  upsert_items-ItemsCounted :
      (ids : ℕ → ℕ) (i : ℕ) (placed : Placed) (ms : List ImportMetadataItem) (s : ImportSummary)
      (db : Assets) {out : Assets × ImportSummary}
      → upsert_items json_equal org user source ids i placed ms (db, s) ≡ ok out
      → ItemsCounted ids i placed ms s db out
  unfolding upsert_items
  upsert_items-ItemsCounted ids i placed [] s db h =
      subst (ItemsCounted ids i placed [] s db) (ok-injective h)
        (record { folders = refl; items = omega arith; dry = refl })
  upsert_items-ItemsCounted ids i placed (m ∷ ms) s db {out} h =
      let (state, hit, rest) =
        >>=-eq-ok
          (upsert_item json_equal org user source (ids i) m (placed m.folder_key) (db, s)
            (find_identity source m.external_id db))
          _ h in
      let c =
        upsert_item-ItemCounted (ids i) m (placed m.folder_key)
          (find_identity source m.external_id db) s db hit in
      let r = upsert_items-ItemsCounted ids (suc i) placed ms state.1 state.0 rest in
      let more = r.items in
      let one = c.items in
      record { folders = r.folders ∙ c.folders; items = omega arith; dry = rw (c.dry) r.dry }

pub committed-ok :
    (db : Assets) (work : Result UpsertError (Assets × ImportSummary)) {after : Assets}
    {s : ImportSummary}
    → commit_unless_dry false db work ≡ (after, ok s)
    → work ≡ ok (after, s)
committed-ok db (ok (db', summary)) h = ground arith
committed-ok db (err e) h = ground arith

-- If the transaction of an import succeeds, each folder of the dataset is counted once, as created or
-- as reused, and each item once, as created, updated or unchanged; and a dry run on the same database
-- reports the same counts and leaves the database as it was.
pub import_sample_transaction-totals :
    (json : JsonCodec) (folder_ids item_ids : ℕ → ℕ) (org user : ℕ) (dataset : ImportDataset)
    (db after : Assets) (s : ImportSummary)
    → import_sample_transaction json folder_ids item_ids org user dataset false db ≡ (after, ok s)
    → (folder_total s ≡ length dataset.folders)
      × (item_total s ≡ length dataset.metadata)
      × (import_sample_transaction json folder_ids item_ids org user dataset true db
          ≡ (db, ok (rehearsed s)))
unfolding import_sample_transaction import_work
import_sample_transaction-totals json folder_ids item_ids org user dataset db after s h =
    let worked =
      committed-ok db (import_work json folder_ids item_ids org user dataset false db) h in
    let (placed, placing, rest) =
      >>=-eq-ok
        (upsert_folders folder_ids 0 org user dataset.folders ((λ k. none), no_counts false)
          (ensure_refs user org db))
        _ worked in
    let c =
      upsert_folders-FoldersCounted folder_ids org user 0 dataset.folders (λ k. none)
        (no_counts false) (ensure_refs user org db) placing in
    let r =
      upsert_items-ItemsCounted (json_objects_equal json) org user dataset.external_source item_ids
        0 placed.1 dataset.metadata placed.2 placed.0 rest in
    let kept = r.folders in
    let placed_all = c.folders in
    let later = r.items in
    let earlier = c.items in (omega arith, omega arith, rw (c.dry, r.dry) refl)
