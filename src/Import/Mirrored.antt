-- ===== src/Import/Mirrored.antt =====
-- The tables after the import of a dataset that the checks accept mirror its folders.
use seta_im_intern.Prelude.{
  ℕ, suc, ◌≡◌, refl, sym, ap, subst, ◌∙◌, inl, inr, Bool, true, false, Option, none, some, List, [],
  ◌∷◌, ◌++◌, map, arith, Bool-cases, ok, >>=-eq-ok, ok-injective, refuse_if, has_key, ◌==◌,
  AreDistinct, All, IsAmong, same_bytes-eq, length-append, ==_refl,
}
use seta_im_intern.Import.Dataset.{ImportDataset, ImportFolder, ImportSummary}
use seta_im_intern.Import.Linked.{keys}
use seta_im_intern.Import.Reached.{AreParentsFirst, parent_is_done}
use seta_im_intern.Folders.Paths.{is_under-append}
use seta_im_intern.Import.Accepted.{IsImportable}
use seta_im_intern.Folders.Rows.{Assets, Folder, FolderPath, is_child_path, constraint_violated}
use seta_im_intern.Folders.Change.{find_row, write_folders}
use seta_im_intern.Folders.Reads.{find_row-some}
use seta_im_intern.Import.Place.{
  Placed, parent_of, path_or_empty, is_same_folder, imported_folder, count_folder, put_placed,
  found_or_created, upsert_folders, upsert_or, folder_refused,
}
use seta_im_intern.Import.Upsert.{
  JsonCodec, json_objects_equal, no_counts, import_work, import_sample_transaction,
}
use seta_im_intern.Import.Kept.{upsert_write_folders-ok, upsert_items-folders}
use seta_im_intern.Import.Totals.{committed-ok}
use seta_im_intern.Folders.Change.{ensure_refs}

-- The row of the folder with its name, one level below the row of its parent or the top.
pub record IsMirrored (org : ℕ) (folders : List Folder) (placed : Placed) (f : ImportFolder)
    : Type 0 where
  pub row : Folder
  pub among : IsAmong row folders
  pub is_row : placed f.key ≡ some row
  pub named : row.name ≡ f.name
  pub in_org : row.org_id ≡ org
  pub below : is_child_path (parent_of placed f.parent_key) row.path ≡ true

is_child_path-append :
    (parent : FolderPath) (id : ℕ) → is_child_path parent (parent ++ id ∷ []) ≡ true
is_child_path-append parent id =
    ground (arith, is_under-append parent (id ∷ []), length-append parent (id ∷ []))

module _ (id org user : ℕ) (parent : FolderPath) (f : ImportFolder) (db : Assets) where
  record IsFound (folders : List Folder) (row : Folder) : Type 0 where
    grown : (f : Folder) → IsAmong f db.folders → IsAmong f folders
    among : IsAmong row folders
    named : row.name ≡ f.name
    in_org : row.org_id ≡ org
    below : is_child_path parent row.path ≡ true

  found_or_created-IsFound :
      (found : Option Folder) {out : Assets × Folder × Bool}
      → find_row (is_same_folder org parent f.name) db.folders ≡ found
      → found_or_created id org user parent f db found ≡ ok out
      → IsFound out.0.folders out.1
  found_or_created-IsFound (some existing) is_found done =
      let (among, hit) =
        find_row-some (is_same_folder org parent f.name) db.folders existing is_found in
      subst (λ out. IsFound out.0.folders out.1) (ok-injective done)
        (record {
          grown = λ f here. here;
          among = among;
          named = same_bytes-eq existing.name f.name (ground arith);
          in_org = ground arith;
          below = ground arith;
        })
  found_or_created-IsFound none is_found done =
      let new = imported_folder id org user parent f in
      let (u, fresh, rest) =
        >>=-eq-ok
          (refuse_if (has_key (map (λ f. f.id) db.folders) id) (folder_refused constraint_violated))
          _ done in
      let (db', written, finished) =
        >>=-eq-ok (upsert_or (write_folders (new ∷ db.folders) db)) _ rest in
      subst (λ out. IsFound out.0.folders out.1) (ok-injective finished)
        (subst (λ d. IsFound d.folders new) (upsert_write_folders-ok (new ∷ db.folders) db written)
          (record {
            grown = λ f here. inr here;
            among = inl refl;
            named = refl;
            in_org = refl;
            below = is_child_path-append parent id;
          }))

module _ (ids : ℕ → ℕ) (org user : ℕ) where
  -- The later folders leave the row of a key that is not theirs.
  upsert_folders-kept :
      (i : ℕ) (fs : List ImportFolder) (placed : Placed) (s : ImportSummary) (db : Assets) (k : ℕ)
      {out : Assets × Placed × ImportSummary}
      → has_key (keys fs) k ≡ false
      → upsert_folders ids i org user fs (placed, s) db ≡ ok out
      → out.1 k ≡ placed k
  unfolding upsert_folders
  upsert_folders-kept i [] placed s db k absent done = sym (ap (λ out. out.1 k) (ok-injective done))
  upsert_folders-kept i (f ∷ fs) placed s db k absent done =
      let parent = parent_of placed f.parent_key in
      let row = find_row (is_same_folder org parent f.name) db.folders in
      let (found, hit, rest) =
        >>=-eq-ok (found_or_created (ids i) org user parent f db row) _ done in
      let other : (f.key == k) ≡ false = ground arith in
      let later : has_key (keys fs) k ≡ false = ground arith in
      upsert_folders-kept (suc i) fs (put_placed f.key found.1 placed) (count_folder found.2 s)
        found.0 k later rest
      ∙ rw other refl

  upsert_folders-grown :
      (i : ℕ) (fs : List ImportFolder) (placed : Placed) (s : ImportSummary) (db : Assets)
      (r : Folder) {out : Assets × Placed × ImportSummary}
      → IsAmong r db.folders
      → upsert_folders ids i org user fs (placed, s) db ≡ ok out
      → IsAmong r out.0.folders
  unfolding upsert_folders
  upsert_folders-grown i [] placed s db r here done =
      subst (λ out. IsAmong r out.0.folders) (ok-injective done) here
  upsert_folders-grown i (f ∷ fs) placed s db r here done =
      let parent = parent_of placed f.parent_key in
      let row = find_row (is_same_folder org parent f.name) db.folders in
      let (found, hit, rest) =
        >>=-eq-ok (found_or_created (ids i) org user parent f db row) _ done in
      let h = found_or_created-IsFound (ids i) org user parent f db row refl hit in
      upsert_folders-grown (suc i) fs (put_placed f.key found.1 placed) (count_folder found.2 s)
        found.0 r (h.grown r here) rest

  parent_of-kept :
      (placed placed' : Placed) (parent : Option ℕ)
      → ((k : ℕ) → parent ≡ some k → placed' k ≡ placed k)
      → parent_of placed' parent ≡ parent_of placed parent
  parent_of-kept placed placed' none same = refl
  parent_of-kept placed placed' (some k) same = ap path_or_empty (same k refl)

  -- The parent of a folder is not among the folders that come after.
  parent_apart :
      (seen ks : List ℕ) (parent : Option ℕ) (k : ℕ)
      → ((j : ℕ) → has_key seen j ≡ true → has_key ks j ≡ false)
      → parent_is_done seen parent ≡ true
      → parent ≡ some k
      → has_key ks k ≡ false
  parent_apart seen ks none k apart here e = cc
  parent_apart seen ks (some j) k apart here e =
      let q : j ≡ k = ground arith in subst (λ j. has_key ks j ≡ false) q (apart j here)

  later_apart :
      (key : ℕ) (seen ks : List ℕ)
      → has_key ks key ≡ false
      → ((j : ℕ) → has_key seen j ≡ true → has_key (key ∷ ks) j ≡ false)
      → (k : ℕ) → has_key (key ∷ seen) k ≡ true
      → has_key ks k ≡ false
  later_apart key seen ks fresh apart k here = elim (Bool-cases (key == k)) [
    | inl same ↦ let q : key ≡ k = ground arith in subst (λ k. has_key ks k ≡ false) q fresh
    | inr other ↦ ground (arith, apart k)
  ]

  upsert_folders-mirrors :
      (i : ℕ) (seen : List ℕ) (fs : List ImportFolder) (placed : Placed) (s : ImportSummary)
      (db : Assets) {out : Assets × Placed × ImportSummary}
      → AreParentsFirst seen fs
      → AreDistinct (keys fs)
      → ((k : ℕ) → has_key seen k ≡ true → has_key (keys fs) k ≡ false)
      → upsert_folders ids i org user fs (placed, s) db ≡ ok out
      → All (IsMirrored org out.0.folders out.1) fs
  unfolding upsert_folders
  upsert_folders-mirrors i seen [] placed s db first distinct apart done = tt
  upsert_folders-mirrors i seen (f ∷ fs) placed s db {out} first distinct apart done =
      let parent = parent_of placed f.parent_key in
      let row = find_row (is_same_folder org parent f.name) db.folders in
      let (found, hit, rest) =
        >>=-eq-ok (found_or_created (ids i) org user parent f db row) _ done in
      let h = found_or_created-IsFound (ids i) org user parent f db row refl hit in
      let placed1 = put_placed f.key found.1 placed in
      let s1 = count_folder found.2 s in
      let same_parent : parent_of out.1 f.parent_key ≡ parent =
        parent_of-kept placed out.1 f.parent_key (λ k e.
          upsert_folders-kept i (f ∷ fs) placed s db k
            (parent_apart seen (keys (f ∷ fs)) f.parent_key k apart first.0 e) done) in
      let self : placed1 f.key ≡ some found.1 = rw (==_refl f.key) refl in
      (
        record {
          row = found.1;
          among = upsert_folders-grown (suc i) fs placed1 s1 found.0 found.1 h.among rest;
          is_row = upsert_folders-kept (suc i) fs placed1 s1 found.0 f.key distinct.0 rest ∙ self;
          named = h.named;
          in_org = h.in_org;
          below = rw same_parent h.below;
        },
        upsert_folders-mirrors (suc i) (f.key ∷ seen) fs placed1 s1 found.0 first.1 distinct.1
            (λ k here. later_apart f.key seen (keys fs) distinct.0 apart k here) rest,
      )

-- If the transaction of a dataset that the checks accept succeeds, then each folder of the dataset has
-- a row in the table afterwards, of the organization and with the folder's name, whose path is one
-- label longer than the path of the row of the folder's parent, or one label long where it has none.
pub import_sample_transaction-mirrors :
    (json : JsonCodec) (folder_ids item_ids : ℕ → ℕ) (org user : ℕ) (dataset : ImportDataset)
    (db after : Assets) (s : ImportSummary)
    → IsImportable dataset
    → import_sample_transaction json folder_ids item_ids org user dataset false db ≡ (after, ok s)
    → (placed : Placed) × All (IsMirrored org after.folders placed) dataset.folders
unfolding import_sample_transaction import_work
import_sample_transaction-mirrors json folder_ids item_ids org user dataset db after s importable
      h =
    let worked =
      committed-ok db (import_work json folder_ids item_ids org user dataset false db) h in
    let (out, placing, rest) =
      >>=-eq-ok
        (upsert_folders folder_ids 0 org user dataset.folders ((λ k. none), no_counts false)
          (ensure_refs user org db))
        _ worked in
    let same =
      upsert_items-folders (json_objects_equal json) org user dataset.external_source item_ids 0
        out.1 dataset.metadata out.0 out.2 rest in
    let mirrored =
      upsert_folders-mirrors folder_ids org user 0 [] dataset.folders (λ k. none) (no_counts false)
        (ensure_refs user org db) importable.folders_ordered importable.folders_distinct
        (λ k here. cc) placing in
    (out.1, rw same mirrored)
