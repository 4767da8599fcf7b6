-- ===== src/Import/Accepted.antt =====
-- What a dataset that ImportSample hands to its transaction has.
use seta_im_intern.Prelude.{
  ℕ, ◌+◌, ◌≤◌, ◌≡◌, ◌≢◌, refl, same_bytes, same_bytes-eq, Bool-cases, subst, sym, ◌∙◌, Bool, true,
  false, not, ◌||◌, Option, List, [], ◌∷◌, map, ltb, length, ◌==◌, arith, All, ok, err, >>=-eq-ok,
  refuse_if-then, ok-injective, inl, inr,
}
use seta_im_intern.Import.Dataset.{
  Text, ImportFolder, ImportMetadataItem, ImportDataset, invalid_metadata,
}
use seta_im_intern.Import.Text.{trim_space, is_blank, has_text, is_allowed_source}
use seta_im_intern.Prelude.{has_key, AreDistinct}
use seta_im_intern.Import.Linked.{keys}
use seta_im_intern.Import.Counting.{All-perm, has_key-perm, AreDistinct-perm}
use seta_im_intern.Import.Sort.{topological_sort_folders}
use seta_im_intern.Import.Reached.{AreParentsFirst}
use seta_im_intern.Import.Order.{IsSorting, topological_sort_folders-Sorts}
use mathlib.Core.List.{Permᴰ}
use mathlib.Core.List.Permᴰ
use seta_im_intern.Import.Validate.{
  max_import_folder_count, max_import_metadata_count, validate_folders, validate_metadata,
  normalize_labels, normalize_json, exceeds_text_limits, validate_dataset, accepted_document,
  import_sample,
}

abbrev pub IsShort : Text → Type 0
IsShort text = (is_blank text ≡ false) × (length text ≤ 255)

abbrev pub AreDistinctTexts : List Text → Type 0
AreDistinctTexts [] = Unit
AreDistinctTexts (t ∷ ts) = (has_text ts t ≡ false) × AreDistinctTexts ts

abbrev pub IsPlaced : List ImportFolder → ImportMetadataItem → Type 0
IsPlaced folders m =
    (has_key (keys folders) m.folder_key ≡ true) × IsShort m.external_id × IsShort m.title

pub record IsImportable (dataset : ImportDataset) : Type 0 where
  pub version_known : dataset.version ≡ 1
  pub source_known : is_allowed_source dataset.external_source ≡ true
  pub few_folders : length dataset.folders ≤ max_import_folder_count
  pub few_items : length dataset.metadata ≤ max_import_metadata_count
  pub folders_distinct : AreDistinct (keys dataset.folders)
  pub folders_ordered : AreParentsFirst [] dataset.folders
  pub folders_named : All (λ f. (f.key ≢ 0) × IsShort f.name) dataset.folders
  pub items_placed : All (IsPlaced dataset.folders) dataset.metadata
  pub items_distinct : AreDistinctTexts (map (λ m. m.external_id) dataset.metadata)

-- The keys are kept, distinct and other than those before.
record AreValidated (seen : List ℕ) (fs fs' : List ImportFolder) : Type 0 where
  same_length : length fs' ≡ length fs
  apart : (k : ℕ) → has_key (keys fs') k ≡ true → has_key seen k ≡ false
  distinct : AreDistinct (keys fs')
  named : All (λ f. (f.key ≢ 0) × IsShort f.name) fs'

validate_folders-AreValidated :
    (i : ℕ) (seen : List ℕ) (fs fs' : List ImportFolder)
    → validate_folders i seen fs ≡ ok fs'
    → AreValidated seen fs fs'
unfolding validate_folders
validate_folders-AreValidated i seen [] fs' e =
    let q : [] ≡ fs' = ground arith in
    rw (← q) (record { same_length = refl; apart = λ k h. cc; distinct = tt; named = tt })
validate_folders-AreValidated i seen (f ∷ fs) fs' e =
    let (keyed, e) = refuse_if-then (f.key == 0) _ _ e in
    let (fresh, e) = refuse_if-then (has_key seen f.key) _ _ e in
    let (short, e) =
      refuse_if-then (is_blank (trim_space f.name) || ltb 255 (length (trim_space f.name))) _ _ e in
    let (rest, later, e) = >>=-eq-ok (validate_folders (i + 1) (f.key ∷ seen) fs) _ e in
    let v = validate_folders-AreValidated (i + 1) (f.key ∷ seen) fs rest later in
    subst (AreValidated seen (f ∷ fs)) (ok-injective e) (record {
      same_length = omega (arith, v.same_length);
      apart = λ k h. ground (arith, v.apart k);
      distinct = (ground (arith, v.apart f.key), v.distinct);
      named = (((λ q. ground arith), (ground arith, ground arith)), v.named);
    })

same_bytes_self : (a : Text) → same_bytes a a ≡ true
same_bytes_self [] = refl
same_bytes_self (x ∷ a) = ground (arith, same_bytes_self a)

text_apart :
    (t x : Text) (seen rest : List Text)
    → has_text seen x ≡ false
    → (has_text rest t ≡ true → has_text (x ∷ seen) t ≡ false)
    → has_text (x ∷ rest) t ≡ true
    → has_text seen t ≡ false
unfolding has_text
text_apart t x seen rest fresh later h = elim (Bool-cases (same_bytes x t)) [
  | inl same ↦ subst (λ y. has_text seen y ≡ false) (same_bytes-eq x t same) fresh
  | inr other ↦ ground arith
]

text_fresh :
    (x : Text) (seen rest : List Text)
    → (has_text rest x ≡ true → has_text (x ∷ seen) x ≡ false)
    → has_text rest x ≡ false
unfolding has_text
text_fresh x seen rest later = ground (arith, same_bytes_self x)

sorted_as :
    (folders sorted : List ImportFolder)
    → AreDistinct (keys folders)
    → topological_sort_folders folders (has_key (keys folders)) ≡ ok sorted
    → IsSorting folders sorted
sorted_as folders sorted distinct e =
    elim (topological_sort_folders-Sorts folders (has_key (keys folders)) distinct (λ k. refl)) [
      | inl (other, returned, s) ↦ subst (IsSorting folders) (ok-injective (sym returned ∙ e)) s
      | inr (failure, failed, _, _) ↦
          absurd (let clash : ok sorted ≡ err failure = sym e ∙ failed in cc)
    ]

record AreItemsValid (valid_keys : ℕ → Bool) (seen : List Text) (ms ms' : List ImportMetadataItem)
    : Type 0 where
  same_length : length ms' ≡ length ms
  apart : (t : Text) → has_text (map (λ m. m.external_id) ms') t ≡ true → has_text seen t ≡ false
  distinct : AreDistinctTexts (map (λ m. m.external_id) ms')
  placed : All (λ m. (valid_keys m.folder_key ≡ true) × IsShort m.external_id × IsShort m.title) ms'

validate_metadata-AreItemsValid :
    (is_json_object : Text → Bool) (valid_keys : ℕ → Bool) (i : ℕ) (seen : List Text)
    (ms ms' : List ImportMetadataItem)
    → validate_metadata is_json_object valid_keys i seen ms ≡ ok ms'
    → AreItemsValid valid_keys seen ms ms'
unfolding validate_metadata
validate_metadata-AreItemsValid is_json_object valid_keys i seen [] ms' e =
    subst (AreItemsValid valid_keys seen []) (ok-injective e)
      (record { same_length = refl; apart = λ t h. cc; distinct = tt; placed = tt })
validate_metadata-AreItemsValid is_json_object valid_keys i seen (m ∷ ms) ms' e =
    let external_id = trim_space m.external_id in
    let title = trim_space m.title in
    let (known, e) = refuse_if-then (not (valid_keys m.folder_key)) _ _ e in
    let (short, e) = refuse_if-then (is_blank external_id || ltb 255 (length external_id)) _ _ e in
    let (fresh, e) = refuse_if-then (has_text seen external_id) _ _ e in
    let (titled, e) = refuse_if-then (is_blank title || ltb 255 (length title)) _ _ e in
    let (labels, _, e) = >>=-eq-ok (normalize_labels (invalid_metadata i) [] m.labels) _ e in
    let (json, _, e) =
      >>=-eq-ok (normalize_json is_json_object (invalid_metadata i) m.metadata_json) _ e in
    let (_, e) = refuse_if-then (exceeds_text_limits m) _ _ e in
    let (rest, later, e) =
      >>=-eq-ok (validate_metadata is_json_object valid_keys (i + 1) (external_id ∷ seen) ms) _ e in
    let v =
      validate_metadata-AreItemsValid is_json_object valid_keys (i + 1) (external_id ∷ seen) ms rest
        later in
    subst (AreItemsValid valid_keys seen (m ∷ ms)) (ok-injective e) (record {
      same_length = omega (arith, v.same_length);
      apart = λ t. text_apart t external_id seen (map (λ n. n.external_id) rest) fresh (v.apart t);
      distinct = (
        text_fresh external_id seen (map (λ n. n.external_id) rest) (v.apart external_id),
        v.distinct,
      );
      placed =
          ((ground arith, (ground arith, ground arith), (ground arith, ground arith)), v.placed);
    })

length-perm : {xs ys : List ImportFolder} → Permᴰ xs ys → length xs ≡ length ys
length-perm Permᴰ.nil = refl
length-perm (Permᴰ.cons e p) = omega (arith, length-perm p)
length-perm (Permᴰ.swap e e') = omega arith
length-perm (Permᴰ.trans p q) = length-perm p ∙ length-perm q

within : {m n limit : ℕ} → m ≡ n → ltb limit n ≡ false → m ≤ limit
within e h = ground arith

IsPlaced-before :
    (fs sorted : List ImportFolder) (ms : List ImportMetadataItem)
    → Permᴰ sorted fs
    → All
        (λ m. (has_key (keys fs) m.folder_key ≡ true) × IsShort m.external_id × IsShort m.title)
        ms
    → All (IsPlaced sorted) ms
IsPlaced-before fs sorted [] p h = tt
IsPlaced-before fs sorted (m ∷ ms) p h =
    ((has_key-perm m.folder_key p ∙ h.0.0, h.0.1, h.0.2), IsPlaced-before fs sorted ms p h.1)

assembled :
    (given : ImportDataset) (folders sorted : List ImportFolder) (items : List ImportMetadataItem)
    → not (given.version == 1) ≡ false
    → not (is_allowed_source (trim_space given.external_source)) ≡ false
    → ltb max_import_folder_count (length given.folders) ≡ false
    → ltb max_import_metadata_count (length given.metadata) ≡ false
    → AreValidated [] given.folders folders
    → IsSorting folders sorted
    → AreItemsValid (has_key (keys folders)) [] given.metadata items
    → IsImportable (record given {
      external_source = trim_space given.external_source;
      folders = sorted;
      metadata = items;
    })
assembled given folders sorted items version source few_folders few_items v s w = record {
  version_known = ground arith;
  source_known = ground arith;
  few_folders = within (length-perm s.same ∙ v.same_length) few_folders;
  few_items = within w.same_length few_items;
  folders_distinct = AreDistinct-perm (Permᴰ.symm s.same) v.distinct;
  folders_ordered = s.ordered;
  folders_named = All-perm _ (Permᴰ.symm s.same) v.named;
  items_placed = IsPlaced-before folders sorted items s.same w.placed;
  items_distinct = w.distinct;
}

validate_dataset-IsImportable :
    (is_json_object : Text → Bool) (given dataset : ImportDataset)
    → validate_dataset is_json_object given ≡ ok dataset
    → IsImportable dataset
unfolding validate_dataset
validate_dataset-IsImportable is_json_object given dataset e =
    let (version, e) = refuse_if-then (not (given.version == 1)) _ _ e in
    let (source, e) =
      refuse_if-then (not (is_allowed_source (trim_space given.external_source))) _ _ e in
    let (few_folders, e) =
      refuse_if-then (ltb max_import_folder_count (length given.folders)) _ _ e in
    let (few_items, e) =
      refuse_if-then (ltb max_import_metadata_count (length given.metadata)) _ _ e in
    let (folders, valid, e) = >>=-eq-ok (validate_folders 0 [] given.folders) _ e in
    let (sorted, sorts, e) =
      >>=-eq-ok (topological_sort_folders folders (has_key (keys folders))) _ e in
    let (items, placed, e) =
      >>=-eq-ok (validate_metadata is_json_object (has_key (keys folders)) 0 [] given.metadata) _
        e in
    let v = validate_folders-AreValidated 0 [] given.folders folders valid in
    subst IsImportable (ok-injective e) (
      assembled given folders sorted items version source few_folders few_items v
        (sorted_as folders sorted v.distinct sorts)
        (validate_metadata-AreItemsValid is_json_object (has_key (keys folders)) 0 [] given.metadata
          items placed))

-- A dataset that ImportSample hands to its transaction is of version 1 and from an allowed source,
-- within both limits; its folders have distinct keys, each behind its parent, and its items
-- distinct external identifiers and folders of the dataset; and the names, titles and external
-- identifiers are not blank and have at most 255 runes.
pub import_sample-IsImportable :
    (is_json_object : Text → Bool) (decode : List ℕ → Option (ImportDataset × Bool))
    (org_id user_id : ℕ) (payload : List ℕ) (dataset : ImportDataset)
    → import_sample is_json_object decode org_id user_id payload ≡ ok dataset
    → IsImportable dataset
unfolding import_sample
import_sample-IsImportable is_json_object decode org_id user_id payload dataset e =
    let (_, e) = refuse_if-then (org_id == 0) _ _ e in
    let (_, e) = refuse_if-then (user_id == 0) _ _ e in
    let (given, _, e) = >>=-eq-ok (accepted_document is_json_object (decode payload)) _ e in
    validate_dataset-IsImportable is_json_object given dataset e
