-- ===== src/Import/Validate.antt =====
-- The checks of ImportSample, and normalizeLabels and validateMetadataItemTextLimits of
-- usecase/asset_usecase.go. A set of keys or of texts is the list of what was put in.
use seta_im_intern.Prelude.{
  ℕ, ◌+◌, Bool, not, ◌||◌, Option, none, some, List, [], ◌∷◌, map, ltb, length, ◌==◌, if◌then◌else◌,
  same_bytes, Result, ok, err, ◌>>=◌, ◌>>◌, refuse_if,
}
use seta_im_intern.Import.Dataset.{
  Text, ImportFolder, ImportMetadataItem, ImportDataset, ImportError, org_required, user_required,
  invalid_schema, invalid_version, invalid_source, limit_exceeded, blank_folder_key,
  duplicate_folder_key, invalid_folder, invalid_metadata, duplicate_external_id,
}
use seta_im_intern.Import.Text.{
  trim_space, is_blank, has_text, is_allowed_source, empty_object, null, exceeds_rune_limit,
}
use seta_im_intern.Prelude.{has_key}
use seta_im_intern.Import.Sort.{topological_sort_folders}

abbrev pub max_import_metadata_count : ℕ
max_import_metadata_count = 10000

abbrev pub max_import_folder_count : ℕ
max_import_folder_count = 1000

abbrev pub trimmed_or_none : Option Text → Option Text
trimmed_or_none none = none
trimmed_or_none (some text) =
    let trimmed = trim_space text in if is_blank trimmed then none else some trimmed

-- The loop over the folders, from an index and with the keys before it.
unfoldable pub validate_folders :
    ℕ → List ℕ → List ImportFolder → Result ImportError (List ImportFolder)
unfolding trim_space
validate_folders i seen [] = ok []
validate_folders i seen (f ∷ fs) = do
  refuse_if (f.key == 0) (blank_folder_key i)
  refuse_if (has_key seen f.key) (duplicate_folder_key f.key)
  let name = trim_space f.name
  refuse_if (is_blank name || ltb 255 (length name)) (invalid_folder f.key)
  rest ← validate_folders (i + 1) (f.key ∷ seen) fs
  ok (record f { name = name; description = trimmed_or_none f.description } ∷ rest)

-- With the labels before, and the error that the caller makes of ErrInvalidInput.
unfoldable pub normalize_labels :
    ImportError → List Text → List Text → Result ImportError (List Text)
unfolding trim_space has_text
normalize_labels e seen [] = ok []
normalize_labels e seen (label ∷ labels) = do
  let normalized = trim_space label
  refuse_if (is_blank normalized) e
  rest ← normalize_labels e (normalized ∷ seen) labels
  ok (if has_text seen normalized then rest else normalized ∷ rest)

unfoldable pub exceeds_text_limits : ImportMetadataItem → Bool
unfolding exceeds_rune_limit
exceeds_text_limits m =
    exceeds_rune_limit m.description 5000
    || (exceeds_rune_limit m.category 100
        || (exceeds_rune_limit m.source_url 2048
            || (exceeds_rune_limit m.thumbnail_url 2048
                || (exceeds_rune_limit m.license 255
                    || (exceeds_rune_limit m.author 255 || exceeds_rune_limit m.notes 5000)))))

-- `is_json_object` is validateJSONObject: the text is a JSON object other than null.
module _ (is_json_object : Text → Bool) where
  unfoldable pub normalize_json : ImportError → Text → Result ImportError Text
  unfolding trim_space
  normalize_json e json =
      let trimmed = trim_space json in
      if is_blank trimmed || same_bytes trimmed null
      then ok empty_object
      else if not (is_json_object trimmed)
      then err e
      else ok trimmed

  -- The loop over the items, from an index and with the external identifiers before it.
  unfoldable pub validate_metadata :
      (ℕ → Bool)
      → ℕ
      → List Text
      → List ImportMetadataItem
      → Result ImportError (List ImportMetadataItem)
  unfolding trim_space has_text normalize_labels normalize_json exceeds_text_limits
  validate_metadata valid_keys i seen [] = ok []
  validate_metadata valid_keys i seen (m ∷ ms) = do
    refuse_if (not (valid_keys m.folder_key)) (invalid_metadata i)
    let external_id = trim_space m.external_id
    refuse_if (is_blank external_id || ltb 255 (length external_id)) (invalid_metadata i)
    refuse_if (has_text seen external_id) (duplicate_external_id i)
    let title = trim_space m.title
    refuse_if (is_blank title || ltb 255 (length title)) (invalid_metadata i)
    labels ← normalize_labels (invalid_metadata i) [] m.labels
    metadata_json ← normalize_json (invalid_metadata i) m.metadata_json
    refuse_if (exceeds_text_limits m) (invalid_metadata i)
    rest ← validate_metadata valid_keys (i + 1) (external_id ∷ seen) ms
    ok (
        record m {
          external_id = external_id;
          title = title;
          labels = labels;
          metadata_json = metadata_json;
        }
        ∷ rest)

  unfoldable pub validate_dataset : ImportDataset → Result ImportError ImportDataset
  unfolding trim_space is_allowed_source validate_folders topological_sort_folders validate_metadata
  validate_dataset dataset = do
    refuse_if (not (dataset.version == 1)) invalid_version
    let external_source = trim_space dataset.external_source
    refuse_if (not (is_allowed_source external_source)) invalid_source
    refuse_if (ltb max_import_folder_count (length dataset.folders)) limit_exceeded
    refuse_if (ltb max_import_metadata_count (length dataset.metadata)) limit_exceeded
    folders ← validate_folders 0 [] dataset.folders
    sorted ← topological_sort_folders folders (has_key (map (λ f. f.key) folders))
    metadata ← validate_metadata (has_key (map (λ f. f.key) folders)) 0 [] dataset.metadata
    ok (record dataset { external_source = external_source; folders = sorted; metadata = metadata })

  abbrev pub accepted_document : Option (ImportDataset × Bool) → Result ImportError ImportDataset
  accepted_document none = err invalid_schema
  accepted_document (some (dataset, more)) = if more then err invalid_schema else ok dataset

  -- ImportSample up to its transaction. `decode` is the strict JSON decoder, with what its More
  -- reports after the first document.
  unfoldable pub import_sample :
      (List ℕ → Option (ImportDataset × Bool)) → ℕ → ℕ → List ℕ → Result ImportError ImportDataset
  unfolding validate_dataset
  import_sample decode org_id user_id payload = do
    refuse_if (org_id == 0) org_required
    refuse_if (user_id == 0) user_required
    dataset ← accepted_document (decode payload)
    validate_dataset dataset
