-- ===== src/Import/Dataset.antt =====
-- domain/import.go. A key is a number, 0 the empty one; a text that the code trims or measures is
-- the list of its runes. The message of an error is left out.
use seta_im_intern.Prelude.{ℕ, Bool, Option, List}

abbrev pub Text : Type 0
Text = List ℕ

pub record ImportFolder : Type 0 where
  pub key : ℕ
  pub parent_key : Option ℕ
  pub name : Text
  pub description : Option Text

pub record ImportMetadataItem : Type 0 where
  pub folder_key : ℕ
  pub external_id : Text
  pub title : Text
  pub description : Option Text
  pub labels : List Text
  pub category : Option Text
  pub source_url : Option Text
  pub thumbnail_url : Option Text
  pub license : Option Text
  pub author : Option Text
  pub metadata_json : Text
  pub notes : Option Text

pub record ImportDataset : Type 0 where
  pub version : ℕ
  pub external_source : Text
  pub folders : List ImportFolder
  pub metadata : List ImportMetadataItem

pub record ImportSummary : Type 0 where
  pub dry_run : Bool
  pub folders_created : ℕ
  pub folders_reused : ℕ
  pub metadata_created : ℕ
  pub metadata_updated : ℕ
  pub metadata_unchanged : ℕ

-- An error's type with its key or its index. `unfinished_sort` is the model's own: the sort has used
-- up its fuel.
pub data ImportError : Type 0 where
  org_required user_required invalid_schema invalid_version invalid_source : ImportError
  limit_exceeded cyclic_graph unfinished_sort : ImportError
  blank_folder_key invalid_metadata : ℕ → ImportError
  duplicate_folder_key invalid_folder unknown_parent : ℕ → ImportError
  duplicate_external_id : ℕ → ImportError
  conflict : Text → ImportError
