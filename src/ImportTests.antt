-- ===== src/ImportTests.antt =====
-- Small datasets, and the theorems about the import at them.
use seta_im_intern.Prelude.{
  ℕ, ◌≡◌, refl, true, false, Option, none, some, List, [], ◌∷◌, ok, err, ◌==◌, Bool, ◌+◌, map,
  Result,
}
use seta_im_intern.Import.Dataset.{
  Text, ImportFolder, ImportMetadataItem, ImportDataset, unknown_parent, cyclic_graph,
  duplicate_external_id, ImportSummary,
}
use seta_im_intern.Import.Sort.{topological_sort_folders}
use seta_im_intern.Prelude.{has_key, All, filter, not}
use seta_im_intern.Import.Linked.{keys}
use seta_im_intern.Import.Order.{Sorts, topological_sort_folders-Sorts}
use seta_im_intern.Import.Text.{open_images_v7, trim_space}
use seta_im_intern.Import.Validate.{import_sample}
use seta_im_intern.Import.Accepted.{IsImportable, import_sample-IsImportable}
use seta_im_intern.Folders.Rows.{Assets, DeletionStatus}
use seta_im_intern.Import.Place.{UpsertError, Placed}
use seta_im_intern.Import.Upsert.{JsonCodec, json_objects_equal, import_sample_transaction}
use seta_im_intern.Import.Mirrored.{IsMirrored, import_sample_transaction-mirrors}
use seta_im_intern.Import.Totals.{
  folder_total, item_total, rehearsed, import_sample_transaction-totals,
}

abbrev folder : ℕ → Option ℕ → ImportFolder
folder key parent_key = record {
  key = key;
  parent_key = parent_key;
  name = 65 ∷ [];
  description = none;
}

abbrev tree : List ImportFolder
tree = folder 3 (some 2) ∷ folder 1 none ∷ folder 2 (some 1) ∷ folder 4 (some 1) ∷ []

abbrev sorted_tree : List ImportFolder
sorted_tree = folder 1 none ∷ folder 2 (some 1) ∷ folder 4 (some 1) ∷ folder 3 (some 2) ∷ []

sorts : topological_sort_folders tree (λ k. true) ≡ ok sorted_tree
unfolding topological_sort_folders
sorts = refl

finds_cycle :
    topological_sort_folders
      (folder 1 none ∷ folder 2 (some 3) ∷ folder 3 (some 2) ∷ [])
      (λ k. true)
    ≡ err cyclic_graph
unfolding topological_sort_folders
finds_cycle = refl

unknown : topological_sort_folders (folder 1 (some 9) ∷ []) (λ k. k == 1) ≡ err (unknown_parent 1)
unfolding topological_sort_folders
unknown = refl

topological_sort_folders-Sorts_example :
    Sorts tree (topological_sort_folders tree (has_key (keys tree)))
topological_sort_folders-Sorts_example =
    topological_sort_folders-Sorts tree (has_key (keys tree)) (refl, (refl, (refl, (refl, tt))))
      (λ k. refl)

trims : trim_space (32 ∷ 65 ∷ 9 ∷ 66 ∷ 160 ∷ []) ≡ 65 ∷ 9 ∷ 66 ∷ []
unfolding trim_space
trims = refl

abbrev item : Text → ImportMetadataItem
item external_id = record {
  folder_key = 2;
  external_id = external_id;
  title = 32 ∷ 84 ∷ [];
  description = none;
  labels = (76 ∷ []) ∷ (76 ∷ 32 ∷ []) ∷ [];
  category = none;
  source_url = none;
  thumbnail_url = none;
  license = none;
  author = none;
  metadata_json = [];
  notes = none;
}

abbrev dataset_of : List ImportMetadataItem → ImportDataset
dataset_of items = record {
  version = 1;
  external_source = 32 ∷ open_images_v7;
  folders = tree;
  metadata = items;
}

abbrev accepted : ImportDataset
accepted = record {
  version = 1;
  external_source = open_images_v7;
  folders = sorted_tree;
  metadata =
      record (item (88 ∷ [])) {
        title = 84 ∷ [];
        labels = (76 ∷ []) ∷ [];
        metadata_json = 123 ∷ 125 ∷ [];
      }
      ∷ [];
}

abbrev decode_as : ImportDataset → List ℕ → Option (ImportDataset × Bool)
decode_as dataset payload = some (dataset, false)

accepts :
    import_sample (λ json. true) (decode_as (dataset_of (item (88 ∷ 32 ∷ []) ∷ []))) 1 2 []
    ≡ ok accepted
unfolding import_sample
accepts = refl

repeats :
    import_sample
      (λ json. true)
      (decode_as (dataset_of (item (88 ∷ []) ∷ item (88 ∷ 32 ∷ []) ∷ [])))
      1
      2
      []
    ≡ err (duplicate_external_id 1)
unfolding import_sample
repeats = refl

import_sample-IsImportable_example : IsImportable accepted
import_sample-IsImportable_example =
    import_sample-IsImportable (λ json. true) (decode_as (dataset_of (item (88 ∷ 32 ∷ []) ∷ []))) 1
      2 [] accepted accepts

abbrev empty : Assets
empty = record {
  folders = [];
  items = [];
  units = [];
  deletion_jobs = [];
  user_refs = [];
  organization_refs = [];
}

-- A codec that decodes nothing: texts are compared byte by byte.
abbrev no_json : JsonCodec
no_json = record { decode_object = λ text. none; marshal_object = λ object. none }

abbrev first_key : List (Text × Text) → Option Text
first_key [] = none
first_key ((key, value) ∷ object) = some key

-- A codec that does not see spaces.
abbrev spaced_json : JsonCodec
spaced_json = record {
  decode_object = λ text. some ((filter (λ b. not (b == 32)) text, []) ∷ [], false);
  marshal_object = first_key;
}

compares_objects : json_objects_equal spaced_json (1 ∷ 32 ∷ []) (1 ∷ []) ≡ true
compares_objects = refl

compares_texts : json_objects_equal no_json (1 ∷ []) (2 ∷ []) ≡ false
compares_texts = refl

abbrev import_accepted : Bool → Assets → Assets × Result UpsertError ImportSummary
import_accepted dry_run db =
    import_sample_transaction no_json (λ i. 50 + i) (λ i. 70 + i) 1 2 accepted dry_run db

abbrev imported : Assets
imported = (import_accepted false empty).0

-- The folder 4 has the name and the parent of the folder 2.
abbrev first_counts : ImportSummary
first_counts = record {
  dry_run = false;
  folders_created = 3;
  folders_reused = 1;
  metadata_created = 1;
  metadata_updated = 0;
  metadata_unchanged = 0;
}

imports : import_accepted false empty ≡ (imported, ok first_counts)
unfolding import_sample_transaction
imports = refl

imports_paths :
    map (λ f. f.path) imported.folders ≡ (50 ∷ 51 ∷ 53 ∷ []) ∷ (50 ∷ 51 ∷ []) ∷ (50 ∷ []) ∷ []
unfolding import_sample_transaction
imports_paths = refl

imports_again : import_accepted false imported ≡ (
  imported,
  ok (record {
    dry_run = false;
    folders_created = 0;
    folders_reused = 4;
    metadata_created = 0;
    metadata_updated = 0;
    metadata_unchanged = 1;
  }),
)
unfolding import_sample_transaction
imports_again = refl

import_sample_transaction-totals_example :
    (folder_total first_counts ≡ 4)
    × (item_total first_counts ≡ 1)
    × (import_accepted true empty ≡ (empty, ok (rehearsed first_counts)))
import_sample_transaction-totals_example =
    import_sample_transaction-totals no_json (λ i. 50 + i) (λ i. 70 + i) 1 2 accepted empty imported
      first_counts imports

-- A deletion of the imported tree is queued; an import of one more folder below it succeeds.
abbrev deleting : Assets
deleting = record imported {
  deletion_jobs = record { org_id = 1; root_path = 50 ∷ []; status = DeletionStatus.queued } ∷ [];
}

abbrev one_more : ImportDataset
one_more = record accepted {
  folders = folder 1 none ∷ record (folder 5 (some 1)) { name = 66 ∷ [] } ∷ [];
  metadata = [];
}

imports_below_deletion :
    map
      (λ f. f.path)
      (import_sample_transaction no_json
        (λ i. 90 + i)
        (λ i. 70 + i)
        1
        2
        one_more
        false
        deleting).0.folders
    ≡ (50 ∷ 91 ∷ []) ∷ (50 ∷ 51 ∷ 53 ∷ []) ∷ (50 ∷ 51 ∷ []) ∷ (50 ∷ []) ∷ []
unfolding import_sample_transaction
imports_below_deletion = refl

import_sample_transaction-mirrors_example :
    (placed : Placed) × All (IsMirrored 1 imported.folders placed) sorted_tree
import_sample_transaction-mirrors_example =
    import_sample_transaction-mirrors no_json (λ i. 50 + i) (λ i. 70 + i) 1 2 accepted empty
      imported first_counts
      (import_sample-IsImportable (λ json. true) (decode_as (dataset_of (item (88 ∷ 32 ∷ []) ∷ [])))
        1 2 [] accepted accepts)
      imports
