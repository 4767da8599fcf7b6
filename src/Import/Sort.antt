-- ===== src/Import/Sort.antt =====
-- topologicalSortFolders of usecase/asset_usecase_import.go. A map is a function from its keys. The
-- loop over the queue runs on fuel, a round for each folder.
use seta_im_intern.Prelude.{
  ℕ, zero, suc, ◌+◌, ◌-◌, Bool, not, Option, none, some, List, [], ◌∷◌, ◌++◌, length, ◌==◌,
  if◌then◌else◌, Result, ok, err, ◌>>=◌,
}
use seta_im_intern.Import.Dataset.{
  ImportFolder, ImportError, unknown_parent, cyclic_graph, unfinished_sort,
}

-- childrenMap and inDegree.
pub record Graph : Type 0 where
  pub children : ℕ → List ℕ
  pub in_degree : ℕ → ℕ

abbrev pub kept_or : Option ImportFolder → Option ImportFolder → Option ImportFolder
kept_or none f = f
kept_or (some later) f = some later

unfoldable pub folder_map : List ImportFolder → ℕ → Option ImportFolder
folder_map [] k = none
folder_map (f ∷ fs) k = kept_or (folder_map fs k) (if f.key == k then some f else none)

abbrev pub no_links : Graph
no_links = record { children = λ p. []; in_degree = λ k. 0 }

abbrev pub link : ℕ → ℕ → Graph → Graph
link parent key graph = record {
  children = λ p. if parent == p then graph.children p ++ key ∷ [] else graph.children p;
  in_degree = λ k. if key == k then graph.in_degree k + 1 else graph.in_degree k;
}

abbrev pub link_folder : (ℕ → Bool) → ℕ → Option ℕ → Graph → Result ImportError Graph
link_folder valid_keys key none graph = ok graph
link_folder valid_keys key (some parent) graph =
    if not (valid_keys parent) then err (unknown_parent key) else ok (link parent key graph)

unfoldable pub link_folders : (ℕ → Bool) → List ImportFolder → Graph → Result ImportError Graph
link_folders valid_keys [] graph = ok graph
link_folders valid_keys (f ∷ fs) graph =
    link_folder valid_keys f.key f.parent_key graph >>= λ linked. link_folders valid_keys fs linked

unfoldable pub roots : (ℕ → ℕ) → List ImportFolder → List ℕ
roots in_degree [] = []
roots in_degree (f ∷ fs) =
    if in_degree f.key == 0 then f.key ∷ roots in_degree fs else roots in_degree fs

abbrev pub decrement : ℕ → (ℕ → ℕ) → ℕ → ℕ
decrement child in_degree k = if child == k then in_degree k - 1 else in_degree k

-- `inDegree[child]--`, after which the count is 0 exactly if it was 1.
unfoldable pub release : List ℕ → (ℕ → ℕ) × List ℕ → (ℕ → ℕ) × List ℕ
release [] state = state
release (child ∷ children) (in_degree, queue) =
    release children
      (decrement child in_degree, (if in_degree child == 1 then queue ++ child ∷ [] else queue))

-- `folderMap[curr]`, the zero value where the key is absent.
abbrev pub folder_or_zero : Option ImportFolder → ImportFolder
folder_or_zero none = record { key = 0; parent_key = none; name = []; description = none }
folder_or_zero (some f) = f

module _ (folders : List ImportFolder) (graph : Graph) where
  -- Nothing where the fuel is used up before the queue is empty.
  unfoldable pub sort_queue : ℕ → List ℕ → (ℕ → ℕ) → List ImportFolder → Option (List ImportFolder)
  unfolding folder_map release
  sort_queue fuel [] in_degree sorted = some sorted
  sort_queue zero (curr ∷ queue) in_degree sorted = none
  sort_queue (suc fuel) (curr ∷ queue) in_degree sorted =
      let (in_degree', queue') = release (graph.children curr) (in_degree, queue) in
      sort_queue fuel queue' in_degree' (sorted ++ folder_or_zero (folder_map folders curr) ∷ [])

abbrev pub sorted_or_cyclic :
    List ImportFolder → Option (List ImportFolder) → Result ImportError (List ImportFolder)
sorted_or_cyclic folders none = err unfinished_sort
sorted_or_cyclic folders (some sorted) =
    if not (length sorted == length folders) then err cyclic_graph else ok sorted

abbrev pub sort_linked : List ImportFolder → Graph → Result ImportError (List ImportFolder)
sort_linked folders graph =
    sorted_or_cyclic folders
      (sort_queue folders graph (length folders) (roots graph.in_degree folders) graph.in_degree [])

unfoldable pub topological_sort_folders :
    List ImportFolder → (ℕ → Bool) → Result ImportError (List ImportFolder)
unfolding link_folders roots sort_queue
topological_sort_folders folders valid_keys =
    link_folders valid_keys folders no_links >>= sort_linked folders
