-- ===== src/Import/Linked.antt =====
-- What the maps of the sort hold once the folders are linked.
use seta_im_intern.Prelude.{
  ℕ, ◌+◌, ◌≡◌, refl, Bool, true, false, Option, none, some, List, [], ◌∷◌, ◌++◌, map, ◌==◌,
  if◌then◌else◌, arith, Bool-cases, inl, inr, ok, err, ◌&&◌, sym, >>=-eq-ok, Result-cases,
}
use seta_im_intern.Import.Dataset.{ImportFolder, ImportError, unknown_parent}
use seta_im_intern.Import.Sort.{Graph, folder_map, link, link_folder, link_folders}
use seta_im_intern.Prelude.{has_key, AreDistinct}
use mathlib.Core.List.{append_assoc, append-nil}

abbrev pub keys : List ImportFolder → List ℕ
keys fs = map (λ f. f.key) fs

abbrev pub is_child_of : ℕ → Option ℕ → Bool
is_child_of p none = false
is_child_of p (some q) = q == p

abbrev pub one_if_child : Option ℕ → ℕ
one_if_child none = 0
one_if_child (some q) = 1

-- The keys of a folder's children, in the order of the input.
abbrev pub children_of : List ImportFolder → ℕ → List ℕ
children_of [] p = []
children_of (f ∷ fs) p =
    if is_child_of p f.parent_key then f.key ∷ children_of fs p else children_of fs p

abbrev pub degree_of : List ImportFolder → ℕ → ℕ
degree_of [] k = 0
degree_of (f ∷ fs) k = (if f.key == k then one_if_child f.parent_key else 0) + degree_of fs k

module _ (k : ℕ) where
  pub folder_map-key :
      (fs : List ImportFolder) (f : ImportFolder) → folder_map fs k ≡ some f → f.key ≡ k
  unfolding folder_map
  folder_map-key [] f e = cc
  folder_map-key (g ∷ fs) f e = ground (arith, folder_map-key fs f)

  pub folder_map-absent :
      (fs : List ImportFolder) → has_key (keys fs) k ≡ false → folder_map fs k ≡ none
  unfolding folder_map
  folder_map-absent [] e = refl
  folder_map-absent (g ∷ fs) e = ground (arith, folder_map-absent fs)

  pub folder_map-present :
      (fs : List ImportFolder)
      → has_key (keys fs) k ≡ true
      → (f : ImportFolder) × (folder_map fs k ≡ some f)
  unfolding folder_map
  folder_map-present [] e = cc
  folder_map-present (g ∷ fs) e = elim (Bool-cases (has_key (keys fs) k)) [
    | inl later ↦ let (f, q) = folder_map-present fs later in (f, rw q refl)
    | inr last ↦ (g, ground (arith, folder_map-absent fs last))
  ]

  pub folder_map-has :
      (fs : List ImportFolder) (f : ImportFolder)
      → folder_map fs k ≡ some f
      → has_key (keys fs) k ≡ true
  unfolding folder_map
  folder_map-has [] f e = cc
  folder_map-has (g ∷ fs) f e = ground (arith, folder_map-has fs f)

  pub children_of_sound :
      (fs : List ImportFolder) (p : ℕ)
      → AreDistinct (keys fs)
      → has_key (children_of fs p) k ≡ true
      → (f : ImportFolder) × (folder_map fs k ≡ some f) × (f.parent_key ≡ some p)
  unfolding folder_map
  children_of_sound [] p d e = cc
  children_of_sound (g ∷ fs) p d e = elim (Bool-cases (has_key (children_of fs p) k)) [
    | inl later ↦ let (f, q, r) = children_of_sound fs p d.1 later in (f, rw q refl, r)
    | inr last ↦ (g, ground (arith, folder_map-absent fs), ground arith)
  ]

  pub children_of-full :
      (fs : List ImportFolder) (p : ℕ) (f : ImportFolder)
      → folder_map fs k ≡ some f
      → f.parent_key ≡ some p
      → has_key (children_of fs p) k ≡ true
  unfolding folder_map
  children_of-full [] p f e h = cc
  children_of-full (g ∷ fs) p f e h = ground (arith, children_of-full fs p f)

  pub children_of-has :
      (fs : List ImportFolder) (p : ℕ)
      → has_key (children_of fs p) k ≡ true
      → has_key (keys fs) k ≡ true
  children_of-has [] p e = cc
  children_of-has (g ∷ fs) p e = ground (arith, children_of-has fs p)

  degree_of-absent : (fs : List ImportFolder) → has_key (keys fs) k ≡ false → degree_of fs k ≡ 0
  degree_of-absent [] e = refl
  degree_of-absent (g ∷ fs) e = ground (arith, degree_of-absent fs)

  pub degree_of-eq :
      (fs : List ImportFolder) (f : ImportFolder)
      → AreDistinct (keys fs)
      → folder_map fs k ≡ some f
      → degree_of fs k ≡ one_if_child f.parent_key
  unfolding folder_map
  degree_of-eq [] f d e = cc
  degree_of-eq (g ∷ fs) f d e = elim (Bool-cases (has_key (keys fs) k)) [
    | inl later ↦ let (f', q) = folder_map-present fs later in ground (arith, degree_of-eq fs f d.1)
    | inr last ↦ ground (arith, degree_of-absent fs last, folder_map-absent fs last)
  ]

pub AreDistinct-children_of :
    (fs : List ImportFolder) (p : ℕ) → AreDistinct (keys fs) → AreDistinct (children_of fs p)
AreDistinct-children_of [] p d = tt
AreDistinct-children_of (g ∷ fs) p d =
    ground (arith, children_of-has g.key fs p, AreDistinct-children_of fs p d.1)

-- The graph that linking folders gives, from any graph.
module _ (valid_keys : ℕ → Bool) where
  -- Every parent that the folders name is a valid key.
  abbrev pub parent_is_valid : Option ℕ → Bool
  parent_is_valid none = true
  parent_is_valid (some p) = valid_keys p

  abbrev pub parents_are_valid : List ImportFolder → Bool
  parents_are_valid [] = true
  parents_are_valid (f ∷ fs) = parent_is_valid f.parent_key && parents_are_valid fs

  pub record IsLinked (fs : List ImportFolder) (graph linked : Graph) : Type 0 where
    pub valid : parents_are_valid fs ≡ true
    pub children : (p : ℕ) → linked.children p ≡ graph.children p ++ children_of fs p
    pub in_degree : (k : ℕ) → linked.in_degree k ≡ graph.in_degree k + degree_of fs k

  linked_first :
      (key : ℕ) (parent : Option ℕ) (graph linked : Graph)
      → link_folder valid_keys key parent graph ≡ ok linked
      → (parent_is_valid parent ≡ true)
        × ((p : ℕ)
            → linked.children p
              ≡ graph.children p ++ (if is_child_of p parent then key ∷ [] else []))
        × ((k : ℕ)
            → linked.in_degree k
              ≡ graph.in_degree k + (if key == k then one_if_child parent else 0))
  linked_first key none graph linked e =
      let same : graph ≡ linked = ground arith in
      (refl, (λ p. rw (← same) (sym (append-nil _))), λ k. rw (← same) (ground arith))
  linked_first key (some q) graph linked e = elim (Bool-cases (valid_keys q)) [
    | inl known ↦
        let e' = rw known at e in
        let same : link q key graph ≡ linked = ground arith in
        (
          known,
          (λ p. rw (← same) (ground (arith, append-nil (graph.children p)))),
          λ k. rw (← same) (ground arith),
        )
    | inr unknown ↦ absurd (let f = rw unknown at e in cc)
  ]

  link_first :
      (key : ℕ) (parent : Option ℕ) (graph : Graph)
      → parent_is_valid parent ≡ true
      → (linked : Graph) × (link_folder valid_keys key parent graph ≡ ok linked)
  link_first key none graph h = (graph, refl)
  link_first key (some q) graph h = (link q key graph, rw h refl)

  pub link_folders-IsLinked :
      (fs : List ImportFolder) (graph linked : Graph)
      → link_folders valid_keys fs graph ≡ ok linked
      → IsLinked fs graph linked
  unfolding link_folders
  link_folders-IsLinked [] graph linked e =
      let same : graph ≡ linked = ground arith in
      rw (← same)
        (record { valid = refl; children = λ p. sym (append-nil _); in_degree = λ k. omega arith })
  link_folders-IsLinked (f ∷ fs) graph linked e =
      let (middle, first, rest) = >>=-eq-ok (link_folder valid_keys f.key f.parent_key graph) _ e in
      let (valid, grown, raised) = linked_first f.key f.parent_key graph middle first in
      let later = link_folders-IsLinked fs middle linked rest in
      record {
        valid = ground (arith, later.valid);
        children = λ p. elim (Bool-cases (is_child_of p f.parent_key)) [
          | inl mine ↦ ground (
            arith,
            grown p,
            later.children p,
            append_assoc (graph.children p) (f.key ∷ []) (children_of fs p),
          )
          | inr other ↦ ground (arith, grown p, later.children p, append-nil (graph.children p))
        ];
        in_degree = λ k. ground (arith, raised k, later.in_degree k);
      }

  pub link_folders-total :
      (fs : List ImportFolder) (graph : Graph)
      → parents_are_valid fs ≡ true
      → (linked : Graph) × (link_folders valid_keys fs graph ≡ ok linked)
  unfolding link_folders
  link_folders-total [] graph h = (graph, refl)
  link_folders-total (f ∷ fs) graph h =
      let (middle, first) = link_first f.key f.parent_key graph (ground arith) in
      let (linked, rest) = link_folders-total fs middle (ground arith) in (linked, rw first rest)

  link_folder-error :
      (key : ℕ) (parent : Option ℕ) (graph : Graph) (e : ImportError)
      → link_folder valid_keys key parent graph ≡ err e
      → (k : ℕ) × (e ≡ unknown_parent k)
  link_folder-error key none graph e h = cc
  link_folder-error key (some q) graph e h = (key, ground arith)

  -- The only error of the linking is an unknown parent.
  pub link_folders-error :
      (fs : List ImportFolder) (graph : Graph) (e : ImportError)
      → link_folders valid_keys fs graph ≡ err e
      → (key : ℕ) × (e ≡ unknown_parent key)
  unfolding link_folders
  link_folders-error [] graph e h = cc
  link_folders-error (f ∷ fs) graph e h =
      elim (Result-cases (link_folder valid_keys f.key f.parent_key graph)) [
        | inl (middle, first) ↦ link_folders-error fs middle e (let h' = rw first at h in h')
        | inr (e', first) ↦
            let (key, unknown) = link_folder-error f.key f.parent_key graph e' first in
            (key, let h' = rw first at h in ground arith)
      ]
