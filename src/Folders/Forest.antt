-- ===== src/Folders/Forest.antt =====
-- The rows of the folders form a tree for each organization: every path is the path of its parent and
-- the folder's own label. What an UPDATE keeps of it.
use seta_im_intern.Prelude.{
  ℕ, ◌≡◌, refl, sym, subst, ◌∙◌, ◌⊎◌, inl, inr, false, List, [], ◌∷◌, ◌++◌, IsAmong, IsAmong-map,
  IsAmong-map-origin, AreDistinct, has_key, map,
}
use seta_im_intern.Folders.Rows.{Folder, FolderPath, is_under}

pub not_empty : (path : FolderPath) (x : ℕ) (more : FolderPath) → path ++ x ∷ more ≡ [] → ⊥
not_empty [] x more e = cc
not_empty (y ∷ path) x more e = cc

-- A folder whose path is `parent` in an organization.
pub record HasFolder (folders : List Folder) (org : ℕ) (parent : FolderPath) : Type 0 where
  pub folder : Folder
  pub among : IsAmong folder folders
  pub in_org : folder.org_id ≡ org
  pub at_parent : folder.path ≡ parent

pub record IsPlaced (folders : List Folder) (org id : ℕ) (path : FolderPath) : Type 0 where
  pub parent : FolderPath
  pub is_path : path ≡ parent ++ id ∷ []
  pub is_parent : (parent ≡ []) ⊎ HasFolder folders org parent

pub record IsForest (folders : List Folder) : Type 0 where
  pub distinct : AreDistinct (map (λ f. f.id) folders)
  pub placed : (f : Folder) → IsAmong f folders → IsPlaced folders f.org_id f.id f.path

module _ (change : Folder → Folder) (same_id : (f : Folder) → (change f).id ≡ f.id) where
  pub ids-map :
      (folders : List Folder) → map (λ f. f.id) (map change folders) ≡ map (λ f. f.id) folders
  ids-map [] = refl
  ids-map (f ∷ folders) = let head = same_id f in let tail = ids-map folders in cc

module _ (folders : List Folder) (change : Folder → Folder)
    (same_id : (f : Folder) → (change f).id ≡ f.id)
    (same_org : (f : Folder) → IsAmong f folders → (change f).org_id ≡ f.org_id) where
  -- An UPDATE that keeps identifiers and organizations, and places each row anew.
  pub IsForest-map :
      IsForest folders
      → ((f : Folder)
          → IsAmong f folders
          → IsPlaced (map change folders) f.org_id f.id (change f).path)
      → IsForest (map change folders)
  IsForest-map forest moved = record {
    distinct = rw (ids-map change same_id folders) forest.distinct;
    placed = λ g among.
        let (f, here, e) = IsAmong-map-origin change g folders among in
        subst (λ g. IsPlaced (map change folders) g.org_id g.id g.path) e
          (rw (same_org f here, same_id f) (moved f here));
  }

  -- A row at the parent is still there if the UPDATE keeps its path.
  pub HasFolder-map :
      {org : ℕ} {parent parent' : FolderPath}
      → (at : HasFolder folders org parent) → (change at.folder).path ≡ parent'
      → HasFolder (map change folders) org parent'
  HasFolder-map at e = record {
    folder = change at.folder;
    among = IsAmong-map change at.folder folders at.among;
    in_org = same_org at.folder at.among ∙ at.in_org;
    at_parent = e;
  }

  -- An UPDATE that keeps the paths.
  pub IsForest-same_paths :
      ((f : Folder) → IsAmong f folders → (change f).path ≡ f.path)
      → IsForest folders
      → IsForest (map change folders)
  IsForest-same_paths same_path forest = IsForest-map forest (λ f here.
      let p = forest.placed f here in
      record {
        parent = p.parent;
        is_path = same_path f here ∙ p.is_path;
        is_parent = elim p.is_parent [
          | inl e ↦ inl e
          | inr at ↦ inr (HasFolder-map at (same_path at.folder at.among ∙ at.at_parent))
        ];
      })

-- An INSERT below a folder, or at the top level.
pub IsForest-insert :
    (folders : List Folder) (new : Folder) (parent : FolderPath)
    → has_key (map (λ f. f.id) folders) new.id ≡ false
    → new.path ≡ parent ++ new.id ∷ []
    → (parent ≡ []) ⊎ HasFolder folders new.org_id parent
    → IsForest folders
    → IsForest (new ∷ folders)
IsForest-insert folders new parent fresh path above forest = record {
  distinct = (fresh, forest.distinct);
  placed = place;
}
  where
    widen :
        {org : ℕ} {parent : FolderPath}
        → (parent ≡ []) ⊎ HasFolder folders org parent
        → (parent ≡ []) ⊎ HasFolder (new ∷ folders) org parent
    widen (inl e) = inl e
    widen (inr at) = inr (record {
      folder = at.folder;
      among = inr at.among;
      in_org = at.in_org;
      at_parent = at.at_parent;
    })

    place : (f : Folder) → IsAmong f (new ∷ folders) → IsPlaced (new ∷ folders) f.org_id f.id f.path
    place f (inl e) =
        subst (λ g. IsPlaced (new ∷ folders) g.org_id g.id g.path) e
          (record { parent = parent; is_path = path; is_parent = widen above })
    place f (inr here) =
        let p = forest.placed f here in
        record { parent = p.parent; is_path = p.is_path; is_parent = widen p.is_parent }

-- A placed path is not the top level.
pub IsPlaced-is_under_root :
    (folders : List Folder) (org id : ℕ) (path : FolderPath)
    → IsPlaced folders org id path
    → is_under path [] ≡ false
IsPlaced-is_under_root folders org id [] p = elim (not_empty p.parent id [] (sym p.is_path)) [ ]
IsPlaced-is_under_root folders org id (x ∷ path) p = refl
