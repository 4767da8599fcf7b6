-- ===== src/Folders/Shift.antt =====
-- The UPDATE of MoveFolder keeps the tree.
use seta_im_intern.Prelude.{
  ℕ, ◌≡◌, refl, sym, ap, ◌∙◌, ◌⊎◌, inl, inr, true, false, ◌&&◌, List, [], ◌∷◌, ◌++◌, ◌==◌, arith,
  Bool-cases, IsAmong, map,
}
use seta_im_intern.Folders.Rows.{Folder, FolderPath, is_under, is_in_org}
use seta_im_intern.Folders.Change.{shift_row}
use seta_im_intern.Folders.Paths.{
  is_under-rest, is_under-append, last_label-cases, last_label-injective, shifted_path-append,
}
use seta_im_intern.Folders.Forest.{
  HasFolder, IsPlaced, IsForest, IsForest-map, HasFolder-map, not_empty,
}
use mathlib.Core.List.{append_assoc, append-nil}

is_under-longer :
    (above path more : FolderPath)
    → is_under above path ≡ true
    → is_under above (path ++ more) ≡ true
is_under-longer [] path more h = refl
is_under-longer (x ∷ above) [] more h = cc
is_under-longer (x ∷ above) (y ∷ path) more h = ground (arith, is_under-longer above path more)

module _ (org user : ℕ) (old new : FolderPath) where
  pub shift-id : (f : Folder) → (shift_row org user old new f).id ≡ f.id
  shift-id f = ground arith

  pub shift-org : (f : Folder) → (shift_row org user old new f).org_id ≡ f.org_id
  shift-org f = ground arith

  pub shift-kept :
      (f : Folder)
      → (is_in_org org f && is_under old f.path) ≡ false
      → shift_row org user old new f ≡ f
  shift-kept f h = rw h refl

  shift-moved :
      (f : Folder) (rest : FolderPath)
      → f.org_id ≡ org
      → f.path ≡ old ++ rest
      → (shift_row org user old new f).path ≡ new ++ rest
  shift-moved f rest in_org path =
      let here : is_in_org org f ≡ true = ground arith in
      let below : is_under old f.path ≡ true = rw path (is_under-append old rest) in
      rw (here, below, path) (shifted_path-append old new rest)

module _ (folders : List Folder) (forest : IsForest folders) (user : ℕ) (source : Folder)
    (source_among : IsAmong source folders) (dest : FolderPath)
    (dest_above : (dest ≡ []) ⊎ HasFolder folders source.org_id dest)
    (apart : is_under source.path dest ≡ false) where
  abbrev change : Folder → Folder
  change = shift_row source.org_id user source.path (dest ++ source.id ∷ [])

  -- A parent that is not moved.
  parent_kept :
      {org : ℕ} {parent : FolderPath}
      → (org == source.org_id && is_under source.path parent) ≡ false
      → (parent ≡ []) ⊎ HasFolder folders org parent
      → (parent ≡ []) ⊎ HasFolder (map change folders) org parent
  parent_kept kept (inl e) = inl e
  parent_kept kept (inr at) =
      let same : change at.folder ≡ at.folder =
        shift-kept source.org_id user source.path (dest ++ source.id ∷ []) at.folder
          (rw (at.in_org, at.at_parent) kept) in
      inr (
        HasFolder-map folders change
          (shift-id source.org_id user source.path (dest ++ source.id ∷ []))
          (λ f h. shift-org source.org_id user source.path (dest ++ source.id ∷ []) f) at
          (ap (λ f. f.path) same ∙ at.at_parent))

  -- The source: its parent becomes the destination.
  place_source :
      (f : Folder) (p : IsPlaced folders f.org_id f.id f.path)
      → f.org_id ≡ source.org_id
      → f.path ≡ source.path
      → IsPlaced (map change folders) f.org_id f.id (change f).path
  place_source f p in_org path =
      let p0 = forest.placed source source_among in
      let same : f.id ≡ source.id =
        (last_label-injective p.parent p0.parent f.id source.id
          (sym p.is_path ∙ path ∙ p0.is_path)).1 in
      record {
        parent = dest;
        is_path =
            shift-moved source.org_id user source.path (dest ++ source.id ∷ []) f [] in_org
              (path ∙ sym (append-nil source.path))
            ∙ append-nil (dest ++ source.id ∷ [])
            ∙ ap (λ i. dest ++ i ∷ []) (sym same);
        is_parent = parent_kept (rw apart (ground arith)) (rw in_org dest_above);
      }

  -- A descendant: its parent moves with it.
  place_descendant :
      (f : Folder) (p : IsPlaced folders f.org_id f.id f.path) (init : FolderPath) (x : ℕ)
      → f.org_id ≡ source.org_id
      → f.path ≡ source.path ++ (init ++ x ∷ [])
      → IsPlaced (map change folders) f.org_id f.id (change f).path
  place_descendant f p init x in_org path =
      let new = dest ++ source.id ∷ [] in
      let p0 = forest.placed source source_among in
      let (parents, labels) =
        last_label-injective p.parent (source.path ++ init) f.id x
          (sym p.is_path ∙ path ∙ sym (append_assoc source.path init (x ∷ []))) in
      record {
        parent = new ++ init;
        is_path =
            shift-moved source.org_id user source.path new f (init ++ x ∷ []) in_org path
            ∙ sym (append_assoc new init (x ∷ []))
            ∙ ap (λ i. (new ++ init) ++ i ∷ []) (sym labels);
        is_parent = elim p.is_parent [
          | inl e ↦
              elim (not_empty p0.parent source.id init (
                sym (append_assoc p0.parent (source.id ∷ []) init)
                ∙ ap (λ l. l ++ init) (sym p0.is_path)
                ∙ sym parents
                ∙ e)) [ ]
          | inr at ↦ inr (
              HasFolder-map folders change (shift-id source.org_id user source.path new)
                (λ f h. shift-org source.org_id user source.path new f) at
                (shift-moved source.org_id user source.path new at.folder init (at.in_org ∙ in_org)
                  (at.at_parent ∙ parents)))
        ];
      }

  above_kept :
      (f : Folder) (p : IsPlaced folders f.org_id f.id f.path)
      → (is_in_org source.org_id f && is_under source.path f.path) ≡ false
      → (f.org_id == source.org_id && is_under source.path p.parent) ≡ false
  above_kept f p kept =
      let kept' = rw p.is_path at kept in
      ground (arith, is_under-longer source.path p.parent (f.id ∷ []))

  place :
      (f : Folder) → IsAmong f folders → IsPlaced (map change folders) f.org_id f.id (change f).path
  place f among =
      let p = forest.placed f among in
      elim (Bool-cases (is_in_org source.org_id f && is_under source.path f.path)) [
        | inl moved ↦
            let in_org : f.org_id ≡ source.org_id = ground arith in
            let (rest, below) = is_under-rest source.path f.path (ground arith) in
            elim (last_label-cases rest) [
              | inl e ↦
                  place_source f p in_org
                    (below ∙ ap (λ r. source.path ++ r) e ∙ append-nil source.path)
              | inr (init, x, e) ↦
                  place_descendant f p init x in_org (below ∙ ap (λ r. source.path ++ r) e)
            ]
        | inr kept ↦
            let same : (change f).path ≡ f.path =
              ap (λ f. f.path)
                (shift-kept source.org_id user source.path (dest ++ source.id ∷ []) f kept) in
            record {
              parent = p.parent;
              is_path = same ∙ p.is_path;
              is_parent = parent_kept (above_kept f p kept) p.is_parent;
            }
      ]

  pub IsForest-shift : IsForest (map change folders)
  IsForest-shift =
      IsForest-map folders change (shift-id source.org_id user source.path (dest ++ source.id ∷ []))
        (λ f h. shift-org source.org_id user source.path (dest ++ source.id ∷ []) f) forest place
