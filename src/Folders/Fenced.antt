-- ===== src/Folders/Fenced.antt =====
-- The rows that an open deletion holds, and what an UPDATE behind the fence keeps of them.
use seta_im_intern.Prelude.{
  ℕ, ◌≡◌, refl, ap, subst, ◌∙◌, inl, inr, true, false, ◌&&◌, List, [], ◌∷◌, map, ◌==◌, arith,
  Bool-cases, IsAmong, IsAmong-map, any-false, AreDistinct-unique, ok,
}
use seta_im_intern.Folders.Rows.{Assets, Folder, DeletionJob, blocks, fences, is_under, is_in_org}
use seta_im_intern.Folders.Change.{ensure_no_active_deletion}
use seta_im_intern.Folders.Paths.{is_under-comparable, is_under_self}
use seta_im_intern.Folders.Reads.{ensure_no_active_deletion-ok}
use seta_im_intern.Folders.Forest.{IsForest, IsPlaced-is_under_root}

-- A folder at or below the root of a deletion that is queued, running or failed.
pub record IsHeld (jobs : List DeletionJob) (f : Folder) : Type 0 where
  pub job : DeletionJob
  pub among : IsAmong job jobs
  pub blocking : blocks job.status ≡ true
  pub same_org : job.org_id ≡ f.org_id
  pub below : is_under job.root_path f.path ≡ true

-- What an operation on these folders may leave: a tree, in which the held folders are as they were.
pub record IsKept (folders : List Folder) (jobs : List DeletionJob) (after : Assets) : Type 0 where
  pub forest : IsForest after.folders
  pub held : (f : Folder) → IsAmong f folders → IsHeld jobs f → IsAmong f after.folders

module _ (db : Assets) (forest : IsForest db.folders) (folder : Folder)
    (among : IsAmong folder db.folders) (org : ℕ) (in_org : folder.org_id ≡ org) {u : Unit {0}}
    (fenced : ensure_no_active_deletion db org (folder.path ∷ []) ≡ ok u) where
  -- No held folder stands at or below a folder that the fence lets pass.
  pub held_apart :
      (f : Folder)
      → IsHeld db.deletion_jobs f
      → f.org_id ≡ org
      → is_under folder.path f.path ≡ false
  held_apart f held same_org = elim (ensure_no_active_deletion-ok db org folder.path fenced) [
    | inl top ↦
        let h =
          IsPlaced-is_under_root db.folders folder.org_id folder.id folder.path
            (forest.placed folder among) in
        let h' = rw top at h in cc
    | inr free ↦
        let passed = any-false (fences org folder.path) db.deletion_jobs held.job free held.among in
        elim (Bool-cases (is_under folder.path f.path)) [
          | inr apart ↦ apart
          | inl under ↦
              elim (is_under-comparable held.job.root_path folder.path f.path held.below under) [
                | inl h ↦ ground (arith, held.blocking, held.same_org, same_org)
                | inr h ↦ ground (arith, held.blocking, held.same_org, same_org)
              ]
        ]
  ]

  -- A held folder is not the one that the fence lets pass.
  pub held_other :
      (f : Folder) → IsAmong f db.folders → IsHeld db.deletion_jobs f → (f.id == folder.id) ≡ false
  held_other f here held = elim (Bool-cases (f.id == folder.id)) [
    | inr other ↦ other
    | inl same ↦
        let e =
          AreDistinct-unique (λ f. f.id) db.folders f folder forest.distinct here among
            (ground arith) in
        let apart = held_apart f held (ap (λ f. f.org_id) e ∙ in_org) in
        let self = is_under_self folder.path in
        let apart' = subst (λ f. is_under folder.path f.path ≡ false) e apart in cc
  ]

  -- The UPDATE of a move does not meet a held folder.
  pub held_unshifted :
      (f : Folder)
      → IsHeld db.deletion_jobs f
      → (is_in_org org f && is_under folder.path f.path) ≡ false
  held_unshifted f held = elim (Bool-cases (is_in_org org f)) [
    | inl same ↦ rw (same, held_apart f held (ground arith)) refl
    | inr other ↦ rw other refl
  ]

-- A row that an UPDATE leaves as it was is still there.
pub IsAmong-unchanged :
    (folders : List Folder) (change : Folder → Folder) (f : Folder)
    → IsAmong f folders
    → change f ≡ f
    → IsAmong f (map change folders)
IsAmong-unchanged folders change f here same =
    subst (λ g. IsAmong g (map change folders)) same (IsAmong-map change f folders here)
