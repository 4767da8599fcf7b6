-- ===== src/Folders/Reads.antt =====
-- What the reads and writes of the folder operations return.
use seta_im_intern.Prelude.{
  ℕ, zero, suc, ◌≡◌, refl, sym, ap, subst, ◌∙◌, ◌⊎◌, inl, inr, Bool, true, false, Option, none,
  some, List, [], ◌∷◌, ◌==◌, arith, Bool-cases, IsAmong, same_bytes-eq, ok, >>=-eq-ok,
  refuse_if-then, ok-injective, any,
}
use seta_im_intern.Folders.Rows.{
  Assets, Folder, FolderError, FolderPath, is_visible, is_under, fences, deletion_in_progress,
  violates_unique, folder_conflict, folder_not_found, cycle_detected,
}
use seta_im_intern.Folders.Change.{
  find_row, first_row, visible_at, visible_folder, write_folders, load_parent, load_destination,
  ensure_no_active_deletion,
}
use seta_im_intern.Folders.Forest.{HasFolder}

module _ {R : Type 0} where
  pub find_row-some :
      (p : R → Bool) (rows : List R) (r : R)
      → find_row p rows ≡ some r
      → IsAmong r rows × (p r ≡ true)
  find_row-some p [] r e = cc
  find_row-some p (x ∷ rows) r e = elim (Bool-cases (p x)) [
    | inl hit ↦ let q : x ≡ r = ground arith in (inl q, subst (λ y. p y ≡ true) q hit)
    | inr miss ↦ let h = find_row-some p rows r (rw miss at e) in (inr h.0, h.1)
  ]

  pub first_row-ok : (e : FolderError) (o : Option R) {r : R} → first_row e o ≡ ok r → o ≡ some r
  first_row-ok e none h = cc
  first_row-ok e (some x) h = ap (λ x. some x) (ok-injective h)

-- A row that is locked for the operation.
pub record IsRead (db : Assets) (org : ℕ) (f : Folder) : Type 0 where
  pub among : IsAmong f db.folders
  pub in_org : f.org_id ≡ org
  pub visible : is_visible db.folders f ≡ true

pub visible_at-IsRead :
    (db : Assets) (org : ℕ) (path : FolderPath) {f : Folder}
    → visible_at db org path ≡ ok f
    → IsRead db org f × (f.path ≡ path)
unfolding visible_at
visible_at-IsRead db org path {f} h =
    let (among, test) = find_row-some _ db.folders f (first_row-ok folder_not_found _ h) in
    (
      record { among = among; in_org = ground arith; visible = ground arith },
      same_bytes-eq f.path path (ground arith),
    )

pub visible_folder-IsRead :
    (e : FolderError) (db : Assets) (org id : ℕ) {f : Folder}
    → visible_folder e db org id ≡ ok f
    → IsRead db org f × (f.id ≡ id)
unfolding visible_folder
visible_folder-IsRead e db org id {f} h =
    let (among, test) = find_row-some _ db.folders f (first_row-ok e _ h) in
    (record { among = among; in_org = ground arith; visible = ground arith }, ground arith)

pub load_parent-HasFolder :
    (db : Assets) (org : ℕ) (input : Option FolderPath) {parent : FolderPath}
    → load_parent db org input ≡ ok parent
    → (parent ≡ []) ⊎ HasFolder db.folders org parent
load_parent-HasFolder db org none h = inl (sym (ok-injective h))
load_parent-HasFolder db org (some []) h = inl (sym (ok-injective h))
load_parent-HasFolder db org (some (x ∷ path)) h =
    let (f, read, returned) = >>=-eq-ok (visible_at db org (x ∷ path)) (λ f. ok (x ∷ path)) h in
    let (row, at) = visible_at-IsRead db org (x ∷ path) read in
    inr (record {
      folder = f;
      among = row.among;
      in_org = row.in_org;
      at_parent = at ∙ ok-injective returned;
    })

pub write_folders-ok :
    (folders : List Folder) (db : Assets) {db' : Assets}
    → write_folders folders db ≡ ok db'
    → record db { folders = folders } ≡ db'
unfolding write_folders
write_folders-ok folders db h =
    ok-injective (refuse_if-then (violates_unique folders) folder_conflict _ h).1

-- A path that the fence lets pass is the top level or free of open deletions.
pub ensure_no_active_deletion-ok :
    (db : Assets) (org : ℕ) (path : FolderPath) {u : Unit {0}}
    → ensure_no_active_deletion db org (path ∷ []) ≡ ok u
    → (path ≡ []) ⊎ (any (fences org path) db.deletion_jobs ≡ false)
unfolding ensure_no_active_deletion
ensure_no_active_deletion-ok db org [] h = inl refl
ensure_no_active_deletion-ok db org (x ∷ path) h =
    inr (refuse_if-then (any (fences org (x ∷ path)) db.deletion_jobs) deletion_in_progress _ h).0

-- The destination of a move: the top level, or a visible folder that is not the source or below it.
pub load_destination-ok :
    (db : Assets) (org : ℕ) (folder : Folder) (input : Option ℕ) {dest : FolderPath}
    → load_destination db org folder input ≡ ok dest
    → (dest ≡ []) ⊎ (HasFolder db.folders org dest × (is_under folder.path dest ≡ false))
load_destination-ok db org folder none h = inl (sym (ok-injective h))
load_destination-ok db org folder (some zero) h = inl (sym (ok-injective h))
load_destination-ok db org folder (some (suc d)) h =
    let (dest, read, h1) = >>=-eq-ok (visible_folder folder_not_found db org (suc d)) _ h in
    let (row, is_id) = visible_folder-IsRead folder_not_found db org (suc d) read in
    let (_, h2) = refuse_if-then (dest.id == folder.id) cycle_detected _ h1 in
    let (apart, h3) = refuse_if-then (is_under folder.path dest.path) cycle_detected _ h2 in
    let (u, fenced, h4) = >>=-eq-ok (ensure_no_active_deletion db org (dest.path ∷ [])) _ h3 in
    let e = ok-injective h4 in
    inr (
      record { folder = dest; among = row.among; in_org = row.in_org; at_parent = e },
      subst (λ p. is_under folder.path p ≡ false) e apart,
    )
