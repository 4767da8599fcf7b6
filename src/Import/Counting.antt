-- ===== src/Import/Counting.antt =====
-- Lists of folders with the same keys, as permutations.
use seta_im_intern.Prelude.{
  ℕ, suc, length, ◌≡◌, ◌≢◌, refl, true, false, some, List, [], ◌∷◌, ◌==◌, if◌then◌else◌, arith,
  Bool-cases, inl, inr, All, subst, ◌∙◌,
}
use seta_im_intern.Import.Dataset.{ImportFolder}
use seta_im_intern.Import.Sort.{folder_map}
use seta_im_intern.Prelude.{has_key, AreDistinct}
use seta_im_intern.Import.Linked.{keys, folder_map-absent, folder_map-has}
use mathlib.Core.List.{Permᴰ}
use mathlib.Core.List.Permᴰ

abbrev without : ℕ → List ImportFolder → List ImportFolder
without k [] = []
without k (f ∷ fs) = if f.key == k then fs else f ∷ without k fs

module _ (k : ℕ) where
  length-without :
      (fs : List ImportFolder)
      → has_key (keys fs) k ≡ true
      → length fs ≡ suc (length (without k fs))
  length-without [] h = cc
  length-without (g ∷ fs) h = ground (arith, length-without fs)

  without-keys :
      (j : ℕ) (fs : List ImportFolder)
      → has_key (keys fs) j ≡ false
      → has_key (keys (without k fs)) j ≡ false
  without-keys j [] h = refl
  without-keys j (g ∷ fs) h = ground (arith, without-keys j fs)

  AreDistinct-without :
      (fs : List ImportFolder) → AreDistinct (keys fs) → AreDistinct (keys (without k fs))
  AreDistinct-without [] d = tt
  AreDistinct-without (g ∷ fs) d =
      ground (arith, without-keys g.key fs d.0, AreDistinct-without fs d.1)

  folder_map-without :
      (j : ℕ) (fs : List ImportFolder) → k ≢ j → folder_map (without k fs) j ≡ folder_map fs j
  unfolding folder_map
  folder_map-without j [] apart = refl
  folder_map-without j (g ∷ fs) apart = elim (Bool-cases (g.key == k)) [
    | inl here ↦ rw here (ground arith)
    | inr there ↦ rw there (ground (arith, folder_map-without j fs apart))
  ]

  perm-without :
      (fs : List ImportFolder) (f : ImportFolder)
      → AreDistinct (keys fs)
      → folder_map fs k ≡ some f
      → Permᴰ (f ∷ without k fs) fs
  unfolding folder_map
  perm-without [] f d e = cc
  perm-without (g ∷ fs) f d e = elim (Bool-cases (g.key == k)) [
    | inl here ↦
        let last : has_key (keys fs) k ≡ false = ground arith in
        let q : g ≡ f = ground (arith, folder_map-absent k fs last) in
        rw here (subst (λ x. Permᴰ (x ∷ fs) (g ∷ fs)) q (Permᴰ.refl _))
    | inr there ↦
        let e' : folder_map fs k ≡ some f = ground arith in
        rw there (Permᴰ.trans (Permᴰ.swap refl refl) (Permᴰ.cons refl (perm-without fs f d.1 e')))
  ]

still_given :
    (k : ℕ) (ys xs : List ImportFolder)
    → has_key (keys xs) k ≡ false
    → All (λ f. folder_map ys f.key ≡ some f) xs
    → All (λ f. folder_map (without k ys) f.key ≡ some f) xs
still_given k ys [] absent given = tt
still_given k ys (x ∷ xs) absent given = (
  folder_map-without k x.key ys (λ e. ground arith) ∙ given.0,
  still_given k ys xs (ground arith) given.1,
)

-- Folders that are the ones of their keys, as many as there are, are all of them.
pub perm_of_distinct :
    (xs ys : List ImportFolder)
    → AreDistinct (keys xs)
    → AreDistinct (keys ys)
    → All (λ f. folder_map ys f.key ≡ some f) xs
    → length xs ≡ length ys
    → Permᴰ xs ys
perm_of_distinct [] [] dx dy given same = Permᴰ.nil
perm_of_distinct [] (y ∷ ys) dx dy given same = absurd (omega arith)
perm_of_distinct (x ∷ xs) ys dx dy given same =
    Permᴰ.trans
      (Permᴰ.cons refl (
        perm_of_distinct xs (without x.key ys) dx.1 (AreDistinct-without x.key ys dy)
          (still_given x.key ys xs dx.0 given.1)
          (omega (arith, length-without x.key ys (folder_map-has x.key ys x given.0)))))
      (perm-without x.key ys x dy given.0)

pub All-perm :
    (P : ImportFolder → Type 0) {xs ys : List ImportFolder} → Permᴰ xs ys → All P xs → All P ys
All-perm P Permᴰ.nil h = tt
All-perm P (Permᴰ.cons e p) h = (subst P e h.0, All-perm P p h.1)
All-perm P (Permᴰ.swap e e') h = (subst P e' h.1.0, (subst P e h.0, h.1.1))
All-perm P (Permᴰ.trans p q) h = All-perm P q (All-perm P p h)

pub has_key-perm :
    (k : ℕ) {xs ys : List ImportFolder} → Permᴰ xs ys → has_key (keys xs) k ≡ has_key (keys ys) k
has_key-perm k Permᴰ.nil = refl
has_key-perm k (Permᴰ.cons e p) = ground (arith, has_key-perm k p)
has_key-perm k (Permᴰ.swap e e') = ground arith
has_key-perm k (Permᴰ.trans p q) = has_key-perm k p ∙ has_key-perm k q

pub AreDistinct-perm :
    {xs ys : List ImportFolder} → Permᴰ xs ys → AreDistinct (keys xs) → AreDistinct (keys ys)
AreDistinct-perm Permᴰ.nil d = tt
AreDistinct-perm (Permᴰ.cons {a} e p) d =
    (ground (arith, has_key-perm a.key p), AreDistinct-perm p d.1)
AreDistinct-perm (Permᴰ.swap e e') d = ground arith
AreDistinct-perm (Permᴰ.trans p q) d = AreDistinct-perm q (AreDistinct-perm p d)
