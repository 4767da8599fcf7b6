-- ===== src/Folders/Paths.antt =====
-- Paths of folders: prefixes, last labels, and what a move makes of a path.
use seta_im_intern.Prelude.{
  ℕ, ◌≡◌, refl, sym, ap, ◌⊎◌, inl, inr, true, [], ◌∷◌, ◌++◌, same_bytes, drop-append, arith,
  Bool-cases,
}
use seta_im_intern.Folders.Rows.{FolderPath, is_under}
use seta_im_intern.Folders.Change.{shifted_path}
use mathlib.Core.List.{append-nil}

-- The labels that a path has below a prefix of it.
pub is_under-rest :
    (above path : FolderPath)
    → is_under above path ≡ true
    → (rest : FolderPath) × (path ≡ above ++ rest)
is_under-rest [] path h = (path, refl)
is_under-rest (x ∷ above) [] h = cc
is_under-rest (x ∷ above) (y ∷ path) h =
    let e : x ≡ y = ground arith in
    let (rest, q) = is_under-rest above path (ground arith) in (rest, cc)

pub is_under-append : (above rest : FolderPath) → is_under above (above ++ rest) ≡ true
is_under-append [] rest = refl
is_under-append (x ∷ above) rest = ground (arith, is_under-append above rest)

-- Two prefixes of one path are comparable.
pub is_under-comparable :
    (a b path : FolderPath)
    → is_under a path ≡ true
    → is_under b path ≡ true
    → (is_under a b ≡ true) ⊎ (is_under b a ≡ true)
is_under-comparable [] b path ha hb = inl refl
is_under-comparable (x ∷ a) [] path ha hb = inr refl
is_under-comparable (x ∷ a) (y ∷ b) [] ha hb = cc
is_under-comparable (x ∷ a) (y ∷ b) (z ∷ path) ha hb =
    elim (is_under-comparable a b path (ground arith) (ground arith)) [
      | inl h ↦ inl (ground arith)
      | inr h ↦ inr (ground arith)
    ]

-- A path is empty or has a last label.
pub last_label-cases :
    (path : FolderPath) → (path ≡ []) ⊎ ((init : FolderPath) × (x : ℕ) × (path ≡ init ++ x ∷ []))
last_label-cases [] = inl refl
last_label-cases (x ∷ path) = elim (last_label-cases path) [
  | inl e ↦ inr ([], x, ap (λ l. x ∷ l) e)
  | inr (init, y, e) ↦ inr (x ∷ init, y, ap (λ l. x ∷ l) e)
]

pub last_label-injective :
    (xs ys : FolderPath) (x y : ℕ) → xs ++ x ∷ [] ≡ ys ++ y ∷ [] → (xs ≡ ys) × (x ≡ y)
last_label-injective [] [] x y e = (refl, cc)
last_label-injective [] (b ∷ []) x y e = cc
last_label-injective [] (b ∷ c ∷ ys) x y e = cc
last_label-injective (a ∷ []) [] x y e = cc
last_label-injective (a ∷ c ∷ xs) [] x y e = cc
last_label-injective (a ∷ xs) (b ∷ ys) x y e =
    let tails : xs ++ x ∷ [] ≡ ys ++ y ∷ [] = cc in
    let heads : a ≡ b = cc in let (q, r) = last_label-injective xs ys x y tails in (cc, r)

nothing_below : (old rest : FolderPath) → same_bytes (old ++ rest) old ≡ true → rest ≡ []
nothing_below [] [] h = refl
nothing_below [] (x ∷ rest) h = cc
nothing_below (x ∷ old) rest h = nothing_below old rest (ground arith)

-- A move replaces the prefix of a path and keeps what is below it.
pub shifted_path-append :
    (old new rest : FolderPath) → shifted_path old new (old ++ rest) ≡ new ++ rest
shifted_path-append old new rest = elim (Bool-cases (same_bytes (old ++ rest) old)) [
  | inl same ↦ let e = nothing_below old rest same in rw (same, e) (sym (append-nil new))
  | inr other ↦ rw (other, drop-append old rest) refl
]

pub is_under_self : (path : FolderPath) → is_under path path ≡ true
is_under_self [] = refl
is_under_self (x ∷ path) = ground (arith, is_under_self path)
