-- ===== src/Prelude/Keys.antt =====
-- Lists of keys without repetition.
use Prim.Native.Nat.{ℕ, suc, ◌≤◌}
use mathlib.Core.Path.{◌≡◌, refl}
use mathlib.Core.Logic.{◌≢◌}
use mathlib.Core.Bool.{Bool, true, false, ◌||◌}
use mathlib.Core.List.{List, [], ◌∷◌, ◌++◌}
use native.Mathlib.Omega.{arith}
use seta_im_intern.Prelude.Tests.{◌==◌, if◌then◌else◌}
use seta_im_intern.Prelude.Lists.{length}

abbrev pub has_key : List ℕ → ℕ → Bool
has_key [] k = false
has_key (x ∷ xs) k = x == k || has_key xs k

abbrev pub AreDistinct : List ℕ → Type 0
AreDistinct [] = Unit
AreDistinct (x ∷ xs) = (has_key xs x ≡ false) × AreDistinct xs

pub has_key-append :
    (xs ys : List ℕ) (k : ℕ) → has_key (xs ++ ys) k ≡ (has_key xs k || has_key ys k)
has_key-append [] ys k = refl
has_key-append (x ∷ xs) ys k = ground (arith, has_key-append xs ys k)

-- Two lists without repetition that share no key.
pub AreDistinct-append :
    (xs ys : List ℕ)
    → AreDistinct xs
    → AreDistinct ys
    → ((k : ℕ) → has_key xs k ≡ true → has_key ys k ≡ false)
    → AreDistinct (xs ++ ys)
AreDistinct-append [] ys dx dy apart = dy
AreDistinct-append (x ∷ xs) ys dx dy apart = (
  ground (arith, has_key-append xs ys x, apart x),
  AreDistinct-append xs ys dx.1 dy (λ k h. apart k (ground arith)),
)

pub AreDistinct-left :
    (xs : List ℕ) (y : ℕ) (ys : List ℕ) → AreDistinct (xs ++ y ∷ ys) → has_key xs y ≡ false
AreDistinct-left [] y ys d = refl
AreDistinct-left (x ∷ xs) y ys d =
    ground (arith, has_key-append xs (y ∷ ys) x, AreDistinct-left xs y ys d.1)

-- The list without the first occurrence of a key.
abbrev remove : ℕ → List ℕ → List ℕ
remove k [] = []
remove k (x ∷ xs) = if x == k then xs else x ∷ remove k xs

length-remove : (k : ℕ) (xs : List ℕ) → has_key xs k ≡ true → length xs ≡ suc (length (remove k xs))
length-remove k [] h = cc
length-remove k (x ∷ xs) h = ground (arith, length-remove k xs)

has_key-remove :
    (k j : ℕ) (xs : List ℕ) → k ≢ j → has_key xs j ≡ true → has_key (remove k xs) j ≡ true
has_key-remove k j [] apart h = cc
has_key-remove k j (x ∷ xs) apart h = ground (arith, has_key-remove k j xs apart)

has_key-ne : (x k : ℕ) (xs : List ℕ) → has_key xs x ≡ false → has_key xs k ≡ true → x ≢ k
has_key-ne x k xs absent here e = let h = rw e at absent in cc

-- Distinct keys that all occur in a list are no more than the list is long.
pub length-le_of_distinct :
    (xs ys : List ℕ)
    → AreDistinct xs
    → ((k : ℕ) → has_key xs k ≡ true → has_key ys k ≡ true)
    → length xs ≤ length ys
length-le_of_distinct [] ys d sub = omega arith
length-le_of_distinct (x ∷ xs) ys d sub =
    let here : has_key ys x ≡ true = sub x (ground arith) in
    omega (
      arith,
      length-remove x ys here,
      length-le_of_distinct xs (remove x ys) d.1
          (λ k h. has_key-remove x k ys (has_key-ne x k xs d.0 h) (sub k (ground arith))),
    )
