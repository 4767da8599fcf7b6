-- ===== src/Prelude/Members.antt =====
-- The members of a list, and what they keep under `map`.
use Prim.Native.Nat.{ℕ}
use mathlib.Core.Path.{◌≡◌, refl, sym, ap, subst, ◌∙◌}
use mathlib.Core.Logic.{◌⊎◌, inl, inr}
use mathlib.Core.Bool.{Bool, true, false}
use mathlib.Core.List.{List, [], ◌∷◌, map}
use native.Mathlib.Omega.{arith}
use seta_im_intern.Prelude.Lists.{any}
use seta_im_intern.Prelude.Keys.{has_key, AreDistinct}

abbrev pub IsAmong : {A : Type 0} → A → List A → Type 0
IsAmong a [] = ⊥
IsAmong a (x ∷ xs) = (x ≡ a) ⊎ IsAmong a xs

module _ {A B : Type 0} (f : A → B) where
  pub IsAmong-map : (a : A) (xs : List A) → IsAmong a xs → IsAmong (f a) (map f xs)
  IsAmong-map a [] h = h
  IsAmong-map a (x ∷ xs) (inl e) = inl (ap f e)
  IsAmong-map a (x ∷ xs) (inr h) = inr (IsAmong-map a xs h)

  -- A member of the image has an origin.
  pub IsAmong-map-origin :
      (b : B) (xs : List A) → IsAmong b (map f xs) → (a : A) × IsAmong a xs × (f a ≡ b)
  IsAmong-map-origin b [] h = elim h [ ]
  IsAmong-map-origin b (x ∷ xs) (inl e) = (x, inl refl, e)
  IsAmong-map-origin b (x ∷ xs) (inr h) =
      let (a, among, e) = IsAmong-map-origin b xs h in (a, inr among, e)

module _ {A : Type 0} where
  pub any-false :
      (p : A → Bool) (xs : List A) (a : A) → any p xs ≡ false → IsAmong a xs → p a ≡ false
  any-false p [] a none_has among = elim among [ ]
  any-false p (x ∷ xs) a none_has (inl e) = subst (λ x. p x ≡ false) e (ground arith)
  any-false p (x ∷ xs) a none_has (inr among) = any-false p xs a (ground arith) among

module _ {A : Type 0} (key : A → ℕ) where
  has_key-map : (xs : List A) (a : A) → IsAmong a xs → has_key (map key xs) (key a) ≡ true
  has_key-map [] a among = elim among [ ]
  has_key-map (x ∷ xs) a (inl e) =
      subst (λ y. has_key (map key (x ∷ xs)) (key y) ≡ true) e (ground arith)
  has_key-map (x ∷ xs) a (inr among) = ground (arith, has_key-map xs a among)

  -- Rows of a table with a primary key are the same where they have the same key.
  pub AreDistinct-unique :
      (xs : List A) (a b : A)
      → AreDistinct (map key xs)
      → IsAmong a xs
      → IsAmong b xs
      → key a ≡ key b
      → a ≡ b
  AreDistinct-unique [] a b d among other e = elim among [ ]
  AreDistinct-unique (x ∷ xs) a b d (inl ea) (inl eb) e = sym ea ∙ eb
  AreDistinct-unique (x ∷ xs) a b d (inl ea) (inr other) e =
      let q : key x ≡ key b = ap key ea ∙ e in
      let h = has_key-map xs b other in let h' = rw (sym q) at h in cc
  AreDistinct-unique (x ∷ xs) a b d (inr among) (inl eb) e =
      let q : key x ≡ key a = ap key eb ∙ sym e in
      let h = has_key-map xs a among in let h' = rw (sym q) at h in cc
  AreDistinct-unique (x ∷ xs) a b d (inr among) (inr other) e =
      AreDistinct-unique xs a b d.1 among other e
