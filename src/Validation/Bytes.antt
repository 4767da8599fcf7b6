-- ===== src/Validation/Bytes.antt =====
-- Reading bytes as Go does: an index or a slice out of range panics. A file is its list of bytes.
use seta_im_intern.Prelude.{
  ℕ, ◌-◌, ◌≡◌, Bool, true, false, ◌&&◌, Option, none, some, List, [], ◌∷◌, leb, ◌==◌, if◌then◌else◌,
  length, take, drop, get_elem?, get_elem?-lt, refl, subst, arith, ◌<◌, Result, ok, err, ◌>>=◌,
  refuse_if,
}

-- The package's errors, and the two ends that a correct scan never has.
pub data ScanError : Type 0 where
  not_an_image type_mismatch dimensions_exceeded corrupt_container : ScanError
  trailing_content unsupported_feature panicked out_of_fuel : ScanError

abbrev pub is_defect : ScanError → Bool
is_defect panicked = true
is_defect out_of_fuel = true
is_defect _ = false

abbrev pub present_or_panic : {A : Type 0} → Option A → Result ScanError A
present_or_panic none = err panicked
present_or_panic (some a) = ok a

-- `data[i]`
abbrev pub byte_at : List ℕ → ℕ → Result ScanError ℕ
byte_at bytes i = present_or_panic (get_elem? bytes i)

-- `data[low:high]`
abbrev pub slice : List ℕ → ℕ → ℕ → Result ScanError (List ℕ)
slice bytes low high =
    if leb low high && leb high (length bytes)
    then ok (take (high - low) (drop low bytes))
    else err panicked

abbrev pub has_prefix : List ℕ → List ℕ → Bool
has_prefix bytes [] = true
has_prefix [] (p ∷ ps) = false
has_prefix (x ∷ xs) (p ∷ ps) = x == p && has_prefix xs ps

-- The result is a value that has `P`, or an error of the package.
pub data IsSafe {A : Type 0} (P : A → Type 0) : Result ScanError A → Type 0 where
  returns : (a : A) → P a → IsSafe P (ok a)
  refuses : (e : ScanError) → is_defect e ≡ false → IsSafe P (err e)

module _ {A B : Type 0} {P : A → Type 0} {Q : B → Type 0} where
  pub IsSafe-bind :
      (m : Result ScanError A) (f : A → Result ScanError B)
      → IsSafe P m
      → ((a : A) → P a → IsSafe Q (f a))
      → IsSafe Q (m >>= f)
  IsSafe-bind _ f (returns a h) k = k a h
  IsSafe-bind _ f (refuses e h) k = refuses e h

module _ {A : Type 0} {P : A → Type 0} where
  pub IsSafe-if :
      (b : Bool) (x y : Result ScanError A)
      → (b ≡ true → IsSafe P x)
      → (b ≡ false → IsSafe P y)
      → IsSafe P (if b then x else y)
  IsSafe-if true x y h k = h refl
  IsSafe-if false x y h k = k refl

  pub IsSafe-weaken :
      {Q : A → Type 0} {r : Result ScanError A} → IsSafe P r → ((a : A) → P a → Q a) → IsSafe Q r
  IsSafe-weaken (returns a h) k = returns a (k a h)
  IsSafe-weaken (refuses e h) k = refuses e h

  pub IsSafe-ok : {r : Result ScanError A} → IsSafe P r → (a : A) → r ≡ ok a → P a
  IsSafe-ok (returns b h) a e = let q : b ≡ a = ground arith in subst P q h
  IsSafe-ok (refuses x h) a e = ground arith

  pub IsSafe-err :
      {r : Result ScanError A} → IsSafe P r → (x : ScanError) → r ≡ err x → is_defect x ≡ false
  IsSafe-err (returns b h) x e = ground arith
  IsSafe-err (refuses y h) x e = let q : y ≡ x = ground arith in rw (← q) h

-- A guard that refuses with an error of the package.
pub IsSafe-refuse_if :
    (b : Bool) (e : ScanError) → is_defect e ≡ false → IsSafe (λ _. b ≡ false) (refuse_if b e)
IsSafe-refuse_if true e h = refuses e h
IsSafe-refuse_if false e h = returns tt refl

-- An index in range does not panic.
pub IsSafe-byte_at :
    (bytes : List ℕ) (i : ℕ)
    → i < length bytes
    → IsSafe (λ b. get_elem? bytes i ≡ some b) (byte_at bytes i)
IsSafe-byte_at bytes i h = let (b, e) = get_elem?-lt bytes i h in rw e (returns b refl)
