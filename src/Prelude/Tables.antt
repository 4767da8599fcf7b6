-- ===== src/Prelude/Tables.antt =====
-- Tables that are read and written by their primary key, as functions from keys to rows: one
-- definition for each shape of SQL statement that the repositories use on them.
use Prim.Native.Nat.{ℕ}
use mathlib.Core.Bool.{Bool, true, false, ◌&&◌}
use mathlib.Core.Path.{◌≡◌, refl, subst}
use mathlib.Core.Logic.{inl, inr}
use mathlib.Core.Option.{Option, none, some}
use native.Mathlib.Omega.{arith}
use seta_im_intern.Prelude.Tests.{◌==◌, Bool-cases, if◌then◌else◌}

abbrev pub Table : Type 0 → Type 0
Table R = ℕ → Option R

module _ {R : Type 0} where
  abbrev pub no_rows : Table R
  no_rows k = none

  -- INSERT of a row under a key.
  abbrev pub put_row : Table R → ℕ → R → Table R
  put_row t k r j = if k == j then some r else t j

  abbrev pub keep_if : (R → Bool) → Option R → Option R
  keep_if p none = none
  keep_if p (some r) = if p r then some r else none

  -- SELECT … WHERE id = k AND p.
  abbrev pub select_row : Table R → ℕ → (R → Bool) → Option R
  select_row t k p = keep_if p (t k)

  abbrev pub change_if : (R → Bool) → (R → R) → Option R → Option R
  change_if p f none = none
  change_if p f (some r) = some (if p r then f r else r)

  -- UPDATE … SET f WHERE id = k AND p.
  abbrev pub update_row : Table R → ℕ → (R → Bool) → (R → R) → Table R
  update_row t k p f j = if k == j then change_if p f (t j) else t j

  abbrev pub is_some : Option R → Bool
  is_some none = false
  is_some (some r) = true

  -- Whether such a statement has a row to work on, RowsAffected == 1.
  abbrev pub matches : Table R → ℕ → (R → Bool) → Bool
  matches t k p = is_some (select_row t k p)

-- A nullable column compared with a value; NULL equals nothing.
abbrev pub is_value : Option ℕ → ℕ → Bool
is_value none v = false
is_value (some x) v = x == v

abbrev pub is_null : Option ℕ → Bool
is_null none = true
is_null (some x) = false

-- `P` holds of every row.
abbrev pub AllRows {ℓ} : {R : Type 0} → (R → Type ℓ) → Table R → Type ℓ
AllRows {R} P t = (k : ℕ) (r : R) → t k ≡ some r → P r

module _ {ℓ} {R : Type 0} (P : R → Type ℓ) where
  change_if-P :
      (p : R → Bool) (f : R → R) (o : Option R)
      → ((s : R) → o ≡ some s → P s)
      → ((s : R) → o ≡ some s → P s → p s ≡ true → P (f s))
      → (r : R) → change_if p f o ≡ some r
      → P r
  change_if-P p f none h step r e = cc
  change_if-P p f (some s) h step r e = elim (Bool-cases (p s)) [
    | inl hit ↦ let q : f s ≡ r = ground arith in subst P q (step s refl (h s refl) hit)
    | inr miss ↦ let q : s ≡ r = ground arith in subst P q (h s refl)
  ]

  -- An UPDATE keeps what it keeps of the row that its WHERE clause selects.
  pub AllRows-update_row :
      (t : Table R) (k : ℕ) (p : R → Bool) (f : R → R)
      → AllRows P t
      → ((r : R) → t k ≡ some r → P r → p r ≡ true → P (f r))
      → AllRows P (update_row t k p f)
  AllRows-update_row t k p f h step j r e = elim (Bool-cases (k == j)) [
    | inl same ↦
        let q : k ≡ j = ground arith in
        change_if-P p f (t j) (h j) (λ s es. step s (rw q es)) r (rw same at e)
    | inr other ↦ h j r (rw other at e)
  ]

  -- An INSERT keeps what its row has.
  pub AllRows-put_row :
      (t : Table R) (k : ℕ) (r : R) → AllRows P t → P r → AllRows P (put_row t k r)
  AllRows-put_row t k r h new j s e = elim (Bool-cases (k == j)) [
    | inl same ↦ let q : r ≡ s = ground arith in subst P q new
    | inr other ↦ h j s (rw other at e)
  ]

module _ {R : Type 0} where
  -- What SELECT returns is the row under the key, and satisfies the WHERE clause.
  pub select_row-eq-some :
      (t : Table R) (k : ℕ) (p : R → Bool) {r : R}
      → select_row t k p ≡ some r
      → (t k ≡ some r) × (p r ≡ true)
  select_row-eq-some t k p h = ground arith

  -- The row under a key after an UPDATE.
  pub update_row-eq-some :
      (t : Table R) (k j : ℕ) (p : R → Bool) (f : R → R) {r : R}
      → t j ≡ some r
      → update_row t k p f j ≡ some (if (k == j) && p r then f r else r)
  update_row-eq-some t k j p f {r} h = elim (Bool-cases (k == j)) [
    | inl e ↦ rw (e, h) refl
    | inr e ↦ rw (e, h) refl
  ]

  -- An UPDATE deletes no row.
  pub update_row-some :
      (t : Table R) (k j : ℕ) (p : R → Bool) (f : R → R) {r : R}
      → t j ≡ some r
      → (r' : R) × (update_row t k p f j ≡ some r')
  update_row-some t k j p f {r} h =
      ((if (k == j) && p r then f r else r), update_row-eq-some t k j p f h)
