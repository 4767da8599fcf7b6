-- ===== src/Prelude/Results.antt =====
-- Fallible code: a value or an error, and the same over a state that a failure rolls back.
use mathlib.Core.Path.{◌≡◌, refl, subst}
use native.Mathlib.Omega.{arith}
use mathlib.Core.Bool.{Bool, true, false}
use seta_im_intern.Prelude.Tests.{if◌then◌else◌}
use mathlib.Core.Logic.{◌⊎◌, inl, inr}

pub data Result (E A : Type 0) : Type 0 where
  ok : A → Result E A
  err : E → Result E A

module _ {E : Type 0} where
  infixl 5 ◌>>=◌ ◌>>◌
  abbrev pub ◌>>=◌ : {A B : Type 0} → Result E A → (A → Result E B) → Result E B
  err e >>= next = err e
  ok value >>= next = next value

  abbrev pub ◌>>◌ : {B : Type 0} → Result E (Unit {0}) → Result E B → Result E B
  first >> second = first >>= λ _. second

  -- `if failed { return err }`
  abbrev pub refuse_if : Bool → E → Result E (Unit {0})
  refuse_if true e = err e
  refuse_if false e = ok tt

module _ {E A : Type 0} where
  pub Result-cases : (r : Result E A) → ((a : A) × (r ≡ ok a)) ⊎ ((e : E) × (r ≡ err e))
  Result-cases (ok a) = inl (a, refl)
  Result-cases (err e) = inr (e, refl)

pub refuse_if-eq-ok :
    {E : Type 0} (b : Bool) (e : E) {u : Unit {0}} → refuse_if b e ≡ ok u → b ≡ false
refuse_if-eq-ok true e h = cc
refuse_if-eq-ok false e h = refl

pub ok-injective : {E A : Type 0} {a b : A} → ◌≡◌ {A = Result E A} (ok a) (ok b) → a ≡ b
ok-injective h = ground arith

module _ {E A B : Type 0} where
  pub >>=-eq-ok :
      (first : Result E A) (next : A → Result E B) {result : B}
      → (first >>= next) ≡ ok result
      → (value : A) × (first ≡ ok value) × (next value ≡ ok result)
  >>=-eq-ok (err _) next returned = ground arith
  >>=-eq-ok (ok value) next returned = (value, refl, returned)

-- What follows a test that refuses nothing.
pub refuse_if-then :
    {E A : Type 0} (b : Bool) (e : E) (rest : Result E A) {a : A}
    → (refuse_if b e >> rest) ≡ ok a
    → (b ≡ false) × (rest ≡ ok a)
refuse_if-then true e rest h = cc
refuse_if-then false e rest h = (refl, h)

-- A database transaction: the work returns the new state with its value, and an error leaves the
-- old state.
module _ {S E A : Type 0} where
  abbrev pub commit_or_roll_back : S → Result E (S × A) → S × Result E A
  commit_or_roll_back s (ok r) = (r.0, ok r.1)
  commit_or_roll_back s (err e) = (s, err e)

  abbrev pub transaction : (S → Result E (S × A)) → S → S × Result E A
  transaction work s = commit_or_roll_back s (work s)

module _ {S E A : Type 0} where
  -- A transaction that returns a value has committed its work.
  pub commit_or_roll_back-eq-ok :
      (s : S) (w : Result E (S × A)) {s' : S} {a : A}
      → commit_or_roll_back s w ≡ (s', ok a)
      → w ≡ ok (s', a)
  commit_or_roll_back-eq-ok s (ok r) h = ground arith
  commit_or_roll_back-eq-ok s (err e) h = ground arith

-- The state that the work commits, if it commits, has `P`; one rule for each way to build the work.
pub record Commits {ℓ} {S E A : Type 0} (P : S → Type ℓ) (w : Result E (S × A)) : Type ℓ where
  pub at : (s : S) (a : A) → w ≡ ok (s, a) → P s

module _ {ℓ} {S E A : Type 0} {P : S → Type ℓ} where
  pub Commits-ok : (s : S) (a : A) → P s → Commits {E = E} P (ok (s, a))
  Commits-ok s a h = record { at = λ t b e. let q : s ≡ t = ground arith in subst P q h }

  pub Commits-err : (e : E) → Commits {A = A} P (err e)
  Commits-err e = record { at = λ t b q. cc }

  pub Commits-if :
      (b : Bool) (x y : Result E (S × A))
      → (b ≡ true → Commits P x)
      → (b ≡ false → Commits P y)
      → Commits P (if b then x else y)
  Commits-if true x y hx hy = hx refl
  Commits-if false x y hx hy = hy refl

  -- A transaction keeps what its successful work keeps.
  pub transaction-P :
      (s : S) (w : Result E (S × A)) → P s → Commits P w → P (commit_or_roll_back s w).0
  transaction-P s (ok r) h c = c.at r.0 r.1 refl
  transaction-P s (err e) h c = h

module _ {ℓ} {S E A B : Type 0} {P : S → Type ℓ} where
  -- The rest of a block may use that the step before it returned.
  pub Commits-bind :
      (m : Result E B) (f : B → Result E (S × A))
      → ((b : B) → m ≡ ok b → Commits P (f b))
      → Commits P (m >>= f)
  Commits-bind (ok b) f h = h b refl
  Commits-bind (err e) f h = Commits-err e

pub ruleset commits_rules = (Commits-ok, Commits-err, Commits-if, Commits-bind)
