-- ===== src/Uploads/Ledger/Sums.antt =====
-- How the statements on media_upload_sessions change the open sessions' sizes and numbers.
use seta_im_intern.Prelude.{
  ℕ, suc, ◌+◌, ◌≤◌, ◌≡◌, refl, subst, ap, inl, inr, Bool, true, false, ◌||◌, some, List, [], ◌∷◌,
  ◌++◌, arith, ◌==◌, if◌then◌else◌, Bool-cases, All,
}
use seta_im_intern.Media.{Session, is_created}
use seta_im_intern.Uploads.Rows.{find_session, update_sessions, count_sessions, is_open_for}
use seta_im_intern.Uploads.Quota.{reclaimed_bytes}
use seta_im_intern.Uploads.Sessions.{is_open_on, violates_unique}
use seta_im_intern.Uploads.Ledger.{has_id, AreDistinct, open_size, open_bytes}

-- What a session that a statement closes or touches keeps.
pub record Keeps (f : Session → Session) : Type 0 where
  pub id : (s : Session) → (f s).id ≡ s.id
  pub asset : (s : Session) → (f s).asset_id ≡ s.asset_id
  pub never_opens : (s : Session) → is_created s.state ≡ false → is_created (f s).state ≡ false

opens_no_more :
    (b c : Bool) (m n : ℕ)
    → m ≤ n
    → (c ≡ false → b ≡ false)
    → (if b then suc m else m) ≤ (if c then suc n else n)
opens_no_more b true m n h imp = ground arith
opens_no_more b false m n h imp = rw (imp refl) h

module _ (p : Session → Bool) (f : Session → Session) (k : Keeps f) where
  pub has_id-update :
      (id : ℕ) (ss : List Session) → has_id id (update_sessions p f ss) ≡ has_id id ss
  has_id-update id [] = refl
  has_id-update id (s ∷ ss) = elim (Bool-cases (p s)) [
    | inl e ↦ rw (e, k.id s, has_id-update id ss) refl
    | inr e ↦ rw (e, has_id-update id ss) refl
  ]

  pub AreDistinct-update :
      (ss : List Session) → AreDistinct ss → AreDistinct (update_sessions p f ss)
  AreDistinct-update [] d = d
  AreDistinct-update (s ∷ ss) (fresh, d) = elim (Bool-cases (p s)) [
    | inl e ↦ rw (e, k.id s, has_id-update s.id ss) (fresh, AreDistinct-update ss d)
    | inr e ↦ rw (e, has_id-update s.id ss) (fresh, AreDistinct-update ss d)
  ]

  -- A session that was not open on an asset is not after the statement.
  is_open_on-touched :
      (a : ℕ) (s : Session) → is_open_on a s ≡ false → is_open_on a (if p s then f s else s) ≡ false
  is_open_on-touched a s h = elim (Bool-cases (p s)) [
    | inl e ↦ let closed = k.never_opens s in rw (e, k.asset s) (ground arith)
    | inr e ↦ rw e h
  ]

  pub count-update :
      (a : ℕ) (ss : List Session)
      → count_sessions (is_open_on a) (update_sessions p f ss) ≤ count_sessions (is_open_on a) ss
  count-update a [] = omega arith
  count-update a (s ∷ ss) =
      opens_no_more (is_open_on a (if p s then f s else s)) (is_open_on a s) _ _ (count-update a ss)
        (is_open_on-touched a s)

sums_step :
    (b c : Bool) (a rest e r x y : ℕ)
    → a + (if b then (if c then e else 0) else 0) ≡ x
    → rest + (if b then r else 0) ≡ y
    → a + rest + (if b then (if c then e + r else r) else 0) ≡ x + y
sums_step true true a rest e r x y h k = omega arith
sums_step true false a rest e r x y h k = omega arith
sums_step false c a rest e r x y h k = omega arith

-- Closing: no session that the statement selects stays open.
module _ (p : Session → Bool) (f : Session → Session) (org_id : ℕ)
    (closes : (s : Session) → is_created (f s).state ≡ false) where
  -- What the statement selects is open, and the organization's.
  abbrev pub IsOpened : Session → Type 0
  IsOpened s = p s ≡ true → (s.org_id ≡ org_id) × (is_created s.state ≡ true)

  closed_size :
      (o : ℕ) (s : Session)
      → IsOpened s
      → open_size o (if p s then f s else s)
          + (if org_id == o then (if p s then s.expected_size_bytes else 0) else 0)
        ≡ open_size o s
  closed_size o s opened = elim (Bool-cases (p s)) [
    | inl e ↦ let c = closes s in let (q, m) = opened e in rw (e, c) (ground arith)
    | inr e ↦ rw e (ground arith)
  ]

  pub open_bytes-close :
      (o : ℕ) (ss : List Session)
      → All IsOpened ss
      → open_bytes o (update_sessions p f ss) + (if org_id == o then reclaimed_bytes p ss else 0)
        ≡ open_bytes o ss
  open_bytes-close o [] h = ground arith
  open_bytes-close o (s ∷ ss) (h, hs) =
      sums_step (org_id == o) (p s) _ _ s.expected_size_bytes (reclaimed_bytes p ss) _ _
        (closed_size o s h) (open_bytes-close o ss hs)

-- A statement that changes neither the organization, the state nor the size.
module _ (p : Session → Bool) (f : Session → Session)
    (same : (o : ℕ) (s : Session) → open_size o (f s) ≡ open_size o s) where
  pub open_bytes-touch :
      (o : ℕ) (ss : List Session) → open_bytes o (update_sessions p f ss) ≡ open_bytes o ss
  open_bytes-touch o [] = refl
  open_bytes-touch o (s ∷ ss) = elim (Bool-cases (p s)) [
    | inl e ↦ rw (e, same o s, open_bytes-touch o ss) refl
    | inr e ↦ rw (e, open_bytes-touch o ss) refl
  ]

-- The session that is found under an identifier is the only one.
none_open_for :
    (id : ℕ) (ss : List Session) → has_id id ss ≡ false → reclaimed_bytes (is_open_for id) ss ≡ 0
none_open_for id [] h = refl
none_open_for id (s ∷ ss) h = let ih = none_open_for id ss (ground arith) in ground arith

has_id-find :
    (p : Session → Bool) (ss : List Session) (s : Session)
    → find_session p ss ≡ some s
    → has_id s.id ss ≡ true
has_id-find p [] s h = cc
has_id-find p (x ∷ xs) s h = elim (Bool-cases (p x)) [
  | inl e ↦ let q : x ≡ s = ground arith in ground arith
  | inr e ↦ let ih = has_id-find p xs s (ground arith) in ground arith
]

pub find_session-eq-some :
    (p : Session → Bool) (ss : List Session) (s : Session) → find_session p ss ≡ some s → p s ≡ true
find_session-eq-some p [] s h = cc
find_session-eq-some p (x ∷ xs) s h = elim (Bool-cases (p x)) [
  | inl e ↦ let q : x ≡ s = ground arith in rw (← q) e
  | inr e ↦ find_session-eq-some p xs s (ground arith)
]

pub reclaimed-is_open_for :
    (p : Session → Bool) (ss : List Session) (s : Session)
    → AreDistinct ss
    → find_session p ss ≡ some s
    → is_created s.state ≡ true
    → reclaimed_bytes (is_open_for s.id) ss ≡ s.expected_size_bytes
reclaimed-is_open_for p [] s d h c = cc
reclaimed-is_open_for p (x ∷ xs) s (fresh, d) h c = elim (Bool-cases (p x)) [
  | inl e ↦
      let q : x ≡ s = ground arith in
      let z = none_open_for s.id xs (subst (λ (y : Session). has_id y.id xs ≡ false) q fresh) in
      let here : is_open_for s.id x ≡ true = rw q (ground arith) in
      rw (here, z) (rw q (omega arith))
  | inr e ↦
      let there : find_session p xs ≡ some s = ground arith in
      let ih = reclaimed-is_open_for p xs s d there c in
      let has = has_id-find p xs s there in
      elim (Bool-cases (x.id == s.id)) [
        | inl same ↦ let r : x.id ≡ s.id = ground arith in cc
        | inr other ↦ rw other ih
      ]
]

opened-fresh :
    (id org_id : ℕ) (ss : List Session)
    → has_id id ss ≡ false
    → All (λ x. is_open_for id x ≡ true → (x.org_id ≡ org_id) × (is_created x.state ≡ true)) ss
opened-fresh id org_id [] h = tt
opened-fresh id org_id (x ∷ xs) h =
    ((λ mine. ground arith), opened-fresh id org_id xs (ground arith))

-- `SET state WHERE id = ? AND state = 'created'` selects the session that was found, and no other.
pub opened-is_open_for :
    (p : Session → Bool) (ss : List Session) (s : Session)
    → AreDistinct ss
    → find_session p ss ≡ some s
    → All (λ x. is_open_for s.id x ≡ true → (x.org_id ≡ s.org_id) × (is_created x.state ≡ true)) ss
opened-is_open_for p [] s d h = tt
opened-is_open_for p (x ∷ xs) s (fresh, d) h = elim (Bool-cases (p x)) [
  | inl e ↦
      let q : x ≡ s = ground arith in
      let none' = subst (λ (y : Session). has_id y.id xs ≡ false) q fresh in
      ((λ mine. (ap (λ y. y.org_id) q, ground arith)), opened-fresh s.id s.org_id xs none')
  | inr e ↦
      let there : find_session p xs ≡ some s = ground arith in
      let has = has_id-find p xs s there in
      ((λ mine. let same : x.id ≡ s.id = ground arith in cc), opened-is_open_for p xs s d there)
]

-- INSERT of a session under an identifier that no session has.
module _ (new : Session) where
  has_id-insert :
      (id : ℕ) (ss : List Session) → has_id id (ss ++ new ∷ []) ≡ (has_id id ss || new.id == id)
  has_id-insert id [] = ground arith
  has_id-insert id (s ∷ ss) = rw (has_id-insert id ss) (ground arith)

  pub AreDistinct-insert :
      (ss : List Session) → AreDistinct ss → has_id new.id ss ≡ false → AreDistinct (ss ++ new ∷ [])
  AreDistinct-insert [] d h = (refl, tt)
  AreDistinct-insert (s ∷ ss) (fresh, d) h =
      (rw (has_id-insert s.id ss, fresh) (ground arith), AreDistinct-insert ss d (ground arith))

  pub open_bytes-insert :
      (o : ℕ) (ss : List Session)
      → open_bytes o (ss ++ new ∷ []) ≡ open_bytes o ss + open_size o new
  open_bytes-insert o [] = omega arith
  open_bytes-insert o (s ∷ ss) = rw (open_bytes-insert o ss) (omega arith)

  pub count-insert :
      (q : Session → Bool) (ss : List Session)
      → count_sessions q (ss ++ new ∷ [])
        ≡ (if q new then suc (count_sessions q ss) else count_sessions q ss)
  count-insert q [] = refl
  count-insert q (s ∷ ss) = let ih = count-insert q ss in rw ih (ground arith)

pub has_id-violates :
    (new : Session) (ss : List Session) → violates_unique new ss ≡ false → has_id new.id ss ≡ false
has_id-violates new [] h = refl
has_id-violates new (s ∷ ss) h = ground (arith, has_id-violates new ss)

-- The session that a scope selects after an UPDATE that selects it too.
pub find-update :
    (p q : Session → Bool) (f : Session → Session) (same : (x : Session) → p (f x) ≡ p x)
    (ss : List Session) (s : Session)
    → find_session p ss ≡ some s
    → q s ≡ true
    → find_session p (update_sessions q f ss) ≡ some (f s)
find-update p q f same [] s h hit = cc
find-update p q f same (x ∷ xs) s h hit = elim (Bool-cases (p x)) [
  | inl e ↦
      let e' : x ≡ s = ground arith in
      rw (e', hit, same s) (let m : p s ≡ true = rw (← e') e in rw m refl)
  | inr e ↦
      let ih = find-update p q f same xs s (ground arith) hit in
      elim (Bool-cases (q x)) [
        | inl m ↦ let miss : p (f x) ≡ false = rw (← e) (same x) in rw (m, miss) ih
        | inr m ↦ rw (m, e) ih
      ]
]
