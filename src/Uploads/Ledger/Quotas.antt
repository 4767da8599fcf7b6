-- ===== src/Uploads/Ledger/Quotas.antt =====
-- How the statements on organization_media_usage change what is reserved.
use seta_im_intern.Prelude.{
  ℕ, ◌+◌, ◌≡◌, refl, inl, inr, true, false, Option, none, some, arith, ◌==◌, if◌then◌else◌,
  Bool-cases, Option-cases, Table, change_if, AllRows, AllRows-put_row, AllRows-update_row, leb→le,
  is_some, keep_if, update_row, put_row, matches,
}
use seta_im_intern.Media.{Usage}
use seta_im_intern.Uploads.Quota.{has_room, present_or_new}
use seta_im_intern.Uploads.Ledger.{reserved_of, IsWithin}

module _ (usage : Table Usage) (org_id : ℕ) (f : Usage → Usage) (bytes : ℕ)
    (takes : (u : Usage)
      → usage org_id ≡ some u
      → (f u).reserved_raw_bytes + bytes ≡ u.reserved_raw_bytes)
    (nothing : usage org_id ≡ none → bytes ≡ 0) where
  reserved-change :
      (o : Option Usage)
      → usage org_id ≡ o
      → reserved_of (change_if (λ _. true) f o) + bytes ≡ reserved_of o
  reserved-change none e = omega (arith, nothing e)
  reserved-change (some u) e = takes u e

  pub reserved-update_row :
      (o : ℕ)
      → reserved_of (update_row usage org_id (λ _. true) f o) + (if org_id == o then bytes else 0)
        ≡ reserved_of (usage o)
  reserved-update_row o = elim (Bool-cases (org_id == o)) [
    | inl e ↦
        let q : org_id ≡ o = ground arith in rw e (rw (← q) (reserved-change (usage org_id) refl))
    | inr e ↦ rw e (omega arith)
  ]

IsWithin-present_or_new :
    (quota : ℕ) (o : Option Usage)
    → ((u : Usage) → o ≡ some u → IsWithin u)
    → IsWithin (present_or_new quota o)
IsWithin-present_or_new quota none h = omega arith
IsWithin-present_or_new quota (some u) h = h u refl

pub IsWithin-new :
    (usage : Table Usage) (org_id quota : ℕ)
    → AllRows IsWithin usage
    → AllRows IsWithin (put_row usage org_id (present_or_new quota (usage org_id)))
IsWithin-new usage org_id quota h =
    AllRows-put_row IsWithin usage org_id (present_or_new quota (usage org_id)) h
      (IsWithin-present_or_new quota (usage org_id) (h org_id))

pub reserved-new :
    (usage : Table Usage) (org_id quota o : ℕ)
    → reserved_of (put_row usage org_id (present_or_new quota (usage org_id)) o)
      ≡ reserved_of (usage o)
reserved-new usage org_id quota o = elim (Bool-cases (org_id == o)) [
  | inl e ↦
      let q : org_id ≡ o = ground arith in
      rw e (
        rw (← q)
          (elim (Option-cases (usage org_id)) [ inl n ↦ rw n refl | inr (u, n) ↦ rw n refl ]))
  | inr e ↦ rw e refl
]

-- What a reservation adds.
module _ (usage : Table Usage) (org_id bytes : ℕ) where
  reserved-change_if :
      (o : Option Usage)
      → is_some (keep_if (has_room bytes) o) ≡ true
      → reserved_of (
          change_if
            (has_room bytes)
            (λ u. record u { reserved_raw_bytes = u.reserved_raw_bytes + bytes })
            o)
        ≡ reserved_of o + bytes
  reserved-change_if none h = cc
  reserved-change_if (some u) h = elim (Bool-cases (has_room bytes u)) [
    | inl e ↦ rw e refl
    | inr e ↦ let bad : is_some (if false then some u else none) ≡ true = rw e at h in cc
  ]

  pub reserved-reserve :
      matches usage org_id (has_room bytes) ≡ true
      → (o : ℕ)
      → reserved_of (
          update_row usage org_id
            (has_room bytes)
            (λ u. record u { reserved_raw_bytes = u.reserved_raw_bytes + bytes })
            o)
        ≡ reserved_of (usage o) + (if org_id == o then bytes else 0)
  reserved-reserve h o = elim (Bool-cases (org_id == o)) [
    | inl e ↦
        let q : org_id ≡ o = ground arith in rw e (rw (← q) (reserved-change_if (usage org_id) h))
    | inr e ↦ rw e (omega arith)
  ]

  pub IsWithin-reserve :
      AllRows IsWithin usage
      → AllRows IsWithin (
          update_row usage org_id
            (has_room bytes)
            (λ u. record u { reserved_raw_bytes = u.reserved_raw_bytes + bytes }))
  IsWithin-reserve h =
      AllRows-update_row IsWithin usage org_id (has_room bytes) _ h
        (λ u e w room. let r = leb→le _ _ room in omega arith)
