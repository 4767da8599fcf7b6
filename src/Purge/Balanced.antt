-- ===== src/Purge/Balanced.antt =====
-- The sweep keeps the quota's ledger balanced.
use seta_im_intern.Prelude.{
  ℕ, suc, ◌-◌, ◌≡◌, refl, subst, inl, inr, Bool, true, false, List, [], ◌∷◌, map, any, ◌==◌, arith,
  Bool-cases, All, All-take, All-filter, All-sort_by, Result, ok, err, Commits-ok, Commits-if,
  Commits-bind, commit_or_roll_back, Commits,
}
use seta_im_intern.Media.{Db, Session, is_created}
use seta_im_intern.Uploads.Rows.{UploadError, update_sessions}
use seta_im_intern.Uploads.Quota.{reclaimed_bytes, expired_session}
use seta_im_intern.Uploads.Ledger.{has_id, AreDistinct, IsBalanced}
use seta_im_intern.Uploads.Ledger.Sums.{Keeps, AreDistinct-update, count-update, open_bytes-touch}
use seta_im_intern.Uploads.Ledger.Closings.{IsLedger-close}
use seta_im_intern.Purge.Expire.{
  ExpirableUploadSession, expirable_of, is_abandoned, is_candidate, is_listed_first, list_expirable,
  touched_session, usage_row, expire_work, expire_candidate, defer_expiry_candidate,
  expired_or_deferred, expire_candidates, expire_upload_sessions,
}

-- The sessions under a candidate's identifier have its size.
abbrev Fits : List Session → ExpirableUploadSession → Type 0
Fits sessions c =
    All (λ s. (s.id == c.upload_id) ≡ true → s.expected_size_bytes ≡ c.expected_size_bytes) sessions

-- What an UPDATE of the sweep keeps.
record Stays (f : Session → Session) : Type 0 where
  same_id : (s : Session) → (f s).id ≡ s.id
  same_size : (s : Session) → (f s).expected_size_bytes ≡ s.expected_size_bytes

Fits-update :
    (p : Session → Bool) (f : Session → Session)
    → Stays f
    → (sessions : List Session) (c : ExpirableUploadSession) → Fits sessions c
    → Fits (update_sessions p f sessions) c
Fits-update p f stays [] c fits = tt
Fits-update p f stays (s ∷ ss) c (here, fits) = elim (Bool-cases (p s)) [
  | inl hit ↦ rw (hit, stays.same_id s, stays.same_size s) (here, Fits-update p f stays ss c fits)
  | inr miss ↦ rw miss (here, Fits-update p f stays ss c fits)
]

nothing_claimed :
    (now : ℕ) (c : ExpirableUploadSession) (ss : List Session)
    → has_id c.upload_id ss ≡ false
    → (any (is_candidate now c) ss ≡ false) × (reclaimed_bytes (is_candidate now c) ss ≡ 0)
nothing_claimed now c [] fresh = (refl, refl)
nothing_claimed now c (s ∷ ss) fresh =
    let h = nothing_claimed now c ss (ground arith) in
    let other : (s.id == c.upload_id) ≡ false = ground arith in (rw other h.0, rw other h.1)

-- What the transition closes is the candidate's size.
reclaimed_candidate :
    (now : ℕ) (c : ExpirableUploadSession) (ss : List Session)
    → AreDistinct ss
    → Fits ss c
    → any (is_candidate now c) ss ≡ true
    → reclaimed_bytes (is_candidate now c) ss ≡ c.expected_size_bytes
reclaimed_candidate now c [] d fits found = cc
reclaimed_candidate now c (s ∷ ss) (fresh, d) (here, fits) found =
    elim (Bool-cases (is_candidate now c s)) [
      | inl hit ↦
          let same : (s.id == c.upload_id) ≡ true = ground arith in
          let q : s.id ≡ c.upload_id = ground arith in
          let h = nothing_claimed now c ss (subst (λ i. has_id i ss ≡ false) q fresh) in
          rw (hit, h.1) (omega (arith, here same))
      | inr miss ↦ rw miss (reclaimed_candidate now c ss d fits (rw miss at found))
    ]

opened_candidate :
    (now : ℕ) (c : ExpirableUploadSession) (ss : List Session)
    → All
        (λ s. is_candidate now c s ≡ true → (s.org_id ≡ c.org_id) × (is_created s.state ≡ true))
        ss
opened_candidate now c [] = tt
opened_candidate now c (s ∷ ss) = ((λ h. (ground arith, ground arith)), opened_candidate now c ss)

-- The candidates that are left fit the sessions of a balanced database.
record IsSweepable (candidates : List ExpirableUploadSession) (db : Db) : Type 0 where
  balanced : IsBalanced db
  fits : All (Fits db.sessions) candidates

All-Fits-update :
    (p : Session → Bool) (f : Session → Session)
    → Stays f
    → (sessions : List Session) (cs : List ExpirableUploadSession) → All (Fits sessions) cs
    → All (Fits (update_sessions p f sessions)) cs
All-Fits-update p f stays sessions [] h = tt
All-Fits-update p f stays sessions (c ∷ cs) (h, hs) =
    (Fits-update p f stays sessions c h, All-Fits-update p f stays sessions cs hs)

module _ (now : ℕ) (c : ExpirableUploadSession) (cs : List ExpirableUploadSession) (db : Db)
    (sweepable : IsSweepable (c ∷ cs) db) where
  IsSweepable-expire_work : Commits (IsSweepable cs) (expire_work now c db)
  unfolding expire_work
  IsSweepable-expire_work =
      let p = is_candidate now c in
      let f = expired_session now in
      let fits = sweepable.fits in
      Commits-bind (usage_row (db.usage c.org_id)) _ (λ usage read.
        Commits-if (any p db.sessions) _ _
          (λ found. Commits-ok _ true (record {
            balanced =
                IsLedger-close p f
                  (record { id = λ s. refl; asset = λ s. refl; never_opens = λ s h. refl }) c.org_id
                  (λ s. refl) db.usage db.sessions sweepable.balanced
                  (opened_candidate now c db.sessions)
                  (λ u. record u {
                    reserved_raw_bytes = u.reserved_raw_bytes - c.expected_size_bytes;
                  })
                  c.expected_size_bytes
                  (reclaimed_candidate now c db.sessions sweepable.balanced.distinct fits.0 found)
                  (λ u enough. (omega (arith, enough), λ w. omega (arith, w)));
            fits =
                All-Fits-update p f (record { same_id = λ s. refl; same_size = λ s. refl })
                  db.sessions cs fits.1;
          }))
          (λ none_found.
            Commits-ok db false (record { balanced = sweepable.balanced; fits = fits.1 })))

  IsSweepable-defer : (now' : ℕ) → IsSweepable cs (defer_expiry_candidate now' c db)
  unfolding defer_expiry_candidate
  IsSweepable-defer now' =
      let p = is_candidate now' c in
      let f = touched_session now' in
      let b = sweepable.balanced in
      let keeps : Keeps f = record { id = λ _. refl; asset = λ _. refl; never_opens = λ s h. h } in
      record {
        balanced = record {
          distinct = AreDistinct-update p f keeps db.sessions b.distinct;
          one_open = λ a. omega (arith, count-update p f keeps a db.sessions, b.one_open a);
          reserved = λ o. rw (open_bytes-touch p f (λ o' s. refl) o db.sessions) (b.reserved o);
          within = b.within;
        };
        fits =
            All-Fits-update p f (record { same_id = λ s. refl; same_size = λ s. refl }) db.sessions
              cs sweepable.fits.1;
      }

  settled :
      (now' : ℕ) (w : Result UploadError (Db × Bool))
      → Commits (IsSweepable cs) w
      → IsSweepable cs (expired_or_deferred now' c (commit_or_roll_back db w)).0
  settled now' (ok (d, true)) h = h.at d true refl
  settled now' (ok (d, false)) h = h.at d false refl
  settled now' (err e) h = IsSweepable-defer now'

IsBalanced-expire_candidates :
    (at : ℕ → ℕ → ℕ) (i : ℕ) (cs : List ExpirableUploadSession) (db : Db)
    → IsSweepable cs db
    → IsBalanced (expire_candidates at i cs db).0
unfolding expire_candidates expire_candidate
IsBalanced-expire_candidates at i [] db h = h.balanced
IsBalanced-expire_candidates at i (c ∷ cs) db h = IsBalanced-expire_candidates at (suc i) cs _ (
    settled (at i 0) c cs db h (at i 1) (expire_work (at i 0) c db)
      (IsSweepable-expire_work (at i 0) c cs db h))

Fits-fresh :
    (ss : List Session) (c : ExpirableUploadSession) → has_id c.upload_id ss ≡ false → Fits ss c
Fits-fresh [] c fresh = tt
Fits-fresh (s ∷ ss) c fresh = ((λ same. ground arith), Fits-fresh ss c (ground arith))

Fits-later :
    (s : Session) (ss cs : List Session)
    → has_id s.id cs ≡ false
    → All (λ x. Fits ss (expirable_of x)) cs
    → All (λ x. Fits (s ∷ ss) (expirable_of x)) cs
Fits-later s ss [] fresh h = tt
Fits-later s ss (x ∷ xs) fresh (h, hs) =
    (((λ same. ground arith), h), Fits-later s ss xs (ground arith) hs)

Fits-self : (ss : List Session) → AreDistinct ss → All (λ s. Fits ss (expirable_of s)) ss
Fits-self [] d = tt
Fits-self (s ∷ ss) (fresh, d) = (
  ((λ same. refl), Fits-fresh ss (expirable_of s) fresh),
  Fits-later s ss ss fresh (Fits-self ss d),
)

Fits-mapped :
    (ss xs : List Session)
    → All (λ s. Fits ss (expirable_of s)) xs
    → All (Fits ss) (map expirable_of xs)
Fits-mapped ss [] h = tt
Fits-mapped ss (x ∷ xs) (h, hs) = (h, Fits-mapped ss xs hs)

-- A sweep over expired sessions keeps the ledger balanced.
pub IsBalanced-expire_upload_sessions :
    (now : ℕ) (at : ℕ → ℕ → ℕ) (limit : ℕ) (db : Db)
    → IsBalanced db
    → IsBalanced (expire_upload_sessions now at limit db).0
unfolding expire_upload_sessions list_expirable
IsBalanced-expire_upload_sessions now at limit db b = elim (Bool-cases (limit == 0)) [
  | inl nothing ↦ rw nothing b
  | inr listed ↦
      let P = λ (s : Session). Fits db.sessions (expirable_of s) in
      rw listed (
        IsBalanced-expire_candidates at 0 _ db (record {
          balanced = b;
          fits = Fits-mapped db.sessions _ (
              All-take P limit _ (
                All-sort_by P is_listed_first _ (
                  All-filter P (is_abandoned now) db.sessions (Fits-self db.sessions b.distinct))));
        }))
]
