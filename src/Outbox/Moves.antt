-- ===== src/Outbox/Moves.antt =====
-- The outbox rows as state machines under the store's three statements.
use seta_im_intern.Prelude.{
  ℕ, get_elem?, ap, ◌∙◌, ◌⊎◌, All, take, zero, suc, subst, ◌+◌, ◌≡◌, ◌≢◌, refl, Bool, Bool-cases,
  true, false, not, some, List, [], ◌∷◌, inl, inr, arith, map, filter, ◌&&◌, ◌==◌,
}
use seta_im_intern.Media.{Db, OutboxRow, published, is_live}
use seta_im_intern.Relay.Drain.{Lease}
use seta_im_intern.Outbox.Store.{
  OutboxStore, is_due, is_among, selected, leased_row, update_if, is_leased_by, is_settled_by,
  has_id, order_rows, insert_ordered, is_before, published_row, rescheduled_row, claim_outbox,
  mark_outbox_published, reschedule_outbox,
}

-- A due row is leased for the store's time; the holder of a live lease publishes it, or returns it
-- with a time for the next attempt.
pub data RowMove (store : OutboxStore) (now : ℕ) (row row' : OutboxRow) : Type 0 where
  stays : row' ≡ row → RowMove store now row row'
  leases :
      (owner : ℕ)
      → owner ≢ 0
      → is_due now row ≡ true
      → row' ≡ leased_row owner (now + store.lease_ttl) row
      → RowMove store now row row'
  publishes :
      (lease : Lease) (at : ℕ)
      → is_leased_by lease now row ≡ true
      → row' ≡ published_row at row
      → RowMove store now row row'
  reschedules :
      (lease : Lease) (due count code : ℕ)
      → is_leased_by lease now row ≡ true
      → row' ≡ rescheduled_row due count code row
      → RowMove store now row row'

-- The rows stay in their places, and each moves.
pub data Moves (store : OutboxStore) (now : ℕ) : List OutboxRow → List OutboxRow → Type 0 where
  ends : Moves store now [] []
  moves :
      {row row' : OutboxRow} {rows rows' : List OutboxRow}
      → RowMove store now row row'
      → Moves store now rows rows'
      → Moves store now (row ∷ rows) (row' ∷ rows')

-- The identifier is a key: rows with the same one are the same row.
abbrev pub IsKeyed : List OutboxRow → Type 0
IsKeyed rows = All (λ a. All (λ c. c.id ≡ a.id → c ≡ a) rows) rows

module _ (P : OutboxRow → Type 0) where
  All-filter :
      (q : OutboxRow → Bool) (rows : List OutboxRow)
      → All P rows
      → All (λ r. P r × (q r ≡ true)) (filter q rows)
  All-filter q [] h = tt
  All-filter q (row ∷ rows) h = elim (Bool-cases (q row)) [
    | inl kept ↦ rw kept ((h.0, kept), All-filter q rows h.1)
    | inr left ↦ rw left (All-filter q rows h.1)
  ]

  All-insert_ordered :
      (row : OutboxRow) (rows : List OutboxRow)
      → P row
      → All P rows
      → All P (insert_ordered row rows)
  All-insert_ordered row [] p h = (p, tt)
  All-insert_ordered row (first ∷ rest) p h = elim (Bool-cases (is_before row first)) [
    | inl before ↦ rw before (p, h)
    | inr after ↦ rw after (h.0, All-insert_ordered row rest p h.1)
  ]

  All-order_rows : (rows : List OutboxRow) → All P rows → All P (order_rows rows)
  All-order_rows [] h = tt
  All-order_rows (row ∷ rows) h =
      All-insert_ordered row (order_rows rows) h.0 (All-order_rows rows h.1)

  All-take : (n : ℕ) (rows : List OutboxRow) → All P rows → All P (take n rows)
  All-take zero rows h = tt
  All-take (suc n) [] h = tt
  All-take (suc n) (row ∷ rows) h = (h.0, All-take n rows h.1)

and-right : (a b : Bool) → (a && b) ≡ true → b ≡ true
and-right true b h = h
and-right false b h = cc

and-left : (a b : Bool) → (a && b) ≡ true → a ≡ true
and-left true b h = refl
and-left false b h = h

module _ (now : ℕ) (locked : OutboxRow → Bool) (row : OutboxRow) where
  due_if_among :
      (chosen : List OutboxRow)
      → All (λ c. (c.id ≡ row.id → c ≡ row) × ((is_due now c && not (locked c)) ≡ true)) chosen
      → is_among chosen row ≡ true
      → is_due now row ≡ true
  due_if_among [] h e = cc
  due_if_among (c ∷ chosen) h e = elim (Bool-cases (c.id == row.id)) [
    | inl same ↦
        let q : c ≡ row = h.0.0 (ground arith) in
        let free : (is_due now c && not (locked c)) ≡ true = h.0.1 in
        let due : is_due now c ≡ true = and-left (is_due now c) (not (locked c)) free in
        subst (λ x. is_due now x ≡ true) q due
    | inr other ↦ due_if_among chosen h.1 (rw other at e)
  ]

  due_if_selected :
      (limit : ℕ) (rows : List OutboxRow)
      → All (λ c. c.id ≡ row.id → c ≡ row) rows
      → is_among (selected limit locked now rows) row ≡ true
      → is_due now row ≡ true
  unfolding selected
  due_if_selected limit rows keyed e =
      due_if_among _ (All-take _ limit _ (All-order_rows _ _ (All-filter _ _ rows keyed))) e

module _ (store : OutboxStore) (now : ℕ) where
  Moves-map :
      (p : OutboxRow → Bool) (f : OutboxRow → OutboxRow) (rows : List OutboxRow)
      → All (λ r. p r ≡ true → RowMove store now r (f r)) rows
      → Moves store now rows (map (update_if p f) rows)
  Moves-map p f [] h = ends
  Moves-map p f (row ∷ rows) h = elim (Bool-cases (p row)) [
    | inl hit ↦ rw hit (moves (h.0 hit) (Moves-map p f rows h.1))
    | inr miss ↦ rw miss (moves (stays refl) (Moves-map p f rows h.1))
  ]

  due-leases :
      (owner limit : ℕ) (locked : OutboxRow → Bool) (rows all : List OutboxRow)
      → owner ≢ 0
      → All (λ a. All (λ c. c.id ≡ a.id → c ≡ a) all) rows
      → All
          (λ r.
            is_among (selected limit locked now all) r ≡ true
            → RowMove store now r (leased_row owner (now + store.lease_ttl) r))
          rows
  due-leases owner limit locked [] all named keyed = tt
  due-leases owner limit locked (row ∷ rows) all named keyed = (
    (λ hit. leases owner named (due_if_selected now locked row limit all keyed.0 hit) refl),
    due-leases owner limit locked rows all named keyed.1,
  )

  all-stay : (rows : List OutboxRow) → Moves store now rows rows
  all-stay [] = ends
  all-stay (row ∷ rows) = moves (stays refl) (all-stay rows)

  Moves-claim_outbox :
      (is_uuid : ℕ → Bool) (arrange : List OutboxRow → List OutboxRow) (locked : OutboxRow → Bool)
      (owner limit : ℕ) (db : Db)
      → IsKeyed db.outbox
      → Moves store now db.outbox
          (claim_outbox store is_uuid arrange locked now owner limit db).0.outbox
  unfolding claim_outbox
  Moves-claim_outbox is_uuid arrange locked owner limit db keyed = elim (Bool-cases (owner == 0)) [
    | inl unnamed ↦ rw unnamed (all-stay db.outbox)
    | inr named ↦ elim (Bool-cases (limit == 0)) [
      | inl idle ↦ rw (named, idle) (all-stay db.outbox)
      | inr asks ↦
          rw (named, asks)
            (Moves-map _ _ db.outbox
              (due-leases owner limit locked db.outbox db.outbox (λ e. ground arith) keyed))
    ]
  ]

  settled-moves :
      (id : ℕ) (lease : Lease) (f : OutboxRow → OutboxRow)
      → ((r : OutboxRow) → is_leased_by lease now r ≡ true → RowMove store now r (f r))
      → (rows : List OutboxRow)
      → All (λ r. is_settled_by id lease now r ≡ true → RowMove store now r (f r)) rows
  settled-moves id lease f h [] = tt
  settled-moves id lease f h (row ∷ rows) = (
    (λ hit. h row (and-right (has_id id row) (is_leased_by lease now row) hit)),
    settled-moves id lease f h rows,
  )

-- One statement of the store.
pub data Step (store : OutboxStore) (now : ℕ) (db db' : Db) : Type 0 where
  claims :
      (is_uuid : ℕ → Bool) (arrange : List OutboxRow → List OutboxRow) (locked : OutboxRow → Bool)
      (owner limit : ℕ)
      → db' ≡ (claim_outbox store is_uuid arrange locked now owner limit db).0
      → Step store now db db'
  marks :
      (id : ℕ) (lease : Lease) (at : ℕ)
      → db' ≡ (mark_outbox_published now id lease at db).0
      → Step store now db db'
  postpones :
      (id : ℕ) (lease : Lease) (due count code : ℕ)
      → db' ≡ (reschedule_outbox now id lease due count code db).0
      → Step store now db db'

module _ (store : OutboxStore) (now : ℕ) where
  pub Moves-Step :
      {db db' : Db}
      → IsKeyed db.outbox
      → Step store now db db'
      → Moves store now db.outbox db'.outbox
  unfolding mark_outbox_published reschedule_outbox
  Moves-Step {db} keyed (claims is_uuid arrange locked owner limit e) =
      rw e (Moves-claim_outbox store now is_uuid arrange locked owner limit db keyed)
  Moves-Step {db} keyed (marks id lease at e) = rw e (
      Moves-map store now _ _ db.outbox
        (settled-moves store now id lease _ (λ r h. publishes lease at h refl) db.outbox))
  Moves-Step {db} keyed (postpones id lease due count code e) = rw e (
      Moves-map store now _ _ db.outbox (
        settled-moves store now id lease _ (λ r h. reschedules lease due count code h refl)
          db.outbox))

  RowMove-published :
      (row row' : OutboxRow) → row.status ≡ published → RowMove store now row row' → row' ≡ row
  RowMove-published row row' e (stays q) = q
  RowMove-published row row' e (leases owner named due q) = ground arith
  RowMove-published row row' e (publishes lease at held q) = ground arith
  RowMove-published row row' e (reschedules lease due count code held q) = ground arith

  -- A live lease keeps the row from everyone but its holder.
  RowMove-live :
      (row row' : OutboxRow)
      → is_live row.lease_expires_at now ≡ true
      → RowMove store now row row'
      → (row' ≡ row) ⊎ ((lease : Lease) × (is_leased_by lease now row ≡ true))
  RowMove-live row row' live (stays q) = inl q
  RowMove-live row row' live (leases owner named due q) = ground arith
  RowMove-live row row' live (publishes lease at held q) = inr (lease, held)
  RowMove-live row row' live (reschedules lease due count code held q) = inr (lease, held)

  Moves-get :
      {rows rows' : List OutboxRow}
      → Moves store now rows rows'
      → (i : ℕ) (row : OutboxRow) → get_elem? rows i ≡ some row
      → row.status ≡ published
      → get_elem? rows' i ≡ some row
  Moves-get ends i row e done = e
  Moves-get (moves {row = first} {row' = first'} m rest) zero row e done =
      let same : first ≡ row = ground arith in
      let kept : first' ≡ first = RowMove-published first first' (rw same done) m in
      ap some (kept ∙ same)
  Moves-get (moves m rest) (suc i) row e done = Moves-get rest i row e done

  -- A published row is final: where the identifier is a key, the row keeps its place and its columns
  -- in every statement of the store, whatever the statement's arguments are.
  pub Step-published :
      {db db' : Db}
      → IsKeyed db.outbox
      → Step store now db db'
      → (i : ℕ) (row : OutboxRow) → get_elem? db.outbox i ≡ some row
      → row.status ≡ published
      → get_elem? db'.outbox i ≡ some row
  Step-published keyed step = Moves-get (Moves-Step keyed step)
