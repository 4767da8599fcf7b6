-- ===== src/Outbox/Store.antt =====
-- repository/media_outbox_store.go: the outbox rows as the relay's store. FOR UPDATE SKIP LOCKED
-- passes over the rows that other transactions have locked, and RETURNING gives its rows in some
-- order; both are arguments. Identifiers are compared as numbers.
use seta_im_intern.Prelude.{
  ℕ, ◌+◌, Bool, true, false, not, ◌&&◌, ◌||◌, some, none, List, [], ◌∷◌, ltb, leb, ◌==◌,
  if◌then◌else◌, take, is_value, Result, ok, err, map, filter, any,
}
use seta_im_intern.Media.{
  Db, OutboxRow, OutboxStatus, pending, publishing, published, lapsed, is_live,
}
use seta_im_intern.Relay.Drain.{OutboxRecord, Lease, Claimed}

pub record OutboxStore : Type 0 where
  pub topic : ℕ
  pub lease_ttl : ℕ

pub data OutboxError : Type 0 where
  topic_required owner_required unusable_event_id : OutboxError

-- 30 s
abbrev pub default_lease_ttl : ℕ
default_lease_ttl = 30000000000

unfoldable pub new_media_outbox_store : ℕ → ℕ → Result OutboxError OutboxStore
new_media_outbox_store topic lease_ttl =
    if topic == 0
    then err topic_required
    else ok (record {
      topic = topic;
      lease_ttl = if lease_ttl == 0 then default_lease_ttl else lease_ttl;
    })

abbrev pub is_waiting : OutboxStatus → Bool
is_waiting pending = true
is_waiting publishing = true
is_waiting published = false

abbrev pub is_publishing : OutboxStatus → Bool
is_publishing publishing = true
is_publishing _ = false

abbrev pub is_due : ℕ → OutboxRow → Bool
is_due now row =
    is_waiting row.status && (leb row.next_attempt_at now && lapsed row.lease_expires_at now)

-- ORDER BY created_at, id
abbrev pub is_before : OutboxRow → OutboxRow → Bool
is_before a b = ltb a.created_at b.created_at || ((a.created_at == b.created_at) && leb a.id b.id)

abbrev pub insert_ordered : OutboxRow → List OutboxRow → List OutboxRow
insert_ordered row [] = row ∷ []
insert_ordered row (first ∷ rest) =
    if is_before row first then row ∷ first ∷ rest else first ∷ insert_ordered row rest

abbrev pub order_rows : List OutboxRow → List OutboxRow
order_rows [] = []
order_rows (row ∷ rows) = insert_ordered row (order_rows rows)

abbrev pub has_id : ℕ → OutboxRow → Bool
has_id id row = row.id == id

-- `id IN (…)`
abbrev pub is_among : List OutboxRow → OutboxRow → Bool
is_among chosen row = any (has_id row.id) chosen

unfoldable pub selected : ℕ → (OutboxRow → Bool) → ℕ → List OutboxRow → List OutboxRow
selected limit locked now rows =
    take limit (order_rows (filter (λ row. is_due now row && not (locked row)) rows))

abbrev pub leased_row : ℕ → ℕ → OutboxRow → OutboxRow
leased_row owner expires_at row = record row {
  status = publishing;
  lease_owner = some owner;
  lease_expires_at = some expires_at;
}

abbrev pub update_if : (OutboxRow → Bool) → (OutboxRow → OutboxRow) → OutboxRow → OutboxRow
update_if p f row = if p row then f row else row

-- `status = 'publishing' AND lease_owner = ? AND lease_expires_at = ? AND lease_expires_at > now`
abbrev pub is_leased_by : Lease → ℕ → OutboxRow → Bool
is_leased_by lease now row =
    is_publishing row.status
    && (is_value row.lease_owner lease.owner
        && (is_value row.lease_expires_at lease.expires_at && is_live row.lease_expires_at now))

abbrev pub nothing_claimed : Claimed
nothing_claimed = record { records = []; lease = record { owner = 0; expires_at = 0 } }

module _ (store : OutboxStore) where
  abbrev pub record_of : OutboxRow → OutboxRecord
  record_of row = record {
    event_id = row.id;
    topic = store.topic;
    key = row.job_id;
    payload = row.payload;
    attempt_count = row.attempt_count;
    enqueued_at = row.created_at;
  }

  abbrev pub claimed_rows : (ℕ → Bool) → ℕ → ℕ → List OutboxRow → Result OutboxError Claimed
  claimed_rows is_uuid owner expires_at [] = ok nothing_claimed
  claimed_rows is_uuid owner expires_at (row ∷ rows) =
      if any (λ r. not (is_uuid r.id)) (row ∷ rows)
      then err unusable_event_id
      else ok (record {
        records = map record_of (row ∷ rows);
        lease = record { owner = owner; expires_at = expires_at };
      })

  -- The statement has committed when an identifier turns out to be unusable.
  unfoldable pub claim_outbox :
      (ℕ → Bool)
      → (List OutboxRow → List OutboxRow)
      → (OutboxRow → Bool)
      → ℕ
      → ℕ
      → ℕ
      → Db
      → Db × Result OutboxError Claimed
  unfolding selected
  claim_outbox is_uuid arrange locked now owner limit db =
      if owner == 0
      then (db, err owner_required)
      else if limit == 0
      then (db, ok nothing_claimed)
      else let chosen = selected limit locked now db.outbox in
        let expires_at = now + store.lease_ttl in
        (
          record db {
            outbox = map (update_if (is_among chosen) (leased_row owner expires_at)) db.outbox;
          },
          claimed_rows is_uuid owner expires_at (arrange (filter (is_among chosen) db.outbox)),
        )

abbrev pub is_settled_by : ℕ → Lease → ℕ → OutboxRow → Bool
is_settled_by id lease now row = has_id id row && is_leased_by lease now row

abbrev pub published_row : ℕ → OutboxRow → OutboxRow
published_row at row = record row {
  status = published;
  published_at = some at;
  lease_owner = none;
  lease_expires_at = none;
}

unfoldable pub mark_outbox_published : ℕ → ℕ → Lease → ℕ → Db → Db × Bool
mark_outbox_published now id lease at db = (
  record db { outbox = map (update_if (is_settled_by id lease now) (published_row at)) db.outbox },
  any (is_settled_by id lease now) db.outbox,
)

abbrev pub rescheduled_row : ℕ → ℕ → ℕ → OutboxRow → OutboxRow
rescheduled_row next_attempt_at attempt_count error_code row = record row {
  status = pending;
  next_attempt_at = next_attempt_at;
  attempt_count = attempt_count;
  last_error_code = some error_code;
  lease_owner = none;
  lease_expires_at = none;
}

-- The code's text is cut to 64 bytes; the relay's codes are shorter.
unfoldable pub reschedule_outbox : ℕ → ℕ → Lease → ℕ → ℕ → ℕ → Db → Db × Bool
reschedule_outbox now id lease next_attempt_at attempt_count error_code db = (
  record db {
    outbox =
        map
          (update_if (is_settled_by id lease now)
            (rescheduled_row next_attempt_at attempt_count error_code))
          db.outbox;
  },
  any (is_settled_by id lease now) db.outbox,
)
