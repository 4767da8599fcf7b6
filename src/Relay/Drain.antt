-- ===== src/Relay/Drain.antt =====
-- DrainOnce of relay.go over its two interfaces, the clock and the jitter, each a field of `World`:
-- a call takes the state of everything outside the relay and returns the next. Metrics and logging
-- are left out. An instant and a duration are numbers of nanoseconds.
use seta_im_intern.Prelude.{
  ℕ, zero, suc, ◌+◌, ◌-◌, ◌*◌, ◌^◌, ◌%◌, Bool, true, false, not, Option, none, some, List, [], ◌∷◌,
  ltb, ◌==◌, if◌then◌else◌, Result, ok, err,
}

pub record OutboxRecord : Type 0 where
  pub event_id : ℕ
  pub topic : ℕ
  pub key : ℕ
  pub payload : List ℕ
  pub attempt_count : ℕ
  pub enqueued_at : ℕ

pub record Lease : Type 0 where
  pub owner : ℕ
  pub expires_at : ℕ

pub record Claimed : Type 0 where
  pub records : List OutboxRecord
  pub lease : Lease

-- What an error of the publisher is, for the error code.
pub data PublishError : Type 0 where
  deadline_exceeded canceled other_failure : PublishError

pub data DrainError : Type 0 where
  store_error : ℕ → DrainError
  outbox_not_updated : ℕ → DrainError
  missing_lease_expiry lease_owner_mismatch lease_lost : DrainError

-- The code of an event's error column.
pub data ErrorCode : Type 0 where
  publish_timeout publish_canceled publish_failed : ErrorCode

-- Store, Publisher, Now and Jitter. A store's own error is a number.
pub record World (W : Type 0) : Type 0 where
  pub claim : ℕ → ℕ → W → W × Result ℕ Claimed
  pub mark_published : ℕ → Lease → ℕ → W → W × Result ℕ Bool
  pub reschedule : ℕ → Lease → ℕ → ℕ → ErrorCode → W → W × Result ℕ Bool
  pub publish : OutboxRecord → Option ℕ → W → W × Result PublishError (Unit {0})
  pub now : W → W × ℕ
  pub jitter : ℕ → W → W × ℕ

pub record RelayOptions : Type 0 where
  pub owner : ℕ
  pub batch_size : ℕ
  pub base_backoff : ℕ
  pub max_backoff : ℕ
  pub lease_margin : ℕ

abbrev pub default_if_zero : ℕ → ℕ → ℕ
default_if_zero default n = if n == 0 then default else n

unfoldable pub with_defaults : RelayOptions → RelayOptions
with_defaults options = record {
  owner = options.owner;
  batch_size = default_if_zero 50 options.batch_size;
  base_backoff = default_if_zero 250000000 options.base_backoff;
  max_backoff = default_if_zero 30000000000 options.max_backoff;
  lease_margin = default_if_zero 5000000000 options.lease_margin;
}

unfoldable pub transport_error_code : PublishError → ErrorCode
transport_error_code deadline_exceeded = publish_timeout
transport_error_code canceled = publish_canceled
transport_error_code other_failure = publish_failed

-- `a < b` of two time.Durations, each the two's complement of an int64.
abbrev pub int64_lt : ℕ → ℕ → Bool
int64_lt a b = ltb ((a + 2 ^ 63) % 2 ^ 64) ((b + 2 ^ 63) % 2 ^ 64)

-- The loop of backoffFor. The delay is the two's complement of an int64, and its doubling wraps.
unfoldable pub doubled_backoff : ℕ → ℕ → ℕ → ℕ
doubled_backoff max zero backoff = backoff
doubled_backoff max (suc attempts) backoff =
    let rest = doubled_backoff max attempts (backoff * 2 % 2 ^ 64) in
    if int64_lt backoff max then rest else backoff

unfoldable pub capped_backoff : RelayOptions → ℕ → ℕ
unfolding doubled_backoff
capped_backoff options attempt_count =
    let backoff = doubled_backoff options.max_backoff attempt_count options.base_backoff in
    if int64_lt options.max_backoff backoff then options.max_backoff else backoff

-- How a record leaves the loop's body.
pub data Outcome : Type 0 where
  settled retried : Outcome
  stopped : DrainError → Outcome

module _ {W : Type 0} (world : World W) (options : RelayOptions) where
  unfoldable pub backoff_for : ℕ → W → W × ℕ
  unfolding capped_backoff
  backoff_for attempt_count = world.jitter (capped_backoff options attempt_count)

  unfoldable pub lease_too_short : ℕ → W → W × Bool
  lease_too_short expires_at w =
      if expires_at == 0
      then (w, false)
      else (let (w', t) = world.now w in (w', not (ltb (t + options.lease_margin) expires_at)))

  unfoldable pub publish_within_lease : OutboxRecord → ℕ → W → W × Result PublishError (Unit {0})
  publish_within_lease r expires_at w =
      if expires_at == 0
      then world.publish r none w
      else world.publish r (some (expires_at - options.lease_margin)) w

  -- The reading of the clock alone is kept.
  unfoldable pub record_delivery_lag : OutboxRecord → W → W
  record_delivery_lag r w = if r.enqueued_at == 0 then w else (world.now w).0

  abbrev pub after_reschedule : W × Result ℕ Bool → W × Outcome
  after_reschedule (w, err e) = (w, stopped (store_error e))
  after_reschedule (w, ok false) = (w, stopped lease_lost)
  after_reschedule (w, ok true) = (w, retried)

  abbrev pub after_mark : W × Result ℕ Bool → W × Outcome
  after_mark (w, err e) = (w, stopped (outbox_not_updated e))
  after_mark (w, ok false) = (w, stopped lease_lost)
  after_mark (w, ok true) = (w, settled)

  unfoldable pub after_publish :
      Lease → OutboxRecord → W × Result PublishError (Unit {0}) → W × Outcome
  unfolding backoff_for transport_error_code record_delivery_lag
  after_publish lease r (w, err e) =
      let (w1, t) = world.now w in
      let (w2, delay) = backoff_for r.attempt_count w1 in
      after_reschedule (
        world.reschedule r.event_id lease (t + delay) (r.attempt_count + 1) (transport_error_code e)
          w2)
  after_publish lease r (w, ok _) =
      let (w1, t) = world.now (record_delivery_lag r w) in
      after_mark (world.mark_published r.event_id lease t w1)

  unfoldable pub drain_record : Lease → OutboxRecord → W → W × Outcome
  unfolding publish_within_lease after_publish
  drain_record lease r w = after_publish lease r (publish_within_lease r lease.expires_at w)

  -- The count of the records settled from here on, and the error that ended the loop.
  abbrev pub count_outcome : Outcome → W → W × (ℕ × Option DrainError) → W × (ℕ × Option DrainError)
  count_outcome settled w (w', (n, e)) = (w', (suc n, e))
  count_outcome retried w rest = rest
  count_outcome (stopped e) w rest = (w, (0, some e))

  unfoldable pub drain_records : Lease → List OutboxRecord → W → W × (ℕ × Option DrainError)
  unfolding lease_too_short drain_record
  drain_records lease [] w = (w, (0, none))
  drain_records lease (r ∷ rs) w =
      let (w1, short) = lease_too_short lease.expires_at w in
      let (w2, outcome) = drain_record lease r w1 in
      let rest = drain_records lease rs w2 in
      if short then (w1, (0, none)) else count_outcome outcome w2 rest

  abbrev pub drain_claimed : W × Result ℕ Claimed → W × (ℕ × Option DrainError)
  drain_claimed (w, err e) = (w, (0, some (store_error e)))
  drain_claimed (w, ok claimed) = elim claimed.records [
    | [] ↦ (w, (0, none))
    | r ∷ rs ↦
        if claimed.lease.expires_at == 0
        then (w, (0, some missing_lease_expiry))
        else if not (claimed.lease.owner == options.owner)
        then (w, (0, some lease_owner_mismatch))
        else drain_records claimed.lease (r ∷ rs) w
  ]

  unfoldable pub drain_once : W → W × (ℕ × Option DrainError)
  unfolding drain_records
  drain_once w = drain_claimed (world.claim options.owner options.batch_size w)
