-- ===== src/Relay/Protocol.antt =====
-- What the relay asks of the outbox and of the broker, in which order.
use seta_im_intern.Prelude.{
  ℕ, suc, ◌+◌, ◌-◌, ◌≤◌, ◌<◌, Bool, true, false, Option, none, some, List, [], ◌∷◌, Result, ok, err,
}
use seta_im_intern.Relay.Drain.{
  OutboxRecord, Lease, PublishError, DrainError, store_error, outbox_not_updated, lease_lost, World,
  RelayOptions, Outcome, settled, retried, stopped,
}

-- A call of the relay that another party sees, with its answer, the newest first in a log.
pub data Event : Type 0 where
  clock : ℕ → Event
  acknowledged refused : ℕ → Option ℕ → Event
  marked : ℕ → Lease → ℕ → Result ℕ Bool → Event
  rescheduled : ℕ → Lease → ℕ → ℕ → Result ℕ Bool → Event

abbrev pub event_of_publish : OutboxRecord → Option ℕ → Result PublishError (Unit {0}) → Event
event_of_publish r deadline (ok _) = acknowledged r.event_id deadline
event_of_publish r deadline (err _) = refused r.event_id deadline

-- The same world, keeping a log.
abbrev pub logged : {W : Type 0} → World W → World (W × List Event)
logged world = record {
  claim = λ owner limit (w, log). let (w', r) = world.claim owner limit w in ((w', log), r);
  mark_published = λ id lease t (w, log).
      let (w', r) = world.mark_published id lease t w in ((w', marked id lease t r ∷ log), r);
  reschedule = λ id lease t attempt code (w, log).
      let (w', r) = world.reschedule id lease t attempt code w in
      ((w', rescheduled id lease t attempt r ∷ log), r);
  publish = λ r deadline (w, log).
      let (w', result) = world.publish r deadline w in
      ((w', event_of_publish r deadline result ∷ log), result);
  now = λ (w, log). let (w', t) = world.now w in ((w', clock t ∷ log), t);
  jitter = λ d (w, log). let (w', d') = world.jitter d w in ((w', log), d');
}

-- What the store's answer to MarkPublished makes of a record.
pub data AfterMark : Result ℕ Bool → Outcome → Type 0 where
  confirmed : AfterMark (ok true) settled
  mark_lost : AfterMark (ok false) (stopped lease_lost)
  mark_failed : (e : ℕ) → AfterMark (err e) (stopped (outbox_not_updated e))

-- And its answer to Reschedule.
pub data AfterReschedule : Result ℕ Bool → Outcome → Type 0 where
  postponed : AfterReschedule (ok true) retried
  reschedule_lost : AfterReschedule (ok false) (stopped lease_lost)
  reschedule_failed : (e : ℕ) → AfterReschedule (err e) (stopped (store_error e))

module _ (options : RelayOptions) (lease : Lease) where
  abbrev pub deadline : Option ℕ
  deadline = some (lease.expires_at - options.lease_margin)

  -- The reading for the delivery lag, where there is one.
  pub data Lag (log : List Event) : List Event → Type 0 where
    unread : Lag log log
    read_at : (t : ℕ) → Lag log (clock t ∷ log)

  -- One record: the clock shows that the lease lasts past the margin; then the record is published
  -- with the lease's deadline, and marked if the broker acknowledged it, else rescheduled.
  pub data Handles (r : OutboxRecord) (log : List Event) : List Event → Outcome → Type 0 where
    marks :
        (t u : ℕ) (middle : List Event) (answer : Result ℕ Bool) (outcome : Outcome)
        → t + options.lease_margin < lease.expires_at
        → Lag (acknowledged r.event_id deadline ∷ clock t ∷ log) middle
        → AfterMark answer outcome
        → Handles r log (marked r.event_id lease u answer ∷ clock u ∷ middle) outcome
    reschedules :
        (t u delay : ℕ) (answer : Result ℕ Bool) (outcome : Outcome)
        → t + options.lease_margin < lease.expires_at
        → AfterReschedule answer outcome
        → Handles r log
            (rescheduled r.event_id lease (u + delay) (r.attempt_count + 1) answer
              ∷ clock u
              ∷ refused r.event_id deadline
              ∷ clock t
              ∷ log)
            outcome

  -- Records in their order: a lapsed lease, an error or a lost lease ends the drain, and every record
  -- counted was acknowledged and marked, and the store confirmed the mark.
  pub data Drains
      : List OutboxRecord → List Event → List Event → ℕ → Option DrainError → Type 0 where
    finishes : {log : List Event} → Drains [] log log 0 none
    lapses :
        {r : OutboxRecord} {rs : List OutboxRecord} {log : List Event} (t : ℕ)
        → lease.expires_at ≤ t + options.lease_margin
        → Drains (r ∷ rs) log (clock t ∷ log) 0 none
    stops :
        {r : OutboxRecord} {rs : List OutboxRecord} {log log' : List Event} {e : DrainError}
        → Handles r log log' (stopped e)
        → Drains (r ∷ rs) log log' 0 (some e)
    retries :
        {r : OutboxRecord} {rs : List OutboxRecord} {log middle log' : List Event} {n : ℕ}
        {e : Option DrainError}
        → Handles r log middle retried
        → Drains rs middle log' n e
        → Drains (r ∷ rs) log log' n e
    settles :
        {r : OutboxRecord} {rs : List OutboxRecord} {log middle log' : List Event} {n : ℕ}
        {e : Option DrainError}
        → Handles r log middle settled
        → Drains rs middle log' n e
        → Drains (r ∷ rs) log log' (suc n) e
