-- ===== src/RelayTests.antt =====
-- A drain of two records against a broker that refuses the second, and the theorems about the relay
-- at such inputs.
use seta_im_intern.Prelude.{
  ℕ, suc, ◌+◌, ◌*◌, ◌^◌, ◌<◌, ◌≡◌, refl, true, none, some, List, [], ◌∷◌, ◌==◌, if◌then◌else◌, ok,
  err, arith,
}
use seta_im_intern.Relay.Drain.{
  OutboxRecord, Lease, deadline_exceeded, World, RelayOptions, doubled_backoff, capped_backoff,
  drain_records, drain_once,
}
use seta_im_intern.Relay.Backoff.{min, capped_backoff-eq, doubled_backoff-fits}
use seta_im_intern.Relay.Protocol.{Event, logged, clock, acknowledged, refused, marked, rescheduled}

abbrev options : RelayOptions
options = record {
  owner = 3;
  batch_size = 50;
  base_backoff = 4;
  max_backoff = 20;
  lease_margin = 10;
}

abbrev lease : Lease
lease = record { owner = 3; expires_at = 100 }

abbrev first : OutboxRecord
first = record {
  event_id = 1;
  topic = 7;
  key = 8;
  payload = [];
  attempt_count = 0;
  enqueued_at = 40;
}

abbrev second : OutboxRecord
second = record {
  event_id = 2;
  topic = 7;
  key = 9;
  payload = [];
  attempt_count = 2;
  enqueued_at = 41;
}

-- A clock that ticks at each reading; the broker takes the first event alone.
abbrev world : World ℕ
world = record {
  claim = λ owner limit w. (w, ok (record { records = first ∷ second ∷ []; lease = lease }));
  mark_published = λ id l t w. (w, ok true);
  reschedule = λ id l t attempt code w. (w, ok true);
  publish = λ r deadline w. (w, if r.event_id == 1 then ok tt else err deadline_exceeded);
  now = λ w. (suc w, w);
  jitter = λ d w. (w, d);
}

abbrev events : List Event
events =
    rescheduled 2 lease 70 3 (ok true)
    ∷ clock 54
    ∷ refused 2 (some 90)
    ∷ clock 53
    ∷ marked 1 lease 52 (ok true)
    ∷ clock 52
    ∷ clock 51
    ∷ acknowledged 1 (some 90)
    ∷ clock 50
    ∷ []

drained : drain_once world options 50 ≡ (55, (1, none))
unfolding drain_once
drained = refl

logs : (drain_records (logged world) options lease (first ∷ second ∷ []) (50, [])).0.1 ≡ events
unfolding drain_records
logs = refl

capped_backoff-eq_example : capped_backoff options 2 ≡ min (4 * 2 ^ 2) 20
capped_backoff-eq_example = capped_backoff-eq options 2 (omega arith) (omega arith)

doubled_backoff-fits_example : doubled_backoff 20 5 4 < 2 ^ 63
doubled_backoff-fits_example = doubled_backoff-fits 20 5 4 (omega arith) (omega arith)

-- A cap above 2 ^ 62 lets the doubling wrap to a negative delay, here -2 ^ 63.
wraps :
    capped_backoff (record options { base_backoff = 2 ^ 62; max_backoff = 2 ^ 62 + 1 }) 1 ≡ 2 ^ 63
unfolding capped_backoff
wraps = refl
