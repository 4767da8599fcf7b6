-- ===== src/OutboxTests.antt =====
-- Claims and settlements of three outbox rows, and the theorems about the outbox store at them.
use seta_im_intern.Prelude.{
  ℕ, ◌≤◌, ◌⊎◌, length, All, ◌++◌, not, ◌&&◌, filter, ◌≡◌, refl, true, false, Option, none, some,
  List, [], ◌∷◌, arith, get_elem?, no_rows, err, map, ◌==◌,
}
use seta_im_intern.Media.{Db, OutboxRow, pending, published}
use seta_im_intern.Relay.Drain.{Lease}
use seta_im_intern.Outbox.Store.{
  OutboxStore, is_due, selected, topic_required, unusable_event_id, new_media_outbox_store,
  claim_outbox, mark_outbox_published, reschedule_outbox,
}
use seta_im_intern.Outbox.Order.{Leads, selected-first}
use mathlib.Core.List.{Perm}
use seta_im_intern.Outbox.Moves.{IsKeyed, Moves, claims, Step-published}

abbrev store : OutboxStore
store = record { topic = 7; lease_ttl = 30 }

abbrev row_of : ℕ → ℕ → OutboxRow
row_of id created_at = record {
  id = id;
  job_id = 20;
  event_type = 1;
  schema_version = 1;
  payload = [];
  status = pending;
  attempt_count = 0;
  next_attempt_at = 60;
  lease_owner = none;
  lease_expires_at = none;
  last_error_code = none;
  published_at = none;
  created_at = created_at;
}

abbrev sent : OutboxRow
sent = record (row_of 3 40) { status = published; published_at = some 41 }

abbrev db : Db
db = record {
  usage = no_rows;
  sessions = [];
  versions = no_rows;
  jobs = no_rows;
  assets = no_rows;
  outputs = [];
  outbox = row_of 1 55 ∷ row_of 2 50 ∷ sent ∷ [];
  version_by_upload = no_rows;
  job_by_version = no_rows;
}

-- The later row comes first in the table; one row is asked for.
abbrev claimed : Db
claimed = (claim_outbox store (λ n. true) (λ rows. rows) (λ r. false) 60 8 1 db).0

abbrev lease : Lease
lease = record { owner = 8; expires_at = 90 }

abbrev owners : Db → List (Option ℕ)
owners d = map (λ (r : OutboxRow). r.lease_owner) d.outbox

earliest : owners claimed ≡ (none ∷ some 8 ∷ none ∷ [])
unfolding claim_outbox
earliest = refl

passes_over :
    owners (claim_outbox store (λ n. true) (λ rows. rows) (λ r. r.id == 2) 60 8 1 db).0
    ≡ (some 8 ∷ none ∷ none ∷ [])
unfolding claim_outbox
passes_over = refl

unusable :
    (claim_outbox store (λ n. false) (λ rows. rows) (λ r. false) 60 8 1 db).1
    ≡ err unusable_event_id
unfolding claim_outbox
unusable = refl

settles : (mark_outbox_published 70 2 lease 71 claimed).1 ≡ true
unfolding mark_outbox_published claim_outbox
settles = refl

late : mark_outbox_published 90 2 lease 91 claimed ≡ (claimed, false)
unfolding mark_outbox_published claim_outbox
late = refl

postpones : (reschedule_outbox 70 2 lease 80 1 5 claimed).1 ≡ true
unfolding reschedule_outbox claim_outbox
postpones = refl

refuses : new_media_outbox_store 0 30 ≡ err topic_required
unfolding new_media_outbox_store
refuses = refl

db-IsKeyed : IsKeyed db.outbox
db-IsKeyed = (
  ((λ e. refl), ((λ e. absurd (omega arith)), ((λ e. absurd (omega arith)), tt))),
  (
    ((λ e. absurd (omega arith)), ((λ e. refl), ((λ e. absurd (omega arith)), tt))),
    (((λ e. absurd (omega arith)), ((λ e. absurd (omega arith)), ((λ e. refl), tt))), tt),
  ),
)

Step-published_example : get_elem? claimed.outbox 2 ≡ some sent
Step-published_example =
    Step-published store 60 db-IsKeyed (claims (λ n. true) (λ rows. rows) (λ r. false) 8 1 refl) 2
      sent refl refl

selected-first_example :
    (left : List OutboxRow) × Perm
      (selected 1 (λ r. false) 60 db.outbox ++ left)
      (filter (λ row. is_due 60 row && not false) db.outbox)
    × All (λ a. Leads a left) (selected 1 (λ r. false) 60 db.outbox)
    × (length (selected 1 (λ r. false) 60 db.outbox) ≤ 1)
    × ((left ≡ []) ⊎ (length (selected 1 (λ r. false) 60 db.outbox) ≡ 1))
selected-first_example = selected-first 1 60 (λ r. false) db.outbox
