-- ===== src/ConsumerTests.antt =====
-- Deliveries of one record to a consumer that counts what it applied, and the theorems about the
-- consumer at such inputs.
use seta_im_intern.Prelude.{
  ℕ, suc, ◌≡◌, ◌↔◌, refl, true, Option, none, some, List, [], ◌∷◌, ltb, ◌==◌, if◌then◌else◌, Result,
  ok, err,
}
use seta_im_intern.Events.{Envelope}
use seta_im_intern.Consumer.Parse.{Decoder, Parsed, unknown_version, parse, parse_payload}
use seta_im_intern.Consumer.Deliver.{
  Delivery, Outcome, leave_uncommitted, commit_offset, ApplyError, already_applied, poison,
  transient, ConsumerOptions, Handlers, oversized_record, effect_reason, classify, deliver,
  no_identity, quarantined,
}
use seta_im_intern.Consumer.Protocol.{
  Event, logged, applied, isolated, poisoned, Delivers, Delivers-deliver,
}
use seta_im_intern.Consumer.Routing.{IsRouted, classify-IsRouted}

abbrev envelope : ℕ → Envelope
envelope version = record {
  event_id = 11;
  event_type = 1;
  schema_version = version;
  source = 1;
  occurred_at = 40;
  org_id = 12;
  traceparent = 0;
}

-- The bytes of an event are its schema version and its aggregate; an identifier is above 9.
abbrev version_of : List ℕ → Option Envelope
version_of [] = none
version_of (v ∷ bytes) = some (envelope v)

abbrev aggregate_of : List ℕ → Option ℕ
aggregate_of [] = none
aggregate_of (v ∷ []) = none
aggregate_of (v ∷ a ∷ bytes) = some a

abbrev pub decoder : Decoder
decoder = record {
  codec = record { is_uuid = λ id. ltb 9 id; encode = λ e p. [] };
  decode_envelope = version_of;
  decode_payload =
      λ bytes. some (record { asset_id = 20; upload_id = 21; version_id = 22; job_id = 23 });
  is_object = λ bytes. true;
  decode_field = λ bytes field. if field == 4 then aggregate_of bytes else some 11;
}

abbrev pub digest : List ℕ → List ℕ
digest bytes = bytes

abbrev pub options : ConsumerOptions
options = record {
  max_value_bytes = 3;
  known_versions = 1 ∷ 2 ∷ [];
  routable_types = 1 ∷ [];
  aggregate_field = 4;
}

abbrev delivery : ℕ → List ℕ → Delivery
delivery key value = record { topic = 1; partition = 2; offset = 3; key = key; value = value }

abbrev parsed : Parsed
parsed = record { envelope = envelope 2; raw = 2 ∷ 20 ∷ [] }

-- The effect counts its applications.
abbrev handlers : Result ApplyError (Unit {0}) → Handlers ℕ
handlers result = record {
  apply = λ p w. (suc w, result);
  isolate = λ q w. (w, ok tt);
  now = λ w. (w, 50);
}

abbrev delivered : Result ApplyError (Unit {0}) → ℕ → List ℕ → (ℕ × List Event) × Outcome
delivered result key value =
    deliver decoder digest options (logged (handlers result)) (delivery key value) (0, [])

applies : delivered (ok tt) 20 (2 ∷ 20 ∷ []) ≡ ((1, applied parsed ∷ []), commit_offset)
unfolding deliver
applies = refl

abbrev outcome : Result ApplyError (Unit {0}) → ℕ → List ℕ → ℕ × Outcome
outcome result key value = let x = delivered result key value in (x.0.0, x.1)

repeats : outcome (err already_applied) 20 (2 ∷ 20 ∷ []) ≡ (1, commit_offset)
unfolding deliver
repeats = refl

retries : outcome (err (transient 5)) 20 (2 ∷ 20 ∷ []) ≡ (1, leave_uncommitted)
unfolding deliver
retries = refl

nameless : outcome (err (poison 0)) 20 (2 ∷ 20 ∷ []) ≡ (1, leave_uncommitted)
unfolding deliver
nameless = refl

gives_up : (delivered (err (poison 7)) 20 (2 ∷ 20 ∷ [])).0.1 ≡ (
    isolated
      (quarantined decoder digest options (delivery 20 (2 ∷ 20 ∷ [])) (effect_reason 7) parsed 50)
    ∷ poisoned parsed 7
    ∷ [])
unfolding deliver
gives_up = refl

oversized : delivered (ok tt) 20 (2 ∷ 20 ∷ 0 ∷ 0 ∷ []) ≡ (
  (
    0,
    isolated (
          quarantined decoder digest options
            (delivery 20 (2 ∷ 20 ∷ 0 ∷ 0 ∷ []))
            oversized_record
            no_identity
            50)
        ∷ [],
  ),
  commit_offset,
)
unfolding deliver
oversized = refl

other_key : outcome (ok tt) 21 (2 ∷ 20 ∷ []) ≡ (0, commit_offset)
unfolding deliver
other_key = refl

unknown : parse decoder (3 ∷ 20 ∷ []) (1 ∷ 2 ∷ []) ≡ err unknown_version
unfolding parse
unknown = refl

payload :
    parse_payload decoder parsed
    ≡ ok (record { asset_id = 20; upload_id = 21; version_id = 22; job_id = 23 })
unfolding parse_payload
payload = refl

Delivers-deliver_example :
    let x = delivered (ok tt) 20 (2 ∷ 20 ∷ []) in
    Delivers decoder digest options (delivery 20 (2 ∷ 20 ∷ [])) [] x.0.1 x.1
Delivers-deliver_example =
    Delivers-deliver decoder digest options (delivery 20 (2 ∷ 20 ∷ [])) (handlers (ok tt)) 0 []

classify-IsRouted_example :
    (classify decoder digest options (delivery 21 []) parsed ≡ none)
    ↔ IsRouted decoder digest options (delivery 21 []) parsed
classify-IsRouted_example = classify-IsRouted decoder digest options (delivery 21 []) parsed
