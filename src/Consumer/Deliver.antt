-- ===== src/Consumer/Deliver.antt =====
-- Deliver of eventing/consume/consumer.go over its effect, its quarantine and its clock, each a
-- field of `Handlers`. SHA-256 is an argument, applied to the bytes of a value or to the parts of the
-- text that quarantineID formats. Metrics and the correlation of traces are left out.
use seta_im_intern.Prelude.{
  ℕ, ◌+◌, Bool, true, not, ◌&&◌, ◌||◌, Option, none, some, List, [], ◌∷◌, ltb, ◌==◌, if◌then◌else◌,
  length, Result, ok, err,
}
use seta_im_intern.Consumer.Parse.{
  Decoder, Parsed, ParseError, malformed, unknown_version, missing_field, invalid_field, contains,
  parse,
}

pub record Delivery : Type 0 where
  pub topic : ℕ
  pub partition : ℕ
  pub offset : ℕ
  pub key : ℕ
  pub value : List ℕ

pub data Outcome : Type 0 where
  leave_uncommitted commit_offset : Outcome

-- A reason code; an effect's own reason is a text.
pub data Reason : Type 0 where
  oversized_record unsupported_schema_version incomplete_envelope invalid_envelope_field : Reason
  malformed_envelope unroutable_event_type missing_aggregate_id key_aggregate_mismatch : Reason
  effect_reason : ℕ → Reason

-- ErrAlreadyApplied, a poison error with its reason, and any other error.
pub data ApplyError : Type 0 where
  already_applied : ApplyError
  poison transient : ℕ → ApplyError

pub record QuarantinedRecord : Type 0 where
  pub source_topic : ℕ
  pub source_partition : ℕ
  pub source_offset : ℕ
  pub quarantine_id : List ℕ
  pub event_id : ℕ
  pub aggregate_id : ℕ
  pub observed_at : ℕ
  pub reason_code : Reason
  pub payload_sha256 : List ℕ

pub record ConsumerOptions : Type 0 where
  pub max_value_bytes : ℕ
  pub known_versions : List ℕ
  pub routable_types : List ℕ
  pub aggregate_field : ℕ

pub record Handlers (W : Type 0) : Type 0 where
  pub apply : Parsed → W → W × Result ApplyError (Unit {0})
  pub isolate : QuarantinedRecord → W → W × Result ℕ (Unit {0})
  pub now : W → W × ℕ

-- `event.Envelope{}`
abbrev pub no_identity : Parsed
no_identity = record {
  envelope = record {
    event_id = 0;
    event_type = 0;
    schema_version = 0;
    source = 0;
    occurred_at = 0;
    org_id = 0;
    traceparent = 0;
  };
  raw = [];
}

unfoldable pub reason_for : ParseError → Reason
reason_for unknown_version = unsupported_schema_version
reason_for missing_field = incomplete_envelope
reason_for invalid_field = invalid_envelope_field
reason_for malformed = malformed_envelope

-- A reason as its place in the list above, for the digest.
abbrev pub reason_number : Reason → ℕ
reason_number oversized_record = 0
reason_number unsupported_schema_version = 1
reason_number incomplete_envelope = 2
reason_number invalid_envelope_field = 3
reason_number malformed_envelope = 4
reason_number unroutable_event_type = 5
reason_number missing_aggregate_id = 6
reason_number key_aggregate_mismatch = 7
reason_number (effect_reason n) = 8 + n

unfoldable pub routable : ConsumerOptions → ℕ → Bool
routable options event_type = elim options.routable_types [
  | [] ↦ true
  | t ∷ ts ↦ contains (t ∷ ts) event_type
]

module _ (decoder : Decoder) (digest : List ℕ → List ℕ) (options : ConsumerOptions) where
  abbrev pub uuid_or_none : Option ℕ → Option ℕ
  uuid_or_none none = none
  uuid_or_none (some id) = if decoder.codec.is_uuid id then some id else none

  unfoldable pub aggregate_id : Parsed → Option ℕ
  aggregate_id parsed =
      if options.aggregate_field == 0 || length parsed.raw == 0
      then none
      else uuid_or_none (decoder.decode_field parsed.raw options.aggregate_field)

  abbrev pub classify_key : ℕ → Option ℕ → Option Reason
  classify_key key none = some missing_aggregate_id
  classify_key key (some id) = if not (key == id) then some key_aggregate_mismatch else none

  unfoldable pub classify : Delivery → Parsed → Option Reason
  unfolding routable aggregate_id
  classify r parsed =
      if not (routable options parsed.envelope.event_type)
      then some unroutable_event_type
      else if options.aggregate_field == 0
      then none
      else classify_key r.key (aggregate_id parsed)

  abbrev event_id_field : ℕ
  event_id_field = 1

  abbrev with_event_id : List ℕ → Option ℕ → Parsed
  with_event_id value none = record no_identity { raw = value }
  with_event_id value (some id) = record {
    envelope = record no_identity.envelope { event_id = id };
    raw = value;
  }

  unfoldable pub salvage_identity : Delivery → Parsed
  salvage_identity r =
      if not (decoder.is_object r.value)
      then no_identity
      else with_event_id r.value (uuid_or_none (decoder.decode_field r.value event_id_field))

  abbrev id_or_empty : Option ℕ → ℕ
  id_or_empty none = 0
  id_or_empty (some id) = id

  unfoldable pub quarantined : Delivery → Reason → Parsed → ℕ → QuarantinedRecord
  unfolding aggregate_id
  quarantined r reason identity observed_at = record {
    source_topic = r.topic;
    source_partition = r.partition;
    source_offset = r.offset;
    quarantine_id = digest (r.topic ∷ r.partition ∷ r.offset ∷ reason_number reason ∷ []);
    event_id = identity.envelope.event_id;
    aggregate_id = id_or_empty (aggregate_id identity);
    observed_at = observed_at;
    reason_code = reason;
    payload_sha256 = digest r.value;
  }

  module _ {W : Type 0} (handlers : Handlers W) where
    abbrev pub after_isolate : W × Result ℕ (Unit {0}) → W × Outcome
    after_isolate (w, ok _) = (w, commit_offset)
    after_isolate (w, err e) = (w, leave_uncommitted)

    unfoldable pub isolate_record : Delivery → Reason → Parsed → W → W × Outcome
    unfolding quarantined
    isolate_record r reason identity w =
        let (w', t) = handlers.now w in
        after_isolate (handlers.isolate (quarantined r reason identity t) w')

    unfoldable pub after_apply : Delivery → Parsed → W × Result ApplyError (Unit {0}) → W × Outcome
    unfolding isolate_record
    after_apply r parsed (w, ok _) = (w, commit_offset)
    after_apply r parsed (w, err already_applied) = (w, commit_offset)
    after_apply r parsed (w, err (poison reason)) =
        if reason == 0
        then (w, leave_uncommitted)
        else isolate_record r (effect_reason reason) parsed w
    after_apply r parsed (w, err (transient e)) = (w, leave_uncommitted)

    unfoldable pub deliver_classified : Delivery → Parsed → Option Reason → W → W × Outcome
    unfolding isolate_record after_apply
    deliver_classified r parsed (some reason) w = isolate_record r reason parsed w
    deliver_classified r parsed none w = after_apply r parsed (handlers.apply parsed w)

    unfoldable pub deliver_parsed : Delivery → Result ParseError Parsed → W → W × Outcome
    unfolding isolate_record reason_for salvage_identity classify deliver_classified
    deliver_parsed r (err e) w = isolate_record r (reason_for e) (salvage_identity r) w
    deliver_parsed r (ok parsed) w = deliver_classified r parsed (classify r parsed) w

    -- The errors that the source returns beside the outcome are for its log.
    unfoldable pub deliver : Delivery → W → W × Outcome
    unfolding isolate_record parse deliver_parsed
    deliver r w =
        if ltb 0 options.max_value_bytes && ltb options.max_value_bytes (length r.value)
        then isolate_record r oversized_record no_identity w
        else deliver_parsed r (parse decoder r.value options.known_versions) w
