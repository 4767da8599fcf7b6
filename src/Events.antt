-- ===== src/Events.antt =====
-- services/asset-core/internal/eventing/media/events.go: building a media event. The UUID parser
-- and the JSON encoder are not the repository's, and are arguments.
use seta_im_intern.Prelude.{ℕ, Bool, not, List, ltb, length, ◌==◌, Result, ok, ◌>>◌, refuse_if}

abbrev pub event_type : ℕ
event_type = 1

abbrev pub schema_version : ℕ
schema_version = 1

abbrev pub source : ℕ
source = 1

abbrev pub max_record_bytes : ℕ
max_record_bytes = 2048

pub record Envelope : Type 0 where
  pub event_id : ℕ
  pub event_type : ℕ
  pub schema_version : ℕ
  pub source : ℕ
  pub occurred_at : ℕ
  pub org_id : ℕ
  pub traceparent : ℕ

pub record Payload : Type 0 where
  pub asset_id : ℕ
  pub upload_id : ℕ
  pub version_id : ℕ
  pub job_id : ℕ

pub data EventError : Type 0 where
  missing_identifier invalid_identifier record_too_large : EventError

-- `uuid.Parse` and `json.Marshal`.
pub record Codec : Type 0 where
  pub is_uuid : ℕ → Bool
  pub encode : Envelope → Payload → List ℕ

module _ (codec : Codec) where
  unfoldable pub validate_identifier : ℕ → Result EventError (Unit {0})
  validate_identifier value = do
    refuse_if (value == 0) missing_identifier
    refuse_if (not (codec.is_uuid value)) invalid_identifier

  -- The source ranges over a map, in no fixed order; only which identifier is named differs.
  unfoldable pub validate : Payload → Result EventError (Unit {0})
  unfolding validate_identifier
  validate payload = do
    validate_identifier payload.asset_id
    validate_identifier payload.upload_id
    validate_identifier payload.version_id
    validate_identifier payload.job_id

  unfoldable pub marshal : Envelope → Payload → Result EventError (List ℕ)
  unfolding validate
  marshal envelope payload = do
    refuse_if (envelope.occurred_at == 0) missing_identifier
    validate payload
    let stamped = record envelope {
      event_type = event_type;
      schema_version = schema_version;
      source = source;
    }
    let value = codec.encode stamped payload
    refuse_if (ltb max_record_bytes (length value)) record_too_large
    ok value
