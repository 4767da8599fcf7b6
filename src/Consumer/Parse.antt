-- ===== src/Consumer/Parse.antt =====
-- event.Parse of eventing/event/envelope.go and Parse of eventing/media/events.go. The JSON decoder
-- and the UUID parser are arguments; a field that is absent decodes to the empty text.
use seta_im_intern.Prelude.{
  ℕ, Bool, false, not, ◌||◌, Option, none, some, List, [], ◌∷◌, ◌==◌, Result, ok, err, ◌>>=◌, ◌>>◌,
  refuse_if,
}
use seta_im_intern.Events.{Envelope, Payload, Codec, EventError, validate}

-- `is_object` says whether the bytes decode to a map, `decode_field` is the text of one of its
-- fields, or nothing where that is absent or no text.
pub record Decoder : Type 0 where
  pub codec : Codec
  pub decode_envelope : List ℕ → Option Envelope
  pub decode_payload : List ℕ → Option Payload
  pub is_object : List ℕ → Bool
  pub decode_field : List ℕ → ℕ → Option ℕ

-- An envelope with its `Raw` bytes.
pub record Parsed : Type 0 where
  pub envelope : Envelope
  pub raw : List ℕ

pub data ParseError : Type 0 where
  malformed unknown_version missing_field invalid_field : ParseError

-- The errors of Parse of eventing/media/events.go: ErrMalformed, or one of the validation.
pub data PayloadError : Type 0 where
  undecodable : PayloadError
  invalid : EventError → PayloadError

abbrev pub decoded_or_malformed : {A : Type 0} → Option A → Result ParseError A
decoded_or_malformed none = err malformed
decoded_or_malformed (some a) = ok a

abbrev pub contains : List ℕ → ℕ → Bool
contains [] n = false
contains (x ∷ xs) n = x == n || contains xs n

module _ (decoder : Decoder) where
  abbrev is_uuid : ℕ → Bool
  is_uuid = decoder.codec.is_uuid

  -- The source ranges over two maps, in no fixed order; only which field is named differs.
  unfoldable pub parse : List ℕ → List ℕ → Result ParseError Parsed
  parse value known_versions = do
    envelope ← decoded_or_malformed (decoder.decode_envelope value)
    refuse_if (not (contains known_versions envelope.schema_version)) unknown_version
    refuse_if
        (envelope.event_id == 0
          || (envelope.event_type == 0 || (envelope.source == 0 || envelope.org_id == 0)))
        missing_field
    refuse_if (envelope.occurred_at == 0) missing_field
    refuse_if (not (is_uuid envelope.event_id) || not (is_uuid envelope.org_id)) invalid_field
    ok (record { envelope = envelope; raw = value })

  abbrev pub validated : Payload → Result EventError (Unit {0}) → Result PayloadError Payload
  validated payload (ok _) = ok payload
  validated payload (err e) = err (invalid e)

  abbrev pub validated_if_decoded : Option Payload → Result PayloadError Payload
  validated_if_decoded none = err undecodable
  validated_if_decoded (some payload) = validated payload (validate decoder.codec payload)

  unfoldable pub parse_payload : Parsed → Result PayloadError Payload
  unfolding validate
  parse_payload parsed = validated_if_decoded (decoder.decode_payload parsed.raw)
