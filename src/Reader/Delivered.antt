-- ===== src/Reader/Delivered.antt =====
-- What a delivery keeps of the world, and when it commits (eventing/consume/consumer.go).
use seta_im_intern.Prelude.{
  ℕ, ◌==◌, ◌≡◌, refl, false, Bool-cases, inl, inr, ◌&&◌, ltb, length, Option, none, some, List,
  Result, ok, err,
}
use seta_im_intern.Consumer.Parse.{Decoder, Parsed, ParseError, parse}
use seta_im_intern.Consumer.Deliver.{
  Delivery, commit_offset, ConsumerOptions, Handlers, ApplyError, already_applied, poison,
  transient, Reason, QuarantinedRecord, after_isolate, isolate_record, after_apply,
  deliver_classified, deliver_parsed, deliver, classify, quarantined, effect_reason, reason_for,
  salvage_identity, oversized_record, no_identity,
}

-- What an effect may answer for its record to be done with: success, already applied, or a poison
-- error with a reason.
abbrev pub IsHandled : Result ApplyError (Unit {0}) → Type 0
IsHandled (ok _) = Unit
IsHandled (err already_applied) = Unit
IsHandled (err (poison reason)) = (reason == 0) ≡ false
IsHandled (err (transient e)) = ⊥

module _ {W : Type 0} (decoder : Decoder) (digest : List ℕ → List ℕ) (options : ConsumerOptions)
    (handlers : Handlers W) (P : W → Type 0) (now_keeps : (w : W) → P w → P (handlers.now w).0)
    (isolate_keeps : (q : QuarantinedRecord) (w : W) → P w → P (handlers.isolate q w).0)
    (apply_keeps : (p : Parsed) (w : W) → P w → P (handlers.apply p w).0) where
  after_isolate-P :
      (x : W × Result ℕ (Unit {0})) → P x.0 → P (after_isolate decoder digest options handlers x).0
  after_isolate-P (w, ok _) h = h
  after_isolate-P (w, err e) h = h

  isolate_record-P :
      (r : Delivery) (reason : Reason) (p : Parsed) (w : W)
      → P w
      → P (isolate_record decoder digest options handlers r reason p w).0
  unfolding isolate_record
  isolate_record-P r reason p w h = after_isolate-P _ (isolate_keeps _ _ (now_keeps w h))

  after_apply-P :
      (r : Delivery) (p : Parsed) (x : W × Result ApplyError (Unit {0}))
      → P x.0
      → P (after_apply decoder digest options handlers r p x).0
  unfolding after_apply
  after_apply-P r p (w, ok _) h = h
  after_apply-P r p (w, err already_applied) h = h
  after_apply-P r p (w, err (poison reason)) h = elim (Bool-cases (reason == 0)) [
    | inl absent ↦ rw absent h
    | inr given ↦ rw given (isolate_record-P r (effect_reason reason) p w h)
  ]
  after_apply-P r p (w, err (transient e)) h = h

  deliver_classified-P :
      (r : Delivery) (p : Parsed) (reason : Option Reason) (w : W)
      → P w
      → P (deliver_classified decoder digest options handlers r p reason w).0
  unfolding deliver_classified
  deliver_classified-P r p (some reason) w h = isolate_record-P r reason p w h
  deliver_classified-P r p none w h = after_apply-P r p (handlers.apply p w) (apply_keeps p w h)

  deliver_parsed-P :
      (r : Delivery) (parsed : Result ParseError Parsed) (w : W)
      → P w
      → P (deliver_parsed decoder digest options handlers r parsed w).0
  unfolding deliver_parsed
  deliver_parsed-P r (err e) w h =
      isolate_record-P r (reason_for e) (salvage_identity decoder digest options r) w h
  deliver_parsed-P r (ok p) w h = deliver_classified-P r p _ w h

  -- A delivery keeps what each of its handlers keeps.
  pub deliver-P : (r : Delivery) (w : W) → P w → P (deliver decoder digest options handlers r w).0
  unfolding deliver
  deliver-P r w h =
      elim (Bool-cases
        (ltb 0 options.max_value_bytes && ltb options.max_value_bytes (length r.value))) [
          | inl oversized ↦ rw oversized (isolate_record-P r oversized_record no_identity w h)
          | inr fits ↦
              rw fits (deliver_parsed-P r (parse decoder r.value options.known_versions) w h)
        ]

  module _ (isolates : (q : QuarantinedRecord) (w : W) → P w → (handlers.isolate q w).1 ≡ ok tt)
      (handles : (p : Parsed) (w : W) → P w → IsHandled (handlers.apply p w).1) where
    isolate_record-commits :
        (r : Delivery) (reason : Reason) (p : Parsed) (w : W)
        → P w
        → (isolate_record decoder digest options handlers r reason p w).1 ≡ commit_offset
    unfolding isolate_record
    isolate_record-commits r reason p w h =
        rw
          (isolates (quarantined decoder digest options r reason p (handlers.now w).1)
            (handlers.now w).0 (now_keeps w h))
          refl

    after_apply-commits :
        (r : Delivery) (p : Parsed) (x : W × Result ApplyError (Unit {0}))
        → P x.0
        → IsHandled x.1
        → (after_apply decoder digest options handlers r p x).1 ≡ commit_offset
    unfolding after_apply
    after_apply-commits r p (w, ok _) h done = refl
    after_apply-commits r p (w, err already_applied) h done = refl
    after_apply-commits r p (w, err (poison reason)) h done =
        rw done (isolate_record-commits r (effect_reason reason) p w h)
    after_apply-commits r p (w, err (transient e)) h done = elim done [ ]

    deliver_parsed-commits :
        (r : Delivery) (parsed : Result ParseError Parsed) (w : W)
        → P w
        → (deliver_parsed decoder digest options handlers r parsed w).1 ≡ commit_offset
    unfolding deliver_parsed deliver_classified
    deliver_parsed-commits r (err e) w h =
        isolate_record-commits r (reason_for e) (salvage_identity decoder digest options r) w h
    deliver_parsed-commits r (ok p) w h =
        elim (classify decoder digest options r p)
          as (λ c. (deliver_classified decoder digest options handlers r p c w).1 ≡ commit_offset) [
            | some reason ↦ isolate_record-commits r reason p w h
            | none ↦
                after_apply-commits r p (handlers.apply p w) (apply_keeps p w h) (handles p w h)
          ]

    -- Where the effect handles every record and the quarantine takes it, a delivery commits.
    pub deliver-commits :
        (r : Delivery) (w : W)
        → P w
        → (deliver decoder digest options handlers r w).1 ≡ commit_offset
    unfolding deliver
    deliver-commits r w h =
        elim (Bool-cases
          (ltb 0 options.max_value_bytes && ltb options.max_value_bytes (length r.value))) [
            | inl oversized ↦
                rw oversized (isolate_record-commits r oversized_record no_identity w h)
            | inr fits ↦
                rw fits
                  (deliver_parsed-commits r (parse decoder r.value options.known_versions) w h)
          ]
