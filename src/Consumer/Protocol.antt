-- ===== src/Consumer/Protocol.antt =====
-- What a delivery does before its offset may be committed.
use seta_im_intern.Prelude.{
  ℕ, zero, suc, ◌≡◌, refl, true, false, ◌&&◌, Option, none, some, List, ◌∷◌, ltb, ◌==◌, length,
  Bool-cases, inl, inr, Result, ok, err, arith,
}
use seta_im_intern.Consumer.Parse.{Decoder, Parsed, ParseError, parse}
use seta_im_intern.Consumer.Deliver.{
  Delivery, Outcome, leave_uncommitted, commit_offset, Reason, oversized_record, effect_reason,
  ApplyError, already_applied, poison, transient, QuarantinedRecord, ConsumerOptions, Handlers,
  no_identity, reason_for, classify, salvage_identity, quarantined, after_isolate, isolate_record,
  after_apply, deliver_classified, deliver_parsed, deliver,
}

-- A call of the consumer with its answer, the newest first in a log.
pub data Event : Type 0 where
  applied repeated failed : Parsed → Event
  poisoned : Parsed → ℕ → Event
  isolated unreachable : QuarantinedRecord → Event

abbrev pub event_of_apply : Parsed → Result ApplyError (Unit {0}) → Event
event_of_apply p (ok _) = applied p
event_of_apply p (err already_applied) = repeated p
event_of_apply p (err (poison n)) = poisoned p n
event_of_apply p (err (transient n)) = failed p

abbrev pub event_of_isolate : QuarantinedRecord → Result ℕ (Unit {0}) → Event
event_of_isolate q (ok _) = isolated q
event_of_isolate q (err _) = unreachable q

-- The same handlers, keeping a log.
abbrev pub logged : {W : Type 0} → Handlers W → Handlers (W × List Event)
logged handlers = record {
  apply = λ p (w, log).
      let (w', result) = handlers.apply p w in ((w', event_of_apply p result ∷ log), result);
  isolate = λ q (w, log).
      let (w', result) = handlers.isolate q w in ((w', event_of_isolate q result ∷ log), result);
  now = λ (w, log). let (w', t) = handlers.now w in ((w', log), t);
}

module _ (decoder : Decoder) (digest : List ℕ → List ℕ) (options : ConsumerOptions)
    (r : Delivery) where
  -- The record is within the size limit, parses, and is routed to this consumer under its key.
  pub record IsAccepted (p : Parsed) : Type 0 where
    pub small :
        (ltb 0 options.max_value_bytes && ltb options.max_value_bytes (length r.value)) ≡ false
    pub parses : parse decoder r.value options.known_versions ≡ ok p
    pub routed : classify decoder digest options r p ≡ none

  -- Why the record is not applied, and what is known of the event in it.
  pub data IsRefused : Reason → Parsed → Type 0 where
    oversized :
        (ltb 0 options.max_value_bytes && ltb options.max_value_bytes (length r.value)) ≡ true
        → IsRefused oversized_record no_identity
    unparsed :
        (e : ParseError)
        → (ltb 0 options.max_value_bytes && ltb options.max_value_bytes (length r.value)) ≡ false
        → parse decoder r.value options.known_versions ≡ err e
        → IsRefused (reason_for e) (salvage_identity decoder digest options r)
    misrouted :
        (reason : Reason) (p : Parsed)
        → (ltb 0 options.max_value_bytes && ltb options.max_value_bytes (length r.value)) ≡ false
        → parse decoder r.value options.known_versions ≡ ok p
        → classify decoder digest options r p ≡ some reason
        → IsRefused reason p

  -- The quarantine gets the place of this record, its digest, the reason and the identity.
  pub data Isolates (reason : Reason) (identity : Parsed) (log : List Event)
      : List Event → Outcome → Type 0 where
    isolates :
        (t : ℕ)
        → Isolates reason identity log
            (isolated (quarantined decoder digest options r reason identity t) ∷ log)
            commit_offset
    fails :
        (t : ℕ)
        → Isolates reason identity log
            (unreachable (quarantined decoder digest options r reason identity t) ∷ log)
            leave_uncommitted

  pub data Delivers (log : List Event) : List Event → Outcome → Type 0 where
    refuses :
        {log' : List Event} {outcome : Outcome} (reason : Reason) (identity : Parsed)
        → IsRefused reason identity
        → Isolates reason identity log log' outcome
        → Delivers log log' outcome
    applies : (p : Parsed) → IsAccepted p → Delivers log (applied p ∷ log) commit_offset
    repeats : (p : Parsed) → IsAccepted p → Delivers log (repeated p ∷ log) commit_offset
    retries : (p : Parsed) → IsAccepted p → Delivers log (failed p ∷ log) leave_uncommitted
    -- A poison error without a reason is an error like any other.
    retries_nameless :
        (p : Parsed) → IsAccepted p → Delivers log (poisoned p 0 ∷ log) leave_uncommitted
    gives_up :
        {log' : List Event} {outcome : Outcome} (p : Parsed) (n : ℕ)
        → IsAccepted p
        → Isolates (effect_reason n) p (poisoned p n ∷ log) log' outcome
        → Delivers log log' outcome

named : (n : ℕ) → (suc n == 0) ≡ false
named n = ground arith

module _ (decoder : Decoder) (digest : List ℕ → List ℕ) (options : ConsumerOptions) (r : Delivery)
    {W : Type 0} (handlers : Handlers W) where
  Isolates-after_isolate :
      (reason : Reason) (identity : Parsed) (t : ℕ) (w : W) (log : List Event)
      (result : Result ℕ (Unit {0}))
      → let q = quarantined decoder digest options r reason identity t in
        let x =
          after_isolate decoder digest options
            (logged handlers)
            ((w, event_of_isolate q result ∷ log), result) in
        Isolates decoder digest options r reason identity log x.0.1 x.1
  Isolates-after_isolate reason identity t w log (ok u) = isolates t
  Isolates-after_isolate reason identity t w log (err e) = fails t

  Isolates-isolate_record :
      (reason : Reason) (identity : Parsed) (w : W) (log : List Event)
      → let x =
          isolate_record decoder digest options (logged handlers) r reason identity (w, log) in
        Isolates decoder digest options r reason identity log x.0.1 x.1
  unfolding isolate_record
  Isolates-isolate_record reason identity w log =
      Isolates-after_isolate reason identity (handlers.now w).1 _ log _

  Delivers-poisoned :
      (p : Parsed) (accepted : IsAccepted decoder digest options r p) (w : W) (log : List Event)
      (n : ℕ)
      → let x =
          after_apply decoder digest options
            (logged handlers)
            r
            p
            ((w, poisoned p n ∷ log), err (poison n)) in
        Delivers decoder digest options r log x.0.1 x.1
  unfolding after_apply
  Delivers-poisoned p accepted w log zero = retries_nameless p accepted
  Delivers-poisoned p accepted w log (suc n) = rw (named n) (
      gives_up p (suc n) accepted
        (Isolates-isolate_record (effect_reason (suc n)) p w (poisoned p (suc n) ∷ log)))

  Delivers-after_apply :
      (p : Parsed) (accepted : IsAccepted decoder digest options r p) (w : W) (log : List Event)
      (result : Result ApplyError (Unit {0}))
      → let x =
          after_apply decoder digest options
            (logged handlers)
            r
            p
            ((w, event_of_apply p result ∷ log), result) in
        Delivers decoder digest options r log x.0.1 x.1
  unfolding after_apply
  Delivers-after_apply p accepted w log (ok u) = applies p accepted
  Delivers-after_apply p accepted w log (err already_applied) = repeats p accepted
  Delivers-after_apply p accepted w log (err (transient n)) = retries p accepted
  Delivers-after_apply p accepted w log (err (poison n)) = Delivers-poisoned p accepted w log n

  Delivers-deliver_classified :
      (p : Parsed)
      → (ltb 0 options.max_value_bytes && ltb options.max_value_bytes (length r.value)) ≡ false
      → parse decoder r.value options.known_versions ≡ ok p
      → (reason : Option Reason) → classify decoder digest options r p ≡ reason
      → (w : W) (log : List Event)
      → let x = deliver_classified decoder digest options (logged handlers) r p reason (w, log) in
        Delivers decoder digest options r log x.0.1 x.1
  unfolding deliver_classified
  Delivers-deliver_classified p small parses (some reason) e w log =
      refuses reason p (misrouted reason p small parses e) (Isolates-isolate_record reason p w log)
  Delivers-deliver_classified p small parses none e w log =
      Delivers-after_apply p (record { small = small; parses = parses; routed = e })
        (handlers.apply p w).0 log (handlers.apply p w).1

  Delivers-deliver_parsed :
      (ltb 0 options.max_value_bytes && ltb options.max_value_bytes (length r.value)) ≡ false
      → (result : Result ParseError Parsed) → parse decoder r.value options.known_versions ≡ result
      → (w : W) (log : List Event)
      → let x = deliver_parsed decoder digest options (logged handlers) r result (w, log) in
        Delivers decoder digest options r log x.0.1 x.1
  unfolding deliver_parsed
  Delivers-deliver_parsed small (err e) parses w log =
      refuses (reason_for e) (salvage_identity decoder digest options r) (unparsed e small parses)
        (Isolates-isolate_record (reason_for e) (salvage_identity decoder digest options r) w log)
  Delivers-deliver_parsed small (ok p) parses w log =
      Delivers-deliver_classified p small parses _ refl w log

  -- Every delivery follows `Delivers`: its offset may be committed only after the effect applied
  -- the accepted event, or had applied it before, or the quarantine took this very record.
  pub Delivers-deliver :
      (w : W) (log : List Event)
      → let x = deliver decoder digest options (logged handlers) r (w, log) in
        Delivers decoder digest options r log x.0.1 x.1
  unfolding deliver
  Delivers-deliver w log =
      elim (Bool-cases
        (ltb 0 options.max_value_bytes && ltb options.max_value_bytes (length r.value))) [
          | inl large ↦ rw large (
              refuses oversized_record no_identity (oversized large)
                (Isolates-isolate_record oversized_record no_identity w log))
          | inr small ↦ rw small (
              Delivers-deliver_parsed small (parse decoder r.value options.known_versions) refl w
                log)
        ]
