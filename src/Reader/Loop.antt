-- ===== src/Reader/Loop.antt =====
-- deliverUntilCommittable and Run of eventing/kafka/reader.go. The Kafka client, the contexts and the
-- timer are fields of `Client`; a turn of the loop is a function, and Run is a number of turns. Logging
-- and the callback for an outcome are left out.
use seta_im_intern.Prelude.{
  ℕ, zero, suc, ◌-◌, Bool, Option, none, some, List, [], ◌∷◌, ◌==◌, if◌then◌else◌, Result, ok, err,
}
use seta_im_intern.Consumer.Parse.{Decoder}
use seta_im_intern.Consumer.Deliver.{
  Delivery, Outcome, commit_offset, leave_uncommitted, ConsumerOptions, Handlers, deliver,
}

-- What ends the wait between two attempts.
pub data Wait : Type 0 where
  delivery_done stop_done elapsed : Wait

-- `stopped` is whether the context of Run has an error.
pub record Client (W : Type 0) : Type 0 where
  pub stopped : W → Bool
  pub fetch_message : W → W × Result ℕ Delivery
  pub commit_messages : Delivery → W → W × Result ℕ (Unit {0})
  pub wait : W → W × Wait

pub data ReaderError : Type 0 where
  delivery_stalled delivery_expired delivery_stopped : ReaderError
  fetch_failed commit_failed : ℕ → ReaderError

abbrev pub default_attempts : ℕ → ℕ
default_attempts n = if n == 0 then 5 else n

-- What a turn of the loop does: it goes on, with a message committed, or Run returns.
pub data Turn : Type 0 where
  goes_on : Delivery → Turn
  returns : Result ReaderError (Unit {0}) → Turn

module _ {W : Type 0} (decoder : Decoder) (digest : List ℕ → List ℕ) (options : ConsumerOptions)
    (handlers : Handlers W) (client : Client W) where
  abbrev pub after_wait :
      (W → W × Result ReaderError (Unit {0})) → W × Wait → W × Result ReaderError (Unit {0})
  after_wait next (w, delivery_done) = (w, err delivery_expired)
  after_wait next (w, stop_done) = (w, err delivery_stopped)
  after_wait next (w, elapsed) = next w

  abbrev pub after_delivery :
      (W → W × Result ReaderError (Unit {0})) → W × Outcome → W × Result ReaderError (Unit {0})
  after_delivery next (w, commit_offset) = (w, ok tt)
  after_delivery next (w, leave_uncommitted) =
      if client.stopped w then (w, err delivery_stopped) else next w

  -- The loop from an attempt on, with the number of attempts that may follow it.
  unfoldable pub deliver_attempts : ℕ → Delivery → W → W × Result ReaderError (Unit {0})
  deliver_attempts zero r w =
      after_delivery (λ w. (w, err delivery_stalled)) (deliver decoder digest options handlers r w)
  deliver_attempts (suc left) r w =
      after_delivery (λ w. after_wait (deliver_attempts left r) (client.wait w))
        (deliver decoder digest options handlers r w)

  unfoldable pub deliver_until_committable : ℕ → Delivery → W → W × Result ReaderError (Unit {0})
  unfolding deliver_attempts
  deliver_until_committable max_attempts r w =
      deliver_attempts (default_attempts max_attempts - 1) r w

  -- An error ends Run without one where its context has ended.
  abbrev pub give_up : ReaderError → W → W × Turn
  give_up e w = (w, returns (if client.stopped w then ok tt else err e))

  abbrev pub after_commit : Delivery → W × Result ℕ (Unit {0}) → W × Turn
  after_commit r (w, ok _) = (w, goes_on r)
  after_commit r (w, err e) = give_up (commit_failed e) w

  abbrev pub after_attempts : Delivery → W × Result ReaderError (Unit {0}) → W × Turn
  after_attempts r (w, ok _) = after_commit r (client.commit_messages r w)
  after_attempts r (w, err e) = give_up e w

  unfoldable pub after_fetch : ℕ → W × Result ℕ Delivery → W × Turn
  unfolding deliver_until_committable
  after_fetch max_attempts (w, err e) = give_up (fetch_failed e) w
  after_fetch max_attempts (w, ok r) = after_attempts r (deliver_until_committable max_attempts r w)

  unfoldable pub turn : ℕ → W → W × Turn
  unfolding after_fetch
  turn max_attempts w =
      if client.stopped w
      then (w, returns (ok tt))
      else after_fetch max_attempts (client.fetch_message w)

  -- At most a number of turns, with the messages that they committed, and what Run returned if it did.
  abbrev pub and_then :
      (W → W × List Delivery × Option (Result ReaderError (Unit {0})))
      → W × Turn
      → W × List Delivery × Option (Result ReaderError (Unit {0}))
  and_then next (w, returns r) = (w, [], some r)
  and_then next (w, goes_on r) = let (w', rs, result) = next w in (w', r ∷ rs, result)

  unfoldable pub run : ℕ → ℕ → W → W × List Delivery × Option (Result ReaderError (Unit {0}))
  unfolding turn
  run max_attempts zero w = (w, [], none)
  run max_attempts (suc turns) w = and_then (run max_attempts turns) (turn max_attempts w)
