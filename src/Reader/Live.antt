-- ===== src/Reader/Live.antt =====
-- The reader goes on through outages that are shorter than its attempts.
use seta_im_intern.Prelude.{
  ℕ, zero, suc, ◌+◌, ◌-◌, ◌≤◌, ◌≡◌, refl, sym, subst, ◌∙◌, false, Option, none, List, [], ◌∷◌,
  Result, ok, err, ok-injective, arith,
}
use seta_im_intern.Consumer.Parse.{Decoder, Parsed}
use seta_im_intern.Consumer.Deliver.{
  Delivery, Outcome, commit_offset, leave_uncommitted, ConsumerOptions, Handlers, QuarantinedRecord,
  deliver,
}
use seta_im_intern.Reader.Delivered.{IsHandled, deliver-P, deliver-commits}
use seta_im_intern.Reader.Served.{
  Attempts, handled, retried, ServesOne, serves_one, Serves, rests, serves,
}
use seta_im_intern.Reader.Loop.{
  Client, Wait, delivery_done, stop_done, elapsed, ReaderError, delivery_stalled, Turn, goes_on,
  returns, default_attempts, after_wait, after_delivery, deliver_attempts,
  deliver_until_committable, after_attempts, after_commit, after_fetch, turn, and_then, run,
}

-- A partition, its outages, and a reader that is not stopped. `down` bounds the waits that an outage
-- still lasts, `fetched` counts the messages fetched, and `committed` is the group's offset.
pub record IsLive {W : Type 0} (handlers : Handlers W) (client : Client W) (attempts : ℕ)
    (messages : ℕ → Delivery) (down fetched committed : W → ℕ) : Type 0 where
  pub running : (w : W) → client.stopped w ≡ false
  pub fetches : (w : W) → (client.fetch_message w).1 ≡ ok (messages (fetched w))
  pub fetch_counts : (w : W) → fetched (client.fetch_message w).0 ≡ suc (fetched w)
  pub outages_end : (w : W) → down w ≤ attempts - 1
  pub commits : (r : Delivery) (w : W) → (client.commit_messages r w).1 ≡ ok tt
  pub commit_moves : (n : ℕ) (w : W) → committed (client.commit_messages (messages n) w).0 ≡ suc n
  pub commit_fetched : (r : Delivery) (w : W) → fetched (client.commit_messages r w).0 ≡ fetched w
  pub waits : (w : W) → (client.wait w).1 ≡ elapsed
  pub wait_mends : (w : W) → down (client.wait w).0 ≤ down w - 1
  pub wait_fetched : (w : W) → fetched (client.wait w).0 ≡ fetched w
  pub now_down : (w : W) → down (handlers.now w).0 ≤ down w
  pub now_fetched : (w : W) → fetched (handlers.now w).0 ≡ fetched w
  pub isolate_down : (q : QuarantinedRecord) (w : W) → down (handlers.isolate q w).0 ≤ down w
  pub isolate_fetched :
      (q : QuarantinedRecord) (w : W) → fetched (handlers.isolate q w).0 ≡ fetched w
  pub apply_down : (p : Parsed) (w : W) → down (handlers.apply p w).0 ≤ down w
  pub apply_fetched : (p : Parsed) (w : W) → fetched (handlers.apply p w).0 ≡ fetched w
  pub isolates : (q : QuarantinedRecord) (w : W) → down w ≡ 0 → (handlers.isolate q w).1 ≡ ok tt
  pub handles : (p : Parsed) (w : W) → down w ≡ 0 → IsHandled (handlers.apply p w).1

abbrev pub messages_from : (ℕ → Delivery) → ℕ → ℕ → List Delivery
messages_from messages first zero = []
messages_from messages first (suc n) = messages first ∷ messages_from messages (suc first) n

module _ {W : Type 0} (decoder : Decoder) (digest : List ℕ → List ℕ) (options : ConsumerOptions)
    (handlers : Handlers W) (client : Client W) (max_attempts : ℕ) (messages : ℕ → Delivery)
    (down fetched committed : W → ℕ)
    (live : IsLive handlers client
      (default_attempts max_attempts)
      messages
      down
      fetched
      committed) where
  -- A delivery does not prolong an outage and fetches nothing.
  abbrev Within : W → W → Type 0
  Within w v = (down v ≤ down w) × (fetched v ≡ fetched w)

  Within-deliver : (r : Delivery) (w : W) → Within w (deliver decoder digest options handlers r w).0
  Within-deliver r w =
      deliver-P decoder digest options handlers (Within w)
        (λ v h. (omega (arith, h.0, live.now_down v), live.now_fetched v ∙ h.1))
        (λ q v h. (omega (arith, h.0, live.isolate_down q v), live.isolate_fetched q v ∙ h.1))
        (λ p v h. (omega (arith, h.0, live.apply_down p v), live.apply_fetched p v ∙ h.1)) r w
        (omega arith, refl)

  up-deliver :
      (r : Delivery) (w : W)
      → down w ≡ 0
      → (deliver decoder digest options handlers r w).1 ≡ commit_offset
  up-deliver =
      deliver-commits decoder digest options handlers (λ v. down v ≡ 0)
        (λ v h. omega (arith, h, live.now_down v))
        (λ q v h. omega (arith, h, live.isolate_down q v))
        (λ p v h. omega (arith, h, live.apply_down p v)) live.isolates live.handles

  abbrev IsDelivered : Delivery → W → W × Result ReaderError (Unit {0}) → Type 0
  IsDelivered r w x =
      (x.1 ≡ ok tt)
      × (fetched x.0 ≡ fetched w)
      × Attempts decoder digest options handlers client r w x.0

  IsDelivered-commit :
      (r : Delivery) (w : W) (next : W → W × Result ReaderError (Unit {0})) (x : W × Outcome)
      → x.1 ≡ commit_offset
      → fetched x.0 ≡ fetched w
      → Attempts decoder digest options handlers client r w x.0
      → IsDelivered r w (after_delivery decoder digest options handlers client next x)
  IsDelivered-commit r w next (v, commit_offset) e same done = (refl, same, done)
  IsDelivered-commit r w next (v, leave_uncommitted) e same done = cc

  IsDelivered-wait :
      (r : Delivery) (w : W) (next : W → W × Result ReaderError (Unit {0})) (x : W × Wait)
      → x.1 ≡ elapsed
      → IsDelivered r w (next x.0)
      → IsDelivered r w (after_wait decoder digest options handlers client next x)
  IsDelivered-wait r w next (v, delivery_done) e h = cc
  IsDelivered-wait r w next (v, stop_done) e h = cc
  IsDelivered-wait r w next (v, elapsed) e h = h

  IsDelivered-next :
      (r : Delivery) (w : W) (next : W → W × Result ReaderError (Unit {0})) (x : W × Outcome)
      → fetched x.0 ≡ fetched w
      → (x.1 ≡ commit_offset → Attempts decoder digest options handlers client r w x.0)
      → (x.1 ≡ leave_uncommitted → IsDelivered r w (next x.0))
      → IsDelivered r w (after_delivery decoder digest options handlers client next x)
  IsDelivered-next r w next (v, commit_offset) same done h = (refl, same, done refl)
  IsDelivered-next r w next (v, leave_uncommitted) same done h = rw (live.running v) (h refl)

  IsDelivered-deliver_attempts :
      (left : ℕ) (r : Delivery) (w : W)
      → down w ≤ left
      → IsDelivered r w (deliver_attempts decoder digest options handlers client left r w)
  unfolding deliver_attempts
  IsDelivered-deliver_attempts zero r w short =
      let up = up-deliver r w (omega (arith, short)) in
      IsDelivered-commit r w (λ v. (v, err delivery_stalled))
        (deliver decoder digest options handlers r w) up (Within-deliver r w).1 (handled up)
  IsDelivered-deliver_attempts (suc left) r w short =
      let w1 = (deliver decoder digest options handlers r w).0 in
      let w2 = (client.wait w1).0 in
      let later =
        IsDelivered-deliver_attempts left r w2
          (omega (arith, short, (Within-deliver r w).0, live.wait_mends w1)) in
      IsDelivered-next r w
        (λ v.
          after_wait decoder digest options handlers client
            (deliver_attempts decoder digest options handlers client left r) (client.wait v))
        (deliver decoder digest options handlers r w) (Within-deliver r w).1 (λ done. handled done)
        (λ undone.
          IsDelivered-wait r w (deliver_attempts decoder digest options handlers client left r)
            (client.wait w1) (live.waits w1)
            (
              later.0,
              later.1 ∙ live.wait_fetched w1 ∙ (Within-deliver r w).1,
              retried undone (live.waits w1) later.2,
            ))

  -- A turn that serves the message at a position.
  abbrev IsTurned : ℕ → W → W × Turn → Type 0
  IsTurned n w x =
      (x.1 ≡ goes_on (messages n))
      × (fetched x.0 ≡ suc n)
      × (committed x.0 ≡ suc n)
      × ServesOne decoder digest options handlers client (messages n) w x.0

  IsTurned-commit :
      (n : ℕ) (w : W) (x : W × Result ℕ (Unit {0}))
      → x.1 ≡ ok tt
      → fetched x.0 ≡ suc n
      → committed x.0 ≡ suc n
      → ServesOne decoder digest options handlers client (messages n) w x.0
      → IsTurned n w (after_commit decoder digest options handlers client (messages n) x)
  IsTurned-commit n w (v, ok u) e f c one = (refl, f, c, one)
  IsTurned-commit n w (v, err x) e f c one = cc

  IsTurned-attempts :
      (n : ℕ) (w : W) (x : W × Result ReaderError (Unit {0}))
      → x.1 ≡ ok tt
      → fetched x.0 ≡ suc n
      → ServesOne decoder digest options handlers client
          (messages n)
          w
          (client.commit_messages (messages n) x.0).0
      → IsTurned n w (after_attempts decoder digest options handlers client (messages n) x)
  IsTurned-attempts n w (v, ok u) e f one =
      IsTurned-commit n w (client.commit_messages (messages n) v) (live.commits (messages n) v)
        (live.commit_fetched (messages n) v ∙ f) (live.commit_moves n v) one
  IsTurned-attempts n w (v, err x) e f one = cc

  IsTurned-fetch :
      (n : ℕ) (w : W) (x : W × Result ℕ Delivery)
      → x.1 ≡ ok (messages n)
      → fetched x.0 ≡ suc n
      → ((v : W)
          → Attempts decoder digest options handlers client (messages n) x.0 v
          → ServesOne decoder digest options handlers client
              (messages n)
              w
              (client.commit_messages (messages n) v).0)
      → IsTurned n w (after_fetch decoder digest options handlers client max_attempts x)
  unfolding after_fetch deliver_until_committable
  IsTurned-fetch n w (v, ok r) e f one =
      let h =
        IsDelivered-deliver_attempts (default_attempts max_attempts - 1) (messages n) v
          (live.outages_end v) in
      rw (ok-injective e) (IsTurned-attempts n w _ h.0 (h.1 ∙ f) (one _ h.2))
  IsTurned-fetch n w (v, err x) e f one = cc

  IsTurned-turn :
      (w : W) → IsTurned (fetched w) w (turn decoder digest options handlers client max_attempts w)
  unfolding turn
  IsTurned-turn w = rw (live.running w) (
      IsTurned-fetch (fetched w) w (client.fetch_message w) (live.fetches w) (live.fetch_counts w)
        (λ v attempts.
          serves_one (live.fetches w) attempts (live.commits (messages (fetched w)) v)))

  -- A run of turns that serves the messages from a position on.
  abbrev IsRun : ℕ → ℕ → W → W × List Delivery × Option (Result ReaderError (Unit {0})) → Type 0
  IsRun first n w x =
      (x.1 ≡ messages_from messages first n)
      × (x.2 ≡ none)
      × (committed x.0 ≡ n + first)
      × Serves decoder digest options handlers client messages first n w x.0

  IsRun-and_then :
      (first n : ℕ) (w : W) (next : W → W × List Delivery × Option (Result ReaderError (Unit {0})))
      (x : W × Turn)
      → x.1 ≡ goes_on (messages first)
      → ServesOne decoder digest options handlers client (messages first) w x.0
      → IsRun (suc first) n x.0 (next x.0)
      → IsRun first (suc n) w (and_then decoder digest options handlers client next x)
  IsRun-and_then first n w next (v, returns r) e one h = cc
  IsRun-and_then first n w next (v, goes_on r) e one h =
      let same : r ≡ messages first = cc in (cc, h.1, omega (arith, h.2), serves one h.3)

  -- The reader makes progress: where outages of the effect and the quarantine end within the attempts,
  -- outside them the effect handles every record and the quarantine takes it, the broker answers and
  -- nobody stops the reader, any number of turns serves that many messages, in the order of the
  -- partition and without a gap, and the reader runs on. Each message is fetched, delivered until a
  -- delivery asks for its commit, with a wait after each delivery that does not, and then committed.
  pub run-IsLive :
      (n : ℕ) (w : W)
      → committed w ≡ fetched w
      → let x = run decoder digest options handlers client max_attempts n w in
        (x.1 ≡ messages_from messages (fetched w) n)
        × (x.2 ≡ none)
        × (committed x.0 ≡ n + fetched w)
        × Serves decoder digest options handlers client messages (fetched w) n w x.0
  unfolding run
  run-IsLive zero w level = (refl, refl, omega (arith, level), rests)
  run-IsLive (suc n) w level =
      let x = turn decoder digest options handlers client max_attempts w in
      let (e, f, c, one) = IsTurned-turn w in
      IsRun-and_then (fetched w) n w (run decoder digest options handlers client max_attempts n) x e
        one
        (subst (λ p. IsRun p n x.0 (run decoder digest options handlers client max_attempts n x.0))
          f (run-IsLive n x.0 (c ∙ sym f)))
