-- ===== src/Reader/Served.antt =====
-- How a message is served (eventing/kafka/reader.go): attempts at its delivery until one may be
-- committed, then its commit.
use seta_im_intern.Prelude.{ℕ, zero, suc, ◌≡◌, List, ok}
use seta_im_intern.Consumer.Parse.{Decoder}
use seta_im_intern.Consumer.Deliver.{
  Delivery, commit_offset, leave_uncommitted, ConsumerOptions, Handlers, deliver,
}
use seta_im_intern.Reader.Loop.{Client, elapsed}

module _ {W : Type 0} (decoder : Decoder) (digest : List ℕ → List ℕ) (options : ConsumerOptions)
    (handlers : Handlers W) (client : Client W) where
  -- Deliveries of one message, with a wait between two of them; the last one asks for the commit and
  -- none before does.
  pub data Attempts (r : Delivery) : W → W → Type 0 where
    handled :
        {w : W}
        → (deliver decoder digest options handlers r w).1 ≡ commit_offset
        → Attempts r w (deliver decoder digest options handlers r w).0
    retried :
        {w w' : W}
        → (deliver decoder digest options handlers r w).1 ≡ leave_uncommitted
        → (client.wait (deliver decoder digest options handlers r w).0).1 ≡ elapsed
        → Attempts r (client.wait (deliver decoder digest options handlers r w).0).0 w'
        → Attempts r w w'

  -- A message is fetched, delivered by attempts, and committed.
  pub data ServesOne (r : Delivery) : W → W → Type 0 where
    serves_one :
        {w w' : W}
        → (client.fetch_message w).1 ≡ ok r
        → Attempts r (client.fetch_message w).0 w'
        → (client.commit_messages r w').1 ≡ ok tt
        → ServesOne r w (client.commit_messages r w').0

  -- A number of messages from a position on, one after the other.
  pub data Serves (messages : ℕ → Delivery) : ℕ → ℕ → W → W → Type 0 where
    rests : {first : ℕ} {w : W} → Serves messages first zero w w
    serves :
        {first n : ℕ} {w w1 w2 : W}
        → ServesOne (messages first) w w1
        → Serves messages (suc first) n w1 w2
        → Serves messages first (suc n) w w2
