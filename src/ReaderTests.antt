-- ===== src/ReaderTests.antt =====
-- A partition where an outage begins with every message and ends after one wait, and the theorem about
-- the reader there.
use seta_im_intern.Prelude.{
  ℕ, suc, ◌+◌, ◌≡◌, refl, Bool, true, false, none, some, [], ◌∷◌, if◌then◌else◌, ok, err, arith,
  Bool-cases, inl, inr,
}
use seta_im_intern.Consumer.Parse.{Parsed}
use seta_im_intern.Reader.Delivered.{IsHandled}
use seta_im_intern.Consumer.Deliver.{Delivery, Handlers, transient, deliver}
use seta_im_intern.Reader.Loop.{Client, elapsed, run, delivery_stalled}
use seta_im_intern.Reader.Served.{Serves}
use seta_im_intern.Reader.Live.{IsLive, run-IsLive}
use seta_im_intern.ConsumerTests.{decoder, digest, options}

record Partition : Type 0 where
  broken : Bool
  fetched : ℕ
  committed : ℕ

abbrev message : ℕ → Delivery
message n = record { topic = 1; partition = 2; offset = n; key = 20; value = 2 ∷ 20 ∷ [] }

abbrev handlers : Handlers Partition
handlers = record {
  apply = λ p w. (w, (if w.broken then err (transient 1) else ok tt));
  isolate = λ q w. (w, ok tt);
  now = λ w. (w, 0);
}

abbrev client : Client Partition
client = record {
  stopped = λ w. false;
  fetch_message =
      λ w. (record w { broken = true; fetched = suc w.fetched }, ok (message w.fetched));
  commit_messages = λ r w. (record w { committed = suc r.offset }, ok tt);
  wait = λ w. (record w { broken = false }, elapsed);
}

abbrev at_offset : ℕ → Partition
at_offset n = record { broken = false; fetched = n; committed = n }

commits_two :
    run decoder digest options handlers client 2 2 (at_offset 5)
    ≡ (record { broken = false; fetched = 7; committed = 7 }, message 5 ∷ message 6 ∷ [], none)
unfolding run deliver
commits_two = refl

-- With one attempt the reader stops at the first message and leaves its offset.
stalls :
    run decoder digest options handlers client 1 2 (at_offset 5)
    ≡ (record { broken = true; fetched = 6; committed = 5 }, [], some (err delivery_stalled))
unfolding run deliver
stalls = refl

abbrev down : Partition → ℕ
down w = if w.broken then 1 else 0

one_is_not_zero : (w : Partition) → w.broken ≡ true → down w ≡ 0 → ⊥
one_is_not_zero w broken h = let h' = rw broken at h in omega (arith, h')

is_live : IsLive handlers client 2 message down (λ w. w.fetched) (λ w. w.committed)
is_live = record {
  running = λ w. refl;
  fetches = λ w. refl;
  fetch_counts = λ w. refl;
  outages_end = λ w. ground arith;
  commits = λ r w. refl;
  commit_moves = λ n w. refl;
  commit_fetched = λ r w. refl;
  waits = λ w. refl;
  wait_mends = λ w. ground arith;
  wait_fetched = λ w. refl;
  now_down = λ w. omega arith;
  now_fetched = λ w. refl;
  isolate_down = λ q w. omega arith;
  isolate_fetched = λ q w. refl;
  apply_down = λ p w. omega arith;
  apply_fetched = λ p w. refl;
  isolates = λ q w h. refl;
  handles = handled;
}
  where
    handled : (p : Parsed) (w : Partition) → down w ≡ 0 → IsHandled (handlers.apply p w).1
    handled p w h = elim (Bool-cases w.broken) [
      | inl broken ↦ elim (one_is_not_zero w broken h) [ ]
      | inr up ↦ rw up tt
    ]

run-IsLive_example :
    let x = run decoder digest options handlers client 2 3 (at_offset 5) in
    (x.1 ≡ message 5 ∷ message 6 ∷ message 7 ∷ [])
    × (x.2 ≡ none)
    × (x.0.committed ≡ 3 + 5)
    × Serves decoder digest options handlers client message 5 3 (at_offset 5) x.0
run-IsLive_example =
    run-IsLive decoder digest options handlers client 2 message down (λ w. w.fetched)
      (λ w. w.committed) is_live 3 (at_offset 5) refl
