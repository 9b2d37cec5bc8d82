-- ===== src/Examples/Polling.antt =====
-- The poller at work: a channel that counts its receivers and keeps what it was given.
use spox.Prelude.{
  ℕ, zero, suc, ◌+◌, ◌-◌, ◌<◌, Bool, true, false, none, List, [], ◌∷◌, ◌++◌, ◌≡◌, refl, arith,
}
use spox.Error.{ok, err, stacks_node_request}
use spox.BitcoinApi.{BlockRef}
use spox.ChainTip.{
  Broadcast, subscribed, dropped, Poll, start, perform, run_poller, Changes, run_poller-Changes,
  new_receiver,
}
use spox.ChainTip.Sending.{IsCounted, run_poller-current}

pub record Channel : Type 0 where
  pub receivers : ℕ
  pub sent : List BlockRef

abbrev send : BlockRef → ℕ → Channel → Bool × Channel
send tip zero c = (false, c)
send tip (suc n) c = (true, record c { sent = c.sent ++ tip ∷ [] })

abbrev pub broadcast : Broadcast Channel (Unit {0})
broadcast = record {
  channel = λ n. (record { receivers = 1; sent = [] }, tt);
  send = λ tip c. send tip c.receivers c;
  subscribe = λ c. (tt, record c { receivers = c.receivers + 1 });
  drop = λ rx c. record c { receivers = c.receivers - 1 };
}

sends_lem :
    (tip : BlockRef) (n : ℕ) (c : Channel)
    → (0 < n → ((send tip n c).0 ≡ true) × ((send tip n c).1.sent ≡ c.sent ++ tip ∷ []))
      × (n ≡ 0 → ((send tip n c).0 ≡ false) × ((send tip n c).1.sent ≡ c.sent))
sends_lem tip zero c = (λ h. absurd (omega arith), λ h. (refl, refl))
sends_lem tip (suc n) c = (λ h. (refl, refl), λ h. absurd (omega arith))

abbrev counted : IsCounted broadcast
counted = record {
  receivers = λ c. c.receivers;
  sent = λ c. c.sent;
  created = λ n. (refl, refl);
  sends = λ tip c. (sends_lem tip c.receivers c).0;
  fails = λ tip c. (sends_lem tip c.receivers c).1;
  subscribes = λ c. (refl, refl);
  drops = λ rx c. (refl, refl);
}

abbrev tip : ℕ → BlockRef
tip height = record { block_height = height; block_hash = "hash" }

-- A tip that nobody waits for, a poll that fails after the program has subscribed twice, that tip
-- again, and a tip that is found twice.
abbrev polls : List (Poll (Unit {0}))
polls =
    record { before = []; tip = ok (tip 1) }
    ∷ record { before = subscribed ∷ subscribed ∷ []; tip = err (stacks_node_request "timeout") }
    ∷ record { before = []; tip = ok (tip 1) }
    ∷ record { before = dropped tt ∷ []; tip = ok (tip 2) }
    ∷ record { before = []; tip = ok (tip 2) }
    ∷ []

run_poller-Changes_example :
    let ((last, tips), _) = run_poller broadcast polls none (start broadcast) in
    Changes none tips last
run_poller-Changes_example = run_poller-Changes broadcast polls none (start broadcast)

abbrev next_poll : Poll (Unit {0})
next_poll = record { before = []; tip = ok (tip 3) }

has_receiver :
    0 < (perform broadcast [] (run_poller broadcast polls none (start broadcast)).1).receivers
unfolding run_poller start new_receiver
has_receiver = omega arith

run_poller-current_example :
    let ((last, tips), c) = run_poller broadcast (polls ++ next_poll ∷ []) none (start broadcast) in
    (c.sent ≡ tips) × ((front : List BlockRef) × (tips ≡ front ++ tip 3 ∷ []))
run_poller-current_example =
    run_poller-current broadcast counted polls next_poll (tip 3) refl has_receiver
