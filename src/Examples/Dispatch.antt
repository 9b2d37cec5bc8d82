-- ===== src/Examples/Dispatch.antt =====
-- The dispatcher at work: a process that takes two tips, falls behind once, and ends.
use spox.Prelude.{
  ℕ, ◌<◌, ltb, Bool, true, false, Option, none, some, List, [], ◌∷◌, ◌++◌, map, length,
  if◌then◌else◌, ◌≡◌, refl, sym, arith,
}
use spox.Prelude.Subseq.{Subseq}
use spox.Error.{ok, err, scan_already_in_progress}
use spox.ChainTip.{Poll, run_poller, subscribed, new_receiver}
use spox.ChainTip
use spox.Examples.Polling.{broadcast}
use spox.Dispatch.Sources.{Delivers, reported, taken-Subseq}
use spox.BitcoinApi.{BlockRef}
use spox.Dispatch.{Mailbox, Recv, received, lagged, closed, dispatch, run_on_chain_tips}
use spox.Dispatch.Schedule.{Act, take, drop, Turn, maybe_cons, functions, taken, IsBounded}
use spox.Dispatch.Delivery.{start}
use spox.Dispatch.Arrival.{all_taken, KeepsUp, run_on_chain_tips-arrives}

-- A queue with its capacity, and whether its receiver was dropped.
pub record Queue : Type 0 where
  pub items : List BlockRef
  pub room : ℕ
  pub dropped : Bool

abbrev try_send : BlockRef → Queue → Bool × Queue
try_send tip q =
    if q.dropped
    then (false, q)
    else if ltb (length q.items) q.room
    then (true, record q { items = q.items ++ tip ∷ [] })
    else (false, q)

abbrev recv_from : List BlockRef → Queue → Option BlockRef × Queue
recv_from [] q = (none, q)
recv_from (tip ∷ tips) q = (some tip, record q { items = tips })

abbrev queue : Mailbox Queue
queue = record {
  channel = λ n. record { items = []; room = n; dropped = false };
  try_send = try_send;
  is_closed = λ q. q.dropped;
  recv = λ q. recv_from q.items q;
  close = λ q. record q { items = []; dropped = true };
}

recv_from_lem :
    (tips : List BlockRef) (q : Queue)
    → q.items ≡ tips
    → (tips ≡ maybe_cons (recv_from tips q).0 (recv_from tips q).1.items)
      × ((recv_from tips q).0 ≡ none → tips ≡ [])
      × ((recv_from tips q).1.room ≡ q.room)
recv_from_lem [] q h = (sym h, λ e. refl, refl)
recv_from_lem (tip ∷ tips) q h = (refl, λ e. cc, refl)

try_send_lem :
    (tip : BlockRef) (q : Queue)
    → (q.dropped ≡ false → length q.items < q.room → (try_send tip q).0 ≡ true)
      × ((try_send tip q).0 ≡ true
          → ((try_send tip q).1.items ≡ q.items ++ tip ∷ []) × (length q.items < q.room))
      × ((try_send tip q).0 ≡ false → (try_send tip q).1.items ≡ q.items)
      × ((try_send tip q).1.room ≡ q.room)
try_send_lem tip q = (
  λ alive fits. ground (arith, alive, fits),
  λ sent. ground (arith, sent),
  λ full. ground (arith, full),
  ground arith,
)

abbrev bounded : IsBounded queue
bounded = record {
  contents = λ q. q.items;
  capacity = λ q. q.room;
  created = λ n. (refl, refl);
  accepts = λ tip q. (try_send_lem tip q).0;
  accepted = λ tip q. (try_send_lem tip q).1;
  refused = λ tip q. (try_send_lem tip q).2;
  takes = λ q. (recv_from_lem q.items q refl).0;
  takes_first = λ q nothing. (recv_from_lem q.items q refl).1 nothing;
  drops = λ q. refl;
  sent_capacity = λ tip q. (try_send_lem tip q).3;
  recv_capacity = λ q. (recv_from_lem q.items q refl).2;
  close_capacity = λ q. refl;
}

abbrev tip : ℕ → BlockRef
tip height = record { block_height = height; block_hash = "hash" }

abbrev turn : List Act → Recv → Turn
turn before event = record { before = before; during = []; event = event }

-- Two tips, a lag, a third tip that finds no process, and one that the dispatcher no longer sees.
abbrev turns : List Turn
turns =
    turn [] (received (tip 1))
    ∷ turn (take ∷ []) (received (tip 2))
    ∷ turn [] (lagged 3)
    ∷ turn (drop ∷ []) (received (tip 6))
    ∷ turn [] (received (tip 7))
    ∷ []

-- A poll that finds a tip, and polls of which one fails and one finds the tip of the one before.
abbrev found : ℕ → Poll (Unit {0})
found height = record { before = []; tip = ok (tip height) }

abbrev polls : List (Poll (Unit {0}))
polls =
    record { before = subscribed ∷ []; tip = ok (tip 0) }
    ∷ found 1
    ∷ record { before = []; tip = err scan_already_in_progress }
    ∷ found 2
    ∷ found 2
    ∷ found 3
    ∷ found 4
    ∷ found 5
    ∷ found 6
    ∷ found 7
    ∷ []

abbrev since : List BlockRef
since = tip 1 ∷ tip 2 ∷ tip 3 ∷ tip 4 ∷ tip 5 ∷ tip 6 ∷ tip 7 ∷ []

sent_lem : (run_poller broadcast polls none (ChainTip.start broadcast)).0.1 ≡ (tip 0 ∷ []) ++ since
unfolding run_poller ChainTip.start new_receiver
sent_lem = refl

delivers : Delivers since (map (λ t. t.event) turns)
delivers = Delivers.next (
    Delivers.next
      (Delivers.late (tip 3 ∷ tip 4 ∷ tip 5 ∷ []) (Delivers.next (Delivers.next Delivers.waiting))))

taken-Subseq_example :
    Subseq
      (taken queue turns (start queue bounded)
        ++ (run_on_chain_tips queue (map (functions queue) turns)).1.items)
      (reported polls)
taken-Subseq_example =
    taken-Subseq queue bounded broadcast polls (tip 0 ∷ []) since turns sent_lem delivers

-- A process that keeps up, until the broadcast is closed.
abbrev steady : List Turn
steady =
    turn [] (received (tip 1))
    ∷ turn [] (received (tip 2))
    ∷ turn [] (lagged 4)
    ∷ turn (take ∷ take ∷ []) (received (tip 7))
    ∷ turn [] closed
    ∷ []

keeps_up : KeepsUp queue bounded steady (start queue bounded)
unfolding dispatch
keeps_up = (
  tt,
  (refl, omega arith),
  (tt, (refl, omega arith), (tt, tt, ((refl, (refl, tt)), (refl, omega arith), (tt, tt, tt)))),
)

run_on_chain_tips-arrives_example :
    ((run_on_chain_tips queue (map (functions queue) steady)).0 ≡ false)
    × ((n : ℕ) × (all_taken queue bounded n steady ≡ tip 1 ∷ tip 2 ∷ tip 7 ∷ []))
run_on_chain_tips-arrives_example = run_on_chain_tips-arrives queue bounded steady keeps_up
