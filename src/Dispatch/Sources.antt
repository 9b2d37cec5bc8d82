-- ===== src/Dispatch/Sources.antt =====
-- From the node to a process: the poller, the broadcast, the dispatcher and the mailbox.
use spox.Prelude.{
  Bool, true, false, Option, none, List, [], ◌∷◌, ◌++◌, map, length, ◌≡◌, if◌then◌else◌, subst, sym,
}
use spox.Prelude.Subseq.{Subseq, Subseq-nil, Subseq-refl, Subseq-trans, Subseq-append}
use spox.Error.{Result, ok, err}
use spox.BitcoinApi.{BlockRef}
use spox.ChainTip.{Broadcast, Poll, is_seen, poll, sent_or, run_poller, cons_sent}
use spox.ChainTip
use spox.Dispatch.{Mailbox, Recv, received, lagged, closed, dispatch, run_on_chain_tips}
use spox.Dispatch.Schedule.{Turn, functions, perform, taken, offered, tip_of, IsBounded}
use spox.Dispatch.Delivery.{start, run_on_chain_tips-Subseq}

-- The tips that the node answered with, at some polls.
abbrev pub answered : Result BlockRef → List BlockRef
answered (ok tip) = tip ∷ []
answered (err e) = []

abbrev pub reported : {Rx : Type 0} → List (Poll Rx) → List BlockRef
reported [] = []
reported (p ∷ ps) = answered p.tip ++ reported ps

-- tokio::sync::broadcast: what a receiver gets of the tips that were sent since it subscribed. It gets
-- each in its order, or is told how many it was too late for, and that the channel is closed once it
-- has all of them.
pub data Delivers : List BlockRef → List Recv → Type 0 where
  waiting : {tips : List BlockRef} → Delivers tips []
  next :
      {tip : BlockRef} {tips : List BlockRef} {events : List Recv}
      → Delivers tips events
      → Delivers (tip ∷ tips) (received tip ∷ events)
  late :
      {tips : List BlockRef} {events : List Recv} (skipped : List BlockRef)
      → Delivers tips events
      → Delivers (skipped ++ tips) (lagged (length skipped) ∷ events)
  ended : Delivers [] (closed ∷ [])

module _ {B Rx : Type 0} (broadcast : Broadcast B Rx) where
  sent_one :
      (r : Result BlockRef) (last_seen : Option BlockRef) (b : B) (sent tips : List BlockRef)
      → Subseq sent tips
      → Subseq (cons_sent (poll broadcast r last_seen b).0.1 sent) (answered r ++ tips)
  unfolding poll
  sent_one (err e) last_seen b sent tips s = s
  sent_one (ok tip) last_seen b sent tips s = decided (is_seen tip last_seen)
    where
      sent_lem :
          (taken : Bool)
          → Subseq (cons_sent (sent_or broadcast last_seen tip taken).1 sent) (tip ∷ tips)
      sent_lem true = Subseq.keep s
      sent_lem false = Subseq.skip s

      decided :
          (seen : Bool)
          → let outcome : (Option BlockRef × Option BlockRef) × B =
              if seen then ((last_seen, none), b) else (
                sent_or broadcast last_seen tip (broadcast.send tip b).0,
                (broadcast.send tip b).1,
              ) in
            Subseq (cons_sent outcome.0.1 sent) (tip ∷ tips)
      decided true = Subseq.skip s
      decided false = sent_lem (broadcast.send tip b).0

  run_poller-Subseq :
      (ps : List (Poll Rx)) (last_seen : Option BlockRef) (b : B)
      → Subseq (run_poller broadcast ps last_seen b).0.1 (reported ps)
  unfolding run_poller
  run_poller-Subseq [] last_seen b = Subseq.done
  run_poller-Subseq (p ∷ ps) last_seen b =
      let b' = ChainTip.perform broadcast p.before b in
      sent_one p.tip last_seen b' _ _ (
        run_poller-Subseq ps (poll broadcast p.tip last_seen b').0.0
          (poll broadcast p.tip last_seen b').1)

abbrev tips_in : List Recv → List BlockRef
tips_in [] = []
tips_in (event ∷ events) = tip_of event ++ tips_in events

delivered-Subseq :
    {tips : List BlockRef} {events : List Recv}
    → Delivers tips events
    → Subseq (tips_in events) tips
delivered-Subseq Delivers.waiting = Subseq-nil _
delivered-Subseq (Delivers.next d) = Subseq.keep (delivered-Subseq d)
delivered-Subseq (Delivers.late skipped d) = Subseq-append (Subseq-nil skipped) (delivered-Subseq d)
delivered-Subseq Delivers.ended = Subseq.done

module _ {M : Type 0} (mailbox : Mailbox M) (bounded : IsBounded mailbox) where
  open bounded use {contents}

  -- What the dispatcher receives before it stops is the first part of what is delivered.
  offered-Subseq :
      (ts : List Turn) (m : M) → Subseq (offered mailbox ts m) (tips_in (map (λ t. t.event) ts))
  offered-Subseq [] m = Subseq.done
  offered-Subseq (t ∷ ts) m =
      let (goes_on, m₂) =
        dispatch mailbox (perform mailbox t.during) t.event (perform mailbox t.before m) in
      Subseq-append (Subseq-refl (tip_of t.event)) (stopped goes_on _ _ (offered-Subseq ts m₂))
    where
      stopped : (b : Bool) (xs ys : List BlockRef) → Subseq xs ys → Subseq (if b then xs else []) ys
      stopped true xs ys s = s
      stopped false xs ys s = Subseq-nil ys

  -- If the broadcast delivers what the poller sent since a process subscribed, then the tips that the
  -- process takes, followed by those that still wait for it, are tips that the node answered with when
  -- it was polled, in the order of the answers and each answer at most once.
  pub taken-Subseq :
      {B Rx : Type 0} (broadcast : Broadcast B Rx) (polls : List (Poll Rx))
      (missed tips : List BlockRef) (ts : List Turn)
      → (run_poller broadcast polls none (ChainTip.start broadcast)).0.1 ≡ missed ++ tips
      → Delivers tips (map (λ t. t.event) ts)
      → Subseq
          (taken mailbox ts (start mailbox bounded)
            ++ contents (run_on_chain_tips mailbox (map (functions mailbox) ts)).1)
          (reported polls)
  taken-Subseq broadcast polls missed tips ts sent delivers =
      let received =
        Subseq-trans (offered-Subseq ts (start mailbox bounded)) (delivered-Subseq delivers) in
      let sent_tips =
        subst (Subseq tips) (sym sent) (Subseq-append (Subseq-nil missed) (Subseq-refl tips)) in
      Subseq-trans (run_on_chain_tips-Subseq mailbox bounded ts) (
        Subseq-trans received (
          Subseq-trans sent_tips
            (run_poller-Subseq broadcast polls none (ChainTip.start broadcast))))
