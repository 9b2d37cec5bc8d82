-- ===== src/Dispatch/Capacity.antt =====
-- The mailbox stays within its capacity.
use spox.Prelude.{
  ◌≤◌, Bool, true, false, Option, none, some, List, [], ◌∷◌, map, length, ◌≡◌, ap, ◌∙◌,
  if◌then◌else◌, length-append, Bool-cases, inl, inr, arith,
}
use spox.BitcoinApi.{BlockRef}
use spox.Dispatch.{
  Mailbox, Recv, received, lagged, closed, dispatch, run_turns, run_on_chain_tips, mailbox_capacity,
}
use spox.Dispatch.Delivery.{start}
use spox.Dispatch.Schedule.{Act, take, drop, Turn, maybe_cons, act, perform, functions, IsBounded}

length-maybe_cons : {T : Type 0} (o : Option T) (xs : List T) → length xs ≤ length (maybe_cons o xs)
length-maybe_cons none xs = omega arith
length-maybe_cons (some tip) xs = omega arith

module _ {M : Type 0} (mailbox : Mailbox M) (bounded : IsBounded mailbox) where
  open bounded use {contents, capacity}

  -- The capacity of the mailbox stays, and it never holds more.
  record Fits (m : M) : Type 0 where
    small : length (contents m) ≤ mailbox_capacity
    same : capacity m ≡ mailbox_capacity

  act-Fits : (a : Act) (m : M) → Fits m → Fits (act mailbox a m)
  act-Fits take m h = record {
    small = omega (
      arith,
      ap length (bounded.takes m),
      length-maybe_cons (mailbox.recv m).0 (contents (mailbox.recv m).1),
    );
    same = bounded.recv_capacity m ∙ h.same;
  }
  act-Fits drop m h = record {
    small = rw (bounded.drops m) (omega arith);
    same = bounded.close_capacity m ∙ h.same;
  }

  perform-Fits : (acts : List Act) (m : M) → Fits m → Fits (perform mailbox acts m)
  perform-Fits [] m h = h
  perform-Fits (a ∷ acts) m h = perform-Fits acts (act mailbox a m) (act-Fits a m h)

  sent-Fits :
      (tip : BlockRef) (m : M)
      → Fits m
      → (mailbox.try_send tip m).0 ≡ true
      → Fits (mailbox.try_send tip m).1
  sent-Fits tip m h sent = record {
    small = omega (
      arith,
      ap length (bounded.accepted tip m sent).0,
      length-append {0} (contents m) (tip ∷ []),
      (bounded.accepted tip m sent).1,
      h.same,
    );
    same = bounded.sent_capacity tip m ∙ h.same;
  }

  refused-Fits :
      (tip : BlockRef) (m : M)
      → Fits m
      → (mailbox.try_send tip m).0 ≡ false
      → Fits (mailbox.try_send tip m).1
  refused-Fits tip m h full = record {
    small = omega (arith, ap length (bounded.refused tip m full), h.small);
    same = bounded.sent_capacity tip m ∙ h.same;
  }

  dispatch-Fits :
      (acts : List Act) (event : Recv) (m : M)
      → Fits m
      → Fits (dispatch mailbox (perform mailbox acts) event m).1
  unfolding dispatch
  dispatch-Fits acts (received tip) m h = elim (Bool-cases (mailbox.try_send tip m).0) [
    | inl sent ↦ rw sent (sent-Fits tip m h sent)
    | inr full ↦ rw full (perform-Fits acts _ (refused-Fits tip m h full))
  ]
  dispatch-Fits acts (lagged n) m h = h
  dispatch-Fits acts closed m h = h

  turns-Fits :
      (ts : List Turn) (m : M) → Fits m → Fits (run_turns mailbox (map (functions mailbox) ts) m).1
  unfolding run_turns
  turns-Fits [] m h = h
  turns-Fits (t ∷ ts) m h =
      let m₁ = perform mailbox t.before m in
      let turned = dispatch mailbox (perform mailbox t.during) t.event m₁ in
      let fits = dispatch-Fits t.during t.event m₁ (perform-Fits t.before m h) in
      go_on (turned.0) turned.1 fits (turns-Fits ts turned.1 fits)
    where
      go_on :
          (goes_on : Bool) (m₂ : M)
          → Fits m₂
          → Fits (run_turns mailbox (map (functions mailbox) ts) m₂).1
          → Fits
              (if goes_on then run_turns mailbox (map (functions mailbox) ts) m₂ else (false, m₂)).1
      go_on true m₂ h k = k
      go_on false m₂ h k = h

  -- The mailbox of a process never holds more than 144 tips, however the two are interleaved.
  pub run_on_chain_tips_bound :
      (ts : List Turn)
      → length (contents (run_on_chain_tips mailbox (map (functions mailbox) ts)).1)
        ≤ mailbox_capacity
  unfolding run_on_chain_tips
  run_on_chain_tips_bound ts =
      (turns-Fits ts (start mailbox bounded) (record {
        small = rw (bounded.created mailbox_capacity).0 (omega arith);
        same = (bounded.created mailbox_capacity).1;
      })).small
