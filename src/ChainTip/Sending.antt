-- ===== src/ChainTip/Sending.antt =====
-- Which tips the channel is given.
use spox.Prelude.{
  ℕ, zero, suc, ◌+◌, ◌-◌, ◌<◌, true, false, Option, none, some, List, [], ◌∷◌, ◌++◌, append_assoc,
  append-nil, ◌≡◌, refl, sym, ◌∙◌, arith, Bool-cases, inl, inr, nat_beq_iff, string_eq,
}
use spox.Error.{Result, ok, err}
use spox.BitcoinApi.{BlockRef}
use spox.ChainTip.{
  Broadcast, Act, subscribed, dropped, Poll, is_seen, start, perform, act, poll, run_poller,
  cons_sent, new_receiver, chain_tip_channel_capacity,
}

-- tokio::sync::broadcast: a channel counts its receivers, and `send` fails only if there are none.
pub record IsCounted {B Rx : Type 0} (broadcast : Broadcast B Rx) : Type 0 where
  pub receivers : B → ℕ
  pub sent : B → List BlockRef
  pub created :
      (n : ℕ) → (receivers (broadcast.channel n).0 ≡ 1) × (sent (broadcast.channel n).0 ≡ [])
  pub sends :
      (tip : BlockRef) (b : B)
      → 0 < receivers b
      → ((broadcast.send tip b).0 ≡ true) × (sent (broadcast.send tip b).1 ≡ sent b ++ tip ∷ [])
  pub fails :
      (tip : BlockRef) (b : B)
      → receivers b ≡ 0
      → ((broadcast.send tip b).0 ≡ false) × (sent (broadcast.send tip b).1 ≡ sent b)
  pub subscribes :
      (b : B)
      → (receivers (broadcast.subscribe b).1 ≡ receivers b + 1)
        × (sent (broadcast.subscribe b).1 ≡ sent b)
  pub drops :
      (rx : Rx) (b : B)
      → (receivers (broadcast.drop rx b) ≡ receivers b - 1) × (sent (broadcast.drop rx b) ≡ sent b)

-- What was last seen is the last of some tips, or there are none.
abbrev pub IsLast : Option BlockRef → List BlockRef → Type 0
IsLast none tips = tips ≡ []
IsLast (some tip) tips = (front : List BlockRef) × (tips ≡ front ++ tip ∷ [])

module _ {B Rx : Type 0} (broadcast : Broadcast B Rx) (counted : IsCounted broadcast) where
  open counted use {receivers, sent}

  act-sent : (a : Act Rx) (b : B) → sent (act broadcast a b) ≡ sent b
  unfolding new_receiver
  act-sent subscribed b = (counted.subscribes b).1
  act-sent (dropped rx) b = (counted.drops rx b).1

  perform-sent : (acts : List (Act Rx)) (b : B) → sent (perform broadcast acts b) ≡ sent b
  perform-sent [] b = refl
  perform-sent (a ∷ acts) b = perform-sent acts (act broadcast a b) ∙ act-sent a b

  seen_lem :
      (tip : BlockRef) (last_seen : Option BlockRef)
      → is_seen tip last_seen ≡ true
      → last_seen ≡ some tip
  seen_lem tip none h = cc
  seen_lem tip (some seen) h = ground (
    arith,
    nat_beq_iff tip.block_height seen.block_height,
    string_eq.beq_iff tip.block_hash seen.block_hash,
  )

  -- What a poll does to the channel's last tip.
  record Polled (r : Result BlockRef) (last_seen : Option BlockRef) (b : B) : Type 0 where
    last : IsLast (poll broadcast r last_seen b).0.0 (sent (poll broadcast r last_seen b).1)
    grows :
        sent (poll broadcast r last_seen b).1
        ≡ sent b ++ cons_sent (poll broadcast r last_seen b).0.1 []
    current :
        (tip : BlockRef)
        → r ≡ ok tip
        → 0 < receivers b
        → (poll broadcast r last_seen b).0.0 ≡ some tip

  -- A tip that is new is sent if there is a receiver, and is not counted as seen otherwise.
  new-Polled :
      (tip : BlockRef) (last_seen : Option BlockRef) (b : B)
      → is_seen tip last_seen ≡ false
      → IsLast last_seen (sent b)
      → Polled (ok tip) last_seen b
  unfolding poll
  new-Polled tip last_seen b new h = by_count (receivers b) refl
    where
      by_count : (n : ℕ) → receivers b ≡ n → Polled (ok tip) last_seen b
      by_count zero q =
          let (failed, same) = counted.fails tip b q in
          record {
            last = rw (new, failed, same) h;
            grows = rw (new, failed, same) (sym (append-nil (sent b)));
            current = λ t e some_receiver. absurd (omega arith);
          }
      by_count (suc n) q =
          let (sent_it, more) = counted.sends tip b (omega arith) in
          record {
            last = rw (new, sent_it) (sent b, more);
            grows = rw (new, sent_it) more;
            current = λ t e some_receiver. rw (new, sent_it) (cc);
          }

  poll-Polled :
      (r : Result BlockRef) (last_seen : Option BlockRef) (b : B)
      → IsLast last_seen (sent b)
      → Polled r last_seen b
  unfolding poll
  poll-Polled (err e) last_seen b h = record {
    last = h;
    grows = sym (append-nil (sent b));
    current = λ tip q. cc;
  }
  poll-Polled (ok tip) last_seen b h = elim (Bool-cases (is_seen tip last_seen)) [
    | inl seen ↦ record {
      last = rw seen h;
      grows = rw seen (sym (append-nil (sent b)));
      current = λ t e some_receiver. rw seen (cc (seen_lem tip last_seen seen));
    }
    | inr new ↦ new-Polled tip last_seen b new h
  ]

  -- All that a run sent is in the channel, and what was last seen is the last of it.
  record Ran (ps : List (Poll Rx)) (last_seen : Option BlockRef) (b : B) : Type 0 where
    last :
        IsLast
          (run_poller broadcast ps last_seen b).0.0
          (sent (run_poller broadcast ps last_seen b).1)
    grown :
        sent (run_poller broadcast ps last_seen b).1
        ≡ sent b ++ (run_poller broadcast ps last_seen b).0.1

  cons_lem :
      (o : Option BlockRef) (xs tips : List BlockRef)
      → (xs ++ cons_sent o []) ++ tips ≡ xs ++ cons_sent o tips
  cons_lem none xs tips = rw append-nil
  cons_lem (some tip) xs tips = append_assoc xs (tip ∷ []) tips

  run_poller-Ran :
      (ps : List (Poll Rx)) (last_seen : Option BlockRef) (b : B)
      → IsLast last_seen (sent b)
      → Ran ps last_seen b
  unfolding run_poller
  run_poller-Ran [] last_seen b h = record { last = h; grown = sym (append-nil (sent b)) }
  run_poller-Ran (p ∷ ps) last_seen b h =
      let b' = perform broadcast p.before b in
      let same = perform-sent p.before b in
      let polled = poll-Polled p.tip last_seen b' (rw same h) in
      let (seen, b'') = poll broadcast p.tip last_seen b' in
      let later = run_poller-Ran ps seen.0 b'' polled.last in
      record {
        last = later.last;
        grown = later.grown ∙ rw (polled.grows, same) (cons_lem seen.1 (sent b) _);
      }

  last_poll_lem :
      (ps : List (Poll Rx)) (p : Poll Rx) (tip : BlockRef) (last_seen : Option BlockRef) (b : B)
      → p.tip ≡ ok tip
      → IsLast last_seen (sent b)
      → 0 < receivers (perform broadcast p.before (run_poller broadcast ps last_seen b).1)
      → (run_poller broadcast (ps ++ p ∷ []) last_seen b).0.0 ≡ some tip
  unfolding run_poller
  last_poll_lem [] p tip last_seen b found h some_receiver =
      (poll-Polled p.tip last_seen (perform broadcast p.before b)
          (rw (perform-sent p.before b) h)).current
        tip found some_receiver
  last_poll_lem (q ∷ ps) p tip last_seen b found h some_receiver =
      let b' = perform broadcast q.before b in
      last_poll_lem ps p tip (poll broadcast q.tip last_seen b').0.0
        (poll broadcast q.tip last_seen b').1 found
        (poll-Polled q.tip last_seen b' (rw (perform-sent q.before b) h)).last some_receiver

  start_lem : sent (start broadcast) ≡ []
  unfolding start
  start_lem =
      (counted.drops (broadcast.channel chain_tip_channel_capacity).1
        (broadcast.channel chain_tip_channel_capacity).0).1
      ∙ (counted.created chain_tip_channel_capacity).1

  of_IsLast :
      {tips : List BlockRef} (o : Option BlockRef) (tip : BlockRef)
      → o ≡ some tip
      → IsLast o tips
      → IsLast (some tip) tips
  of_IsLast none tip e h = absurd (cc)
  of_IsLast (some t) tip e (front, h) = (front, rw h (cc))

  -- From its start on, the channel is given exactly the tips that the poller counts as sent. If a poll
  -- finds a tip while some receiver is subscribed, then the last tip that the channel was given is that
  -- one, however many polls before it failed or found no subscriber.
  pub run_poller-current :
      (ps : List (Poll Rx)) (p : Poll Rx) (tip : BlockRef)
      → p.tip ≡ ok tip
      → 0
        < receivers (perform broadcast p.before (run_poller broadcast ps none (start broadcast)).1)
      → let ((last, tips), b) = run_poller broadcast (ps ++ p ∷ []) none (start broadcast) in
        (sent b ≡ tips) × ((front : List BlockRef) × (tips ≡ front ++ tip ∷ []))
  run_poller-current ps p tip found some_receiver =
      let ran = run_poller-Ran (ps ++ p ∷ []) none (start broadcast) start_lem in
      let last = last_poll_lem ps p tip none (start broadcast) found start_lem some_receiver in
      let all = rw start_lem at ran.grown in (all, rw all at (of_IsLast _ tip last ran.last))
