-- ===== src/ChainTip.antt =====
-- The poller of the Bitcoin chain's tip (src/bitcoin/chain_tip.rs), and the channel on which it
-- broadcasts new tips.
pub mod Sending
use spox.Prelude.{
  ℕ, Bool, true, false, Option, none, some, List, [], ◌∷◌, ◌&&◌, nat_beq, ◌==◌, string_eq,
  if◌then◌else◌, ◌≡◌, refl,
}
use spox.Error.{Result, ok, err}
use spox.BitcoinApi.{BlockRef, BitcoinApi}
use spox.Exec.{Exec}

abbrev pub chain_tip_channel_capacity : ℕ
chain_tip_channel_capacity = 144

-- tokio::sync::broadcast: `channel` returns the channel with one receiver, and `send` says whether the
-- tip was taken.
pub record Broadcast (B Rx : Type 0) : Type 0 where
  pub channel : ℕ → B × Rx
  pub send : BlockRef → B → Bool × B
  pub subscribe : B → Rx × B
  pub drop : Rx → B → B

-- BitcoinChainTipCaller, and the client as one.
pub record BitcoinChainTipCaller (W : Type 0) : Type 0 where
  pub get_chain_tip : Exec W BlockRef

abbrev pub client_caller : {W : Type 0} → BitcoinApi W → BitcoinChainTipCaller W
client_caller bitcoin = record { get_chain_tip = bitcoin.get_chain_tip }

-- `Some(&tip) == last_seen.as_ref()`
abbrev pub is_seen : BlockRef → Option BlockRef → Bool
is_seen tip none = false
is_seen tip (some seen) =
    nat_beq tip.block_height seen.block_height && (tip.block_hash == seen.block_hash)

-- What the rest of the program does with the channel while the poller sleeps.
pub data Act (Rx : Type 0) : Type 0 where
  subscribed : Act Rx
  dropped : Rx → Act Rx

-- One turn of the poller's loop: what came before it, and what `get_chain_tip` returned.
pub record Poll (Rx : Type 0) : Type 0 where
  pub before : List (Act Rx)
  pub tip : Result BlockRef

abbrev pub cons_sent : Option BlockRef → List BlockRef → List BlockRef
cons_sent none tips = tips
cons_sent (some tip) tips = tip ∷ tips

module _ {B Rx : Type 0} (broadcast : Broadcast B Rx) where
  -- BitcoinChainTipPoller::start: the receiver that the channel comes with is dropped at once.
  unfoldable pub start : B
  start = let (b, rx) = broadcast.channel chain_tip_channel_capacity in broadcast.drop rx b

  unfoldable pub new_receiver : B → Rx × B
  new_receiver b = broadcast.subscribe b

  abbrev pub act : Act Rx → B → B
  act subscribed b = (new_receiver b).1
  act (dropped rx) b = broadcast.drop rx b

  abbrev pub perform : List (Act Rx) → B → B
  perform [] b = b
  perform (a ∷ acts) b = perform acts (act a b)

  -- The tip that was last sent after a poll, the tip that the poll sent, and the channel.
  abbrev pub sent_or : Option BlockRef → BlockRef → Bool → Option BlockRef × Option BlockRef
  sent_or last_seen tip true = (some tip, some tip)
  sent_or last_seen tip false = (last_seen, none)

  unfoldable pub poll :
      Result BlockRef → Option BlockRef → B → (Option BlockRef × Option BlockRef) × B
  poll (err e) last_seen b = ((last_seen, none), b)
  poll (ok tip) last_seen b =
      if is_seen tip last_seen
      then ((last_seen, none), b)
      else (let (sent, b') = broadcast.send tip b in (sent_or last_seen tip sent, b'))

  -- What was last sent, all that was sent, and the channel.
  unfoldable pub run_poller :
      List (Poll Rx) → Option BlockRef → B → (Option BlockRef × List BlockRef) × B
  unfolding poll new_receiver
  run_poller [] last_seen b = ((last_seen, []), b)
  run_poller (p ∷ ps) last_seen b =
      let ((seen, sent), b') = poll p.tip last_seen (perform p.before b) in
      let ((last, tips), b'') = run_poller ps seen b' in ((last, cons_sent sent tips), b'')

-- No tip is that before it, of which `last_seen` is the first, and `last` is the last one.
pub data Changes : Option BlockRef → List BlockRef → Option BlockRef → Type 0 where
  done : {last : Option BlockRef} → Changes last [] last
  changed :
      {last_seen last : Option BlockRef} {tip : BlockRef} {tips : List BlockRef}
      → is_seen tip last_seen ≡ false
      → Changes (some tip) tips last
      → Changes last_seen (tip ∷ tips) last

module _ {B Rx : Type 0} (broadcast : Broadcast B Rx) where
  poll-Changes :
      (r : Result BlockRef) (last_seen : Option BlockRef) (b : B)
      (rest : Option BlockRef × List BlockRef)
      → Changes (poll broadcast r last_seen b).0.0 rest.1 rest.0
      → Changes last_seen (cons_sent (poll broadcast r last_seen b).0.1 rest.1) rest.0
  unfolding poll
  poll-Changes (err e) last_seen b rest h = h
  poll-Changes (ok tip) last_seen b rest h = known (is_seen tip last_seen) refl h
    where
      sent_lem :
          (sent : Bool)
          → is_seen tip last_seen ≡ false
          → Changes (sent_or broadcast last_seen tip sent).0 rest.1 rest.0
          → Changes last_seen (cons_sent (sent_or broadcast last_seen tip sent).1 rest.1) rest.0
      sent_lem true new k = changed new k
      sent_lem false new k = k

      known :
          (seen : Bool)
          → is_seen tip last_seen ≡ seen
          → let outcome : (Option BlockRef × Option BlockRef) × B =
              if seen then ((last_seen, none), b) else (
                sent_or broadcast last_seen tip (broadcast.send tip b).0,
                (broadcast.send tip b).1,
              ) in
            Changes outcome.0.0 rest.1 rest.0
            → Changes last_seen (cons_sent outcome.0.1 rest.1) rest.0
      known true q k = k
      known false q k = sent_lem (broadcast.send tip b).0 q k

  -- However the node answers and whether or not there are subscribers, the poller never sends a tip
  -- twice in a row, and what it has last seen is the last tip that it sent, if it sent any.
  pub run_poller-Changes :
      (ps : List (Poll Rx)) (last_seen : Option BlockRef) (b : B)
      → let ((last, tips), _) = run_poller broadcast ps last_seen b in Changes last_seen tips last
  unfolding run_poller
  run_poller-Changes [] last_seen b = done
  run_poller-Changes (p ∷ ps) last_seen b =
      let b' = perform broadcast p.before b in
      let ((seen, sent), b'') = poll broadcast p.tip last_seen b' in
      poll-Changes p.tip last_seen b' (run_poller broadcast ps seen b'').0
        (run_poller-Changes ps seen b'')
