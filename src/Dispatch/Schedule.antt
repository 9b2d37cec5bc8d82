-- ===== src/Dispatch/Schedule.antt =====
-- Interleavings of the dispatcher with the process that reads the mailbox, and what tokio documents
-- about the mailbox.
use spox.Prelude.{
  ℕ, ◌<◌, true, false, Option, none, some, List, [], ◌∷◌, ◌++◌, length, ◌≡◌, if◌then◌else◌,
}
use spox.BitcoinApi.{BlockRef}
use spox.Dispatch.{Mailbox, Recv, received, dispatch}

-- The process takes a tip if there is one, or ends and drops its receiver.
pub data Act : Type 0 where
  take drop : Act

-- One turn of the dispatcher, with the acts before it and during it.
pub record Turn : Type 0 where
  pub before : List Act
  pub during : List Act
  pub event : Recv

abbrev pub maybe_cons {ℓ} : {A : Type ℓ} → Option A → List A → List A
maybe_cons none as' = as'
maybe_cons (some a) as' = a ∷ as'

abbrev pub tip_of : Recv → List BlockRef
tip_of (received tip) = tip ∷ []
tip_of _ = []

module _ {M : Type 0} (mailbox : Mailbox M) where
  abbrev pub act : Act → M → M
  act take m = (mailbox.recv m).1
  act drop m = mailbox.close m

  abbrev pub perform : List Act → M → M
  perform [] m = m
  perform (a ∷ acts) m = perform acts (act a m)

  -- The tip that an act takes, and those that several take.
  abbrev pub got : Act → M → Option BlockRef
  got take m = (mailbox.recv m).0
  got drop m = none

  abbrev pub taken_by : List Act → M → List BlockRef
  taken_by [] m = []
  taken_by (a ∷ acts) m = maybe_cons (got a m) (taken_by acts (act a m))

  -- A turn as the dispatcher runs it.
  abbrev pub functions : Turn → (M → M) × (M → M) × Recv
  functions t = (perform t.before, perform t.during, t.event)

  -- The tips that the process takes while a turn runs: those during it only where the dispatcher
  -- looks at the mailbox once more, after a tip that was refused.
  abbrev pub taken_during : List Act → Recv → M → List BlockRef
  taken_during acts (received tip) m =
      let (sent, m') = mailbox.try_send tip m in if sent then [] else taken_by acts m'
  taken_during acts _ m = []

  -- The tips taken in the turns that the dispatcher runs, and the tips that it received in them.
  abbrev pub taken : List Turn → M → List BlockRef
  taken [] m = []
  taken (t ∷ ts) m =
      let m₁ = perform t.before m in
      let (goes_on, m₂) = dispatch mailbox (perform t.during) t.event m₁ in
      let rest = taken ts m₂ in
      taken_by t.before m ++ (taken_during t.during t.event m₁ ++ (if goes_on then rest else []))

  abbrev pub offered : List Turn → M → List BlockRef
  offered [] m = []
  offered (t ∷ ts) m =
      let (goes_on, m₂) = dispatch mailbox (perform t.during) t.event (perform t.before m) in
      let rest = offered ts m₂ in tip_of t.event ++ (if goes_on then rest else [])

  -- tokio::sync::mpsc: what is sent is received in its order; `try_send` refuses only when the channel
  -- is full or its receiver was dropped, and a channel never holds more than its capacity.
  pub record IsBounded : Type 0 where
    pub contents : M → List BlockRef
    pub capacity : M → ℕ
    pub created : (n : ℕ) → (contents (mailbox.channel n) ≡ []) × (capacity (mailbox.channel n) ≡ n)
    pub accepts :
        (tip : BlockRef) (m : M)
        → mailbox.is_closed m ≡ false
        → length (contents m) < capacity m
        → (mailbox.try_send tip m).0 ≡ true
    pub accepted :
        (tip : BlockRef) (m : M)
        → (mailbox.try_send tip m).0 ≡ true
        → (contents (mailbox.try_send tip m).1 ≡ contents m ++ tip ∷ [])
          × (length (contents m) < capacity m)
    pub refused :
        (tip : BlockRef) (m : M)
        → (mailbox.try_send tip m).0 ≡ false
        → contents (mailbox.try_send tip m).1 ≡ contents m
    pub takes : (m : M) → contents m ≡ maybe_cons (mailbox.recv m).0 (contents (mailbox.recv m).1)
    pub takes_first : (m : M) → (mailbox.recv m).0 ≡ none → contents m ≡ []
    pub drops : (m : M) → contents (mailbox.close m) ≡ []
    pub sent_capacity : (tip : BlockRef) (m : M) → capacity (mailbox.try_send tip m).1 ≡ capacity m
    pub recv_capacity : (m : M) → capacity (mailbox.recv m).1 ≡ capacity m
    pub close_capacity : (m : M) → capacity (mailbox.close m) ≡ capacity m
