-- ===== src/Dispatch.antt =====
-- The dispatcher of chain tips (src/dispatch.rs), between the broadcast of tips and the mailbox of a
-- process. The channels are those of tokio: the mailbox is the parameter `Mailbox`, and what the
-- broadcast's receiver returns is an event.
pub mod Schedule
pub mod Delivery
pub mod Arrival
pub mod Capacity
pub mod Sources
use spox.Prelude.{ℕ, Bool, true, false, not, Option, List, [], ◌∷◌, ◌++◌, if◌then◌else◌}
use spox.BitcoinApi.{BlockRef}

-- MAILBOX_CAPACITY of src/lib.rs.
abbrev pub mailbox_capacity : ℕ
mailbox_capacity = 144

-- A bounded channel with one sender: `try_send` says whether the tip was accepted, and `recv` takes
-- the first tip if there is one.
pub record Mailbox (M : Type 0) : Type 0 where
  pub channel : ℕ → M
  pub try_send : BlockRef → M → Bool × M
  pub is_closed : M → Bool
  pub recv : M → Option BlockRef × M
  pub close : M → M

-- What `rx.recv().await` returns.
pub data Recv : Type 0 where
  received : BlockRef → Recv
  lagged : ℕ → Recv
  closed : Recv

module _ {M : Type 0} (mailbox : Mailbox M) where
  -- One turn of the loop: whether it goes on, and the mailbox. `receiver` is what the process does
  -- with the mailbox between `try_send` and `is_closed`.
  unfoldable pub dispatch : (M → M) → Recv → M → Bool × M
  dispatch receiver (received chain_tip) m =
      let (sent, m') = mailbox.try_send chain_tip m in
      if sent then (true, m') else (not (mailbox.is_closed (receiver m')), receiver m')
  dispatch receiver (lagged skipped) m = (true, m)
  dispatch receiver closed m = (false, m)

  -- The loop over what it receives, with what the process does with the mailbox before each turn and
  -- during it.
  unfoldable pub run_turns : List ((M → M) × (M → M) × Recv) → M → Bool × M
  unfolding dispatch
  run_turns [] m = (true, m)
  run_turns ((before, during, event) ∷ turns) m =
      let (goes_on, m') = dispatch during event (before m) in
      let rest = run_turns turns m' in if goes_on then rest else (false, m')

  unfoldable pub run_on_chain_tips : List ((M → M) × (M → M) × Recv) → Bool × M
  unfolding run_turns
  run_on_chain_tips turns = run_turns turns (mailbox.channel mailbox_capacity)
