-- ===== src/Contracts/DepositRegistry/Watching/Storing.antt =====
-- What the store watches of the registry, and how adding a pass of its entries extends that.
use spox.Prelude.{
  ℕ, zero, suc, ◌+◌, ◌≤◌, ◌<◌, String, Bool, true, false, none, some, [], map, ◌⊎◌, inl, inr,
  if◌then◌else◌, ◌==◌, nat_eq, list_eq, All, beq_self, Bool-cases, ltb, ◌≡◌, refl, ◌∙◌, subst,
  arith,
}
use spox.Error.{Result, ok, err}
use spox.Result.{ok-inj}
use spox.Sbtc.{Script, Sbtc}
use spox.Storage.{MonitoredDeposit, SharedStore, add, set_last_next_address_id, to_script_pubkey}
use spox.Storage.Laws.{deposit_at, is_some, or_else, add-deposit_at}
use spox.AddressRegistry.{deposit_from_raw}
use spox.BitcoinApi.{BitcoinApi}
use spox.DepositMonitor.{u64_limit, LruCache, MonitorState}
use spox.DepositProcess.{saturating_add, range, add_parsed, add_addresses}
use spox.DepositProcess.Chunk.{last_id}
use spox.Contracts.DepositRegistry.{RegistryState}
use spox.Contracts.DepositRegistry.History.{Later}
use spox.Contracts.DepositRegistry.Serving.{raw_of}

module _ {D R : Type 0} (lib : Sbtc D R) where
  -- Every deposit that the registry holds under an id below `n`, and that can be read, has its script
  -- among those of the store.
  abbrev pub WatchedBelow : ℕ → RegistryState → SharedStore D R → Type 0
  WatchedBelow n registry shared =
      (id : ℕ) (d : MonitoredDeposit D R)
      → id < n
      → deposit_from_raw lib (raw_of registry id) ≡ ok d
      → is_some (deposit_at shared (to_script_pubkey lib d)) ≡ true

  -- A deposit that is there later was there before.
  raw_before :
      {m c : RegistryState} (id : ℕ) (d : MonitoredDeposit D R)
      → Later m c
      → id < m.next_address_id
      → deposit_from_raw lib (raw_of c id) ≡ ok d
      → deposit_from_raw lib (raw_of m id) ≡ ok d
  unfolding deposit_from_raw
  raw_before {m} {c} id d later lt h = by_entry (later.kept id lt)
    where
      by_entry :
          (c.deposit_address id ≡ m.deposit_address id) ⊎ (c.deposit_address id ≡ none)
          → deposit_from_raw lib (raw_of m id) ≡ ok d
      by_entry (inl same) = rw same at h
      by_entry (inr gone) = absurd (cc (rw gone at h))

  pub Later-WatchedBelow :
      (n : ℕ) {m c : RegistryState} (shared : SharedStore D R)
      → Later m c
      → n ≤ m.next_address_id
      → WatchedBelow n m shared
      → WatchedBelow n c shared
  Later-WatchedBelow n shared later le h id d lt e =
      h id d lt (raw_before id d later (omega arith) e)

  abbrev Grows : SharedStore D R → SharedStore D R → Type 0
  Grows shared shared' =
      (k : Script) → is_some (deposit_at shared k) ≡ true → is_some (deposit_at shared' k) ≡ true

  -- What an entry's decoding is stored as.
  record Stored (r : Result (MonitoredDeposit D R)) (shared shared' : SharedStore D R)
      : Type 0 where
    free : shared'.poisoned ≡ false
    grows : Grows shared shared'
    held :
        (d : MonitoredDeposit D R)
        → r ≡ ok d
        → is_some (deposit_at shared' (to_script_pubkey lib d)) ≡ true

  add-Stored :
      (d : MonitoredDeposit D R) (shared : SharedStore D R)
      → shared.poisoned ≡ false
      → Stored (ok d) shared (add lib d shared).1
  add-Stored d shared h = record {
    free = (add-deposit_at lib d shared [] h).3;
    grows = λ k there. rw ((add-deposit_at lib d shared k h).0) (grown k there);
    held = λ d' e.
        subst (λ x. is_some (deposit_at (add lib d shared).1 (to_script_pubkey lib x)) ≡ true)
          (ok-inj e) (rw ((add-deposit_at lib d shared own h).0, beq_self list_eq own));
  }
    where
      own : Script
      own = to_script_pubkey lib d

      grown :
          (k : Script)
          → is_some (deposit_at shared k) ≡ true
          → is_some (
              if to_script_pubkey lib d == k
              then some (or_else (deposit_at shared (to_script_pubkey lib d)) d)
              else deposit_at shared k)
            ≡ true
      grown k there = by_script (to_script_pubkey lib d == k)
        where
          by_script :
              (b : Bool)
              → is_some (
                  if b
                  then some (or_else (deposit_at shared (to_script_pubkey lib d)) d)
                  else deposit_at shared k)
                ≡ true
          by_script true = refl
          by_script false = there

module _ {W H C D R : Type 0} (lib : Sbtc D R) (bitcoin : BitcoinApi W)
    (hexes : LruCache H (String × String) String)
    (created : LruCache C (String × ℕ) (Unit {0})) where
  abbrev State : Type 0
  State = MonitorState W H C D R

  -- The store can be locked, its id is not ahead of the registry's, and it watches the ids below.
  pub record Watches (registry : RegistryState) (shared : SharedStore D R) : Type 0 where
    pub free : shared.poisoned ≡ false
    pub behind : last_id shared ≤ registry.next_address_id
    pub below : WatchedBelow lib (last_id shared) registry shared

  parsed-Stored :
      (r : Result (MonitoredDeposit D R)) (s : State)
      → s.shared.poisoned ≡ false
      → Stored lib r s.shared (add_parsed lib bitcoin hexes created r s).1.shared
        × ((add_parsed lib bitcoin hexes created r s).0 ≡ ok tt)
        × (last_id (add_parsed lib bitcoin hexes created r s).1.shared ≡ last_id s.shared)
        × ((add_parsed lib bitcoin hexes created r s).1.world ≡ s.world)
  parsed-Stored (ok d) s h =
      let (_, stored, id, _) = add-deposit_at lib d s.shared [] h in
      (add-Stored lib d s.shared h, stored, id, refl)
  parsed-Stored (err e) s h =
      (record { free = h; grows = λ k there. there; held = λ d q. absurd (cc) }, refl, refl, refl)

  extend_lem :
      (start : ℕ) {m c : RegistryState} (shared shared' : SharedStore D R)
      → Later m c
      → start < m.next_address_id
      → Stored lib (deposit_from_raw lib (raw_of m start)) shared shared'
      → WatchedBelow lib start c shared
      → WatchedBelow lib (suc start) c shared'
  extend_lem start {m} {c} shared shared' later lt stored h id d below e =
      by_id (Bool-cases (ltb id start))
    where
      by_id :
          (ltb id start ≡ true) ⊎ (ltb id start ≡ false)
          → is_some (deposit_at shared' (to_script_pubkey lib d)) ≡ true
      by_id (inl earlier) = stored.grows _ (h id d (ground (arith, earlier)) e)
      by_id (inr this) =
          let same : id ≡ start = ground (arith, this) in
          stored.held d (
            raw_before lib start d later lt
              (subst (λ k. deposit_from_raw lib (raw_of c k) ≡ ok d) same e))

  pub weaken_lem :
      (n k : ℕ) (c : RegistryState) (shared : SharedStore D R)
      → k ≤ n
      → WatchedBelow lib n c shared
      → WatchedBelow lib k c shared
  weaken_lem n k c shared le h id d lt e = h id d (omega arith) e

  abbrev with_id : ℕ → SharedStore D R → SharedStore D R
  with_id n shared = record {
    poisoned = shared.poisoned;
    store = record shared.store { last_next_address_id = n };
  }

  set_last_lem :
      (n : ℕ) (shared : SharedStore D R)
      → shared.poisoned ≡ false
      → set_last_next_address_id n shared ≡ (ok tt, with_id n shared)
  unfolding set_last_next_address_id
  set_last_lem n shared h = rw h

  -- Entries that were read at a moment `m` are stored, and the ids from `start` on are then watched.
  pub add_addresses-Watches :
      (count start : ℕ) {m c : RegistryState} (s : State)
      → Later m c
      → start + count ≤ m.next_address_id
      → All (λ id. id < u64_limit) (range start count)
      → Watches c s.shared
      → WatchedBelow lib start c s.shared
      → let s' =
          (add_addresses lib bitcoin hexes created (map (raw_of m) (range start count)) s).1 in
        Watches c s'.shared × WatchedBelow lib (start + count) c s'.shared × (s'.world ≡ s.world)
  unfolding add_addresses range
  add_addresses-Watches zero start {m} {c} s later le small h upto =
      (h, weaken_lem start (start + 0) c s.shared (omega arith) upto, refl)
  add_addresses-Watches (suc count) start {m} {c} s later le small h upto =
      let r = deposit_from_raw lib (raw_of m start) in
      let s₁ = (add_parsed lib bitcoin hexes created r s).1 in
      let (stored, done, id, world) = parsed-Stored r s h.free in
      let n = saturating_add start 1 in
      let s₂ : State = record s₁ { shared = with_id n s₁.shared } in
      let at_n : n ≤ suc start = ground arith in
      let this : WatchedBelow lib (suc start) c s₁.shared =
        extend_lem start s.shared s₁.shared later (omega arith) stored upto in
      let (watches, upto_end, same) =
        add_addresses-Watches count (suc start) s₂ later (omega arith) small.1
          (record {
            free = stored.free;
            behind = omega (arith, later.grows);
            below = weaken_lem (suc start) n c s₁.shared at_n this;
          })
          this in
      let end =
        (add_addresses lib bitcoin hexes created (map (raw_of m) (range (suc start) count))
          s₂).1.shared in
      rw (done, set_last_lem n s₁.shared stored.free)
        (
          watches,
          weaken_lem (suc start + count) (start + suc count) c end (omega arith) upto_end,
          same ∙ world,
        )
