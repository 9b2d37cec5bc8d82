-- ===== src/Contracts/DepositRegistry/Watching.antt =====
-- No deposit of the registry escapes the monitor: the loop over the registry's ids, on a node on which
-- the registry runs and is changed by others.
pub mod Storing
pub mod Passes
use spox.Prelude.{
  ℕ, zero, suc, ◌+◌, ◌-◌, ◌≤◌, ◌<◌, String, Bool, true, false, some, List, [], ◌∷◌, map, ◌⊎◌, inl,
  inr, leb, min, ◌==◌, nat_eq, list_eq, list_beq_iff, if◌then◌else◌, Bool-cases, ◌≡◌, refl, sym, ap,
  ◌∙◌, subst, arith,
}
use spox.Principal.{ContractId}
use spox.Error.{Error, Result, ok, err, mismatching_raw_address_ids}
use spox.Exec.{Exec, pure, raise, ◌>>=◌}
use spox.Clarity.{Value}
use spox.Sbtc.{Sbtc}
use spox.Storage.{MonitoredDeposit, SharedStore, get_last_next_address_id, to_script_pubkey}
use spox.Storage.Laws.{deposit_at, is_some}
use spox.StacksApi.{StacksApi}
use spox.AddressRegistry.{RawRegisteredDeposit, get_addresses_max_ids, deposit_from_raw}
use spox.BitcoinApi.{BitcoinApi}
use spox.DepositMonitor.{u64_limit, LruCache, MonitorState}
use spox.DepositProcess.{
  Registry, contract_registry, saturating_add, range, add_addresses, update_chunk, update_chunks,
  update_from_registry,
}
use spox.DepositProcess.Chunk.{last_id}
use spox.Contracts.DepositRegistry.{RegistryState, Reach}
use spox.Contracts.DepositRegistry.History.{Later, Later-trans, Reach-Later}
use spox.Contracts.DepositRegistry.Serving.{
  Serves, ReadAt, Entries, raw_of, get_next_address_id-ReadAt, get_addresses-ReadAt,
}
use spox.Contracts.DepositRegistry.Watching.Storing.{
  WatchedBelow, Later-WatchedBelow, Watches, weaken_lem, add_addresses-Watches,
}
use spox.Contracts.DepositRegistry.Watching.Passes
use spox.DepositProcess.Following.{update_from_registry-catches_up}

module _ {W H C D R : Type 0} (lib : Sbtc D R) (bitcoin : BitcoinApi W)
    (hexes : LruCache H (String × String) String) (created : LruCache C (String × ℕ) (Unit {0}))
    (api : StacksApi W) (list_with_type : ℕ → List Value → String ⊎ Value) (contract : ContractId)
    (owner : String) (on_chain : W → RegistryState)
    (serves : Serves api list_with_type contract owner on_chain) where
  abbrev State : Type 0
  State = MonitorState W H C D R

  abbrev pub registry : Registry W
  registry = contract_registry api list_with_type contract

  -- The store watches the registry of the state's own world.
  abbrev pub IsWatching : State → Type 0
  IsWatching s = Watches lib bitcoin hexes created (on_chain s.world) s.shared

  abbrev catch_up : ℕ → ℕ → Exec State (Unit {0})
  catch_up last next =
      if leb next last
      then pure tt
      else update_chunks lib bitcoin hexes created (next - last) registry last next

  next_lem :
      (last : ℕ) (r : Result ℕ) (s : State) (before : RegistryState)
      → ReadAt owner before (on_chain s.world) r (λ m n. (n ≡ m.next_address_id) × (n < u64_limit))
      → last ≡ last_id s.shared
      → IsWatching s
      → IsWatching (((λ t. (r, t)) >>= catch_up last) s).1
  next_lem last (err e) s before read at_start h = h
  next_lem last (ok next) s before read at_start h = elim (Bool-cases (leb next last)) [
    | inl nothing_new ↦ rw nothing_new h
    | inr more ↦
        let (same, bound) = read.value next refl in
        let later = (Reach-Later read.after).grows in
        rw more (
          Passes.update_chunks-IsWatching lib bitcoin hexes created api list_with_type contract
            owner on_chain serves (next - last) last next s bound (omega arith) h
            (weaken_lem lib bitcoin hexes created (last_id s.shared) (min last next)
              (on_chain s.world) s.shared (ground arith) h.below))
  ]

  -- If the store watches the registry then it still does after the loop over the registry's new ids,
  -- whatever that loop returns and however many calls of it fail, while others register and remove
  -- addresses between the calls.
  pub update_from_registry-IsWatching :
      (s : State)
      → IsWatching s
      → IsWatching (update_from_registry lib bitcoin hexes created (some registry) s).1
  unfolding update_from_registry
  update_from_registry-IsWatching s h =
      let (r, w) = registry.next_address_id s.world in
      let read =
        get_next_address_id-ReadAt api list_with_type contract owner on_chain serves s.world in
      let later = Later-trans (Reach-Later read.before) (Reach-Later read.after) in
      rw
        (Passes.get_last_next_address_id_lem lib bitcoin hexes created api list_with_type contract
          owner on_chain serves s.shared h.free)
        (next_lem (last_id s.shared) r (record s { world = w }) (on_chain s.world) read refl
          (Passes.moved-Watches lib bitcoin hexes created api list_with_type contract owner on_chain
            serves s.shared later h))

  failed_lem :
      (s : State) (e : Error) (w : W)
      → s.shared.poisoned ≡ false
      → registry.next_address_id s.world ≡ (err e, w)
      → (update_from_registry lib bitcoin hexes created (some registry) s).0 ≡ err e
  unfolding update_from_registry
  failed_lem s e w h asked = rw (
    Passes.get_last_next_address_id_lem lib bitcoin hexes created api list_with_type contract owner
        on_chain serves s.shared h,
    asked,
  )

  -- If the store watches the registry and the loop returns no error, then every deposit that was
  -- registered before the loop began, that can be read and that is not removed when the loop ends, has
  -- its script among those of the store: none is missed, while others register and remove addresses
  -- between the calls.
  pub update_from_registry_complete :
      (s : State)
      → IsWatching s
      → (update_from_registry lib bitcoin hexes created (some registry) s).0 ≡ ok tt
      → let s' = (update_from_registry lib bitcoin hexes created (some registry) s).1 in
        WatchedBelow lib (on_chain s.world).next_address_id (on_chain s'.world) s'.shared
  update_from_registry_complete s h done =
      by_answer (registry.next_address_id s.world).0 refl
        (get_next_address_id-ReadAt api list_with_type contract owner on_chain serves s.world)
    where
      s' : State
      s' = (update_from_registry lib bitcoin hexes created (some registry) s).1

      by_answer :
          (r : Result ℕ)
          → (registry.next_address_id s.world).0 ≡ r
          → ReadAt owner
              (on_chain s.world)
              (on_chain (registry.next_address_id s.world).1)
              (registry.next_address_id s.world).0
              (λ m n. (n ≡ m.next_address_id) × (n < u64_limit))
          → WatchedBelow lib (on_chain s.world).next_address_id (on_chain s'.world) s'.shared
      by_answer (err e) asked read =
          absurd (cc (failed_lem s e (registry.next_address_id s.world).1 h.free (cc), done))
      by_answer (ok next) asked read =
          let (same, bound) = read.value next asked in
          let caught_up =
            update_from_registry-catches_up lib bitcoin hexes created registry s next
              (registry.next_address_id s.world).1 h.free (cc) bound done in
          weaken_lem lib bitcoin hexes created (last_id s'.shared)
            (on_chain s.world).next_address_id (on_chain s'.world) s'.shared
            (omega (arith, caught_up, (Reach-Later read.before).grows, same))
            (update_from_registry-IsWatching s h).below
