-- ===== src/DepositProcess.antt =====
-- The loop over monitored deposits (src/deposit_monitor.rs): one Bitcoin block's work, from the
-- address registry to Emily. The registry's client is an interface, which src/stacks/registry.rs fills,
-- and `create_deposit` of the generated client of Emily is a parameter.
pub mod Chunk
pub mod Following
pub mod Marking
pub mod Leaving
pub mod Keeping
pub mod Remembering
use spox.Prelude.{
  ℕ, zero, suc, ◌+◌, ◌-◌, String, Bool, true, false, Option, none, some, List, [], ◌∷◌, map, ◌⊎◌,
  leb, min, ◌==◌, nat_eq, list_eq, if◌then◌else◌,
}
use spox.Error.{Error, Result, ok, err, missing_address_scripts, mismatching_raw_address_ids}
use spox.Exec.{Exec, pure, raise, lift, ◌>>=◌, ◌>>◌}
use spox.Sbtc.{Script, Sbtc}
use spox.Config.{BitcoinCoreWalletConfig, get_rescan_timestamp, is_some}
use spox.BitcoinWallet.{import_descriptors}
use spox.Storage.{
  MonitoredDeposit, SharedStore, add, get_scripts, get_last_next_address_id,
  set_last_next_address_id,
}
use spox.AddressRegistry.{
  RawRegisteredDeposit, get_addresses_max_ids, deposit_from_raw, get_next_address_id, get_addresses,
}
use spox.StacksApi.{StacksApi}
use spox.Principal.{ContractId}
use spox.Clarity.{Value}
use spox.BitcoinApi.{BlockRef, BitcoinApi}
use spox.DepositMonitor.{
  u64_limit, LruCache, CreateDepositRequestBody, MonitorState, on_world, on_store,
  get_pending_deposits, deposit_created,
}

-- DepositAddressRegistry, as the loop uses it.
pub record Registry (W : Type 0) : Type 0 where
  pub next_address_id : Exec W ℕ
  pub addresses : List ℕ → Exec W (List RawRegisteredDeposit)

abbrev pub contract_registry :
    {W : Type 0} → StacksApi W → (ℕ → List Value → String ⊎ Value) → ContractId → Registry W
contract_registry api list_with_type contract = record {
  next_address_id = get_next_address_id api list_with_type contract;
  addresses = get_addresses api list_with_type contract;
}

-- u64::saturating_add
abbrev pub saturating_add : ℕ → ℕ → ℕ
saturating_add a b = if leb u64_limit (a + b) then u64_limit - 1 else a + b

-- The `count` numbers from `start` on.
unfoldable pub range : ℕ → ℕ → List ℕ
range start zero = []
range start (suc count) = start ∷ range (suc start) count

module _ {W H C D R : Type 0} (lib : Sbtc D R) (bitcoin : BitcoinApi W)
    (hexes : LruCache H (String × String) String)
    (created : LruCache C (String × ℕ) (Unit {0})) where
  abbrev pub State : Type 0
  State = MonitorState W H C D R

  -- An address that cannot be parsed is logged.
  abbrev pub add_parsed : Result (MonitoredDeposit D R) → Exec State (Unit {0})
  add_parsed (ok deposit) = on_store (add lib deposit)
  add_parsed (err e) = pure tt

  unfoldable pub add_addresses : List RawRegisteredDeposit → Exec State (Unit {0})
  unfolding deposit_from_raw add set_last_next_address_id
  add_addresses [] = pure tt
  add_addresses (raw ∷ raws) = do
    added ← add_parsed (deposit_from_raw lib raw)
    done ← on_store (set_last_next_address_id (saturating_add raw.id 1))
    add_addresses raws

  -- One pass of the loop, for the ids from `start` on.
  unfoldable pub update_chunk : Registry W → ℕ → ℕ → Exec State (Unit {0})
  unfolding range add_addresses
  update_chunk registry start next = do
    let ids = range start (min (saturating_add start get_addresses_max_ids) next - start)
    raws ← on_world (registry.addresses ids)
    if ids == map (λ raw. raw.id) raws
        then add_addresses raws
        else raise mismatching_raw_address_ids

  -- `for start in (start..next).step_by(GET_ADDRESSES_MAX_IDS)`.
  unfoldable pub update_chunks : ℕ → Registry W → ℕ → ℕ → Exec State (Unit {0})
  unfolding update_chunk
  update_chunks zero registry start next = pure tt
  update_chunks (suc fuel) registry start next = if leb next start then pure tt else do
    done ← update_chunk registry start next
    update_chunks fuel registry (start + get_addresses_max_ids) next

  unfoldable pub update_from_registry : Option (Registry W) → Exec State (Unit {0})
  unfolding update_chunks get_last_next_address_id
  update_from_registry none = pure tt
  update_from_registry (some registry) = do
    last_next_id ← on_store get_last_next_address_id
    registry_next_id ← on_world registry.next_address_id
    if leb registry_next_id last_next_id
        then pure tt
        else update_chunks (registry_next_id - last_next_id) registry last_next_id registry_next_id

  -- `now` is the system's time.
  abbrev pub import_missing :
      BitcoinCoreWalletConfig → (W → Option ℕ) → List Script → Exec State (Unit {0})
  import_missing wallet now [] = pure tt
  import_missing wallet now (script ∷ scripts) = do
    timestamp ← λ s. (get_rescan_timestamp wallet (now s.world), s)
    on_world (import_descriptors lib bitcoin (script ∷ scripts) timestamp)

  unfoldable pub update_wallet :
      Option BitcoinCoreWalletConfig → (W → Option ℕ) → Exec State (Unit {0})
  unfolding get_rescan_timestamp import_descriptors
  update_wallet none now = pure tt
  update_wallet (some wallet) now = do
    scripts ← on_store get_scripts
    import_missing wallet now scripts

  -- `create_deposit` is the call of Emily; only a deposit that it took is marked as created.
  module _ (create_deposit : CreateDepositRequestBody → Exec W (Unit {0})) where
    abbrev mark_created : CreateDepositRequestBody → Result (Unit {0}) → State → State
    mark_created deposit (ok done) s =
        deposit_created lib bitcoin hexes created deposit.bitcoin_txid
          deposit.bitcoin_tx_output_index s
    mark_created deposit (err e) s = s

    unfoldable pub create_deposits : List CreateDepositRequestBody → State → State
    unfolding deposit_created
    create_deposits [] s = s
    create_deposits (deposit ∷ deposits) s =
        let (r, s') = on_world (create_deposit deposit) s in
        create_deposits deposits (mark_created deposit r s')

    unfoldable pub fetch_and_create_deposits : Bool → BlockRef → Exec State (Unit {0})
    unfolding get_pending_deposits create_deposits
    fetch_and_create_deposits has_wallet chain_tip = do
      deposits ← get_pending_deposits lib bitcoin hexes created has_wallet chain_tip
      λ s. (ok tt, create_deposits deposits s)

    -- One block: each of the three steps runs whatever the ones before it returned.
    unfoldable pub process_block :
        Option (Registry W)
        → Option BitcoinCoreWalletConfig
        → (W → Option ℕ)
        → BlockRef
        → State
        → State
    unfolding update_from_registry update_wallet fetch_and_create_deposits
    process_block registry wallet now chain_tip s =
        let (updated, s1) = update_from_registry registry s in
        let (imported, s2) = update_wallet wallet now s1 in
        (fetch_and_create_deposits (is_some wallet) chain_tip s2).1

    -- The loop over the tips that the channel delivers.
    unfoldable pub process_monitored_deposits :
        Option (Registry W)
        → Option BitcoinCoreWalletConfig
        → (W → Option ℕ)
        → List BlockRef
        → State
        → State
    unfolding process_block
    process_monitored_deposits registry wallet now [] s = s
    process_monitored_deposits registry wallet now (tip ∷ tips) s =
        process_monitored_deposits registry wallet now tips
          (process_block registry wallet now tip s)
