-- ===== src/DepositProcess/Leaving.antt =====
-- The steps of a block that leave the memory of created deposits as it is.
use spox.Prelude.{
  ◌%◌, ℕ, zero, suc, ◌+◌, ◌-◌, min, leb, map, ◌==◌, nat_eq, list_eq, String, Bool, true, false,
  Option, none, some, List, [], ◌∷◌, ◌≡◌, refl, ◌∙◌, if◌then◌else◌,
}
use spox.Error.{
  Result, ok, err, mismatching_raw_address_ids, scan_already_in_progress, deposit_expired,
  missing_monitored_deposit,
}
use spox.Result
use spox.Exec.{Exec, lift, ◌>>=◌}
use spox.Sbtc.{Script, Sbtc}
use spox.BitcoinWallet.{import_descriptors}
use spox.Config.{get_rescan_timestamp, BitcoinCoreWalletConfig}
use spox.Storage.{SharedStore, get_last_next_address_id, get_by_script}
use spox.AddressRegistry.{get_addresses_max_ids, RawRegisteredDeposit, deposit_from_raw}
use spox.BitcoinApi.{BlockRef, Utxo, BitcoinApi}
use spox.DepositMonitor.{
  u64_limit, LruCache, MonitorState, on_world, on_store, try_get_or_insert, get_deposit_from_utxo,
  get_utxos, insert_hex, hit_or_insert, scan,
}
use spox.DepositProcess.{
  Registry, add_parsed, add_addresses, update_chunk, update_chunks, update_from_registry,
  update_wallet, import_missing, range, saturating_add,
}

module _ {W H C D R : Type 0} (lib : Sbtc D R) (bitcoin : BitcoinApi W)
    (hexes : LruCache H (String × String) String)
    (created : LruCache C (String × ℕ) (Unit {0})) where
  abbrev State : Type 0
  State = MonitorState W H C D R

  pub record Leaves {A : Type 0} (m : Exec State A) : Type 0 where
    pub same : (s : State) → (m s).1.created_deposits ≡ s.created_deposits

  bind-Leaves :
      {A B : Type 0} (m : Exec State A) (f : A → Exec State B)
      → Leaves m
      → ((a : A) → Leaves (f a))
      → Leaves (m >>= f)
  bind-Leaves m f first next = record { same = λ s. go (m s).0 (m s).1 ∙ first.same s }
    where
      go :
          (r : Result _) (t : State)
          → (((λ u. (r, u)) >>= f) t).1.created_deposits ≡ t.created_deposits
      go (ok a) t = (next a).same t
      go (err e) t = refl

  on_world-Leaves : {A : Type 0} (m : Exec W A) → Leaves (on_world m)
  on_world-Leaves m = record { same = λ s. refl }

  on_store-Leaves : {A : Type 0} (m : Exec (SharedStore D R) A) → Leaves (on_store m)
  on_store-Leaves m = record { same = λ s. refl }

  lift-Leaves : {A : Type 0} (r : Result A) → Leaves (lift r)
  lift-Leaves r = record { same = λ s. refl }

  if-Leaves :
      {A : Type 0} (b : Bool) (m n : Exec State A)
      → Leaves m
      → Leaves n
      → Leaves (if b then m else n)
  if-Leaves true m n h k = h
  if-Leaves false m n h k = k

  add_addresses-Leaves :
      (raws : List RawRegisteredDeposit) → Leaves (add_addresses lib bitcoin hexes created raws)
  unfolding add_addresses
  add_addresses-Leaves [] = lift-Leaves (ok tt)
  add_addresses-Leaves (raw ∷ raws) =
      bind-Leaves (add_parsed lib bitcoin hexes created (deposit_from_raw lib raw)) _
        (parsed (deposit_from_raw lib raw))
        λ added. bind-Leaves _ _ (on_store-Leaves _) λ done. add_addresses-Leaves raws
    where
      parsed : (r : Result _) → Leaves (add_parsed lib bitcoin hexes created r)
      parsed (ok d) = on_store-Leaves _
      parsed (err e) = lift-Leaves (ok tt)

  update_chunk-Leaves :
      (registry : Registry W) (start next : ℕ)
      → Leaves (update_chunk lib bitcoin hexes created registry start next)
  unfolding update_chunk
  update_chunk-Leaves registry start next =
      let ids = range start (min (saturating_add start get_addresses_max_ids) next - start) in
      bind-Leaves (on_world (registry.addresses ids)) _ (on_world-Leaves _) λ raws.
        if-Leaves (ids == map (λ raw. raw.id) raws) _ _ (add_addresses-Leaves raws)
          (lift-Leaves (err mismatching_raw_address_ids))

  update_chunks-Leaves :
      (fuel : ℕ) (registry : Registry W) (start next : ℕ)
      → Leaves (update_chunks lib bitcoin hexes created fuel registry start next)
  unfolding update_chunks
  update_chunks-Leaves zero registry start next = lift-Leaves (ok tt)
  update_chunks-Leaves (suc fuel) registry start next = if-Leaves _ _ _ (lift-Leaves (ok tt)) (
      bind-Leaves (update_chunk lib bitcoin hexes created registry start next) _
        (update_chunk-Leaves registry start next) λ done. update_chunks-Leaves fuel registry _ next)

  pub update_from_registry-Leaves :
      (registry : Option (Registry W))
      → Leaves (update_from_registry lib bitcoin hexes created registry)
  unfolding update_from_registry
  update_from_registry-Leaves none = lift-Leaves (ok tt)
  update_from_registry-Leaves (some registry) =
      bind-Leaves (on_store get_last_next_address_id) _ (on_store-Leaves _) λ last.
        bind-Leaves (on_world registry.next_address_id) _ (on_world-Leaves _) λ next.
          if-Leaves (leb next last) _ _ (lift-Leaves (ok tt))
            (update_chunks-Leaves (next - last) registry last next)

  import_missing-Leaves :
      (wallet : BitcoinCoreWalletConfig) (now : W → Option ℕ) (scripts : List Script)
      → Leaves (import_missing lib bitcoin hexes created wallet now scripts)
  import_missing-Leaves wallet now [] = lift-Leaves (ok tt)
  import_missing-Leaves wallet now (script ∷ scripts) =
      bind-Leaves (λ s. (get_rescan_timestamp wallet (now s.world), s)) _
        (record { same = λ s. refl })
        λ timestamp. on_world-Leaves (import_descriptors lib bitcoin (script ∷ scripts) timestamp)

  pub update_wallet-Leaves :
      (wallet : Option BitcoinCoreWalletConfig) (now : W → Option ℕ)
      → Leaves (update_wallet lib bitcoin hexes created wallet now)
  unfolding update_wallet
  update_wallet-Leaves none now = lift-Leaves (ok tt)
  update_wallet-Leaves (some wallet) now =
      bind-Leaves _ _ (on_store-Leaves _) λ scripts. import_missing-Leaves wallet now scripts

  try_get_or_insert-Leaves :
      (key : String × String) (fill : Exec State String)
      → Leaves fill
      → Leaves (try_get_or_insert lib bitcoin hexes created key fill)
  unfolding try_get_or_insert
  try_get_or_insert-Leaves key fill h = record {
    same = λ s.
        looked_up (hexes.get key s.tx_hex_cache).0
          (record s { tx_hex_cache = (hexes.get key s.tx_hex_cache).1 });
  }
    where
      inserted :
          (r : Result String) (s : State)
          → (insert_hex lib bitcoin hexes created key r s).1.created_deposits ≡ s.created_deposits
      inserted (ok hex) s = refl
      inserted (err e) s = refl

      looked_up :
          (o : Option String) (s : State)
          → (hit_or_insert lib bitcoin hexes created key fill o s).1.created_deposits
            ≡ s.created_deposits
      looked_up (some hex) s = refl
      looked_up none s = inserted (fill s).0 (fill s).1 ∙ h.same s

  pub get_deposit-Leaves :
      (utxo : Utxo) (tip : BlockRef)
      → Leaves (get_deposit_from_utxo lib bitcoin hexes created utxo tip)
  unfolding get_deposit_from_utxo
  get_deposit-Leaves utxo tip =
      bind-Leaves (on_store (get_by_script utxo.script_pub_key)) _ (on_store-Leaves _) λ found.
        bind-Leaves (lift (Result.ok_or (missing_monitored_deposit utxo.script_pub_key) found)) _
          (lift-Leaves _)
          λ deposit.
            if-Leaves
              (leb ((utxo.block_height + lib.lock_time deposit.reclaim_script_inputs) % u64_limit)
                tip.block_height)
              _ _ (lift-Leaves (err deposit_expired))
              (bind-Leaves (on_world (bitcoin.get_block_hash utxo.block_height)) _
                (on_world-Leaves _)
                λ block_hash.
                  bind-Leaves
                    (try_get_or_insert lib bitcoin hexes created (utxo.txid, block_hash)
                      (on_world (bitcoin.get_raw_transaction_hex utxo.txid block_hash)))
                    _ (try_get_or_insert-Leaves (utxo.txid, block_hash) _ (on_world-Leaves _))
                    λ tx_hex. record { same = λ s. refl })

  pub get_utxos-Leaves :
      (has_wallet : Bool) (scripts : List Script) (tip : BlockRef)
      → Leaves (get_utxos lib bitcoin hexes created has_wallet scripts tip)
  unfolding get_utxos
  get_utxos-Leaves false scripts tip =
      bind-Leaves _ _ (on_world-Leaves _) λ scanning. scanned scanning
    where
      scanned : (b : Bool) → Leaves (scan lib bitcoin hexes created scripts b)
      scanned true = lift-Leaves (err scan_already_in_progress)
      scanned false = on_world-Leaves (bitcoin.scan_tx_out_set scripts)
  get_utxos-Leaves true scripts tip =
      bind-Leaves _ _ (on_world-Leaves _) λ unspents. lift-Leaves (ok _)
