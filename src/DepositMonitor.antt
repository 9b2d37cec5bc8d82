-- ===== src/DepositMonitor.antt =====
-- The deposit monitor (src/deposit_monitor.rs): from the unspent outputs of the monitored scripts to
-- the requests that are sent to Emily. The `lru` crate's cache is the parameter `LruCache`, and
-- `try_get_or_insert` is a look-up and, on a miss that is filled, a `put`, as the crate documents.
pub mod Picking
pub mod Caching
pub mod Coherence
use spox.Prelude.{
  ℕ, ◌+◌, ◌-◌, ◌%◌, ◌^◌, String, Bool, true, false, Option, none, some, List, [], ◌∷◌, inl, inr,
  leb, Eq, ◌==◌, nat_eq, string_eq, list_eq, pair_eq, contains, if◌then◌else◌,
}
use spox.Error.{
  Error, Result, ok, err, deposit_expired, missing_monitored_deposit, scan_already_in_progress,
}
use spox.Result
use spox.Exec.{Exec, pure, raise, lift, ◌>>=◌}
use spox.Sbtc.{Script, Sbtc}
use spox.Storage.{MonitoredDeposit, SharedStore, get_by_script, get_scripts}
use spox.BitcoinApi.{BlockRef, Utxo, Unspent, BitcoinApi}

abbrev pub u64_limit : ℕ
u64_limit = 2 ^ 64

-- LruCache::get, which marks the entry as used, and LruCache::put.
pub record LruCache (C K V : Type 0) : Type 0 where
  pub get : K → C → Option V × C
  pub put : K → V → C → C

-- CreateDepositRequestBody
pub record CreateDepositRequestBody : Type 0 where
  pub bitcoin_tx_output_index : ℕ
  pub bitcoin_txid : String
  pub deposit_script : String
  pub reclaim_script : String
  pub transaction_hex : String

-- The monitor's caches, the shared store of the context, and the world.
pub record MonitorState (W H C D R : Type 0) : Type 0 where
  pub world : W
  pub shared : SharedStore D R
  pub tx_hex_cache : H
  pub created_deposits : C

abbrev pub tx_hex_cache_size : ℕ
tx_hex_cache_size = 8000

abbrev pub created_deposits_cache_size : ℕ
created_deposits_cache_size = 100000

-- DepositMonitor::new, over LruCache::new for both caches.
unfoldable pub monitor_new :
    {W H C D R : Type 0} → (ℕ → H) → (ℕ → C) → SharedStore D R → W → MonitorState W H C D R
monitor_new new_hexes new_created shared world = record {
  world = world;
  shared = shared;
  tx_hex_cache = new_hexes tx_hex_cache_size;
  created_deposits = new_created created_deposits_cache_size;
}

module _ {W H C D R : Type 0} where
  -- A call of a client, and of the store.
  abbrev pub on_world : {A : Type 0} → Exec W A → Exec (MonitorState W H C D R) A
  on_world m s = let (r, w) = m s.world in (r, record s { world = w })

  abbrev pub on_store : {A : Type 0} → Exec (SharedStore D R) A → Exec (MonitorState W H C D R) A
  on_store m s = let (r, shared) = m s.shared in (r, record s { shared = shared })

module _ {W H C D R : Type 0} (lib : Sbtc D R) (bitcoin : BitcoinApi W)
    (hexes : LruCache H (String × String) String)
    (created : LruCache C (String × ℕ) (Unit {0})) where
  abbrev pub State : Type 0
  State = MonitorState W H C D R

  abbrev pub insert_hex : String × String → Result String → State → Result String × State
  insert_hex key (err e) s = (err e, s)
  insert_hex key (ok hex) s = (ok hex, record s { tx_hex_cache = hexes.put key hex s.tx_hex_cache })

  abbrev pub hit_or_insert :
      String × String → Exec State String → Option String → State → Result String × State
  hit_or_insert key fill (some hex) s = (ok hex, s)
  hit_or_insert key fill none s = let (r, s') = fill s in insert_hex key r s'

  -- self.tx_hex_cache.try_get_or_insert(key, fill)
  unfoldable pub try_get_or_insert : String × String → Exec State String → Exec State String
  try_get_or_insert key fill s =
      let (hit, cache) = hexes.get key s.tx_hex_cache in
      hit_or_insert key fill hit (record s { tx_hex_cache = cache })

  unfoldable pub get_deposit_from_utxo : Utxo → BlockRef → Exec State CreateDepositRequestBody
  unfolding try_get_or_insert
  get_deposit_from_utxo utxo chain_tip = do
    found ← on_store (get_by_script utxo.script_pub_key)
    deposit ← lift (Result.ok_or (missing_monitored_deposit utxo.script_pub_key) found)
    let unlocking_time =
        (utxo.block_height + lib.lock_time deposit.reclaim_script_inputs) % u64_limit
    if leb unlocking_time chain_tip.block_height then raise deposit_expired else do
      block_hash ← on_world (bitcoin.get_block_hash utxo.block_height)
      tx_hex ←
          try_get_or_insert (utxo.txid, block_hash)
            (on_world (bitcoin.get_raw_transaction_hex utxo.txid block_hash))
      pure (record {
        bitcoin_tx_output_index = utxo.vout;
        bitcoin_txid = lib.print_txid utxo.txid;
        deposit_script = lib.to_hex_string (lib.deposit_script deposit.deposit_script_inputs);
        reclaim_script = lib.to_hex_string (lib.reclaim_script deposit.reclaim_script_inputs);
        transaction_hex = tx_hex;
      })

  -- The entry of the wallet as an output; `-` stops at 0, as `saturating_sub` does.
  abbrev utxo_of : BlockRef → Unspent → Utxo
  utxo_of chain_tip unspent = record {
    txid = unspent.txid;
    vout = unspent.vout;
    script_pub_key = unspent.script_pub_key;
    amount = unspent.amount;
    block_height = chain_tip.block_height - (unspent.confirmations - 1);
  }

  -- The `filter_map` over the wallet's entries.
  unfoldable pub watched_utxos : List Script → BlockRef → List Unspent → List Utxo
  watched_utxos scripts chain_tip [] = []
  watched_utxos scripts chain_tip (u ∷ us) =
      if contains scripts u.script_pub_key
      then utxo_of chain_tip u ∷ watched_utxos scripts chain_tip us
      else watched_utxos scripts chain_tip us

  abbrev pub scan : List Script → Bool → Exec State (List Utxo)
  scan scripts true = raise scan_already_in_progress
  scan scripts false = on_world (bitcoin.scan_tx_out_set scripts)

  -- `has_wallet` is whether the settings name a node wallet.
  unfoldable pub get_utxos : Bool → List Script → BlockRef → Exec State (List Utxo)
  unfolding watched_utxos
  get_utxos false scripts chain_tip = do
    scanning ← on_world bitcoin.scan_tx_out_set_scanning
    scan scripts scanning
  get_utxos true scripts chain_tip = do
    unspents ← on_world bitcoin.list_unspent
    pure (watched_utxos scripts chain_tip unspents)

  -- The closure of the `filter_map` over the outputs: an error is logged and its output skipped.
  abbrev pub unless_created :
      Utxo → BlockRef → Option (Unit {0}) → State → Option CreateDepositRequestBody × State
  unless_created utxo chain_tip (some seen) s = (none, s)
  unless_created utxo chain_tip none s =
      let (r, s') = get_deposit_from_utxo utxo chain_tip s in (Result.to_option r, s')

  unfoldable pub pending_deposit : Utxo → BlockRef → State → Option CreateDepositRequestBody × State
  pending_deposit utxo chain_tip s =
      let (seen, cache) = created.get (utxo.txid, utxo.vout) s.created_deposits in
      unless_created utxo chain_tip seen (record s { created_deposits = cache })

  abbrev cons_option : {A : Type 0} → Option A → List A → List A
  cons_option none as' = as'
  cons_option (some a) as' = a ∷ as'

  unfoldable pub collect_deposits :
      BlockRef → List Utxo → State → List CreateDepositRequestBody × State
  unfolding pending_deposit
  collect_deposits chain_tip [] s = ([], s)
  collect_deposits chain_tip (utxo ∷ utxos) s =
      let (request, s') = pending_deposit utxo chain_tip s in
      let (rest, s'') = collect_deposits chain_tip utxos s' in (cons_option request rest, s'')

  abbrev pub deposits_of :
      Bool → BlockRef → List Script → Exec State (List CreateDepositRequestBody)
  deposits_of has_wallet chain_tip [] = pure []
  deposits_of has_wallet chain_tip (script ∷ scripts) = do
    utxos ← get_utxos has_wallet (script ∷ scripts) chain_tip
    λ s. let (requests, s') = collect_deposits chain_tip utxos s in (ok requests, s')

  unfoldable pub get_pending_deposits : Bool → BlockRef → Exec State (List CreateDepositRequestBody)
  unfolding get_utxos collect_deposits
  get_pending_deposits has_wallet chain_tip = do
    scripts ← on_store get_scripts
    deposits_of has_wallet chain_tip scripts

  -- A text that is no transaction id is logged and dropped.
  unfoldable pub deposit_created : String → ℕ → State → State
  deposit_created bitcoin_txid index s = elim (lib.parse_txid bitcoin_txid) [
    | inl e ↦ s
    | inr txid ↦ record s { created_deposits = created.put (txid, index) tt s.created_deposits }
  ]
