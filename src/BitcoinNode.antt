-- ===== src/BitcoinNode.antt =====
-- The client of Bitcoin Core (src/bitcoin/node.rs), over the RPC calls of `bitcoincore_rpc`.
pub mod Answers
pub mod Connecting
pub mod Endpoints
use spox.Prelude.{
  ℕ, nat_beq, ◌++◌, String, Bool, true, false, not, Option, none, some, List, [], ◌∷◌, map, ◌⊎◌,
  inl, inr, if◌then◌else◌,
}
use spox.Prelude.Int.{negsuc}
use spox.Error.{
  Error, Result, ok, err, RpcError, rpc, other, bitcoin_core_rpc, scan_already_in_progress,
  scan_tx_out_failure, no_chain_tip, invalid_url, port_required,
}
use spox.Result
use spox.Result.{map_err}
use spox.Exec.{Exec, lift, ◌>>=◌}
use spox.Sbtc.{Script, Sbtc}
use spox.BitcoinApi.{BlockRef, Utxo, Unspent, ImportDescriptor, BitcoinApi}
use spox.BitcoinWallet.{join}

-- GetChainTipsResultStatus, with the statuses that the code does not look for as one.
pub data TipStatus : Type 0 where
  active inactive : TipStatus

-- GetChainTipsResultTip, as far as it is read.
pub record Tip : Type 0 where
  pub hash : String
  pub height : ℕ
  pub status : TipStatus

-- bitcoincore_rpc_json::Utxo, and ScanTxOutResult as far as it is read.
pub record RpcUtxo : Type 0 where
  pub txid : String
  pub vout : ℕ
  pub script_pub_key : Script
  pub amount : ℕ
  pub height : ℕ

pub record ScanTxOutResult : Type 0 where
  pub success : Option Bool
  pub unspents : List RpcUtxo

-- An argument of a call: a text, a flag, or descriptors as JSON values.
pub data Arg : Type 0 where
  text : String → Arg
  flag : Bool → Arg
  values : List String → Arg

-- The calls of the RPC client. `call` returns the answer's JSON text, which the fields below it read;
-- of `list_unspent` the arguments that are `None` are left out.
pub record Rpc (W : Type 0) : Type 0 where
  pub get_chain_tips : W → (RpcError ⊎ List Tip) × W
  pub scan_tx_out_set_blocking : List String → W → (RpcError ⊎ ScanTxOutResult) × W
  pub get_block_hash : ℕ → W → (RpcError ⊎ String) × W
  pub get_raw_transaction_hex : String → Option String → W → (RpcError ⊎ String) × W
  pub load_wallet : String → W → (RpcError ⊎ Unit {0}) × W
  pub get_descriptor_info : String → W → (RpcError ⊎ String) × W
  pub list_unspent : Option ℕ → W → (RpcError ⊎ List Unspent) × W
  pub call : String → List Arg → W → (RpcError ⊎ String) × W
  pub is_null : String → Bool
  pub json_load_wallet : String → RpcError ⊎ Unit {0}
  pub json_list_descriptors : String → RpcError ⊎ List String
  pub json_import_multi : String → RpcError ⊎ List Bool
  pub to_value : ImportDescriptor → String ⊎ String

-- From<RpcUtxo> for Utxo
unfoldable pub utxo_from : RpcUtxo → Utxo
utxo_from value = record {
  txid = value.txid;
  vout = value.vout;
  script_pub_key = value.script_pub_key;
  amount = value.amount;
  block_height = value.height;
}

abbrev pub is_active : Tip → Bool
is_active tip = elim (tip.status) [ active ↦ true | inactive ↦ false ]

-- Iterator::find
abbrev pub find_active : List Tip → Option Tip
find_active [] = none
find_active (tip ∷ tips) = if is_active tip then some tip else find_active tips

abbrev pub tip_of : RpcError ⊎ List Tip → Result BlockRef
tip_of (inl e) = err (bitcoin_core_rpc e)
tip_of (inr tips) =
    Result.◌>>=◌ (Result.ok_or no_chain_tip (find_active tips))
      λ tip. ok (record { block_height = tip.height; block_hash = tip.hash })

-- The error of a scan: -8 is the code of a scan that is in progress.
abbrev pub scan_error : RpcError → Error
scan_error (rpc (negsuc n) message) =
    if nat_beq n 7 then scan_already_in_progress else bitcoin_core_rpc (rpc (negsuc n) message)
scan_error e = bitcoin_core_rpc e

abbrev pub is_success : Option Bool → Bool
is_success (some true) = true
is_success _ = false

abbrev pub utxos_of : RpcError ⊎ ScanTxOutResult → Result (List Utxo)
utxos_of (inl e) = err (scan_error e)
utxos_of (inr result) =
    if is_success result.success
    then ok (map utxo_from result.unspents)
    else err scan_tx_out_failure

module _ {W D R : Type 0} (lib : Sbtc D R) (inner : Rpc W) where
  unfoldable pub get_chain_tip : Exec W BlockRef
  get_chain_tip w = let (answer, w') = inner.get_chain_tips w in (tip_of answer, w')

  unfoldable pub scan_tx_out_set : List Script → Exec W (List Utxo)
  unfolding utxo_from
  scan_tx_out_set addresses w =
      let descriptors = map (λ addr. join "raw(" (join (lib.to_hex_string addr) ")")) addresses in
      let (answer, w') = inner.scan_tx_out_set_blocking descriptors w in (utxos_of answer, w')

  -- `call(…).map_err(Error::BitcoinCoreRpc)`, of a method of the RPC client or of `call`.
  abbrev rpc_result : {A : Type 0} → RpcError ⊎ A → Result A
  rpc_result (inl e) = err (bitcoin_core_rpc e)
  rpc_result (inr a) = ok a

  abbrev forward : {A : Type 0} → (W → (RpcError ⊎ A) × W) → Exec W A
  forward method w = let (answer, w') = method w in (rpc_result answer, w')

  abbrev call : {A : Type 0} → String → List Arg → (String → RpcError ⊎ A) → Exec W A
  call method args json = do
    answer ← forward (inner.call method args)
    lift (rpc_result (json answer))

  unfoldable pub scan_tx_out_set_scanning : Exec W Bool
  scan_tx_out_set_scanning =
      call "scantxoutset" (text "status" ∷ []) λ answer. inr (not (inner.is_null answer))

  unfoldable pub get_block_hash : ℕ → Exec W String
  get_block_hash block_height = forward (inner.get_block_hash block_height)

  unfoldable pub get_raw_transaction_hex : String → String → Exec W String
  get_raw_transaction_hex txid block_hash =
      forward (inner.get_raw_transaction_hex txid (some block_hash))

  unfoldable pub load_wallet : String → Exec W (Unit {0})
  load_wallet wallet = forward (inner.load_wallet wallet)

  unfoldable pub create_wallet : String → Exec W (Unit {0})
  create_wallet wallet =
      call "createwallet"
        (text wallet ∷ flag true ∷ flag true ∷ text "" ∷ flag false ∷ flag true ∷ flag true ∷ [])
        inner.json_load_wallet

  unfoldable pub list_descriptors : Exec W (List String)
  list_descriptors = call "listdescriptors" [] inner.json_list_descriptors

  abbrev value_of : ImportDescriptor → Result String
  value_of descriptor = map_err (λ e. bitcoin_core_rpc (other e)) (inner.to_value descriptor)

  unfoldable pub import_descriptors : List ImportDescriptor → Exec W (List Bool)
  import_descriptors descriptors = do
    jsons ← lift (Result.collect value_of descriptors)
    call "importdescriptors" (values jsons ∷ []) inner.json_import_multi

  unfoldable pub get_descriptor_info : String → Exec W String
  get_descriptor_info desc = forward (inner.get_descriptor_info desc)

  unfoldable pub list_unspent : Exec W (List Unspent)
  list_unspent = forward (inner.list_unspent (some 1))

  -- The client as the interface that the monitor, the wallet and the poller use.
  unfoldable pub bitcoin_api : BitcoinApi W
  unfolding get_chain_tip scan_tx_out_set scan_tx_out_set_scanning get_block_hash
      get_raw_transaction_hex load_wallet create_wallet list_descriptors import_descriptors
      get_descriptor_info list_unspent
  bitcoin_api = record {
    get_chain_tip = get_chain_tip;
    scan_tx_out_set = scan_tx_out_set;
    scan_tx_out_set_scanning = scan_tx_out_set_scanning;
    get_block_hash = get_block_hash;
    get_raw_transaction_hex = get_raw_transaction_hex;
    load_wallet = load_wallet;
    create_wallet = create_wallet;
    list_descriptors = list_descriptors;
    get_descriptor_info = get_descriptor_info;
    import_descriptors = import_descriptors;
    list_unspent = list_unspent;
  }
