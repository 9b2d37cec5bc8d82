-- ===== src/BitcoinApi.antt =====
-- Bitcoin Core as the program uses it: the types of src/bitcoin/mod.rs, and the calls of
-- `BitcoinCoreClient` as an interface over the state `W` of the world.
use spox.Prelude.{ℕ, String, Bool, Option, List}
use spox.Exec.{Exec}
use spox.Sbtc.{Script}

pub record BlockRef : Type 0 where
  pub block_height : ℕ
  pub block_hash : String

pub record Utxo : Type 0 where
  pub txid : String
  pub vout : ℕ
  pub script_pub_key : Script
  pub amount : ℕ
  pub block_height : ℕ

-- ListUnspentResultEntry, as far as it is read.
pub record Unspent : Type 0 where
  pub txid : String
  pub vout : ℕ
  pub script_pub_key : Script
  pub amount : ℕ
  pub confirmations : ℕ

-- ImportDescriptors; `timestamp` is in seconds, and the other fields are constant.
pub record ImportDescriptor : Type 0 where
  pub descriptor : String
  pub timestamp : ℕ
  pub internal : Option Bool

pub record BitcoinApi (W : Type 0) : Type 0 where
  pub get_chain_tip : Exec W BlockRef
  pub scan_tx_out_set : List Script → Exec W (List Utxo)
  pub scan_tx_out_set_scanning : Exec W Bool
  pub get_block_hash : ℕ → Exec W String
  pub get_raw_transaction_hex : String → String → Exec W String
  pub load_wallet : String → Exec W (Unit {0})
  pub create_wallet : String → Exec W (Unit {0})
  pub list_descriptors : Exec W (List String)
  pub get_descriptor_info : String → Exec W String
  pub import_descriptors : List ImportDescriptor → Exec W (List Bool)
  pub list_unspent : Exec W (List Unspent)
