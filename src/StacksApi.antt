-- ===== src/StacksApi.antt =====
-- The Stacks node as the registry clients use it: the types of src/stacks/node.rs that cross that
-- interface, transactions, and the interface itself. Addresses, keys, hashes and block ids are kept
-- as text. `W` is the state of everything outside the program.
use spox.Prelude.{ℕ, String, Option, List}
use spox.Exec.{Exec}
use spox.Clarity.{Value}

-- AccountInfo
pub record AccountInfo : Type 0 where
  pub balance : ℕ
  pub locked : ℕ
  pub unlock_height : ℕ
  pub nonce : ℕ

pub record NodeInfo : Type 0 where
  pub chain_id : ℕ
  pub stacks_tip : String
  pub stacks_tip_consensus_hash : String

pub record TxRejection : Type 0 where
  pub error : String
  pub reason : String
  pub reason_data : Option String
  pub txid : String

pub data SubmitTxResponse : Type 0 where
  acceptance : String → SubmitTxResponse
  rejection : TxRejection → SubmitTxResponse

-- TransactionContractCall, the one payload that the program sends.
pub record ContractCall : Type 0 where
  pub address : String
  pub contract_name : String
  pub function_name : String
  pub function_args : List Value

-- Of these types the values that the program uses, and `other` for the rest.
pub data HashMode : Type 0 where
  p2pkh other : HashMode

pub data PublicKeyEncoding : Type 0 where
  compressed uncompressed : PublicKeyEncoding

pub data AnchorMode : Type 0 where
  any other : AnchorMode

-- SinglesigSpendingCondition
pub record SpendingCondition : Type 0 where
  pub signer : String
  pub nonce : ℕ
  pub tx_fee : ℕ
  pub hash_mode : HashMode
  pub key_encoding : PublicKeyEncoding
  pub signature : List ℕ

pub data TransactionVersion : Type 0 where
  mainnet testnet : TransactionVersion

pub data PostConditionMode : Type 0 where
  allow deny originator : PostConditionMode

-- StacksTransaction, with a standard single-signature authorization.
pub record StacksTransaction : Type 0 where
  pub version : TransactionVersion
  pub chain_id : ℕ
  pub auth : SpendingCondition
  pub anchor_mode : AnchorMode
  pub post_condition_mode : PostConditionMode
  pub post_conditions : List Value
  pub payload : ContractCall

-- What `StacksClient` offers. A `Some` tip pins a read to that block.
pub record StacksApi (W : Type 0) : Type 0 where
  pub block_id : String → String → String
  pub get_node_info : Exec W NodeInfo
  pub get_account : String → Exec W AccountInfo
  pub call_read : String → String → String → String → List Value → Option String → Exec W Value
  pub submit_tx : StacksTransaction → Exec W SubmitTxResponse

-- NodeInfo::chain_tip
unfoldable pub chain_tip : {W : Type 0} → StacksApi W → NodeInfo → String
chain_tip api info = api.block_id info.stacks_tip_consensus_hash info.stacks_tip
