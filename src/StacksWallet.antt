-- ===== src/StacksWallet.antt =====
-- The single-signature Stacks wallet (src/stacks/wallet.rs). `Signing` stands for the crates that
-- derive addresses, hash transactions and sign digests.
pub mod Signatures
use spox.Prelude.{ℕ, ◌+◌, ◌%◌, ◌^◌, String, Bool, List, [], ◌∷◌, ◌==◌, nat_eq, if◌then◌else◌}
use spox.StacksApi.{
  ContractCall, SpendingCondition, StacksTransaction, TransactionVersion, mainnet, testnet,
  PostConditionMode, originator, HashMode, PublicKeyEncoding, AnchorMode,
}

pub record Signing : Type 0 where
  pub chain_id_mainnet : ℕ
  pub p2pkh_address : Bool → String → String
  pub address_bytes : String → String
  pub into_initial_sighash_auth : SpendingCondition → SpendingCondition
  pub txid : StacksTransaction → String
  pub make_sighash_presign : String → ℕ → ℕ → List ℕ
  pub sign_ecdsa_recoverable : List ℕ → String → ℕ × List ℕ
  pub empty_signature : List ℕ

pub record StacksWallet : Type 0 where
  pub secret_key : String
  pub address : String
  pub chain_id : ℕ
  pub nonce : ℕ

abbrev pub u64_limit : ℕ
u64_limit = 2 ^ 64

unfoldable pub set_nonce : StacksWallet → ℕ → StacksWallet
set_nonce wallet value = record wallet { nonce = value }

-- AtomicU64::fetch_add wraps around.
unfoldable pub increment_nonce : StacksWallet → StacksWallet
increment_nonce wallet = record wallet { nonce = (wallet.nonce + 1) % u64_limit }

-- RecoverableEcdsaSignature::to_byte_array: the recovery id as a byte, then the signature.
unfoldable pub to_byte_array : ℕ × List ℕ → List ℕ
to_byte_array (recovery_id, bytes) = (recovery_id % 256) ∷ bytes

module _ (signing : Signing) where
  unfoldable pub wallet_new : String → ℕ → ℕ → StacksWallet
  wallet_new secret_key chain_id nonce = record {
    secret_key = secret_key;
    address = signing.p2pkh_address (chain_id == signing.chain_id_mainnet) secret_key;
    chain_id = chain_id;
    nonce = nonce;
  }

  unfoldable pub is_mainnet : StacksWallet → Bool
  is_mainnet wallet = wallet.chain_id == signing.chain_id_mainnet

  unfoldable pub as_unsigned_tx_auth : StacksWallet → ℕ → SpendingCondition
  as_unsigned_tx_auth wallet tx_fee = record {
    signer = signing.address_bytes wallet.address;
    nonce = wallet.nonce;
    tx_fee = tx_fee;
    hash_mode = HashMode.p2pkh;
    key_encoding = PublicKeyEncoding.compressed;
    signature = signing.empty_signature;
  }

  -- The digest that a signer signs, from the transaction with its authorization cleared.
  unfoldable pub tx_digest : StacksTransaction → List ℕ
  tx_digest tx =
      signing.make_sighash_presign
        (signing.txid (record tx { auth = signing.into_initial_sighash_auth tx.auth }))
        tx.auth.tx_fee tx.auth.nonce

  unfoldable unsigned_tx : StacksWallet → ContractCall → ℕ → StacksTransaction
  unfolding is_mainnet as_unsigned_tx_auth
  unsigned_tx wallet payload tx_fee = record {
    version = if is_mainnet wallet then mainnet else testnet;
    chain_id = wallet.chain_id;
    auth = as_unsigned_tx_auth wallet tx_fee;
    anchor_mode = AnchorMode.any;
    post_condition_mode = originator;
    post_conditions = [];
    payload = payload;
  }

  unfoldable pub sign_tx : StacksWallet → ContractCall → ℕ → StacksTransaction
  unfolding unsigned_tx tx_digest to_byte_array
  sign_tx wallet payload tx_fee =
      let tx = unsigned_tx wallet payload tx_fee in
      let signature = signing.sign_ecdsa_recoverable (tx_digest tx) wallet.secret_key in
      record tx { auth = record (tx.auth) { signature = to_byte_array signature } }
