-- ===== src/Examples.antt =====
-- A small node and wallet, on which the theorems are run in the modules below.
mod Rewards
mod Calls
mod Dispatch
mod Polling
mod Registry
mod Index
mod Registrations
mod Decoding
mod Deposits
mod Stores
mod Startup
mod Launch
mod Node
use spox.Prelude.{
  ℕ, suc, map, String, Bool, true, false, Option, none, some, List, [], ◌∷◌, ◌==◌, string_eq,
  nat_beq, if◌then◌else◌, ◌%◌,
}
use spox.Principal.{Principal, ContractId, standard, contract}
use spox.Error.{Error, Result, ok, err, stacks_node_request}
use spox.Exec.{Exec, pure}
use spox.Clarity.{
  Value, Fields, u_int, list, principal, tuple, optional_none, optional_some, response, end, field,
  of_list,
}
use spox.Claim.{RegistrationKey, PendingClaim}
use spox.Withdrawal.{PendingWithdrawal, WithdrawalItem, withdrawal_item_new}
use spox.StacksApi.{
  AccountInfo, NodeInfo, SubmitTxResponse, acceptance, rejection, StacksApi, StacksTransaction,
}
use spox.StacksWallet.{Signing, StacksWallet}
use spox.RewardClaimProcess.{ProcessState}

abbrev pub registry : ContractId
registry = record { issuer = "SP1"; name = "reward-claim-registry" }

abbrev pub manager : ContractId
manager = record { issuer = "SP2"; name = "manager" }

abbrev pub other_manager : ContractId
other_manager = record { issuer = "SP3"; name = "manager" }

abbrev pub claim : ContractId → String → PendingClaim
claim m staker = record {
  signer_manager = m;
  staker = standard staker;
  bond_index = none;
  reward_cycle = 7;
}

abbrev pub claim_fields : ContractId → String → Fields
claim_fields m staker = field "bond-index" optional_none (
    field "reward-cycle" (u_int 7) (
      field "signer-manager" (principal (contract m))
        (field "staker" (principal (standard staker)) end)))

abbrev pub withdrawal : ContractId → String → ℕ → PendingWithdrawal
withdrawal m staker request = record {
  signer_manager = m;
  item = withdrawal_item_new (standard staker) request;
}

abbrev pub withdrawal_fields : ContractId → String → ℕ → Fields
withdrawal_fields m staker request = field "request-id" (u_int request) (
    field "signer-manager" (principal (contract m))
      (field "staker" (principal (standard staker)) end))

abbrev pub key : RegistrationKey
key = record { staker = standard "bob"; signer_manager = contract manager }

abbrev pub key_value : Value
key_value = tuple (
    field "staker" (principal (standard "bob"))
      (field "signer-manager" (principal (contract manager)) end))

abbrev pub page : List Fields → Value → Fields
page rows next = field "next" next (field "rows" (list (of_list (map (λ row. tuple row) rows))) end)

abbrev pub claims_at : List Value → Value
claims_at (optional_none ∷ []) =
    tuple (
      page (claim_fields manager "ann" ∷ claim_fields manager "bob" ∷ []) (optional_some key_value))
claims_at _ = tuple (page (claim_fields other_manager "cy" ∷ []) optional_none)

abbrev pub withdrawals_page : Value
withdrawals_page = tuple (page (withdrawal_fields manager "dan" 4 ∷ []) optional_none)

abbrev pub rows : List PendingClaim
rows = claim manager "ann" ∷ claim manager "bob" ∷ claim other_manager "cy" ∷ []

abbrev pub withdrawal_rows : List PendingWithdrawal
withdrawal_rows = withdrawal manager "dan" 4 ∷ []

abbrev pub info : NodeInfo
info = record { chain_id = 1; stacks_tip = "tip"; stacks_tip_consensus_hash = "hash" }

abbrev pub account : AccountInfo
account = record { balance = 9; locked = 0; unlock_height = 0; nonce = 41 }

-- The world counts the transactions that were sent; the node refuses every other one.
abbrev pub answer : Bool → SubmitTxResponse
answer true = acceptance "txid"
answer false =
    rejection (record { error = "error"; reason = "FeeTooLow"; reason_data = none; txid = "txid" })

abbrev pub node : StacksApi ℕ
node = record {
  block_id = λ consensus tip. tip;
  get_node_info = pure info;
  get_account = λ address. pure account;
  call_read = λ issuer name function sender args tip.
      if function == "get-pending-claims"
      then pure (response true (claims_at args))
      else pure (response true withdrawals_page);
  submit_tx = λ tx sent. (ok (answer (nat_beq (sent % 2) 0)), suc sent);
}

abbrev pub signing : Signing
signing = record {
  chain_id_mainnet = 1;
  p2pkh_address = λ mainnet secret. secret;
  address_bytes = λ address. address;
  into_initial_sighash_auth = λ auth. record auth { nonce = 0; tx_fee = 0; signature = [] };
  txid = λ tx. "txid";
  make_sighash_presign = λ txid fee nonce. fee ∷ nonce ∷ [];
  sign_ecdsa_recoverable = λ digest secret. (1, digest);
  empty_signature = [];
}

abbrev pub wallet : StacksWallet
wallet = record { secret_key = "secret"; address = "secret"; chain_id = 1; nonce = 0 }

abbrev pub start : ProcessState ℕ
start = record { wallet = wallet; world = 0 }
