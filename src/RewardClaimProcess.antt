-- ===== src/RewardClaimProcess.antt =====
-- The process that advances reward claims and withdrawals at each Bitcoin chain tip
-- (src/reward_claim_process.rs). Each loop also returns the transactions that it handed to the node,
-- with the node's answers, in their order. The order in which a `HashMap` is visited is drawn from
-- the state of the world; `none` is a paging loop that its fuel does not finish.
pub mod Setup
pub mod Ownership
pub mod Submissions
pub mod Ticks
pub mod Calls
use spox.Prelude.{ℕ, zero, suc, ◌+◌, ◌*◌, ◌%◌, String, Option, none, some, List, [], ◌∷◌, ◌++◌}
use spox.Principal.{Principal, ContractId}
use spox.Error.{Error, Result, ok, err, missing_reward_claims_config, missing_stacks_config}
use spox.Result
use spox.Exec.{Exec}
use spox.Withdrawal.{WithdrawalItem}
use spox.Batch.{Groups, RewardClaimsBatch, num_stakers, WithdrawalsBatch, num_withdrawals}
use spox.StacksApi.{
  StacksApi, AccountInfo, NodeInfo, SubmitTxResponse, acceptance, rejection, ContractCall,
  StacksTransaction,
}
use spox.StacksWallet.{
  Signing, StacksWallet, u64_limit, wallet_new, set_nonce, increment_nonce, sign_tx,
}
use spox.RewardClaimRegistry.{Running, get_pending_claim_batches, get_pending_withdrawal_batches}
use spox.ContractCalls.{claims_tx_payload, withdrawals_tx_payload}

abbrev pub per_item_tx_fee : ℕ
per_item_tx_fee = 2000

abbrev pub base_tx_fee : ℕ
base_tx_fee = 3000

-- `n as u64 * PER_ITEM_TX_FEE + BASE_TX_FEE`
unfoldable pub tx_fee : ℕ → ℕ
tx_fee items = (items * per_item_tx_fee + base_tx_fee) % u64_limit

-- RewardClaimState: the registry's contract, and the wallet, beside the world.
pub record ProcessState (W : Type 0) : Type 0 where
  pub wallet : StacksWallet
  pub world : W

pub record Submission : Type 0 where
  pub tx : StacksTransaction
  pub answer : Result SubmitTxResponse

-- The submissions of a step that may have failed: its error is logged and dropped.
abbrev pub submitted : Result (List Submission) → List Submission
submitted (ok submissions) = submissions
submitted (err e) = []

-- RewardClaimsConfig
pub record RewardClaimsConfig : Type 0 where
  pub claims_contract : ContractId
  pub private_key : String

-- The nonce moves on if the node accepted the transaction, and at no other answer.
unfoldable pub wallet_after : Result SubmitTxResponse → StacksWallet → StacksWallet
unfolding increment_nonce
wallet_after (ok (acceptance txid)) wallet = increment_nonce wallet
wallet_after (ok (rejection error)) wallet = wallet
wallet_after (err error) wallet = wallet

module _ {W : Type 0} (signing : Signing) (api : StacksApi W) where
  unfoldable pub submit : ContractCall → ℕ → ProcessState W → Submission × ProcessState W
  unfolding wallet_after
  submit payload items s =
      let tx = sign_tx signing s.wallet payload (tx_fee items) in
      let (answer, world) = api.submit_tx tx s.world in
      (
        record { tx = tx; answer = answer },
        record { wallet = wallet_after answer s.wallet; world = world },
      )

  -- `for batch in batches { … }`, over batches of either kind.
  unfoldable pub submit_batches :
      {B : Type 0}
      → (B → ContractCall)
      → (B → ℕ)
      → List B
      → ProcessState W
      → List Submission × ProcessState W
  unfolding submit
  submit_batches payload size [] s = ([], s)
  submit_batches payload size (batch ∷ batches) s =
      let (submission, s') = submit (payload batch) (size batch) s in
      let (rest, s'') = submit_batches payload size batches s' in (submission ∷ rest, s'')

  abbrev pub Processing : Type 0
  Processing = ProcessState W → Option (Result (List Submission) × ProcessState W)

  -- What follows `let batches = ….await?`.
  abbrev pub then_submit :
      {B : Type 0}
      → (B → ContractCall)
      → (B → ℕ)
      → StacksWallet
      → Option (Result (List B) × W)
      → Option (Result (List Submission) × ProcessState W)
  then_submit payload size wallet none = none
  then_submit payload size wallet (some (err e, w)) =
      some (err e, record { wallet = wallet; world = w })
  then_submit payload size wallet (some (ok batches, w)) =
      let (submissions, s) =
        submit_batches payload size batches (record { wallet = wallet; world = w }) in
      some (ok submissions, s)

  module _ (registry : ContractId) (fuel : ℕ) where
    unfoldable pub process_claims :
        (W → Groups ContractId Principal → Groups ContractId Principal) → Processing
    unfolding submit_batches
    process_claims iterate s =
        then_submit claims_tx_payload num_stakers s.wallet
          (get_pending_claim_batches api registry (iterate s.world) fuel s.world)

    unfoldable pub process_withdrawals :
        (W → Groups ContractId WithdrawalItem → Groups ContractId WithdrawalItem) → Processing
    unfolding submit_batches
    process_withdrawals iterate s =
        then_submit withdrawals_tx_payload num_withdrawals s.wallet
          (get_pending_withdrawal_batches api registry (iterate s.world) fuel s.world)

    -- RewardClaimState::update_wallet_nonce
    abbrev set_from : Result AccountInfo → ProcessState W → Result (Unit {0}) × ProcessState W
    set_from (ok account) s = (ok tt, record s { wallet = set_nonce s.wallet account.nonce })
    set_from (err e) s = (err e, s)

    unfoldable pub update_wallet_nonce : Exec (ProcessState W) (Unit {0})
    update_wallet_nonce s =
        let (account, world) = api.get_account s.wallet.address s.world in
        set_from account (record s { world = world })

    module _ (claims_order : W → Groups ContractId Principal → Groups ContractId Principal)
        (withdrawals_order : W
          → Groups ContractId WithdrawalItem
          → Groups ContractId WithdrawalItem) where
      abbrev after_withdrawals :
          List Submission
          → Option (Result (List Submission) × ProcessState W)
          → Option (List Submission × ProcessState W)
      after_withdrawals before none = none
      after_withdrawals before (some (r, s)) = some (before ++ submitted r, s)

      abbrev after_claims :
          Option (Result (List Submission) × ProcessState W)
          → Option (List Submission × ProcessState W)
      after_claims none = none
      after_claims (some (r, s)) =
          after_withdrawals (submitted r) (process_withdrawals withdrawals_order s)

      abbrev after_nonce :
          Result (Unit {0}) × ProcessState W → Option (List Submission × ProcessState W)
      after_nonce (err e, s) = some ([], s)
      after_nonce (ok done, s) = after_claims (process_claims claims_order s)

      -- The body of `while let Some(chain_tip) = rx.recv().await`; the tip itself is only logged.
      unfoldable pub process_tip : ProcessState W → Option (List Submission × ProcessState W)
      unfolding update_wallet_nonce
      process_tip s = after_nonce (update_wallet_nonce s)

      abbrev join_tips :
          List Submission
          → Option (List Submission × ProcessState W)
          → Option (List Submission × ProcessState W)
      join_tips before none = none
      join_tips before (some (rest, s)) = some (before ++ rest, s)

      abbrev then_tips :
          (ProcessState W → Option (List Submission × ProcessState W))
          → Option (List Submission × ProcessState W)
          → Option (List Submission × ProcessState W)
      then_tips more none = none
      then_tips more (some (before, s)) = join_tips before (more s)

      -- The loop, over as many tips as the channel delivers before it closes.
      unfoldable pub process_tips : ℕ → ProcessState W → Option (List Submission × ProcessState W)
      unfolding process_tip
      process_tips zero s = some ([], s)
      process_tips (suc tips) s = then_tips (process_tips tips) (process_tip s)
