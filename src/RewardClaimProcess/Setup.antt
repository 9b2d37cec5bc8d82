-- ===== src/RewardClaimProcess/Setup.antt =====
-- The start of the process (src/reward_claim_process.rs): its wallet, and the loop over the tips that
-- the channel delivers.
use spox.Prelude.{ℕ, String, Option, none, some, List, []}
use spox.Principal.{Principal, ContractId}
use spox.Error.{Result, ok, err, missing_reward_claims_config, missing_stacks_config}
use spox.Result
use spox.Withdrawal.{WithdrawalItem}
use spox.Batch.{Groups}
use spox.StacksApi.{StacksApi}
use spox.StacksWallet.{Signing, StacksWallet, wallet_new}
use spox.RewardClaimProcess.{RewardClaimsConfig, ProcessState, Submission, process_tips}

-- What follows the construction of the client in `RewardClaimState::new`; the nonce starts at 0.
abbrev pub state_with :
    {W : Type 0}
    → Signing
    → RewardClaimsConfig
    → Result (StacksApi W)
    → W
    → Result (ContractId × StacksApi W × StacksWallet) × W
state_with signing config (err e) w = (err e, w)
state_with signing config (ok api) w =
    let (info, w') = api.get_node_info w in
    (
      Result.◌>>=◌ info
          λ i. ok (config.claims_contract, api, wallet_new signing config.private_key i.chain_id 0),
      w',
    )

-- RewardClaimState::new, over how a client is built from the endpoint and the token.
unfoldable pub state_new :
    {W : Type 0}
    → Signing
    → (String → String → Result (StacksApi W))
    → Option RewardClaimsConfig
    → Option (String × String)
    → W
    → Result (ContractId × StacksApi W × StacksWallet) × W
state_new signing client none stacks w = (err missing_reward_claims_config, w)
state_new signing client (some config) none w = (err missing_stacks_config, w)
state_new signing client (some config) (some (endpoint, token)) w =
    state_with signing config (client endpoint token) w

module _ {W : Type 0} (signing : Signing) (client : String → String → Result (StacksApi W))
    (fuel : ℕ) (claims_order : W → Groups ContractId Principal → Groups ContractId Principal)
    (withdrawals_order : W
      → Groups ContractId WithdrawalItem
      → Groups ContractId WithdrawalItem) where
  abbrev pub without_wallet :
      Option (List Submission × ProcessState W) → Option (List Submission × W)
  without_wallet none = none
  without_wallet (some (subs, s)) = some (subs, s.world)

  abbrev pub run_with :
      ℕ → Result (ContractId × StacksApi W × StacksWallet) × W → Option (List Submission × W)
  run_with tips (err e, w) = some ([], w)
  run_with tips (ok (contract, api, wallet), w) = without_wallet (
      process_tips signing api contract fuel claims_order withdrawals_order tips
        (record { wallet = wallet; world = w }))

  -- The process on as many tips as the channel delivers: it ends at once where it is not configured or
  -- cannot be set up.
  unfoldable pub process_reward_claims :
      Option RewardClaimsConfig → Option (String × String) → ℕ → W → Option (List Submission × W)
  unfolding state_new process_tips
  process_reward_claims none stacks tips w = some ([], w)
  process_reward_claims (some config) stacks tips w =
      run_with tips (state_new signing client (some config) stacks w)
