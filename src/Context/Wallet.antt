-- ===== src/Context/Wallet.antt =====
-- The two ways to the wallet: `Context::wallet`, and `RewardClaimState::new`.
use spox.Prelude.{String, Option, none, some, ◌≡◌, refl}
use spox.Principal.{ContractId}
use spox.Error.{Result, ok, err}
use spox.Result
use spox.Exec
use spox.Exec.{lift}
use spox.StacksApi.{StacksApi, NodeInfo}
use spox.StacksClient.{Http, StacksClient, StacksConfig, client_new, stacks_api, get_node_info}
use spox.StacksWallet.{Signing, StacksWallet, wallet_new}
use spox.RewardClaimProcess.{RewardClaimsConfig}
use spox.RewardClaimProcess.Setup.{state_with, state_new}
use spox.Config.{Settings}
use spox.Context.{wallet, wallet_of, wallet_from}

abbrev pub endpoint_and_token : Option StacksConfig → Option (String × String)
endpoint_and_token none = none
endpoint_and_token (some stacks) = some (stacks.rpc_endpoint, stacks.auth_token)

module _ {W : Type 0} (http : Http W) (signing : Signing) where
  -- The client as `RewardClaimState::new` builds it.
  abbrev pub connect : String → String → Result (StacksApi W)
  connect endpoint token =
      Result.◌>>=◌ (client_new http endpoint token) λ client. ok (stacks_api http client)

  abbrev pub wallet_only :
      Result (ContractId × StacksApi W × StacksWallet) × W → Result StacksWallet × W
  wallet_only (ok (contract, api, wallet), w) = (ok wallet, w)
  wallet_only (err e, w) = (err e, w)

  connected :
      (c : RewardClaimsConfig) (client : Result StacksClient) (w : W)
      → Exec.◌>>=◌ (lift client) (wallet_of http signing c) w
        ≡ wallet_only (state_with signing c (Result.◌>>=◌ client λ k. ok (stacks_api http k)) w)
  unfolding stacks_api
  connected c (err e) w = refl
  connected c (ok client) w =
      answered (get_node_info http client w).0 (get_node_info http client w).1
    where
      answered :
          (r : Result NodeInfo) (w' : W)
          → Exec.◌>>=◌
              (λ t. (r, t))
              (λ info. Exec.pure (wallet_new signing c.private_key info.chain_id 0))
              w'
            ≡ wallet_only (
              Result.◌>>=◌ r λ i. ok (
                c.claims_contract,
                stacks_api http client,
                wallet_new signing c.private_key i.chain_id 0,
              ),
              w',
            )
      answered (ok info) w' = refl
      answered (err e) w' = refl

  -- The context's wallet is that of the state of the reward-claims process, with the same error where
  -- either fails, and both leave the same world.
  pub wallet-state_new :
      (settings : Settings) (w : W)
      → wallet http signing settings w
        ≡ wallet_only (
            state_new signing connect settings.reward_claims (endpoint_and_token settings.stacks) w)
  unfolding wallet state_new stacks_api
  wallet-state_new settings w = go settings.reward_claims settings.stacks
    where
      go :
          (claims : Option RewardClaimsConfig) (stacks : Option StacksConfig)
          → wallet_from http signing claims stacks w
            ≡ wallet_only (state_new signing connect claims (endpoint_and_token stacks) w)
      go none stacks = refl
      go (some c) none = refl
      go (some c) (some s) = connected c (client_new http s.rpc_endpoint s.auth_token) w
