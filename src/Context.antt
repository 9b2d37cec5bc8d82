-- ===== src/Context.antt =====
-- The context that the processes share (src/context.rs): the clients built from the settings, and
-- the store. A client of the address registry is its contract with a client of the Stacks node.
pub mod Wallet
pub mod Building
pub mod Trimming
use Prim.Native.Char.{code}
use spox.Prelude.{
  ℕ, String, Bool, true, false, Option, none, some, ◌⊎◌, nat_beq, string_eq, ◌==◌, ◌&&◌,
  if◌then◌else◌,
}
use spox.Principal.{ContractId}
use spox.Error.{Result, ok, missing_reward_claims_config, missing_stacks_config}
use spox.Result
use spox.Result.{◌>>=◌}
use spox.Exec
use spox.Exec.{Exec, pure, raise, lift}
use spox.StacksApi.{NodeInfo}
use spox.StacksClient.{Http, StacksClient, StacksConfig, client_new, client_try_from, get_node_info}
use spox.StacksWallet.{Signing, StacksWallet, wallet_new}
use spox.RewardClaimProcess.{RewardClaimsConfig}
use spox.Storage.{SharedStore, new_shared}
use spox.BitcoinNode.Connecting.{Urls, BitcoinCoreClient, from_config}
use spox.Config.{Settings, BitcoinCoreWalletConfig}

pub record Context (D R : Type 0) : Type 0 where
  pub bitcoin_client : BitcoinCoreClient
  pub emily_base_path : String
  pub storage : SharedStore D R
  pub settings : Settings
  pub registry : Option (ContractId × StacksClient)

-- `trim_end_matches('/')`: a slash is left out if nothing but slashes follows it.
abbrev pub push_unless_last : Bool → String → String → String
push_unless_last is_slash before rest = if is_slash && rest == "" then "" else before

unfoldable pub trim_end_slashes : String → String
trim_end_slashes String.[] = ""
trim_end_slashes (String.◌∷◌ c s) =
    let rest = trim_end_slashes s in
    push_unless_last (nat_beq (code c) b'/') (String.◌∷◌ c rest) rest

abbrev pub wallet_name : Option BitcoinCoreWalletConfig → Option String
wallet_name none = none
wallet_name (some wallet) = some wallet.name

module _ {W : Type 0} (http : Http W) where
  abbrev pub registry_of : Option StacksConfig → ContractId → Result (ContractId × StacksClient)
  registry_of stacks registry_contract = do
    client ← client_try_from http stacks
    ok ((registry_contract, client))

module _ {W D R : Type 0} (urls : Urls) (check : String → String ⊎ Unit {0}) (http : Http W) where
  -- TryFrom<&Settings>; `check` is the transport's check of the node's URL.
  unfoldable pub context_try_from : Settings → Result (Context D R)
  unfolding from_config client_try_from new_shared trim_end_slashes
  context_try_from value = do
    bitcoin_client ←
        from_config urls check value.bitcoin_rpc_endpoint (wallet_name value.node_wallet)
          value.bitcoin_rpc_timeout
    registry ← Result.transpose_map (registry_of http value.stacks) value.registry_contract
    ok (record {
      bitcoin_client = bitcoin_client;
      emily_base_path = trim_end_slashes value.emily_endpoint;
      storage = new_shared;
      settings = value;
      registry = registry;
    })

module _ {W : Type 0} (http : Http W) (signing : Signing) where
  abbrev pub wallet_of : RewardClaimsConfig → StacksClient → Exec W StacksWallet
  wallet_of claims client =
      Exec.◌>>=◌ (get_node_info http client)
        λ info. pure (wallet_new signing claims.private_key info.chain_id 0)

  abbrev pub wallet_from : Option RewardClaimsConfig → Option StacksConfig → Exec W StacksWallet
  wallet_from none stacks = raise missing_reward_claims_config
  wallet_from (some claims) none = raise missing_stacks_config
  wallet_from (some claims) (some stacks) =
      Exec.◌>>=◌ (lift (client_new http stacks.rpc_endpoint stacks.auth_token)) (wallet_of claims)

  -- Context::wallet, of the context's settings.
  unfoldable pub wallet : Settings → Exec W StacksWallet
  unfolding get_node_info client_new
  wallet settings = wallet_from settings.reward_claims settings.stacks
