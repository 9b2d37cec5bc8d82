-- ===== src/Config/Reading.antt =====
-- Reading the settings (`Settings::new` and the derived `Deserialize` of src/config/mod.rs). The
-- `config` crate is the parameter `ConfigCrate`, and its values are those of serde.
use spox.Prelude.{ℕ, ◌*◌, String, Option, none, some, List, [], ◌∷◌, ◌⊎◌, inl, inr}
use spox.Prelude.Int.{ℤ}
use spox.StacksClient.{StacksConfig}
use spox.RewardClaimProcess.{RewardClaimsConfig}
use spox.Storage.{MonitoredDepositConfig}
use spox.Config.{SpoxConfigError, config_error, Settings, BitcoinCoreWalletConfig, validate}
use spox.Config.Deserializers.{
  Parsers, ◌>>=◌, url_deserializer, duration_seconds_deserializer, stacks_address_deserializer,
  principal_deserializer, contract_deserializer, contract_deserializer_option, xonly_deserializer,
  script_deserializer,
}

-- A value of the configuration: a table's field, or a value read as the type that serde asks for. A
-- value that is read as an `Option` is `none` if it is nil.
pub record Values (V : Type 0) : Type 0 where
  pub get : String → V → Option V
  pub as_string : V → String ⊎ String
  pub as_u64 : V → String ⊎ ℕ
  pub as_u32 : V → String ⊎ ℕ
  pub as_i64 : V → String ⊎ ℤ
  pub as_option : V → String ⊎ Option V
  pub as_map : V → String ⊎ List (String × V)
  pub missing_field : String → String

-- The builder of the `config` crate: it may refuse a default, and fails when it is built.
pub record ConfigCrate (B V : Type 0) : Type 0 where
  pub builder : B
  pub set_default : String → ℕ → B → String ⊎ B
  pub add_file : String → B → B
  pub add_environment : String → String → String → B → B
  pub build : B → String ⊎ V

abbrev pub collect_entries :
    {A B : Type 0} → (A → String ⊎ B) → List (String × A) → String ⊎ List (String × B)
collect_entries f [] = inr []
collect_entries f ((k, a) ∷ entries) = do
  b ← f a
  rest ← collect_entries f entries
  inr ((k, b) ∷ rest)

module _ {V : Type 0} (values : Values V) (parsers : Parsers) where
  -- A field of a table, one with `#[serde(default)]`, and one of an `Option`.
  abbrev required : {A : Type 0} → String → (V → String ⊎ A) → V → String ⊎ A
  required name read table = elim (values.get name table) [
    | none ↦ inl (values.missing_field name)
    | some v ↦ read v
  ]

  abbrev defaulted : {A : Type 0} → A → String → (V → String ⊎ A) → V → String ⊎ A
  defaulted default name read table = elim (values.get name table) [
    | none ↦ inr default
    | some v ↦ read v
  ]

  abbrev read_some : {A : Type 0} → (V → String ⊎ A) → Option V → String ⊎ Option A
  read_some read none = inr none
  read_some read (some v) = do a ← read v; inr (some a)

  abbrev optional : {A : Type 0} → String → (V → String ⊎ A) → V → String ⊎ Option A
  optional name read = defaulted none name λ v. do inner ← values.as_option v; read_some read inner

  unfoldable pub read_deposit : V → String ⊎ MonitoredDepositConfig
  unfolding xonly_deserializer principal_deserializer script_deserializer
  read_deposit table = do
    signers_xonly ←
        required "signers_xonly" (λ v. xonly_deserializer parsers (values.as_string v)) table
    recipient ←
        required "recipient" (λ v. principal_deserializer parsers (values.as_string v)) table
    max_fee ← required "max_fee" values.as_u64 table
    lock_time ← required "lock_time" values.as_u32 table
    reclaim_script ←
        required "reclaim_script" (λ v. script_deserializer parsers (values.as_string v)) table
    inr (record {
      signers_xonly = signers_xonly;
      recipient = recipient;
      max_fee = max_fee;
      lock_time = lock_time;
      reclaim_script = reclaim_script;
    })

  unfoldable pub read_stacks : V → String ⊎ StacksConfig
  unfolding url_deserializer stacks_address_deserializer
  read_stacks table = do
    rpc_endpoint ←
        required "rpc_endpoint" (λ v. url_deserializer parsers (values.as_string v)) table
    auth_token ← required "auth_token" values.as_string table
    sbtc_deployer ←
        required "sbtc_deployer" (λ v. stacks_address_deserializer parsers (values.as_string v))
          table
    inr (record {
      rpc_endpoint = rpc_endpoint;
      auth_token = auth_token;
      sbtc_deployer = sbtc_deployer;
    })

  unfoldable pub read_reward_claims : V → String ⊎ RewardClaimsConfig
  unfolding contract_deserializer
  read_reward_claims table = do
    claims_contract ←
        required "claims_contract" (λ v. contract_deserializer parsers (values.as_string v)) table
    private_key ← required "private_key" (λ v. values.as_string v >>= parsers.secret_key) table
    inr (record { claims_contract = claims_contract; private_key = private_key })

  unfoldable pub read_wallet : V → String ⊎ BitcoinCoreWalletConfig
  read_wallet table = do
    name ← required "name" values.as_string table
    rescan_timestamp ← required "rescan_timestamp" values.as_i64 table
    inr (record { name = name; rescan_timestamp = rescan_timestamp })

  abbrev as_optional_string : V → String ⊎ Option String
  as_optional_string v = do inner ← values.as_option v; read_some values.as_string inner

  -- Of several faults the first in the order of the fields is returned, where serde returns the first
  -- in the order of the table.
  unfoldable pub read_settings : V → String ⊎ Settings
  unfolding read_deposit read_stacks read_reward_claims read_wallet url_deserializer
      duration_seconds_deserializer contract_deserializer_option
  read_settings table = do
    bitcoin_rpc_endpoint ←
        required "bitcoin_rpc_endpoint" (λ v. url_deserializer parsers (values.as_string v)) table
    bitcoin_rpc_timeout ←
        required "bitcoin_rpc_timeout" (λ v. duration_seconds_deserializer (values.as_u64 v)) table
    emily_endpoint ←
        required "emily_endpoint" (λ v. url_deserializer parsers (values.as_string v)) table
    polling_interval ←
        required "polling_interval" (λ v. duration_seconds_deserializer (values.as_u64 v)) table
    deposit ← defaulted [] "deposit" (λ v. values.as_map v >>= collect_entries read_deposit) table
    registry_contract ←
        defaulted none "registry_contract"
          (λ v. contract_deserializer_option parsers (as_optional_string v)) table
    reward_claims ← optional "reward_claims" read_reward_claims table
    stacks ← optional "stacks" read_stacks table
    node_wallet ← optional "node_wallet" read_wallet table
    inr (record {
      bitcoin_rpc_endpoint = bitcoin_rpc_endpoint;
      bitcoin_rpc_timeout = bitcoin_rpc_timeout;
      emily_endpoint = emily_endpoint;
      polling_interval = polling_interval;
      deposit = deposit;
      registry_contract = registry_contract;
      reward_claims = reward_claims;
      stacks = stacks;
      node_wallet = node_wallet;
    })

  module _ {B : Type 0} (crate : ConfigCrate B V) where
    abbrev add_path : Option String → B → B
    add_path none b = b
    add_path (some path) b = crate.add_file path b

    abbrev pub read_built : Option String → String ⊎ Settings
    read_built config_path = do
      polling ← crate.set_default "polling_interval" 30 crate.builder
      defaults ← crate.set_default "bitcoin_rpc_timeout" (60 * 5) polling
      cfg ← crate.build (crate.add_environment "SPOX" "_" "__" (add_path config_path defaults))
      read_settings cfg

    -- `settings.validate()?; Ok(settings)`
    abbrev pub then_return : Settings → SpoxConfigError ⊎ Unit {0} → SpoxConfigError ⊎ Settings
    then_return settings (inl e) = inl e
    then_return settings (inr valid) = inr settings

    abbrev pub validated : String ⊎ Settings → SpoxConfigError ⊎ Settings
    validated (inl message) = inl (config_error message)
    validated (inr settings) = then_return settings (validate settings)

    -- Settings::new
    unfoldable pub settings_new : Option String → SpoxConfigError ⊎ Settings
    unfolding read_settings validate
    settings_new config_path = validated (read_built config_path)
