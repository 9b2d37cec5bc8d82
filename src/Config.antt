-- ===== src/Config.antt =====
-- The settings and their validation (src/config/mod.rs). A URL is kept in
-- its printed form, and a duration as its seconds.
pub mod Validity
pub mod Deserializers
pub mod Reading
pub mod Valid
use Prim.Native.Char.{code}
use spox.Prelude.{
  ℕ, suc, ◌-◌, String, Bool, true, false, Option, none, some, List, ◌&&◌, ◌||◌, nat_beq, leb,
  if◌then◌else◌, ◌⊎◌, inl, inr,
}
use spox.Prelude.Int.{ℤ, pos, negsuc}
use spox.Principal.{ContractId}
use spox.Error.{Result, ok, err, unexpected_local_timestamp}
use spox.Storage.{MonitoredDepositConfig}
use spox.StacksClient.{StacksConfig}
use spox.RewardClaimProcess.{RewardClaimsConfig}

pub data SpoxConfigError : Type 0 where
  config_error : String → SpoxConfigError
  zero_duration_forbidden : String → SpoxConfigError
  missing_stacks : SpoxConfigError
  empty_bitcoin_wallet_name : SpoxConfigError

-- BitcoinCoreWalletConfig; the time is in seconds, as a 64-bit signed integer.
pub record BitcoinCoreWalletConfig : Type 0 where
  pub name : String
  pub rescan_timestamp : ℤ

-- Settings; the order of `deposit` is the one in which the `HashMap` is iterated.
pub record Settings : Type 0 where
  pub bitcoin_rpc_endpoint : String
  pub bitcoin_rpc_timeout : ℕ
  pub emily_endpoint : String
  pub polling_interval : ℕ
  pub deposit : List (String × MonitoredDepositConfig)
  pub registry_contract : Option ContractId
  pub reward_claims : Option RewardClaimsConfig
  pub stacks : Option StacksConfig
  pub node_wallet : Option BitcoinCoreWalletConfig

-- char::is_whitespace
abbrev pub is_whitespace : ℕ → Bool
is_whitespace c =
    (leb 9 c && leb c 13)
    || nat_beq c 32
    || nat_beq c 133
    || nat_beq c 160
    || nat_beq c 5760
    || (leb 8192 c && leb c 8202)
    || nat_beq c 8232
    || nat_beq c 8233
    || nat_beq c 8239
    || nat_beq c 8287
    || nat_beq c 12288

-- `name.trim().is_empty()`
unfoldable pub is_blank : String → Bool
is_blank String.[] = true
is_blank (String.◌∷◌ c s) = is_whitespace (code c) && is_blank s

abbrev pub is_some : {A : Type 0} → Option A → Bool
is_some none = false
is_some (some a) = true

abbrev pub has_blank_name : Option BitcoinCoreWalletConfig → Bool
has_blank_name none = false
has_blank_name (some wallet) = is_blank wallet.name

-- `is_some() && stacks.is_none()`
abbrev pub lacks : {A : Type 0} → Option A → Option StacksConfig → Bool
lacks o none = is_some o
lacks o (some stacks) = false

unfoldable pub validate : Settings → SpoxConfigError ⊎ Unit {0}
unfolding is_blank
validate settings =
    if nat_beq settings.polling_interval 0
    then inl (zero_duration_forbidden "polling_interval")
    else if nat_beq settings.bitcoin_rpc_timeout 0
    then inl (zero_duration_forbidden "bitcoin_rpc_timeout")
    else if lacks settings.registry_contract settings.stacks
    then inl missing_stacks
    else if lacks settings.reward_claims settings.stacks
    then inl missing_stacks
    else if has_blank_name settings.node_wallet
    then inl empty_bitcoin_wallet_name
    else inr tt

-- `now` is the system's time, which may be before the UNIX epoch; `-` stops at 0, as
-- `saturating_add_signed` does below.
unfoldable pub get_rescan_timestamp : BitcoinCoreWalletConfig → Option ℕ → Result ℕ
get_rescan_timestamp wallet now = elim (wallet.rescan_timestamp) [
  | pos n ↦ ok n
  | negsuc n ↦ elim now [
    | none ↦ err unexpected_local_timestamp
    | some seconds ↦ ok (seconds - suc n)
  ]
]
