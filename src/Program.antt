-- ===== src/Program.antt =====
-- The program's entry (src/main.rs). Parsing the arguments is clap's, and reading the settings is that
-- of src/config.
pub mod Commands
pub mod StartUp
pub mod Starting
pub mod Printing
use Prim.Native.String.{◌++◌ as ◌<>◌}
use spox.Prelude.{ℕ, String, Option, none, some, List, [], ◌∷◌, ◌⊎◌, inl, inr}
use spox.Error.{
  Error, Result, ok, err, missing_stacks_config, no_signers_aggregate_key, no_registry_configured,
  mismatching_raw_address_ids,
}
use spox.Result
use spox.Exec.{Exec, pure, raise, lift, ◌>>=◌}
use spox.Principal.{ContractId}
use spox.Clarity.{Value}
use spox.Sbtc.{Script, Sbtc}
use spox.Storage.{
  MonitoredDeposit, MonitoredDepositSource, config, registry, MonitoredDepositConfig, SharedStore,
  to_script_pubkey, add, deposit_from_config,
}
use spox.AddressRegistry.{RawRegisteredDeposit, get_addresses, deposit_from_raw}
use spox.StacksClient.{
  Http, StacksClient, StacksConfig, client_try_from, get_current_signers_aggregate_key, stacks_api,
}
use spox.BitcoinWallet.{load_or_create_wallet}
use spox.BitcoinNode.{Rpc, bitcoin_api}
use spox.BitcoinNode.Connecting.{Urls, BitcoinCoreClient}
use spox.Config.{SpoxConfigError, Settings, BitcoinCoreWalletConfig}
use spox.Context.{Context, context_try_from}
use spox.Program.Commands.{
  AddressApi, CliCommand, get_signers_xonly_key, get_deposit_address, get_registry_address, Output,
  fails, app_error, settings_error, print_signers_xonly_key, print_deposit_addresses,
  print_registry_address,
}
use spox.Program.StartUp.{monitored_deposits, start_up}

-- The program ends with what it printed, or runs its processes on a context.
pub data Outcome (D R : Type 0) : Type 0 where
  finished : Output → Outcome D R
  running : Context D R → Outcome D R

module _ {W D R : Type 0} (lib : Sbtc D R) (addresses : AddressApi)
    (list_with_type : ℕ → List Value → String ⊎ Value) (urls : Urls)
    (check : String → String ⊎ Unit {0}) (http : Http W) (rpc : BitcoinCoreClient → Rpc W) where
  abbrev finish : Output × W → Outcome D R × W
  finish (output, w) = (finished output, w)

  abbrev with_context : (Context D R → W → Output × W) → Result (Context D R) → W → Output × W
  with_context command (err e) w = (fails (app_error e), w)
  with_context command (ok context) w = command context w

  abbrev run_command : Settings → List (MonitoredDeposit D R) → CliCommand → W → Output × W
  run_command settings monitored get_signers_xonly_key w = print_signers_xonly_key http settings w
  run_command settings monitored (get_deposit_address network) w =
      (print_deposit_addresses lib addresses monitored network, w)
  run_command settings monitored (get_registry_address network id) w =
      with_context
        (λ context. print_registry_address lib addresses http list_with_type context network id)
        (context_try_from urls check http settings) w

  abbrev pub started : Result (Context D R) × W → Outcome D R × W
  started (err e, w) = (finished (fails (app_error e)), w)
  started (ok context, w) = (running context, w)

  abbrev pub with_monitored :
      Settings → Option CliCommand → Result (List (MonitoredDeposit D R)) → W → Outcome D R × W
  with_monitored settings command (err e) w = (finished (fails (app_error e)), w)
  with_monitored settings (some command) (ok monitored) w =
      finish (run_command settings monitored command w)
  with_monitored settings none (ok monitored) w =
      started (start_up lib urls check http rpc settings monitored w)

  unfoldable pub main : SpoxConfigError ⊎ Settings → Option CliCommand → W → Outcome D R × W
  unfolding monitored_deposits start_up print_signers_xonly_key print_deposit_addresses
      print_registry_address context_try_from
  main (inl e) command w = (finished (fails (settings_error e)), w)
  main (inr settings) command w =
      with_monitored settings command (monitored_deposits lib settings.deposit) w
