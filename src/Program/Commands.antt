-- ===== src/Program/Commands.antt =====
-- The commands of the program (src/main.rs). What is printed is a list of lines. `AddressApi` is the
-- bitcoin crate's `Address::from_script` with its printing, for a network, and the printing of numbers.
use Prim.Native.String.{◌++◌ as ◌<>◌}
use spox.Prelude.{ℕ, String, Option, none, some, List, [], ◌∷◌, ◌⊎◌, inl, inr}
use spox.Error.{
  Error, Result, ok, err, missing_stacks_config, no_signers_aggregate_key, no_registry_configured,
  mismatching_raw_address_ids,
}
use spox.Result
use spox.Exec.{Exec, raise, lift, ◌>>=◌}
use spox.Principal.{ContractId}
use spox.Clarity.{Value}
use spox.Sbtc.{Script, Sbtc}
use spox.Storage.{MonitoredDeposit, MonitoredDepositSource, config, registry, to_script_pubkey}
use spox.AddressRegistry.{get_addresses, deposit_from_raw}
use spox.StacksClient.{
  Http, StacksClient, StacksConfig, client_try_from, get_current_signers_aggregate_key, stacks_api,
}
use spox.Config.{SpoxConfigError, Settings}
use spox.Context.{Context}

pub record AddressApi : Type 0 where
  pub from_script : Script → String → String ⊎ String
  pub print_nat : ℕ → String

-- CliCommand, with the arguments of each; a network is kept by its name.
pub data CliCommand : Type 0 where
  get_signers_xonly_key : CliCommand
  get_deposit_address : String → CliCommand
  get_registry_address : String → ℕ → CliCommand

-- Box<dyn std::error::Error>
pub data Failure : Type 0 where
  app_error : Error → Failure
  settings_error : SpoxConfigError → Failure
  address_error : String → Failure

-- The lines printed, and the failure that ended it if there was one.
pub record Output : Type 0 where
  pub lines : List String
  pub failure : Option Failure

abbrev pub fails : Failure → Output
fails e = record { lines = []; failure = some e }

abbrev pub print_line : String → Output → Output
print_line line output = record output { lines = line ∷ output.lines }

abbrev pub done : Output
done = record { lines = []; failure = none }

abbrev one_line : {W : Type 0} → Result String × W → Output × W
one_line (ok line, w) = (print_line line done, w)
one_line (err e, w) = (fails (app_error e), w)

module _ {W : Type 0} (http : Http W) where
  abbrev deployer_of : Option StacksConfig → Result String
  deployer_of none = err missing_stacks_config
  deployer_of (some stacks) = ok stacks.sbtc_deployer

  unfoldable pub print_signers_xonly_key : Settings → W → Output × W
  unfolding client_try_from get_current_signers_aggregate_key
  print_signers_xonly_key settings w = one_line (
      (do
        stacks_client ← lift (client_try_from http settings.stacks)
        sbtc_deployer ← lift (deployer_of settings.stacks)
        signers_aggregate_key ← get_current_signers_aggregate_key http stacks_client sbtc_deployer
        lift (Result.ok_or no_signers_aggregate_key signers_aggregate_key))
        w)

module _ {D R : Type 0} (lib : Sbtc D R) (addresses : AddressApi) where
  abbrev pub line_of : MonitoredDepositSource → String → String
  line_of (config alias) address = alias <> ": " <> address
  line_of (registry id) address = "id=" <> addresses.print_nat id <> ": " <> address

  abbrev pub print_next : MonitoredDepositSource → String ⊎ String → Output → Output
  print_next source (inl e) rest = fails (address_error e)
  print_next source (inr address) rest = print_line (line_of source address) rest

  -- The loop ends at the first script that has no address, with the lines before it printed.
  unfoldable pub print_deposit_addresses : List (MonitoredDeposit D R) → String → Output
  unfolding to_script_pubkey
  print_deposit_addresses [] network = done
  print_deposit_addresses (deposit ∷ monitored) network =
      print_next deposit.source (addresses.from_script (to_script_pubkey lib deposit) network)
        (print_deposit_addresses monitored network)

  -- Iterator::next
  abbrev first_of : {A : Type 0} → List A → Option A
  first_of [] = none
  first_of (a ∷ as') = some a

  abbrev print_address : Result (MonitoredDeposit D R) → String → Output
  print_address (err e) network = fails (app_error e)
  print_address (ok deposit) network =
      elim (addresses.from_script (to_script_pubkey lib deposit) network) [
        | inl e ↦ fails (address_error e)
        | inr address ↦ print_line address done
      ]

  module _ {W : Type 0} (http : Http W) (list_with_type : ℕ → List Value → String ⊎ Value) where
    abbrev registry_deposit : Option (ContractId × StacksClient) → ℕ → Exec W (MonitoredDeposit D R)
    registry_deposit none id = raise no_registry_configured
    registry_deposit (some (contract, client)) id = do
      raws ← get_addresses (stacks_api http client) list_with_type contract (id ∷ [])
      raw_address ← lift (Result.ok_or mismatching_raw_address_ids (first_of raws))
      lift (deposit_from_raw lib raw_address)

    unfoldable pub print_registry_address : Context D R → String → ℕ → W → Output × W
    unfolding stacks_api get_addresses deposit_from_raw to_script_pubkey
    print_registry_address context network id w =
        let (deposit, w') = registry_deposit context.registry id w in
        (print_address deposit network, w')
