-- ===== src/Examples/Launch.antt =====
-- Reading the settings, building the context and starting the program at work.
use spox.Prelude.{
  inl, ℕ, suc, String, false, none, some, List, [], ◌∷◌, ◌⊎◌, inr, nat_eq, list_eq, string_eq, ◌==◌,
  if◌then◌else◌, ◌≡◌, ◌≢◌, ◌↔◌, refl,
}
use spox.Prelude.Int.{pos}
use spox.Error.{ok, err, missing_stacks_config}
use spox.Principal.{standard}
use spox.Clarity.{Value, u_int}
use spox.Sbtc.{Script}
use spox.StacksClient.{Http}
use spox.Storage.{MonitoredDeposit, MonitoredDepositSource, MonitoredDepositConfig}
use spox.Storage.Laws.{deposit_at}
use spox.Config.{Settings}
use spox.Config.Deserializers.{Parsers}
use spox.Config.Reading.{Values, ConfigCrate, read_built, settings_new}
use spox.Config.Valid.{IsValid, settings_new_iff}
use spox.Context.{Context, context_try_from, wallet}
use spox.Context.Building.{context_try_from_sound}
use spox.Context.Wallet.{connect, wallet_only, wallet-state_new}
use spox.RewardClaimProcess.Setup.{state_new}
use spox.Program.{main}
use spox.Program.Commands.{AddressApi, print_deposit_addresses}
use spox.Program.Printing.{Lists, print_deposit_addresses_lem}
use spox.Program.StartUp.{monitored_deposits, setup_wallet}
use spox.Program.Starting.{first_under, running_if, main-watches}
use spox.Examples.{signing, registry}
use spox.Examples.Deposits.{lib}
use spox.Examples.Node.{rpc_calls}
use spox.Examples.Startup.{http, urls, check}

-- A table that has every field but the reward claims, whose values are their own names.
abbrev values : Values String
values = record {
  get = λ name table. if name == "reward_claims" then none else some name;
  as_string = λ v. inr v;
  as_u64 = λ v. inr 30;
  as_u32 = λ v. inr 10;
  as_i64 = λ v. inr (pos 0);
  as_option = λ v. inr (some v);
  as_map = λ v. inr (("fund", "entry") ∷ []);
  missing_field = λ name. name;
}

abbrev parsers : Parsers
parsers = record {
  url = λ text. inr text;
  standard_principal = λ text. inr text;
  principal = λ text. inr (standard text);
  qualified_contract = λ text. inr registry;
  x_only_public_key = λ text. inr text;
  script_from_hex = λ text. inr (5 ∷ []);
  secret_key = λ text. inr text;
}

abbrev crate : ConfigCrate (Unit {0}) String
crate = record {
  builder = tt;
  set_default = λ name value b. inr tt;
  add_file = λ path b. b;
  add_environment = λ prefix one two b. b;
  build = λ b. inr "root";
}

abbrev entry : MonitoredDepositConfig
entry = record {
  signers_xonly = "signers_xonly";
  recipient = standard "recipient";
  max_fee = 30;
  lock_time = 10;
  reclaim_script = 5 ∷ [];
}

abbrev settings : Settings
settings = record {
  bitcoin_rpc_endpoint = "bitcoin_rpc_endpoint";
  bitcoin_rpc_timeout = 30;
  emily_endpoint = "emily_endpoint";
  polling_interval = 30;
  deposit = ("fund", entry) ∷ ("spare", entry) ∷ [];
  registry_contract = some registry;
  reward_claims = none;
  stacks = some (record {
    rpc_endpoint = "rpc_endpoint";
    auth_token = "auth_token";
    sbtc_deployer = "sbtc_deployer";
  });
  node_wallet = some (record { name = "name"; rescan_timestamp = pos 0 });
}

abbrev read : Settings
read = record settings { deposit = ("fund", entry) ∷ [] }

settings_new_iff_example :
    (settings_new values parsers crate (some "spox.toml") ≡ inr read)
    ↔ ((read_built values parsers crate (some "spox.toml") ≡ inr read) × IsValid read)
settings_new_iff_example = settings_new_iff values parsers crate (some "spox.toml") read

was_read : settings_new values parsers crate none ≡ inr read
unfolding settings_new
was_read = refl

context_try_from_sound_example :
    context_try_from {D = Script} {R = ℕ} urls check (http (λ request w. suc w)) read
    ≢ err missing_stacks_config
context_try_from_sound_example =
    context_try_from_sound urls check (http (λ request w. suc w)) values parsers crate none read
      was_read

abbrev http_node : Http ℕ
http_node = http (λ request w. suc w)

abbrev claiming : Settings
claiming = record settings {
  reward_claims = some (record { claims_contract = registry; private_key = "secret" });
}

wallet-state_new_example :
    wallet http_node signing claiming 0
    ≡ wallet_only http_node signing (
        state_new signing
          (connect http_node signing)
          claiming.reward_claims
          (some ("rpc_endpoint", "auth_token"))
          0)
wallet-state_new_example = wallet-state_new http_node signing claiming 0

abbrev watched : String → MonitoredDeposit Script ℕ
watched alias = record {
  source = MonitoredDepositSource.config alias;
  deposit_script_inputs = 30 ∷ [];
  reclaim_script_inputs = 10;
}

abbrev deposits : List (MonitoredDeposit Script ℕ)
deposits = watched "fund" ∷ watched "spare" ∷ []

abbrev built : Context Script ℕ
built = record {
  bitcoin_client = record {
    url = "http://127.0.0.1:18443/wallet/spox";
    username = "devnet";
    password = some "secret";
    timeout = 30;
  };
  emily_base_path = "emily_endpoint";
  storage = record {
    poisoned = false;
    store = record { last_next_address_id = 0; monitored = [] };
  };
  settings = settings;
  registry = some (
    registry,
    record { endpoint = "rpc_endpoint"; default_headers = ("authorization", "auth_token") ∷ [] },
  );
}

were_built : context_try_from urls check http_node settings ≡ ok built
unfolding context_try_from
were_built = refl

were_monitored : monitored_deposits lib settings.deposit ≡ ok deposits
unfolding monitored_deposits
were_monitored = refl

abbrev addresses : AddressApi
addresses = record { from_script = λ script network. inr "bc1"; print_nat = λ n. "0" }

abbrev list_of : ℕ → List Value → String ⊎ Value
list_of bound vs = inr (u_int bound)

main-watches_example :
    (context : Context Script ℕ) × (context.settings ≡ settings)
    × ((k : Script) → deposit_at context.storage k ≡ first_under lib k deposits)
    × (main lib addresses list_of urls check http_node (λ client. rpc_calls) (inr settings) none 0
        ≡ running_if lib addresses list_of urls check http_node
            (λ client. rpc_calls)
            context
            (setup_wallet lib urls check http_node (λ client. rpc_calls) context 0))
main-watches_example =
    main-watches lib addresses list_of urls check http_node (λ client. rpc_calls) settings deposits
      built 0 were_monitored were_built

-- The second deposit has no address on the network.
abbrev some_addresses : AddressApi
some_addresses = record {
  from_script = λ script network. if script == 30 ∷ [] then inr "bc1" else inl "unrecognized";
  print_nat = λ n. "0";
}

abbrev listed : List (MonitoredDeposit Script ℕ)
listed = watched "fund" ∷ record (watched "odd") { deposit_script_inputs = 6 ∷ [] } ∷ []

print_deposit_addresses_lem_example :
    Lists lib some_addresses "bitcoin" listed
      (print_deposit_addresses lib some_addresses listed "bitcoin")
print_deposit_addresses_lem_example =
    print_deposit_addresses_lem lib some_addresses "bitcoin" listed
