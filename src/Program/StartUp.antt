-- ===== src/Program/StartUp.antt =====
-- The start-up of the program (src/main.rs), up to the two processes.
use spox.Prelude.{String, Option, none, some, List, [], ◌∷◌, ◌⊎◌}
use spox.Error.{Result, ok}
use spox.Result
use spox.Exec.{Exec, pure, lift, ◌>>=◌}
use spox.Sbtc.{Sbtc}
use spox.Storage.{MonitoredDeposit, MonitoredDepositConfig, SharedStore, add, deposit_from_config}
use spox.StacksClient.{Http}
use spox.BitcoinWallet.{load_or_create_wallet}
use spox.BitcoinNode.{Rpc, bitcoin_api}
use spox.BitcoinNode.Connecting.{Urls, BitcoinCoreClient}
use spox.Config.{Settings, BitcoinCoreWalletConfig}
use spox.Context.{Context, context_try_from}

module _ {D R : Type 0} (lib : Sbtc D R) where
  unfoldable pub monitored_deposits :
      List (String × MonitoredDepositConfig) → Result (List (MonitoredDeposit D R))
  unfolding deposit_from_config
  monitored_deposits entries =
      Result.collect (λ (alias, deposit). deposit_from_config lib alias deposit) entries

  unfoldable pub add_all : List (MonitoredDeposit D R) → Exec (SharedStore D R) (Unit {0})
  unfolding add
  add_all [] = pure tt
  add_all (monitored_deposit ∷ monitored) = do added ← add lib monitored_deposit; add_all monitored

  -- The store is shared: what is added to it is in the context.
  abbrev pub with_deposits : List (MonitoredDeposit D R) → Context D R → Result (Context D R)
  with_deposits monitored context =
      let (added, storage) = add_all monitored context.storage in
      Result.◌>>=◌ added λ all. ok (record context { storage = storage })

-- The parts of the program that start-up puts together: `rpc` is what the transport makes of a
-- client's address and credentials.
module _ {W D R : Type 0} (lib : Sbtc D R) (urls : Urls) (check : String → String ⊎ Unit {0})
    (http : Http W) (rpc : BitcoinCoreClient → Rpc W) where
  abbrev setup_with : Option BitcoinCoreWalletConfig → BitcoinCoreClient → Exec W (Unit {0})
  setup_with none client = pure tt
  setup_with (some wallet) client =
      load_or_create_wallet lib (bitcoin_api lib (rpc client)) wallet.name

  unfoldable pub setup_wallet : Context D R → Exec W (Unit {0})
  unfolding load_or_create_wallet bitcoin_api
  setup_wallet context = setup_with context.settings.node_wallet context.bitcoin_client

  -- From the settings to the context that the two processes are started with.
  unfoldable pub start_up : Settings → List (MonitoredDeposit D R) → Exec W (Context D R)
  unfolding context_try_from add_all setup_wallet
  start_up settings monitored = do
    built ← lift (context_try_from urls check http settings)
    context ← lift (with_deposits lib monitored built)
    wallet ← setup_wallet context
    pure context
