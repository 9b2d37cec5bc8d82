-- ===== src/Examples/Deposits.antt =====
-- The theorems on deposits and the store at work.
use spox.Prelude.{
  ℕ, zero, suc, ◌≤◌, max, Option, some, none, String, false, List, [], ◌∷◌, map, nat_eq, list_eq,
  string_eq, pair_eq, pair_beq_iff, if◌then◌else◌, Eq, inr, ◌≡◌, refl, arith,
}
use spox.Error.{ok}
use spox.Exec.{pure}
use spox.Sbtc.{Script, Sbtc}
use spox.Storage.{
  MonitoredDeposit, SharedStore, MonitoredDepositSource, find, add, to_script_pubkey,
}
use spox.Storage.Laws.{deposit_at, add-deposit_at}
use spox.AddressRegistry.{RawRegisteredDeposit}
use spox.BitcoinApi.{BlockRef, Utxo, BitcoinApi}
use spox.DepositMonitor.{LruCache, MonitorState, collect_deposits}
use spox.DepositMonitor.Picking.{Picks, Picked, Skipped, collect_deposits-Picks}
use spox.DepositMonitor.Caching.{HoldsWrites, IsCoherent}
use spox.DepositMonitor.Coherence.{Carried, collect_deposits-transactions}
use spox.DepositProcess.{Registry, update_from_registry}
use spox.DepositProcess.Chunk.{last_id}
use spox.DepositProcess.Following.{update_from_registry-bounds, update_from_registry-catches_up}

-- A deposit is its own script, and a reclaim input its lock time.
abbrev pub lib : Sbtc Script ℕ
lib = record {
  deposit_inputs = λ signers recipient fee. fee ∷ [];
  deposit_script = λ script. script;
  parse_deposit = λ script. inr script;
  reclaim_try_new = λ lock_time script. inr lock_time;
  reclaim_script = λ lock_time. lock_time ∷ [];
  lock_time = λ lock_time. lock_time;
  parse_reclaim = λ script. inr 10;
  to_script_pubkey = λ deposit reclaim. deposit;
  principal_json = λ p. inr p;
  to_hex_string = λ script. "00";
  print_txid = λ txid. txid;
  parse_txid = λ text. inr text;
}

abbrev pub bitcoin : BitcoinApi ℕ
bitcoin = record {
  get_chain_tip = pure (record { block_height = 105; block_hash = "tip" });
  scan_tx_out_set = λ scripts. pure [];
  scan_tx_out_set_scanning = pure false;
  get_block_hash = λ height. pure "block";
  get_raw_transaction_hex = λ txid block. pure txid;
  load_wallet = λ name. pure tt;
  create_wallet = λ name. pure tt;
  list_descriptors = pure [];
  get_descriptor_info = λ descriptor. pure descriptor;
  import_descriptors = λ imports. pure [];
  list_unspent = pure [];
}

-- A cache that keeps everything.
abbrev pub get : {K V : Type 0} → Eq K → K → List (K × V) → Option V
get e k [] = none
get e k ((j, v) ∷ m) = if e.beq j k then some v else get e k m

abbrev pub keep_all : {K V : Type 0} → Eq K → LruCache (List (K × V)) K V
keep_all e = record { get = λ k m. (get e k m, m); put = λ k v m. (k, v) ∷ m }

abbrev pub hexes : LruCache (List ((String × String) × String)) (String × String) String
hexes = keep_all pair_eq

abbrev created : LruCache (List ((String × ℕ) × Unit {0})) (String × ℕ) (Unit {0})
created = keep_all pair_eq

abbrev State : Type 0
State = MonitorState ℕ (List ((String × String) × String)) (List ((String × ℕ) × Unit {0})) Script ℕ

abbrev pub deposit : MonitoredDeposit Script ℕ
deposit = record {
  source = MonitoredDepositSource.config "fund";
  deposit_script_inputs = 5 ∷ [];
  reclaim_script_inputs = 10;
}

abbrev pub shared : SharedStore Script ℕ
shared = record {
  poisoned = false;
  store = record { last_next_address_id = 0; monitored = (5 ∷ [], deposit) ∷ [] };
}

abbrev start : State
start = record {
  world = 0;
  shared = shared;
  tx_hex_cache = [];
  created_deposits = (("c", 0), tt) ∷ [];
}

abbrev pub tip : BlockRef
tip = record { block_height = 105; block_hash = "tip" }

abbrev pub utxo : String → Script → ℕ → Utxo
utxo txid script height = record {
  txid = txid;
  vout = 0;
  script_pub_key = script;
  amount = 1;
  block_height = height;
}

-- A fresh one, one that expires, one that was created, and one of a script that is not monitored.
abbrev utxos : List Utxo
utxos =
    utxo "a" (5 ∷ []) 100
    ∷ utxo "b" (5 ∷ []) 95
    ∷ utxo "c" (5 ∷ []) 100
    ∷ utxo "d" (6 ∷ []) 100
    ∷ []

collect_deposits-Picks_example :
    Picks
      (Picked lib bitcoin hexes created tip shared start.created_deposits)
      (Skipped lib bitcoin hexes created tip shared start.created_deposits)
      utxos
      (collect_deposits lib bitcoin hexes created tip utxos start).0
collect_deposits-Picks_example =
    collect_deposits-Picks lib bitcoin hexes created tip (λ j k c. refl) utxos start refl

holds_writes : HoldsWrites lib bitcoin hexes created (λ k. k.0)
holds_writes = record {
  after_get = λ j k c v e. e;
  after_put = λ j k c v x e. ground (arith, e, pair_beq_iff string_eq string_eq k j);
}

truthful :
    (txid block : String) (w : ℕ) (hex : String)
    → (bitcoin.get_raw_transaction_hex txid block w).0 ≡ ok hex
    → hex ≡ txid
truthful txid block w hex e = cc

collect_deposits-transactions_example :
    Carried lib bitcoin hexes created
      (λ k. k.0)
      truthful
      holds_writes
      utxos
      (collect_deposits lib bitcoin hexes created tip utxos start).0
    × IsCoherent lib bitcoin hexes created
        (λ k. k.0)
        (collect_deposits lib bitcoin hexes created tip utxos start).1.tx_hex_cache
collect_deposits-transactions_example =
    collect_deposits-transactions lib bitcoin hexes created (λ k. k.0) truthful holds_writes tip
      utxos start (record { at_key = λ k hex e. cc })

-- Another deposit under the same script.
abbrev pub second : MonitoredDeposit Script ℕ
second = record deposit { reclaim_script_inputs = 99 }

add-deposit_at_example :
    (deposit_at (add lib second shared).1 (5 ∷ []) ≡ some deposit)
    × ((add lib second shared).0 ≡ ok tt)
    × ((add lib second shared).1.last_next_address_id ≡ 0)
    × ((add lib second shared).1.poisoned ≡ false)
unfolding to_script_pubkey find
add-deposit_at_example = add-deposit_at lib second shared (5 ∷ []) refl

-- Three addresses, of which the second is empty.
abbrev entry : ℕ → RawRegisteredDeposit
entry (suc zero) = record { id = 1; address = none }
entry id = record {
  id = id;
  address = some (record { deposit_script = id ∷ []; reclaim_script = [] });
}

abbrev registry : Registry ℕ
registry = record { next_address_id = pure 3; addresses = λ ids. pure (map entry ids) }

update_from_registry-bounds_example :
    (0 ≤ last_id (update_from_registry lib bitcoin hexes created (some registry) start).1.shared)
    × (last_id (update_from_registry lib bitcoin hexes created (some registry) start).1.shared
        ≤ max 0 3)
update_from_registry-bounds_example =
    update_from_registry-bounds lib bitcoin hexes created registry start 3 0 refl refl (omega arith)

update_from_registry-catches_up_example :
    last_id (update_from_registry lib bitcoin hexes created (some registry) start).1.shared ≡ 3
unfolding update_from_registry
update_from_registry-catches_up_example =
    update_from_registry-catches_up lib bitcoin hexes created registry start 3 0 refl refl
      (omega arith) refl
