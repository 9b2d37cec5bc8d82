-- ===== src/Examples/Registry.antt =====
-- The registry of deposit addresses at work, on a node whose owner removes an address while the client
-- reads.
use spox.Prelude.{
  ◌<◌, ℕ, String, ◌⊎◌, inl, inr, true, false, none, some, List, [], ◌∷◌, map, length, ltb, leb,
  if◌then◌else◌, ◌==◌, string_eq, nat_eq, list_eq, ◌≡◌, refl, ap, arith,
}
use spox.Principal.{ContractId}
use spox.Error.{ok}
use spox.Exec.{pure}
use spox.Clarity.{Value, Values, u_int, list, nil, cons, of_list}
use spox.StacksApi.{StacksApi}
use spox.BitcoinApi.{BitcoinApi}
use spox.DepositMonitor.{MonitorState}
use spox.DepositProcess.{update_from_registry}
use spox.Contracts.{map_set}
use spox.Contracts.DepositRegistry.{
  DepositAddress, RegistryState, deployed, register_address, remove_addresses, get_next_address_id,
  get_addresses, registered, removed, Reach, here, next,
}
use spox.Contracts.DepositRegistry.History.{register_address_once}
use spox.Contracts.DepositRegistry.Serving.{Serves}
use spox.Contracts.DepositRegistry.Watching.{
  registry, IsWatching, update_from_registry-IsWatching, update_from_registry_complete,
}
use spox.Contracts.DepositRegistry.Watching.Storing.{WatchedBelow}
use spox.Examples.Deposits.{lib, hexes, keep_all}
use spox.Prelude.{◌<◌, pair_eq}
use spox.DepositMonitor.{LruCache}
use spox.Examples

abbrev address : ℕ → DepositAddress
address n = record { deposit_script = n ∷ []; reclaim_script = 10 ∷ [] }

abbrev chain : RegistryState
chain = record {
  next_address_id = 2;
  deposit_address = λ id. if ltb id 2 then some (address id) else none;
}

-- The owner removes the first address.
abbrev removal : RegistryState → RegistryState
removal s = (remove_addresses "owner" "owner" (0 ∷ []) s).1

abbrev as_id : Value → ℕ
as_id (u_int id) = id
as_id _ = 0

abbrev ids_of : Values → List ℕ
ids_of nil = []
ids_of (cons v vs) = as_id v ∷ ids_of vs

abbrev arguments : List Value → List ℕ
arguments (list vs ∷ []) = ids_of vs
arguments _ = []

abbrev node : StacksApi RegistryState
node = record {
  block_id = λ consensus tip. tip;
  get_node_info = pure Examples.info;
  get_account = λ principal. pure Examples.account;
  call_read = λ issuer name function sender args tip s.
      if function == "get-next-address-id"
      then (ok (get_next_address_id s), removal s)
      else (ok (get_addresses s (arguments args)), s);
  submit_tx = λ tx s. (ok (Examples.answer true), s);
}

abbrev list_with_type : ℕ → List Value → String ⊎ Value
list_with_type n vs = if leb (length vs) n then inr (list (of_list vs)) else inl "too long"

ids_lem : (ids : List ℕ) → ids_of (of_list (map (λ id. u_int id) ids)) ≡ ids
unfolding of_list
ids_lem [] = refl
ids_lem (id ∷ ids) = ap (◌∷◌ id) (ids_lem ids)

abbrev contract_id : ContractId
contract_id = record { issuer = "SP1"; name = "registry" }

serves : Serves node list_with_type contract_id "owner" (λ s. s)
serves = record {
  bounded_list = λ n vs few. ground (arith, few);
  next_id = λ s. record {
    moment = s;
    before = here;
    after = next here (removed "owner" (0 ∷ []) (omega arith) refl);
    answer = inl refl;
  };
  addresses = λ ids s. record {
    moment = s;
    before = here;
    after = here;
    answer = inl (ap (λ k. ok (get_addresses s k)) (ids_lem ids));
  };
}

abbrev bitcoin : BitcoinApi RegistryState
bitcoin = record {
  get_chain_tip = pure (record { block_height = 105; block_hash = "tip" });
  scan_tx_out_set = λ scripts. pure [];
  scan_tx_out_set_scanning = pure false;
  get_block_hash = λ height. pure "block";
  get_raw_transaction_hex = λ txid block. pure txid;
  load_wallet = λ name. pure tt;
  create_wallet = λ name. pure tt;
  list_descriptors = pure [];
  get_descriptor_info = λ descriptor. pure descriptor;
  import_descriptors = λ imports. pure [];
  list_unspent = pure [];
}

abbrev created : LruCache (List ((String × ℕ) × Unit {0})) (String × ℕ) (Unit {0})
created = keep_all pair_eq

abbrev State : Type 0
State =
    MonitorState RegistryState (List ((String × String) × String)) (List ((String × ℕ) × Unit {0}))
      (List ℕ) ℕ

abbrev begin : State
begin = record {
  world = chain;
  shared = record { poisoned = false; store = record { last_next_address_id = 0; monitored = [] } };
  tx_hex_cache = [];
  created_deposits = [];
}

begin-IsWatching :
    IsWatching lib bitcoin hexes created node list_with_type contract_id "owner"
      (λ s. s)
      serves
      begin
begin-IsWatching = record {
  free = refl;
  behind = omega arith;
  below = λ id d lt e. absurd (omega arith);
}

abbrev updated : State
updated =
    (update_from_registry lib bitcoin hexes created
      (some (
        registry lib bitcoin hexes created node list_with_type contract_id "owner" (λ s. s) serves))
      begin).1

update_from_registry-IsWatching_example :
    IsWatching lib bitcoin hexes created node list_with_type contract_id "owner"
      (λ s. s)
      serves
      updated
update_from_registry-IsWatching_example =
    update_from_registry-IsWatching lib bitcoin hexes created node list_with_type contract_id
      "owner" (λ s. s) serves begin begin-IsWatching

updated_lem :
    (update_from_registry lib bitcoin hexes created
      (some (
        registry lib bitcoin hexes created node list_with_type contract_id "owner" (λ s. s) serves))
      begin).0
    ≡ ok tt
unfolding update_from_registry remove_addresses get_next_address_id get_addresses
    spox.AddressRegistry.get_next_address_id spox.AddressRegistry.get_addresses of_list
    spox.Clarity.lookup spox.Clarity.without
updated_lem = refl

update_from_registry_complete_example : WatchedBelow lib 2 updated.world updated.shared
update_from_registry_complete_example =
    update_from_registry_complete lib bitcoin hexes created node list_with_type contract_id "owner"
      (λ s. s) serves begin begin-IsWatching updated_lem

-- Two registrations, and the first address removed.
abbrev after_first : RegistryState
after_first = record { next_address_id = 1; deposit_address = map_set 0 (address 0) (λ id. none) }

abbrev after_second : RegistryState
after_second = record {
  next_address_id = 2;
  deposit_address = map_set 1 (address 1) after_first.deposit_address;
}

reached : Reach "owner" after_first (removal after_second)
unfolding register_address
reached =
    next
      (next here
        (registered {t = after_second} 1 (1 ∷ []) (10 ∷ []) (omega arith) (omega arith) refl))
      (removed "owner" (0 ∷ []) (omega arith) refl)

first_lem : register_address (0 ∷ []) (10 ∷ []) deployed ≡ some (0, after_first)
unfolding register_address deployed
first_lem = refl

register_address_once_example :
    (((removal after_second).deposit_address 0
        ≡ some (record { deposit_script = 0 ∷ []; reclaim_script = 10 ∷ [] }))
      ⊎ ((removal after_second).deposit_address 0 ≡ none))
    × ((d r : List ℕ) (id : ℕ) (v : RegistryState)
        → register_address d r (removal after_second) ≡ some (id, v)
        → 0 < id)
register_address_once_example =
    register_address_once (0 ∷ []) (10 ∷ []) deployed 0 first_lem reached
