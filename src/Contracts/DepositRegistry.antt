-- ===== src/Contracts/DepositRegistry.antt =====
-- The registry of deposit addresses (contracts/contracts/registry.clar).
pub mod History
pub mod Serving
pub mod Watching
use spox.Prelude.{
  ℕ, ◌+◌, ◌≤◌, String, Bool, Option, none, some, List, [], ◌∷◌, map, length, ◌⊎◌, inl, inr, leb,
  ltb, ◌==◌, nat_eq, string_eq, if◌then◌else◌, ◌≡◌,
}
use spox.Clarity.{
  Value, u_int, buffer, tuple, list, optional_none, optional_some, end, field, of_list,
}
use spox.Sbtc.{Script}
use spox.Storage.Laws.{is_some}
use spox.Contracts.{uint_limit, map_set, map_delete}

pub record DepositAddress : Type 0 where
  pub deposit_script : Script
  pub reclaim_script : Script

pub record RegistryState : Type 0 where
  pub next_address_id : ℕ
  pub deposit_address : ℕ → Option DepositAddress

-- The contract as it is deployed.
unfoldable pub deployed : RegistryState
deployed = record { next_address_id = 0; deposit_address = λ id. none }

unfoldable pub register_address : Script → Script → RegistryState → Option (ℕ × RegistryState)
register_address deposit_script reclaim_script s =
    let id = s.next_address_id in
    if leb uint_limit (id + 1)
    then none
    else some (
      id,
      record {
        next_address_id = id + 1;
        deposit_address =
            map_set id (record { deposit_script = deposit_script; reclaim_script = reclaim_script })
              s.deposit_address;
      },
    )

unfoldable pub remove_address : ℕ → RegistryState → Bool × RegistryState
remove_address id s =
    (is_some (s.deposit_address id), record s { deposit_address = map_delete id s.deposit_address })

-- `map remove-address`, from left to right.
unfoldable pub remove_all : List ℕ → RegistryState → List Bool × RegistryState
unfolding remove_address
remove_all [] s = ([], s)
remove_all (id ∷ ids) s =
    let (removed, s') = remove_address id s in
    let (others, s'') = remove_all ids s' in (removed ∷ others, s'')

abbrev pub err_unauthorized : ℕ
err_unauthorized = 100

-- A left result is the code of an error.
unfoldable pub remove_addresses :
    (contract_owner tx_sender : String) → List ℕ → RegistryState → (ℕ ⊎ List Bool) × RegistryState
unfolding remove_all
remove_addresses contract_owner tx_sender ids s =
    if tx_sender == contract_owner
    then (let (removed, s') = remove_all ids s in (inr removed, s'))
    else (inl err_unauthorized, s)

unfoldable pub get_next_address_id : RegistryState → Value
get_next_address_id s = u_int s.next_address_id

abbrev pub address_of : Option DepositAddress → Value
address_of none = optional_none
address_of (some a) = optional_some (
    tuple (
      field "deposit-script" (buffer a.deposit_script)
        (field "reclaim-script" (buffer a.reclaim_script) end)))

unfoldable pub get_address : RegistryState → ℕ → Value
get_address s id =
    tuple (field "id" (u_int id) (field "address" (address_of (s.deposit_address id)) end))

unfoldable pub get_addresses : RegistryState → List ℕ → Value
unfolding get_address
get_addresses s ids = list (of_list (map (get_address s) ids))

-- A transaction that changes the contract; Clarity checks the types of its arguments.
pub data Step (contract_owner : String) : RegistryState → RegistryState → Type 0 where
  registered :
      {s t : RegistryState} (id : ℕ) (deposit_script reclaim_script : Script)
      → length deposit_script ≤ 196
      → length reclaim_script ≤ 2048
      → register_address deposit_script reclaim_script s ≡ some (id, t)
      → Step contract_owner s t
  removed :
      {s t : RegistryState} (tx_sender : String) (ids : List ℕ)
      → length ids ≤ 4000
      → (remove_addresses contract_owner tx_sender ids s).1 ≡ t
      → Step contract_owner s t

pub data Reach (contract_owner : String) (s : RegistryState) : RegistryState → Type 0 where
  here : Reach contract_owner s s
  next :
      {t u : RegistryState}
      → Reach contract_owner s t
      → Step contract_owner t u
      → Reach contract_owner s u
