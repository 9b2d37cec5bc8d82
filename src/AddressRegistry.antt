-- ===== src/AddressRegistry.antt =====
-- The client of the deposit address registry contract (src/stacks/registry.rs).
pub mod Raw
use spox.Prelude.{
  ℕ, ◌^◌, String, Option, none, some, List, [], ◌∷◌, map, length, ltb, ◌⊎◌, if◌then◌else◌,
}
use spox.Principal.{ContractId}
use spox.Error.{
  Error, Result, ok, err, clarity_bad_list, invalid_stacks_response, missing_address_scripts, sbtc,
  too_many_address_ids,
}
use spox.Result
use spox.Result.{map_err}
use spox.Exec.{Exec, pure, raise, lift, ◌>>=◌}
use spox.Clarity.{Value, u_int, tuple, list, to_list, read, remove_buff, remove_option, remove_uint}
use spox.StacksApi.{StacksApi}
use spox.Sbtc.{Script, Sbtc}
use spox.Storage.{MonitoredDeposit, MonitoredDepositSource, registry}

abbrev pub get_addresses_max_ids : ℕ
get_addresses_max_ids = 400

abbrev pub u64_limit : ℕ
u64_limit = 2 ^ 64

pub record RawRegisteredDepositScripts : Type 0 where
  pub deposit_script : Script
  pub reclaim_script : Script

pub record RawRegisteredDeposit : Type 0 where
  pub id : ℕ
  pub address : Option RawRegisteredDepositScripts

-- u64::try_from
abbrev pub to_u64 : ℕ → Result ℕ
to_u64 n = if ltb n u64_limit then ok n else err (invalid_stacks_response "uint is too large")

abbrev read_scripts : Value → Result RawRegisteredDepositScripts
read_scripts = read do
  deposit_script ← remove_buff "deposit-script"
  reclaim_script ← remove_buff "reclaim-script"
  pure (record { deposit_script = deposit_script; reclaim_script = reclaim_script })

-- The value must be a tuple; the message differs from the one that `read` gives.
unfoldable pub scripts_try_from : Value → Result RawRegisteredDepositScripts
unfolding read
scripts_try_from (tuple m) = read_scripts (tuple m)
scripts_try_from _ = err (invalid_stacks_response "did not get an address tuple")

unfoldable pub raw_deposit_try_from : Value → Result RawRegisteredDeposit
unfolding read scripts_try_from
raw_deposit_try_from = read do
  id ← remove_uint "id"
  scripts ← remove_option "address"
  address ← lift (Result.transpose_map scripts_try_from scripts)
  small ← lift (to_u64 id)
  pure (record { id = small; address = address })

-- TryFrom<RawRegisteredDeposit> for MonitoredDeposit
unfoldable pub deposit_from_raw :
    {D R : Type 0} → Sbtc D R → RawRegisteredDeposit → Result (MonitoredDeposit D R)
deposit_from_raw lib raw = elim (raw.address) [
  | none ↦ err missing_address_scripts
  | some address ↦ Result.◌>>=◌ (map_err sbtc (lib.parse_deposit address.deposit_script)) λ deposit.
      Result.◌>>=◌ (map_err sbtc (lib.parse_reclaim address.reclaim_script)) λ reclaim. ok (record {
        source = registry raw.id;
        deposit_script_inputs = deposit;
        reclaim_script_inputs = reclaim;
      })
]

abbrev pub next_id_of : Value → Result ℕ
next_id_of (u_int id) = to_u64 id
next_id_of _ = err (invalid_stacks_response "did not get a uint")

abbrev pub raw_deposits_of : Value → Result (List RawRegisteredDeposit)
raw_deposits_of (list vs) = Result.collect raw_deposit_try_from (to_list vs)
raw_deposits_of _ = err (invalid_stacks_response "did not get a list")

-- `list_with_type` builds a list value of a type of bounded lists, as the Clarity crate does.
module _ {W : Type 0} (api : StacksApi W) (list_with_type : ℕ → List Value → String ⊎ Value)
    (contract : ContractId) where
  unfoldable pub get_next_address_id : Exec W ℕ
  get_next_address_id = do
    result ←
        api.call_read contract.issuer contract.name "get-next-address-id" contract.issuer [] none
    lift (next_id_of result)

  abbrev pub fetch_addresses : List ℕ → Exec W (List RawRegisteredDeposit)
  fetch_addresses ids = do
    arg ←
        lift (
          map_err clarity_bad_list
            (list_with_type get_addresses_max_ids (map (λ id. u_int id) ids)))
    result ←
        api.call_read contract.issuer contract.name "get-addresses" contract.issuer (arg ∷ []) none
    lift (raw_deposits_of result)

  unfoldable pub get_addresses : List ℕ → Exec W (List RawRegisteredDeposit)
  unfolding raw_deposit_try_from to_list
  get_addresses [] = pure []
  get_addresses (id ∷ ids) =
      if ltb get_addresses_max_ids (length (id ∷ ids))
      then raise (too_many_address_ids (length (id ∷ ids)) get_addresses_max_ids)
      else fetch_addresses (id ∷ ids)
