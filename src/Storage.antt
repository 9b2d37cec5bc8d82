-- ===== src/Storage.antt =====
-- The store of monitored deposits (src/storage). The map is an association list; the order of its
-- keys, which the standard library leaves open, is that of insertion here, and no statement rests on
-- it. `poisoned` is the state of the mutex: a thread that held it has panicked.
pub mod Laws
pub mod Refinement
use spox.Prelude.{
  ℕ, String, Bool, true, false, Option, none, some, List, [], ◌∷◌, ◌++◌, map, ◌⊎◌, inl, inr, ◌==◌,
  nat_eq, list_eq, if◌then◌else◌,
}
use spox.Principal.{Principal}
use spox.Error.{Error, Result, ok, err, poisoned_mutex, sbtc, principal_data_serde_json}
use spox.Result.{map_err, ◌>>=◌}
use spox.Exec.{Exec}
use spox.Sbtc.{Script, Sbtc}

pub data MonitoredDepositSource : Type 0 where
  config : String → MonitoredDepositSource
  registry : ℕ → MonitoredDepositSource

pub record MonitoredDeposit (D R : Type 0) : Type 0 where
  pub source : MonitoredDepositSource
  pub deposit_script_inputs : D
  pub reclaim_script_inputs : R

pub record MonitoredDepositConfig : Type 0 where
  pub signers_xonly : String
  pub recipient : Principal
  pub max_fee : ℕ
  pub lock_time : ℕ
  pub reclaim_script : Script

pub record Store (D R : Type 0) : Type 0 where
  pub last_next_address_id : ℕ
  pub monitored : List (Script × MonitoredDeposit D R)

pub record SharedStore (D R : Type 0) : Type 0 where
  pub poisoned : Bool
  pub store : Store D R
  pub open store use *

module _ {V : Type 0} where
  -- HashMap::get, and `entry(key).or_insert(value)`.
  unfoldable pub find : Script → List (Script × V) → Option V
  find k [] = none
  find k ((j, v) ∷ m) = if j == k then some v else find k m

  unfoldable pub or_insert : Script → V → List (Script × V) → List (Script × V)
  or_insert k v [] = (k, v) ∷ []
  or_insert k v ((j, w) ∷ m) = if j == k then (j, w) ∷ m else (j, w) ∷ or_insert k v m

unfoldable pub new_shared : {D R : Type 0} → SharedStore D R
new_shared = record {
  poisoned = false;
  store = record { last_next_address_id = 0; monitored = [] };
}

module _ {D R : Type 0} where
  -- `let store = self.lock().map_err(|_| Error::PoisonedMutex)?`
  abbrev pub lock : {A : Type 0} → Exec (Store D R) A → Exec (SharedStore D R) A
  lock body s =
      if s.poisoned
      then (err poisoned_mutex, s)
      else (let (r, store) = body s.store in (r, record s { store = store }))

  unfoldable pub get_by_script : Script → Exec (SharedStore D R) (Option (MonitoredDeposit D R))
  unfolding find
  get_by_script script = lock λ store. (ok (find script store.monitored), store)

  unfoldable pub get_scripts : Exec (SharedStore D R) (List Script)
  get_scripts = lock λ store. (ok (map (λ e. e.0) store.monitored), store)

  unfoldable pub get_last_next_address_id : Exec (SharedStore D R) ℕ
  get_last_next_address_id = lock λ store. (ok store.last_next_address_id, store)

  unfoldable pub set_last_next_address_id : ℕ → Exec (SharedStore D R) (Unit {0})
  set_last_next_address_id next_address_id =
      lock λ store. (ok tt, record store { last_next_address_id = next_address_id })

  module _ (lib : Sbtc D R) where
    unfoldable pub to_script_pubkey : MonitoredDeposit D R → Script
    to_script_pubkey d =
        lib.to_script_pubkey (lib.deposit_script d.deposit_script_inputs)
          (lib.reclaim_script d.reclaim_script_inputs)

    unfoldable pub add : MonitoredDeposit D R → Exec (SharedStore D R) (Unit {0})
    unfolding or_insert
    add d = lock λ store.
        (ok tt, record store { monitored = or_insert (to_script_pubkey d) d store.monitored })

    unfoldable pub as_principal_data : Principal → Result Principal
    as_principal_data p = map_err principal_data_serde_json (lib.principal_json p)

    -- TryFrom<(&String, &MonitoredDepositConfig)>
    unfoldable pub deposit_from_config :
        String → MonitoredDepositConfig → Result (MonitoredDeposit D R)
    unfolding as_principal_data
    deposit_from_config alias deposit = do
      recipient ← as_principal_data deposit.recipient
      reclaim ← map_err sbtc (lib.reclaim_try_new deposit.lock_time deposit.reclaim_script)
      ok (record {
        source = config alias;
        deposit_script_inputs = lib.deposit_inputs deposit.signers_xonly recipient deposit.max_fee;
        reclaim_script_inputs = reclaim;
      })
