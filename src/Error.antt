-- ===== src/Error.antt =====
-- The application's error type and results (src/error.rs). An error that a third-party crate
-- returns is kept as its message; of a Bitcoin RPC error the code is kept too, which is read.
use spox.Prelude.{ℕ, String, Option, List}
use spox.Prelude.Int.{ℤ}
use spox.Principal.{Principal}

-- bitcoincore_rpc::Error: an answer of the node with a code, or anything else.
pub data RpcError : Type 0 where
  rpc : ℤ → String → RpcError
  other : String → RpcError

pub data Error : Type 0 where
  bitcoin_core_rpc : RpcError → Error
  bitcoin_core_rpc_client : String → String → Error
  clarity_value_deserialization : String → Error
  clarity_value_serialization : String → Error
  clarity_bad_list : String → Error
  clarity_tuple : String → Error
  clarity_missing_tuple_entry : String → Error
  missing_address_scripts deposit_expired : Error
  invalid_public_key : String → Error
  invalid_stacks_response : String → Error
  invalid_url : String → Error
  invalid_stacks_auth_token : String → Error
  poisoned_mutex no_chain_tip no_signers_aggregate_key : Error
  missing_monitored_deposit : List ℕ → Error
  missing_stacks_config missing_reward_claims_config no_registry_configured : Error
  path_join : String → String → String → Error
  port_required : Error
  reqwest : String → Error
  sbtc : String → Error
  scan_already_in_progress scan_tx_out_failure : Error
  stacks_node_request : String → Error
  stacks_node_response : String → Error
  too_many_address_ids : ℕ → ℕ → Error
  unexpected_stacks_response : String → Error
  unexpected_principal : Principal → Error
  unexpected_local_timestamp mismatching_raw_address_ids : Error
  parse_hex_int : String → Error
  principal_data_serde_json : String → Error
  read_only_call_failed : Option String → Error

pub data Result {ℓ} (A : Type ℓ) : Type ℓ where
  ok : A → Result A
  err : Error → Result A
