-- ===== src/StacksClient/Types.antt =====
-- The requests and answers of the Stacks node (src/stacks/node.rs), and the third-party code that
-- they pass through: url, reqwest, serde_json and the Clarity codecs, each with its failures as
-- messages.
use spox.Prelude.{
  ℕ, String, Option, none, some, List, [], ◌∷◌, ◌⊎◌, ◌==◌, string_eq, nat_eq, list_eq,
  if◌then◌else◌,
}
use spox.Error.{
  Result, ok, err, clarity_value_deserialization, invalid_public_key, invalid_stacks_response,
  read_only_call_failed,
}
use spox.Result
use spox.Result.{map_err}
use spox.Clarity.{Value, buffer}
use spox.StacksApi.{AccountInfo, NodeInfo, SubmitTxResponse, StacksTransaction}
use spox.StacksClient.Hex.{codes, parse_hex_u128}

pub record Request : Type 0 where
  pub method : String
  pub url : String
  pub headers : List (String × String)
  pub body : Option (List ℕ)

pub record Response : Type 0 where
  pub status : ℕ
  pub body : String

pub record CallReadRequest : Type 0 where
  pub sender : String
  pub arguments : List String

pub record CallReadResponse : Type 0 where
  pub result : Option String
  pub cause : Option String

pub record AccountEntryResponse : Type 0 where
  pub balance : String
  pub locked : String
  pub unlock_height : ℕ
  pub nonce : ℕ

-- The third-party code: a left result is an error's message.
pub record Http (W : Type 0) : Type 0 where
  pub join : String → String → String ⊎ String
  pub header_value : String → String ⊎ String
  pub build : List (String × String) → String ⊎ Unit {0}
  pub send : Request → W → (String ⊎ Response) × W
  pub error_for_status : Response → String ⊎ Response
  pub json_call_read_request : CallReadRequest → List ℕ
  pub json_data_var : String → String ⊎ String
  pub json_call_read : String → String ⊎ CallReadResponse
  pub json_account : String → String ⊎ AccountEntryResponse
  pub json_node_info : String → String ⊎ NodeInfo
  pub json_submit_tx : String → String ⊎ SubmitTxResponse
  pub serialize_to_hex : Value → String ⊎ String
  pub deserialize_hex : String → String ⊎ Value
  pub serialize_tx : StacksTransaction → List ℕ
  pub print_nat : ℕ → String
  pub public_key : List ℕ → String ⊎ String
  pub block_id : String → String → String

pub record StacksClient : Type 0 where
  pub endpoint : String
  pub default_headers : List (String × String)

pub record StacksConfig : Type 0 where
  pub rpc_endpoint : String
  pub auth_token : String
  pub sbtc_deployer : String

-- CallReadResponse::into_value
unfoldable pub into_value : (String → String ⊎ Value) → CallReadResponse → Result Value
into_value deserialize r = elim (r.result) [
  | none ↦ err (read_only_call_failed r.cause)
  | some hex ↦ map_err clarity_value_deserialization (deserialize hex)
]

unfoldable pub account_info_try_from : AccountEntryResponse → Result AccountInfo
account_info_try_from value = Result.◌>>=◌ (parse_hex_u128 (codes value.balance)) λ balance.
    Result.◌>>=◌ (parse_hex_u128 (codes value.locked)) λ locked. ok (record {
      balance = balance;
      locked = locked;
      unlock_height = value.unlock_height;
      nonce = value.nonce;
    })

abbrev key_of_buffer : (List ℕ → String ⊎ String) → List ℕ → Result (Option String)
key_of_buffer public_key bytes =
    if bytes == 0 ∷ []
    then ok none
    else Result.◌>>=◌ (map_err invalid_public_key (public_key bytes)) (λ key. ok (some key))

-- extract_aggregate_key; `public_key` parses a key to its x-only form.
unfoldable pub extract_aggregate_key : (List ℕ → String ⊎ String) → Value → Result (Option String)
extract_aggregate_key public_key (buffer bytes) = key_of_buffer public_key bytes
extract_aggregate_key public_key _ =
    err (invalid_stacks_response "expected a buffer but got something else")
