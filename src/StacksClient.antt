-- ===== src/StacksClient.antt =====
-- `StacksClient` over HTTP (src/stacks/node.rs): its construction, and its methods.
pub mod Hex
pub mod Types
pub mod Requests
use Prim.Native.String.{◌++◌ as ◌<>◌}
use spox.Prelude.{
  ℕ, String, Bool, Option, none, some, List, [], ◌∷◌, ◌⊎◌, inl, inr, ◌==◌, string_eq, nat_eq,
  list_eq, if◌then◌else◌, length,
}
use spox.Error.{
  Error, Result, ok, err, clarity_value_deserialization, clarity_value_serialization,
  invalid_public_key, invalid_stacks_auth_token, invalid_stacks_response, missing_stacks_config,
  path_join, read_only_call_failed, reqwest, stacks_node_request, stacks_node_response,
  unexpected_stacks_response,
}
use spox.Result
use spox.Result.{map_err}
use spox.Exec.{Exec, pure, raise, lift, ◌>>=◌}
use spox.Clarity.{Value, buffer}
use spox.StacksApi.{AccountInfo, NodeInfo, SubmitTxResponse, StacksTransaction, StacksApi}
pub use Types.*

module _ {W : Type 0} (http : Http W) where
  -- The headers of each request: an empty token makes none.
  abbrev pub auth_headers : String → Result (List (String × String))
  auth_headers auth_token =
      if auth_token == ""
      then ok []
      else Result.◌>>=◌ (map_err invalid_stacks_auth_token (http.header_value auth_token))
          λ val. ok (("authorization", val) ∷ [])

  -- StacksClient::new
  unfoldable pub client_new : String → String → Result StacksClient
  client_new url auth_token = Result.◌>>=◌ (auth_headers auth_token) λ headers.
      Result.◌>>=◌ (map_err reqwest (http.build headers))
        λ _. ok (record { endpoint = url; default_headers = headers })

  -- TryFrom<&Settings>, at the `stacks` field of the settings.
  unfoldable pub client_try_from : Option StacksConfig → Result StacksClient
  unfolding client_new
  client_try_from none = err missing_stacks_config
  client_try_from (some stacks) = client_new stacks.rpc_endpoint stacks.auth_token

  module _ (client : StacksClient) where
    -- `self.endpoint.join(&path).map_err(PathJoin)`
    abbrev pub url_of : String → Result String
    url_of path = map_err (λ e. path_join e client.endpoint path) (http.join client.endpoint path)

    abbrev pub send : Request → Exec W Response
    send request w =
        let (answer, w') = http.send request w in (map_err stacks_node_request answer, w')

    abbrev pub get_request : String → Request
    get_request url = record {
      method = "GET";
      url = url;
      headers = client.default_headers;
      body = none;
    }

    -- A GET whose answer must have a success status, with its body read by `json`.
    abbrev pub get_json : {A : Type 0} → String → (String → String ⊎ A) → Exec W A
    get_json path json = do
      url ← lift (url_of path)
      response ← send (get_request url)
      success ← lift (map_err stacks_node_response (http.error_for_status response))
      lift (map_err unexpected_stacks_response (json success.body))

    -- The value is decoded while the JSON is, with the same error.
    abbrev pub data_var_response : String → String ⊎ Value
    data_var_response body = elim (http.json_data_var body) [
      | inl e ↦ inl e
      | inr hex ↦ http.deserialize_hex hex
    ]

    unfoldable pub get_data_var : String → String → String → Exec W Value
    get_data_var principal name var =
        get_json ("/v2/data_var/" <> principal <> "/" <> name <> "/" <> var <> "?proof=0")
          data_var_response

    -- `unwrap_or_else(|| "latest")`
    abbrev pub tip_text : Option String → String
    tip_text none = "latest"
    tip_text (some tip) = tip

    abbrev pub read_path : String → String → String → Option String → String
    read_path principal name fn_name tip =
        "/v3/contracts/fast-call-read/"
        <> principal
        <> "/"
        <> name
        <> "/"
        <> fn_name
        <> "?tip="
        <> tip_text tip

    abbrev pub read_request : String → String → List String → Request
    read_request url sender hexes = record {
      method = "POST";
      url = url;
      headers = client.default_headers;
      body = some (http.json_call_read_request (record { sender = sender; arguments = hexes }));
    }

    abbrev pub serialize_all : List Value → Result (List String)
    serialize_all arguments =
        Result.collect (λ v. map_err clarity_value_serialization (http.serialize_to_hex v))
          arguments

    abbrev pub read_answer : Response → Result Value
    read_answer response =
        Result.◌>>=◌ (map_err stacks_node_response (http.error_for_status response)) λ success.
          Result.◌>>=◌ (map_err unexpected_stacks_response (http.json_call_read success.body))
            λ body. into_value http.deserialize_hex body

    unfoldable pub call_read :
        String → String → String → String → List Value → Option String → Exec W Value
    unfolding into_value
    call_read principal name fn_name sender arguments tip = do
      url ← lift (url_of (read_path principal name fn_name tip))
      hexes ← lift (serialize_all arguments)
      response ← send (read_request url sender hexes)
      lift (read_answer response)

    unfoldable pub get_account : String → Exec W AccountInfo
    unfolding account_info_try_from
    get_account address = do
      entry ← get_json ("/v2/accounts/" <> address <> "?proof=0") http.json_account
      lift (account_info_try_from entry)

    unfoldable pub get_node_info : Exec W NodeInfo
    get_node_info = get_json "/v2/info" http.json_node_info

    abbrev pub submit_request : String → List ℕ → Request
    submit_request url body = record {
      method = "POST";
      url = url;
      headers =
          ("content-type", "application/octet-stream")
          ∷ ("content-length", http.print_nat (length body))
          ∷ client.default_headers;
      body = some body;
    }

    -- The status of the answer is not looked at.
    unfoldable pub submit_tx : StacksTransaction → Exec W SubmitTxResponse
    submit_tx tx = do
      url ← lift (url_of "/v2/transactions")
      response ← send (submit_request url (http.serialize_tx tx))
      lift (map_err unexpected_stacks_response (http.json_submit_tx response.body))

    unfoldable pub get_current_signers_aggregate_key : String → Exec W (Option String)
    unfolding extract_aggregate_key get_data_var
    get_current_signers_aggregate_key sbtc_deployer = do
      value ← get_data_var sbtc_deployer "sbtc-registry" "current-aggregate-pubkey"
      lift (extract_aggregate_key http.public_key value)

    -- The interface that the registries and the claims process use.
    unfoldable pub stacks_api : StacksApi W
    unfolding get_node_info get_account call_read submit_tx
    stacks_api = record {
      block_id = http.block_id;
      get_node_info = get_node_info;
      get_account = get_account;
      call_read = call_read;
      submit_tx = submit_tx;
    }
