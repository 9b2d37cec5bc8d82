-- ===== src/Context/Building.antt =====
-- What settings that were validated cannot lead to when the context is built from them.
use spox.Prelude.{
  String, [], arith, Option, none, some, ◌⊎◌, inl, inr, ◌≡◌, ◌≢◌, ◌==◌, string_eq, Bool-cases,
}
use spox.Error.{
  Error, Result, ok, err, missing_stacks_config, invalid_url, port_required,
  bitcoin_core_rpc_client, invalid_stacks_auth_token, reqwest,
}
use spox.Result
use spox.Result.{map_err, ◌>>=◌}
use spox.Principal.{ContractId}
use spox.StacksClient.{Http, StacksConfig, auth_headers, client_new, client_try_from}
use spox.BitcoinNode.Connecting.{Urls, from_config, build_endpoint, new_client}
use spox.Config.{Settings}
use spox.Config.Validity.{HasNode}
use spox.Config.Deserializers.{Parsers}
use spox.Config.Reading.{Values, ConfigCrate, settings_new}
use spox.Config.Valid.{settings_new_iff}
use spox.Context.{context_try_from, registry_of, wallet_name}

-- A result that is not the error that a Stacks node is missing.
abbrev HasStacks {ℓ} : {A : Type ℓ} → Result A → Type ℓ
HasStacks r = r ≢ err missing_stacks_config

module _ {A : Type 0} where
  bind-HasStacks :
      {B : Type 0} (r : Result A) (f : A → Result B)
      → HasStacks r
      → ((a : A) → HasStacks (f a))
      → HasStacks (r >>= f)
  bind-HasStacks (ok a) f first next = next a
  bind-HasStacks (err e) f first next = λ h. first (cc (h))

  ok-HasStacks : (a : A) → HasStacks (ok a)
  ok-HasStacks a = λ h. cc

  map_err-HasStacks :
      (e : String → Error) (p : String ⊎ A)
      → ((m : String) → e m ≢ missing_stacks_config)
      → HasStacks (map_err e p)
  map_err-HasStacks e (inl m) other = λ h. other m (cc (h))
  map_err-HasStacks e (inr a) other = ok-HasStacks a

  ok_or-HasStacks :
      (e : Error) (o : Option A) → e ≢ missing_stacks_config → HasStacks (Result.ok_or e o)
  ok_or-HasStacks e none other = λ h. other (cc (h))
  ok_or-HasStacks e (some a) other = ok-HasStacks a

module _ (urls : Urls) (check : String → String ⊎ Unit {0}) where
  from_config-HasStacks :
      (url : String) (name : Option String) (timeout : _)
      → HasStacks (from_config urls check url name timeout)
  unfolding from_config build_endpoint new_client
  from_config-HasStacks url name timeout =
      bind-HasStacks (build_endpoint urls url name) _
        (bind-HasStacks (Result.ok_or (invalid_url "empty host") (urls.host_str url)) _
          (ok_or-HasStacks _ _ (λ h. cc))
          λ host.
            bind-HasStacks (Result.ok_or port_required (urls.port url)) _
              (ok_or-HasStacks _ _ (λ h. cc))
              λ port.
                bind-HasStacks (map_err invalid_url (urls.parse _)) _
                  (map_err-HasStacks _ _ (λ m h. cc)) λ endpoint. ok-HasStacks _)
        λ endpoint.
          bind-HasStacks
            (map_err (λ error. bitcoin_core_rpc_client error endpoint) (check endpoint)) _
            (map_err-HasStacks _ _ (λ m h. cc)) λ checked. ok-HasStacks _

module _ {W : Type 0} (http : Http W) where
  headers-HasStacks : (token : String) → HasStacks (auth_headers http token)
  headers-HasStacks token = elim (Bool-cases (token == "")) [
    | inl empty ↦ rw empty (ok-HasStacks [])
    | inr full ↦ rw full (
        bind-HasStacks (map_err invalid_stacks_auth_token (http.header_value token)) _
          (map_err-HasStacks _ _ (λ m h. cc)) λ val. ok-HasStacks _)
  ]

  client_new-HasStacks : (url token : String) → HasStacks (client_new http url token)
  unfolding client_new
  client_new-HasStacks url token =
      bind-HasStacks (auth_headers http token) _ (headers-HasStacks token) λ headers.
        bind-HasStacks (map_err reqwest (http.build headers)) _ (map_err-HasStacks _ _ (λ m h. cc))
          λ built. ok-HasStacks _

  -- A registry contract comes with a node.
  registry-HasStacks :
      (contract : Option ContractId) (stacks : Option StacksConfig)
      → HasNode contract stacks
      → HasStacks (Result.transpose_map (registry_of http stacks) contract)
  unfolding client_try_from
  registry-HasStacks none stacks h = ok-HasStacks none
  registry-HasStacks (some c) none h = ground (arith, h)
  registry-HasStacks (some c) (some stacks) h =
      bind-HasStacks (client_try_from http (some stacks) >>= _) _
        (bind-HasStacks _ _ (client_new-HasStacks stacks.rpc_endpoint stacks.auth_token)
          λ client. ok-HasStacks _)
        λ pair. ok-HasStacks _

module _ {W D R V B : Type 0} (urls : Urls) (check : String → String ⊎ Unit {0}) (http : Http W)
    (values : Values V) (parsers : Parsers) (crate : ConfigCrate B V) where
  -- From settings that were read and validated, the context is built or another error is returned:
  -- never the error that the settings of the Stacks node are missing.
  pub context_try_from_sound :
      (path : Option String) (s : Settings)
      → settings_new values parsers crate path ≡ inr s
      → context_try_from {D = D} {R = R} urls check http s ≢ err missing_stacks_config
  unfolding context_try_from
  context_try_from_sound path s h =
      let valid = ((settings_new_iff values parsers crate path s).0 h).1 in
      bind-HasStacks
        (from_config urls check s.bitcoin_rpc_endpoint (wallet_name s.node_wallet)
          s.bitcoin_rpc_timeout)
        _ (from_config-HasStacks urls check _ _ _)
        λ client.
          bind-HasStacks _ _ (registry-HasStacks http s.registry_contract s.stacks valid.2)
            λ registry. ok-HasStacks _
