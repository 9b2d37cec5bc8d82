-- ===== src/BitcoinNode/Connecting.antt =====
-- Building the client of Bitcoin Core from the settings (src/bitcoin/node.rs). A URL is kept in
-- its printed form and `Urls` is the url crate; the checks that the transport's builder makes are a parameter too.
use Prim.Native.String.{◌++◌ as ◌<>◌}
use spox.Prelude.{ℕ, String, Option, none, some, List, [], ◌∷◌, ◌⊎◌}
use spox.Error.{Result, ok, invalid_url, port_required, bitcoin_core_rpc_client}
use spox.Result
use spox.Result.{map_err, ◌>>=◌}

abbrev pub Url : Type 0
Url = String

-- `extend_path` is `path_segments_mut` with `extend`: it appends segments, percent-encoded, to a URL
-- that has a host.
pub record Urls : Type 0 where
  pub parse : String → String ⊎ Url
  pub scheme : Url → String
  pub username : Url → String
  pub password : Url → Option String
  pub host_str : Url → Option String
  pub port : Url → Option ℕ
  pub extend_path : List String → Url → Url
  pub print_nat : ℕ → String

-- What `simple_http::Builder` is given.
pub record BitcoinCoreClient : Type 0 where
  pub url : String
  pub username : String
  pub password : Option String
  pub timeout : ℕ

-- Option::unwrap_or_default
abbrev pub or_empty : Option String → String
or_empty none = ""
or_empty (some s) = s

-- BitcoinCoreClient::new
unfoldable pub new_client :
    (String → String ⊎ Unit {0}) → String → String → String → ℕ → Result BitcoinCoreClient
new_client check url username password timeout = do
  checked ← map_err (λ error. bitcoin_core_rpc_client error url) (check url)
  ok (record { url = url; username = username; password = some password; timeout = timeout })

module _ (urls : Urls) where
  abbrev pub wallet_path : Option String → Url → Url
  wallet_path none endpoint = endpoint
  wallet_path (some name) endpoint = urls.extend_path ("wallet" ∷ name ∷ []) endpoint

  unfoldable pub build_endpoint : Url → Option String → Result Url
  build_endpoint url wallet = do
    host ← Result.ok_or (invalid_url "empty host") (urls.host_str url)
    port ← Result.ok_or port_required (urls.port url)
    endpoint ←
        map_err invalid_url
          (urls.parse (urls.scheme url <> "://" <> host <> ":" <> urls.print_nat port))
    ok (wallet_path wallet endpoint)

  unfoldable pub from_config :
      (String → String ⊎ Unit {0}) → Url → Option String → ℕ → Result BitcoinCoreClient
  unfolding build_endpoint new_client
  from_config check url wallet timeout = do
    endpoint ← build_endpoint url wallet
    new_client check endpoint (urls.username url) (or_empty (urls.password url)) timeout
