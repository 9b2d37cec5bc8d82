-- ===== src/BitcoinNode/Endpoints.antt =====
-- Which address a client of Bitcoin Core is built for, and when it is refused.
use Prim.Native.String.{◌++◌ as ◌<>◌}
use spox.Prelude.{
  ℕ, String, Bool, true, Option, none, some, List, [], ◌∷◌, ◌⊎◌, inl, inr, ◌≡◌, refl, Option-cases,
}
use spox.Error.{Result, ok, err, invalid_url, port_required, bitcoin_core_rpc_client}
use spox.BitcoinNode.Connecting.{
  Url, Urls, BitcoinCoreClient, or_empty, new_client, wallet_path, build_endpoint, from_config,
}

module _ (urls : Urls) (path : Url → List String) where
  -- A URL without a user at a scheme, host and port, with the segments of its path.
  pub record IsAt (scheme host : String) (port : ℕ) (segments : List String) (url : Url)
      : Type 0 where
    pub same_scheme : urls.scheme url ≡ scheme
    pub same_host : urls.host_str url ≡ some host
    pub same_port : urls.port url ≡ some port
    pub no_user : urls.username url ≡ ""
    pub no_password : urls.password url ≡ none
    pub same_path : path url ≡ segments

  -- The url crate. `path` is the decoded segments of a path, and none for `/`. The scheme, the host and
  -- the port of a URL make the text of a URL, and segments are appended to its path as they are, if they
  -- are plain: neither `.` nor `..`, and without tabs and line breaks.
  pub record IsUrls (is_plain : String → Bool) : Type 0 where
    pub parses :
        (url : Url) (host : String) (port : ℕ)
        → urls.host_str url ≡ some host
        → urls.port url ≡ some port
        → (e : Url) × (urls.parse (urls.scheme url <> "://" <> host <> ":" <> urls.print_nat port)
            ≡ inr e)
          × IsAt (urls.scheme url) host port [] e
    pub extends :
        (scheme host : String) (port : ℕ) (e : Url) (name : String)
        → is_plain name ≡ true
        → IsAt scheme host port [] e
        → IsAt scheme host port ("wallet" ∷ name ∷ []) (urls.extend_path ("wallet" ∷ name ∷ []) e)

  -- The path of a wallet's calls, and a wallet whose name is plain.
  abbrev pub segments_of : Option String → List String
  segments_of none = []
  segments_of (some name) = "wallet" ∷ name ∷ []

  abbrev pub IsPlain : (String → Bool) → Option String → Type 0
  IsPlain is_plain none = Unit
  IsPlain is_plain (some name) = is_plain name ≡ true

  module _ (check : String → String ⊎ Unit {0}) (url : Url) (wallet : Option String)
      (timeout : ℕ) where
    -- The node's address with the wallet's path.
    abbrev pub IsEndpoint : String → ℕ → Url → Type 0
    IsEndpoint host port e = IsAt (urls.scheme url) host port (segments_of wallet) e

    -- The client's password is that of the URL, and empty without one.
    abbrev pub IsPassword : String → Type 0
    IsPassword p = (urls.password url ≡ some p) ⊎ ((urls.password url ≡ none) × (p ≡ ""))

    pub data Built : Result BitcoinCoreClient → Type 0 where
      no_host : urls.host_str url ≡ none → Built (err (invalid_url "empty host"))
      no_port :
          (host : String)
          → urls.host_str url ≡ some host
          → urls.port url ≡ none
          → Built (err port_required)
      refused :
          (host : String) (port : ℕ) (endpoint : Url) (error : String)
          → urls.host_str url ≡ some host
          → urls.port url ≡ some port
          → IsEndpoint host port endpoint
          → check endpoint ≡ inl error
          → Built (err (bitcoin_core_rpc_client error endpoint))
      connected :
          (host : String) (port : ℕ) (endpoint : Url) (password : String)
          → urls.host_str url ≡ some host
          → urls.port url ≡ some port
          → IsEndpoint host port endpoint
          → check endpoint ≡ inr tt
          → IsPassword password
          → Built (
              ok (record {
                url = endpoint;
                username = urls.username url;
                password = some password;
                timeout = timeout;
              }))

    or_empty-IsPassword : (o : Option String) → urls.password url ≡ o → IsPassword (or_empty o)
    or_empty-IsPassword none q = inr (q, refl)
    or_empty-IsPassword (some p) q = inl q

    module _ (is_plain : String → Bool) (laws : IsUrls is_plain) where
      wallet_path-IsAt :
          (o : Option String) (scheme host : String) (port : ℕ) (e : Url)
          → IsPlain is_plain o
          → IsAt scheme host port [] e
          → IsAt scheme host port (segments_of o) (wallet_path urls o e)
      wallet_path-IsAt none scheme host port e plain h = h
      wallet_path-IsAt (some name) scheme host port e plain h =
          laws.extends scheme host port e name plain h

      checked_lem :
          (host : String) (port : ℕ) (endpoint : Url) (answer : String ⊎ Unit {0})
          → urls.host_str url ≡ some host
          → urls.port url ≡ some port
          → IsEndpoint host port endpoint
          → check endpoint ≡ answer
          → Built
              (new_client check endpoint (urls.username url) (or_empty (urls.password url)) timeout)
      unfolding new_client
      checked_lem host port endpoint (inl e) h p at q = rw q (refused host port endpoint e h p at q)
      checked_lem host port endpoint (inr t) h p at q = rw q (
          connected host port endpoint (or_empty (urls.password url)) h p at q
            (or_empty-IsPassword (urls.password url) refl))

      -- If the url crate is as documented and the wallet's name is plain, then a client is refused for a
      -- URL without a host or without a port, or if the transport does not take the address, with the
      -- error of each; and else it is built for the address, which has the URL's scheme, host and port, no
      -- user, and as its path the wallet's if there is one, and it is given the URL's user and password
      -- and the timeout beside it.
      pub from_config-Built :
          IsPlain is_plain wallet → Built (from_config urls check url wallet timeout)
      unfolding from_config build_endpoint
      from_config-Built plain = elim (Option-cases (urls.host_str url)) [
        | inl absent ↦ rw absent (no_host absent)
        | inr (host, has_host) ↦ elim (Option-cases (urls.port url)) [
          | inl absent ↦ rw (has_host, absent) (no_port host has_host absent)
          | inr (port, has_port) ↦
              let (e, parsed, at) = laws.parses url host port has_host has_port in
              rw (has_host, has_port, parsed)
                (checked_lem host port (wallet_path urls wallet e)
                  (check (wallet_path urls wallet e)) has_host has_port
                  (wallet_path-IsAt wallet (urls.scheme url) host port e plain at) refl)
        ]
      ]
