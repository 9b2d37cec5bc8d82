-- ===== src/Config/Deserializers.antt =====
-- The deserializers of the settings' fields (src/config/serialization.rs): each reads a text and has
-- it parsed. The parsers are those of third-party crates, and a failure is its message.
use spox.Prelude.{ℕ, String, Option, none, some, ◌⊎◌, inl, inr, ◌==◌, string_eq, if◌then◌else◌}
use spox.Principal.{Principal, ContractId}
use spox.Sbtc.{Script}

infixl 5 ◌>>=◌
abbrev pub ◌>>=◌ {ℓ κ} : {A : Type ℓ} {B : Type κ} → String ⊎ A → (A → String ⊎ B) → String ⊎ B
inl message >>= next = inl message
inr a >>= next = next a

pub record Parsers : Type 0 where
  pub url : String → String ⊎ String
  pub standard_principal : String → String ⊎ String
  pub principal : String → String ⊎ Principal
  pub qualified_contract : String → String ⊎ ContractId
  pub x_only_public_key : String → String ⊎ String
  pub script_from_hex : String → String ⊎ Script
  pub secret_key : String → String ⊎ String

-- `des` is what the value is, read as a text or as a 64-bit number.
module _ (parsers : Parsers) where
  unfoldable pub url_deserializer : String ⊎ String → String ⊎ String
  url_deserializer des = do literal ← des; parsers.url literal

  unfoldable pub stacks_address_deserializer : String ⊎ String → String ⊎ String
  stacks_address_deserializer des = do literal ← des; parsers.standard_principal literal

  unfoldable pub principal_deserializer : String ⊎ String → String ⊎ Principal
  principal_deserializer des = do literal ← des; parsers.principal literal

  unfoldable pub contract_deserializer : String ⊎ String → String ⊎ ContractId
  contract_deserializer des = do literal ← des; parsers.qualified_contract literal

  -- `filter(|principal| !principal.is_empty())`
  abbrev pub nonempty : Option String → Option String
  nonempty none = none
  nonempty (some principal) = if principal == "" then none else some principal

  abbrev parse_some : Option String → String ⊎ Option ContractId
  parse_some none = inr none
  parse_some (some principal) = do
    contract ← parsers.qualified_contract principal
    inr (some contract)

  unfoldable pub contract_deserializer_option : String ⊎ Option String → String ⊎ Option ContractId
  contract_deserializer_option des = do literal ← des; parse_some (nonempty literal)

  unfoldable pub xonly_deserializer : String ⊎ String → String ⊎ String
  xonly_deserializer des = do literal ← des; parsers.x_only_public_key literal

  unfoldable pub script_deserializer : String ⊎ String → String ⊎ Script
  script_deserializer des = do literal ← des; parsers.script_from_hex literal

-- Duration::from_secs
unfoldable pub duration_seconds_deserializer : String ⊎ ℕ → String ⊎ ℕ
duration_seconds_deserializer des = do seconds ← des; inr seconds
