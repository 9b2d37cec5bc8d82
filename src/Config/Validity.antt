-- ===== src/Config/Validity.antt =====
-- Which settings pass the validation.
use Prim.Native.Char.{code}
use spox.Prelude.{
  String, Bool, ◌&&◌, inl, refl, ◌⊎◌, ◌<◌, ◌≡◌, ◌↔◌, true, false, Option, none, some, inr, arith,
}
use spox.StacksClient.{StacksConfig}
use spox.Config.{
  Settings, BitcoinCoreWalletConfig, validate, is_some, is_blank, is_whitespace, has_blank_name,
  lacks,
}

-- A registry contract or a reward-claims stanza has a Stacks node to talk to.
abbrev pub HasNode : {A : Type 0} → Option A → Option StacksConfig → Type 0
HasNode o stacks = (is_some o ≡ false) ⊎ (is_some stacks ≡ true)

lacks_lem :
    {A : Type 0} (o : Option A) (stacks : Option StacksConfig)
    → (lacks o stacks ≡ false) ↔ HasNode o stacks
lacks_lem o none = ground arith
lacks_lem o (some stacks) = ground arith

-- Some character of a text is no white space, and so it is in the name of a wallet, if there is one.
abbrev pub HasInk : String → Type 0
HasInk String.[] = ⊥
HasInk (String.◌∷◌ c s) = (is_whitespace (code c) ≡ false) ⊎ HasInk s

abbrev pub IsNamed : Option BitcoinCoreWalletConfig → Type 0
IsNamed none = Unit
IsNamed (some wallet) = HasInk wallet.name

is_blank_iff : (s : String) → (is_blank s ≡ false) ↔ HasInk s
unfolding is_blank
is_blank_iff String.[] = (λ h. cc, λ h. absurd h)
is_blank_iff (String.◌∷◌ c s) = by_first (is_whitespace (code c)) (is_blank_iff s)
  where
    by_first :
        (b : Bool)
        → (is_blank s ≡ false) ↔ HasInk s
        → ((b && is_blank s) ≡ false) ↔ ((b ≡ false) ⊎ HasInk s)
    by_first true (there, back) =
        (λ h. inr (there h), λ h. elim h [ inl no_ink ↦ absurd (cc) | inr ink ↦ back ink ])
    by_first false later = (λ h. inl refl, λ h. refl)

has_blank_name_iff : (o : Option BitcoinCoreWalletConfig) → (has_blank_name o ≡ false) ↔ IsNamed o
has_blank_name_iff none = (λ h. tt, λ h. refl)
has_blank_name_iff (some wallet) = is_blank_iff wallet.name

-- Settings are valid exactly if both durations are positive, a registry contract and a reward-claims
-- stanza come with a Stacks node each, and a node wallet's name is not all white space.
pub validate_iff :
    (settings : Settings)
    → (validate settings ≡ inr tt) ↔ (
        (0 < settings.polling_interval)
        × (0 < settings.bitcoin_rpc_timeout)
        × HasNode settings.registry_contract settings.stacks
        × HasNode settings.reward_claims settings.stacks
        × IsNamed settings.node_wallet)
unfolding validate
validate_iff settings = ground (
  arith,
  lacks_lem settings.registry_contract settings.stacks,
  lacks_lem settings.reward_claims settings.stacks,
  has_blank_name_iff settings.node_wallet,
)
