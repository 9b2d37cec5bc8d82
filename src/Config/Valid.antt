-- ===== src/Config/Valid.antt =====
-- Which settings `Settings::new` returns.
use spox.Prelude.{◌<◌, ◌≡◌, ◌↔◌, Option, String, ◌⊎◌, inl, inr, refl, sym, ap, subst}
use spox.Config.{SpoxConfigError, Settings, validate}
use spox.Config.Validity.{HasNode, IsNamed, validate_iff}
use spox.Config.Deserializers.{Parsers}
use spox.Config.Reading.{Values, ConfigCrate, read_built, then_return, validated, settings_new}

abbrev pub IsValid : Settings → Type 0
IsValid s =
    (0 < s.polling_interval)
    × (0 < s.bitcoin_rpc_timeout)
    × HasNode s.registry_contract s.stacks
    × HasNode s.reward_claims s.stacks
    × IsNamed s.node_wallet

module _ {V B : Type 0} (values : Values V) (parsers : Parsers) (crate : ConfigCrate B V) where
  then_return_iff :
      (t s : Settings) (r : SpoxConfigError ⊎ Unit {0})
      → (then_return values parsers crate t r ≡ inr s) ↔ ((t ≡ s) × (r ≡ inr tt))
  then_return_iff t s (inl e) = (λ h. cc, λ (same, valid). cc)
  then_return_iff t s (inr valid) = (λ h. (cc, refl), λ (same, done). ap inr same)

  validated_iff :
      (read : String ⊎ Settings) (s : Settings)
      → (validated values parsers crate read ≡ inr s) ↔ ((read ≡ inr s) × IsValid s)
  validated_iff (inl e) s = (λ h. cc, λ (h, valid). cc)
  validated_iff (inr t) s =
      let (opens, closes) = then_return_iff t s (validate t) in
      (
        λ h.
            let (same, passed) = opens h in
            (ap inr same, subst IsValid same ((validate_iff t).0 passed)),
        λ (h, valid).
            let same : t ≡ s = cc (h) in
            closes (same, (validate_iff t).1 (subst IsValid (sym same) valid)),
      )

  -- Settings are returned exactly if they are what the file and the environment are read as and both
  -- durations are positive, a registry contract and a reward-claims stanza come with a Stacks node
  -- each, and a node wallet's name is not all white space.
  pub settings_new_iff :
      (path : Option String) (s : Settings)
      → (settings_new values parsers crate path ≡ inr s)
        ↔ ((read_built values parsers crate path ≡ inr s) × IsValid s)
  unfolding settings_new
  settings_new_iff path s = validated_iff (read_built values parsers crate path) s
