-- ===== src/BitcoinWallet.antt =====
-- The operations of the node's wallet (src/bitcoin/wallet.rs).
pub mod Importing
pub mod Loading
use Prim.Native.Char.{code}
use spox.Prelude.{
  ℕ, String, Bool, true, false, Option, none, some, List, [], ◌∷◌, map, nat_beq, string_eq,
  contains, if◌then◌else◌,
}
use spox.Prelude.Int.{negsuc}
use spox.Error.{Error, Result, ok, err, RpcError, rpc, other, bitcoin_core_rpc}
use spox.Exec.{Exec, pure, raise, attempt, ◌>>=◌}
use spox.Sbtc.{Script, Sbtc}
use spox.BitcoinApi.{BitcoinApi, ImportDescriptor}

-- rsplit_once('#'), as far as the text before the last `#`.
unfoldable pub before_last_hash : String → Option String
before_last_hash String.[] = none
before_last_hash (String.◌∷◌ c s) = elim (before_last_hash s) [
  | some before ↦ some (String.◌∷◌ c before)
  | none ↦ if nat_beq (code c) b'#' then some String.[] else none
]

unfoldable pub strip_checksum : String → String
unfolding before_last_hash
strip_checksum descriptor = elim (before_last_hash descriptor) [
  | some before ↦ before
  | none ↦ descriptor
]

abbrev pub join : String → String → String
join String.[] t = t
join (String.◌∷◌ c s) t = String.◌∷◌ c (join s t)

module _ {W D R : Type 0} (lib : Sbtc D R) (bitcoin : BitcoinApi W) where
  abbrev pub raw_descriptor : Script → String
  raw_descriptor script = join "raw(" (join (lib.to_hex_string script) ")")

  -- What the answer of `load_wallet` leads to: -35 is a wallet that is loaded, and -18 one that does
  -- not exist; `negsuc n` is -(n + 1).
  abbrev pub after_load : String → Result (Unit {0}) → Exec W (Unit {0})
  after_load wallet (ok loaded) = pure tt
  after_load wallet (err (bitcoin_core_rpc (rpc (negsuc n) message))) =
      if nat_beq n 34
      then pure tt
      else if nat_beq n 17
      then bitcoin.create_wallet wallet
      else raise (bitcoin_core_rpc (rpc (negsuc n) message))
  after_load wallet (err e) = raise e

  unfoldable pub load_or_create_wallet : String → Exec W (Unit {0})
  load_or_create_wallet wallet = do
    loaded ← attempt (bitcoin.load_wallet wallet)
    after_load wallet loaded

  abbrev import_of : ℕ → String → ImportDescriptor
  import_of timestamp descriptor = record {
    descriptor = descriptor;
    timestamp = timestamp;
    internal = some false;
  }

  abbrev cons_ok : ℕ → Result String → List ImportDescriptor → List ImportDescriptor
  cons_ok timestamp (ok descriptor) imports = import_of timestamp descriptor ∷ imports
  cons_ok timestamp (err e) imports = imports

  abbrev cons_import : ℕ → Result String → List ImportDescriptor × W → List ImportDescriptor × W
  cons_import timestamp info (imports, w) = (cons_ok timestamp info imports, w)

  -- The loop over the scripts: a script that the wallet has, or whose descriptor the node cannot
  -- describe, is passed over.
  unfoldable pub missing_descriptors : List String → ℕ → List Script → W → List ImportDescriptor × W
  missing_descriptors held timestamp [] w = ([], w)
  missing_descriptors held timestamp (script ∷ scripts) w =
      let (info, w') = bitcoin.get_descriptor_info (raw_descriptor script) w in
      let with_info = cons_import timestamp info (missing_descriptors held timestamp scripts w') in
      let without_info = missing_descriptors held timestamp scripts w in
      if contains held (raw_descriptor script) then without_info else with_info

  abbrev import_all : List ImportDescriptor → Exec W (Unit {0})
  import_all [] = pure tt
  import_all (d ∷ ds) = do results ← bitcoin.import_descriptors (d ∷ ds); pure tt

  unfoldable pub import_descriptors : List Script → ℕ → Exec W (Unit {0})
  unfolding missing_descriptors strip_checksum
  import_descriptors scripts timestamp = do
    entries ← bitcoin.list_descriptors
    λ w.
        let (imports, w') = missing_descriptors (map strip_checksum entries) timestamp scripts w in
        import_all imports w'
