-- ===== src/BitcoinWallet/Importing.antt =====
-- What is imported into the node's wallet.
use spox.Prelude.{
  ℕ, ◌∷◌, [], List, String, Bool, true, false, contains, ◌≡◌, refl, string_eq, if◌then◌else◌,
}
use spox.Error.{Error, Result, ok, err}
use spox.Sbtc.{Script, Sbtc}
use spox.BitcoinApi.{BitcoinApi, ImportDescriptor}
use spox.BitcoinWallet.{raw_descriptor, missing_descriptors, import_of, cons_ok, cons_import}

module _ {W D R : Type 0} (lib : Sbtc D R) (bitcoin : BitcoinApi W) where
  -- The imports are those of a part of the scripts, in order: none for a script that the wallet holds,
  -- and for another one at most the node's description of its raw descriptor.
  pub data Imports (held : List String) (timestamp : ℕ)
      : List Script → List ImportDescriptor → Type 0 where
    done : Imports held timestamp [] []
    is_held :
        {script : Script} {scripts : List Script} {imports : List ImportDescriptor}
        → contains held (raw_descriptor lib bitcoin script) ≡ true
        → Imports held timestamp scripts imports
        → Imports held timestamp (script ∷ scripts) imports
    is_unknown :
        {script : Script} {scripts : List Script} {imports : List ImportDescriptor} (e : Error)
        (w : W)
        → contains held (raw_descriptor lib bitcoin script) ≡ false
        → (bitcoin.get_descriptor_info (raw_descriptor lib bitcoin script) w).0 ≡ err e
        → Imports held timestamp scripts imports
        → Imports held timestamp (script ∷ scripts) imports
    imported :
        {script : Script} {scripts : List Script} {imports : List ImportDescriptor}
        (descriptor : String) (w : W)
        → contains held (raw_descriptor lib bitcoin script) ≡ false
        → (bitcoin.get_descriptor_info (raw_descriptor lib bitcoin script) w).0 ≡ ok descriptor
        → Imports held timestamp scripts imports
        → Imports held timestamp
            (script ∷ scripts)
            (import_of lib bitcoin timestamp descriptor ∷ imports)

  described_lem :
      (held : List String) (timestamp : ℕ) (script : Script) (scripts : List Script) (w : W)
      (imports : List ImportDescriptor) (r : Result String)
      → contains held (raw_descriptor lib bitcoin script) ≡ false
      → (bitcoin.get_descriptor_info (raw_descriptor lib bitcoin script) w).0 ≡ r
      → Imports held timestamp scripts imports
      → Imports held timestamp (script ∷ scripts) (cons_ok lib bitcoin timestamp r imports)
  described_lem held timestamp script scripts w imports (ok descriptor) q e h =
      imported descriptor w q e h
  described_lem held timestamp script scripts w imports (err e') q e h = is_unknown e' w q e h

  decided_lem :
      (held : List String) (timestamp : ℕ) (script : Script) (scripts : List Script) (w : W)
      (kept rest : List ImportDescriptor × W) (b : Bool)
      → contains held (raw_descriptor lib bitcoin script) ≡ b
      → Imports held timestamp scripts kept.0
      → Imports held timestamp scripts rest.0
      → let info = (bitcoin.get_descriptor_info (raw_descriptor lib bitcoin script) w).0 in
        Imports held timestamp
          (script ∷ scripts)
          (if b then kept else cons_import lib bitcoin timestamp info rest).0
  decided_lem held timestamp script scripts w kept rest true q h k = is_held q h
  decided_lem held timestamp script scripts w kept rest false q h k =
      described_lem held timestamp script scripts w rest.0 _ q refl k

  -- A script is imported, with the rescan's time, unless the wallet has its raw descriptor or the
  -- node does not describe it.
  pub missing_descriptors-Imports :
      (held : List String) (timestamp : ℕ) (scripts : List Script) (w : W)
      → Imports held timestamp scripts (missing_descriptors lib bitcoin held timestamp scripts w).0
  unfolding missing_descriptors
  missing_descriptors-Imports held timestamp [] w = done
  missing_descriptors-Imports held timestamp (script ∷ scripts) w =
      let asked = bitcoin.get_descriptor_info (raw_descriptor lib bitcoin script) w in
      decided_lem held timestamp script scripts w _
        (missing_descriptors lib bitcoin held timestamp scripts asked.1) _ refl
        (missing_descriptors-Imports held timestamp scripts w)
        (missing_descriptors-Imports held timestamp scripts asked.1)
