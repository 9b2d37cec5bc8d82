-- ===== src/Sbtc.antt =====
-- The parts of the `sbtc` and `bitcoin` crates that the program calls, over the crate's own types of
-- deposit and reclaim inputs. A left result is an error's message. A script is its bytes.
use spox.Prelude.{ℕ, String, List, ◌⊎◌}
use spox.Principal.{Principal}

abbrev pub Script : Type 0
Script = List ℕ

pub record Sbtc (D R : Type 0) : Type 0 where
  pub deposit_inputs : String → Principal → ℕ → D
  pub deposit_script : D → Script
  pub parse_deposit : Script → String ⊎ D
  pub reclaim_try_new : ℕ → Script → String ⊎ R
  pub reclaim_script : R → Script
  pub lock_time : R → ℕ
  pub parse_reclaim : Script → String ⊎ R
  pub to_script_pubkey : Script → Script → Script
  pub principal_json : Principal → String ⊎ Principal
  pub to_hex_string : Script → String
  pub print_txid : String → String
  pub parse_txid : String → String ⊎ String
