-- ===== src/BitcoinWallet/Loading.antt =====
-- When the node's wallet is ready for use.
use spox.Prelude.{String, nat_beq, Bool-cases, ◌⊎◌, inl, inr, ◌↔◌, ◌≡◌, refl, arith}
use spox.Prelude.Int.{negsuc}
use spox.Error.{Result, ok, err, rpc, bitcoin_core_rpc}
use spox.Sbtc.{Sbtc}
use spox.BitcoinApi.{BitcoinApi}
use spox.BitcoinWallet.{after_load, load_or_create_wallet}

module _ {W D R : Type 0} (lib : Sbtc D R) (bitcoin : BitcoinApi W) (wallet : String) where
  -- The answer to `load_wallet` after which the wallet is ready: it was loaded, or had been before
  -- (-35), or it does not exist (-18) and is created.
  abbrev pub IsReady : Result (Unit {0}) → W → Type 0
  IsReady r w =
      (r ≡ ok tt)
      ⊎ (((message : String) × (r ≡ err (bitcoin_core_rpc (rpc (negsuc 34) message))))
          ⊎ ((message : String) × (r ≡ err (bitcoin_core_rpc (rpc (negsuc 17) message)))
              × ((bitcoin.create_wallet wallet w).0 ≡ ok tt)))

  after_load_lem :
      (r : Result (Unit {0})) (w : W)
      → ((after_load lib bitcoin wallet r w).0 ≡ ok tt) ↔ IsReady r w
  after_load_lem (ok loaded) w = (λ e. inl refl, λ h. refl)
  after_load_lem (err (bitcoin_core_rpc (rpc (negsuc n) message))) w =
      elim (Bool-cases (nat_beq n 34)) [
        | inl q ↦ (λ e. inr (inl (message, ground arith)), λ h. ground arith)
        | inr q ↦ elim (Bool-cases (nat_beq n 17)) [
          | inl p ↦ (λ e. inr (inr (message, ground arith, ground arith)), λ h. ground arith)
          | inr p ↦ (λ e. absurd (ground arith), λ h. ground arith)
        ]
      ]
  after_load_lem (err e) w = ground arith

  -- `load_or_create_wallet` succeeds exactly if the wallet is loaded, or the node answers that it was
  -- loaded before (-35), or the node answers that there is none (-18) and creates it.
  pub load_or_create_wallet_iff :
      (w : W)
      → ((load_or_create_wallet lib bitcoin wallet w).0 ≡ ok tt)
        ↔ IsReady (bitcoin.load_wallet wallet w).0 (bitcoin.load_wallet wallet w).1
  unfolding load_or_create_wallet
  load_or_create_wallet_iff w =
      after_load_lem (bitcoin.load_wallet wallet w).0 (bitcoin.load_wallet wallet w).1
