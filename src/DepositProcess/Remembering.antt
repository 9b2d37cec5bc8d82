-- ===== src/DepositProcess/Remembering.antt =====
-- A deposit that Emily has taken in one block is not sent to her in a later one.
use spox.Prelude.{
  ℕ, ◌+◌, ◌≤◌, String, true, none, Option, List, [], ◌∷◌, ◌++◌, length, All-contains, contains,
  nat_eq, string_eq, pair_eq, ◌≡◌, refl, ◌∙◌, arith,
}
use spox.Error.{Result, ok, err}
use spox.Exec.{Exec, ◌>>=◌}
use spox.Sbtc.{Sbtc}
use spox.Config.{BitcoinCoreWalletConfig, is_some}
use spox.BitcoinApi.{BlockRef, Utxo, BitcoinApi}
use spox.DepositMonitor.{
  LruCache, CreateDepositRequestBody, MonitorState, pending_deposit, get_pending_deposits,
}
use spox.DepositProcess.{
  Registry, update_from_registry, update_wallet, create_deposits, fetch_and_create_deposits,
  process_block, process_monitored_deposits,
}
use spox.DepositProcess.Marking.{
  Remembers, accepted_keys, Marks-append, create_deposits-Marks, pending_deposit-Marked,
}
use spox.DepositProcess.Keeping.{Keeps, MarksIn, Keeps-then, Leaves-Keeps, requests-Keeps}
use spox.DepositProcess.Leaving.{update_from_registry-Leaves, update_wallet-Leaves}

module _ {W H C D R : Type 0} (lib : Sbtc D R) (bitcoin : BitcoinApi W)
    (hexes : LruCache H (String × String) String) (created : LruCache C (String × ℕ) (Unit {0}))
    (create_deposit : CreateDepositRequestBody → Exec W (Unit {0})) where
  abbrev State : Type 0
  State = MonitorState W H C D R

  -- How many requests a block sends, and the outputs of those that Emily takes.
  abbrev sent : Result (List CreateDepositRequestBody) × State → ℕ
  sent (ok deposits, s) = length deposits
  sent (err e, s) = 0

  abbrev taken : Result (List CreateDepositRequestBody) × State → List (String × ℕ)
  taken (ok deposits, s) = accepted_keys lib bitcoin hexes created create_deposit deposits s
  taken (err e, s) = []

  module _ (registry : Option (Registry W)) (wallet : Option BitcoinCoreWalletConfig)
      (now : W → Option ℕ) where
    -- The state that a block's requests are collected in.
    abbrev pub updated : State → State
    updated s =
        (update_wallet lib bitcoin hexes created wallet now
          (update_from_registry lib bitcoin hexes created registry s).1).1

    abbrev pub collected : BlockRef → State → Result (List CreateDepositRequestBody) × State
    collected tip s =
        get_pending_deposits lib bitcoin hexes created (is_some wallet) tip (updated s)

    abbrev block : BlockRef → State → State
    block tip s = process_block lib bitcoin hexes created create_deposit registry wallet now tip s

    abbrev pub sent_in : List BlockRef → State → ℕ
    sent_in [] s = 0
    sent_in (tip ∷ tips) s = sent (collected tip s) + sent_in tips (block tip s)

    abbrev pub taken_in : List BlockRef → State → List (String × ℕ)
    taken_in [] s = []
    taken_in (tip ∷ tips) s = taken (collected tip s) ++ taken_in tips (block tip s)

  module _ (remembers : Remembers created) where
    open remembers use {room}

    module _ (registry : Option (Registry W)) (wallet : Option BitcoinCoreWalletConfig)
        (now : W → Option ℕ) where
      updated-Keeps :
          (s : State)
          → Keeps lib bitcoin hexes created create_deposit remembers s
              (updated registry wallet now s)
      updated-Keeps s =
          let t = (update_from_registry lib bitcoin hexes created registry s).1 in
          Leaves-Keeps lib bitcoin hexes created create_deposit remembers s _ (
            (update_wallet-Leaves lib bitcoin hexes created wallet now).same t
            ∙ (update_from_registry-Leaves lib bitcoin hexes created registry).same s)

      created-Marks :
          (r : Result (List CreateDepositRequestBody)) (t : State)
          → sent (r, t) ≤ room t.created_deposits
          → MarksIn lib bitcoin hexes created create_deposit remembers
              (sent (r, t))
              t
              (((λ u. (r, u)) >>= λ deposits u.
                  (ok tt, create_deposits lib bitcoin hexes created create_deposit deposits u))
                t).1
              (taken (r, t))
      created-Marks (ok deposits) t h =
          create_deposits-Marks lib bitcoin hexes created create_deposit remembers deposits t h
      created-Marks (err e) t h =
          Leaves-Keeps lib bitcoin hexes created create_deposit remembers t t refl

      block-Marks :
          (tip : BlockRef) (s : State)
          → sent (collected registry wallet now tip s) ≤ room s.created_deposits
          → MarksIn lib bitcoin hexes created create_deposit remembers
              (sent (collected registry wallet now tip s))
              s
              (block registry wallet now tip s)
              (taken (collected registry wallet now tip s))
      unfolding process_block fetch_and_create_deposits
      block-Marks tip s h =
          let t = updated registry wallet now s in
          let p = collected registry wallet now tip s in
          let kept =
            Keeps-then lib bitcoin hexes created create_deposit remembers 0 s t p.1 []
              (updated-Keeps s)
              (requests-Keeps lib bitcoin hexes created create_deposit remembers (is_some wallet)
                tip t) in
          Keeps-then lib bitcoin hexes created create_deposit remembers _ s p.1 _ _ kept
            (created-Marks p.0 p.1 (omega (arith, h, kept.takes)))

      run-Marks :
          (tips : List BlockRef) (s : State)
          → sent_in registry wallet now tips s ≤ room s.created_deposits
          → MarksIn lib bitcoin hexes created create_deposit remembers
              (sent_in registry wallet now tips s)
              s
              (process_monitored_deposits lib bitcoin hexes created create_deposit registry wallet
                now tips s)
              (taken_in registry wallet now tips s)
      unfolding process_monitored_deposits
      run-Marks [] s h = Leaves-Keeps lib bitcoin hexes created create_deposit remembers s s refl
      run-Marks (tip ∷ tips) s h =
          let first = block-Marks tip s (omega (arith, h)) in
          Marks-append lib bitcoin hexes created create_deposit remembers _ _ s
            (block registry wallet now tip s) _ _ _ first
            (run-Marks tips (block registry wallet now tip s) (omega (arith, h, first.takes)))

      -- While the cache has room for the requests of a run of blocks, an output whose deposit Emily took
      -- in one of them is not sent to her again: after the run no request is made of it.
      pub process_monitored_deposits-skips :
          (tips : List BlockRef) (s : State) (utxo : Utxo) (chain_tip : BlockRef)
          → sent_in registry wallet now tips s ≤ room s.created_deposits
          → contains (taken_in registry wallet now tips s) (utxo.txid, utxo.vout) ≡ true
          → (pending_deposit lib bitcoin hexes created utxo chain_tip (
              process_monitored_deposits lib bitcoin hexes created create_deposit registry wallet
                now tips s)).0
            ≡ none
      process_monitored_deposits-skips tips s utxo chain_tip h k =
          pending_deposit-Marked lib bitcoin hexes created create_deposit remembers _ utxo chain_tip
            (All-contains _ (taken_in registry wallet now tips s) (utxo.txid, utxo.vout)
              (run-Marks tips s h).new_keys k)
