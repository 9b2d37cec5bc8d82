-- ===== src/DepositProcess/Keeping.antt =====
-- Collecting the requests of a block forgets no deposit that was created.
use spox.Prelude.{
  ℕ, String, Bool, none, some, Option, List, [], ◌∷◌, nat_eq, string_eq, pair_eq, ◌≡◌, refl, ◌∙◌,
  arith,
}
use spox.Error.{Result, ok, err}
use spox.Exec.{Exec, ◌>>=◌}
use spox.Sbtc.{Script, Sbtc}
use spox.BitcoinApi.{BlockRef, Utxo, BitcoinApi}
use spox.DepositMonitor.{
  LruCache, CreateDepositRequestBody, MonitorState, unless_created, pending_deposit,
  collect_deposits, deposits_of, get_pending_deposits, get_utxos, on_store,
}
use spox.Storage.{get_scripts}
use spox.DepositProcess.Marking.{Remembers, Marks, Marks-same}
use spox.DepositProcess.Leaving.{get_deposit-Leaves, get_utxos-Leaves}

module _ {W H C D R : Type 0} (lib : Sbtc D R) (bitcoin : BitcoinApi W)
    (hexes : LruCache H (String × String) String) (created : LruCache C (String × ℕ) (Unit {0}))
    (create_deposit : CreateDepositRequestBody → Exec W (Unit {0})) where
  abbrev State : Type 0
  State = MonitorState W H C D R

  module _ (remembers : Remembers created) where
    open remembers use {room}

    -- Nothing is forgotten and no place taken.
    abbrev pub Keeps : State → State → Type 0
    Keeps s s' = Marks lib bitcoin hexes created create_deposit remembers 0 s s' []

    -- What a step marks is marked from an earlier state on that nothing was forgotten since.
    abbrev pub MarksIn : ℕ → State → State → List (String × ℕ) → Type 0
    MarksIn n s s' ks = Marks lib bitcoin hexes created create_deposit remembers n s s' ks

    pub Keeps-then :
        (n : ℕ) (s t u : State) (ks : List (String × ℕ))
        → Keeps s t
        → MarksIn n t u ks
        → MarksIn n s u ks
    Keeps-then n s t u ks first next = record {
      takes = omega (arith, first.takes, next.takes);
      new_keys = next.new_keys;
      old_keys = λ k marked. next.old_keys k (first.old_keys k marked);
    }

    pub Leaves-Keeps : (s t : State) → t.created_deposits ≡ s.created_deposits → Keeps s t
    Leaves-Keeps s t same = Marks-same lib bitcoin hexes created create_deposit remembers s t same

    looked_up-Keeps :
        (k : String × ℕ) (s : State)
        → Keeps s (record s { created_deposits = (created.get k s.created_deposits).1 })
    looked_up-Keeps k s = record {
      takes = rw (remembers.get_room k s.created_deposits) (omega arith);
      new_keys = tt;
      old_keys = λ j marked. remembers.get_same j k s.created_deposits ∙ marked;
    }

    pending-Keeps :
        (utxo : Utxo) (tip : BlockRef) (s : State)
        → Keeps s (pending_deposit lib bitcoin hexes created utxo tip s).1
    unfolding pending_deposit
    pending-Keeps utxo tip s =
        let key : String × ℕ = (utxo.txid, utxo.vout) in
        let t : State = record s { created_deposits = (created.get key s.created_deposits).1 } in
        Keeps-then 0 s t _ [] (looked_up-Keeps key s)
          (filled (created.get key s.created_deposits).0 t)
      where
        filled :
            (o : Option (Unit {0})) (t : State)
            → Keeps t (unless_created lib bitcoin hexes created utxo tip o t).1
        filled (some seen) t = Leaves-Keeps t t refl
        filled none t =
            Leaves-Keeps t _ ((get_deposit-Leaves lib bitcoin hexes created utxo tip).same t)

    collect-Keeps :
        (tip : BlockRef) (utxos : List Utxo) (s : State)
        → Keeps s (collect_deposits lib bitcoin hexes created tip utxos s).1
    unfolding collect_deposits
    collect-Keeps tip [] s = Leaves-Keeps s s refl
    collect-Keeps tip (utxo ∷ utxos) s =
        Keeps-then 0 s _ _ [] (pending-Keeps utxo tip s) (collect-Keeps tip utxos _)

    pub requests-Keeps :
        (has_wallet : Bool) (tip : BlockRef) (s : State)
        → Keeps s (get_pending_deposits lib bitcoin hexes created has_wallet tip s).1
    unfolding get_pending_deposits
    requests-Keeps has_wallet tip s =
        let t = (on_store get_scripts s).1 in
        Keeps-then 0 s t _ [] (Leaves-Keeps s t refl) (listed (on_store get_scripts s).0 t)
      where
        found :
            (r : Result (List Utxo)) (t : State)
            → Keeps t
                (((λ u. (r, u)) >>= λ utxos u.
                    let (requests, u') = collect_deposits lib bitcoin hexes created tip utxos u in
                    (ok requests, u'))
                  t).1
        found (ok utxos) t = collect-Keeps tip utxos t
        found (err e) t = Leaves-Keeps t t refl

        listed :
            (r : Result (List Script)) (t : State)
            → Keeps t (((λ u. (r, u)) >>= deposits_of lib bitcoin hexes created has_wallet tip) t).1
        listed (err e) t = Leaves-Keeps t t refl
        listed (ok []) t = Leaves-Keeps t t refl
        listed (ok (script ∷ scripts)) t =
            let looked = get_utxos lib bitcoin hexes created has_wallet (script ∷ scripts) tip t in
            Keeps-then 0 t looked.1 _ []
              (Leaves-Keeps t looked.1 (
                (get_utxos-Leaves lib bitcoin hexes created has_wallet (script ∷ scripts) tip).same
                  t))
              (found looked.0 looked.1)
