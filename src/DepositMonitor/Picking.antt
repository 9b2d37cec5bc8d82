-- ===== src/DepositMonitor/Picking.antt =====
-- Which outputs become requests, and what each request says.
use mathlib.Core.Path.{subst}
use spox.Prelude.{
  ℕ, ◌+◌, ◌%◌, ◌<◌, String, false, Option, none, some, List, [], ◌∷◌, ◌⊎◌, inl, inr, ◌≡◌, refl, sym,
  arith, Option-cases,
}
use spox.Result.{to_option}
use spox.Error.{Error, Result, ok, err}
use spox.Sbtc.{Sbtc}
use spox.Storage.{MonitoredDeposit, SharedStore}
use spox.Storage.Laws.{deposit_at, get_by_script_lem}
use spox.BitcoinApi.{BlockRef, Utxo, BitcoinApi}
use spox.DepositMonitor.{
  u64_limit, LruCache, CreateDepositRequestBody, MonitorState, get_deposit_from_utxo,
  pending_deposit, collect_deposits, unless_created, cons_option,
}

-- A request for each output of a sub-sequence, in its order: `P` holds of an output and its
-- request, and `Q` of an output that has none.
abbrev pub Picks : {A B : Type 0} → (A → B → Type 0) → (A → Type 0) → List A → List B → Type 0
Picks P Q [] [] = Unit
Picks P Q [] (b ∷ bs) = ⊥
Picks P Q (a ∷ as') [] = Q a × Picks P Q as' []
Picks P Q (a ∷ as') (b ∷ bs) = (P a b × Picks P Q as' bs) ⊎ (Q a × Picks P Q as' (b ∷ bs))

module _ {W H C D R : Type 0} (lib : Sbtc D R) (bitcoin : BitcoinApi W)
    (hexes : LruCache H (String × String) String) (created : LruCache C (String × ℕ) (Unit {0}))
    (chain_tip : BlockRef) where
  abbrev State : Type 0
  State = MonitorState W H C D R

  -- The request of an output, from the deposit that a store has under its script.
  pub record IsRequest (store : SharedStore D R) (utxo : Utxo) (r : CreateDepositRequestBody)
      : Type 0 where
    pub deposit : MonitoredDeposit D R
    pub monitored : deposit_at store utxo.script_pub_key ≡ some deposit
    pub unexpired :
        chain_tip.block_height
        < (utxo.block_height + lib.lock_time deposit.reclaim_script_inputs) % u64_limit
    pub txid : r.bitcoin_txid ≡ lib.print_txid utxo.txid
    pub vout : r.bitcoin_tx_output_index ≡ utxo.vout
    pub deposit_script :
        r.deposit_script ≡ lib.to_hex_string (lib.deposit_script deposit.deposit_script_inputs)
    pub reclaim_script :
        r.reclaim_script ≡ lib.to_hex_string (lib.reclaim_script deposit.reclaim_script_inputs)

  -- Making a request changes neither the store nor the created deposits.
  get_deposit_keeps :
      (utxo : Utxo) (s : State)
      → s.shared.poisoned ≡ false
      → ((get_deposit_from_utxo lib bitcoin hexes created utxo chain_tip s).1.shared ≡ s.shared)
        × ((get_deposit_from_utxo lib bitcoin hexes created utxo chain_tip s).1.created_deposits
            ≡ s.created_deposits)
  unfolding get_deposit_from_utxo
  get_deposit_keeps utxo s free =
      ground (arith, get_by_script_lem s.shared utxo.script_pub_key free)

  get_deposit-IsRequest :
      (utxo : Utxo) (s : State) (r : CreateDepositRequestBody)
      → s.shared.poisoned ≡ false
      → (get_deposit_from_utxo lib bitcoin hexes created utxo chain_tip s).0 ≡ ok r
      → IsRequest s.shared utxo r
  unfolding get_deposit_from_utxo
  get_deposit-IsRequest utxo s r free h =
      elim (Option-cases (deposit_at s.shared utxo.script_pub_key)) [
        | inl e ↦ absurd (ground (arith, get_by_script_lem s.shared utxo.script_pub_key free))
        | inr (d, e) ↦ record {
          deposit = d;
          monitored = e;
          unexpired = ground (arith, get_by_script_lem s.shared utxo.script_pub_key free);
          txid = ground (arith, get_by_script_lem s.shared utxo.script_pub_key free);
          vout = ground (arith, get_by_script_lem s.shared utxo.script_pub_key free);
          deposit_script = ground (arith, get_by_script_lem s.shared utxo.script_pub_key free);
          reclaim_script = ground (arith, get_by_script_lem s.shared utxo.script_pub_key free);
        }
      ]

  -- The output was created before, as far as the cache remembers.
  abbrev pub seen : C → Utxo → Option (Unit {0})
  seen cache u = (created.get (u.txid, u.vout) cache).0

  module _ (store : SharedStore D R) (cache : C) where
    -- A request is made of an output that was not created before, from an unexpired deposit.
    abbrev pub Picked : Utxo → CreateDepositRequestBody → Type 0
    Picked u r = (seen cache u ≡ none) × IsRequest store u r

    -- No request is made: it was created before, or an error is returned for it.
    abbrev pub Skipped : Utxo → Type 0
    Skipped u =
        ((seen cache u ≡ some tt)
          ⊎ ((t : State) × (e : Error) × (t.shared ≡ store)
              × ((get_deposit_from_utxo lib bitcoin hexes created u chain_tip t).0 ≡ err e)))

  module _ (store : SharedStore D R) (cache : C) (free : store.poisoned ≡ false)
      (reads : (j k : String × ℕ) (c : C)
        → (created.get j (created.get k c).1).0 ≡ (created.get j c).0) where
    -- The store, and what the cache of created deposits remembers, are as they were.
    record Same (s : State) : Type 0 where
      store_same : s.shared ≡ store
      cache_same : (k : String × ℕ) → (created.get k s.created_deposits).0 ≡ (created.get k cache).0

    abbrev Verdict : Utxo → Option CreateDepositRequestBody → Type 0
    Verdict u none = Skipped store cache u
    Verdict u (some r) = Picked store cache u r

    pending_Same :
        (u : Utxo) (s : State)
        → Same s
        → Same (pending_deposit lib bitcoin hexes created u chain_tip s).1
    unfolding pending_deposit
    pending_Same u s h =
        let key : String × ℕ = (u.txid, u.vout) in
        let t : State = record s { created_deposits = (created.get key s.created_deposits).1 } in
        let unpoisoned : t.shared.poisoned ≡ false = rw (h.store_same) free in
        record {
          store_same = ground (arith, get_deposit_keeps u t unpoisoned);
          cache_same = λ k. ground (
            arith,
            get_deposit_keeps u t unpoisoned,
            reads k key s.created_deposits,
            h.cache_same k,
          );
        }

    Verdict-of_result :
        (u : Utxo) (t : State) (r : Result CreateDepositRequestBody)
        → t.shared ≡ store
        → seen cache u ≡ none
        → (get_deposit_from_utxo lib bitcoin hexes created u chain_tip t).0 ≡ r
        → Verdict u (to_option r)
    Verdict-of_result u t (ok r) e q h =
        (q, subst (λ x. IsRequest x u r) e (get_deposit-IsRequest u t r (rw e free) h))
    Verdict-of_result u t (err x) e q h = inr (t, x, e, h)

    Verdict-of_seen :
        (u : Utxo) (t : State) (o : Option (Unit {0}))
        → t.shared ≡ store
        → seen cache u ≡ o
        → Verdict u (unless_created lib bitcoin hexes created u chain_tip o t).0
    Verdict-of_seen u t (some x) e q = inl q
    Verdict-of_seen u t none e q = Verdict-of_result u t _ e q refl

    pending_Verdict :
        (u : Utxo) (s : State)
        → Same s
        → Verdict u (pending_deposit lib bitcoin hexes created u chain_tip s).0
    unfolding pending_deposit
    pending_Verdict u s h =
        Verdict-of_seen u
          (record s { created_deposits = (created.get (u.txid, u.vout) s.created_deposits).1 }) _
          h.store_same (sym (h.cache_same (u.txid, u.vout)))

    Picks-cons :
        (u : Utxo) (o : Option CreateDepositRequestBody) (us : List Utxo)
        (rs : List CreateDepositRequestBody)
        → Verdict u o
        → Picks (Picked store cache) (Skipped store cache) us rs
        → Picks
            (Picked store cache)
            (Skipped store cache)
            (u ∷ us)
            (cons_option lib bitcoin hexes created o rs)
    Picks-cons u (some r) us rs v p = inl (v, p)
    Picks-cons u none us [] v p = (v, p)
    Picks-cons u none us (r ∷ rs) v p = inr (v, p)

    collect-Picks :
        (us : List Utxo) (s : State)
        → Same s
        → Picks
            (Picked store cache)
            (Skipped store cache)
            us
            (collect_deposits lib bitcoin hexes created chain_tip us s).0
    unfolding collect_deposits
    collect-Picks [] s h = tt
    collect-Picks (u ∷ us) s h =
        Picks-cons u _ us _ (pending_Verdict u s h) (collect-Picks us _ (pending_Same u s h))

  -- If looking a key up changes no entry of the cache, the requests are those of a sub-sequence of
  -- the outputs, in their order and one for each: an output with a request was not created before
  -- and has an unexpired deposit in the store under its script, whose data are the request's; an
  -- output without one was created before, or an error is returned for it at the same store.
  pub collect_deposits-Picks :
      (reads : (j k : String × ℕ) (c : C)
        → (created.get j (created.get k c).1).0 ≡ (created.get j c).0)
      (us : List Utxo) (s : State)
      → s.shared.poisoned ≡ false
      → Picks
          (Picked s.shared s.created_deposits)
          (Skipped s.shared s.created_deposits)
          us
          (collect_deposits lib bitcoin hexes created chain_tip us s).0
  collect_deposits-Picks reads us s free =
      collect-Picks s.shared s.created_deposits free reads us s
        (record { store_same = refl; cache_same = λ k. refl })
