-- ===== src/DepositMonitor/Coherence.antt =====
-- The transaction that a request carries is the node's, whether it was cached or fetched.
use spox.Prelude.{
  ℕ, ◌+◌, ◌%◌, leb, String, Option, none, some, List, [], ◌∷◌, ◌≡◌, refl, sym, ap, subst, arith,
}
use spox.Error.{Result, ok, err, missing_monitored_deposit}
use spox.Result
use spox.Result.{ok-inj, to_option-some}
use spox.Exec.{Exec, lift}
use spox.Sbtc.{Sbtc}
use spox.Storage.{get_by_script}
use spox.BitcoinApi.{BlockRef, Utxo, BitcoinApi}
use spox.DepositMonitor.{
  u64_limit, LruCache, CreateDepositRequestBody, MonitorState, get_deposit_from_utxo,
  pending_deposit, collect_deposits, try_get_or_insert, on_world, on_store, insert_hex,
  hit_or_insert, unless_created, cons_option,
}
use spox.DepositMonitor.Caching.{
  Truthful, HoldsWrites, IsCoherent, Keeps, Keeps-bind, guard-Keeps, pure-Keeps, on_world-Keeps,
  on_store-Keeps, lift-Keeps, Anything,
}

module _ {W H C D R : Type 0} (lib : Sbtc D R) (bitcoin : BitcoinApi W)
    (hexes : LruCache H (String × String) String) (created : LruCache C (String × ℕ) (Unit {0}))
    (hex_of : String × String → String) where
  abbrev State : Type 0
  State = MonitorState W H C D R

  module _ (truthful : Truthful lib bitcoin hexes created hex_of)
      (holds : HoldsWrites lib bitcoin hexes created hex_of) where
    get-IsCoherent :
        (k : String × String) (c : H)
        → IsCoherent lib bitcoin hexes created hex_of c
        → IsCoherent lib bitcoin hexes created hex_of (hexes.get k c).1
    get-IsCoherent k c h = record {
      at_key = λ j hex e. h.at_key j hex (holds.after_get j k c hex e);
    }

    put-IsCoherent :
        (k : String × String) (c : H)
        → IsCoherent lib bitcoin hexes created hex_of c
        → IsCoherent lib bitcoin hexes created hex_of (hexes.put k (hex_of k) c)
    put-IsCoherent k c h = record {
      at_key = λ j hex e. ground (arith, holds.after_put j k c hex (hex_of k) e, h.at_key j hex);
    }

    -- The look-up that every request makes.
    abbrev fetch_hex : String × String → Exec State String
    fetch_hex k =
        try_get_or_insert lib bitcoin hexes created k
          (on_world (bitcoin.get_raw_transaction_hex k.0 k.1))

    -- What is fetched on a miss is stored, and is the node's.
    inserted_lem :
        (k : String × String) (s : State) (r : Result String) (w : W)
        → bitcoin.get_raw_transaction_hex k.0 k.1 w ≡ (r, s.world)
        → IsCoherent lib bitcoin hexes created hex_of s.tx_hex_cache
        → IsCoherent lib bitcoin hexes created hex_of
            (insert_hex lib bitcoin hexes created k r s).1.tx_hex_cache
          × ((hex : String)
              → (insert_hex lib bitcoin hexes created k r s).0 ≡ ok hex
              → hex ≡ hex_of k)
    inserted_lem k s (err e) w q h = (h, λ hex p. cc)
    inserted_lem k s (ok hex) w q h =
        let same : hex ≡ hex_of k = truthful k.0 k.1 w hex (ap (λ p. p.0) q) in
        (
          subst (λ x. IsCoherent lib bitcoin hexes created hex_of (hexes.put k x s.tx_hex_cache))
              (sym same) (put-IsCoherent k s.tx_hex_cache h),
          λ hex' p. ground (arith, same, p),
        )

    looked_up_lem :
        (k : String × String) (s : State) (hit : Option String)
        → IsCoherent lib bitcoin hexes created hex_of s.tx_hex_cache
        → ((hex : String) → hit ≡ some hex → hex ≡ hex_of k)
        → let m =
            hit_or_insert lib bitcoin hexes created k
              (on_world (bitcoin.get_raw_transaction_hex k.0 k.1))
              hit
              s in
          IsCoherent lib bitcoin hexes created hex_of m.1.tx_hex_cache
          × ((hex : String) → m.0 ≡ ok hex → hex ≡ hex_of k)
    looked_up_lem k s none h known =
        let asked = bitcoin.get_raw_transaction_hex k.0 k.1 s.world in
        inserted_lem k (record s { world = asked.1 }) asked.0 s.world refl h
    looked_up_lem k s (some hex) h known = (h, λ hex' p. ground (arith, known hex refl, p))

    fetch_hex-Keeps :
        (k : String × String)
        → Keeps lib bitcoin hexes created hex_of (fetch_hex k) (λ hex. hex ≡ hex_of k)
    unfolding try_get_or_insert
    fetch_hex-Keeps k = record {
      coherent_after = λ s h. (found s h).0;
      returns = λ s h. (found s h).1;
    }
      where
        found :
            (s : State)
            → IsCoherent lib bitcoin hexes created hex_of s.tx_hex_cache
            → IsCoherent lib bitcoin hexes created hex_of (fetch_hex k s).1.tx_hex_cache
              × ((hex : String) → (fetch_hex k s).0 ≡ ok hex → hex ≡ hex_of k)
        found s h =
            looked_up_lem k (record s { tx_hex_cache = (hexes.get k s.tx_hex_cache).1 })
              (hexes.get k s.tx_hex_cache).0 (get-IsCoherent k s.tx_hex_cache h) (h.at_key k)

    -- A request for `utxo` carries the node's transaction.
    abbrev pub CarriesTransaction : Utxo → CreateDepositRequestBody → Type 0
    CarriesTransaction utxo request =
        (request.bitcoin_txid ≡ lib.print_txid utxo.txid)
        × ((block : String) × (request.transaction_hex ≡ hex_of (utxo.txid, block)))

    get_deposit_from_utxo-Keeps :
        (utxo : Utxo) (chain_tip : BlockRef)
        → Keeps lib bitcoin hexes created hex_of
            (get_deposit_from_utxo lib bitcoin hexes created utxo chain_tip)
            (CarriesTransaction utxo)
    unfolding get_deposit_from_utxo
    get_deposit_from_utxo-Keeps utxo chain_tip =
        Keeps-bind lib bitcoin hexes created hex_of (on_store (get_by_script utxo.script_pub_key)) _
          (Anything lib bitcoin hexes created hex_of) _
          (on_store-Keeps lib bitcoin hexes created hex_of _)
          λ found _.
            Keeps-bind lib bitcoin hexes created hex_of
              (lift (Result.ok_or (missing_monitored_deposit utxo.script_pub_key) found)) _
              (Anything lib bitcoin hexes created hex_of) _
              (lift-Keeps lib bitcoin hexes created hex_of _)
              λ deposit _.
                guard-Keeps lib bitcoin hexes created hex_of
                  (leb
                    ((utxo.block_height + lib.lock_time deposit.reclaim_script_inputs) % u64_limit)
                    chain_tip.block_height)
                  _ _ _
                  (Keeps-bind lib bitcoin hexes created hex_of
                    (on_world (bitcoin.get_block_hash utxo.block_height)) _
                    (Anything lib bitcoin hexes created hex_of) _
                    (on_world-Keeps lib bitcoin hexes created hex_of _)
                    λ block _.
                      Keeps-bind lib bitcoin hexes created hex_of (fetch_hex (utxo.txid, block)) _
                        (λ hex. hex ≡ hex_of (utxo.txid, block)) _
                        (fetch_hex-Keeps (utxo.txid, block))
                        λ hex same.
                          pure-Keeps lib bitcoin hexes created hex_of _ _ (refl, (block, same)))

    -- Each request is that of a later output than the one before it.
    pub data Carried : List Utxo → List CreateDepositRequestBody → Type 0 where
      done : Carried [] []
      skipped :
          {utxo : Utxo} {utxos : List Utxo} {requests : List CreateDepositRequestBody}
          → Carried utxos requests
          → Carried (utxo ∷ utxos) requests
      carried :
          {utxo : Utxo} {utxos : List Utxo} {request : CreateDepositRequestBody}
          {requests : List CreateDepositRequestBody}
          → CarriesTransaction utxo request
          → Carried utxos requests
          → Carried (utxo ∷ utxos) (request ∷ requests)

    unless_created_lem :
        (utxo : Utxo) (chain_tip : BlockRef) (seen : Option (Unit {0})) (s : State)
        → IsCoherent lib bitcoin hexes created hex_of s.tx_hex_cache
        → let m = unless_created lib bitcoin hexes created utxo chain_tip seen s in
          IsCoherent lib bitcoin hexes created hex_of m.1.tx_hex_cache
          × ((request : CreateDepositRequestBody)
              → m.0 ≡ some request
              → CarriesTransaction utxo request)
    unless_created_lem utxo chain_tip (some seen) s h = (h, λ request e. cc)
    unless_created_lem utxo chain_tip none s h =
        let kept = get_deposit_from_utxo-Keeps utxo chain_tip in
        (
          kept.coherent_after s h,
          λ request e. kept.returns s h request (to_option-some _ request e),
        )

    cons_option_lem :
        (utxo : Utxo) (utxos : List Utxo) (o : Option CreateDepositRequestBody)
        (requests : List CreateDepositRequestBody)
        → ((request : CreateDepositRequestBody)
            → o ≡ some request
            → CarriesTransaction utxo request)
        → Carried utxos requests
        → Carried (utxo ∷ utxos) (cons_option lib bitcoin hexes created o requests)
    cons_option_lem utxo utxos none requests h rest = skipped rest
    cons_option_lem utxo utxos (some request) requests h rest = carried (h request refl) rest

    -- From a coherent cache, every request of a block is for an output of the list, in its order, and
    -- carries the id of that output's transaction and the node's text of that transaction, cached or
    -- fetched; the cache stays coherent.
    pub collect_deposits-transactions :
        (chain_tip : BlockRef) (utxos : List Utxo) (s : State)
        → IsCoherent lib bitcoin hexes created hex_of s.tx_hex_cache
        → let (requests, s') = collect_deposits lib bitcoin hexes created chain_tip utxos s in
          Carried utxos requests × IsCoherent lib bitcoin hexes created hex_of s'.tx_hex_cache
    unfolding collect_deposits pending_deposit
    collect_deposits-transactions chain_tip [] s h = (done, h)
    collect_deposits-transactions chain_tip (utxo ∷ utxos) s h =
        let seen = created.get (utxo.txid, utxo.vout) s.created_deposits in
        let first =
          unless_created_lem utxo chain_tip seen.0 (record s { created_deposits = seen.1 }) h in
        let rest = collect_deposits-transactions chain_tip utxos _ first.0 in
        (cons_option_lem utxo utxos _ _ first.1 rest.0, rest.1)
