-- ===== src/DepositProcess/Marking.antt =====
-- What a run of deposits does to the memory of created ones.
use spox.Prelude.{
  ℕ, ◌+◌, ◌≤◌, ◌<◌, String, none, some, List, [], ◌∷◌, ◌++◌, length, All, All-append, All-map,
  nat_eq, string_eq, pair_eq, ◌⊎◌, inl, inr, ◌≡◌, refl, arith,
}
use spox.Error.{Result, ok, err}
use spox.Exec.{Exec}
use spox.Sbtc.{Sbtc}
use spox.BitcoinApi.{BlockRef, Utxo, BitcoinApi}
use spox.DepositMonitor.{
  LruCache, CreateDepositRequestBody, MonitorState, on_world, pending_deposit, deposit_created,
}
use spox.DepositProcess.{mark_created, create_deposits}

-- What `lru` documents of a cache: an entry that is put is there, while there is room nothing is
-- evicted, and a look-up evicts nothing. `room` is how many more entries fit.
pub record Remembers {C K : Type 0} (cache : LruCache C K (Unit {0})) : Type 0 where
  pub room : C → ℕ
  pub put_same : (k : K) (c : C) → (cache.get k (cache.put k tt c)).0 ≡ some tt
  pub put_other :
      (j k : K) (c : C)
      → 0 < room c
      → (cache.get j c).0 ≡ some tt
      → (cache.get j (cache.put k tt c)).0 ≡ some tt
  pub put_room : (k : K) (c : C) → room c ≤ room (cache.put k tt c) + 1
  pub get_same : (j k : K) (c : C) → (cache.get j (cache.get k c).1).0 ≡ (cache.get j c).0
  pub get_room : (k : K) (c : C) → room (cache.get k c).1 ≡ room c

module _ {W H C D R : Type 0} (lib : Sbtc D R) (bitcoin : BitcoinApi W)
    (hexes : LruCache H (String × String) String) (created : LruCache C (String × ℕ) (Unit {0}))
    (create_deposit : CreateDepositRequestBody → Exec W (Unit {0})) where
  abbrev State : Type 0
  State = MonitorState W H C D R

  abbrev parsed_key : CreateDepositRequestBody → String ⊎ String → List (String × ℕ)
  parsed_key d (inl e) = []
  parsed_key d (inr txid) = (txid, d.bitcoin_tx_output_index) ∷ []

  abbrev key_of : CreateDepositRequestBody → Result (Unit {0}) → List (String × ℕ)
  key_of d (ok done) = parsed_key d (lib.parse_txid d.bitcoin_txid)
  key_of d (err e) = []

  -- The outputs of the deposits that Emily takes in a run of `create_deposits`.
  abbrev pub accepted_keys : List CreateDepositRequestBody → State → List (String × ℕ)
  accepted_keys [] s = []
  accepted_keys (d ∷ ds) s =
      let (r, s') = on_world (create_deposit d) s in
      key_of d r ++ accepted_keys ds (mark_created lib bitcoin hexes created create_deposit d r s')

  module _ (remembers : Remembers created) where
    open remembers use {room}

    abbrev pub Marked : State → String × ℕ → Type 0
    Marked s k = (created.get k s.created_deposits).0 ≡ some tt

    -- From one state to another, up to so many places of the cache are taken, these outputs are
    -- marked, and no output loses its mark.
    pub record Marks (places : ℕ) (s s' : State) (keys : List (String × ℕ)) : Type 0 where
      pub takes : room s.created_deposits ≤ room s'.created_deposits + places
      pub new_keys : All (Marked s') keys
      pub old_keys : (k : String × ℕ) → Marked s k → Marked s' k

    pub Marks-same : (s s' : State) → s'.created_deposits ≡ s.created_deposits → Marks 0 s s' []
    Marks-same s s' same = record {
      takes = rw same (omega arith);
      new_keys = tt;
      old_keys = λ k m. rw same m;
    }

    pub Marks-append :
        (n m : ℕ) (s t u : State) (ks js : List (String × ℕ))
        → Marks n s t ks
        → Marks m t u js
        → Marks (n + m) s u (ks ++ js)
    Marks-append n m s t u ks js first next = record {
      takes = omega (arith, first.takes, next.takes);
      new_keys = All-append _ ks js (All-map next.old_keys ks first.new_keys) next.new_keys;
      old_keys = λ k marked. next.old_keys k (first.old_keys k marked);
    }

    abbrev put_parsed : ℕ → State → String ⊎ String → State
    put_parsed index s (inl e) = s
    put_parsed index s (inr txid) = record s {
      created_deposits = created.put (txid, index) tt s.created_deposits;
    }

    deposit_created_lem :
        (txid : String) (index : ℕ) (s : State)
        → deposit_created lib bitcoin hexes created txid index s
          ≡ put_parsed index s (lib.parse_txid txid)
    unfolding deposit_created
    deposit_created_lem txid index s = refl

    put_parsed-Marks :
        (d : CreateDepositRequestBody) (p : String ⊎ String) (s : State)
        → 0 < room s.created_deposits
        → Marks 1 s (put_parsed d.bitcoin_tx_output_index s p) (parsed_key d p)
    put_parsed-Marks d (inl e) s h = record {
      takes = omega arith;
      new_keys = tt;
      old_keys = λ k m. m;
    }
    put_parsed-Marks d (inr txid) s h =
        let key : String × ℕ = (txid, d.bitcoin_tx_output_index) in
        record {
          takes = remembers.put_room key s.created_deposits;
          new_keys = (remembers.put_same key s.created_deposits, tt);
          old_keys = λ k m. remembers.put_other k key s.created_deposits h m;
        }

    mark-Marks :
        (d : CreateDepositRequestBody) (r : Result (Unit {0})) (s : State)
        → 0 < room s.created_deposits
        → Marks 1 s (mark_created lib bitcoin hexes created create_deposit d r s) (key_of d r)
    mark-Marks d (err e) s h = record { takes = omega arith; new_keys = tt; old_keys = λ k m. m }
    mark-Marks d (ok done) s h =
        rw (deposit_created_lem d.bitcoin_txid d.bitcoin_tx_output_index s)
          (put_parsed-Marks d (lib.parse_txid d.bitcoin_txid) s h)

    pub create_deposits-Marks :
        (ds : List CreateDepositRequestBody) (s : State)
        → length ds ≤ room s.created_deposits
        → Marks
            (length ds)
            s
            (create_deposits lib bitcoin hexes created create_deposit ds s)
            (accepted_keys ds s)
    unfolding create_deposits
    create_deposits-Marks [] s h = Marks-same s s refl
    create_deposits-Marks (d ∷ ds) s h =
        let (r, t) = on_world (create_deposit d) s in
        let marked = mark_created lib bitcoin hexes created create_deposit d r t in
        let first = mark-Marks d r t (omega (arith, h)) in
        let rest = create_deposits-Marks ds marked (omega (arith, h, first.takes)) in
        let both =
          Marks-append 1 (length ds) t marked _ (key_of d r) (accepted_keys ds marked) first rest in
        record {
          takes = omega (arith, both.takes);
          new_keys = both.new_keys;
          old_keys = both.old_keys;
        }

    -- No request is made of an output that is marked.
    pub pending_deposit-Marked :
        (s : State) (utxo : Utxo) (chain_tip : BlockRef)
        → Marked s (utxo.txid, utxo.vout)
        → (pending_deposit lib bitcoin hexes created utxo chain_tip s).0 ≡ none
    unfolding pending_deposit
    pending_deposit-Marked s utxo chain_tip marked = rw marked
