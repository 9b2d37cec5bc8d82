-- ===== src/DepositMonitor/Caching.antt =====
-- Methods that keep the cache of transactions the node's.
use spox.Prelude.{ℕ, if◌then◌else◌, String, Bool, true, false, some, ◌⊎◌, ◌≡◌, refl, subst}
use spox.Error.{Error, Result, ok, err}
use spox.Result.{ok-inj}
use spox.Exec.{Exec, pure, raise, lift, ◌>>=◌}
use spox.Sbtc.{Sbtc}
use spox.Storage.{SharedStore}
use spox.BitcoinApi.{BitcoinApi}
use spox.DepositMonitor.{LruCache, MonitorState, on_world, on_store}

module _ {W H C D R : Type 0} (lib : Sbtc D R) (bitcoin : BitcoinApi W)
    (hexes : LruCache H (String × String) String) (created : LruCache C (String × ℕ) (Unit {0}))
    (hex_of : String × String → String) where
  abbrev State : Type 0
  State = MonitorState W H C D R

  -- Whenever the node returns a transaction of a block, it is the one that `hex_of` names.
  abbrev pub Truthful : Type 0
  Truthful =
      (txid block : String) (w : W) (hex : String)
      → (bitcoin.get_raw_transaction_hex txid block w).0 ≡ ok hex
      → hex ≡ hex_of (txid, block)

  -- What a cache holds after a look-up or a write was in it before, or is what was written.
  pub record HoldsWrites : Type 0 where
    pub after_get :
        (j k : String × String) (c : H) (v : String)
        → (hexes.get j (hexes.get k c).1).0 ≡ some v
        → (hexes.get j c).0 ≡ some v
    pub after_put :
        (j k : String × String) (c : H) (v x : String)
        → (hexes.get j (hexes.put k x c)).0 ≡ some v
        → ((hexes.get j c).0 ≡ some v) ⊎ ((j ≡ k) × (x ≡ v))

  -- Every transaction in the cache is the node's.
  pub record IsCoherent (c : H) : Type 0 where
    pub at_key :
        (k : String × String) (hex : String) → (hexes.get k c).0 ≡ some hex → hex ≡ hex_of k

  -- A method that keeps the cache coherent and returns only what satisfies `Q`.
  pub record Keeps {A : Type 0} (m : Exec State A) (Q : A → Type 0) : Type 0 where
    pub coherent_after : (s : State) → IsCoherent s.tx_hex_cache → IsCoherent (m s).1.tx_hex_cache
    pub returns : (s : State) → IsCoherent s.tx_hex_cache → (a : A) → (m s).0 ≡ ok a → Q a

  abbrev pub Anything : {A : Type 0} → A → Type 0
  Anything a = Unit {0}

  pub Keeps-bind :
      {A B : Type 0} (m : Exec State A) (f : A → Exec State B) (P : A → Type 0) (Q : B → Type 0)
      → Keeps m P
      → ((a : A) → P a → Keeps (f a) Q)
      → Keeps (m >>= f) Q
  Keeps-bind {A = A} {B = B} m f P Q first next = record {
    coherent_after = λ s h. after s h (m s).0 refl;
    returns = λ s h. result s h (m s).0 refl;
  }
    where
      after :
          (s : State)
          → IsCoherent s.tx_hex_cache
          → (r : Result A) → (m s).0 ≡ r
          → IsCoherent (((λ t. (r, t)) >>= f) (m s).1).1.tx_hex_cache
      after s h (ok a) e =
          (next a (first.returns s h a e)).coherent_after (m s).1 (first.coherent_after s h)
      after s h (err e) q = first.coherent_after s h

      result :
          (s : State)
          → IsCoherent s.tx_hex_cache
          → (r : Result A) → (m s).0 ≡ r
          → (b : B) → (((λ t. (r, t)) >>= f) (m s).1).0 ≡ ok b
          → Q b
      result s h (ok a) e b q =
          (next a (first.returns s h a e)).returns (m s).1 (first.coherent_after s h) b q
      result s h (err e) p b q = cc

  pub guard-Keeps :
      {A : Type 0} (b : Bool) (e : Error) (m : Exec State A) (Q : A → Type 0)
      → Keeps m Q
      → Keeps (if b then raise e else m) Q
  guard-Keeps true e m Q k = record { coherent_after = λ s h. h; returns = λ s h a q. cc }
  guard-Keeps false e m Q k = k

  pub pure-Keeps : {A : Type 0} (a : A) (Q : A → Type 0) → Q a → Keeps (pure a) Q
  pure-Keeps a Q q = record { coherent_after = λ s h. h; returns = λ s h b e. subst Q (ok-inj e) q }

  -- What does not touch the cache keeps it.
  pub on_world-Keeps : {A : Type 0} (m : Exec W A) → Keeps (on_world m) Anything
  on_world-Keeps m = record { coherent_after = λ s h. h; returns = λ s h a e. tt }

  pub on_store-Keeps : {A : Type 0} (m : Exec (SharedStore D R) A) → Keeps (on_store m) Anything
  on_store-Keeps m = record { coherent_after = λ s h. h; returns = λ s h a e. tt }

  pub lift-Keeps : {A : Type 0} (r : Result A) → Keeps (lift r) Anything
  lift-Keeps r = record { coherent_after = λ s h. h; returns = λ s h a e. tt }
