-- ===== src/Storage/Laws.antt =====
-- The store as a map from scripts, to which the first deposit under a script is added for good.
use spox.Prelude.{
  ℕ, Bool, true, false, Option, none, some, List, [], ◌∷◌, map, ◌==◌, nat_eq, list_eq, contains,
  if◌then◌else◌, ◌≡◌, refl, arith, All, list_beq_iff, Bool-cases, inl, inr,
}
use spox.Error.{ok, err, poisoned_mutex}
use spox.Sbtc.{Script, Sbtc}
use spox.Storage.{
  MonitoredDeposit, SharedStore, find, or_insert, to_script_pubkey, add, get_by_script, get_scripts,
  set_last_next_address_id, get_last_next_address_id,
}

-- The first value wins.
abbrev pub or_else : {V : Type 0} → Option V → V → V
or_else none v = v
or_else (some w) v = w

abbrev pub is_some : {V : Type 0} → Option V → Bool
is_some none = false
is_some (some v) = true

module _ {V : Type 0} where
  pub find-or_insert :
      (k j : Script) (v : V) (m : List (Script × V))
      → find j (or_insert k v m) ≡ (if k == j then some (or_else (find k m) v) else find j m)
  unfolding find or_insert
  find-or_insert k j v [] = ground arith
  find-or_insert k j v ((i, w) ∷ m) = ground (
    arith,
    find-or_insert k j v m,
    list_beq_iff nat_eq i k,
    list_beq_iff nat_eq i j,
    list_beq_iff nat_eq k j,
  )

  contains-keys :
      (k : Script) (m : List (Script × V)) → contains (map (λ e. e.0) m) k ≡ is_some (find k m)
  unfolding find
  contains-keys k [] = refl
  contains-keys k ((j, v) ∷ m) = ground (arith, contains-keys k m)

module _ {D R : Type 0} where
  -- The deposit under a script, if there is one.
  abbrev pub deposit_at : SharedStore D R → Script → Option (MonitoredDeposit D R)
  deposit_at s k = find k s.monitored

  -- Every deposit stands under its own script.
  abbrev pub IsKeyed : Sbtc D R → SharedStore D R → Type 0
  IsKeyed lib s = All (λ e. e.0 ≡ to_script_pubkey lib e.1) s.monitored

  module _ (lib : Sbtc D R) (d : MonitoredDeposit D R) (s : SharedStore D R) where
    -- Adding a deposit to a store that can be locked puts it under its script if that is free,
    -- leaves the deposit that stands there otherwise, and changes no other script and not the id.
    pub add-deposit_at :
        (j : Script)
        → s.poisoned ≡ false
        → (deposit_at (add lib d s).1 j ≡ (
            if to_script_pubkey lib d == j
            then some (or_else (deposit_at s (to_script_pubkey lib d)) d)
            else deposit_at s j))
          × ((add lib d s).0 ≡ ok tt)
          × ((add lib d s).1.last_next_address_id ≡ s.last_next_address_id)
          × ((add lib d s).1.poisoned ≡ false)
    unfolding add
    add-deposit_at j h =
        rw h (find-or_insert (to_script_pubkey lib d) j d s.monitored, refl, refl, refl)

    -- A store whose lock is poisoned refuses each operation with that error, and stays as it is.
    pub poisoned_store :
        (j : Script) (n : ℕ)
        → s.poisoned ≡ true
        → (add lib d s ≡ (err poisoned_mutex, s))
          × (get_by_script j s ≡ (err poisoned_mutex, s))
          × (get_scripts s ≡ (err poisoned_mutex, s))
          × (get_last_next_address_id s ≡ (err poisoned_mutex, s))
          × (set_last_next_address_id n s ≡ (err poisoned_mutex, s))
    unfolding add get_by_script get_scripts get_last_next_address_id set_last_next_address_id
    poisoned_store j n h = (rw h, rw h, rw h, rw h, rw h)

  or_insert_keyed :
      (lib : Sbtc D R) (d : MonitoredDeposit D R) (m : List (Script × MonitoredDeposit D R))
      → All (λ e. e.0 ≡ to_script_pubkey lib e.1) m
      → All (λ e. e.0 ≡ to_script_pubkey lib e.1) (or_insert (to_script_pubkey lib d) d m)
  unfolding or_insert
  or_insert_keyed lib d [] h = (refl, tt)
  or_insert_keyed lib d ((j, w) ∷ m) h = elim (Bool-cases (j == to_script_pubkey lib d)) [
    | inl same ↦ rw same h
    | inr other ↦ rw other (h.0, or_insert_keyed lib d m h.1)
  ]

  -- Adding a deposit keeps every deposit of the store under its own script.
  pub add-IsKeyed :
      (lib : Sbtc D R) (d : MonitoredDeposit D R) (s : SharedStore D R)
      → IsKeyed lib s
      → IsKeyed lib (add lib d s).1
  unfolding add
  add-IsKeyed lib d s h = elim (Bool-cases (s.poisoned)) [
    | inl poisoned ↦ rw poisoned h
    | inr free ↦ rw free (or_insert_keyed lib d s.monitored h)
  ]

  -- The scripts of a store that can be locked are those that have a deposit.
  pub get_scripts-contains :
      (s : SharedStore D R)
      → s.poisoned ≡ false
      → (scripts : List Script) × (get_scripts s ≡ (ok scripts, s))
        × ((k : Script) → contains scripts k ≡ is_some (deposit_at s k))
  unfolding get_scripts
  get_scripts-contains s h = (map (λ e. e.0) s.monitored, rw h, λ k. contains-keys k s.monitored)

  pub get_by_script_lem :
      (s : SharedStore D R) (k : Script)
      → s.poisoned ≡ false
      → get_by_script k s ≡ (ok (deposit_at s k), s)
  unfolding get_by_script
  get_by_script_lem s k h = rw h
