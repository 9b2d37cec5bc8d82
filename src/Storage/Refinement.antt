-- ===== src/Storage/Refinement.antt =====
-- The store against the map that it stands for: a function from scripts to deposits, with the next id.
use mathlib.Core.Path.{fun_ext}
use spox.Prelude.{
  ℕ, Bool, false, Option, none, some, List, [], ◌∷◌, ◌==◌, nat_eq, list_eq, contains, if◌then◌else◌,
  ◌≡◌, refl, ap, ◌∙◌,
}
use spox.Error.{Result, ok, err}
use spox.Sbtc.{Script, Sbtc}
use spox.Storage.{
  MonitoredDeposit, SharedStore, to_script_pubkey, add, get_by_script, get_scripts,
  set_last_next_address_id, get_last_next_address_id, new_shared, find,
}
use spox.Storage.Laws.{
  or_else, is_some, deposit_at, add-deposit_at, get_scripts-contains, get_by_script_lem,
}

-- The operations of the trait `Storage`, and what they answer.
pub data Operation (D R : Type 0) : Type 0 where
  add_deposit : MonitoredDeposit D R → Operation D R
  by_script : Script → Operation D R
  scripts : Operation D R
  last_id : Operation D R
  set_last_id : ℕ → Operation D R

-- The scripts are answered as a test: a `HashMap` gives its keys in any order.
pub data Answer (D R : Type 0) : Type 0 where
  nothing : Answer D R
  found : Option (MonitoredDeposit D R) → Answer D R
  known : (Script → Bool) → Answer D R
  id : ℕ → Answer D R

-- The abstract store.
pub record DepositMap (D R : Type 0) : Type 0 where
  pub deposit_of : Script → Option (MonitoredDeposit D R)
  pub next_id : ℕ

module _ {D R : Type 0} where
  -- The map that a store stands for.
  abbrev pub map_of : SharedStore D R → DepositMap D R
  map_of s = record { deposit_of = deposit_at s; next_id = s.last_next_address_id }

  abbrev pub empty_map : DepositMap D R
  empty_map = record { deposit_of = λ k. none; next_id = 0 }

module _ {D R : Type 0} (lib : Sbtc D R) where
  abbrev answer :
      {A : Type 0}
      → (A → Answer D R)
      → Result A × SharedStore D R
      → Result (Answer D R) × SharedStore D R
  answer view (ok a, s) = (ok (view a), s)
  answer view (err e, s) = (err e, s)

  -- An operation as the code runs it.
  abbrev pub perform : Operation D R → SharedStore D R → Result (Answer D R) × SharedStore D R
  perform (add_deposit d) s = answer (λ _. nothing) (add lib d s)
  perform (by_script k) s = answer found (get_by_script k s)
  perform scripts s = answer (λ ks. known (contains ks)) (get_scripts s)
  perform last_id s = answer id (get_last_next_address_id s)
  perform (set_last_id n) s = answer (λ _. nothing) (set_last_next_address_id n s)

  -- What it means on the map: the first deposit under a script stays.
  abbrev pub meaning : Operation D R → DepositMap D R → Answer D R × DepositMap D R
  meaning (add_deposit d) m = (
    nothing,
    record m {
      deposit_of = λ k.
          if to_script_pubkey lib d == k
          then some (or_else (m.deposit_of (to_script_pubkey lib d)) d)
          else m.deposit_of k;
    },
  )
  meaning (by_script k) m = (found (m.deposit_of k), m)
  meaning scripts m = (known (λ k. is_some (m.deposit_of k)), m)
  meaning last_id m = (id m.next_id, m)
  meaning (set_last_id n) m = (nothing, record m { next_id = n })

  abbrev pub perform_all :
      List (Operation D R) → SharedStore D R → List (Result (Answer D R)) × SharedStore D R
  perform_all [] s = ([], s)
  perform_all (o ∷ os) s =
      let (r, s') = perform o s in let (rs, s'') = perform_all os s' in (r ∷ rs, s'')

  abbrev pub meaning_of_all :
      List (Operation D R) → DepositMap D R → List (Result (Answer D R)) × DepositMap D R
  meaning_of_all [] m = ([], m)
  meaning_of_all (o ∷ os) m =
      let (a, m') = meaning o m in let (as', m'') = meaning_of_all os m' in (ok a ∷ as', m'')

  record Refines (o : Operation D R) (s : SharedStore D R) : Type 0 where
    answers : (perform o s).0 ≡ ok (meaning o (map_of s)).0
    moves : map_of (perform o s).1 ≡ (meaning o (map_of s)).1
    stays_free : (perform o s).1.poisoned ≡ false

  answered_lem :
      {A : Type 0} (view : A → Answer D R) (p : Result A × SharedStore D R) (a : A)
      → p.0 ≡ ok a
      → answer view p ≡ (ok (view a), p.1)
  answered_lem view p a e = rw e

  map_path : {m n : DepositMap D R} → m.deposit_of ≡ n.deposit_of → m.next_id ≡ n.next_id → m ≡ n
  map_path p q = λ i. record { deposit_of = p i; next_id = q i }

  -- From what the operation returns, leaves in the map, and leaves of the lock.
  refines :
      {A : Type 0} (o : Operation D R) (s : SharedStore D R) (view : A → Answer D R)
      (p : Result A × SharedStore D R) (a : A)
      → perform o s ≡ answer view p
      → p.0 ≡ ok a
      → view a ≡ (meaning o (map_of s)).0
      → map_of p.1 ≡ (meaning o (map_of s)).1
      → p.1.poisoned ≡ false
      → Refines o s
  refines o s view p a runs done says moves free =
      let ran : perform o s ≡ (ok (view a), p.1) = runs ∙ answered_lem view p a done in
      record {
        answers = ap (λ r. r.0) ran ∙ ap ok says;
        moves = ap (λ r. map_of r.1) ran ∙ moves;
        stays_free = ap (λ r. r.1.poisoned) ran ∙ free;
      }

  set_last_id_lem :
      (n : ℕ) (s : SharedStore D R)
      → s.poisoned ≡ false
      → set_last_next_address_id n s
        ≡ (ok tt, record s { store = record (s.store) { last_next_address_id = n } })
  unfolding set_last_next_address_id
  set_last_id_lem n s h = rw h

  last_id_lem :
      (s : SharedStore D R)
      → s.poisoned ≡ false
      → get_last_next_address_id s ≡ (ok s.last_next_address_id, s)
  unfolding get_last_next_address_id
  last_id_lem s h = rw h

  perform-Refines : (o : Operation D R) (s : SharedStore D R) → s.poisoned ≡ false → Refines o s
  perform-Refines (add_deposit d) s h =
      let (_, done, same_id, free) = add-deposit_at lib d s [] h in
      refines (add_deposit d) s (λ _. nothing) (add lib d s) tt refl done refl
        (map_path (fun_ext λ k. (add-deposit_at lib d s k h).0) same_id) free
  perform-Refines (by_script k) s h =
      refines (by_script k) s found (ok (deposit_at s k), s) (deposit_at s k)
        (ap (answer found) (get_by_script_lem s k h)) refl refl refl h
  perform-Refines scripts s h =
      let (ks, got, tests) = get_scripts-contains s h in
      refines scripts s (λ ks. known (contains ks)) (ok ks, s) ks
        (ap (answer (λ ks. known (contains ks))) got) refl (ap known (fun_ext tests)) refl h
  perform-Refines last_id s h =
      refines last_id s id (ok s.last_next_address_id, s) s.last_next_address_id
        (ap (answer id) (last_id_lem s h)) refl refl refl h
  perform-Refines (set_last_id n) s h =
      refines (set_last_id n) s (λ _. nothing)
        (ok tt, record s { store = record (s.store) { last_next_address_id = n } }) tt
        (ap (answer (λ _. nothing)) (set_last_id_lem n s h)) refl refl refl h

  perform_all_lem :
      (os : List (Operation D R)) (s : SharedStore D R)
      → s.poisoned ≡ false
      → ((perform_all os s).0 ≡ (meaning_of_all os (map_of s)).0)
        × (map_of (perform_all os s).1 ≡ (meaning_of_all os (map_of s)).1)
  perform_all_lem [] s h = (refl, refl)
  perform_all_lem (o ∷ os) s h =
      let step = perform-Refines o s h in
      let (said, left) = perform_all_lem os (perform o s).1 step.stays_free in
      let moved : meaning_of_all os (map_of (perform o s).1)
          ≡ meaning_of_all os (meaning o (map_of s)).1 =
        ap (meaning_of_all os) step.moves in
      (cc (said, step.answers, step.moves), left ∙ ap (λ r. r.1) moved)

  -- Any sequence of operations on a new store answers as it does on the empty map, on which the first
  -- deposit that is added under a script stays, and leaves the store at what it leaves the map at.
  pub perform_all-refines :
      (os : List (Operation D R))
      → ((perform_all os new_shared).0 ≡ (meaning_of_all os empty_map).0)
        × (map_of (perform_all os new_shared).1 ≡ (meaning_of_all os empty_map).1)
  unfolding new_shared find
  perform_all-refines os = perform_all_lem os new_shared refl
