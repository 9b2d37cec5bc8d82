-- ===== src/Examples/Stores.antt =====
-- The store against its map, and the monitor's memory, at work.
use spox.Prelude.{
  contains, true, ℕ, zero, suc, ◌+◌, ◌≤◌, ◌<◌, String, none, some, List, [], ◌∷◌, nat_eq, string_eq,
  pair_eq, beq_self, nat_beq, list_eq, if◌then◌else◌, ◌≡◌, refl, arith,
}
use spox.Error.{ok, err, deposit_expired}
use spox.Exec.{Exec, pure}
use spox.Storage.{new_shared}
use spox.Storage.Refinement.{
  Operation, add_deposit, by_script, scripts, set_last_id, last_id, perform_all, meaning_of_all,
  map_of, empty_map, perform_all-refines,
}
use spox.DepositMonitor.{
  LruCache, CreateDepositRequestBody, MonitorState, pending_deposit, get_pending_deposits,
}
use spox.DepositProcess.{process_block, process_monitored_deposits}
use spox.BitcoinApi.{BitcoinApi}
use spox.DepositProcess.Remembering.{sent_in, taken_in, process_monitored_deposits-skips}
use spox.DepositProcess.Marking.{Remembers}
use spox.Examples.Deposits.{lib, bitcoin, hexes, tip, utxo, get, deposit, second, shared}

-- Two deposits under one script.
abbrev operations : List (Operation (List ℕ) ℕ)
operations =
    add_deposit deposit
    ∷ add_deposit second
    ∷ by_script (5 ∷ [])
    ∷ set_last_id 7
    ∷ last_id
    ∷ scripts
    ∷ []

perform_all-refines_example :
    ((perform_all lib operations new_shared).0 ≡ (meaning_of_all lib operations empty_map).0)
    × (map_of (perform_all lib operations new_shared).1
        ≡ (meaning_of_all lib operations empty_map).1)
perform_all-refines_example = perform_all-refines lib operations

-- A cache of some places: it forgets everything when it is full.
abbrev Places : Type 0
Places = List ((String × ℕ) × Unit {0}) × ℕ

abbrev put_in : String × ℕ → Places → Places
put_in k (entries, zero) = ((k, tt) ∷ [], zero)
put_in k (entries, suc left) = ((k, tt) ∷ entries, left)

abbrev places : LruCache Places (String × ℕ) (Unit {0})
places = record { get = λ k m. (get pair_eq k m.0, m); put = λ k v m. put_in k m }

found_lem :
    (j k : String × ℕ) (entries : List ((String × ℕ) × Unit {0}))
    → get pair_eq j entries ≡ some tt
    → get pair_eq j ((k, tt) ∷ entries) ≡ some tt
found_lem j k entries h = ground (arith, h)

first_lem :
    (k : String × ℕ) (entries : List ((String × ℕ) × Unit {0}))
    → get pair_eq k ((k, tt) ∷ entries) ≡ some tt
first_lem k entries = rw (beq_self pair_eq k)

remembers : Remembers places
remembers = record {
  room = λ m. m.1;
  put_same = λ k (entries, left). same k entries left;
  put_other = λ j k (entries, left). other j k entries left;
  put_room = λ k (entries, left). one k entries left;
  get_same = λ j k m. refl;
  get_room = λ k m. refl;
}
  where
    same :
        (k : String × ℕ) (entries : List ((String × ℕ) × Unit {0})) (left : ℕ)
        → get pair_eq k (put_in k (entries, left)).0 ≡ some tt
    same k entries zero = first_lem k []
    same k entries (suc left) = first_lem k entries

    other :
        (j k : String × ℕ) (entries : List ((String × ℕ) × Unit {0})) (left : ℕ)
        → 0 < left
        → get pair_eq j entries ≡ some tt
        → get pair_eq j (put_in k (entries, left)).0 ≡ some tt
    other j k entries zero some_left h = absurd (omega (arith, some_left))
    other j k entries (suc left) some_left h = found_lem j k entries h

    one :
        (k : String × ℕ) (entries : List ((String × ℕ) × Unit {0})) (left : ℕ)
        → left ≤ (put_in k (entries, left)).1 + 1
    one k entries zero = omega arith
    one k entries (suc left) = omega arith

-- Emily takes the first request, and no other.
abbrev emily : CreateDepositRequestBody → Exec ℕ (Unit {0})
emily body n = (if nat_beq n 0 then ok tt else err deposit_expired, suc n)

abbrev start : MonitorState ℕ (List ((String × String) × String)) Places (List ℕ) ℕ
start = record { world = 0; shared = shared; tx_hex_cache = []; created_deposits = ([], 3) }

-- The node has two outputs of the monitored script.
abbrev two_outputs : BitcoinApi ℕ
two_outputs = record bitcoin {
  scan_tx_out_set = λ scripts. pure (utxo "a" (5 ∷ []) 100 ∷ utxo "b" (5 ∷ []) 100 ∷ []);
}

-- Two requests in the first block, and the one that Emily refused in the second.
three_sent :
    sent_in lib two_outputs hexes places emily none none (λ n. none) (tip ∷ tip ∷ []) start ≡ 3
unfolding process_block spox.Storage.get_scripts spox.DepositMonitor.get_deposit_from_utxo
    spox.Storage.get_by_script
three_sent = refl

a_taken :
    contains
      (taken_in lib two_outputs hexes places emily none none (λ n. none) (tip ∷ tip ∷ []) start)
      ("a", 0)
    ≡ true
unfolding process_block spox.Storage.get_scripts spox.DepositMonitor.get_deposit_from_utxo
    spox.Storage.get_by_script
a_taken = refl

process_monitored_deposits-skips_example :
    (pending_deposit lib two_outputs hexes places (utxo "a" (5 ∷ []) 100) tip (
      process_monitored_deposits lib two_outputs hexes places emily none none
        (λ n. none)
        (tip ∷ tip ∷ [])
        start)).0
    ≡ none
unfolding remembers
process_monitored_deposits-skips_example =
    process_monitored_deposits-skips lib two_outputs hexes places emily remembers none none
      (λ n. none) (tip ∷ tip ∷ []) start (utxo "a" (5 ∷ []) 100) tip (omega (arith, three_sent))
      a_taken
