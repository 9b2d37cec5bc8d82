-- ===== src/Contracts/WithdrawalIndex/Consistency.antt =====
-- The index of pending withdrawals against its entries in the order of their insertion.
use spox.Prelude.{
  ℕ, Bool, true, false, Option, none, some, List, [], ◌∷◌, ◌++◌, ◌⊎◌, inl, inr, if◌then◌else◌,
  Bool-cases, Option-cases, ◌≡◌, refl, ap,
}
use spox.Storage.Laws.{is_some}
use spox.Contracts.Tracking.{Tracks, empty-Tracks, append-Tracks, remove-Tracks}
use spox.Contracts.Entries.{entry_at, erase}
use spox.Contracts.WithdrawalIndex.{
  PendingKey, key_eq, ChainView, WithdrawalIndex, deployed, is_trackable_withdrawal,
  append_pending_withdrawal, remove_pending_withdrawal, settle_by_status, settle_pending_withdrawal,
  err_unknown_pending_withdrawal,
}

abbrev pub Indexes : WithdrawalIndex → List (PendingKey × ℕ) → Type 0
Indexes s entries = Tracks s.pending_withdrawals s.pending_withdrawal_ll entries

pub deployed-Indexes : Indexes deployed []
unfolding deployed
deployed-Indexes = empty-Tracks

-- What the contract's functions do to the entries.
unfoldable pub append_entry :
    ChainView → PendingKey → List (PendingKey × ℕ) → Option ℕ × List (PendingKey × ℕ)
append_entry chain key entries =
    if is_trackable_withdrawal chain key.request_id
    then if is_some (entry_at key entries)
      then (some key.request_id, entries)
      else (some key.request_id, entries ++ (key, chain.burn_block_height) ∷ [])
    else (none, entries)

abbrev pub settled_by_status :
    Option (Option Bool) → PendingKey → List (PendingKey × ℕ) → (ℕ ⊎ Bool) × List (PendingKey × ℕ)
settled_by_status none key entries = (inr true, erase key entries)
settled_by_status (some none) key entries = (inr false, entries)
settled_by_status (some (some accepted)) key entries = (inr true, erase key entries)

unfoldable pub settle_entry :
    ChainView → PendingKey → List (PendingKey × ℕ) → (ℕ ⊎ Bool) × List (PendingKey × ℕ)
settle_entry chain key entries =
    if is_some (entry_at key entries)
    then settled_by_status (chain.withdrawal_request key.request_id) key entries
    else (inl err_unknown_pending_withdrawal, entries)

removed_lem :
    (key : PendingKey) (s : WithdrawalIndex) (entries : List (PendingKey × ℕ))
    → Indexes s entries
    → Indexes (remove_pending_withdrawal key s).1 (erase key entries)
unfolding remove_pending_withdrawal
removed_lem key s entries h =
    remove-Tracks key s.pending_withdrawals s.pending_withdrawal_ll entries h

-- A call that was answered, with what it leaves.
pub record Agrees {A : Type 0} (call : A × WithdrawalIndex) (model : A × List (PendingKey × ℕ))
    : Type 0 where
  pub same_answer : call.0 ≡ model.0
  pub indexes : Indexes call.1 model.1

append-Agrees :
    (chain : ChainView) (key : PendingKey) (s : WithdrawalIndex) (entries : List (PendingKey × ℕ))
    → Indexes s entries
    → Agrees (append_pending_withdrawal chain key s) (append_entry chain key entries)
unfolding append_pending_withdrawal append_entry
append-Agrees chain key s entries h =
    elim (Bool-cases (is_trackable_withdrawal chain key.request_id)) [
      | inr skipped ↦ rw skipped (record { same_answer = refl; indexes = h })
      | inl tracked ↦ elim (Option-cases (entry_at key entries)) [
        | inl new ↦
            rw (tracked, h.stored key, new)
              (record {
                same_answer = refl;
                indexes =
                    append-Tracks key s.pending_withdrawals s.pending_withdrawal_ll entries h
                      chain.burn_block_height new;
              })
        | inr (height, old) ↦
            rw (tracked, h.stored key, old) (record { same_answer = refl; indexes = h })
      ]
    ]

settle-Agrees :
    (chain : ChainView) (key : PendingKey) (s : WithdrawalIndex) (entries : List (PendingKey × ℕ))
    → Indexes s entries
    → Agrees (settle_pending_withdrawal chain key s) (settle_entry chain key entries)
unfolding settle_pending_withdrawal settle_entry
settle-Agrees chain key s entries h = elim (Option-cases (entry_at key entries)) [
  | inl unknown ↦ rw (h.stored key, unknown) (record { same_answer = refl; indexes = h })
  | inr (height, known) ↦
      rw (h.stored key, known) (by_status (chain.withdrawal_request key.request_id))
]
  where
    by_status :
        (status : Option (Option Bool))
        → Agrees (settle_by_status status key s) (settled_by_status status key entries)
    by_status none = record { same_answer = refl; indexes = removed_lem key s entries h }
    by_status (some none) = record { same_answer = refl; indexes = h }
    by_status (some (some accepted)) = record {
      same_answer = refl;
      indexes = removed_lem key s entries h;
    }

-- A call that changes the index, with what the contract sees of the chain then.
pub data Call : Type 0 where
  index : ChainView → PendingKey → Call
  settle : ChainView → PendingKey → Call

abbrev pub Answer : Type 0
Answer = Option ℕ ⊎ (ℕ ⊎ Bool)

abbrev pub tagged : {A B S : Type 0} → (A → B) → A × S → B × S
tagged f (a, s) = (f a, s)

abbrev pub run : Call → WithdrawalIndex → Answer × WithdrawalIndex
run (index chain key) s = tagged inl (append_pending_withdrawal chain key s)
run (settle chain key) s = tagged inr (settle_pending_withdrawal chain key s)

abbrev pub run_model : Call → List (PendingKey × ℕ) → Answer × List (PendingKey × ℕ)
run_model (index chain key) entries = tagged inl (append_entry chain key entries)
run_model (settle chain key) entries = tagged inr (settle_entry chain key entries)

abbrev pub run_all : List Call → WithdrawalIndex → List Answer × WithdrawalIndex
run_all [] s = ([], s)
run_all (c ∷ calls) s =
    let (answer, s') = run c s in let (answers, s'') = run_all calls s' in (answer ∷ answers, s'')

abbrev pub run_all_model : List Call → List (PendingKey × ℕ) → List Answer × List (PendingKey × ℕ)
run_all_model [] entries = ([], entries)
run_all_model (c ∷ calls) entries =
    let (answer, entries') = run_model c entries in
    let (answers, entries'') = run_all_model calls entries' in (answer ∷ answers, entries'')

run-Agrees :
    (c : Call) (s : WithdrawalIndex) (entries : List (PendingKey × ℕ))
    → Indexes s entries
    → Agrees (run c s) (run_model c entries)
run-Agrees (index chain key) s entries h =
    let agrees = append-Agrees chain key s entries h in
    record { same_answer = ap inl agrees.same_answer; indexes = agrees.indexes }
run-Agrees (settle chain key) s entries h =
    let agrees = settle-Agrees chain key s entries h in
    record { same_answer = ap inr agrees.same_answer; indexes = agrees.indexes }

run_all-Agrees :
    (calls : List Call) (s : WithdrawalIndex) (entries : List (PendingKey × ℕ))
    → Indexes s entries
    → ((run_all calls s).0 ≡ (run_all_model calls entries).0)
      × Indexes (run_all calls s).1 (run_all_model calls entries).1
run_all-Agrees [] s entries h = (refl, h)
run_all-Agrees (c ∷ calls) s entries h =
    let agrees = run-Agrees c s entries h in
    let (answers, indexes) =
      run_all-Agrees calls (run c s).1 (run_model c entries).1 agrees.indexes in
    (rw (agrees.same_answer, answers), indexes)

-- However withdrawals are indexed and settled since the contract was deployed, each call answers as if
-- the index were a list of entries in the order of their insertion, each key once, and the data map and
-- the doubly linked list hold just those entries, in that order.
pub run_all-refines :
    (calls : List Call)
    → ((run_all calls deployed).0 ≡ (run_all_model calls []).0)
      × Indexes (run_all calls deployed).1 (run_all_model calls []).1
run_all-refines calls = run_all-Agrees calls deployed [] deployed-Indexes
