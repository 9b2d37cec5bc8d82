-- ===== src/Examples/Index.antt =====
-- The index of withdrawals at work: three are indexed, one of them twice, and one is settled.
use spox.Prelude.{
  ℕ, true, Option, none, some, List, [], ◌∷◌, All, nat_beq, if◌then◌else◌, ◌==◌, string_eq, ◌≡◌,
  refl, sym, ap, subst, Bool-cases, inl, inr, arith,
}
use mathlib.Core.List.{Permᴰ}
use spox.Principal.{ContractId, contract, standard, contract_eq}
use spox.Error.{ok}
use spox.Exec.{pure}
use spox.Clarity.{Value, u_int, principal, tuple, optional_some, field, end}
use spox.StacksApi.{StacksApi}
use spox.Withdrawal.{WithdrawalItem}
use spox.Batch.{WithdrawalsBatch, num_withdrawals}
use spox.Batch.Laws.{items_of}
use spox.Batch.Claims.{Callable, items_with}
use spox.RewardClaimRegistry.{get_pending_withdrawal_batches}
use spox.Contracts.WithdrawalIndex.{
  PendingKey, ChainView, WithdrawalIndex, deployed, get_pending_withdrawals, key_eq,
  is_trackable_withdrawal,
}
use spox.Contracts.WithdrawalIndex.Consistency.{
  Indexes, Call, index, settle, run_all, run_all_model, run_all-refines, append_entry, settle_entry,
}
use spox.Contracts.WithdrawalIndex.Answers.{page_value, Serves, IsSigner}
use spox.Contracts.WithdrawalIndex.Listing.{ready_rows, get_pending_withdrawal_batches-ready}
use spox.Contracts.Entries.{entry_at, erase}
use spox.Examples
use spox.Examples.{manager, registry, info}

abbrev key : ℕ → PendingKey
key id = record { staker = standard "dan"; signer_manager = contract manager; request_id = id }

-- At first all requests but one are pending, and later all but another are resolved.
abbrev chain_at : ℕ → ChainView
chain_at height = record {
  burn_block_height = height;
  withdrawal_request = λ id. if nat_beq id 2 then some (some true) else some none;
}

abbrev resolved_at : ℕ → ChainView
resolved_at height = record {
  burn_block_height = height;
  withdrawal_request = λ id. if nat_beq id 5 then some none else some (some true);
}

abbrev calls : List Call
calls =
    index (chain_at 100) (key 1)
    ∷ index (chain_at 101) (key 3)
    ∷ index (chain_at 101) (key 1)
    ∷ index (chain_at 102) (key 5)
    ∷ settle (resolved_at 103) (key 3)
    ∷ settle (resolved_at 103) (key 3)
    ∷ []

run_all-refines_example :
    ((run_all calls deployed).0 ≡ (run_all_model calls []).0)
    × Indexes (run_all calls deployed).1 (run_all_model calls []).1
run_all-refines_example = run_all-refines calls

abbrev state : WithdrawalIndex
state = (run_all calls deployed).1

-- What is left: two entries, of which one is resolved.
abbrev entries : List (PendingKey × ℕ)
entries = (key 1, 100) ∷ (key 5, 102) ∷ []

entries_lem : (run_all_model calls []).1 ≡ entries
unfolding append_entry settle_entry is_trackable_withdrawal entry_at erase
entries_lem = refl

indexed : Indexes state entries
indexed = subst (Indexes state) entries_lem (run_all-refines calls).1

one_signer :
    (k : PendingKey) (height : ℕ) → entry_at k entries ≡ some height → IsSigner (λ j. manager) k
unfolding entry_at
one_signer k height h = elim (Bool-cases (key 1 == k)) [
  | inl first ↦ ap (λ j. j.signer_manager) (sym ((key_eq.beq_iff (key 1) k).0 first))
  | inr other ↦ elim (Bool-cases (key 5 == k)) [
    | inl second ↦ ap (λ j. j.signer_manager) (sym ((key_eq.beq_iff (key 5) k).0 second))
    | inr neither ↦ absurd (cc (rw (other, neither) at h))
  ]
]

-- The key of a cursor, as the contract reads it.
abbrev key_of : Value → Option PendingKey
key_of
      (optional_some (
        tuple (field a (principal staker) (field b (principal signer) (field c (u_int id) end))))) =
    some (record { staker = staker; signer_manager = signer; request_id = id })
key_of _ = none

abbrev cursor_of : List Value → Option PendingKey
cursor_of (v ∷ []) = key_of v
cursor_of _ = none

abbrev node : StacksApi ℕ
node = record Examples.node {
  call_read = λ issuer name function sender args tip.
      pure (page_value (get_pending_withdrawals (resolved_at 120) state (cursor_of args)));
}

serves : Serves node registry (λ tip. resolved_at 120) (λ tip. state)
serves tip none w = refl
serves tip (some k) w = refl

visits : (groups : List (ContractId × List WithdrawalItem)) → Permᴰ groups groups
visits [] = Permᴰ.nil
visits (g ∷ groups) = Permᴰ.cons refl (visits groups)

get_pending_withdrawal_batches-ready_example :
    let rows =
      ready_rows node registry
        (λ tip. resolved_at 120)
        (λ tip. state)
        serves
        info
        entries
        indexed
        (λ k. manager)
        one_signer
        (λ groups. groups) in
    (w' : ℕ) × (batches : List WithdrawalsBatch) × (get_pending_withdrawal_batches node registry
        (λ groups. groups)
        1
        0
      ≡ some (ok batches, w'))
    × All (λ b. Callable registry (num_withdrawals b) b.registry_contract) batches
    × ((c : ContractId)
        → items_of (λ b. b.signer_manager) (λ b. b.items) c batches ≡ items_with c rows)
get_pending_withdrawal_batches-ready_example =
    get_pending_withdrawal_batches-ready node registry (λ tip. resolved_at 120) (λ tip. state)
      serves info entries indexed (λ k. manager) one_signer (λ groups. groups) 0 0 0 refl
      (omega arith) (visits _)
