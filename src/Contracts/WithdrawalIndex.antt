-- ===== src/Contracts/WithdrawalIndex.antt =====
-- The pending withdrawals of the reward-claim registry
-- (contracts/contracts/reward-claim-registry.clar): how they are indexed, settled and listed. What the
-- contract reads of the chain and of sbtc-registry is a parameter. The signer manager that a settlement
-- calls is another contract, which the guard against reentrancy keeps from changing this one.
pub mod Consistency
pub mod Answers
pub mod Listing
use spox.Prelude.{
  ℕ, zero, suc, ◌+◌, Bool, true, false, Option, none, some, List, [], ◌∷◌, ◌++◌, length, ltb, ◌⊎◌,
  inl, inr, Eq, ◌==◌, ◌&&◌, string_eq, nat_eq, if◌then◌else◌, ◌≡◌, ◌↔◌, arith,
}
use spox.Principal.{
  principal_eq, principal_beq, principal_beq_iff, Principal, standard, contract, ContractId,
  contract_eq, contract_beq_iff,
}
use spox.Storage.Laws.{is_some}
use spox.Contracts.{map_set, map_delete}
use spox.Contracts.LinkedList.{LinkedList, empty, ll_append, ll_remove}
use spox.Contracts.LinkedList.Walking.{Page, list_page}

pub record PendingKey : Type 0 where
  pub staker : Principal
  pub signer_manager : Principal
  pub request_id : ℕ

abbrev pub key_beq : PendingKey → PendingKey → Bool
key_beq a b =
    principal_beq a.staker b.staker
    && (principal_beq a.signer_manager b.signer_manager && (a.request_id == b.request_id))

pub key_beq_iff : (a b : PendingKey) → (key_beq a b ≡ true) ↔ (a ≡ b)
key_beq_iff a b = ground (
  arith,
  principal_beq_iff a.staker b.staker,
  principal_beq_iff a.signer_manager b.signer_manager,
  nat_eq.beq_iff a.request_id b.request_id,
)

instance abbrev pub key_eq : Eq PendingKey
key_eq = record { beq = key_beq; beq_iff = key_beq_iff }

-- `burn-block-height`, and the status that `get-withdrawal-request` of sbtc-registry has for an id that
-- it knows: none while it is pending, then whether it was accepted.
pub record ChainView : Type 0 where
  pub burn_block_height : ℕ
  pub withdrawal_request : ℕ → Option (Option Bool)

pub record WithdrawalIndex : Type 0 where
  pub pending_withdrawals : PendingKey → Option ℕ
  pub pending_withdrawal_ll : LinkedList PendingKey

unfoldable pub deployed : WithdrawalIndex
deployed = record { pending_withdrawals = λ key. none; pending_withdrawal_ll = empty }

abbrev pub withdrawal_min_burn_age : ℕ
withdrawal_min_burn_age = 7

abbrev pub is_unresolved : Option (Option Bool) → Bool
is_unresolved none = false
is_unresolved (some none) = true
is_unresolved (some (some accepted)) = false

abbrev pub is_resolved : Option (Option Bool) → Bool
is_resolved none = false
is_resolved (some none) = false
is_resolved (some (some accepted)) = true

unfoldable pub is_trackable_withdrawal : ChainView → ℕ → Bool
is_trackable_withdrawal chain request_id = is_unresolved (chain.withdrawal_request request_id)

unfoldable pub withdrawal_ready_to_list : ChainView → ℕ → ℕ → Bool
withdrawal_ready_to_list chain request_id stored_height =
    if ltb chain.burn_block_height (stored_height + withdrawal_min_burn_age)
    then false
    else is_resolved (chain.withdrawal_request request_id)

unfoldable pub append_pending_withdrawal :
    ChainView → PendingKey → WithdrawalIndex → Option ℕ × WithdrawalIndex
unfolding is_trackable_withdrawal ll_append
append_pending_withdrawal chain full_key s =
    if is_trackable_withdrawal chain full_key.request_id
    then if is_some (s.pending_withdrawals full_key) then (some full_key.request_id, s) else (
      some full_key.request_id,
      record {
        pending_withdrawals = map_set full_key chain.burn_block_height s.pending_withdrawals;
        pending_withdrawal_ll = (ll_append full_key s.pending_withdrawal_ll).1;
      },
    )
    else (none, s)

unfoldable pub remove_pending_withdrawal : PendingKey → WithdrawalIndex → Bool × WithdrawalIndex
unfolding ll_remove
remove_pending_withdrawal key s =
    let (removed, list) = ll_remove key s.pending_withdrawal_ll in
    (
      removed,
      record {
        pending_withdrawals = map_delete key s.pending_withdrawals;
        pending_withdrawal_ll = list;
      },
    )

abbrev pub err_unknown_pending_withdrawal : ℕ
err_unknown_pending_withdrawal = 607

abbrev pub settle_by_status :
    Option (Option Bool) → PendingKey → WithdrawalIndex → (ℕ ⊎ Bool) × WithdrawalIndex
settle_by_status none key s = (inr true, (remove_pending_withdrawal key s).1)
settle_by_status (some none) key s = (inr false, s)
settle_by_status (some (some accepted)) key s = (inr true, (remove_pending_withdrawal key s).1)

-- settle-pending-withdrawal-impl, where a left result is the code of an error.
unfoldable pub settle_pending_withdrawal :
    ChainView → PendingKey → WithdrawalIndex → (ℕ ⊎ Bool) × WithdrawalIndex
unfolding remove_pending_withdrawal
settle_pending_withdrawal chain key s =
    if is_some (s.pending_withdrawals key)
    then settle_by_status (chain.withdrawal_request key.request_id) key s
    else (inl err_unknown_pending_withdrawal, s)

abbrev count_resolved : ℕ ⊎ Bool → ℕ → ℕ
count_resolved (inr true) resolved = resolved + 1
count_resolved (inr false) resolved = resolved
count_resolved (inl code) resolved = resolved

-- The fold of settle-pending-withdrawals with count-settlement over the items, whose keys name one
-- signer manager.
unfoldable pub settle_pending_withdrawals :
    ChainView → List PendingKey → ℕ → WithdrawalIndex → ℕ × WithdrawalIndex
unfolding settle_pending_withdrawal
settle_pending_withdrawals chain [] resolved s = (resolved, s)
settle_pending_withdrawals chain (key ∷ keys) resolved s =
    let (result, s') = settle_pending_withdrawal chain key s in
    settle_pending_withdrawals chain keys (count_resolved result resolved) s'

-- The row of a key: its key if the withdrawal can be settled, and its key with the height for the list
-- of all.
abbrev pub ready_row : ChainView → PendingKey → Option ℕ → Option PendingKey
ready_row chain key none = none
ready_row chain key (some stored_height) =
    if withdrawal_ready_to_list chain key.request_id stored_height then some key else none

unfoldable pub pending_withdrawals_row :
    ChainView → WithdrawalIndex → PendingKey → Option PendingKey
unfolding withdrawal_ready_to_list
pending_withdrawals_row chain s key = ready_row chain key (s.pending_withdrawals key)

unfoldable pub get_pending_withdrawals :
    ChainView → WithdrawalIndex → Option PendingKey → Page PendingKey PendingKey
unfolding pending_withdrawals_row list_page
get_pending_withdrawals chain s cursor =
    list_page s.pending_withdrawal_ll (pending_withdrawals_row chain s) cursor

abbrev height_row : PendingKey → Option ℕ → Option (PendingKey × ℕ)
height_row key none = none
height_row key (some stored_height) = some (key, stored_height)

unfoldable pub get_withdrawals :
    WithdrawalIndex → Option PendingKey → Page PendingKey (PendingKey × ℕ)
unfolding list_page
get_withdrawals s cursor =
    list_page s.pending_withdrawal_ll (λ key. height_row key (s.pending_withdrawals key)) cursor
