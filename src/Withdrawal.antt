-- ===== src/Withdrawal.antt =====
-- Rows and pages of `get-pending-withdrawals` (src/stacks/reward_claim_registry.rs). Keys and items
-- are kept as the Clarity tuples that they are sent as. An accessor is `none` where the source has
-- `unreachable!`.
pub mod Decoding
use spox.Prelude.{ℕ, Option, none, some, List}
use spox.Principal.{Principal, ContractId, contract}
use spox.Error.{Result}
use spox.Result
use spox.Exec.{pure, lift, ◌>>=◌}
use spox.Clarity.{
  Value, u_int, principal, tuple, optional_none, optional_some, Fields, end, field, lookup, read,
  remove_list, remove_option, remove_principal, remove_uint,
}
use spox.Claim.{expect_contract}

pub record WithdrawalKey : Type 0 where
  pub fields : Fields

unfoldable pub withdrawal_key_new : Principal → Principal → ℕ → WithdrawalKey
withdrawal_key_new staker signer_manager request_id = record {
  fields = field "staker" (principal staker) (
      field "signer-manager" (principal signer_manager)
        (field "request-id" (u_int request_id) end));
}

pub record WithdrawalItem : Type 0 where
  pub fields : Fields

unfoldable pub withdrawal_item_new : Principal → ℕ → WithdrawalItem
withdrawal_item_new staker request_id = record {
  fields = field "staker" (principal staker) (field "request-id" (u_int request_id) end);
}

abbrev if_principal : Option Value → Option Principal
if_principal (some (principal p)) = some p
if_principal _ = none

abbrev if_uint : Option Value → Option ℕ
if_uint (some (u_int n)) = some n
if_uint _ = none

unfoldable pub item_staker : WithdrawalItem → Option Principal
unfolding lookup
item_staker item = if_principal (lookup "staker" item.fields)

unfoldable pub item_request_id : WithdrawalItem → Option ℕ
unfolding lookup
item_request_id item = if_uint (lookup "request-id" item.fields)

pub record PendingWithdrawal : Type 0 where
  pub signer_manager : ContractId
  pub item : WithdrawalItem

abbrev key_of : ContractId → Option Principal → Option ℕ → Option WithdrawalKey
key_of signer (some staker) (some request_id) =
    some (withdrawal_key_new staker (contract signer) request_id)
key_of signer _ _ = none

unfoldable pub withdrawal_key : PendingWithdrawal → Option WithdrawalKey
unfolding item_staker item_request_id
withdrawal_key w = key_of w.signer_manager (item_staker w.item) (item_request_id w.item)

pub record PendingWithdrawalsPage : Type 0 where
  pub withdrawals : List PendingWithdrawal
  pub next : Option WithdrawalKey

unfoldable pub withdrawal_key_try_from : Value → Result WithdrawalKey
unfolding read
withdrawal_key_try_from = read do
  staker ← remove_principal "staker"
  signer_manager ← remove_principal "signer-manager"
  request_id ← remove_uint "request-id"
  pure (withdrawal_key_new staker signer_manager request_id)

unfoldable pub pending_withdrawal_try_from : Value → Result PendingWithdrawal
unfolding read
pending_withdrawal_try_from = read do
  signer ← remove_principal "signer-manager"
  signer_manager ← lift (expect_contract signer)
  staker ← remove_principal "staker"
  request_id ← remove_uint "request-id"
  pure (record { signer_manager = signer_manager; item = withdrawal_item_new staker request_id })

unfoldable pub pending_withdrawals_page_try_from : Value → Result PendingWithdrawalsPage
unfolding read
pending_withdrawals_page_try_from = read do
  rows ← remove_list "rows"
  withdrawals ← lift (Result.collect pending_withdrawal_try_from rows)
  cursor ← remove_option "next"
  next ← lift (Result.transpose_map withdrawal_key_try_from cursor)
  pure (record { withdrawals = withdrawals; next = next })

-- The argument of `get-pending-withdrawals`: `none`, or the key's tuple as `some`.
unfoldable pub cursor_arg : Option WithdrawalKey → Value
cursor_arg none = optional_none
cursor_arg (some key) = optional_some (tuple key.fields)
