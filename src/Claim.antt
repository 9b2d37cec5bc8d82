-- ===== src/Claim.antt =====
-- Rows and pages of `get-pending-claims` (src/stacks/reward_claim_registry.rs), and their decoding
-- from Clarity values.
pub mod Decoding
use spox.Prelude.{ℕ, String, Option, none, some, List}
use spox.Principal.{Principal, ContractId, standard, contract}
use spox.Error.{Error, Result, ok, err, invalid_stacks_response, unexpected_principal}
use spox.Result
use spox.Exec.{pure, lift, ◌>>=◌}
use spox.Clarity.{
  Value, u_int, principal, tuple, optional_none, optional_some, end, field, read, remove_list,
  remove_option, remove_principal, remove_uint,
}

pub record RegistrationKey : Type 0 where
  pub staker : Principal
  pub signer_manager : Principal

pub record PendingClaim : Type 0 where
  pub signer_manager : ContractId
  pub staker : Principal
  pub bond_index : Option ℕ
  pub reward_cycle : ℕ

unfoldable pub registration_key : PendingClaim → RegistrationKey
registration_key c = record { staker = c.staker; signer_manager = contract c.signer_manager }

pub record PendingClaimsPage : Type 0 where
  pub claims : List PendingClaim
  pub next : Option RegistrationKey

unfoldable pub registration_key_try_from : Value → Result RegistrationKey
registration_key_try_from = read do
  staker ← remove_principal "staker"
  signer_manager ← remove_principal "signer-manager"
  pure (record { staker = staker; signer_manager = signer_manager })

-- A bond index is present for bonded stakes only.
abbrev pub as_bond_index : Value → Result ℕ
as_bond_index (u_int index) = ok index
as_bond_index _ = err (invalid_stacks_response "bond-index was not a uint")

-- `let PrincipalData::Contract(signer_manager) = signer_manager else { … }`
abbrev pub expect_contract : Principal → Result ContractId
expect_contract (contract c) = ok c
expect_contract (standard a) = err (unexpected_principal (standard a))

unfoldable pub pending_claim_try_from : Value → Result PendingClaim
pending_claim_try_from = read do
  bond ← remove_option "bond-index"
  bond_index ← lift (Result.transpose_map as_bond_index bond)
  signer ← remove_principal "signer-manager"
  signer_manager ← lift (expect_contract signer)
  staker ← remove_principal "staker"
  reward_cycle ← remove_uint "reward-cycle"
  pure (record {
    signer_manager = signer_manager;
    staker = staker;
    bond_index = bond_index;
    reward_cycle = reward_cycle;
  })

unfoldable pub pending_claims_page_try_from : Value → Result PendingClaimsPage
pending_claims_page_try_from = read do
  rows ← remove_list "rows"
  claims ← lift (Result.collect pending_claim_try_from rows)
  cursor ← remove_option "next"
  next ← lift (Result.transpose_map registration_key_try_from cursor)
  pure (record { claims = claims; next = next })

-- The argument of `get-pending-claims`: `none`, or the key as `some` tuple.
unfoldable pub cursor_arg : Option RegistrationKey → Value
cursor_arg none = optional_none
cursor_arg (some key) = optional_some (
    tuple (
      field "staker" (principal key.staker)
        (field "signer-manager" (principal key.signer_manager) end)))
