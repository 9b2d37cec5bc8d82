-- ===== src/Contracts/Registrations.antt =====
-- The registrations of the reward-claim registry (contracts/contracts/reward-claim-registry.clar): how
-- they are made, extended, cancelled, advanced and listed. What the contract reads of pox-5 and the
-- transfers of STX are parameters. A left result is the code of an error, which keeps what was changed
-- before it, as in the batches, which go on after it; `none` is a runtime error, which undoes the whole
-- transaction. The guard against reentrancy is left out: it is down between transactions.
pub mod Operations
pub mod Pending
pub mod Registered
pub mod Kept
pub mod Runs
pub mod Listing
use spox.Prelude.{
  ℕ, zero, suc, ◌+◌, ◌*◌, ◌-◌, ◌/◌, Bool, true, false, not, Option, none, some, ◌⊎◌, inl, inr, ltb,
  leb, Eq, ◌==◌, ◌&&◌, ◌||◌, nat_beq, if◌then◌else◌, ◌≡◌, ◌↔◌, arith,
}
use spox.Principal.{Principal, ContractId, contract, principal_eq, principal_beq, principal_beq_iff}
use spox.Storage.Laws.{is_some}
use spox.Claim.{RegistrationKey}
use spox.Contracts.{map_set, map_delete, uint_limit}
use spox.Contracts.LinkedList.{LinkedList, empty, ll_append, ll_remove}
use spox.Contracts.LinkedList.Walking.{Page, list_page}

abbrev pub key_beq : RegistrationKey → RegistrationKey → Bool
key_beq a b = principal_beq a.staker b.staker && principal_beq a.signer_manager b.signer_manager

pub key_beq_iff : (a b : RegistrationKey) → (key_beq a b ≡ true) ↔ (a ≡ b)
key_beq_iff a b = ground (
  arith,
  principal_beq_iff a.staker b.staker,
  principal_beq_iff a.signer_manager b.signer_manager,
)

instance abbrev pub key_eq : Eq RegistrationKey
key_eq = record { beq = key_beq; beq_iff = key_beq_iff }

pub record Registration : Type 0 where
  pub bond_index : Option ℕ
  pub remaining_claims : ℕ
  pub one_claim_per_reward_cycle : Bool
  pub next_claim_distribution : ℕ
  pub prepaid_ustx : ℕ
  pub sponsor : Principal

-- What the contract reads of pox-5: the signer manager and the bond index of a staker's bond, the
-- signer manager and the first reward cycle of a stake, and where the cycles are.
pub record PoxView : Type 0 where
  pub bond_membership : Principal → Option (Principal × ℕ)
  pub staker_info : Principal → Option (Principal × ℕ)
  pub bond_period_to_reward_cycle : ℕ → ℕ
  pub current_distribution_cycle : ℕ
  pub last_reward_compute_height : ℕ
  pub burn_height_to_distribution_index : ℕ → ℕ

-- `stx-transfer?` and `stx-burn?`, over the balances.
pub record Stx (L : Type 0) : Type 0 where
  pub transfer : (amount : ℕ) (from to : Principal) → L → ℕ ⊎ L
  pub burn : (amount : ℕ) (from : Principal) → L → ℕ ⊎ L

pub record RegistrationState (L : Type 0) : Type 0 where
  pub admins : Principal → Option Bool
  pub fee_per_claim : ℕ
  pub registrations : RegistrationKey → Option Registration
  pub registration_ll : LinkedList RegistrationKey
  pub max_processed_distribution : Principal → Option ℕ
  pub balances : L

-- When it is deployed, by an admin.
unfoldable pub deployed : {L : Type 0} → (deployer : Principal) → L → RegistrationState L
deployed deployer balances = record {
  admins = map_set deployer true (λ p. none);
  fee_per_claim = 10000;
  registrations = λ key. none;
  registration_ll = empty;
  max_processed_distribution = λ p. none;
  balances = balances;
}

-- Arithmetic on `uint`.
abbrev pub checked : ℕ → Option ℕ
checked n = if leb uint_limit n then none else some n

abbrev pub and_then : {A B : Type 0} → Option A → (A → Option B) → Option B
and_then none f = none
and_then (some a) f = f a

pub record Position : Type 0 where
  pub signer : Principal
  pub first_reward_cycle : ℕ
  pub bond_index : Option ℕ

abbrev pub position_of : PoxView → Option (Principal × ℕ) → Option (Principal × ℕ) → Option Position
position_of pox (some (signer, index)) stake = some (record {
  signer = signer;
  first_reward_cycle = pox.bond_period_to_reward_cycle index;
  bond_index = some index;
})
position_of pox none (some (signer, first)) =
    some (record { signer = signer; first_reward_cycle = first; bond_index = none })
position_of pox none none = none

unfoldable pub get_position : PoxView → Principal → Option Position
get_position pox staker = position_of pox (pox.bond_membership staker) (pox.staker_info staker)

abbrev pub max_claim_installments : ℕ
max_claim_installments = 192

abbrev pub err_not_registered : ℕ
err_not_registered = 600

abbrev pub err_max_num_claims_exceeded : ℕ
err_max_num_claims_exceeded = 601

abbrev pub err_no_current_position : ℕ
err_no_current_position = 603

abbrev pub err_zero_num_claims : ℕ
err_zero_num_claims = 604

abbrev pub err_invalid_start_reward_cycle : ℕ
err_invalid_start_reward_cycle = 608

abbrev pub err_unauthorized : ℕ
err_unauthorized = 609

abbrev pub err_already_registered : ℕ
err_already_registered = 610

abbrev pub err_signer_manager_mismatch : ℕ
err_signer_manager_mismatch = 611

abbrev pub claim_step : Bool → ℕ
claim_step true = 2
claim_step false = 1

unfoldable pub initial_next_claim_distribution : ℕ → Bool → Option ℕ
initial_next_claim_distribution start_reward_cycle one_claim_per_reward_cycle =
    checked (2 * start_reward_cycle + (claim_step one_claim_per_reward_cycle - 1))

unfoldable pub next_claim_after : ℕ → Bool → ℕ → Option ℕ
next_claim_after claim_distribution one_claim_per_reward_cycle current =
    if one_claim_per_reward_cycle
    then checked (claim_distribution + 2)
    else (let reward_cycle = claim_distribution / 2 in
        if ltb (2 * reward_cycle + 1) current
        then checked (2 * (reward_cycle + 1))
        else checked (claim_distribution + 1))

abbrev pub default_false : Option Bool → Bool
default_false none = false
default_false (some b) = b

abbrev pub max_of : Option ℕ → ℕ → ℕ
max_of none distribution = distribution
max_of (some existing) distribution = if ltb existing distribution then distribution else existing
