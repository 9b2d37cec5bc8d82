-- ===== src/Contracts/Registrations/Pending.antt =====
-- The registrations that can be claimed, and their listing.
use spox.Prelude.{ℕ, ◌/◌, Bool, false, Option, none, some, ltb, leb, ◌&&◌, nat_beq, if◌then◌else◌}
use spox.Principal.{Principal}
use spox.Claim.{RegistrationKey}
use spox.Contracts.LinkedList.Walking.{Page, list_page}
use spox.Contracts.Registrations.{Registration, PoxView, RegistrationState}

-- The last distribution cycle that has its rewards calculated.
unfoldable pub get_last_rewards_compute_distribution : PoxView → Option ℕ
get_last_rewards_compute_distribution pox =
    if nat_beq pox.last_reward_compute_height 0
    then none
    else some (pox.burn_height_to_distribution_index pox.last_reward_compute_height)

abbrev pub rewards_calculated_for_claim_distribution : ℕ → Option ℕ → Bool
rewards_calculated_for_claim_distribution claim_distribution none = false
rewards_calculated_for_claim_distribution claim_distribution (some covered) =
    leb claim_distribution covered

unfoldable pub is_pending : Registration → ℕ → Option ℕ → Bool
is_pending r current last_compute =
    ltb r.next_claim_distribution current
    && rewards_calculated_for_claim_distribution r.next_claim_distribution last_compute

-- A row of the listing.
pub record ClaimRow : Type 0 where
  pub signer_manager : Principal
  pub staker : Principal
  pub bond_index : Option ℕ
  pub reward_cycle : ℕ

abbrev pub pending_row : PoxView → RegistrationKey → Option Registration → Option ClaimRow
pending_row pox key none = none
pending_row pox key (some r) =
    if is_pending r pox.current_distribution_cycle (get_last_rewards_compute_distribution pox)
    then some (record {
      signer_manager = key.signer_manager;
      staker = key.staker;
      bond_index = r.bond_index;
      reward_cycle = r.next_claim_distribution / 2;
    })
    else none

unfoldable pub get_pending_claims :
    {L : Type 0}
    → PoxView
    → RegistrationState L
    → Option RegistrationKey
    → Page RegistrationKey ClaimRow
unfolding list_page
get_pending_claims pox s cursor =
    list_page s.registration_ll (λ key. pending_row pox key (s.registrations key)) cursor
