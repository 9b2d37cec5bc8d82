-- ===== src/Examples/Registrations.antt =====
-- Registrations at work: an admin registers a staker for nothing, and another principal pays for one.
use spox.Prelude.{
  ℕ, ◌+◌, ◌-◌, true, false, Option, none, some, List, [], ◌∷◌, All, ltb, if◌then◌else◌, ◌==◌, ◌≡◌,
  refl, sym, ap, Bool-cases, inl, inr, arith,
}
use mathlib.Core.List.{Permᴰ}
use spox.Principal.{Principal, ContractId, contract, standard, principal_eq, contract_eq}
use spox.Error.{ok}
use spox.Exec.{pure}
use spox.Clarity.{Value, principal, tuple, optional_some, field, end}
use spox.StacksApi.{StacksApi}
use spox.Claim
use spox.Claim.{RegistrationKey}
use spox.Batch.{RewardClaimsBatch, num_stakers}
use spox.Batch.Laws.{items_of}
use spox.Batch.Claims.{Callable, stakers_with}
use spox.RewardClaimRegistry.{get_pending_claim_batches}
use spox.Contracts.{map_set}
use spox.Contracts.LinkedList.{LinkedList, ll_append, empty}
use spox.Contracts.Entries.{entry_at}
use spox.Contracts.Tracking.{empty-Tracks, append-Tracks}
use spox.Contracts.Registrations.{
  key_eq, Registration, PoxView, Stx, RegistrationState, deployed, get_position,
  initial_next_claim_distribution,
}
use spox.Contracts.Registrations.Operations.{
  key_for, register_for_claims_impl, escrow_registration_fee,
}
use spox.Contracts.Registrations.Pending.{get_pending_claims}
use spox.Contracts.Registrations.Registered.{Registers, IsConsistent, IsContract}
use spox.Contracts.Registrations.Runs.{
  Call, register, add, cancel, advance, run_all, run_all-IsConsistent,
}
use spox.Contracts.Registrations.Listing.{
  page_value, Serves, ready_rows, get_pending_claim_batches-ready,
}
use spox.Examples
use spox.Examples.{manager, registry, info}

abbrev contract_itself : Principal
contract_itself = contract registry

-- The balance of the contract, for senders who have enough.
abbrev stx : Stx ℕ
stx = record {
  transfer = λ amount from to held.
      if to == contract_itself
      then inr (held + amount)
      else if ltb held amount
      then inl 1
      else inr (held - amount);
  burn = λ amount from held. if ltb held amount then inl 1 else inr (held - amount);
}

abbrev pox : PoxView
pox = record {
  bond_membership = λ staker. none;
  staker_info = λ staker. some (contract manager, 4);
  bond_period_to_reward_cycle = λ index. index;
  current_distribution_cycle = 12;
  last_reward_compute_height = 700;
  burn_height_to_distribution_index = λ height. 11;
}

abbrev registering : List Call
registering =
    register pox (standard "admin") (standard "dan") manager 5 true 3
    ∷ register pox (standard "eve") (standard "ann") manager 6 false 2
    ∷ []

abbrev calls : List Call
calls =
    register pox (standard "admin") (standard "dan") manager 5 true 3
    ∷ register pox (standard "eve") (standard "ann") manager 6 false 2
    ∷ add (standard "eve") (standard "ann") (contract manager) 1
    ∷ advance (standard "dan") (contract manager) 12
    ∷ cancel (standard "dan") (standard "ann") (contract manager)
    ∷ cancel (standard "ann") (standard "ann") (contract manager)
    ∷ []

run_all-IsConsistent_example :
    IsConsistent (run_all stx contract_itself calls (deployed (standard "admin") 0))
run_all-IsConsistent_example = run_all-IsConsistent stx contract_itself calls (standard "admin") 0

abbrev key : Principal → RegistrationKey
key staker = key_for staker (contract manager)

abbrev registration : ℕ → Registration
registration next = record {
  bond_index = none;
  remaining_claims = 3;
  one_claim_per_reward_cycle = true;
  next_claim_distribution = next;
  prepaid_ustx = 0;
  sponsor = standard "admin";
}

abbrev paid_registration : Registration
paid_registration = record {
  bond_index = none;
  remaining_claims = 2;
  one_claim_per_reward_cycle = false;
  next_claim_distribution = 12;
  prepaid_ustx = 20000;
  sponsor = standard "eve";
}

abbrev entries : List (RegistrationKey × Registration)
entries = (key (standard "dan"), registration 11) ∷ (key (standard "ann"), paid_registration) ∷ []

abbrev none_registered : RegistrationKey → Option Registration
none_registered k = none

abbrev one_registered : RegistrationKey → Option Registration
one_registered = map_set (key (standard "dan")) (registration 11) none_registered

abbrev one_listed : LinkedList RegistrationKey
one_listed = (ll_append (key (standard "dan")) empty).1

abbrev state : RegistrationState ℕ
state = record {
  admins = map_set (standard "admin") true (λ p. none);
  fee_per_claim = 10000;
  registrations = map_set (key (standard "ann")) paid_registration one_registered;
  registration_ll = (ll_append (key (standard "ann")) one_listed).1;
  max_processed_distribution = λ p. none;
  balances = 20000;
}

state_lem : run_all stx contract_itself registering (deployed (standard "admin") 0) ≡ state
unfolding deployed register_for_claims_impl get_position initial_next_claim_distribution
    escrow_registration_fee
state_lem = refl

registers : Registers state entries
unfolding entry_at
registers = record {
  tracked =
      append-Tracks (key (standard "ann")) one_registered one_listed
        ((key (standard "dan"), registration 11) ∷ [])
        (append-Tracks (key (standard "dan")) none_registered empty [] empty-Tracks
          (registration 11) refl)
        paid_registration refl;
  signers = one_signer;
}
  where
    one_signer :
        (k : RegistrationKey) (r : Registration)
        → state.registrations k ≡ some r
        → IsContract k.signer_manager
    one_signer k r h = elim (Bool-cases (key (standard "ann") == k)) [
      | inl first ↦ (
        manager,
        ap (λ j. j.signer_manager) (sym ((key_eq.beq_iff (key (standard "ann")) k).0 first)),
      )
      | inr other ↦ elim (Bool-cases (key (standard "dan") == k)) [
        | inl second ↦ (
          manager,
          ap (λ j. j.signer_manager) (sym ((key_eq.beq_iff (key (standard "dan")) k).0 second)),
        )
        | inr neither ↦ absurd (cc (rw (other, neither) at h))
      ]
    ]

-- The key of a cursor, as the contract reads it.
abbrev cursor_of : List Value → Option RegistrationKey
cursor_of
      (optional_some (tuple (field a (principal staker) (field b (principal signer) end))) ∷ []) =
    some (key_for staker signer)
cursor_of _ = none

abbrev node : StacksApi ℕ
node = record Examples.node {
  call_read = λ issuer name function sender args tip.
      pure (page_value (get_pending_claims pox state (cursor_of args)));
}

serves : Serves node registry (λ tip. pox) (λ tip. state)
unfolding Claim.cursor_arg
serves tip none w = refl
serves tip (some k) w = refl

visits : (groups : List (ContractId × List Principal)) → Permᴰ groups groups
visits [] = Permᴰ.nil
visits (g ∷ groups) = Permᴰ.cons refl (visits groups)

get_pending_claim_batches-ready_example :
    let rows =
      ready_rows node registry
        (λ tip. pox)
        (λ tip. state)
        serves
        info
        entries
        registers
        (λ groups. groups) in
    (w' : ℕ) × (batches : List RewardClaimsBatch) × (get_pending_claim_batches node registry
        (λ groups. groups)
        1
        0
      ≡ some (ok batches, w'))
    × All (λ b. Callable registry (num_stakers b) b.registry_contract) batches
    × ((c : ContractId)
        → items_of (λ b. b.signer_manager) (λ b. b.stakers) c batches ≡ stakers_with c rows)
get_pending_claim_batches-ready_example =
    get_pending_claim_batches-ready node registry (λ tip. pox) (λ tip. state) serves info entries
      registers (λ groups. groups) 0 0 0 refl (omega arith) (visits _)
