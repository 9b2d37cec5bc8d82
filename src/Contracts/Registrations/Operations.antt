-- ===== src/Contracts/Registrations/Operations.antt =====
-- The functions that change the registrations.
use spox.Prelude.{
  ℕ, zero, suc, ◌+◌, ◌*◌, ◌-◌, ◌/◌, Bool, true, false, not, Option, none, some, ◌⊎◌, inl, inr, ltb,
  leb, ◌==◌, ◌||◌, nat_beq, if◌then◌else◌,
}
use spox.Principal.{Principal, principal_eq}
use spox.Storage.Laws.{is_some}
use spox.Claim.{RegistrationKey}
use spox.Contracts.{map_set, map_delete}
use spox.Contracts.LinkedList.{ll_append, ll_remove}
use spox.Contracts.Registrations.{
  key_eq, Registration, PoxView, Stx, RegistrationState, checked, and_then, Position, get_position,
  max_claim_installments, initial_next_claim_distribution, next_claim_after, max_of, default_false,
  err_not_registered, err_max_num_claims_exceeded, err_no_current_position, err_zero_num_claims,
  err_invalid_start_reward_cycle, err_unauthorized, err_already_registered,
  err_signer_manager_mismatch,
}

abbrev pub key_for : Principal → Principal → RegistrationKey
key_for staker signer_manager = record { staker = staker; signer_manager = signer_manager }

abbrev pub escrow_amount : Bool → ℕ → ℕ → Option ℕ
escrow_amount true num_claims price = some 0
escrow_amount false num_claims price = checked (num_claims * price)

abbrev pub first_registration : Principal → Position → ℕ → Bool → ℕ → ℕ → Option Registration
first_registration sponsor position start_reward_cycle one_claim num_claims escrowed =
    and_then (initial_next_claim_distribution start_reward_cycle one_claim) (λ next. some (record {
      bond_index = position.bond_index;
      remaining_claims = num_claims;
      one_claim_per_reward_cycle = one_claim;
      next_claim_distribution = next;
      prepaid_ustx = escrowed;
      sponsor = sponsor;
    }))

-- An existing registration with more claims and more STX, where these numbers are `uint`s.
abbrev pub extended : Registration → ℕ → ℕ → Option Registration
extended existing num_claims escrowed =
    and_then (checked (existing.remaining_claims + num_claims)) (λ remaining.
      and_then (checked (existing.prepaid_ustx + escrowed)) (λ prepaid.
        some (record existing { remaining_claims = remaining; prepaid_ustx = prepaid })))

abbrev pub burn_amount : Registration → ℕ
burn_amount r =
    if leb r.remaining_claims 1 then r.prepaid_ustx else r.prepaid_ustx / r.remaining_claims

abbrev pub Outcome : Type 0 → Type 0 → Type 0
Outcome L A = Option ((ℕ ⊎ A) × RegistrationState L)

module _ {L : Type 0} where
  abbrev pub moved : ℕ → ℕ ⊎ L → ℕ ⊎ (ℕ × L)
  moved amount (inl code) = inl code
  moved amount (inr balances) = inr (amount, balances)

  -- After the escrow: the registration is written under the key, and the key is listed.
  abbrev pub write_registration :
      RegistrationKey
      → (ℕ → Option Registration)
      → ℕ
      → RegistrationState L
      → Option (ℕ ⊎ (ℕ × L))
      → Outcome L ℕ
  write_registration key registration num_claims s none = none
  write_registration key registration num_claims s (some (inl code)) = some (inl code, s)
  write_registration key registration num_claims s (some (inr (escrowed, balances))) =
      and_then (registration escrowed) (λ r. some (
        inr num_claims,
        record s {
          registrations = map_set key r s.registrations;
          registration_ll = (ll_append key s.registration_ll).1;
          balances = balances;
        },
      ))

  abbrev pub rewrite_registration :
      RegistrationKey → Registration → ℕ → RegistrationState L → Option (ℕ ⊎ (ℕ × L)) → Outcome L ℕ
  rewrite_registration key existing num_claims s none = none
  rewrite_registration key existing num_claims s (some (inl code)) = some (inl code, s)
  rewrite_registration key existing num_claims s (some (inr (escrowed, balances))) =
      and_then (extended existing num_claims escrowed) (λ r. some (
        inr num_claims,
        record s { registrations = map_set key r s.registrations; balances = balances },
      ))

  -- Without the registration of a key.
  unfoldable pub dropped : RegistrationKey → RegistrationState L → RegistrationState L
  dropped key s = record s {
    registrations = map_delete key s.registrations;
    registration_ll = (ll_remove key s.registration_ll).1;
  }

  abbrev pub record_max_processed_distribution :
      Principal → ℕ → RegistrationState L → RegistrationState L
  record_max_processed_distribution staker distribution s = record s {
    max_processed_distribution =
        map_set staker (max_of (s.max_processed_distribution staker) distribution)
          s.max_processed_distribution;
  }

  abbrev pub paid : {A : Type 0} → A → RegistrationState L → ℕ ⊎ L → Outcome L A
  paid a s (inl code) = some (inl code, s)
  paid a s (inr balances) = some (inr a, record s { balances = balances })

  -- After the burn: the last claim drops the registration, and another moves it on.
  abbrev pub move_on : RegistrationKey → Registration → ℕ → ℕ → RegistrationState L → Outcome L Bool
  move_on key r burned current s =
      if leb r.remaining_claims 1
      then some (inr true, dropped key s)
      else and_then
          (next_claim_after r.next_claim_distribution r.one_claim_per_reward_cycle current)
          (λ next. some (
            inr true,
            record s {
              registrations =
                  map_set key
                    (record r {
                      remaining_claims = r.remaining_claims - 1;
                      prepaid_ustx = r.prepaid_ustx - burned;
                      next_claim_distribution = next;
                    })
                    s.registrations;
            },
          ))

  abbrev pub burned_then : (L → Outcome L Bool) → RegistrationState L → ℕ ⊎ L → Outcome L Bool
  burned_then f s (inl code) = some (inl code, s)
  burned_then f s (inr balances) = f balances

module _ {L : Type 0} (stx : Stx L) (current_contract : Principal) where
  -- `(if (> amount u0) (try! (stx-transfer? …)) true)`
  abbrev pub pay : ℕ → Principal → Principal → L → ℕ ⊎ L
  pay zero from to balances = inr balances
  pay (suc n) from to balances = stx.transfer (suc n) from to balances

  abbrev pub pay_burn : ℕ → L → ℕ ⊎ L
  pay_burn zero balances = inr balances
  pay_burn (suc n) balances = stx.burn (suc n) current_contract balances

  abbrev escrow_paid : Principal → RegistrationState L → Option ℕ → Option (ℕ ⊎ (ℕ × L))
  escrow_paid tx_sender s none = none
  escrow_paid tx_sender s (some amount) =
      some (moved amount (pay amount tx_sender current_contract s.balances))

  unfoldable pub escrow_registration_fee :
      Principal → ℕ → RegistrationState L → Option (ℕ ⊎ (ℕ × L))
  escrow_registration_fee tx_sender num_claims s =
      escrow_paid tx_sender s
        (escrow_amount (default_false (s.admins tx_sender)) num_claims s.fee_per_claim)

  abbrev pub register_at :
      Principal
      → RegistrationKey
      → ℕ
      → Bool
      → ℕ
      → RegistrationState L
      → Option Position
      → Outcome L ℕ
  register_at tx_sender key start one_claim num_claims s none =
      some (inl err_no_current_position, s)
  register_at tx_sender key start one_claim num_claims s (some position) =
      if nat_beq num_claims 0
      then some (inl err_zero_num_claims, s)
      else if ltb max_claim_installments num_claims
      then some (inl err_max_num_claims_exceeded, s)
      else if is_some (s.registrations key)
      then some (inl err_already_registered, s)
      else if not (key.signer_manager == position.signer)
      then some (inl err_signer_manager_mismatch, s)
      else if ltb start position.first_reward_cycle
      then some (inl err_invalid_start_reward_cycle, s)
      else write_registration key (first_registration tx_sender position start one_claim num_claims)
          num_claims s (escrow_registration_fee tx_sender num_claims s)

  unfoldable pub register_for_claims_impl :
      PoxView
      → (tx_sender staker signer_manager : Principal) → ℕ
      → Bool
      → ℕ
      → RegistrationState L
      → Outcome L ℕ
  register_for_claims_impl pox tx_sender staker signer_manager start one_claim num_claims s =
      register_at tx_sender (key_for staker signer_manager) start one_claim num_claims s
        (get_position pox staker)

  abbrev pub add_to :
      Principal → RegistrationKey → ℕ → RegistrationState L → Option Registration → Outcome L ℕ
  add_to tx_sender key num_claims s none = some (inl err_not_registered, s)
  add_to tx_sender key num_claims s (some existing) =
      if tx_sender == existing.sponsor
      then rewrite_registration key existing num_claims s
          (escrow_registration_fee tx_sender num_claims s)
      else some (inl err_unauthorized, s)

  unfoldable pub add_claims :
      (tx_sender staker signer_manager : Principal) → ℕ → RegistrationState L → Outcome L ℕ
  add_claims tx_sender staker signer_manager num_claims s =
      let key = key_for staker signer_manager in
      if nat_beq num_claims 0
      then some (inl err_zero_num_claims, s)
      else if ltb max_claim_installments num_claims
      then some (inl err_max_num_claims_exceeded, s)
      else add_to tx_sender key num_claims s (s.registrations key)

  abbrev pub cancel_at :
      Principal → RegistrationKey → RegistrationState L → Option Registration → Outcome L ℕ
  cancel_at tx_sender key s none = some (inl err_not_registered, s)
  cancel_at tx_sender key s (some registration) =
      if (tx_sender == key.staker) || (tx_sender == registration.sponsor)
      then paid registration.prepaid_ustx (dropped key s)
          (pay registration.prepaid_ustx current_contract registration.sponsor s.balances)
      else some (inl err_unauthorized, s)

  unfoldable pub cancel_registration_impl :
      (tx_sender staker signer_manager : Principal) → RegistrationState L → Outcome L ℕ
  cancel_registration_impl tx_sender staker signer_manager s =
      let key = key_for staker signer_manager in cancel_at tx_sender key s (s.registrations key)

  unfoldable pub advance_registration :
      RegistrationKey → Registration → ℕ → RegistrationState L → Outcome L Bool
  advance_registration key r current s =
      let s' = record_max_processed_distribution key.staker r.next_claim_distribution s in
      burned_then
        (λ balances. move_on key r (burn_amount r) current (record s' { balances = balances })) s'
        (pay_burn (burn_amount r) s.balances)
