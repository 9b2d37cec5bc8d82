-- ===== src/Contracts/Registrations/Runs.antt =====
-- Sequences of calls that change the registrations.
use spox.Prelude.{ℕ, Bool, false, Option, none, some, List, [], ◌∷◌, ◌⊎◌, inl, inr, leb, ◌≡◌, refl}
use spox.Principal.{Principal, ContractId, contract}
use spox.Claim.{RegistrationKey}
use spox.Contracts.Tracking.{empty-Tracks}
use spox.Contracts.Registrations.{
  key_eq, Registration, PoxView, Stx, RegistrationState, deployed, next_claim_after,
}
use spox.Contracts.Registrations.Operations.{
  key_for, Outcome, register_for_claims_impl, add_claims, pay_burn, cancel_registration_impl,
  burn_amount, move_on, burned_then, advance_registration, record_max_processed_distribution,
}
use spox.Contracts.Registrations.Registered.{
  IsConsistent, Leaves, guard, computed, rewritten, dropped-IsConsistent,
}
use spox.Contracts.Registrations.Kept.{
  register_for_claims_impl-Leaves, add_claims-Leaves, cancel_registration_impl-Leaves,
}

-- A call with its sender. The signer manager of a new registration is passed as a trait, and so is a
-- contract. A claim that is processed advances the registration that it has looked up.
pub data Call : Type 0 where
  register :
      (pox : PoxView) (tx_sender staker : Principal) (signer_manager : ContractId)
      (start_reward_cycle : ℕ) (one_claim_per_reward_cycle : Bool) (num_claims : ℕ)
      → Call
  add : (tx_sender staker signer_manager : Principal) (num_claims : ℕ) → Call
  cancel : (tx_sender staker signer_manager : Principal) → Call
  advance : (staker signer_manager : Principal) (current_distribution_cycle : ℕ) → Call

module _ {L : Type 0} where
  abbrev pub state_of : {A : Type 0} → RegistrationState L → Outcome L A → RegistrationState L
  state_of s none = s
  state_of s (some (answer, s')) = s'

  state_of-IsConsistent :
      {A : Type 0} (s : RegistrationState L) (o : Outcome L A)
      → IsConsistent s
      → Leaves o
      → IsConsistent (state_of s o)
  state_of-IsConsistent s none h k = h
  state_of-IsConsistent s (some (answer, s')) h k = k

  module _ (stx : Stx L) (current_contract : Principal) where
    abbrev pub advance_known :
        RegistrationKey → ℕ → RegistrationState L → Option Registration → Outcome L Bool
    advance_known key current s none = some (inr false, s)
    advance_known key current s (some r) = advance_registration stx current_contract key r current s

    -- What a call leaves.
    abbrev pub run : Call → RegistrationState L → RegistrationState L
    run (register pox sender staker signer start one num) s = state_of s (
        register_for_claims_impl stx current_contract pox sender staker (contract signer) start one
          num s)
    run (add sender staker signer num) s =
        state_of s (add_claims stx current_contract sender staker signer num s)
    run (cancel sender staker signer) s =
        state_of s (cancel_registration_impl stx current_contract sender staker signer s)
    run (advance staker signer current) s =
        let key = key_for staker signer in
        state_of s (advance_known key current s (s.registrations key))

    abbrev pub run_all : List Call → RegistrationState L → RegistrationState L
    run_all [] s = s
    run_all (c ∷ calls) s = run_all calls (run c s)

    move_on_lem :
        (key : RegistrationKey) (r : Registration) (burned current : ℕ) (s : RegistrationState L)
        → s.registrations key ≡ some r
        → IsConsistent s
        → Leaves (move_on key r burned current s)
    move_on_lem key r burned current s known h =
        guard (leb r.remaining_claims 1) _ _ (λ q. dropped-IsConsistent key s h)
          (λ q.
            computed
              (next_claim_after r.next_claim_distribution r.one_claim_per_reward_cycle current) _
              (λ next. rewritten key r _ s s.balances known h))

    advance_known-Leaves :
        (key : RegistrationKey) (current : ℕ) (s : RegistrationState L) (o : Option Registration)
        → s.registrations key ≡ o
        → IsConsistent s
        → Leaves (advance_known key current s o)
    unfolding advance_registration
    advance_known-Leaves key current s none known h = h
    advance_known-Leaves key current s (some r) known (entries, h) =
        burned (pay_burn stx current_contract (burn_amount r) s.balances)
      where
        s' : RegistrationState L
        s' = record_max_processed_distribution key.staker r.next_claim_distribution s

        burned :
            (o : ℕ ⊎ L)
            → Leaves (
                burned_then
                  (λ balances.
                    move_on key r (burn_amount r) current (record s' { balances = balances }))
                  s'
                  o)
        burned (inl code) = (entries, record { tracked = h.tracked; signers = h.signers })
        burned (inr balances) =
            move_on_lem key r (burn_amount r) current (record s' { balances = balances }) known
              (entries, record { tracked = h.tracked; signers = h.signers })

    run-IsConsistent :
        (c : Call) (s : RegistrationState L) → IsConsistent s → IsConsistent (run c s)
    run-IsConsistent (register pox sender staker signer start one num) s h =
        state_of-IsConsistent s _ h (
          register_for_claims_impl-Leaves stx current_contract pox sender staker signer start one
            num s h)
    run-IsConsistent (add sender staker signer num) s h =
        state_of-IsConsistent s _ h
          (add_claims-Leaves stx current_contract sender staker signer num s h)
    run-IsConsistent (cancel sender staker signer) s h =
        state_of-IsConsistent s _ h
          (cancel_registration_impl-Leaves stx current_contract sender staker signer s h)
    run-IsConsistent (advance staker signer current) s h =
        state_of-IsConsistent s _ h
          (advance_known-Leaves (key_for staker signer) current s _ refl h)

    run_all_lem :
        (calls : List Call) (s : RegistrationState L)
        → IsConsistent s
        → IsConsistent (run_all calls s)
    run_all_lem [] s h = h
    run_all_lem (c ∷ calls) s h = run_all_lem calls (run c s) (run-IsConsistent c s h)

    -- However registrations are made, extended, cancelled and advanced since the contract was deployed,
    -- and whatever fails on the way, the doubly linked list goes through just the keys of the map, each
    -- once, and the signer manager of each key is a contract.
    pub run_all-IsConsistent :
        (calls : List Call) (deployer : Principal) (balances : L)
        → IsConsistent (run_all calls (deployed deployer balances))
    unfolding deployed
    run_all-IsConsistent calls deployer balances =
        run_all_lem calls (deployed deployer balances)
          ([], record { tracked = empty-Tracks; signers = λ key r h. absurd (cc) })
