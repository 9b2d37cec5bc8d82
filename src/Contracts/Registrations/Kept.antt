-- ===== src/Contracts/Registrations/Kept.antt =====
-- Each function leaves the map of registrations and its linked list in agreement.
use spox.Prelude.{
  ℕ, Bool, false, not, Option, none, some, ◌⊎◌, inl, inr, ◌==◌, ◌||◌, ◌≡◌, refl, ltb, nat_beq,
}
use spox.Principal.{Principal, ContractId, contract, principal_eq}
use spox.Storage.Laws.{is_some}
use spox.Claim.{RegistrationKey}
use spox.Contracts.Registrations.{
  key_eq, Registration, PoxView, Stx, RegistrationState, Position, get_position,
  max_claim_installments,
}
use spox.Contracts.Registrations.Operations.{
  key_for, register_for_claims_impl, register_at, write_registration, escrow_registration_fee,
  add_claims, add_to, rewrite_registration, extended, dropped, paid, pay, cancel_registration_impl,
  cancel_at,
}
use spox.Contracts.Registrations.Registered.{
  IsContract, IsConsistent, Leaves, guard, computed, written, rewritten, dropped-IsConsistent,
}

module _ {L : Type 0} where
  module _ (stx : Stx L) (current_contract : Principal) where
    write_lem :
        (key : RegistrationKey) (f : ℕ → Option Registration) (num_claims : ℕ)
        (s : RegistrationState L) (escrow : Option (ℕ ⊎ (ℕ × L)))
        → IsContract key.signer_manager
        → s.registrations key ≡ none
        → IsConsistent s
        → Leaves (write_registration key f num_claims s escrow)
    write_lem key f num_claims s none signer new h = tt
    write_lem key f num_claims s (some (inl code)) signer new h = h
    write_lem key f num_claims s (some (inr (escrowed, balances))) signer new h =
        computed (f escrowed) _ (λ r. written key r s balances signer new h)

    unknown_lem : (o : Option Registration) → is_some o ≡ false → o ≡ none
    unknown_lem none h = refl
    unknown_lem (some r) h = absurd (cc)

    pub register_for_claims_impl-Leaves :
        (pox : PoxView) (tx_sender staker : Principal) (signer : ContractId) (start : ℕ)
        (one_claim : Bool) (num_claims : ℕ) (s : RegistrationState L)
        → IsConsistent s
        → Leaves (
            register_for_claims_impl stx current_contract pox tx_sender staker
              (contract signer)
              start
              one_claim
              num_claims
              s)
    unfolding register_for_claims_impl
    register_for_claims_impl-Leaves pox tx_sender staker signer start one_claim num_claims s h =
        at_position (get_position pox staker)
      where
        key : RegistrationKey
        key = key_for staker (contract signer)

        at_position :
            (o : Option Position)
            → Leaves (register_at stx current_contract tx_sender key start one_claim num_claims s o)
        at_position none = h
        at_position (some position) =
            guard (nat_beq num_claims 0) _ _ (λ q. h)
              (λ q.
                guard (ltb max_claim_installments num_claims) _ _ (λ q. h)
                  (λ q.
                    guard (is_some (s.registrations key)) _ _ (λ q. h)
                      (λ unknown.
                        guard (not (key.signer_manager == position.signer)) _ _ (λ q. h)
                          (λ q.
                            guard (ltb start position.first_reward_cycle) _ _ (λ q. h)
                              (λ q.
                                write_lem key _ num_claims s
                                  (escrow_registration_fee stx current_contract tx_sender num_claims
                                    s)
                                  (signer, refl) (unknown_lem (s.registrations key) unknown) h)))))

    rewrite_lem :
        (key : RegistrationKey) (existing : Registration) (num_claims : ℕ) (s : RegistrationState L)
        (escrow : Option (ℕ ⊎ (ℕ × L)))
        → s.registrations key ≡ some existing
        → IsConsistent s
        → Leaves (rewrite_registration key existing num_claims s escrow)
    rewrite_lem key existing num_claims s none known h = tt
    rewrite_lem key existing num_claims s (some (inl code)) known h = h
    rewrite_lem key existing num_claims s (some (inr (escrowed, balances))) known h =
        computed (extended existing num_claims escrowed) _
          (λ r. rewritten key existing r s balances known h)

    pub add_claims-Leaves :
        (tx_sender staker signer_manager : Principal) (num_claims : ℕ) (s : RegistrationState L)
        → IsConsistent s
        → Leaves (add_claims stx current_contract tx_sender staker signer_manager num_claims s)
    unfolding add_claims
    add_claims-Leaves tx_sender staker signer_manager num_claims s h =
        guard (nat_beq num_claims 0) _ _ (λ q. h)
          (λ q.
            guard (ltb max_claim_installments num_claims) _ _ (λ q. h)
              (λ q. at_existing (s.registrations key) refl))
      where
        key : RegistrationKey
        key = key_for staker signer_manager

        at_existing :
            (o : Option Registration)
            → s.registrations key ≡ o
            → Leaves (add_to stx current_contract tx_sender key num_claims s o)
        at_existing none q = h
        at_existing (some existing) known =
            guard (tx_sender == existing.sponsor) _ _
              (λ q.
                rewrite_lem key existing num_claims s
                  (escrow_registration_fee stx current_contract tx_sender num_claims s) known h)
              (λ q. h)

    paid_lem :
        (refund : ℕ) (s : RegistrationState L) (r : ℕ ⊎ L)
        → IsConsistent s
        → Leaves (paid refund s r)
    paid_lem refund s (inl code) h = h
    paid_lem refund s (inr balances) (entries, h) =
        (entries, record { tracked = h.tracked; signers = h.signers })

    pub cancel_registration_impl-Leaves :
        (tx_sender staker signer_manager : Principal) (s : RegistrationState L)
        → IsConsistent s
        → Leaves (cancel_registration_impl stx current_contract tx_sender staker signer_manager s)
    unfolding cancel_registration_impl
    cancel_registration_impl-Leaves tx_sender staker signer_manager s h =
        at_registration (s.registrations key)
      where
        key : RegistrationKey
        key = key_for staker signer_manager

        at_registration :
            (o : Option Registration) → Leaves (cancel_at stx current_contract tx_sender key s o)
        at_registration none = h
        at_registration (some r) =
            guard ((tx_sender == staker) || (tx_sender == r.sponsor)) _ _
              (λ q.
                paid_lem r.prepaid_ustx (dropped key s)
                  (pay stx current_contract r.prepaid_ustx current_contract r.sponsor s.balances)
                  (dropped-IsConsistent key s h))
              (λ q. h)
