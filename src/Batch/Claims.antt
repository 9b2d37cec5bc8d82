-- ===== src/Batch/Claims.antt =====
-- What the contract-call batches of claims and of withdrawals hold, whatever order the groups of
-- the `HashMap` are visited in.
use mathlib.Core.List.{Permᴰ}
use spox.Prelude.{ℕ, ◌+◌, ◌/◌, ◌≤◌, List, [], length, All, All-map, ◌≡◌, refl, ap, ◌∙◌, arith}
use spox.Principal.{Principal, ContractId, contract_eq}
use spox.Claim.{PendingClaim}
use spox.Withdrawal.{WithdrawalItem, PendingWithdrawal}
use spox.Batch.{
  Groups, group_by, max_stakers_length, num_stakers, batch_claims, num_withdrawals,
  batch_withdrawals,
}
use spox.Batch.Groups.{rows_with, Distinct-group_by, values_at-group_by}
use spox.Batch.Laws.{
  items_of, count_of, items_of-batch_groups, count_of-batch_groups, batch_groups-All,
}

-- The stakers of a signer manager, in the order of the claims.
abbrev pub stakers_with : ContractId → List PendingClaim → List Principal
stakers_with = rows_with (λ c. c.signer_manager) (λ c. c.staker)

abbrev pub items_with : ContractId → List PendingWithdrawal → List WithdrawalItem
items_with = rows_with (λ w. w.signer_manager) (λ w. w.item)

abbrev pub claim_groups : List PendingClaim → Groups ContractId Principal
claim_groups = group_by (λ c. c.signer_manager) (λ c. c.staker) []

abbrev pub withdrawal_groups : List PendingWithdrawal → Groups ContractId WithdrawalItem
withdrawal_groups = group_by (λ w. w.signer_manager) (λ w. w.item) []

-- One contract call can take it, and goes to the given contract.
abbrev pub Callable : ContractId → ℕ → ContractId → Type 0
Callable registry size target = (1 ≤ size) × (size ≤ max_stakers_length) × (target ≡ registry)

module _ (iterate : Groups ContractId Principal → Groups ContractId Principal)
    (claims : List PendingClaim) (registry : ContractId) where
  -- Every batch of claims has from 1 to 100 stakers and is for the given registry contract.
  pub batch_claims-Callable :
      All
        (λ b. Callable registry (num_stakers b) b.registry_contract)
        (batch_claims iterate claims registry)
  unfolding batch_claims num_stakers
  batch_claims-Callable =
      All-map (λ b h. (h.0.0, h.0.1, h.1)) _
        (batch_groups-All (λ b. b.stakers) _ (λ b. b.registry_contract ≡ registry) (λ k c. refl)
          (λ k c. refl) max_stakers_length (iterate (claim_groups claims)) (omega arith))

  module _ (visits : Permᴰ (claim_groups claims) (iterate (claim_groups claims)))
      (m : ContractId) where
    -- If the loop visits each group once, the batches of a signer manager hold, one after another,
    -- exactly the stakers of its claims in the order of the claims: none is lost, doubled or sent
    -- to another signer manager.
    pub batch_claims-stakers :
        items_of (λ b. b.signer_manager) (λ b. b.stakers) m (batch_claims iterate claims registry)
        ≡ stakers_with m claims
    unfolding batch_claims
    batch_claims-stakers =
        items_of-batch_groups _ _ _ (λ k c. refl) (λ k c. refl) max_stakers_length m _ (omega arith)
        ∙ values_at-group_by (λ c. c.signer_manager) (λ c. c.staker) claims visits m

    -- If the loop visits each group once, a signer manager with n claims has n / 100 batches,
    -- rounded up.
    pub batch_claims-count :
        count_of (λ b. b.signer_manager) m (batch_claims iterate claims registry)
        ≡ (length (stakers_with m claims) + 99) / 100
    unfolding batch_claims
    batch_claims-count =
        count_of-batch_groups _ (λ b. b.stakers) _ (λ k c. refl) (λ k c. refl) m _
          (Distinct-group_by (λ c. c.signer_manager) (λ c. c.staker) claims visits)
        ∙ ap (λ vs. (length vs + 99) / 100)
            (values_at-group_by (λ c. c.signer_manager) (λ c. c.staker) claims visits m)

module _ (iterate : Groups ContractId WithdrawalItem → Groups ContractId WithdrawalItem)
    (withdrawals : List PendingWithdrawal) (registry : ContractId) where
  -- Every batch of withdrawals has from 1 to 100 items and is for the given registry contract.
  pub batch_withdrawals-Callable :
      All
        (λ b. Callable registry (num_withdrawals b) b.registry_contract)
        (batch_withdrawals iterate withdrawals registry)
  unfolding batch_withdrawals num_withdrawals
  batch_withdrawals-Callable =
      All-map (λ b h. (h.0.0, h.0.1, h.1)) _
        (batch_groups-All (λ b. b.items) _ (λ b. b.registry_contract ≡ registry) (λ k c. refl)
          (λ k c. refl) max_stakers_length (iterate (withdrawal_groups withdrawals)) (omega arith))

  module _
      (visits : Permᴰ (withdrawal_groups withdrawals) (iterate (withdrawal_groups withdrawals)))
      (m : ContractId) where
    -- If the loop visits each group once, the batches of a signer manager hold, one after another,
    -- exactly the items of its withdrawals in the order of the withdrawals.
    pub batch_withdrawals-items :
        items_of
          (λ b. b.signer_manager)
          (λ b. b.items)
          m
          (batch_withdrawals iterate withdrawals registry)
        ≡ items_with m withdrawals
    unfolding batch_withdrawals
    batch_withdrawals-items =
        items_of-batch_groups _ _ _ (λ k c. refl) (λ k c. refl) max_stakers_length m _ (omega arith)
        ∙ values_at-group_by (λ w. w.signer_manager) (λ w. w.item) withdrawals visits m

    -- If the loop visits each group once, a signer manager with n withdrawals has n / 100 batches,
    -- rounded up.
    pub batch_withdrawals-count :
        count_of (λ b. b.signer_manager) m (batch_withdrawals iterate withdrawals registry)
        ≡ (length (items_with m withdrawals) + 99) / 100
    unfolding batch_withdrawals
    batch_withdrawals-count =
        count_of-batch_groups _ (λ b. b.items) _ (λ k c. refl) (λ k c. refl) m _
          (Distinct-group_by (λ w. w.signer_manager) (λ w. w.item) withdrawals visits)
        ∙ ap (λ vs. (length vs + 99) / 100)
            (values_at-group_by (λ w. w.signer_manager) (λ w. w.item) withdrawals visits m)
