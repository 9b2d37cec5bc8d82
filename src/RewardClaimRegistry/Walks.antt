-- ===== src/RewardClaimRegistry/Walks.antt =====
-- From the pages of the registry to the batches that are sent to it.
use mathlib.Core.List.{Permᴰ}
use spox.Prelude.{ℕ, ◌≤◌, none, some, List, All, ◌≡◌}
use spox.Principal.{Principal, ContractId, contract_eq}
use spox.Error.{Error, Result, ok, err}
use spox.Claim.{PendingClaim}
use spox.Withdrawal.{PendingWithdrawal, WithdrawalItem}
use spox.Batch.{
  Groups, RewardClaimsBatch, num_stakers, batch_claims, WithdrawalsBatch, num_withdrawals,
  batch_withdrawals,
}
use spox.Batch.Laws.{items_of}
use spox.Batch.Claims.{
  Callable, stakers_with, items_with, claim_groups, withdrawal_groups, batch_claims-Callable,
  batch_claims-stakers, batch_withdrawals-Callable, batch_withdrawals-items,
}
use spox.StacksApi.{StacksApi, NodeInfo, chain_tip}
use spox.RewardClaimRegistry.{
  get_pending_claims, get_pending_withdrawals, get_all_pending_claims, get_all_pending_withdrawals,
  get_pending_claim_batches, get_pending_withdrawal_batches,
}
use spox.RewardClaimRegistry.Paging.{Walk, page_loop_iff}

-- The walk over the pages of pending claims at the chain tip that the node reports.
abbrev pub ClaimsWalk :
    {W : Type 0}
    → StacksApi W
    → ContractId
    → NodeInfo
    → ℕ
    → W
    → Result (List PendingClaim)
    → W
    → Type 0
ClaimsWalk api registry info n w r w' =
    Walk (get_pending_claims api registry (some (chain_tip api info))) (λ page. page.claims)
      (λ page. page.next) n none w r w'

module _ {W : Type 0} (api : StacksApi W) (registry : ContractId)
    (iterate : Groups ContractId Principal → Groups ContractId Principal) (fuel : ℕ) {w w₀ w' : W}
    (info : NodeInfo) (asked : api.get_node_info w ≡ (ok info, w₀)) where
  get_all_pending_claims-walk :
      {n : ℕ} (r : Result (List PendingClaim))
      → ClaimsWalk api registry info n w₀ r w'
      → n ≤ fuel
      → get_all_pending_claims api registry fuel w ≡ some (r, w')
  unfolding get_all_pending_claims
  get_all_pending_claims-walk r t h = rw asked ((page_loop_iff _ _ _ fuel none w₀ w' r).1 (_, h, t))

  -- If the node reports its tip and the pages read at that tip end within the fuel, the batches are
  -- returned; each can be sent in one call to the registry contract, and for every signer manager
  -- they hold the stakers of the pages' rows, each once and in the order of the rows.
  pub get_pending_claim_batches_complete :
      {n : ℕ} (rows : List PendingClaim)
      → ClaimsWalk api registry info n w₀ (ok rows) w'
      → n ≤ fuel
      → Permᴰ (claim_groups rows) (iterate (claim_groups rows))
      → (batches : List RewardClaimsBatch) × (get_pending_claim_batches api registry iterate fuel w
          ≡ some (ok batches, w'))
        × All (λ b. Callable registry (num_stakers b) b.registry_contract) batches
        × ((m : ContractId)
            → items_of (λ b. b.signer_manager) (λ b. b.stakers) m batches ≡ stakers_with m rows)
  unfolding get_pending_claim_batches
  get_pending_claim_batches_complete rows t h visits = (
    batch_claims iterate rows registry,
    rw (get_all_pending_claims-walk (ok rows) t h),
    batch_claims-Callable iterate rows registry,
    batch_claims-stakers iterate rows registry visits,
  )

  -- If a page cannot be read, its error is returned: no batch is made of the pages before it.
  pub get_pending_claim_batches-error :
      {n : ℕ} (e : Error)
      → ClaimsWalk api registry info n w₀ (err e) w'
      → n ≤ fuel
      → get_pending_claim_batches api registry iterate fuel w ≡ some (err e, w')
  unfolding get_pending_claim_batches
  get_pending_claim_batches-error e t h = rw (get_all_pending_claims-walk (err e) t h)

-- The walk over the pages of pending withdrawals at the chain tip that the node reports.
abbrev pub WithdrawalsWalk :
    {W : Type 0}
    → StacksApi W
    → ContractId
    → NodeInfo
    → ℕ
    → W
    → Result (List PendingWithdrawal)
    → W
    → Type 0
WithdrawalsWalk api registry info n w r w' =
    Walk (get_pending_withdrawals api registry (some (chain_tip api info)))
      (λ page. page.withdrawals) (λ page. page.next) n none w r w'

module _ {W : Type 0} (api : StacksApi W) (registry : ContractId)
    (iterate : Groups ContractId WithdrawalItem → Groups ContractId WithdrawalItem) (fuel : ℕ)
    {w w₀ w' : W} (info : NodeInfo) (asked : api.get_node_info w ≡ (ok info, w₀)) where
  pub get_all_pending_withdrawals-walk :
      {n : ℕ} (r : Result (List PendingWithdrawal))
      → WithdrawalsWalk api registry info n w₀ r w'
      → n ≤ fuel
      → get_all_pending_withdrawals api registry fuel w ≡ some (r, w')
  unfolding get_all_pending_withdrawals
  get_all_pending_withdrawals-walk r t h =
      rw asked ((page_loop_iff _ _ _ fuel none w₀ w' r).1 (_, h, t))

  -- If the node reports its tip and the pages read at that tip end within the fuel, the batches are
  -- returned; each can be sent in one call to the registry contract, and for every signer manager
  -- they hold the items of the pages' rows, each once and in the order of the rows.
  pub get_pending_withdrawal_batches_complete :
      {n : ℕ} (rows : List PendingWithdrawal)
      → WithdrawalsWalk api registry info n w₀ (ok rows) w'
      → n ≤ fuel
      → Permᴰ (withdrawal_groups rows) (iterate (withdrawal_groups rows))
      → (batches : List WithdrawalsBatch) × (get_pending_withdrawal_batches api registry iterate
            fuel w
          ≡ some (ok batches, w'))
        × All (λ b. Callable registry (num_withdrawals b) b.registry_contract) batches
        × ((m : ContractId)
            → items_of (λ b. b.signer_manager) (λ b. b.items) m batches ≡ items_with m rows)
  unfolding get_pending_withdrawal_batches
  get_pending_withdrawal_batches_complete rows t h visits = (
    batch_withdrawals iterate rows registry,
    rw (get_all_pending_withdrawals-walk (ok rows) t h),
    batch_withdrawals-Callable iterate rows registry,
    batch_withdrawals-items iterate rows registry visits,
  )

  -- If a page cannot be read, its error is returned: no batch is made of the pages before it.
  pub get_pending_withdrawal_batches-error :
      {n : ℕ} (e : Error)
      → WithdrawalsWalk api registry info n w₀ (err e) w'
      → n ≤ fuel
      → get_pending_withdrawal_batches api registry iterate fuel w ≡ some (err e, w')
  unfolding get_pending_withdrawal_batches
  get_pending_withdrawal_batches-error e t h = rw (get_all_pending_withdrawals-walk (err e) t h)
