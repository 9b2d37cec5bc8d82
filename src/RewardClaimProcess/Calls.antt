-- ===== src/RewardClaimProcess/Calls.antt =====
-- What the two steps of a chain tip hand to the node, from the pages of the registry to the
-- transactions.
use mathlib.Core.List.{Permᴰ}
use spox.Prelude.{ℕ, ◌+◌, ◌*◌, ◌≤◌, some, List, map, All, ◌≡◌, arith}
use spox.Principal.{Principal, ContractId, contract_eq}
use spox.Error.{ok}
use spox.Claim.{PendingClaim}
use spox.Withdrawal.{WithdrawalItem, PendingWithdrawal}
use spox.Batch.{
  Groups, RewardClaimsBatch, num_stakers, WithdrawalsBatch, num_withdrawals, max_stakers_length,
}
use spox.Batch.Laws.{items_of}
use spox.Batch.Claims.{stakers_with, items_with, claim_groups, withdrawal_groups}
use spox.StacksApi.{StacksApi, NodeInfo}
use spox.StacksWallet.{Signing}
use spox.RewardClaimRegistry.Walks.{
  ClaimsWalk, WithdrawalsWalk, get_pending_claim_batches_complete,
  get_pending_withdrawal_batches_complete,
}
use spox.ContractCalls.{claims_tx_payload, withdrawals_tx_payload}
use spox.ContractCalls.Arguments.{IsCall, is_principal, claims-IsCall}
use spox.RewardClaimProcess.{
  ProcessState, Submission, tx_fee, submit_batches, process_claims, process_withdrawals,
}
use spox.RewardClaimProcess.Submissions.{submit_batches-each, submit_batches-All}

-- The fee of a full batch is the largest, and no product or sum wraps around.
pub tx_fee_bounds :
    (n : ℕ) → 1 ≤ n → n ≤ max_stakers_length → (tx_fee n ≡ n * 2000 + 3000) × (tx_fee n ≤ 203000)
unfolding tx_fee
tx_fee_bounds n h k = omega arith

module _ {W : Type 0} (signing : Signing) (api : StacksApi W) (registry : ContractId) (fuel : ℕ)
    {w₀ w' : W} (s : ProcessState W) (info : NodeInfo)
    (asked : api.get_node_info s.world ≡ (ok info, w₀)) where
  -- If the pages of pending claims end within the fuel and each group is visited once, a
  -- transaction is handed to the node for each of some batches that hold, for every signer manager,
  -- the stakers of its claims, each once and in order. Each is a well-typed call of
  -- `process-reward-claims` of the registry contract, and its fee is at most 203000.
  pub process_claims-calls :
      (order : W → Groups ContractId Principal → Groups ContractId Principal) {n : ℕ}
      (rows : List PendingClaim)
      → ClaimsWalk api registry info n w₀ (ok rows) w'
      → n ≤ fuel
      → Permᴰ (claim_groups rows) (order s.world (claim_groups rows))
      → (batches : List RewardClaimsBatch) × (subs : List Submission) × (s' : ProcessState W)
        × (process_claims signing api registry fuel order s ≡ some (ok subs, s'))
        × ((m : ContractId)
            → items_of (λ b. b.signer_manager) (λ b. b.stakers) m batches ≡ stakers_with m rows)
        × (map (λ sub. sub.tx.payload) subs ≡ map claims_tx_payload batches)
        × All
            (λ sub.
              IsCall registry "process-reward-claims" is_principal sub.tx.payload
              × (sub.tx.auth.tx_fee ≤ 203000))
            subs
  unfolding process_claims
  process_claims-calls order rows walk le visits =
      let (batches, got, callable, stakers) =
        get_pending_claim_batches_complete api registry (order s.world) fuel info asked rows walk le
          visits in
      let s₁ : ProcessState W = record s { world = w' } in
      let (subs, s') = submit_batches signing api claims_tx_payload num_stakers batches s₁ in
      (
        batches,
        subs,
        s',
        rw got,
        stakers,
        (submit_batches-each signing api claims_tx_payload num_stakers batches s₁).0,
        submit_batches-All signing api claims_tx_payload num_stakers
            (λ call fee. IsCall registry "process-reward-claims" is_principal call × (fee ≤ 203000))
            (λ b h. (claims-IsCall registry b h, (tx_fee_bounds (num_stakers b) h.0 h.1).1)) batches
            s₁ callable,
      )

  -- If the pages of pending withdrawals end within the fuel and each group is visited once, a
  -- transaction with the payload of the batch and a fee of at most 203000 is handed to the node for
  -- each of some batches that hold, for every signer manager, the items of its withdrawals, each
  -- once and in order.
  pub process_withdrawals-calls :
      (order : W → Groups ContractId WithdrawalItem → Groups ContractId WithdrawalItem) {n : ℕ}
      (rows : List PendingWithdrawal)
      → WithdrawalsWalk api registry info n w₀ (ok rows) w'
      → n ≤ fuel
      → Permᴰ (withdrawal_groups rows) (order s.world (withdrawal_groups rows))
      → (batches : List WithdrawalsBatch) × (subs : List Submission) × (s' : ProcessState W)
        × (process_withdrawals signing api registry fuel order s ≡ some (ok subs, s'))
        × ((m : ContractId)
            → items_of (λ b. b.signer_manager) (λ b. b.items) m batches ≡ items_with m rows)
        × (map (λ sub. sub.tx.payload) subs ≡ map withdrawals_tx_payload batches)
        × All (λ sub. sub.tx.auth.tx_fee ≤ 203000) subs
  unfolding process_withdrawals
  process_withdrawals-calls order rows walk le visits =
      let (batches, got, callable, items) =
        get_pending_withdrawal_batches_complete api registry (order s.world) fuel info asked rows
          walk le visits in
      let s₁ : ProcessState W = record s { world = w' } in
      let (subs, s') =
        submit_batches signing api withdrawals_tx_payload num_withdrawals batches s₁ in
      (
        batches,
        subs,
        s',
        rw got,
        items,
        (submit_batches-each signing api withdrawals_tx_payload num_withdrawals batches s₁).0,
        submit_batches-All signing api withdrawals_tx_payload num_withdrawals
            (λ call fee. fee ≤ 203000) (λ b h. (tx_fee_bounds (num_withdrawals b) h.0 h.1).1)
            batches s₁ callable,
      )
