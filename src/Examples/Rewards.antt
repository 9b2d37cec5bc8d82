-- ===== src/Examples/Rewards.antt =====
-- The theorems on reward claims and withdrawals at work: two pages of claims, a page of withdrawals,
-- and a node that refuses every other transaction.
use mathlib.Core.List.{Permᴰ}
use spox.Prelude.{
  ℕ, ◌+◌, ◌≤◌, ◌%◌, Option, some, none, List, [], ◌∷◌, map, length, All, ◌≡◌, refl, arith,
}
use spox.Principal.{ContractId, contract_eq, standard}
use spox.Error.{ok}
use spox.Claim.{PendingClaim}
use spox.Withdrawal.{PendingWithdrawal, WithdrawalItem, withdrawal_item_new}
use spox.Batch.{RewardClaimsBatch, WithdrawalsBatch, group_by, batch_claims}
use spox.Batch.Laws.{items_of}
use spox.Batch.Claims.{
  stakers_with, items_with, claim_groups, withdrawal_groups, batch_claims-stakers,
}
use spox.RewardClaimRegistry.{
  get_pending_claims, get_pending_withdrawals, get_pending_claim_batches,
  get_pending_withdrawal_batches,
}
use spox.RewardClaimRegistry.Paging.{Walk}
use spox.RewardClaimRegistry.Walks.{ClaimsWalk, WithdrawalsWalk}
use spox.ContractCalls.{claims_tx_payload, withdrawals_tx_payload}
use spox.ContractCalls.Arguments.{IsCall, is_principal}
use spox.RewardClaimProcess.{
  RewardClaimsConfig, ProcessState, Submission, process_claims, process_withdrawals, process_tip,
}
use spox.RewardClaimProcess.Setup.{process_reward_claims}
use spox.RewardClaimProcess.Ownership.{IsSigned, process_reward_claims-IsSigned}
use spox.RewardClaimProcess.Submissions.{Numbered, accepted_nonces, consecutive}
use spox.RewardClaimProcess.Calls.{process_claims-calls, process_withdrawals-calls}
use spox.RewardClaimProcess.Ticks.{process_tip-nonces}
use spox.Clarity
use spox.Claim
use spox.Withdrawal
use spox.StacksWallet.{u64_limit}
use spox.Examples.{
  registry, manager, other_manager, key, rows, withdrawal_rows, claim, info, account, node, signing,
  start,
}

claims_walk : ClaimsWalk node registry info 2 0 (ok rows) 0
unfolding get_pending_claims Claim.pending_claims_page_try_from Claim.pending_claim_try_from
    Claim.registration_key_try_from Claim.cursor_arg Clarity.read Clarity.lookup Clarity.without
    Clarity.of_list Clarity.to_list
claims_walk =
    Walk.more (record { claims = claim manager "ann" ∷ claim manager "bob" ∷ []; next = some key })
      key refl refl
      (Walk.last (record { claims = claim other_manager "cy" ∷ []; next = none }) refl refl refl)
      refl

withdrawals_walk : WithdrawalsWalk node registry info 1 0 (ok withdrawal_rows) 0
unfolding get_pending_withdrawals Withdrawal.pending_withdrawals_page_try_from
    Withdrawal.pending_withdrawal_try_from Withdrawal.cursor_arg Clarity.read Clarity.lookup
    Clarity.without Clarity.of_list Clarity.to_list
withdrawals_walk = Walk.last (record { withdrawals = withdrawal_rows; next = none }) refl refl refl

-- The groups in another order.
abbrev pub swapped : {G : Type 0} → List G → List G
swapped (g ∷ h ∷ gs) = h ∷ g ∷ gs
swapped gs = gs

visits_claims : Permᴰ (claim_groups rows) (swapped (claim_groups rows))
unfolding group_by
visits_claims = Permᴰ.swap refl refl

visits_withdrawals :
    Permᴰ (withdrawal_groups withdrawal_rows) (swapped (withdrawal_groups withdrawal_rows))
unfolding group_by
visits_withdrawals = Permᴰ.cons refl Permᴰ.nil

process_claims-calls_example :
    (batches : List RewardClaimsBatch) × (subs : List Submission) × (s' : ProcessState ℕ)
    × (process_claims signing node registry 2 (λ w. swapped) start ≡ some (ok subs, s'))
    × ((m : ContractId)
        → items_of (λ b. b.signer_manager) (λ b. b.stakers) m batches ≡ stakers_with m rows)
    × (map (λ sub. sub.tx.payload) subs ≡ map claims_tx_payload batches)
    × All
        (λ sub.
          IsCall registry "process-reward-claims" is_principal sub.tx.payload
          × (sub.tx.auth.tx_fee ≤ 203000))
        subs
process_claims-calls_example =
    process_claims-calls signing node registry 2 start info refl (λ w. swapped) rows claims_walk
      (omega arith) visits_claims

process_withdrawals-calls_example :
    (batches : List WithdrawalsBatch) × (subs : List Submission) × (s' : ProcessState ℕ)
    × (process_withdrawals signing node registry 2 (λ w. swapped) start ≡ some (ok subs, s'))
    × ((m : ContractId)
        → items_of (λ b. b.signer_manager) (λ b. b.items) m batches ≡ items_with m withdrawal_rows)
    × (map (λ sub. sub.tx.payload) subs ≡ map withdrawals_tx_payload batches)
    × All (λ sub. sub.tx.auth.tx_fee ≤ 203000) subs
process_withdrawals-calls_example =
    process_withdrawals-calls signing node registry 2 start info refl (λ w. swapped) withdrawal_rows
      withdrawals_walk (omega arith) visits_withdrawals

batch_claims-stakers_example :
    items_of (λ b. b.signer_manager) (λ b. b.stakers) manager (batch_claims swapped rows registry)
    ≡ standard "ann" ∷ standard "bob" ∷ []
batch_claims-stakers_example = batch_claims-stakers swapped rows registry visits_claims manager

abbrev unwrap_or : {A : Type 0} → Option A → A → A
unwrap_or none a = a
unwrap_or (some b) a = b

-- One tip: two calls for claims and one for withdrawals, of which the node refuses the second.
abbrev ended : List Submission × ProcessState ℕ
ended =
    unwrap_or (process_tip signing node registry 2 (λ w. swapped) (λ w. swapped) start) ([], start)

ended_lem :
    process_tip signing node registry 2 (λ w. swapped) (λ w. swapped) start
    ≡ some (ended.0, ended.1)
unfolding process_tip process_claims get_pending_claim_batches Claim.pending_claims_page_try_from
    Clarity.read Claim.cursor_arg Clarity.lookup Clarity.to_list Clarity.of_list
    Claim.pending_claim_try_from Clarity.without Claim.registration_key_try_from process_withdrawals
    get_pending_withdrawal_batches Withdrawal.pending_withdrawals_page_try_from
    Withdrawal.pending_withdrawal_try_from
ended_lem = refl

process_tip-nonces_example :
    Numbered 41 ended.0 ended.1.wallet.nonce
    × (accepted_nonces ended.0 ≡ consecutive 41 (length (accepted_nonces ended.0)))
    × (ended.1.wallet.nonce ≡ (41 + length (accepted_nonces ended.0)) % u64_limit)
process_tip-nonces_example =
    process_tip-nonces signing node registry 2 (λ w. swapped) (λ w. swapped) start ended.1 account 0
      ended.0 refl (omega arith) ended_lem

abbrev claims_config : RewardClaimsConfig
claims_config = record { claims_contract = registry; private_key = "secret" }

abbrev run : Option (List Submission × ℕ)
run =
    process_reward_claims signing (λ endpoint token. ok node) 2 (λ w. swapped) (λ w. swapped)
      (some claims_config) (some ("http://stacks", "")) 2 0

abbrev submissions : List Submission
submissions = (unwrap_or run ([], 0)).0

ran : run ≡ some (submissions, (unwrap_or run ([], 0)).1)
unfolding process_reward_claims process_tip process_claims get_pending_claim_batches
    Claim.pending_claims_page_try_from Clarity.read Claim.cursor_arg Clarity.lookup Clarity.to_list
    Clarity.of_list Claim.pending_claim_try_from Clarity.without Claim.registration_key_try_from
    process_withdrawals get_pending_withdrawal_batches Withdrawal.pending_withdrawals_page_try_from
    Withdrawal.pending_withdrawal_try_from
ran = refl

process_reward_claims-IsSigned_example : All (λ sub. IsSigned signing "secret" 1 sub.tx) submissions
process_reward_claims-IsSigned_example =
    process_reward_claims-IsSigned signing (λ endpoint token. ok node) 2 (λ w. swapped)
      (λ w. swapped) claims_config "http://stacks" "" 2 0 0 (unwrap_or run ([], 0)).1 node info
      submissions refl refl ran
