-- ===== src/Batch.antt =====
-- Batching of claims and withdrawals by signer manager (src/stacks/reward_claim_registry.rs). The
-- groups of a `HashMap` are an association list with one entry for each key; the order in which its
-- loop visits them is `iterate`, an argument of the functions.
pub mod Chunks
pub mod Groups
pub mod Laws
pub mod Claims
use spox.Prelude.{ℕ, zero, suc, List, [], ◌∷◌, ◌++◌, length, take, drop, Eq, ◌==◌, if◌then◌else◌}
use spox.Principal.{Principal, ContractId, contract_eq}
use spox.Claim.{PendingClaim}
use spox.Withdrawal.{WithdrawalItem, PendingWithdrawal}

abbrev pub max_stakers_length : ℕ
max_stakers_length = 100

-- slice::chunks. Each round takes an element at least, so as many rounds as elements are enough.
module _ {ℓ} {A : Type ℓ} where
  unfoldable pub chunk_rounds : ℕ → ℕ → List A → List (List A)
  chunk_rounds zero n xs = []
  chunk_rounds (suc rounds) n [] = []
  chunk_rounds (suc rounds) n (x ∷ xs) = take n (x ∷ xs) ∷ chunk_rounds rounds n (drop n (x ∷ xs))

  unfoldable pub chunks : ℕ → List A → List (List A)
  unfolding chunk_rounds
  chunks n xs = chunk_rounds (length xs) n xs

abbrev pub Groups : Type 0 → Type 0 → Type 0
Groups K V = List (K × List V)

module _ {K V : Type 0} ⦃e : Eq K⦄ where
  -- groups.entry(k).or_default().push(v)
  unfoldable pub push_to : K → V → Groups K V → Groups K V
  push_to k v [] = (k, v ∷ []) ∷ []
  push_to k v ((j, vs) ∷ g) = if j == k then (j, vs ++ v ∷ []) ∷ g else (j, vs) ∷ push_to k v g

module _ {K V R : Type 0} ⦃e : Eq K⦄ where
  -- The first loop of both functions, over rows with a key and a value.
  unfoldable pub group_by : (R → K) → (R → V) → Groups K V → List R → Groups K V
  unfolding push_to
  group_by key value g [] = g
  group_by key value g (r ∷ rs) = group_by key value (push_to (key r) (value r) g) rs

module _ {K V B : Type 0} where
  -- The second loop of both functions: a batch for each chunk of each group.
  unfoldable pub batch_chunks : (K → List V → B) → K → List (List V) → List B
  batch_chunks make k [] = []
  batch_chunks make k (c ∷ cs) = make k c ∷ batch_chunks make k cs

  unfoldable pub batch_groups : ℕ → (K → List V → B) → Groups K V → List B
  unfolding batch_chunks chunks
  batch_groups n make [] = []
  batch_groups n make ((k, vs) ∷ g) = batch_chunks make k (chunks n vs) ++ batch_groups n make g

pub record RewardClaimsBatch : Type 0 where
  pub signer_manager : ContractId
  pub stakers : List Principal
  pub registry_contract : ContractId

unfoldable pub num_stakers : RewardClaimsBatch → ℕ
num_stakers batch = length batch.stakers

pub record WithdrawalsBatch : Type 0 where
  pub signer_manager : ContractId
  pub items : List WithdrawalItem
  pub registry_contract : ContractId

unfoldable pub num_withdrawals : WithdrawalsBatch → ℕ
num_withdrawals batch = length batch.items

unfoldable pub batch_claims :
    (Groups ContractId Principal → Groups ContractId Principal)
    → List PendingClaim
    → ContractId
    → List RewardClaimsBatch
unfolding group_by batch_groups
batch_claims iterate claims registry_contract =
    batch_groups max_stakers_length
      (λ signer_manager chunk. record {
        signer_manager = signer_manager;
        stakers = chunk;
        registry_contract = registry_contract;
      })
      (iterate (group_by (λ c. c.signer_manager) (λ c. c.staker) [] claims))

unfoldable pub batch_withdrawals :
    (Groups ContractId WithdrawalItem → Groups ContractId WithdrawalItem)
    → List PendingWithdrawal
    → ContractId
    → List WithdrawalsBatch
unfolding group_by batch_groups
batch_withdrawals iterate withdrawals registry_contract =
    batch_groups max_stakers_length
      (λ signer_manager chunk. record {
        signer_manager = signer_manager;
        items = chunk;
        registry_contract = registry_contract;
      })
      (iterate (group_by (λ w. w.signer_manager) (λ w. w.item) [] withdrawals))
