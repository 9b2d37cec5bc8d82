-- ===== src/ContractCalls.antt =====
-- The payloads of the two contract calls (src/stacks/transaction.rs, and the `IntoContractCall`
-- implementations of src/stacks/reward_claim_registry.rs).
pub mod Arguments
use spox.Prelude.{String, List, [], ◌∷◌, map}
use spox.Principal.{ContractId}
use spox.Clarity.{Value, TraitId, principal, tuple, callable_contract, of_list}
use spox.Batch.{RewardClaimsBatch, WithdrawalsBatch}
use spox.StacksApi.{ContractCall}

abbrev pub reward_claim_trait_name : String
reward_claim_trait_name = "reward-claim-signer-manager-trait"

unfoldable pub make_trait_identifier : ContractId → TraitId
make_trait_identifier contract = record {
  name = reward_claim_trait_name;
  contract_identifier = contract;
}

-- IntoContractCall::into_tx_payload, at an implementation's name, contract and arguments.
unfoldable pub into_tx_payload : String → ContractId → List Value → ContractCall
into_tx_payload function_name contract_identifier args = record {
  address = contract_identifier.issuer;
  contract_name = contract_identifier.name;
  function_name = function_name;
  function_args = args;
}

unfoldable pub claims_contract_args : RewardClaimsBatch → List Value
unfolding make_trait_identifier
claims_contract_args batch =
    callable_contract batch.signer_manager (make_trait_identifier batch.registry_contract)
    ∷ Value.list (of_list (map (λ staker. principal staker) batch.stakers))
    ∷ []

unfoldable pub claims_tx_payload : RewardClaimsBatch → ContractCall
unfolding into_tx_payload claims_contract_args
claims_tx_payload batch =
    into_tx_payload "process-reward-claims" batch.registry_contract (claims_contract_args batch)

unfoldable pub withdrawals_contract_args : WithdrawalsBatch → List Value
unfolding make_trait_identifier
withdrawals_contract_args batch =
    callable_contract batch.signer_manager (make_trait_identifier batch.registry_contract)
    ∷ Value.list (of_list (map (λ item. tuple item.fields) batch.items))
    ∷ []

unfoldable pub withdrawals_tx_payload : WithdrawalsBatch → ContractCall
unfolding into_tx_payload withdrawals_contract_args
withdrawals_tx_payload batch =
    into_tx_payload "settle-pending-withdrawals" batch.registry_contract
      (withdrawals_contract_args batch)
