-- ===== src/ContractCalls/Arguments.antt =====
-- The contract calls against the signatures of the functions that they call
-- (contracts/contracts/reward-claim-registry.clar).
use spox.Prelude.{
  ℕ, zero, suc, ◌≤◌, String, Bool, true, false, Option, some, List, [], ◌∷◌, map, length, ◌&&◌, All,
  All-map, ◌==◌, string_eq, ◌≡◌, refl, arith,
}
use spox.Principal.{Principal, ContractId, contract_eq}
use spox.Clarity.{
  Value, principal, tuple, u_int, callable_contract, of_list, Values, nil, cons, lookup, list,
}
use spox.Claim.{PendingClaim}
use spox.Withdrawal.{WithdrawalItem, withdrawal_item_new}
use spox.Batch.{
  Groups, RewardClaimsBatch, num_stakers, batch_claims, WithdrawalsBatch, num_withdrawals,
}
use spox.Batch.Claims.{Callable, batch_claims-Callable}
use spox.StacksApi.{ContractCall}
use spox.ContractCalls.{claims_tx_payload, withdrawals_tx_payload}

-- A value of the type `principal`, and of the type `{ staker: principal, request-id: uint }`.
abbrev pub is_principal : Value → Bool
is_principal (principal p) = true
is_principal _ = false

abbrev has_principal : Option Value → Bool
has_principal (some (principal p)) = true
has_principal _ = false

abbrev has_uint : Option Value → Bool
has_uint (some (u_int n)) = true
has_uint _ = false

abbrev pub is_item : Value → Bool
is_item (tuple m) = has_principal (lookup "staker" m) && has_uint (lookup "request-id" m)
is_item _ = false

-- A list of at most `room` values that pass a test.
abbrev pub values_fit : (Value → Bool) → ℕ → Values → Bool
values_fit test room nil = true
values_fit test zero (cons v vs) = false
values_fit test (suc room) (cons v vs) = test v && values_fit test room vs

-- A signer manager that is passed as the registry's trait, and a list of at most 100 elements.
abbrev pub args_fit : ContractId → (Value → Bool) → List Value → Bool
args_fit registry test (callable_contract signer trait ∷ list vs ∷ []) =
    (trait.name == "reward-claim-signer-manager-trait")
    && (trait.contract_identifier == registry)
    && values_fit test 100 vs
args_fit registry test _ = false

-- A call of a function of the registry contract with arguments of the types that it declares.
pub record IsCall (registry : ContractId) (name : String) (test : Value → Bool)
    (call : ContractCall) : Type 0 where
  pub address : call.address ≡ registry.issuer
  pub contract_name : call.contract_name ≡ registry.name
  pub function_name : call.function_name ≡ name
  pub function_args : args_fit registry test call.function_args ≡ true

values_fit-map :
    {A : Type 0} (test : Value → Bool) (f : A → Value) (room : ℕ) (xs : List A)
    → All (λ x. test (f x) ≡ true) xs
    → length xs ≤ room
    → values_fit test room (of_list (map f xs)) ≡ true
unfolding of_list
values_fit-map test f room [] h le = refl
values_fit-map test f zero (x ∷ xs) h le = absurd (omega arith)
values_fit-map test f (suc room) (x ∷ xs) h le = ground (arith, values_fit-map test f room xs h.1)

All-of : {A : Type 0} {P : A → Type 0} → ((a : A) → P a) → (xs : List A) → All P xs
All-of f [] = tt
All-of f (x ∷ xs) = (f x, All-of f xs)

pub claims-IsCall :
    (registry : ContractId) (b : RewardClaimsBatch)
    → Callable registry (num_stakers b) b.registry_contract
    → IsCall registry "process-reward-claims" is_principal (claims_tx_payload b)
unfolding claims_tx_payload num_stakers
claims-IsCall registry b h = ground (
  arith,
  values_fit-map is_principal (λ staker. principal staker) 100 b.stakers
      (All-of (λ staker. refl) b.stakers) h.1,
  contract_eq.beq_iff b.registry_contract registry,
)

-- Every batch of claims makes a call of `process-reward-claims` in the registry contract whose
-- arguments have the types that the contract declares: at most 100 principals.
pub claims_calls :
    (iterate : Groups ContractId Principal → Groups ContractId Principal)
    (claims : List PendingClaim) (registry : ContractId)
    → All
        (λ b. IsCall registry "process-reward-claims" is_principal (claims_tx_payload b))
        (batch_claims iterate claims registry)
claims_calls iterate claims registry =
    All-map (claims-IsCall registry) _ (batch_claims-Callable iterate claims registry)

item_fits :
    (i : WithdrawalItem)
    → (p : Principal) × (n : ℕ) × (i ≡ withdrawal_item_new p n)
    → is_item (tuple i.fields) ≡ true
unfolding withdrawal_item_new lookup
item_fits i (p, n, e) = rw e refl

pub withdrawals-IsCall :
    (registry : ContractId) (b : WithdrawalsBatch)
    → Callable registry (num_withdrawals b) b.registry_contract
    → All (λ i. (p : Principal) × (n : ℕ) × (i ≡ withdrawal_item_new p n)) b.items
    → IsCall registry "settle-pending-withdrawals" is_item (withdrawals_tx_payload b)
unfolding withdrawals_tx_payload num_withdrawals
withdrawals-IsCall registry b h built = ground (
  arith,
  values_fit-map is_item (λ item. tuple item.fields) 100 b.items (All-map item_fits b.items built)
      h.1,
  contract_eq.beq_iff b.registry_contract registry,
)
