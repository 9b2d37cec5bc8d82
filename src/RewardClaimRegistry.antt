-- ===== src/RewardClaimRegistry.antt =====
-- The client of the reward-claim registry contract (src/stacks/reward_claim_registry.rs): pages of
-- pending claims and withdrawals, the loops that fetch them all, and their batches. A loop takes
-- fuel, since the node alone decides how many pages there are; `none` is a loop still running.
pub mod Paging
pub mod Walks
use spox.Prelude.{ℕ, zero, suc, String, Option, none, some, List, [], ◌∷◌, ◌++◌}
use spox.Principal.{Principal, ContractId}
use spox.Error.{Error, Result, ok, err, invalid_stacks_response}
use spox.Exec.{Exec, lift, ◌>>=◌}
use spox.Clarity.{Value, response}
use spox.Claim
use spox.Claim.{PendingClaim, RegistrationKey, PendingClaimsPage, pending_claims_page_try_from}
use spox.Withdrawal
use spox.Withdrawal.{
  PendingWithdrawal, WithdrawalItem, WithdrawalKey, PendingWithdrawalsPage,
  pending_withdrawals_page_try_from,
}
use spox.Batch.{Groups, RewardClaimsBatch, batch_claims, WithdrawalsBatch, batch_withdrawals}
use spox.StacksApi.{StacksApi, NodeInfo, chain_tip}

-- `let ClarityValue::Response(response) = result else { … }`, and `*response.data`.
abbrev pub response_data : Value → Result Value
response_data (response committed data') = ok data'
response_data _ = err (invalid_stacks_response "expected a response")

-- An action that may still be running when its fuel is spent.
abbrev pub Running : Type 0 → Type 0 → Type 0
Running W A = W → Option (Result A × W)

module _ {W P K R : Type 0} (fetch : Option K → Exec W P) (rows : P → List R)
    (next : P → Option K) where
  abbrev after : (K → Running W (List R)) → List R → W → Option K → Option (Result (List R) × W)
  after more all w none = some (ok all, w)
  after more all w (some k) = more k w

  abbrev turn :
      (List R → K → Running W (List R)) → List R → Result P → W → Option (Result (List R) × W)
  turn more all (err e) w = some (err e, w)
  turn more all (ok page) w = after (more (all ++ rows page)) (all ++ rows page) w (next page)

  -- `loop { page = fetch(cursor)?; all.extend(rows); match next { Some => cursor, None => break } }`
  unfoldable pub page_loop : ℕ → List R → Option K → Running W (List R)
  page_loop zero all cursor w = none
  page_loop (suc fuel) all cursor w =
      turn (λ all' k w'. page_loop fuel all' (some k) w') all (fetch cursor w).0 (fetch cursor w).1

module _ {W : Type 0} (api : StacksApi W) (registry_contract : ContractId) where
  unfoldable pub get_pending_claims :
      Option String → Option RegistrationKey → Exec W PendingClaimsPage
  get_pending_claims tip cursor = do
    result ←
        api.call_read registry_contract.issuer registry_contract.name "get-pending-claims"
          registry_contract.issuer (Claim.cursor_arg cursor ∷ []) tip
    data' ← lift (response_data result)
    lift (pending_claims_page_try_from data')

  unfoldable pub get_pending_withdrawals :
      Option String → Option WithdrawalKey → Exec W PendingWithdrawalsPage
  get_pending_withdrawals tip cursor = do
    result ←
        api.call_read registry_contract.issuer registry_contract.name "get-pending-withdrawals"
          registry_contract.issuer (Withdrawal.cursor_arg cursor ∷ []) tip
    data' ← lift (response_data result)
    lift (pending_withdrawals_page_try_from data')

  -- The chain tip is asked for once, and every page is read at it.
  abbrev then_walk : {R : Type 0} → (String → Running W R) → Result NodeInfo → Running W R
  then_walk walk (err e) w = some (err e, w)
  then_walk walk (ok info) w = walk (chain_tip api info) w

  unfoldable pub get_all_pending_claims : ℕ → Running W (List PendingClaim)
  unfolding page_loop get_pending_claims
  get_all_pending_claims fuel w =
      then_walk
        (λ tip.
          page_loop (get_pending_claims (some tip)) (λ page. page.claims) (λ page. page.next) fuel
            [] none)
        (api.get_node_info w).0 (api.get_node_info w).1

  unfoldable pub get_all_pending_withdrawals : ℕ → Running W (List PendingWithdrawal)
  unfolding page_loop get_pending_withdrawals
  get_all_pending_withdrawals fuel w =
      then_walk
        (λ tip.
          page_loop (get_pending_withdrawals (some tip)) (λ page. page.withdrawals)
            (λ page. page.next) fuel [] none)
        (api.get_node_info w).0 (api.get_node_info w).1

  -- `Ok(batch(rows))` after `?`.
  abbrev pub map_ok : {A B : Type 0} → (A → B) → Option (Result A × W) → Option (Result B × W)
  map_ok f none = none
  map_ok f (some (ok a, w)) = some (ok (f a), w)
  map_ok f (some (err e, w)) = some (err e, w)

  unfoldable pub get_pending_claim_batches :
      (Groups ContractId Principal → Groups ContractId Principal)
      → ℕ
      → Running W (List RewardClaimsBatch)
  unfolding get_all_pending_claims
  get_pending_claim_batches iterate fuel w =
      map_ok (λ claims. batch_claims iterate claims registry_contract)
        (get_all_pending_claims fuel w)

  unfoldable pub get_pending_withdrawal_batches :
      (Groups ContractId WithdrawalItem → Groups ContractId WithdrawalItem)
      → ℕ
      → Running W (List WithdrawalsBatch)
  unfolding get_all_pending_withdrawals
  get_pending_withdrawal_batches iterate fuel w =
      map_ok (λ withdrawals. batch_withdrawals iterate withdrawals registry_contract)
        (get_all_pending_withdrawals fuel w)
