-- ===== src/Examples/Calls.antt =====
-- The theorems on the loop over pages, the contract calls and the signatures at work.
use spox.Prelude.{
  ℕ, String, Bool-cases, inl, inr, beq_self, list_eq, nat_eq, string_eq, ◌==◌, if◌then◌else◌, ◌≤◌,
  ◌<◌, zero, suc, ◌↔◌, ◌≢◌, Option, some, none, List, [], ◌∷◌, ◌≡◌, refl, arith,
}
use spox.Principal.{contract_eq, standard}
use spox.Error.{ok}
use spox.Exec.{Exec}
use spox.StacksWallet.Signatures.{IsSigning, Verifies, sign_tx-Verifies}
use spox.Withdrawal.{withdrawal_item_new}
use spox.Batch.{WithdrawalsBatch, num_withdrawals}
use spox.RewardClaimRegistry.{page_loop, get_pending_claims}
use spox.RewardClaimRegistry.Paging.{Walk, page_loop_iff, page_loop-ends}
use spox.ContractCalls.{withdrawals_tx_payload}
use spox.ContractCalls.Arguments.{IsCall, is_item, withdrawals-IsCall}
use spox.StacksApi.{ContractCall}
use spox.StacksWallet.{Signing, sign_tx, wallet_new}
use spox.Examples.{registry, manager, rows, node, signing}

-- The two pages through the loop, with fuel for exactly two.
page_loop_iff_example :
    (page_loop
        (get_pending_claims node registry (some "tip"))
        (λ page. page.claims)
        (λ page. page.next)
        2
        []
        none
        0
      ≡ some (ok rows, 0))
    ↔ ((n : ℕ) × (n ≤ 2)
        × Walk
            (get_pending_claims node registry (some "tip"))
            (λ page. page.claims)
            (λ page. page.next)
            n
            none
            0
            (ok rows)
            0)
page_loop_iff_example =
    page_loop_iff (get_pending_claims node registry (some "tip")) (λ page. page.claims)
      (λ page. page.next) 2 none 0 0 (ok rows)

-- Pages that count down from 3.
abbrev countdown : Option ℕ → Exec ℕ (List ℕ × Option ℕ)
countdown none w = (ok ([], some 3), w)
countdown (some zero) w = (ok ([], none), w)
countdown (some (suc k)) w = (ok (suc k ∷ [], some k), w)

abbrev rank : Option ℕ → ℕ
rank none = 5
rank (some k) = suc k

countdown_lem :
    (c : Option ℕ) (w : ℕ) (p : List ℕ × Option ℕ) (k : ℕ)
    → (countdown c w).0 ≡ ok p
    → p.1 ≡ some k
    → rank (some k) < rank c
countdown_lem none w p k e f = ground (arith, e, f)
countdown_lem (some zero) w p k e f = ground (arith, e, f)
countdown_lem (some (suc j)) w p k e f = ground (arith, e, f)

page_loop-ends_example : page_loop countdown (λ p. p.0) (λ p. p.1) 6 [] none 0 ≢ none
page_loop-ends_example =
    page_loop-ends countdown (λ p. p.0) (λ p. p.1) rank countdown_lem 6 [] none 0 (omega arith)

abbrev one_withdrawal : WithdrawalsBatch
one_withdrawal = record {
  registry_contract = registry;
  signer_manager = manager;
  items = withdrawal_item_new (standard "dan") 4 ∷ [];
}

withdrawals-IsCall_example :
    IsCall registry "settle-pending-withdrawals" is_item (withdrawals_tx_payload one_withdrawal)
unfolding num_withdrawals
withdrawals-IsCall_example =
    withdrawals-IsCall registry one_withdrawal (omega arith, omega arith, refl)
      ((standard "dan", 4, refl), tt)

abbrev call : ContractCall
call = withdrawals_tx_payload one_withdrawal

-- Two keys, which a signature tells apart by its recovery id; its other bytes are the digest.
abbrev public_key : String → String
public_key secret = if secret == "secret" then "one" else "two"

abbrev key_at : ℕ → String
key_at id = if id == 0 then "one" else "two"

abbrev recover : List ℕ → List ℕ → Option String
recover digest [] = none
recover digest (id ∷ bytes) = if bytes == digest then some (key_at id) else none

abbrev two_keys : Signing
two_keys = record signing {
  p2pkh_address = λ is_mainnet secret. public_key secret;
  sign_ecdsa_recoverable = λ digest secret. (if secret == "secret" then 0 else 1, digest);
}

two_keys-IsSigning : IsSigning two_keys recover public_key (λ key. key)
two_keys-IsSigning = record {
  clears = λ c s. refl;
  recovery_id = λ digest secret. elim (Bool-cases (secret == "secret")) [
    | inl first ↦ rw first (omega arith)
    | inr second ↦ rw second (omega arith)
  ];
  recovers = λ digest secret. elim (Bool-cases (secret == "secret")) [
    | inl first ↦ rw (first, beq_self list_eq digest) refl
    | inr second ↦ rw (second, beq_self list_eq digest) refl
  ];
  hashes = λ is_mainnet secret. refl;
}

sign_tx-Verifies_example :
    let tx = sign_tx two_keys (wallet_new two_keys "secret" 1 41) call 5000 in
    Verifies two_keys recover (λ key. key) tx
    × (tx.auth.nonce ≡ 41)
    × (tx.chain_id ≡ 1)
    × (tx.auth.tx_fee ≡ 5000)
    × (tx.payload ≡ call)
sign_tx-Verifies_example =
    sign_tx-Verifies two_keys recover public_key (λ key. key) two_keys-IsSigning "secret" 1 41 call
      5000
