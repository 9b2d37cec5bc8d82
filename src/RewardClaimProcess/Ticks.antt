-- ===== src/RewardClaimProcess/Ticks.antt =====
-- One chain tip of the claims process: its nonces, and what it hands to the node.
use mathlib.Core.Path.{subst}
use spox.Prelude.{ℕ, ◌+◌, ◌%◌, ◌<◌, Option, none, some, List, [], length, ◌≡◌, refl}
use spox.Principal.{Principal, ContractId}
use spox.Error.{Error, Result, ok, err}
use spox.Withdrawal.{WithdrawalItem}
use spox.Batch.{Groups}
use spox.StacksApi.{StacksApi, AccountInfo, ContractCall}
use spox.StacksWallet.{Signing, u64_limit, set_nonce}
use spox.RewardClaimProcess.{
  ProcessState, Submission, submitted, then_submit, process_claims, process_withdrawals,
  process_tip, after_claims, after_withdrawals,
}
use spox.RewardClaimProcess.Submissions.{
  Numbered, Numbered-append, accepted_nonces, consecutive, Numbered-consecutive, Numbered-last,
  submit_batches-Numbered,
}

-- What holds of the result and the state of an action that ends.
abbrev pub Ensures : {A S : Type 0} → (A → S → Type 0) → Option (A × S) → Type 0
Ensures P none = Unit
Ensures P (some (a, s)) = P a s

pub ensured :
    {A S : Type 0} (P : A → S → Type 0) (o : Option (A × S)) (a : A) (s : S)
    → Ensures P o
    → o ≡ some (a, s)
    → P a s
ensured P o a s h e = subst (Ensures P) e h

module _ {W : Type 0} (signing : Signing) (api : StacksApi W) where
  -- From one state to another by these submissions.
  abbrev Moves : ProcessState W → List Submission → ProcessState W → Type 0
  Moves s subs s' = Numbered s.wallet.nonce subs s'.wallet.nonce

  then_submit-Moves :
      {B : Type 0} (payload : B → ContractCall) (size : B → ℕ) (s : ProcessState W)
      (o : Option (Result (List B) × W))
      → Ensures (λ r s'. Moves s (submitted r) s') (then_submit signing api payload size s.wallet o)
  then_submit-Moves payload size s none = tt
  then_submit-Moves payload size s (some (err e, w)) = refl
  then_submit-Moves payload size s (some (ok batches, w)) =
      submit_batches-Numbered signing api payload size batches (record s { world = w })

  module _ (registry : ContractId) (fuel : ℕ)
      (claims_order : W → Groups ContractId Principal → Groups ContractId Principal)
      (withdrawals_order : W
        → Groups ContractId WithdrawalItem
        → Groups ContractId WithdrawalItem) where
    process_claims-Moves :
        (s : ProcessState W)
        → Ensures
            (λ r s'. Moves s (submitted r) s')
            (process_claims signing api registry fuel claims_order s)
    unfolding process_claims
    process_claims-Moves s = then_submit-Moves _ _ s _

    process_withdrawals-Moves :
        (s : ProcessState W)
        → Ensures
            (λ r s'. Moves s (submitted r) s')
            (process_withdrawals signing api registry fuel withdrawals_order s)
    unfolding process_withdrawals
    process_withdrawals-Moves s = then_submit-Moves _ _ s _

    -- If the account cannot be read the tip is passed over: nothing is submitted and the wallet
    -- stays as it is.
    pub process_tip-skipped :
        (s : ProcessState W) (e : Error) (w : W)
        → api.get_account s.wallet.address s.world ≡ (err e, w)
        → process_tip signing api registry fuel claims_order withdrawals_order s
          ≡ some ([], record s { world = w })
    unfolding process_tip
    process_tip-skipped s e w h = rw h

    after_claims-Numbered :
        (s : ProcessState W) (o : Option (Result (List Submission) × ProcessState W))
        → Ensures (λ r s'. Moves s (submitted r) s') o
        → Ensures
            (λ subs s'. Moves s subs s')
            (after_claims signing api registry fuel claims_order withdrawals_order o)
    after_claims-Numbered s none h = tt
    after_claims-Numbered s (some (r, s₁)) h = joined _ (process_withdrawals-Moves s₁)
      where
        joined :
            (o : Option (Result (List Submission) × ProcessState W))
            → Ensures (λ r' s'. Moves s₁ (submitted r') s') o
            → Ensures
                (λ subs s'. Moves s subs s')
                (after_withdrawals signing api registry fuel claims_order withdrawals_order
                  (submitted r)
                  o)
        joined none k = tt
        joined (some (r', s')) k = Numbered-append (submitted r) (submitted r') _ _ _ h k

    -- If the account is read with its nonce, the transactions of the tip, those for claims and then
    -- those for withdrawals, are numbered from that nonce on: a transaction that the node refuses
    -- leaves its nonce to the next one, the accepted ones have consecutive nonces, and the wallet
    -- ends at the nonce after them, all as 64-bit words.
    pub process_tip-nonces :
        (s s' : ProcessState W) (account : AccountInfo) (w : W) (subs : List Submission)
        → api.get_account s.wallet.address s.world ≡ (ok account, w)
        → account.nonce < u64_limit
        → process_tip signing api registry fuel claims_order withdrawals_order s ≡ some (subs, s')
        → Numbered account.nonce subs s'.wallet.nonce
          × (accepted_nonces subs ≡ consecutive account.nonce (length (accepted_nonces subs)))
          × (s'.wallet.nonce ≡ (account.nonce + length (accepted_nonces subs)) % u64_limit)
    unfolding process_tip set_nonce
    process_tip-nonces s s' account w subs asked lt h =
        let s₁ : ProcessState W = record { wallet = set_nonce s.wallet account.nonce; world = w } in
        let moves : Numbered account.nonce subs s'.wallet.nonce =
          ensured (λ subs s'. Moves s₁ subs s') _ subs s'
            (after_claims-Numbered s₁ _ (process_claims-Moves s₁)) (rw asked at h) in
        (
          moves,
          Numbered-consecutive subs account.nonce s'.wallet.nonce moves,
          Numbered-last subs account.nonce s'.wallet.nonce lt moves,
        )
