-- ===== src/RewardClaimProcess/Ownership.antt =====
-- Whose transactions the process submits.
use spox.Prelude.{
  ℕ, zero, suc, ◌+◌, ◌%◌, ◌^◌, String, Option, none, some, List, [], ◌∷◌, All, All-append, ◌≡◌,
  refl, ap, subst,
}
use spox.Principal.{Principal, ContractId}
use spox.Error.{Result, ok, err}
use spox.Withdrawal.{WithdrawalItem}
use spox.Batch.{Groups}
use spox.StacksApi.{
  StacksApi, NodeInfo, StacksTransaction, SubmitTxResponse, acceptance, rejection, ContractCall,
}
use spox.StacksWallet.{Signing, StacksWallet, wallet_new, set_nonce, increment_nonce, sign_tx}
use spox.RewardClaimProcess.{
  RewardClaimsConfig, ProcessState, Submission, submitted, tx_fee, wallet_after, submit,
  submit_batches, then_submit, process_claims, process_withdrawals, process_tip, process_tips,
  after_claims, after_withdrawals, after_nonce, join_tips, then_tips, set_from,
}
use spox.RewardClaimProcess.Setup.{process_reward_claims, state_new, without_wallet}
use spox.RewardClaimProcess.Ticks.{Ensures}

module _ (signing : Signing) (key : String) (chain_id : ℕ) where
  -- The wallet of a key on a chain, and a transaction that it has signed.
  abbrev pub IsWallet : StacksWallet → Type 0
  IsWallet wallet = (nonce : ℕ) × (wallet ≡ wallet_new signing key chain_id nonce)

  abbrev pub IsSigned : StacksTransaction → Type 0
  IsSigned tx =
      (nonce : ℕ) × (payload : ContractCall) × (fee : ℕ) × (tx
        ≡ sign_tx signing (wallet_new signing key chain_id nonce) payload fee)

  set_nonce-IsWallet :
      (wallet : StacksWallet) (n : ℕ) → IsWallet wallet → IsWallet (set_nonce wallet n)
  unfolding set_nonce wallet_new
  set_nonce-IsWallet wallet n (m, same) = (n, ap (λ v. set_nonce v n) same)

  wallet_after-IsWallet :
      (answer : Result SubmitTxResponse) (wallet : StacksWallet)
      → IsWallet wallet
      → IsWallet (wallet_after answer wallet)
  unfolding wallet_after increment_nonce wallet_new
  wallet_after-IsWallet (ok (acceptance txid)) wallet (m, same) =
      ((m + 1) % 2 ^ 64, ap increment_nonce same)
  wallet_after-IsWallet (ok (rejection error)) wallet h = h
  wallet_after-IsWallet (err error) wallet h = h

  -- What the process submits is signed, and leaves the wallet that of the key.
  abbrev Own : {W : Type 0} → List Submission → ProcessState W → Type 0
  Own subs s = All (λ sub. IsSigned sub.tx) subs × IsWallet s.wallet

  module _ {W : Type 0} (api : StacksApi W) where
    submit_batches-Own :
        {B : Type 0} (payload : B → ContractCall) (size : B → ℕ) (bs : List B) (s : ProcessState W)
        → IsWallet s.wallet
        → Own
            (submit_batches signing api payload size bs s).0
            (submit_batches signing api payload size bs s).1
    unfolding submit_batches
    submit_batches-Own payload size [] s h = (tt, h)
    submit_batches-Own payload size (b ∷ bs) s h =
        let (sub, s') = submit signing api (payload b) (size b) s in
        let (rest, last) =
          submit_batches-Own payload size bs s' (wallet_after-IsWallet sub.answer s.wallet h) in
        (
          (
            (
              h.0,
              payload b,
              tx_fee (size b),
              ap (λ v. sign_tx signing v (payload b) (tx_fee (size b))) h.1,
            ),
            rest,
          ),
          last,
        )

    then_submit-Own :
        {B : Type 0} (payload : B → ContractCall) (size : B → ℕ) (s : ProcessState W)
        (o : Option (Result (List B) × W))
        → IsWallet s.wallet
        → Ensures (λ r s'. Own (submitted r) s') (then_submit signing api payload size s.wallet o)
    then_submit-Own payload size s none h = tt
    then_submit-Own payload size s (some (err e, w)) h = (tt, h)
    then_submit-Own payload size s (some (ok batches, w)) h =
        submit_batches-Own payload size batches (record s { world = w }) h

    module _ (registry : ContractId) (fuel : ℕ)
        (claims_order : W → Groups ContractId Principal → Groups ContractId Principal)
        (withdrawals_order : W
          → Groups ContractId WithdrawalItem
          → Groups ContractId WithdrawalItem) where
      process_claims-Own :
          (s : ProcessState W)
          → IsWallet s.wallet
          → Ensures
              (λ r s'. Own (submitted r) s')
              (process_claims signing api registry fuel claims_order s)
      unfolding process_claims
      process_claims-Own s h = then_submit-Own _ _ s _ h

      process_withdrawals-Own :
          (s : ProcessState W)
          → IsWallet s.wallet
          → Ensures
              (λ r s'. Own (submitted r) s')
              (process_withdrawals signing api registry fuel withdrawals_order s)
      unfolding process_withdrawals
      process_withdrawals-Own s h = then_submit-Own _ _ s _ h

      joined-Own :
          (before : List Submission) (o : Option (Result (List Submission) × ProcessState W))
          → All (λ sub. IsSigned sub.tx) before
          → Ensures (λ r s'. Own (submitted r) s') o
          → Ensures Own
              (after_withdrawals signing api registry fuel claims_order withdrawals_order before o)
      joined-Own before none h k = tt
      joined-Own before (some (r, s')) h k = (All-append _ before (submitted r) h k.0, k.1)

      after_claims-Own :
          (o : Option (Result (List Submission) × ProcessState W))
          → Ensures (λ r s'. Own (submitted r) s') o
          → Ensures Own (after_claims signing api registry fuel claims_order withdrawals_order o)
      after_claims-Own none h = tt
      after_claims-Own (some (r, s₁)) h =
          joined-Own (submitted r) _ h.0 (process_withdrawals-Own s₁ h.1)

      nonce-Own :
          (account : Result _) (s : ProcessState W)
          → IsWallet s.wallet
          → Ensures Own (
              after_nonce signing api registry fuel claims_order withdrawals_order
                (set_from signing api registry fuel account s))
      nonce-Own (ok account) s h =
          after_claims-Own _ (process_claims-Own _ (set_nonce-IsWallet s.wallet account.nonce h))
      nonce-Own (err e) s h = (tt, h)

      process_tip-Own :
          (s : ProcessState W)
          → IsWallet s.wallet
          → Ensures Own (process_tip signing api registry fuel claims_order withdrawals_order s)
      unfolding process_tip
      process_tip-Own s h = nonce-Own (api.get_account s.wallet.address s.world).0 _ h

      more-Own :
          (before : List Submission) (o : Option (List Submission × ProcessState W))
          → All (λ sub. IsSigned sub.tx) before
          → Ensures Own o
          → Ensures Own
              (join_tips signing api registry fuel claims_order withdrawals_order before o)
      more-Own before none h k = tt
      more-Own before (some (rest, s)) h k = (All-append _ before rest h k.0, k.1)

      tips-Own :
          (more : ProcessState W → Option (List Submission × ProcessState W))
          (o : Option (List Submission × ProcessState W))
          → ((s : ProcessState W) → IsWallet s.wallet → Ensures Own (more s))
          → Ensures Own o
          → Ensures Own (then_tips signing api registry fuel claims_order withdrawals_order more o)
      tips-Own more none next h = tt
      tips-Own more (some (before, s)) next h = more-Own before (more s) h.0 (next s h.1)

      process_tips-Own :
          (tips : ℕ) (s : ProcessState W)
          → IsWallet s.wallet
          → Ensures Own
              (process_tips signing api registry fuel claims_order withdrawals_order tips s)
      unfolding process_tips
      process_tips-Own zero s h = (tt, h)
      process_tips-Own (suc tips) s h = tips-Own _ _ (process_tips-Own tips) (process_tip-Own s h)

module _ {W : Type 0} (signing : Signing) (client : String → String → Result (StacksApi W))
    (fuel : ℕ) (claims_order : W → Groups ContractId Principal → Groups ContractId Principal)
    (withdrawals_order : W
      → Groups ContractId WithdrawalItem
      → Groups ContractId WithdrawalItem) where
  -- If the client is built, the node names its chain, and no loop over pages runs out of fuel, then
  -- every transaction that the process hands to the node, over all the tips that it is given, is
  -- signed by a wallet of the settings' key on that chain.
  pub process_reward_claims-IsSigned :
      (config : RewardClaimsConfig) (endpoint token : String) (tips : ℕ) (w w₁ w' : W)
      (api : StacksApi W) (info : NodeInfo) (subs : List Submission)
      → client endpoint token ≡ ok api
      → api.get_node_info w ≡ (ok info, w₁)
      → process_reward_claims signing client fuel claims_order withdrawals_order
          (some config)
          (some (endpoint, token))
          tips
          w
        ≡ some (subs, w')
      → All (λ sub. IsSigned signing config.private_key info.chain_id sub.tx) subs
  unfolding process_reward_claims state_new
  process_reward_claims-IsSigned config endpoint token tips w w₁ w' api info subs built asked ran =
      let wallet = wallet_new signing config.private_key info.chain_id 0 in
      let start : ProcessState W = record { wallet = wallet; world = w₁ } in
      from_process
        (process_tips signing api config.claims_contract fuel claims_order withdrawals_order tips
          start)
        (process_tips-Own signing config.private_key info.chain_id api config.claims_contract fuel
          claims_order withdrawals_order tips start (0, refl))
        (rw (built, asked) at ran)
    where
      from_process :
          (o : Option (List Submission × ProcessState W))
          → Ensures (Own signing config.private_key info.chain_id) o
          → without_wallet signing client fuel claims_order withdrawals_order o ≡ some (subs, w')
          → All (λ sub. IsSigned signing config.private_key info.chain_id sub.tx) subs
      from_process none h e = cc
      from_process (some (ts, s)) h e =
          subst (All (λ sub. IsSigned signing config.private_key info.chain_id sub.tx)) (cc (e)) h.0
