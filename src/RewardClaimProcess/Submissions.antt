-- ===== src/RewardClaimProcess/Submissions.antt =====
-- What a loop over batches submits: every batch, with consecutive nonces and the fee of its size.
use mathlib.Core.Path.{subst}
use spox.Prelude.{
  ℕ, zero, suc, ◌+◌, ◌%◌, ◌<◌, Bool, true, false, List, [], ◌∷◌, ◌++◌, map, length, All,
  if◌then◌else◌, ◌≡◌, refl, ap, arith,
}
use spox.Error.{Result, ok, err}
use spox.StacksApi.{StacksApi, SubmitTxResponse, acceptance, rejection, ContractCall}
use spox.StacksWallet.{Signing, StacksWallet, u64_limit, sign_tx}
use spox.RewardClaimProcess.{ProcessState, Submission, tx_fee, wallet_after, submit, submit_batches}

abbrev pub accepted : Result SubmitTxResponse → Bool
accepted (ok (acceptance txid)) = true
accepted (ok (rejection error)) = false
accepted (err error) = false

-- The nonce that a submission leaves.
abbrev pub next_nonce : Submission → ℕ → ℕ
next_nonce s n = if accepted s.answer then (n + 1) % u64_limit else n

-- From one nonce to another: each submission has the nonce that the ones before it leave, and an
-- accepted one moves it on by one, as a 64-bit word.
abbrev pub Numbered : ℕ → List Submission → ℕ → Type 0
Numbered n [] n' = n' ≡ n
Numbered n (s ∷ ss) n' = (s.tx.auth.nonce ≡ n) × Numbered (next_nonce s n) ss n'

pub Numbered-append :
    (ss ts : List Submission) (n m k : ℕ)
    → Numbered n ss m
    → Numbered m ts k
    → Numbered n (ss ++ ts) k
Numbered-append [] ts n m k h t = rw h at t
Numbered-append (s ∷ ss) ts n m k h t = (h.0, Numbered-append ss ts (next_nonce s n) m k h.1 t)

-- The nonces of the accepted transactions, and `k` consecutive nonces.
abbrev pub accepted_nonces : List Submission → List ℕ
accepted_nonces [] = []
accepted_nonces (s ∷ ss) =
    if accepted s.answer then s.tx.auth.nonce ∷ accepted_nonces ss else accepted_nonces ss

abbrev pub consecutive : ℕ → ℕ → List ℕ
consecutive n zero = []
consecutive n (suc k) = n ∷ consecutive ((n + 1) % u64_limit) k

pub Numbered-consecutive :
    (ss : List Submission) (n n' : ℕ)
    → Numbered n ss n'
    → accepted_nonces ss ≡ consecutive n (length (accepted_nonces ss))
Numbered-consecutive [] n n' h = refl
Numbered-consecutive (s ∷ ss) n n' h =
    let ih = Numbered-consecutive ss (next_nonce s n) n' h.1 in ground arith

pub Numbered-last :
    (ss : List Submission) (n n' : ℕ)
    → n < u64_limit
    → Numbered n ss n'
    → n' ≡ (n + length (accepted_nonces ss)) % u64_limit
Numbered-last [] n n' lt h = omega arith
Numbered-last (s ∷ ss) n n' lt h =
    ground (arith, Numbered-last ss (next_nonce s n) n' (ground arith) h.1)

wallet_after_nonce :
    (answer : Result SubmitTxResponse) (wallet : StacksWallet)
    → (wallet_after answer wallet).nonce
      ≡ (if accepted answer then (wallet.nonce + 1) % u64_limit else wallet.nonce)
unfolding wallet_after
wallet_after_nonce (ok (acceptance txid)) wallet = refl
wallet_after_nonce (ok (rejection error)) wallet = refl
wallet_after_nonce (err error) wallet = refl

wallet_after_rest :
    (answer : Result SubmitTxResponse) (wallet : StacksWallet)
    → wallet_after answer wallet ≡ record wallet { nonce = (wallet_after answer wallet).nonce }
unfolding wallet_after
wallet_after_rest (ok (acceptance txid)) wallet = refl
wallet_after_rest (ok (rejection error)) wallet = refl
wallet_after_rest (err error) wallet = refl

module _ {W : Type 0} (signing : Signing) (api : StacksApi W) {B : Type 0}
    (payload : B → ContractCall) (size : B → ℕ) where
  pub submit_batches-Numbered :
      (batches : List B) (s : ProcessState W)
      → Numbered s.wallet.nonce
          (submit_batches signing api payload size batches s).0
          (submit_batches signing api payload size batches s).1.wallet.nonce
  unfolding submit_batches sign_tx
  submit_batches-Numbered [] s = refl
  submit_batches-Numbered (b ∷ bs) s =
      let (sub, s') = submit signing api (payload b) (size b) s in
      let (subs, s'') = submit_batches signing api payload size bs s' in
      (
        refl,
        subst (λ n. Numbered n subs s''.wallet.nonce) (wallet_after_nonce sub.answer s.wallet)
            (submit_batches-Numbered bs s'),
      )

  -- A transaction for each batch, in their order, whatever the answers to those before it.
  pub submit_batches-each :
      (batches : List B) (s : ProcessState W)
      → (map (λ sub. sub.tx.payload) (submit_batches signing api payload size batches s).0
          ≡ map payload batches)
        × (map (λ sub. sub.tx.auth.tx_fee) (submit_batches signing api payload size batches s).0
            ≡ map (λ b. tx_fee (size b)) batches)
  unfolding submit_batches sign_tx
  submit_batches-each [] s = (refl, refl)
  submit_batches-each (b ∷ bs) s =
      let rest = submit_batches-each bs (submit signing api (payload b) (size b) s).1 in
      (ap (◌∷◌ (payload b)) rest.0, ap (◌∷◌ (tx_fee (size b))) rest.1)

  -- What holds of every batch holds of the payload and the fee of every transaction.
  pub submit_batches-All :
      {P : B → Type 0} (Q : ContractCall → ℕ → Type 0)
      → ((b : B) → P b → Q (payload b) (tx_fee (size b)))
      → (batches : List B) (s : ProcessState W) → All P batches
      → All
          (λ sub. Q sub.tx.payload sub.tx.auth.tx_fee)
          (submit_batches signing api payload size batches s).0
  unfolding submit_batches sign_tx
  submit_batches-All Q q [] s h = tt
  submit_batches-All Q q (b ∷ bs) s h =
      (q b h.0, submit_batches-All Q q bs (submit signing api (payload b) (size b) s).1 h.1)

  -- Of the wallet the nonce alone changes.
  pub submit_batches-wallet :
      (batches : List B) (s : ProcessState W)
      → (submit_batches signing api payload size batches s).1.wallet ≡ record (s.wallet) {
        nonce = (submit_batches signing api payload size batches s).1.wallet.nonce;
      }
  unfolding submit_batches
  submit_batches-wallet [] s = refl
  submit_batches-wallet (b ∷ bs) s =
      let (sub, s') = submit signing api (payload b) (size b) s in
      ground (arith, submit_batches-wallet bs s', wallet_after_rest sub.answer s.wallet)
