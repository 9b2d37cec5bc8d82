-- ===== src/StacksWallet/Signatures.antt =====
-- What a signed transaction carries.
use spox.Prelude.{
  ℕ, ◌%◌, ◌≤◌, String, Bool, Option, some, List, ◌∷◌, arith, ◌∙◌, ◌==◌, nat_eq, if◌then◌else◌, ◌≡◌,
  refl, ap, sym,
}
use spox.StacksApi.{
  ContractCall, SpendingCondition, StacksTransaction, mainnet, testnet, originator,
}
use spox.StacksWallet.{Signing, StacksWallet, to_byte_array, tx_digest, wallet_new, sign_tx}

tx_digest-signature :
    (signing : Signing) (tx : StacksTransaction) (s : List ℕ)
    → ((c : SpendingCondition) (s : List ℕ)
        → signing.into_initial_sighash_auth (record c { signature = s })
          ≡ signing.into_initial_sighash_auth c)
    → tx_digest signing tx
      ≡ tx_digest signing (record tx { auth = record (tx.auth) { signature = s } })
unfolding tx_digest
tx_digest-signature signing tx s clears =
    ap
      (λ a.
        signing.make_sighash_presign (signing.txid (record tx { auth = a })) tx.auth.tx_fee
          tx.auth.nonce)
      (sym (clears tx.auth s))

module _ (signing : Signing) (wallet : StacksWallet) (payload : ContractCall) (tx_fee : ℕ) where
  -- The transaction carries the wallet's nonce, the fee and the payload as they were given, and
  -- denies nothing but by its originator; its version fits its chain id.
  pub sign_tx-fields :
      ((sign_tx signing wallet payload tx_fee).auth.nonce ≡ wallet.nonce)
      × ((sign_tx signing wallet payload tx_fee).auth.tx_fee ≡ tx_fee)
      × ((sign_tx signing wallet payload tx_fee).payload ≡ payload)
      × ((sign_tx signing wallet payload tx_fee).post_condition_mode ≡ originator)
      × ((sign_tx signing wallet payload tx_fee).version ≡ (
          if (sign_tx signing wallet payload tx_fee).chain_id == signing.chain_id_mainnet
          then mainnet
          else testnet))
  unfolding sign_tx
  sign_tx-fields = (refl, refl, refl, refl, refl)

-- What stacks-core and secp256k1 document. Clearing an authorization drops its signature; a recovery id
-- is at most 3, and with it the public key is recovered from a signature of the digest; and the address
-- of a key is the hash of its public key. `recover` takes the 65 bytes of a signature on the wire, and
-- `public_key` and `key_hash` are those of the crates.
pub record IsSigning (signing : Signing) (recover : List ℕ → List ℕ → Option String)
    (public_key key_hash : String → String) : Type 0 where
  pub clears :
      (c : SpendingCondition) (s : List ℕ)
      → signing.into_initial_sighash_auth (record c { signature = s })
        ≡ signing.into_initial_sighash_auth c
  pub recovery_id :
      (digest : List ℕ) (secret : String) → (signing.sign_ecdsa_recoverable digest secret).0 ≤ 3
  pub recovers :
      (digest : List ℕ) (secret : String)
      → let (id, bytes) = signing.sign_ecdsa_recoverable digest secret in
        recover digest (id ∷ bytes) ≡ some (public_key secret)
  pub hashes :
      (is_mainnet : Bool) (secret : String)
      → signing.address_bytes (signing.p2pkh_address is_mainnet secret)
        ≡ key_hash (public_key secret)

-- What a node asks of a transaction with one signature (SIP-005): the public key that is recovered from
-- the signature, over the hash of the cleared transaction with the fee and the nonce, has the hash that
-- the authorization names as its signer.
abbrev pub Verifies :
    Signing → (List ℕ → List ℕ → Option String) → (String → String) → StacksTransaction → Type 0
Verifies signing recover key_hash tx =
    (public_key : String) × (recover
        (signing.make_sighash_presign
          (signing.txid (record tx { auth = signing.into_initial_sighash_auth tx.auth }))
          tx.auth.tx_fee tx.auth.nonce)
        tx.auth.signature
      ≡ some public_key)
    × (key_hash public_key ≡ tx.auth.signer)

module _ (signing : Signing) (recover : List ℕ → List ℕ → Option String)
    (public_key key_hash : String → String)
    (laws : IsSigning signing recover public_key key_hash) where
  byte_lem : (n : ℕ) → n ≤ 3 → n % 256 ≡ n
  byte_lem n h = omega (arith, h)

  pub sign_tx-Verifies :
      (secret : String) (chain_id nonce : ℕ) (payload : ContractCall) (tx_fee : ℕ)
      → let tx = sign_tx signing (wallet_new signing secret chain_id nonce) payload tx_fee in
        Verifies signing recover key_hash tx
        × (tx.auth.nonce ≡ nonce)
        × (tx.chain_id ≡ chain_id)
        × (tx.auth.tx_fee ≡ tx_fee)
        × (tx.payload ≡ payload)
  unfolding sign_tx wallet_new to_byte_array tx_digest
  sign_tx-Verifies secret chain_id nonce payload tx_fee =
      let wallet = wallet_new signing secret chain_id nonce in
      let signed = sign_tx signing wallet payload tx_fee in
      let digest = tx_digest signing signed in
      let (id, bytes) = signing.sign_ecdsa_recoverable digest secret in
      let same =
        tx_digest-signature signing
          (record signed { auth = record (signed.auth) { signature = signing.empty_signature } })
          signed.auth.signature laws.clears in
      let wire : signed.auth.signature ≡ id ∷ bytes =
        ap (λ d. to_byte_array (signing.sign_ecdsa_recoverable d secret)) same
        ∙ ap (λ n. n ∷ bytes) (byte_lem id (laws.recovery_id digest secret)) in
      (
        (
          public_key secret,
          ap (recover digest) wire ∙ laws.recovers digest secret,
          sym (laws.hashes (chain_id == signing.chain_id_mainnet) secret),
        ),
        refl,
        refl,
        refl,
        refl,
      )
