-- ===== src/Examples/Decoding.antt =====
-- The theorems on decoding at work.
use spox.Prelude.{ℕ, some, true, [], ◌∷◌, map, ◌↔◌, ◌≡◌, refl, arith}
use spox.Principal.{Principal, contract}
use spox.Error.{ok}
use spox.Clarity.{Fields, tuple, u_int, principal, lookup, of_list, read, without}
use spox.Claim.{
  RegistrationKey, PendingClaim, PendingClaimsPage, pending_claim_try_from,
  pending_claims_page_try_from,
}
use spox.Claim.Decoding as ClaimDecoding
use spox.Claim
use spox.Withdrawal.{pending_withdrawal_try_from, withdrawal_key_new, withdrawal_key}
use spox.Withdrawal.Decoding as WithdrawalDecoding
use spox.StacksClient.Hex.{parse_hex_u128}
use spox.StacksClient.Hex.Laws.{digit_char, value, checked, parse_hex_u128-digits}
use spox.AddressRegistry.{raw_deposit_try_from}
use spox.AddressRegistry.Raw.{deposit_value, raw_deposit_try_from-value}
use spox.Examples.{manager, claim, claim_fields, withdrawal, withdrawal_fields, key, page}

abbrev ann_row : Fields
ann_row = claim_fields manager "ann"

abbrev claims_fields : Fields
claims_fields = page (ann_row ∷ claim_fields manager "bob" ∷ []) (Claim.cursor_arg (some key))

pending_claim_try_from_iff_example :
    (pending_claim_try_from (tuple ann_row) ≡ ok (claim manager "ann"))
    ↔ ClaimDecoding.IsRow ann_row (claim manager "ann")
pending_claim_try_from_iff_example =
    ClaimDecoding.pending_claim_try_from_iff ann_row (claim manager "ann")

-- The row of a signer manager that is no contract.
pending_claims_page_try_from-rows_example :
    pending_claims_page_try_from (tuple claims_fields)
    ≡ ok (record { claims = claim manager "ann" ∷ claim manager "bob" ∷ []; next = some key })
unfolding lookup of_list pending_claim_try_from read without
pending_claims_page_try_from-rows_example =
    ClaimDecoding.pending_claims_page_try_from-rows claims_fields
      (tuple ann_row ∷ tuple (claim_fields manager "bob") ∷ [])
      (claim manager "ann" ∷ claim manager "bob" ∷ []) (some key) refl refl refl

withdrawal_key-decoded_example :
    (staker : Principal) × (request_id : ℕ) × (lookup "staker" (withdrawal_fields manager "dan" 4)
      ≡ some (principal staker))
    × (lookup "request-id" (withdrawal_fields manager "dan" 4) ≡ some (u_int request_id))
    × (withdrawal_key (withdrawal manager "dan" 4)
        ≡ some (withdrawal_key_new staker (contract manager) request_id))
unfolding pending_withdrawal_try_from read lookup without
withdrawal_key-decoded_example =
    WithdrawalDecoding.withdrawal_key-decoded (withdrawal_fields manager "dan" 4)
      (withdrawal manager "dan" 4) refl

-- 0x2A
parse_hex_u128-digits_example :
    (parse_hex_u128 (map (digit_char true) (2 ∷ 10 ∷ [])) ≡ checked (value 0 (2 ∷ 10 ∷ [])))
    × (parse_hex_u128 (b'0' ∷ b'x' ∷ map (digit_char true) (2 ∷ 10 ∷ []))
        ≡ checked (value 0 (2 ∷ 10 ∷ [])))
parse_hex_u128-digits_example =
    parse_hex_u128-digits true 2 (10 ∷ []) (omega arith, (omega arith, tt))

raw_deposit_try_from-value_example :
    raw_deposit_try_from
      (deposit_value 5 (some (record { deposit_script = 1 ∷ []; reclaim_script = 2 ∷ [] })))
    ≡ ok (record {
      id = 5;
      address = some (record { deposit_script = 1 ∷ []; reclaim_script = 2 ∷ [] });
    })
raw_deposit_try_from-value_example =
    raw_deposit_try_from-value 5
      (some (record { deposit_script = 1 ∷ []; reclaim_script = 2 ∷ [] }))
