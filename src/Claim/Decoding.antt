-- ===== src/Claim/Decoding.antt =====
-- What the decoders of claims accept.
use spox.Prelude.{ℕ, String, Option, none, some, List, map, ◌≡◌, refl, ◌↔◌, arith}
use spox.Principal.{standard, contract}
use spox.Error.{Result, ok, err, unexpected_principal}
use spox.Clarity.{
  Value, u_int, principal, tuple, optional_none, optional_some, Fields, lookup, without, of_list,
  as_list, as_option, as_principal, as_uint, read,
}
use spox.Clarity.Reading.{lookup-without_ne, to_list-of_list}
use spox.Result
use spox.Result.{◌>>=◌, collect-map-ok}
use spox.Claim.{
  RegistrationKey, PendingClaim, PendingClaimsPage, registration_key_try_from,
  pending_claim_try_from, pending_claims_page_try_from, as_bond_index, expect_contract, cursor_arg,
}

-- The value of an optional bond index.
abbrev pub bond_value : Option ℕ → Value
bond_value none = optional_none
bond_value (some n) = optional_some (u_int n)

-- The fields of a tuple are those of a claim row.
pub record IsRow (m : Fields) (c : PendingClaim) : Type 0 where
  pub staker : lookup "staker" m ≡ some (principal c.staker)
  pub signer_manager : lookup "signer-manager" m ≡ some (principal (contract c.signer_manager))
  pub bond_index : lookup "bond-index" m ≡ some (bond_value c.bond_index)
  pub reward_cycle : lookup "reward-cycle" m ≡ some (u_int c.reward_cycle)

-- The decoder with every field looked up in the whole tuple.
abbrev row_of : Option Value → Option Value → Option Value → Option Value → Result PendingClaim
row_of bond signer staker cycle = do
  b ← as_option "bond-index" bond
  bond_index ← Result.transpose_map as_bond_index b
  s ← as_principal "signer-manager" signer
  signer_manager ← expect_contract s
  staker ← as_principal "staker" staker
  reward_cycle ← as_uint "reward-cycle" cycle
  ok (record {
    signer_manager = signer_manager;
    staker = staker;
    bond_index = bond_index;
    reward_cycle = reward_cycle;
  })

pending_claim_try_from-tuple :
    (m : Fields)
    → pending_claim_try_from (tuple m)
      ≡ row_of
          (lookup "bond-index" m)
          (lookup "signer-manager" m)
          (lookup "staker" m)
          (lookup "reward-cycle" m)
unfolding pending_claim_try_from read
pending_claim_try_from-tuple m = ground (
  arith,
  lookup-without_ne "bond-index" "signer-manager" m refl,
  lookup-without_ne "bond-index" "staker" m refl,
  lookup-without_ne "signer-manager" "staker" (without "bond-index" m) refl,
  lookup-without_ne "bond-index" "reward-cycle" m refl,
  lookup-without_ne "signer-manager" "reward-cycle" (without "bond-index" m) refl,
  lookup-without_ne "staker" "reward-cycle" (without "signer-manager" (without "bond-index" m))
      refl,
)

row_of_sound :
    (bond signer staker cycle : Option Value) (c : PendingClaim)
    → row_of bond signer staker cycle ≡ ok c
    → (staker ≡ some (principal c.staker))
      × (signer ≡ some (principal (contract c.signer_manager)))
      × (bond ≡ some (bond_value c.bond_index))
      × (cycle ≡ some (u_int c.reward_cycle))
row_of_sound bond signer staker cycle c h = ground arith

row_of_complete :
    (c : PendingClaim)
    → row_of
        (some (bond_value c.bond_index))
        (some (principal (contract c.signer_manager)))
        (some (principal c.staker))
        (some (u_int c.reward_cycle))
      ≡ ok c
row_of_complete c = ground arith

-- A Clarity tuple decodes to a claim exactly when its fields `staker`, `signer-manager`,
-- `bond-index` and `reward-cycle` hold that claim's values, whatever other fields it has and
-- although each read takes its field out of the tuple.
pub pending_claim_try_from_iff :
    (m : Fields) (c : PendingClaim) → (pending_claim_try_from (tuple m) ≡ ok c) ↔ IsRow m c
pending_claim_try_from_iff m c = (
  λ h.
      let (staker, signer, bond, cycle) =
        row_of_sound _ _ _ _ c (rw pending_claim_try_from-tuple at h) in
      record { staker = staker; signer_manager = signer; bond_index = bond; reward_cycle = cycle },
  λ h.
      rw (pending_claim_try_from-tuple, h.bond_index, h.signer_manager, h.staker, h.reward_cycle)
        (row_of_complete c),
)

-- A row whose signer manager is an account and no contract is refused with the error that names it,
-- where its bond index is well formed.
pub pending_claim_try_from-standard :
    (m : Fields) (bond : Option ℕ) (a : String)
    → lookup "bond-index" m ≡ some (bond_value bond)
    → lookup "signer-manager" m ≡ some (principal (standard a))
    → pending_claim_try_from (tuple m) ≡ err (unexpected_principal (standard a))
pending_claim_try_from-standard m none a b s = rw (pending_claim_try_from-tuple, b, s)
pending_claim_try_from-standard m (some n) a b s = rw (pending_claim_try_from-tuple, b, s)

-- The decoder of pages with both fields looked up in the whole tuple.
abbrev page_with : List PendingClaim → Option Value → Result PendingClaimsPage
page_with claims cursor = do
  c ← as_option "next" cursor
  next ← Result.transpose_map registration_key_try_from c
  ok (record { claims = claims; next = next })

abbrev page_of : Option Value → Option Value → Result PendingClaimsPage
page_of rows cursor = do
  vs ← as_list "rows" rows
  claims ← Result.collect pending_claim_try_from vs
  page_with claims cursor

pending_claims_page_try_from-tuple :
    (m : Fields)
    → pending_claims_page_try_from (tuple m) ≡ page_of (lookup "rows" m) (lookup "next" m)
unfolding pending_claims_page_try_from read
pending_claims_page_try_from-tuple m = ground (arith, lookup-without_ne "rows" "next" m refl)

-- The cursor that the client sends decodes back to the key that it was built from.
pub cursor_arg-decodes :
    (o : Option RegistrationKey)
    → (as_option "next" (some (cursor_arg o)) >>= Result.transpose_map registration_key_try_from)
      ≡ ok o
unfolding registration_key_try_from cursor_arg read lookup without
cursor_arg-decodes none = refl
cursor_arg-decodes (some key) = refl

page_with-cursor_arg :
    (claims : List PendingClaim) (o : Option RegistrationKey)
    → page_with claims (some (cursor_arg o)) ≡ ok (record { claims = claims; next = o })
unfolding registration_key_try_from cursor_arg read lookup without
page_with-cursor_arg claims none = refl
page_with-cursor_arg claims (some key) = refl

-- A page of rows that decode one by one decodes to their claims in the same order, with the cursor
-- that the client would send to ask for the next page.
pub pending_claims_page_try_from-rows :
    (m : Fields) (rows : List Value) (claims : List PendingClaim) (next : Option RegistrationKey)
    → lookup "rows" m ≡ some (Value.list (of_list rows))
    → map pending_claim_try_from rows ≡ map ok claims
    → lookup "next" m ≡ some (cursor_arg next)
    → pending_claims_page_try_from (tuple m) ≡ ok (record { claims = claims; next = next })
pending_claims_page_try_from-rows m rows claims next r d c =
    rw
      (
        pending_claims_page_try_from-tuple,
        r,
        c,
        to_list-of_list,
        collect-map-ok pending_claim_try_from rows claims d,
      )
      (page_with-cursor_arg claims next)
