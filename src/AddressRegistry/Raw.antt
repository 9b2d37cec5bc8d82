-- ===== src/AddressRegistry/Raw.antt =====
-- What the registry's answers decode to.
use spox.Prelude.{
  ℕ, ◌<◌, String, ◌⊎◌, Option, none, some, List, [], ◌∷◌, length, ◌≡◌, refl, arith, ltb,
  if◌then◌else◌,
}
use spox.Principal.{ContractId}
use spox.Error.{ok, err, invalid_stacks_response, too_many_address_ids}
use spox.Clarity.{
  Value, u_int, buffer, tuple, optional_none, optional_some, end, field, lookup, without, read,
}
use spox.StacksApi.{StacksApi}
use spox.AddressRegistry.{
  RawRegisteredDepositScripts, u64_limit, get_addresses_max_ids, scripts_try_from,
  raw_deposit_try_from, get_addresses,
}

-- The value that the contract reports for an id.
abbrev pub address_value : Option RawRegisteredDepositScripts → Value
address_value none = optional_none
address_value (some s) = optional_some (
    tuple (
      field "deposit-script" (buffer s.deposit_script)
        (field "reclaim-script" (buffer s.reclaim_script) end)))

abbrev pub deposit_value : ℕ → Option RawRegisteredDepositScripts → Value
deposit_value id address =
    tuple (field "id" (u_int id) (field "address" (address_value address) end))

-- The value of an entry decodes to the entry if its id is a 64-bit number, and is refused otherwise.
pub raw_deposit_try_from-value :
    (id : ℕ) (address : Option RawRegisteredDepositScripts)
    → raw_deposit_try_from (deposit_value id address) ≡ (
        if ltb id u64_limit
        then ok (record { id = id; address = address })
        else err (invalid_stacks_response "uint is too large"))
unfolding raw_deposit_try_from scripts_try_from read lookup without
raw_deposit_try_from-value id none = ground arith
raw_deposit_try_from-value id (some s) = ground arith

module _ {W : Type 0} (api : StacksApi W) (list_with_type : ℕ → List Value → String ⊎ Value)
    (contract : ContractId) (ids : List ℕ) (w : W) where
  -- More than 400 ids are refused before anything is asked of the node; no ids need no request.
  pub get_addresses_limits :
      (get_addresses_max_ids < length ids
        → get_addresses api list_with_type contract ids w
          ≡ (err (too_many_address_ids (length ids) get_addresses_max_ids), w))
      × (length ids ≡ 0 → get_addresses api list_with_type contract ids w ≡ (ok [], w))
  unfolding get_addresses
  get_addresses_limits = limits ids
    where
      limits :
          (ids : List ℕ)
          → (get_addresses_max_ids < length ids
              → get_addresses api list_with_type contract ids w
                ≡ (err (too_many_address_ids (length ids) get_addresses_max_ids), w))
            × (length ids ≡ 0 → get_addresses api list_with_type contract ids w ≡ (ok [], w))
      limits [] = (λ h. absurd (omega arith), λ h. refl)
      limits (id ∷ ids) = (λ h. ground arith, λ h. absurd (omega arith))
