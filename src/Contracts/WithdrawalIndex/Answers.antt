-- ===== src/Contracts/WithdrawalIndex/Answers.antt =====
-- The contract's answers to the client, and what the client decodes them to.
use spox.Prelude.{true, String, Option, none, some, List, [], ◌∷◌, map, All, ◌≡◌, refl, ap}
use spox.Principal.{ContractId, contract}
use spox.Error.{ok}
use spox.Clarity.{
  Value, u_int, principal, list, tuple, response, optional_none, optional_some, field, end, Fields,
  of_list, lookup,
}
use spox.Withdrawal
use spox.Withdrawal.{
  PendingWithdrawal, WithdrawalKey, PendingWithdrawalsPage, withdrawal_key_new, withdrawal_item_new,
  pending_withdrawal_try_from, pending_withdrawals_page_try_from,
}
use spox.Withdrawal.Decoding.{
  pending_withdrawal_try_from_iff, pending_withdrawals_page_try_from-rows,
  pending_withdrawals_page_try_from-last,
}
use spox.StacksApi.{StacksApi}
use spox.Contracts.LinkedList.Walking.{Page}
use spox.Contracts.Pages.{map_option}
use spox.Contracts.WithdrawalIndex.{
  PendingKey, key_eq, ChainView, WithdrawalIndex, get_pending_withdrawals,
}

-- The contract's values.
abbrev pub key_fields : PendingKey → Fields
key_fields key = field "staker" (principal key.staker) (
    field "signer-manager" (principal key.signer_manager)
      (field "request-id" (u_int key.request_id) end))

abbrev pub cursor_value : Option PendingKey → Value
cursor_value none = optional_none
cursor_value (some key) = optional_some (tuple (key_fields key))

abbrev pub page_fields : Page PendingKey PendingKey → Fields
page_fields page =
    field "next" (cursor_value page.next)
      (field "rows" (list (of_list (map (λ key. tuple (key_fields key)) page.rows))) end)

abbrev pub page_value : Page PendingKey PendingKey → Value
page_value page = response true (tuple (page_fields page))

-- At each block the contract has a state and a view of the chain, and the node answers reads that are
-- pinned to the block by it.
abbrev pub Serves :
    {W : Type 0}
    → StacksApi W
    → ContractId
    → (String → ChainView)
    → (String → WithdrawalIndex)
    → Type 0
Serves {W} api registry chain index =
    (tip : String) (cursor : Option PendingKey) (w : W)
    → (api.call_read registry.issuer registry.name "get-pending-withdrawals" registry.issuer
        (cursor_value cursor ∷ []) (some tip) w).0
      ≡ ok (page_value (get_pending_withdrawals (chain tip) (index tip) cursor))

-- The key as the client keeps it.
abbrev pub client_key : PendingKey → WithdrawalKey
client_key key = withdrawal_key_new key.staker key.signer_manager key.request_id

-- A row as the client keeps it; `signer` is the contract that a key's signer manager is.
abbrev pub client_row : (PendingKey → ContractId) → PendingKey → PendingWithdrawal
client_row signer key = record {
  signer_manager = signer key;
  item = withdrawal_item_new key.staker key.request_id;
}

module _ (signer : PendingKey → ContractId) where
  abbrev pub IsSigner : PendingKey → Type 0
  IsSigner key = key.signer_manager ≡ contract (signer key)

  pub row_decodes :
      (key : PendingKey)
      → IsSigner key
      → pending_withdrawal_try_from (tuple (key_fields key)) ≡ ok (client_row signer key)
  unfolding lookup
  row_decodes key h =
      (pending_withdrawal_try_from_iff (key_fields key) (client_row signer key)).1 (record {
        staker = key.staker;
        request_id = key.request_id;
        staker_field = refl;
        signer_field = ap (λ p. some (principal p)) h;
        request_field = refl;
        item = refl;
      })

  pub rows_decode :
      (keys : List PendingKey)
      → All IsSigner keys
      → map pending_withdrawal_try_from (map (λ key. tuple (key_fields key)) keys)
        ≡ map ok (map (client_row signer) keys)
  rows_decode [] h = refl
  rows_decode (key ∷ keys) h = rw (row_decodes key h.0, rows_decode keys h.1)

  pub page_decodes :
      (rows : List PendingKey) (next : Option PendingKey)
      → All IsSigner rows
      → pending_withdrawals_page_try_from
          (tuple (page_fields (record { rows = rows; next = next })))
        ≡ ok (record {
          withdrawals = map (client_row signer) rows;
          next = map_option client_key next;
        })
  unfolding lookup Withdrawal.cursor_arg withdrawal_key_new
  page_decodes rows none h =
      pending_withdrawals_page_try_from-last (page_fields (record { rows = rows; next = none }))
        (map (λ key. tuple (key_fields key)) rows) (map (client_row signer) rows) refl
        (rows_decode rows h) refl
  page_decodes rows (some key) h =
      pending_withdrawals_page_try_from-rows (page_fields (record { rows = rows; next = some key }))
        (map (λ key. tuple (key_fields key)) rows) (map (client_row signer) rows) key.staker
        key.signer_manager key.request_id refl (rows_decode rows h) refl
