-- ===== src/Contracts/WithdrawalIndex/Listing.antt =====
-- The client's loop over the pages of pending withdrawals, on a node on which the contract runs.
use spox.Prelude.{
  [], ◌∷◌, ℕ, suc, ◌+◌, leb, ◌&&◌, arith, false, ◌*◌, ◌≤◌, Bool, true, false, String, Option, none,
  some, List, map, length, All, if◌then◌else◌, ◌≡◌, refl, ap, ◌∙◌,
}
use spox.Principal.{ContractId, contract_eq}
use spox.Error.{Result, ok}
use spox.Withdrawal
use spox.Withdrawal.{
  PendingWithdrawal, WithdrawalKey, PendingWithdrawalsPage, withdrawal_key_new, withdrawal_item_new,
  pending_withdrawal_try_from, pending_withdrawals_page_try_from,
}
use mathlib.Core.List.{Permᴰ}
use spox.Withdrawal.{WithdrawalItem}
use spox.Batch.{Groups, WithdrawalsBatch, num_withdrawals}
use spox.Batch.Laws.{items_of}
use spox.Batch.Claims.{Callable, items_with, withdrawal_groups}
use spox.RewardClaimRegistry.{get_pending_withdrawal_batches}
use spox.RewardClaimRegistry.Walks.{get_pending_withdrawal_batches_complete}
use spox.Contracts.WithdrawalIndex.Answers.{
  cursor_value, page_value, Serves, client_key, client_row, IsSigner, page_decodes,
}
use spox.StacksApi.{StacksApi, NodeInfo, chain_tip}
use spox.RewardClaimRegistry
use spox.RewardClaimRegistry.{response_data, get_all_pending_withdrawals}
use spox.RewardClaimRegistry.Paging.{Walk}
use spox.Contracts.LinkedList.Walking.{rows_of}
use spox.Contracts.Entries.{entry_at}
use spox.Contracts.Pages.{map_option}
use spox.Contracts.WithdrawalIndex.{
  PendingKey, key_eq, ChainView, WithdrawalIndex, ready_row, withdrawal_ready_to_list,
  pending_withdrawals_row, get_pending_withdrawals,
}
use spox.Contracts.WithdrawalIndex.Consistency.{Indexes}
use spox.Contracts.Listing.{
  entry_rows, IfSome, stored_row, stored_rows-All, ServesPages, read_entries,
}

-- Whether sBTC knows a request and has accepted or rejected it.
abbrev pub has_answer : Option (Option Bool) → Bool
has_answer (some (some accepted)) = true
has_answer _ = false

-- The keys of the entries that are ready to be settled: those that were indexed at least seven blocks
-- ago, and that sBTC has resolved.
abbrev pub ready_keys : ChainView → List (PendingKey × ℕ) → List PendingKey
ready_keys chain [] = []
ready_keys chain ((key, height) ∷ entries) =
    let rest = ready_keys chain entries in
    if leb (height + 7) chain.burn_block_height
      && has_answer (chain.withdrawal_request key.request_id)
    then key ∷ rest
    else rest

ready_keys_lem :
    (chain : ChainView) (entries : List (PendingKey × ℕ))
    → entry_rows (ready_row chain) entries ≡ ready_keys chain entries
unfolding withdrawal_ready_to_list
ready_keys_lem chain [] = refl
ready_keys_lem chain ((key, height) ∷ entries) = ground (arith, ready_keys_lem chain entries)

ready_row-IsSigner :
    (chain : ChainView) (signer : PendingKey → ContractId) (key : PendingKey) (height : ℕ)
    → IsSigner signer key
    → IfSome (IsSigner signer) (ready_row chain key (some height))
ready_row-IsSigner chain signer key height h =
    by_age (withdrawal_ready_to_list chain key.request_id height)
  where
    by_age : (ready : Bool) → IfSome (IsSigner signer) (if ready then some key else none)
    by_age true = h
    by_age false = tt

cursor_lem :
    (cursor : Option PendingKey)
    → Withdrawal.cursor_arg (map_option client_key cursor) ≡ cursor_value cursor
unfolding Withdrawal.cursor_arg withdrawal_key_new
cursor_lem none = refl
cursor_lem (some key) = refl

module _ {W : Type 0} (api : StacksApi W) (registry : ContractId) (chain : String → ChainView)
    (index : String → WithdrawalIndex) (serves : Serves api registry chain index) (tip : String)
    (entries : List (PendingKey × ℕ)) (indexed : Indexes (index tip) entries)
    (signer : PendingKey → ContractId)
    (signers : (key : PendingKey) (height : ℕ)
      → entry_at key entries ≡ some height
      → IsSigner signer key) where
  abbrev fetch : Option WithdrawalKey → W → Result PendingWithdrawalsPage × W
  fetch = RewardClaimRegistry.get_pending_withdrawals api registry (some tip)

  pages_served :
      ServesPages
        (index tip).pending_withdrawals
        (index tip).pending_withdrawal_ll
        entries
        indexed
        (ready_row (chain tip))
        fetch
        (λ page. page.withdrawals)
        (λ page. page.next)
        client_key
        (client_row signer)
  unfolding RewardClaimRegistry.get_pending_withdrawals get_pending_withdrawals
      pending_withdrawals_row
  pages_served c cursor w keys node same listed =
      let answer = serves tip cursor w ∙ ap (λ page. ok (page_value page)) listed in
      let rows =
        rows_of
          (stored_row (index tip).pending_withdrawals (index tip).pending_withdrawal_ll entries
            indexed (ready_row (chain tip)))
          keys in
      record {
        page = record {
          withdrawals = map (client_row signer) rows;
          next = map_option client_key node;
        };
        answered =
            rw (same, cursor_lem cursor, answer)
              (page_decodes signer rows node (
                stored_rows-All (index tip).pending_withdrawals (index tip).pending_withdrawal_ll
                  entries indexed (ready_row (chain tip)) (IsSigner signer) (λ key. refl)
                  (λ key height known.
                    ready_row-IsSigner (chain tip) signer key height (signers key height known))
                  keys));
        page_rows = refl;
        page_next = refl;
      }

  -- A walk over the pages at that block, of as few pages as hold all entries.
  pub pages_lem :
      (m : ℕ) (w : W)
      → length entries ≤ 100 * m + 100
      → (n : ℕ) × (w' : W) × (n ≤ suc m)
        × Walk fetch
            (λ page. page.withdrawals)
            (λ page. page.next)
            n
            none
            w
            (ok (map (client_row signer) (ready_keys (chain tip) entries)))
            w'
  pages_lem m w few = rw (← ready_keys_lem (chain tip) entries) (
      read_entries (index tip).pending_withdrawals (index tip).pending_withdrawal_ll entries indexed
        (ready_row (chain tip)) fetch (λ page. page.withdrawals) (λ page. page.next) client_key
        (client_row signer) pages_served m w few)

module _ {W : Type 0} (api : StacksApi W) (registry : ContractId) (chain : String → ChainView)
    (index : String → WithdrawalIndex) (serves : Serves api registry chain index) (info : NodeInfo)
    (entries : List (PendingKey × ℕ)) (indexed : Indexes (index (chain_tip api info)) entries)
    (signer : PendingKey → ContractId)
    (signers : (key : PendingKey) (height : ℕ)
      → entry_at key entries ≡ some height
      → IsSigner signer key)
    (iterate : Groups ContractId WithdrawalItem → Groups ContractId WithdrawalItem) where
  -- The client's rows of the withdrawals that can be settled.
  abbrev pub ready_rows : List PendingWithdrawal
  ready_rows = map (client_row signer) (ready_keys (chain (chain_tip api info)) entries)

  -- On a node that runs the contract, whose index at the chain tip holds these entries under signer
  -- managers that are contracts, the client's loop ends within one page more than a hundredth of the
  -- entries. Of the entries that are old enough and that sBTC has resolved, and of no others, it makes
  -- batches that can each be sent in one call, and that hold for every signer manager its withdrawals,
  -- each once and in the order in which they were indexed.
  pub get_pending_withdrawal_batches-ready :
      (m : ℕ) (w w₀ : W)
      → api.get_node_info w ≡ (ok info, w₀)
      → length entries ≤ 100 * m + 100
      → Permᴰ (withdrawal_groups ready_rows) (iterate (withdrawal_groups ready_rows))
      → (w' : W) × (batches : List WithdrawalsBatch) × (get_pending_withdrawal_batches api registry
            iterate
            (suc m)
            w
          ≡ some (ok batches, w'))
        × All (λ b. Callable registry (num_withdrawals b) b.registry_contract) batches
        × ((c : ContractId)
            → items_of (λ b. b.signer_manager) (λ b. b.items) c batches ≡ items_with c ready_rows)
  get_pending_withdrawal_batches-ready m w w₀ asked few visits =
      let (n, w', le, walked) =
        pages_lem api registry chain index serves (chain_tip api info) entries indexed signer
          signers m w₀ few in
      let (batches, made, callable, items) =
        get_pending_withdrawal_batches_complete api registry iterate (suc m) info asked ready_rows
          walked le visits in
      (w', batches, made, callable, items)
