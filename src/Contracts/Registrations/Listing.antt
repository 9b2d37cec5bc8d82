-- ===== src/Contracts/Registrations/Listing.antt =====
-- The client's loop over the pages of pending claims, on a node on which the contract runs.
use mathlib.Core.List.{Permᴰ}
use spox.Prelude.{
  ℕ, suc, ◌+◌, leb, ltb, not, nat_beq, ◌&&◌, arith, ◌*◌, ◌≤◌, Bool, true, false, String, Option,
  none, some, List, [], ◌∷◌, map, length, All, if◌then◌else◌, ◌≡◌, refl, sym, ap, ◌∙◌, ◌/◌,
}
use spox.Principal.{Principal, ContractId, standard, contract, contract_eq}
use spox.Error.{Result, ok}
use spox.Clarity.{
  Value, u_int, principal, list, tuple, response, field, end, Fields, of_list, lookup,
}
use spox.Claim
use spox.Claim.{RegistrationKey, PendingClaim, PendingClaimsPage, pending_claim_try_from}
use spox.Claim.Decoding.{bond_value, pending_claim_try_from_iff, pending_claims_page_try_from-rows}
use spox.Batch.{Groups, RewardClaimsBatch, num_stakers}
use spox.Batch.Laws.{items_of}
use spox.Batch.Claims.{Callable, stakers_with, claim_groups}
use spox.StacksApi.{StacksApi, NodeInfo, chain_tip}
use spox.RewardClaimRegistry
use spox.RewardClaimRegistry.{get_pending_claim_batches}
use spox.RewardClaimRegistry.Walks.{get_pending_claim_batches_complete}
use spox.Contracts.LinkedList.Walking.{Page, rows_of}
use spox.Contracts.Pages.{map_option}
use spox.Contracts.Listing.{
  entry_rows, IfSome, stored_row, stored_rows-All, ServesPages, read_entries,
}
use spox.Contracts.Registrations.{key_eq, Registration, PoxView, RegistrationState}
use spox.Contracts.Registrations.Pending.{
  ClaimRow, pending_row, is_pending, get_last_rewards_compute_distribution, get_pending_claims,
}
use spox.Contracts.Registrations.Registered.{IsContract, Registers}

-- The contract's values.
abbrev pub row_fields : ClaimRow → Fields
row_fields row = field "bond-index" (bond_value row.bond_index) (
    field "reward-cycle" (u_int row.reward_cycle) (
      field "signer-manager" (principal row.signer_manager)
        (field "staker" (principal row.staker) end)))

abbrev pub page_fields : Page RegistrationKey ClaimRow → Fields
page_fields page =
    field "next" (Claim.cursor_arg page.next)
      (field "rows" (list (of_list (map (λ row. tuple (row_fields row)) page.rows))) end)

abbrev pub page_value : Page RegistrationKey ClaimRow → Value
page_value page = response true (tuple (page_fields page))

-- At each block the contract has a state and a view of pox-5, and the node answers reads that are
-- pinned to the block by it.
abbrev pub Serves :
    {W L : Type 0}
    → StacksApi W
    → ContractId
    → (String → PoxView)
    → (String → RegistrationState L)
    → Type 0
Serves {W} api registry pox state =
    (tip : String) (cursor : Option RegistrationKey) (w : W)
    → (api.call_read registry.issuer registry.name "get-pending-claims" registry.issuer
        (Claim.cursor_arg cursor ∷ []) (some tip) w).0
      ≡ ok (page_value (get_pending_claims (pox tip) (state tip) cursor))

-- The contract that a principal is; no row has an account for its signer manager.
abbrev pub contract_of : Principal → ContractId
contract_of (contract c) = c
contract_of (standard a) = record { issuer = a; name = "" }

-- A row as the client keeps it.
abbrev pub client_row : ClaimRow → PendingClaim
client_row row = record {
  signer_manager = contract_of row.signer_manager;
  staker = row.staker;
  bond_index = row.bond_index;
  reward_cycle = row.reward_cycle;
}

contract_of_lem : (p : Principal) → IsContract p → p ≡ contract (contract_of p)
contract_of_lem p (c, h) = rw h refl

row_decodes :
    (row : ClaimRow)
    → IsContract row.signer_manager
    → pending_claim_try_from (tuple (row_fields row)) ≡ ok (client_row row)
unfolding lookup
row_decodes row h = (pending_claim_try_from_iff (row_fields row) (client_row row)).1 (record {
  staker = refl;
  signer_manager = ap (λ p. some (principal p)) (contract_of_lem row.signer_manager h);
  bond_index = refl;
  reward_cycle = refl;
})

rows_decode :
    (rows : List ClaimRow)
    → All (λ row. IsContract row.signer_manager) rows
    → map pending_claim_try_from (map (λ row. tuple (row_fields row)) rows)
      ≡ map ok (map client_row rows)
rows_decode [] h = refl
rows_decode (row ∷ rows) h = rw (row_decodes row h.0, rows_decode rows h.1)

map_same : {A : Type 0} (o : Option A) → map_option (λ a. a) o ≡ o
map_same none = refl
map_same (some a) = refl

-- Whether the rewards of a distribution cycle are calculated: they have been up to some height, whose
-- cycle is not before it.
abbrev pub has_rewards : PoxView → ℕ → Bool
has_rewards pox distribution =
    not (nat_beq pox.last_reward_compute_height 0)
    && leb distribution (pox.burn_height_to_distribution_index pox.last_reward_compute_height)

-- The client's rows of the registrations whose next claim can be made, each of the reward cycle of that
-- claim, which has two distribution cycles.
abbrev pub pending_rows : PoxView → List (RegistrationKey × Registration) → List PendingClaim
pending_rows pox [] = []
pending_rows pox ((key, r) ∷ entries) =
    let rest = pending_rows pox entries in
    if ltb r.next_claim_distribution pox.current_distribution_cycle
      && has_rewards pox r.next_claim_distribution
    then record {
      signer_manager = contract_of key.signer_manager;
      staker = key.staker;
      bond_index = r.bond_index;
      reward_cycle = r.next_claim_distribution / 2;
    }
      ∷ rest
    else rest

pending_rows_lem :
    (pox : PoxView) (entries : List (RegistrationKey × Registration))
    → map client_row (entry_rows (pending_row pox) entries) ≡ pending_rows pox entries
unfolding is_pending get_last_rewards_compute_distribution
pending_rows_lem pox [] = refl
pending_rows_lem pox ((key, r) ∷ entries) = ground (arith, pending_rows_lem pox entries)

pending_row-IsContract :
    (pox : PoxView) (key : RegistrationKey) (r : Registration)
    → IsContract key.signer_manager
    → IfSome (λ row. IsContract row.signer_manager) (pending_row pox key (some r))
pending_row-IsContract pox key r h =
    by_test
      (is_pending r pox.current_distribution_cycle (get_last_rewards_compute_distribution pox))
  where
    row : ClaimRow
    row = record {
      signer_manager = key.signer_manager;
      staker = key.staker;
      bond_index = r.bond_index;
      reward_cycle = r.next_claim_distribution / 2;
    }

    by_test :
        (pending : Bool)
        → IfSome (λ row. IsContract row.signer_manager) (if pending then some row else none)
    by_test true = h
    by_test false = tt

module _ {W L : Type 0} (api : StacksApi W) (registry : ContractId) (pox : String → PoxView)
    (state : String → RegistrationState L) (serves : Serves api registry pox state) (tip : String)
    (entries : List (RegistrationKey × Registration)) (h : Registers (state tip) entries) where
  abbrev fetch : Option RegistrationKey → W → Result PendingClaimsPage × W
  fetch = RewardClaimRegistry.get_pending_claims api registry (some tip)

  pages_served :
      ServesPages
        (state tip).registrations
        (state tip).registration_ll
        entries
        h.tracked
        (pending_row (pox tip))
        fetch
        (λ page. page.claims)
        (λ page. page.next)
        (λ key. key)
        client_row
  unfolding RewardClaimRegistry.get_pending_claims get_pending_claims lookup
  pages_served c cursor w keys node same listed =
      let answer = serves tip cursor w ∙ ap (λ page. ok (page_value page)) listed in
      let rows =
        rows_of
          (stored_row (state tip).registrations (state tip).registration_ll entries h.tracked
            (pending_row (pox tip)))
          keys in
      let decode = rows_decode rows (
        stored_rows-All (state tip).registrations (state tip).registration_ll entries h.tracked
          (pending_row (pox tip)) (λ row. IsContract row.signer_manager) (λ key. refl)
          (λ key r known.
            pending_row-IsContract (pox tip) key r (h.signers key r (h.tracked.stored key ∙ known)))
          keys) in
      record {
        page = record { claims = map client_row rows; next = node };
        answered =
            rw (same, map_same, answer)
              (pending_claims_page_try_from-rows (page_fields (record { rows = rows; next = node }))
                (map (λ row. tuple (row_fields row)) rows) (map client_row rows) node refl decode
                refl);
        page_rows = refl;
        page_next = sym (map_same node);
      }

module _ {W L : Type 0} (api : StacksApi W) (registry : ContractId) (pox : String → PoxView)
    (state : String → RegistrationState L) (serves : Serves api registry pox state)
    (info : NodeInfo) (entries : List (RegistrationKey × Registration))
    (h : Registers (state (chain_tip api info)) entries)
    (iterate : Groups ContractId Principal → Groups ContractId Principal) where
  -- The client's rows of the claims that can be made.
  abbrev pub ready_rows : List PendingClaim
  ready_rows = pending_rows (pox (chain_tip api info)) entries

  -- On a node that runs the contract, with these registrations at the chain tip, the client's loop ends
  -- within one page more than a hundredth of the registrations. Of those whose next claim lies in a past
  -- distribution cycle that has its rewards calculated, and of no others, it makes batches that can each
  -- be sent in one call, and that hold for every signer manager its stakers, each once and in the order
  -- in which they were registered.
  pub get_pending_claim_batches-ready :
      (m : ℕ) (w w₀ : W)
      → api.get_node_info w ≡ (ok info, w₀)
      → length entries ≤ 100 * m + 100
      → Permᴰ (claim_groups ready_rows) (iterate (claim_groups ready_rows))
      → (w' : W) × (batches : List RewardClaimsBatch) × (get_pending_claim_batches api registry
            iterate
            (suc m)
            w
          ≡ some (ok batches, w'))
        × All (λ b. Callable registry (num_stakers b) b.registry_contract) batches
        × ((c : ContractId)
            → items_of (λ b. b.signer_manager) (λ b. b.stakers) c batches
              ≡ stakers_with c ready_rows)
  get_pending_claim_batches-ready m w w₀ asked few visits =
      let tip = chain_tip api info in
      let (n, w', le, walked) =
        read_entries (state tip).registrations (state tip).registration_ll entries h.tracked
          (pending_row (pox tip)) (RewardClaimRegistry.get_pending_claims api registry (some tip))
          (λ page. page.claims) (λ page. page.next) (λ key. key) client_row
          (pages_served api registry pox state serves tip entries h) m w₀ few in
      let (batches, made, callable, items) =
        get_pending_claim_batches_complete api registry iterate (suc m) info asked ready_rows
          (rw (pending_rows_lem (pox tip) entries) at walked) le visits in
      (w', batches, made, callable, items)
