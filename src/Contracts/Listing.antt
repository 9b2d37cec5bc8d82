-- ===== src/Contracts/Listing.antt =====
-- A data map with its linked list that a read-only function lists in pages of at most 100 visits, and
-- the client's walk over the pages.
use spox.Prelude.{
  ℕ, suc, ◌+◌, ◌*◌, ◌≤◌, Option, none, some, Eq, List, [], ◌∷◌, ◌++◌, map, length, take, drop, All,
  ◌≡◌, refl, sym, ap, ◌∙◌, subst, arith,
}
use spox.Error.{Result, ok}
use spox.RewardClaimRegistry.Paging.{Walk}
use spox.Contracts.LinkedList.{LinkedList}
use spox.Contracts.LinkedList.Segments.{first_or}
use spox.Contracts.LinkedList.Walking.{
  rows_of, cons_row, page_size, list_page, list_page_lem, start_at,
}
use spox.Contracts.Entries.{length-keys_of, own_entries, keys_of, entry_at}
use spox.Contracts.Pages.{At, PageOf, map_option, read_all}
use spox.Contracts.Tracking.{Tracks}

rows_of-map :
    {K A B : Type 0} (f : A → B) (row : K → Option A) (keys : List K)
    → rows_of (λ key. map_option f (row key)) keys ≡ map f (rows_of row keys)
rows_of-map f row [] = refl
rows_of-map {A = A} {B = B} f row (key ∷ keys) =
    ap (cons_row (map_option f (row key))) (rows_of-map f row keys)
    ∙ mapped (row key) (rows_of row keys)
  where
    mapped :
        (o : Option A) (rows : List A)
        → cons_row (map_option f o) (map f rows) ≡ map f (cons_row o rows)
    mapped none rows = refl
    mapped (some a) rows = refl

-- The rows of some entries, of which not every one has a row.
abbrev pub entry_rows : {K V A : Type 0} → (K → Option V → Option A) → List (K × V) → List A
entry_rows row [] = []
entry_rows row ((key, v) ∷ entries) = cons_row (row key (some v)) (entry_rows row entries)

-- A row that there is, is as it should be.
abbrev pub IfSome : {A : Type 0} → (A → Type 0) → Option A → Type 0
IfSome P none = Unit {0}
IfSome P (some a) = P a

All-cons_row :
    {A : Type 0} (P : A → Type 0) (o : Option A) (rows : List A)
    → IfSome P o
    → All P rows
    → All P (cons_row o rows)
All-cons_row P none rows h rest = rest
All-cons_row P (some a) rows h rest = (h, rest)

module _ {K V A : Type 0} ⦃e : Eq K⦄ (values : K → Option V) (list : LinkedList K)
    (entries : List (K × V)) (tracked : Tracks values list entries)
    (row : K → Option V → Option A) where
  abbrev pub stored_row : K → Option A
  stored_row key = row key (values key)

  -- Rows of keys are as they should be if those of the entries are, and a key without entry has none.
  pub stored_rows-All :
      (P : A → Type 0)
      → ((key : K) → row key none ≡ none)
      → ((key : K) (v : V) → entry_at key entries ≡ some v → IfSome P (row key (some v)))
      → (keys : List K) → All P (rows_of stored_row keys)
  stored_rows-All P absent present [] = tt
  stored_rows-All P absent present (key ∷ keys) =
      All-cons_row P (stored_row key) (rows_of stored_row keys)
        (rw (tracked.stored key) (by_entry (entry_at key entries) refl))
        (stored_rows-All P absent present keys)
    where
      by_entry : (o : Option V) → entry_at key entries ≡ o → IfSome P (row key o)
      by_entry none q = rw (absent key) tt
      by_entry (some v) q = present key v q

  entry_rows_lem :
      (es : List (K × V))
      → All (λ entry. entry_at entry.0 entries ≡ some entry.1) es
      → rows_of stored_row (keys_of es) ≡ entry_rows row es
  entry_rows_lem [] h = refl
  entry_rows_lem ((key, v) ∷ es) h =
      rw (tracked.stored key, h.0) (ap (cons_row (row key (some v))) (entry_rows_lem es h.1))

  module _ {W P B C : Type 0} (fetch : Option C → W → Result P × W) (rows : P → List B)
      (next : P → Option C) (cursor_of : K → C) (client_row : A → B) where
    -- The client gets the rows and the cursor of the contract's page.
    pub record Decoded (r : Result P) (contract_rows : List A) (node : Option K) : Type 0 where
      pub page : P
      pub answered : r ≡ ok page
      pub page_rows : rows page ≡ map client_row contract_rows
      pub page_next : next page ≡ map_option cursor_of node

    abbrev pub ServesPages : Type 0
    ServesPages =
        (c : Option C) (cursor : Option K) (w : W) (keys : List K) (node : Option K)
        → c ≡ map_option cursor_of cursor
        → list_page list stored_row cursor ≡ record { rows = rows_of stored_row keys; next = node }
        → Decoded (fetch c w).0 (rows_of stored_row keys) node

    module _ (serves : ServesPages) where
      abbrev client_rows : K → Option B
      client_rows key = map_option client_row (stored_row key)

      fetched_lem :
          (xs keys : List K) (c : Option C) (cursor : Option K) (w : W)
          → keys_of entries ≡ xs ++ keys
          → c ≡ map_option cursor_of cursor
          → start_at cursor list ≡ first_or none keys
          → PageOf fetch rows next cursor_of client_rows (keys_of entries) keys (fetch c w).0
      fetched_lem xs keys c cursor w whole same here =
          let listed =
            list_page_lem list stored_row xs keys cursor (rw whole at tracked.spells) here in
          let d =
            serves c cursor w (take page_size keys) (first_or none (drop page_size keys)) same
              listed in
          record {
            page = d.page;
            answered = d.answered;
            page_rows = d.page_rows ∙ sym (rows_of-map client_row stored_row (take page_size keys));
            page_next = d.page_next;
          }

      served :
          (c : Option C) (keys : List K) (w : W)
          → At fetch rows next cursor_of client_rows (keys_of entries) c keys
          → PageOf fetch rows next cursor_of client_rows (keys_of entries) keys (fetch c w).0
      served c keys w (At.start q whole) =
          fetched_lem [] keys c none w (sym whole) q (rw whole (tracked.spells.head))
      served c keys w (At.from xs k ks whole q these) =
          fetched_lem xs keys c (some k) w (whole ∙ ap (λ zs. xs ++ zs) (sym these)) q
            (rw these refl)

      -- A walk over the pages, of as few pages as hold all entries, reads the rows of the entries.
      pub read_entries :
          (m : ℕ) (w : W)
          → length entries ≤ 100 * m + 100
          → (n : ℕ) × (w' : W) × (n ≤ suc m)
            × Walk fetch rows next n none w (ok (map client_row (entry_rows row entries))) w'
      read_entries m w few =
          let all =
            read_all fetch rows next cursor_of client_rows (keys_of entries) served m none
              (keys_of entries) w (At.start refl refl)
              (omega (arith, few, length-keys_of entries)) in
          let same =
            rows_of-map client_row stored_row (keys_of entries)
            ∙ ap (map client_row)
                (entry_rows_lem entries (own_entries entries tracked.spells.distinct)) in
          (
            all.pages,
            all.final,
            all.few,
            subst (λ rs. Walk fetch rows next all.pages none w (ok rs) all.final) same all.walked,
          )
