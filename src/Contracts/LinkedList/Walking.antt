-- ===== src/Contracts/LinkedList/Walking.antt =====
-- Listing a linked list in pages: a fold of at most 100 visits, from a key to the first that was not
-- visited.
use spox.Prelude.{
  Eq, ℕ, zero, suc, ◌+◌, ◌≤◌, Option, none, some, List, [], ◌∷◌, ◌++◌, length, take, drop, ltb,
  if◌then◌else◌, true, append_assoc, append-nil, length-append, ◌≡◌, refl, ap, ◌∙◌, arith,
}
use spox.Contracts.LinkedList.{Links, LinkedList}
use spox.Contracts.LinkedList.Spelling.{Spells}
use spox.Contracts.LinkedList.Segments.{first_or, last_or, Segment, Segment-split}

-- The length of PENDING_TICKS, and of the longest list of rows.
abbrev pub page_size : ℕ
page_size = 100

pub record Page (K R : Type 0) : Type 0 where
  pub rows : List R
  pub next : Option K

abbrev pub next_of : {K : Type 0} → Option (Links K) → Option K
next_of none = none
next_of (some links) = links.next

-- The rows of some keys, of which not every one has a row.
abbrev pub cons_row : {R : Type 0} → Option R → List R → List R
cons_row none rows = rows
cons_row (some r) rows = r ∷ rows

abbrev pub rows_of : {K R : Type 0} → (K → Option R) → List K → List R
rows_of row [] = []
rows_of row (key ∷ keys) = cons_row (row key) (rows_of row keys)

-- `(default-to rows (as-max-len? (append rows row) u100))`
abbrev pub append_row : {R : Type 0} → List R → Option R → List R
append_row rows none = rows
append_row rows (some r) = if ltb (length rows) page_size then rows ++ r ∷ [] else rows

module _ {K R : Type 0} (links : K → Option (Links K)) (row : K → Option R) where
  -- One visit, and the fold of the visits.
  unfoldable pub step : Option K × List R → Option K × List R
  step (none, rows) = (none, rows)
  step (some key, rows) = (next_of (links key), append_row rows (row key))

  unfoldable pub walk : ℕ → Option K × List R → Option K × List R
  unfolding step
  walk zero acc = acc
  walk (suc ticks) acc = walk ticks (step acc)

-- The read-only functions: from a cursor, or from the head.
abbrev pub start_at : {K : Type 0} → Option K → LinkedList K → Option K
start_at none list = list.head
start_at (some key) list = some key

unfoldable pub list_page : {K R : Type 0} → LinkedList K → (K → Option R) → Option K → Page K R
unfolding walk
list_page list row cursor =
    let (node, rows) = walk list.links row page_size (start_at cursor list, []) in
    record { rows = rows; next = node }

module _ {K R : Type 0} (links : K → Option (Links K)) (row : K → Option R) where
  walk_end : (ticks : ℕ) (rows : List R) → walk links row ticks (none, rows) ≡ (none, rows)
  unfolding walk step
  walk_end zero rows = refl
  walk_end (suc ticks) rows = walk_end ticks rows

  append_row_lem :
      (rows later : List R) (o : Option R)
      → length rows + 1 ≤ page_size
      → (length (append_row rows o) ≤ length rows + 1)
        × (append_row rows o ++ later ≡ rows ++ cons_row o later)
  append_row_lem rows later none fits = (omega arith, refl)
  append_row_lem rows later (some r) fits =
      let room : ltb (length rows) page_size ≡ true = ground (arith, fits) in
      rw room (omega (arith, length-append {0} rows (r ∷ [])), append_assoc rows (r ∷ []) later)

  -- A walk over linked keys takes their rows, as many as it has ticks.
  pub walk_lem :
      (ticks : ℕ) (start : Option K) (keys : List K) (rows : List R)
      → Segment links start keys none
      → length rows + ticks ≤ page_size
      → walk links row ticks (first_or none keys, rows)
        ≡ (first_or none (drop ticks keys), rows ++ rows_of row (take ticks keys))
  unfolding walk step
  walk_lem zero start keys rows h fits = rw append-nil
  walk_lem (suc ticks) start [] rows h fits = walk_end ticks rows ∙ rw append-nil
  walk_lem (suc ticks) start (key ∷ keys) rows h fits =
      let (longer, joined) =
        append_row_lem rows (rows_of row (take ticks keys)) (row key) (omega (arith, fits)) in
      rw (h.0) (
        walk_lem ticks (some key) keys (append_row rows (row key)) h.1
          (omega (arith, longer, fits)))
      ∙ ap (λ all. (first_or none (drop ticks keys), all)) joined

module _ {K R : Type 0} ⦃e : Eq K⦄ (list : LinkedList K) (row : K → Option R) where
  -- A page holds the rows of the next 100 keys, and the first key after them.
  pub list_page_lem :
      (xs keys : List K) (cursor : Option K)
      → Spells list (xs ++ keys)
      → start_at cursor list ≡ first_or none keys
      → list_page list row cursor ≡ record {
        rows = rows_of row (take page_size keys);
        next = first_or none (drop page_size keys);
      }
  unfolding list_page
  list_page_lem xs keys cursor h here =
      let (_, chain) = Segment-split list.links none xs keys none h.chain in
      let walked =
        walk_lem list.links row page_size (last_or none xs) keys [] chain (omega arith) in
      rw (here, walked)
