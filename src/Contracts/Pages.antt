-- ===== src/Contracts/Pages.antt =====
-- A sequence of keys that is served in pages: the client's loop reads all its rows.
use spox.Prelude.{
  ℕ, zero, suc, ◌+◌, ◌-◌, ◌*◌, ◌≤◌, Option, none, some, List, [], ◌∷◌, ◌++◌, length, take, drop,
  take-append-drop, append_assoc, append-nil, ◌≡◌, refl, sym, ap, ◌∙◌, arith,
}
use spox.Error.{Result, ok}
use spox.Exec.{Exec}
use spox.RewardClaimRegistry.Paging.{Walk}
use spox.Contracts.LinkedList.Segments.{first_or}
use spox.Contracts.LinkedList.Walking.{rows_of, cons_row, page_size}

length-drop : {A : Type 0} (n : ℕ) (xs : List A) → length (drop n xs) ≡ length xs - n
length-drop zero xs = omega arith
length-drop (suc n) [] = omega arith
length-drop (suc n) (x ∷ xs) = omega (arith, length-drop n xs)

rows_of-append :
    {K R : Type 0} (row : K → Option R) (xs ys : List K)
    → rows_of row (xs ++ ys) ≡ rows_of row xs ++ rows_of row ys
rows_of-append {R = R} row [] ys = refl
rows_of-append {R = R} row (x ∷ xs) ys =
    ap (cons_row (row x)) (rows_of-append row xs ys)
    ∙ joined (row x) (rows_of row xs) (rows_of row ys)
  where
    joined : (o : Option R) (as' bs : List R) → cons_row o (as' ++ bs) ≡ cons_row o as' ++ bs
    joined none as' bs = refl
    joined (some r) as' bs = refl

abbrev pub map_option : {A B : Type 0} → (A → B) → Option A → Option B
map_option f none = none
map_option f (some a) = some (f a)

module _ {W P K C R : Type 0} (fetch : Option C → Exec W P) (rows : P → List R)
    (next : P → Option C) (cursor_of : K → C) (row : K → Option R) (all : List K) where
  -- The keys that are still to be read at a cursor: all at none, and those from its key on at another.
  pub data At (c : Option C) (keys : List K) : Type 0 where
    start : c ≡ none → keys ≡ all → At c keys
    from :
        (xs : List K) (k : K) (ks : List K)
        → all ≡ xs ++ k ∷ ks
        → c ≡ some (cursor_of k)
        → keys ≡ k ∷ ks
        → At c keys

  -- The page of the next keys, and the cursor after it.
  pub record PageOf (keys : List K) (r : Result P) : Type 0 where
    pub page : P
    pub answered : r ≡ ok page
    pub page_rows : rows page ≡ rows_of row (take page_size keys)
    pub page_next : next page ≡ map_option cursor_of (first_or none (drop page_size keys))

  -- A walk of at most `n` pages to the rows of some keys.
  pub record ReadAll (n : ℕ) (c : Option C) (w : W) (keys : List K) : Type 0 where
    pub pages : ℕ
    pub final : W
    pub few : pages ≤ n
    pub walked : Walk fetch rows next pages c w (ok (rows_of row keys)) final

  parts : {c : Option C} {keys : List K} → At c keys → (xs : List K) × (all ≡ xs ++ keys)
  parts (start c same) = ([], sym same)
  parts (from xs k ks whole c same) = (xs, whole ∙ ap (λ zs. xs ++ zs) (sym same))

  module _
      (served : (c : Option C) (keys : List K) (w : W)
        → At c keys
        → PageOf keys (fetch c w).0) where
    last_lem :
        (c : Option C) (keys : List K) (w : W) (m : ℕ)
        → PageOf keys (fetch c w).0
        → drop page_size keys ≡ []
        → ReadAll (suc m) c w keys
    last_lem c keys w m p rest =
        let whole : take page_size keys ≡ keys =
          sym (append-nil (take page_size keys))
          ∙ ap (λ zs. take page_size keys ++ zs) (sym rest)
          ∙ take-append-drop page_size keys in
        record {
          pages = 1;
          final = (fetch c w).1;
          few = omega arith;
          walked =
              Walk.last p.page (ap (λ r. (r, (fetch c w).1)) p.answered)
                (p.page_next ∙ ap (λ zs. map_option cursor_of (first_or none zs)) rest)
                (sym (ap ok (p.page_rows ∙ ap (rows_of row) whole)));
        }

    more_lem :
        (c : Option C) (keys : List K) (w : W) (m : ℕ) (k : K) (ks : List K)
        → PageOf keys (fetch c w).0
        → drop page_size keys ≡ k ∷ ks
        → ReadAll m (some (cursor_of k)) (fetch c w).1 (drop page_size keys)
        → ReadAll (suc m) c w keys
    more_lem c keys w m k ks p rest later = record {
      pages = suc later.pages;
      final = later.final;
      few = omega (arith, later.few);
      walked =
          Walk.more p.page (cursor_of k) (ap (λ r. (r, (fetch c w).1)) p.answered)
            (p.page_next ∙ ap (λ zs. map_option cursor_of (first_or none zs)) rest) later.walked
            (ap (λ zs. ok (rows_of row zs)) (sym (take-append-drop page_size keys))
              ∙ ap ok (rows_of-append row (take page_size keys) (drop page_size keys))
              ∙ ap (λ rs. ok (rs ++ rows_of row (drop page_size keys))) (sym p.page_rows));
    }

    nil_of_length : (keys : List K) → length keys ≤ 0 → keys ≡ []
    nil_of_length [] h = refl
    nil_of_length (k ∷ keys) h = absurd (omega arith)

    after_lem :
        (c : Option C) (keys : List K) (k : K) (ks : List K)
        → At c keys
        → drop page_size keys ≡ k ∷ ks
        → At (some (cursor_of k)) (drop page_size keys)
    after_lem c keys k ks at rest =
        let (xs, whole) = parts at in
        from (xs ++ take page_size keys) k ks
          (whole
            ∙ ap (λ zs. xs ++ zs) (sym (take-append-drop page_size keys))
            ∙ sym (append_assoc xs (take page_size keys) (drop page_size keys))
            ∙ ap (λ zs. (xs ++ take page_size keys) ++ zs) rest)
          refl rest

    by_rest :
        (c : Option C) (keys : List K) (w : W) (m : ℕ)
        → At c keys
        → ((k : K)
            → At (some (cursor_of k)) (drop page_size keys)
            → ReadAll (suc m) (some (cursor_of k)) (fetch c w).1 (drop page_size keys))
        → (rest : List K) → drop page_size keys ≡ rest
        → ReadAll (suc (suc m)) c w keys
    by_rest c keys w m at later [] rest = last_lem c keys w (suc m) (served c keys w at) rest
    by_rest c keys w m at later (k ∷ ks) rest =
        more_lem c keys w (suc m) k ks (served c keys w at) rest
          (later k (after_lem c keys k ks at rest))

    -- If each page holds the next 100 keys' rows and the key after them, the pages end, and they hold
    -- the rows of all keys.
    pub read_all :
        (m : ℕ) (c : Option C) (keys : List K) (w : W)
        → At c keys
        → length keys ≤ page_size * m + page_size
        → ReadAll (suc m) c w keys
    read_all zero c keys w at few =
        last_lem c keys w zero (served c keys w at)
          (nil_of_length (drop page_size keys) (omega (arith, length-drop page_size keys)))
    read_all (suc m) c keys w at few =
        by_rest c keys w m at
          (λ k later.
            read_all m (some (cursor_of k)) (drop page_size keys) (fetch c w).1 later
              (omega (arith, length-drop page_size keys)))
          (drop page_size keys) refl
