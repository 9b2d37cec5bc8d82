-- ===== src/Batch/Laws.antt =====
-- Batches made of chunks of groups: their sizes, their number, and what they hold.
use mathlib.Core.List.{flatten}
use spox.Prelude.{
  ℕ, ◌+◌, ◌/◌, ◌<◌, List, [], ◌∷◌, ◌++◌, length, All, All-append, Eq, ◌==◌, if◌then◌else◌, ◌≡◌,
  refl, arith, append_assoc, length-append, false,
}
use spox.Batch.{Groups, max_stakers_length, chunks, batch_chunks, batch_groups}
use spox.Batch.Chunks.{Fits, flatten-chunks, chunks_fit, length-chunks}
use spox.Batch.Groups.{values_at, has_key, Distinct}

module _ {K V B : Type 0} (items : B → List V) (make : K → List V → B) (P : B → Type 0)
    (items_make : (k : K) (c : List V) → items (make k c) ≡ c)
    (P_make : (k : K) (c : List V) → P (make k c)) where
  batch_chunks-All :
      (n : ℕ) (k : K) (cs : List (List V))
      → All (Fits n) cs
      → All (λ b. Fits n (items b) × P b) (batch_chunks make k cs)
  unfolding batch_chunks
  batch_chunks-All n k [] h = tt
  batch_chunks-All n k (c ∷ cs) h =
      ((rw (items_make k c) h.0, P_make k c), batch_chunks-All n k cs h.1)

  -- No batch is empty or longer than the chunk size, and each has what `make` gives to all.
  pub batch_groups-All :
      (n : ℕ) (g : Groups K V) → 0 < n → All (λ b. Fits n (items b) × P b) (batch_groups n make g)
  unfolding batch_groups
  batch_groups-All n [] p = tt
  batch_groups-All n ((k, vs) ∷ g) p =
      All-append _ (batch_chunks make k (chunks n vs)) (batch_groups n make g)
        (batch_chunks-All n k (chunks n vs) (chunks_fit n vs p)) (batch_groups-All n g p)

module _ {K V B : Type 0} ⦃e : Eq K⦄ (signer : B → K) (items : B → List V) where
  -- The items of the batches of a signer manager, in the order of the batches.
  abbrev pub items_of : K → List B → List V
  items_of m [] = []
  items_of m (b ∷ bs) = if signer b == m then items b ++ items_of m bs else items_of m bs

module _ {K B : Type 0} ⦃e : Eq K⦄ (signer : B → K) where
  -- The number of batches of a signer manager.
  abbrev pub count_of : K → List B → ℕ
  count_of m [] = 0
  count_of m (b ∷ bs) = if signer b == m then count_of m bs + 1 else count_of m bs

module _ {K V B : Type 0} ⦃e : Eq K⦄ (signer : B → K) (items : B → List V) where
  items_of-append :
      (m : K) (bs cs : List B)
      → items_of signer items m (bs ++ cs)
        ≡ items_of signer items m bs ++ items_of signer items m cs
  items_of-append m [] cs = refl
  items_of-append m (b ∷ bs) cs = ground (
    arith,
    items_of-append m bs cs,
    append_assoc (items b) (items_of signer items m bs) (items_of signer items m cs),
  )

  count_of-append :
      (m : K) (bs cs : List B)
      → count_of signer m (bs ++ cs) ≡ count_of signer m bs + count_of signer m cs
  count_of-append m [] cs = omega arith
  count_of-append m (b ∷ bs) cs = ground (arith, count_of-append m bs cs)

  module _ (make : K → List V → B) (signer_make : (k : K) (c : List V) → signer (make k c) ≡ k)
      (items_make : (k : K) (c : List V) → items (make k c) ≡ c) where
    items_of-batch_chunks :
        (m k : K) (cs : List (List V))
        → items_of signer items m (batch_chunks make k cs) ≡ (if k == m then flatten cs else [])
    unfolding batch_chunks flatten
    items_of-batch_chunks m k [] = ground arith
    items_of-batch_chunks m k (c ∷ cs) =
        ground (arith, items_of-batch_chunks m k cs, signer_make k c, items_make k c)

    count_of-batch_chunks :
        (m k : K) (cs : List (List V))
        → count_of signer m (batch_chunks make k cs) ≡ (if k == m then length cs else 0)
    unfolding batch_chunks
    count_of-batch_chunks m k [] = ground arith
    count_of-batch_chunks m k (c ∷ cs) =
        ground (arith, count_of-batch_chunks m k cs, signer_make k c)

    -- The batches of a signer manager hold the values of its group, in their order.
    pub items_of-batch_groups :
        (n : ℕ) (m : K) (g : Groups K V)
        → 0 < n
        → items_of signer items m (batch_groups n make g) ≡ values_at m g
    unfolding batch_groups
    items_of-batch_groups n m [] p = refl
    items_of-batch_groups n m ((k, vs) ∷ g) p = ground (
      arith,
      items_of-append m (batch_chunks make k (chunks n vs)) (batch_groups n make g),
      items_of-batch_chunks m k (chunks n vs),
      flatten-chunks n vs p,
      items_of-batch_groups n m g,
    )

    count_of_absent :
        (m : K) (g : Groups K V)
        → has_key m g ≡ false
        → (count_of signer m (batch_groups max_stakers_length make g) ≡ 0) × (values_at m g ≡ [])
    unfolding batch_groups
    count_of_absent m [] h = (refl, refl)
    count_of_absent m ((k, vs) ∷ g) h = ground (
      arith,
      count_of-append m (batch_chunks make k (chunks max_stakers_length vs))
          (batch_groups max_stakers_length make g),
      count_of-batch_chunks m k (chunks max_stakers_length vs),
      count_of_absent m g,
    )

    -- A signer manager has as few batches as can hold its values.
    pub count_of-batch_groups :
        (m : K) (g : Groups K V)
        → Distinct g
        → count_of signer m (batch_groups max_stakers_length make g)
          ≡ (length (values_at m g) + 99) / 100
    unfolding batch_groups
    count_of-batch_groups m [] h = refl
    count_of-batch_groups m ((k, vs) ∷ g) h = ground (
      arith,
      count_of-append m (batch_chunks make k (chunks max_stakers_length vs))
          (batch_groups max_stakers_length make g),
      count_of-batch_chunks m k (chunks max_stakers_length vs),
      count_of-batch_groups m g,
      length-chunks vs,
      length-append vs (values_at m g),
      e.beq_iff k m,
      count_of_absent m g,
    )
