-- ===== src/Batch/Chunks.antt =====
-- What `chunks` returns, at a positive chunk size.
use mathlib.Core.List.{flatten}
use spox.Prelude.{
  ℕ, zero, suc, ◌+◌, ◌-◌, ◌/◌, ◌≤◌, ◌<◌, List, [], ◌∷◌, ◌++◌, length, take, drop, All, ◌≡◌, refl,
  ap, ◌∙◌, arith, take-append-drop, min,
}
use spox.Batch.{max_stakers_length, chunk_rounds, chunks}

module _ {ℓ} {A : Type ℓ} where
  pub length-take : (n : ℕ) (xs : List A) → length (take n xs) ≡ min n (length xs)
  length-take zero xs = omega arith
  length-take (suc n) [] = omega arith
  length-take (suc n) (x ∷ xs) = omega (arith, length-take n xs)

  pub length-drop : (n : ℕ) (xs : List A) → length (drop n xs) ≡ length xs - n
  length-drop zero xs = omega arith
  length-drop (suc n) [] = omega arith
  length-drop (suc n) (x ∷ xs) = omega (arith, length-drop n xs)

  -- Not empty, and not longer than the chunk size.
  abbrev pub Fits : ℕ → List A → Type 0
  Fits n c = (1 ≤ length c) × (length c ≤ n)

  rounds_flatten :
      (rounds n : ℕ) (xs : List A)
      → 0 < n
      → length xs ≤ rounds
      → flatten (chunk_rounds rounds n xs) ≡ xs
  unfolding chunk_rounds flatten
  rounds_flatten zero n [] p h = refl
  rounds_flatten zero n (x ∷ xs) p h = absurd (omega arith)
  rounds_flatten (suc rounds) n [] p h = refl
  rounds_flatten (suc rounds) n (x ∷ xs) p h =
      ap (◌++◌ (take n (x ∷ xs)))
        (rounds_flatten rounds n (drop n (x ∷ xs)) p (omega (arith, length-drop n (x ∷ xs))))
      ∙ take-append-drop n (x ∷ xs)

  rounds_fit : (rounds n : ℕ) (xs : List A) → 0 < n → All (Fits n) (chunk_rounds rounds n xs)
  unfolding chunk_rounds
  rounds_fit zero n xs p = tt
  rounds_fit (suc rounds) n [] p = tt
  rounds_fit (suc rounds) n (x ∷ xs) p =
      (omega (arith, length-take n (x ∷ xs)), rounds_fit rounds n (drop n (x ∷ xs)) p)

  rounds_count :
      (rounds : ℕ) (xs : List A)
      → length xs ≤ rounds
      → length (chunk_rounds rounds max_stakers_length xs) ≡ (length xs + 99) / 100
  unfolding chunk_rounds
  rounds_count zero [] h = omega arith
  rounds_count zero (x ∷ xs) h = absurd (omega arith)
  rounds_count (suc rounds) [] h = omega arith
  rounds_count (suc rounds) (x ∷ xs) h = omega (
    arith,
    rounds_count rounds (drop 99 xs) (omega (arith, length-drop 99 xs)),
    length-drop 99 xs,
  )

  -- As few chunks as there can be.
  pub length-chunks : (xs : List A) → length (chunks max_stakers_length xs) ≡ (length xs + 99) / 100
  unfolding chunks
  length-chunks xs = rounds_count (length xs) xs (omega arith)

  pub flatten-chunks : (n : ℕ) (xs : List A) → 0 < n → flatten (chunks n xs) ≡ xs
  unfolding chunks
  flatten-chunks n xs p = rounds_flatten (length xs) n xs p (omega arith)

  pub chunks_fit : (n : ℕ) (xs : List A) → 0 < n → All (Fits n) (chunks n xs)
  unfolding chunks
  chunks_fit n xs p = rounds_fit (length xs) n xs p
