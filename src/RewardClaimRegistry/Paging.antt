-- ===== src/RewardClaimRegistry/Paging.antt =====
-- The paging loop against the walk of cursors that it follows.
use mathlib.Core.Path.{subst, sym}
use spox.Prelude.{
  ℕ, zero, suc, ◌≤◌, ◌<◌, Option, none, some, List, [], ◌++◌, ◌≡◌, ◌≢◌, refl, ◌↔◌, arith,
  append_assoc, Option-cases, ◌⊎◌, inl, inr, ◌∙◌,
}
use spox.Error.{Error, Result, ok, err}
use spox.Exec.{Exec}
use spox.RewardClaimRegistry.{page_loop}

-- Rows put in front of those of a walk that succeeds.
abbrev pub prepend : {R : Type 0} → List R → Result (List R) → Result (List R)
prepend xs (ok ys) = ok (xs ++ ys)
prepend xs (err e) = err e

prepend-append :
    {R : Type 0} (xs ys : List R) (r : Result (List R))
    → prepend xs (prepend ys r) ≡ prepend (xs ++ ys) r
prepend-append xs ys (ok zs) = ground (arith, append_assoc xs ys zs)
prepend-append xs ys (err e) = refl

prepend-nil : {R : Type 0} (r : Result (List R)) → prepend [] r ≡ r
prepend-nil (ok zs) = refl
prepend-nil (err e) = refl

Result-cases :
    {P : Type 0} (fetched : Result P)
    → ((page : P) × (fetched ≡ ok page)) ⊎ ((failure : Error) × (fetched ≡ err failure))
Result-cases (ok page) = inl (page, refl)
Result-cases (err failure) = inr (failure, refl)

module _ {W P K R : Type 0} (fetch : Option K → Exec W P) (rows : P → List R)
    (next : P → Option K) where
  -- From a cursor and a state, `n` fetches that follow the cursor of each page and end at a page
  -- with none, or at a fetch that fails; `out` are the rows, or the error, and `w'` the state.
  pub data Walk : ℕ → Option K → W → Result (List R) → W → Type 0 where
    last :
        {c : Option K} {w w' : W} {r : Result (List R)} (p : P)
        → fetch c w ≡ (ok p, w')
        → next p ≡ none
        → r ≡ ok (rows p)
        → Walk 1 c w r w'
    fail :
        {c : Option K} {w w' : W} {r : Result (List R)} (e : Error)
        → fetch c w ≡ (err e, w')
        → r ≡ err e
        → Walk 1 c w r w'
    more :
        {n : ℕ} {c : Option K} {w w₁ w' : W} {r s : Result (List R)} (p : P) (k : K)
        → fetch c w ≡ (ok p, w₁)
        → next p ≡ some k
        → Walk n (some k) w₁ s w'
        → r ≡ prepend (rows p) s
        → Walk (suc n) c w r w'

  loop_of_Walk :
      (fuel : ℕ) (all : List R) {n : ℕ} {c : Option K} {w w' : W} {r : Result (List R)}
      → Walk n c w r w'
      → n ≤ fuel
      → page_loop fetch rows next fuel all c w ≡ some (prepend all r, w')
  unfolding page_loop
  loop_of_Walk zero all (last p f e o) h = absurd (omega arith)
  loop_of_Walk zero all (fail e f o) h = absurd (omega arith)
  loop_of_Walk zero all (more p k f e t o) h = absurd (omega arith)
  loop_of_Walk (suc fuel) all (last p f e o) h = rw (f, e, o)
  loop_of_Walk (suc fuel) all (fail e f o) h = rw (f, o)
  loop_of_Walk (suc fuel) all (more {s = s} p k f e t o) h =
      rw (f, e, o, prepend-append) (loop_of_Walk fuel (all ++ rows p) t (omega arith))

  Walk-of_loop :
      (fuel : ℕ) (all : List R) (c : Option K) (w : W) (o : Result (List R)) (w' : W)
      → page_loop fetch rows next fuel all c w ≡ some (o, w')
      → (n : ℕ) × (r : Result (List R)) × (n ≤ fuel) × Walk n c w r w' × (o ≡ prepend all r)
  unfolding page_loop
  Walk-of_loop zero all c w o w' h = cc
  Walk-of_loop (suc fuel) all c w o w' h = elim (Result-cases (fetch c w).0) [
    | inr (e, f) ↦ (1, err e, omega arith, fail e (ground arith) refl, ground arith)
    | inl (p, f) ↦ elim (Option-cases (next p)) [
      | inl e ↦ (1, ok (rows p), omega arith, last p (ground arith) e refl, ground arith)
      | inr (k, e) ↦
          let (n, r, le, t, q) =
            Walk-of_loop fuel (all ++ rows p) (some k) (fetch c w).1 o w' (ground arith) in
          (
            suc n,
            prepend (rows p) r,
            omega arith,
            more p k (ground arith) e t refl,
            ground (arith, prepend-append all (rows p) r),
          )
    ]
  ]

  -- The loop returns rows, or an error, exactly if a walk of at most `fuel` fetches gives them: all
  -- the rows of its pages in their order, each once, or the error of the first fetch that fails.
  pub page_loop_iff :
      (fuel : ℕ) (c : Option K) (w w' : W) (r : Result (List R))
      → (page_loop fetch rows next fuel [] c w ≡ some (r, w'))
        ↔ ((n : ℕ) × (n ≤ fuel) × Walk n c w r w')
  page_loop_iff fuel c w w' r = (
    λ h.
        let (n, s, le, t, q) = Walk-of_loop fuel [] c w r w' h in
        (n, le, subst (λ o. Walk n c w o w') (sym (q ∙ prepend-nil s)) t),
    λ t. loop_of_Walk fuel [] t.2 t.1 ∙ rw (prepend-nil r),
  )

  -- If each page's cursor comes strictly before the cursor that it was fetched with, by a rank of
  -- cursors, the loop ends within as many fetches as the rank of its first cursor allows.
  pub page_loop-ends :
      (rank : Option K → ℕ)
      → ((c : Option K) (w : W) (p : P) (k : K)
          → (fetch c w).0 ≡ ok p
          → next p ≡ some k
          → rank (some k) < rank c)
      → (fuel : ℕ) (all : List R) (c : Option K) (w : W) → rank c < fuel
      → page_loop fetch rows next fuel all c w ≢ none
  unfolding page_loop
  page_loop-ends rank down zero all c w h = absurd (omega arith)
  page_loop-ends rank down (suc fuel) all c w h = elim (Result-cases (fetch c w).0) [
    | inr (e, f) ↦ ground arith
    | inl (p, f) ↦ elim (Option-cases (next p)) [
      | inl e ↦ ground arith
      | inr (k, e) ↦ ground (
        arith,
        down c w p k f e,
        page_loop-ends rank down fuel (all ++ rows p) (some k) (fetch c w).1,
      )
    ]
  ]
