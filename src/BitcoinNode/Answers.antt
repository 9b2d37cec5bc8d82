-- ===== src/BitcoinNode/Answers.antt =====
-- What the node's answers are turned into.
use spox.Prelude.{◌≡◌, ◌++◌, refl, List, [], ◌∷◌, Bool, true, false, inr, inl, ◌⊎◌, All}
use spox.Error.{ok, err, no_chain_tip}
use spox.Sbtc.{Sbtc}
use spox.BitcoinApi.{BlockRef}
use spox.BitcoinNode.{Tip, Rpc, is_active, tip_of, get_chain_tip}

-- The first active tip, with the tips before it that are not.
abbrev pub IsFirst : List Tip → BlockRef → Type 0
IsFirst tips ref =
    (before : List Tip) × (tip : Tip) × (after : List Tip) × (tips ≡ before ++ tip ∷ after)
    × All (λ t. is_active t ≡ false) before
    × (is_active tip ≡ true)
    × (ref ≡ record { block_height = tip.height; block_hash = tip.hash })

-- Whatever the tips, the first active one is found, or there is none.
find_active_lem :
    (tips : List Tip)
    → ((ref : BlockRef) × (tip_of (inr tips) ≡ ok ref) × IsFirst tips ref)
      ⊎ ((tip_of (inr tips) ≡ err no_chain_tip) × All (λ t. is_active t ≡ false) tips)
find_active_lem [] = inr (refl, tt)
find_active_lem (tip ∷ tips) = decided (is_active tip) refl (find_active_lem tips)
  where
    decided :
        (b : Bool)
        → is_active tip ≡ b
        → ((ref : BlockRef) × (tip_of (inr tips) ≡ ok ref) × IsFirst tips ref)
          ⊎ ((tip_of (inr tips) ≡ err no_chain_tip) × All (λ t. is_active t ≡ false) tips)
        → ((ref : BlockRef) × (tip_of (inr (tip ∷ tips)) ≡ ok ref) × IsFirst (tip ∷ tips) ref)
          ⊎ ((tip_of (inr (tip ∷ tips)) ≡ err no_chain_tip)
              × All (λ t. is_active t ≡ false) (tip ∷ tips))
    decided true q rest = inl (
      record { block_height = tip.height; block_hash = tip.hash },
      rw q,
      ([], tip, tips, refl, tt, q, refl),
    )
    decided false q (inl (ref, e, (before, t, after, p, quiet, a, same))) =
        inl (ref, rw q e, (tip ∷ before, t, after, rw p, (q, quiet), a, same))
    decided false q (inr (e, quiet)) = inr (rw q e, (q, quiet))

module _ {W D R : Type 0} (lib : Sbtc D R) (inner : Rpc W) where
  -- When the node lists its tips, the first active one is the chain tip, or none is active and the
  -- error that there is no chain tip is returned.
  pub get_chain_tip_lem :
      (w w' : W) (tips : List Tip)
      → inner.get_chain_tips w ≡ (inr tips, w')
      → ((ref : BlockRef) × (get_chain_tip lib inner w ≡ (ok ref, w')) × IsFirst tips ref)
        ⊎ ((get_chain_tip lib inner w ≡ (err no_chain_tip, w'))
            × All (λ t. is_active t ≡ false) tips)
  unfolding get_chain_tip
  get_chain_tip_lem w w' tips e = elim (find_active_lem tips) [
    | inl (ref, h, first) ↦ inl (ref, rw (e, h), first)
    | inr (h, quiet) ↦ inr (rw (e, h), quiet)
  ]
