-- ===== src/Prelude/Subseq.antt =====
-- What is left of a list when elements are taken out.
use mathlib.Core.List.{List, [], ◌∷◌, ◌++◌}

pub data Subseq {ℓ} {A : Type ℓ} : List A → List A → Type ℓ where
  done : Subseq [] []
  skip : {x : A} {xs ys : List A} → Subseq xs ys → Subseq xs (x ∷ ys)
  keep : {x : A} {xs ys : List A} → Subseq xs ys → Subseq (x ∷ xs) (x ∷ ys)

module _ {ℓ} {A : Type ℓ} where
  pub Subseq-nil : (ys : List A) → Subseq [] ys
  Subseq-nil [] = Subseq.done
  Subseq-nil (y ∷ ys) = Subseq.skip (Subseq-nil ys)

  pub Subseq-append_one :
      (y : A) {xs ys : List A} → Subseq xs ys → Subseq (xs ++ y ∷ []) (ys ++ y ∷ [])
  Subseq-append_one y Subseq.done = Subseq.keep Subseq.done
  Subseq-append_one y (Subseq.skip s) = Subseq.skip (Subseq-append_one y s)
  Subseq-append_one y (Subseq.keep s) = Subseq.keep (Subseq-append_one y s)

  pub Subseq-append_right : (y : A) {xs ys : List A} → Subseq xs ys → Subseq xs (ys ++ y ∷ [])
  Subseq-append_right y Subseq.done = Subseq.skip Subseq.done
  Subseq-append_right y (Subseq.skip s) = Subseq.skip (Subseq-append_right y s)
  Subseq-append_right y (Subseq.keep s) = Subseq.keep (Subseq-append_right y s)

  pub Subseq-refl : (xs : List A) → Subseq xs xs
  Subseq-refl [] = Subseq.done
  Subseq-refl (x ∷ xs) = Subseq.keep (Subseq-refl xs)

  thin : {ys zs : List A} → Subseq ys zs → {xs : List A} → Subseq xs ys → Subseq xs zs
  thin Subseq.done s = s
  thin (Subseq.skip t) s = Subseq.skip (thin t s)
  thin (Subseq.keep t) (Subseq.skip s) = Subseq.skip (thin t s)
  thin (Subseq.keep t) (Subseq.keep s) = Subseq.keep (thin t s)

  pub Subseq-trans : {xs ys zs : List A} → Subseq xs ys → Subseq ys zs → Subseq xs zs
  Subseq-trans s t = thin t s

  pub Subseq-append :
      {as' bs xs ys : List A} → Subseq as' bs → Subseq xs ys → Subseq (as' ++ xs) (bs ++ ys)
  Subseq-append Subseq.done t = t
  Subseq-append (Subseq.skip s) t = Subseq.skip (Subseq-append s t)
  Subseq-append (Subseq.keep s) t = Subseq.keep (Subseq-append s t)
