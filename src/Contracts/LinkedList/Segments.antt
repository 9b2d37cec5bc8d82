-- ===== src/Contracts/LinkedList/Segments.antt =====
-- Segments of a linked list: which keys follow one another.
use spox.Prelude.{
  Bool, true, false, Option, some, List, [], ◌∷◌, ◌++◌, ◌⊎◌, inl, inr, Eq, ◌==◌, contains,
  if◌then◌else◌, Bool-cases, beq_self, ◌≡◌, refl, sym, ap, ◌∙◌, subst,
}
use spox.Contracts.LinkedList.{Links}

module _ {K : Type 0} where
  -- The first key of some that are followed by `end`, and the last of some that follow `start`.
  abbrev pub first_or : Option K → List K → Option K
  first_or end [] = end
  first_or end (key ∷ keys) = some key

  abbrev pub last_or : Option K → List K → Option K
  last_or start [] = start
  last_or start (key ∷ keys) = last_or (some key) keys

  -- Keys that are linked one to the next, from `start` and to `end`.
  abbrev pub Segment : (K → Option (Links K)) → Option K → List K → Option K → Type 0
  Segment links start [] end = Unit
  Segment links start (key ∷ keys) end =
      (links key ≡ some (record { prev = start; next = first_or end keys }))
      × Segment links (some key) keys end

  pub first_or-append :
      (end : Option K) (xs ys : List K) → first_or end (xs ++ ys) ≡ first_or (first_or end ys) xs
  first_or-append end [] ys = refl
  first_or-append end (x ∷ xs) ys = refl

  pub last_or-append :
      (start : Option K) (xs ys : List K) → last_or start (xs ++ ys) ≡ last_or (last_or start xs) ys
  last_or-append start [] ys = refl
  last_or-append start (x ∷ xs) ys = last_or-append (some x) xs ys

  pub Segment-append :
      (links : K → Option (Links K)) (start : Option K) (xs ys : List K) (end : Option K)
      → Segment links start xs (first_or end ys)
      → Segment links (last_or start xs) ys end
      → Segment links start (xs ++ ys) end
  Segment-append links start [] ys end h k = k
  Segment-append links start (x ∷ xs) ys end h k =
      (rw (first_or-append end xs ys) h.0, Segment-append links (some x) xs ys end h.1 k)

  pub Segment-split :
      (links : K → Option (Links K)) (start : Option K) (xs ys : List K) (end : Option K)
      → Segment links start (xs ++ ys) end
      → Segment links start xs (first_or end ys) × Segment links (last_or start xs) ys end
  Segment-split links start [] ys end h = (tt, h)
  Segment-split links start (x ∷ xs) ys end h =
      let (front, back) = Segment-split links (some x) xs ys end h.1 in
      ((rw (first_or-append end xs ys) at h.0, front), back)

  -- A list is empty or has a last key.
  pub snoc_view : (xs : List K) → (xs ≡ []) ⊎ ((ys : List K) × (y : K) × (xs ≡ ys ++ y ∷ []))
  snoc_view [] = inl refl
  snoc_view (x ∷ xs) = longer (snoc_view xs)
    where
      longer :
          (xs ≡ []) ⊎ ((ys : List K) × (y : K) × (xs ≡ ys ++ y ∷ []))
          → (x ∷ xs ≡ []) ⊎ ((ys : List K) × (y : K) × (x ∷ xs ≡ ys ++ y ∷ []))
      longer (inl none_left) = inr ([], x, ap (◌∷◌ x) none_left)
      longer (inr (ys, y, same)) = inr (x ∷ ys, y, ap (◌∷◌ x) same)

neither : (a b : Bool) → (if a then true else b) ≡ false → (a ≡ false) × (b ≡ false)
neither true b h = absurd (cc)
neither false b h = (refl, h)

either : (a b : Bool) → (if a then true else b) ≡ true → (a ≡ true) ⊎ (b ≡ true)
either true b h = inl refl
either false b h = inr h

module _ {K : Type 0} ⦃e : Eq K⦄ where
  -- No key stands twice.
  abbrev pub Distinct : List K → Type 0
  Distinct [] = Unit
  Distinct (key ∷ keys) = (contains keys key ≡ false) × Distinct keys

  pub contains-append :
      (xs ys : List K) (k : K)
      → contains (xs ++ ys) k ≡ (if contains xs k then true else contains ys k)
  contains-append [] ys k = refl
  contains-append (x ∷ xs) ys k = elim (Bool-cases (x == k)) [
    | inl this ↦ rw this
    | inr other ↦ rw other (contains-append xs ys k)
  ]

  -- A key that is in neither part.
  pub not_in-append :
      (xs ys : List K) (k : K)
      → contains (xs ++ ys) k ≡ false
      → (contains xs k ≡ false) × (contains ys k ≡ false)
  not_in-append xs ys k h =
      neither (contains xs k) (contains ys k) (sym (contains-append xs ys k) ∙ h)

  pub not_in-cons :
      (x : K) (xs : List K) (k : K)
      → contains (x ∷ xs) k ≡ false
      → ((x == k) ≡ false) × (contains xs k ≡ false)
  not_in-cons x xs k h = neither (x == k) (contains xs k) h

  -- A key that a list holds is not one that it does not hold.
  pub apart_of :
      (xs : List K) (k j : K) → contains xs k ≡ true → contains xs j ≡ false → (j == k) ≡ false
  apart_of xs k j there gone = elim (Bool-cases (j == k)) [
    | inl same ↦ absurd (cc (there, rw ((e.beq_iff j k).0 same) at gone))
    | inr other ↦ other
  ]

  pub in_cons : (x : K) (xs : List K) (k : K) → contains xs k ≡ true → contains (x ∷ xs) k ≡ true
  in_cons x xs k there = by_key (x == k)
    where
      by_key : (b : Bool) → (if b then true else contains xs k) ≡ true
      by_key true = refl
      by_key false = there

  pub in_front : (xs ys : List K) (k : K) → contains xs k ≡ true → contains (xs ++ ys) k ≡ true
  in_front xs ys k there = contains-append xs ys k ∙ rw there

  pub in_last : (xs : List K) (k : K) → contains (xs ++ k ∷ []) k ≡ true
  in_last [] k = rw (beq_self e k)
  in_last (x ∷ xs) k = in_cons x (xs ++ k ∷ []) k (in_last xs k)

  -- A segment depends on the links of its own keys only.
  pub Segment-links :
      (links links' : K → Option (Links K)) (start : Option K) (keys : List K) (end : Option K)
      → ((k : K) → contains keys k ≡ true → links' k ≡ links k)
      → Segment links start keys end
      → Segment links' start keys end
  Segment-links links links' start [] end same h = tt
  Segment-links links links' start (key ∷ keys) end same h = (
    same key (rw (beq_self e key)) ∙ h.0,
    Segment-links links links' (some key) keys end (λ k there. same k (in_cons key keys k there))
        h.1,
  )

  -- Keys of one part of a list without duplicates are not in the other.
  pub Distinct-split :
      (xs ys : List K)
      → Distinct (xs ++ ys)
      → Distinct xs × Distinct ys × ((k : K) → contains xs k ≡ true → contains ys k ≡ false)
  Distinct-split [] ys h = (tt, h, λ k there. absurd (cc))
  Distinct-split (x ∷ xs) ys h =
      let (front, back, apart) = Distinct-split xs ys h.1 in
      let (new, gone) = not_in-append xs ys x h.0 in
      ((new, front), back, λ k there. by_key k apart gone (either (x == k) (contains xs k) there))
    where
      by_key :
          (k : K)
          → ((j : K) → contains xs j ≡ true → contains ys j ≡ false)
          → contains ys x ≡ false
          → ((x == k) ≡ true) ⊎ (contains xs k ≡ true)
          → contains ys k ≡ false
      by_key k apart gone (inl this) =
          subst (λ j. contains ys j ≡ false) ((e.beq_iff x k).0 this) gone
      by_key k apart gone (inr later) = apart k later

  pub Distinct-append :
      (xs ys : List K)
      → Distinct xs
      → Distinct ys
      → ((k : K) → contains xs k ≡ true → contains ys k ≡ false)
      → Distinct (xs ++ ys)
  Distinct-append [] ys h k apart = k
  Distinct-append (x ∷ xs) ys h k apart = (
    contains-append xs ys x ∙ rw (h.0) (apart x (rw (beq_self e x))),
    Distinct-append xs ys h.1 k (λ j there. apart j (in_cons x xs j there)),
  )
