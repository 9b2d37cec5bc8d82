-- ===== src/Contracts/Entries.antt =====
-- Entries in the order of their insertion: what a data map and a linked list over its keys stand for.
use spox.Prelude.{
  All, All-map, beq_self, length, suc, true, false, Option, none, some, List, [], ◌∷◌, ◌++◌, map,
  Eq, ◌==◌, contains, if◌then◌else◌, Bool-cases, inl, inr, ◌≡◌, refl, ap, ◌∙◌, arith,
}
use spox.Storage.Laws.{is_some}
use spox.Contracts.LinkedList.Segments.{Distinct, apart_of}

module _ {K V : Type 0} ⦃e : Eq K⦄ where
  abbrev pub keys_of : List (K × V) → List K
  keys_of entries = map (λ entry. entry.0) entries

  unfoldable pub entry_at : K → List (K × V) → Option V
  entry_at k [] = none
  entry_at k ((j, v) ∷ entries) = if j == k then some v else entry_at k entries

  unfoldable pub erase : K → List (K × V) → List (K × V)
  erase k [] = []
  erase k ((j, v) ∷ entries) = if j == k then entries else (j, v) ∷ erase k entries

  unfoldable pub replace : K → V → List (K × V) → List (K × V)
  replace k v [] = []
  replace k v ((j, w) ∷ entries) = if j == k then (j, v) ∷ entries else (j, w) ∷ replace k v entries

  pub contains-keys_of :
      (k : K) (entries : List (K × V)) → contains (keys_of entries) k ≡ is_some (entry_at k entries)
  unfolding entry_at
  contains-keys_of k [] = refl
  contains-keys_of k ((j, v) ∷ entries) = ground (arith, contains-keys_of k entries)

  pub entry_at-append :
      (key k : K) (v : V) (entries : List (K × V))
      → entry_at key entries ≡ none
      → entry_at k (entries ++ (key, v) ∷ []) ≡ (if key == k then some v else entry_at k entries)
  unfolding entry_at
  entry_at-append key k v [] h = refl
  entry_at-append key k v ((j, w) ∷ entries) h =
      ground
        (arith, entry_at-append key k v entries, e.beq_iff j k, e.beq_iff key k, e.beq_iff j key)

  pub entry_at-erase :
      (key k : K) (entries : List (K × V))
      → Distinct (keys_of entries)
      → entry_at k (erase key entries) ≡ (if key == k then none else entry_at k entries)
  unfolding entry_at erase
  entry_at-erase key k [] h = ground arith
  entry_at-erase key k ((j, w) ∷ entries) h = ground (
    arith,
    entry_at-erase key k entries,
    contains-keys_of j entries,
    e.beq_iff j k,
    e.beq_iff key k,
    e.beq_iff j key,
  )

  pub erase_absent :
      (key : K) (entries : List (K × V))
      → contains (keys_of entries) key ≡ false
      → erase key entries ≡ entries
  unfolding erase
  erase_absent key [] h = refl
  erase_absent key ((j, w) ∷ entries) h = ground (arith, erase_absent key entries)

  pub keys_of-replace :
      (key : K) (v : V) (entries : List (K × V)) → keys_of (replace key v entries) ≡ keys_of entries
  unfolding replace
  keys_of-replace key v [] = refl
  keys_of-replace key v ((j, w) ∷ entries) = elim (Bool-cases (j == key)) [
    | inl this ↦ rw this refl
    | inr other ↦ rw other (ap (◌∷◌ j) (keys_of-replace key v entries))
  ]

  pub entry_at-replace :
      (key k : K) (v : V) (entries : List (K × V))
      → is_some (entry_at key entries) ≡ true
      → entry_at k (replace key v entries) ≡ (if key == k then some v else entry_at k entries)
  unfolding entry_at replace
  entry_at-replace key k v [] h = absurd (cc)
  entry_at-replace key k v ((j, w) ∷ entries) h =
      ground
        (arith, entry_at-replace key k v entries, e.beq_iff j k, e.beq_iff key k, e.beq_iff j key)

  -- The keys before and after one that is erased.
  pub erase_parts :
      (key : K) (entries : List (K × V))
      → contains (keys_of entries) key ≡ true
      → (xs : List K) × (ys : List K) × (keys_of entries ≡ xs ++ key ∷ ys)
        × (keys_of (erase key entries) ≡ xs ++ ys)
  unfolding erase
  erase_parts key [] h = absurd (cc)
  erase_parts key ((j, w) ∷ entries) h = elim (Bool-cases (j == key)) [
    | inl this ↦
        ([], keys_of entries, ap (λ k. k ∷ keys_of entries) ((e.beq_iff j key).0 this), rw this)
    | inr other ↦
        let (xs, ys, whole, left) = erase_parts key entries (rw other at h) in
        (j ∷ xs, ys, ap (◌∷◌ j) whole, rw other (ap (◌∷◌ j) left))
  ]

  -- Each entry is the one under its own key.
  pub own_entries :
      (entries : List (K × V))
      → Distinct (keys_of entries)
      → All (λ entry. entry_at entry.0 entries ≡ some entry.1) entries
  unfolding entry_at
  own_entries [] h = tt
  own_entries ((j, v) ∷ entries) h = (
    rw (beq_self e j),
    All-map
        (λ (entry : K × V) found.
          let there : contains (keys_of entries) entry.0 ≡ true =
            contains-keys_of entry.0 entries ∙ ap is_some found in
          rw (apart_of (keys_of entries) entry.0 j there h.0) found)
        entries (own_entries entries h.1),
  )

pub length-keys_of :
    {K V : Type 0} (entries : List (K × V))
    → length (map (λ entry. entry.0) entries) ≡ length entries
length-keys_of [] = refl
length-keys_of (entry ∷ entries) = ap suc (length-keys_of entries)
