-- ===== src/Contracts/LinkedList/Removing.antt =====
-- Removing a key from a linked list.
use spox.Prelude.{
  Bool, true, false, Option, none, some, List, [], ◌∷◌, ◌++◌, ◌⊎◌, inl, inr, Eq, ◌==◌, contains,
  Bool-cases, beq_self, ◌≡◌, refl, sym, ◌∙◌, append-nil,
}
use spox.Contracts.{map_delete}
use spox.Contracts.LinkedList.{
  Links, LinkedList, ll_remove, or_if_none, merge_next, merge_prev, link_next, link_prev,
}
use spox.Contracts.LinkedList.Segments.{
  first_or, last_or, Segment, last_or-append, Segment-append, Segment-split, snoc_view, Distinct,
  Segment-links, contains-append, not_in-append, not_in-cons, apart_of, in_cons, in_front, in_last,
  Distinct-split, Distinct-append,
}
use spox.Contracts.LinkedList.Spelling.{Spells}

module _ {K : Type 0} ⦃e : Eq K⦄ where
  -- Whether a neighbour is a key.
  abbrev holds : Option K → K → Bool
  holds none k = false
  holds (some j) k = j == k

  holds-first : (ys : List K) (k : K) → contains ys k ≡ false → holds (first_or none ys) k ≡ false
  holds-first [] k h = refl
  holds-first (y ∷ ys) k h = (not_in-cons y ys k h).0

  holds-last :
      (start : Option K) (xs : List K) (k : K)
      → holds start k ≡ false
      → contains xs k ≡ false
      → holds (last_or start xs) k ≡ false
  holds-last start [] k h gone = h
  holds-last start (x ∷ xs) k h gone =
      let (this, later) = not_in-cons x xs k gone in holds-last (some x) xs k this later

  module _ (links : K → Option (Links K)) where
    next_other :
        (o next : Option K) (k : K) → holds o k ≡ false → link_next o next links k ≡ links k
    next_other none next k h = refl
    next_other (some p) next k h = merged (links p)
      where
        merged : (old : Option (Links K)) → merge_next p old next links k ≡ links k
        merged none = refl
        merged (some old) = rw h

    prev_other :
        (o prev : Option K) (k : K) → holds o k ≡ false → link_prev o prev links k ≡ links k
    prev_other none prev k h = refl
    prev_other (some p) prev k h = merged (links p)
      where
        merged : (old : Option (Links K)) → merge_prev p old prev links k ≡ links k
        merged none = refl
        merged (some old) = rw h

    next_this :
        (k : K) (next : Option K) (old : Links K)
        → links k ≡ some old
        → link_next (some k) next links k ≡ some (record old { next = next })
    next_this k next old h = rw (h, beq_self e k)

    prev_this :
        (k : K) (prev : Option K) (old : Links K)
        → links k ≡ some old
        → link_prev (some k) prev links k ≡ some (record old { prev = prev })
    prev_this k prev old h = rw (h, beq_self e k)

  -- The links after `key` between `prev` and `next` was taken out.
  abbrev after : (K → Option (Links K)) → K → Option K → Option K → K → Option (Links K)
  after links key prev next = map_delete key (link_prev next prev (link_next prev next links))

  module _ (links : K → Option (Links K)) (key : K) (prev next : Option K) where
    untouched :
        (k : K)
        → (key == k) ≡ false
        → holds prev k ≡ false
        → holds next k ≡ false
        → after links key prev next k ≡ links k
    untouched k other not_prev not_next = rw other (
        prev_other (link_next prev next links) next prev k not_next
        ∙ next_other links prev next k not_prev)

  prev_lem :
      (links : K → Option (Links K)) (key p : K) (next : Option K) (old : Links K)
      → links p ≡ some old
      → (key == p) ≡ false
      → holds next p ≡ false
      → after links key (some p) next p ≡ some (record old { next = next })
  prev_lem links key p next old h other not_next = rw other (
      prev_other (link_next (some p) next links) next (some p) p not_next
      ∙ next_this links p next old h)

  next_lem :
      (links : K → Option (Links K)) (key n : K) (prev : Option K) (old : Links K)
      → links n ≡ some old
      → (key == n) ≡ false
      → holds prev n ≡ false
      → after links key prev (some n) n ≡ some (record old { prev = prev })
  next_lem links key n prev old h other not_prev = rw other (
      prev_this (link_next prev (some n) links) n prev old
        (next_other links prev (some n) n not_prev ∙ h))

  -- A key taken out from between the keys before it and those after it.
  module _ (links : K → Option (Links K)) (key : K) (xs ys : List K)
      (distinct : Distinct (xs ++ key ∷ ys)) where
    abbrev prev : Option K
    prev = last_or none xs

    abbrev next : Option K
    next = first_or none ys

    before_lem : (k : K) → contains xs k ≡ true → ((key == k) ≡ false) × (contains ys k ≡ false)
    before_lem k there = not_in-cons key ys k ((Distinct-split xs (key ∷ ys) distinct).2 k there)

    after_lem : (k : K) → contains ys k ≡ true → ((key == k) ≡ false) × (contains xs k ≡ false)
    after_lem k there = (
      apart_of ys k key there (Distinct-split xs (key ∷ ys) distinct).1.0,
      absent (contains xs k) refl,
    )
      where
        absent : (b : Bool) → contains xs k ≡ b → contains xs k ≡ false
        absent false h = h
        absent true h = absurd (cc ((before_lem k h).1, there))

    back-Segment :
        Segment links (some key) ys none → Segment (after links key prev next) prev ys none
    back-Segment = from_key ys after_lem (Distinct-split xs (key ∷ ys) distinct).1.1
      where
        from_key :
            (zs : List K)
            → ((k : K) → contains zs k ≡ true → ((key == k) ≡ false) × (contains xs k ≡ false))
            → Distinct zs
            → Segment links (some key) zs none
            → Segment (after links key prev (first_or none zs)) prev zs none
        from_key [] apart once h = tt
        from_key (n ∷ zs) apart once h =
            let (key_n, xs_n) = apart n (rw (beq_self e n)) in
            (
              next_lem links key n prev _ h.0 key_n (holds-last none xs n refl xs_n),
              Segment-links links (after links key prev (some n)) (some n) zs none
                  (λ k there.
                    let (key_k, xs_k) = apart k (in_cons n zs k there) in
                    untouched links key prev (some n) k key_k (holds-last none xs k refl xs_k)
                      (apart_of zs k n there once.0))
                  h.1,
            )

  front_some :
      (links : K → Option (Links K)) (key p : K) (zs ys : List K)
      → Distinct ((zs ++ p ∷ []) ++ key ∷ ys)
      → Segment links none (zs ++ p ∷ []) (some key)
      → Segment (after links key (some p) (first_or none ys)) none (zs ++ p ∷ []) (first_or none ys)
  front_some links key p zs ys distinct h =
      let (front, (last, _)) = Segment-split links none zs (p ∷ []) (some key) h in
      let (once, _, _) = Distinct-split (zs ++ p ∷ []) (key ∷ ys) distinct in
      let (_, _, not_p) = Distinct-split zs (p ∷ []) once in
      let apart = before_lem links key (zs ++ p ∷ []) ys distinct in
      let (key_p, ys_p) = apart p (in_last zs p) in
      Segment-append (after links key (some p) (first_or none ys)) none zs (p ∷ [])
        (first_or none ys)
        (Segment-links links (after links key (some p) (first_or none ys)) none zs (some p)
          (λ k there.
            let (key_k, ys_k) = apart k (in_front zs (p ∷ []) k there) in
            untouched links key (some p) (first_or none ys) k key_k
              (not_in-cons p [] k (not_p k there)).0 (holds-first ys k ys_k))
          front)
        (prev_lem links key p (first_or none ys) _ last key_p (holds-first ys p ys_p), tt)

  front-Segment :
      (links : K → Option (Links K)) (key : K) (xs ys : List K)
      → Distinct (xs ++ key ∷ ys)
      → Segment links none xs (some key)
      → Segment (after links key (last_or none xs) (first_or none ys)) none xs (first_or none ys)
  front-Segment links key xs ys distinct h = by_last (snoc_view xs)
    where
      by_last :
          (xs ≡ []) ⊎ ((zs : List K) × (p : K) × (xs ≡ zs ++ p ∷ []))
          → Segment
              (after links key (last_or none xs) (first_or none ys))
              none
              xs
              (first_or none ys)
      by_last (inl none_before) = rw none_before (tt)
      by_last (inr (zs, p, same)) =
          rw (same, last_or-append none zs (p ∷ []))
            (front_some links key p zs ys (rw same at distinct) (rw same at h))

  head_lem :
      (xs ys : List K) (key : K) (head : Option K)
      → head ≡ first_or none (xs ++ key ∷ ys)
      → or_if_none (last_or none xs) (first_or none ys) head ≡ first_or none (xs ++ ys)
  head_lem [] ys key head h = refl
  head_lem (x ∷ xs) ys key head h = kept xs x ∙ h
    where
      kept : (zs : List K) (z : K) → or_if_none (last_or (some z) zs) (first_or none ys) head ≡ head
      kept [] z = refl
      kept (y ∷ zs) z = kept zs y

  tail_lem :
      (xs ys : List K) (key : K) (tail : Option K)
      → tail ≡ last_or none (xs ++ key ∷ ys)
      → or_if_none (first_or none ys) (last_or none xs) tail ≡ last_or none (xs ++ ys)
  tail_lem xs [] key tail h = rw append-nil
  tail_lem xs (n ∷ ys) key tail h =
      h ∙ last_or-append none xs (key ∷ n ∷ ys) ∙ sym (last_or-append none xs (n ∷ ys))

  -- Removing a key from between others leaves the others in their order.
  pub remove-Spells :
      (key : K) (list : LinkedList K) (xs ys : List K)
      → Spells list (xs ++ key ∷ ys)
      → Spells (ll_remove key list).1 (xs ++ ys)
  unfolding ll_remove
  remove-Spells key list xs ys h =
      let (front, (this, back)) = Segment-split list.links none xs (key ∷ ys) none h.chain in
      let links' = after list.links key (last_or none xs) (first_or none ys) in
      let (once_xs, once_ys, apart) = Distinct-split xs (key ∷ ys) h.distinct in
      rw this (record {
        head = head_lem xs ys key list.head h.head;
        tail = tail_lem xs ys key list.tail h.tail;
        chain =
            Segment-append links' none xs ys none
              (front-Segment list.links key xs ys h.distinct front)
              (back-Segment list.links key xs ys h.distinct back);
        rest = λ k gone.
            let (xs_k, ys_k) = not_in-append xs ys k gone in
            elsewhere k xs_k ys_k (Bool-cases (key == k));
        distinct =
            Distinct-append xs ys once_xs once_ys.1
              (λ k there. (not_in-cons key ys k (apart k there)).1);
      })
    where
      elsewhere :
          (k : K)
          → contains xs k ≡ false
          → contains ys k ≡ false
          → ((key == k) ≡ true) ⊎ ((key == k) ≡ false)
          → after list.links key (last_or none xs) (first_or none ys) k ≡ none
      elsewhere k xs_k ys_k (inl this) = rw this
      elsewhere k xs_k ys_k (inr other) =
          untouched list.links key (last_or none xs) (first_or none ys) k other
            (holds-last none xs k refl xs_k) (holds-first ys k ys_k)
          ∙ h.rest k (contains-append xs (key ∷ ys) k ∙ rw (xs_k, other, ys_k))

  -- Removing a key that a list does not hold changes nothing.
  pub remove_absent :
      (key : K) (list : LinkedList K) (keys : List K)
      → Spells list keys
      → contains keys key ≡ false
      → ll_remove key list ≡ (false, list)
  unfolding ll_remove
  remove_absent key list keys h gone = rw (h.rest key gone)
