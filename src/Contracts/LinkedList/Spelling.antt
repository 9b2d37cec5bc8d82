-- ===== src/Contracts/LinkedList/Spelling.antt =====
-- The sequence of keys that a linked list stands for, and appending to it.
use spox.Prelude.{
  true, false, Option, none, some, List, [], ◌∷◌, ◌++◌, ◌⊎◌, inl, inr, Eq, ◌==◌, contains,
  Bool-cases, beq_self, ◌≡◌, refl, sym, ap, ◌∙◌, subst,
}
use spox.Contracts.{map_set}
use spox.Contracts.LinkedList.{Links, LinkedList, empty, ll_append}
use spox.Contracts.LinkedList.Segments.{
  first_or, last_or, Segment, last_or-append, Segment-append, Segment-split, snoc_view, Distinct,
  Segment-links, not_in-append, not_in-cons, apart_of, Distinct-split, Distinct-append,
}

module _ {K : Type 0} ⦃e : Eq K⦄ where
  -- From its head the list's links go through these keys to its tail, each key once, and no other key
  -- has links.
  pub record Spells (list : LinkedList K) (keys : List K) : Type 0 where
    pub head : list.head ≡ first_or none keys
    pub tail : list.tail ≡ last_or none keys
    pub chain : Segment list.links none keys none
    pub rest : (k : K) → contains keys k ≡ false → list.links k ≡ none
    pub distinct : Distinct keys

  pub empty-Spells : Spells empty []
  unfolding empty
  empty-Spells = record { head = refl; tail = refl; chain = tt; rest = λ k h. refl; distinct = tt }

  abbrev list_of : Option K → Option K → (K → Option (Links K)) → LinkedList K
  list_of head tail links = record { head = head; tail = tail; links = links }

  -- Two keys that a test tells apart, the other way round.
  pub apart_sym : (j k : K) → (j == k) ≡ false → (k == j) ≡ false
  apart_sym j k h = elim (Bool-cases (k == j)) [
    | inl same ↦ absurd (cc (h, (e.beq_iff j k).1 (sym ((e.beq_iff k j).0 same))))
    | inr other ↦ other
  ]

  append_none :
      (key : K) (head : Option K) (links : K → Option (Links K))
      → Spells (list_of head none links) []
      → Spells (ll_append key (list_of head none links)).1 (key ∷ [])
  unfolding ll_append
  append_none key head links h = record {
    head = refl;
    tail = refl;
    chain = (rw (beq_self e key), tt);
    rest = λ k new. rw ((not_in-cons key [] k new).0) (h.rest k refl);
    distinct = (refl, tt);
  }

  append_some :
      (key t : K) (head : Option K) (links : K → Option (Links K)) (ys : List K)
      → Spells (list_of head (some t) links) (ys ++ t ∷ [])
      → contains (ys ++ t ∷ []) key ≡ false
      → Spells (ll_append key (list_of head (some t) links)).1 ((ys ++ t ∷ []) ++ key ∷ [])
  unfolding ll_append
  append_some key t head links ys h new =
      let (front, (last, _)) = Segment-split links none ys (t ∷ []) none h.chain in
      let (_, _, apart) = Distinct-split ys (t ∷ []) h.distinct in
      rw (apart_sym t key t_key, last)
        (record {
          head = h.head ∙ longer_lem ys;
          tail = sym (last_or-append none zs (key ∷ []));
          chain =
              Segment-append after none zs (key ∷ []) none
                (Segment-append after none ys (t ∷ []) (some key)
                  (Segment-links links after none ys (some t)
                    (λ k there. untouched k there (apart k there)) front)
                  (rw (beq_self e t), tt))
                (at_end, tt);
          rest = elsewhere;
          distinct = Distinct-append zs (key ∷ []) h.distinct (refl, tt) single;
        })
    where
      zs : List K
      zs = ys ++ t ∷ []

      after : K → Option (Links K)
      after =
          map_set t (record { prev = last_or none ys; next = some key })
            (map_set key (record { prev = some t; next = none }) links)

      longer_lem :
          (xs : List K) → first_or none (xs ++ t ∷ []) ≡ first_or none ((xs ++ t ∷ []) ++ key ∷ [])
      longer_lem [] = refl
      longer_lem (x ∷ xs) = refl

      not_before : contains ys key ≡ false
      not_before = (not_in-append ys (t ∷ []) key new).0

      t_key : (t == key) ≡ false
      t_key = (not_in-cons t [] key (not_in-append ys (t ∷ []) key new).1).0

      untouched : (k : K) → contains ys k ≡ true → contains (t ∷ []) k ≡ false → after k ≡ links k
      untouched k there not_t =
          rw ((not_in-cons t [] k not_t).0, apart_of ys k key there not_before)

      at_end : after key ≡ some (record { prev = last_or none zs; next = none })
      at_end = rw (t_key, beq_self e key, last_or-append none ys (t ∷ []))

      single : (k : K) → contains zs k ≡ true → contains (key ∷ []) k ≡ false
      single k there = rw (apart_of zs k key there new)

      elsewhere : (k : K) → contains (zs ++ key ∷ []) k ≡ false → after k ≡ none
      elsewhere k gone =
          let (not_zs, not_key) = not_in-append zs (key ∷ []) k gone in
          let not_t = (not_in-append ys (t ∷ []) k not_zs).1 in
          rw ((not_in-cons t [] k not_t).0, (not_in-cons key [] k not_key).0) (h.rest k not_zs)

  -- Appending a key that a list does not hold puts it after all its keys.
  pub append-Spells :
      (key : K) (list : LinkedList K) (keys : List K)
      → Spells list keys
      → contains keys key ≡ false
      → Spells (ll_append key list).1 (keys ++ key ∷ [])
  append-Spells key list keys h new = by_last (snoc_view keys)
    where
      -- The list with its tail written out, and its keys.
      at_tail :
          (o : Option K) (ks : List K)
          → list.tail ≡ o
          → keys ≡ ks
          → (Spells (list_of list.head o list.links) ks
              → Spells (ll_append key (list_of list.head o list.links)).1 (ks ++ key ∷ []))
          → Spells (ll_append key list).1 (keys ++ key ∷ [])
      at_tail o ks tail same grown =
          let p : list ≡ list_of list.head o list.links =
            ap (λ t. list_of list.head t list.links) tail in
          subst (λ l. Spells (ll_append key l).1 (keys ++ key ∷ [])) (sym p)
            (subst (λ j. Spells (ll_append key (list_of list.head o list.links)).1 (j ++ key ∷ []))
              (sym same) (grown (subst (λ l. Spells l ks) p (subst (Spells list) same h))))

      by_last :
          (keys ≡ []) ⊎ ((ys : List K) × (t : K) × (keys ≡ ys ++ t ∷ []))
          → Spells (ll_append key list).1 (keys ++ key ∷ [])
      by_last (inl none_yet) =
          at_tail none [] (h.tail ∙ ap (last_or none) none_yet) none_yet
            (append_none key list.head list.links)
      by_last (inr (ys, t, same)) =
          at_tail (some t) (ys ++ t ∷ [])
            (h.tail ∙ ap (last_or none) same ∙ last_or-append none ys (t ∷ [])) same
            (λ spelled. append_some key t list.head list.links ys spelled (rw same at new))
