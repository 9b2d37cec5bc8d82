-- ===== src/Batch/Groups.antt =====
-- What the groups of a grouping loop hold for each key, and that no order of visiting them matters.
use mathlib.Core.List.{Permᴰ}
use spox.Prelude.{
  Bool, true, false, List, [], ◌∷◌, ◌++◌, Eq, ◌==◌, if◌then◌else◌, ◌≡◌, refl, ◌∙◌, sym, arith,
  append-nil, append_assoc,
}
use spox.Batch.{Groups, push_to, group_by}

module _ {K V : Type 0} ⦃e : Eq K⦄ where
  -- All values stored under a key, over every entry that has it.
  abbrev pub values_at : K → Groups K V → List V
  values_at m [] = []
  values_at m (p ∷ g) = if p.0 == m then p.1 ++ values_at m g else values_at m g

  abbrev pub has_key : K → Groups K V → Bool
  has_key k [] = false
  has_key k (p ∷ g) = if p.0 == k then true else has_key k g

  -- One entry for each key, as in a `HashMap`.
  abbrev pub Distinct : Groups K V → Type 0
  Distinct [] = Unit
  Distinct (p ∷ g) = (has_key p.0 g ≡ false) × Distinct g

  values_at_absent : (k : K) (g : Groups K V) → has_key k g ≡ false → values_at k g ≡ []
  values_at_absent k [] h = refl
  values_at_absent k ((j, vs) ∷ g) h = ground (arith, values_at_absent k g)

  has_key-push_to :
      (k m : K) (v : V) (g : Groups K V)
      → has_key m (push_to k v g) ≡ (if k == m then true else has_key m g)
  unfolding push_to
  has_key-push_to k m v [] = refl
  has_key-push_to k m v ((j, vs) ∷ g) =
      ground (arith, has_key-push_to k m v g, e.beq_iff j k, e.beq_iff j m, e.beq_iff k m)

  Distinct-push_to : (k : K) (v : V) (g : Groups K V) → Distinct g → Distinct (push_to k v g)
  unfolding push_to
  Distinct-push_to k v [] h = ground arith
  Distinct-push_to k v ((j, vs) ∷ g) h =
      ground (arith, Distinct-push_to k v g, has_key-push_to k j v g, e.beq_iff j k, e.beq_iff k j)

  values_at-push_to :
      (k m : K) (v : V) (g : Groups K V)
      → Distinct g
      → values_at m (push_to k v g) ≡ (if k == m then values_at m g ++ v ∷ [] else values_at m g)
  unfolding push_to
  values_at-push_to k m v [] h = ground arith
  values_at-push_to k m v ((j, vs) ∷ g) h = ground (
    arith,
    values_at-push_to k m v g,
    values_at_absent m g,
    e.beq_iff j k,
    e.beq_iff j m,
    e.beq_iff k m,
    append-nil vs,
    append-nil (vs ++ v ∷ []),
    append_assoc vs (values_at m g) (v ∷ []),
  )

  -- Visiting the entries in another order finds the same keys and, for each, the same values.
  has_key-perm : {g g' : Groups K V} (k : K) → Permᴰ g g' → has_key k g ≡ has_key k g'
  has_key-perm k Permᴰ.nil = refl
  has_key-perm k (Permᴰ.cons p q) = ground (arith, p, has_key-perm k q)
  has_key-perm k (Permᴰ.swap p q) = ground (arith, p, q)
  has_key-perm k (Permᴰ.trans p q) = has_key-perm k p ∙ has_key-perm k q

  Distinct-perm : {g g' : Groups K V} → Permᴰ g g' → Distinct g → Distinct g'
  Distinct-perm Permᴰ.nil h = h
  Distinct-perm (Permᴰ.cons {a = a} p q) h = ground (arith, p, Distinct-perm q, has_key-perm a.0 q)
  Distinct-perm (Permᴰ.swap {a = a} {b = b} p q) h =
      ground (arith, p, q, e.beq_iff a.0 b.0, e.beq_iff b.0 a.0)
  Distinct-perm (Permᴰ.trans p q) h = Distinct-perm q (Distinct-perm p h)

  values_at-perm :
      {g g' : Groups K V} (k : K) → Permᴰ g g' → Distinct g → values_at k g ≡ values_at k g'
  values_at-perm k Permᴰ.nil h = refl
  values_at-perm k (Permᴰ.cons p q) h = ground (arith, p, values_at-perm k q)
  values_at-perm k (Permᴰ.swap {a = a} {b = b} p q) h =
      ground (arith, p, q, e.beq_iff a.0 k, e.beq_iff b.0 k, e.beq_iff a.0 b.0, e.beq_iff b.0 a.0)
  values_at-perm k (Permᴰ.trans p q) h =
      values_at-perm k p h ∙ values_at-perm k q (Distinct-perm p h)

module _ {K V R : Type 0} ⦃e : Eq K⦄ (key : R → K) (value : R → V) where
  -- The values of the rows with a key, in the order of the rows.
  abbrev pub rows_with : K → List R → List V
  rows_with m [] = []
  rows_with m (r ∷ rs) = if key r == m then value r ∷ rows_with m rs else rows_with m rs

  group_by-Distinct :
      (g : Groups K V) (rs : List R) → Distinct g → Distinct (group_by key value g rs)
  unfolding group_by
  group_by-Distinct g [] h = h
  group_by-Distinct g (r ∷ rs) h =
      group_by-Distinct (push_to (key r) (value r) g) rs (Distinct-push_to (key r) (value r) g h)

  group_by_values :
      (m : K) (g : Groups K V) (rs : List R)
      → Distinct g
      → values_at m (group_by key value g rs) ≡ values_at m g ++ rows_with m rs
  unfolding group_by
  group_by_values m g [] h = sym (append-nil (values_at m g))
  group_by_values m g (r ∷ rs) h = ground (
    arith,
    group_by_values m (push_to (key r) (value r) g) rs,
    Distinct-push_to (key r) (value r) g h,
    values_at-push_to (key r) m (value r) g h,
    append_assoc (values_at m g) (value r ∷ []) (rows_with m rs),
  )

  module _ {g : Groups K V} (rs : List R) (p : Permᴰ (group_by key value [] rs) g) where
    -- The groups of the rows, in whatever order they are visited, have distinct keys.
    pub Distinct-group_by : Distinct g
    Distinct-group_by = Distinct-perm p (group_by-Distinct [] rs tt)

    -- Under each key stand the values of its rows, in the order of the rows.
    pub values_at-group_by : (m : K) → values_at m g ≡ rows_with m rs
    values_at-group_by m =
        sym (values_at-perm m p (group_by-Distinct [] rs tt)) ∙ group_by_values m [] rs tt
