-- ===== src/Contracts/DepositRegistry/History.antt =====
-- What stays true of the registry while transactions change it.
use spox.Prelude.{
  ℕ, ◌+◌, ◌≤◌, ◌<◌, String, Bool, true, false, Option, none, some, List, [], ◌∷◌, length, ◌⊎◌, inl,
  inr, ◌==◌, nat_eq, string_eq, if◌then◌else◌, leb, Bool-cases, ◌≡◌, ◌≢◌, refl, sym, ap, ◌∙◌, subst,
  arith,
}
use spox.Sbtc.{Script}
use spox.Contracts.{uint_limit, map_set}
use spox.Contracts.DepositRegistry.{
  DepositAddress, RegistryState, deployed, register_address, remove_address, remove_all,
  remove_addresses, Step, registered, removed, Reach, here, next,
}

-- `t` is the registry at a later time than `s`.
pub record Later (s t : RegistryState) : Type 0 where
  pub grows : s.next_address_id ≤ t.next_address_id
  pub kept :
      (id : ℕ)
      → id < s.next_address_id
      → (t.deposit_address id ≡ s.deposit_address id) ⊎ (t.deposit_address id ≡ none)

pub Later-refl : (s : RegistryState) → Later s s
Later-refl s = record { grows = omega arith; kept = λ id h. inl refl }

kept_twice :
    {x y z : Option DepositAddress}
    → (y ≡ x) ⊎ (y ≡ none)
    → (z ≡ y) ⊎ (z ≡ none)
    → (z ≡ x) ⊎ (z ≡ none)
kept_twice p (inr q) = inr q
kept_twice (inl p) (inl q) = inl (q ∙ p)
kept_twice (inr p) (inl q) = inr (q ∙ p)

pub Later-trans : {s t u : RegistryState} → Later s t → Later t u → Later s u
Later-trans first second = record {
  grows = omega (arith, first.grows, second.grows);
  kept = λ id h. kept_twice (first.kept id h) (second.kept id (omega (arith, first.grows, h)));
}

-- Some ids of `s` are removed in `t`.
record Removes (s t : RegistryState) : Type 0 where
  same_id : t.next_address_id ≡ s.next_address_id
  left_or_gone :
      (id : ℕ) → (t.deposit_address id ≡ s.deposit_address id) ⊎ (t.deposit_address id ≡ none)

Removes-Later : {s t : RegistryState} → Removes s t → Later s t
Removes-Later h = record { grows = omega (arith, h.same_id); kept = λ id lt. h.left_or_gone id }

remove_all-Removes : (ids : List ℕ) (s : RegistryState) → Removes s (remove_all ids s).1
unfolding remove_all remove_address
remove_all-Removes [] s = record { same_id = refl; left_or_gone = λ id. inl refl }
remove_all-Removes (id ∷ ids) s =
    let later = remove_all-Removes ids (remove_address id s).1 in
    record {
      same_id = later.same_id;
      left_or_gone = λ j. kept_twice (deleted j (id == j)) (later.left_or_gone j);
    }
  where
    deleted :
        (j : ℕ) (same : Bool)
        → ((if same then none else s.deposit_address j) ≡ s.deposit_address j)
          ⊎ ((if same then none else s.deposit_address j) ≡ none)
    deleted j true = inr refl
    deleted j false = inl refl

some-inj : {A : Type 0} {a b : A} → some a ≡ some b → a ≡ b
some-inj e = cc

-- The state after a registration that Clarity does not take back.
abbrev after_register : Script → Script → RegistryState → RegistryState
after_register d r s = record {
  next_address_id = s.next_address_id + 1;
  deposit_address =
      map_set s.next_address_id (record { deposit_script = d; reclaim_script = r })
        s.deposit_address;
}

register_lem :
    (d r : Script) (s t : RegistryState) (id : ℕ)
    → register_address d r s ≡ some (id, t)
    → (s.next_address_id + 1 < uint_limit) × (after_register d r s ≡ t)
unfolding register_address
register_lem d r s t id h = elim (Bool-cases (leb uint_limit (s.next_address_id + 1))) [
  | inl over ↦ absurd (cc (rw over at h))
  | inr fits ↦ (ground (arith, fits), ap (λ p. p.1) (some-inj (rw fits at h)))
]

-- The id of a registration is the next one, under which its scripts are stored.
registered_lem :
    (d r : Script) (s t : RegistryState) (id : ℕ)
    → register_address d r s ≡ some (id, t)
    → (id ≡ s.next_address_id)
      × (t.deposit_address id ≡ some (record { deposit_script = d; reclaim_script = r }))
      × (id < t.next_address_id)
unfolding register_address
registered_lem d r s t id h = elim (Bool-cases (leb uint_limit (s.next_address_id + 1))) [
  | inl over ↦ absurd (cc (rw over at h))
  | inr fits ↦
      let made = some-inj (rw fits at h) in
      let here' : s.next_address_id ≡ id = ap (λ p. p.0) made in
      subst
        (λ p.
          (p.0 ≡ s.next_address_id)
          × (p.1.deposit_address p.0 ≡ some (record { deposit_script = d; reclaim_script = r }))
          × (p.0 < p.1.next_address_id))
        made (refl, ground arith, omega arith)
]

registered-Later : (d r : Script) (s : RegistryState) → Later s (after_register d r s)
registered-Later d r s = record { grows = omega arith; kept = λ id h. inl (ground arith) }

remove_addresses-Removes :
    (owner sender : String) (ids : List ℕ) (s : RegistryState)
    → Removes s (remove_addresses owner sender ids s).1
unfolding remove_addresses
remove_addresses-Removes owner sender ids s = by_sender (sender == owner)
  where
    by_sender :
        (b : Bool)
        → let outcome : (ℕ ⊎ List Bool) × RegistryState =
            if b then (let (gone, s') = remove_all ids s in (inr gone, s')) else (inl 100, s) in
          Removes s outcome.1
    by_sender true = remove_all-Removes ids s
    by_sender false = record { same_id = refl; left_or_gone = λ id. inl refl }

Step-Later : {owner : String} {s t : RegistryState} → Step owner s t → Later s t
Step-Later {s} {t} (registered id d r small short h) =
    subst (Later s) (register_lem d r s t id h).1 (registered-Later d r s)
Step-Later {owner} {s} {t} (removed sender ids few h) =
    subst (Later s) h (Removes-Later (remove_addresses-Removes owner sender ids s))

-- However the registry is changed, by whomever, an id below the next one keeps its two scripts or is
-- removed, and the next id never falls.
pub Reach-Later : {owner : String} {s t : RegistryState} → Reach owner s t → Later s t
Reach-Later {s} here = Later-refl s
Reach-Later (next r st) = Later-trans (Reach-Later r) (Step-Later st)

-- The id that a registration answers with is given out once: however the registry is changed
-- afterwards, by whomever, it stands for the two scripts that were registered or is removed, and every
-- later registration answers with a greater id.
pub register_address_once :
    {owner : String} {t u : RegistryState} (d r : Script) (s : RegistryState) (id : ℕ)
    → register_address d r s ≡ some (id, t)
    → Reach owner t u
    → ((u.deposit_address id ≡ some (record { deposit_script = d; reclaim_script = r }))
        ⊎ (u.deposit_address id ≡ none))
      × ((d' r' : Script) (id' : ℕ) (v : RegistryState)
          → register_address d' r' u ≡ some (id', v)
          → id < id')
register_address_once {t} {u} d r s id h run =
    let (now, stored, above) = registered_lem d r s t id h in
    let later = Reach-Later run in
    (
      elim (later.kept id above) [ inl same ↦ inl (same ∙ stored) | inr gone ↦ inr gone ],
      λ d' r' id' v again.
          let (next_id, _, _) = registered_lem d' r' u v id' again in
          omega (arith, above, later.grows, next_id),
    )

-- No id from the next one on is registered, ids are values of Clarity, and scripts are of its types.
pub record IsValid (s : RegistryState) : Type 0 where
  pub unused : (id : ℕ) → s.next_address_id ≤ id → s.deposit_address id ≡ none
  pub in_uint : s.next_address_id < uint_limit
  pub sized :
      (id : ℕ) (a : DepositAddress)
      → s.deposit_address id ≡ some a
      → (length a.deposit_script ≤ 196) × (length a.reclaim_script ≤ 2048)

registered-IsValid :
    (d r : Script) (s : RegistryState)
    → length d ≤ 196
    → length r ≤ 2048
    → s.next_address_id + 1 < uint_limit
    → IsValid s
    → IsValid (after_register d r s)
registered-IsValid d r s small short fits h = record {
  unused = λ id above. ground (arith, h.unused id);
  in_uint = fits;
  sized = λ id a held. elim (Bool-cases (s.next_address_id == id)) [
    | inl new ↦
        subst (λ x. (length x.deposit_script ≤ 196) × (length x.reclaim_script ≤ 2048))
          (some-inj (rw new at held)) (small, short)
    | inr old ↦ h.sized id a (rw old at held)
  ];
}

Removes-IsValid : {s t : RegistryState} → Removes s t → IsValid s → IsValid t
Removes-IsValid {s} {t} gone h = record {
  unused = λ id above. still_unused id (gone.left_or_gone id) (rw gone.same_id at above);
  in_uint = omega (arith, h.in_uint, gone.same_id);
  sized = λ id a held. still_sized id a held (gone.left_or_gone id);
}
  where
    still_unused :
        (id : ℕ)
        → (t.deposit_address id ≡ s.deposit_address id) ⊎ (t.deposit_address id ≡ none)
        → s.next_address_id ≤ id
        → t.deposit_address id ≡ none
    still_unused id (inl same) above = same ∙ h.unused id above
    still_unused id (inr none_left) above = none_left

    still_sized :
        (id : ℕ) (a : DepositAddress)
        → t.deposit_address id ≡ some a
        → (t.deposit_address id ≡ s.deposit_address id) ⊎ (t.deposit_address id ≡ none)
        → (length a.deposit_script ≤ 196) × (length a.reclaim_script ≤ 2048)
    still_sized id a held (inl same) = h.sized id a (sym same ∙ held)
    still_sized id a held (inr none_left) = absurd (cc)

Step-IsValid : {owner : String} {s t : RegistryState} → Step owner s t → IsValid s → IsValid t
Step-IsValid {s} {t} (registered id d r small short e) h =
    let (fits, after) = register_lem d r s t id e in
    subst IsValid after (registered-IsValid d r s small short fits h)
Step-IsValid {owner} {s} {t} (removed sender ids few e) h =
    subst IsValid e (Removes-IsValid (remove_addresses-Removes owner sender ids s) h)

deployed-IsValid : IsValid deployed
unfolding deployed
deployed-IsValid = record {
  unused = λ id above. refl;
  in_uint = omega arith;
  sized = λ id a held. absurd (cc);
}

-- However the registry is changed since it was deployed, no id from the next one on is registered, the
-- next id is a value of 128 bits, and each script that it holds is within the size of its type.
pub Reach-IsValid : {owner : String} {s : RegistryState} → Reach owner deployed s → IsValid s
Reach-IsValid here = deployed-IsValid
Reach-IsValid (next r st) = Step-IsValid st (Reach-IsValid r)

-- Only the owner removes: another sender is refused, and the registry stays as it is.
pub remove_addresses-owner :
    (owner sender : String) (ids : List ℕ) (s : RegistryState)
    → sender ≢ owner
    → remove_addresses owner sender ids s ≡ (inl 100, s)
unfolding remove_addresses
remove_addresses-owner owner sender ids s other = ground (arith, string_eq.beq_iff sender owner)
