-- ===== src/Contracts/DepositRegistry/Serving.antt =====
-- A node on which the registry runs, and what the program's client reads from it.
use spox.Prelude.{
  ℕ, suc, ◌≤◌, ◌<◌, String, ◌⊎◌, inl, inr, Option, none, some, List, [], ◌∷◌, map, length, ltb, All,
  if◌then◌else◌, Bool-cases, ◌≡◌, refl, sym, ap, ◌∙◌, subst, arith,
}
use spox.Principal.{ContractId}
use spox.Error.{Error, Result, ok, err, invalid_stacks_response}
use spox.Result
use spox.Result.{map_err, ok-inj, bind-ok}
use spox.Exec.{lift, ◌>>=◌}
use spox.Clarity.{Value, u_int, list, tuple, field, end, of_list}
use spox.Clarity.Reading.{to_list-of_list}
use spox.StacksApi.{StacksApi}
use spox.AddressRegistry
use spox.AddressRegistry.{
  RawRegisteredDeposit, RawRegisteredDepositScripts, u64_limit, get_addresses_max_ids,
  raw_deposit_try_from, to_u64, fetch_addresses, next_id_of, raw_deposits_of,
}
use spox.AddressRegistry.Raw.{address_value, deposit_value, raw_deposit_try_from-value}
use spox.Contracts.DepositRegistry.{
  DepositAddress, address_of, RegistryState, Reach, here, get_next_address_id, get_address,
  get_addresses,
}

-- A read-only call takes place at one moment between its begin and its end, or fails.
pub record ReadOnly (contract_owner : String) (s t : RegistryState) (r : Result Value)
    (function : RegistryState → Value) : Type 0 where
  pub moment : RegistryState
  pub before : Reach contract_owner s moment
  pub after : Reach contract_owner moment t
  pub answer : (r ≡ ok (function moment)) ⊎ ((e : Error) × (r ≡ err e))

-- The chain of the world `w` holds the registry in the state `on_chain w`, and the node answers reads
-- of it. Bounded lists are built from as many values as their type allows.
pub record Serves {W : Type 0} (api : StacksApi W)
    (list_with_type : ℕ → List Value → String ⊎ Value) (contract : ContractId)
    (contract_owner : String) (on_chain : W → RegistryState) : Type 0 where
  pub bounded_list :
      (n : ℕ) (vs : List Value) → length vs ≤ n → list_with_type n vs ≡ inr (list (of_list vs))
  pub next_id :
      (w : W)
      → let (r, w') =
          api.call_read contract.issuer contract.name "get-next-address-id" contract.issuer [] none
            w in
        ReadOnly contract_owner (on_chain w) (on_chain w') r get_next_address_id
  pub addresses :
      (ids : List ℕ) (w : W)
      → let (r, w') =
          api.call_read contract.issuer contract.name "get-addresses" contract.issuer
            (list (of_list (map (λ id. u_int id) ids)) ∷ [])
            none
            w in
        ReadOnly contract_owner (on_chain w) (on_chain w') r (λ s. get_addresses s ids)

-- An entry as the client keeps it.
abbrev pub raw_scripts : Option DepositAddress → Option RawRegisteredDepositScripts
raw_scripts none = none
raw_scripts (some a) =
    some (record { deposit_script = a.deposit_script; reclaim_script = a.reclaim_script })

abbrev pub raw_of : RegistryState → ℕ → RawRegisteredDeposit
raw_of s id = record { id = id; address = raw_scripts (s.deposit_address id) }

address_of_lem : (o : Option DepositAddress) → address_of o ≡ address_value (raw_scripts o)
address_of_lem none = refl
address_of_lem (some a) = refl

get_address_lem :
    (s : RegistryState) (id : ℕ)
    → get_address s id ≡ deposit_value id (raw_scripts (s.deposit_address id))
unfolding get_address
get_address_lem s id =
    ap (λ v. tuple (field "id" (u_int id) (field "address" v end)))
      (address_of_lem (s.deposit_address id))

-- Ids that are numbers of 64 bits decode to their entries, and one that is not refuses them all.
raw_deposits_lem :
    (s : RegistryState) (ids : List ℕ) (raws : List RawRegisteredDeposit)
    → Result.collect raw_deposit_try_from (map (get_address s) ids) ≡ ok raws
    → (raws ≡ map (raw_of s) ids) × All (λ id. id < u64_limit) ids
raw_deposits_lem s [] raws h = (sym (ok-inj h), tt)
raw_deposits_lem s (id ∷ ids) raws h =
    let (raw, first, collected) = bind-ok (raw_deposit_try_from (get_address s id)) _ raws h in
    let (others, later, made) =
      bind-ok (Result.collect raw_deposit_try_from (map (get_address s) ids)) _ raws collected in
    let (same, small) = raw_deposits_lem s ids others later in
    let decoded : (if ltb id u64_limit
          then ok (raw_of s id)
          else err (invalid_stacks_response "uint is too large"))
        ≡ ok raw =
      sym (raw_deposit_try_from-value id (raw_scripts (s.deposit_address id)))
      ∙ ap raw_deposit_try_from (sym (get_address_lem s id))
      ∙ first in
    elim (Bool-cases (ltb id u64_limit)) [
      | inl fits ↦
          let this : raw_of s id ≡ raw = ok-inj (rw fits at decoded) in
          (sym (ok-inj made) ∙ cc (this, same), (ground (arith, fits), small))
      | inr wide ↦ absurd (cc (rw wide at decoded))
    ]

-- What a call of the client returned was so at one moment between its begin and its end.
pub record ReadAt {A : Type 0} (contract_owner : String) (s t : RegistryState) (r : Result A)
    (Holds : RegistryState → A → Type 0) : Type 0 where
  pub moment : RegistryState
  pub before : Reach contract_owner s moment
  pub after : Reach contract_owner moment t
  pub value : (a : A) → r ≡ ok a → Holds moment a

lift_lem :
    {W A : Type 0} (r : Result Value) (f : Value → Result A) (w : W)
    → ((λ t. (r, t)) >>= λ v. lift (f v)) w ≡ (Result.◌>>=◌ r f, w)
lift_lem (ok v) f w = refl
lift_lem (err e) f w = refl

-- A client's call that decodes the answer of a read-only function.
decoded_lem :
    {A : Type 0} {owner : String} {s t : RegistryState} {r : Result Value}
    {function : RegistryState → Value} (f : Value → Result A) (Holds : RegistryState → A → Type 0)
    → ((m : RegistryState) (a : A) → f (function m) ≡ ok a → Holds m a)
    → ReadOnly owner s t r function
    → ReadAt owner s t (Result.◌>>=◌ r f) Holds
decoded_lem {A = A} {r = r} {function = function} f Holds decodes read = record {
  moment = read.moment;
  before = read.before;
  after = read.after;
  value = λ a h. by_answer r read.answer a h;
}
  where
    by_answer :
        (r : Result Value)
        → (r ≡ ok (function read.moment)) ⊎ ((e : Error) × (r ≡ err e))
        → (a : A) → Result.◌>>=◌ r f ≡ ok a
        → Holds read.moment a
    by_answer r (inl answered) a h = decodes read.moment a (rw answered at h)
    by_answer r (inr (e, failed)) a h = absurd (cc (rw failed at h))

-- The client's entries of some ids.
abbrev pub Entries : List ℕ → RegistryState → List RawRegisteredDeposit → Type 0
Entries ids s raws = (raws ≡ map (raw_of s) ids) × All (λ id. id < u64_limit) ids

length-map : {A B : Type 0} (f : A → B) (xs : List A) → length (map f xs) ≡ length xs
length-map f [] = refl
length-map f (x ∷ xs) = ap suc (length-map f xs)

module _ {W : Type 0} (api : StacksApi W) (list_with_type : ℕ → List Value → String ⊎ Value)
    (contract : ContractId) (owner : String) (on_chain : W → RegistryState)
    (serves : Serves api list_with_type contract owner on_chain) where
  -- The next id that the client reads is the registry's at some moment of the call, and has 64 bits.
  pub get_next_address_id-ReadAt :
      (w : W)
      → let (r, w') = AddressRegistry.get_next_address_id api list_with_type contract w in
        ReadAt owner (on_chain w) (on_chain w') r (λ s n. (n ≡ s.next_address_id) × (n < u64_limit))
  unfolding AddressRegistry.get_next_address_id get_next_address_id
  get_next_address_id-ReadAt w =
      let (r, w') =
        api.call_read contract.issuer contract.name "get-next-address-id" contract.issuer [] none
          w in
      subst
        (λ p.
          ReadAt owner (on_chain w) (on_chain p.1) p.0
            (λ s n. (n ≡ s.next_address_id) × (n < u64_limit)))
        (sym (lift_lem r next_id_of w')) (decoded_lem next_id_of _ in_64_bits (serves.next_id w))
    where
      in_64_bits :
          (s : RegistryState) (n : ℕ)
          → to_u64 s.next_address_id ≡ ok n
          → (n ≡ s.next_address_id) × (n < u64_limit)
      in_64_bits s n h = ground (arith, h)

  fetched_lem :
      (ids : List ℕ) (w : W)
      → length ids ≤ get_addresses_max_ids
      → let (r, w') = fetch_addresses api list_with_type contract ids w in
        ReadAt owner (on_chain w) (on_chain w') r (Entries ids)
  unfolding get_addresses
  fetched_lem ids w few =
      let values = map (λ id. u_int id) ids in
      let (r, w') =
        api.call_read contract.issuer contract.name "get-addresses" contract.issuer
          (list (of_list values) ∷ []) none w in
      let typed =
        serves.bounded_list get_addresses_max_ids values
          (omega (arith, few, length-map (λ id. u_int id) ids)) in
      rw typed (
        subst (λ p. ReadAt owner (on_chain w) (on_chain p.1) p.0 (Entries ids))
          (sym (lift_lem r raw_deposits_of w'))
          (decoded_lem raw_deposits_of (Entries ids)
            (λ s raws h. raw_deposits_lem s ids raws (rw to_list-of_list at h))
            (serves.addresses ids w)))

  -- The entries that the client reads are the registry's at some moment of the call.
  pub get_addresses-ReadAt :
      (ids : List ℕ) (w : W)
      → let (r, w') = AddressRegistry.get_addresses api list_with_type contract ids w in
        ReadAt owner (on_chain w) (on_chain w') r (Entries ids)
  unfolding AddressRegistry.get_addresses
  get_addresses-ReadAt [] w = record {
    moment = on_chain w;
    before = here;
    after = here;
    value = λ raws h. (sym (ok-inj h), tt);
  }
  get_addresses-ReadAt (id ∷ ids) w =
      elim (Bool-cases (ltb get_addresses_max_ids (length (id ∷ ids)))) [
        | inl many ↦ rw many (record {
          moment = on_chain w;
          before = here;
          after = here;
          value = λ raws h. absurd (cc);
        })
        | inr few ↦ rw few (fetched_lem (id ∷ ids) w (ground (arith, few)))
      ]
