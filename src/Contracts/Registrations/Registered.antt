-- ===== src/Contracts/Registrations/Registered.antt =====
-- The map of registrations against its linked list, however the contract is called.
use spox.Prelude.{
  ℕ, Bool, true, false, Option, none, some, List, [], ◌∷◌, ◌++◌, ◌⊎◌, inl, inr, ◌==◌, if◌then◌else◌,
  Bool-cases, ◌≡◌, refl, sym, ◌∙◌, subst,
}
use spox.Principal.{Principal, ContractId, contract, principal_eq}
use spox.Claim.{RegistrationKey}
use spox.Contracts.{map_set}
use spox.Contracts.LinkedList.{ll_append}
use spox.Contracts.Entries.{erase, replace}
use spox.Contracts.Tracking.{Tracks, append-Tracks, remove-Tracks, replace-Tracks}
use spox.Contracts.Registrations.{key_eq, Registration, RegistrationState, and_then}
use spox.Contracts.Registrations.Operations.{dropped}

abbrev pub IsContract : Principal → Type 0
IsContract p = (c : ContractId) × (p ≡ contract c)

same_key_lem :
    (key k : RegistrationKey) (r : Registration) (o : Option Registration)
    → IsContract key.signer_manager
    → (o ≡ some r → IsContract k.signer_manager)
    → (w : Registration) → (if key == k then some w else o) ≡ some r
    → IsContract k.signer_manager
same_key_lem key k r o here there w h = elim (Bool-cases (key == k)) [
  | inl same ↦ subst (λ j. IsContract j.signer_manager) ((key_eq.beq_iff key k).0 same) here
  | inr other ↦ there (rw other at h)
]

-- The linked list spells the keys of the map, each once, and every signer manager is a contract.
pub record Registers {L : Type 0} (s : RegistrationState L)
    (entries : List (RegistrationKey × Registration)) : Type 0 where
  pub tracked : Tracks s.registrations s.registration_ll entries
  pub signers :
      (key : RegistrationKey) (r : Registration)
      → s.registrations key ≡ some r
      → IsContract key.signer_manager

module _ {L : Type 0} where
  abbrev pub IsConsistent : RegistrationState L → Type 0
  IsConsistent s = (entries : List (RegistrationKey × Registration)) × Registers s entries

  -- Whatever a call answers, it leaves a consistent state.
  abbrev pub Leaves : {A : Type 0} → Option ((ℕ ⊎ A) × RegistrationState L) → Type 0
  Leaves none = Unit {0}
  Leaves (some (answer, s)) = IsConsistent s

  pub guard :
      {A : Type 0} (b : Bool) (x y : Option ((ℕ ⊎ A) × RegistrationState L))
      → (b ≡ true → Leaves x)
      → (b ≡ false → Leaves y)
      → Leaves (if b then x else y)
  guard true x y h k = h refl
  guard false x y h k = k refl

  pub computed :
      {A B : Type 0} (o : Option B) (f : B → Option ((ℕ ⊎ A) × RegistrationState L))
      → ((b : B) → Leaves (f b))
      → Leaves (and_then o f)
  computed none f h = tt
  computed (some b) f h = h b

  pub written :
      (key : RegistrationKey) (r : Registration) (s : RegistrationState L) (balances : L)
      → IsContract key.signer_manager
      → s.registrations key ≡ none
      → IsConsistent s
      → IsConsistent (record s {
        registrations = map_set key r s.registrations;
        registration_ll = (ll_append key s.registration_ll).1;
        balances = balances;
      })
  written key r s balances signer new (entries, h) = (
    entries ++ (key, r) ∷ [],
    record {
      tracked =
          append-Tracks key s.registrations s.registration_ll entries h.tracked r
            (sym (h.tracked.stored key) ∙ new);
      signers =
          λ k q known. same_key_lem key k q (s.registrations k) signer (h.signers k q) r known;
    },
  )

  pub rewritten :
      (key : RegistrationKey) (old r : Registration) (s : RegistrationState L) (balances : L)
      → s.registrations key ≡ some old
      → IsConsistent s
      → IsConsistent
          (record s { registrations = map_set key r s.registrations; balances = balances })
  rewritten key old r s balances known (entries, h) = (
    replace key r entries,
    record {
      tracked =
          replace-Tracks key s.registrations s.registration_ll entries h.tracked r old
            (sym (h.tracked.stored key) ∙ known);
      signers = λ k q there.
          same_key_lem key k q (s.registrations k) (h.signers key old known) (h.signers k q) r
            there;
    },
  )

  pub dropped-IsConsistent :
      (key : RegistrationKey) (s : RegistrationState L)
      → IsConsistent s
      → IsConsistent (dropped key s)
  unfolding dropped
  dropped-IsConsistent key s (entries, h) = (
    erase key entries,
    record {
      tracked = remove-Tracks key s.registrations s.registration_ll entries h.tracked;
      signers = λ k q there. h.signers k q (kept (key == k) (s.registrations k) q there);
    },
  )
    where
      kept :
          (b : Bool) (o : Option Registration) (q : Registration)
          → (if b then none else o) ≡ some q
          → o ≡ some q
      kept true o q h = absurd (cc)
      kept false o q h = h
