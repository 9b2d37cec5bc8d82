-- ===== src/Contracts/DepositRegistry/Watching/Passes.antt =====
-- The passes of the loop over the registry's ids, on a node on which the registry runs.
use spox.Prelude.{
  ℕ, zero, suc, ◌+◌, ◌-◌, ◌≤◌, ◌<◌, String, true, false, List, [], ◌∷◌, map, ◌⊎◌, inl, inr, leb,
  min, ◌==◌, nat_eq, list_eq, list_beq_iff, if◌then◌else◌, Bool-cases, ◌≡◌, refl, sym, ap, ◌∙◌,
  subst, arith,
}
use spox.Principal.{ContractId}
use spox.Error.{Result, ok, err, mismatching_raw_address_ids}
use spox.Exec.{Exec, raise, ◌>>=◌}
use spox.Clarity.{Value}
use spox.Sbtc.{Sbtc}
use spox.Storage.{SharedStore, get_last_next_address_id}
use spox.StacksApi.{StacksApi}
use spox.AddressRegistry.{RawRegisteredDeposit, get_addresses_max_ids}
use spox.BitcoinApi.{BitcoinApi}
use spox.DepositMonitor.{u64_limit, LruCache, MonitorState}
use spox.DepositProcess.{
  Registry, contract_registry, saturating_add, range, add_addresses, update_chunk, update_chunks,
}
use spox.DepositProcess.Chunk.{last_id}
use spox.Contracts.DepositRegistry.{RegistryState}
use spox.Contracts.DepositRegistry.History.{Later, Later-trans, Reach-Later}
use spox.Contracts.DepositRegistry.Serving.{Serves, ReadAt, Entries, raw_of, get_addresses-ReadAt}
use spox.Contracts.DepositRegistry.Watching.Storing.{
  WatchedBelow, Later-WatchedBelow, Watches, add_addresses-Watches,
}

module _ {W H C D R : Type 0} (lib : Sbtc D R) (bitcoin : BitcoinApi W)
    (hexes : LruCache H (String × String) String) (created : LruCache C (String × ℕ) (Unit {0}))
    (api : StacksApi W) (list_with_type : ℕ → List Value → String ⊎ Value) (contract : ContractId)
    (owner : String) (on_chain : W → RegistryState)
    (serves : Serves api list_with_type contract owner on_chain) where
  abbrev pub State : Type 0
  State = MonitorState W H C D R

  abbrev pub registry : Registry W
  registry = contract_registry api list_with_type contract

  -- The store watches the registry of the state's own world.
  abbrev pub IsWatching : State → Type 0
  IsWatching s = Watches lib bitcoin hexes created (on_chain s.world) s.shared

  -- Whatever others do to the registry, what the store watches it still watches.
  pub moved-Watches :
      {m c : RegistryState} (shared : SharedStore D R)
      → Later m c
      → Watches lib bitcoin hexes created m shared
      → Watches lib bitcoin hexes created c shared
  moved-Watches shared later h = record {
    free = h.free;
    behind = omega (arith, h.behind, later.grows);
    below = Later-WatchedBelow lib (last_id shared) shared later h.behind h.below;
  }

  -- What a pass leaves: the store watches the registry, and if the pass returned no error it watches
  -- the ids below `end` too.
  record Passed (next end : ℕ) (r : Result (Unit {0})) (s : State) : Type 0 where
    watching : IsWatching s
    ahead : next ≤ (on_chain s.world).next_address_id
    upto : r ≡ ok tt → WatchedBelow lib end (on_chain s.world) s.shared

  abbrev store_chunk : List ℕ → List RawRegisteredDeposit → Exec State (Unit {0})
  store_chunk ids raws =
      if ids == map (λ raw. raw.id) raws
      then add_addresses lib bitcoin hexes created raws
      else raise mismatching_raw_address_ids

  ids_lem : (m : RegistryState) (ids : List ℕ) → map (λ raw. raw.id) (map (raw_of m) ids) ≡ ids
  ids_lem m [] = refl
  ids_lem m (id ∷ ids) = ap (◌∷◌ id) (ids_lem m ids)

  fetched_lem :
      (next count start : ℕ) (r : Result (List RawRegisteredDeposit)) (s : State)
      (before : RegistryState)
      → start + count ≤ before.next_address_id
      → next ≤ (on_chain s.world).next_address_id
      → ReadAt owner before (on_chain s.world) r (Entries (range start count))
      → IsWatching s
      → WatchedBelow lib start (on_chain s.world) s.shared
      → Passed next
          (start + count)
          (((λ t. (r, t)) >>= store_chunk (range start count)) s).0
          (((λ t. (r, t)) >>= store_chunk (range start count)) s).1
  fetched_lem next count start (err e) s before le ahead read h upto = record {
    watching = h;
    ahead = ahead;
    upto = λ q. absurd (cc);
  }
  fetched_lem next count start (ok raws) s before le ahead read h upto =
      let (entries, small) = read.value raws refl in
      let grown = (Reach-Later read.before).grows in
      let (watches, all, world) =
        add_addresses-Watches lib bitcoin hexes created count start s (Reach-Later read.after)
          (omega arith) small h upto in
      let ids = range start count in
      let same : (ids == map (λ raw. raw.id) raws) ≡ true =
        (list_beq_iff nat_eq ids (map (λ raw. raw.id) raws)).1
          (sym (ap (map (λ raw. raw.id)) entries ∙ ids_lem read.moment ids)) in
      rw (same, entries)
        (record { watching = rw world watches; ahead = rw world ahead; upto = λ q. rw world all })

  chunk_count : ℕ → ℕ → ℕ
  chunk_count start next = min (saturating_add start get_addresses_max_ids) next - start

  chunk_count_lem :
      (start next : ℕ)
      → start < next
      → next < u64_limit
      → start + chunk_count start next ≡ min (start + get_addresses_max_ids) next
  unfolding chunk_count
  chunk_count_lem start next lt bound = ground arith

  pub get_last_next_address_id_lem :
      (shared : SharedStore D R)
      → shared.poisoned ≡ false
      → get_last_next_address_id shared ≡ (ok (last_id shared), shared)
  unfolding get_last_next_address_id
  get_last_next_address_id_lem shared h = rw h

  update_chunk-Passed :
      (start next : ℕ) (s : State)
      → start < next
      → next < u64_limit
      → next ≤ (on_chain s.world).next_address_id
      → IsWatching s
      → WatchedBelow lib start (on_chain s.world) s.shared
      → Passed next
          (min (start + get_addresses_max_ids) next)
          (update_chunk lib bitcoin hexes created registry start next s).0
          (update_chunk lib bitcoin hexes created registry start next s).1
  unfolding update_chunk chunk_count
  update_chunk-Passed start next s lt bound le h upto =
      let count = chunk_count start next in
      let asked = registry.addresses (range start count) s.world in
      let read =
        get_addresses-ReadAt api list_with_type contract owner on_chain serves (range start count)
          s.world in
      let later = Later-trans (Reach-Later read.before) (Reach-Later read.after) in
      let end = chunk_count_lem start next lt bound in
      subst
        (λ n.
          Passed next n (update_chunk lib bitcoin hexes created registry start next s).0
            (update_chunk lib bitcoin hexes created registry start next s).1)
        end
        (fetched_lem next count start asked.0 (record s { world = asked.1 }) (on_chain s.world)
          (ground (arith, end)) (omega (arith, later.grows)) read (moved-Watches s.shared later h)
          (Later-WatchedBelow lib start s.shared later (omega arith) upto))

  resumed_lem :
      (fuel start next : ℕ) (r : Result (Unit {0})) (s : State)
      → ((t : State)
          → next ≤ (on_chain t.world).next_address_id
          → IsWatching t
          → WatchedBelow lib (min (start + get_addresses_max_ids) next) (on_chain t.world) t.shared
          → IsWatching
              (update_chunks lib bitcoin hexes created fuel registry
                (start + get_addresses_max_ids)
                next
                t).1)
      → Passed next (min (start + get_addresses_max_ids) next) r s
      → IsWatching
          (((λ t. (r, t)) >>= λ done.
              update_chunks lib bitcoin hexes created fuel registry
                (start + get_addresses_max_ids)
                next)
            s).1
  resumed_lem fuel start next (err e) s rest passed = passed.watching
  resumed_lem fuel start next (ok done) s rest passed =
      rest s passed.ahead passed.watching (passed.upto refl)

  pub update_chunks-IsWatching :
      (fuel start next : ℕ) (s : State)
      → next < u64_limit
      → next ≤ (on_chain s.world).next_address_id
      → IsWatching s
      → WatchedBelow lib (min start next) (on_chain s.world) s.shared
      → IsWatching (update_chunks lib bitcoin hexes created fuel registry start next s).1
  unfolding update_chunks
  update_chunks-IsWatching zero start next s bound le h upto = h
  update_chunks-IsWatching (suc fuel) start next s bound le h upto =
      elim (Bool-cases (leb next start)) [
        | inl finished ↦ rw finished h
        | inr more ↦
            let lt : start < next = ground (arith, more) in
            let low : min start next ≡ start = ground arith in
            let (r, s') = update_chunk lib bitcoin hexes created registry start next s in
            rw more (
              resumed_lem fuel start next r s'
                (λ t ahead watching below.
                  update_chunks-IsWatching fuel (start + get_addresses_max_ids) next t bound ahead
                    watching below)
                (update_chunk-Passed start next s lt bound le h (rw low at upto)))
      ]
