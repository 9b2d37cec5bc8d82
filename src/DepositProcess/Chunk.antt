-- ===== src/DepositProcess/Chunk.antt =====
-- One pass of the loop over the registry's ids: how far the id to resume from moves.
use spox.Prelude.{
  String, ℕ, zero, suc, ◌+◌, ◌-◌, ◌<◌, ◌≤◌, false, List, [], ◌∷◌, map, min, ◌∙◌, if◌then◌else◌,
  ◌==◌, nat_eq, list_eq, list_beq_iff, ◌≡◌, refl, arith,
}
use spox.Error.{Result, ok, err, mismatching_raw_address_ids}
use spox.Exec.{Exec, raise, ◌>>=◌}
use spox.Sbtc.{Sbtc}
use spox.Storage.{MonitoredDeposit, SharedStore, add, set_last_next_address_id}
use spox.AddressRegistry.{RawRegisteredDeposit, deposit_from_raw, get_addresses_max_ids}
use spox.BitcoinApi.{BitcoinApi}
use spox.DepositMonitor.{u64_limit, LruCache, MonitorState}
use spox.DepositProcess.{Registry, saturating_add, range, add_parsed, add_addresses, update_chunk}

module _ {D R : Type 0} where
  abbrev pub last_id : SharedStore D R → ℕ
  last_id shared = shared.last_next_address_id

  -- The id moved from `start` to at most `end`, and to `end` unless the result is an error.
  pub record Advanced (start end : ℕ) (r : Result (Unit {0})) (shared : SharedStore D R)
      : Type 0 where
    pub healthy : shared.poisoned ≡ false
    pub from_start : start ≤ last_id shared
    pub to_end : last_id shared ≤ end
    pub all_the_way : r ≡ ok tt → last_id shared ≡ end

module _ {D R : Type 0} {r : Result (Unit {0})} {shared : SharedStore D R} where
  pub Advanced-ends :
      {a b a' b' : ℕ} → a ≡ a' → b ≡ b' → Advanced a b r shared → Advanced a' b' r shared
  Advanced-ends p q moved = record {
    healthy = moved.healthy;
    from_start = ground (arith, moved.from_start);
    to_end = ground (arith, moved.to_end);
    all_the_way = λ e. moved.all_the_way e ∙ q;
  }

module _ {W H C D R : Type 0} (lib : Sbtc D R) (bitcoin : BitcoinApi W)
    (hexes : LruCache H (String × String) String)
    (created : LruCache C (String × ℕ) (Unit {0})) where
  abbrev State : Type 0
  State = MonitorState W H C D R

  add_parsed_lem :
      (r : Result (MonitoredDeposit D R)) (s : State)
      → s.shared.poisoned ≡ false
      → ((add_parsed lib bitcoin hexes created r s).0 ≡ ok tt)
        × ((add_parsed lib bitcoin hexes created r s).1.shared.poisoned ≡ false)
        × (last_id (add_parsed lib bitcoin hexes created r s).1.shared ≡ last_id s.shared)
  unfolding add
  add_parsed_lem (ok d) s h = ground arith
  add_parsed_lem (err e) s h = ground arith

  add_addresses_lem :
      (count start : ℕ) (raws : List RawRegisteredDeposit) (s : State)
      → s.shared.poisoned ≡ false
      → range start count ≡ map (λ raw. raw.id) raws
      → start + count < u64_limit
      → last_id s.shared ≡ start
      → ((add_addresses lib bitcoin hexes created raws s).0 ≡ ok tt)
        × ((add_addresses lib bitcoin hexes created raws s).1.shared.poisoned ≡ false)
        × (last_id (add_addresses lib bitcoin hexes created raws s).1.shared ≡ start + count)
  unfolding add_addresses range set_last_next_address_id
  add_addresses_lem zero start [] s h e lt at_start = ground arith
  add_addresses_lem zero start (raw ∷ raws) s h e lt at_start = ground arith
  add_addresses_lem (suc count) start [] s h e lt at_start = ground arith
  add_addresses_lem (suc count) start (raw ∷ raws) s h e lt at_start =
      let s₁ : State = (add_parsed lib bitcoin hexes created (deposit_from_raw lib raw) s).1 in
      let s₂ : State = record s₁ {
        shared = (set_last_next_address_id (saturating_add raw.id 1) s₁.shared).1;
      } in
      ground (
        arith,
        add_parsed_lem (deposit_from_raw lib raw) s h,
        add_addresses_lem count (suc start) raws s₂,
      )

  -- What a pass does with the addresses that it was sent.
  abbrev store_chunk : List ℕ → List RawRegisteredDeposit → Exec State (Unit {0})
  store_chunk ids raws =
      if ids == map (λ raw. raw.id) raws
      then add_addresses lib bitcoin hexes created raws
      else raise mismatching_raw_address_ids

  store_chunk_lem :
      (count start : ℕ) (raws : List RawRegisteredDeposit) (s : State)
      → s.shared.poisoned ≡ false
      → start + count < u64_limit
      → last_id s.shared ≡ start
      → Advanced start
          (start + count)
          (store_chunk (range start count) raws s).0
          (store_chunk (range start count) raws s).1.shared
  store_chunk_lem count start raws s h lt at_start =
      let stored = add_addresses_lem count start raws s h in
      let same = list_beq_iff nat_eq (range start count) (map (λ raw. raw.id) raws) in
      record {
        healthy = ground (arith, stored, same);
        from_start = ground (arith, stored, same);
        to_end = ground (arith, stored, same);
        all_the_way = ground (arith, stored, same);
      }

  fetched_lem :
      (count start : ℕ) (r : Result (List RawRegisteredDeposit)) (s : State)
      → s.shared.poisoned ≡ false
      → start + count < u64_limit
      → last_id s.shared ≡ start
      → Advanced start
          (start + count)
          (((λ t. (r, t)) >>= store_chunk (range start count)) s).0
          (((λ t. (r, t)) >>= store_chunk (range start count)) s).1.shared
  fetched_lem count start (ok raws) s h lt at_start =
      store_chunk_lem count start raws s h lt at_start
  fetched_lem count start (err e) s h lt at_start = record {
    healthy = h;
    from_start = ground arith;
    to_end = ground arith;
    all_the_way = λ q. cc;
  }

  chunk_count : ℕ → ℕ → ℕ
  chunk_count start next = min (saturating_add start get_addresses_max_ids) next - start

  chunk_count_lem :
      (start next : ℕ)
      → start < next
      → next < u64_limit
      → start + chunk_count start next ≡ min (start + get_addresses_max_ids) next
  unfolding chunk_count
  chunk_count_lem start next lt bound = ground arith

  pub update_chunk_lem :
      (registry : Registry W) (start next : ℕ) (s : State)
      → s.shared.poisoned ≡ false
      → start < next
      → next < u64_limit
      → last_id s.shared ≡ start
      → Advanced start
          (min (start + get_addresses_max_ids) next)
          (update_chunk lib bitcoin hexes created registry start next s).0
          (update_chunk lib bitcoin hexes created registry start next s).1.shared
  unfolding update_chunk chunk_count
  update_chunk_lem registry start next s h lt bound at_start =
      let asked = registry.addresses (range start (chunk_count start next)) s.world in
      let moved =
        fetched_lem (chunk_count start next) start asked.0 (record s { world = asked.1 }) h
          (ground (arith, chunk_count_lem start next lt bound)) at_start in
      Advanced-ends refl (chunk_count_lem start next lt bound) moved
