-- ===== src/DepositProcess/Following.antt =====
-- The store follows the registry's ids: how far the id it resumes from moves.
use spox.Prelude.{
  String, ℕ, zero, suc, ◌+◌, ◌-◌, ◌<◌, ◌≤◌, Bool, true, false, some, leb, min, max, sym, ◌∙◌,
  if◌then◌else◌, nat_eq, list_eq, ◌≡◌, refl, arith,
}
use spox.Error.{Result, ok, err}
use spox.Exec.{Exec, pure, ◌>>=◌}
use spox.Sbtc.{Sbtc}
use spox.Storage.{SharedStore, get_last_next_address_id}
use spox.AddressRegistry.{get_addresses_max_ids}
use spox.BitcoinApi.{BitcoinApi}
use spox.DepositMonitor.{u64_limit, LruCache, MonitorState}
use spox.DepositProcess.{Registry, update_chunk, update_chunks, update_from_registry}
use spox.DepositProcess.Chunk.{last_id, Advanced, Advanced-ends, update_chunk_lem}

module _ {W H C D R : Type 0} (lib : Sbtc D R) (bitcoin : BitcoinApi W)
    (hexes : LruCache H (String × String) String)
    (created : LruCache C (String × ℕ) (Unit {0})) where
  abbrev State : Type 0
  State = MonitorState W H C D R

  abbrev Chunks : ℕ → Registry W → ℕ → ℕ → State → Type 0
  Chunks fuel registry start next s =
      Advanced (min start next) next
        (update_chunks lib bitcoin hexes created fuel registry start next s).0
        (update_chunks lib bitcoin hexes created fuel registry start next s).1.shared

  -- A pass, and the passes after it if it did not fail.
  resumed_lem :
      (fuel : ℕ) (registry : Registry W) (start next : ℕ) (r : Result (Unit {0})) (s : State)
      → start < next
      → ((t : State)
          → t.shared.poisoned ≡ false
          → last_id t.shared ≡ min (start + get_addresses_max_ids) next
          → Chunks fuel registry (start + get_addresses_max_ids) next t)
      → Advanced start (min (start + get_addresses_max_ids) next) r s.shared
      → Advanced start next
          (((λ t. (r, t)) >>= λ done.
              update_chunks lib bitcoin hexes created fuel registry
                (start + get_addresses_max_ids)
                next)
            s).0
          (((λ t. (r, t)) >>= λ done.
              update_chunks lib bitcoin hexes created fuel registry
                (start + get_addresses_max_ids)
                next)
            s).1.shared
  resumed_lem fuel registry start next (err e) s lt rest moved = record {
    healthy = moved.healthy;
    from_start = moved.from_start;
    to_end = ground (arith, moved.to_end);
    all_the_way = λ q. cc;
  }
  resumed_lem fuel registry start next (ok done) s lt rest moved =
      let later = rest s moved.healthy (moved.all_the_way refl) in
      record {
        healthy = later.healthy;
        from_start = ground (arith, later.from_start);
        to_end = later.to_end;
        all_the_way = later.all_the_way;
      }

  abbrev pass_again : ℕ → Registry W → ℕ → ℕ → Bool → Exec State (Unit {0})
  pass_again fuel registry start next b =
      if b
      then pure tt
      else update_chunk lib bitcoin hexes created registry start next >>= λ done.
          update_chunks lib bitcoin hexes created fuel registry (start + get_addresses_max_ids) next

  pass_again_lem :
      (fuel : ℕ) (registry : Registry W) (start next : ℕ) (s : State)
      → ((t : State)
          → t.shared.poisoned ≡ false
          → last_id t.shared ≡ min (start + get_addresses_max_ids) next
          → Chunks fuel registry (start + get_addresses_max_ids) next t)
      → s.shared.poisoned ≡ false
      → next < u64_limit
      → last_id s.shared ≡ min start next
      → (b : Bool) → leb next start ≡ b
      → Advanced
          (min start next)
          next
          (pass_again fuel registry start next b s).0
          (pass_again fuel registry start next b s).1.shared
  pass_again_lem fuel registry start next s rest h bound at_start true q = record {
    healthy = h;
    from_start = ground arith;
    to_end = ground arith;
    all_the_way = ground arith;
  }
  pass_again_lem fuel registry start next s rest h bound at_start false q =
      let lt : start < next = ground arith in
      let low : min start next ≡ start = ground arith in
      let passed = update_chunk lib bitcoin hexes created registry start next s in
      Advanced-ends (sym low) refl (
        resumed_lem fuel registry start next passed.0 passed.1 lt rest (
          update_chunk_lem lib bitcoin hexes created registry start next s h lt bound
            (at_start ∙ low)))

  update_chunks_lem :
      (fuel : ℕ) (registry : Registry W) (start next : ℕ) (s : State)
      → s.shared.poisoned ≡ false
      → next < u64_limit
      → next ≤ start + fuel
      → last_id s.shared ≡ min start next
      → Chunks fuel registry start next s
  unfolding update_chunks
  update_chunks_lem zero registry start next s h bound enough at_start = record {
    healthy = h;
    from_start = ground arith;
    to_end = ground arith;
    all_the_way = ground arith;
  }
  update_chunks_lem (suc fuel) registry start next s h bound enough at_start =
      pass_again_lem fuel registry start next s
        (λ t ht at_t.
          update_chunks_lem fuel registry (start + get_addresses_max_ids) next t ht bound
            (ground arith) at_t)
        h bound at_start (leb next start) refl

  get_last_next_address_id_lem :
      (shared : SharedStore D R)
      → shared.poisoned ≡ false
      → get_last_next_address_id shared ≡ (ok (last_id shared), shared)
  unfolding get_last_next_address_id
  get_last_next_address_id_lem shared h = rw h

  abbrev catch_up : Registry W → ℕ → ℕ → Bool → Exec State (Unit {0})
  catch_up registry last next b =
      if b
      then pure tt
      else update_chunks lib bitcoin hexes created (next - last) registry last next

  catch_up_lem :
      (registry : Registry W) (s : State) (next : ℕ) (b : Bool)
      → s.shared.poisoned ≡ false
      → next < u64_limit
      → leb next (last_id s.shared) ≡ b
      → Advanced
          (last_id s.shared)
          (max (last_id s.shared) next)
          (catch_up registry (last_id s.shared) next b s).0
          (catch_up registry (last_id s.shared) next b s).1.shared
  catch_up_lem registry s next true h bound q = record {
    healthy = h;
    from_start = ground arith;
    to_end = ground arith;
    all_the_way = ground arith;
  }
  catch_up_lem registry s next false h bound q = Advanced-ends (ground arith) (ground arith) (
      update_chunks_lem (next - last_id s.shared) registry (last_id s.shared) next s h bound
        (ground arith) (ground arith))

  update_from_registry-Advanced :
      (registry : Registry W) (s : State) (next : ℕ) (w : W)
      → s.shared.poisoned ≡ false
      → registry.next_address_id s.world ≡ (ok next, w)
      → next < u64_limit
      → Advanced
          (last_id s.shared)
          (max (last_id s.shared) next)
          (update_from_registry lib bitcoin hexes created (some registry) s).0
          (update_from_registry lib bitcoin hexes created (some registry) s).1.shared
  unfolding update_from_registry
  update_from_registry-Advanced registry s next w h asked bound =
      rw (get_last_next_address_id_lem s.shared h, asked)
        (catch_up_lem registry (record s { world = w }) next (leb next (last_id s.shared)) h bound
          refl)

  -- From a store that can be locked, with the registry's next id in 64 bits, the id to resume from
  -- never moves back and never passes the greater of itself and the registry's, whether an error is
  -- returned or not.
  pub update_from_registry-bounds :
      (registry : Registry W) (s : State) (next : ℕ) (w : W)
      → s.shared.poisoned ≡ false
      → registry.next_address_id s.world ≡ (ok next, w)
      → next < u64_limit
      → let s' = (update_from_registry lib bitcoin hexes created (some registry) s).1 in
        (last_id s.shared ≤ last_id s'.shared) × (last_id s'.shared ≤ max (last_id s.shared) next)
  update_from_registry-bounds registry s next w h asked bound =
      let moved = update_from_registry-Advanced registry s next w h asked bound in
      (moved.from_start, moved.to_end)

  -- From a store that can be locked, with the registry's next id in 64 bits, if no error is returned
  -- the id to resume from is then the greater of itself and the registry's.
  pub update_from_registry-catches_up :
      (registry : Registry W) (s : State) (next : ℕ) (w : W)
      → s.shared.poisoned ≡ false
      → registry.next_address_id s.world ≡ (ok next, w)
      → next < u64_limit
      → (update_from_registry lib bitcoin hexes created (some registry) s).0 ≡ ok tt
      → last_id (update_from_registry lib bitcoin hexes created (some registry) s).1.shared
        ≡ max (last_id s.shared) next
  update_from_registry-catches_up registry s next w h asked bound =
      (update_from_registry-Advanced registry s next w h asked bound).all_the_way
