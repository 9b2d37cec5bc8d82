-- ===== src/Contracts/Tracking.antt =====
-- A data map whose keys are kept in a linked list, against its entries in the order of their insertion.
use mathlib.Core.List.{map-append}
use spox.Prelude.{
  true, false, Option, none, some, List, [], ◌∷◌, ◌++◌, ◌⊎◌, inl, inr, Eq, contains, Bool-cases,
  ◌≡◌, refl, sym, ap, ◌∙◌,
}
use spox.Storage.Laws.{is_some}
use spox.Contracts.{map_set, map_delete}
use spox.Contracts.LinkedList.{LinkedList, empty, ll_append, ll_remove}
use spox.Contracts.LinkedList.Spelling.{Spells, empty-Spells, append-Spells}
use spox.Contracts.LinkedList.Removing.{remove-Spells, remove_absent}
use spox.Contracts.Entries.{
  keys_of, entry_at, erase, replace, contains-keys_of, entry_at-append, entry_at-erase,
  entry_at-replace, keys_of-replace, erase_absent, erase_parts,
}

module _ {K V : Type 0} ⦃e : Eq K⦄ where
  -- The map holds the entries' values, and the linked list spells their keys.
  pub record Tracks (values : K → Option V) (list : LinkedList K) (entries : List (K × V))
      : Type 0 where
    pub spells : Spells list (keys_of entries)
    pub stored : (key : K) → values key ≡ entry_at key entries

  pub empty-Tracks : Tracks (λ key. none) empty []
  unfolding entry_at
  empty-Tracks = record { spells = empty-Spells; stored = λ key. refl }

  module _ (key : K) (values : K → Option V) (list : LinkedList K) (entries : List (K × V))
      (h : Tracks values list entries) where
    pub append-Tracks :
        (v : V)
        → entry_at key entries ≡ none
        → Tracks (map_set key v values) (ll_append key list).1 (entries ++ (key, v) ∷ [])
    append-Tracks v new = record {
      spells = rw (map-append) (
          append-Spells key list (keys_of entries) h.spells
            (contains-keys_of key entries ∙ ap is_some new));
      stored = λ k. rw (h.stored k) (sym (entry_at-append key k v entries new));
    }

    pub replace-Tracks :
        (v old : V)
        → entry_at key entries ≡ some old
        → Tracks (map_set key v values) list (replace key v entries)
    replace-Tracks v old known = record {
      spells = rw (keys_of-replace key v entries) (h.spells);
      stored = λ k. rw (h.stored k) (sym (entry_at-replace key k v entries (ap is_some known)));
    }

    pub remove-Tracks : Tracks (map_delete key values) (ll_remove key list).1 (erase key entries)
    remove-Tracks = record {
      spells = by_key (Bool-cases (contains (keys_of entries) key));
      stored = λ k. rw (h.stored k) (sym (entry_at-erase key k entries h.spells.distinct));
    }
      where
        by_key :
            (contains (keys_of entries) key ≡ true) ⊎ (contains (keys_of entries) key ≡ false)
            → Spells (ll_remove key list).1 (keys_of (erase key entries))
        by_key (inl there) =
            let (xs, ys, whole, left) = erase_parts key entries there in
            rw left (remove-Spells key list xs ys (rw whole at h.spells))
        by_key (inr gone) =
            rw
              (
                remove_absent key list (keys_of entries) h.spells gone,
                erase_absent key entries gone,
              )
              (h.spells)
