-- ===== src/Contracts/LinkedList.antt =====
-- The doubly linked lists of the reward-claim registry
-- (contracts/contracts/reward-claim-registry.clar), of registrations and of pending withdrawals: the two
-- differ only in the type of their keys.
pub mod Segments
pub mod Spelling
pub mod Removing
pub mod Walking
use spox.Prelude.{Bool, true, false, Option, none, some, Eq}
use spox.Contracts.{map_set, map_delete}

pub record Links (K : Type 0) : Type 0 where
  pub prev : Option K
  pub next : Option K

pub record LinkedList (K : Type 0) : Type 0 where
  pub head : Option K
  pub tail : Option K
  pub links : K → Option (Links K)

unfoldable pub empty : {K : Type 0} → LinkedList K
empty = record { head = none; tail = none; links = λ key. none }

abbrev pub or_if_none : {K : Type 0} → Option K → Option K → Option K → Option K
or_if_none none new old = new
or_if_none (some k) new old = old

module _ {K : Type 0} ⦃e : Eq K⦄ where
  -- `(merge links { next: … })` of a key that has links, and nothing for one that has none.
  abbrev pub merge_next :
      K → Option (Links K) → Option K → (K → Option (Links K)) → K → Option (Links K)
  merge_next key none next links = links
  merge_next key (some old) next links = map_set key (record old { next = next }) links

  abbrev pub merge_prev :
      K → Option (Links K) → Option K → (K → Option (Links K)) → K → Option (Links K)
  merge_prev key none prev links = links
  merge_prev key (some old) prev links = map_set key (record old { prev = prev }) links

  abbrev pub link_next : Option K → Option K → (K → Option (Links K)) → K → Option (Links K)
  link_next none next links = links
  link_next (some key) next links = merge_next key (links key) next links

  abbrev pub link_prev : Option K → Option K → (K → Option (Links K)) → K → Option (Links K)
  link_prev none prev links = links
  link_prev (some key) prev links = merge_prev key (links key) prev links

  -- ll-append and withdrawal-ll-append
  unfoldable pub ll_append : K → LinkedList K → Bool × LinkedList K
  ll_append key list = (
    true,
    record {
      head = or_if_none list.tail (some key) list.head;
      tail = some key;
      links =
          link_next list.tail (some key)
            (map_set key (record { prev = list.tail; next = none }) list.links);
    },
  )

  abbrev pub spliced : K → Links K → LinkedList K → LinkedList K
  spliced key links list = record {
    head = or_if_none links.prev links.next list.head;
    tail = or_if_none links.next links.prev list.tail;
    links =
        map_delete key
          (link_prev links.next links.prev (link_next links.prev links.next list.links));
  }

  abbrev pub remove_with : K → Option (Links K) → LinkedList K → Bool × LinkedList K
  remove_with key none list = (false, list)
  remove_with key (some links) list = (true, spliced key links list)

  -- ll-remove and withdrawal-ll-remove
  unfoldable pub ll_remove : K → LinkedList K → Bool × LinkedList K
  ll_remove key list = remove_with key (list.links key) list
