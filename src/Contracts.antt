-- ===== src/Contracts.antt =====
-- The Clarity contracts that the program reads (contracts/contracts). A data variable is a field of a
-- record, and a data map a function from its keys; a public function returns the new state, and `none`
-- is a runtime error, after which Clarity takes back what the call did.
pub mod DepositRegistry
pub mod LinkedList
pub mod Entries
pub mod Tracking
pub mod Pages
pub mod Listing
pub mod Registrations
pub mod WithdrawalIndex
use spox.Prelude.{ℕ, ◌^◌, Bool, true, false, Option, none, some, Eq, ◌==◌, if◌then◌else◌}

-- The type `uint` has 128 bits; arithmetic that leaves it is a runtime error.
abbrev pub uint_limit : ℕ
uint_limit = 2 ^ 128

module _ {K V : Type 0} ⦃e : Eq K⦄ where
  abbrev pub map_set : K → V → (K → Option V) → K → Option V
  map_set k v m j = if k == j then some v else m j

  abbrev pub map_delete : K → (K → Option V) → K → Option V
  map_delete k m j = if k == j then none else m j
