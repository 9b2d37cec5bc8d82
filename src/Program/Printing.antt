-- ===== src/Program/Printing.antt =====
-- What the command that lists the deposits' addresses prints.
use Prim.Native.String.{◌++◌ as ◌<>◌}
use spox.Prelude.{String, Option, none, some, List, [], ◌∷◌, ◌++◌, ◌⊎◌, inl, inr, ◌≡◌, refl, ap}
use spox.Sbtc.{Sbtc}
use spox.Storage.{MonitoredDepositSource, config, registry, MonitoredDeposit, to_script_pubkey}
use spox.Program.Commands.{
  AddressApi, Output, Failure, address_error, line_of, print_next, print_deposit_addresses,
}

module _ {D R : Type 0} (lib : Sbtc D R) (addresses : AddressApi) (network : String) where
  abbrev pub address_of : MonitoredDeposit D R → String ⊎ String
  address_of d = addresses.from_script (to_script_pubkey lib d) network

  -- The alias of a deposit of the settings, or the id of one of the registry, and the address.
  abbrev pub IsLine : MonitoredDepositSource → String → String → Type 0
  IsLine (config alias) address line = line ≡ (alias <> ": " <> address)
  IsLine (registry id) address line = line ≡ ("id=" <> addresses.print_nat id <> ": " <> address)

  IsLine-line_of :
      (source : MonitoredDepositSource) (address : String)
      → IsLine source address (line_of lib addresses source address)
  IsLine-line_of (config alias) address = refl
  IsLine-line_of (registry id) address = refl

  -- A line for each deposit, with its address.
  abbrev pub Printed : List (MonitoredDeposit D R) → List String → Type 0
  Printed [] [] = Unit
  Printed (d ∷ ds) (line ∷ lines) =
      ((address : String) × (address_of d ≡ inr address) × IsLine d.source address line)
      × Printed ds lines
  Printed _ _ = ⊥

  -- Either all were printed, or the next one has no address and its error is the failure.
  abbrev pub EndsAt : List (MonitoredDeposit D R) → Option Failure → Type 0
  EndsAt [] failure = failure ≡ none
  EndsAt (d ∷ ds) failure =
      (e : String) × (address_of d ≡ inl e) × (failure ≡ some (address_error e))

  abbrev pub Lists : List (MonitoredDeposit D R) → Output → Type 0
  Lists ds output =
      (printed : List (MonitoredDeposit D R)) × (rest : List (MonitoredDeposit D R)) × (ds
        ≡ printed ++ rest)
      × Printed printed output.lines
      × EndsAt rest output.failure

  next_lem :
      (d : MonitoredDeposit D R) (ds : List (MonitoredDeposit D R)) (a : String ⊎ String)
      (output : Output)
      → address_of d ≡ a
      → Lists ds output
      → Lists (d ∷ ds) (print_next lib addresses d.source a output)
  next_lem d ds (inl e) output h rest = ([], d ∷ ds, refl, tt, (e, h, refl))
  next_lem d ds (inr address) output h (printed, rest, same, lines, end) = (
    d ∷ printed,
    rest,
    ap (◌∷◌ d) same,
    ((address, h, IsLine-line_of d.source address), lines),
    end,
  )

  -- The command prints, in order, a line with its address for each deposit up to the first whose script
  -- has no address on the network; it fails with that one's error, and does not fail if there is none.
  pub print_deposit_addresses_lem :
      (ds : List (MonitoredDeposit D R))
      → Lists ds (print_deposit_addresses lib addresses ds network)
  unfolding print_deposit_addresses
  print_deposit_addresses_lem [] = ([], [], refl, tt, refl)
  print_deposit_addresses_lem (d ∷ ds) =
      next_lem d ds (address_of d) _ refl (print_deposit_addresses_lem ds)
