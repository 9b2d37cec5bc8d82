-- ===== src/Principal.antt =====
-- Stacks principals (`clarity::vm::types`), as far as the code reads them: an account, or a
-- contract named by its issuer and its name. Addresses are kept in their printed form.
use spox.Prelude.{String, Bool, false, ◌≡◌, ◌↔◌, ◌&&◌, true, arith, Eq, string_eq, ◌==◌}

-- QualifiedContractIdentifier
pub record ContractId : Type 0 where
  pub issuer : String
  pub name : String

-- PrincipalData
pub data Principal : Type 0 where
  standard : String → Principal
  contract : ContractId → Principal

abbrev pub contract_beq : ContractId → ContractId → Bool
contract_beq a b = a.issuer == b.issuer && a.name == b.name

pub contract_beq_iff : (a b : ContractId) → (contract_beq a b ≡ true) ↔ (a ≡ b)
contract_beq_iff a b =
    ground (arith, string_eq.beq_iff a.issuer b.issuer, string_eq.beq_iff a.name b.name)

instance abbrev pub contract_eq : Eq ContractId
contract_eq = record { beq = contract_beq; beq_iff = contract_beq_iff }

abbrev pub principal_beq : Principal → Principal → Bool
principal_beq (standard a) (standard b) = a == b
principal_beq (contract a) (contract b) = a == b
principal_beq _ _ = false

pub principal_beq_iff : (a b : Principal) → (principal_beq a b ≡ true) ↔ (a ≡ b)
principal_beq_iff (standard a) (standard b) = ground (arith, string_eq.beq_iff a b)
principal_beq_iff (standard a) (contract b) = ground arith
principal_beq_iff (contract a) (standard b) = ground arith
principal_beq_iff (contract a) (contract b) = ground (arith, contract_beq_iff a b)

instance abbrev pub principal_eq : Eq Principal
principal_eq = record { beq = principal_beq; beq_iff = principal_beq_iff }
