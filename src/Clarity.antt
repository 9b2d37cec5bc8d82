-- ===== src/Clarity.antt =====
-- Clarity values, and the reading of Clarity tuples (src/stacks/clarity.rs). `Value` has the
-- variants of `clarity::vm::Value` that the code builds or matches on, and `other` for the rest; the
-- type signatures that lists and tuples carry are read by no code here and are left out.
-- A map of fields is an association list: no code observes the order of a `BTreeMap`.
pub mod Reading
use spox.Prelude.{
  ℕ, String, Bool, Option, none, some, List, [], ◌∷◌, ◌==◌, string_eq, if◌then◌else◌,
}
use spox.Principal.{Principal, ContractId}
use spox.Error.{Error, Result, ok, err, clarity_missing_tuple_entry, invalid_stacks_response}
use spox.Result
use spox.Exec.{Exec}

-- TraitIdentifier
pub record TraitId : Type 0 where
  pub name : String
  pub contract_identifier : ContractId

mutual
  pub data Value : Type 0 where
    u_int : ℕ → Value
    buffer : List ℕ → Value
    list : Values → Value
    principal : Principal → Value
    tuple : Fields → Value
    optional_none : Value
    optional_some : Value → Value
    response : Bool → Value → Value
    callable_contract : ContractId → TraitId → Value
    other : String → Value

  pub data Values : Type 0 where
    nil : Values
    cons : Value → Values → Values

  pub data Fields : Type 0 where
    end : Fields
    field : String → Value → Fields → Fields

unfoldable pub to_list : Values → List Value
to_list nil = []
to_list (cons v vs) = v ∷ to_list vs

unfoldable pub of_list : List Value → Values
of_list [] = nil
of_list (v ∷ vs) = cons v (of_list vs)

-- BTreeMap::get and BTreeMap::remove.
unfoldable pub lookup : String → Fields → Option Value
lookup k end = none
lookup k (field j v m) = if j == k then some v else lookup k m

unfoldable pub without : String → Fields → Fields
without k end = end
without k (field j v m) = let rest = without k m in if j == k then rest else field j v rest

-- ClarityTuple::new and its `TryFrom`: a tuple under reading is the map of the fields left.
unfoldable pub as_tuple : Value → Result Fields
as_tuple (tuple m) = ok m
as_tuple _ = err (invalid_stacks_response "did not get a tuple")

abbrev pub as_buff : String → Option Value → Result (List ℕ)
as_buff f (some (buffer b)) = ok b
as_buff f _ = err (clarity_missing_tuple_entry f)

abbrev pub as_list : String → Option Value → Result (List Value)
as_list f (some (list vs)) = ok (to_list vs)
as_list f _ = err (clarity_missing_tuple_entry f)

abbrev pub as_option : String → Option Value → Result (Option Value)
as_option f (some optional_none) = ok none
as_option f (some (optional_some v)) = ok (some v)
as_option f _ = err (clarity_missing_tuple_entry f)

abbrev pub as_principal : String → Option Value → Result Principal
as_principal f (some (principal p)) = ok p
as_principal f _ = err (clarity_missing_tuple_entry f)

abbrev pub as_uint : String → Option Value → Result ℕ
as_uint f (some (u_int n)) = ok n
as_uint f _ = err (clarity_missing_tuple_entry f)

-- Each takes its field out of the tuple, whatever its type.
unfoldable pub remove_buff : String → Exec Fields (List ℕ)
remove_buff f m = (as_buff f (lookup f m), without f m)

unfoldable pub remove_list : String → Exec Fields (List Value)
remove_list f m = (as_list f (lookup f m), without f m)

unfoldable pub remove_option : String → Exec Fields (Option Value)
remove_option f m = (as_option f (lookup f m), without f m)

unfoldable pub remove_principal : String → Exec Fields Principal
remove_principal f m = (as_principal f (lookup f m), without f m)

unfoldable pub remove_uint : String → Exec Fields ℕ
remove_uint f m = (as_uint f (lookup f m), without f m)

-- Runs a reader on the fields of a tuple, as each `TryFrom<ClarityValue>` begins.
unfoldable pub read : {A : Type 0} → Exec Fields A → Value → Result A
unfolding as_tuple remove_buff remove_list remove_option remove_principal remove_uint
read reader v = Result.◌>>=◌ (as_tuple v) (λ m. (reader m).0)
