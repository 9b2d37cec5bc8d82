-- ===== src/Clarity/Reading.antt =====
-- Fields are read independently of one another: a removal hides its own field alone.
use spox.Prelude.{
  String, false, none, List, [], ◌∷◌, ◌==◌, string_eq, ◌≡◌, refl, ap, if◌then◌else◌, arith,
}
use spox.Clarity.{Value, Fields, end, field, lookup, without, to_list, of_list}

pub lookup-without :
    (k j : String) (m : Fields) → lookup j (without k m) ≡ (if k == j then none else lookup j m)
unfolding lookup without
lookup-without k j end = ground arith
lookup-without k j (field i v m) = ground (
  arith,
  lookup-without k j m,
  string_eq.beq_iff i k,
  string_eq.beq_iff i j,
  string_eq.beq_iff k j,
)

-- A field that differs from those removed before it is still there.
pub lookup-without_ne :
    (k j : String) (m : Fields) → (k == j) ≡ false → lookup j (without k m) ≡ lookup j m
lookup-without_ne k j m h = ground (arith, lookup-without k j m)

pub to_list-of_list : (vs : List Value) → to_list (of_list vs) ≡ vs
unfolding to_list of_list
to_list-of_list [] = refl
to_list-of_list (v ∷ vs) = ap (◌∷◌ v) (to_list-of_list vs)
