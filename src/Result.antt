-- ===== src/Result.antt =====
-- The `?` operator on results, and the standard library's helpers that the code calls.

use spox.Prelude.{String, ◌⊎◌, inl, inr, Option, none, some, List, [], ◌∷◌, map, ◌≡◌, refl, arith}
use spox.Error.{Error, Result, ok, err}

infixl 5 ◌>>=◌
abbrev pub ◌>>=◌ {ℓ κ} : {A : Type ℓ} {B : Type κ} → Result A → (A → Result B) → Result B
err failure >>= next = err failure
ok value >>= next = next value

-- Option::map(f).transpose()
abbrev pub transpose_map {ℓ κ} :
    {A : Type ℓ} {B : Type κ} → (A → Result B) → Option A → Result (Option B)
transpose_map f none = ok none
transpose_map f (some a) = do b ← f a; ok (some b)

-- iter().map(f).collect::<Result<Vec<_>, _>>(): the first error ends it.
abbrev pub collect {ℓ κ} : {A : Type ℓ} {B : Type κ} → (A → Result B) → List A → Result (List B)
collect f [] = ok []
collect f (a ∷ as') = do b ← f a; bs ← collect f as'; ok (b ∷ bs)

-- Option::ok_or
abbrev pub ok_or {ℓ} : {A : Type ℓ} → Error → Option A → Result A
ok_or e none = err e
ok_or e (some a) = ok a

-- Result::ok
abbrev pub to_option {ℓ} : {A : Type ℓ} → Result A → Option A
to_option (ok a) = some a
to_option (err e) = none

-- Result::map_err, of a failure that is kept as its message.
abbrev pub map_err {ℓ} : {A : Type ℓ} → (String → Error) → String ⊎ A → Result A
map_err e (inl message) = err (e message)
map_err e (inr a) = ok a

pub ok-inj {ℓ} : {A : Type ℓ} {a b : A} → ok a ≡ ok b → a ≡ b
ok-inj e = cc

-- What follows from the success of a chain's step, and of the helpers.
pub bind-ok {ℓ κ} :
    {A : Type ℓ} {B : Type κ} (r : Result A) (f : A → Result B) (b : B)
    → (r >>= f) ≡ ok b
    → (a : A) × (r ≡ ok a) × (f a ≡ ok b)
bind-ok (ok a) f b h = (a, refl, h)
bind-ok (err e) f b h = cc

module _ {ℓ} {A : Type ℓ} where
  pub map_err-ok : (e : String → Error) (p : String ⊎ A) (a : A) → map_err e p ≡ ok a → p ≡ inr a
  map_err-ok e (inr b) a h = cc
  map_err-ok e (inl m) a h = cc

  pub ok_or-some : (e : Error) (o : Option A) (a : A) → ok_or e o ≡ ok a → o ≡ some a
  ok_or-some e (some b) a h = cc
  ok_or-some e none a h = cc

  pub to_option-some : (r : Result A) (a : A) → to_option r ≡ some a → r ≡ ok a
  to_option-some (ok b) a e = cc
  to_option-some (err q) a e = cc

-- Rows that decode one by one are collected.
pub collect-map-ok {ℓ κ} :
    {A : Type ℓ} {B : Type κ} (f : A → Result B) (xs : List A) (ys : List B)
    → map f xs ≡ map ok ys
    → collect f xs ≡ ok ys
collect-map-ok f [] [] h = refl
collect-map-ok f [] (y ∷ ys) h = ground arith
collect-map-ok f (x ∷ xs) [] h = ground arith
collect-map-ok f (x ∷ xs) (y ∷ ys) h = ground (arith, collect-map-ok f xs ys)
