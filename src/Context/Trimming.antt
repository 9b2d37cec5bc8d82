-- ===== src/Context/Trimming.antt =====
-- The base path of Emily's client: the endpoint without the slashes at its end.
use Prim.Native.Char.{Char, code}
use spox.Prelude.{
  String, Bool, true, false, nat_beq, string_eq, ◌==◌, ◌&&◌, if◌then◌else◌, ◌≡◌, refl, ap, ◌∙◌,
}
use spox.BitcoinWallet.{join}
use spox.Context.{trim_end_slashes}

abbrev pub AllSlashes : String → Type 0
AllSlashes String.[] = Unit
AllSlashes (String.◌∷◌ c s) = (nat_beq (code c) b'/' ≡ true) × AllSlashes s

abbrev pub ends_with_slash : String → Bool
ends_with_slash String.[] = false
ends_with_slash (String.◌∷◌ c s) =
    let rest = ends_with_slash s in if s == "" then nat_beq (code c) b'/' else rest

-- `kept` is the text without the slashes at its end.
abbrev pub IsTrimmed : String → String → Type 0
IsTrimmed s kept =
    (slashes : String) × (s ≡ join kept slashes)
    × AllSlashes slashes
    × (ends_with_slash kept ≡ false)

step_lem :
    (c : Char) (s rest : String) (is_slash is_last : Bool)
    → nat_beq (code c) b'/' ≡ is_slash
    → (rest == "") ≡ is_last
    → IsTrimmed s rest
    → IsTrimmed (String.◌∷◌ c s) (if is_slash && is_last then "" else String.◌∷◌ c rest)
step_lem c s rest true true h k (slashes, parts, all, trimmed) =
    let empty : rest ≡ "" = (string_eq.beq_iff rest "").0 k in
    (
      String.◌∷◌ c slashes,
      ap (String.◌∷◌ c) (parts ∙ ap (λ r. join r slashes) empty),
      (h, all),
      refl,
    )
step_lem c s rest true false h k (slashes, parts, all, trimmed) =
    (slashes, ap (String.◌∷◌ c) parts, all, rw k trimmed)
step_lem c s rest false true h k (slashes, parts, all, trimmed) =
    (slashes, ap (String.◌∷◌ c) parts, all, rw k h)
step_lem c s rest false false h k (slashes, parts, all, trimmed) =
    (slashes, ap (String.◌∷◌ c) parts, all, rw k trimmed)

-- The base path is the endpoint without slashes at its end: what is cut off is slashes only, and what
-- is left does not end with one.
pub trim_end_slashes_lem : (s : String) → IsTrimmed s (trim_end_slashes s)
unfolding trim_end_slashes
trim_end_slashes_lem String.[] = ("", refl, tt, refl)
trim_end_slashes_lem (String.◌∷◌ c s) =
    step_lem c s (trim_end_slashes s) _ _ refl refl (trim_end_slashes_lem s)
