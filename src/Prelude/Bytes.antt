-- ===== src/Prelude/Bytes.antt =====
-- `to_be_bytes` and `from_be_bytes` of Rust's unsigned integers, at every width.
use Prim.Native.Nat.{ℕ, zero, suc, ◌+◌, ◌*◌, ◌/◌, ◌%◌, ◌^◌, ◌<◌}
use mathlib.Core.Path.{◌≡◌, refl, ◌∙◌}
use mathlib.Core.List.{List, [], ◌∷◌, ◌++◌}
use native.Mathlib.Omega.{arith}
use native.Mathlib.Nat.{pow-suc}
use meta_text.Prelude.Lists.{length, length-append}

abbrev pub IsByte : ℕ → Type 0
IsByte b = b < 256

unfoldable pub to_be_bytes : ℕ → ℕ → List ℕ
to_be_bytes zero n = []
to_be_bytes (suc width) n = to_be_bytes width (n / 256) ++ (n % 256) ∷ []

be_onto : ℕ → List ℕ → ℕ
be_onto acc [] = acc
be_onto acc (b ∷ bs) = be_onto (acc * 256 + b) bs

unfoldable pub from_be_bytes : List ℕ → ℕ
unfolding be_onto
from_be_bytes = be_onto 0

pub length-to_be_bytes : (width n : ℕ) → length (to_be_bytes width n) ≡ width
unfolding to_be_bytes
length-to_be_bytes zero n = refl
length-to_be_bytes (suc width) n = omega (
  arith,
  length-append (to_be_bytes width (n / 256)) ((n % 256) ∷ []),
  length-to_be_bytes width (n / 256),
)

be_onto-append :
    (acc : ℕ) (xs : List ℕ) (b : ℕ) → be_onto acc (xs ++ b ∷ []) ≡ be_onto acc xs * 256 + b
unfolding be_onto
be_onto-append acc [] b = refl
be_onto-append acc (x ∷ xs) b = be_onto-append (acc * 256 + x) xs b

pub from_be_bytes-to_be_bytes :
    (width n : ℕ) → n < 256 ^ width → from_be_bytes (to_be_bytes width n) ≡ n
unfolding from_be_bytes to_be_bytes
from_be_bytes-to_be_bytes zero n h = omega arith
from_be_bytes-to_be_bytes (suc width) n h =
    be_onto-append 0 (to_be_bytes width (n / 256)) (n % 256)
    ∙ omega (arith, from_be_bytes-to_be_bytes width (n / 256) (omega (arith, pow-suc 256 width)))

-- The four bytes of a `u32` are determined by its value.
pub to_be_bytes-from_be_bytes_u32 :
    (a b c d : ℕ)
    → IsByte a
    → IsByte b
    → IsByte c
    → IsByte d
    → to_be_bytes 4 (from_be_bytes (a ∷ b ∷ c ∷ d ∷ [])) ≡ a ∷ b ∷ c ∷ d ∷ []
unfolding from_be_bytes to_be_bytes
to_be_bytes-from_be_bytes_u32 a b c d ha hb hc hd = ground arith
