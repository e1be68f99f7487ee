-- ===== src/Prelude/Text/Case.antt =====
-- Equality of texts, and equality up to the case of ASCII letters, as equivalences.
use meta_text.Prelude.Text.{
  Text, text_eq, ascii_lower, to_ascii_lowercase, eq_ignore_ascii_case, is_whitespace, is_empty,
  trim_start, trim_end, trim,
}
use meta_text.Prelude.Tests.{Bool-cases}
use Prim.Native.Nat.{ℕ}
use mathlib.Core.Path.{◌≡◌, refl, ap, ◌∙◌}
use mathlib.Core.Logic.{◌↔◌, inl, inr}
use mathlib.Core.Bool.{true}
use mathlib.Core.List.{[], ◌∷◌, map}
use native.Mathlib.Omega.{arith}

pub text_eq_iff : (s t : Text) → (text_eq s t ≡ true) ↔ (s ≡ t)
unfolding text_eq
text_eq_iff (c ∷ s) (d ∷ t) = ground (arith, text_eq_iff s t)
text_eq_iff _ _ = ground arith

pub text_eq_refl : (s : Text) → text_eq s s ≡ true
text_eq_refl s = (text_eq_iff s s).1 refl

ascii_lower_idem : (c : ℕ) → ascii_lower (ascii_lower c) ≡ ascii_lower c
unfolding ascii_lower
ascii_lower_idem c = ground arith

pub to_ascii_lowercase_idem :
    (s : Text) → to_ascii_lowercase (to_ascii_lowercase s) ≡ to_ascii_lowercase s
unfolding to_ascii_lowercase
to_ascii_lowercase_idem [] = refl
to_ascii_lowercase_idem (c ∷ s) = cc (ascii_lower_idem c, to_ascii_lowercase_idem s)

pub eq_ignore_ascii_case_iff :
    (s t : Text) → (eq_ignore_ascii_case s t ≡ true) ↔ (to_ascii_lowercase s ≡ to_ascii_lowercase t)
unfolding eq_ignore_ascii_case
eq_ignore_ascii_case_iff s t = text_eq_iff (to_ascii_lowercase s) (to_ascii_lowercase t)

pub eq_ignore_ascii_case_refl : (s : Text) → eq_ignore_ascii_case s s ≡ true
eq_ignore_ascii_case_refl s = (eq_ignore_ascii_case_iff s s).1 refl

is_whitespace-ascii_lower : (c : ℕ) → is_whitespace (ascii_lower c) ≡ is_whitespace c
unfolding is_whitespace ascii_lower
is_whitespace-ascii_lower c = ground arith

trim_start-lower :
    (s : Text) → trim_start (to_ascii_lowercase s) ≡ to_ascii_lowercase (trim_start s)
unfolding trim_start to_ascii_lowercase
trim_start-lower [] = refl
trim_start-lower (c ∷ s) =
    let same = is_whitespace-ascii_lower c in
    elim (Bool-cases (is_whitespace c)) [
      | inl space ↦ rw (same, space) (trim_start-lower s)
      | inr solid ↦ rw (same, solid) (ap (λ t. ascii_lower c ∷ t) refl)
    ]

is_empty-map : (s : Text) → is_empty (map ascii_lower s) ≡ is_empty s
is_empty-map [] = refl
is_empty-map (c ∷ s) = refl

trim_end-lower : (s : Text) → trim_end (to_ascii_lowercase s) ≡ to_ascii_lowercase (trim_end s)
unfolding trim_end to_ascii_lowercase
trim_end-lower [] = refl
trim_end-lower (c ∷ s) =
    ground (arith, is_whitespace-ascii_lower c, trim_end-lower s, is_empty-map (trim_end s))

-- Trimming and lowering commute, since no ASCII letter is white space.
pub trim-to_ascii_lowercase : (s : Text) → trim (to_ascii_lowercase s) ≡ to_ascii_lowercase (trim s)
trim-to_ascii_lowercase s =
    unfold trim in (ap trim_end (trim_start-lower s) ∙ trim_end-lower (trim_start s))
