-- ===== src/Prelude/Text/Trim.antt =====
-- What `trim` gives has no white space at either end, and trimming it again changes nothing.
use meta_text.Prelude.Tests.{Bool-cases}
use meta_text.Prelude.Lists.{any, length}
use meta_text.Prelude.Text.{Text, is_empty, is_whitespace, trim_start, trim_end, trim}
use Prim.Native.Nat.{ℕ, ◌≤◌}
use mathlib.Core.Path.{◌≡◌, refl, sym, ap, ◌∙◌}
use mathlib.Core.Logic.{inl, inr}
use mathlib.Core.Bool.{Bool, false}
use mathlib.Core.List.{[], ◌∷◌, ◌++◌}
use native.Mathlib.Omega.{arith}

-- The text begins with no white space.
abbrev pub StartsClean : Text → Type 0
StartsClean [] = Unit
StartsClean (c ∷ s) = is_whitespace c ≡ false

trim_start-StartsClean : (s : Text) → StartsClean (trim_start s)
unfolding trim_start
trim_start-StartsClean [] = tt
trim_start-StartsClean (c ∷ s) = elim (Bool-cases (is_whitespace c)) [
  | inl h ↦ rw h (trim_start-StartsClean s)
  | inr h ↦ rw h h
]

pub trim_start_id : (s : Text) → StartsClean s → trim_start s ≡ s
unfolding trim_start
trim_start_id [] h = refl
trim_start_id (c ∷ s) h = rw h

trim_end-StartsClean : (s : Text) → StartsClean s → StartsClean (trim_end s)
unfolding trim_end
trim_end-StartsClean [] h = tt
trim_end-StartsClean (c ∷ s) h = rw h h

trim_end-trim_end : (s : Text) → trim_end (trim_end s) ≡ trim_end s
unfolding trim_end
trim_end-trim_end [] = refl
trim_end-trim_end (c ∷ s) = ground (arith, trim_end-trim_end s)

pub trim-trim : (s : Text) → trim (trim s) ≡ trim s
trim-trim s =
    unfold trim in
    (ap trim_end (trim_start_id _ (trim_end-StartsClean _ (trim_start-StartsClean s)))
      ∙ trim_end-trim_end (trim_start s))

pub any-trim_start : (p : ℕ → Bool) (s : Text) → any p s ≡ false → any p (trim_start s) ≡ false
unfolding trim_start
any-trim_start p [] h = refl
any-trim_start p (c ∷ s) h = ground (arith, any-trim_start p s)

any-trim_end : (p : ℕ → Bool) (s : Text) → any p s ≡ false → any p (trim_end s) ≡ false
unfolding trim_end
any-trim_end p [] h = refl
any-trim_end p (c ∷ s) h = ground (arith, any-trim_end p s)

-- A text without white space is left alone.
trim_end_id : (s : Text) → any is_whitespace s ≡ false → trim_end s ≡ s
unfolding trim_end
trim_end_id [] h = refl
trim_end_id (c ∷ s) h = ground (arith, trim_end_id s)

pub trim_id : (s : Text) → any is_whitespace s ≡ false → trim s ≡ s
unfolding trim
trim_id [] h = refl
trim_id (c ∷ s) h = ap trim_end (trim_start_id (c ∷ s) (ground arith)) ∙ trim_end_id (c ∷ s) h

pub any-trim : (p : ℕ → Bool) (s : Text) → any p s ≡ false → any p (trim s) ≡ false
unfolding trim
any-trim p s h = any-trim_end p (trim_start s) (any-trim_start p s h)

length-trim_start : (s : Text) → length (trim_start s) ≤ length s
unfolding trim_start
length-trim_start [] = omega arith
length-trim_start (c ∷ s) = ground (arith, length-trim_start s)

length-trim_end : (s : Text) → length (trim_end s) ≤ length s
unfolding trim_end
length-trim_end [] = omega arith
length-trim_end (c ∷ s) = ground (arith, length-trim_end s)

pub length-trim : (s : Text) → length (trim s) ≤ length s
unfolding trim
length-trim s = omega (arith, length-trim_start s, length-trim_end (trim_start s))

pub is_empty-append : (s t : Text) → is_empty t ≡ false → is_empty (s ++ t) ≡ false
is_empty-append [] t e = e
is_empty-append (c ∷ s) t e = refl

trim_end-append : (s t : Text) → trim_end t ≡ t → is_empty t ≡ false → trim_end (s ++ t) ≡ s ++ t
unfolding trim_end
trim_end-append [] t e solid = e
trim_end-append (c ∷ s) t e solid =
    ground (arith, trim_end-append s t e solid, is_empty-append s t solid)

-- A text that begins with no white space and ends in a trimmed text is trimmed.
pub trim-append :
    (c : ℕ) (s t : Text)
    → is_whitespace c ≡ false
    → trim t ≡ t
    → is_empty t ≡ false
    → trim (c ∷ s ++ t) ≡ c ∷ s ++ t
unfolding trim
trim-append c s t first e solid =
    let ends : trim_end t ≡ t = ap trim_end (sym e) ∙ trim_end-trim_end (trim_start t) ∙ e in
    ap trim_end (trim_start_id (c ∷ s ++ t) first) ∙ trim_end-append (c ∷ s) t ends solid
