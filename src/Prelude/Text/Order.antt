-- ===== src/Prelude/Text/Order.antt =====
-- The lexicographic order that Rust's `<=` gives byte arrays, and strings by their code points.
use Prim.Native.Nat.{ℕ}
use mathlib.Core.Path.{◌≡◌, refl}
use mathlib.Core.Logic.{◌⊎◌, inl, inr}
use mathlib.Core.Bool.{Bool, true, false, ◌&&◌, ◌||◌}
use mathlib.Core.List.{List, [], ◌∷◌}
use native.Mathlib.Omega.{arith}
use meta_text.Prelude.Tests.{ltb, ◌==◌, Bool-cases}

unfoldable pub lex_leb : List ℕ → List ℕ → Bool
lex_leb [] t = true
lex_leb (c ∷ s) [] = false
lex_leb (c ∷ s) (d ∷ t) = let rest = lex_leb s t in ltb c d || (c == d && rest)

-- Two lists that are each at most the other are the same list.
pub lex_leb_antisym : (s t : List ℕ) → lex_leb s t ≡ true → lex_leb t s ≡ true → s ≡ t
unfolding lex_leb
lex_leb_antisym [] [] h k = refl
lex_leb_antisym [] (d ∷ t) h k = cc
lex_leb_antisym (c ∷ s) [] h k = cc
lex_leb_antisym (c ∷ s) (d ∷ t) h k = ground (arith, lex_leb_antisym s t)

pub lex_leb_total : (s t : List ℕ) → (lex_leb s t ≡ true) ⊎ (lex_leb t s ≡ true)
unfolding lex_leb
lex_leb_total [] t = inl refl
lex_leb_total (c ∷ s) [] = inr refl
lex_leb_total (c ∷ s) (d ∷ t) = ground (arith, lex_leb_total s t)

-- Of two different lists exactly one is at most the other.
pub lex_leb_flip :
    (s t : List ℕ)
    → ¬ (s ≡ t)
    → (lex_leb s t ≡ true) × (lex_leb t s ≡ false) ⊎ (lex_leb s t ≡ false) × (lex_leb t s ≡ true)
lex_leb_flip s t different = elim (lex_leb_total s t) [
  | inl h ↦ elim (Bool-cases (lex_leb t s)) [
    | inl k ↦ absurd (different (lex_leb_antisym s t h k))
    | inr k ↦ inl (h, k)
  ]
  | inr k ↦ elim (Bool-cases (lex_leb s t)) [
    | inl h ↦ absurd (different (lex_leb_antisym s t h k))
    | inr h ↦ inr (h, k)
  ]
]
