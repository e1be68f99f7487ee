-- ===== src/Prelude/Assoc/Distinct.antt =====
-- Maps that hold each key once.
use mathlib.Core.Path.{◌≡◌, refl, subst₂}
use mathlib.Core.Logic.{inl, inr}
use mathlib.Core.Option.{none, some}
use mathlib.Core.List.{List, [], ◌∷◌}
use native.Mathlib.Omega.{arith}
use meta_text.Prelude.Tests.{Bool-cases}
use meta_text.Prelude.Assoc.{Key, lookup, insert, remove, lookup-insert, lookup-remove}

module _ {ℓ} {K V : Type ℓ} ⦃key : Key K⦄ where
  abbrev pub Distinct : List (K × V) → Type ℓ
  Distinct [] = Unit
  Distinct ((k, v) ∷ m) = (lookup k m ≡ none) × Distinct m

-- Every entry satisfies `P`.
module _ {ℓ} {K V : Type ℓ} where
  abbrev pub Entries {κ} : (K → V → Type κ) → List (K × V) → Type κ
  Entries P [] = Unit
  Entries P ((k, v) ∷ m) = P k v × Entries P m

module _ {ℓ} {K V : Type ℓ} ⦃key : Key K⦄ where
  pub insert-Distinct : (k : K) (v : V) (m : List (K × V)) → Distinct m → Distinct (insert k v m)
  unfolding lookup insert
  insert-Distinct k v [] d = (refl, tt)
  insert-Distinct k v ((j, w) ∷ m) (fresh, d) =
      ground
        (arith, key.beq_iff j k, key.beq_iff k j, lookup-insert k j v m, insert-Distinct k v m d)

  pub remove-Distinct : (k : K) (m : List (K × V)) → Distinct m → Distinct (remove k m)
  unfolding remove
  remove-Distinct k [] d = tt
  remove-Distinct k ((j, w) ∷ m) (fresh, d) =
      ground (arith, key.beq_iff j k, lookup-remove k j m, remove-Distinct k m d)

  pub insert-Entries {κ} :
      (P : K → V → Type κ) (k : K) (v : V) (m : List (K × V))
      → P k v
      → Entries P m
      → Entries P (insert k v m)
  unfolding insert
  insert-Entries P k v [] p e = (p, tt)
  insert-Entries P k v ((j, w) ∷ m) p (q, e) = elim (Bool-cases (key.beq j k)) [
    | inl same ↦ rw same (p, e)
    | inr other ↦ rw other (q, insert-Entries P k v m p e)
  ]

  pub lookup-Entries {κ} :
      (P : K → V → Type κ) (k : K) {v : V} (m : List (K × V))
      → Entries P m
      → lookup k m ≡ some v
      → P k v
  unfolding lookup
  lookup-Entries P k [] e h = cc
  lookup-Entries P k {v} ((j, w) ∷ m) (q, e) h = elim (Bool-cases (key.beq j k)) [
    | inl same ↦ let here : w ≡ v = ground arith in subst₂ P ((key.beq_iff j k).0 same) here q
    | inr other ↦ lookup-Entries P k m e (ground arith)
  ]

  pub remove-Entries {κ} :
      (P : K → V → Type κ) (k : K) (m : List (K × V)) → Entries P m → Entries P (remove k m)
  unfolding remove
  remove-Entries P k [] e = tt
  remove-Entries P k ((j, w) ∷ m) (q, e) = elim (Bool-cases (key.beq j k)) [
    | inl same ↦ rw same (remove-Entries P k m e)
    | inr other ↦ rw other (q, remove-Entries P k m e)
  ]
