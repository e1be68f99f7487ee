-- ===== src/Prelude/Stateful.antt =====
-- Fallible code that mutates what it borrows: the state comes back beside an error too.
use mathlib.Core.Path.{◌≡◌}
use meta_text.Prelude.Fallible.{Result, ok, err}

abbrev pub Exec {ℓ} : Type ℓ → Type ℓ → Type ℓ → Type ℓ
Exec E S A = S → Result E A × S

module _ {ℓ} {E S A : Type ℓ} where
  abbrev pub pure : A → Exec E S A
  pure a s = (ok a, s)

  abbrev pub raise : E → Exec E S A
  raise e s = (err e, s)

module _ {ℓ} {E S A B : Type ℓ} where
  abbrev pub resume : Result E A → (A → Exec E S B) → Exec E S B
  resume (ok a) f s = f a s
  resume (err e) f s = (err e, s)

  infixl 5 ◌>>=◌
  abbrev pub ◌>>=◌ : Exec E S A → (A → Exec E S B) → Exec E S B
  ◌>>=◌ m f s = let (r, s') = m s in resume r f s'

  -- The statement after one that succeeded.
  pub >>=_ok :
      (m : Exec E S A) (f : A → Exec E S B) (s : S) {a : A} {s' : S}
      → m s ≡ (ok a, s')
      → (m >>= f) s ≡ f a s'
  >>=_ok m f s e = rw e

module _ {ℓ} {E S B : Type ℓ} where
  infixl 5 ◌>>◌
  abbrev pub ◌>>◌ : {A : Type ℓ} → Exec E S A → Exec E S B → Exec E S B
  m >> n = m >>= λ _. n
