-- ===== src/Crypto/Plain.antt =====
-- Primitives that compute and keep the laws, for concrete runs: they hide nothing.
use meta_text.Prelude.{
  ℕ, zero, suc, ◌+◌, ◌%◌, ◌≤◌, ◌<◌, ◌≡◌, refl, ap, List, [], ◌∷◌, Option, none, some, length, All,
  arith,
}
use meta_text.Prelude.Bytes.{IsByte}
use meta_text.Crypto.{Primitives, PrimitiveLaws}

abbrev pub repeated : ℕ → ℕ → List ℕ
repeated zero b = []
repeated (suc n) b = b ∷ repeated n b

abbrev first_byte : List ℕ → ℕ
first_byte [] = 0
first_byte (b ∷ bs) = b

abbrev total : List ℕ → ℕ
total [] = 0
total (b ∷ bs) = b + total bs

abbrev untag : List ℕ → Option (List ℕ)
untag [] = none
untag (b ∷ bs) = some bs

abbrev mix : List ℕ → List ℕ → List ℕ
mix s p = repeated 32 ((first_byte s + first_byte p) % 256)

abbrev pub plain : Primitives
plain = record {
  seal = λ key nonce text. some (1 ∷ text);
  unseal = λ key nonce sealed. untag sealed;
  hkdf = λ salt material info n. some (repeated n (total info % 256));
  argon2 = λ password salt n. some (repeated n (total password % 256));
  x25519 = mix;
  basepoint = 9 ∷ [];
}

length-repeated : (n b : ℕ) → length (repeated n b) ≡ n
length-repeated zero b = refl
length-repeated (suc n) b = omega (arith, length-repeated n b)

pub repeated-IsByte : (n b : ℕ) → b < 256 → All IsByte (repeated n b)
repeated-IsByte zero b h = tt
repeated-IsByte (suc n) b h = (h, repeated-IsByte n b h)

unseal-seal :
    (key nonce text sealed : List ℕ)
    → plain.seal key nonce text ≡ some sealed
    → plain.unseal key nonce sealed ≡ some text
unseal-seal key nonce text [] e = cc
unseal-seal key nonce text (b ∷ sealed) e = cc

seal_nonempty :
    (key nonce text sealed : List ℕ) → plain.seal key nonce text ≡ some sealed → 1 ≤ length sealed
seal_nonempty key nonce text [] e = cc
seal_nonempty key nonce text (b ∷ sealed) e = omega arith

mixed : (a b : ℕ) → (a + (b + 9) % 256) % 256 ≡ (b + (a + 9) % 256) % 256
mixed a b = omega arith

pub plain_laws : PrimitiveLaws plain
plain_laws = record {
  unseal-seal = unseal-seal;
  seal_nonempty = seal_nonempty;
  hkdf_expands = λ salt material info.
      (repeated 32 (total info % 256), refl, length-repeated 32 (total info % 256));
  x25519_agrees = λ s t. ap (repeated 32) (mixed (first_byte s) (first_byte t));
  length-x25519 = λ s p. length-repeated 32 ((first_byte s + first_byte p) % 256);
  x25519-IsByte = λ s p. repeated-IsByte 32 ((first_byte s + first_byte p) % 256) (omega arith);
}
