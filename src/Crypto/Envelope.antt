-- ===== src/Crypto/Envelope.antt =====
-- Opening what was sealed, for crates/meta-text-backend/src/crypto.rs.
use meta_text.Prelude.{
  ℕ, ◌≡◌, inl, inr, List, ◌++◌, some, ok, length, take, drop, Option-cases, take-length-append,
  drop-length-append, length-append, arith,
}
use meta_text.Crypto.{
  Primitives, PrimitiveLaws, CryptoManager, nonce_length, encrypt_with, decrypt_with,
}

-- A nonce cuts off the front of the envelope that it starts.
opened_envelope :
    (prims : Primitives) (laws : PrimitiveLaws prims) (nonce key plain sealed : List ℕ)
    → length nonce ≡ nonce_length
    → prims.seal key nonce plain ≡ some sealed
    → prims.unseal key (take nonce_length (nonce ++ sealed)) (drop nonce_length (nonce ++ sealed))
      ≡ some plain
opened_envelope prims laws nonce key plain sealed size e =
    rw (← size, take-length-append nonce sealed, drop-length-append nonce sealed)
      (laws.unseal-seal key nonce plain sealed e)

-- Whatever a manager encrypts under a key, with a nonce of twelve bytes, every manager with the same
-- setting decrypts under that key to the same plaintext, also when encryption is off.
pub decrypt_with-encrypt_with :
    (prims : Primitives)
    → PrimitiveLaws prims
    → (sender receiver : CryptoManager) (nonce key plain envelope : List ℕ)
    → sender.enabled ≡ receiver.enabled
    → length nonce ≡ nonce_length
    → encrypt_with prims sender nonce key plain ≡ ok envelope
    → decrypt_with prims receiver key envelope ≡ ok plain
unfolding encrypt_with decrypt_with
decrypt_with-encrypt_with prims laws sender receiver nonce key plain envelope same size e =
    elim (Option-cases (prims.seal key nonce plain)) [
      | inl none_sealed ↦ grind (arith, none_sealed)
      | inr (sealed, is_sealed) ↦ grind (
        arith,
        opened_envelope prims laws nonce key plain sealed size is_sealed,
        laws.seal_nonempty key nonce plain sealed is_sealed,
        length-append nonce sealed,
      )
    ]
