-- ===== src/Crypto.antt =====
-- crates/meta-text-backend/src/crypto.rs: the envelope of a payload and the keys that payloads are
-- sealed under. The primitives of the crates chacha20poly1305, hkdf and x25519-dalek are parameters;
-- random bytes are arguments. A manager is built in one place per way to get a key.
pub mod Envelope
pub mod Static
pub mod Plain
mod Tests
use meta_text.Prelude.{
  ℕ, ◌≤◌, ◌≡◌, Bool, not, true, false, ◌||◌, List, [], ◌∷◌, ◌++◌, Option, none, some, Result, ok,
  err, length, take, drop, leb, ltb, ◌==◌, if◌then◌else◌, All,
}
use meta_text.Prelude.Bytes.{IsByte}
use meta_text.Prelude.Text.{Text, trim, to_ascii_uppercase, as_bytes, codes, is_empty}
use meta_text.Prelude.Text.Order.{lex_leb}

abbrev pub key_length : ℕ
key_length = 32

abbrev pub nonce_length : ℕ
nonce_length = 12

abbrev pub min_salt_length : ℕ
min_salt_length = 8

abbrev pub passphrase_salt : List ℕ
passphrase_salt = codes "metaText-shared-salt"

abbrev pub contact_key_label : List ℕ
contact_key_label = codes "metaText/contact-key/v1"

abbrev pub contact_key_length : ℕ
contact_key_length = 32

pub record Primitives : Type 0 where
  -- key, nonce, plaintext
  pub seal : List ℕ → List ℕ → List ℕ → Option (List ℕ)
  -- key, nonce, ciphertext
  pub unseal : List ℕ → List ℕ → List ℕ → Option (List ℕ)
  -- salt, keying material, `info`, and the count of bytes to expand to
  pub hkdf : List ℕ → List ℕ → List ℕ → ℕ → Option (List ℕ)
  -- Argon2id with its default parameters: password, salt, and the count of bytes
  pub argon2 : List ℕ → List ℕ → ℕ → Option (List ℕ)
  -- scalar, u-coordinate
  pub x25519 : List ℕ → List ℕ → List ℕ
  pub basepoint : List ℕ

-- What the crates document: opening undoes sealing, the tag makes the ciphertext longer than nothing,
-- an expansion to 32 bytes succeeds, and the agreement of two scalars does not depend on their order.
pub record PrimitiveLaws (prims : Primitives) : Type 0 where
  pub unseal-seal :
      (key nonce plain sealed : List ℕ)
      → prims.seal key nonce plain ≡ some sealed
      → prims.unseal key nonce sealed ≡ some plain
  pub seal_nonempty :
      (key nonce plain sealed : List ℕ)
      → prims.seal key nonce plain ≡ some sealed
      → 1 ≤ length sealed
  pub hkdf_expands :
      (salt ikm info : List ℕ)
      → (key : List ℕ) × (prims.hkdf salt ikm info key_length ≡ some key)
        × (length key ≡ key_length)
  pub x25519_agrees :
      (s t : List ℕ)
      → prims.x25519 s (prims.x25519 t prims.basepoint)
        ≡ prims.x25519 t (prims.x25519 s prims.basepoint)
  pub length-x25519 : (s p : List ℕ) → length (prims.x25519 s p) ≡ 32
  pub x25519-IsByte : (s p : List ℕ) → All IsByte (prims.x25519 s p)

pub data CryptoError : Type 0 where
  -- the length of the key
  invalid_key_length : ℕ → CryptoError
  -- the length of the salt
  salt_too_short : ℕ → CryptoError
  ciphertext_too_short encryption_failed decryption_failed : CryptoError
  identities_missing derivation_failed : CryptoError

pub record CryptoManager : Type 0 where
  pub enabled : Bool
  pub algorithm : Text
  pub key : List ℕ

-- `map_err` of a primitive that gives no reason
unfoldable pub or_error : CryptoError → Option (List ℕ) → Result CryptoError (List ℕ)
or_error e none = err e
or_error e (some bytes) = ok bytes

pub with_key : Bool → Text → List ℕ → Result CryptoError CryptoManager
with_key enable_encryption algorithm key =
    if not (length key == key_length)
    then err (invalid_key_length (length key))
    else ok (record { enabled = enable_encryption; algorithm = algorithm; key = key })

-- `nonce || ciphertext`
unfoldable pub with_nonce : List ℕ → Result CryptoError (List ℕ) → Result CryptoError (List ℕ)
with_nonce nonce (err e) = err e
with_nonce nonce (ok sealed) = ok (nonce ++ sealed)

pub normalize_identity : Text → Text
normalize_identity identity = to_ascii_uppercase (trim identity)

-- `format!("{low}:{high}")` of the ordered pair
pub pair_info : Text → Text → Text
unfolding lex_leb
pair_info own peer = if lex_leb own peer then own ++ codes ":" ++ peer else peer ++ codes ":" ++ own

module _ (prims : Primitives) where
  pub derive_key : Text → List ℕ → Result CryptoError (List ℕ)
  unfolding or_error
  derive_key password salt =
      if ltb (length salt) min_salt_length
      then err (salt_too_short (length salt))
      else or_error derivation_failed (prims.argon2 (as_bytes password) salt key_length)

  pub from_passphrase : Bool → Text → Text → Result CryptoError CryptoManager
  unfolding derive_key
  from_passphrase enable_encryption algorithm passphrase =
      elim (derive_key passphrase passphrase_salt) [
        | err e ↦ err e
        | ok key ↦ with_key enable_encryption algorithm key
      ]

  -- the nonce is the one that the random generator gives
  unfoldable pub encrypt_with :
      CryptoManager → List ℕ → List ℕ → List ℕ → Result CryptoError (List ℕ)
  unfolding with_nonce or_error
  encrypt_with manager nonce key plaintext =
      if not manager.enabled
      then ok plaintext
      else if not (length key == key_length)
      then err (invalid_key_length (length key))
      else with_nonce nonce (or_error encryption_failed (prims.seal key nonce plaintext))

  unfoldable pub encrypt : CryptoManager → List ℕ → List ℕ → Result CryptoError (List ℕ)
  encrypt manager nonce plaintext = encrypt_with manager nonce manager.key plaintext

  pub decrypt_with : CryptoManager → List ℕ → List ℕ → Result CryptoError (List ℕ)
  unfolding or_error
  decrypt_with manager key envelope =
      if not manager.enabled
      then ok envelope
      else if leb (length envelope) nonce_length
      then err ciphertext_too_short
      else if not (length key == key_length)
      then err (invalid_key_length (length key))
      else or_error decryption_failed
          (prims.unseal key (take nonce_length envelope) (drop nonce_length envelope))

  unfoldable pub decrypt : CryptoManager → List ℕ → Result CryptoError (List ℕ)
  decrypt manager envelope = decrypt_with manager manager.key envelope

  pub contact_key : List ℕ → Text → Text → Result CryptoError (List ℕ)
  unfolding normalize_identity pair_info or_error
  contact_key session_key own_identity peer_identity =
      let own = normalize_identity own_identity in
      let peer = normalize_identity peer_identity in
      if is_empty own || is_empty peer
      then err identities_missing
      else or_error derivation_failed (
          prims.hkdf contact_key_label session_key (as_bytes (pair_info own peer))
            contact_key_length)
